-- ===== src/Common/Text.antt =====
-- Python's text operations that the program uses, over the code points of a text: `strip`, `lower`,
-- `str` of an integer and `int` of a text. `lower` maps the ASCII letters; the program compares its
-- results with ASCII words only. `int` reads ASCII digits, with signs and underscores as Python does.
pub mod Decimal
use Prim.Native.Nat.{ℕ, zero, suc, ◌+◌, ◌-◌, ◌*◌, ◌/◌, ◌%◌}
use Prim.Native.Char.{code}
use Prim.Native.String.{String}
use mathlib.Core.Bool.{Bool, true, false, ◌&&◌, ◌||◌}
use mathlib.Core.Option
use mathlib.Core.Option.{Option, none, some}
use mathlib.Core.List.{List, [], ◌∷◌, reverse, map}
use mathlib.Core.Path.{◌≡◌, refl}
use slope_monitoring.Common.Tests.{leb, ◌==◌, if◌then◌else◌}
use slope_monitoring.Common.Int.{ℤ, pos, negsuc}

abbrev pub codes : String → List ℕ
codes String.[] = []
codes (String.◌∷◌ c s) = code c ∷ codes s

-- code points that `str.isspace` accepts
unfoldable pub is_space : ℕ → Bool
is_space c =
    (leb 9 c && leb c 13)
    || (leb 28 c && leb c 32)
    || c == 133
    || c == 160
    || c == 5760
    || (leb 8192 c && leb c 8202)
    || c == 8232
    || c == 8233
    || c == 8239
    || c == 8287
    || c == 12288

drop_spaces : List ℕ → List ℕ
drop_spaces [] = []
drop_spaces (c ∷ s) = if is_space c then drop_spaces s else c ∷ s

-- s.strip()
unfoldable pub strip : List ℕ → List ℕ
unfolding drop_spaces is_space
strip s = reverse (drop_spaces (reverse (drop_spaces s)))

lower_code : ℕ → ℕ
lower_code c = if leb 65 c && leb c 90 then c + 32 else c

-- s.lower()
unfoldable pub lower : List ℕ → List ℕ
unfolding lower_code
lower s = map lower_code s

-- s == t
unfoldable pub text_eq : List ℕ → List ℕ → Bool
text_eq [] [] = true
text_eq [] (d ∷ t) = false
text_eq (c ∷ s) [] = false
text_eq (c ∷ s) (d ∷ t) = c == d && text_eq s t

-- the decimal digits of n, in front of `acc`; `fuel` above n is enough
digits_from : ℕ → ℕ → List ℕ → List ℕ
digits_from zero n acc = acc
digits_from (suc fuel) n acc =
    let rest = digits_from fuel (n / 10) ((48 + n % 10) ∷ acc) in
    if leb n 9 then (48 + n) ∷ acc else rest

-- str(n)
unfoldable pub show_int : ℤ → List ℕ
unfolding digits_from
show_int (pos n) = digits_from (suc n) n []
show_int (negsuc n) = 45 ∷ digits_from (suc (suc n)) (suc n) []

is_digit : ℕ → Bool
is_digit c = leb 48 c && leb c 57

-- digits, where an underscore may stand between two of them; `open` says that a digit came last
digits_value : Bool → ℕ → List ℕ → Option ℕ
digits_value false n [] = none
digits_value true n [] = some n
digits_value last n (c ∷ s) =
    let value = digits_value true (n * 10 + (c - 48)) s in
    let under = digits_value false n s in
    if is_digit c then value else if last && c == 95 then under else none

negate : ℕ → ℤ
negate zero = pos 0
negate (suc n) = negsuc n

signed : List ℕ → Option ℤ
signed [] = none
signed (c ∷ s) =
    if c == 45
    then Option.map negate (digits_value false 0 s)
    else if c == 43
    then Option.map pos (digits_value false 0 s)
    else Option.map pos (digits_value false 0 (c ∷ s))

-- int(s), with `none` for ValueError
unfoldable pub int_of_text : List ℕ → Option ℤ
unfolding signed digits_value negate is_digit strip
int_of_text s = signed (strip s)

show_int_test : show_int (negsuc 119) ≡ codes "-120"
unfolding show_int
show_int_test = refl

int_of_text_test : int_of_text (codes " 1_20 ") ≡ some (pos 120)
unfolding int_of_text
int_of_text_test = refl

int_of_text_refused : int_of_text (codes "_5") ≡ none
unfolding int_of_text
int_of_text_refused = refl
