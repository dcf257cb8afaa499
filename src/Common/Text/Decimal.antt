-- ===== src/Common/Text/Decimal.antt =====
-- A decimal text has no spaces, so `strip` leaves it alone.
use mathlib.Core.List.{reverse, reverse_aux, reverse-reverse}
use slope_monitoring.Common.Tests.{Bool-cases, leb}
use slope_monitoring.Common.Lists.{All}
use slope_monitoring.Common.Int.{pos}
use slope_monitoring.Common.Text.{is_space, drop_spaces, strip, text_eq, digits_from, show_int}
use Prim.Native.Nat.{ℕ, zero, suc, ◌+◌, ◌/◌, ◌%◌, ◌≤◌}
use mathlib.Core.Bool.{true, false}
use mathlib.Core.List.{List, [], ◌∷◌}
use mathlib.Core.Path.{◌≡◌, refl}
use mathlib.Core.Logic.{inl, inr}
use native.Mathlib.Omega.{arith}

abbrev IsSolid : List ℕ → Type 0
IsSolid s = All (λ c. is_space c ≡ false) s

digit-IsSolid : (d : ℕ) → d ≤ 9 → is_space (48 + d) ≡ false
unfolding is_space
digit-IsSolid d h = ground arith

digits_from-IsSolid : (fuel n : ℕ) (acc : List ℕ) → IsSolid acc → IsSolid (digits_from fuel n acc)
unfolding digits_from
digits_from-IsSolid zero n acc h = h
digits_from-IsSolid (suc fuel) n acc h = elim (Bool-cases (leb n 9)) [
  | inl e ↦ rw e (digit-IsSolid n (ground (arith, e)), h)
  | inr e ↦ rw e (
      digits_from-IsSolid fuel (n / 10) ((48 + n % 10) ∷ acc)
        (digit-IsSolid (n % 10) (omega arith), h))
]

reverse_aux-IsSolid : (s t : List ℕ) → IsSolid s → IsSolid t → IsSolid (reverse_aux s t)
reverse_aux-IsSolid [] t hs ht = ht
reverse_aux-IsSolid (c ∷ s) t hs ht = reverse_aux-IsSolid s (c ∷ t) hs.1 (hs.0, ht)

drop_spaces-IsSolid : (s : List ℕ) → IsSolid s → drop_spaces s ≡ s
unfolding drop_spaces
drop_spaces-IsSolid [] h = refl
drop_spaces-IsSolid (c ∷ s) h = rw h.0

strip-IsSolid : (s : List ℕ) → IsSolid s → strip s ≡ s
unfolding strip
strip-IsSolid s h =
    rw (drop_spaces-IsSolid s h)
      (rw (drop_spaces-IsSolid (reverse s) (reverse_aux-IsSolid s [] h tt)) (reverse-reverse s))

pub strip-show_int : (n : ℕ) → strip (show_int (pos n)) ≡ show_int (pos n)
unfolding show_int
strip-show_int n = strip-IsSolid _ (digits_from-IsSolid (suc n) n [] tt)

pub text_eq_refl : (s : List ℕ) → text_eq s s ≡ true
unfolding text_eq
text_eq_refl [] = refl
text_eq_refl (c ∷ s) = ground (arith, text_eq_refl s)
