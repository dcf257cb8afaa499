-- ===== src/Blast/Values.antt =====
-- The JSON values of device_config.config_value as Python sees them, and
-- services/device_config_service/blast_expiry.py over them.
use slope_monitoring.Common.{
  ℕ, ◌+◌, ◌*◌, String, ◌≡◌, refl, Bool, true, false, ◌||◌, Option, none, some, List, leb, ltb,
  if◌then◌else◌,
}
use slope_monitoring.Common.Int.{ℤ, pos, negsuc}
use slope_monitoring.Errors.{Result, ok, err, overflow_error}
use slope_monitoring.Common.Text.{codes, strip, lower, text_eq, show_int, int_of_text}

-- A float or a container, as far as the program looks at it: str(), bool(), the integer that it
-- compares equal to, and int(), where
-- `none` is an exception (OverflowError or ValueError for inf and nan, TypeError for a container).
pub record Opaque : Type 0 where
  pub shown : List ℕ
  pub truthy : Bool
  pub int_part : Option ℤ
  pub equals_int : Option ℤ

pub data Value : Type 0 where
  null : Value
  boolean : Bool → Value
  integer : ℤ → Value
  text : String → Value
  opaque : Opaque → Value

-- str(value)
unfoldable pub py_str : Value → List ℕ
py_str null = codes "None"
py_str (boolean true) = codes "True"
py_str (boolean false) = codes "False"
py_str (integer n) = show_int n
py_str (text s) = codes s
py_str (opaque o) = o.shown

-- int(value), with `none` for TypeError, ValueError and OverflowError
unfoldable pub py_int : Value → Option ℤ
py_int null = none
py_int (boolean true) = some (pos 1)
py_int (boolean false) = some (pos 0)
py_int (integer n) = some n
py_int (text s) = int_of_text (codes s)
py_int (opaque o) = o.int_part

-- str(row['config_value']).strip().lower() in ('1', 'true')
unfoldable pub is_active : Value → Bool
unfolding py_str show_int strip lower text_eq
is_active v =
    let word = lower (strip (py_str v)) in text_eq word (codes "1") || text_eq word (codes "true")

-- A point of time, in microseconds. `naive` has no time zone; of an aware one only the instant
-- in UTC is kept, which is all that `astimezone(timezone.utc)` keeps.
pub data Timestamp : Type 0 where
  naive : ℕ → Timestamp
  aware : ℕ → Timestamp

abbrev pub minute : ℕ
minute = 60000000

is_boolean : Value → Bool
is_boolean (boolean b) = true
is_boolean v = false

-- `minutes <= 0 or str(timeout_minutes).strip() != str(minutes)` refuses
accepted_minutes : Value → Option ℤ → Option ℕ
accepted_minutes v none = none
accepted_minutes v (some (negsuc n)) = none
accepted_minutes v (some (pos n)) =
    if leb n 0 then none else if text_eq (strip (py_str v)) (show_int (pos n)) then some n else none

-- The minutes that the `try` block lets through; `none` where it returns True.
unfoldable pub timeout_of : Value → Option ℕ
unfolding is_boolean accepted_minutes py_str py_int show_int strip text_eq int_of_text
timeout_of v = if is_boolean v then none else accepted_minutes v (py_int v)

-- the first instant after the year 9999, which no datetime reaches
abbrev pub end_of_dates : ℕ
end_of_dates = 253402300800 * 1000000

-- The sum raises OverflowError past the year 9999; a timedelta holds more than that.
unfoldable pub passed : Option ℕ → ℕ → ℕ → Result Bool
passed none started now = ok true
passed (some minutes) started now =
    if ltb (started + minutes * minute) end_of_dates
    then ok (leb (started + minutes * minute) now)
    else err overflow_error

-- expired(started_at, timeout_minutes, now)
unfoldable pub expired : Option Timestamp → Value → Timestamp → Result Bool
unfolding passed
expired none timeout now = ok true
expired (some (naive s)) timeout now = ok true
expired (some (aware s)) timeout (naive n) = ok true
expired (some (aware s)) timeout (aware n) = passed (timeout_of timeout) s n

active_one : is_active (integer (pos 1)) ≡ true
unfolding is_active
active_one = refl

active_text : is_active (text " TRUE") ≡ true
unfolding is_active
active_text = refl

active_zero : is_active (integer (pos 0)) ≡ false
unfolding is_active
active_zero = refl

timeout_canonical : timeout_of (text " 30 ") ≡ some 30
unfolding timeout_of
timeout_canonical = refl

timeout_padded : timeout_of (text "030") ≡ none
unfolding timeout_of
timeout_padded = refl
