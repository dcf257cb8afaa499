-- ===== src/Ppk/Hours.antt =====
-- scripts/ppk_qa_scheduler.py: which windows and rovers a run takes. Times are microseconds since
-- 1970. `fromisoformat` is a parameter, `none` where it raises.
use slope_monitoring.Common.{
  ℕ, zero, suc, ◌+◌, ◌-◌, ◌*◌, ◌/◌, ◌%◌, String, Bool, true, false, ◌&&◌, ◌||◌, Option, none, some,
  List, [], ◌∷◌, ◌++◌, length, all, leb, ◌==◌, str_eq, if◌then◌else◌,
}
use slope_monitoring.Common.Int.{ℤ, pos, pos_part, leb_ℤ}
use slope_monitoring.Common.Text.{codes}
use slope_monitoring.Errors.{Result, ok, err, value_error, index_error, require, ◌>>=◌, ◌>>◌}
use slope_monitoring.Blast.Values.{Timestamp, naive, aware, minute}

abbrev pub hour : ℕ
hour = 60 * minute

-- t.replace(minute=0, second=0, microsecond=0), and date_trunc('hour', t)
unfoldable pub hour_start : ℕ → ℕ
hour_start t = t - t % hour

-- the last n hours before `end`, the earliest first
unfoldable pub hours_before : ℕ → ℕ → List (ℕ × ℕ)
hours_before end zero = []
hours_before end (suc i) = (end - suc i * hour, end - i * hour) ∷ hours_before end i

unfoldable pub windows : Timestamp → ℤ → ℤ → Result (List (ℕ × ℕ))
windows (naive now) grace_minutes backfill_hours = err value_error
windows (aware now) grace_minutes backfill_hours = do
  require
      (leb_ℤ (pos 10) grace_minutes
        && leb_ℤ grace_minutes (pos 180)
        && leb_ℤ (pos 1) backfill_hours
        && leb_ℤ backfill_hours (pos 6))
      value_error
  let end = hour_start (now - pos_part grace_minutes * minute)
  ok (hours_before end (pos_part backfill_hours))

-- recent[-1][1]
unfoldable pub last_end : List (ℕ × ℕ) → Result ℕ
last_end [] = err index_error
last_end (x ∷ []) = ok x.1
last_end (x ∷ y ∷ ys) = last_end (y ∷ ys)

-- [(beginning + i hours, beginning + (i + 1) hours) for i in range(count)]
unfoldable pub hours_from : ℕ → ℕ → List (ℕ × ℕ)
hours_from beginning zero = []
hours_from beginning (suc n) = (beginning, beginning + hour) ∷ hours_from (beginning + hour) n

-- s.replace('Z', '+00:00')
unfoldable pub replace_z : List ℕ → List ℕ
replace_z [] = []
replace_z (c ∷ s) = if c == 90 then codes "+00:00" ++ replace_z s else c ∷ replace_z s

unfoldable pub utc_of : Option Timestamp → Result ℕ
utc_of (some (aware t)) = ok t
utc_of t = err value_error

-- The backlog from `beginning` to `finish`. Where `finish` is earlier the source's count is negative,
-- and refused like 0.
unfoldable pub backlog_windows : ℕ → ℕ → ℕ → ℕ → Result (List (ℕ × ℕ))
backlog_windows beginning finish max_windows cutoff = do
  require (beginning % hour == 0 && finish % hour == 0) value_error
  let count = (finish - beginning) / hour
  require (leb 1 count && leb count max_windows && beginning + count * hour == finish) value_error
  require (leb finish cutoff) value_error
  ok (hours_from beginning count)

module _ (fromisoformat : List ℕ → Option Timestamp) where
  unfoldable pub bound_of : List ℕ → Result ℕ
  bound_of s = utc_of (fromisoformat (replace_z s))

  unfoldable pub planned_windows :
      Timestamp → ℤ → ℤ → Option (List ℕ) → Option (List ℕ) → ℕ → Result (List (ℕ × ℕ))
  planned_windows now grace_minutes backfill_hours none none max_windows =
      windows now grace_minutes backfill_hours
  planned_windows now grace_minutes backfill_hours (some since) none max_windows =
      windows now grace_minutes backfill_hours >>= λ recent. err value_error
  planned_windows now grace_minutes backfill_hours none (some until) max_windows =
      windows now grace_minutes backfill_hours >>= λ recent. err value_error
  planned_windows now grace_minutes backfill_hours (some since) (some until) max_windows = do
    recent ← windows now grace_minutes backfill_hours
    beginning ← bound_of since
    finish ← bound_of until
    cutoff ← last_end recent
    backlog_windows beginning finish max_windows cutoff

abbrev pub max_batch_windows : ℕ
max_batch_windows = 24

abbrev pub default_rovers : List String
default_rovers = "ROVER-B1-01" ∷ "ROVER-B1-02" ∷ []

unfoldable pub is_member : String → List String → Bool
is_member r [] = false
is_member r (x ∷ xs) = str_eq x r || is_member r xs

-- list(dict.fromkeys(...)): the keys that are not in `seen`, in their order
unfoldable pub distinct : List String → List String → List String
distinct seen [] = []
distinct seen (r ∷ rs) = if is_member r seen then distinct seen rs else r ∷ distinct (r ∷ seen) rs

-- rover_args or DEFAULT_ROVERS
unfoldable pub given_rovers : List String → List String
given_rovers [] = default_rovers
given_rovers (r ∷ rs) = r ∷ rs

unfoldable pub has_items : List String → Bool
has_items [] = false
has_items (x ∷ xs) = true

unfoldable pub selected_rovers : List String → Result (List String)
selected_rovers rover_args =
    let rovers = distinct [] (given_rovers rover_args) in
    require
      (has_items rovers && leb (length rovers) 2 && all (λ r. is_member r default_rovers) rovers)
      value_error
    >>= λ u. ok rovers
