-- ===== src/Ppk/Backlog.antt =====
-- scripts/ppk_qa_backlog.py: which windows are taken next. `isoformat` and `fromisoformat` are
-- parameters; the latter gives `none` for ValueError and TypeError.
use slope_monitoring.Common.{
  ℕ, ◌+◌, ◌-◌, ◌*◌, String, Bool, true, false, not, ◌&&◌, ◌||◌, Option, none, some, some_or, List,
  [], ◌∷◌, ◌++◌, any, take, ltb, leb, ◌==◌, str_eq, if◌then◌else◌,
}
use slope_monitoring.Common.Int.{pos, negsuc}
use slope_monitoring.Common.Text.{codes, text_eq}
use slope_monitoring.Errors.{Result, value_error, ok, require, ◌>>=◌}
use slope_monitoring.Blast.Values.{Value, null, boolean, integer, text, opaque, Timestamp, aware}
use slope_monitoring.Ppk.Jobs.{Status, failed, second, SolutionRow}
use slope_monitoring.Ppk.Hours.{hour_start}

-- date_trunc('hour', ...) of SOLUTION_SQL: the window of a stored solution
unfoldable pub solution_hour : ℕ → ℕ → ℕ
solution_hour week tow = hour_start ((315964800 + week * 604800) * second + tow - 18 * second)

-- ROVERS
abbrev pub rovers : List String
rovers = "ROVER-B1-01" ∷ "ROVER-B1-02" ∷ []

-- rover = ANY(ROVERS)
unfoldable pub is_rover : String → Bool
is_rover rover = any (λ r. str_eq r rover) rovers

-- SOLUTION_SQL, where a key may occur more than once, which GROUP BY leaves out
unfoldable pub solution_keys :
    {Measured : Type 0} → String → List (SolutionRow Measured) → List (String × ℕ)
solution_keys site [] = []
solution_keys site (r ∷ rs) =
    if str_eq r.site_id site && is_rover r.rover_device_id
    then (r.rover_device_id, solution_hour r.gps_week r.gps_tow) ∷ solution_keys site rs
    else solution_keys site rs

pub record Window : Type 0 where
  pub rover : String
  pub start : ℕ
  pub matched : ℕ

-- a tuple of `jobs`
pub record JobRow : Type 0 where
  pub rover : String
  pub start : ℕ
  pub status : Status
  pub attempts : Option ℕ

-- key in set(solutions)
unfoldable pub has_solution : String → ℕ → List (String × ℕ) → Bool
has_solution rover start [] = false
has_solution rover start (x ∷ xs) =
    (str_eq x.0 rover && x.1 == start) || has_solution rover start xs

unfoldable pub is_of : String → ℕ → JobRow → Bool
is_of rover start j = str_eq j.rover rover && j.start == start

unfoldable pub blocks : JobRow → Bool
blocks j = elim j.status [ failed ↦ false | _ ↦ true ]

unfoldable pub is_blocked : String → ℕ → List JobRow → Bool
is_blocked rover start [] = false
is_blocked rover start (j ∷ js) = (is_of rover start j && blocks j) || is_blocked rover start js

-- failed.get(key, 0)
unfoldable pub failed_attempts : String → ℕ → List JobRow → ℕ
failed_attempts rover start [] = 0
failed_attempts rover start (j ∷ js) =
    let rest = failed_attempts rover start js in
    if is_of rover start j && not (blocks j) && ltb rest (some_or 0 j.attempts)
    then some_or 0 j.attempts
    else rest

-- bool(value)
unfoldable pub is_truthy : Value → Bool
is_truthy null = false
is_truthy (boolean b) = b
is_truthy (integer (pos n)) = not (n == 0)
is_truthy (integer (negsuc n)) = true
is_truthy (text s) = not (text_eq (codes s) [])
is_truthy (opaque o) = o.truthy

-- cooldowns.get(key)
unfoldable pub lookup : List ℕ → List (List ℕ × Value) → Option Value
lookup key [] = none
lookup key (x ∷ xs) = if text_eq x.0 key then some x.1 else lookup key xs

-- s <= t, by code points
unfoldable pub text_leb : List ℕ → List ℕ → Bool
text_leb [] t = true
text_leb (c ∷ s) [] = false
text_leb (c ∷ s) (d ∷ t) = ltb c d || (c == d && text_leb s t)

-- (a.start, a.rover) <= (b.start, b.rover)
unfoldable pub key_leb : Window → Window → Bool
key_leb a b =
    ltb a.start b.start || (a.start == b.start && text_leb (codes a.rover) (codes b.rover))

-- the order of the sort, reversed for `newest_first`
unfoldable pub in_order : Bool → Window → Window → Bool
in_order newest_first a b = if newest_first then key_leb b a else key_leb a b

unfoldable pub insert_window : Bool → Window → List Window → List Window
insert_window newest_first w [] = w ∷ []
insert_window newest_first w (x ∷ xs) =
    if in_order newest_first w x then w ∷ x ∷ xs else x ∷ insert_window newest_first w xs

-- the stable sort, which keeps the order of equal keys in either direction
unfoldable pub sort_windows : Bool → List Window → List Window
sort_windows newest_first [] = []
sort_windows newest_first (w ∷ ws) = insert_window newest_first w (sort_windows newest_first ws)

module _ (isoformat : ℕ → List ℕ) (fromisoformat : Value → Option Timestamp) where
  -- the `try` block: the stamp is readable, has a time zone and is past
  unfoldable pub is_past : ℕ → Option Timestamp → Bool
  is_past now (some (aware stamp)) = not (ltb now stamp)
  is_past now stamp = false

  unfoldable pub is_cool : ℕ → Option Value → Bool
  is_cool now none = true
  is_cool now (some v) = not (is_truthy v) || is_past now (fromisoformat v)

  unfoldable pub is_eligible :
      List JobRow → List (String × ℕ) → List (List ℕ × Value) → ℕ → ℕ → Window → Bool
  is_eligible jobs solutions cooldowns now max_failed_attempts w =
      not (
        has_solution w.rover w.start solutions
        || is_blocked w.rover w.start jobs
        || leb max_failed_attempts (failed_attempts w.rover w.start jobs))
      && is_cool now (lookup (codes w.rover ++ 124 ∷ isoformat w.start) cooldowns)

  unfoldable pub eligible_of :
      List JobRow → List (String × ℕ) → List (List ℕ × Value) → ℕ → ℕ → List Window → List Window
  eligible_of jobs solutions cooldowns now max_failed_attempts [] = []
  eligible_of jobs solutions cooldowns now max_failed_attempts (w ∷ ws) =
      let rest = eligible_of jobs solutions cooldowns now max_failed_attempts ws in
      if is_eligible jobs solutions cooldowns now max_failed_attempts w then w ∷ rest else rest

  unfoldable pub select_windows :
      List Window
      → List JobRow
      → List (String × ℕ)
      → List (List ℕ × Value)
      → ℕ
      → ℕ
      → ℕ
      → Bool
      → Result (List Window)
  select_windows candidates jobs solutions cooldowns now limit max_failed_attempts newest_first =
      require (leb 1 limit && leb limit 3) value_error >>= λ u. ok (
        take limit (
          sort_windows newest_first
            (eligible_of jobs solutions cooldowns now max_failed_attempts candidates)))
