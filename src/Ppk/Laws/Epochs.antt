-- ===== src/Ppk/Laws/Epochs.antt =====
-- The week and the time of week that the worker stores, and the hour that the backlog reads from them.
use mathlib.Core.Path.{subst}
use slope_monitoring.Common.{
  ◌⊎◌, inl, inr, true, false, Option, List, [], ◌∷◌, eq_iff, ℕ, ◌+◌, ◌-◌, ◌*◌, ◌<◌, ◌≡◌, refl, ap,
  arith,
}
use slope_monitoring.Errors.{ok}
use slope_monitoring.Blast.Values.{Value, Timestamp, aware}
use slope_monitoring.Ppk.Jobs.{second, week_length, gps_epoch_2026, SolutionRow}
use slope_monitoring.Ppk.Hours.{hour_start}
use slope_monitoring.Ppk.Backlog.{
  solution_hour, solution_keys, is_rover, has_solution, JobRow, Window, is_eligible,
}

-- The week and the time of week of a time in 2026 give the time back, and the time of week is less
-- than a week.
gps_epoch_2026-decodes :
    (t week tow : ℕ)
    → gps_epoch_2026 (aware t) ≡ ok (week, tow)
    → (315964800 * second + week * week_length + tow ≡ t + 18 * second) × (tow < week_length)
unfolding gps_epoch_2026
gps_epoch_2026-decodes t week tow h = ground arith

-- Whatever epoch the worker stores of a solution, the backlog counts it for the hour that the
-- solution lies in.
solution_hour-gps_epoch_2026 :
    (t week tow : ℕ)
    → gps_epoch_2026 (aware t) ≡ ok (week, tow)
    → solution_hour week tow ≡ hour_start t
unfolding solution_hour
solution_hour-gps_epoch_2026 t week tow h =
    let back : (315964800 + week * 604800) * second + tow - 18 * second ≡ t =
      omega (arith, (gps_epoch_2026-decodes t week tow h).0) in
    ap hour_start back

abbrev pub Holds : {Measured : Type 0} → SolutionRow Measured → List (SolutionRow Measured) → Type 0
Holds r [] = ⊥
Holds r (x ∷ xs) = (r ≡ x) ⊎ Holds r xs

has_solution-key :
    {Measured : Type 0} (r : SolutionRow Measured) (rows : List (SolutionRow Measured))
    → Holds r rows
    → is_rover r.rover_device_id ≡ true
    → has_solution r.rover_device_id
        (solution_hour r.gps_week r.gps_tow)
        (solution_keys r.site_id rows)
      ≡ true
unfolding has_solution solution_keys
has_solution-key r [] h one = absurd h
has_solution-key r (x ∷ xs) (inl e) one =
    subst
      (λ y.
        has_solution r.rover_device_id (solution_hour r.gps_week r.gps_tow)
          (solution_keys r.site_id (y ∷ xs))
        ≡ true)
      e (ground (arith, eq_iff r.site_id r.site_id, eq_iff r.rover_device_id r.rover_device_id))
has_solution-key r (x ∷ xs) (inr h) one = ground (arith, has_solution-key r xs h one)

-- The backlog takes no window that the worker has stored a solution in: if a row of the table, of one
-- of the two rovers, has the epoch of a time in 2026, the hour of that time is not eligible for the
-- row's rover.
pub stored_not_eligible :
    (isoformat : ℕ → List ℕ) (fromisoformat : Value → Option Timestamp) {Measured : Type 0}
    (r : SolutionRow Measured) (rows : List (SolutionRow Measured)) (t : ℕ) (jobs : List JobRow)
    (cooldowns : List (List ℕ × Value)) (now max_failed_attempts : ℕ) (w : Window)
    → Holds r rows
    → is_rover r.rover_device_id ≡ true
    → gps_epoch_2026 (aware t) ≡ ok (r.gps_week, r.gps_tow)
    → w.rover ≡ r.rover_device_id
    → w.start ≡ hour_start t
    → is_eligible isoformat fromisoformat jobs
        (solution_keys r.site_id rows)
        cooldowns
        now
        max_failed_attempts
        w
      ≡ false
unfolding is_eligible
stored_not_eligible isoformat fromisoformat r rows t jobs cooldowns now max_failed_attempts w held
      one epoch rover start =
    let hour_of = solution_hour-gps_epoch_2026 t r.gps_week r.gps_tow epoch in
    let key =
      subst (λ x. has_solution r.rover_device_id x (solution_keys r.site_id rows) ≡ true) hour_of
        (has_solution-key r rows held one) in
    rw (rover, start, key) refl
