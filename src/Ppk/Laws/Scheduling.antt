-- ===== src/Ppk/Laws/Scheduling.antt =====
-- A run of the scheduler: its gates, its records and its exit code.
use mathlib.Core.Path.{subst}
use slope_monitoring.Common.{
  ℕ, String, ◌≡◌, refl, sym, ap, ◌∙◌, ◌↔◌, Bool, true, false, not, ◌||◌, Option, List, [], ◌∷◌,
  ◌++◌, map, All, arith,
}
use slope_monitoring.Errors.{ok, bind-ok, ok-injective}
use slope_monitoring.Blast.Values.{Timestamp}
use slope_monitoring.Ppk.Hours.{planned_windows, selected_rovers, max_batch_windows}
use slope_monitoring.Ppk.Nav.{Product, Nav, found, waiting, refused, Cache}
use slope_monitoring.Ppk.Schedule.{
  Settings, Args, Worker, Record, is_failure, check_settings, outcome_of, run_rovers, run_selected,
  exit_code, run,
}

-- each window with each rover, in this order
abbrev pub pairs : List (ℕ × ℕ) → List String → List ((ℕ × ℕ) × String)
pairs [] rovers = []
pairs (w ∷ ws) rovers = map (λ r. (w, r)) rovers ++ pairs ws rovers

abbrev pub target : Record → (ℕ × ℕ) × String
target r = (r.window, r.rover)

map-append_lem : (xs ys : List Record) → map target (xs ++ ys) ≡ map target xs ++ map target ys
map-append_lem [] ys = refl
map-append_lem (x ∷ xs) ys = ap (λ zs. target x ∷ zs) (map-append_lem xs ys)

module _ (nav_for : ℕ → ℕ → Cache → Nav (Product × ℕ × String) × Cache)
    (worker : ℕ × ℕ → String → Product × ℕ × String → Worker) where
  outcome_of-target :
      (w : ℕ × ℕ) (rover : String) (nav : Nav (Product × ℕ × String))
      → target (outcome_of nav_for worker w rover nav) ≡ (w, rover)
  unfolding outcome_of
  outcome_of-target w rover waiting = refl
  outcome_of-target w rover refused = refl
  outcome_of-target w rover (found nav) = refl

  run_rovers-target :
      (w : ℕ × ℕ) (rovers : List String) (c : Cache)
      → map target (run_rovers nav_for worker w rovers c).0 ≡ map (λ r. (w, r)) rovers
  unfolding run_rovers
  run_rovers-target w [] c = refl
  run_rovers-target w (rover ∷ rovers) c =
      rw
        (
          outcome_of-target w rover (nav_for w.0 w.1 c).0,
          run_rovers-target w rovers (nav_for w.0 w.1 c).1,
        )
        refl

  run_selected-target :
      (ws : List (ℕ × ℕ)) (rovers : List String) (c : Cache)
      → map target (run_selected nav_for worker ws rovers c).0 ≡ pairs ws rovers
  unfolding run_selected
  run_selected-target [] rovers c = refl
  run_selected-target (w ∷ ws) rovers c =
      map-append_lem (run_rovers nav_for worker w rovers c).0 _
      ∙ rw
          (
            run_rovers-target w rovers c,
            run_selected-target ws rovers (run_rovers nav_for worker w rovers c).1,
          )
          refl

  exit_code_iff :
      (rs : List Record)
      → (exit_code nav_for worker rs ≡ 0) ↔ All (λ r. is_failure r.outcome ≡ false) rs
  unfolding exit_code
  exit_code_iff [] = ground arith
  exit_code_iff (r ∷ rs) = ground (arith, exit_code_iff rs)

  -- the gates of a run that applies its results
  abbrev pub MayApply : Bool → Settings → Type 0
  MayApply apply s =
      (not apply || s.auto_enabled ≡ true)
      × (not apply || not s.alarms_enabled ≡ true)
      × (not apply || s.staging_only ≡ true)

  check_settings-MayApply :
      (apply : Bool) (s : Settings) → check_settings apply s ≡ ok tt → MayApply apply s
  unfolding check_settings
  check_settings-MayApply apply s h = ground arith

  -- A run that gets to its end has one record for each selected window and rover, in this order; its
  -- exit code is 0 exactly if no record is a failure; and if it was to apply its results, the
  -- automation was switched on, the operational alarms were off and the database was declared a
  -- staging one.
  pub run-target :
      (fromisoformat : List ℕ → Option Timestamp) (settings : Settings) (args : Args)
      (now : Timestamp) (c : Cache) {code : ℕ} {rs : List Record}
      → run nav_for worker fromisoformat settings args now c ≡ ok (code, rs)
      → MayApply args.apply settings
        × (rovers : List String) × (ws : List (ℕ × ℕ)) × (selected_rovers args.rover ≡ ok rovers)
        × (planned_windows fromisoformat now args.grace_minutes args.backfill_hours args.since
              args.until max_batch_windows
            ≡ ok ws)
        × (map target rs ≡ pairs ws rovers)
        × ((code ≡ 0) ↔ All (λ r. is_failure r.outcome ≡ false) rs)
  unfolding run
  run-target fromisoformat settings args now c {code} {rs} h =
      let (u, h0, h1) = bind-ok (check_settings args.apply settings) h in
      let (rovers, h2, h3) = bind-ok (selected_rovers args.rover) h1 in
      let (ws, h4, h5) =
        bind-ok
          (planned_windows fromisoformat now args.grace_minutes args.backfill_hours args.since
            args.until max_batch_windows)
          h3 in
      let whole : (
        exit_code nav_for worker (run_selected nav_for worker ws rovers c).0,
        (run_selected nav_for worker ws rovers c).0,
      )
          ≡ (code, rs) =
        ok-injective h5 in
      let records = ap (λ x. x.1) whole in
      let codes_are = ap (λ x. x.0) whole in
      (
        check_settings-MayApply args.apply settings h0,
        rovers,
        ws,
        h2,
        h4,
        ap (map target) (sym records) ∙ run_selected-target ws rovers c,
        subst (λ x. (x ≡ 0) ↔ All (λ r. is_failure r.outcome ≡ false) rs)
            (ap (exit_code nav_for worker) (sym records) ∙ codes_are) (exit_code_iff rs),
      )
