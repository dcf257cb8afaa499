-- ===== src/Ppk/Schedule.antt =====
-- scripts/ppk_qa_scheduler.py: `run`, over the windows and the rovers. The environment is read into
-- `Settings`; the subprocess that runs the worker is an argument, with any outcome.
use slope_monitoring.Common.{
  ℕ, String, Bool, true, false, not, ◌&&◌, ◌||◌, Option, List, [], ◌∷◌, ◌++◌, any, ◌==◌, str_eq,
  if◌then◌else◌,
}
use slope_monitoring.Common.Int.{ℤ}
use slope_monitoring.Errors.{Result, ok, runtime_error, require, ◌>>=◌}
use slope_monitoring.Blast.Values.{Timestamp}
use slope_monitoring.Ppk.Hours.{planned_windows, selected_rovers, max_batch_windows}
use slope_monitoring.Ppk.Nav.{Product, Nav, found, waiting, refused, Cache}

-- the tests of the environment that `run` makes, in their order
pub record Settings : Type 0 where
  pub auto_enabled : Bool
  pub alarms_enabled : Bool
  pub config_is_file : Bool
  pub database_configured : Bool
  pub staging_only : Bool

pub record Args : Type 0 where
  pub apply : Bool
  pub grace_minutes : ℤ
  pub backfill_hours : ℤ
  pub since : Option (List ℕ)
  pub until : Option (List ℕ)
  pub rover : List String

-- the end of the worker's process: its exit code and the statuses in its output, or a timeout or
-- an error of the operating system
pub data Worker : Type 0 where
  exited : ℕ → List String → Worker
  not_run : Worker

-- record['result']
pub data Outcome : Type 0 where
  processed_or_idempotent waiting_input no_status waiting_nav failed : Outcome

unfoldable pub has_status : String → List String → Bool
has_status name statuses = any (str_eq name) statuses

unfoldable pub worker_outcome : Worker → Outcome
worker_outcome not_run = failed
worker_outcome (exited code statuses) =
    if not (code == 0) || has_status "FAILED" statuses
    then failed
    else if has_status "COMPLETED" statuses || has_status "SKIPPED_ALREADY_COMPLETED" statuses
    then processed_or_idempotent
    else if has_status "WAITING_PAIR" statuses || has_status "INSUFFICIENT_OVERLAP" statuses
    then waiting_input
    else no_status

unfoldable pub is_failure : Outcome → Bool
is_failure failed = true
is_failure waiting_nav = true
is_failure o = false

-- the gates before anything is run
unfoldable pub check_settings : Bool → Settings → Result (Unit {0})
check_settings apply s =
    require
      ((not apply || s.auto_enabled)
        && (not apply || not s.alarms_enabled)
        && s.config_is_file
        && s.database_configured
        && (not apply || s.staging_only))
      runtime_error

-- What a record is about, what came of it, and whether the worker was started for it.
pub record Record : Type 0 where
  pub window : ℕ × ℕ
  pub rover : String
  pub outcome : Outcome
  pub started : Bool

module _ (nav_for : ℕ → ℕ → Cache → Nav (Product × ℕ × String) × Cache)
    (worker : ℕ × ℕ → String → Product × ℕ × String → Worker) where
  -- the try block of one record
  unfoldable pub outcome_of : ℕ × ℕ → String → Nav (Product × ℕ × String) → Record
  outcome_of w rover waiting = record {
    window = w;
    rover = rover;
    outcome = waiting_nav;
    started = false;
  }
  outcome_of w rover refused = record {
    window = w;
    rover = rover;
    outcome = failed;
    started = false;
  }
  outcome_of w rover (found nav) = record {
    window = w;
    rover = rover;
    outcome = worker_outcome (worker w rover nav);
    started = true;
  }

  unfoldable pub run_rovers : ℕ × ℕ → List String → Cache → List Record × Cache
  run_rovers w [] c = ([], c)
  run_rovers w (rover ∷ rovers) c =
      let nav = nav_for w.0 w.1 c in
      let rest = run_rovers w rovers nav.1 in (outcome_of w rover nav.0 ∷ rest.0, rest.1)

  unfoldable pub run_selected : List (ℕ × ℕ) → List String → Cache → List Record × Cache
  run_selected [] rovers c = ([], c)
  run_selected (w ∷ ws) rovers c =
      let now = run_rovers w rovers c in
      let rest = run_selected ws rovers now.1 in (now.0 ++ rest.0, rest.1)

  -- the exit code: 1 if any record is a failure
  unfoldable pub exit_code : List Record → ℕ
  exit_code rs = if any (λ r. is_failure r.outcome) rs then 1 else 0

  unfoldable pub run :
      (List ℕ → Option Timestamp) → Settings → Args → Timestamp → Cache → Result (ℕ × List Record)
  run fromisoformat settings args now c = do
    _ ← check_settings args.apply settings
    rovers ← selected_rovers args.rover
    selected ←
        planned_windows fromisoformat now args.grace_minutes args.backfill_hours args.since
          args.until max_batch_windows
    let records = (run_selected selected rovers c).0
    ok (exit_code records, records)
