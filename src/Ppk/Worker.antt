-- ===== src/Ppk/Worker.antt =====
-- scripts/ppk_qa_worker.py: run_once from its first window on. A call that raises ends the run, and
-- what was written before stays written. `World` holds what the code takes from elsewhere.
use slope_monitoring.Common.{
  ℕ, zero, suc, ◌+◌, ◌*◌, String, Bool, true, false, not, ◌&&◌, ◌||◌, Option, none, some, List, [],
  ◌∷◌, ◌++◌, length, any, ltb, leb, ◌==◌, str_eq, if◌then◌else◌,
}
use slope_monitoring.Common.Text.{codes}
use slope_monitoring.Errors.{Result, ok, err, Failure, runtime_error, require, ◌>>=◌}
use slope_monitoring.Blast.Values.{aware}
use slope_monitoring.Ppk.Rawx.{RawRow, join_rawx, rawx_measurement_count}
use slope_monitoring.Ppk.Fingerprint.{fingerprint}
use slope_monitoring.Ppk.Jobs.{
  running, completed, Job, Key, find_job, claim_job, complete_job, fail_job, second,
  stale_running_lease, gps_epoch_2026, SolutionRow, store_values,
}

pub record Scope : Type 0 where
  pub site_id : String
  pub base_id : String
  pub rover_id : String

-- a solution of RTKLIB at its time in UTC, and the result of `solve_window`
pub record Solution (Measured : Type 0) : Type 0 where
  pub timestamp : ℕ
  pub measured : Measured

pub record Solved (Measured : Type 0) : Type 0 where
  pub solutions : List (Solution Measured)
  pub solution_pos_sha256 : String

-- What the worker reads and calls: the rows of a window from the source database, the libraries,
-- RTKLIB, the advisory lock and the clocks, each at the window that it is asked for.
pub record World (Measured : Type 0) : Type 0 where
  pub fetch : ℕ → ℕ → List RawRow
  pub b64decode : String → Option (List ℕ)
  pub sha256 : List ℕ → String
  pub encode : List ℕ → List ℕ
  pub isoformat : ℕ → List ℕ
  pub nav_bytes : List ℕ
  pub config_bytes : List ℕ
  pub reference : List ℕ
  pub locked : ℕ → Bool
  pub clock : ℕ → ℕ
  pub claimed_at : ℕ → ℕ
  pub finished_at : ℕ → ℕ
  pub solve : List ℕ → List ℕ → ℕ → Result (Solved Measured)
  pub same_measured : Measured → Measured → Bool
  pub shown : Failure → String

pub record Tables (Measured : Type 0) : Type 0 where
  pub jobs : List Job
  pub solutions : List (SolutionRow Measured)

-- what is printed of a window
pub data Report : Type 0 where
  waiting_pair insufficient_overlap dry_run_eligible skipped_already_completed : Report
  window_completed window_failed : Report

unfoldable pub is_empty : {A : Type 0} → List A → Bool
is_empty [] = true
is_empty (x ∷ xs) = false

-- [r for r in records if r['device_id'] == id]
unfoldable pub rows_of : String → List RawRow → List RawRow
rows_of id [] = []
rows_of id (r ∷ rs) = if str_eq r.device_id id then r ∷ rows_of id rs else rows_of id rs

-- abs((r['time'] - b['time']).total_seconds()) <= 2
unfoldable pub is_near : RawRow → RawRow → Bool
is_near r b = leb r.time (b.time + 2 * second) && leb b.time (r.time + 2 * second)

unfoldable pub overlap : List RawRow → List RawRow → ℕ
overlap base [] = 0
overlap base (r ∷ rs) = if any (is_near r) base then suc (overlap base rs) else overlap base rs

-- the epochs of the values, (v[4], v[5]), occur once each
module _ {Measured : Type 0} where
  unfoldable pub has_epoch : ℕ → ℕ → List (SolutionRow Measured) → Bool
  has_epoch week tow [] = false
  has_epoch week tow (v ∷ vs) = (v.gps_week == week && v.gps_tow == tow) || has_epoch week tow vs

  unfoldable pub epochs_differ : List (SolutionRow Measured) → Bool
  epochs_differ [] = true
  epochs_differ (v ∷ vs) = not (has_epoch v.gps_week v.gps_tow vs) && epochs_differ vs

  -- the loop over result.solutions
  unfoldable pub values_of :
      Scope → String → ℕ → ℕ → List (Solution Measured) → Result (List (SolutionRow Measured))
  values_of s sha cursor stop [] = ok []
  values_of s sha cursor stop (sol ∷ sols) =
      let rest = values_of s sha cursor stop sols in
      if not (leb cursor sol.timestamp && ltb sol.timestamp stop)
      then rest
      else gps_epoch_2026 (aware sol.timestamp) >>= λ epoch. rest >>= λ vs. ok (
          record {
            source_pos_sha256 = sha;
            site_id = s.site_id;
            base_device_id = s.base_id;
            rover_device_id = s.rover_id;
            gps_week = epoch.0;
            gps_tow = epoch.1;
            measured = sol.measured;
          }
          ∷ vs)

module _ {Measured : Type 0} (w : World Measured) (s : Scope) where
  -- [r for r in rows if rawx_measurement_count(r) > 0]
  unfoldable pub usable : List RawRow → Result (List RawRow)
  usable [] = ok []
  usable (r ∷ rs) = rawx_measurement_count w.b64decode r >>= λ n.
      usable rs >>= λ kept. ok (if ltb 0 n then r ∷ kept else kept)

  -- f"{site}|{base}|{rover}|{cursor}|{stop}"
  unfoldable pub scope_text : ℕ → ℕ → List ℕ
  scope_text cursor stop =
      codes s.site_id
      ++ (124
          ∷ (codes s.base_id
              ++ (124
                  ∷ (codes s.rover_id
                      ++ (124 ∷ (w.isoformat cursor ++ (124 ∷ w.isoformat stop)))))))

  unfoldable pub key_of : List ℕ → List ℕ → ℕ → ℕ → Key
  key_of base_raw rover_raw cursor stop = record {
    site_id = s.site_id;
    rover_id = s.rover_id;
    window_start = cursor;
    fingerprint =
        fingerprint w.sha256 base_raw rover_raw w.nav_bytes w.config_bytes w.reference
          (w.encode (scope_text cursor stop));
  }

  -- from `solve_window` to the checks of its result
  unfoldable pub solved_values : List ℕ → List ℕ → ℕ → ℕ → Result (List (SolutionRow Measured))
  solved_values base_raw rover_raw cursor stop = do
    result ← w.solve base_raw rover_raw cursor
    _ ← require (not (is_empty result.solutions)) runtime_error
    vs ← values_of s result.solution_pos_sha256 cursor stop result.solutions
    _ ← require (not (is_empty vs)) runtime_error
    _ ← require (epochs_differ vs) runtime_error
    _ ← require (length (codes result.solution_pos_sha256) == 64) runtime_error
    ok vs

  -- the try block: in the transaction, the solutions are stored and the job is completed
  unfoldable pub solve_and_store :
      Key → List ℕ → List ℕ → ℕ → ℕ → Tables Measured → Result (Tables Measured)
  solve_and_store k base_raw rover_raw cursor stop t =
      solved_values base_raw rover_raw cursor stop >>= λ vs.
      store_values w.same_measured vs t.solutions >>= λ stored. ok (record {
        jobs = complete_job k (length vs) (w.finished_at cursor) t.jobs;
        solutions = stored;
      })

  -- the end of the try block, or its handler, which marks the job as failed
  unfoldable pub conclude :
      Key → ℕ → Tables Measured → Result (Tables Measured) → Report × Tables Measured
  conclude k cursor started (ok stored) = (window_completed, stored)
  conclude k cursor started (err e) = (
    window_failed,
    record started { jobs = fail_job k (w.shown e) (w.finished_at cursor) started.jobs },
  )

  -- the job is claimed, and tried
  unfoldable pub run_job :
      Key → List ℕ → List ℕ → ℕ → ℕ → Tables Measured → Report × Tables Measured
  run_job k base_raw rover_raw cursor stop t =
      let started = record t { jobs = claim_job k (w.claimed_at cursor) t.jobs } in
      conclude k cursor started (solve_and_store k base_raw rover_raw cursor stop started)

  -- previous['status'] == 'RUNNING' and its lease; `err` where the run stops
  unfoldable pub check_lease : ℕ → Job → Result (Unit {0})
  check_lease cursor previous = elim previous.status [
    | running ↦
        elim (stale_running_lease (some (aware previous.updated_at)) (aware (w.clock cursor))) [
          | err e ↦ err runtime_error
          | ok expired ↦ require expired runtime_error
        ]
    | _ ↦ ok tt
  ]

  -- previous and previous['status'] == 'COMPLETED'
  unfoldable pub is_completed : Option Job → Bool
  is_completed none = false
  is_completed (some j) = elim j.status [ completed ↦ true | _ ↦ false ]

  unfoldable pub checked_lease : ℕ → Option Job → Result (Unit {0})
  checked_lease cursor none = ok tt
  checked_lease cursor (some j) = check_lease cursor j

  unfoldable pub after_lease :
      Key
      → List ℕ
      → List ℕ
      → ℕ
      → ℕ
      → Tables Measured
      → Result (Unit {0})
      → Result Report × Tables Measured
  after_lease k base_raw rover_raw cursor stop t (err e) = (err e, t)
  after_lease k base_raw rover_raw cursor stop t (ok u) =
      let done = run_job k base_raw rover_raw cursor stop t in (ok done.0, done.1)

  -- what happens under the advisory lock
  unfoldable pub apply_window :
      Key → List ℕ → List ℕ → ℕ → ℕ → Tables Measured → Result Report × Tables Measured
  apply_window k base_raw rover_raw cursor stop t =
      if not (w.locked cursor)
      then (err runtime_error, t)
      else if is_completed (find_job k t.jobs)
      then (ok skipped_already_completed, t)
      else after_lease k base_raw rover_raw cursor stop t (checked_lease cursor (find_job k t.jobs))

  -- what a window is, before the ledger is looked at
  pub data Eligibility : Type 0 where
    reported : Report → Eligibility
    eligible : List ℕ → List ℕ → Eligibility

  -- from the rows of a window to the joined bytes of its usable rows
  unfoldable pub eligibility : ℕ → List RawRow → Result Eligibility
  eligibility min_matched records =
      let base = rows_of s.base_id records in
      let rover = rows_of s.rover_id records in
      if is_empty base || is_empty rover
      then ok (reported waiting_pair)
      else join_rawx w.b64decode base >>= λ b0. join_rawx w.b64decode rover >>= λ r0.
          usable base >>= λ usable_base. usable rover >>= λ usable_rover.
          if is_empty usable_base || is_empty usable_rover
          then ok (reported waiting_pair)
          else if ltb (overlap usable_base usable_rover) min_matched
          then ok (reported insufficient_overlap)
          else join_rawx w.b64decode usable_base >>= λ b.
              join_rawx w.b64decode usable_rover >>= λ r. ok (eligible b r)

  unfoldable pub process_eligible :
      Bool → ℕ → ℕ → Tables Measured → Result Eligibility → Result Report × Tables Measured
  process_eligible apply cursor stop t (err e) = (err e, t)
  process_eligible apply cursor stop t (ok (reported r)) = (ok r, t)
  process_eligible apply cursor stop t (ok (eligible b r)) =
      if apply
      then apply_window (key_of b r cursor stop) b r cursor stop t
      else (ok dry_run_eligible, t)

  unfoldable pub process_window :
      Bool → ℕ → ℕ → ℕ → Tables Measured → Result Report × Tables Measured
  process_window apply min_matched cursor stop t =
      process_eligible apply cursor stop t (eligibility min_matched (w.fetch cursor stop))

  -- min(cursor + timedelta(minutes=args.window_minutes), end)
  unfoldable pub stop_of : ℕ → ℕ → ℕ → ℕ
  stop_of width cursor end = if leb (cursor + width) end then cursor + width else end

  -- the report of a window in front of those of the later ones, where it did not raise
  unfoldable pub continue :
      ℕ
      → ℕ
      → Result Report × Tables Measured
      → Result (List (ℕ × ℕ × Report)) × Tables Measured
      → Result (List (ℕ × ℕ × Report)) × Tables Measured
  continue cursor stop (err e, t) rest = (err e, t)
  continue cursor stop (ok r, t) (more, t') = (more >>= λ rs. ok ((cursor, stop, r) ∷ rs), t')

  -- while cursor < end; `fuel` counts the windows
  unfoldable pub run_windows :
      ℕ → Bool → ℕ → ℕ → ℕ → ℕ → Tables Measured → Result (List (ℕ × ℕ × Report)) × Tables Measured
  run_windows zero apply min_matched width cursor end t = (ok [], t)
  run_windows (suc fuel) apply min_matched width cursor end t =
      let stop = stop_of width cursor end in
      let one = process_window apply min_matched cursor stop t in
      let rest = run_windows fuel apply min_matched width stop end one.1 in
      if leb end cursor then (ok [], t) else continue cursor stop one rest
