-- ===== src/Examples/Worker.antt =====
-- Raw observations of a base and a rover, and a run of the worker over ten minutes.
use slope_monitoring.Common.{
  ℕ, zero, suc, ◌+◌, ◌*◌, ◌≤◌, ◌<◌, String, ◌≡◌, refl, ◌↔◌, inl, inr, Bool, true, false, Option,
  none, some, List, [], ◌∷◌, ◌++◌, map, length, ltb, ◌==◌, str_eq, All, arith, if◌then◌else◌,
}
use slope_monitoring.Errors.{ok, err, runtime_error}
use slope_monitoring.Ppk.Bytes.{byte_at}
use slope_monitoring.Ppk.Rawx.{RawRow, check_frame, frame_of, join_rawx, rawx_measurement_count}
use slope_monitoring.Ppk.Fingerprint.{hashed}
use slope_monitoring.Ppk.Jobs.{
  Status, running, completed, Job, Key, find_job, second, SolutionRow, at_epoch,
}
use slope_monitoring.Ppk.Worker.{
  Scope, Solution, Solved, World, Tables, Report, window_completed, apply_window, run_windows,
}
use slope_monitoring.Ppk.Laws.Messages
use slope_monitoring.Ppk.Laws.Messages.{message}
use slope_monitoring.Ppk.Laws.Streams
use slope_monitoring.Ppk.Laws.Streams.{concat, read_messages}
use slope_monitoring.Ppk.Laws.Fingerprints
use slope_monitoring.Ppk.Laws.Running
use slope_monitoring.Ppk.Laws.Storing.{EpochsUnique, Extends}
use slope_monitoring.Ppk.Laws.Windows
use slope_monitoring.Ppk.Laws.Windows.{Tiles, IsDone}

abbrev zeros : ℕ → List ℕ
zeros zero = []
zeros (suc n) = 0 ∷ zeros n

-- the payload of a message with one measurement
abbrev one_measurement : List ℕ
one_measurement = zeros 11 ++ 1 ∷ zeros 36

abbrev short_message : List ℕ
short_message = 181 ∷ 98 ∷ 2 ∷ 21 ∷ 2 ∷ 0 ∷ 5 ∷ 6 ∷ 36 ∷ 141 ∷ []

check_frame-IsEncoded_example :
    (check_frame short_message ≡ ok tt)
    ↔ ((payload : List ℕ) × (length payload < 65536) × (short_message ≡ message payload))
check_frame-IsEncoded_example = Messages.check_frame-IsEncoded short_message (ground arith)

short_message_accepted : check_frame short_message ≡ ok tt
unfolding check_frame slope_monitoring.Common.Text.text_eq slope_monitoring.Ppk.Bytes.little
    slope_monitoring.Ppk.Bytes.slice slope_monitoring.Ppk.Bytes.last_bytes
    slope_monitoring.Ppk.Bytes.checksum slope_monitoring.Ppk.Bytes.inner
short_message_accepted = refl

abbrev start : ℕ
start = 1767225600 * second

abbrev base_row : RawRow
base_row = record { time = start; device_id = "BASE-01"; raw_payload_base64 = "base" }

abbrev rover_row : RawRow
rover_row = record {
  time = start + second;
  device_id = "ROVER-B1-02";
  raw_payload_base64 = "rover";
}

abbrev decode : String → Option (List ℕ)
decode s = if str_eq s "" then none else some (message one_measurement)

abbrev joined : List ℕ
joined = message one_measurement ++ message one_measurement

two_joined : join_rawx decode (base_row ∷ rover_row ∷ []) ≡ ok joined
unfolding join_rawx check_frame slope_monitoring.Ppk.Bytes.checksum
    slope_monitoring.Common.Text.text_eq slope_monitoring.Ppk.Bytes.little
    slope_monitoring.Ppk.Bytes.slice slope_monitoring.Ppk.Bytes.last_bytes
    slope_monitoring.Ppk.Bytes.inner
two_joined = refl

join_rawx-read_messages_example :
    (map (frame_of decode) (base_row ∷ rover_row ∷ []) ≡ map ok (read_messages 2 joined))
    × (concat (read_messages 2 joined) ≡ joined)
join_rawx-read_messages_example =
    Streams.join_rawx-read_messages decode (base_row ∷ rover_row ∷ []) two_joined

abbrev two_parts : List (List ℕ)
two_parts = (1 ∷ []) ∷ (2 ∷ 3 ∷ []) ∷ []

hashed-injective_example : two_parts ≡ two_parts
hashed-injective_example =
    Fingerprints.hashed-injective two_parts two_parts refl (ground arith) (ground arith) refl

abbrev digest : String
digest = "0123456789abcdef0123456789abcdef0123456789abcdef0123456789abcdef"

-- RTKLIB gives one solution, five seconds into the window.
abbrev world : World ℕ
world = record {
  fetch = λ a b. if ltb a (start + second) then base_row ∷ rover_row ∷ [] else [];
  b64decode = decode;
  sha256 = λ bs. digest;
  encode = λ s. s;
  isoformat = λ t. [];
  nav_bytes = [];
  config_bytes = [];
  reference = [];
  locked = λ c. true;
  clock = λ c. c + 10 * second;
  claimed_at = λ c. c + 11 * second;
  finished_at = λ c. c + 12 * second;
  solve = λ b r c. ok (record {
    solutions = record { timestamp = c + 5 * second; measured = 7 } ∷ [];
    solution_pos_sha256 = digest;
  });
  same_measured = λ a b. a == b;
  shown = λ e. "error";
}

abbrev scope : Scope
scope = record { site_id = "ITB"; base_id = "BASE-01"; rover_id = "ROVER-B1-02" }

abbrev fresh : Tables ℕ
fresh = record { jobs = []; solutions = [] }

abbrev five_minutes : ℕ
five_minutes = 300 * second

no_epochs : (v : SolutionRow ℕ) → length (at_epoch v []) ≤ 1
unfolding at_epoch
no_epochs v = omega arith

run_windows-EpochsUnique_example :
    Extends []
      (run_windows world scope 2 true 1 five_minutes start
        (start + 2 * five_minutes)
        fresh).1.solutions
    × EpochsUnique
        (run_windows world scope 2 true 1 five_minutes start
          (start + 2 * five_minutes)
          fresh).1.solutions
run_windows-EpochsUnique_example =
    Running.run_windows-EpochsUnique world scope 2 true 1 five_minutes start
      (start + 2 * five_minutes) fresh no_epochs

abbrev reports : List (ℕ × ℕ × Report)
reports =
    (start, start + five_minutes, window_completed)
    ∷ (start + five_minutes, start + 2 * five_minutes, Report.waiting_pair)
    ∷ []

two_windows :
    (run_windows world scope 2 true 1 five_minutes start (start + 2 * five_minutes) fresh).0
    ≡ ok reports
unfolding run_windows slope_monitoring.Ppk.Worker.continue
    slope_monitoring.Ppk.Worker.process_window slope_monitoring.Ppk.Worker.process_eligible
    slope_monitoring.Ppk.Worker.eligibility slope_monitoring.Ppk.Worker.is_empty
    slope_monitoring.Ppk.Worker.rows_of join_rawx check_frame slope_monitoring.Ppk.Bytes.checksum
    slope_monitoring.Common.Text.text_eq slope_monitoring.Ppk.Bytes.little
    slope_monitoring.Ppk.Bytes.slice slope_monitoring.Ppk.Bytes.last_bytes
    slope_monitoring.Ppk.Bytes.inner slope_monitoring.Ppk.Worker.usable rawx_measurement_count
    byte_at slope_monitoring.Ppk.Bytes.checksum_from slope_monitoring.Ppk.Fingerprint.big_bytes
    slope_monitoring.Ppk.Fingerprint.fingerprint slope_monitoring.Ppk.Fingerprint.framed hashed
    slope_monitoring.Ppk.Jobs.as_completed slope_monitoring.Ppk.Jobs.as_failed
    slope_monitoring.Ppk.Jobs.at_epoch slope_monitoring.Ppk.Jobs.claim_job
    slope_monitoring.Ppk.Jobs.complete_job slope_monitoring.Ppk.Jobs.fail_job find_job
    slope_monitoring.Ppk.Jobs.gps_epoch_2026 slope_monitoring.Ppk.Jobs.has_key
    slope_monitoring.Ppk.Jobs.new_job slope_monitoring.Ppk.Jobs.restarted
    slope_monitoring.Ppk.Jobs.same_content slope_monitoring.Ppk.Jobs.same_epoch
    slope_monitoring.Ppk.Jobs.stale_running_lease slope_monitoring.Ppk.Jobs.store_value
    slope_monitoring.Ppk.Jobs.store_values slope_monitoring.Ppk.Jobs.update_job frame_of
    slope_monitoring.Ppk.Worker.after_lease apply_window slope_monitoring.Ppk.Worker.check_lease
    slope_monitoring.Ppk.Worker.checked_lease slope_monitoring.Ppk.Worker.conclude
    slope_monitoring.Ppk.Worker.epochs_differ slope_monitoring.Ppk.Worker.has_epoch
    slope_monitoring.Ppk.Worker.is_completed slope_monitoring.Ppk.Worker.is_near
    slope_monitoring.Ppk.Worker.key_of slope_monitoring.Ppk.Worker.overlap
    slope_monitoring.Ppk.Worker.run_job slope_monitoring.Ppk.Worker.scope_text
    slope_monitoring.Ppk.Worker.solve_and_store slope_monitoring.Ppk.Worker.solved_values
    slope_monitoring.Ppk.Worker.stop_of slope_monitoring.Ppk.Worker.values_of
two_windows = refl

run_windows-Tiles_example : Tiles five_minutes start (start + 2 * five_minutes) reports
run_windows-Tiles_example =
    Windows.run_windows-Tiles world scope 2 true 1 five_minutes start (start + 2 * five_minutes)
      fresh (omega arith) (omega arith) two_windows

abbrev key : Key
key = record {
  site_id = "ITB";
  rover_id = "ROVER-B1-02";
  window_start = start;
  fingerprint = digest;
}

abbrev bytes : List ℕ
bytes = message one_measurement

window_done :
    (apply_window world scope key bytes bytes start (start + five_minutes) fresh).0
    ≡ ok window_completed
unfolding apply_window slope_monitoring.Ppk.Worker.is_completed find_job
    slope_monitoring.Ppk.Worker.after_lease slope_monitoring.Ppk.Worker.checked_lease
    slope_monitoring.Ppk.Worker.run_job slope_monitoring.Ppk.Worker.conclude
    slope_monitoring.Ppk.Worker.solve_and_store slope_monitoring.Ppk.Worker.solved_values
    slope_monitoring.Ppk.Worker.is_empty slope_monitoring.Ppk.Worker.values_of
    slope_monitoring.Ppk.Jobs.gps_epoch_2026 slope_monitoring.Ppk.Worker.epochs_differ
    slope_monitoring.Ppk.Worker.has_epoch slope_monitoring.Ppk.Jobs.store_values
    slope_monitoring.Ppk.Jobs.store_value slope_monitoring.Ppk.Jobs.at_epoch
window_done = refl

apply_window-IsDone_example :
    IsDone world scope key bytes bytes start
      (start + five_minutes)
      (apply_window world scope key bytes bytes start (start + five_minutes) fresh).1
apply_window-IsDone_example =
    Windows.apply_window-IsDone world scope key bytes bytes start (start + five_minutes) fresh
      window_done

-- a job that another worker marked as running half a minute ago
abbrev other_worker : Job
other_worker = record {
  site_id = "ITB";
  rover_device_id = "ROVER-B1-02";
  window_start_utc = start;
  input_fingerprint = digest;
  status = running;
  attempts = 1;
  solution_count = 0;
  last_error = none;
  updated_at = start;
}

abbrev busy : Tables ℕ
busy = record { jobs = other_worker ∷ []; solutions = [] }

busy_found : find_job key (other_worker ∷ []) ≡ some other_worker
unfolding find_job slope_monitoring.Ppk.Jobs.has_key
busy_found = refl

apply_window-stops_example :
    apply_window world scope key bytes bytes start (start + five_minutes) busy
    ≡ (err runtime_error, busy)
apply_window-stops_example =
    Windows.apply_window-stops world scope key bytes bytes start (start + five_minutes) busy
      (inr (other_worker, busy_found, refl, omega arith))

-- the same window, completed by an earlier run
abbrev earlier : Job
earlier = record other_worker { status = completed; solution_count = 1 }

earlier_found : find_job key (earlier ∷ []) ≡ some earlier
unfolding find_job slope_monitoring.Ppk.Jobs.has_key
earlier_found = refl

run_windows-completed_example :
    find_job key
      (run_windows world scope 2 true 1 five_minutes start
        (start + 2 * five_minutes)
        (record { jobs = earlier ∷ []; solutions = [] })).1.jobs
    ≡ some earlier
run_windows-completed_example =
    Running.run_windows-completed world scope 2 true 1 five_minutes start (start + 2 * five_minutes)
      (record { jobs = earlier ∷ []; solutions = [] }) key earlier earlier_found refl
