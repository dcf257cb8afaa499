-- ===== src/Examples/Schedule.antt =====
-- A run of the scheduler over the last hour, and the choice of a backlog.
use slope_monitoring.Common.{
  ℕ, ◌+◌, ◌*◌, ◌≤◌, String, ◌≡◌, refl, ◌↔◌, ◌⊎◌, inl, true, false, Option, none, some, List, [],
  ◌∷◌, map, All, length, arith, if◌then◌else◌,
}
use slope_monitoring.Common.Int.{pos}
use slope_monitoring.Common.Text.{codes, text_eq}
use slope_monitoring.Errors.{ok}
use slope_monitoring.Blast.Values.{Timestamp, aware}
use slope_monitoring.Ppk.Jobs.{second, SolutionRow, gps_epoch_2026}
use slope_monitoring.Ppk.Hours.{
  hour, hour_start, bound_of, planned_windows, selected_rovers, max_batch_windows,
}
use slope_monitoring.Ppk.Nav.{
  Product, igs, wrd, Nav, found, Cache, fetched, http_error, Download, validated, day_of, nav_for,
}
use slope_monitoring.Ppk.Schedule.{Settings, Args, Worker, exited, Outcome, Record, is_failure, run}
use slope_monitoring.Ppk.Backlog.{
  JobRow, Window, solution_keys, is_eligible, in_order, select_windows,
}
use slope_monitoring.Ppk.Laws.Planning
use slope_monitoring.Ppk.Laws.Planning.{IsPlan}
use slope_monitoring.Ppk.Laws.Navigation
use slope_monitoring.Ppk.Laws.Navigation.{IsReady}
use slope_monitoring.Ppk.Laws.Scheduling
use slope_monitoring.Ppk.Laws.Scheduling.{MayApply, pairs, target}
use slope_monitoring.Ppk.Laws.Epochs
use slope_monitoring.Ppk.Laws.Selecting
use slope_monitoring.Ppk.Laws.Selecting.{Among, Sorted}

-- 2026-01-01 12:30
abbrev now : ℕ
now = 1767270600 * second

abbrev parse : List ℕ → Option Timestamp
parse s =
    if text_eq s (codes "2026-01-01T09:00:00+00:00")
    then some (aware (1767258000 * second))
    else if text_eq s (codes "2026-01-01T11:00:00+00:00")
    then some (aware (1767265200 * second))
    else none

abbrev two_hours : List (ℕ × ℕ)
two_hours =
    (1767258000 * second, 1767261600 * second) ∷ (1767261600 * second, 1767265200 * second) ∷ []

backlog_taken :
    planned_windows parse
      (aware now)
      (pos 20)
      (pos 3)
      (some (codes "2026-01-01T09:00:00Z"))
      (some (codes "2026-01-01T11:00:00Z"))
      24
    ≡ ok two_hours
unfolding planned_windows slope_monitoring.Ppk.Hours.windows bound_of
    slope_monitoring.Ppk.Hours.utc_of text_eq slope_monitoring.Ppk.Hours.replace_z
    slope_monitoring.Ppk.Hours.last_end slope_monitoring.Ppk.Hours.hours_before
    slope_monitoring.Ppk.Hours.backlog_windows hour_start slope_monitoring.Ppk.Hours.hours_from
backlog_taken = refl

planned_windows-IsPlan_example :
    (plan : IsPlan now 20 two_hours) × (bound_of parse (codes "2026-01-01T09:00:00Z")
      ≡ ok plan.start)
    × (bound_of parse (codes "2026-01-01T11:00:00Z") ≡ ok plan.end)
    × (length two_hours ≤ 24)
planned_windows-IsPlan_example =
    Planning.planned_windows-IsPlan parse now (pos 20) (pos 3) (codes "2026-01-01T09:00:00Z")
      (codes "2026-01-01T11:00:00Z") 24 (omega arith) backlog_taken

-- the primary product is missing, and the other one is there
abbrev lines : List ℕ → List (List ℕ)
lines bs = codes "     3.05 RINEX VERSION / TYPE" ∷ codes "END OF HEADER" ∷ codes "G01" ∷ []

abbrev record_time : List ℕ → Option ℕ
record_time s = if text_eq s (codes "G01") then some now else none

abbrev server : Product → Download
server igs = http_error 404
server wrd = fetched (1 ∷ 2 ∷ [])

abbrev no_files : Cache
no_files = record { packed = λ day p. none; plain = λ day p. none }

-- a plain file that is not what the product expands to
abbrev stale_file : Cache
stale_file = record { packed = λ day p. none; plain = λ day p. some (9 ∷ []) }

abbrev digest_of : List ℕ → String
digest_of bytes = if text_eq bytes (1 ∷ 2 ∷ []) then "digest" else "other"

fallback_used :
    (nav_for
      (λ b. some b)
      lines
      (λ s. some true)
      record_time
      digest_of
      now
      (now + hour)
      true
      server
      stale_file).0
    ≡ found (wrd, 1, "digest")
unfolding nav_for slope_monitoring.Ppk.Nav.nav_from slope_monitoring.Ppk.Nav.nav_online
    slope_monitoring.Ppk.Nav.is_missing slope_monitoring.Ppk.Nav.download_product
    slope_monitoring.Ppk.Nav.promote slope_monitoring.Ppk.Nav.promote_valid
    slope_monitoring.Ppk.Nav.validated slope_monitoring.Ppk.Nav.decompress
    slope_monitoring.Ppk.Nav.validate_nav slope_monitoring.Ppk.Nav.check_lines
    slope_monitoring.Ppk.Nav.contains slope_monitoring.Ppk.Nav.is_prefix
    slope_monitoring.Ppk.Nav.check_records slope_monitoring.Ppk.Nav.after_header
    slope_monitoring.Ppk.Nav.nearby text_eq slope_monitoring.Ppk.Nav.use_cached
    slope_monitoring.Ppk.Nav.expand slope_monitoring.Ppk.Nav.put
    slope_monitoring.Ppk.Nav.same_product slope_monitoring.Ppk.Nav.waits_for
fallback_used = refl

abbrev after_fallback : Cache
after_fallback =
    (nav_for (λ b. some b) lines (λ s. some true) record_time digest_of now (now + hour) true server
      stale_file).1

nav_for-IsReady_example :
    IsReady
      (λ b. some b)
      lines
      (λ s. some true)
      record_time
      digest_of
      now
      (now + hour)
      (wrd, 1, "digest")
      after_fallback
nav_for-IsReady_example =
    Navigation.nav_for-IsReady (λ b. some b) lines (λ s. some true) record_time digest_of now
      (now + hour) true server stale_file (wrd, 1, "digest") fallback_used

fallback_kept : after_fallback.packed (day_of now) wrd ≡ some (1 ∷ 2 ∷ [])
unfolding nav_for slope_monitoring.Ppk.Nav.nav_from slope_monitoring.Ppk.Nav.nav_online
    slope_monitoring.Ppk.Nav.is_missing slope_monitoring.Ppk.Nav.download_product
    slope_monitoring.Ppk.Nav.promote slope_monitoring.Ppk.Nav.promote_valid
    slope_monitoring.Ppk.Nav.validated slope_monitoring.Ppk.Nav.decompress
    slope_monitoring.Ppk.Nav.validate_nav slope_monitoring.Ppk.Nav.check_lines
    slope_monitoring.Ppk.Nav.contains slope_monitoring.Ppk.Nav.is_prefix
    slope_monitoring.Ppk.Nav.check_records slope_monitoring.Ppk.Nav.after_header
    slope_monitoring.Ppk.Nav.nearby text_eq slope_monitoring.Ppk.Nav.use_cached
    slope_monitoring.Ppk.Nav.expand slope_monitoring.Ppk.Nav.put
    slope_monitoring.Ppk.Nav.same_product slope_monitoring.Ppk.Nav.waits_for
    slope_monitoring.Ppk.Nav.has_digest day_of
fallback_kept = refl

nav_for-adds_example :
    (stale_file.packed (day_of now) wrd ≡ some (1 ∷ 2 ∷ []))
    ⊎ ((plain : List ℕ) × (count : ℕ) × (validated
            (λ b. some b)
            lines
            (λ s. some true)
            record_time
            digest_of
            now
            (now + hour)
            (1 ∷ 2 ∷ [])
          ≡ found (plain, count)))
nav_for-adds_example =
    Navigation.nav_for-adds (λ b. some b) lines (λ s. some true) record_time digest_of now
      (now + hour) true server stale_file (day_of now) wrd (1 ∷ 2 ∷ []) fallback_kept

abbrev nav_found : ℕ → ℕ → Cache → Nav (Product × ℕ × String) × Cache
nav_found a b c = (found (igs, 1, "digest"), c)

abbrev worker : ℕ × ℕ → String → Product × ℕ × String → Worker
worker w rover nav = exited 0 ("COMPLETED" ∷ [])

abbrev settings : Settings
settings = record {
  auto_enabled = true;
  alarms_enabled = false;
  config_is_file = true;
  database_configured = true;
  staging_only = true;
}

abbrev args : Args
args = record {
  apply = true;
  grace_minutes = pos 20;
  backfill_hours = pos 1;
  since = none;
  until = none;
  rover = "ROVER-B1-02" ∷ [];
}

abbrev records : List Record
records =
    record {
      window = (1767265200 * second, 1767268800 * second);
      rover = "ROVER-B1-02";
      outcome = Outcome.processed_or_idempotent;
      started = true;
    }
    ∷ []

abbrev exit : ℕ
exit = 0

one_record : run nav_found worker parse settings args (aware now) no_files ≡ ok (0, records)
unfolding run slope_monitoring.Ppk.Schedule.check_settings selected_rovers
    slope_monitoring.Ppk.Hours.has_items slope_monitoring.Ppk.Hours.distinct
    slope_monitoring.Ppk.Hours.given_rovers slope_monitoring.Ppk.Hours.is_member planned_windows
    slope_monitoring.Ppk.Hours.windows slope_monitoring.Ppk.Schedule.exit_code
    slope_monitoring.Ppk.Schedule.run_selected slope_monitoring.Ppk.Hours.hours_before
    slope_monitoring.Ppk.Schedule.run_rovers is_failure slope_monitoring.Ppk.Schedule.outcome_of
    slope_monitoring.Ppk.Schedule.worker_outcome hour_start slope_monitoring.Ppk.Schedule.has_status
one_record = refl

run-target_example :
    MayApply nav_found worker true settings
    × (rovers : List String) × (ws : List (ℕ × ℕ)) × (selected_rovers ("ROVER-B1-02" ∷ [])
        ≡ ok rovers)
    × (planned_windows parse (aware now) (pos 20) (pos 1) none none max_batch_windows ≡ ok ws)
    × (map target records ≡ pairs ws rovers)
    × ((exit ≡ 0) ↔ All (λ r. is_failure r.outcome ≡ false) records)
run-target_example =
    Scheduling.run-target nav_found worker parse settings args (aware now) no_files one_record

abbrev early : Window
early = record { rover = "ROVER-B1-01"; start = 1767258000 * second; matched = 5 }

abbrev late : Window
late = record { rover = "ROVER-B1-01"; start = 1767261600 * second; matched = 5 }

-- a solution of the rover, half an hour into the early window
abbrev stored : SolutionRow ℕ
stored = record {
  source_pos_sha256 = "digest";
  site_id = "ITB";
  base_device_id = "BASE-01";
  rover_device_id = "ROVER-B1-01";
  gps_week = 2399;
  gps_tow = 379818 * second;
  measured = 7;
}

stored_epoch : gps_epoch_2026 (aware (1767259800 * second)) ≡ ok (2399, 379818 * second)
unfolding gps_epoch_2026
stored_epoch = refl

early_start : 1767258000 * second ≡ hour_start (1767259800 * second)
unfolding hour_start
early_start = refl

stored_not_eligible_example :
    is_eligible (λ t. []) (λ v. none) [] (solution_keys "ITB" (stored ∷ [])) [] now 3 early ≡ false
unfolding slope_monitoring.Ppk.Backlog.is_rover
stored_not_eligible_example =
    Epochs.stored_not_eligible (λ t. []) (λ v. none) stored (stored ∷ []) (1767259800 * second) []
      [] now 3 early (inl refl) refl stored_epoch refl early_start

one_selected :
    select_windows (λ t. []) (λ v. none) (late ∷ early ∷ []) [] [] [] now 1 3 false
    ≡ ok (early ∷ [])
unfolding select_windows slope_monitoring.Ppk.Backlog.sort_windows
    slope_monitoring.Ppk.Backlog.eligible_of is_eligible slope_monitoring.Ppk.Backlog.has_solution
    slope_monitoring.Ppk.Backlog.is_blocked slope_monitoring.Ppk.Backlog.failed_attempts
    slope_monitoring.Ppk.Backlog.is_cool slope_monitoring.Ppk.Backlog.lookup
    slope_monitoring.Ppk.Backlog.insert_window in_order slope_monitoring.Ppk.Backlog.key_leb
one_selected = refl

late_eligible : is_eligible (λ t. []) (λ v. none) [] [] [] now 3 late ≡ true
unfolding is_eligible slope_monitoring.Ppk.Backlog.has_solution
    slope_monitoring.Ppk.Backlog.is_blocked slope_monitoring.Ppk.Backlog.failed_attempts
    slope_monitoring.Ppk.Backlog.is_cool slope_monitoring.Ppk.Backlog.lookup
late_eligible = refl

select_windows-first_example :
    Among late (early ∷ [])
    ⊎ ((length (early ∷ []) ≡ 1) × All (λ x. in_order false x late ≡ true) (early ∷ []))
select_windows-first_example =
    Selecting.select_windows-first (λ t. []) (λ v. none) [] [] [] now 3 (late ∷ early ∷ []) 1 false
      late one_selected (inl refl) late_eligible
