-- ===== src/Blast/Laws/Triggering.antt =====
-- What a start and a reset leave in the tables.
use slope_monitoring.Common.{
  ℕ, ◌≤◌, ◌<◌, String, ◌≡◌, ◌≢◌, Option, none, some, List, [], ◌∷◌, All, ◌&&◌, if◌then◌else◌, arith,
  str_eq, eq_iff, is_some, not,
}
use slope_monitoring.Common.Int.{ℤ, pos, negsuc, leb_ℤ}
use slope_monitoring.Common.Text.{codes, int_of_text}
use slope_monitoring.Errors.{Result, ok, err, Failure, app, value_error, ErrorCode}
use slope_monitoring.Blast.Values.{Value, integer}
use slope_monitoring.Blast.Tables.{
  PendingRow, Db, find_device, find_config, find_config-upsert_config, latest_pending,
}
use slope_monitoring.Blast.Trigger.{
  write_row, set_site_trigger_on_conn, trigger_blast_atomic, reset_blast_atomic,
}

-- No pending row has an id that the sequence will give out, or a time later than `now`.
abbrev pub IsFresh : ℕ → Db → Type 0
IsFresh now db = All (λ p. (p.id < db.next_pending) × (p.created_at ≤ now)) db.pending

abbrev IsOlder : ℕ → ℕ → Option PendingRow → Type 0
IsOlder id now none = Unit
IsOlder id now (some p) = (p.id < id) × (p.created_at ≤ now)

latest_pending-IsOlder :
    (id now : ℕ) (dev key : String) (ps : List PendingRow)
    → All (λ p. (p.id < id) × (p.created_at ≤ now)) ps
    → IsOlder id now (latest_pending dev key ps)
unfolding latest_pending
latest_pending-IsOlder id now dev key [] h = tt
latest_pending-IsOlder id now dev key (p ∷ ps) h =
    ground (arith, h.0, latest_pending-IsOlder id now dev key ps h.1)

-- A row with a new id and the latest time is the one that the query finds.
latest_pending-newest :
    (p : PendingRow) (ps : List PendingRow)
    → All (λ q. (q.id < p.id) × (q.created_at ≤ p.created_at)) ps
    → latest_pending p.device_id p.config_key (p ∷ ps) ≡ some p
unfolding latest_pending
latest_pending-newest p ps h = ground (
  arith,
  eq_iff p.device_id p.device_id,
  eq_iff p.config_key p.config_key,
  latest_pending-IsOlder p.id p.created_at p.device_id p.config_key ps h,
)

-- The trigger of `base` is on for `minutes`, switched at `now` by `by`.
pub record Armed (base : String) (minutes : ℤ) (by : String) (now : ℕ) (db db' : Db) : Type 0 where
  pub trigger :
      find_config base "TriggerStart" db'.config
      ≡ some (record {
        device_id = base;
        config_key = "TriggerStart";
        config_value = integer (pos 1);
        updated_by = by;
        updated_at = now;
      })
  pub timeout :
      find_config base "TimeOutTrigger" db'.config
      ≡ some (record {
        device_id = base;
        config_key = "TimeOutTrigger";
        config_value = integer minutes;
        updated_by = by;
        updated_at = now;
      })
  pub others :
      (dev key : String)
      → base ≢ dev
      → find_config dev key db'.config ≡ find_config dev key db.config
  pub pending :
      latest_pending base "TriggerStart" db'.pending
      ≡ some (record {
        id = db.next_pending;
        device_id = base;
        config_key = "TriggerStart";
        config_value = integer (pos 1);
        created_at = now;
        acked_at = none;
      })
  pub devices : db'.devices ≡ db.devices
  pub acks : db'.acks ≡ db.acks

write_twice :
    (base by key key' : String) (v v' : Value) (now : ℕ) (db : Db) (dev k : String)
    → find_config dev k (write_row base by key' v' now (write_row base by key v now db)).config ≡ (
        if str_eq base dev && str_eq key' k
        then some (record {
          device_id = base;
          config_key = key';
          config_value = v';
          updated_by = by;
          updated_at = now;
        })
        else if str_eq base dev && str_eq key k
        then some (record {
          device_id = base;
          config_key = key;
          config_value = v;
          updated_by = by;
          updated_at = now;
        })
        else find_config dev k db.config)
unfolding write_row
write_twice base by key key' v v' now db dev k = simp find_config-upsert_config

trigger_state :
    (base : String) (minutes : ℤ) (by : String) (now : ℕ) (db : Db) {c : ℕ} {db' : Db}
    → trigger_blast_atomic base minutes by now db ≡ ok (c, db')
    → let w =
        write_row base by "TimeOutTrigger"
          (integer minutes)
          now
          (write_row base by "TriggerStart" (integer (pos 1)) now db) in
      (db'.config ≡ w.config)
      × (db'.pending ≡ w.pending)
      × (db'.devices ≡ db.devices)
      × (db'.acks ≡ db.acks)
      × (db'.next_pending ≡ w.next_pending)
unfolding trigger_blast_atomic set_site_trigger_on_conn write_row
trigger_state base minutes by now db h = ground arith

write_twice_pending :
    (base by : String) (v v' : Value) (now : ℕ) (db : Db)
    → IsFresh now db
    → let w =
        write_row base by "TimeOutTrigger" v' now (write_row base by "TriggerStart" v now db) in
      latest_pending base "TriggerStart" w.pending
      ≡ some (record {
        id = db.next_pending;
        device_id = base;
        config_key = "TriggerStart";
        config_value = v;
        created_at = now;
        acked_at = none;
      })
unfolding write_row latest_pending
write_twice_pending base by v v' now db fresh = ground (
  arith,
  eq_iff base base,
  latest_pending-IsOlder db.next_pending now base "TriggerStart" db.pending fresh,
)

-- A start that succeeds leaves the base's TriggerStart at 1 and its TimeOutTrigger at the minutes,
-- both written at `now`, a new unacknowledged pending row as the latest one, and the configuration
-- of every other device, the devices and the acknowledgments as they were. The condition is that no
-- pending row is newer than `now`, the start of the transaction, and that the ids of the sequence are
-- new: a reset that began later and committed first is excluded.
pub trigger-Armed :
    (base : String) (minutes : ℤ) (by : String) (now : ℕ) (db : Db) {c : ℕ} {db' : Db}
    → trigger_blast_atomic base minutes by now db ≡ ok (c, db')
    → IsFresh now db
    → Armed base minutes by now db db'
trigger-Armed base minutes by now db h fresh =
    let w = trigger_state base minutes by now db h in
    record {
      trigger = rw w.0 (rw write_twice (ground (arith, eq_iff base base)));
      timeout = rw w.0 (rw write_twice (ground (arith, eq_iff base base)));
      others = λ dev key ne. rw w.0 (rw write_twice (ground (arith, eq_iff base dev)));
      pending =
          rw w.1 (write_twice_pending base by (integer (pos 1)) (integer minutes) now db fresh);
      devices = w.2;
      acks = w.3;
    }

abbrev pub failure_of {ℓ} : {A : Type ℓ} → Result A → Option Failure
failure_of (ok a) = none
failure_of (err e) = some e

-- A start fails with ValueError for minutes below 1 or a requester that is no integer, with
-- NOT_FOUND for a base that is not registered, in that order, and otherwise succeeds.
trigger_failures :
    (base : String) (minutes : ℤ) (by : String) (now : ℕ) (db : Db)
    → failure_of (trigger_blast_atomic base minutes by now db) ≡ (
        if leb_ℤ minutes (pos 0)
        then some value_error
        else if not (is_some (int_of_text (codes by)))
        then some value_error
        else if is_some (find_device base db.devices)
        then none
        else some (app ErrorCode.not_found))
unfolding trigger_blast_atomic set_site_trigger_on_conn
trigger_failures base (pos n) by now db = ground arith
trigger_failures base (negsuc n) by now db = ground arith

-- A reset that succeeds leaves the base's TriggerStart at 0, written at `now`, and every other
-- configuration value of every device as it was, the base's TimeOutTrigger among them; it records
-- no command.
reset_keeps_timeout :
    (base by : String) (now : ℕ) (db : Db) {db' : Db} (dev key : String)
    → reset_blast_atomic base by now db ≡ ok db'
    → (find_config dev key db'.config ≡ (
        if str_eq base dev && str_eq "TriggerStart" key
        then some (record {
          device_id = base;
          config_key = "TriggerStart";
          config_value = integer (pos 0);
          updated_by = by;
          updated_at = now;
        })
        else find_config dev key db.config))
      × (db'.commands ≡ db.commands)
unfolding reset_blast_atomic set_site_trigger_on_conn write_row
reset_keeps_timeout base by now db dev key h = ground (
  arith,
  find_config-upsert_config dev key
      (record {
        device_id = base;
        config_key = "TriggerStart";
        config_value = integer (pos 0);
        updated_by = by;
        updated_at = now;
      })
      db.config,
)
