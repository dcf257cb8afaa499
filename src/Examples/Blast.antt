-- ===== src/Examples/Blast.antt =====
-- The blast command on the tables of one site with a base and a rover.
use slope_monitoring.Common.{
  ℕ, suc, String, ◌≡◌, refl, Bool, true, false, Option, none, some, List, [], ◌∷◌, length, ◌+◌, ◌*◌,
  ◌≤◌, leb, ltb, if◌then◌else◌, arith, is_some,
}
use slope_monitoring.Common.Int.{pos}
use slope_monitoring.Common.Text.{codes, int_of_text}
use slope_monitoring.Errors.{Result, ok, err, overflow_error}
use slope_monitoring.Blast.Values.{
  Value, null, integer, text, Timestamp, aware, minute, end_of_dates, expired, is_active,
}
use slope_monitoring.Blast.Tables.{
  Reason, Device, ConfigRow, PendingRow, Db, find_device, find_config, upsert_config,
  latest_pending,
}
use slope_monitoring.Blast.Trigger.{
  set_site_trigger_on_conn, trigger_blast_atomic, reset_blast_atomic,
}
use slope_monitoring.Blast.Ack.{
  is_known_type, role_matches, bases_of, judge, holds_value, acknowledge_trigger_start,
}
use slope_monitoring.Blast.Expiry.{expire_one_on_conn}
use slope_monitoring.Blast.Status.{trigger_status}
use slope_monitoring.Blast.Laws.Triggering
use slope_monitoring.Blast.Laws.Triggering.{IsFresh, Armed, failure_of}
use slope_monitoring.Blast.Laws.Acknowledging
use slope_monitoring.Blast.Laws.Refusing
use slope_monitoring.Blast.Laws.Refusing.{Explains, site_id_of}
use slope_monitoring.Blast.Laws.Acknowledging.{Accepted}
use slope_monitoring.Blast.Laws.Expiring
use slope_monitoring.Blast.Laws.Expiring.{is_due, decision}

abbrev the_base : Device
the_base = record { device_id = "BASE-01"; device_type = "base"; site_id = "SITE-1" }

abbrev the_rover : Device
the_rover = record { device_id = "ROVER-B1-01"; device_type = "rover"; site_id = "SITE-1" }

-- a site with one old pending row
abbrev pub home : Db
home = record {
  devices = the_base ∷ the_rover ∷ [];
  config = [];
  pending =
      record {
        id = 4;
        device_id = "BASE-01";
        config_key = "TriggerStart";
        config_value = integer (pos 0);
        created_at = 500;
        acked_at = none;
      }
      ∷ [];
  next_pending = 5;
  commands = [];
  next_command = 1;
  audit = [];
  timeouts = [];
  acks = [];
  rejections = [];
  battery = [];
}

abbrev pub after {ℓ} : {A : Type ℓ} → Db → Result (A × Db) → Db
after db (err e) = db
after db (ok (a, db')) = db'

-- the tables after a start for 30 minutes, and after its expiry
abbrev pub started : Db
started = after home (trigger_blast_atomic "BASE-01" (pos 30) "7" 1000 home)

abbrev pub expired_at : ℕ
expired_at = 1000 + 30 * minute

abbrev pub reset : Db
reset = after started (expire_one_on_conn "BASE-01" expired_at (expired_at + 5) started)

abbrev no_json : String → Option Value
no_json s = none

home-IsFresh : IsFresh 1000 home
home-IsFresh = ((omega arith, omega arith), tt)

start_home : trigger_blast_atomic "BASE-01" (pos 30) "7" 1000 home ≡ ok (1, started)
unfolding trigger_blast_atomic set_site_trigger_on_conn find_device int_of_text
    slope_monitoring.Blast.Trigger.write_row
start_home = refl

expire_started : expire_one_on_conn "BASE-01" expired_at (expired_at + 5) started ≡ ok (true, reset)
unfolding trigger_blast_atomic set_site_trigger_on_conn find_device expire_one_on_conn find_config
    upsert_config int_of_text slope_monitoring.Blast.Trigger.write_row is_active expired
    slope_monitoring.Blast.Values.timeout_of
expire_started = refl

abbrev reset_of : Db → Db
reset_of db = elim (reset_blast_atomic "BASE-01" "7" 2000 db) [ ok db' ↦ db' | err e ↦ db ]

reset_started : reset_blast_atomic "BASE-01" "7" 2000 started ≡ ok (reset_of started)
unfolding reset_blast_atomic int_of_text set_site_trigger_on_conn find_device trigger_blast_atomic
    slope_monitoring.Blast.Trigger.write_row
reset_started = refl

trigger-Armed_example : Armed "BASE-01" (pos 30) "7" 1000 home started
trigger-Armed_example =
    Triggering.trigger-Armed "BASE-01" (pos 30) "7" 1000 home start_home home-IsFresh

-- the acknowledgments of the started command by the base, and by the base of another role
abbrev acked : Db
acked = (acknowledge_trigger_start no_json "BASE-01" (pos 1) "base" 3000 started).1

abbrev refused : Db
refused = (acknowledge_trigger_start no_json "BASE-01" (pos 1) "rover" 3000 started).1

ack_started :
    acknowledge_trigger_start no_json "BASE-01" (pos 1) "base" 3000 started ≡ (true, acked)
unfolding acknowledge_trigger_start judge find_device trigger_blast_atomic int_of_text
    set_site_trigger_on_conn slope_monitoring.Blast.Trigger.write_row is_known_type
    slope_monitoring.Common.Text.text_eq slope_monitoring.Common.Text.lower role_matches bases_of
    find_config upsert_config holds_value latest_pending
ack_started = refl

refuse_started :
    acknowledge_trigger_start no_json "BASE-01" (pos 1) "rover" 3000 started ≡ (false, refused)
unfolding acknowledge_trigger_start judge find_device trigger_blast_atomic int_of_text
    set_site_trigger_on_conn slope_monitoring.Blast.Trigger.write_row is_known_type
    slope_monitoring.Common.Text.text_eq slope_monitoring.Common.Text.lower role_matches
refuse_started = refl

ack-Accepted_example :
    (base : String) × (latest : PendingRow) × Accepted no_json "BASE-01"
      (pos 1)
      "base"
      started
      base
      latest
    × (acked.acks
        ≡ record {
          device_id = "BASE-01";
          pending_config_id = latest.id;
          trigger_start = pos 1;
          server_received_at = 3000;
          device_role = "base";
        }
          ∷ started.acks)
    × (acked.config ≡ started.config)
    × (acked.rejections ≡ started.rejections)
ack-Accepted_example =
    Acknowledging.ack-Accepted no_json "BASE-01" (pos 1) "base" 3000 started ack_started

ack_refusal_audited_example :
    (why : Reason) × (base : Option String) × Explains no_json "BASE-01"
      (pos 1)
      "rover"
      started
      why
      base
    × (refused ≡ record started {
      rejections =
          record {
            device_id = "BASE-01";
            site_id = site_id_of (find_device "BASE-01" started.devices);
            base_id = base;
            trigger_start = pos 1;
            reason_code = why;
            server_received_at = 3000;
          }
          ∷ started.rejections;
    })
ack_refusal_audited_example =
    Refusing.ack_refusal_audited no_json "BASE-01" 1 "rover" 3000 started (omega arith)
      refuse_started

base_known : is_known_type the_base.device_type ≡ true
unfolding is_known_type slope_monitoring.Common.Text.text_eq slope_monitoring.Common.Text.lower
base_known = refl

base_in_role : role_matches "base" the_base.device_type ≡ true
unfolding role_matches
base_in_role = refl

base_only : bases_of "SITE-1" home.devices ≡ the_base ∷ []
unfolding bases_of slope_monitoring.Blast.Ack.is_base_type slope_monitoring.Common.Text.text_eq
    slope_monitoring.Common.Text.lower
base_only = refl

base_found : find_device "BASE-01" home.devices ≡ some the_base
unfolding find_device
base_found = refl

trigger_then_ack_example :
    let (answer, db) = acknowledge_trigger_start no_json "BASE-01" (pos 1) "base" 3000 started in
    (answer ≡ true)
    × (db.acks
        ≡ record {
          device_id = "BASE-01";
          pending_config_id = 5;
          trigger_start = pos 1;
          server_received_at = 3000;
          device_role = "base";
        }
          ∷ [])
trigger_then_ack_example =
    Acknowledging.trigger_then_ack no_json "BASE-01" (pos 30) "7" "base" 1000 3000 home the_base
      start_home home-IsFresh base_found base_known base_in_role base_only refl

expired_once_more :
    expired (some (aware 1000)) (integer (pos 30)) (aware (1000 + 30 * minute)) ≡ ok true
unfolding expired slope_monitoring.Blast.Values.timeout_of
expired_once_more = refl

started_found : find_device "BASE-01" started.devices ≡ some the_base
unfolding find_device trigger_blast_atomic int_of_text set_site_trigger_on_conn
    slope_monitoring.Blast.Trigger.write_row
started_found = refl

started_not_due : is_due "BASE-01" 2000 started ≡ false
unfolding is_due find_config trigger_blast_atomic int_of_text set_site_trigger_on_conn find_device
    slope_monitoring.Blast.Trigger.write_row upsert_config is_active expired
    slope_monitoring.Blast.Values.timeout_of
started_not_due = refl

started_due_example : decision "BASE-01" expired_at started ≡ (
    if ltb (1000 + suc 29 * minute) end_of_dates
    then ok (leb (1000 + suc 29 * minute) expired_at)
    else err overflow_error)
started_due_example =
    Expiring.started_due "BASE-01" 29 "7" 1000 expired_at home start_home home-IsFresh

abbrev started_row : ConfigRow
started_row = record {
  device_id = "BASE-01";
  config_key = "TriggerStart";
  config_value = integer (pos 1);
  updated_by = "7";
  updated_at = 1000;
}

started_row_found : find_config "BASE-01" "TriggerStart" started.config ≡ some started_row
unfolding find_config trigger_blast_atomic int_of_text set_site_trigger_on_conn find_device
    slope_monitoring.Blast.Trigger.write_row upsert_config
started_row_found = refl

timeout_not_shown_example :
    ((trigger_status no_json "BASE-01" reset).auto_timeout ≡ false)
    × ((trigger_status no_json "BASE-01" reset).trigger_start ≡ some 0)
unfolding trigger_blast_atomic int_of_text set_site_trigger_on_conn find_device
    slope_monitoring.Blast.Trigger.write_row slope_monitoring.Blast.Expiry.has_timeout
timeout_not_shown_example =
    Expiring.timeout_not_shown no_json "BASE-01" expired_at (expired_at + 5) started started_row
      expire_started (omega arith) started_row_found refl
