-- ===== src/Blast/Trigger.antt =====
-- DeviceConfigRepository.set_site_trigger_on_conn of
-- services/device_config_service/config_repository.py, and the two transactions of
-- services/blast_service.py. A transaction is a function into `Result (A × Db)`: after an error the
-- caller keeps the tables that it had, which is the rollback.
use slope_monitoring.Common.{
  ℕ, ◌+◌, String, Bool, false, Option, none, some, List, [], ◌∷◌, is_some, leb,
}
use slope_monitoring.Common.Int.{ℤ, pos, negsuc}
use slope_monitoring.Common.Text.{codes, int_of_text}
use slope_monitoring.Errors.{Result, ok, err, app, value_error, ErrorCode, require, ◌>>=◌, ◌>>◌}
use slope_monitoring.Blast.Values.{Value, integer}
use slope_monitoring.Blast.Tables.{Db, find_device, upsert_config, insert_pending}

-- one round of `for key, value in writes`
unfoldable pub write_row : String → String → String → Value → ℕ → Db → Db
unfolding insert_pending
write_row base_id updated_by key value now db = insert_pending base_id key value now (record db {
  config =
      upsert_config
        (record {
          device_id = base_id;
          config_key = key;
          config_value = value;
          updated_by = updated_by;
          updated_at = now;
        })
        db.config;
})

is_positive : ℤ → Bool
is_positive (pos n) = leb 1 n
is_positive (negsuc n) = false

is_switch : ℤ → Bool
is_switch (pos n) = leb n 1
is_switch (negsuc n) = false

-- the writes that follow `writes = [("TriggerStart", trigger_start)]`
write_trigger : String → ℤ → Option ℤ → String → ℕ → Db → Result Db
write_trigger base_id start none by now db =
    ok (write_row base_id by "TriggerStart" (integer start) now db)
write_trigger base_id start (some minutes) by now db = do
  require (is_positive minutes) value_error
  let first = write_row base_id by "TriggerStart" (integer start) now db
  ok (write_row base_id by "TimeOutTrigger" (integer minutes) now first)

unfoldable pub set_site_trigger_on_conn : String → ℤ → Option ℤ → String → ℕ → Db → Result Db
unfolding write_trigger is_switch is_positive
set_site_trigger_on_conn base_id start minutes by now db = do
  require (is_switch start) value_error
  require (is_some (find_device base_id db.devices)) (app ErrorCode.not_found)
  write_trigger base_id start minutes by now db

-- int(requested_by), where ValueError is raised on a malformed id
actor_of : String → Result ℤ
actor_of s = elim (int_of_text (codes s)) [ none ↦ err value_error | some n ↦ ok n ]

insert_command : String → ℤ → ℕ → Db → Db
insert_command base_id actor now db = record db {
  commands =
      record {
        command_id = db.next_command;
        base_id = base_id;
        requested_by = actor;
        executed_at = now;
      }
      ∷ db.commands;
  next_command = db.next_command + 1;
}

-- AuditLog.record_on_conn of common/audit.py, for a blast command
record_audit : ℤ → String → String → List (String × Value) → Db → Db
record_audit actor action target value db = record db {
  audit =
      record { actor_user_id = actor; action = action; target_id = target; new_value = value }
      ∷ db.audit;
}

unfoldable pub trigger_blast_atomic : String → ℤ → String → ℕ → Db → Result (ℕ × Db)
unfolding actor_of insert_command record_audit is_positive
trigger_blast_atomic base_id minutes requested_by now db = do
  require (is_positive minutes) value_error
  actor ← actor_of requested_by
  written ← set_site_trigger_on_conn base_id (pos 1) (some minutes) requested_by now db
  let commanded = insert_command base_id actor now written
  let values = ("TriggerStart", integer (pos 1)) ∷ ("TimeOutTrigger", integer minutes) ∷ []
  ok (written.next_command, record_audit actor "blast.trigger" base_id values commanded)

unfoldable pub reset_blast_atomic : String → String → ℕ → Db → Result Db
unfolding actor_of record_audit
reset_blast_atomic base_id requested_by now db = do
  actor ← actor_of requested_by
  written ← set_site_trigger_on_conn base_id (pos 0) none requested_by now db
  let values = ("TriggerStart", integer (pos 0)) ∷ []
  ok (record_audit actor "blast.trigger_reset" base_id values written)
