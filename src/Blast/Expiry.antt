-- ===== src/Blast/Expiry.antt =====
-- services/device_config_service/blast_timeout_reconciler.py: the expiry of one
-- trigger. `now` is the start of the transaction (SQL now()), `clock` is clock_timestamp() where the
-- code reads it.
use slope_monitoring.Common.{
  ℕ, String, Bool, true, false, not, ◌&&◌, ◌||◌, Option, none, some, List, [], ◌∷◌, ◌==◌, str_eq,
  if◌then◌else◌,
}
use slope_monitoring.Common.Int.{pos}
use slope_monitoring.Errors.{Result, ok, ◌>>=◌}
use slope_monitoring.Blast.Values.{Value, null, aware, is_active, expired}
use slope_monitoring.Blast.Tables.{ConfigRow, TimeoutRow, Db, find_config}
use slope_monitoring.Blast.Trigger.{set_site_trigger_on_conn}

unfoldable pub has_timeout : String → ℕ → List TimeoutRow → Bool
has_timeout dev started [] = false
has_timeout dev started (t ∷ ts) =
    (str_eq t.device_id dev && t.started_at == started) || has_timeout dev started ts

-- INSERT INTO blast_trigger_timeout_events ... ON CONFLICT (device_id, started_at) DO NOTHING
insert_timeout : String → ℕ → ℕ → Db → Db
unfolding has_timeout
insert_timeout dev started at db = if has_timeout dev started db.timeouts then db else record db {
  timeouts = record { device_id = dev; started_at = started; expired_at = at } ∷ db.timeouts;
}

-- timeout['config_value'] if timeout else None
timeout_value : Option ConfigRow → Value
timeout_value none = null
timeout_value (some t) = t.config_value

-- the row is present, active, and past its timeout
due : String → ℕ → Db → Option ConfigRow → Result (Option ConfigRow)
due base clock db none = ok none
due base clock db (some row) =
    if not (is_active row.config_value)
    then ok none
    else expired (some (aware row.updated_at))
        (timeout_value (find_config base "TimeOutTrigger" db.config)) (aware clock)
      >>= λ over. ok (if over then some row else none)

expire_row : String → ℕ → ℕ → Db → Option ConfigRow → Result (Bool × Db)
expire_row base now clock db none = ok (false, db)
expire_row base now clock db (some row) = do
  let audited = insert_timeout base row.updated_at clock db
  reset ← set_site_trigger_on_conn base (pos 0) none "TIMEOUT_EXPIRED" now audited
  ok (true, reset)

unfoldable pub expire_one_on_conn : String → ℕ → ℕ → Db → Result (Bool × Db)
unfolding due expire_row insert_timeout timeout_value
expire_one_on_conn base now clock db =
    due base clock db (find_config base "TriggerStart" db.config) >>= λ found.
    expire_row base now clock db found
