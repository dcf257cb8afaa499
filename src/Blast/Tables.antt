-- ===== src/Blast/Tables.antt =====
-- The tables that the blast command reads and writes, with the SQL that the repositories send them.
-- TIMESTAMPTZ columns are microseconds; `now()` is the start of the transaction, so every statement
-- of one transaction is given the same `now`.
use slope_monitoring.Common.{
  ℕ, ◌+◌, String, ◌≡◌, refl, Bool, ◌&&◌, ◌||◌, Option, none, some, List, [], ◌∷◌, ltb, ◌==◌, arith,
  str_eq, eq_iff, if◌then◌else◌,
}
use slope_monitoring.Common.Int.{ℤ}
use slope_monitoring.Blast.Values.{Value}

pub record Device : Type 0 where
  pub device_id : String
  pub device_type : String
  pub site_id : String

-- device_config, with PRIMARY KEY (device_id, config_key)
pub record ConfigRow : Type 0 where
  pub device_id : String
  pub config_key : String
  pub config_value : Value
  pub updated_by : String
  pub updated_at : ℕ

-- device_config_pending
pub record PendingRow : Type 0 where
  pub id : ℕ
  pub device_id : String
  pub config_key : String
  pub config_value : Value
  pub created_at : ℕ
  pub acked_at : Option ℕ

-- blast_trigger_commands
pub record CommandRow : Type 0 where
  pub command_id : ℕ
  pub base_id : String
  pub requested_by : ℤ
  pub executed_at : ℕ

-- audit_log, with the values of new_value in the order of its keys
pub record AuditRow : Type 0 where
  pub actor_user_id : ℤ
  pub action : String
  pub target_id : String
  pub new_value : List (String × Value)

-- blast_trigger_timeout_events, with UNIQUE (device_id, started_at)
pub record TimeoutRow : Type 0 where
  pub device_id : String
  pub started_at : ℕ
  pub expired_at : ℕ

pub data Reason : Type 0 where
  unknown_device invalid_device_type role_mismatch base_not_unique base_not_found : Reason
  non_authoritative_base command_state_mismatch no_matching_pending stale_pending : Reason

-- blast_trigger_ack_rejections
pub record RejectionRow : Type 0 where
  pub device_id : String
  pub site_id : Option String
  pub base_id : Option String
  pub trigger_start : ℤ
  pub reason_code : Reason
  pub server_received_at : ℕ

-- blast_trigger_acks
pub record AckRow : Type 0 where
  pub device_id : String
  pub pending_config_id : ℕ
  pub trigger_start : ℤ
  pub server_received_at : ℕ
  pub device_role : String

-- device_battery_cal, with PRIMARY KEY device_id
pub record BatteryRow : Type 0 where
  pub device_id : String
  pub battery_cal_m : Option Value
  pub battery_cal_c : Option Value

-- Rows are added in front; the ids of `pending` and `commands` come from their sequences.
pub record Db : Type 0 where
  pub devices : List Device
  pub config : List ConfigRow
  pub pending : List PendingRow
  pub next_pending : ℕ
  pub commands : List CommandRow
  pub next_command : ℕ
  pub audit : List AuditRow
  pub timeouts : List TimeoutRow
  pub acks : List AckRow
  pub rejections : List RejectionRow
  pub battery : List BatteryRow

-- SELECT ... FROM devices WHERE device_id = $1
unfoldable pub find_device : String → List Device → Option Device
find_device k [] = none
find_device k (d ∷ ds) = if str_eq d.device_id k then some d else find_device k ds

abbrev pub same_key : ConfigRow → String → String → Bool
same_key r dev key = str_eq r.device_id dev && str_eq r.config_key key

-- SELECT ... FROM device_config WHERE device_id = $1 AND config_key = $2
unfoldable pub find_config : String → String → List ConfigRow → Option ConfigRow
find_config dev key [] = none
find_config dev key (r ∷ rs) = if same_key r dev key then some r else find_config dev key rs

-- INSERT INTO device_config ... ON CONFLICT (device_id, config_key) DO UPDATE
unfoldable pub upsert_config : ConfigRow → List ConfigRow → List ConfigRow
upsert_config new [] = new ∷ []
upsert_config new (r ∷ rs) =
    if same_key r new.device_id new.config_key then new ∷ rs else r ∷ upsert_config new rs

-- `ORDER BY created_at DESC, id DESC`: p comes before q
abbrev pub newer : PendingRow → PendingRow → Bool
newer p q = ltb q.created_at p.created_at || (p.created_at == q.created_at && ltb q.id p.id)

first_of : PendingRow → Option PendingRow → Option PendingRow
first_of p none = some p
first_of p (some q) = if newer q p then some q else some p

-- SELECT ... FROM device_config_pending WHERE device_id=$1 AND config_key=$2
-- ORDER BY created_at DESC, id DESC LIMIT 1
unfoldable pub latest_pending : String → String → List PendingRow → Option PendingRow
unfolding first_of
latest_pending dev key [] = none
latest_pending dev key (p ∷ ps) =
    let rest = latest_pending dev key ps in
    if str_eq p.device_id dev && str_eq p.config_key key then first_of p rest else rest

-- INSERT INTO device_config_pending (device_id, config_key, config_value, created_at)
unfoldable pub insert_pending : String → String → Value → ℕ → Db → Db
insert_pending dev key value now db =
    let row : PendingRow = record {
      id = db.next_pending;
      device_id = dev;
      config_key = key;
      config_value = value;
      created_at = now;
      acked_at = none;
    } in
    record db { pending = row ∷ db.pending; next_pending = db.next_pending + 1 }

-- A read after an upsert sees the new row at its key, and the old one at every other.
pub find_config-upsert_config :
    (dev key : String) (new : ConfigRow) (rs : List ConfigRow)
    → find_config dev key (upsert_config new rs)
      ≡ (if same_key new dev key then some new else find_config dev key rs)
unfolding find_config upsert_config
find_config-upsert_config dev key new [] = refl
find_config-upsert_config dev key new (r ∷ rs) = ground (
  arith,
  find_config-upsert_config dev key new rs,
  eq_iff r.device_id new.device_id,
  eq_iff r.config_key new.config_key,
  eq_iff r.device_id dev,
  eq_iff r.config_key key,
  eq_iff new.device_id dev,
  eq_iff new.config_key key,
)
