-- ===== src/Blast/Ack.antt =====
-- services/device_config_service/trigger_ack_service.py: a device's acknowledgment of TriggerStart.
-- `loads` stands for json.loads on a text value, with `none` for its ValueError.
use mathlib.Core.Option
use slope_monitoring.Common.{
  ℕ, String, Bool, true, false, not, ◌&&◌, ◌||◌, Option, none, some, List, [], ◌∷◌, ltb, ◌==◌, leb,
  str_eq, if◌then◌else◌,
}
use slope_monitoring.Common.Int.{ℤ, pos, negsuc}
use slope_monitoring.Common.Text.{codes, lower, text_eq}
use slope_monitoring.Blast.Values.{Value, integer, text}
use slope_monitoring.Blast.Tables.{
  Device, ConfigRow, PendingRow, Db, Reason, unknown_device, invalid_device_type, role_mismatch,
  base_not_unique, base_not_found, non_authoritative_base, command_state_mismatch,
  no_matching_pending, stale_pending, find_device, find_config, latest_pending,
}

-- str(device_type).lower() in ('base', 'gnss_base')
unfoldable pub is_base_type : String → Bool
is_base_type t =
    text_eq (lower (codes t)) (codes "base") || text_eq (lower (codes t)) (codes "gnss_base")

unfoldable pub is_known_type : String → Bool
unfolding is_base_type
is_known_type t =
    is_base_type t
    || text_eq (lower (codes t)) (codes "rover")
    || text_eq (lower (codes t)) (codes "gnss_rover")

-- s.removeprefix(p)
drop_prefix : List ℕ → List ℕ → Option (List ℕ)
drop_prefix [] s = some s
drop_prefix (c ∷ p) [] = none
drop_prefix (c ∷ p) (d ∷ s) = if c == d then drop_prefix p s else none

remove_prefix : List ℕ → List ℕ → List ℕ
unfolding drop_prefix
remove_prefix p s = Option.get_or (drop_prefix p s) s

-- device_role.lower() is the device type, with or without `gnss_`
unfoldable pub role_matches : String → String → Bool
unfolding remove_prefix lower text_eq
role_matches role t =
    text_eq (lower (codes role)) (lower (codes t))
    || text_eq (lower (codes role)) (remove_prefix (codes "gnss_") (lower (codes t)))

-- SELECT device_id FROM devices WHERE site_id=$1 AND lower(device_type) IN ('base','gnss_base').
-- ORDER BY and LIMIT 2 are left out: the code looks only at whether there are none, one, or more.
unfoldable pub bases_of : String → List Device → List Device
bases_of site [] = []
bases_of site (d ∷ ds) =
    let rest = bases_of site ds in
    if str_eq d.site_id site && is_base_type d.device_type then d ∷ rest else rest

eq_ℤ : ℤ → ℤ → Bool
eq_ℤ (pos a) (pos b) = a == b
eq_ℤ (negsuc a) (negsuc b) = a == b
eq_ℤ (pos a) (negsuc b) = false
eq_ℤ (negsuc a) (pos b) = false

-- The site's base, or the reason why the sender may not acknowledge, with the base where it is known.
pub data Sender : Type 0 where
  refused : Reason → Option String → Sender
  authorised : String → Sender

authorise : Device → List Device → Sender
authorise sender [] = refused base_not_found none
authorise sender (b ∷ []) =
    if is_base_type sender.device_type && not (str_eq sender.device_id b.device_id)
    then refused non_authoritative_base (some b.device_id)
    else authorised b.device_id
authorise sender (b ∷ c ∷ rest) = refused base_not_unique none

check_sender : String → List Device → Option Device → Sender
check_sender role devices none = refused unknown_device none
check_sender role devices (some d) =
    if not (is_known_type d.device_type)
    then refused invalid_device_type none
    else if not (role_matches role d.device_type)
    then refused role_mismatch none
    else authorise d (bases_of d.site_id devices)

-- The command that is acknowledged: the base and its latest pending row.
pub data Verdict : Type 0 where
  rejected : Reason → Option String → Verdict
  accepted : String → PendingRow → Verdict

mark_acked : ℕ → ℕ → List PendingRow → List PendingRow
mark_acked id now [] = []
mark_acked id now (p ∷ ps) =
    let rest = mark_acked id now ps in
    (if p.id == id then record p { acked_at = some (Option.get_or p.acked_at now) } else p) ∷ rest

site_of : Option Device → Option String
site_of none = none
site_of (some d) = some d.site_id

record_verdict : String → ℤ → String → ℕ → Db → Verdict → Bool × Db
record_verdict device_id start role now db (rejected why base) = (
  false,
  record db {
    rejections =
        record {
          device_id = device_id;
          site_id = site_of (find_device device_id db.devices);
          base_id = base;
          trigger_start = start;
          reason_code = why;
          server_received_at = now;
        }
        ∷ db.rejections;
  },
)
record_verdict device_id start role now db (accepted base latest) = (
  true,
  record db {
    pending = if str_eq device_id base then mark_acked latest.id now db.pending else db.pending;
    acks =
        record {
          device_id = device_id;
          pending_config_id = latest.id;
          trigger_start = start;
          server_received_at = now;
          device_role = role;
        }
        ∷ db.acks;
  },
)

is_switch : ℤ → Bool
is_switch (pos n) = leb n 1
is_switch (negsuc n) = false

module _ (loads : String → Option Value) where
  only_int : Option Value → Option ℤ
  only_int (some (integer n)) = some n
  only_int v = none

  -- _json_integer(value)
  unfoldable pub json_integer : Value → Option ℤ
  unfolding only_int
  json_integer (text s) = only_int (loads s)
  json_integer v = only_int (some v)

  -- _json_integer(value) == trigger_start
  unfoldable pub holds_value : ℤ → Value → Bool
  unfolding json_integer eq_ℤ
  holds_value start v = elim (json_integer v) [ none ↦ false | some n ↦ eq_ℤ n start ]

  check_pending : String → ℤ → ConfigRow → Option PendingRow → Verdict
  check_pending base start active none = rejected no_matching_pending (some base)
  check_pending base start active (some p) =
      if not (holds_value start p.config_value)
      then rejected no_matching_pending (some base)
      else if ltb p.created_at active.updated_at
      then rejected stale_pending (some base)
      else accepted base p

  check_active : String → ℤ → Option ConfigRow → Option PendingRow → Verdict
  check_active base start none latest = rejected command_state_mismatch (some base)
  check_active base start (some active) latest =
      if holds_value start active.config_value
      then check_pending base start active latest
      else rejected command_state_mismatch (some base)

  check_command : ℤ → Db → Sender → Verdict
  check_command start db (refused why base) = rejected why base
  check_command start db (authorised base) =
      check_active base start (find_config base "TriggerStart" db.config)
        (latest_pending base "TriggerStart" db.pending)

  -- the decision of `acknowledge_trigger_start`, before it writes
  unfoldable pub judge : String → ℤ → String → Db → Verdict
  unfolding check_sender authorise check_command check_active check_pending
  judge device_id start role db =
      check_command start db (check_sender role db.devices (find_device device_id db.devices))

  unfoldable pub acknowledge_trigger_start : String → ℤ → String → ℕ → Db → Bool × Db
  unfolding is_switch site_of record_verdict mark_acked
  acknowledge_trigger_start device_id start role now db =
      if is_switch start
      then record_verdict device_id start role now db (judge device_id start role db)
      else (false, db)
