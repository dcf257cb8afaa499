-- ===== src/Blast/Config.antt =====
-- The device configuration of services/device_config_service/config_repository.py: the writes of
-- single values, and the contract that a device is served. `float` stands for Python's float() on a
-- value, with `none` for its TypeError or ValueError; the defaults are read from the environment.
use Prim.Native.String.{compare}
use Prim.Native.Nat.{Ordering}
use slope_monitoring.Common.{
  ℕ, String, Bool, true, false, not, ◌&&◌, ◌||◌, Option, none, some, List, [], ◌∷◌, any, is_some,
  str_eq, if◌then◌else◌,
}
use slope_monitoring.Common.Int.{ℤ, pos, negsuc}
use slope_monitoring.Common.Text.{codes, strip, lower, text_eq}
use slope_monitoring.Errors.{
  Result, ok, err, app, value_error, runtime_error, ErrorCode, require, ◌>>=◌, ◌>>◌,
}
use slope_monitoring.Blast.Values.{Value, null, boolean, integer, text, opaque, py_int, py_str}
use slope_monitoring.Blast.Tables.{Device, BatteryRow, Db, find_device, find_config, insert_pending}
use slope_monitoring.Blast.Trigger.{write_row}
use slope_monitoring.Blast.Expiry.{expire_one_on_conn}

abbrev pub contract_keys : List String
contract_keys =
    "periodic_upload_s" ∷ "firmware_version" ∷ "threshold_g" ∷ "time_record_ms" ∷ "TriggerStart"
    ∷ "TimeOutTrigger" ∷ []

abbrev pub global_keys : List String
global_keys = "TriggerStart" ∷ "TimeOutTrigger" ∷ []

abbrev battery_device_ids : List String
battery_device_ids = "BASE-01" ∷ "ROVER-B1-01" ∷ "ROVER-B1-02" ∷ []

abbrev pub contains : List String → String → Bool
contains keys k = any (λ j. str_eq j k) keys

-- _default_config(), which reads the environment
pub record Defaults : Type 0 where
  pub periodic_upload_s : ℤ
  pub firmware_version : String
  pub threshold_g : Value
  pub time_record_ms : ℤ
  pub trigger_start : ℤ
  pub timeout_trigger : ℤ

pub record Contract : Type 0 where
  pub trigger_start : ℕ
  pub timeout_trigger : ℤ
  pub periodic_upload_s : ℤ
  pub time_record_ms : ℤ
  pub threshold_g : Value
  pub firmware_version : List ℕ
  pub battery_cal : List (String × Option Value × Option Value)

-- a dict of config_key to config_value
abbrev pub Settings : Type 0
Settings = String → Option Value

override : Value → Option Value → Value
override v none = v
override v (some w) = w

-- The three `update`s: the default, overridden by the base's value, overridden by the requested
-- device's own; a global key is taken from a requested device only if that is the base.
unfoldable pub effective : Bool → Settings → Settings → String → Value → Value
unfolding override
effective requested_is_base requested base k default =
    let from_base = override default (base k) in
    if requested_is_base || not (contains global_keys k)
    then override from_base (requested k)
    else from_base

nonzero : ℤ → Bool
nonzero (pos ℕ.zero) = false
nonzero (pos (ℕ.suc n)) = true
nonzero (negsuc n) = true

word_on : List ℕ → Bool
word_on w =
    text_eq w (codes "1")
    || text_eq w (codes "true")
    || text_eq w (codes "yes")
    || text_eq w (codes "on")

-- whether config["TriggerStart"] counts as on
unfoldable pub switched_on : Value → Bool
unfolding nonzero word_on
switched_on null = false
switched_on (boolean b) = b
switched_on (integer n) = nonzero n
switched_on (text s) = word_on (lower (strip (codes s)))
switched_on (opaque o) = o.truthy

-- int(value), where a value that is no number raises
int_or_fail : Value → Result ℤ
int_or_fail v = elim (py_int v) [ none ↦ err value_error | some n ↦ ok n ]

module _ (float : Value → Option Value) where
  float_or_fail : Value → Result Value
  float_or_fail v = elim (float v) [ none ↦ err value_error | some x ↦ ok x ]

  unfoldable pub compose_contract_config :
      Defaults
      → Settings
      → Settings
      → List (String × Option Value × Option Value)
      → Bool
      → Result Contract
  unfolding int_or_fail float_or_fail
  compose_contract_config defaults requested base battery requested_is_base = do
    let value = effective requested_is_base requested base
    let start = value "TriggerStart" (integer defaults.trigger_start)
    timeout ← int_or_fail (value "TimeOutTrigger" (integer defaults.timeout_trigger))
    upload ← int_or_fail (value "periodic_upload_s" (integer defaults.periodic_upload_s))
    window ← int_or_fail (value "time_record_ms" (integer defaults.time_record_ms))
    threshold ← float_or_fail (value "threshold_g" defaults.threshold_g)
    ok (record {
      trigger_start = if switched_on start then 1 else 0;
      timeout_trigger = timeout;
      periodic_upload_s = upload;
      time_record_ms = window;
      threshold_g = threshold;
      firmware_version = py_str (value "firmware_version" (text defaults.firmware_version));
      battery_cal = battery;
    })

-- {r["config_key"]: r["config_value"] for r in rows} of one device, cut to the contract's keys
unfoldable pub settings_of : String → Db → Settings
settings_of dev db k =
    if contains contract_keys k
    then elim (find_config dev k db.config) [ none ↦ none | some r ↦ some r.config_value ]
    else none

-- ORDER BY CASE WHEN device_id = 'BASE-01' THEN 0 ELSE 1 END, device_id: d comes before e
before : Device → Device → Bool
before d e =
    if str_eq d.device_id "BASE-01"
    then true
    else if str_eq e.device_id "BASE-01"
    then false
    else elim (compare d.device_id e.device_id) [ Ordering.gt ↦ false | _ ↦ true ]

first_base : Device → Option Device → Option Device
first_base d none = some d
first_base d (some e) = if before d e then some d else some e

-- device_id = 'BASE-01' OR lower(device_type) = 'base'
unfoldable pub is_config_base : Device → Bool
is_config_base d =
    str_eq d.device_id "BASE-01" || text_eq (lower (codes d.device_type)) (codes "base")

-- the base whose configuration a site is served, if there is one
unfoldable pub base_of_site : String → List Device → Option Device
unfolding first_base before is_config_base
base_of_site site [] = none
base_of_site site (d ∷ ds) =
    let rest = base_of_site site ds in
    if str_eq d.site_id site && is_config_base d then first_base d rest else rest

unfoldable pub id_or : String → Option Device → String
id_or dev none = dev
id_or dev (some d) = d.device_id

find_battery : String → List BatteryRow → Option Value × Option Value
find_battery dev [] = (none, none)
find_battery dev (b ∷ bs) =
    if str_eq b.device_id dev then (b.battery_cal_m, b.battery_cal_c) else find_battery dev bs

on_site : String → Option Device → Bool
on_site site none = false
on_site site (some d) = str_eq d.site_id site

-- _compose_battery_cal over the devices of the site
battery_cal : String → Db → List String → List (String × Option Value × Option Value)
battery_cal site db [] = []
battery_cal site db (dev ∷ devs) =
    let (m, c) =
      if on_site site (find_device dev db.devices)
      then find_battery dev db.battery
      else (none, none) in
    (dev, m, c) ∷ battery_cal site db devs

found_device : String → Db → Result Device
found_device dev db = elim (find_device dev db.devices) [
  | none ↦ err (app ErrorCode.not_found)
  | some d ↦ ok d
]

module _ (float : Value → Option Value) (defaults : Defaults) where
  -- the part of get_contract_config after the device is found
  unfoldable pub serve_device : String → ℕ → ℕ → Db → Device → Result (Contract × Db)
  unfolding id_or battery_cal find_battery on_site
  serve_device dev now clock db device = do
    let base = id_or dev (base_of_site device.site_id db.devices)
    expiry ← expire_one_on_conn base now clock db
    let after = expiry.1
    let battery = battery_cal device.site_id after battery_device_ids
    contract ←
        compose_contract_config float defaults (settings_of dev after) (settings_of base after)
          battery (str_eq base dev)
    ok (contract, after)

  -- get_contract_config: an overdue trigger is expired first, then the configuration is read again
  unfoldable pub get_contract_config : String → ℕ → ℕ → Db → Result (Contract × Db)
  unfolding found_device
  get_contract_config dev now clock db =
      found_device dev db >>= λ device. serve_device dev now clock db device

pub data BatteryColumn : Type 0 where
  slope offset : BatteryColumn

set_column : BatteryColumn → Value → BatteryRow → BatteryRow
set_column slope v r = record r { battery_cal_m = some v }
set_column offset v r = record r { battery_cal_c = some v }

-- INSERT INTO device_battery_cal ... ON CONFLICT (device_id) DO UPDATE of the one column
upsert_battery : String → BatteryColumn → Value → List BatteryRow → List BatteryRow
upsert_battery dev col v [] =
    set_column col v (record { device_id = dev; battery_cal_m = none; battery_cal_c = none }) ∷ []
upsert_battery dev col v (b ∷ bs) =
    if str_eq b.device_id dev then set_column col v b ∷ bs else b ∷ upsert_battery dev col v bs

column_of : String → BatteryColumn
column_of key = if str_eq key "battery_cal_m" then slope else offset

module _ (float : Value → Option Value) where
  -- _write_battery_value
  write_battery_value : String → String → Value → ℕ → Db → Result Db
  write_battery_value dev key raw now db = do
    value ← float_or_fail float raw
    require (is_some (find_device dev db.devices)) (app ErrorCode.not_found)
    let stored = record db { battery = upsert_battery dev (column_of key) value db.battery }
    ok (insert_pending dev key value now stored)

  -- write_value; the foreign key to `devices` refuses an unknown device
  unfoldable pub write_value : String → String → Value → String → ℕ → Db → Result Db
  unfolding write_battery_value float_or_fail upsert_battery set_column column_of
  write_value dev key value updated_by now db =
      if contains ("battery_cal_m" ∷ "battery_cal_c" ∷ []) key
      then write_battery_value dev key value now db
      else do
        require (contains contract_keys key) value_error
        require (is_some (find_device dev db.devices)) runtime_error
        ok (write_row dev updated_by key value now db)
