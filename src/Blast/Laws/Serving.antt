-- ===== src/Blast/Laws/Serving.antt =====
-- What a device is served as its configuration.
use slope_monitoring.Common.{
  ℕ, String, ◌≡◌, ◌≢◌, ◌∙◌, refl, sym, Bool, true, false, Option, none, some, List, [], ◌∷◌, All,
  arith, str_eq,
}
use slope_monitoring.Common.Int.{ℤ, pos}
use slope_monitoring.Errors.{ok, bind-ok, ok-injective}
use mathlib.Core.Path.{subst}
use slope_monitoring.Blast.Values.{Value, is_active}
use slope_monitoring.Blast.Tables.{Device, ConfigRow, Db, find_device, find_config}
use slope_monitoring.Blast.Expiry.{expire_one_on_conn}
use slope_monitoring.Blast.Config.{
  Defaults, Contract, Settings, effective, switched_on, compose_contract_config, settings_of,
  is_config_base, base_of_site, id_or, serve_device, get_contract_config,
}
use slope_monitoring.Blast.Trigger.{trigger_blast_atomic}
use slope_monitoring.Blast.Laws.Triggering.{IsFresh, trigger-Armed}
use slope_monitoring.Blast.Laws.Expiring.{decision, is_due, expire_once, expire_false, expire_idle}

-- A device that is not the base is served the same TriggerStart and TimeOutTrigger whatever its own
-- rows say of them.
global_from_base :
    (float : Value → Option Value) (defaults : Defaults) (mine mine' base : Settings)
    (battery : List (String × Option Value × Option Value)) {c c' : Contract}
    → compose_contract_config float defaults mine base battery false ≡ ok c
    → compose_contract_config float defaults mine' base battery false ≡ ok c'
    → (c.trigger_start ≡ c'.trigger_start) × (c.timeout_trigger ≡ c'.timeout_trigger)
unfolding compose_contract_config effective
global_from_base float defaults mine mine' base battery h h' = ground arith

-- the battery values of a composed contract are those it was given
composed-battery_cal :
    (float : Value → Option Value) (defaults : Defaults) (mine base : Settings)
    (battery : List (String × Option Value × Option Value)) (is_base : Bool) {c : Contract}
    → compose_contract_config float defaults mine base battery is_base ≡ ok c
    → compose_contract_config float defaults mine base c.battery_cal is_base ≡ ok c
unfolding compose_contract_config
composed-battery_cal float defaults mine base battery is_base h = ground arith

expire_not_due :
    (base : String) (now clock : ℕ) (db : Db) {b : Bool} {db' : Db}
    → expire_one_on_conn base now clock db ≡ ok (b, db')
    → is_due base clock db' ≡ false
expire_not_due base now clock db {b = true} h = expire_once base now clock clock db h
expire_not_due base now clock db {b = false} h =
    let (idle, same) = expire_false base now clock db h in
    subst (λ t. is_due base clock t ≡ false) same idle

-- the contract is composed from the rows of the device and of `base` in `db`, and the command of `base`
-- is not due in `db`
abbrev pub IsServed :
    (Value → Option Value) → Defaults → String → String → ℕ → Contract → Db → Type 0
IsServed float defaults dev base clock c db =
    (compose_contract_config float defaults (settings_of dev db) (settings_of base db) c.battery_cal
        (str_eq base dev)
      ≡ ok c)
    × (is_due base clock db ≡ false)

serve_device-IsServed :
    (float : Value → Option Value) (defaults : Defaults) (dev : String) (now clock : ℕ) (db : Db)
    (d : Device) {c : Contract} {db' : Db}
    → serve_device float defaults dev now clock db d ≡ ok (c, db')
    → IsServed float defaults dev (id_or dev (base_of_site d.site_id db.devices)) clock c db'
unfolding serve_device
serve_device-IsServed float defaults dev now clock db d {c} {db'} h =
    let base = id_or dev (base_of_site d.site_id db.devices) in
    let (expiry, is_expiry, h2) = bind-ok (expire_one_on_conn base now clock db) h in
    let (contract, is_contract, h3) =
      bind-ok
        (compose_contract_config float defaults (settings_of dev expiry.1)
          (settings_of base expiry.1) _ (str_eq base dev))
        h2 in
    let pair : (contract, expiry.1) ≡ (c, db') = ok-injective h3 in
    let made =
      composed-battery_cal float defaults (settings_of dev expiry.1) (settings_of base expiry.1) _
        (str_eq base dev) is_contract in
    let idle = expire_not_due base now clock db {b = expiry.0} {db' = expiry.1} is_expiry in
    subst (λ p. IsServed float defaults dev base clock p.0 p.1) pair (made, idle)

-- A configuration that is served is composed from the rows of the device and of its base as they are
-- after the expiry step, and the command of that base is not due in them at the clock of the step.
pub get_contract_config-IsServed :
    (float : Value → Option Value) (defaults : Defaults) (dev : String) (now clock : ℕ) (db : Db)
    (d : Device) {c : Contract} {db' : Db}
    → get_contract_config float defaults dev now clock db ≡ ok (c, db')
    → find_device dev db.devices ≡ some d
    → IsServed float defaults dev (id_or dev (base_of_site d.site_id db.devices)) clock c db'
unfolding get_contract_config
get_contract_config-IsServed float defaults dev now clock db d h found =
    let step : get_contract_config float defaults dev now clock db
        ≡ serve_device float defaults dev now clock db d =
      ground (arith, found) in
    serve_device-IsServed float defaults dev now clock db d (sym step ∙ h)

-- A stored TriggerStart that counts as on when it is served, but is not one of the words that the
-- expiry takes for an active command (such as the text on), is served as 1 and is never due.
served_but_never_due :
    (float : Value → Option Value) (defaults : Defaults) (mine base : Settings)
    (battery : List (String × Option Value × Option Value)) {c : Contract} (name : String)
    (clock : ℕ) (db : Db) {r : ConfigRow}
    → compose_contract_config float defaults mine base battery false ≡ ok c
    → base "TriggerStart" ≡ some r.config_value
    → find_config name "TriggerStart" db.config ≡ some r
    → switched_on r.config_value ≡ true
    → is_active r.config_value ≡ false
    → (c.trigger_start ≡ 1) × (is_due name clock db ≡ false)
unfolding compose_contract_config effective is_due
served_but_never_due float defaults mine base battery name clock db h here row on word =
    ground arith

base_of_site-none :
    (site : String) (ds : List Device)
    → All (λ d. is_config_base d ≡ false) ds
    → base_of_site site ds ≡ none
unfolding base_of_site
base_of_site-none site [] h = refl
base_of_site-none site (d ∷ ds) h = ground (arith, h.0, base_of_site-none site ds h.1)

-- Where no device is named BASE-01 or has the type base (the site's base has the type gnss_base,
-- which the acknowledgment takes for a base), a start on the base is not served to another device of
-- the site: that device is its own base, and is served TriggerStart 0.
gnss_base_not_served :
    (float : Value → Option Value) (defaults : Defaults) (base dev : String) (minutes : ℤ)
    (by : String) (now later clock : ℕ) (db : Db) (d : Device) {i : ℕ} {c : Contract}
    {db' db'' : Db}
    → trigger_blast_atomic base minutes by now db ≡ ok (i, db')
    → IsFresh now db
    → All (λ d. is_config_base d ≡ false) db.devices
    → find_device dev db.devices ≡ some d
    → base ≢ dev
    → find_config dev "TriggerStart" db.config ≡ none
    → defaults.trigger_start ≡ pos 0
    → get_contract_config float defaults dev later clock db' ≡ ok (c, db'')
    → c.trigger_start ≡ 0
unfolding get_contract_config serve_device compose_contract_config effective settings_of id_or
    switched_on
gnss_base_not_served float defaults base dev minutes by now later clock db d {db' = db'} h fresh
      none_named found other unset off served =
    let armed = trigger-Armed base minutes by now db h fresh in
    let same : find_config dev "TriggerStart" db'.config ≡ none =
      armed.others dev "TriggerStart" other ∙ unset in
    ground (
      arith,
      same,
      armed.devices,
      base_of_site-none d.site_id db.devices none_named,
      expire_idle dev later clock db' (unfold decision in ground (arith, same)),
    )
