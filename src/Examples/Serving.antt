-- ===== src/Examples/Serving.antt =====
-- The served configuration on the tables of one site.
use slope_monitoring.Common.{
  str_eq, eq_iff, if◌then◌else◌, All, ◌≢◌, ℕ, String, ◌≡◌, refl, Bool, true, false, Option, none,
  some, List, [], ◌∷◌, ◌+◌, ◌*◌, arith,
}
use slope_monitoring.Common.Int.{pos}
use slope_monitoring.Common.Text.{codes, int_of_text}
use slope_monitoring.Errors.{Result, ok, err}
use slope_monitoring.Blast.Values.{Value, integer, text, is_active}
use slope_monitoring.Blast.Tables.{Device, ConfigRow, Db, find_device, find_config}
use slope_monitoring.Blast.Trigger.{trigger_blast_atomic}
use slope_monitoring.Blast.Config.{
  Defaults, Contract, Settings, switched_on, compose_contract_config, is_config_base, base_of_site,
  id_or, get_contract_config,
}
use slope_monitoring.Blast.Laws.Triggering.{IsFresh}
use slope_monitoring.Blast.Laws.Serving
use slope_monitoring.Blast.Laws.Serving.{IsServed}
use slope_monitoring.Examples.Blast.{home, after, started, expired_at}

abbrev defaults : Defaults
defaults = record {
  periodic_upload_s = pos 3600;
  firmware_version = "1.0";
  threshold_g = integer (pos 1);
  time_record_ms = pos 1000;
  trigger_start = pos 0;
  timeout_trigger = pos 30;
}

-- a float() that reads integers only
abbrev float : Value → Option Value
float (integer n) = some (integer n)
float v = none

abbrev nothing : Settings
nothing k = none

-- a device's own rows: an upload period, and a command of its own
abbrev own_timing : Settings
own_timing k =
    if str_eq k "periodic_upload_s"
    then some (integer (pos 60))
    else if str_eq k "TriggerStart"
    then some (integer (pos 1))
    else none

-- a command that is stored as a word
abbrev word_start : Settings
word_start k = if str_eq k "TriggerStart" then some (text "on") else none

abbrev word_row : ConfigRow
word_row = record {
  device_id = "BASE-01";
  config_key = "TriggerStart";
  config_value = text "on";
  updated_by = "7";
  updated_at = 10;
}

abbrev worded : Db
worded = record home { config = word_row ∷ [] }

abbrev the_rover : Device
the_rover = record { device_id = "ROVER-B1-01"; device_type = "rover"; site_id = "SITE-1" }

abbrev blank : Contract
blank = record {
  trigger_start = 0;
  timeout_trigger = pos 30;
  periodic_upload_s = pos 3600;
  time_record_ms = pos 1000;
  threshold_g = integer (pos 1);
  firmware_version = codes "1.0";
  battery_cal = [];
}

abbrev timed : Contract
timed = record blank { periodic_upload_s = pos 60 }

blank_served : compose_contract_config float defaults nothing nothing [] false ≡ ok blank
unfolding compose_contract_config slope_monitoring.Blast.Values.py_int
    slope_monitoring.Blast.Config.effective switched_on slope_monitoring.Blast.Values.py_str
blank_served = refl

timed_served : compose_contract_config float defaults own_timing nothing [] false ≡ ok timed
unfolding compose_contract_config slope_monitoring.Blast.Values.py_int
    slope_monitoring.Blast.Config.effective switched_on slope_monitoring.Blast.Values.py_str
timed_served = refl

abbrev served : Result (Contract × Db)
served = get_contract_config float defaults "ROVER-B1-01" expired_at (expired_at + 5) started

abbrev first_of : Result (Contract × Db) → Contract
first_of (ok (c, db)) = c
first_of (err e) = blank

served_expired :
    get_contract_config float defaults "ROVER-B1-01" expired_at (expired_at + 5) started
    ≡ ok (first_of served, after started served)
unfolding get_contract_config find_device trigger_blast_atomic int_of_text
    slope_monitoring.Blast.Trigger.set_site_trigger_on_conn slope_monitoring.Blast.Trigger.write_row
    slope_monitoring.Blast.Expiry.expire_one_on_conn find_config
    slope_monitoring.Blast.Tables.upsert_config base_of_site slope_monitoring.Common.Text.text_eq
    slope_monitoring.Common.Text.lower is_active slope_monitoring.Blast.Values.expired
    slope_monitoring.Blast.Values.timeout_of compose_contract_config
    slope_monitoring.Blast.Config.effective id_or is_config_base
    slope_monitoring.Blast.Config.settings_of switched_on slope_monitoring.Blast.Expiry.has_timeout
    slope_monitoring.Blast.Tables.insert_pending slope_monitoring.Blast.Values.py_int
    slope_monitoring.Blast.Values.py_str slope_monitoring.Common.Text.is_space
    slope_monitoring.Common.Text.show_int slope_monitoring.Common.Text.strip
    slope_monitoring.Blast.Config.serve_device
served_expired = refl

rover_found : find_device "ROVER-B1-01" started.devices ≡ some the_rover
unfolding find_device trigger_blast_atomic int_of_text
    slope_monitoring.Blast.Trigger.set_site_trigger_on_conn slope_monitoring.Blast.Trigger.write_row
rover_found = refl

get_contract_config-IsServed_example :
    IsServed float defaults "ROVER-B1-01"
      (id_or "ROVER-B1-01" (base_of_site "SITE-1" started.devices))
      (expired_at + 5)
      (first_of served)
      (after started served)
get_contract_config-IsServed_example =
    Serving.get_contract_config-IsServed float defaults "ROVER-B1-01" expired_at (expired_at + 5)
      started the_rover served_expired rover_found

abbrev word_contract : Contract
word_contract = record blank { trigger_start = 1 }

word_served : compose_contract_config float defaults nothing word_start [] false ≡ ok word_contract
unfolding compose_contract_config slope_monitoring.Blast.Values.py_int
    slope_monitoring.Blast.Config.effective switched_on slope_monitoring.Blast.Values.py_str
    slope_monitoring.Common.Text.text_eq slope_monitoring.Common.Text.lower
    slope_monitoring.Common.Text.strip
word_served = refl

word_found : find_config "BASE-01" "TriggerStart" worded.config ≡ some word_row
unfolding find_config
word_found = refl

word_is_on : switched_on (text "on") ≡ true
unfolding switched_on slope_monitoring.Common.Text.text_eq slope_monitoring.Common.Text.lower
    slope_monitoring.Common.Text.strip
word_is_on = refl

word_not_active : is_active (text "on") ≡ false
unfolding is_active
word_not_active = refl

-- a site whose base has the type gnss_base
abbrev gnss : Db
gnss = record home {
  devices =
      record { device_id = "GB-1"; device_type = "gnss_base"; site_id = "SITE-2" }
      ∷ record { device_id = "GR-1"; device_type = "gnss_rover"; site_id = "SITE-2" }
      ∷ [];
}

abbrev gnss_started : Db
gnss_started = after gnss (trigger_blast_atomic "GB-1" (pos 30) "7" 1000 gnss)

abbrev gnss_served : Result (Contract × Db)
gnss_served = get_contract_config float defaults "GR-1" 2000 2001 gnss_started

gnss_start : trigger_blast_atomic "GB-1" (pos 30) "7" 1000 gnss ≡ ok (1, gnss_started)
unfolding trigger_blast_atomic int_of_text slope_monitoring.Blast.Trigger.set_site_trigger_on_conn
    find_device slope_monitoring.Blast.Trigger.write_row
gnss_start = refl

gnss_read :
    get_contract_config float defaults "GR-1" 2000 2001 gnss_started
    ≡ ok (first_of gnss_served, after gnss_started gnss_served)
unfolding get_contract_config find_device trigger_blast_atomic int_of_text
    slope_monitoring.Blast.Trigger.set_site_trigger_on_conn slope_monitoring.Blast.Trigger.write_row
    slope_monitoring.Blast.Expiry.expire_one_on_conn find_config
    slope_monitoring.Blast.Tables.upsert_config base_of_site slope_monitoring.Common.Text.text_eq
    slope_monitoring.Common.Text.lower compose_contract_config slope_monitoring.Blast.Values.py_int
    slope_monitoring.Blast.Config.effective slope_monitoring.Blast.Config.settings_of
    slope_monitoring.Blast.Config.serve_device
gnss_read = refl

gnss-IsFresh : IsFresh 1000 gnss
gnss-IsFresh = ((omega arith, omega arith), tt)

gnss_unnamed : All (λ d. is_config_base d ≡ false) gnss.devices
unfolding is_config_base slope_monitoring.Common.Text.text_eq slope_monitoring.Common.Text.lower
gnss_unnamed = (refl, (refl, tt))

gnss_found :
    find_device "GR-1" gnss.devices
    ≡ some (record { device_id = "GR-1"; device_type = "gnss_rover"; site_id = "SITE-2" })
unfolding find_device
gnss_found = refl

gnss_unset : find_config "GR-1" "TriggerStart" gnss.config ≡ none
unfolding find_config
gnss_unset = refl

abbrev gnss_base : String
gnss_base = "GB-1"

abbrev gnss_rover : String
gnss_rover = "GR-1"

gnss_other : gnss_base ≢ gnss_rover
gnss_other = λ e. ground (arith, eq_iff "GB-1" "GR-1")
