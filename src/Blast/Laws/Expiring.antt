-- ===== src/Blast/Laws/Expiring.antt =====
-- The expiry of a trigger: when it is due, what it writes, and what the operator is shown of it.
use slope_monitoring.Common.{
  ℕ, suc, ◌+◌, ◌*◌, ◌<◌, String, ◌≡◌, refl, sym, inl, inr, Option-cases, Bool, true, false, ◌&&◌,
  Option, none, some, List, ◌∷◌, arith, leb, ltb, str_eq, eq_iff, if◌then◌else◌,
}
use mathlib.Core.Path.{subst}
use slope_monitoring.Common.Int.{pos}
use slope_monitoring.Common.Text.{show_int}
use slope_monitoring.Common.Text.Decimal.{strip-show_int, text_eq_refl}
use slope_monitoring.Errors.{Result, ok, err, overflow_error}
use slope_monitoring.Blast.Values.{
  Value, null, integer, aware, minute, end_of_dates, passed, expired, timeout_of, is_active,
}
use slope_monitoring.Blast.Tables.{
  Device, ConfigRow, TimeoutRow, Db, find_device, find_config, find_config-upsert_config,
}
use slope_monitoring.Blast.Trigger.{trigger_blast_atomic, set_site_trigger_on_conn, write_row}
use slope_monitoring.Blast.Expiry.{expire_one_on_conn, has_timeout}
use slope_monitoring.Blast.Status.{boolean_integer, trigger_status, latest_timeout}
use slope_monitoring.Blast.Laws.Triggering.{IsFresh, trigger-Armed}

-- A timeout that the API wrote, a positive integer, is read back as itself.
timeout_of-integer : (n : ℕ) → timeout_of (integer (pos (suc n))) ≡ some (suc n)
unfolding timeout_of
timeout_of-integer n =
    rw (strip-show_int (suc n)) (rw (text_eq_refl (show_int (pos (suc n)))) (ground arith))

-- With such a timeout the decision is exact: expired from started_at + minutes on, and not before.
expired_exact :
    (started n now : ℕ)
    → expired (some (aware started)) (integer (pos (suc n))) (aware now) ≡ (
        if ltb (started + suc n * minute) end_of_dates
        then ok (leb (started + suc n * minute) now)
        else err overflow_error)
unfolding expired passed
expired_exact started n now = rw (timeout_of-integer n) refl

timeout_setting : Option ConfigRow → Value
timeout_setting none = null
timeout_setting (some r) = r.config_value

-- Whether the command of `base` is on and its timeout has passed at `clock`; `err` where the end of
-- the timeout is no date.
unfoldable pub decision : String → ℕ → Db → Result Bool
unfolding timeout_setting
decision base clock db = elim (find_config base "TriggerStart" db.config) [
  | none ↦ ok false
  | some row ↦
      if is_active row.config_value
      then expired (some (aware row.updated_at))
          (timeout_setting (find_config base "TimeOutTrigger" db.config)) (aware clock)
      else ok false
]

abbrev is_yes : Result Bool → Bool
is_yes (ok b) = b
is_yes (err e) = false

-- the command of `base` is on, and its timeout has passed at `clock`
unfoldable pub is_due : String → ℕ → Db → Bool
unfolding decision
is_due base clock db = is_yes (decision base clock db)

abbrev pub answer_of {ℓ} : {A : Type ℓ} → Result (Bool × A) → Result Bool
answer_of (ok (b, a)) = ok b
answer_of (err e) = err e

-- One expiry step on a registered base answers the decision, and raises only what that raises.
expire_decides :
    (base : String) (now clock : ℕ) (db : Db) {d : Device}
    → find_device base db.devices ≡ some d
    → answer_of (expire_one_on_conn base now clock db) ≡ decision base clock db
unfolding decision expire_one_on_conn set_site_trigger_on_conn
expire_decides base now clock db found = ground arith

-- A step on a command that is not due writes nothing, not even an audit row.
pub expire_idle :
    (base : String) (now clock : ℕ) (db : Db)
    → decision base clock db ≡ ok false
    → expire_one_on_conn base now clock db ≡ ok (false, db)
unfolding decision expire_one_on_conn
expire_idle base now clock db h = ground arith

-- A step that expires leaves the base's TriggerStart at 0, and nothing else of the configuration
-- changed.
pub expire_resets :
    (base : String) (now clock : ℕ) (db : Db) {db' : Db} (dev key : String)
    → expire_one_on_conn base now clock db ≡ ok (true, db')
    → find_config dev key db'.config ≡ (
        if str_eq base dev && str_eq "TriggerStart" key
        then some (record {
          device_id = base;
          config_key = "TriggerStart";
          config_value = integer (pos 0);
          updated_by = "TIMEOUT_EXPIRED";
          updated_at = now;
        })
        else find_config dev key db.config)
unfolding expire_one_on_conn set_site_trigger_on_conn write_row
expire_resets base now clock db dev key h = ground (
  arith,
  find_config-upsert_config dev key
      (record {
        device_id = base;
        config_key = "TriggerStart";
        config_value = integer (pos 0);
        updated_by = "TIMEOUT_EXPIRED";
        updated_at = now;
      })
      db.config,
)

-- After an expiry nothing is due until the next start, however late it is.
pub expire_once :
    (base : String) (now clock later : ℕ) (db : Db) {db' : Db}
    → expire_one_on_conn base now clock db ≡ ok (true, db')
    → is_due base later db' ≡ false
unfolding is_due is_active
expire_once base now clock later db h =
    ground (arith, expire_resets base now clock db base "TriggerStart" h, eq_iff base base)

-- After a start for n + 1 minutes at `now`, where no pending row is newer than `now` or has an id that
-- is still to come, the command is due from exactly that many minutes later; if that instant lies
-- after the year 9999, the decision raises OverflowError at every time.
pub started_due :
    (base : String) (n : ℕ) (by : String) (now clock : ℕ) (db : Db) {c : ℕ} {db' : Db}
    → trigger_blast_atomic base (pos (suc n)) by now db ≡ ok (c, db')
    → IsFresh now db
    → decision base clock db' ≡ (
        if ltb (now + suc n * minute) end_of_dates
        then ok (leb (now + suc n * minute) clock)
        else err overflow_error)
unfolding decision is_active
started_due base n by now clock db h fresh =
    ground (arith, trigger-Armed base (pos (suc n)) by now db h fresh, expired_exact now n clock)

pub expire_false :
    (base : String) (now clock : ℕ) (db : Db) {db' : Db}
    → expire_one_on_conn base now clock db ≡ ok (false, db')
    → (is_due base clock db ≡ false) × (db ≡ db')
unfolding is_due expire_one_on_conn set_site_trigger_on_conn
expire_false base now clock db h = ground arith

-- the latest expiry is recorded later than `now`
abbrev IsAfter : ℕ → Option TimeoutRow → Type 0
IsAfter now none = ⊥
IsAfter now (some t) = now < t.expired_at

latest_timeout-new :
    (dev : String) (now : ℕ) (t : TimeoutRow) (ts : List TimeoutRow)
    → str_eq t.device_id dev ≡ true
    → now < t.expired_at
    → IsAfter now (latest_timeout dev (t ∷ ts))
unfolding latest_timeout
latest_timeout-new dev now t ts same after = elim (Option-cases (latest_timeout dev ts)) [
  | inl e ↦ ground (arith, e)
  | inr (u, e) ↦ ground (arith, e)
]

latest_timeout-expire :
    (base : String) (now clock : ℕ) (db : Db) (row : ConfigRow) {db' : Db}
    → expire_one_on_conn base now clock db ≡ ok (true, db')
    → find_config base "TriggerStart" db.config ≡ some row
    → has_timeout base row.updated_at db.timeouts ≡ false
    → db'.timeouts
      ≡ record { device_id = base; started_at = row.updated_at; expired_at = clock } ∷ db.timeouts
unfolding expire_one_on_conn set_site_trigger_on_conn write_row
latest_timeout-expire base now clock db row h found fresh = ground arith

-- The first expiry of a start, in a transaction that began before its clock was read, is not shown to
-- the operator as an automatic reset right after: SQL now() is the start of the transaction, so the
-- reset is stored with an earlier time than the recorded expiry, and `trigger_status` wants a time not
-- before it.
pub timeout_not_shown :
    (loads : String → Option Value) (base : String) (now clock : ℕ) (db : Db) (row : ConfigRow)
    {db' : Db}
    → expire_one_on_conn base now clock db ≡ ok (true, db')
    → now < clock
    → find_config base "TriggerStart" db.config ≡ some row
    → has_timeout base row.updated_at db.timeouts ≡ false
    → ((trigger_status loads base db').auto_timeout ≡ false)
      × ((trigger_status loads base db').trigger_start ≡ some 0)
unfolding trigger_status boolean_integer
timeout_not_shown loads base now clock db row {db'} h before found fresh =
    let new : TimeoutRow = record {
      device_id = base;
      started_at = row.updated_at;
      expired_at = clock;
    } in
    let later : IsAfter now (latest_timeout base db'.timeouts) =
      subst (λ ts. IsAfter now (latest_timeout base ts))
        (sym (latest_timeout-expire base now clock db row h found fresh))
        (latest_timeout-new base now new db.timeouts ((eq_iff base base).1 refl) before) in
    let reset = expire_resets base now clock db base "TriggerStart" h in
    elim (Option-cases (latest_timeout base db'.timeouts)) [
      | inl e ↦ absurd (subst (IsAfter now) e later)
      | inr (t, e) ↦
          let after : now < t.expired_at = subst (IsAfter now) e later in
          ground (arith, reset, eq_iff base base, e, after)
    ]
