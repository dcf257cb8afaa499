-- ===== src/Blast/Laws/Reconciling.antt =====
-- A pass of the reconciler leaves no command on that it could have expired.
use mathlib.Core.Path.{subst}
use slope_monitoring.Common.{
  ℕ, String, ◌≡◌, refl, sym, ◌∙◌, inl, inr, Bool, true, false, ◌&&◌, Option, some, List, [], ◌∷◌,
  All, length, take, str_eq, eq_iff, arith, Bool-cases, some-injective,
}
use slope_monitoring.Common.Int.{pos}
use slope_monitoring.Errors.{Result, ok, err, bind-ok}
use slope_monitoring.Blast.Values.{integer}
use slope_monitoring.Blast.Tables.{ConfigRow, Db, find_config, upsert_config}
use slope_monitoring.Blast.Trigger.{set_site_trigger_on_conn, write_row}
use slope_monitoring.Blast.Expiry.{expire_one_on_conn}
use slope_monitoring.Blast.Reconcile.{
  in_order, Cursor, is_candidate, is_past_cursor, candidates, sort_rows, page, is_swept,
  expire_then, expire_page,
}
use slope_monitoring.Blast.Laws.Expiring.{is_due, expire_resets, expire_once, expire_false}
use slope_monitoring.Blast.Laws.Pages.{
  Among, IsOrder, sort_rows-Sorted, Among-sort, take_or_after, Among-candidates, All-among,
}

trigger_of : String → Db → Option ConfigRow
trigger_of b db = find_config b "TriggerStart" db.config

is_due_congr :
    (b : String) (clock : ℕ) (db db' : Db)
    → find_config b "TriggerStart" db'.config ≡ find_config b "TriggerStart" db.config
    → find_config b "TimeOutTrigger" db'.config ≡ find_config b "TimeOutTrigger" db.config
    → is_due b clock db' ≡ is_due b clock db
unfolding is_due
is_due_congr b clock db db' h k = ground arith

-- what one step leaves of base b: its trigger is as before, or it is neither due nor active
pub record IsKept (b : String) (clock : ℕ) (db db' : Db) : Type 0 where
  pub still_idle : is_due b clock db ≡ false → is_due b clock db' ≡ false
  pub same_row :
      (q : ConfigRow)
      → find_config b "TriggerStart" db'.config ≡ some q
      → is_swept q.config_value ≡ true
      → find_config b "TriggerStart" db.config ≡ some q

other_base :
    (d b : String) (now at clock : ℕ) (db : Db) {db' : Db} (key : String)
    → expire_one_on_conn d now at db ≡ ok (true, db')
    → str_eq d b ≡ false
    → find_config b key db'.config ≡ find_config b key db.config
other_base d b now at clock db key h other = ground (arith, expire_resets d now at db b key h)

own_row :
    (d : String) (now at : ℕ) (db : Db) {db' : Db} (q : ConfigRow)
    → expire_one_on_conn d now at db ≡ ok (true, db')
    → find_config d "TriggerStart" db'.config ≡ some q
    → is_swept q.config_value ≡ false
unfolding is_swept
own_row d now at db q h found =
    ground (arith, expire_resets d now at db d "TriggerStart" h, eq_iff d d)

expired-IsKept :
    (d b : String) (now at clock : ℕ) (db : Db) {db' : Db}
    → expire_one_on_conn d now at db ≡ ok (true, db')
    → IsKept b clock db db'
expired-IsKept d b now at clock db {db'} h = elim (Bool-cases (str_eq d b)) [
  | inl e ↦
      let same : d ≡ b = (eq_iff d b).0 e in
      record {
        still_idle =
            λ idle. subst (λ x. is_due x clock db' ≡ false) same (expire_once d now at clock db h);
        same_row = λ q found on. absurd (
            ground (
              arith,
              own_row d now at db q h
                  (subst (λ x. find_config x "TriggerStart" db'.config ≡ some q) (sym same) found),
            ));
      }
  | inr e ↦
      let row = other_base d b now at clock db "TriggerStart" h e in
      let timeout = other_base d b now at clock db "TimeOutTrigger" h e in
      record {
        still_idle = λ idle. is_due_congr b clock db db' row timeout ∙ idle;
        same_row = λ q found on. sym row ∙ found;
      }
]

step-IsKept :
    (d b : String) (now at clock : ℕ) (done : Bool) (db : Db) {db' : Db}
    → expire_one_on_conn d now at db ≡ ok (done, db')
    → IsKept b clock db db'
step-IsKept d b now at clock true db h = expired-IsKept d b now at clock db h
step-IsKept d b now at clock false db h =
    subst (IsKept b clock db) (expire_false d now at db h).1
      (record { still_idle = λ idle. idle; same_row = λ q found on. found })

-- after the step of a base, its command is not due at the clock of the step
step_not_due :
    (d : String) (now at : ℕ) (done : Bool) (db : Db) {db' : Db}
    → expire_one_on_conn d now at db ≡ ok (done, db')
    → is_due d at db' ≡ false
step_not_due d now at true db h = expire_once d now at at db h
step_not_due d now at false db h =
    let kept = expire_false d now at db h in subst (λ x. is_due d at x ≡ false) kept.1 kept.0

IsKept-trans :
    (b : String) (clock : ℕ) (x y z : Db)
    → IsKept b clock x y
    → IsKept b clock y z
    → IsKept b clock x z
IsKept-trans b clock x y z h k = record {
  still_idle = λ idle. k.still_idle (h.still_idle idle);
  same_row = λ q found on. h.same_row q (k.same_row q found on) on;
}

find_config-Among :
    (b key : String) (rs : List ConfigRow) {q : ConfigRow}
    → find_config b key rs ≡ some q
    → Among q rs × (q.device_id ≡ b) × (str_eq q.config_key key ≡ true)
unfolding find_config
find_config-Among b key [] h = absurd (ground arith)
find_config-Among b key (r ∷ rs) {q} h =
    elim (Bool-cases (str_eq r.device_id b && str_eq r.config_key key)) [
      | inl e ↦
          let same : r ≡ q = some-injective (sym (rw e refl) ∙ h) in
          (
            inl (sym same),
            subst (λ x. x.device_id ≡ b) same ((eq_iff r.device_id b).0 (ground (arith, e))),
            subst (λ x. str_eq x.config_key key ≡ true) same (ground (arith, e)),
          )
      | inr e ↦
          let rest : find_config b key rs ≡ some q = sym (rw e refl) ∙ h in
          let (m, d, k) = find_config-Among b key rs rest in (inr m, d, k)
    ]

module _ (before : String → String → Bool) (order : IsOrder before) (now clock : String → ℕ) where
  pub expire_then-ok :
      (e : Result (Bool × Db)) (db : Db) (later : Db → Result ℕ × Db) {n : ℕ}
      → (expire_then before now clock e db later).0 ≡ ok n
      → (done : Bool) × (next : Db) × (m : ℕ) × (e ≡ ok (done, next))
        × ((later next).0 ≡ ok m)
        × ((expire_then before now clock e db later).1 ≡ (later next).1)
  unfolding expire_then
  expire_then-ok (err x) db later h = absurd (ground arith)
  expire_then-ok (ok (true, next)) db later h =
      let (m, e, k) = bind-ok (later next).0 h in (true, next, m, refl, e, refl)
  expire_then-ok (ok (false, next)) db later {n} h = (false, next, n, refl, h, refl)

  abbrev pub NotDue : Db → ConfigRow → Type 0
  NotDue db r = is_due r.device_id (clock r.device_id) db ≡ false

  -- A page that raises nothing leaves none of its bases due, and every other base as it was.
  pub expire_page-IsKept :
      (rows : List ConfigRow) (db : Db) {n : ℕ}
      → (expire_page before now clock rows db).0 ≡ ok n
      → ((b : String) → IsKept b (clock b) db (expire_page before now clock rows db).1)
        × All (NotDue (expire_page before now clock rows db).1) rows
  unfolding expire_page
  expire_page-IsKept [] db h =
      (λ b. record { still_idle = λ idle. idle; same_row = λ q found on. found }, tt)
  expire_page-IsKept (r ∷ rs) db h =
      let d = r.device_id in
      let (done, next, m, e, later, is) =
        expire_then-ok (expire_one_on_conn d (now d) (clock d) db) db
          (expire_page before now clock rs) h in
      let (kept, idle) = expire_page-IsKept rs next later in
      subst (λ x. ((b : String) → IsKept b (clock b) db x) × All (NotDue x) (r ∷ rs)) (sym is)
        (
          λ b.
              IsKept-trans b (clock b) db next _
                (step-IsKept d b (now d) (clock d) (clock b) done db e) (kept b),
          ((kept d).still_idle (step_not_due d (now d) (clock d) done db e), idle),
        )

  -- the bases that are still due have their row after the cursor
  abbrev pub Pending : Option Cursor → Db → Type 0
  Pending cursor db =
      (b : String) (q : ConfigRow)
      → find_config b "TriggerStart" db.config ≡ some q
      → is_swept q.config_value ≡ true
      → is_due b (clock b) db ≡ true
      → is_past_cursor before cursor q ≡ true

  -- what is left due after a page: the page was full, and its rows come before
  pub leftover :
      (limit : ℕ) (cursor : Option Cursor) (db next : Db) (b : String) (q : ConfigRow)
      → Pending cursor db
      → IsKept b (clock b) db next
      → All (NotDue next) (page before limit cursor db)
      → find_config b "TriggerStart" next.config ≡ some q
      → is_swept q.config_value ≡ true
      → is_due b (clock b) next ≡ true
      → (q.device_id ≡ b)
        × (length (page before limit cursor db) ≡ limit)
        × All (λ x. in_order before x q ≡ true) (page before limit cursor db)
  unfolding page
  leftover limit cursor db next b q pending kept idle found on due =
      let old = kept.same_row q found on in
      let (m, dev, key) = find_config-Among b "TriggerStart" db.config old in
      let was_due : is_due b (clock b) db ≡ true = elim (Bool-cases (is_due b (clock b) db)) [
        | inl e ↦ e
        | inr e ↦ absurd (ground (arith, kept.still_idle e))
      ] in
      let candidate : is_candidate before cursor q ≡ true =
        unfold is_candidate in ground (arith, pending b q old on was_due) in
      let sorted = sort_rows before (candidates before cursor db.config) in
      elim (take_or_after before order limit q sorted
        (sort_rows-Sorted before order (candidates before cursor db.config))
        (Among-sort before order q (candidates before cursor db.config)
          (Among-candidates before order cursor q db.config candidate m))) [
            | inr (size, all_before) ↦ (dev, size, all_before)
            | inl first ↦ absurd (
                ground (
                  arith,
                  subst (λ x. is_due x (clock x) next ≡ false) dev
                      (All-among before order (NotDue next) q (take limit sorted) idle first),
                ))
          ]

-- what an expiry writes to the configuration
pub expired_config :
    (d : String) (now at : ℕ) (db : Db) {db' : Db}
    → expire_one_on_conn d now at db ≡ ok (true, db')
    → (new : ConfigRow) × (db'.config ≡ upsert_config new db.config)
      × (is_swept new.config_value ≡ false)
unfolding expire_one_on_conn set_site_trigger_on_conn write_row is_swept
expired_config d now at db h = (
  record {
    device_id = d;
    config_key = "TriggerStart";
    config_value = integer (pos 0);
    updated_by = "TIMEOUT_EXPIRED";
    updated_at = now;
  },
  ground arith,
  refl,
)
