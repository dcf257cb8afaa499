-- ===== src/Blast/Laws/Sweeping.antt =====
-- The pages of a pass, one after the other: after the last of them nothing is due that the SELECT
-- takes as active.
use mathlib.Core.Path.{subst}
use slope_monitoring.Common.{
  ℕ, zero, suc, ◌≤◌, ◌<◌, String, ◌≡◌, refl, sym, ap, ◌∙◌, inl, inr, Bool, true, false, Option,
  none, some, List, [], ◌∷◌, All, length, ltb, leb, arith, Bool-cases, ◌&&◌,
}
use slope_monitoring.Errors.{Result, ok, err}
use slope_monitoring.Blast.Tables.{ConfigRow, Db, find_config}
use slope_monitoring.Blast.Reconcile.{
  Cursor, in_order, is_past_cursor, page, last_key, is_swept, expire_page, add_count, next_cursor,
  after_page, sweep, reconcile_once,
}
use slope_monitoring.Blast.Laws.Expiring.{is_due}
use slope_monitoring.Blast.Laws.Pages.{IsOrder, last_key-is_after, All-among}
use slope_monitoring.Blast.Laws.Reconciling.{IsKept, NotDue, Pending, expire_page-IsKept, leftover}

module _ (before : String → String → Bool) (order : IsOrder before) (now clock : String → ℕ) where
  -- no base with an active row is due
  Settled : Db → Type 0
  Settled db =
      (b : String) (q : ConfigRow)
      → find_config b "TriggerStart" db.config ≡ some q
      → is_swept q.config_value ≡ true
      → is_due b (clock b) db ≡ false

  add_count-ok :
      (n : ℕ) (o : Option (Result ℕ)) {m : ℕ}
      → add_count before now clock n o ≡ some (ok m)
      → (k : ℕ) × (o ≡ some (ok k))
  unfolding add_count
  add_count-ok n none h = absurd (ground arith)
  add_count-ok n (some (err e)) h = absurd (ground arith)
  add_count-ok n (some (ok k)) h = (k, refl)

  -- what a page of at least one row leaves for the pages after it
  page-Pending :
      (limit : ℕ) (cursor : Option Cursor) (db next : Db) (r : ConfigRow) (rs : List ConfigRow)
      → page before limit cursor db ≡ r ∷ rs
      → Pending before order now clock cursor db
      → ((b : String) → IsKept b (clock b) db next)
      → All (NotDue before order now clock next) (r ∷ rs)
      → Pending before order now clock (some (last_key before r rs)) next
  unfolding is_past_cursor
  page-Pending limit cursor db next r rs is pending kept idle b q found on due =
      let (dev, size, all_before) =
        leftover before order now clock limit cursor db next b q pending (kept b)
          (subst (All (NotDue before order now clock next)) (sym is) idle) found on due in
      let rows_before = subst (All (λ x. in_order before x q ≡ true)) is all_before in
      elim (last_key-is_after before order r rs q rows_before) [
        | inl after ↦ after
        | inr (x, m, same) ↦
            let x_idle =
              All-among before order (NotDue before order now clock next) x (r ∷ rs) idle m in
            absurd
              (ground (arith, subst (λ y. is_due y (clock y) next ≡ false) (same ∙ dev) x_idle))
      ]

  -- a page that is not full is the last
  page-Settled :
      (limit : ℕ) (cursor : Option Cursor) (db next : Db) (rows : List ConfigRow)
      → page before limit cursor db ≡ rows
      → length rows < limit
      → Pending before order now clock cursor db
      → ((b : String) → IsKept b (clock b) db next)
      → All (NotDue before order now clock next) rows
      → Settled next
  unfolding Settled
  page-Settled limit cursor db next rows is short pending kept idle b q found on =
      elim (Bool-cases (is_due b (clock b) next)) [
        | inr e ↦ e
        | inl due ↦
            let (dev, size, all_before) =
              leftover before order now clock limit cursor db next b q pending (kept b)
                (subst (All (NotDue before order now clock next)) (sym is) idle) found on due in
            absurd (omega (arith, short, ap length is, size))
      ]

  after_page-Settled :
      (limit : ℕ) (cursor : Option Cursor) (db : Db) (rows : List ConfigRow) (done : Result ℕ × Db)
      (rest : Option (Result ℕ) × Db) {n : ℕ}
      → 1 ≤ limit
      → page before limit cursor db ≡ rows
      → expire_page before now clock rows db ≡ done
      → Pending before order now clock cursor db
      → ((m : ℕ)
          → rest.0 ≡ some (ok m)
          → Pending before order now clock (next_cursor before now clock cursor rows) done.1
          → Settled rest.1)
      → (after_page before now clock limit rows db done rest).0 ≡ some (ok n)
      → Settled (after_page before now clock limit rows db done rest).1
  unfolding after_page next_cursor expire_page
  after_page-Settled limit cursor db [] done rest some_rows is done_is pending later h =
      page-Settled limit cursor db db [] is (omega (arith, some_rows)) pending
        (λ b. record { still_idle = λ idle. idle; same_row = λ q found on. found }) tt
  after_page-Settled limit cursor db (r ∷ rs) (err e, stopped) rest some_rows is done_is pending
        later h =
      absurd (ground arith)
  after_page-Settled limit cursor db (r ∷ rs) (ok k, next) rest some_rows is done_is pending later
        h =
      let facts = expire_page-IsKept before order now clock (r ∷ rs) db (ap (λ x. x.0) done_is) in
      let moved =
        subst
          (λ x.
            ((b : String) → IsKept b (clock b) db x)
            × All (NotDue before order now clock x) (r ∷ rs))
          (ap (λ x. x.1) done_is) facts in
      elim (Bool-cases (ltb (length (r ∷ rs)) limit)) [
        | inl e ↦ rw e (
            page-Settled limit cursor db next (r ∷ rs) is (ground (arith, e)) pending moved.0
              moved.1)
        | inr e ↦
            let h1 : add_count before now clock k rest.0 ≡ some (ok _) = sym (rw e refl) ∙ h in
            let (m, ends) = add_count-ok k rest.0 h1 in
            rw e (later m ends (page-Pending limit cursor db next r rs is pending moved.0 moved.1))
      ]

  sweep-Settled :
      (fuel limit : ℕ) (cursor : Option Cursor) (db : Db) {n : ℕ}
      → 1 ≤ limit
      → Pending before order now clock cursor db
      → (sweep before now clock fuel limit cursor db).0 ≡ some (ok n)
      → Settled (sweep before now clock fuel limit cursor db).1
  unfolding sweep
  sweep-Settled zero limit cursor db some_rows pending h = absurd (ground arith)
  sweep-Settled (suc fuel) limit cursor db some_rows pending h =
      let rows = page before limit cursor db in
      let done = expire_page before now clock rows db in
      after_page-Settled limit cursor db rows done _ some_rows refl refl pending
        (λ m e p.
          sweep-Settled fuel limit (next_cursor before now clock cursor rows) done.1 some_rows p e)
        h

  -- A pass that ends without an exception leaves no command on that it could have expired: if the row of
  -- a base is 1 or true after the pass, the command was not due at the time of the base's turn. The
  -- ids are ordered by the database, and the times of the transactions are any.
  pub reconcile_once-settles :
      (limit : ℕ) (db : Db) {n : ℕ} (b : String) (q : ConfigRow)
      → (reconcile_once before now clock limit db).0 ≡ some (ok n)
      → find_config b "TriggerStart" (reconcile_once before now clock limit db).1.config ≡ some q
      → is_swept q.config_value ≡ true
      → is_due b (clock b) (reconcile_once before now clock limit db).1 ≡ false
  unfolding reconcile_once Settled is_past_cursor
  reconcile_once-settles limit db {n} b q h = elim (Bool-cases (leb 1 limit && leb limit 1000)) [
    | inr e ↦ absurd (ground arith)
    | inl e ↦
        let positive : 1 ≤ limit = ground (arith, e) in
        let h1 : (sweep before now clock (suc (length db.config)) limit none db).0 ≡ some (ok n) =
          sym (rw e refl) ∙ h in
        rw e (
          sweep-Settled (suc (length db.config)) limit none db positive (λ c r found on due. refl)
            h1 b q)
  ]
