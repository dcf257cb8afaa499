-- ===== src/Blast/Laws/Ending.antt =====
-- A pass of the reconciler ends: every full page leaves fewer candidates.
use mathlib.Core.Path.{subst}
use slope_monitoring.Common.{
  ℕ, zero, suc, ◌≤◌, ◌<◌, String, ◌≡◌, refl, sym, ap, ◌∙◌, ◌⊎◌, inl, inr, Bool, true, false, ◌&&◌,
  Option, none, some, is_some, List, [], ◌∷◌, length, take, leb, arith, Bool-cases,
}
use slope_monitoring.Errors.{Result, ok, err}
use slope_monitoring.Blast.Tables.{ConfigRow, Db, upsert_config}
use slope_monitoring.Blast.Expiry.{expire_one_on_conn}
use slope_monitoring.Blast.Reconcile.{
  Cursor, is_after, is_past_cursor, is_candidate, candidates, insert_row, sort_rows, in_order, page,
  last_key, is_swept, expire_page, add_count, next_cursor, after_page, sweep, reconcile_once,
}
use slope_monitoring.Blast.Laws.Expiring.{expire_false}
use slope_monitoring.Blast.Laws.Pages.{Among, IsOrder}
use slope_monitoring.Blast.Laws.Reconciling.{expired_config, expire_then-ok}

module _ (before : String → String → Bool) (order : IsOrder before) where
  -- a row that is not active adds no candidate
  candidates-upsert_config :
      (cursor : Option Cursor) (new : ConfigRow) (rs : List ConfigRow)
      → is_swept new.config_value ≡ false
      → length (candidates before cursor (upsert_config new rs))
        ≤ length (candidates before cursor rs)
  unfolding candidates upsert_config is_candidate
  candidates-upsert_config cursor new [] h = ground arith
  candidates-upsert_config cursor new (r ∷ rs) h =
      ground (arith, candidates-upsert_config cursor new rs h)

  Among-uninsert :
      (v r : ConfigRow) (rs : List ConfigRow)
      → Among v (insert_row before r rs)
      → (v ≡ r) ⊎ Among v rs
  unfolding insert_row
  Among-uninsert v r [] h = h
  Among-uninsert v r (q ∷ qs) h = elim (Bool-cases (in_order before r q)) [
    | inl e ↦ rw e at h
    | inr e ↦
        let m : (v ≡ q) ⊎ Among v (insert_row before r qs) = rw e at h in
        elim m [
          | inl is ↦ inr (inl is)
          | inr later ↦ elim (Among-uninsert v r qs later) [
            | inl is ↦ inl is
            | inr old ↦ inr (inr old)
          ]
        ]
  ]

  Among-unsort : (v : ConfigRow) (rs : List ConfigRow) → Among v (sort_rows before rs) → Among v rs
  unfolding sort_rows
  Among-unsort v [] h = h
  Among-unsort v (r ∷ rs) h = elim (Among-uninsert v r (sort_rows before rs) h) [
    | inl is ↦ inl is
    | inr later ↦ inr (Among-unsort v rs later)
  ]

  Among-untake : (n : ℕ) (v : ConfigRow) (rs : List ConfigRow) → Among v (take n rs) → Among v rs
  Among-untake zero v rs h = absurd h
  Among-untake (suc n) v [] h = h
  Among-untake (suc n) v (r ∷ rs) (inl is) = inl is
  Among-untake (suc n) v (r ∷ rs) (inr later) = inr (Among-untake n v rs later)

  Among-last_key :
      (r : ConfigRow) (rs : List ConfigRow)
      → (x : ConfigRow) × Among x (r ∷ rs) × (last_key before r rs ≡ (x.updated_at, x.device_id))
  unfolding last_key
  Among-last_key r [] = (r, inl refl, refl)
  Among-last_key r (q ∷ qs) = let (x, m, is) = Among-last_key q qs in (x, inr m, is)

  is_after_trans :
      (c : Cursor) (x q : ConfigRow)
      → is_after before c x ≡ true
      → is_after before (x.updated_at, x.device_id) q ≡ true
      → is_after before c q ≡ true
  unfolding is_after
  is_after_trans c x q h k = ground (arith, order.transitive c.1 x.device_id q.device_id)

  -- what lies after a candidate is a candidate after the cursor too
  candidate_after :
      (cursor : Option Cursor) (x q : ConfigRow)
      → is_candidate before cursor x ≡ true
      → is_candidate before (some (x.updated_at, x.device_id)) q ≡ true
      → is_candidate before cursor q ≡ true
  unfolding is_candidate is_past_cursor
  candidate_after none x q h k = ground arith
  candidate_after (some c) x q h k = ground (arith, is_after_trans c x q)

  candidate_not_after_itself :
      (x : ConfigRow) → is_candidate before (some (x.updated_at, x.device_id)) x ≡ false
  unfolding is_candidate is_past_cursor is_after
  candidate_not_after_itself x = ground (arith, order.irreflexive x.device_id)

  fewer_or_equal :
      (cursor : Option Cursor) (x : ConfigRow) (rs : List ConfigRow)
      → is_candidate before cursor x ≡ true
      → length (candidates before (some (x.updated_at, x.device_id)) rs)
        ≤ length (candidates before cursor rs)
  unfolding candidates
  fewer_or_equal cursor x [] h = omega arith
  fewer_or_equal cursor x (r ∷ rs) h =
      ground (arith, candidate_after cursor x r h, fewer_or_equal cursor x rs h)

  -- fewer candidates lie after a candidate than after the cursor
  fewer_candidates :
      (cursor : Option Cursor) (x : ConfigRow) (rs : List ConfigRow)
      → Among x (candidates before cursor rs)
      → (is_candidate before cursor x ≡ true)
        × (length (candidates before (some (x.updated_at, x.device_id)) rs)
            < length (candidates before cursor rs))
  unfolding candidates
  fewer_candidates cursor x [] m = absurd m
  fewer_candidates cursor x (r ∷ rs) m = elim (Bool-cases (is_candidate before cursor r)) [
    | inl e ↦
        let m1 : (x ≡ r) ⊎ Among x (candidates before cursor rs) = rw e at m in
        elim m1 [
          | inl is ↦
              let mine : is_candidate before cursor x ≡ true =
                ap (is_candidate before cursor) is ∙ e in
              let not_r : is_candidate before (some (x.updated_at, x.device_id)) r ≡ false =
                ap (is_candidate before (some (x.updated_at, x.device_id))) (sym is)
                ∙ candidate_not_after_itself x in
              (mine, ground (arith, not_r, e, fewer_or_equal cursor x rs mine))
          | inr later ↦
              let rest = fewer_candidates cursor x rs later in (rest.0, ground (arith, e, rest.1))
        ]
    | inr e ↦
        let m1 : Among x (candidates before cursor rs) = rw e at m in
        let rest = fewer_candidates cursor x rs m1 in
        (rest.0, ground (arith, e, rest.1, candidate_after cursor x r rest.0))
  ]

  candidates-le :
      (cursor : Option Cursor) (rs : List ConfigRow)
      → length (candidates before cursor rs) ≤ length rs
  unfolding candidates
  candidates-le cursor [] = omega arith
  candidates-le cursor (r ∷ rs) = ground (arith, candidates-le cursor rs)

  module _ (now clock : String → ℕ) where
    step_fewer :
        (d : String) (cursor : Option Cursor) (done : Bool) (db : Db) {next : Db}
        → expire_one_on_conn d (now d) (clock d) db ≡ ok (done, next)
        → length (candidates before cursor next.config)
          ≤ length (candidates before cursor db.config)
    step_fewer d cursor true db h =
        let (new, is, off) = expired_config d (now d) (clock d) db h in
        rw is (candidates-upsert_config cursor new db.config off)
    step_fewer d cursor false db h =
        subst
          (λ x.
            length (candidates before cursor x.config)
            ≤ length (candidates before cursor db.config))
          (expire_false d (now d) (clock d) db h).1 (omega arith)

    expire_page_fewer :
        (cursor : Option Cursor) (rows : List ConfigRow) (db : Db) {n : ℕ}
        → (expire_page before now clock rows db).0 ≡ ok n
        → length (candidates before cursor (expire_page before now clock rows db).1.config)
          ≤ length (candidates before cursor db.config)
    unfolding expire_page
    expire_page_fewer cursor [] db h = omega arith
    expire_page_fewer cursor (r ∷ rs) db h =
        let d = r.device_id in
        let (done, next, m, e, later, is) =
          expire_then-ok before order now clock (expire_one_on_conn d (now d) (clock d) db) db
            (expire_page before now clock rs) h in
        subst
          (λ x.
            length (candidates before cursor x.config)
            ≤ length (candidates before cursor db.config))
          (sym is)
          (omega (arith, step_fewer d cursor done db e, expire_page_fewer cursor rs next later))

    after_page_ends :
        (limit fuel : ℕ) (cursor : Option Cursor) (db : Db) (rows : List ConfigRow)
        (done : Result ℕ × Db) (rest : Option (Result ℕ) × Db)
        → page before limit cursor db ≡ rows
        → expire_page before now clock rows db ≡ done
        → length (candidates before cursor db.config) < suc fuel
        → (length (candidates before (next_cursor before now clock cursor rows) done.1.config)
              < fuel
            → is_some rest.0 ≡ true)
        → is_some (after_page before now clock limit rows db done rest).0 ≡ true
    unfolding after_page next_cursor page add_count
    after_page_ends limit fuel cursor db [] done rest is done_is enough later = refl
    after_page_ends limit fuel cursor db (r ∷ rs) (err e, stopped) rest is done_is enough later =
        refl
    after_page_ends limit fuel cursor db (r ∷ rs) (ok n, next) rest is done_is enough later =
        let (x, m, key) = Among-last_key r rs in
        let on_page = subst (Among x) (sym is) m in
        let among =
          Among-unsort x (candidates before cursor db.config) (
            Among-untake limit x (sort_rows before (candidates before cursor db.config)) on_page) in
        let fewer = (fewer_candidates cursor x db.config among).1 in
        let processed : length (candidates before (some (x.updated_at, x.device_id)) next.config)
            ≤ length (candidates before (some (x.updated_at, x.device_id)) db.config) =
          subst
            (λ y.
              length (candidates before (some (x.updated_at, x.device_id)) y.config)
              ≤ length (candidates before (some (x.updated_at, x.device_id)) db.config))
            (ap (λ y. y.1) done_is)
            (expire_page_fewer (some (x.updated_at, x.device_id)) (r ∷ rs) db
              (ap (λ y. y.0) done_is)) in
        let less : length (candidates before (some (last_key before r rs)) next.config) < fuel =
          rw key (omega (arith, fewer, processed, enough)) in
        ground (arith, later less)

    sweep_ends :
        (fuel limit : ℕ) (cursor : Option Cursor) (db : Db)
        → length (candidates before cursor db.config) < fuel
        → is_some (sweep before now clock fuel limit cursor db).0 ≡ true
    unfolding sweep
    sweep_ends zero limit cursor db enough = absurd (ground arith)
    sweep_ends (suc fuel) limit cursor db enough =
        let rows = page before limit cursor db in
        let done = expire_page before now clock rows db in
        after_page_ends limit fuel cursor db rows done _ refl refl enough
          (λ less. sweep_ends fuel limit (next_cursor before now clock cursor rows) done.1 less)

    -- A pass ends, by its last page or by an exception: the pages are never more than the rows of the
    -- configuration and one, although its own expiries change the tables between the pages. Nothing else
    -- writes to the tables during the pass.
    pub reconcile_once_ends :
        (limit : ℕ) (db : Db) → is_some (reconcile_once before now clock limit db).0 ≡ true
    unfolding reconcile_once
    reconcile_once_ends limit db = elim (Bool-cases (leb 1 limit && leb limit 1000)) [
      | inr e ↦ rw e refl
      | inl e ↦
          let few : length (candidates before none db.config) < suc (length db.config) =
            omega (arith, candidates-le none db.config) in
          rw e (sweep_ends (suc (length db.config)) limit none db few)
    ]
