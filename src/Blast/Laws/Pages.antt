-- ===== src/Blast/Laws/Pages.antt =====
-- The pages of the reconciler: sorted candidates, and what lies after a page.
use mathlib.Core.Path.{subst}
use slope_monitoring.Common.{
  ℕ, zero, suc, String, ◌≡◌, refl, sym, ap, ◌⊎◌, inl, inr, Bool, true, false, Option, List, [], ◌∷◌,
  All, length, take, arith, Bool-cases,
}
use slope_monitoring.Blast.Tables.{ConfigRow}
use slope_monitoring.Blast.Reconcile.{
  Cursor, is_after, is_candidate, candidates, in_order, insert_row, sort_rows, last_key,
}

abbrev pub Among : ConfigRow → List ConfigRow → Type 0
Among r [] = ⊥
Among r (x ∷ xs) = (r ≡ x) ⊎ Among r xs

-- what the order of device ids is: a strict total order
pub record IsOrder (before : String → String → Bool) : Type 0 where
  pub irreflexive : (a : String) → before a a ≡ false
  pub transitive : (a b c : String) → before a b ≡ true → before b c ≡ true → before a c ≡ true
  pub total : (a b : String) → before a b ≡ false → before b a ≡ false → a ≡ b

module _ (before : String → String → Bool) (order : IsOrder before) where
  not_before_trans : (a b c : String) → before b a ≡ false → before c b ≡ false → before c a ≡ false
  not_before_trans a b c h k = elim (Bool-cases (before c a)) [
    | inr e ↦ e
    | inl e ↦ elim (Bool-cases (before a b)) [
      | inl f ↦ absurd (ground (arith, order.transitive c a b e f))
      | inr f ↦ absurd (ground (arith, ap (before c) (order.total a b f h)))
    ]
  ]

  in_order_trans :
      (a b c : ConfigRow)
      → in_order before a b ≡ true
      → in_order before b c ≡ true
      → in_order before a c ≡ true
  unfolding in_order is_after
  in_order_trans a b c h k = ground (arith, not_before_trans a.device_id b.device_id c.device_id)

  not_before : (a b : String) → before a b ≡ true → before b a ≡ false
  not_before a b h = elim (Bool-cases (before b a)) [
    | inr e ↦ e
    | inl e ↦ absurd (ground (arith, order.transitive a b a h e, order.irreflexive a))
  ]

  in_order_total : (a b : ConfigRow) → in_order before a b ≡ false → in_order before b a ≡ true
  unfolding in_order is_after
  in_order_total a b h = ground (arith, not_before b.device_id a.device_id)

  -- a row that the last one of a page does not come after lies after it, or is of its base
  in_order-is_after :
      (a b : ConfigRow)
      → in_order before a b ≡ true
      → (is_after before (a.updated_at, a.device_id) b ≡ true) ⊎ (a.device_id ≡ b.device_id)
  unfolding in_order is_after
  in_order-is_after a b h = elim (Bool-cases (before a.device_id b.device_id)) [
    | inl e ↦ ground arith
    | inr e ↦ elim (Bool-cases (before b.device_id a.device_id)) [
      | inl f ↦ ground arith
      | inr f ↦ inr (order.total a.device_id b.device_id e f)
    ]
  ]

  abbrev Sorted : List ConfigRow → Type 0
  Sorted [] = Unit
  Sorted (r ∷ rs) = All (λ q. in_order before r q ≡ true) rs × Sorted rs

  after_head :
      (r q : ConfigRow) (qs : List ConfigRow)
      → in_order before r q ≡ true
      → All (λ x. in_order before q x ≡ true) qs
      → All (λ x. in_order before r x ≡ true) qs
  after_head r q [] h hs = tt
  after_head r q (x ∷ xs) h hs = (in_order_trans r q x h hs.0, after_head r q xs h hs.1)

  All-insert :
      (P : ConfigRow → Type 0) (r : ConfigRow) (rs : List ConfigRow)
      → P r
      → All P rs
      → All P (insert_row before r rs)
  unfolding insert_row
  All-insert P r [] h hs = (h, tt)
  All-insert P r (q ∷ qs) h hs = elim (Bool-cases (in_order before r q)) [
    | inl e ↦ rw e (h, hs)
    | inr e ↦ rw e (hs.0, All-insert P r qs h hs.1)
  ]

  insert_row-Sorted :
      (r : ConfigRow) (rs : List ConfigRow) → Sorted rs → Sorted (insert_row before r rs)
  unfolding insert_row
  insert_row-Sorted r [] h = (tt, tt)
  insert_row-Sorted r (q ∷ qs) h = elim (Bool-cases (in_order before r q)) [
    | inl e ↦ rw e ((e, after_head r q qs e h.0), h)
    | inr e ↦ rw e (
      All-insert (λ x. in_order before q x ≡ true) r qs (in_order_total r q e) h.0,
      insert_row-Sorted r qs h.1,
    )
  ]

  pub sort_rows-Sorted : (rs : List ConfigRow) → Sorted (sort_rows before rs)
  unfolding sort_rows
  sort_rows-Sorted [] = tt
  sort_rows-Sorted (r ∷ rs) = insert_row-Sorted r _ (sort_rows-Sorted rs)

  Among-insert :
      (v r : ConfigRow) (rs : List ConfigRow)
      → (v ≡ r) ⊎ Among v rs
      → Among v (insert_row before r rs)
  unfolding insert_row
  Among-insert v r [] h = h
  Among-insert v r (q ∷ qs) h = elim (Bool-cases (in_order before r q)) [
    | inl e ↦ rw e h
    | inr e ↦ rw e (elim h [
      | inl is ↦ inr (Among-insert v r qs (inl is))
      | inr (inl is) ↦ inl is
      | inr (inr later) ↦ inr (Among-insert v r qs (inr later))
    ])
  ]

  pub Among-sort :
      (v : ConfigRow) (rs : List ConfigRow) → Among v rs → Among v (sort_rows before rs)
  unfolding sort_rows
  Among-sort v [] h = h
  Among-sort v (r ∷ rs) (inl e) = Among-insert v r (sort_rows before rs) (inl e)
  Among-sort v (r ∷ rs) (inr h) = Among-insert v r (sort_rows before rs) (inr (Among-sort v rs h))

  pub All-among :
      (P : ConfigRow → Type 0) (v : ConfigRow) (rs : List ConfigRow) → All P rs → Among v rs → P v
  All-among P v [] h m = absurd m
  All-among P v (r ∷ rs) h (inl e) = subst P (sym e) h.0
  All-among P v (r ∷ rs) h (inr m) = All-among P v rs h.1 m

  -- a candidate is on the page, or the page is full and all of it comes before
  pub take_or_after :
      (n : ℕ) (v : ConfigRow) (rs : List ConfigRow)
      → Sorted rs
      → Among v rs
      → Among v (take n rs)
        ⊎ ((length (take n rs) ≡ n) × All (λ x. in_order before x v ≡ true) (take n rs))
  take_or_after zero v rs h m = inr (refl, tt)
  take_or_after (suc n) v [] h m = absurd m
  take_or_after (suc n) v (r ∷ rs) h (inl e) = inl (inl e)
  take_or_after (suc n) v (r ∷ rs) h (inr m) = elim (take_or_after n v rs h.1 m) [
    | inl first ↦ inl (inr first)
    | inr (size, all_before) ↦
        inr (ap suc size, (All-among (λ x. in_order before r x ≡ true) v rs h.0 m, all_before))
  ]

  -- what comes after all of a page lies after its cursor, or is of the base of its last row
  pub last_key-is_after :
      (r : ConfigRow) (rs : List ConfigRow) (v : ConfigRow)
      → All (λ x. in_order before x v ≡ true) (r ∷ rs)
      → (is_after before (last_key before r rs) v ≡ true)
        ⊎ ((x : ConfigRow) × Among x (r ∷ rs) × (x.device_id ≡ v.device_id))
  unfolding last_key
  last_key-is_after r [] v h = elim (in_order-is_after r v h.0) [
    | inl after ↦ inl after
    | inr same ↦ inr (r, inl refl, same)
  ]
  last_key-is_after r (q ∷ qs) v h = elim (last_key-is_after q qs v h.1) [
    | inl after ↦ inl after
    | inr (x, m, same) ↦ inr (x, inr m, same)
  ]

  pub Among-candidates :
      (cursor : Option Cursor) (v : ConfigRow) (rs : List ConfigRow)
      → is_candidate before cursor v ≡ true
      → Among v rs
      → Among v (candidates before cursor rs)
  unfolding candidates
  Among-candidates cursor v [] h m = m
  Among-candidates cursor v (r ∷ rs) h m = elim (Bool-cases (is_candidate before cursor r)) [
    | inl e ↦
        rw e (elim m [ inl is ↦ inl is | inr later ↦ inr (Among-candidates cursor v rs h later) ])
    | inr e ↦ rw e (elim m [
      | inl is ↦ absurd (ground (arith, ap (is_candidate before cursor) is))
      | inr later ↦ Among-candidates cursor v rs h later
    ])
  ]
