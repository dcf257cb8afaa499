-- ===== src/Ppk/Laws/Storing.antt =====
-- The table of solutions: rows are only added, an epoch is stored once, and every value is there.
use mathlib.Core.Path.{subst}
use mathlib.Core.List.{append_assoc}
use slope_monitoring.Common.{
  ◌≤◌, ◌≡◌, refl, sym, ap, ◌∙◌, ◌⊎◌, inl, inr, Bool, true, List, [], ◌∷◌, ◌++◌, All, length, eq_iff,
  arith, List-cases,
}
use slope_monitoring.Errors.{ok, bind-ok, ok-injective}
use slope_monitoring.Ppk.Jobs.{
  SolutionRow, same_epoch, at_epoch, same_content, store_value, store_values,
}

module _ {Measured : Type 0} where
  -- two epochs that agree are found at the same rows
  same_epoch-congr :
      (u v r : SolutionRow Measured) → same_epoch u v ≡ true → same_epoch u r ≡ same_epoch v r
  unfolding same_epoch
  same_epoch-congr u v r h =
      ground (arith, eq_iff v.site_id u.site_id, eq_iff v.rover_device_id u.rover_device_id)

  at_epoch-congr :
      (u v : SolutionRow Measured) (rows : List (SolutionRow Measured))
      → same_epoch u v ≡ true
      → at_epoch u rows ≡ at_epoch v rows
  unfolding at_epoch
  at_epoch-congr u v [] h = refl
  at_epoch-congr u v (r ∷ rows) h = rw (same_epoch-congr u v r h, at_epoch-congr u v rows h) refl

  same_epoch_refl : (v : SolutionRow Measured) → same_epoch v v ≡ true
  unfolding same_epoch
  same_epoch_refl v =
      ground (arith, eq_iff v.site_id v.site_id, eq_iff v.rover_device_id v.rover_device_id)

  -- no epoch of a rover is stored twice
  abbrev pub EpochsUnique : List (SolutionRow Measured) → Type 0
  EpochsUnique rows = (v : SolutionRow Measured) → length (at_epoch v rows) ≤ 1

  abbrev pub Extends : List (SolutionRow Measured) → List (SolutionRow Measured) → Type 0
  Extends rows rows' = (new : List (SolutionRow Measured)) × (rows' ≡ new ++ rows)

  module _ (same_measured : Measured → Measured → Bool) where
    -- what one call of `store_value` does
    store_value-cases :
        (v : SolutionRow Measured) (rows : List (SolutionRow Measured))
        {rows' : List (SolutionRow Measured)}
        → store_value same_measured v rows ≡ ok rows'
        → ((at_epoch v rows ≡ []) × (rows' ≡ v ∷ rows))
          ⊎ ((r : SolutionRow Measured) × (at_epoch v rows ≡ r ∷ [])
              × (same_content same_measured v r ≡ true)
              × (rows' ≡ rows))
    unfolding store_value
    store_value-cases v rows h = elim (List-cases (at_epoch v rows)) [
      | inl e ↦ inl (e, ground arith)
      | inr (inl (r, e)) ↦ inr (r, e, ground arith, ground arith)
      | inr (inr (r, q, more, e)) ↦ absurd (ground arith)
    ]

    store_value-EpochsUnique :
        (v : SolutionRow Measured) (rows : List (SolutionRow Measured))
        {rows' : List (SolutionRow Measured)}
        → store_value same_measured v rows ≡ ok rows'
        → EpochsUnique rows
        → EpochsUnique rows'
    unfolding at_epoch
    store_value-EpochsUnique v rows h unique u = elim (store_value-cases v rows h) [
      | inl (e, is) ↦ rw is (ground (arith, at_epoch-congr u v rows, unique u))
      | inr (r, e, same, is) ↦ rw is (unique u)
    ]

    -- what is stored at an epoch stays as it is
    store_value-at_epoch :
        (u : SolutionRow Measured) (rows : List (SolutionRow Measured))
        {rows' : List (SolutionRow Measured)} (v r : SolutionRow Measured)
        → store_value same_measured u rows ≡ ok rows'
        → at_epoch v rows ≡ r ∷ []
        → at_epoch v rows' ≡ r ∷ []
    unfolding at_epoch
    store_value-at_epoch u rows v r h found = elim (store_value-cases u rows h) [
      | inl (e, is) ↦ rw is (ground (arith, at_epoch-congr v u rows))
      | inr (q, e, same, is) ↦ rw is found
    ]

    -- v is in the table: it was added, or a row of the same content was there
    abbrev pub IsStored : List (SolutionRow Measured) → SolutionRow Measured → Type 0
    IsStored rows v =
        (r : SolutionRow Measured) × (at_epoch v rows ≡ r ∷ [])
        × ((r ≡ v) ⊎ (same_content same_measured v r ≡ true))

    store_value-IsStored :
        (v : SolutionRow Measured) (rows : List (SolutionRow Measured))
        {rows' : List (SolutionRow Measured)}
        → store_value same_measured v rows ≡ ok rows'
        → IsStored rows' v
    unfolding at_epoch
    store_value-IsStored v rows h = elim (store_value-cases v rows h) [
      | inl (e, is) ↦ rw is (v, rw (same_epoch_refl v, e) refl, inl refl)
      | inr (r, e, same, is) ↦ rw is (r, e, inr same)
    ]

    store_values-IsStored :
        (vs rows : List (SolutionRow Measured)) {rows' : List (SolutionRow Measured)}
        (v : SolutionRow Measured)
        → store_values same_measured vs rows ≡ ok rows'
        → IsStored rows v
        → IsStored rows' v
    unfolding store_values
    store_values-IsStored [] rows v h stored = subst (λ x. IsStored x v) (ok-injective h) stored
    store_values-IsStored (u ∷ vs) rows v h stored =
        let (next, h0, h1) = bind-ok (store_value same_measured u rows) h in
        store_values-IsStored vs next v h1
          (stored.0, store_value-at_epoch u rows v stored.0 h0 stored.1, stored.2)

    -- The transaction, where it returns, has added rows and changed none; epochs that were stored
    -- once still are, and every value of it is in the table.
    pub store_values-Extends :
        (vs rows : List (SolutionRow Measured)) {rows' : List (SolutionRow Measured)}
        → store_values same_measured vs rows ≡ ok rows'
        → Extends rows rows' × (EpochsUnique rows → EpochsUnique rows') × All (IsStored rows') vs
    unfolding store_values
    store_values-Extends [] rows h =
        subst (λ x. Extends rows x × (EpochsUnique rows → EpochsUnique x) × Unit) (ok-injective h)
          (([], refl), λ u. u, tt)
    store_values-Extends (v ∷ vs) rows h =
        let (next, h0, h1) = bind-ok (store_value same_measured v rows) h in
        let (more, unique, all_stored) = store_values-Extends vs next h1 in
        let first : Extends rows next = elim (store_value-cases v rows h0) [
          | inl (e, is) ↦ (v ∷ [], is)
          | inr (r, e, same, is) ↦ ([], is)
        ] in
        (
          (
            more.0 ++ first.0,
            more.1 ∙ ap (λ x. more.0 ++ x) first.1 ∙ sym (append_assoc more.0 first.0 rows),
          ),
          λ u. unique (store_value-EpochsUnique v rows h0 u),
          (store_values-IsStored vs next v h1 (store_value-IsStored v rows h0), all_stored),
        )
