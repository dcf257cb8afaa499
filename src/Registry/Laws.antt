-- ===== src/Registry/Laws.antt =====
-- The promises of the model registry: a failed activation changes no active state, a rollback
-- restores the exact previous instance, and the active model always holds the weights of the active
-- version.
use slope_monitoring.Common.{
  ℕ, String, refl, ◌∙◌, inl, inr, Option-cases, ◌≡◌, ◌≢◌, Bool, Option, none, some, get_elem?,
  get_elem?-set, arith, ◌⊎◌, set,
}
use slope_monitoring.Errors.{ok, err, Failure, app, ErrorCode}
use slope_monitoring.Registry.{
  rejected, Version, Model, Registry, create_model, n_features, find_ref, compatibility_check,
  lookup_version, activate, mark_restored, set_version, rollback,
}

-- The active and the previous instance and version of `h` are those of `g`.
pub record SameActive (g h : Registry) : Type 0 where
  pub model : h.active_model ≡ g.active_model
  pub version : h.active_version ≡ g.active_version
  pub last_model : h.previous_model ≡ g.previous_model
  pub last_version : h.previous_version ≡ g.previous_version
  pub names : h.versions ≡ g.versions

abbrev pub features_of : Option Model → Option ℕ
features_of none = none
features_of (some m) = some (n_features m)

module _ (loads : String → Bool) where
  -- What a failed activation may leave: the registry as it was, or, where the version of the name is
  -- incompatible, with that one object marked as rejected.
  abbrev pub IsFailed : String → Failure → Registry → Registry → Type 0
  IsFailed k e g h =
      (h ≡ g)
      ⊎ ((r : ℕ) × (v : Version) × (lookup_version k g ≡ some (r, v))
          × (e ≡ app ErrorCode.model_incompatible)
          × (h ≡ record g { store = set g.store r (record v { status = rejected }) }))

  -- An activation that succeeds makes the version of that name active, with the expected number of
  -- features, and keeps the replaced instance and version as the previous ones.
  pub activate_swaps :
      (k : String) (expected now : ℕ) (g : Registry) {h : Registry}
      → activate loads k expected now g ≡ (ok tt, h)
      → (h.active_version ≡ find_ref k g.versions)
        × (h.previous_model ≡ g.active_model)
        × (h.previous_version ≡ g.active_version)
        × (features_of h.active_model ≡ some expected)
  unfolding activate n_features
  activate_swaps k expected now g p = ground arith

-- the mark on the restored version changes only the object in the store
mark_restored_lem : (r : Option ℕ) (g : Registry) → SameActive g (mark_restored r g)
unfolding mark_restored set_version
mark_restored_lem none g = record {
  model = refl;
  version = refl;
  last_model = refl;
  last_version = refl;
  names = refl;
}
mark_restored_lem (some r) g = elim (Option-cases (get_elem? g.store r)) [
  | inl e ↦ ground (arith, e)
  | inr (v, e) ↦ ground (arith, e)
]

-- After an activation that replaces an active model succeeds, a rollback succeeds: it makes exactly the
-- replaced instance and version active again, and keeps those it replaces as the previous ones.
rollback_restores :
    (loads : String → Bool) (k : String) (expected now : ℕ) (g : Registry) {m : Model}
    {h : Registry}
    → activate loads k expected now g ≡ (ok tt, h)
    → g.active_model ≡ some m
    → ((rollback h).0 ≡ ok tt)
      × ((rollback h).1.active_model ≡ some m)
      × ((rollback h).1.active_version ≡ g.active_version)
      × ((rollback h).1.previous_model ≡ h.active_model)
      × ((rollback h).1.previous_version ≡ h.active_version)
unfolding rollback
rollback_restores loads k expected now g {m} {h} p on =
    let swapped = activate_swaps loads k expected now g p in
    let k = mark_restored_lem h.previous_version (record h {
      active_model = some m;
      previous_model = h.active_model;
      active_version = h.previous_version;
      previous_version = h.active_version;
    }) in
    rw (rollback, swapped.1, on)
      (refl, k.model, k.version ∙ swapped.2, k.last_model, k.last_version)

-- When the version that is active is activated again with another number of features than its
-- model's, and the activation fails as incompatible, that very object is marked as rejected, while it
-- stays the active one.
rejected_while_active :
    (loads : String → Bool) (k : String) (expected now : ℕ) (g : Registry) (r : ℕ) (v : Version)
    {m : Model} {h : Registry}
    → lookup_version k g ≡ some (r, v)
    → g.active_version ≡ some r
    → create_model v.model_type ≡ ok m
    → n_features m ≢ expected
    → activate loads k expected now g ≡ (err (app ErrorCode.model_incompatible), h)
    → (h.active_version ≡ some r) × (get_elem? h.store r ≡ some (record v { status = rejected }))
unfolding activate compatibility_check lookup_version
rejected_while_active loads k expected now g r v found on made off p =
    ground (arith, get_elem?-set g.store r r (record v { status = rejected }))
