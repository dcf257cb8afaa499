-- ===== src/Registry/Coherence.antt =====
-- Every operation of the registry keeps the active and the previous instance with their versions.
use slope_monitoring.Common.{
  ℕ, String, ◌≡◌, refl, Bool, Option, none, some, get_elem?, get_elem?-append_end, ◌==◌, arith, inl,
  inr, ◌∙◌, ap, sym, Option-cases, Bool-cases, List, [], ◌∷◌,
}
use slope_monitoring.Errors.{ok, Result-cases}
use slope_monitoring.Registry.{
  registered, active, rejected, Version, Model, Registry, create_model, n_features,
  register_version, load_weights, lookup_version, check_version, check_features, set_version,
  load_and_swap, swap_in, mark_restored, swap_back, activate, rollback, empty,
}
use slope_monitoring.Registry.Names.{
  name_at, Holds-set, Holds-append, AreNamed-set, AreNamed-append, find_ref-AreNamed, IsCoherent,
}

-- When every name of the registry stands for an object of that name, and the active and the previous
-- instance each hold the weights of their version, the same is true after a registration, also of a
-- name that is taken.
pub register-IsCoherent :
    (model_type k path : String) (g : Registry)
    → IsCoherent g
    → IsCoherent (register_version model_type k path g)
unfolding register_version
register-IsCoherent model_type k path g c = record {
  names = (
    unfold name_at in
        ground (
          arith,
          get_elem?-append_end g.store (record {
            version_id = k;
            model_type = model_type;
            artifact_path = path;
            status = registered;
            activated_at = none;
          }),
        ),
    AreNamed-append g.store _ g.versions c.names,
  );
  now_active = Holds-append g.store _ g.active_model g.active_version c.now_active;
  before = Holds-append g.store _ g.previous_model g.previous_version c.before;
}

set_version-IsCoherent :
    (r : ℕ) {v : Version} (v' : Version) (g : Registry)
    → get_elem? g.store r ≡ some v
    → v'.version_id ≡ v.version_id
    → IsCoherent g
    → IsCoherent (set_version r v' g)
unfolding set_version
set_version-IsCoherent r v' g e same c = record {
  names = AreNamed-set g.store r v' g.versions e same c.names;
  now_active = Holds-set g.store r v' g.active_model g.active_version e same c.now_active;
  before = Holds-set g.store r v' g.previous_model g.previous_version e same c.before;
}

mark_restored-IsCoherent :
    (r : Option ℕ) (g : Registry) → IsCoherent g → IsCoherent (mark_restored r g)
unfolding mark_restored
mark_restored-IsCoherent none g c = c
mark_restored-IsCoherent (some r) g c = elim (Option-cases (get_elem? g.store r)) [
  | inl e ↦ rw (e, mark_restored) c
  | inr (v, e) ↦
      rw (e, mark_restored) (set_version-IsCoherent r (record v { status = active }) g e refl c)
]

swap_back-IsCoherent :
    (m : Option Model) (g : Registry)
    → g.previous_model ≡ m
    → IsCoherent g
    → IsCoherent (swap_back m g).1
unfolding swap_back
swap_back-IsCoherent none g p c = c
swap_back-IsCoherent (some m) g p c =
    mark_restored-IsCoherent g.previous_version _
      (record { names = c.names; now_active = rw p at c.before; before = c.now_active })

-- When every name of the registry stands for an object of that name, and the active and the previous
-- instance each hold the weights of their version, the same is true after a rollback, whether it
-- succeeds or not.
rollback-IsCoherent : (g : Registry) → IsCoherent g → IsCoherent (rollback g).1
unfolding rollback
rollback-IsCoherent g c = swap_back-IsCoherent g.previous_model g refl c

-- the object that is found under a name, and its name
lookup_version-found :
    (k : String) (g : Registry) {r : ℕ} {v : Version}
    → IsCoherent g
    → lookup_version k g ≡ some (r, v)
    → (get_elem? g.store r ≡ some v) × (v.version_id ≡ k)
unfolding lookup_version name_at
lookup_version-found k g {r} {v} c h =
    let e : get_elem? g.store r ≡ some v = ground (arith, h) in
    let named : name_at g.store r ≡ some k =
      find_ref-AreNamed k g.store g.versions c.names (ground (arith, h)) in
    (e, ground (arith, e, named))

-- what `load_weights` does to the store, the names and the previous pair: nothing but a new active pair
activated-IsCoherent :
    (now r : ℕ) (v : Version) (m : Model) (g : Registry)
    → get_elem? g.store r ≡ some v
    → m.loaded_version ≡ some v.version_id
    → IsCoherent g
    → IsCoherent (
        set_version r
          (record v { status = active; activated_at = some now })
          (record g {
            previous_model = g.active_model;
            previous_version = g.active_version;
            active_model = some m;
            active_version = some r;
          }))
unfolding name_at
activated-IsCoherent now r v m g e held c = set_version-IsCoherent r _ _ e refl (record {
  names = c.names;
  now_active = record {
    both = refl;
    named = ground (arith, e, held);
    loaded = ground (arith, held);
  };
  before = c.now_active;
})

module _ (loads : String → Bool) where
  load_weights-holds :
      (k path : String) (m : Model) {m' : Model}
      → load_weights loads k path m ≡ ok m'
      → m'.loaded_version ≡ some k
  unfolding load_weights
  load_weights-holds k path m h = ground arith

  swap_in-IsCoherent :
      (now r : ℕ) (v : Version) (g : Registry) (k : String) (m : Model)
      → get_elem? g.store r ≡ some v
      → v.version_id ≡ k
      → IsCoherent g
      → IsCoherent (swap_in loads now r v g (load_weights loads k v.artifact_path m)).1
  unfolding swap_in
  swap_in-IsCoherent now r v g k m e same c =
      elim (Result-cases (load_weights loads k v.artifact_path m)) [
        | inl (m', loaded) ↦
            rw (loaded, swap_in)
              (activated-IsCoherent now r v m' g e
                (load_weights-holds k v.artifact_path m loaded ∙ ap some (sym same)) c)
        | inr (x, failed) ↦ rw (failed, swap_in) c
      ]

  check_and_swap :
      (k : String) (expected now : ℕ) (g : Registry) (r : ℕ) (v : Version)
      → get_elem? g.store r ≡ some v
      → v.version_id ≡ k
      → IsCoherent g
      → IsCoherent
          (load_and_swap loads k now
            (some (r, v))
            (check_features expected r v g (create_model v.model_type))).1
  unfolding load_and_swap check_features
  check_and_swap k expected now g r v e same c = elim (Result-cases (create_model v.model_type)) [
    | inr (x, failed) ↦ rw (failed, check_features) c
    | inl (m, made) ↦ elim (Bool-cases (n_features m == expected)) [
      | inl fits ↦ rw (made, check_features) (rw fits (swap_in-IsCoherent now r v g k m e same c))
      | inr off ↦
          rw (made, check_features)
            (rw off (set_version-IsCoherent r (record v { status = rejected }) g e refl c))
    ]
  ]

  activate_found :
      (k : String) (expected now : ℕ) (g : Registry) (found : Option (ℕ × Version))
      → lookup_version k g ≡ found
      → activate loads k expected now g
        ≡ load_and_swap loads k now found (check_version expected g found)
  unfolding activate
  activate_found k expected now g found p = rw (← p)

  -- When every name of the registry stands for an object of that name, and the active and the
  -- previous instance each hold the weights of their version, the same is true after an activation,
  -- whether it succeeds or not.
  pub activate-IsCoherent :
      (k : String) (expected now : ℕ) (g : Registry)
      → IsCoherent g
      → IsCoherent (activate loads k expected now g).1
  unfolding load_and_swap check_version
  activate-IsCoherent k expected now g c = elim (Option-cases (lookup_version k g)) [
    | inl e ↦ rw (activate_found k expected now g none e) c
    | inr ((r, v), e) ↦
        let (at, named) = lookup_version-found k g c e in
        rw (activate_found k expected now g (some (r, v)) e)
          (check_and_swap k expected now g r v at named c)
  ]

-- an operation of the registry with its arguments: the type, the name and the path of a version, the
-- name, the expected number of features and the time of an activation
pub data Operation : Type 0 where
  registration : String → String → String → Operation
  activation : String → ℕ → ℕ → Operation
  restoration : Operation

module _ (loads : String → Bool) where
  -- the registry after one operation, and after a sequence of them
  abbrev after_one : Operation → Registry → Registry
  after_one (registration model_type k path) g = register_version model_type k path g
  after_one (activation k expected now) g = (activate loads k expected now g).1
  after_one restoration g = (rollback g).1

  abbrev pub after_all : List Operation → Registry → Registry
  after_all [] g = g
  after_all (o ∷ os) g = after_all os (after_one o g)

  after_one-IsCoherent : (o : Operation) (g : Registry) → IsCoherent g → IsCoherent (after_one o g)
  after_one-IsCoherent (registration model_type k path) g c =
      register-IsCoherent model_type k path g c
  after_one-IsCoherent (activation k expected now) g c =
      activate-IsCoherent loads k expected now g c
  after_one-IsCoherent restoration g c = rollback-IsCoherent g c

  after_all-IsCoherent :
      (os : List Operation) (g : Registry) → IsCoherent g → IsCoherent (after_all os g)
  after_all-IsCoherent [] g c = c
  after_all-IsCoherent (o ∷ os) g c =
      after_all-IsCoherent os (after_one o g) (after_one-IsCoherent o g c)

  empty-IsCoherent : IsCoherent empty
  empty-IsCoherent = record {
    names = tt;
    now_active = record { both = refl; named = refl; loaded = refl };
    before = record { both = refl; named = refl; loaded = refl };
  }

  -- After any sequence of registrations, activations and rollbacks of a new registry, whether they
  -- succeed or not, every name stands for an object of that name, and the active and the previous
  -- instance each hold the weights of their version.
  pub history-IsCoherent : (os : List Operation) → IsCoherent (after_all os empty)
  history-IsCoherent os = after_all-IsCoherent os empty empty-IsCoherent
