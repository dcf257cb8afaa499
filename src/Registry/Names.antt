-- ===== src/Registry/Names.antt =====
-- The objects of the registry's store by the names of their versions, and what writes to the store keep.
use slope_monitoring.Common.{
  ℕ, String, ◌≡◌, refl, Option, none, some, List, [], ◌∷◌, ◌++◌, is_some, set, get_elem?,
  get_elem?-set, get_elem?-append, arith, inl, inr, str_eq, eq_iff, ◌∙◌, All, Option-cases,
  Bool-cases,
}
use slope_monitoring.Registry.{Version, Model, Registry, find_ref}

unfoldable pub name_at : List Version → ℕ → Option String
name_at store r = elim (get_elem? store r) [ none ↦ none | some v ↦ some v.version_id ]

abbrev pub name_of : List Version → Option ℕ → Option String
name_of store none = none
name_of store (some r) = name_at store r

abbrev pub loaded_of : Option Model → Option String
loaded_of none = none
loaded_of (some m) = m.loaded_version

-- An instance and a version that stand together: neither, or an instance that holds the weights of
-- that version.
pub record Holds (store : List Version) (m : Option Model) (r : Option ℕ) : Type 0 where
  pub both : is_some m ≡ is_some r
  pub named : loaded_of m ≡ name_of store r
  pub loaded : is_some (loaded_of m) ≡ is_some m

-- Each name of the dictionary stands for an object of that name.
abbrev pub AreNamed : List Version → List (String × ℕ) → Type 0
AreNamed store names = All (λ e. name_at store e.1 ≡ some e.0) names

pub record IsCoherent (g : Registry) : Type 0 where
  pub names : AreNamed g.store g.versions
  pub now_active : Holds g.store g.active_model g.active_version
  pub before : Holds g.store g.previous_model g.previous_version

-- A write that keeps the name of the object changes no name.
name_of-set :
    (store : List Version) (i : ℕ) {v : Version} (v' : Version) (r : Option ℕ)
    → get_elem? store i ≡ some v
    → v'.version_id ≡ v.version_id
    → name_of (set store i v') r ≡ name_of store r
unfolding name_at
name_of-set store i v' none e same = refl
name_of-set store i v' (some r) e same = ground (arith, get_elem?-set store i r v')

pub Holds-set :
    (store : List Version) (i : ℕ) {v : Version} (v' : Version) (m : Option Model) (r : Option ℕ)
    → get_elem? store i ≡ some v
    → v'.version_id ≡ v.version_id
    → Holds store m r
    → Holds (set store i v') m r
Holds-set store i v' m r e same h = record {
  both = h.both;
  named = rw (name_of-set store i v' r e same) h.named;
  loaded = h.loaded;
}

pub AreNamed-set :
    (store : List Version) (i : ℕ) {v : Version} (v' : Version) (names : List (String × ℕ))
    → get_elem? store i ≡ some v
    → v'.version_id ≡ v.version_id
    → AreNamed store names
    → AreNamed (set store i v') names
AreNamed-set store i v' [] e same h = tt
AreNamed-set store i v' ((k, r) ∷ names) e same h =
    (name_of-set store i v' (some r) e same ∙ h.0, AreNamed-set store i v' names e same h.1)

name_at-append :
    (store : List Version) (v : Version) (r : ℕ) {k : String}
    → name_at store r ≡ some k
    → name_at (store ++ v ∷ []) r ≡ some k
unfolding name_at
name_at-append store v r h = elim (Option-cases (get_elem? store r)) [
  | inl e ↦ absurd (ground (arith, h, e))
  | inr (w, e) ↦ ground (arith, h, e, get_elem?-append store (v ∷ []) r e)
]

pub AreNamed-append :
    (store : List Version) (v : Version) (names : List (String × ℕ))
    → AreNamed store names
    → AreNamed (store ++ v ∷ []) names
AreNamed-append store v [] h = tt
AreNamed-append store v ((k, r) ∷ names) h =
    (name_at-append store v r h.0, AreNamed-append store v names h.1)

pub find_ref-AreNamed :
    (k : String) (store : List Version) (names : List (String × ℕ)) {r : ℕ}
    → AreNamed store names
    → find_ref k names ≡ some r
    → name_at store r ≡ some k
unfolding find_ref
find_ref-AreNamed k store [] h e = absurd (cc)
find_ref-AreNamed k store ((j, i) ∷ names) h e = elim (Bool-cases (str_eq j k)) [
  | inl same ↦ ground (arith, h.0, (eq_iff j k).0 same, same)
  | inr other ↦ find_ref-AreNamed k store names h.1 (ground (arith, other))
]

pub Holds-append :
    (store : List Version) (v : Version) (m : Option Model) (r : Option ℕ)
    → Holds store m r
    → Holds (store ++ v ∷ []) m r
unfolding name_at
Holds-append store v m none h = ground (arith, h)
Holds-append store v m (some r) h = elim (Option-cases (get_elem? store r)) [
  | inl e ↦ absurd (ground (arith, h, e))
  | inr (w, e) ↦ ground (arith, h, e, get_elem?-append store (v ∷ []) r e)
]
