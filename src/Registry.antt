-- ===== src/Registry.antt =====
-- ml/registry/model_registry.py and ml/registry/model_factory.py: the process-wide registry of model
-- versions. A `RegisteredVersion` is an object that the dictionary, the active and the previous
-- version may share, so versions stand in a store, and are named by their place in it.
-- `loads` says whether the torch checkpoint of GCNSlopeV1 can be loaded from a path.

pub mod Laws
pub mod Names
pub mod Coherence
use slope_monitoring.Common.{
  ℕ, String, Bool, Option, none, some, List, [], ◌∷◌, ◌++◌, length, set, get_elem?, ◌==◌, str_eq,
  if◌then◌else◌,
}
use slope_monitoring.Errors.{Result, ok, err, app, runtime_error, ErrorCode}

pub data Status : Type 0 where
  registered rejected active retired : Status

pub record Version : Type 0 where
  pub version_id : String
  pub model_type : String
  pub artifact_path : String
  pub status : Status
  pub activated_at : Option ℕ

-- the implemented architectures
pub data Architecture : Type 0 where
  gcn gcn_slope_v1 : Architecture

-- a model instance, with the version whose weights it holds
pub record Model : Type 0 where
  pub architecture : Architecture
  pub loaded_version : Option String

pub record Registry : Type 0 where
  pub store : List Version
  pub versions : List (String × ℕ)
  pub active_model : Option Model
  pub active_version : Option ℕ
  pub previous_model : Option Model
  pub previous_version : Option ℕ

abbrev pub empty : Registry
empty = record {
  store = [];
  versions = [];
  active_model = none;
  active_version = none;
  previous_model = none;
  previous_version = none;
}

-- ModelFactory.create behind ModelRegistry._create_model: the planned and the unknown types both
-- become ModelTypeUnavailableError
unfoldable pub create_model : String → Result Model
create_model t =
    if str_eq t "gcn"
    then ok (record { architecture = gcn; loaded_version = none })
    else if str_eq t "gcn_slope_v1"
    then ok (record { architecture = gcn_slope_v1; loaded_version = none })
    else err (app ErrorCode.validation_error)

-- input_contract()["n_features"]
unfoldable pub n_features : Model → ℕ
n_features m = elim m.architecture [ gcn ↦ 15 | gcn_slope_v1 ↦ 10 ]

-- self._versions.get(version_id): the latest registration under the name
unfoldable pub find_ref : String → List (String × ℕ) → Option ℕ
find_ref k [] = none
find_ref k ((j, r) ∷ rest) = if str_eq j k then some r else find_ref k rest

unfoldable pub register_version : String → String → String → Registry → Registry
register_version model_type version_id artifact_path g = record g {
  store =
      g.store
      ++ record {
        version_id = version_id;
        model_type = model_type;
        artifact_path = artifact_path;
        status = registered;
        activated_at = none;
      }
        ∷ [];
  versions = (version_id, length g.store) ∷ g.versions;
}

-- the object that a name stands for
unfoldable pub lookup_version : String → Registry → Option (ℕ × Version)
lookup_version k g = elim (find_ref k g.versions) [
  | none ↦ none
  | some r ↦ elim (get_elem? g.store r) [ none ↦ none | some v ↦ some (r, v) ]
]

set_version : ℕ → Version → Registry → Registry
set_version r v g = record g { store = set g.store r v }

-- compatibility_check, from the object on; a mismatch marks the object as rejected
check_features : ℕ → ℕ → Version → Registry → Result Model → Result Model × Registry
check_features expected r v g (err e) = (err e, g)
check_features expected r v g (ok m) =
    if n_features m == expected
    then (ok m, g)
    else (err (app ErrorCode.model_incompatible), set_version r (record v { status = rejected }) g)

check_version : ℕ → Registry → Option (ℕ × Version) → Result Model × Registry
check_version expected g none = (err (app ErrorCode.not_found), g)
check_version expected g (some (r, v)) = check_features expected r v g (create_model v.model_type)

unfoldable pub compatibility_check : String → ℕ → Registry → Result Model × Registry
unfolding lookup_version check_version check_features set_version create_model n_features
compatibility_check k expected g = check_version expected g (lookup_version k g)

module _ (loads : String → Bool) where
  -- load_weights: the baseline takes any path, GCNSlopeV1 raises when there is no checkpoint
  unfoldable pub load_weights : String → String → Model → Result Model
  load_weights version_id path m = elim m.architecture [
    | gcn ↦ ok (record m { loaded_version = some version_id })
    | gcn_slope_v1 ↦
        if loads path then ok (record m { loaded_version = some version_id }) else err runtime_error
  ]

  -- the swap, past which shared state is touched
  swap_in : ℕ → ℕ → Version → Registry → Result Model → Result (Unit {0}) × Registry
  swap_in now r v g (err e) = (err e, g)
  swap_in now r v g (ok m) = (
    ok tt,
    set_version r (record v { status = active; activated_at = some now })
        (record g {
          previous_model = g.active_model;
          previous_version = g.active_version;
          active_model = some m;
          active_version = some r;
        }),
  )

  load_and_swap :
      String → ℕ → Option (ℕ × Version) → Result Model × Registry → Result (Unit {0}) × Registry
  load_and_swap k now found (err e, g) = (err e, g)
  load_and_swap k now none (ok m, g) = (err (app ErrorCode.not_found), g)
  load_and_swap k now (some (r, v)) (ok m, g) = swap_in now r v g (load_weights k v.artifact_path m)

  unfoldable pub activate : String → ℕ → ℕ → Registry → Result (Unit {0}) × Registry
  unfolding load_and_swap swap_in load_weights compatibility_check
  activate k expected now g =
      load_and_swap k now (lookup_version k g) (compatibility_check k expected g)

mark_restored : Option ℕ → Registry → Registry
mark_restored none g = g
mark_restored (some r) g = elim (get_elem? g.store r) [
  | none ↦ g
  | some v ↦ set_version r (record v { status = active }) g
]

swap_back : Option Model → Registry → Result (Unit {0}) × Registry
swap_back none g = (err (app ErrorCode.not_found), g)
swap_back (some m) g = (
  ok tt,
  mark_restored g.previous_version (record g {
    active_model = some m;
    previous_model = g.active_model;
    active_version = g.previous_version;
    previous_version = g.active_version;
  }),
)

unfoldable pub rollback : Registry → Result (Unit {0}) × Registry
unfolding swap_back mark_restored set_version
rollback g = swap_back g.previous_model g

-- the model that `predict` reads: the active one, in memory
unfoldable pub predicting_model : Registry → Result Model
predicting_model g = elim g.active_model [ none ↦ err (app ErrorCode.not_found) | some m ↦ ok m ]
