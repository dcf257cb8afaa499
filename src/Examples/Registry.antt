-- ===== src/Examples/Registry.antt =====
-- A registry with two versions of the implemented models.
use slope_monitoring.Common.{List, [], ◌∷◌, String, ◌≡◌, ◌≢◌, refl, Bool, true, none, some, arith}
use slope_monitoring.Errors.{ok}
use slope_monitoring.Registry.{
  gcn, gcn_slope_v1, Registry, Version, Model, empty, active, register_version, activate,
  lookup_version, create_model, n_features, find_ref,
}
use slope_monitoring.Registry.Laws
use slope_monitoring.Registry.Laws.{features_of}
use slope_monitoring.Registry.Names.{IsCoherent}
use slope_monitoring.Registry.Coherence
use slope_monitoring.Registry.Coherence.{
  Operation, registration, activation, restoration, after_all,
}

-- a checkpoint is found everywhere
abbrev found : String → Bool
found path = true

abbrev two : Registry
two =
    register_version "gcn_slope_v1" "v2" "/models/v2.pt"
      (register_version "gcn" "v1" "/models/v1" empty)

abbrev one_active : Registry
one_active = (activate found "v1" 15 100 two).1

abbrev two_active : Registry
two_active = (activate found "v2" 10 200 one_active).1

abbrev refused : Registry
refused = (activate found "v2" 15 300 two_active).1

empty-IsCoherent : IsCoherent empty
empty-IsCoherent = record {
  names = tt;
  now_active = record { both = refl; named = refl; loaded = refl };
  before = record { both = refl; named = refl; loaded = refl };
}

one-IsCoherent : IsCoherent (register_version "gcn" "v1" "/models/v1" empty)
one-IsCoherent = Coherence.register-IsCoherent "gcn" "v1" "/models/v1" empty empty-IsCoherent

two-IsCoherent : IsCoherent two
two-IsCoherent =
    Coherence.register-IsCoherent "gcn_slope_v1" "v2" "/models/v2.pt"
      (register_version "gcn" "v1" "/models/v1" empty) one-IsCoherent

one_active-IsCoherent : IsCoherent one_active
one_active-IsCoherent = Coherence.activate-IsCoherent found "v1" 15 100 two two-IsCoherent

swapped : activate found "v2" 10 200 one_active ≡ (ok tt, two_active)
unfolding activate find_ref register_version
swapped = refl

abbrev v2 : Version
v2 = record {
  version_id = "v2";
  model_type = "gcn_slope_v1";
  artifact_path = "/models/v2.pt";
  status = active;
  activated_at = some 200;
}

v2_found : lookup_version "v2" two_active ≡ some (1, v2)
unfolding lookup_version find_ref activate register_version
v2_found = refl

v2_active : two_active.active_version ≡ some 1
unfolding activate find_ref register_version
v2_active = refl

abbrev slope_model : Model
slope_model = record { architecture = gcn_slope_v1; loaded_version = none }

v2_made : create_model "gcn_slope_v1" ≡ ok slope_model
unfolding create_model
v2_made = refl

v2_features : n_features slope_model ≢ 15
unfolding n_features
v2_features = λ e. ground (arith, e)

abbrev v1_model : Model
v1_model = record { architecture = gcn; loaded_version = some "v1" }

v1_active : one_active.active_model ≡ some v1_model
unfolding activate find_ref register_version
v1_active = refl

abbrev operations : List Operation
operations =
    registration "gcn" "v1" "/models/v1"
    ∷ registration "gcn_slope_v1" "v2" "/models/v2.pt"
    ∷ activation "v1" 15 100
    ∷ activation "v2" 10 200
    ∷ restoration
    ∷ []

history-IsCoherent_example : IsCoherent (after_all found operations empty)
history-IsCoherent_example = Coherence.history-IsCoherent found operations
