-- ===== src/Examples/Dataset.antt =====
-- A sample of two frames, two devices and one feature. The floats of the example are natural numbers,
-- horizons among them are in microseconds.
use slope_monitoring.Common.{
  ℕ, String, ◌≡◌, refl, Bool, true, false, not, Option, none, some, List, [], ◌∷◌, All, length,
  get_elem?, is_some, some_or, ◌==◌, ◌<◌, ◌≤◌, ◌+◌, ◌-◌, arith,
}
use slope_monitoring.Common.Int.{pos}
use slope_monitoring.Errors.{ok}
use slope_monitoring.Dataset.Schema.{
  SourceKind, ValidationStatus, Datetime, FeatureDefinition, FeatureMetadata, FeatureCell,
  RegressionTarget, missing_metadata, source_is_missing,
}
use slope_monitoring.Dataset.Sample.{Sample, Tensor, Matrix, new_sample, dense_features}
use slope_monitoring.Dataset.Window.{
  Frame, value_of, metadata_of, cell_of, is_increasing, select_trailing_frames, assembled,
  build_temporal_graph_sample,
}
use slope_monitoring.Dataset.Laws.Contract
use slope_monitoring.Dataset.Laws.Contract.{at3, Rises}
use slope_monitoring.Dataset.Laws.Selecting
use slope_monitoring.Dataset.Laws.Building
use slope_monitoring.Dataset.Laws.Dense

abbrev finite : ℕ → Bool
finite x = true

abbrev negative : ℕ → Bool
negative x = false

abbrev close : ℕ → ℕ → Bool
close d h = d == h

abbrev measured : FeatureMetadata
measured = record {
  source_kind = SourceKind.device;
  validation_status = ValidationStatus.validated;
  quality_flag = none;
  source_file = none;
}

abbrev cell : FeatureCell ℕ
cell = record { value = some 7; metadata = measured }

abbrev time : ℕ → Datetime
time t = record { at = t; is_aware = true }

abbrev early : Frame ℕ
early = record {
  timestamp_utc = time 100;
  values = ("R-1", ("tilt", cell) ∷ []) ∷ [];
  site_context = none;
}

abbrev late : Frame ℕ
late = record { timestamp_utc = time 200; values = []; site_context = none }

abbrev first : Frame ℕ
first = record { timestamp_utc = time 50; values = []; site_context = none }

abbrev frames : List (Frame ℕ)
frames = early ∷ late ∷ []

abbrev tilt : FeatureDefinition
tilt = record { name = "tilt"; unit = "deg" }

abbrev devices : List String
devices = "R-1" ∷ "R-2" ∷ []

abbrev target : RegressionTarget ℕ
target = record {
  device_id = "R-2";
  quantity = "tilt";
  unit = "deg";
  horizon_s = 60;
  target_timestamp_utc = time 260;
  value = none;
  available = false;
  source_kind = SourceKind.derived;
  validation_status = ValidationStatus.provisional;
  provenance_ref = none;
}

abbrev adjacency : Matrix ℕ
adjacency = (1 ∷ 2 ∷ []) ∷ (2 ∷ 1 ∷ []) ∷ []

abbrev sample : Sample ℕ
sample =
    assembled ℕ finite negative close (λ x. x) "SITE-1" devices (tilt ∷ []) frames adjacency
      "distance" "map" target []

built :
    build_temporal_graph_sample ℕ finite negative close
      (λ x. x)
      "SITE-1"
      devices
      (tilt ∷ [])
      frames
      adjacency
      "distance"
      "map"
      target
      []
    ≡ ok sample
unfolding build_temporal_graph_sample new_sample slope_monitoring.Common.Text.text_eq
built = refl

accepted : new_sample ℕ finite negative close sample ≡ ok sample
unfolding new_sample assembled slope_monitoring.Common.Text.text_eq
accepted = refl

early_first : get_elem? frames 0 ≡ some early
early_first = refl

build_temporal_graph_sample-cell_example :
    (at3 sample.feature_values 0 0 0 ≡ some (value_of ℕ (cell_of ℕ early "R-1" "tilt")))
    × (at3 sample.feature_mask 0 0 0 ≡ some (is_some (value_of ℕ (cell_of ℕ early "R-1" "tilt"))))
    × (at3 sample.feature_metadata 0 0 0 ≡ some (metadata_of ℕ (cell_of ℕ early "R-1" "tilt")))
build_temporal_graph_sample-cell_example =
    Building.build_temporal_graph_sample-cell ℕ finite negative close (λ x. x) "SITE-1" devices
      (tilt ∷ []) frames adjacency "distance" "map" target [] sample 0 0 0 early "R-1" tilt built
      refl refl refl

value_there : at3 sample.feature_values 0 0 0 ≡ some (some 7)
unfolding assembled
value_there = refl

mask_there : at3 sample.feature_mask 0 0 0 ≡ some true
unfolding assembled
mask_there = refl

metadata_there : at3 sample.feature_metadata 0 0 0 ≡ some measured
unfolding assembled
metadata_there = refl

abbrev seven : Option ℕ
seven = some 7

new_sample-cell_example :
    (true ≡ is_some seven)
    × (source_is_missing measured.source_kind ≡ not true)
    × ((x : ℕ) → seven ≡ some x → finite x ≡ true)
new_sample-cell_example =
    Contract.new_sample-cell ℕ finite negative close sample sample 0 0 0 (some 7) true measured
      accepted value_there mask_there metadata_there

value_absent : at3 sample.feature_values 1 1 0 ≡ some none
unfolding assembled
value_absent = refl

mask_absent : at3 sample.feature_mask 1 1 0 ≡ some false
unfolding assembled
mask_absent = refl

metadata_absent : at3 sample.feature_metadata 1 1 0 ≡ some missing_metadata
unfolding assembled
metadata_absent = refl

abbrev dense : Tensor (Option ℕ)
dense = ((some 7 ∷ []) ∷ (some 0 ∷ []) ∷ []) ∷ ((some 0 ∷ []) ∷ (some 0 ∷ []) ∷ []) ∷ []

densified : dense_features ℕ finite negative close 0 sample ≡ ok (dense, sample.feature_mask)
unfolding dense_features assembled
densified = refl

dense_features-cell_example :
    (at3 dense 1 1 0 ≡ some (some (some_or 0 none))) × (sample.feature_mask ≡ sample.feature_mask)
dense_features-cell_example =
    Dense.dense_features-cell ℕ finite negative close sample sample 0 dense sample.feature_mask 1 1
      0 none false missing_metadata accepted densified value_absent mask_absent metadata_absent

abbrev observed : List (Frame ℕ)
observed = first ∷ early ∷ late ∷ []

selected : select_trailing_frames ℕ observed (pos 2) (pos 2) ≡ ok frames
unfolding select_trailing_frames
selected = refl

select_trailing_frames-window_example :
    (length frames ≡ 2)
    × (is_increasing ℕ frames ≡ true)
    × ((i : ℕ) → i < 2 → get_elem? frames i ≡ get_elem? observed (2 + 1 - 2 + i))
select_trailing_frames-window_example =
    Selecting.select_trailing_frames-window ℕ observed frames 2 2 selected

observed_rise : is_increasing ℕ observed ≡ true
unfolding is_increasing
observed_rise = refl
