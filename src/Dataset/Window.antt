-- ===== src/Dataset/Window.antt =====
-- ml/pipeline/windowing/temporal_windowing.py: the window of the last frames, and the assembly of a
-- sample. A mapping is an association list, whose keys are different as those of a dict are.
use slope_monitoring.Common.{
  ℕ, ◌+◌, ◌-◌, String, Bool, true, false, not, ◌&&◌, Option, none, some, List, [], ◌∷◌, map, length,
  take, drop, str_eq, ltb, leb, if◌then◌else◌, all,
}
use slope_monitoring.Common.Int.{ℤ, pos, negsuc}
use slope_monitoring.Errors.{Result, ok, err, value_error, index_error, require, ◌>>◌}
use slope_monitoring.Dataset.Schema.{
  Datetime, FeatureDefinition, FeatureMetadata, FeatureCell, RegressionTarget, missing_metadata,
}
use slope_monitoring.Dataset.Sample.{Sample, Matrix, Tensor, is_in, filled, new_sample}

pub record Frame (F : Type 0) : Type 0 where
  pub timestamp_utc : Datetime
  pub values : List (String × List (String × FeatureCell F))
  pub site_context : Option (List (String × FeatureCell F))

-- mapping.get(key)
unfoldable pub lookup {ℓ} : {A : Type ℓ} → String → List (String × A) → Option A
lookup key [] = none
lookup key ((k, v) ∷ rest) = if str_eq k key then some v else lookup key rest

unfoldable pub keys {ℓ} : {A : Type ℓ} → List (String × A) → List String
keys m = map (λ p. p.0) m

module _ (F : Type 0) where
  -- the timestamps of the selected frames increase
  unfoldable pub is_increasing : List (Frame F) → Bool
  is_increasing [] = true
  is_increasing (x ∷ []) = true
  is_increasing (x ∷ y ∷ rest) =
      ltb x.timestamp_utc.at y.timestamp_utc.at && is_increasing (y ∷ rest)

  -- the window of `w + 1` frames that ends at `end`
  unfoldable pub frames_between : List (Frame F) → ℕ → ℕ → Result (List (Frame F))
  unfolding is_increasing
  frames_between frames end w = do
    require (leb w end) value_error
    let selected = take (w + 1) (drop (end - w) frames)
    require (is_increasing selected) value_error
    ok selected

  unfoldable pub select_trailing_frames : List (Frame F) → ℤ → ℤ → Result (List (Frame F))
  unfolding frames_between
  select_trailing_frames frames end (negsuc w) = err value_error
  select_trailing_frames frames (negsuc e) (pos w) =
      if leb w 0 then err value_error else err index_error
  select_trailing_frames frames (pos e) (pos w) = do
    require (ltb 0 w) value_error
    require (ltb e (length frames)) index_error
    frames_between frames e (w - 1)

  unfoldable pub value_of : Option (FeatureCell F) → Option F
  value_of none = none
  value_of (some c) = c.value

  -- cell.available, with False for an absent cell
  unfoldable pub is_available : Option (FeatureCell F) → Bool
  is_available none = false
  is_available (some c) = elim c.value [ none ↦ false | some v ↦ true ]

  unfoldable pub metadata_of : Option (FeatureCell F) → FeatureMetadata
  metadata_of none = missing_metadata
  metadata_of (some c) = c.metadata

  -- frame.values.get(device_id, {}).get(feature_name)
  unfoldable pub cell_of : Frame F → String → String → Option (FeatureCell F)
  unfolding lookup
  cell_of frame device name = elim (lookup device frame.values) [
    | none ↦ none
    | some cells ↦ lookup name cells
  ]

  unfoldable pub context_of : Frame F → List (String × FeatureCell F)
  context_of frame = elim frame.site_context [ none ↦ [] | some c ↦ c ]

  -- the checks of a frame
  unfoldable pub check_frame : List String → List String → Frame F → Result (Unit {0})
  unfolding keys context_of is_in
  check_frame devices names frame = do
    require (not (is_in "WEATHER-API" (keys frame.values))) value_error
    require (all (λ k. is_in k names) (keys (context_of frame))) value_error
    require (all (λ k. is_in k devices) (keys frame.values)) value_error

  unfoldable pub check_frames : List String → List String → List (Frame F) → Result (Unit {0})
  unfolding check_frame
  check_frames devices names [] = ok tt
  check_frames devices names (f ∷ fs) = do
    check_frame devices names f
    check_frames devices names fs

  -- one projection of the cells of every frame, device and feature
  unfoldable pub project :
      {A : Type 0}
      → (Option (FeatureCell F) → A)
      → List String
      → List String
      → List (Frame F)
      → Tensor A
  unfolding cell_of
  project p devices names frames =
      map (λ frame. map (λ d. map (λ n. p (cell_of frame d n)) names) devices) frames

  -- one projection of the context cells of every frame; none without context definitions
  unfoldable pub project_context :
      {A : Type 0} → (Option (FeatureCell F) → A) → List String → List (Frame F) → Matrix A
  unfolding context_of lookup
  project_context p [] frames = []
  project_context p (name ∷ names) frames =
      map (λ frame. map (λ n. p (lookup n (context_of frame))) (name ∷ names)) frames

  unfoldable pub names_of : List FeatureDefinition → List String
  names_of ds = map (λ d. d.name) ds

-- `float` is Python's float() on an entry of the given matrix, where it does not raise
module _ (F : Type 0) (is_finite is_negative : F → Bool) (is_close : ℕ → F → Bool)
    (float : F → F) where
  -- the arguments of the TemporalGraphSample that is built
  unfoldable pub assembled :
      String
      → List String
      → List FeatureDefinition
      → List (Frame F)
      → Matrix F
      → String
      → String
      → RegressionTarget F
      → List FeatureDefinition
      → Sample F
  unfolding project project_context names_of value_of is_available metadata_of
  assembled site devices definitions frames adjacency method provenance target context = record {
    schema_version = "ml.dataset.v1";
    site_id = site;
    device_ids = devices;
    feature_definitions = definitions;
    timestamps_utc = map (λ f. f.timestamp_utc) frames;
    feature_values = project F (value_of F) devices (names_of F definitions) frames;
    feature_mask = project F (is_available F) devices (names_of F definitions) frames;
    feature_metadata = project F (metadata_of F) devices (names_of F definitions) frames;
    adjacency = map (λ row. map float row) adjacency;
    adjacency_method = method;
    adjacency_provenance = provenance;
    target = target;
    context_definitions = context;
    context_values = project_context F (value_of F) (names_of F context) frames;
    context_mask = project_context F (is_available F) (names_of F context) frames;
    context_metadata = project_context F (metadata_of F) (names_of F context) frames;
  }

  unfoldable pub build_temporal_graph_sample :
      String
      → List String
      → List FeatureDefinition
      → List (Frame F)
      → Matrix F
      → String
      → String
      → RegressionTarget F
      → List FeatureDefinition
      → Result (Sample F)
  unfolding filled check_frames names_of assembled
  build_temporal_graph_sample site devices definitions frames adjacency method provenance target
        context =
      do
        require (filled frames) value_error
        check_frames F devices (names_of F context) frames
        new_sample F is_finite is_negative is_close
            (assembled site devices definitions frames adjacency method provenance target context)
