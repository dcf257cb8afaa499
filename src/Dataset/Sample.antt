-- ===== src/Dataset/Sample.antt =====
-- ml/domain/dataset_schema.py, lines 171 to 485: TemporalGraphSample, the checks that its constructor
-- makes in their order, and its dense views.
use slope_monitoring.Common.{
  ℕ, ◌-◌, String, Bool, true, false, not, ◌&&◌, ◌||◌, Option, none, some, List, [], ◌∷◌, map,
  length, str_eq, ltb, ◌==◌, if◌then◌else◌, any, all,
}
use slope_monitoring.Common.Text.{codes, text_eq}
use slope_monitoring.Errors.{Result, ok, err, value_error, index_error, require, ◌>>=◌, ◌>>◌}
use slope_monitoring.Dataset.Schema.{
  Datetime, FeatureDefinition, FeatureMetadata, RegressionTarget, source_is_missing,
  source_is_external,
}

-- A matrix [T][C], a tensor [T][N][F]
abbrev pub Matrix : Type 0 → Type 0
Matrix A = List (List A)

abbrev pub Tensor : Type 0 → Type 0
Tensor A = List (Matrix A)

pub record Sample (F : Type 0) : Type 0 where
  pub schema_version : String
  pub site_id : String
  pub device_ids : List String
  pub feature_definitions : List FeatureDefinition
  pub timestamps_utc : List Datetime
  pub feature_values : Tensor (Option F)
  pub feature_mask : Tensor Bool
  pub feature_metadata : Tensor FeatureMetadata
  pub adjacency : Matrix F
  pub adjacency_method : String
  pub adjacency_provenance : String
  pub target : RegressionTarget F
  pub context_definitions : List FeatureDefinition
  pub context_values : Matrix (Option F)
  pub context_mask : Matrix Bool
  pub context_metadata : Matrix FeatureMetadata

unfoldable pub is_in : String → List String → Bool
is_in s xs = any (λ x. str_eq x s) xs

-- len(set(xs)) == len(xs)
unfoldable pub is_unique : List String → Bool
unfolding is_in
is_unique [] = true
is_unique (x ∷ xs) = not (is_in x xs) && is_unique xs

-- The letters that `upper` maps to those of the one word it is compared with: the ASCII letters and
-- the dotless i.
upper_code : ℕ → ℕ
upper_code c = if ltb 96 c && ltb c 123 then c - 32 else if c == 305 then 73 else c

unfoldable pub is_weather : String → Bool
unfolding upper_code
is_weather d = text_eq (map upper_code (codes d)) (codes "WEATHER-API")

unfoldable pub filled {ℓ} : {A : Type ℓ} → List A → Bool
filled [] = false
filled (x ∷ xs) = true

-- the timestamps are aware, and each is after the one before it
unfoldable pub check_times : Option Datetime → List Datetime → Result (Unit {0})
check_times previous [] = ok tt
check_times none (t ∷ ts) = do require t.is_aware value_error; check_times (some t) ts
check_times (some p) (t ∷ ts) = do
  require t.is_aware value_error
  require (ltb p.at t.at) value_error
  check_times (some t) ts

-- _validate_3d_shape
unfoldable pub check_nodes {ℓ} : {A : Type ℓ} → ℕ → List (List A) → Result (Unit {0})
check_nodes f [] = ok tt
check_nodes f (node ∷ nodes) = do require (length node == f) value_error; check_nodes f nodes

unfoldable pub check_steps {ℓ} : {A : Type ℓ} → ℕ → ℕ → List (List (List A)) → Result (Unit {0})
unfolding check_nodes
check_steps n f [] = ok tt
check_steps n f (step ∷ steps) = do
  require (length step == n) value_error
  check_nodes f step
  check_steps n f steps

unfoldable pub validate_3d_shape {ℓ} :
    {A : Type ℓ} → List (List (List A)) → ℕ → ℕ → ℕ → Result (Unit {0})
unfolding check_steps
validate_3d_shape value t n f = do require (length value == t) value_error; check_steps n f value

unfoldable pub check_rows {ℓ} : {A : Type ℓ} → List (List A) → ℕ → ℕ → Result (Unit {0})
check_rows matrix t c =
    require (length matrix == t && all (λ row. length row == c) matrix) value_error

unfoldable pub last_of : List Datetime → Result Datetime
last_of [] = err index_error
last_of (t ∷ []) = ok t
last_of (t ∷ u ∷ ts) = last_of (u ∷ ts)

module _ (F : Type 0) (is_finite is_negative : F → Bool) (is_close : ℕ → F → Bool) where
  -- one cell of the three tensors
  unfoldable pub check_cell : Option F → Bool → FeatureMetadata → Result (Unit {0})
  unfolding source_is_missing
  check_cell none true m = err value_error
  check_cell (some v) true m = do
    require (is_finite v) value_error
    require (not (source_is_missing m.source_kind)) value_error
  check_cell (some v) false m = err value_error
  check_cell none false m = require (source_is_missing m.source_kind) value_error

  unfoldable pub check_cells :
      List (Option F) → List Bool → List FeatureMetadata → Result (Unit {0})
  unfolding check_cell
  check_cells (v ∷ vs) (a ∷ bs) (m ∷ ms) = do check_cell v a m; check_cells vs bs ms
  check_cells vs bs ms = ok tt

  unfoldable pub check_grid :
      Matrix (Option F) → Matrix Bool → Matrix FeatureMetadata → Result (Unit {0})
  unfolding check_cells
  check_grid (v ∷ vs) (a ∷ bs) (m ∷ ms) = do check_cells v a m; check_grid vs bs ms
  check_grid vs bs ms = ok tt

  unfoldable pub check_tensors :
      Tensor (Option F) → Tensor Bool → Tensor FeatureMetadata → Result (Unit {0})
  unfolding check_grid
  check_tensors (v ∷ vs) (a ∷ bs) (m ∷ ms) = do check_grid v a m; check_tensors vs bs ms
  check_tensors vs bs ms = ok tt

  -- one cell of the site context
  unfoldable pub check_context_cell : Option F → Bool → FeatureMetadata → Result (Unit {0})
  unfolding source_is_missing source_is_external
  check_context_cell none true m = err value_error
  check_context_cell (some v) true m = do
    require (is_finite v) value_error
    require (source_is_external m.source_kind) value_error
  check_context_cell (some v) false m = err value_error
  check_context_cell none false m = require (source_is_missing m.source_kind) value_error

  unfoldable pub check_context_cells :
      List (Option F) → List Bool → List FeatureMetadata → Result (Unit {0})
  unfolding check_context_cell
  check_context_cells (v ∷ vs) (a ∷ bs) (m ∷ ms) = do
    check_context_cell v a m
    check_context_cells vs bs ms
  check_context_cells vs bs ms = ok tt

  unfoldable pub check_context_grid :
      Matrix (Option F) → Matrix Bool → Matrix FeatureMetadata → Result (Unit {0})
  unfolding check_context_cells
  check_context_grid (v ∷ vs) (a ∷ bs) (m ∷ ms) = do
    check_context_cells v a m
    check_context_grid vs bs ms
  check_context_grid vs bs ms = ok tt

  context_names : Sample F → List String
  context_names s = map (λ d. d.name) s.context_definitions

  -- _validate_site_context
  unfoldable pub validate_site_context : ℕ → Sample F → Result (Unit {0})
  unfolding is_unique filled check_rows check_context_grid context_names
  validate_site_context t s =
      let c = length s.context_definitions in
      require (is_unique (context_names s)) value_error
      >> (if not (filled s.context_definitions)
            && not (filled s.context_values || filled s.context_mask || filled s.context_metadata)
          then ok tt
          else do
            check_rows s.context_values t c
            check_rows s.context_mask t c
            check_rows s.context_metadata t c
            check_context_grid s.context_values s.context_mask s.context_metadata)

  unfoldable pub check_weights : List F → Result (Unit {0})
  check_weights [] = ok tt
  check_weights (w ∷ ws) = do
    require (is_finite w) value_error
    require (not (is_negative w)) value_error
    check_weights ws

  unfoldable pub check_adjacency : ℕ → Matrix F → Result (Unit {0})
  unfolding check_weights
  check_adjacency n [] = ok tt
  check_adjacency n (row ∷ rows) = do
    require (length row == n) value_error
    check_weights row
    check_adjacency n rows

  -- the target is after the window, by its horizon
  unfoldable pub check_target : Sample F → Result (Unit {0})
  unfolding last_of
  check_target s = do
    window_end ← last_of s.timestamps_utc
    require (ltb window_end.at s.target.target_timestamp_utc.at) value_error
    require (is_close (s.target.target_timestamp_utc.at - window_end.at) s.target.horizon_s)
        value_error

  -- the version, the site, the devices and the features
  unfoldable pub check_names : Sample F → Result (Unit {0})
  unfolding is_unique is_weather filled
  check_names s = do
    require (str_eq s.schema_version "ml.dataset.v1") value_error
    require (not (str_eq s.site_id "")) value_error
    require (filled s.device_ids) value_error
    require (is_unique s.device_ids) value_error
    require (filled s.feature_definitions) value_error
    require (not (any is_weather s.device_ids)) value_error
    require (is_unique (map (λ d. d.name) s.feature_definitions)) value_error

  -- the times and the three tensors
  unfoldable pub check_window : Sample F → Result (Unit {0})
  unfolding filled check_times validate_3d_shape check_tensors
  check_window s = do
    require (filled s.timestamps_utc) value_error
    check_times none s.timestamps_utc
    let t = length s.timestamps_utc
    let n = length s.device_ids
    let f = length s.feature_definitions
    validate_3d_shape s.feature_values t n f
    validate_3d_shape s.feature_mask t n f
    validate_3d_shape s.feature_metadata t n f
    check_tensors s.feature_values s.feature_mask s.feature_metadata

  -- the adjacency, and the target's device
  unfoldable pub check_graph : Sample F → Result (Unit {0})
  unfolding is_in check_adjacency
  check_graph s = do
    require (length s.adjacency == length s.device_ids) value_error
    check_adjacency (length s.device_ids) s.adjacency
    require (not (str_eq s.adjacency_method "")) value_error
    require (not (str_eq s.adjacency_provenance "")) value_error
    require (is_in s.target.device_id s.device_ids) value_error

  -- TemporalGraphSample.__post_init__
  unfoldable pub new_sample : Sample F → Result (Sample F)
  unfolding check_names check_window validate_site_context check_graph check_target
  new_sample s = do
    check_names s
    check_window s
    validate_site_context (length s.timestamps_utc) s
    check_graph s
    check_target s
    ok s

  -- value if available else fill_value: an available value is not None in a constructed sample
  unfoldable pub dense_cells : F → List (Option F) → List Bool → List (Option F)
  dense_cells fill (v ∷ vs) (a ∷ bs) = (if a then v else some fill) ∷ dense_cells fill vs bs
  dense_cells fill vs bs = []

  unfoldable pub dense_grid : F → Matrix (Option F) → Matrix Bool → Matrix (Option F)
  unfolding dense_cells
  dense_grid fill (v ∷ vs) (a ∷ bs) = dense_cells fill v a ∷ dense_grid fill vs bs
  dense_grid fill vs bs = []

  unfoldable pub dense_tensor : F → Tensor (Option F) → Tensor Bool → Tensor (Option F)
  unfolding dense_grid
  dense_tensor fill (v ∷ vs) (a ∷ bs) = dense_grid fill v a ∷ dense_tensor fill vs bs
  dense_tensor fill vs bs = []

  unfoldable pub dense_features : F → Sample F → Result (Tensor (Option F) × Tensor Bool)
  unfolding dense_tensor
  dense_features fill s = do
    require (is_finite fill) value_error
    ok (dense_tensor fill s.feature_values s.feature_mask, s.feature_mask)

  unfoldable pub dense_site_context : F → Sample F → Result (Matrix (Option F) × Matrix Bool)
  unfolding dense_grid
  dense_site_context fill s = do
    require (is_finite fill) value_error
    ok (dense_grid fill s.context_values s.context_mask, s.context_mask)
