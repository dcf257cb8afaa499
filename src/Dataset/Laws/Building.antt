-- ===== src/Dataset/Laws/Building.antt =====
-- Samples that build_temporal_graph_sample returns show exactly the observed cells.
use mathlib.Core.Option
use slope_monitoring.Common.{
  ℕ, zero, suc, String, Bool, Option, none, some, List, [], ◌∷◌, map, length, get_elem?, ◌≡◌, refl,
  sym, ap, ◌∙◌, arith, is_some, Option-cases,
}
use slope_monitoring.Errors.{ok, require, value_error, then-ok}
use slope_monitoring.Dataset.Schema.{FeatureDefinition, FeatureCell, RegressionTarget}
use slope_monitoring.Dataset.Sample.{
  Sample, Matrix, check_nodes, check_steps, validate_3d_shape, filled,
}
use slope_monitoring.Dataset.Window.{
  Frame, project, names_of, value_of, is_available, metadata_of, cell_of, assembled, check_frames,
  build_temporal_graph_sample,
}
use slope_monitoring.Dataset.Laws.Contract.{new_sample_lem, at1, at3}

get_elem?-map :
    {A B : Type 0} (f : A → B) (xs : List A) (i : ℕ) {x : A}
    → get_elem? xs i ≡ some x
    → get_elem? (map f xs) i ≡ some (f x)
get_elem?-map f [] i h = absurd (ground arith)
get_elem?-map f (x ∷ xs) zero h = ap (λ o. Option.map f o) h
get_elem?-map f (x ∷ xs) (suc i) h = get_elem?-map f xs i h

length-map : {A B : Type 0} (f : A → B) (xs : List A) → length (map f xs) ≡ length xs
length-map f [] = refl
length-map f (x ∷ xs) = ap suc (length-map f xs)

module _ (F : Type 0) where
  project-at :
      {A : Type 0} (p : Option (FeatureCell F) → A) (devices names : List String)
      (frames : List (Frame F)) (t n f : ℕ) {frame : Frame F} {d name : String}
      → get_elem? frames t ≡ some frame
      → get_elem? devices n ≡ some d
      → get_elem? names f ≡ some name
      → at3 (project F p devices names frames) t n f ≡ some (p (cell_of F frame d name))
  unfolding project
  project-at p devices names frames t n f {frame} {d} {name} ht hn hf =
      ap (λ x. at1 (at1 x n) f) (get_elem?-map _ frames t ht)
      ∙ ap (λ x. at1 x f)
          (get_elem?-map (λ e. map (λ m. p (cell_of F frame e m)) names) devices n hn)
      ∙ get_elem?-map (λ m. p (cell_of F frame d m)) names f hf

  nodes_lem :
      {A : Type 0} (g : String → String → A) (devices names : List String)
      → check_nodes (length names) (map (λ d. map (g d) names) devices) ≡ ok tt
  unfolding check_nodes
  nodes_lem g [] names = refl
  nodes_lem g (d ∷ devices) names =
      ground (arith, length-map (g d) names, nodes_lem g devices names)

  steps_lem :
      {A : Type 0} (p : Option (FeatureCell F) → A) (devices names : List String)
      (frames : List (Frame F))
      → check_steps (length devices) (length names) (project F p devices names frames) ≡ ok tt
  unfolding check_steps project
  steps_lem p devices names [] = refl
  steps_lem p devices names (frame ∷ frames) = ground (
    arith,
    length-map (λ d. map (λ n. p (cell_of F frame d n)) names) devices,
    nodes_lem (λ d n. p (cell_of F frame d n)) devices names,
    steps_lem p devices names frames,
  )

  -- Whatever cells the frames hold, each tensor that is assembled passes the constructor's check of
  -- its shape: one entry for each frame, in it one for each device, in it one for each feature.
  project-shape :
      {A : Type 0} (p : Option (FeatureCell F) → A) (devices names : List String)
      (frames : List (Frame F))
      → validate_3d_shape
          (project F p devices names frames)
          (length frames)
          (length devices)
          (length names)
        ≡ ok tt
  unfolding validate_3d_shape project
  project-shape p devices names frames = ground (
    arith,
    length-map (λ frame. map (λ d. map (λ n. p (cell_of F frame d n)) names) devices) frames,
    steps_lem p devices names frames,
  )

available_lem :
    {F : Type 0} (c : Option (FeatureCell F)) → is_available F c ≡ is_some (value_of F c)
unfolding is_available value_of
available_lem none = refl
available_lem (some c) = ground (arith, Option-cases c.value)

module _ (F : Type 0) (is_finite is_negative : F → Bool) (is_close : ℕ → F → Bool)
    (float : F → F) where
  built_lem :
      (site : String) (devices : List String) (definitions : List FeatureDefinition)
      (frames : List (Frame F)) (adjacency : Matrix F) (method provenance : String)
      (target : RegressionTarget F) (context : List FeatureDefinition) (s : Sample F)
      → build_temporal_graph_sample F is_finite is_negative is_close float site devices definitions
          frames adjacency method provenance target context
        ≡ ok s
      → assembled F is_finite is_negative is_close float site devices definitions frames adjacency
          method provenance target context
        ≡ s
  unfolding build_temporal_graph_sample
  built_lem site devices definitions frames adjacency method provenance target context s h =
      let (a, b) = then-ok (require (filled frames) value_error) h in
      let (c, d) = then-ok (check_frames F devices (names_of F context) frames) b in
      (new_sample_lem F is_finite is_negative is_close _ s d).1

  -- A sample that is built shows at each time, device and feature what the frame of that time holds
  -- for that device and feature: its value, whether it is available, and its metadata. A cell that
  -- the frame does not hold has no value, is not available, and has the missing metadata.
  pub build_temporal_graph_sample-cell :
      (site : String) (devices : List String) (definitions : List FeatureDefinition)
      (frames : List (Frame F)) (adjacency : Matrix F) (method provenance : String)
      (target : RegressionTarget F) (context : List FeatureDefinition) (s : Sample F) (t n f : ℕ)
      (frame : Frame F) (device : String) (definition : FeatureDefinition)
      → build_temporal_graph_sample F is_finite is_negative is_close float site devices definitions
          frames adjacency method provenance target context
        ≡ ok s
      → get_elem? frames t ≡ some frame
      → get_elem? devices n ≡ some device
      → get_elem? definitions f ≡ some definition
      → (at3 s.feature_values t n f ≡ some (value_of F (cell_of F frame device definition.name)))
        × (at3 s.feature_mask t n f
            ≡ some (is_some (value_of F (cell_of F frame device definition.name))))
        × (at3 s.feature_metadata t n f
            ≡ some (metadata_of F (cell_of F frame device definition.name)))
  unfolding assembled names_of
  build_temporal_graph_sample-cell site devices definitions frames adjacency method provenance
        target context s t n f frame device definition built ht hn hf =
      let same = sym (
        built_lem site devices definitions frames adjacency method provenance target context s
          built) in
      let names = get_elem?-map (λ (d : FeatureDefinition). d.name) definitions f hf in
      (
        ap (λ x. at3 x.feature_values t n f) same
            ∙ project-at F (value_of F) devices _ frames t n f ht hn names,
        ap (λ x. at3 x.feature_mask t n f) same
            ∙ project-at F (is_available F) devices _ frames t n f ht hn names
            ∙ ap some (available_lem (cell_of F frame device definition.name)),
        ap (λ x. at3 x.feature_metadata t n f) same
            ∙ project-at F (metadata_of F) devices _ frames t n f ht hn names,
      )
