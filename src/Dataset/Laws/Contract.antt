-- ===== src/Dataset/Laws/Contract.antt =====
-- What a constructed TemporalGraphSample promises.
use slope_monitoring.Common.{
  ℕ, ◌<◌, Bool, true, false, not, Option, none, some, List, [], ◌∷◌, zero, suc, length, get_elem?,
  ltb, All, is_some, some-injective, ◌≡◌, refl, sym, ap, ◌∙◌, arith, inl, inr,
}
use slope_monitoring.Errors.{ok-injective, ok, value_error, require, then-ok, Result-cases}
use slope_monitoring.Dataset.Schema.{Datetime, FeatureMetadata, source_is_missing}
use slope_monitoring.Dataset.Sample.{
  check_names, check_graph, validate_site_context, Sample, Matrix, Tensor, check_times,
  validate_3d_shape, check_cell, check_cells, check_grid, check_tensors, last_of, new_sample,
  check_target, check_window,
}

-- the element of a tensor at a time, a node and a feature
abbrev pub at1 : {A : Type 0} → Option (List A) → ℕ → Option A
at1 none i = none
at1 (some xs) i = get_elem? xs i

abbrev pub at3 : {A : Type 0} → Tensor A → ℕ → ℕ → ℕ → Option A
at3 x t n f = at1 (at1 (get_elem? x t) n) f

-- times that rise strictly, all of them aware
abbrev pub Rises : Option Datetime → List Datetime → Type 0
Rises previous [] = Unit
Rises none (t ∷ ts) = (t.is_aware ≡ true) × Rises (some t) ts
Rises (some p) (t ∷ ts) = (t.is_aware ≡ true) × (p.at < t.at) × Rises (some t) ts

check_times-Rises :
    (p : Option Datetime) (ts : List Datetime) → check_times p ts ≡ ok tt → Rises p ts
unfolding check_times
check_times-Rises p [] h = tt
check_times-Rises none (t ∷ ts) h =
    let (a, r) = then-ok (require t.is_aware value_error) h in
    (ground arith, check_times-Rises (some t) ts r)
check_times-Rises (some p) (t ∷ ts) h =
    let (a, r) = then-ok (require t.is_aware value_error) h in
    let (b, q) = then-ok (require (ltb p.at t.at) value_error) r in
    (ground arith, ground arith, check_times-Rises (some t) ts q)

-- the last of rising times bounds them
Rises-bound :
    (k : ℕ) (p : Option Datetime) (ts : List Datetime) (last : Datetime)
    → Rises p ts
    → last_of ts ≡ ok last
    → last.at < k
    → All (λ t. t.at < k) ts
unfolding last_of
Rises-bound k p [] last r e h = absurd (ground arith)
Rises-bound k none (t ∷ []) last r e h = (ground arith, tt)
Rises-bound k (some p) (t ∷ []) last r e h = (ground arith, tt)
Rises-bound k none (t ∷ u ∷ ts) last r e h =
    let rest = Rises-bound k (some t) (u ∷ ts) last r.1 e h in (ground arith, rest)
Rises-bound k (some p) (t ∷ u ∷ ts) last r e h =
    let rest = Rises-bound k (some t) (u ∷ ts) last r.2 e h in (ground arith, rest)

module _ (F : Type 0) (is_finite is_negative : F → Bool) (is_close : ℕ → F → Bool) where
  same_cell :
      {v w : Option F} {b c : Bool} {m n : FeatureMetadata}
      → w ≡ v
      → c ≡ b
      → n ≡ m
      → check_cell F is_finite is_negative is_close w c n ≡ ok tt
      → check_cell F is_finite is_negative is_close v b m ≡ ok tt
  same_cell p q r h = rw⁻¹ (p, q, r) h

  check_cells-at :
      (vs : List (Option F)) (bs : List Bool) (ms : List FeatureMetadata) (i : ℕ) {v : Option F}
      {b : Bool} {m : FeatureMetadata}
      → check_cells F is_finite is_negative is_close vs bs ms ≡ ok tt
      → get_elem? vs i ≡ some v
      → get_elem? bs i ≡ some b
      → get_elem? ms i ≡ some m
      → check_cell F is_finite is_negative is_close v b m ≡ ok tt
  unfolding check_cells
  check_cells-at [] bs ms i h p q r = absurd (ground arith)
  check_cells-at (w ∷ vs) [] ms i h p q r = absurd (ground arith)
  check_cells-at (w ∷ vs) (c ∷ bs) [] i h p q r = absurd (ground arith)
  check_cells-at (w ∷ vs) (c ∷ bs) (n ∷ ms) zero h p q r =
      let first = then-ok (check_cell F is_finite is_negative is_close w c n) h in
      same_cell (some-injective p) (some-injective q) (some-injective r) first.0
  check_cells-at (w ∷ vs) (c ∷ bs) (n ∷ ms) (suc i) h p q r =
      let first = then-ok (check_cell F is_finite is_negative is_close w c n) h in
      check_cells-at vs bs ms i first.1 p q r

  check_grid-at :
      (vs : Matrix (Option F)) (bs : Matrix Bool) (ms : Matrix FeatureMetadata) (n i : ℕ)
      {v : Option F} {b : Bool} {m : FeatureMetadata}
      → check_grid F is_finite is_negative is_close vs bs ms ≡ ok tt
      → at1 (get_elem? vs n) i ≡ some v
      → at1 (get_elem? bs n) i ≡ some b
      → at1 (get_elem? ms n) i ≡ some m
      → check_cell F is_finite is_negative is_close v b m ≡ ok tt
  unfolding check_grid
  check_grid-at [] bs ms n i h p q r = absurd (ground arith)
  check_grid-at (w ∷ vs) [] ms n i h p q r = absurd (ground arith)
  check_grid-at (w ∷ vs) (c ∷ bs) [] n i h p q r = absurd (ground arith)
  check_grid-at (w ∷ vs) (c ∷ bs) (d ∷ ms) zero i h p q r =
      let first = then-ok (check_cells F is_finite is_negative is_close w c d) h in
      check_cells-at w c d i first.0 p q r
  check_grid-at (w ∷ vs) (c ∷ bs) (d ∷ ms) (suc n) i h p q r =
      let first = then-ok (check_cells F is_finite is_negative is_close w c d) h in
      check_grid-at vs bs ms n i first.1 p q r

  check_tensors-at :
      (vs : Tensor (Option F)) (bs : Tensor Bool) (ms : Tensor FeatureMetadata) (t n i : ℕ)
      {v : Option F} {b : Bool} {m : FeatureMetadata}
      → check_tensors F is_finite is_negative is_close vs bs ms ≡ ok tt
      → at3 vs t n i ≡ some v
      → at3 bs t n i ≡ some b
      → at3 ms t n i ≡ some m
      → check_cell F is_finite is_negative is_close v b m ≡ ok tt
  unfolding check_tensors
  check_tensors-at [] bs ms t n i h p q r = absurd (ground arith)
  check_tensors-at (w ∷ vs) [] ms t n i h p q r = absurd (ground arith)
  check_tensors-at (w ∷ vs) (c ∷ bs) [] t n i h p q r = absurd (ground arith)
  check_tensors-at (w ∷ vs) (c ∷ bs) (d ∷ ms) zero n i h p q r =
      let first = then-ok (check_grid F is_finite is_negative is_close w c d) h in
      check_grid-at w c d n i first.0 p q r
  check_tensors-at (w ∷ vs) (c ∷ bs) (d ∷ ms) (suc t) n i h p q r =
      let first = then-ok (check_grid F is_finite is_negative is_close w c d) h in
      check_tensors-at vs bs ms t n i first.1 p q r

  -- the checks that matter here
  pub record Passed (s : Sample F) : Type 0 where
    pub times : check_times none s.timestamps_utc ≡ ok tt
    pub values :
        validate_3d_shape s.feature_values
          (length s.timestamps_utc)
          (length s.device_ids)
          (length s.feature_definitions)
        ≡ ok tt
    pub mask :
        validate_3d_shape s.feature_mask
          (length s.timestamps_utc)
          (length s.device_ids)
          (length s.feature_definitions)
        ≡ ok tt
    pub metadata :
        validate_3d_shape s.feature_metadata
          (length s.timestamps_utc)
          (length s.device_ids)
          (length s.feature_definitions)
        ≡ ok tt
    pub cells :
        check_tensors F is_finite is_negative is_close s.feature_values s.feature_mask
          s.feature_metadata
        ≡ ok tt
    pub end :
        (e : Datetime) × (last_of s.timestamps_utc ≡ ok e)
        × (e.at < s.target.target_timestamp_utc.at)

  target_lem :
      (s : Sample F)
      → check_target F is_finite is_negative is_close s ≡ ok tt
      → (e : Datetime) × (last_of s.timestamps_utc ≡ ok e)
        × (e.at < s.target.target_timestamp_utc.at)
  unfolding check_target
  target_lem s h = elim (Result-cases (last_of s.timestamps_utc)) [
    | inl (e, found) ↦ (e, found, ground arith)
    | inr (x, broken) ↦ absurd (ground arith)
  ]

  window_lem :
      (s : Sample F)
      → check_window F is_finite is_negative is_close s ≡ ok tt
      → check_target F is_finite is_negative is_close s ≡ ok tt
      → Passed s
  unfolding check_window
  window_lem s h k = record {
    times = ground arith;
    values = ground arith;
    mask = ground arith;
    metadata = ground arith;
    cells = ground arith;
    end = target_lem s k;
  }

  -- an accepted sample passed its checks, and is returned as it is
  pub new_sample_lem :
      (s s' : Sample F)
      → new_sample F is_finite is_negative is_close s ≡ ok s'
      → Passed s × (s ≡ s')
  unfolding new_sample
  new_sample_lem s s' h =
      let (a, h1) = then-ok (check_names F is_finite is_negative is_close s) h in
      let (b, h2) = then-ok (check_window F is_finite is_negative is_close s) h1 in
      let (c, h3) =
        then-ok (validate_site_context F is_finite is_negative is_close (length s.timestamps_utc) s)
          h2 in
      let (d, h4) = then-ok (check_graph F is_finite is_negative is_close s) h3 in
      let (e, h5) = then-ok (check_target F is_finite is_negative is_close s) h4 in
      (window_lem s b e, ok-injective h5)

  -- In a sample that the constructor accepts, the times of the input window are timezone-aware and
  -- rise strictly, and every one of them is before the target's time.
  pub new_sample-target :
      (s s' : Sample F)
      → new_sample F is_finite is_negative is_close s ≡ ok s'
      → Rises none s.timestamps_utc
        × All (λ t. t.at < s.target.target_timestamp_utc.at) s.timestamps_utc
  new_sample-target s s' h =
      let p = (new_sample_lem s s' h).0 in
      let rises = check_times-Rises none s.timestamps_utc p.times in
      let (e, found, before) = p.end in
      (
        rises,
        Rises-bound s.target.target_timestamp_utc.at none s.timestamps_utc e rises found before,
      )

  cell_lem :
      (v : Option F) (a : Bool) (m : FeatureMetadata)
      → check_cell F is_finite is_negative is_close v a m ≡ ok tt
      → (a ≡ is_some v)
        × (source_is_missing m.source_kind ≡ not a)
        × ((x : F) → v ≡ some x → is_finite x ≡ true)
  unfolding check_cell
  cell_lem none true m h = absurd (ground arith)
  cell_lem none false m h = (refl, ground arith, λ x e. absurd (ground arith))
  cell_lem (some v) true m h =
      (refl, ground arith, λ x e. ap is_finite (sym (some-injective e)) ∙ ground arith)
  cell_lem (some v) false m h = absurd (ground arith)

  -- In a sample that the constructor accepts, a cell of the three tensors is available exactly if it
  -- has a value, its value is finite, and its metadata is of the missing kind exactly if it is not
  -- available.
  pub new_sample-cell :
      (s s' : Sample F) (t n f : ℕ) (v : Option F) (available : Bool) (m : FeatureMetadata)
      → new_sample F is_finite is_negative is_close s ≡ ok s'
      → at3 s.feature_values t n f ≡ some v
      → at3 s.feature_mask t n f ≡ some available
      → at3 s.feature_metadata t n f ≡ some m
      → (available ≡ is_some v)
        × (source_is_missing m.source_kind ≡ not available)
        × ((x : F) → v ≡ some x → is_finite x ≡ true)
  new_sample-cell s s' t n f v a m h p q r =
      let c =
        check_tensors-at s.feature_values s.feature_mask s.feature_metadata t n f
          ((new_sample_lem s s' h).0).cells p q r in
      cell_lem v a m c
