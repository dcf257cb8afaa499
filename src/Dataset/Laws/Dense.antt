-- ===== src/Dataset/Laws/Dense.antt =====
-- The dense views of a sample: what dense_features shows for each cell.
use slope_monitoring.Common.{
  ℕ, zero, suc, Bool, Option, none, some, List, [], ◌∷◌, get_elem?, is_some, some_or,
  some-injective, ◌≡◌, refl, sym, ap, ◌∙◌, arith, if◌then◌else◌,
}
use slope_monitoring.Errors.{ok, require, then-ok, ok-injective, value_error}
use slope_monitoring.Dataset.Schema.{FeatureMetadata}
use slope_monitoring.Dataset.Sample.{
  Sample, Matrix, Tensor, new_sample, dense_cells, dense_grid, dense_tensor, dense_features,
}
use slope_monitoring.Dataset.Laws.Contract.{at1, at3, new_sample-cell}

module _ (F : Type 0) (is_finite is_negative : F → Bool) (is_close : ℕ → F → Bool) where
  dense_cells-at :
      (fill : F) (vs : List (Option F)) (bs : List Bool) (i : ℕ) {v : Option F} {a : Bool}
      → get_elem? vs i ≡ some v
      → get_elem? bs i ≡ some a
      → get_elem? (dense_cells F is_finite is_negative is_close fill vs bs) i
        ≡ some (if a then v else some fill)
  unfolding dense_cells
  dense_cells-at fill [] bs i p q = absurd (ground arith)
  dense_cells-at fill (w ∷ vs) [] i p q = absurd (ground arith)
  dense_cells-at fill (w ∷ vs) (b ∷ bs) zero {a = c} p q =
      ap (λ e. some (if e then w else some fill)) (some-injective q)
      ∙ ap (λ x. some (if c then x else some fill)) (some-injective p)
  dense_cells-at fill (w ∷ vs) (b ∷ bs) (suc i) p q = dense_cells-at fill vs bs i p q

  dense_grid-at :
      (fill : F) (vs : Matrix (Option F)) (bs : Matrix Bool) (n i : ℕ) {v : Option F} {a : Bool}
      → at1 (get_elem? vs n) i ≡ some v
      → at1 (get_elem? bs n) i ≡ some a
      → at1 (get_elem? (dense_grid F is_finite is_negative is_close fill vs bs) n) i
        ≡ some (if a then v else some fill)
  unfolding dense_grid
  dense_grid-at fill [] bs n i p q = absurd (ground arith)
  dense_grid-at fill (w ∷ vs) [] n i p q = absurd (ground arith)
  dense_grid-at fill (w ∷ vs) (b ∷ bs) zero i p q = dense_cells-at fill w b i p q
  dense_grid-at fill (w ∷ vs) (b ∷ bs) (suc n) i p q = dense_grid-at fill vs bs n i p q

  dense_tensor-at :
      (fill : F) (vs : Tensor (Option F)) (bs : Tensor Bool) (t n i : ℕ) {v : Option F} {a : Bool}
      → at3 vs t n i ≡ some v
      → at3 bs t n i ≡ some a
      → at3 (dense_tensor F is_finite is_negative is_close fill vs bs) t n i
        ≡ some (if a then v else some fill)
  unfolding dense_tensor
  dense_tensor-at fill [] bs t n i p q = absurd (ground arith)
  dense_tensor-at fill (w ∷ vs) [] t n i p q = absurd (ground arith)
  dense_tensor-at fill (w ∷ vs) (b ∷ bs) zero n i p q = dense_grid-at fill w b n i p q
  dense_tensor-at fill (w ∷ vs) (b ∷ bs) (suc t) n i p q = dense_tensor-at fill vs bs t n i p q

  shown : (fill : F) (v : Option F) → (if is_some v then v else some fill) ≡ some (some_or fill v)
  shown fill none = refl
  shown fill (some x) = refl

  -- In a dense view of a sample that the constructor accepts, a cell without a value holds the fill
  -- value and every other cell its own value; the mask that comes with it is the sample's mask.
  pub dense_features-cell :
      (s s' : Sample F) (fill : F) (dense : Tensor (Option F)) (mask : Tensor Bool) (t n f : ℕ)
      (v : Option F) (available : Bool) (m : FeatureMetadata)
      → new_sample F is_finite is_negative is_close s ≡ ok s'
      → dense_features F is_finite is_negative is_close fill s ≡ ok (dense, mask)
      → at3 s.feature_values t n f ≡ some v
      → at3 s.feature_mask t n f ≡ some available
      → at3 s.feature_metadata t n f ≡ some m
      → (at3 dense t n f ≡ some (some (some_or fill v))) × (mask ≡ s.feature_mask)
  unfolding dense_features
  dense_features-cell s s' fill dense mask t n f v a m made h p q r =
      let cell = new_sample-cell F is_finite is_negative is_close s s' t n f v a m made p q r in
      let both = ok-injective (then-ok (require (is_finite fill) value_error) h).1 in
      (
        ap (λ (x : Tensor (Option F) × Tensor Bool). at3 x.0 t n f) (sym both)
            ∙ dense_tensor-at fill s.feature_values s.feature_mask t n f p q
            ∙ ap (λ b. some (if b then v else some fill)) cell.0
            ∙ ap some (shown fill v),
        ap (λ (x : Tensor (Option F) × Tensor Bool). x.1) (sym both),
      )
