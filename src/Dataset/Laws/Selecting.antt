-- ===== src/Dataset/Laws/Selecting.antt =====
-- The window of observed frames that select_trailing_frames returns.
use slope_monitoring.Common.{
  ℕ, zero, suc, ◌+◌, ◌-◌, ◌<◌, ◌≤◌, true, List, [], ◌∷◌, length, length-take, length-drop, take,
  drop, get_elem?, ◌≡◌, refl, ap, ◌∙◌, arith,
}
use slope_monitoring.Common.Int.{pos}
use slope_monitoring.Errors.{ok}
use slope_monitoring.Dataset.Window.{Frame, is_increasing, frames_between, select_trailing_frames}

get_elem?-take :
    {A : Type 0} (n : ℕ) (xs : List A) (i : ℕ) → i < n → get_elem? (take n xs) i ≡ get_elem? xs i
get_elem?-take zero xs i h = absurd (ground arith)
get_elem?-take (suc n) [] i h = refl
get_elem?-take (suc n) (x ∷ xs) zero h = refl
get_elem?-take (suc n) (x ∷ xs) (suc i) h = get_elem?-take n xs i (ground arith)

get_elem?-drop :
    {A : Type 0} (n : ℕ) (xs : List A) (i : ℕ) → get_elem? (drop n xs) i ≡ get_elem? xs (n + i)
get_elem?-drop zero xs i = ap (get_elem? xs) (omega arith)
get_elem?-drop (suc n) [] i = refl
get_elem?-drop (suc n) (x ∷ xs) i =
    let shift : suc (n + i) ≡ suc n + i = omega arith in
    get_elem?-drop n xs i ∙ ap (get_elem? (x ∷ xs)) shift

module _ (F : Type 0) where
  -- A window of `w` frames that is selected holds the `w` observed frames that end at the index
  -- `end`, in their order and with nothing in between, and their timestamps rise strictly.
  pub select_trailing_frames-window :
      (frames selected : List (Frame F)) (end w : ℕ)
      → select_trailing_frames F frames (pos end) (pos w) ≡ ok selected
      → (length selected ≡ w)
        × (is_increasing F selected ≡ true)
        × ((i : ℕ) → i < w → get_elem? selected i ≡ get_elem? frames (end + 1 - w + i))
  unfolding select_trailing_frames frames_between
  select_trailing_frames-window frames selected end w h =
      let start = end - (w - 1) in
      let whole : selected ≡ take (w - 1 + 1) (drop start frames) = ground arith in
      let some_frame : 0 < w = ground arith in
      let fits : w ≤ end + 1 = ground arith in
      let within : end < length frames = ground arith in
      let from : start ≡ end + 1 - w = omega arith in
      let count : w - 1 + 1 ≡ w = omega arith in
      (
        ap length whole
            ∙ omega (arith, length-take (w - 1 + 1) (drop start frames), length-drop start frames),
        ground arith,
        λ i h.
            ap (λ x. get_elem? x i) whole
            ∙ get_elem?-take (w - 1 + 1) (drop start frames) i (omega arith)
            ∙ get_elem?-drop start frames i
            ∙ ap (λ k. get_elem? frames (k + i)) from,
      )

  take-is_increasing :
      (n : ℕ) (xs : List (Frame F)) → is_increasing F xs ≡ true → is_increasing F (take n xs) ≡ true
  unfolding is_increasing
  take-is_increasing zero xs h = refl
  take-is_increasing (suc n) [] h = refl
  take-is_increasing (suc zero) (x ∷ xs) h = refl
  take-is_increasing (suc (suc n)) (x ∷ []) h = refl
  take-is_increasing (suc (suc n)) (x ∷ y ∷ xs) h =
      let rest = take-is_increasing (suc n) (y ∷ xs) (ground arith) in ground arith

  drop-is_increasing :
      (n : ℕ) (xs : List (Frame F)) → is_increasing F xs ≡ true → is_increasing F (drop n xs) ≡ true
  unfolding is_increasing
  drop-is_increasing zero xs h = h
  drop-is_increasing (suc n) [] h = refl
  drop-is_increasing (suc n) (x ∷ []) h = drop-is_increasing n [] refl
  drop-is_increasing (suc n) (x ∷ y ∷ xs) h = drop-is_increasing n (y ∷ xs) (ground arith)

  -- When the timestamps of all frames rise strictly, every window of at least one frame that ends at
  -- an observed frame and does not reach before the first one is selected.
  select_trailing_frames-total :
      (frames : List (Frame F)) (end w : ℕ)
      → is_increasing F frames ≡ true
      → 0 < w
      → w ≤ end + 1
      → end < length frames
      → (selected : List (Frame F)) × (select_trailing_frames F frames (pos end) (pos w)
          ≡ ok selected)
  unfolding select_trailing_frames frames_between
  select_trailing_frames-total frames end w rise some_frame enough within =
      let window =
        take-is_increasing (w - 1 + 1) (drop (end - (w - 1)) frames)
          (drop-is_increasing (end - (w - 1)) frames rise) in
      (take (w - 1 + 1) (drop (end - (w - 1)) frames), ground arith)
