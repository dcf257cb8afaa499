-- ===== src/Ppk/Laws/Bytes.antt =====
-- Lists cut at their parts.
use slope_monitoring.Common.{
  ℕ, zero, suc, ◌≤◌, ◌<◌, ◌≡◌, refl, ap, List, [], ◌∷◌, ◌++◌, length, take, drop, get_elem?, arith,
}
use slope_monitoring.Ppk.Bytes.{checksum, checksum_from}

module _ {ℓ} {A : Type ℓ} where
  pub take-append : (xs ys : List A) → take (length xs) (xs ++ ys) ≡ xs
  take-append [] ys = refl
  take-append (x ∷ xs) ys = ap (λ zs. x ∷ zs) (take-append xs ys)

  pub drop-append : (xs ys : List A) → drop (length xs) (xs ++ ys) ≡ ys
  drop-append [] ys = refl
  drop-append (x ∷ xs) ys = drop-append xs ys

  pub append-take-drop : (n : ℕ) (xs : List A) → take n xs ++ drop n xs ≡ xs
  append-take-drop zero xs = refl
  append-take-drop (suc n) [] = refl
  append-take-drop (suc n) (x ∷ xs) = ap (λ zs. x ∷ zs) (append-take-drop n xs)

  pub get_elem?-append_left :
      (xs ys : List A) (i : ℕ) → i < length xs → get_elem? (xs ++ ys) i ≡ get_elem? xs i
  get_elem?-append_left [] ys i h = absurd (ground arith)
  get_elem?-append_left (x ∷ xs) ys zero h = refl
  get_elem?-append_left (x ∷ xs) ys (suc i) h = get_elem?-append_left xs ys i (omega (arith, h))

  -- a list of at least six items, with the first six in view
  pub at_least_six :
      (xs : List A)
      → 6 ≤ length xs
      → (a b c d e f : A) × (ys : List A) × (xs ≡ a ∷ b ∷ c ∷ d ∷ e ∷ f ∷ ys)
  at_least_six [] h = absurd (ground arith)
  at_least_six (a ∷ []) h = absurd (ground arith)
  at_least_six (a ∷ b ∷ []) h = absurd (ground arith)
  at_least_six (a ∷ b ∷ c ∷ []) h = absurd (ground arith)
  at_least_six (a ∷ b ∷ c ∷ d ∷ []) h = absurd (ground arith)
  at_least_six (a ∷ b ∷ c ∷ d ∷ e ∷ []) h = absurd (ground arith)
  at_least_six (a ∷ b ∷ c ∷ d ∷ e ∷ f ∷ ys) h = (a, b, c, d, e, f, ys, refl)

length-checksum_from : (bs : List ℕ) (a b : ℕ) → length (checksum_from a b bs) ≡ 2
unfolding checksum_from
length-checksum_from [] a b = refl
length-checksum_from (x ∷ xs) a b = length-checksum_from xs _ _

pub length-checksum : (bs : List ℕ) → length (checksum bs) ≡ 2
unfolding checksum
length-checksum bs = length-checksum_from bs 0 0
