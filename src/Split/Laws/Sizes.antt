-- ===== src/Split/Laws/Sizes.antt =====
-- How many folds a split has, and how large their tests are.
use slope_monitoring.Common.{
  ℕ, zero, suc, ◌+◌, ◌*◌, ◌/◌, ◌≤◌, ◌<◌, ◌≡◌, refl, ap, ◌∙◌, List, [], ◌∷◌, length, length-take,
  length-drop, take, drop, leb, All, arith,
}
use mathlib.Core.Path.{subst}
use native.Mathlib.Nat.{le-div_iff_mul-le, div-mul-le_self}
use slope_monitoring.Errors.{ok, value_error, require, then-ok, ok-injective}
use slope_monitoring.Split.{
  EventWindow, Splitter, Fold, insert_event, sort_events, add_fold, folds_from, folds,
}

length-insert_event :
    (e : EventWindow) (xs : List EventWindow) → length (insert_event e xs) ≡ suc (length xs)
unfolding insert_event
length-insert_event e [] = refl
length-insert_event e (x ∷ xs) = ground (arith, length-insert_event e xs)

length-sort_events : (es : List EventWindow) → length (sort_events es) ≡ length es
unfolding sort_events
length-sort_events [] = refl
length-sort_events (e ∷ es) =
    length-insert_event e (sort_events es) ∙ ap suc (length-sort_events es)

-- `rounds` folds with tests of `size` events each
abbrev pub HasSizes : ℕ → ℕ → List Fold → Type 0
HasSizes rounds size fs = (length fs ≡ rounds) × All (λ f. length f.test ≡ size) fs

add_fold-HasSizes :
    (embargo : ℕ) (train test : List EventWindow) (fs : List Fold) (rounds size : ℕ)
    → 0 < size
    → length test ≡ size
    → HasSizes rounds size fs
    → HasSizes (suc rounds) size (add_fold embargo train test fs)
unfolding add_fold
add_fold-HasSizes embargo train [] fs rounds size p e h = absurd (omega (arith, e))
add_fold-HasSizes embargo train (t ∷ ts) fs rounds size p e h = (ap suc h.0, (e, h.1))

folds_from-HasSizes :
    (embargo : ℕ) (ordered : List EventWindow) (size rounds k : ℕ)
    → 0 < size
    → size * k + size * rounds ≤ length ordered
    → HasSizes rounds size (folds_from embargo ordered size rounds k)
unfolding folds_from
folds_from-HasSizes embargo ordered size zero k p h = (refl, tt)
folds_from-HasSizes embargo ordered size (suc rounds) k p h =
    add_fold-HasSizes embargo _ (take size (drop (size * k) ordered)) _ rounds size p
      (omega (arith, length-take size (drop (size * k) ordered), length-drop (size * k) ordered))
      (folds_from-HasSizes embargo ordered size rounds (suc k) p (omega arith))

-- A split that succeeds has exactly `n_splits` folds, and each of them tests on the same number of
-- events, at least one: the number of events divided by `n_splits` + 1.
pub folds-HasSizes :
    (s : Splitter) (events : List EventWindow) {fs : List Fold}
    → folds s events ≡ ok fs
    → HasSizes s.n_splits (length events / (s.n_splits + 1)) fs
      × (0 < length events / (s.n_splits + 1))
unfolding folds
folds-HasSizes s events {fs} h =
    let ordered = sort_events events in
    let n = length ordered in
    let (enough, made) = then-ok (require (leb (s.n_splits + 1) n) value_error) h in
    let bound : s.n_splits + 1 ≤ n = ground arith in
    let size = n / (s.n_splits + 1) in
    let some_event : 0 < size =
      (le-div_iff_mul-le {k = s.n_splits + 1} {x = 1} {y = n} (omega arith)).1 (omega arith) in
    let fits : size * 1 + size * s.n_splits ≤ n =
      grind (arith, div-mul-le_self n (s.n_splits + 1)) in
    subst (λ k. HasSizes s.n_splits (k / (s.n_splits + 1)) fs × (0 < k / (s.n_splits + 1)))
      (length-sort_events events)
      (
        subst (HasSizes s.n_splits size) (ok-injective made)
            (folds_from-HasSizes s.embargo ordered size s.n_splits 1 some_event fits),
        some_event,
      )
