-- ===== src/Split/Laws.antt =====
-- No fold leaks: every training event ends an embargo before every test event starts, the events of
-- the training side come before those of the test side, and every fold has test events.
pub mod Sizes
use slope_monitoring.Common.{
  ℕ, zero, suc, ◌+◌, ◌*◌, ◌/◌, ◌≤◌, ◌≡◌, List, [], ◌∷◌, length, take, drop, leb, All, arith,
  Bool-cases, inl, inr,
}
use mathlib.Core.Path.{subst}
use slope_monitoring.Errors.{ok}
use slope_monitoring.Split.{
  EventWindow, Splitter, insert_event, sort_events, purge, Fold, add_fold, folds_from, folds,
}

-- every event of `xs` starts no later than every later one
abbrev pub IsOrdered : List EventWindow → Type 0
IsOrdered [] = Unit
IsOrdered (e ∷ es) = All (λ x. e.start ≤ x.start) es × IsOrdered es

insert_event-All :
    (n : ℕ) (e : EventWindow) (xs : List EventWindow)
    → n ≤ e.start
    → All (λ x. n ≤ x.start) xs
    → All (λ x. n ≤ x.start) (insert_event e xs)
unfolding insert_event
insert_event-All n e [] le h = (le, tt)
insert_event-All n e (x ∷ xs) le h = elim (Bool-cases (leb e.start x.start)) [
  | inl first ↦ rw first (le, h)
  | inr later ↦ rw later (h.0, insert_event-All n e xs le h.1)
]

All-weaken :
    (m n : ℕ) (xs : List EventWindow)
    → m ≤ n
    → All (λ x. n ≤ x.start) xs
    → All (λ x. m ≤ x.start) xs
All-weaken m n [] le h = tt
All-weaken m n (x ∷ xs) le h = (omega arith, All-weaken m n xs le h.1)

insert_event-IsOrdered :
    (e : EventWindow) (xs : List EventWindow) → IsOrdered xs → IsOrdered (insert_event e xs)
unfolding insert_event
insert_event-IsOrdered e [] h = (tt, tt)
insert_event-IsOrdered e (x ∷ xs) h = elim (Bool-cases (leb e.start x.start)) [
  | inl first ↦ rw first ((ground arith, All-weaken e.start x.start xs (ground arith) h.0), h)
  | inr later ↦
      rw later (insert_event-All x.start e xs (ground arith) h.0, insert_event-IsOrdered e xs h.1)
]

sort_events-IsOrdered : (es : List EventWindow) → IsOrdered (sort_events es)
unfolding sort_events
sort_events-IsOrdered [] = tt
sort_events-IsOrdered (e ∷ es) =
    insert_event-IsOrdered e (sort_events es) (sort_events-IsOrdered es)

-- Every pair of a training and a test event of the fold: the training event ends at least the
-- embargo before the test event starts.
abbrev pub IsPurged : ℕ → Fold → Type 0
IsPurged embargo f = All (λ e. All (λ t. e.end + embargo ≤ t.start) f.test) f.train

purge-All :
    (start embargo : ℕ) (test es : List EventWindow)
    → All (λ t. start ≤ t.start) test
    → All (λ e. All (λ t. e.end + embargo ≤ t.start) test) (purge start embargo es)
unfolding purge
purge-All start embargo test [] h = tt
purge-All start embargo test (e ∷ es) h = elim (Bool-cases (leb (e.end + embargo) start)) [
  | inl clear ↦
      rw clear (
        All-weaken (e.end + embargo) start test (ground arith) h,
        purge-All start embargo test es h,
      )
  | inr near ↦ rw near (purge-All start embargo test es h)
]

take-All :
    (n k : ℕ) (xs : List EventWindow)
    → All (λ x. k ≤ x.start) xs
    → All (λ x. k ≤ x.start) (take n xs)
take-All zero k xs h = tt
take-All (suc n) k [] h = tt
take-All (suc n) k (x ∷ xs) h = (h.0, take-All n k xs h.1)

take-IsOrdered : (n : ℕ) (xs : List EventWindow) → IsOrdered xs → IsOrdered (take n xs)
take-IsOrdered zero xs h = tt
take-IsOrdered (suc n) [] h = tt
take-IsOrdered (suc n) (x ∷ xs) h = (take-All n x.start xs h.0, take-IsOrdered n xs h.1)

drop-IsOrdered : (n : ℕ) (xs : List EventWindow) → IsOrdered xs → IsOrdered (drop n xs)
drop-IsOrdered zero xs h = h
drop-IsOrdered (suc n) [] h = tt
drop-IsOrdered (suc n) (x ∷ xs) h = drop-IsOrdered n xs h.1

add_fold-IsPurged :
    (embargo : ℕ) (train test : List EventWindow) (rest : List Fold)
    → IsOrdered test
    → All (IsPurged embargo) rest
    → All (IsPurged embargo) (add_fold embargo train test rest)
unfolding add_fold
add_fold-IsPurged embargo train [] rest h r = r
add_fold-IsPurged embargo train (t ∷ ts) rest h r =
    (purge-All t.start embargo (t ∷ ts) train (omega arith, h.0), r)

folds_from-IsPurged :
    (embargo : ℕ) (ordered : List EventWindow) (size rounds k : ℕ)
    → IsOrdered ordered
    → All (IsPurged embargo) (folds_from embargo ordered size rounds k)
unfolding folds_from
folds_from-IsPurged embargo ordered size zero k h = tt
folds_from-IsPurged embargo ordered size (suc rounds) k h =
    add_fold-IsPurged embargo (take (size * k) ordered) (take size (drop (size * k) ordered))
      (folds_from embargo ordered size rounds (suc k))
      (take-IsOrdered size (drop (size * k) ordered) (drop-IsOrdered (size * k) ordered h))
      (folds_from-IsPurged embargo ordered size rounds (suc k) h)

-- In every fold of every successful split, each training event ends at least the embargo before each
-- test event starts, in whatever order the events were given.
pub folds-IsPurged :
    (s : Splitter) (events : List EventWindow) {fs : List Fold}
    → folds s events ≡ ok fs
    → All (IsPurged s.embargo) fs
unfolding folds
folds-IsPurged s events {fs} h =
    let ordered = sort_events events in
    let size = length ordered / (s.n_splits + 1) in
    subst (All (IsPurged s.embargo)) (ground arith)
      (folds_from-IsPurged s.embargo ordered size s.n_splits 1 (sort_events-IsOrdered events))
