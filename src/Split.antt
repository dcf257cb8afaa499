-- ===== src/Split.antt =====
-- PurgedGroupTimeSeriesSplit of ml/evaluation/cross_validation.py: time-ordered folds over event
-- windows, with purging and an embargo. Times and the embargo are numbers of microseconds; the
-- subtraction `test_start - embargo` is kept exact by moving the embargo to the other side.
pub mod Laws
use slope_monitoring.Common.{
  ℕ, zero, suc, ◌+◌, ◌*◌, ◌/◌, String, ◌≡◌, refl, Bool, List, [], ◌∷◌, ◌++◌, map, length, take,
  drop, ltb, leb, if◌then◌else◌,
}
use slope_monitoring.Errors.{Result, ok, err, value_error, require, ◌>>=◌, ◌>>◌}

pub record EventWindow : Type 0 where
  pub event_id : String
  pub start : ℕ
  pub end : ℕ

pub record Splitter : Type 0 where
  pub n_splits : ℕ
  pub embargo : ℕ

-- __init__
unfoldable pub new_splitter : ℕ → ℕ → Result Splitter
new_splitter n_splits embargo = do
  require (leb 2 n_splits) value_error
  ok (record { n_splits = n_splits; embargo = embargo })

-- sorted(events, key=lambda e: e.start), which is stable
unfoldable pub insert_event : EventWindow → List EventWindow → List EventWindow
insert_event e [] = e ∷ []
insert_event e (x ∷ xs) = if leb e.start x.start then e ∷ x ∷ xs else x ∷ insert_event e xs

unfoldable pub sort_events : List EventWindow → List EventWindow
unfolding insert_event
sort_events [] = []
sort_events (e ∷ es) = insert_event e (sort_events es)

-- [e for e in train_candidates if e.end <= test_start - embargo]
unfoldable pub purge : ℕ → ℕ → List EventWindow → List EventWindow
purge test_start embargo [] = []
purge test_start embargo (e ∷ es) =
    let rest = purge test_start embargo es in
    if leb (e.end + embargo) test_start then e ∷ rest else rest

pub record Fold : Type 0 where
  pub train : List EventWindow
  pub test : List EventWindow

add_fold : ℕ → List EventWindow → List EventWindow → List Fold → List Fold
add_fold embargo train [] folds = folds
add_fold embargo train (t ∷ ts) folds =
    record { train = purge t.start embargo train; test = t ∷ ts } ∷ folds

-- the rounds `for k in range(k, k + rounds)`
unfoldable pub folds_from : ℕ → List EventWindow → ℕ → ℕ → ℕ → List Fold
unfolding add_fold
folds_from embargo ordered size zero k = []
folds_from embargo ordered size (suc rounds) k =
    add_fold embargo (take (size * k) ordered) (take size (drop (size * k) ordered))
      (folds_from embargo ordered size rounds (suc k))

-- The folds with their events; `split` returns the ids of the events.
unfoldable pub folds : Splitter → List EventWindow → Result (List Fold)
folds s events = do
  let ordered = sort_events events
  let n = length ordered
  require (leb (s.n_splits + 1) n) value_error
  ok (folds_from s.embargo ordered (n / (s.n_splits + 1)) s.n_splits 1)

ids : List EventWindow → List String
ids es = map (λ e. e.event_id) es

unfoldable pub split : Splitter → List EventWindow → Result (List (List String × List String))
unfolding ids
split s events = do fs ← folds s events; ok (map (λ f. (ids f.train, ids f.test)) fs)
