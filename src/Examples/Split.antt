-- ===== src/Examples/Split.antt =====
-- Four event windows, given out of order, split in two folds with an embargo.
use slope_monitoring.Common.{length, ◌/◌, ◌+◌, ◌<◌, ℕ, String, ◌≡◌, refl, List, [], ◌∷◌, All}
use slope_monitoring.Errors.{ok}
use slope_monitoring.Split.{EventWindow, Splitter, Fold, folds}
use slope_monitoring.Split.Laws
use slope_monitoring.Split.Laws.{IsPurged}
use slope_monitoring.Split.Laws.Sizes
use slope_monitoring.Split.Laws.Sizes.{HasSizes}

abbrev event : String → ℕ → ℕ → EventWindow
event k from to = record { event_id = k; start = from; end = to }

abbrev events : List EventWindow
events = event "c" 50 60 ∷ event "a" 0 10 ∷ event "d" 90 95 ∷ event "b" 20 70 ∷ []

abbrev splitter : Splitter
splitter = record { n_splits = 2; embargo = 5 }

abbrev expected : List Fold
expected =
    record { train = event "a" 0 10 ∷ []; test = event "b" 20 70 ∷ [] }
    ∷ record { train = event "a" 0 10 ∷ []; test = event "c" 50 60 ∷ [] }
    ∷ []

splits : folds splitter events ≡ ok expected
unfolding folds slope_monitoring.Split.sort_events slope_monitoring.Split.folds_from
    slope_monitoring.Split.purge
splits = refl

folds-IsPurged_example : All (IsPurged 5) expected
folds-IsPurged_example = Laws.folds-IsPurged splitter events splits

folds-HasSizes_example :
    HasSizes 2 (length events / (splitter.n_splits + 1)) expected
    × (0 < length events / (splitter.n_splits + 1))
folds-HasSizes_example = Sizes.folds-HasSizes splitter events splits
