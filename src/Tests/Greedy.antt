-- ===== src/Tests/Greedy.antt =====
-- Runs of the schedulers on the sample, and their theorems at it.
use sda_system.Prelude.{◌≡◌, Perm, refl, some, List, [], ◌∷◌}
use sda_system.Prelude.Sorting.{sorted}
use sda_system.Prelude.Bisect.{bisect_right}
use sda_system.Models.{SatellitePass}
use sda_system.Scheduling.Edf.{schedule_edf}
use sda_system.Scheduling.Weighted.{schedule_weighted, benefit}
use sda_system.Scheduling.Weighted.Optimal.{IsBest, schedule_weighted-IsBest}
use sda_system.Scheduling.Edf.Optimal.{IsLongest, schedule_edf-IsLongest}
use sda_system.Scheduling.Pick.Laws.{IsGreedy}
use sda_system.Scheduling.Heap.{schedule_heap}
use sda_system.Scheduling.Heap.Refines.{schedule_heap-IsGreedy}
use sda_system.Scheduling.Conflicts.{by_rise, detect_conflicts}
use sda_system.Scheduling.Conflicts.Pairs.{overlapping_pairs, detect_conflicts-perm}
use sda_system.Tests.Sample.{early, middle, late, sample, sample-checks}

schedule_edf-sample : schedule_edf sample ≡ early ∷ late ∷ []
unfolding schedule_edf sorted
schedule_edf-sample = refl

schedule_weighted-sample : schedule_weighted sample ≡ some (late ∷ middle ∷ [])
unfolding schedule_weighted sorted bisect_right benefit
schedule_weighted-sample = refl

schedule_weighted-IsBest_example :
    (result : List SatellitePass) × (schedule_weighted sample ≡ some result) × IsBest sample result
schedule_weighted-IsBest_example = schedule_weighted-IsBest sample sample-checks

schedule_edf-IsLongest_example : IsLongest sample (schedule_edf sample)
schedule_edf-IsLongest_example = schedule_edf-IsLongest sample sample-checks

schedule_heap-sample : schedule_heap sample ≡ middle ∷ late ∷ []
unfolding schedule_heap sorted benefit
schedule_heap-sample = refl

schedule_heap-IsGreedy_example : IsGreedy benefit sample (schedule_heap sample)
schedule_heap-IsGreedy_example = schedule_heap-IsGreedy sample sample-checks

detect_conflicts-perm_example :
    Perm (detect_conflicts sample) (overlapping_pairs [] (sorted by_rise sample))
detect_conflicts-perm_example = detect_conflicts-perm sample sample-checks
