-- ===== src/Tests/Slots.antt =====
-- The free slots and the marks on the sample.
use mathlib.Core.List.{not-mem-nil}
use mathlib.Core.HLevel.{×_prop}
use sda_system.Prelude.{
  ℕ, ◌≡◌, refl, arith, le_prop, not, ◌&&◌, List, [], ◌∷◌, ltb, leb, select, elem, forall-cons,
}
use sda_system.Prelude.Sorting.{sorted}
use sda_system.Models.{Stage, SatellitePass}
use sda_system.Scheduling.Intervals.{Interval, covers}
use sda_system.Scheduling.Selection.{AllMeetChecks}
use sda_system.Scheduling.Slots.{merge_intervals, get_free_slots, is_occupied}
use sda_system.Scheduling.Slots.Merge.{ProperBy, IsMerged, merge_intervals-IsUnion}
use sda_system.Scheduling.Slots.Free.{occupied, get_free_slots-covers}
use sda_system.Scheduling.Stations.{commit, candidates}
use sda_system.Scheduling.Stations.Marks.{is_unmarked, commit-candidates, commit-AllMeetChecks}
use sda_system.Tests.Sample.{middle, sample, sample-checks}

abbrev windows : List Interval
windows =
    record { start = 30; stop = 50 }
    ∷ record { start = 10; stop = 35 }
    ∷ record { start = 60; stop = 70 }
    ∷ []

merge_intervals-windows :
    merge_intervals windows
    ≡ record { start = 10; stop = 50 } ∷ record { start = 60; stop = 70 } ∷ []
unfolding merge_intervals sorted
merge_intervals-windows = refl

windows-ProperBy : ProperBy 100 windows
windows-ProperBy =
    forall-cons (λ iv. ×_prop le_prop le_prop) (omega arith)
      (forall-cons (λ iv. ×_prop le_prop le_prop) (omega arith)
        (forall-cons (λ iv. ×_prop le_prop le_prop) (omega arith) (λ iv m. absurd (not-mem-nil m))))

merge_intervals-IsUnion_example :
    ((t : ℕ) → covers (merge_intervals windows) t ≡ covers windows t)
    × IsMerged 100 (merge_intervals windows)
merge_intervals-IsUnion_example = merge_intervals-IsUnion 100 windows windows-ProperBy

abbrev booked : List SatellitePass
booked = commit Stage.greedy (middle ∷ []) sample

booked-checks : AllMeetChecks booked
booked-checks = commit-AllMeetChecks Stage.greedy (middle ∷ []) sample sample-checks

get_free_slots-booked :
    get_free_slots booked "GS-01" 0 100
    ≡ record { start = 0; stop = 20 } ∷ record { start = 50; stop = 100 } ∷ []
unfolding get_free_slots commit elem sorted select is_occupied merge_intervals
get_free_slots-booked = refl

get_free_slots-covers_example :
    covers (get_free_slots booked "GS-01" 0 100) 40
    ≡ ((leb 0 40 && ltb 40 100) && not (covers (occupied booked "GS-01" 0 100) 40))
get_free_slots-covers_example = get_free_slots-covers booked "GS-01" 0 100 40 booked-checks

commit-candidates_example :
    candidates (commit Stage.greedy (middle ∷ []) sample) "GS-01" 0 100 []
    ≡ select (is_unmarked (middle ∷ [])) (candidates sample "GS-01" 0 100 [])
commit-candidates_example = commit-candidates Stage.greedy (middle ∷ []) sample "GS-01" 0 100 []
