-- ===== src/Scheduling/Heap.antt =====
-- scheduling/greedy.py, GreedyScheduler.schedule_heap and `_has_overlap`. A heap of
-- (-benefit, index, pass) pops its entries in ascending order, which is the stable order of
-- descending benefit; the model pops from the list in that order.
pub mod Neighbours
pub mod Refines
use sda_system.Prelude.{
  ℕ, zero, suc, Bool, true, false, not, ◌&&◌, ◌||◌, Option, none, some, List, [], ◌∷◌, ltb, ◌==◌,
  get_elem?,
}
use sda_system.Prelude.Bisect.{bisect}
use sda_system.Prelude.Sorting.{sorted, by_key_desc}
use sda_system.Models.{SatellitePass}
use sda_system.Scheduling.Intervals.{Interval, window}
use sda_system.Scheduling.Weighted.{benefit}

-- `<` on such pairs.
abbrev pub tuple_lt : Interval → Interval → Bool
tuple_lt a b = ltb a.start b.start || (a.start == b.start && ltb a.stop b.stop)

-- The test on one neighbour, if there is one.
abbrev pub hits : ℕ → ℕ → Option Interval → Bool
hits rise end none = false
hits rise end (some iv) = ltb iv.start end && ltb rise iv.stop

-- The neighbours at `pos - 1` and at `pos`.
abbrev pub hits_neighbour : ℕ → ℕ → List Interval → ℕ → Bool
hits_neighbour rise end intervals zero = hits rise end (get_elem? intervals zero)
hits_neighbour rise end intervals (suc pos) =
    hits rise end (get_elem? intervals pos) || hits rise end (get_elem? intervals (suc pos))

unfoldable pub has_overlap : ℕ → ℕ → List Interval → Bool
unfolding bisect
has_overlap rise end intervals =
    hits_neighbour rise end intervals
      (bisect (λ iv. tuple_lt iv (record { start = rise; stop = end })) intervals)

-- `bisect.insort`: behind the entries that are not greater.
unfoldable pub insort : List Interval → Interval → List Interval
insort [] x = x ∷ []
insort (y ∷ ys) x = elim (tuple_lt x y) [ true ↦ x ∷ y ∷ ys | false ↦ y ∷ insort ys x ]

-- The `while heap`.
heap_loop : List SatellitePass → List Interval → List SatellitePass
heap_loop [] committed = []
heap_loop (p ∷ heap) committed = elim (has_overlap p.rise_time p.set_time committed) [
  | true ↦ heap_loop heap committed
  | false ↦ p ∷ heap_loop heap (insort committed (window p))
]

unfoldable pub schedule_heap : List SatellitePass → List SatellitePass
unfolding heap_loop has_overlap insort
schedule_heap passes = heap_loop (sorted (by_key_desc benefit) passes) []
