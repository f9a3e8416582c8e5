-- ===== src/Scheduling/Slots.antt =====
-- scheduling/greedy.py, `_merge_intervals` and GreedyScheduler.get_free_slots. The instants stay
-- numbers: the source's ISO strings are read back by the task that receives them.
pub mod Merge
pub mod Free
use text.Mathlib.Text.{◌==◌ as str_eq}
use sda_system.Prelude.{
  ℕ, Bool, true, false, ◌&&◌, List, [], ◌∷◌, map, String, ltb, leb, max, if◌then◌else◌, select,
}
use sda_system.Prelude.Sorting.{sorted, by_key}
use sda_system.Models.{SatellitePass}
use sda_system.Scheduling.Intervals.{Interval, window}

-- `key=lambda iv: iv[0]`
abbrev pub by_start : Interval → Interval → Bool
by_start = by_key (λ iv. iv.start)

-- The `for`: `last` is `merged[-1]`.
merge_scan : Interval → List Interval → List Interval
merge_scan last [] = last ∷ []
merge_scan last (iv ∷ ivs) = elim (leb iv.start last.stop) [
  | true ↦ merge_scan (record last { stop = max last.stop iv.stop }) ivs
  | false ↦ last ∷ merge_scan iv ivs
]

merge_sorted : List Interval → List Interval
merge_sorted [] = []
merge_sorted (iv ∷ ivs) = merge_scan iv ivs

unfoldable pub merge_intervals : List Interval → List Interval
unfolding merge_scan merge_sorted
merge_intervals intervals = merge_sorted (sorted by_start intervals)

-- The loop over the occupied windows, and the last slot.
gaps : (end_time cursor : ℕ) → List Interval → List Interval
gaps end_time cursor [] =
    if ltb cursor end_time then record { start = cursor; stop = end_time } ∷ [] else []
gaps end_time cursor (occupied ∷ rest) =
    let later = gaps end_time (max cursor occupied.stop) rest in
    if ltb cursor occupied.start
    then record { start = cursor; stop = occupied.start } ∷ later
    else later

-- The query's filter.
unfoldable pub is_occupied : String → ℕ → ℕ → SatellitePass → Bool
is_occupied station_id start_time end_time p =
    str_eq p.station_id station_id
    && p.is_scheduled
    && leb start_time p.rise_time
    && leb p.set_time end_time

unfoldable pub get_free_slots : List SatellitePass → String → ℕ → ℕ → List Interval
unfolding gaps merge_intervals
get_free_slots db station_id start_time end_time =
    let scheduled =
      sorted (by_key (λ (p : SatellitePass). p.rise_time))
        (select (is_occupied station_id start_time end_time) db) in
    gaps end_time start_time (merge_intervals (map window scheduled))
