-- ===== src/Tests/Passes.antt =====
-- Requests for passes: two pages, an entry of another window, a schedule and the coverage.
use mathlib.Core.List.Pairwise
use sda_system.Http.{ok}
use sda_system.Prelude.{
  ℕ, ◌+◌, ◌-◌, ◌/◌, ◌*◌, ◌==◌, if◌then◌else◌, ◌≤◌, ◌<◌, ◌≡◌, ◌↔◌, refl, true, not, Option, none,
  some, List, [], ◌∷◌, map, select, length, elem, Mem, sum_by,
}
use sda_system.Prelude.Sorting.{sorted, sorted-perm}
use sda_system.Models.{SatellitePass, greedy}
use sda_system.Passes.{
  query_all, PassResponse, PassQuery, from_cache, page_of, is_asked_for, get_passes, day,
}
use sda_system.Passes.Ordered.{by_rise}
use sda_system.Passes.Pages.{rows}
use sda_system.Passes.Schedule.{get_schedule, is_on_date, schedule_of, get_schedule-rows}
use sda_system.Passes.Coverage.{distinct, is_scheduled, StationUtilization, Percents, get_coverage}
use sda_system.Passes.Coverage.Counts.{get_coverage-counts}
use sda_system.Tests.Sample.{sample, middle, late}

abbrev in_order : List SatellitePass → List SatellitePass
in_order = sorted by_rise

abbrev each_time : ℕ → List SatellitePass → List SatellitePass
each_time n = in_order

-- Two rows to a page.
abbrev asked : PassQuery
asked = record {
  station_id = some "GS-01";
  satellite_id = none;
  start_time = some 0;
  end_time = some 100;
  page = 1;
  page_size = 2;
}

abbrev clock : ℕ → ℕ
clock n = n

-- The second page finds what the first one wrote.
abbrev found : ℕ → Option (List PassResponse)
found n = if n == 2 then some (query_all in_order sample 0 asked) else none

-- An entry that a query for a longer window wrote is served to one for a shorter window.
abbrev shorter : PassQuery
shorter = record asked { end_time = some 40 }

other_window :
    get_passes in_order in_order sample true (some (query_all in_order sample 0 asked)) 0 shorter
    ≡ ok (record { page = page_of 1 2 (query_all in_order sample 0 asked); write_back = none })
unfolding get_passes from_cache sorted select is_asked_for
other_window = refl

-- A pass that sets on the day after.
abbrev overnight : SatellitePass
overnight = record late {
  rise_time = day - 5;
  set_time = day + 5;
  is_scheduled = true;
  scheduled_by = some greedy;
}

overnight_missing :
    ((get_schedule in_order (overnight ∷ []) "GS-01" 0).scheduled_passes ≡ 0)
    × ((get_schedule in_order (overnight ∷ []) "GS-01" 1).scheduled_passes ≡ 0)
unfolding get_schedule select sorted is_on_date
overnight_missing = (refl, refl)

abbrev booked : List SatellitePass
booked = record middle { is_scheduled = true; scheduled_by = some greedy } ∷ late ∷ []

get_schedule-rows_example :
    (rows : List SatellitePass) × (get_schedule in_order booked "GS-01" 0
      ≡ schedule_of "GS-01" 0 rows)
    × ((p : SatellitePass)
        → p.rise_time < p.set_time
        → Mem p rows ↔ (
            Mem p booked
            × (p.station_id ≡ "GS-01")
            × (p.is_scheduled ≡ true)
            × (p.rise_time / day ≡ 0)
            × (p.set_time ≤ (p.rise_time / day) * day + day)))
get_schedule-rows_example = get_schedule-rows in_order (λ l. sorted-perm by_rise l) booked "GS-01" 0

abbrev tenths : Percents ℕ
tenths = record {
  zero_pct = 0;
  percent = λ part total. part * 1000 / total;
  difference = λ a b total. (a - b) * 1000 / total;
}

get_coverage-counts_example :
    let c = get_coverage ℕ tenths (λ s. s) [] booked in
    let norad_id : SatellitePass → ℕ = λ p. p.norad_id in
    (c.unscheduled_count
      ≡ length (
          select
            (λ n. not (elem n (map norad_id (select is_scheduled booked))))
            (distinct (map norad_id booked))))
    × (c.total_scheduled + c.unscheduled_count ≡ c.total_visible_satellites)
    × (sum_by (λ (s : StationUtilization ℕ). s.total_passes_visible) c.station_utilization
        ≡ length booked)
    × (sum_by (λ (s : StationUtilization ℕ). s.scheduled_passes) c.station_utilization
        ≡ length (select is_scheduled booked))
get_coverage-counts_example = get_coverage-counts ℕ tenths (λ s. s) [] booked
