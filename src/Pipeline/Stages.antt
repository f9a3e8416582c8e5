-- ===== src/Pipeline/Stages.antt =====
-- workers/celery_app.py: run_greedy, what it hands over, and run_ortools. A dict by station is the
-- list of its items; the ISO strings of the slots are the instants that run_ortools reads back.
-- `none` is a schedule_all_stations that does not return.
pub mod Apart
use mathlib.Core.Option
use sda_system.Prelude.{ℕ, Bool, Option, none, some, List, [], ◌∷◌, map, String, select}
use sda_system.Models.{SatellitePass, GroundStation}
use sda_system.Scheduling.Intervals.{Interval}
use sda_system.Scheduling.Slots.{get_free_slots}
use sda_system.Scheduling.Stations.{Outcome}
use sda_system.Scheduling.Stations.Greedy.{schedule_all_stations}
use sda_system.Scheduling.Optimizer.{Program, Plan, optimize_remaining}

-- The arguments of `run_ortools.delay`, and the table as run_greedy leaves it.
pub record Handover : Type 0 where
  pub scheduled_sats : List ℕ
  pub free_slots : List (String × List Interval)
  pub table : List SatellitePass

-- The dict comprehension over the active stations, in both tasks.
unfoldable pub slots_by_station :
    List SatellitePass
    → (start_time end_time : ℕ) → List GroundStation
    → List (String × List Interval)
slots_by_station table start_time end_time [] = []
slots_by_station table start_time end_time (s ∷ ss) =
    (s.station_id, get_free_slots table s.station_id start_time end_time)
    ∷ slots_by_station table start_time end_time ss

abbrev pub active : List GroundStation → List GroundStation
active = select (λ s. s.is_active)

abbrev pub hand_over : List GroundStation → (start_time end_time : ℕ) → Outcome → Handover
hand_over stations start_time end_time out = record {
  scheduled_sats = out.globally_scheduled;
  free_slots = slots_by_station out.table start_time end_time (active stations);
  table = out.table;
}

-- run_greedy
unfoldable pub run_greedy :
    (collate : String → String → Bool)
    → List GroundStation
    → List SatellitePass
    → (start_time end_time : ℕ) → Option Handover
run_greedy collate stations db start_time end_time =
    Option.map (hand_over stations start_time end_time)
      (schedule_all_stations collate stations db start_time end_time)

-- `if not parsed_slots`
unfoldable pub slots_or_computed :
    List GroundStation
    → List SatellitePass
    → (start_time end_time : ℕ) → List (String × List Interval)
    → List (String × List Interval)
slots_or_computed stations table start_time end_time [] =
    slots_by_station table start_time end_time (active stations)
slots_or_computed stations table start_time end_time (s ∷ ss) = s ∷ ss

-- `if not scheduled_sats`: the satellites of the scheduled rows, of which only membership is read.
unfoldable pub sats_or_computed : List SatellitePass → List ℕ → List ℕ
sats_or_computed table [] =
    map (λ (p : SatellitePass). p.norad_id) (select (λ p. p.is_scheduled) table)
sats_or_computed table (n ∷ ns) = n ∷ ns

-- run_ortools, on the table as it finds it.
unfoldable pub run_ortools :
    (solver : Program → Option (List Bool)) (row_order : SatellitePass → SatellitePass → Bool)
    → List GroundStation
    → List SatellitePass
    → (start_time end_time : ℕ) → (scheduled_sats : List ℕ)
    → (free_slots : List (String × List Interval)) → Plan
run_ortools solver row_order stations table start_time end_time scheduled_sats free_slots =
    optimize_remaining solver row_order table (sats_or_computed table scheduled_sats) start_time
      end_time (slots_or_computed stations table start_time end_time free_slots)
