-- ===== src/Scheduling/Stations/Greedy.antt =====
-- scheduling/greedy.py, GreedyScheduler.schedule_all_stations. `none` is a schedule_weighted that
-- does not return; an object identity, `id(p)`, is the row's primary key.
pub mod Best
use mathlib.Core.Option
use sda_system.Prelude.{ℕ, Bool, not, Option, none, some, List, [], ◌∷◌, ◌++◌, String, select, elem}
use sda_system.Models.{Stage, SatellitePass, GroundStation}
use sda_system.Scheduling.Weighted.{schedule_weighted}
use sda_system.Scheduling.Conflicts.{detect_conflicts}
use sda_system.Scheduling.Stations.{
  Run, Writes, start_run, extend, Outcome, finish, active_stations, candidates,
}

-- The keys of both passes of each pair.
bad_ids : List (SatellitePass × SatellitePass) → List ℕ
bad_ids [] = []
bad_ids ((a, p) ∷ pairs) = a.id ∷ p.id ∷ bad_ids pairs

-- Nothing is flushed before the commit at the end.
abbrev pub unflushed : Writes
unflushed selected table = table

drop_named : List SatellitePass → List (SatellitePass × SatellitePass) → List SatellitePass
drop_named selected [] = selected
drop_named selected (c ∷ cs) = select (λ p. not (elem p.id (bad_ids (c ∷ cs)))) selected

-- The defensive check before the marks.
unfoldable pub drop_conflicts : List SatellitePass → List SatellitePass
unfolding drop_named bad_ids
drop_conflicts selected = drop_named selected (detect_conflicts selected)

-- The body of the `for` over the stations, on the candidates that the query returned.
take_up : Run → List SatellitePass → Option Run
take_up run [] = some run
take_up run (c ∷ cs) =
    Option.map (λ selected. extend unflushed run (drop_conflicts selected))
      (schedule_weighted (c ∷ cs))

station_round : ℕ → ℕ → GroundStation → Run → Option Run
unfolding take_up
station_round start_time end_time station run =
    take_up run (candidates run.table station.station_id start_time end_time run.satellites)

stations_loop : ℕ → ℕ → List GroundStation → Run → Option Run
stations_loop start_time end_time [] run = some run
stations_loop start_time end_time (station ∷ rest) run =
    Option.bind (station_round start_time end_time station run)
      (stations_loop start_time end_time rest)

-- On the stations that the query returned: none, and nothing is committed.
run_stations : List SatellitePass → ℕ → ℕ → List GroundStation → Option Outcome
unfolding stations_loop station_round
run_stations db start_time end_time [] =
    some (record { all_scheduled = []; globally_scheduled = []; table = db })
run_stations db start_time end_time (s ∷ ss) =
    Option.map (finish Stage.greedy) (stations_loop start_time end_time (s ∷ ss) (start_run db))

unfoldable pub schedule_all_stations :
    (String → String → Bool) → List GroundStation → List SatellitePass → ℕ → ℕ → Option Outcome
unfolding run_stations
schedule_all_stations collate ground_stations db start_time end_time =
    run_stations db start_time end_time (active_stations collate ground_stations)
