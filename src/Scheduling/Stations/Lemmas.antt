-- ===== src/Scheduling/Stations/Lemmas.antt =====
-- Facts of the queries and of a round that selects nothing.
use mathlib.Core.List.Perm
use mathlib.Core.List.Pairwise
use mathlib.Core.List.{append-nil}
use mathlib.Core.HLevel.{¬_prop}
use sda_system.Prelude.{
  ℕ, ◌≡◌, ◌≢◌, sym, Bool, List, [], Pairwise, String, select-mem, select-sublist,
}
use sda_system.Prelude.Sorting.{sorted-perm}
use sda_system.Models.{SatellitePass, GroundStation}
use sda_system.Scheduling.Selection.{AllMeetChecks}
use sda_system.Scheduling.Stations.{Run, Writes, extend, active_stations, candidates}

pub extend-nil :
    (writes : Writes) (run : Run) → writes [] run.table ≡ run.table → extend writes run [] ≡ run
extend-nil writes run same = λ i. record {
  scheduled = append-nil run.scheduled i;
  satellites = append-nil run.satellites i;
  table = same i;
}

pub candidates-AllMeetChecks :
    (db : List SatellitePass) (station_id : String) (start_time end_time : ℕ) (satellites : List ℕ)
    → AllMeetChecks db
    → AllMeetChecks (candidates db station_id start_time end_time satellites)
unfolding candidates
candidates-AllMeetChecks db station_id start_time end_time satellites checks p m =
    checks p (select-mem _ db p m).0

-- `station_id` is a unique column of ground_stations.
abbrev pub DistinctKeys : List GroundStation → Type 0
DistinctKeys = Pairwise (λ (s t : GroundStation). s.station_id ≢ t.station_id)

pub active_stations-DistinctKeys :
    (collate : String → String → Bool) (stations : List GroundStation)
    → DistinctKeys stations
    → DistinctKeys (active_stations collate stations)
unfolding active_stations
active_stations-DistinctKeys collate stations d =
    Perm.pairwise (λ a b. ¬_prop) (λ a b ne e. ne (sym e)) (Perm.symm (sorted-perm _ _))
      (Pairwise.sublist (λ a b. ¬_prop) (select-sublist _ stations) d)
