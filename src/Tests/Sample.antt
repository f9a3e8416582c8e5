-- ===== src/Tests/Sample.antt =====
-- Passes for the tests: two that overlap, and one after both.
use sda_system.Prelude.{ℕ, ◌-◌, false, none, List, [], ◌∷◌, arith}
use sda_system.Models.{SatellitePass}
use sda_system.Scheduling.Selection.{AllMeetChecks, AllMeetChecks-nil, AllMeetChecks-cons}

abbrev pub pass : ℕ → ℕ → ℕ → ℕ → SatellitePass
pass norad rise end elevation = record {
  id = norad;
  norad_id = norad;
  station_id = "GS-01";
  rise_time = rise;
  set_time = end;
  duration_seconds = end - rise;
  max_elevation = elevation;
  is_scheduled = false;
  scheduled_by = none;
}

abbrev pub early : SatellitePass
early = pass 1 10 30 40

abbrev pub middle : SatellitePass
middle = pass 2 20 50 60

abbrev pub late : SatellitePass
late = pass 3 50 70 30

abbrev pub sample : List SatellitePass
sample = middle ∷ late ∷ early ∷ []

pub sample-checks : AllMeetChecks sample
sample-checks = AllMeetChecks-cons middle _ (omega arith) (
    AllMeetChecks-cons late _ (omega arith)
      (AllMeetChecks-cons early _ (omega arith) AllMeetChecks-nil))
