-- ===== src/Pipeline/Detect.antt =====
-- workers/celery_app.py, the body of the task detect_passes from its two queries on: the loops of
-- Upsert on SGP4Engine.propagate (Propagation/Engine) and PassDetector.detect_passes
-- (Propagation/Site). The columns of a row that are not read later, and the serial that the
-- database gives it, are a parameter (`Columns`).
pub mod Rows
pub mod Ordered
use sda_system.Prelude.{
  ℕ, Bool, true, false, not, ◌&&◌, Option, none, some, List, [], ◌∷◌, length, ltb, select,
  if◌then◌else◌, String,
}
use sda_system.Models.{SatellitePass, GroundStation}
use sda_system.Ingestion.Tle.{Line, Floats}
use sda_system.Propagation.Engine.{
  Orbit, PropagationResult, valid_positions, valid_times, is_usable, propagate,
}
use sda_system.Propagation.Samples.{Angles}
use sda_system.Propagation.Detector.{DetectedPass}
use sda_system.Propagation.Site.{Frames, detect_passes}
use sda_system.Pipeline.Upsert.{detect_loop}

-- A current row of `tles`.
pub record Elements : Type 0 where
  pub norad_id : ℕ
  pub line1 : Line
  pub line2 : Line

-- PROPAGATION_DAYS, PROPAGATION_STEP_SECONDS, MIN_PASS_DURATION_SECONDS (in microseconds).
pub record Settings : Type 0 where
  pub propagation_days : ℕ
  pub propagation_step : ℕ
  pub min_pass_duration : ℕ

-- What the database makes of a new row: its serial, and the elevation in the unit of the model.
pub record Columns (angles : Angles) : Type 0 where
  pub serial : (norad_id rise_time : ℕ) → (station_id : String) → ℕ
  pub elevation : angles.Angle → ℕ

module _ (floats : Floats) (orbit : Orbit) (angles : Angles) (frames : Frames angles orbit.Position)
    (columns : Columns angles) (settings : Settings) (start_time : ℕ) where
  -- One dict of `tle_rows`.
  abbrev pub row_of : Elements → GroundStation → DetectedPass angles → SatellitePass
  row_of tle station p = record {
    id = columns.serial tle.norad_id p.rise_time station.station_id;
    norad_id = tle.norad_id;
    station_id = station.station_id;
    rise_time = p.rise_time;
    set_time = p.set_time;
    duration_seconds = p.duration;
    max_elevation = columns.elevation p.max_elevation;
    is_scheduled = false;
    scheduled_by = none;
  }

  -- The three ways to `continue`.
  unfoldable pub usable_track : Option (PropagationResult orbit) → Option (PropagationResult orbit)
  usable_track none = none
  usable_track (some r) =
      if not (is_usable orbit r)
      then none
      else if ltb 0 (length (valid_positions orbit r))
      then some r
      else none

  abbrev pub track_of : Elements → Option (PropagationResult orbit)
  track_of tle = usable_track (
      propagate orbit floats tle.line1 tle.line2 tle.norad_id start_time settings.propagation_days
        settings.propagation_step)

  abbrev pub detect : PropagationResult orbit → GroundStation → Option (List (DetectedPass angles))
  detect r station =
      detect_passes angles orbit.Position frames settings.min_pass_duration
        settings.propagation_step station (valid_positions orbit r) (valid_times orbit r)

  -- The task on the rows of its two queries: the table it leaves, and `passes_detected`.
  unfoldable pub detect_active :
      List Elements → List GroundStation → List SatellitePass → List SatellitePass × ℕ
  detect_active tles [] table = (table, 0)
  detect_active tles (s ∷ ss) table = detect_loop row_of track_of detect (s ∷ ss) tles (table, 0)

  abbrev pub detect_passes_task :
      List Elements → List GroundStation → List SatellitePass → List SatellitePass × ℕ
  detect_passes_task tles stations table =
      detect_active tles (select (λ s. s.is_active) stations) table
