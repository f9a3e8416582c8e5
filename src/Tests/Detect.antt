-- ===== src/Tests/Detect.antt =====
-- One satellite over one of two stations, from a table with a row of another one.
use mathlib.Core.List.{mem-cons, mem-cons_self}
use mathlib.Core.Logic.Or
use mathlib.Core.Path.{subst}
use mathlib.Core.Logic.{◌∨₁◌}
use sda_system.Prelude.{none, sym, ℕ, ◌≡◌, refl, true, false, List, [], ◌∷◌, Mem, select}
use sda_system.Models.{SatellitePass}
use sda_system.Ingestion.Tle.{rstrip, lstrip}
use sda_system.Propagation.Engine.{
  propagate, propagate_checked, validate_tle_format, grid_from, error_codes_of, zeros, is_usable,
  result_of, mask_of, nan_filled, masked, count_true, any_decay,
}
use sda_system.Propagation.Samples.{interpolate_crossing, argmax_from, refine_max_elevation}
use sda_system.Propagation.Detector.{
  extract_passes, windows_loop, window_step, step_of, any_nan, rise_indices, set_indices,
  zip_indices,
}
use sda_system.Pipeline.Upsert.{
  detect_loop, tle_round, tle_rows, station_rows, bulk_upsert_passes, has_pass,
}
use sda_system.Propagation.Site.{Frames, FrameLaws, detect_passes}
use sda_system.Pipeline.Detect.{
  Elements, Settings, Columns, usable_track, detect_active, detect_passes_task,
}
use sda_system.Pipeline.Detect.Ordered.{IsDetected, detect_passes_task-IsDetected}
use sda_system.Tests.Sample.{early}
use sda_system.Tests.Stations.{stations}
use sda_system.Tests.Propagation.{ones, orbit, orbit-laws, line_of, degrees, degrees-laws}

-- The satellite is above the mask at every step.
abbrev frames : Frames degrees ℕ
frames = record {
  in_range = λ s. true;
  teme_to_ecef_batch = λ positions times. positions;
  elevations = λ s positions. positions;
  azimuth = λ s position. 0;
  elevation_mask = λ s. 1;
}

frames-laws : FrameLaws degrees ℕ frames
frames-laws s positions times = refl

abbrev columns : Columns degrees
columns = record { serial = λ norad_id rise_time station_id. rise_time; elevation = λ e. e }

abbrev settings : Settings
settings = record { propagation_days = 1; propagation_step = 43_200; min_pass_duration = 5_000_000 }

abbrev elements : List Elements
elements = record { norad_id = 25_544; line1 = line_of 49; line2 = line_of 50 } ∷ []

abbrev found : SatellitePass
found = record {
  id = 1;
  norad_id = 25_544;
  station_id = "GS-01";
  rise_time = 1;
  set_time = 86_400_000_001;
  duration_seconds = 86_400_000_000;
  max_elevation = 86_400_000_001;
  is_scheduled = false;
  scheduled_by = none;
}

one_found :
    (detect_passes_task ones orbit degrees frames columns settings 1 elements stations
      (early ∷ [])).0
    ≡ early ∷ found ∷ []
unfolding detect_active detect_loop tle_round tle_rows station_rows bulk_upsert_passes has_pass
    usable_track select detect_passes propagate propagate_checked validate_tle_format rstrip lstrip
    grid_from error_codes_of zeros is_usable result_of mask_of nan_filled masked count_true
    any_decay extract_passes windows_loop window_step interpolate_crossing step_of argmax_from
    refine_max_elevation any_nan rise_indices set_indices zip_indices
one_found = refl

detect_passes_task-IsDetected_example :
    Mem found (early ∷ [])
    ∨₁ IsDetected ones orbit orbit-laws degrees degrees-laws frames frames-laws columns settings 1
        elements
        (select (λ s. s.is_active) stations)
        found
detect_passes_task-IsDetected_example =
    detect_passes_task-IsDetected ones orbit orbit-laws degrees degrees-laws frames frames-laws
      columns settings 1 elements stations (early ∷ []) found
      (subst (Mem found) (sym one_found) (mem-cons.1 (Or.inr mem-cons_self)))
