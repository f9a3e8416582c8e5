-- ===== src/Propagation/Detector.antt =====
-- propagation/pass_detector.py: PassDetector._extract_passes over the helpers of Samples. Times are
-- microseconds since the epoch.
pub mod Edges
pub mod Crossings
pub mod Windows
use sda_system.Prelude.{
  ℕ, zero, suc, ◌+◌, ◌-◌, ◌*◌, ◌≤◌, ◌≡◌, min, Bool, true, false, not, ◌&&◌, ◌||◌, Option, none,
  some, List, [], ◌∷◌, map, length, ltb, leb, ◌==◌, get_or, slice, if◌then◌else◌,
}
use sda_system.Scheduling.Intervals.{Interval}
use sda_system.Propagation.Samples.{
  Angles, at, time_at, Crossing, interpolate_crossing, position_at, interpolated_ecef, argmax,
  refine_max_elevation,
}

-- `np.where(transitions == 1)`: the indices from i on where a sample is above and the one before is
-- not.
unfoldable pub rise_indices : (before : Bool) → (i : ℕ) → List Bool → List ℕ
rise_indices before i [] = []
rise_indices true i (b ∷ above) = rise_indices b (i + 1) above
rise_indices false i (true ∷ above) = i ∷ rise_indices true (i + 1) above
rise_indices false i (false ∷ above) = rise_indices false (i + 1) above

-- `np.where(transitions == -1)`; the appended 0 ends what is above at the last sample.
unfoldable pub set_indices : (before : Bool) → (i : ℕ) → List Bool → List ℕ
set_indices true i [] = i ∷ []
set_indices false i [] = []
set_indices false i (b ∷ above) = set_indices b (i + 1) above
set_indices true i (false ∷ above) = i ∷ set_indices false (i + 1) above
set_indices true i (true ∷ above) = set_indices true (i + 1) above

-- `zip(rise_indices, set_indices)`
unfoldable pub zip_indices : List ℕ → List ℕ → List Interval
zip_indices [] stops = []
zip_indices (r ∷ rs) [] = []
zip_indices (r ∷ rs) (s ∷ ss) = record { start = r; stop = s } ∷ zip_indices rs ss

abbrev pub index_pairs : List Bool → List Interval
index_pairs above = zip_indices (rise_indices false 0 above) (set_indices false 0 above)

module _ (angles : Angles) where
  open angles use {Angle, of_nat, nan_sentinel, ge, is_finite, seconds, Position}

  pub record DetectedPass : Type 0 where
    pub rise_time : ℕ
    pub set_time : ℕ
    pub duration : ℕ
    pub max_elevation : Angle
    pub max_elevation_time : ℕ
    pub azimuth_at_rise : Angle
    pub azimuth_at_set : Angle
    pub azimuth_at_max : Angle
    pub truncated_start : Bool
    pub truncated_end : Bool
    pub has_data_gap : Bool

  -- `elevations[nan_mask] = _NAN_SENTINEL`
  abbrev pub sanitised : List Angle → List Angle
  sanitised = map (λ e. if is_finite e then e else nan_sentinel)

  -- `nan_mask[…].any()`
  unfoldable pub any_nan : List Angle → Bool
  any_nan [] = false
  any_nan (e ∷ es) = not (is_finite e) || any_nan es

  -- The azimuths of a station (propagation/coordinates.py), the times, samples and positions, and
  -- the two limits.
  module _ (azimuth : Position → Angle) (times : List ℕ) (raw : List Angle)
      (positions : List Position) (mask : Angle) (min_duration : ℕ) (step_seconds : Angle) where
    abbrev pub elevations : List Angle
    elevations = sanitised raw

    -- The record of a window.
    abbrev pub pass_of : (rise_i set_i : ℕ) → (rise end : Crossing angles) → DetectedPass
    pass_of rise_i set_i rise end =
        let max_i = rise_i + argmax angles (slice rise_i set_i elevations) in
        let refined =
          refine_max_elevation angles elevations times max_i step_seconds (length times) in
        record {
          rise_time = rise.time;
          set_time = end.time;
          duration = end.time - rise.time;
          max_elevation = refined.0;
          max_elevation_time = refined.1;
          azimuth_at_rise = azimuth (interpolated_ecef angles positions rise);
          azimuth_at_set = azimuth (interpolated_ecef angles positions end);
          azimuth_at_max = azimuth (position_at angles positions max_i);
          truncated_start = rise_i == 0;
          truncated_end = set_i == length times;
          has_data_gap = any_nan (slice rise_i set_i raw);
        }

    -- The body of the `for`, on its way through the two `continue`s.
    unfoldable pub window_step :
        (rise_i set_i : ℕ) → (rise end : Crossing angles) → List DetectedPass → List DetectedPass
    window_step rise_i set_i rise end later =
        if leb end.time rise.time
        then later
        else if ltb (end.time - rise.time) min_duration
        then later
        else pass_of rise_i set_i rise end ∷ later

    unfoldable pub windows_loop : List Interval → List DetectedPass
    windows_loop [] = []
    windows_loop (w ∷ ws) =
        window_step w.start w.stop (interpolate_crossing angles times elevations w.start mask true)
          (interpolate_crossing angles times elevations (w.stop - 1) mask false) (windows_loop ws)

  -- `step_seconds`: between the first two times, or PROPAGATION_STEP_SECONDS.
  unfoldable pub step_of : (default_step : ℕ) → List ℕ → Angle
  step_of default_step (t ∷ u ∷ times) = seconds (u - t)
  step_of default_step [] = of_nat default_step
  step_of default_step (t ∷ []) = of_nat default_step

  -- PassDetector._extract_passes
  unfoldable pub extract_passes :
      (azimuth : Position → Angle) (times : List ℕ) (raw : List Angle) (positions : List Position)
      (mask : Angle) (min_duration default_step : ℕ)
      → List DetectedPass
  extract_passes azimuth times raw positions mask min_duration default_step =
      windows_loop azimuth times raw positions mask min_duration (step_of default_step times)
        (index_pairs (map (λ e. ge e mask) (sanitised raw)))
