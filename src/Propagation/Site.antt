-- ===== src/Propagation/Site.antt =====
-- propagation/pass_detector.py, PassDetector.detect_passes. What propagation/coordinates.py computes
-- for a station is a parameter (`Frames`).
use sda_system.Prelude.{
  ℕ, Bool, not, Option, none, some, List, [], length, ◌==◌, if◌then◌else◌, ◌≡◌,
}
use sda_system.Models.{GroundStation}
use sda_system.Propagation.Samples.{Angles}
use sda_system.Propagation.Detector.{DetectedPass, extract_passes}

-- Whether the coordinates of a station are in range; the positions in the frame of the Earth; the
-- elevations and azimuths from a station; and its elevation mask.
pub record Frames (angles : Angles) (P : Type 0) : Type 0 where
  pub in_range : GroundStation → Bool
  pub teme_to_ecef_batch : List P → (times : List ℕ) → List angles.Position
  pub elevations : GroundStation → List angles.Position → List angles.Angle
  pub azimuth : GroundStation → angles.Position → angles.Angle
  pub elevation_mask : GroundStation → angles.Angle

-- Each position has an elevation.
abbrev pub FrameLaws : (angles : Angles) (P : Type 0) → Frames angles P → Type 0
FrameLaws angles P frames =
    (station : GroundStation) (positions : List P) (times : List ℕ)
    → length (frames.elevations station (frames.teme_to_ecef_batch positions times))
      ≡ length positions

module _ (angles : Angles) (P : Type 0) (frames : Frames angles P) where
  -- detect_passes; `none` is its ValueError.
  unfoldable pub detect_passes :
      (min_duration default_step : ℕ) (station : GroundStation) (positions : List P)
      (times : List ℕ)
      → Option (List (DetectedPass angles))
  detect_passes min_duration default_step station positions times =
      let ecef = frames.teme_to_ecef_batch positions times in
      if length times == 0
      then some []
      else if not (length positions == length times)
      then none
      else if not (frames.in_range station)
      then none
      else some (
          extract_passes angles (frames.azimuth station) times (frames.elevations station ecef) ecef
            (frames.elevation_mask station) min_duration default_step)
