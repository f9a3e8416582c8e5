-- ===== src/Pipeline/Upsert.antt =====
-- workers/celery_app.py: `_bulk_upsert_passes`, and the loops of the task detect_passes. The row
-- that a pass becomes, the propagation of a row of `tles` and the detection are arguments; the
-- modules Propagation/Engine and Propagation/Detector have them, and Detect puts them together. The
-- rows are taken to meet the CHECK constraints; one that does not makes the statement raise, which
-- ends the attempt (Batch).
pub mod Keys
use text.Mathlib.Text.{◌==◌ as str_eq}
use sda_system.Prelude.{
  ℕ, ◌+◌, Bool, true, false, ◌&&◌, ◌||◌, Option, none, some, List, [], ◌∷◌, ◌++◌, map, length, ◌==◌,
  if◌then◌else◌,
}
use sda_system.Models.{SatellitePass, GroundStation}

-- The columns of the conflict target: norad_id, station_id, rise_time.
abbrev pub same_pass : SatellitePass → SatellitePass → Bool
same_pass p q =
    p.norad_id == q.norad_id && str_eq p.station_id q.station_id && p.rise_time == q.rise_time

unfoldable pub has_pass : SatellitePass → List SatellitePass → Bool
has_pass p [] = false
has_pass p (q ∷ qs) = same_pass q p || has_pass p qs

-- ON CONFLICT DO NOTHING, row by row.
unfoldable pub bulk_upsert_passes : (table rows : List SatellitePass) → List SatellitePass
bulk_upsert_passes table [] = table
bulk_upsert_passes table (p ∷ ps) =
    bulk_upsert_passes (if has_pass p table then table else table ++ p ∷ []) ps

module _ {T K D : Type 0} (row_of : T → GroundStation → D → SatellitePass) (track_of : T → Option K)
    (detect : K → GroundStation → Option (List D)) where
  -- The `for p in detected`, or the `continue` after an exception.
  unfoldable pub station_rows : T → GroundStation → Option (List D) → List SatellitePass
  station_rows tle station none = []
  station_rows tle station (some detected) = map (row_of tle station) detected

  -- `tle_rows`
  unfoldable pub tle_rows : T → K → List GroundStation → List SatellitePass
  tle_rows tle track [] = []
  tle_rows tle track (s ∷ ss) = station_rows tle s (detect track s) ++ tle_rows tle track ss

  -- One round of `for tle in tles`; `none` is a `continue`.
  unfoldable pub tle_round :
      List GroundStation → T → Option K → List SatellitePass × ℕ → List SatellitePass × ℕ
  tle_round stations tle none (table, total) = (table, total)
  tle_round stations tle (some track) (table, total) = (
    bulk_upsert_passes table (tle_rows tle track stations),
    total + length (tle_rows tle track stations),
  )

  -- The loop: the table it leaves, and `total_passes`.
  unfoldable pub detect_loop :
      List GroundStation → List T → List SatellitePass × ℕ → List SatellitePass × ℕ
  detect_loop stations [] s = s
  detect_loop stations (tle ∷ tles) s =
      detect_loop stations tles (tle_round stations tle (track_of tle) s)
