-- ===== src/Scheduling/Edf.antt =====
-- scheduling/greedy.py, GreedyScheduler.schedule_edf: earliest deadline first.
pub mod Optimal
use sda_system.Prelude.{ℕ, true, false, List, [], ◌∷◌, leb}
use sda_system.Prelude.Sorting.{sorted}
use sda_system.Models.{SatellitePass}
use sda_system.Scheduling.Selection.{by_set}

-- `_EPOCH_MIN`: times are counted from it.
abbrev epoch_min : ℕ
epoch_min = 0

-- The `for`: `last_end` is the end of the last pass accepted.
edf_scan : ℕ → List SatellitePass → List SatellitePass
edf_scan last_end [] = []
edf_scan last_end (p ∷ ps) = elim (leb last_end p.rise_time) [
  | true ↦ p ∷ edf_scan p.set_time ps
  | false ↦ edf_scan last_end ps
]

unfoldable pub schedule_edf : List SatellitePass → List SatellitePass
unfolding edf_scan
schedule_edf passes = edf_scan epoch_min (sorted by_set passes)
