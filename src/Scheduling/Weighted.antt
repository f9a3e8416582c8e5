-- ===== src/Scheduling/Weighted.antt =====
-- scheduling/greedy.py, GreedyScheduler.schedule_weighted: weighted-interval scheduling by a table.
-- The source's `prev[i]` is an index or -1 and is only ever used as `prev[i] + 1`, so the model
-- holds `prev[i] + 1`. The backward `while` takes fuel, and `none` means that it ran out.
pub mod Table
pub mod Arrays
pub mod Walk
pub mod Optimal
use mathlib.Core.Option
use sda_system.Prelude.{
  ℕ, zero, suc, ◌+◌, ◌*◌, max, Bool, true, false, Option, none, some, List, [], ◌∷◌, map, length,
  get_or, set, replicate, ◌==◌,
}
use sda_system.Prelude.Sorting.{sorted}
use sda_system.Prelude.Bisect.{bisect_right}
use sda_system.Models.{SatellitePass}
use sda_system.Scheduling.Selection.{by_set}

-- `_benefit`
unfoldable pub benefit : SatellitePass → ℕ
benefit p = p.max_elevation * p.duration_seconds

-- `prev`, each entry one up.
unfoldable pub prev_next : List SatellitePass → List ℕ
unfolding bisect_right
prev_next ps =
    map
      (λ (p : SatellitePass). bisect_right (map (λ (q : SatellitePass). q.set_time) ps) p.rise_time)
      ps

-- The forward `for`: round `i` writes `dp[i + 1]`.
unfoldable pub fill : (benefits next : List ℕ) → (rounds i : ℕ) → List ℕ → List ℕ
fill benefits next zero i dp = dp
fill benefits next (suc rounds) i dp =
    let include = get_or benefits i 0 + get_or dp (get_or next i 0) 0 in
    let exclude = get_or dp i 0 in
    fill benefits next rounds (i + 1) (set dp (i + 1) (max include exclude))

unfoldable pub table : List SatellitePass → List ℕ
unfolding fill prev_next benefit
table ps = fill (map benefit ps) (prev_next ps) (length ps) 0 (replicate (length ps + 1) 0)

-- The backward `while i > 0`. Every index is in range, so `d` is never read.
pub walk :
    (d : SatellitePass) (ps : List SatellitePass) (dp next : List ℕ)
    → (fuel i : ℕ) → Option (List SatellitePass)
walk d ps dp next zero i = none
walk d ps dp next (suc fuel) zero = some []
walk d ps dp next (suc fuel) (suc i) = elim (get_or dp (suc i) 0 == get_or dp i 0) [
  | true ↦ walk d ps dp next fuel i
  | false ↦ Option.map (◌∷◌ (get_or ps i d)) (walk d ps dp next fuel (get_or next i 0))
]

reconstruct : List SatellitePass → Option (List SatellitePass)
unfolding walk table
reconstruct [] = some []
reconstruct (p ∷ ps) =
    let all = p ∷ ps in walk p all (table all) (prev_next all) (length all + 1) (length all)

unfoldable pub schedule_weighted : List SatellitePass → Option (List SatellitePass)
unfolding reconstruct
schedule_weighted passes = reconstruct (sorted by_set passes)
