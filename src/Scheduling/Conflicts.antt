-- ===== src/Scheduling/Conflicts.antt =====
-- scheduling/greedy.py, `_detect_conflicts`: a sweep over the passes by their rise. The heap of
-- (set_time, index, pass) is a list in that order; the source's heap holds the same entries, so
-- that it reports the same pairs, those of one pass in another order.
pub mod Pairs
pub mod Nothing
use sda_system.Prelude.{
  ℕ, Bool, true, false, List, [], ◌∷◌, ◌++◌, map, ltb, leb, length, if◌then◌else◌,
}
use sda_system.Prelude.Sorting.{sorted, by_key}
use sda_system.Models.{SatellitePass}

-- `key=lambda p: p.rise_time`
abbrev pub by_rise : SatellitePass → SatellitePass → Bool
by_rise = by_key (λ p. p.rise_time)

-- `while active and active[0][0] <= p.rise_time: heappop(active)`
expire : ℕ → List SatellitePass → List SatellitePass
expire rise [] = []
expire rise (a ∷ active) =
    let rest = expire rise active in if leb a.set_time rise then rest else a ∷ active

-- `heappush`: the new index is the largest, so it goes behind equal ends.
push : SatellitePass → List SatellitePass → List SatellitePass
push p [] = p ∷ []
push p (a ∷ active) = if leb a.set_time p.set_time then a ∷ push p active else p ∷ a ∷ active

sweep : List SatellitePass → List SatellitePass → List (SatellitePass × SatellitePass)
sweep active [] = []
sweep active (p ∷ ps) =
    let live = expire p.rise_time active in map (λ a. (a, p)) live ++ sweep (push p live) ps

unfoldable pub detect_conflicts : List SatellitePass → List (SatellitePass × SatellitePass)
unfolding expire push sweep
detect_conflicts passes = if ltb (length passes) 2 then [] else sweep [] (sorted by_rise passes)
