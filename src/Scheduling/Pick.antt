-- ===== src/Scheduling/Pick.antt =====
-- What both benefit-first schedulers promise: go through the passes in order, and take each one
-- that overlaps none of those taken before.
pub mod Laws
use sda_system.Prelude.{ℕ, Bool, true, false, ◌&&◌, ◌||◌, List, [], ◌∷◌, ltb}
use sda_system.Models.{SatellitePass}

-- [rise, end) meets the pass.
abbrev pub meets : ℕ → ℕ → SatellitePass → Bool
meets rise end q = ltb q.rise_time end && ltb rise q.set_time

unfoldable pub clashes : ℕ → ℕ → List SatellitePass → Bool
clashes rise end [] = false
clashes rise end (q ∷ qs) = meets rise end q || clashes rise end qs

unfoldable pub pick : List SatellitePass → List SatellitePass → List SatellitePass
unfolding clashes
pick taken [] = []
pick taken (p ∷ ps) = elim (clashes p.rise_time p.set_time taken) [
  | true ↦ pick taken ps
  | false ↦ p ∷ pick (p ∷ taken) ps
]
