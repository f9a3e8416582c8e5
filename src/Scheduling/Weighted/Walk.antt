-- ===== src/Scheduling/Weighted/Walk.antt =====
-- The backward walk over the table: it ends, and it collects the best total.
use sda_system.Prelude.{
  ℕ, zero, suc, ◌≤◌, ◌<◌, ◌≡◌, ◌≢◌, refl, sym, ◌∙◌, ==_iff, inl, inr, some, List, [], ◌∷◌, map,
  length, get_or, sum_by, arith, ◌==◌, Bool-cases, true, false,
}
use sda_system.Models.{SatellitePass}
use sda_system.Scheduling.Weighted.{benefit, walk}
use sda_system.Scheduling.Weighted.Table.{IsTable}

-- Positions below `bound`, each below the entry that `next_of` has for the one before it.
abbrev pub Descends : (ℕ → ℕ) → ℕ → List ℕ → Type 0
Descends next_of bound [] = Unit {0}
Descends next_of bound (j ∷ js) = (j < bound) × Descends next_of (next_of j) js

Descends-mono :
    (next_of : ℕ → ℕ) (a b : ℕ) (js : List ℕ)
    → a ≤ b
    → Descends next_of a js
    → Descends next_of b js
Descends-mono next_of a b [] h c = tt
Descends-mono next_of a b (j ∷ js) h c = (omega arith, c.1)

module _ (d : SatellitePass) (ps : List SatellitePass) (dp next : List ℕ) where
  -- What a finished walk from `i` has collected.
  pub record Collected (fuel i : ℕ) : Type 0 where
    pub positions : List ℕ
    pub result : walk d ps dp next fuel i ≡ some (map (λ j. get_or ps j d) positions)
    pub descends : Descends (λ j. get_or next j 0) i positions
    pub total : sum_by (λ j. benefit (get_or ps j d)) positions ≡ get_or dp i 0

  module _
      (t : IsTable
        (length ps)
        (λ j. benefit (get_or ps j d))
        (λ j. get_or next j 0)
        (λ j. get_or dp j 0)) where
    Collected-skip :
        (fuel i : ℕ)
        → (get_or dp (suc i) 0 == get_or dp i 0) ≡ true
        → Collected fuel i
        → Collected (suc fuel) (suc i)
    unfolding walk
    Collected-skip fuel i same c = record {
      positions = c.positions;
      result = rw (same, walk) c.result;
      descends = Descends-mono _ i (suc i) c.positions (omega arith) c.descends;
      total = c.total ∙ sym ((==_iff _ _).0 same);
    }

    Collected-take :
        (fuel i : ℕ)
        → i < length ps
        → (get_or dp (suc i) 0 == get_or dp i 0) ≡ false
        → Collected fuel (get_or next i 0)
        → Collected (suc fuel) (suc i)
    unfolding walk
    Collected-take fuel i h differ c = record {
      positions = i ∷ c.positions;
      result = rw (differ, walk, c.result);
      descends = (omega arith, c.descends);
      total =
          let changed : get_or dp (suc i) 0 ≢ get_or dp i 0 = (λ e. cc ((==_iff _ _).1 e)) in
          omega (arith, t.step i h, c.total);
    }

    pub walk_collects : (fuel i : ℕ) → i < fuel → i ≤ length ps → Collected fuel i
    unfolding walk
    walk_collects zero i h hi = elim h [ ]
    walk_collects (suc fuel) zero h hi = record {
      positions = [];
      result = refl;
      descends = tt;
      total = sym t.base;
    }
    walk_collects (suc fuel) (suc i) h hi =
        elim (Bool-cases (get_or dp (suc i) 0 == get_or dp i 0)) [
          | inl same ↦ Collected-skip fuel i same (walk_collects fuel i (omega arith) (omega arith))
          | inr differ ↦ Collected-take fuel i (omega arith) differ (
              walk_collects fuel (get_or next i 0) (omega (arith, t.below i (omega arith)))
                (omega (arith, t.below i (omega arith))))
        ]
