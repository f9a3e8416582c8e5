-- ===== src/Scheduling/Weighted/Table.antt =====
-- The table that the forward loop of schedule_weighted leaves behind.
use mathlib.Core.Path.{subst, subst⁻¹}
use native.Mathlib.Decide.{dec_lt}
use native.Mathlib.Nat.{add-zero}
use sda_system.Prelude.{
  ℕ, zero, suc, ◌+◌, ◌≤◌, ◌<◌, max, ◌≡◌, refl, ◌∙◌, ap, ◌-◌, List, length, get_or, set, arith,
  get_or-set_self, get_or-set_ne, length-set,
}
use sda_system.Scheduling.Weighted.{fill}

module _ (benefits next : List ℕ) where
  -- A round writes above the entries that it reads.
  pub fill_keeps :
      (rounds i : ℕ) (dp : List ℕ) (j : ℕ)
      → j ≤ i
      → get_or (fill benefits next rounds i dp) j 0 ≡ get_or dp j 0
  unfolding fill
  fill_keeps zero i dp j h = refl
  fill_keeps (suc rounds) i dp j h =
      fill_keeps rounds (i + 1) _ j (omega arith) ∙ get_or-set_ne dp (i + 1) j _ 0 (omega arith)

  -- The entry that a round writes, in the final table.
  fill_first :
      (rounds i : ℕ) (dp : List ℕ)
      → length dp ≡ i + suc rounds + 1
      → get_or next i 0 ≤ i
      → let final = fill benefits next (suc rounds) i dp in
        get_or final (i + 1) 0
        ≡ max (get_or benefits i 0 + get_or final (get_or next i 0) 0) (get_or final i 0)
  unfolding fill
  fill_first rounds i dp len below =
      let value = max (get_or benefits i 0 + get_or dp (get_or next i 0) 0) (get_or dp i 0) in
      let dp' = set dp (i + 1) value in
      omega (
        arith,
        fill_keeps rounds (i + 1) dp' (i + 1) (omega arith),
        fill_keeps rounds (i + 1) dp' i (omega arith),
        fill_keeps rounds (i + 1) dp' (get_or next i 0) (omega arith),
        get_or-set_self dp (i + 1) value 0 (omega arith),
        get_or-set_ne dp (i + 1) i value 0 (omega arith),
        get_or-set_ne dp (i + 1) (get_or next i 0) value 0 (omega arith),
      )

  -- What the loop leaves at `j + 1` is what the recurrence says of the final table.
  pub fill_step :
      (rounds i : ℕ) (dp : List ℕ)
      → length dp ≡ i + rounds + 1
      → (j : ℕ) → i ≤ j
      → j < i + rounds
      → get_or next j 0 ≤ j
      → let final = fill benefits next rounds i dp in
        get_or final (j + 1) 0
        ≡ max (get_or benefits j 0 + get_or final (get_or next j 0) 0) (get_or final j 0)
  unfolding fill
  fill_step zero i dp len j lo hi below = absurd (omega arith)
  fill_step (suc rounds) i dp len j lo hi below = elim (dec_lt i j) [
    | yes h ↦
        fill_step rounds (i + 1) _ (length-set dp (i + 1) _ ∙ omega arith) j (omega arith)
          (omega arith) below
    | no h ↦
        let same : j ≡ i = omega arith in
        let below' : get_or next i 0 ≤ i = subst (λ k. get_or next k 0 ≤ k) same below in
        subst⁻¹
          (λ k.
            let final = fill benefits next (suc rounds) i dp in
            get_or final (k + 1) 0
            ≡ max (get_or benefits k 0 + get_or final (get_or next k 0) 0) (get_or final k 0))
          same (fill_first rounds i dp len below')
  ]

-- The recurrence that the table solves, over its three arrays.
pub record IsTable (n : ℕ) (benefit_of next_of best : ℕ → ℕ) : Type 0 where
  pub base : best 0 ≡ 0
  pub below : (j : ℕ) → j < n → next_of j ≤ j
  pub step : (j : ℕ) → j < n → best (suc j) ≡ max (benefit_of j + best (next_of j)) (best j)

module _ {n : ℕ} {benefit_of next_of best : ℕ → ℕ} (t : IsTable n benefit_of next_of best) where
  best_grows : (i k : ℕ) → i + k ≤ n → best i ≤ best (i + k)
  best_grows i zero h = rw add-zero (omega arith)
  best_grows i (suc k) h =
      let later : best (i + suc k) ≡ best (suc (i + k)) = ap best (omega arith) in
      omega (arith, best_grows i k (omega arith), t.step (i + k) (omega arith), later)

  pub best_mono : (i k : ℕ) → i ≤ k → k ≤ n → best i ≤ best k
  best_mono i k h hk =
      let e : best k ≡ best (i + (k - i)) = ap best (omega arith) in
      omega (arith, best_grows i (k - i) (omega arith))
