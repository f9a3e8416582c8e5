-- ===== src/Pipeline/Batch/Taken.antt =====
-- Taking a task out of those that are pending, and the attempts that it has left.
use sda_system.Prelude.{
  ℕ, zero, suc, ◌+◌, ◌-◌, min, ◌≤◌, ◌≡◌, refl, ap, true, Option, none, some, List, [], ◌∷◌, length,
  ltb, sum_by, arith,
}
use sda_system.Pipeline.Batch.{take_out, max_retries}

-- The attempts that a task has left at the most.
unfoldable pub weight : ℕ → ℕ
weight retries = 4 - min retries 3

pub weight_pos : (r : ℕ) → 1 ≤ weight r
unfolding weight
weight_pos r = ground arith

pub weight-suc : (r : ℕ) → ltb r max_retries ≡ true → weight (suc r) + 1 ≡ weight r
unfolding weight
weight-suc r h = ground arith

-- What is taken out, and what is left.
abbrev pub IsTakenFrom : List ℕ → ℕ → List ℕ → Type 0
IsTakenFrom xs y ys = (length xs ≡ length ys + 1) × (sum_by weight xs ≡ weight y + sum_by weight ys)

pub take_out-IsTakenFrom :
    (xs : List ℕ) (i y : ℕ) (ys : List ℕ) → take_out xs i ≡ some (y, ys) → IsTakenFrom xs y ys
unfolding take_out
take_out-IsTakenFrom [] i y ys e = absurd (cc)
take_out-IsTakenFrom (x ∷ xs) zero y ys e =
    let head : x ≡ y = cc in
    let rest : xs ≡ ys = cc in
    (omega (arith, ap length rest), omega (arith, ap weight head, ap (sum_by weight) rest))
take_out-IsTakenFrom (x ∷ xs) (suc i) y ys e =
    by_rest (take_out xs i) (λ z zs h. take_out-IsTakenFrom xs i z zs h) e
  where
    by_rest :
        (o : Option (ℕ × List ℕ))
        → ((z : ℕ) (zs : List ℕ) → o ≡ some (z, zs) → IsTakenFrom xs z zs)
        → (elim o as (λ u. Option (ℕ × List ℕ)) [ none ↦ none | some (z, zs) ↦ some (z, x ∷ zs) ])
          ≡ some (y, ys)
        → IsTakenFrom (x ∷ xs) y ys
    by_rest none ih k = absurd (cc)
    by_rest (some (z, zs)) ih k =
        let (size, total) = ih z zs refl in
        let head : z ≡ y = cc in
        let rest : x ∷ zs ≡ ys = cc in
        (
          omega (arith, size, ap length rest),
          omega (arith, total, ap weight head, ap (sum_by weight) rest),
        )
