-- ===== src/Passes/Slices.antt =====
-- A page of a list: what OFFSET and LIMIT take, and what is left.
use sda_system.Prelude.{
  ℕ, zero, suc, ◌+◌, ◌-◌, ◌≤◌, ◌≡◌, refl, sym, ◌∙◌, ap, List, [], ◌∷◌, ◌++◌, length, slice, take,
  drop, take_all, arith,
}

module _ {ℓ} {A : Type ℓ} where
  take-drop : (xs : List A) (n : ℕ) → take n xs ++ drop n xs ≡ xs
  take-drop xs zero = refl
  take-drop [] (suc n) = refl
  take-drop (x ∷ xs) (suc n) = ap (◌∷◌ x) (take-drop xs n)

  drop-nil : (n : ℕ) → drop {A = A} n [] ≡ []
  drop-nil zero = refl
  drop-nil (suc n) = refl

  drop-drop : (xs : List A) (m n k : ℕ) → m + n ≡ k → drop n (drop m xs) ≡ drop k xs
  drop-drop xs zero n k e = ap (λ j. drop j xs) (omega arith)
  drop-drop xs (suc m) n zero e = absurd (omega arith)
  drop-drop [] (suc m) n (suc k) e = drop-nil n
  drop-drop (x ∷ xs) (suc m) n (suc k) e = drop-drop xs m n k (omega arith)

  length-drop : (xs : List A) (n : ℕ) → length (drop n xs) ≡ length xs - n
  length-drop xs zero = omega arith
  length-drop [] (suc n) = omega arith
  length-drop (x ∷ xs) (suc n) = omega (arith, length-drop xs n)

  -- What a page has, and what is left for the next.
  pub slice-drop :
      (xs : List A) (offset size : ℕ)
      → slice offset (offset + size) xs ++ drop (offset + size) xs ≡ drop offset xs
  slice-drop xs offset size =
      let size_eq : offset + size - offset ≡ size = omega arith in
      rw size_eq (
        ap (λ ys. take size (drop offset xs) ++ ys)
          (sym (drop-drop xs offset size (offset + size) refl))
        ∙ take-drop (drop offset xs) size)

  pub last_slice :
      (xs : List A) (offset size : ℕ)
      → length xs ≤ offset + size
      → slice offset (offset + size) xs ≡ drop offset xs
  last_slice xs offset size h =
      take_all (drop offset xs) (offset + size - offset) (omega (arith, length-drop xs offset))
