-- ===== src/Prelude/Sorting.antt =====
-- `sorted(xs, key=…)` of the standard library: a stable sort by a Boolean order. Insertion keeps
-- equal keys in their order, and a stable sort has one result, so the algorithm does not matter.
use mathlib.Core.List.Perm
use sda_system.Prelude.Tests.{leb, if◌then◌else◌, Bool-cases}
use sda_system.Prelude.Lists.{forall-cons}
use Prim.Native.Nat.{ℕ}
use mathlib.Core.Path.{◌≡◌}
use mathlib.Core.Logic.{inl, inr}
use mathlib.Core.Bool.{Bool, true, false}
use mathlib.Core.List.{List, [], ◌∷◌, Pairwise, Perm, not-mem-nil}
use native.Mathlib.Omega.{arith}

-- What a sort asks of the order that it sorts by.
pub record IsTotal {ℓ} {A : Type ℓ} (le : A → A → Bool) : Type ℓ where
  pub total : (a b : A) → le a b ≡ false → le b a ≡ true
  pub trans : (a b c : A) → le a b ≡ true → le b c ≡ true → le a c ≡ true

-- `key=key`, and `key=key, reverse=True`.
abbrev pub by_key {ℓ} : {A : Type ℓ} → (A → ℕ) → A → A → Bool
by_key key a b = leb (key a) (key b)

abbrev pub by_key_desc {ℓ} : {A : Type ℓ} → (A → ℕ) → A → A → Bool
by_key_desc key a b = leb (key b) (key a)

pub by_key-IsTotal {ℓ} : {A : Type ℓ} (key : A → ℕ) → IsTotal (by_key key)
by_key-IsTotal key = record { total = λ a b h. ground arith; trans = λ a b c h k. ground arith }

pub by_key_desc-IsTotal {ℓ} : {A : Type ℓ} (key : A → ℕ) → IsTotal (by_key_desc key)
by_key_desc-IsTotal key = record {
  total = λ a b h. ground arith;
  trans = λ a b c h k. ground arith;
}

module _ {ℓ} {A : Type ℓ} (le : A → A → Bool) where
  pub insert : A → List A → List A
  insert x [] = x ∷ []
  insert x (y ∷ ys) = if le x y then x ∷ y ∷ ys else y ∷ insert x ys

  unfoldable pub sorted : List A → List A
  unfolding insert
  sorted [] = []
  sorted (x ∷ xs) = insert x (sorted xs)

  abbrev pub IsSorted : List A → Type ℓ
  IsSorted = Pairwise (λ a b. le a b ≡ true)

  insert-perm : (x : A) (l : List A) → Perm (insert x l) (x ∷ l)
  unfolding insert
  insert-perm x [] = Perm.rfl
  insert-perm x (y ∷ ys) = elim (Bool-cases (le x y)) [
    | inl p ↦ rw p Perm.rfl
    | inr p ↦ rw p (Perm.trans (Perm.cons y (insert-perm x ys)) (Perm.swap x y ys))
  ]

  -- `sorted` rearranges its input.
  pub sorted-perm : (l : List A) → Perm (sorted l) l
  unfolding sorted
  sorted-perm [] = Perm.rfl
  sorted-perm (x ∷ xs) = Perm.trans (insert-perm x (sorted xs)) (Perm.cons x (sorted-perm xs))

  module _ (laws : IsTotal le) where
    Bool-prop : (x y : A) → IsProp (le x y ≡ true)
    Bool-prop x y = hlevel

    insert-IsSorted : (x : A) {l : List A} → IsSorted l → IsSorted (insert x l)
    unfolding insert
    insert-IsSorted x Pairwise.nil = Pairwise.cons (λ b m. absurd (not-mem-nil m)) Pairwise.nil
    insert-IsSorted x (Pairwise.cons {a = y} {l = ys} below s) = elim (Bool-cases (le x y)) [
      | inl p ↦ rw p (
          Pairwise.cons (forall-cons (λ b. Bool-prop x b) p (λ b m. laws.trans x y b p (below b m)))
            (Pairwise.cons below s))
      | inr p ↦ rw p (
          Pairwise.cons
            (λ b m.
              forall-cons (λ c. Bool-prop y c) (laws.total x y p) below b
                ((Perm.mem_iff (insert-perm x ys)).0 m))
            (insert-IsSorted x s))
    ]

    -- `sorted` returns an ascending list.
    pub sorted-IsSorted : (l : List A) → IsSorted (sorted l)
    unfolding sorted
    sorted-IsSorted [] = Pairwise.nil
    sorted-IsSorted (x ∷ xs) = insert-IsSorted x (sorted-IsSorted xs)
