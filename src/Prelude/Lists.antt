-- ===== src/Prelude/Lists.antt =====
-- Lists measured and indexed by native numbers, under the library's names.
use Prim.Native.Nat.{ℕ, zero, suc, ◌+◌, ◌-◌, ◌≤◌, ◌<◌}
use mathlib.Core.Path.{◌≡◌, refl, ap, sym, subst, ◌∙◌}
use mathlib.Core.List.{
  List, [], ◌∷◌, ◌++◌, map, Sublist, Perm, Permᴰ, Mem, mem-cons, mem-cons_self, not-mem-nil,
  Mem-prop, nil-sublist,
}
use sda_system.Prelude.Tests.{◌==◌, if◌then◌else◌, Bool-cases}
use mathlib.Core.Bool.{Bool, true, false, ◌&&◌, ◌||◌, Bool-set, true≢false}
use mathlib.Core.HLevel.{×_prop}
use mathlib.Core.Logic.{◌⊎◌, inl, inr}
use mathlib.Core.Option.{Option, none, some}
use mathlib.Core.Logic.Or
use mathlib.Core.Logic.{◌≢◌}
use mathlib.Core.List.Sublist
use mathlib.Core.Logic.{∥∥₁_elim}
use native.Mathlib.Nat.{ℕ_set}
use native.Mathlib.Omega.{arith}

module _ {ℓ} {A : Type ℓ} where
  abbrev pub length : List A → ℕ
  length [] = 0
  length (x ∷ xs) = suc (length xs)

  abbrev pub get_or : List A → ℕ → A → A
  get_or [] i d = d
  get_or (x ∷ xs) zero d = x
  get_or (x ∷ xs) (suc i) d = get_or xs i d

  abbrev pub get_elem? : List A → ℕ → Option A
  get_elem? [] i = none
  get_elem? (x ∷ xs) zero = some x
  get_elem? (x ∷ xs) (suc i) = get_elem? xs i

  -- A write out of bounds changes nothing.
  abbrev pub set : List A → ℕ → A → List A
  set [] i v = []
  set (x ∷ xs) zero v = v ∷ xs
  set (x ∷ xs) (suc i) v = x ∷ set xs i v

  abbrev pub replicate : ℕ → A → List A
  replicate zero a = []
  replicate (suc n) a = a ∷ replicate n a

  -- `query(…).filter(…).all()`, in the order of the table.
  unfoldable pub select : (A → Bool) → List A → List A
  select test [] = []
  select test (x ∷ xs) = let rest = select test xs in if test x then x ∷ rest else rest

  abbrev pub sum_by : (A → ℕ) → List A → ℕ
  sum_by f [] = 0
  sum_by f (x ∷ xs) = f x + sum_by f xs

  pub length-append : (xs ys : List A) → length (xs ++ ys) ≡ length xs + length ys
  length-append [] ys = omega arith
  length-append (x ∷ xs) ys = omega (arith, length-append xs ys)

  sum_by-permᴰ : (f : A → ℕ) {xs ys : List A} → Permᴰ xs ys → sum_by f xs ≡ sum_by f ys
  sum_by-permᴰ f Permᴰ.nil = refl
  sum_by-permᴰ f (Permᴰ.cons e p) = omega (arith, ap f e, sum_by-permᴰ f p)
  sum_by-permᴰ f (Permᴰ.swap d e) = omega (arith, ap f d, ap f e)
  sum_by-permᴰ f (Permᴰ.trans p q) = omega (arith, sum_by-permᴰ f p, sum_by-permᴰ f q)

  -- A rearrangement has the same total.
  pub sum_by-perm : (f : A → ℕ) {xs ys : List A} → Perm xs ys → sum_by f xs ≡ sum_by f ys
  sum_by-perm f p = ∥∥₁_elim p (ℕ_set _ _) (sum_by-permᴰ f)

  length-permᴰ : {xs ys : List A} → Permᴰ xs ys → length xs ≡ length ys
  length-permᴰ Permᴰ.nil = refl
  length-permᴰ (Permᴰ.cons e p) = ap suc (length-permᴰ p)
  length-permᴰ (Permᴰ.swap d e) = refl
  length-permᴰ (Permᴰ.trans p q) = omega (arith, length-permᴰ p, length-permᴰ q)

  pub length-perm : {xs ys : List A} → Perm xs ys → length xs ≡ length ys
  length-perm p = ∥∥₁_elim p (ℕ_set _ _) length-permᴰ

  -- A property of the head and of the tail is one of every member.
  pub forall-cons {κ} :
      {P : A → Type κ} {a : A} {l : List A}
      → ((x : A) → IsProp (P x))
      → P a
      → ((x : A) → Mem x l → P x)
      → (x : A) → Mem x (a ∷ l)
      → P x
  forall-cons {P = P} pP h t x m = Or.elim (pP x) (mem-cons.0 m) (λ e. subst P (sym e) h) (t x)

module _ {ℓ} {A : Type ℓ} where
  abbrev pub take : ℕ → List A → List A
  take zero xs = []
  take (suc n) [] = []
  take (suc n) (x ∷ xs) = x ∷ take n xs

  pub length-replicate : (n : ℕ) (a : A) → length (replicate n a) ≡ n
  length-replicate zero a = refl
  length-replicate (suc n) a = ap suc (length-replicate n a)

  pub length-set : (xs : List A) (i : ℕ) (v : A) → length (set xs i v) ≡ length xs
  length-set [] i v = refl
  length-set (x ∷ xs) zero v = refl
  length-set (x ∷ xs) (suc i) v = ap suc (length-set xs i v)

  pub get_or-set_self :
      (xs : List A) (i : ℕ) (v d : A) → i < length xs → get_or (set xs i v) i d ≡ v
  get_or-set_self [] i v d h = elim h [ ]
  get_or-set_self (x ∷ xs) zero v d h = refl
  get_or-set_self (x ∷ xs) (suc i) v d h = get_or-set_self xs i v d (omega arith)

  pub get_or-set_ne :
      (xs : List A) (i j : ℕ) (v d : A) → i ≢ j → get_or (set xs i v) j d ≡ get_or xs j d
  get_or-set_ne [] i j v d h = refl
  get_or-set_ne (x ∷ xs) zero zero v d h = absurd (h refl)
  get_or-set_ne (x ∷ xs) zero (suc j) v d h = refl
  get_or-set_ne (x ∷ xs) (suc i) zero v d h = refl
  get_or-set_ne (x ∷ xs) (suc i) (suc j) v d h = get_or-set_ne xs i j v d (λ e. h (ap suc e))

  pub get_or-map {κ} :
      {B : Type κ} (f : A → B) (xs : List A) (i : ℕ) (d : A) (e : B)
      → i < length xs
      → get_or (map f xs) i e ≡ f (get_or xs i d)
  get_or-map f [] i d e h = elim h [ ]
  get_or-map f (x ∷ xs) zero d e h = refl
  get_or-map f (x ∷ xs) (suc i) d e h = get_or-map f xs i d e (omega arith)

  pub length-map {κ} : {B : Type κ} (f : A → B) (xs : List A) → length (map f xs) ≡ length xs
  length-map f [] = refl
  length-map f (x ∷ xs) = ap suc (length-map f xs)

  pub sum_by-map {κ} :
      {B : Type κ} (f : A → B) (g : B → ℕ) (xs : List A)
      → sum_by g (map f xs) ≡ sum_by (λ x. g (f x)) xs
  sum_by-map f g [] = refl
  sum_by-map f g (x ∷ xs) = omega (arith, sum_by-map f g xs)

  -- What is selected is a row of the table that passes the test.
  pub select-mem :
      (test : A → Bool) (l : List A) (x : A) → Mem x (select test l) → Mem x l × (test x ≡ true)
  unfolding select
  select-mem test [] x m = absurd (not-mem-nil m)
  select-mem test (y ∷ ys) x m =
      let step =
        λ (z : A) (k : Mem z (select test ys)). let (n, h) = select-mem test ys z k in kept z n h in
      elim (Bool-cases (test y)) [
        | inl h ↦
            forall-cons (λ z. ×_prop Mem-prop (Bool-set _ _)) (mem-cons_self, h) step x (rw h at m)
        | inr h ↦ step x (rw h at m)
      ]
    where
      kept : (z : A) → Mem z ys → test z ≡ true → Mem z (y ∷ ys) × (test z ≡ true)
      kept z n h = (mem-cons.1 (Or.inr n), h)

  module _ (test : A → Bool) (x : A) (xs : List A) where
    pub select-cons_true : test x ≡ true → select test (x ∷ xs) ≡ x ∷ select test xs
    unfolding select
    select-cons_true h = rw h refl

    pub select-cons_false : test x ≡ false → select test (x ∷ xs) ≡ select test xs
    unfolding select
    select-cons_false h = rw h refl

  -- And every such row is selected.
  pub select-keep :
      (test : A → Bool) (l : List A) (x : A) → Mem x l → test x ≡ true → Mem x (select test l)
  select-keep test [] x m h = absurd (not-mem-nil m)
  select-keep test (y ∷ ys) x m h = elim (Bool-cases (test y)) [
    | inl k ↦ subst (Mem x) (sym (select-cons_true test y ys k)) (
        Or.elim Mem-prop (mem-cons.0 m) (λ e. mem-cons.1 (Or.inl e))
          (λ n. mem-cons.1 (Or.inr (select-keep test ys x n h))))
    | inr k ↦ subst (Mem x) (sym (select-cons_false test y ys k)) (
        Or.elim Mem-prop (mem-cons.0 m)
          (λ e. absurd (true≢false (sym (subst (λ z. test z ≡ true) e h) ∙ k)))
          (λ n. select-keep test ys x n h))
  ]

  pub select-sublist : (test : A → Bool) (l : List A) → Sublist (select test l) l
  unfolding select
  select-sublist test [] = Sublist.refl []
  select-sublist test (y ∷ ys) = elim (Bool-cases (test y)) [
    | inl h ↦ rw h (Sublist.cons-cons y (select-sublist test ys))
    | inr h ↦ rw h (Sublist.cons y (select-sublist test ys))
  ]

  -- To split on a computed list and keep the equation.
  pub list_cases : (l : List A) → (l ≡ []) ⊎ ((x : A) × (xs : List A) × (l ≡ x ∷ xs))
  list_cases [] = inl refl
  list_cases (x ∷ xs) = inr (x, xs, refl)

  pub take-suc :
      (xs : List A) (i : ℕ) (d : A)
      → i < length xs
      → take (suc i) xs ≡ take i xs ++ get_or xs i d ∷ []
  take-suc [] i d h = elim h [ ]
  take-suc (x ∷ xs) zero d h = refl
  take-suc (x ∷ xs) (suc i) d h = ap (◌∷◌ x) (take-suc xs i d (omega arith))

  pub take-sublist : (xs : List A) (i j : ℕ) → i ≤ j → Sublist (take i xs) (take j xs)
  take-sublist xs zero j h = nil-sublist _
  take-sublist [] (suc i) zero h = elim h [ ]
  take-sublist [] (suc i) (suc j) h = Sublist.refl []
  take-sublist (x ∷ xs) (suc i) zero h = elim h [ ]
  take-sublist (x ∷ xs) (suc i) (suc j) h = Sublist.cons-cons x (take-sublist xs i j (omega arith))

  pub take_all : (xs : List A) (n : ℕ) → length xs ≤ n → take n xs ≡ xs
  take_all [] zero h = refl
  take_all [] (suc n) h = refl
  take_all (x ∷ xs) zero h = elim h [ ]
  take_all (x ∷ xs) (suc n) h = ap (◌∷◌ x) (take_all xs n (omega arith))

  pub get_or-mem : (xs : List A) (i : ℕ) (d : A) → i < length xs → Mem (get_or xs i d) xs
  get_or-mem [] i d h = elim h [ ]
  get_or-mem (x ∷ xs) zero d h = mem-cons_self
  get_or-mem (x ∷ xs) (suc i) d h = mem-cons.1 (Or.inr (get_or-mem xs i d (omega arith)))

pub get_or-replicate : (n i : ℕ) → get_or (replicate {A = ℕ} n 0) i 0 ≡ 0
get_or-replicate zero i = refl
get_or-replicate (suc n) zero = refl
get_or-replicate (suc n) (suc i) = get_or-replicate n i

-- `x in xs`
unfoldable pub elem : ℕ → List ℕ → Bool
elem x [] = false
elem x (y ∷ ys) = y == x || elem x ys

pub elem→Mem : (x : ℕ) (xs : List ℕ) → elem x xs ≡ true → Mem x xs
unfolding elem
elem→Mem x [] h = cc
elem→Mem x (y ∷ ys) h = elim (Bool-cases (elem x ys)) [
  | inl k ↦ mem-cons.1 (Or.inr (elem→Mem x ys k))
  | inr k ↦ mem-cons.1 (Or.inl (ground arith))
]

pub Mem→elem : (x : ℕ) (xs : List ℕ) → Mem x xs → elem x xs ≡ true
unfolding elem
Mem→elem x [] m = absurd (not-mem-nil m)
Mem→elem x (y ∷ ys) m =
    Or.elim (Bool-set _ _) (mem-cons.0 m) (λ e. ground arith) (λ k. ground (arith, Mem→elem x ys k))

module _ {ℓ} {A : Type ℓ} where
  abbrev pub drop : ℕ → List A → List A
  drop zero xs = xs
  drop (suc n) [] = []
  drop (suc n) (x ∷ xs) = drop n xs

  -- `xs[i:j]`
  abbrev pub slice : ℕ → ℕ → List A → List A
  slice i j xs = take (j - i) (drop i xs)

  -- `all(…)`
  unfoldable pub all : (A → Bool) → List A → Bool
  all test [] = true
  all test (x ∷ xs) = test x && all test xs
