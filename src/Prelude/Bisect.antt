-- ===== src/Prelude/Bisect.antt =====
-- `bisect_left` and `bisect_right` of the standard library, by their documented result on an
-- ascending list: the number of entries that stand before the insertion point.
use Prim.Native.Nat.{ℕ, zero, suc, ◌≤◌, ◌<◌}
use mathlib.Core.Path.{◌≡◌}
use mathlib.Core.Bool.{Bool, true, false}
use mathlib.Core.List.{List, [], ◌∷◌, Pairwise}
use native.Mathlib.Nat.{le_trans}
use native.Mathlib.Omega.{arith}
use sda_system.Prelude.Tests.{leb, if◌then◌else◌}
use sda_system.Prelude.Lists.{length, get_or, get_or-mem}

-- `before` holds of a prefix of the list.
unfoldable pub bisect {ℓ} : {A : Type ℓ} → (A → Bool) → List A → ℕ
bisect before [] = 0
bisect before (x ∷ xs) = let rest = bisect before xs in if before x then suc rest else 0

unfoldable pub bisect_right : List ℕ → ℕ → ℕ
unfolding bisect
bisect_right xs x = bisect (λ e. leb e x) xs

pub bisect-le-length {ℓ} :
    {A : Type ℓ} (before : A → Bool) (xs : List A) → bisect before xs ≤ length xs
unfolding bisect
bisect-le-length before [] = omega arith
bisect-le-length before (x ∷ xs) = ground (arith, bisect-le-length before xs)

module _ {ℓ} {A : Type ℓ} (before : A → Bool) (x : A) (xs : List A) where
  pub bisect-cons_true : before x ≡ true → bisect before (x ∷ xs) ≡ suc (bisect before xs)
  unfolding bisect
  bisect-cons_true h = rw h

  pub bisect-cons_false : before x ≡ false → bisect before (x ∷ xs) ≡ 0
  unfolding bisect
  bisect-cons_false h = rw h

pub bisect_right-le-length : (xs : List ℕ) (x : ℕ) → bisect_right xs x ≤ length xs
unfolding bisect_right
bisect_right-le-length xs x = bisect-le-length _ xs

-- Left of the insertion point everything is at most `x`.
pub bisect_right_below : (xs : List ℕ) (x k : ℕ) → k < bisect_right xs x → get_or xs k 0 ≤ x
unfolding bisect_right
bisect_right_below [] x k h = elim h [ ]
bisect_right_below (e ∷ es) x zero h = ground arith
bisect_right_below (e ∷ es) x (suc k) h = ground (arith, bisect_right_below es x k)

-- And whatever is at most `x` stands left of it, if the list ascends.
pub lt-bisect_right :
    {xs : List ℕ}
    → Pairwise ◌≤◌ xs
    → (x k : ℕ) → k < length xs
    → get_or xs k 0 ≤ x
    → k < bisect_right xs x
unfolding bisect_right
lt-bisect_right Pairwise.nil x k h le = elim h [ ]
lt-bisect_right (Pairwise.cons {a = e} {l = es} below s) x zero h le = ground arith
lt-bisect_right (Pairwise.cons {a = e} {l = es} below s) x (suc k) h le =
    let first = le_trans (below _ (get_or-mem es k 0 (omega arith))) le in
    ground (arith, first, lt-bisect_right s x k (omega arith) le)
