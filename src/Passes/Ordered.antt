-- ===== src/Passes/Ordered.antt =====
-- ORDER BY rise_time, of which rows with one rise time come in an order of the database's choice.
use mathlib.Core.List.Perm
use mathlib.Core.Logic.Or
use mathlib.Core.List.{mem-cons}
use text.Mathlib.TextEquality.{IsScalar-prop}
use mathlib.Core.HLevel.{¬_prop}
use mathlib.Core.Path.{subst}
use sda_system.Prelude.{
  ◌<◌, ◌≡◌, ◌≢◌, refl, sym, ap, ◌∙◌, Bool, List, [], ◌∷◌, arith, Pairwise, Perm,
}
use sda_system.Prelude.Sorting.{
  IsSorted, by_key, sorted, sorted-perm, sorted-IsSorted, by_key-IsTotal,
}
use sda_system.Models.{SatellitePass}

abbrev pub by_rise : SatellitePass → SatellitePass → Bool
by_rise = by_key (λ (p : SatellitePass). p.rise_time)

-- What a query with ORDER BY rise_time may return: the rows it finds, by their rise times.
abbrev pub IsOrderBy : (List SatellitePass → List SatellitePass) → Type 0
IsOrderBy order = (l : List SatellitePass) → Perm (order l) l × IsSorted by_rise (order l)

-- No two of the rows have the same rise time.
abbrev pub AreDistinct : List SatellitePass → Type 0
AreDistinct = Pairwise (λ (p q : SatellitePass). p.rise_time ≢ q.rise_time)

Rising : List SatellitePass → Type 0
Rising = Pairwise (λ (p q : SatellitePass). p.rise_time < q.rise_time)

IsSorted-Rising : (l : List SatellitePass) → IsSorted by_rise l → AreDistinct l → Rising l
unfolding Rising
IsSorted-Rising [] s d = Pairwise.nil
IsSorted-Rising (p ∷ l) (Pairwise.cons below s) (Pairwise.cons other d) =
    Pairwise.cons (λ q m. ground (arith, below q m, other q m)) (IsSorted-Rising l s d)

SatellitePass-set : IsSet SatellitePass
SatellitePass-set = hlevel (IsScalar-prop)

-- Rows in the order of different times have one order.
Rising-unique : (l k : List SatellitePass) → Perm l k → Rising l → Rising k → l ≡ k
unfolding Rising
Rising-unique [] k perm r s = Perm.nil-eq perm
Rising-unique (p ∷ l) [] perm r s = Perm.eq-nil perm
Rising-unique (p ∷ l) (q ∷ k) perm (Pairwise.cons above r) (Pairwise.cons over s) =
    let same : p ≡ q =
      Or.elim (SatellitePass-set p q)
        (mem-cons.0 ((Perm.mem_iff perm).0 (mem-cons.1 (Or.inl refl)))) (λ e. e)
        (λ m.
          Or.elim (SatellitePass-set p q)
            (mem-cons.0 ((Perm.mem_iff perm).1 (mem-cons.1 (Or.inl refl)))) sym
            (λ n. absurd (omega (arith, over p m, above q n)))) in
    ap (◌∷◌ p)
      (Rising-unique l k (Perm.cons_inv (subst (λ a. Perm (p ∷ l) (a ∷ k)) (sym same) perm)) r s)
    ∙ ap (λ a. a ∷ k) same

Distinct-perm : {l k : List SatellitePass} → Perm l k → AreDistinct l → AreDistinct k
Distinct-perm perm d = Perm.pairwise (λ p q. ¬_prop) (λ p q n e. n (sym e)) perm d

-- Where no two rows have the same rise time, the database has no choice.
pub order-sorted :
    (order : List SatellitePass → List SatellitePass)
    → IsOrderBy order
    → (l : List SatellitePass) → AreDistinct l
    → order l ≡ sorted by_rise l
order-sorted order law l d =
    let ordered = sorted-perm by_rise l in
    Rising-unique (order l) (sorted by_rise l) (Perm.trans (law l).0 (Perm.symm ordered))
      (IsSorted-Rising (order l) (law l).1 (Distinct-perm (Perm.symm (law l).0) d))
      (IsSorted-Rising (sorted by_rise l) (sorted-IsSorted by_rise (by_key-IsTotal _) l)
        (Distinct-perm (Perm.symm ordered) d))
