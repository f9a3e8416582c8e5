-- ===== src/Scheduling/Conflicts/Nothing.antt =====
-- On well-formed passes the sweep is silent exactly on a conflict-free list.
use mathlib.Core.List.{
  mem-filter, eq-nil_iff_forall_not-mem, cons-ne-nil, mem-cons, mem-cons_self, not-mem-nil,
}
use mathlib.Core.List.Perm
use mathlib.Core.Logic.Or
use mathlib.Core.Path.{subst}
use sda_system.Prelude.{
  ◌≡◌, refl, ap, List, [], ◌∷◌, ◌++◌, map, Mem, Pairwise, Perm, forall-cons, ◌↔◌,
}
use sda_system.Prelude.Sorting.{sorted, sorted-perm}
use sda_system.Models.{SatellitePass, Apart, ConflictFree}
use sda_system.Scheduling.Selection.{AllMeetChecks, ConflictFree-perm}
use sda_system.Scheduling.Conflicts.{by_rise, detect_conflicts}
use sda_system.Scheduling.Conflicts.Pairs.{dec_overlap, overlapping_pairs, detect_conflicts-perm}

append-nil_left : {l k : List (SatellitePass × SatellitePass)} → l ++ k ≡ [] → (l ≡ []) × (k ≡ [])
append-nil_left {l = []} e = (refl, e)
append-nil_left {l = x ∷ l} e = absurd (cons-ne-nil _ _ e)

map-nil :
    (f : SatellitePass → SatellitePass × SatellitePass) (l : List SatellitePass)
    → map f l ≡ []
    → l ≡ []
map-nil f [] e = refl
map-nil f (x ∷ l) e = absurd (cons-ne-nil _ _ e)

-- No pass of the list overlaps one seen before it, and no two of the list overlap.
overlapping_pairs-nil :
    (seen l : List SatellitePass)
    → overlapping_pairs seen l ≡ []
    → ConflictFree l
      × ((p : SatellitePass) → Mem p l → (a : SatellitePass) → Mem a seen → Apart a p)
unfolding overlapping_pairs
overlapping_pairs-nil seen [] e = (Pairwise.nil, λ p m. absurd (not-mem-nil m))
overlapping_pairs-nil seen (p ∷ ps) e =
    let (here, there) = append-nil_left e in
    let none_here = map-nil _ _ here in
    let (free, others) = overlapping_pairs-nil (p ∷ seen) ps there in
    (
      Pairwise.cons (λ q m. others q m p mem-cons_self) free,
      forall-cons (λ q. hlevel)
          (λ a m o.
            not-mem-nil (subst (Mem a) none_here ((mem-filter (λ a. dec_overlap a p)).1 (m, o))))
          (λ q m a k. others q m a (mem-cons.1 (Or.inr k))),
    )

nil-overlapping_pairs :
    (seen l : List SatellitePass)
    → ConflictFree l
    → ((p : SatellitePass) → Mem p l → (a : SatellitePass) → Mem a seen → Apart a p)
    → overlapping_pairs seen l ≡ []
unfolding overlapping_pairs
nil-overlapping_pairs seen [] c h = refl
nil-overlapping_pairs seen (p ∷ ps) (Pairwise.cons apart c) h =
    let none_here =
      eq-nil_iff_forall_not-mem.1
        (λ a m. let (k, o) = (mem-filter (λ a. dec_overlap a p)).0 m in h p mem-cons_self a k o) in
    rw (ap (map {B = SatellitePass × SatellitePass} (λ a. (a, p))) none_here) (
      nil-overlapping_pairs (p ∷ seen) ps c
        (λ q m. forall-cons (λ a. hlevel) (apart q m) (h q (mem-cons.1 (Or.inr m)))))

-- On well-formed passes nothing is reported exactly when no two passes overlap.
pub detect_conflicts-nil_iff :
    (passes : List SatellitePass)
    → AllMeetChecks passes
    → (detect_conflicts passes ≡ []) ↔ ConflictFree passes
detect_conflicts-nil_iff passes checks =
    let same = detect_conflicts-perm passes checks in
    let l = sorted by_rise passes in
    (
      λ e.
          ConflictFree-perm (sorted-perm by_rise passes)
            (overlapping_pairs-nil [] l
              (Perm.eq-nil (subst (λ u. Perm (overlapping_pairs [] l) u) e (Perm.symm same)))).0,
      λ c. Perm.eq-nil (
          subst (λ u. Perm (detect_conflicts passes) u)
            (nil-overlapping_pairs [] l
              (ConflictFree-perm (Perm.symm (sorted-perm by_rise passes)) c)
              (λ p m a k. absurd (not-mem-nil k)))
            same),
    )
