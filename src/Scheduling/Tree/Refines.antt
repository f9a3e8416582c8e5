-- ===== src/Scheduling/Tree/Refines.antt =====
-- The loop over an interval tree is `pick`: the tree knows the same overlaps as the list of the
-- passes taken.
use mathlib.Core.List.{Mem-prop, not-mem-nil, mem-cons, mem-cons_self, mem-map}
use mathlib.Core.List.Perm
use mathlib.Core.Logic.Or
use mathlib.Core.Logic.{∥∥₁_elim, ∥∥₁_map, ∨₁_prop}
use mathlib.Core.Bool.{Bool-set}
use mathlib.Core.Path.{subst}
use sda_system.Prelude.{
  ℕ, ◌<◌, ◌≡◌, refl, sym, ◌∙◌, ap, ◌↔◌, inl, inr, Bool, true, false, List, [], ◌∷◌, map, Mem, arith,
  Bool-cases, leb,
}
use sda_system.Prelude.Sorting.{sorted, sorted-perm, by_key_desc}
use sda_system.Models.{SatellitePass}
use sda_system.Scheduling.Selection.{AllMeetChecks, AllMeetChecks-perm}
use sda_system.Scheduling.Weighted.{benefit}
use sda_system.Scheduling.Pick.{meets, clashes, pick}
use sda_system.Scheduling.Pick.Laws.{IsGreedy, pick-IsGreedy}
use sda_system.Scheduling.Tree.{Entry, TreeOps, TreeLaws, is_truthy, entry, tree_loop}

module _ (b c : Bool) where
  Bool-ext : (b ≡ true → c ≡ true) → (c ≡ true → b ≡ true) → b ≡ c
  Bool-ext f g = elim (Bool-cases b) [
    | inl h ↦ h ∙ sym (f h)
    | inr h ↦ elim (Bool-cases c) [ inl k ↦ g k ∙ sym k | inr k ↦ h ∙ sym k ]
  ]

-- Some pass of the list meets [rise, end).
clashes→Mem :
    (rise end : ℕ) (l : List SatellitePass)
    → clashes rise end l ≡ true
    → ∥ ((q : SatellitePass) × Mem q l × (meets rise end q ≡ true)) ∥₁
unfolding clashes
clashes→Mem rise end [] h = cc
clashes→Mem rise end (q ∷ qs) h = elim (Bool-cases (meets rise end q)) [
  | inl k ↦ ∣ (q, mem-cons_self, k) ∣₁
  | inr k ↦
      ∥∥₁_map (clashes→Mem rise end qs (ground arith)) λ (r, m, e). (r, mem-cons.1 (Or.inr m), e)
]

Mem→clashes :
    (rise end : ℕ) (l : List SatellitePass) (q : SatellitePass)
    → Mem q l
    → meets rise end q ≡ true
    → clashes rise end l ≡ true
unfolding clashes
Mem→clashes rise end [] q m h = absurd (not-mem-nil m)
Mem→clashes rise end (x ∷ xs) q m h =
    Or.elim (Bool-set _ _) (mem-cons.0 m)
      (λ e. ground (arith, subst (λ r. meets rise end r ≡ true) e h))
      (λ k. ground (arith, Mem→clashes rise end xs q k h))

truthy→Mem : (l : List Entry) → is_truthy l ≡ true → (x : Entry) × Mem x l
truthy→Mem [] h = cc
truthy→Mem (x ∷ xs) h = (x, mem-cons_self)

Mem→truthy : (l : List Entry) (x : Entry) → Mem x l → is_truthy l ≡ true
Mem→truthy [] x m = absurd (not-mem-nil m)
Mem→truthy (y ∷ ys) x m = refl

module _ (ops : TreeOps) (laws : TreeLaws ops) (value : SatellitePass → ℕ) where
  -- The tree holds the windows of the passes.
  abbrev pub Represents : ops.Tree → List SatellitePass → Type 0
  Represents t taken = (x : Entry) → Mem x (ops.items t) ↔ Mem x (map (entry value) taken)

  pub Represents-empty : Represents ops.empty []
  Represents-empty x = rw laws.items_empty (λ m. m, λ m. m)

  pub Represents-add :
      (t : ops.Tree) (taken : List SatellitePass) (p : SatellitePass)
      → p.rise_time < p.set_time
      → Represents t taken
      → Represents (ops.add t (entry value p)) (p ∷ taken)
  Represents-add t taken p proper r x = (
    λ m.
        Or.elim Mem-prop ((laws.items_add t (entry value p) x proper).0 m)
          (λ e. mem-cons.1 (Or.inl e)) (λ k. mem-cons.1 (Or.inr ((r x).0 k))),
    λ m.
        (laws.items_add t (entry value p) x proper).1
          (Or.elim ∨₁_prop (mem-cons.0 m) Or.inl (λ k. Or.inr ((r x).1 k))),
  )

  -- The query on the tree finds something exactly when the pass overlaps one taken.
  pub truthy-clashes :
      (t : ops.Tree) (taken : List SatellitePass) (rise end : ℕ)
      → rise < end
      → Represents t taken
      → is_truthy (ops.overlap t rise end) ≡ clashes rise end taken
  truthy-clashes t taken rise end proper r =
      Bool-ext _ _
        (λ h.
          let (x, m) = truthy→Mem _ h in
          let found = (laws.mem_overlap t rise end x proper).0 m in
          ∥∥₁_elim (mem-map.0 ((r x).0 found.0)) (Bool-set _ _) λ (q, k, e).
            Mem→clashes rise end taken q k (
              hit q (subst (λ y. y.begin < end) (sym e) found.1)
                (subst (λ y. rise < y.stop) (sym e) found.2)))
        (λ h. ∥∥₁_elim (clashes→Mem rise end taken h) (Bool-set _ _) λ (q, k, met).
          Mem→truthy _ (entry value q) (
            (laws.mem_overlap t rise end (entry value q) proper).1
              ((r (entry value q)).1 (mem-map.1 ∣ (q, k, refl) ∣₁), ground arith, ground arith)))
    where
      hit : (q : SatellitePass) → q.rise_time < end → rise < q.set_time → meets rise end q ≡ true
      hit q h k = ground arith

pub not_leb : (a b : ℕ) → a < b → leb b a ≡ false
not_leb a b h = ground arith

pub tree_loop-pick :
    (ops : TreeOps) (laws : TreeLaws ops) (t : ops.Tree) (taken ps : List SatellitePass)
    → Represents ops laws (λ q. q.id) t taken
    → AllMeetChecks ps
    → tree_loop ops t ps ≡ pick taken ps
unfolding tree_loop pick
tree_loop-pick ops laws t taken [] r checks = refl
tree_loop-pick ops laws t taken (p ∷ ps) r checks =
    let proper = (checks p mem-cons_self).time_order in
    let rest = λ (q : SatellitePass) (m : Mem q ps). checks q (mem-cons.1 (Or.inr m)) in
    let agree = truthy-clashes ops laws (λ q. q.id) t taken p.rise_time p.set_time proper r in
    elim (Bool-cases (clashes p.rise_time p.set_time taken)) [
      | inl h ↦
          rw (not_leb _ _ proper, agree ∙ h, h, tree_loop, pick)
            (tree_loop-pick ops laws t taken ps r rest)
      | inr h ↦
          rw (not_leb _ _ proper, agree ∙ h, h, tree_loop, pick)
            (ap (◌∷◌ p) (
              tree_loop-pick ops laws (ops.add t (entry (λ q. q.id) p)) (p ∷ taken) ps
                (Represents-add ops laws (λ q. q.id) t taken p proper r) rest))
    ]

-- On well-formed candidates the loop over the tree, best benefit first, takes a conflict-free part
-- of them, and whatever it leaves overlaps a pass taken that is worth no less.
pub tree_loop-IsGreedy :
    (ops : TreeOps)
    → TreeLaws ops
    → (cs : List SatellitePass) → AllMeetChecks cs
    → IsGreedy benefit cs (tree_loop ops ops.empty (sorted (by_key_desc benefit) cs))
tree_loop-IsGreedy ops laws cs checks =
    let ordered = sorted (by_key_desc benefit) cs in
    subst (IsGreedy benefit cs)
      (sym (
        tree_loop-pick ops laws ops.empty [] ordered (Represents-empty ops laws (λ q. q.id))
          (AllMeetChecks-perm (Perm.symm (sorted-perm _ _)) checks)))
      (pick-IsGreedy benefit cs)
