-- ===== src/Scheduling/Pick/Laws.antt =====
-- The list that `pick` takes is a conflict-free part of the list, and whatever it leaves overlaps
-- a pass that it took before.
use mathlib.Core.List.{not-mem-nil, mem-cons, mem-cons_self}
use mathlib.Core.List.Sublist
use mathlib.Core.Logic.Or
use mathlib.Core.Logic.{∥∥₁_elim, ∥∥₁_map, ◌∨₁◌, ∨₁_prop}
use mathlib.Core.HLevel.{Π_prop, ⊥_prop}
use mathlib.Core.Bool.{Bool-set}
use mathlib.Core.List.Perm
use sda_system.Prelude.{
  le_prop, Subperm, ℕ, ◌≤◌, ◌≡◌, inl, inr, true, false, List, [], ◌∷◌, Mem, Pairwise, Sublist,
  arith, Bool-cases, forall-cons, leb→le,
}
use sda_system.Prelude.Sorting.{
  IsSorted, by_key_desc, by_key_desc-IsTotal, sorted, sorted-perm, sorted-IsSorted,
}
use sda_system.Models.{SatellitePass, Apart, Overlap, ConflictFree}
use sda_system.Scheduling.Pick.{meets, clashes, pick}

pub pick-sublist : (taken l : List SatellitePass) → Sublist (pick taken l) l
unfolding pick
pick-sublist taken [] = Sublist.refl []
pick-sublist taken (p ∷ ps) = elim (Bool-cases (clashes p.rise_time p.set_time taken)) [
  | inl h ↦ rw (h, pick) (Sublist.cons p (pick-sublist taken ps))
  | inr h ↦ rw (h, pick) (Sublist.cons-cons p (pick-sublist (p ∷ taken) ps))
]

pub clash_tail :
    (rise end : ℕ) (p : SatellitePass) (taken : List SatellitePass)
    → clashes rise end (p ∷ taken) ≡ false
    → clashes rise end taken ≡ false
unfolding clashes
clash_tail rise end p taken h = ground arith

pub Apart-of_clash :
    (p q : SatellitePass) (taken : List SatellitePass)
    → clashes q.rise_time q.set_time (p ∷ taken) ≡ false
    → Apart p q
unfolding clashes
Apart-of_clash p q taken h o = ground arith

-- Whatever is taken avoids what is taken already.
pick-clashes :
    (taken l : List SatellitePass) (q : SatellitePass)
    → Mem q (pick taken l)
    → clashes q.rise_time q.set_time taken ≡ false
unfolding pick
pick-clashes taken [] q m = absurd (not-mem-nil m)
pick-clashes taken (p ∷ ps) q m = elim (Bool-cases (clashes p.rise_time p.set_time taken)) [
  | inl h ↦ pick-clashes taken ps q (rw (h, pick) at m)
  | inr h ↦
      forall-cons (λ x. Bool-set _ _) h
        (λ x k. clash_tail x.rise_time x.set_time p taken (pick-clashes (p ∷ taken) ps x k)) q
        (rw (h, pick) at m)
]

pub pick-ConflictFree : (taken l : List SatellitePass) → ConflictFree (pick taken l)
unfolding pick
pick-ConflictFree taken [] = Pairwise.nil
pick-ConflictFree taken (p ∷ ps) = elim (Bool-cases (clashes p.rise_time p.set_time taken)) [
  | inl h ↦ rw (h, pick) (pick-ConflictFree taken ps)
  | inr h ↦
      rw (h, pick)
        (Pairwise.cons (λ q m. Apart-of_clash p q taken (pick-clashes (p ∷ taken) ps q m))
          (pick-ConflictFree (p ∷ taken) ps))
]

-- A pass of the list that overlaps `p` and is worth no less.
abbrev pub Rival : (SatellitePass → ℕ) → SatellitePass → List SatellitePass → Type 0
Rival worth p qs = ∥ ((q : SatellitePass) × Mem q qs × Overlap q p × (worth p ≤ worth q)) ∥₁

Rival-subset :
    (worth : SatellitePass → ℕ) (p : SatellitePass) (qs rs : List SatellitePass)
    → ((q : SatellitePass) → Mem q qs → Mem q rs)
    → Rival worth p qs
    → Rival worth p rs
Rival-subset worth p qs rs sub r = ∥∥₁_map r λ (q, m, o, h). (q, sub q m, o, h)

clashes-Rival :
    (worth : SatellitePass → ℕ) (p : SatellitePass) (taken : List SatellitePass)
    → ((q : SatellitePass) → Mem q taken → worth p ≤ worth q)
    → clashes p.rise_time p.set_time taken ≡ true
    → Rival worth p taken
unfolding clashes
clashes-Rival worth p [] most h = cc
clashes-Rival worth p (q ∷ qs) most h = elim (Bool-cases (meets p.rise_time p.set_time q)) [
  | inl m ↦ ∣ (q, mem-cons_self, (ground arith, ground arith), most q mem-cons_self) ∣₁
  | inr m ↦
      Rival-subset worth p qs (q ∷ qs) (λ x k. mem-cons.1 (Or.inr k))
        (clashes-Rival worth p qs (λ x k. most x (mem-cons.1 (Or.inr k))) (ground arith))
]

module _ (worth : SatellitePass → ℕ) where
  -- What becomes of a pass of the list.
  abbrev Settled : SatellitePass → List SatellitePass → List SatellitePass → Type 0
  Settled p taken result = Mem p result ∨₁ (Rival worth p taken ∨₁ Rival worth p result)

  Settled-taken :
      (x p : SatellitePass) (taken result : List SatellitePass)
      → Settled p (x ∷ taken) result
      → Settled p taken (x ∷ result)
  Settled-taken x p taken result s =
      Or.elim ∨₁_prop s (λ m. Or.inl (mem-cons.1 (Or.inr m)))
        λ r.
          Or.elim ∨₁_prop r
            (λ old. ∥∥₁_elim old ∨₁_prop λ (q, m, o, h).
              Or.elim ∨₁_prop (mem-cons.0 m)
                (λ e. Or.inr (Or.inr ∣ (q, mem-cons.1 (Or.inl e), o, h) ∣₁))
                (λ k. Or.inr (Or.inl ∣ (q, k, o, h) ∣₁)))
            (λ new. Or.inr (
              Or.inr (Rival-subset worth p result (x ∷ result) (λ q k. mem-cons.1 (Or.inr k)) new)))

  pick-Settled :
      (taken l : List SatellitePass)
      → IsSorted (by_key_desc worth) l
      → ((q : SatellitePass) → Mem q taken → (p : SatellitePass) → Mem p l → worth p ≤ worth q)
      → (p : SatellitePass) → Mem p l
      → Settled p taken (pick taken l)
  unfolding pick
  pick-Settled taken [] s most p m = absurd (not-mem-nil m)
  pick-Settled taken (x ∷ l) (Pairwise.cons below s) most p m =
      let most' = λ (q : SatellitePass) (k : Mem q taken) (r : SatellitePass) (n : Mem r l).
        most q k r (mem-cons.1 (Or.inr n)) in
      elim (Bool-cases (clashes x.rise_time x.set_time taken)) [
        | inl h ↦
            rw (h, pick)
              (forall-cons (λ q. ∨₁_prop)
                (Or.inr (Or.inl (clashes-Rival worth x taken (λ q k. most q k x mem-cons_self) h)))
                (pick-Settled taken l s most') p m)
        | inr h ↦
            rw (h, pick)
              (forall-cons (λ q. ∨₁_prop) (Or.inl mem-cons_self)
                (λ q k. Settled-taken x q taken _ (
                  pick-Settled (x ∷ taken) l s
                    (forall-cons (λ r. Π_prop λ t. Π_prop λ n. le_prop)
                      (λ r n. leb→le _ _ (below r n)) most')
                    q k))
                p m)
      ]

-- `result` is a conflict-free selection of `passes`, and every pass left out overlaps one of the
-- result that is worth no less.
pub record IsGreedy (worth : SatellitePass → ℕ) (passes result : List SatellitePass) : Type 0 where
  pub selected : Subperm result passes
  pub free : ConflictFree result
  pub settled : (p : SatellitePass) → Mem p passes → Mem p result ∨₁ Rival worth p result

pub pick-IsGreedy :
    (worth : SatellitePass → ℕ) (passes : List SatellitePass)
    → IsGreedy worth passes (pick [] (sorted (by_key_desc worth) passes))
pick-IsGreedy worth passes =
    let le = by_key_desc worth in
    let same = sorted-perm le passes in
    record {
      selected = (Perm.Subperm-left same).0 (Sublist.subperm (pick-sublist [] (sorted le passes)));
      free = pick-ConflictFree [] (sorted le passes);
      settled = λ p m.
          Or.elim ∨₁_prop
            (pick-Settled worth [] (sorted le passes)
              (sorted-IsSorted le (by_key_desc-IsTotal worth) passes)
              (λ q k. absurd (not-mem-nil k)) p ((Perm.mem_iff same).1 m))
            Or.inl (λ r. Or.elim ∨₁_prop r (λ old. absurd (no_rival p old)) Or.inr);
    }
  where
    no_rival : (p : SatellitePass) → Rival worth p [] → ⊥
    no_rival p r = ∥∥₁_elim r ⊥_prop λ (q, m, o, h). not-mem-nil m
