-- ===== src/Scheduling/Selection.antt =====
-- Selections from a list of passes, in the order of their ends.
use mathlib.Core.List.{not-mem-nil, mem-cons, mem-cons_self, exists_perm_sublist}
use mathlib.Core.List.Pairwise
use mathlib.Core.List.Perm
use mathlib.Core.List.Sublist
use mathlib.Core.List.Subperm
use mathlib.Core.Logic.Or
use mathlib.Core.Logic.{∥∥₁_elim, ∥∥₁_map, ∥∥₁_prop}
use mathlib.Core.HLevel.{¬_prop}
use native.Mathlib.Decide.{dec_le}
use sda_system.Prelude.{
  ℕ, ◌≤◌, ◌<◌, List, [], ◌∷◌, Mem, Pairwise, Perm, Sublistᴰ, Subperm, arith, le_prop, leb→le, Bool,
  forall-cons,
}
use sda_system.Prelude.Sorting.{
  sorted, sorted-perm, sorted-IsSorted, by_key, by_key-IsTotal, IsSorted,
}
use sda_system.Models.{SatellitePass, MeetsChecks, Apart, ConflictFree}

-- `key=lambda p: p.set_time`
abbrev pub by_set : SatellitePass → SatellitePass → Bool
by_set = by_key (λ p. p.set_time)

-- Every pass of the list meets the CHECK constraints of its table.
abbrev pub AllMeetChecks : List SatellitePass → Type 0
AllMeetChecks l = (p : SatellitePass) → Mem p l → MeetsChecks p

-- Each pass starts no earlier than `from` and than the end of the pass before it.
abbrev pub Follows : ℕ → List SatellitePass → Type 0
Follows from [] = Unit {0}
Follows from (p ∷ ps) = (from ≤ p.rise_time) × Follows p.set_time ps

pub Follows-mono : (a b : ℕ) (l : List SatellitePass) → a ≤ b → Follows b l → Follows a l
Follows-mono a b [] h f = tt
Follows-mono a b (p ∷ ps) h f = (omega arith, f.1)

later_rise :
    (p q : SatellitePass)
    → p.rise_time < p.set_time
    → p.set_time ≤ q.set_time
    → Apart p q
    → q.rise_time < q.set_time
    → p.set_time ≤ q.rise_time
later_rise p q hp h apart hq = elim (dec_le p.set_time q.rise_time) [
  | yes k ↦ k
  | no k ↦ absurd (apart (omega arith))
]

-- In order of their ends, well-formed passes that do not overlap follow one another.
pub ConflictFree→Follows :
    (from : ℕ) (l : List SatellitePass)
    → IsSorted by_set l
    → ConflictFree l
    → ((p : SatellitePass) → Mem p l → MeetsChecks p × (from ≤ p.rise_time))
    → Follows from l
ConflictFree→Follows from [] s c h = tt
ConflictFree→Follows from (p ∷ ps) (Pairwise.cons below s) (Pairwise.cons apart c) h = (
  (h p mem-cons_self).1,
  ConflictFree→Follows p.set_time ps s c λ q m.
      let (checks, _) = h q (mem-cons.1 (Or.inr m)) in
      (
        checks,
        later_rise p q (h p mem-cons_self).0.time_order (leb→le p.set_time q.set_time (below q m))
            (apart q m) checks.time_order,
      ),
)

pub Follows→ConflictFree :
    (from : ℕ) (l : List SatellitePass)
    → Follows from l
    → ((p : SatellitePass) → Mem p l → MeetsChecks p)
    → ConflictFree l × ((p : SatellitePass) → Mem p l → from ≤ p.rise_time)
Follows→ConflictFree from [] f h = (Pairwise.nil, λ p m. absurd (not-mem-nil m))
Follows→ConflictFree from (p ∷ ps) f h =
    let (c, late) = Follows→ConflictFree p.set_time ps f.1 (λ q m. h q (mem-cons.1 (Or.inr m))) in
    let ordered = (h p mem-cons_self).time_order in
    (
      Pairwise.cons (λ q m. apart_of_le p q (late q m)) c,
      forall-cons (λ q. le_prop) f.0 (λ q m. from_le q (late q m) f.0 ordered),
    )
  where
    apart_of_le : (p q : SatellitePass) → p.set_time ≤ q.rise_time → Apart p q
    apart_of_le p q h o = omega arith

    from_le :
        (q : SatellitePass)
        → p.set_time ≤ q.rise_time
        → from ≤ p.rise_time
        → p.rise_time < p.set_time
        → from ≤ q.rise_time
    from_le q a b c = omega arith

pub AllMeetChecks-subperm :
    {t l : List SatellitePass} → Subperm t l → AllMeetChecks l → AllMeetChecks t
AllMeetChecks-subperm sub h p m = h p (Subperm.subset sub p m)

pub MeetsChecks-prop : (p : SatellitePass) → IsProp (MeetsChecks p)
MeetsChecks-prop p = hlevel le_prop

pub AllMeetChecks-nil : AllMeetChecks []
AllMeetChecks-nil p m = absurd (not-mem-nil m)

pub AllMeetChecks-cons :
    (p : SatellitePass) (l : List SatellitePass)
    → MeetsChecks p
    → AllMeetChecks l
    → AllMeetChecks (p ∷ l)
AllMeetChecks-cons p l h hs = forall-cons MeetsChecks-prop h hs

pub AllMeetChecks-perm : {t l : List SatellitePass} → Perm t l → AllMeetChecks t → AllMeetChecks l
AllMeetChecks-perm same h p m = h p ((Perm.mem_iff same).1 m)

pub ConflictFree-perm : {t u : List SatellitePass} → Perm t u → ConflictFree t → ConflictFree u
ConflictFree-perm p c = Perm.pairwise (λ a b. ¬_prop) (λ a b apart o. apart (o.1, o.0)) p c

-- A selection that runs in the order of the ends, each pass after the end of the one before it.
pub record InOrder (t passes : List SatellitePass) : Type 0 where
  pub picked : List SatellitePass
  pub same : Perm picked t
  pub kept : Sublistᴰ picked (sorted by_set passes)
  pub follows : Follows 0 picked

-- Every conflict-free selection can be put into that order.
pub InOrder-of_subperm :
    (t passes : List SatellitePass)
    → AllMeetChecks passes
    → Subperm t passes
    → ConflictFree t
    → ∥ InOrder t passes ∥₁
InOrder-of_subperm t passes checks sub free = ∥∥₁_elim sub ∥∥₁_prop λ (l, pl, sl).
    ∥∥₁_elim (exists_perm_sublist sl (Perm.symm (sorted-perm by_set passes))) ∥∥₁_prop
      λ (u, pu, su).
        let same = Perm.trans pu pl in
        let free' = ConflictFree-perm (Perm.symm same) free in
        ∥∥₁_map su λ d.
          let ordered = Pairwise.sublistᴰ d (sorted-IsSorted by_set (by_key-IsTotal _) passes) in
          let member = λ (p : SatellitePass) (m : Mem p u).
            (Perm.mem_iff (sorted-perm by_set passes)).0 (Sublist.subset su p m) in
          let late =
            ConflictFree→Follows 0 u ordered free' (λ p m. (checks p (member p m), omega arith)) in
          record { picked = u; same = same; kept = d; follows = late }
