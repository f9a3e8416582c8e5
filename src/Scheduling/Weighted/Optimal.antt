-- ===== src/Scheduling/Weighted/Optimal.antt =====
-- schedule_weighted returns a conflict-free selection of its input, and none has a larger benefit.
use mathlib.Core.List.{nil-sublist, reverse, reverse-append, reverse_perm, not-mem-nil}
use mathlib.Core.List.Perm
use mathlib.Core.List.Sublist
use mathlib.Core.List.Sublistᴰ
use mathlib.Core.List.Subperm
use mathlib.Core.Logic.{∥∥₁_elim}
use mathlib.Core.HLevel.{¬_prop}
use mathlib.Core.Path.{subst}
use native.Mathlib.Nat.{le_trans}
use sda_system.Prelude.{
  ℕ, suc, ◌+◌, ◌≤◌, ◌<◌, ◌≡◌, refl, sym, ap, ◌∙◌, some, List, [], ◌∷◌, ◌++◌, map, Mem, Pairwise,
  Sublist, Sublistᴰ, Subperm, length, get_or, sum_by, sum_by-map, sum_by-perm, take, take-suc,
  take-sublist, take_all, arith, le_prop, forall-cons,
}
use sda_system.Prelude.Sorting.{sorted, sorted-perm, sorted-IsSorted, by_key-IsTotal, IsSorted}
use sda_system.Models.{SatellitePass, Apart, ConflictFree}
use sda_system.Scheduling.Selection.{
  by_set, Follows, AllMeetChecks, AllMeetChecks-perm, InOrder-of_subperm,
}
use sda_system.Scheduling.Weighted.{benefit, prev_next, table, reconstruct, schedule_weighted}
use sda_system.Scheduling.Weighted.Table.{IsTable, best_mono}
use sda_system.Scheduling.Weighted.Arrays.{next_below, lt-next, table-IsTable}
use sda_system.Scheduling.Weighted.Walk.{Descends, walk_collects}

module _ (d : SatellitePass) (ps : List SatellitePass) (ordered : IsSorted by_set ps)
    (checks : AllMeetChecks ps) where
  abbrev at : ℕ → SatellitePass
  at j = get_or ps j d

  abbrev next_of : ℕ → ℕ
  next_of j = get_or (prev_next ps) j 0

  abbrev best : ℕ → ℕ
  best j = get_or (table ps) j 0

  solved : IsTable (length ps) (λ j. benefit (at j)) next_of best
  solved = table-IsTable d ps ordered checks

  -- The positions collected lie below the bound.
  selected_members :
      (P : SatellitePass → Type 0)
      → ((p : SatellitePass) → IsProp (P p))
      → (bound : ℕ) (js : List ℕ) → bound ≤ length ps
      → Descends next_of bound js
      → ((k : ℕ) → k < bound → P (at k))
      → (p : SatellitePass) → Mem p (map at js)
      → P p
  selected_members P pP bound [] hb c h p m = absurd (not-mem-nil m)
  selected_members P pP bound (j ∷ js) hb c h p m =
      let below = solved.below j (omega arith) in
      forall-cons pP (h j c.0)
        (selected_members P pP (next_of j) js (omega arith) c.1 (λ k hk. h k (omega arith))) p m

  selected-ConflictFree :
      (bound : ℕ) (js : List ℕ)
      → bound ≤ length ps
      → Descends next_of bound js
      → ConflictFree (map at js)
  selected-ConflictFree bound [] hb c = Pairwise.nil
  selected-ConflictFree bound (j ∷ js) hb c =
      let below = solved.below j (omega arith) in
      Pairwise.cons
        (selected_members (Apart (at j)) (λ p. ¬_prop) (next_of j) js (omega arith) c.1
          (λ k hk o. ended k hk o.0 o.1))
        (selected-ConflictFree (next_of j) js (omega arith) c.1)
    where
      ended :
          (k : ℕ)
          → k < next_of j
          → (at j).rise_time < (at k).set_time
          → (at k).rise_time < (at j).set_time
          → ⊥
      ended k hk o o' =
          let (_, early) = next_below d ps ordered checks j k (omega arith) hk in omega arith

  selected-sublist :
      (bound : ℕ) (js : List ℕ)
      → bound ≤ length ps
      → Descends next_of bound js
      → Sublist (reverse (map at js)) (take bound ps)
  selected-sublist bound [] hb c = nil-sublist _
  selected-sublist bound (j ∷ js) hb c =
      let below = solved.below j (omega arith) in
      let earlier = selected-sublist (next_of j) js (omega arith) c.1 in
      let wide = Sublist.trans earlier (take-sublist ps (next_of j) j below) in
      let here = Sublist.append wide (Sublist.refl (at j ∷ [])) in
      let prefix =
        subst (Sublist (reverse (map at js) ++ at j ∷ [])) (sym (take-suc ps j d (omega arith)))
          here in
      subst (λ l. Sublist l (take bound ps)) (sym (reverse-append (at j ∷ []) (map at js)))
        (Sublist.trans prefix (take-sublist ps (suc j) bound c.0))

  -- `r` is what is left of the list from position `k`.
  abbrev From : ℕ → List SatellitePass → Type 0
  From k r = (k + length r ≡ length ps) × ((i : ℕ) → i < length r → get_or r i d ≡ at (k + i))

  From-tail : (k : ℕ) (x : SatellitePass) (r : List SatellitePass) → From k (x ∷ r) → From (suc k) r
  From-tail k x r (len, same) =
      (omega arith, λ i h. same (suc i) (omega arith) ∙ ap at (omega arith))

  From-head : (k : ℕ) (x : SatellitePass) (r : List SatellitePass) → From k (x ∷ r) → x ≡ at k
  From-head k x r (len, same) = same 0 (omega arith) ∙ ap at (omega arith)

  -- A total `c` of passes that end by `from` is at most what the table has wherever it may be used.
  abbrev Within : ℕ → ℕ → ℕ → Type 0
  Within k from c =
      (c ≤ best k) × ((i : ℕ) → i < length ps → from ≤ (at i).rise_time → c ≤ best (next_of i))

  Within-skip : (k from c : ℕ) → k < length ps → Within k from c → Within (suc k) from c
  Within-skip k from c h (here, later) = (omega (arith, solved.step k h), later)

  Within-take :
      (k from c : ℕ)
      → k < length ps
      → from ≤ (at k).rise_time
      → Within k from c
      → Within (suc k) (at k).set_time (c + benefit (at k))
  Within-take k from c h late (here, later) =
      let grown : c + benefit (at k) ≤ best (suc k) =
        omega (arith, solved.step k h, later k h late) in
      (
        grown,
        λ i hi ended.
            let earlier = lt-next d ps ordered checks i k hi h ended in
            le_trans grown
              (best_mono solved (suc k) (next_of i) earlier (omega (arith, solved.below i hi))),
      )

  -- No selection of the rest adds more to such a total than the table has at its end.
  best_bound :
      (k from c : ℕ) {u r : List SatellitePass}
      → Sublistᴰ u r
      → From k r
      → Within k from c
      → Follows from u
      → c + sum_by benefit u ≤ best (length ps)
  best_bound k from c Sublistᴰ.slnil (len, same) (here, later) f =
      let e : best k ≡ best (length ps) = ap best (omega arith) in omega arith
  best_bound k from c (Sublistᴰ.cons {a = x} {l₁ = u} {l₂ = r} s) rest w f =
      best_bound (suc k) from c s (From-tail k x r rest)
        (Within-skip k from c (omega (arith, rest.0)) w) f
  best_bound k from c (Sublistᴰ.cons-cons {a = y} {b = x} {l₁ = u} {l₂ = r} e s) rest w f =
      let is_at = e ∙ From-head k x r rest in
      let late : from ≤ (at k).rise_time = subst (λ p. from ≤ p.rise_time) is_at f.0 in
      let f' : Follows (at k).set_time u = subst (λ p. Follows p.set_time u) is_at f.1 in
      let bound =
        best_bound (suc k) (at k).set_time (c + benefit (at k)) s (From-tail k x r rest)
          (Within-take k from c (omega (arith, rest.0)) late w) f' in
      omega (arith, bound, ap benefit is_at)

-- `result` is a conflict-free selection of `passes`, and no other has a larger total benefit.
pub record IsBest (passes result : List SatellitePass) : Type 0 where
  pub selected : Subperm result passes
  pub free : ConflictFree result
  pub largest :
      (t : List SatellitePass)
      → Subperm t passes
      → ConflictFree t
      → sum_by benefit t ≤ sum_by benefit result

-- What the walk returns on a list in the order of the ends.
record IsBestInOrder (ps result : List SatellitePass) : Type 0 where
  found : reconstruct ps ≡ some result
  selected : Subperm result ps
  free : ConflictFree result
  largest :
      (u : List SatellitePass)
      → Sublistᴰ u ps
      → Follows 0 u
      → sum_by benefit u ≤ sum_by benefit result

reconstruct-IsBestInOrder :
    (ps : List SatellitePass)
    → IsSorted by_set ps
    → AllMeetChecks ps
    → (result : List SatellitePass) × IsBestInOrder ps result
unfolding reconstruct
reconstruct-IsBestInOrder [] ordered checks = (
  [],
  record {
    found = refl;
    selected = Subperm.refl [];
    free = Pairwise.nil;
    largest = λ u s f. rw (Sublistᴰ.eq-nil s) (omega arith);
  },
)
reconstruct-IsBestInOrder (p ∷ ps) ordered checks =
    let all = p ∷ ps in
    let t = table-IsTable p all ordered checks in
    let c =
      walk_collects p all (table all) (prev_next all) t (length all + 1) (length all) (omega arith)
        (omega arith) in
    let result = map (λ j. get_or all j p) c.positions in
    let total = sum_by-map (λ j. get_or all j p) benefit c.positions ∙ c.total in
    let whole =
      selected-sublist p all ordered checks (length all) c.positions (omega arith) c.descends in
    let within : Within p all ordered checks 0 0 0 = (omega arith, λ i hi h. omega arith) in
    (
      result,
      record {
        found = c.result;
        selected = (Perm.Subperm-right (reverse_perm result)).0 (
            Sublist.subperm
              (subst (Sublist (reverse result)) (take_all all (length all) (omega arith)) whole));
        free =
            selected-ConflictFree p all ordered checks (length all) c.positions (omega arith)
              c.descends;
        largest = λ u s f.
            let bound =
              best_bound p all ordered checks 0 0 0 s
                (omega arith, λ i h. ap (λ k. get_or all k p) (omega arith)) within f in
            omega (arith, bound, total);
      },
    )

-- On well-formed passes schedule_weighted returns (its backward loop ends), the result is a
-- conflict-free selection of its input, and no such selection has a larger total benefit.
pub schedule_weighted-IsBest :
    (passes : List SatellitePass)
    → AllMeetChecks passes
    → (result : List SatellitePass) × (schedule_weighted passes ≡ some result)
      × IsBest passes result
unfolding schedule_weighted
schedule_weighted-IsBest passes checks =
    let same = sorted-perm by_set passes in
    let checks' = AllMeetChecks-perm (Perm.symm same) checks in
    let (result, b) =
      reconstruct-IsBestInOrder (sorted by_set passes)
        (sorted-IsSorted by_set (by_key-IsTotal _) passes) checks' in
    (
      result,
      b.found,
      record {
        selected = (Perm.Subperm-left same).0 b.selected;
        free = b.free;
        largest = λ t sub free.
            ∥∥₁_elim (InOrder-of_subperm t passes checks sub free) le_prop
              λ o. omega (arith, b.largest o.picked o.kept o.follows, sum_by-perm benefit o.same);
      },
    )
