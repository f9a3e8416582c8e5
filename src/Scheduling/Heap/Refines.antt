-- ===== src/Scheduling/Heap/Refines.antt =====
-- schedule_heap takes what the benefit-first specification takes.
use mathlib.Core.List.{mem-cons, mem-cons_self}
use mathlib.Core.List.Perm
use mathlib.Core.Logic.Or
use mathlib.Core.Path.{subst}
use sda_system.Scheduling.Pick.Laws.{IsGreedy, pick-IsGreedy}
use sda_system.Prelude.{
  ℕ, ◌<◌, ◌≡◌, refl, ap, sym, ◌∙◌, inl, inr, false, ◌||◌, some, List, [], ◌∷◌, Mem, arith,
  Bool-cases,
}
use sda_system.Prelude.Sorting.{sorted, sorted-perm, by_key_desc}
use sda_system.Models.{SatellitePass}
use sda_system.Scheduling.Selection.{AllMeetChecks, AllMeetChecks-perm}
use sda_system.Scheduling.Weighted.{benefit}
use sda_system.Scheduling.Intervals.{Interval, window, Laid}
use sda_system.Scheduling.Pick.{clashes, pick}
use sda_system.Scheduling.Heap.{heap_loop, schedule_heap, insort, hits}
use sda_system.Scheduling.Heap.Neighbours.{
  any_overlap, has_overlap-any_overlap, insort-Laid, any_overlap-insort,
}

-- The committed intervals are those of the passes taken.
record Tracks (committed : List Interval) (taken : List SatellitePass) : Type 0 where
  laid : Laid 0 committed
  same : (rise end : ℕ) → any_overlap rise end committed ≡ clashes rise end taken

Tracks-insort :
    (p : SatellitePass) (committed : List Interval) (taken : List SatellitePass)
    → p.rise_time < p.set_time
    → clashes p.rise_time p.set_time taken ≡ false
    → Tracks committed taken
    → Tracks (insort committed (window p)) (p ∷ taken)
unfolding clashes
Tracks-insort p committed taken proper free t = record {
  laid = insort-Laid 0 committed (window p) (omega arith) proper t.laid (t.same _ _ ∙ free);
  same = λ rise end.
      any_overlap-insort rise end committed (window p)
      ∙ ap (◌||◌ (hits rise end (some (window p)))) (t.same rise end);
}

heap_loop-pick :
    (l : List SatellitePass) (committed : List Interval) (taken : List SatellitePass)
    → AllMeetChecks l
    → Tracks committed taken
    → heap_loop l committed ≡ pick taken l
unfolding heap_loop pick
heap_loop-pick [] committed taken checks t = refl
heap_loop-pick (p ∷ l) committed taken checks t =
    let proper = (checks p mem-cons_self).time_order in
    let rest = λ (q : SatellitePass) (m : Mem q l). checks q (mem-cons.1 (Or.inr m)) in
    let test =
      has_overlap-any_overlap p.rise_time p.set_time 0 committed proper t.laid ∙ t.same _ _ in
    elim (Bool-cases (clashes p.rise_time p.set_time taken)) [
      | inl h ↦ rw (test, h, heap_loop, pick) (heap_loop-pick l committed taken rest t)
      | inr h ↦
          rw (test, h, heap_loop, pick)
            (ap (◌∷◌ p)
              (heap_loop-pick l _ (p ∷ taken) rest (Tracks-insort p committed taken proper h t)))
    ]

-- schedule_heap returns what the benefit-first specification picks in descending order of benefit.
schedule_heap-pick :
    (passes : List SatellitePass)
    → AllMeetChecks passes
    → schedule_heap passes ≡ pick [] (sorted (by_key_desc benefit) passes)
unfolding schedule_heap
schedule_heap-pick passes checks =
    heap_loop-pick (sorted (by_key_desc benefit) passes) [] []
      (AllMeetChecks-perm (Perm.symm (sorted-perm (by_key_desc benefit) passes)) checks)
      (unfold any_overlap clashes in record { laid = tt; same = λ rise end. refl })

-- On well-formed passes the result of schedule_heap is a conflict-free selection of its input, and
-- every pass left out overlaps one of the result whose benefit is no less.
pub schedule_heap-IsGreedy :
    (passes : List SatellitePass)
    → AllMeetChecks passes
    → IsGreedy benefit passes (schedule_heap passes)
schedule_heap-IsGreedy passes checks =
    subst (IsGreedy benefit passes) (sym (schedule_heap-pick passes checks))
      (pick-IsGreedy benefit passes)
