-- ===== src/Scheduling/Weighted/Arrays.antt =====
-- The arrays of schedule_weighted over a list in the order of the ends: `prev` separates what ends
-- before a pass from the rest, and the table solves the recurrence.
use mathlib.Core.List.Pairwise
use native.Mathlib.Decide.{dec_lt}
use sda_system.Prelude.{
  ℕ, suc, ◌+◌, ◌≤◌, ◌<◌, ◌≡◌, ◌∙◌, ap, List, map, Pairwise, length, get_or, replicate, arith,
  le_prop, leb→le, get_or-map, get_or-mem, length-map, length-replicate, get_or-replicate,
}
use sda_system.Prelude.Sorting.{IsSorted}
use sda_system.Prelude.Bisect.{
  bisect_right, bisect_right_below, lt-bisect_right, bisect_right-le-length,
}
use sda_system.Models.{SatellitePass}
use sda_system.Scheduling.Selection.{by_set, AllMeetChecks}
use sda_system.Scheduling.Weighted.{benefit, prev_next, fill, table}
use sda_system.Scheduling.Weighted.Table.{fill_keeps, fill_step, IsTable}

module _ (d : SatellitePass) (ps : List SatellitePass) (ordered : IsSorted by_set ps)
    (checks : AllMeetChecks ps) where
  abbrev ends : List ℕ
  ends = map (λ (q : SatellitePass). q.set_time) ps

  ends_ascend : Pairwise ◌≤◌ ends
  ends_ascend =
      Pairwise.map (λ a b. le_prop) (λ (q : SatellitePass). q.set_time)
        (λ a b h. leb→le a.set_time b.set_time h) ordered

  next_lem :
      (j : ℕ)
      → j < length ps
      → get_or (prev_next ps) j 0 ≡ bisect_right ends (get_or ps j d).rise_time
  unfolding prev_next
  next_lem j h = get_or-map _ ps j d 0 h

  -- What stands left of the insertion point has ended by the time the pass rises.
  pub next_below :
      (j k : ℕ)
      → j < length ps
      → k < get_or (prev_next ps) j 0
      → (k < length ps) × ((get_or ps k d).set_time ≤ (get_or ps j d).rise_time)
  next_below j k hj hk =
      let at = next_lem j hj in
      let hk' : k < bisect_right ends (get_or ps j d).rise_time = omega arith in
      let bound : k < length ps = omega (
        arith,
        bisect_right-le-length ends (get_or ps j d).rise_time,
        length-map (λ (q : SatellitePass). q.set_time) ps,
      ) in
      (
        bound,
        omega (
          arith,
          bisect_right_below ends (get_or ps j d).rise_time k hk',
          get_or-map (λ (q : SatellitePass). q.set_time) ps k d 0 bound,
        ),
      )

  pub lt-next :
      (j k : ℕ)
      → j < length ps
      → k < length ps
      → (get_or ps k d).set_time ≤ (get_or ps j d).rise_time
      → k < get_or (prev_next ps) j 0
  lt-next j k hj hk h =
      let at = next_lem j hj in
      let found =
        lt-bisect_right ends_ascend (get_or ps j d).rise_time k
          (omega (arith, length-map (λ (q : SatellitePass). q.set_time) ps))
          (omega (arith, get_or-map (λ (q : SatellitePass). q.set_time) ps k d 0 hk)) in
      omega arith

  next-le : (j : ℕ) → j < length ps → get_or (prev_next ps) j 0 ≤ j
  next-le j h = elim (dec_lt j (get_or (prev_next ps) j 0)) [
    | yes k ↦
        let (_, early) = next_below j j h k in
        let late = (checks _ (get_or-mem ps j d h)).time_order in absurd (omega arith)
    | no k ↦ omega arith
  ]

  pub table-IsTable :
      IsTable
        (length ps)
        (λ j. benefit (get_or ps j d))
        (λ j. get_or (prev_next ps) j 0)
        (λ j. get_or (table ps) j 0)
  unfolding table
  table-IsTable = record {
    base = fill_keeps _ _ (length ps) 0 _ 0 (omega arith) ∙ get_or-replicate (length ps + 1) 0;
    below = next-le;
    step = λ j h.
        let entry =
          fill_step (map benefit ps) (prev_next ps) (length ps) 0 (replicate (length ps + 1) 0)
            (length-replicate (length ps + 1) 0 ∙ omega arith) j (omega arith) (omega arith)
            (next-le j h) in
        let final =
          fill (map benefit ps) (prev_next ps) (length ps) 0 (replicate (length ps + 1) 0) in
        let at : get_or final (suc j) 0 ≡ get_or final (j + 1) 0 =
          ap (λ k. get_or final k 0) (omega arith) in
        omega (arith, at, entry, get_or-map benefit ps j d 0 h);
  }
