-- ===== src/Scheduling/Slots/Merge.antt =====
-- `_merge_intervals` covers the instants that its input covers, by windows with gaps between them.
use mathlib.Core.List.{mem-cons, mem-cons_self}
use mathlib.Core.List.Perm
use mathlib.Core.HLevel.{×_prop}
use mathlib.Core.Logic.Or
use sda_system.Prelude.{
  ℕ, ◌≤◌, ◌<◌, ◌≡◌, refl, ◌∙◌, ap, not_leb→lt, forall-cons, le_prop, inl, inr, ◌||◌, List, [], ◌∷◌,
  Mem, Pairwise, max, leb, leb→le, arith, Bool-cases,
}
use sda_system.Prelude.Sorting.{sorted, sorted-perm, sorted-IsSorted, by_key-IsTotal, IsSorted}
use sda_system.Scheduling.Intervals.{Interval, contains, covers, covers-perm}
use sda_system.Scheduling.Slots.{by_start, merge_scan, merge_sorted, merge_intervals}

merge_step :
    (last iv : Interval) (ivs : List Interval) (t : ℕ)
    → last.start ≤ iv.start
    → iv.start ≤ last.stop
    → covers (record last { stop = max last.stop iv.stop } ∷ ivs) t ≡ covers (last ∷ iv ∷ ivs) t
unfolding covers
merge_step last iv ivs t h k = ground arith

merge_scan-covers :
    (last : Interval) (ivs : List Interval) (t : ℕ)
    → IsSorted by_start (last ∷ ivs)
    → covers (merge_scan last ivs) t ≡ covers (last ∷ ivs) t
unfolding merge_scan covers
merge_scan-covers last [] t s = refl
merge_scan-covers last (iv ∷ ivs) t (Pairwise.cons below (Pairwise.cons below' s)) =
    elim (Bool-cases (leb iv.start last.stop)) [
      | inl h ↦
          let last' = record last { stop = max last.stop iv.stop } in
          let later = λ (a : Interval) (m : Mem a ivs). below a (mem-cons.1 (Or.inr m)) in
          rw (h, merge_scan)
            (merge_scan-covers last' ivs t (Pairwise.cons later s)
              ∙ merge_step last iv ivs t (leb→le _ _ (below iv mem-cons_self)) (leb→le _ _ h))
      | inr h ↦
          rw (h, merge_scan)
            (ap (◌||◌ (contains last t)) (merge_scan-covers iv ivs t (Pairwise.cons below' s)))
    ]

-- On every input, merging keeps the instants that are covered.
pub merge_intervals-covers :
    (intervals : List Interval) (t : ℕ) → covers (merge_intervals intervals) t ≡ covers intervals t
unfolding merge_intervals
merge_intervals-covers intervals t =
    go (sorted by_start intervals) (sorted-IsSorted by_start (by_key-IsTotal _) intervals)
    ∙ covers-perm t (sorted-perm by_start intervals)
  where
    go : (l : List Interval) → IsSorted by_start l → covers (merge_sorted l) t ≡ covers l t
    go [] s = refl
    go (iv ∷ ivs) s = merge_scan-covers iv ivs t s

-- Windows of positive length that end by `end`, each with a gap before it.
abbrev pub Separated : ℕ → ℕ → List Interval → Type 0
Separated end from [] = Unit {0}
Separated end from (iv ∷ ivs) =
    (from < iv.start) × (iv.start < iv.stop) × (iv.stop ≤ end) × Separated end iv.stop ivs

-- The same, with nothing asked before the first.
abbrev pub IsMerged : ℕ → List Interval → Type 0
IsMerged end [] = Unit {0}
IsMerged end (iv ∷ ivs) = (iv.start < iv.stop) × (iv.stop ≤ end) × Separated end iv.stop ivs

-- Every interval has a positive length and ends by `end`.
abbrev pub ProperBy : ℕ → List Interval → Type 0
ProperBy end l = (iv : Interval) → Mem iv l → (iv.start < iv.stop) × (iv.stop ≤ end)

IsMerged-Separated :
    (end from : ℕ) (l : List Interval) (first : Interval)
    → IsMerged end (first ∷ l)
    → from < first.start
    → Separated end from (first ∷ l)
IsMerged-Separated end from l first m h = (h, m.0, m.1, m.2)

merge_scan-IsMerged :
    (end : ℕ) (last : Interval) (ivs : List Interval)
    → ProperBy end (last ∷ ivs)
    → IsMerged end (merge_scan last ivs)
      × ((from : ℕ) → from < last.start → Separated end from (merge_scan last ivs))
unfolding merge_scan
merge_scan-IsMerged end last [] proper =
    let (p, q) = proper last mem-cons_self in ((p, q, tt), λ from h. (h, p, q, tt))
merge_scan-IsMerged end last (iv ∷ ivs) proper =
    let (p, q) = proper last mem-cons_self in
    let (p', q') = proper iv (mem-cons.1 (Or.inr mem-cons_self)) in
    let rest =
      λ (a : Interval) (m : Mem a ivs). proper a (mem-cons.1 (Or.inr (mem-cons.1 (Or.inr m)))) in
    elim (Bool-cases (leb iv.start last.stop)) [
      | inl h ↦
          let last' = record last { stop = max last.stop iv.stop } in
          rw (h, merge_scan)
            (merge_scan-IsMerged end last' ivs
              (forall-cons (λ a. ×_prop le_prop le_prop) (omega arith, omega arith) rest))
      | inr h ↦
          let (_, separated) =
            merge_scan-IsMerged end iv ivs (λ a m. proper a (mem-cons.1 (Or.inr m))) in
          let gap = separated last.stop (not_leb→lt _ _ h) in
          rw (h, merge_scan) ((p, q, gap), λ from k. (k, p, q, gap))
    ]

-- Intervals of positive length that end by `end` are merged into such windows, with a gap between
-- each window and the next.
pub merge_intervals-IsMerged :
    (end : ℕ) (intervals : List Interval)
    → ProperBy end intervals
    → IsMerged end (merge_intervals intervals)
unfolding merge_intervals
merge_intervals-IsMerged end intervals proper =
    go (sorted by_start intervals)
      (λ iv m. proper iv ((Perm.mem_iff (sorted-perm by_start intervals)).0 m))
  where
    go : (l : List Interval) → ProperBy end l → IsMerged end (merge_sorted l)
    go [] h = tt
    go (iv ∷ ivs) h = (merge_scan-IsMerged end iv ivs h).0

-- Merging intervals of positive length that end by `end` keeps the instants that are covered and
-- gives such intervals again, with a gap between each and the next.
pub merge_intervals-IsUnion :
    (end : ℕ) (intervals : List Interval)
    → ProperBy end intervals
    → ((t : ℕ) → covers (merge_intervals intervals) t ≡ covers intervals t)
      × IsMerged end (merge_intervals intervals)
merge_intervals-IsUnion end intervals proper =
    (merge_intervals-covers intervals, merge_intervals-IsMerged end intervals proper)
