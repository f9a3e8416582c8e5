-- ===== src/Scheduling/Heap/Neighbours.antt =====
-- `_has_overlap` looks at two neighbours only, and finds what a scan of the whole list finds.
use sda_system.Prelude.{
  ℕ, suc, ◌≤◌, ◌<◌, ◌≡◌, refl, sym, ap, inl, inr, Bool, true, false, ◌||◌, some, List, [], ◌∷◌,
  arith, Bool-cases,
}
use sda_system.Prelude.Bisect.{bisect, bisect-cons_true, bisect-cons_false}
use sda_system.Scheduling.Intervals.{Interval, Laid}
use sda_system.Scheduling.Heap.{tuple_lt, hits, hits_neighbour, has_overlap, insort}

-- The reference: look at every interval.
unfoldable pub any_overlap : ℕ → ℕ → List Interval → Bool
any_overlap rise end [] = false
any_overlap rise end (iv ∷ ivs) = hits rise end (some iv) || any_overlap rise end ivs

-- Nothing that starts at or after `end` is met.
any_overlap_late :
    (rise end from : ℕ) (ivs : List Interval)
    → Laid from ivs
    → end ≤ from
    → any_overlap rise end ivs ≡ false
unfolding any_overlap
any_overlap_late rise end from [] l h = refl
any_overlap_late rise end from (iv ∷ ivs) l h =
    ground (arith, any_overlap_late rise end iv.stop ivs l.2)

-- From the first interval that starts no earlier, that one decides.
any_overlap_head :
    (rise end from : ℕ) (iv : Interval) (ivs : List Interval)
    → Laid from (iv ∷ ivs)
    → rise ≤ iv.start
    → any_overlap rise end (iv ∷ ivs) ≡ hits rise end (some iv)
unfolding any_overlap
any_overlap_head rise end from iv ivs l h =
    ground (arith, any_overlap_late rise end iv.stop ivs l.2)

module _ (rise end : ℕ) (proper : rise < end) where
  abbrev before : Interval → Bool
  before iv = tuple_lt iv (record { start = rise; stop = end })

  not_before : (iv : Interval) → before iv ≡ false → rise ≤ iv.start
  not_before iv h = ground arith

  -- An interval whose successor starts by `rise` has ended by then.
  passed : (x y : Interval) → x.stop ≤ y.start → before y ≡ true → hits rise end (some x) ≡ false
  passed x y h b = ground arith

  neighbours_first :
      (from : ℕ) (x : Interval) (xs : List Interval)
      → Laid from (x ∷ xs)
      → before x ≡ true
      → hits_neighbour rise end (x ∷ xs) (suc (bisect before xs)) ≡ any_overlap rise end (x ∷ xs)
  unfolding any_overlap bisect
  neighbours_first from x [] l h = refl
  neighbours_first from x (y ∷ ivs) l h = elim (Bool-cases (before y)) [
    | inl k ↦
        rw (bisect-cons_true before y ivs k, any_overlap, passed x y l.2.0 k)
          (neighbours_first x.stop y ivs l.2 k)
    | inr k ↦
        rw (bisect-cons_false before y ivs k, any_overlap)
          (ap (◌||◌ (hits rise end (some x)))
            (sym (any_overlap_head rise end x.stop y ivs l.2 (not_before y k))))
  ]

  neighbours_lem :
      (from : ℕ) (ivs : List Interval)
      → Laid from ivs
      → hits_neighbour rise end ivs (bisect before ivs) ≡ any_overlap rise end ivs
  neighbours_lem from [] l = unfold bisect any_overlap in refl
  neighbours_lem from (x ∷ xs) l = elim (Bool-cases (before x)) [
    | inl h ↦ rw (bisect-cons_true before x xs h) (neighbours_first from x xs l h)
    | inr h ↦
        rw (bisect-cons_false before x xs h)
          (sym (any_overlap_head rise end from x xs l (not_before x h)))
  ]

-- On intervals laid out in order, `_has_overlap` finds an overlap exactly when a scan of all of
-- them does.
pub has_overlap-any_overlap :
    (rise end from : ℕ) (intervals : List Interval)
    → rise < end
    → Laid from intervals
    → has_overlap rise end intervals ≡ any_overlap rise end intervals
unfolding has_overlap
has_overlap-any_overlap rise end from intervals proper l =
    neighbours_lem rise end proper from intervals l

-- A pass that meets none of the intervals takes its place among them.
pub insort-Laid :
    (from : ℕ) (ivs : List Interval) (x : Interval)
    → from ≤ x.start
    → x.start < x.stop
    → Laid from ivs
    → any_overlap x.start x.stop ivs ≡ false
    → Laid from (insort ivs x)
unfolding insort any_overlap
insort-Laid from [] x h p l free = (h, p, tt)
insort-Laid from (y ∷ ys) x h p l free = elim (Bool-cases (tuple_lt x y)) [
  | inl b ↦ rw (b, insort) (h, p, (ground arith, l.1, l.2))
  | inr b ↦ rw (b, insort) (l.0, l.1, insort-Laid y.stop ys x (ground arith) p l.2 (ground arith))
]

pub any_overlap-insort :
    (rise end : ℕ) (ivs : List Interval) (x : Interval)
    → any_overlap rise end (insort ivs x) ≡ (hits rise end (some x) || any_overlap rise end ivs)
unfolding insort any_overlap
any_overlap-insort rise end [] x = refl
any_overlap-insort rise end (y ∷ ys) x = ground (arith, any_overlap-insort rise end ys x)
