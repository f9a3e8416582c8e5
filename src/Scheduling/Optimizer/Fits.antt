-- ===== src/Scheduling/Optimizer/Fits.antt =====
-- The slot found by bisection: it contains the pass, and on slots in order it is found whenever
-- some slot contains the pass.
use sda_system.Prelude.{
  ℕ, zero, suc, ◌≤◌, ◌<◌, ◌≡◌, refl, sym, ◌∙◌, ap, inl, inr, Bool, true, false, ◌&&◌, ◌||◌, List,
  [], ◌∷◌, map, Mem, length, get_or, get_or-map, get_or-mem, length-map, leb, leb→le, Bool-cases,
  arith,
}
use sda_system.Prelude.Bisect.{
  bisect, bisect_right, bisect_right_below, bisect_right-le-length, bisect-cons_true,
  bisect-cons_false,
}
use sda_system.Scheduling.Intervals.{Interval, Laid}
use sda_system.Scheduling.Optimizer.{fits_in_any_slot, slot_at}

-- The reference: some slot contains [rise, end].
unfoldable pub fits_some : ℕ → ℕ → List Interval → Bool
fits_some rise end [] = false
fits_some rise end (s ∷ ss) = (leb s.start rise && leb end s.stop) || fits_some rise end ss

fits_some_early :
    (rise end from : ℕ) (ss : List Interval)
    → Laid from ss
    → rise < from
    → fits_some rise end ss ≡ false
unfolding fits_some
fits_some_early rise end from [] l h = refl
fits_some_early rise end from (s ∷ ss) l h = ground (arith, fits_some_early rise end s.stop ss l.2)

-- One slot more, when it starts in time: it contains the pass unless a later one starts in time.
slot_at-cons :
    (rise end : ℕ) (s : Interval) (ss : List Interval) (pos : ℕ)
    → leb s.start rise ≡ true
    → rise < end
    → Laid s.stop ss
    → pos ≡ bisect_right (map (λ (t : Interval). t.start) ss) rise
    → slot_at rise end ss pos ≡ fits_some rise end ss
    → slot_at rise end (s ∷ ss) (suc pos) ≡ fits_some rise end (s ∷ ss)
unfolding slot_at fits_some bisect_right bisect
slot_at-cons rise end s ss zero h proper l e ih = ground arith
slot_at-cons rise end s [] (suc pos) h proper l e ih = absurd (omega (arith, e))
slot_at-cons rise end s (t ∷ ts) (suc pos) h proper l e ih = elim (Bool-cases (leb t.start rise)) [
  | inl k ↦ ih ∙ sym (skip (omega (arith, leb→le _ _ k, l.0)))
  | inr k ↦ absurd (no_suc (e ∙ rw k refl))
]
  where
    skip : s.stop < end → fits_some rise end (s ∷ t ∷ ts) ≡ fits_some rise end (t ∷ ts)
    skip lt = ground arith

    no_suc : suc pos ≡ 0 → ⊥
    no_suc q = omega arith

-- On slots of positive length laid out in order, bisection finds a slot for a pass exactly when
-- one of the slots contains it.
pub fits_in_any_slot-fits_some :
    (rise end from : ℕ) (slots : List Interval)
    → rise < end
    → Laid from slots
    → fits_in_any_slot rise end slots ≡ fits_some rise end slots
unfolding fits_in_any_slot slot_at bisect_right
fits_in_any_slot-fits_some rise end from [] proper l = unfold fits_some bisect in refl
fits_in_any_slot-fits_some rise end from (s ∷ ss) proper l =
    let starts = map (λ (t : Interval). t.start) ss in
    elim (Bool-cases (leb s.start rise)) [
      | inl h ↦
          ap (slot_at rise end (s ∷ ss)) (bisect-cons_true (λ e. leb e rise) s.start starts h)
          ∙ slot_at-cons rise end s ss _ h proper l.2 refl
              (fits_in_any_slot-fits_some rise end s.stop ss proper l.2)
      | inr h ↦
          ap (slot_at rise end (s ∷ ss)) (bisect-cons_false (λ e. leb e rise) s.start starts h)
          ∙ sym (none_fits h (fits_some_early rise end s.stop ss l.2))
    ]
  where
    none_fits :
        leb s.start rise ≡ false
        → (rise < s.stop → fits_some rise end ss ≡ false)
        → fits_some rise end (s ∷ ss) ≡ false
    none_fits h late = unfold fits_some in ground arith

-- On every list of slots, a pass that is found to fit lies in one of them.
pub fits_in_any_slot-Mem :
    (rise end : ℕ) (slots : List Interval)
    → fits_in_any_slot rise end slots ≡ true
    → (s : Interval) × Mem s slots × (s.start ≤ rise) × (end ≤ s.stop)
unfolding fits_in_any_slot slot_at
fits_in_any_slot-Mem rise end slots h = found (bisect_right starts rise) refl h
  where
    starts : List ℕ
    starts = map (λ (t : Interval). t.start) slots

    nowhere : Interval
    nowhere = record { start = 0; stop = 0 }

    found :
        (pos : ℕ)
        → pos ≡ bisect_right starts rise
        → slot_at rise end slots pos ≡ true
        → (s : Interval) × Mem s slots × (s.start ≤ rise) × (end ≤ s.stop)
    found zero e k = cc
    found (suc pos) e k =
        let short = bisect_right-le-length starts rise in
        let within : pos < length slots =
          omega (arith, short, length-map (λ (t : Interval). t.start) slots) in
        let first = bisect_right_below starts rise pos (omega (arith, e)) in
        (
          get_or slots pos nowhere,
          get_or-mem slots pos nowhere within,
          omega (arith, first, get_or-map (λ (t : Interval). t.start) slots pos nowhere 0 within),
          leb→le _ _ k,
        )
