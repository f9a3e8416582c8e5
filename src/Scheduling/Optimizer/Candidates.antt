-- ===== src/Scheduling/Optimizer/Candidates.antt =====
-- What the candidates of the second stage and their times in whole seconds are.
use mathlib.Core.List.{Mem-prop, mem-cons, not-mem-nil}
use mathlib.Core.List.Perm
use mathlib.Core.Logic.Or
use mathlib.Core.Option
use mathlib.Core.Bool.{Bool-set}
use mathlib.Core.Path.{subst}
use mathlib.Core.HLevel.{×_prop}
use native.Mathlib.Nat.{ℕ_set}
use sda_system.Prelude.{
  ℕ, ◌+◌, ◌-◌, ◌*◌, ◌/◌, ◌≤◌, ◌<◌, ◌≡◌, refl, sym, ◌∙◌, ap, inl, inr, Bool, true, false, Option,
  none, some, List, [], ◌∷◌, Mem, String, arith, select-mem, elem, Mem→elem, Bool-cases, leb,
  leb→le, not_leb→lt, ◌==◌, if◌then◌else◌, le_prop, ◌⊎◌,
}
use sda_system.Prelude.Sorting.{sorted-perm}
use sda_system.Models.{SatellitePass}
use sda_system.Scheduling.Intervals.{Interval}
use sda_system.Scheduling.Optimizer.{
  to_utc_seconds, second, Timed, is_remaining, slots_of, get_candidate_passes, valid_passes,
  timed_at, keep_timed, scaled_benefit,
}
use sda_system.Scheduling.Optimizer.Fits.{fits_in_any_slot-Mem}

-- An open row within the horizon, of a satellite not scheduled yet, that lies in a free slot.
pub record IsCandidate (db : List SatellitePass) (scheduled : List ℕ) (start_time end_time : ℕ)
    (free_slots : List (String × List Interval)) (p : SatellitePass) : Type 0 where
  pub row : Mem p db
  pub unscheduled : p.is_scheduled ≡ false
  pub after_start : start_time ≤ p.rise_time
  pub before_end : p.set_time ≤ end_time
  pub unseen : ¬ Mem p.norad_id scheduled
  pub slot : ∥ (
      (s : Interval) × Mem s (slots_of p.station_id free_slots)
      × (s.start ≤ p.rise_time)
      × (p.set_time ≤ s.stop)) ∥₁

pub IsCandidate-prop :
    (db : List SatellitePass) (scheduled : List ℕ) (start_time end_time : ℕ)
    (free_slots : List (String × List Interval)) (p : SatellitePass)
    → IsProp (IsCandidate db scheduled start_time end_time free_slots p)
IsCandidate-prop db scheduled start_time end_time free_slots p =
    hlevel (le_prop, Mem-prop, Bool-set)

pub get_candidate_passes-IsCandidate :
    (row_order : SatellitePass → SatellitePass → Bool) (db : List SatellitePass)
    (scheduled : List ℕ) (start_time end_time : ℕ) (free_slots : List (String × List Interval))
    (p : SatellitePass)
    → Mem p (get_candidate_passes row_order db scheduled start_time end_time free_slots)
    → IsCandidate db scheduled start_time end_time free_slots p
unfolding get_candidate_passes is_remaining
get_candidate_passes-IsCandidate row_order db scheduled start_time end_time [] p m =
    absurd (not-mem-nil m)
get_candidate_passes-IsCandidate row_order db scheduled start_time end_time (s ∷ ss) p m =
    let (n, fits) = select-mem _ _ p m in
    let (row, passed) = select-mem _ db p ((Perm.mem_iff (sorted-perm _ _)).0 n) in
    record {
      row = row;
      unscheduled = ground arith;
      after_start = ground arith;
      before_end = ground arith;
      unseen = λ k. seen (Mem→elem _ _ k) passed;
      slot = ∣ fits_in_any_slot-Mem _ _ _ fits ∣₁;
    }
  where
    seen :
        elem p.norad_id scheduled ≡ true → is_remaining scheduled start_time end_time p ≡ true → ⊥
    seen e k = ground arith

pub record IsTimed (epoch : ℕ) (t : Timed) : Type 0 where
  pub started : to_utc_seconds t.pass.rise_time epoch ≡ some t.start
  pub stopped : to_utc_seconds t.pass.set_time epoch ≡ some t.stop
  pub proper : t.start < t.stop

timed_at-IsTimed :
    (epoch : ℕ) (p : SatellitePass) (o u : Option ℕ) (t : Timed)
    → to_utc_seconds p.rise_time epoch ≡ o
    → to_utc_seconds p.set_time epoch ≡ u
    → timed_at p o u ≡ some t
    → (t.pass ≡ p) × IsTimed epoch t
unfolding timed_at
timed_at-IsTimed epoch p (some s) (some e) t hs he h = elim (Bool-cases (leb e s)) [
  | inl k ↦
      absurd (Option.none-ne-some _ (sym (ap (λ b. if b then none else some (made s e)) k) ∙ h))
  | inr k ↦
      let same = Option.some_inj.0 (sym (ap (λ b. if b then none else some (made s e)) k) ∙ h) in
      subst (λ v. (v.pass ≡ p) × IsTimed epoch v) same
        (refl, record { started = hs; stopped = he; proper = not_leb→lt _ _ k })
]
  where
    made : ℕ → ℕ → Timed
    made s e = record { pass = p; start = s; stop = e; benefit = scaled_benefit p }
timed_at-IsTimed epoch p (some s) none t hs he h = absurd (Option.none-ne-some _ h)
timed_at-IsTimed epoch p none (some e) t hs he h = absurd (Option.none-ne-some _ h)
timed_at-IsTimed epoch p none none t hs he h = absurd (Option.none-ne-some _ h)

-- Step 1 keeps candidates, with their times.
pub valid_passes-IsTimed :
    (epoch : ℕ) (ps : List SatellitePass) (t : Timed)
    → Mem t (valid_passes epoch ps)
    → Mem t.pass ps × IsTimed epoch t
unfolding valid_passes keep_timed
valid_passes-IsTimed epoch [] t m = absurd (not-mem-nil m)
valid_passes-IsTimed epoch (p ∷ ps) t m =
    kept (λ k. let (n, timed) = valid_passes-IsTimed epoch ps t k in (mem-cons.1 (Or.inr n), timed))
      (timed_at p (to_utc_seconds p.rise_time epoch) (to_utc_seconds p.set_time epoch)) refl m
  where
    IsTimed-prop : (v : Timed) → IsProp (IsTimed epoch v)
    IsTimed-prop v = hlevel (le_prop, Option.is_set ℕ_set)

    kept :
        (Mem t (valid_passes epoch ps) → Mem t.pass (p ∷ ps) × IsTimed epoch t)
        → (o : Option Timed)
        → timed_at p (to_utc_seconds p.rise_time epoch) (to_utc_seconds p.set_time epoch) ≡ o
        → Mem t (keep_timed o (valid_passes epoch ps))
        → Mem t.pass (p ∷ ps) × IsTimed epoch t
    kept later none e k = later k
    kept later (some v) e k =
        Or.elim (×_prop Mem-prop (IsTimed-prop t)) (mem-cons.0 k)
          (λ same.
            let (pass, timed) = timed_at-IsTimed epoch p _ _ v refl refl e in
            (
              mem-cons.1 (Or.inl (ap (λ (w : Timed). w.pass) same ∙ pass)),
              subst (IsTimed epoch) (sym same) timed,
            ))
          later

-- A time of at least one whole second lies within its second.
pub to_utc_seconds-bounds :
    (dt epoch n : ℕ)
    → to_utc_seconds dt epoch ≡ some n
    → 0 < n
    → (epoch + n * second ≤ dt) × (dt < epoch + n * second + second)
to_utc_seconds-bounds dt epoch n h pos = elim (Bool-cases (leb epoch dt)) [
  | inl k ↦
      let e =
        Option.some_inj.0
          (sym (ap (λ b. if b then some ((dt - epoch) / second) else early) k) ∙ h) in
      omega (arith, e, leb→le _ _ k)
  | inr k ↦ absurd (
      no_early (
        early_zero (Bool-cases ((epoch - dt) / second == 0))
          (sym (ap (λ b. if b then some ((dt - epoch) / second) else early) k) ∙ h)))
]
  where
    early : Option ℕ
    early = if (epoch - dt) / second == 0 then some 0 else none

    early_zero :
        (((epoch - dt) / second == 0) ≡ true) ⊎ (((epoch - dt) / second == 0) ≡ false)
        → early ≡ some n
        → n ≡ 0
    early_zero (inl z) q =
        sym (Option.some_inj.0 (sym (ap (λ b. if b then some 0 else none) z) ∙ q))
    early_zero (inr z) q =
        absurd (Option.none-ne-some n (sym (ap (λ b. if b then some 0 else none) z) ∙ q))

    no_early : n ≡ 0 → ⊥
    no_early z = omega arith
