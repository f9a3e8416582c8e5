-- ===== src/Scheduling/Conflicts/Pairs.antt =====
-- The sweep reports the overlapping pairs, each as often as the reference.
use mathlib.Core.List.{
  filter, filter_congr, filter-filter, filter-eq_self, mem-cons, mem-cons_self, not-mem-nil,
}
use mathlib.Core.List.Pairwise
use mathlib.Core.List.Perm
use mathlib.Core.Bool.{Bool-set}
use mathlib.Core.Logic.{if_pos, if_neg}
use native.Mathlib.Nat.{le_trans}
use mathlib.Core.Logic.Dec
use mathlib.Core.Logic.Or
use mathlib.Core.Path.{subst}
use native.Mathlib.Decide.{dec_lt}
use sda_system.Prelude.{
  ℕ, ◌≤◌, ◌<◌, ◌≡◌, refl, sym, ◌∙◌, ap, inl, inr, List, [], ◌∷◌, ◌++◌, map, Mem, Pairwise, Perm,
  arith, leb, leb→le, le→leb, Bool-cases, le_prop, forall-cons, not_leb→lt, ltb, ltb→lt, length,
  if◌then◌else◌,
}
use sda_system.Prelude.Sorting.{sorted, sorted-perm, sorted-IsSorted, by_key-IsTotal, IsSorted}
use sda_system.Models.{SatellitePass, Overlap}
use sda_system.Scheduling.Selection.{by_set, AllMeetChecks, AllMeetChecks-perm}
use sda_system.Scheduling.Conflicts.{by_rise, expire, push, sweep, detect_conflicts}

abbrev pub dec_overlap : (a p : SatellitePass) → Dec (Overlap a p)
dec_overlap a p = Dec.and (dec_lt a.rise_time p.set_time) (dec_lt p.rise_time a.set_time)

-- The reference: each pass with every pass before it that it overlaps.
unfoldable pub overlapping_pairs :
    List SatellitePass → List SatellitePass → List (SatellitePass × SatellitePass)
overlapping_pairs seen [] = []
overlapping_pairs seen (p ∷ ps) =
    map (λ a. (a, p)) (filter (λ a. dec_overlap a p) seen) ++ overlapping_pairs (p ∷ seen) ps

-- The passes that end after `rise`.
abbrev alive : ℕ → List SatellitePass → List SatellitePass
alive rise = filter (λ (a : SatellitePass). dec_lt rise a.set_time)

alive-alive : (r r' : ℕ) (l : List SatellitePass) → r ≤ r' → alive r' (alive r l) ≡ alive r' l
alive-alive r r' l h =
    filter-filter (λ (a : SatellitePass). dec_lt r' a.set_time)
      (λ (a : SatellitePass). dec_lt r a.set_time) l
    ∙ filter_congr _ _ l (λ x m. (λ b. b.0, λ k. (k, omega arith)))

expire-alive : (r : ℕ) (l : List SatellitePass) → IsSorted by_set l → expire r l ≡ alive r l
unfolding expire
expire-alive r [] s = refl
expire-alive r (a ∷ l) (Pairwise.cons below s) = elim (Bool-cases (leb a.set_time r)) [
  | inl h ↦ rw (h, if_neg _ (λ k. gone (leb→le _ _ h) k)) (expire-alive r l s)
  | inr h ↦
      let late = not_leb→lt a.set_time r h in
      let whole =
        forall-cons {P = λ b. r < b.set_time} (λ b. le_prop) late
          (λ b m. later b late (leb→le _ _ (below b m))) in
      subst (λ u. u ≡ alive r (a ∷ l)) (rw h)
        (sym ((filter-eq_self (λ (b : SatellitePass). dec_lt r b.set_time)).1 whole))
]
  where
    gone : a.set_time ≤ r → r < a.set_time → ⊥
    gone h k = omega arith

    later : (b : SatellitePass) → r < a.set_time → a.set_time ≤ b.set_time → r < b.set_time
    later b h k = omega arith

push-perm : (p : SatellitePass) (l : List SatellitePass) → Perm (push p l) (p ∷ l)
unfolding push
push-perm p [] = Perm.rfl
push-perm p (a ∷ l) = elim (Bool-cases (leb a.set_time p.set_time)) [
  | inl h ↦ rw h (Perm.trans (Perm.cons a (push-perm p l)) (Perm.swap p a l))
  | inr h ↦ rw h Perm.rfl
]

push-IsSorted :
    (p : SatellitePass) (l : List SatellitePass) → IsSorted by_set l → IsSorted by_set (push p l)
unfolding push
push-IsSorted p [] s = Pairwise.cons (λ b m. absurd (not-mem-nil m)) Pairwise.nil
push-IsSorted p (a ∷ l) (Pairwise.cons below s) = elim (Bool-cases (leb a.set_time p.set_time)) [
  | inl h ↦ rw h (
      Pairwise.cons
        (λ b m. forall-cons (λ c. Bool-set _ _) h below b ((Perm.mem_iff (push-perm p l)).0 m))
        (push-IsSorted p l s))
  | inr h ↦ rw h (
      Pairwise.cons
        (forall-cons (λ c. Bool-set _ _) (le→leb _ _ (omega (arith, not_leb→lt _ _ h)))
          (λ b m. le→leb _ _ (le_trans (omega (arith, not_leb→lt _ _ h)) (leb→le _ _ (below b m)))))
        (Pairwise.cons below s))
]

alive-cons_yes :
    (r : ℕ) (p : SatellitePass) (u : List SatellitePass)
    → r < p.set_time
    → alive r (p ∷ u) ≡ p ∷ alive r u
alive-cons_yes r p u k = if_pos (dec_lt r p.set_time) k (p ∷ alive r u) (alive r u)

alive-cons_no :
    (r : ℕ) (p : SatellitePass) (u : List SatellitePass)
    → ¬ r < p.set_time
    → alive r (p ∷ u) ≡ alive r u
alive-cons_no r p u k = if_neg (dec_lt r p.set_time) k (p ∷ alive r u) (alive r u)

alive-cons :
    (r : ℕ) (p : SatellitePass) (u v : List SatellitePass)
    → Perm (alive r u) (alive r v)
    → Perm (alive r (p ∷ u)) (alive r (p ∷ v))
alive-cons r p u v h = elim (dec_lt r p.set_time) [
  | yes k ↦ rw (alive-cons_yes r p u k, alive-cons_yes r p v k) (Perm.cons p h)
  | no k ↦ rw (alive-cons_no r p u k, alive-cons_no r p v k) h
]

-- Where the sweep stands at `rise`: the heap holds the passes seen that may still overlap.
record Sweeping (rise : ℕ) (active seen : List SatellitePass) : Type 0 where
  ordered : IsSorted by_set active
  same : (r : ℕ) → rise ≤ r → Perm (alive r active) (alive r seen)
  risen : (a : SatellitePass) → Mem a seen → a.rise_time ≤ rise

module _ (rise : ℕ) (active seen : List SatellitePass) (p : SatellitePass)
    (s : Sweeping rise active seen) (h : rise ≤ p.rise_time) where
  abbrev live : List SatellitePass
  live = expire p.rise_time active

  live_lem : live ≡ alive p.rise_time active
  live_lem = expire-alive p.rise_time active s.ordered

  live-perm : p.rise_time < p.set_time → Perm live (filter (λ a. dec_overlap a p) seen)
  live-perm proper =
      let overlapping =
        filter_congr (λ (a : SatellitePass). dec_lt p.rise_time a.set_time) (λ a. dec_overlap a p)
          seen (λ a m. (λ k. (up a (s.risen a m) proper, k), λ o. o.1)) in
      subst (λ u. Perm u (filter (λ a. dec_overlap a p) seen)) (sym live_lem)
        (subst (Perm (alive p.rise_time active)) overlapping (s.same p.rise_time h))
    where
      up :
          (a : SatellitePass)
          → a.rise_time ≤ rise
          → p.rise_time < p.set_time
          → a.rise_time < p.set_time
      up a k proper = omega arith

  Sweeping-push : Sweeping p.rise_time (push p live) (p ∷ seen)
  Sweeping-push = record {
    ordered = push-IsSorted p live (rw live_lem (Pairwise.filter _ s.ordered));
    same = λ r k.
        let kept = ap (alive r) live_lem ∙ alive-alive p.rise_time r active k in
        Perm.trans (Perm.filter (λ (a : SatellitePass). dec_lt r a.set_time) (push-perm p live)) (
          alive-cons r p live seen
            (subst (λ u. Perm u (alive r seen)) (sym kept) (s.same r (le_trans h k))));
    risen = forall-cons (λ a. le_prop) (omega arith) (λ a m. le_trans (s.risen a m) h);
  }

sweep-perm :
    (rise : ℕ) (active seen ps : List SatellitePass)
    → Sweeping rise active seen
    → IsSorted by_rise ps
    → ((p : SatellitePass) → Mem p ps → rise ≤ p.rise_time)
    → AllMeetChecks ps
    → Perm (sweep active ps) (overlapping_pairs seen ps)
unfolding sweep overlapping_pairs
sweep-perm rise active seen [] s o late checks = Perm.rfl
sweep-perm rise active seen (p ∷ ps) s (Pairwise.cons below o) late checks =
    let h = late p mem-cons_self in
    let proper = (checks p mem-cons_self).time_order in
    let rest = λ (q : SatellitePass) (m : Mem q ps). checks q (mem-cons.1 (Or.inr m)) in
    Perm.append (Perm.map (λ a. (a, p)) (live-perm rise active seen p s h proper)) (
      sweep-perm p.rise_time (push p (expire p.rise_time active)) (p ∷ seen) ps
        (Sweeping-push rise active seen p s h) o (λ q m. leb→le _ _ (below q m)) rest)

Sweeping-start : Sweeping 0 [] []
Sweeping-start = record {
  ordered = Pairwise.nil;
  same = λ r h. Perm.rfl;
  risen = λ a m. absurd (not-mem-nil m);
}

-- On well-formed passes the sweep reports each pass, in the order of the rises, with every earlier
-- one that it overlaps: the same pairs as the reference, each as often.
pub detect_conflicts-perm :
    (passes : List SatellitePass)
    → AllMeetChecks passes
    → Perm (detect_conflicts passes) (overlapping_pairs [] (sorted by_rise passes))
unfolding detect_conflicts
detect_conflicts-perm [] checks = unfold sorted overlapping_pairs in Perm.rfl
detect_conflicts-perm (p ∷ []) checks = unfold sorted overlapping_pairs in Perm.rfl
detect_conflicts-perm (p ∷ q ∷ ps) checks = elim (Bool-cases (ltb (length (p ∷ q ∷ ps)) 2)) [
  | inl h ↦ absurd (omega (arith, ltb→lt _ _ h))
  | inr h ↦
      let l = sorted by_rise (p ∷ q ∷ ps) in
      subst (λ b. Perm (if b then [] else sweep [] l) (overlapping_pairs [] l)) (sym h)
        (sweep-perm 0 [] [] l Sweeping-start (sorted-IsSorted by_rise (by_key-IsTotal _) _)
          (λ r m. omega arith) (AllMeetChecks-perm (Perm.symm (sorted-perm by_rise _)) checks))
]
