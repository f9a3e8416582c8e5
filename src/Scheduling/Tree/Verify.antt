-- ===== src/Scheduling/Tree/Verify.antt =====
-- The final check of the interval-tree scheduler reports nothing exactly on conflict-free passes.
use mathlib.Core.List.{not-mem-nil, mem-cons, mem-cons_self, cons-ne-nil}
use mathlib.Core.Logic.Or
use mathlib.Core.Bool.{Bool-set}
use mathlib.Core.Path.{subst}
use sda_system.Prelude.{
  ℕ, ◌≡◌, refl, sym, ◌∙◌, ◌↔◌, inl, inr, false, List, [], ◌∷◌, ◌++◌, map, Mem, Pairwise, arith,
  Bool-cases, ltb, ltb→lt, length, forall-cons, if◌then◌else◌,
}
use sda_system.Models.{SatellitePass, Apart, ConflictFree}
use sda_system.Scheduling.Selection.{AllMeetChecks}
use sda_system.Scheduling.Pick.{meets, clashes}
use sda_system.Scheduling.Pick.Laws.{Apart-of_clash, clash_tail}
use sda_system.Scheduling.Tree.{
  Entry, TreeOps, TreeLaws, is_truthy, entry, verify_loop, verify_no_conflicts,
}
use sda_system.Scheduling.Tree.Refines.{
  Represents, Represents-empty, Represents-add, truthy-clashes, not_leb,
}

-- No pass of the list meets one seen before it.
abbrev Clear : List SatellitePass → List SatellitePass → Type 0
Clear seen ps =
    ConflictFree ps × ((p : SatellitePass) → Mem p ps → clashes p.rise_time p.set_time seen ≡ false)

Clear-cons :
    (seen : List SatellitePass) (p : SatellitePass) (ps : List SatellitePass)
    → Clear seen (p ∷ ps) ↔ ((clashes p.rise_time p.set_time seen ≡ false) × Clear (p ∷ seen) ps)
unfolding clashes
Clear-cons seen p ps = (to, from)
  where
    to : Clear seen (p ∷ ps) → (clashes p.rise_time p.set_time seen ≡ false) × Clear (p ∷ seen) ps
    to (Pairwise.cons h c, free) =
        (free p mem-cons_self, (c, λ q m. no_clash q (h q m) (free q (mem-cons.1 (Or.inr m)))))
      where
        no_clash :
            (q : SatellitePass)
            → Apart p q
            → clashes q.rise_time q.set_time seen ≡ false
            → clashes q.rise_time q.set_time (p ∷ seen) ≡ false
        no_clash q apart k = elim (Bool-cases (meets q.rise_time q.set_time p)) [
          | inl m ↦ absurd (apart (ground arith, ground arith))
          | inr m ↦ ground arith
        ]

    from : (clashes p.rise_time p.set_time seen ≡ false) × Clear (p ∷ seen) ps → Clear seen (p ∷ ps)
    from (here, (c, free)) = (
      Pairwise.cons (λ q m. Apart-of_clash p q seen (free q m)) c,
      forall-cons (λ q. Bool-set _ _) here
          (λ q m. clash_tail q.rise_time q.set_time p seen (free q m)),
    )

report_nil :
    (value : Entry → ℕ × ℕ) (found : List Entry) (rest : List (ℕ × ℕ))
    → (map value found ++ rest ≡ []) ↔ ((is_truthy found ≡ false) × (rest ≡ []))
report_nil value [] rest = (λ e. (refl, e), λ h. h.1)
report_nil value (x ∷ xs) rest = (λ e. absurd (cons-ne-nil _ _ e), λ h. cc)

module _ (ops : TreeOps) (laws : TreeLaws ops) where
  verify_loop-nil_iff :
      (t : ops.Tree) (seen ps : List SatellitePass)
      → Represents ops laws (λ q. q.norad_id) t seen
      → AllMeetChecks ps
      → (verify_loop ops t ps ≡ []) ↔ Clear seen ps
  unfolding verify_loop
  verify_loop-nil_iff t seen [] r checks =
      (λ e. (Pairwise.nil, λ p m. absurd (not-mem-nil m)), λ c. refl)
  verify_loop-nil_iff t seen (p ∷ ps) r checks =
      let proper = (checks p mem-cons_self).time_order in
      let norad = λ (q : SatellitePass). q.norad_id in
      let agree = truthy-clashes ops laws norad t seen p.rise_time p.set_time proper r in
      let ih =
        verify_loop-nil_iff (ops.add t (entry norad p)) (p ∷ seen) ps
          (Represents-add ops laws norad t seen p proper r)
          (λ q m. checks q (mem-cons.1 (Or.inr m))) in
      rw (not_leb _ _ proper, verify_loop)
        (
          λ e.
              let (none_here, none_later) = (report_nil _ _ _).0 e in
              (Clear-cons seen p ps).1 (sym agree ∙ none_here, ih.0 none_later),
          λ c.
              let (here, later) = (Clear-cons seen p ps).0 c in
              (report_nil _ _ _).1 (agree ∙ here, ih.1 later),
        )

-- On well-formed passes nothing is reported exactly when no two of them overlap.
pub verify_no_conflicts-nil_iff :
    (ops : TreeOps)
    → TreeLaws ops
    → (passes : List SatellitePass) → AllMeetChecks passes
    → (verify_no_conflicts ops passes ≡ []) ↔ ConflictFree passes
unfolding verify_no_conflicts
verify_no_conflicts-nil_iff ops laws [] checks = (λ e. Pairwise.nil, λ c. refl)
verify_no_conflicts-nil_iff ops laws (p ∷ []) checks =
    (λ e. Pairwise.cons (λ q m. absurd (not-mem-nil m)) Pairwise.nil, λ c. refl)
verify_no_conflicts-nil_iff ops laws (p ∷ q ∷ ps) checks =
    elim (Bool-cases (ltb (length (p ∷ q ∷ ps)) 2)) [
      | inl h ↦ absurd (omega (arith, ltb→lt _ _ h))
      | inr h ↦
          let all =
            verify_loop-nil_iff ops laws ops.empty [] (p ∷ q ∷ ps)
              (Represents-empty ops laws (λ r. r.norad_id)) checks in
          subst
            (λ b.
              ((if b then [] else verify_loop ops ops.empty (p ∷ q ∷ ps)) ≡ [])
              ↔ ConflictFree (p ∷ q ∷ ps))
            (sym h) (λ e. (all.0 e).0, λ c. all.1 (c, λ r m. unfold clashes in refl))
    ]
