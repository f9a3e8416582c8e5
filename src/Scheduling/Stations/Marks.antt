-- ===== src/Scheduling/Stations/Marks.antt =====
-- The commit marks the rows of the schedule, and no later run finds them among its candidates.
use mathlib.Core.Path.{subst}
use mathlib.Core.Bool.{true≢false}
use mathlib.Core.List.{Mem-prop, mem-cons, mem-cons_self, not-mem-nil}
use mathlib.Core.Logic.Or
use mathlib.Core.Logic.{∥∥₁_elim, ∥∥₁_map, ∥∥₁_prop}
use sda_system.Scheduling.Selection.{AllMeetChecks, MeetsChecks-prop}
use sda_system.Scheduling.Stations.Rounds.{OpensWithin}
use sda_system.Prelude.{
  ℕ, ◌≡◌, refl, ap, inl, inr, Bool, true, false, not, List, [], ◌∷◌, map, String, select,
  select-cons_true, select-cons_false, elem, Bool-cases, arith, sym, ◌∙◌, ◌⊎◌, Mem,
}
use sda_system.Models.{Stage, SatellitePass, MeetsChecks}
use sda_system.Scheduling.Stations.{commit, commit_row, mark, candidates, is_candidate}

pub commit-nil : (stage : Stage) (db : List SatellitePass) → commit stage [] db ≡ db
unfolding commit elem
commit-nil stage [] = refl
commit-nil stage (row ∷ rows) = ap (◌∷◌ row) (commit-nil stage rows)

-- Whose key is not among those of the list.
abbrev pub is_unmarked : List SatellitePass → SatellitePass → Bool
is_unmarked selected p = not (elem p.id (map (λ (q : SatellitePass). q.id) selected))

-- A marked row is no candidate.
mark_shut :
    (stage : Stage) (r : SatellitePass) (station_id : String) (start_time end_time : ℕ)
    (satellites : List ℕ)
    → is_candidate station_id start_time end_time satellites (mark stage r) ≡ false
unfolding is_candidate
mark_shut stage r station_id start_time end_time satellites = ground arith

-- Taking the unmarked ones after the open ones, at one more row.
module _ (unmarked open_row : SatellitePass → Bool) (row : SatellitePass)
    (rows : List SatellitePass) where
  select_dropped :
      unmarked row ≡ false
      → select unmarked (select open_row (row ∷ rows)) ≡ select unmarked (select open_row rows)
  select_dropped m = elim (Bool-cases (open_row row)) [
    | inl h ↦
        ap (select unmarked) (select-cons_true open_row row rows h)
        ∙ select-cons_false unmarked row _ m
    | inr h ↦ ap (select unmarked) (select-cons_false open_row row rows h)
  ]

  select_kept :
      (l : List SatellitePass)
      → unmarked row ≡ true
      → select open_row l ≡ select unmarked (select open_row rows)
      → select open_row (row ∷ l) ≡ select unmarked (select open_row (row ∷ rows))
  select_kept l m ih = elim (Bool-cases (open_row row)) [
    | inl h ↦
        select-cons_true open_row row l h
        ∙ ap (◌∷◌ row) ih
        ∙ sym (
            ap (select unmarked) (select-cons_true open_row row rows h)
            ∙ select-cons_true unmarked row _ m)
    | inr h ↦
        select-cons_false open_row row l h
        ∙ ih
        ∙ sym (ap (select unmarked) (select-cons_false open_row row rows h))
  ]

-- After a commit the candidates of any station are those of before less the passes committed.
pub commit-candidates :
    (stage : Stage) (selected db : List SatellitePass) (station_id : String)
    (start_time end_time : ℕ) (satellites : List ℕ)
    → candidates (commit stage selected db) station_id start_time end_time satellites
      ≡ select (is_unmarked selected) (candidates db station_id start_time end_time satellites)
unfolding commit candidates
commit-candidates stage selected [] station_id start_time end_time satellites =
    unfold select in refl
commit-candidates stage selected (row ∷ rows) station_id start_time end_time satellites =
    let open_row = is_candidate station_id start_time end_time satellites in
    let ih = commit-candidates stage selected rows station_id start_time end_time satellites in
    elim (Bool-cases (elem row.id (map (λ (q : SatellitePass). q.id) selected))) [
      | inl m ↦ rw m (
          select-cons_false open_row (mark stage row) _
            (mark_shut stage row station_id start_time end_time satellites)
          ∙ ih
          ∙ sym (select_dropped (is_unmarked selected) open_row row rows (ap not m)))
      | inr m ↦ rw m (select_kept (is_unmarked selected) open_row row rows _ (ap not m) ih)
    ]

-- A row of the committed table is a row of before, or a marked one.
commit-mem :
    (stage : Stage) (selected db : List SatellitePass) (p : SatellitePass)
    → Mem p (commit stage selected db)
    → ∥ ((r : SatellitePass) × Mem r db × ((p ≡ r) ⊎ (p ≡ mark stage r))) ∥₁
unfolding commit
commit-mem stage selected [] p m = absurd (not-mem-nil m)
commit-mem stage selected (row ∷ rows) p m =
    Or.elim ∥∥₁_prop (mem-cons.0 m) (λ e. ∣ (row, mem-cons_self, written row _ e) ∣₁)
      (λ k. ∥∥₁_map (commit-mem stage selected rows p k) λ (r, n, e). (r, mem-cons.1 (Or.inr n), e))
  where
    written :
        (r : SatellitePass) (b : Bool) → p ≡ commit_row stage r b → (p ≡ r) ⊎ (p ≡ mark stage r)
    written r true e = inr e
    written r false e = inl e

pub commit-OpensWithin :
    (stage : Stage) (selected table : List SatellitePass)
    → OpensWithin (commit stage selected table) table
commit-OpensWithin stage selected table p m unscheduled =
    ∥∥₁_elim (commit-mem stage selected table p m) Mem-prop λ (r, n, e). elim e [
      | inl same ↦ subst (λ q. Mem q table) (sym same) n
      | inr marked ↦ absurd (shut r marked)
    ]
  where
    shut : (r : SatellitePass) → p ≡ mark stage r → ⊥
    shut r e = true≢false (sym (ap (λ (q : SatellitePass). q.is_scheduled) e) ∙ unscheduled)

pub commit-AllMeetChecks :
    (stage : Stage) (selected table : List SatellitePass)
    → AllMeetChecks table
    → AllMeetChecks (commit stage selected table)
commit-AllMeetChecks stage selected table checks p m =
    ∥∥₁_elim (commit-mem stage selected table p m) (MeetsChecks-prop p) λ (r, n, e). elim e [
      | inl same ↦ subst MeetsChecks (sym same) (checks r n)
      | inr marked ↦ subst MeetsChecks (sym marked) (kept r (checks r n))
    ]
  where
    kept : (r : SatellitePass) → MeetsChecks r → MeetsChecks (mark stage r)
    kept r h = record {
      time_order = h.time_order;
      duration_positive = h.duration_positive;
      elevation_range = h.elevation_range;
    }
