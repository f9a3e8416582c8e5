-- ===== src/Scheduling/Optimizer/Solved.antt =====
-- What the second stage schedules, whatever values the solver returns for its program.
use text.Mathlib.Text.{◌==◌ as str_eq}
use text.Mathlib.TextEquality.{eq_iff}
use mathlib.Core.List.{mem-map, not-mem-nil}
use mathlib.Core.List.Pairwise
use mathlib.Core.HLevel.{Π_prop, ¬_prop}
use mathlib.Core.Logic.Or
use mathlib.Core.Logic.{∥∥₁_elim, ◌∨₁◌, ∨₁_prop}
use mathlib.Core.Path.{subst}
use sda_system.Prelude.{
  ℕ, ◌+◌, ◌≤◌, ◌<◌, ◌≡◌, ◌≢◌, ◌⊎◌, refl, sym, ◌∙◌, ap, inl, inr, Bool, true, false, Option, none,
  some, List, [], ◌∷◌, map, Mem, Pairwise, String, arith, length, get_or, get_or-mem, get_or-map,
  length-map, select-keep, lt→ltb,
}
use sda_system.Models.{Stage, SatellitePass}
use sda_system.Scheduling.Intervals.{Interval}
use sda_system.Scheduling.Stations.Marks.{commit-nil}
use sda_system.Scheduling.Optimizer.{
  second, Timed, Program, build_program, station_groups, has_several, extract, Plan, plan_of,
  commit_values, solve_program, optimize_remaining, valid_passes, get_candidate_passes,
}
use sda_system.Scheduling.Optimizer.Groups.{group_keys-together, two-several}
use sda_system.Scheduling.Optimizer.Guards.{
  chosen, extract-sublist, extract-mem, extract-Fresh, chosen-Pairwise,
}
use sda_system.Scheduling.Optimizer.Candidates.{
  IsCandidate, IsCandidate-prop, get_candidate_passes-IsCandidate, IsTimed, valid_passes-IsTimed,
  to_utc_seconds-bounds,
}

-- The intervals do not overlap.
abbrev pub TimedApart : Timed → Timed → Type 0
TimedApart s t = (s.stop ≤ t.start) ⊎ (t.stop ≤ s.start)

-- What CP-SAT documents of AddNoOverlap: the present intervals of a group do not overlap.
pub record SolverLaws (solver : Program → Option (List Bool)) : Type 0 where
  pub no_overlap :
      (program : Program) (values : List Bool)
      → solver program ≡ some values
      → (g : List ℕ) → Mem g program.no_overlap
      → (i j : ℕ) → Mem i g
      → Mem j g
      → i ≢ j
      → get_or values i false ≡ true
      → get_or values j false ≡ true
      → (d : Timed) → TimedApart (get_or program.variables i d) (get_or program.variables j d)

-- At one station two passes overlap by less than a second.
abbrev pub NearlyApart : SatellitePass → SatellitePass → Type 0
NearlyApart p q =
    p.station_id ≡ q.station_id
    → (p.set_time < q.rise_time + second) ∨₁ (q.set_time < p.rise_time + second)

pub record IsPlan (db : List SatellitePass) (scheduled : List ℕ) (start_time end_time : ℕ)
    (free_slots : List (String × List Interval)) (picked : List SatellitePass) : Type 0 where
  pub eligible :
      (p : SatellitePass) → Mem p picked → IsCandidate db scheduled start_time end_time free_slots p
  pub distinct : Pairwise (λ (p q : SatellitePass). p.norad_id ≢ q.norad_id) picked
  pub separate : Pairwise NearlyApart picked

module _ (epoch : ℕ) (s t : Timed) (hs : IsTimed epoch s) (ht : IsTimed epoch t) where
  nearly_before : s.stop ≤ t.start → s.pass.set_time < t.pass.rise_time + second
  nearly_before h =
      let stop =
        to_utc_seconds-bounds s.pass.set_time epoch s.stop hs.stopped (omega (arith, hs.proper)) in
      let start =
        to_utc_seconds-bounds t.pass.rise_time epoch t.start ht.started
          (omega (arith, hs.proper)) in
      omega (arith, stop.1, start.0)

module _ (solver : Program → Option (List Bool)) (laws : SolverLaws solver) (epoch : ℕ) where
  -- The program puts the passes of one station into one group.
  values-TimedApart :
      (ts : List Timed) (values : List Bool) (d : Timed) (i j : ℕ)
      → solver (build_program ts) ≡ some values
      → i < j
      → j < length ts
      → get_or values i false ≡ true
      → get_or values j false ≡ true
      → (get_or ts i d).pass.station_id ≡ (get_or ts j d).pass.station_id
      → TimedApart (get_or ts i d) (get_or ts j d)
  unfolding build_program
  values-TimedApart ts values d i j found lt le vi vj e =
      let keys = map (λ (t : Timed). t.pass.station_id) ts in
      let key_at =
        λ (k : ℕ) (h : k < length ts). get_or-map (λ (t : Timed). t.pass.station_id) ts k d "" h in
      let (g, known, at_i, at_j) =
        group_keys-together str_eq eq_iff keys "" i j
          (omega (arith, length-map (λ (t : Timed). t.pass.station_id) ts))
          (omega (arith, length-map (λ (t : Timed). t.pass.station_id) ts))
          (key_at i (omega arith) ∙ e ∙ sym (key_at j le)) in
      let differ : i ≢ j = λ q. omega (arith, q) in
      laws.no_overlap (build_program ts) values found g
        (select-keep has_several (station_groups ts) g known
          (lt→ltb _ _ (two-several g i j differ at_i at_j)))
        i j at_i at_j differ vi vj d

  NearlyApart-prop : (s t : Timed) → IsProp (NearlyApart s.pass t.pass)
  NearlyApart-prop s t = Π_prop λ e. ∨₁_prop

  chosen-NearlyApart :
      (ts : List Timed) (values : List Bool) (d : Timed)
      → ((t : Timed) → Mem t ts → IsTimed epoch t)
      → solver (build_program ts) ≡ some values
      → Pairwise (λ (s t : Timed). NearlyApart s.pass t.pass) (chosen ts values)
  chosen-NearlyApart ts values d timed found =
      chosen-Pairwise d (λ s t. NearlyApart s.pass t.pass) NearlyApart-prop ts values
        λ i j lt le vi vj e.
          let s = get_or ts i d in
          let t = get_or ts j d in
          let hs = timed s (get_or-mem ts i d (omega arith)) in
          let ht = timed t (get_or-mem ts j d le) in
          elim (values-TimedApart ts values d i j found lt le vi vj e) [
            | inl h ↦ Or.inl (nearly_before epoch s t hs ht h)
            | inr h ↦ Or.inr (nearly_before epoch t s ht hs h)
          ]

  module _ (db : List SatellitePass) (scheduled : List ℕ) (end_time : ℕ)
      (free_slots : List (String × List Interval)) where
    abbrev IsFound : Plan → Type 0
    IsFound plan =
        (picked : List SatellitePass) × (plan ≡ plan_of db picked)
        × IsPlan db scheduled epoch end_time free_slots picked

    nothing : IsFound (record { newly_scheduled = []; table = db })
    nothing = (
      [],
      ap (λ t. record { newly_scheduled = []; table = t }) (sym (commit-nil Stage.ortools db)),
      record {
        eligible = λ p m. absurd (not-mem-nil m);
        distinct = Pairwise.nil;
        separate = Pairwise.nil;
      },
    )

    solve_program-IsFound :
        (ts : List Timed)
        → ((t : Timed)
            → Mem t ts
            → IsCandidate db scheduled epoch end_time free_slots t.pass × IsTimed epoch t)
        → IsFound (solve_program solver db scheduled ts)
    unfolding solve_program
    solve_program-IsFound [] known = nothing
    solve_program-IsFound (d ∷ ts) known = with_values (solver (build_program (d ∷ ts))) refl
      where
        with_values :
            (o : Option (List Bool))
            → solver (build_program (d ∷ ts)) ≡ o
            → IsFound (commit_values db scheduled (d ∷ ts) o)
        with_values none e = unfold commit_values in nothing
        with_values (some values) e =
            unfold commit_values in
            let kept = extract scheduled [] (d ∷ ts) values in
            let (fresh, distinct) = extract-Fresh scheduled [] (d ∷ ts) values in
            let near = chosen-NearlyApart (d ∷ ts) values d (λ t m. (known t m).1) e in
            (
              map (λ (t : Timed). t.pass) kept,
              refl,
              record {
                eligible = λ p m.
                    ∥∥₁_elim (mem-map.0 m) (IsCandidate-prop _ _ _ _ _ p) λ (t, k, same).
                      subst (IsCandidate db scheduled epoch end_time free_slots) same
                        (known t (extract-mem scheduled [] (d ∷ ts) values t k)).0;
                distinct = Pairwise.map' (λ (t : Timed). t.pass) (λ p q. ¬_prop) distinct;
                separate =
                    Pairwise.map' (λ (t : Timed). t.pass) (λ p q. Π_prop λ c. ∨₁_prop)
                      (Pairwise.sublist NearlyApart-prop
                        (extract-sublist scheduled [] (d ∷ ts) values) near);
              },
            )

-- Whatever feasible values the solver returns: the passes scheduled are open rows within the
-- horizon that lie in a free slot of their station, of satellites not scheduled before, one for
-- each satellite, and two of one station overlap by less than a second. They are marked.
pub optimize_remaining-IsPlan :
    (solver : Program → Option (List Bool))
    → SolverLaws solver
    → (row_order : SatellitePass → SatellitePass → Bool) (db : List SatellitePass)
      (scheduled : List ℕ) (start_time end_time : ℕ) (free_slots : List (String × List Interval))
    → (picked : List SatellitePass) × (optimize_remaining solver row_order db scheduled start_time
          end_time free_slots
        ≡ plan_of db picked)
      × IsPlan db scheduled start_time end_time free_slots picked
unfolding optimize_remaining
optimize_remaining-IsPlan solver laws row_order db scheduled start_time end_time free_slots =
    let candidates = get_candidate_passes row_order db scheduled start_time end_time free_slots in
    solve_program-IsFound solver laws start_time db scheduled end_time free_slots
      (valid_passes start_time candidates)
      λ t m.
        let (n, timed) = valid_passes-IsTimed start_time candidates t m in
        (
          get_candidate_passes-IsCandidate row_order db scheduled start_time end_time free_slots
              t.pass n,
          timed,
        )
