-- ===== src/Scheduling/Stations/Rounds.antt =====
-- What a run over the stations keeps, whatever a station chooses among its candidates.
use text.Mathlib.TextEquality.{eq_iff}
use mathlib.Core.List.{
  Mem-prop, not-mem-nil, mem-cons, mem-cons_self, mem-append, mem-map, map-append, Pairwise-append,
}
use mathlib.Core.List.Subperm
use mathlib.Core.Logic.Or
use mathlib.Core.Bool.{Bool-set}
use mathlib.Core.HLevel.{¬_prop}
use mathlib.Core.Logic.{∥∥₁_prop}
use mathlib.Core.Path.{subst}
use sda_system.Prelude.{
  ℕ, ◌≤◌, ◌≡◌, ◌≢◌, refl, sym, ◌∙◌, ap, true, false, List, [], ◌∷◌, ◌++◌, map, Mem, Pairwise,
  Subperm, String, arith, select-mem, elem, Mem→elem, le_prop,
}
use sda_system.Models.{SatellitePass, GroundStation, Apart, ConflictFree}
use sda_system.Scheduling.Stations.{Run, Writes, start_run, extend, candidates, is_candidate}

-- Two scheduled passes: at one station they do not overlap, and at two they are of two satellites.
pub record Compatible (p q : SatellitePass) : Type 0 where
  pub apart : p.station_id ≡ q.station_id → Apart p q
  pub distinct : p.station_id ≢ q.station_id → p.norad_id ≢ q.norad_id

Compatible-prop : (p q : SatellitePass) → IsProp (Compatible p q)
Compatible-prop p q = hlevel

-- The stations in turn: each takes up what it chose among its candidates.
pub data Rounds (start_time end_time : ℕ) (writes : Writes)
    (Chosen : GroundStation → List SatellitePass → List SatellitePass → Type 0)
    : List GroundStation → Run → Run → Type 0 where
  done : {run : Run} → Rounds start_time end_time writes Chosen [] run run
  round :
      {station : GroundStation} {rest : List GroundStation} {run last : Run}
      (selected : List SatellitePass)
      → Chosen station
          (candidates run.table station.station_id start_time end_time run.satellites)
          selected
      → Rounds start_time end_time writes Chosen rest (extend writes run selected) last
      → Rounds start_time end_time writes Chosen (station ∷ rest) run last

-- The open rows of the one table are rows of the other.
abbrev pub OpensWithin : List SatellitePass → List SatellitePass → Type 0
OpensWithin table db = (p : SatellitePass) → Mem p table → p.is_scheduled ≡ false → Mem p db

module _ (db : List SatellitePass) (start_time end_time : ℕ) where
  -- A row that a run may schedule: it was open, and lies within the horizon.
  pub record IsOpen (p : SatellitePass) : Type 0 where
    pub row : Mem p db
    pub unscheduled : p.is_scheduled ≡ false
    pub after_start : start_time ≤ p.rise_time
    pub before_end : p.set_time ≤ end_time

  IsOpen-prop : (p : SatellitePass) → IsProp (IsOpen p)
  IsOpen-prop p = hlevel (le_prop, Mem-prop, Bool-set)

  -- The whole schedule: who may stand in it, which satellites it names, and that it fits together.
  pub record IsSchedule (stations : List GroundStation) (run : Run) : Type 0 where
    pub compatible : Pairwise Compatible run.scheduled
    pub satellites : run.satellites ≡ map (λ p. p.norad_id) run.scheduled
    pub eligible : (p : SatellitePass) → Mem p run.scheduled → IsOpen p
    pub placed :
        (p : SatellitePass)
        → Mem p run.scheduled
        → ∥ ((s : GroundStation) × Mem s stations × (s.station_id ≡ p.station_id)) ∥₁

  -- What a candidate is.
  candidate_lem :
      (table : List SatellitePass)
      → OpensWithin table db
      → (station_id : String) (satellites : List ℕ) (p : SatellitePass)
      → Mem p (candidates table station_id start_time end_time satellites)
      → IsOpen p × (p.station_id ≡ station_id) × ¬ Mem p.norad_id satellites
  unfolding candidates is_candidate
  candidate_lem table within station_id satellites p m =
      let (row, passed) = select-mem _ table p m in
      let unscheduled : p.is_scheduled ≡ false = ground arith in
      (
        record {
          row = within p row unscheduled;
          unscheduled = unscheduled;
          after_start = ground arith;
          before_end = ground arith;
        },
        (eq_iff _ _).0 (ground arith),
        λ k. seen (Mem→elem _ _ k) passed,
      )
    where
      seen :
          elem p.norad_id satellites ≡ true
          → is_candidate station_id start_time end_time satellites p ≡ true
          → ⊥
      seen e k = ground arith

  module _ (writes : Writes)
      (keeps : (sel table : List SatellitePass) → OpensWithin (writes sel table) table)
      (Chosen : GroundStation → List SatellitePass → List SatellitePass → Type 0)
      (selects : (station : GroundStation) (cs sel : List SatellitePass)
        → Chosen station cs sel
        → Subperm sel cs × ConflictFree sel) where
    module _ (all : List GroundStation) (station : GroundStation) (run : Run)
        (sel : List SatellitePass) (within : OpensWithin run.table db)
        (chosen : Chosen station
          (candidates run.table station.station_id start_time end_time run.satellites)
          sel)
        (sched : IsSchedule all run) where
      chosen_lem :
          (p : SatellitePass)
          → Mem p sel
          → IsOpen p × (p.station_id ≡ station.station_id) × ¬ Mem p.norad_id run.satellites
      chosen_lem p m =
          candidate_lem run.table within station.station_id run.satellites p
            (Subperm.subset (selects _ _ _ chosen).0 p m)

      chosen-Compatible : Pairwise Compatible sel
      chosen-Compatible = together sel (λ p m. m) (selects _ _ _ chosen).1
        where
          together :
              (l : List SatellitePass)
              → ((p : SatellitePass) → Mem p l → Mem p sel)
              → ConflictFree l
              → Pairwise Compatible l
          together [] sub c = Pairwise.nil
          together (p ∷ l) sub (Pairwise.cons h c) =
              Pairwise.cons
                (λ q m. record {
                  apart = λ e. h q m;
                  distinct = λ ne. absurd (
                      ne (
                        (chosen_lem p (sub p mem-cons_self)).1
                        ∙ sym (chosen_lem q (sub q (mem-cons.1 (Or.inr m)))).1));
                })
                (together l (λ q m. sub q (mem-cons.1 (Or.inr m))) c)

      -- Taking up what the station chose keeps the schedule whole.
      IsSchedule-extend :
          Mem station all
          → ((p : SatellitePass) → Mem p run.scheduled → p.station_id ≢ station.station_id)
          → IsSchedule all (extend writes run sel)
      IsSchedule-extend here fresh = record {
        compatible = (Pairwise-append Compatible-prop).1 (
          sched.compatible,
          chosen-Compatible,
          λ p m q n. record {
            apart = λ e. absurd (fresh p m (e ∙ (chosen_lem q n).1));
            distinct = λ ne e.
                (chosen_lem q n).2
                  (subst (Mem q.norad_id) (sym sched.satellites) (mem-map.1 ∣ (p, m, e) ∣₁));
          },
        );
        satellites =
            ap (λ l. l ++ map (λ (p : SatellitePass). p.norad_id) sel) sched.satellites
            ∙ sym (map-append _ run.scheduled sel);
        eligible = λ p m.
            Or.elim (IsOpen-prop p) (mem-append.0 m) (sched.eligible p) (λ k. (chosen_lem p k).0);
        placed = λ p m.
            Or.elim ∥∥₁_prop (mem-append.0 m) (sched.placed p)
              (λ k. ∣ (station, here, sym (chosen_lem p k).1) ∣₁);
      }

    Rounds-IsSchedule :
        (all stations : List GroundStation) (run last : Run)
        → ((s : GroundStation) → Mem s stations → Mem s all)
        → Pairwise (λ (s t : GroundStation). s.station_id ≢ t.station_id) stations
        → ((p : SatellitePass)
            → Mem p run.scheduled
            → (s : GroundStation) → Mem s stations
            → p.station_id ≢ s.station_id)
        → OpensWithin run.table db
        → IsSchedule all run
        → Rounds start_time end_time writes Chosen stations run last
        → IsSchedule all last
    Rounds-IsSchedule all [] run last sub apart fresh within sched Rounds.done = sched
    Rounds-IsSchedule all (s ∷ ss) run last sub (Pairwise.cons differ apart) fresh within sched
          (Rounds.round sel chosen rest) =
        Rounds-IsSchedule all ss (extend writes run sel) last (λ t m. sub t (mem-cons.1 (Or.inr m)))
          apart
          (λ p m t n.
            Or.elim ¬_prop (mem-append.0 m) (λ k. fresh p k t (mem-cons.1 (Or.inr n)))
              (λ k e. differ t n (sym (chosen_lem all s run sel within chosen sched p k).1 ∙ e)))
          (λ p m open_row. within p (keeps sel run.table p m open_row) open_row)
          (IsSchedule-extend all s run sel within chosen sched (sub s mem-cons_self)
            (λ p m. fresh p m s mem-cons_self))
          rest

    -- On stations with distinct keys, a run from nothing is a schedule.
    pub start-IsSchedule :
        (stations : List GroundStation) (last : Run)
        → Pairwise (λ (s t : GroundStation). s.station_id ≢ t.station_id) stations
        → Rounds start_time end_time writes Chosen stations (start_run db) last
        → IsSchedule stations last
    start-IsSchedule stations last apart rounds =
        Rounds-IsSchedule stations stations (start_run db) last (λ s m. m) apart
          (λ p m. absurd (not-mem-nil m)) (λ p m u. m)
          (record {
            compatible = Pairwise.nil;
            satellites = refl;
            eligible = λ p m. absurd (not-mem-nil m);
            placed = λ p m. absurd (not-mem-nil m);
          })
          rounds
