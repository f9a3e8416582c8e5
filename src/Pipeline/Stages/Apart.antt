-- ===== src/Pipeline/Stages/Apart.antt =====
-- What the optimizer adds keeps out of the way of what the greedy run scheduled.
use text.Mathlib.TextEquality.{eq_iff}
use text.Mathlib.Text.{◌==◌ as str_eq}
use mathlib.Core.Bool.{Bool-set}
use mathlib.Core.List.{mem-cons, not-mem-nil, mem-map}
use mathlib.Core.HLevel.{¬_prop}
use mathlib.Core.List.Perm
use mathlib.Core.Logic.Or
use mathlib.Core.Logic.{∥∥₁_elim}
use mathlib.Core.Option
use mathlib.Core.Path.{subst}
use sda_system.Prelude.{
  ℕ, ◌≤◌, ◌<◌, ◌≡◌, refl, sym, ap, ◌∙◌, inl, inr, max, Bool, true, not, ◌&&◌, Option, some, List,
  [], ◌∷◌, map, ◌≢◌, Mem, String, arith, Bool-cases, leb, ltb, select-keep,
}
use sda_system.Prelude.Sorting.{sorted-perm}
use sda_system.Models.{Stage, SatellitePass, GroundStation, Apart}
use sda_system.Scheduling.Selection.{AllMeetChecks}
use sda_system.Scheduling.Intervals.{Interval, window, contains, covers}
use sda_system.Scheduling.Slots.{get_free_slots, is_occupied, by_start}
use sda_system.Scheduling.Slots.Free.{occupied, get_free_slots-covers}
use sda_system.Scheduling.Stations.{Run, commit, finish, Outcome}
use sda_system.Scheduling.Stations.Greedy.{schedule_all_stations}
use sda_system.Scheduling.Stations.Rounds.{Rounds}
use sda_system.Scheduling.Stations.Lemmas.{DistinctKeys}
use sda_system.Scheduling.Stations.Marks.{commit-AllMeetChecks}
use sda_system.Scheduling.Stations.Greedy.{unflushed}
use sda_system.Scheduling.Stations.Greedy.Best.{schedule_all_stations-IsSchedule}
use sda_system.Scheduling.Optimizer.{Program, plan_of, slots_of}
use sda_system.Scheduling.Optimizer.Solved.{SolverLaws, IsPlan, optimize_remaining-IsPlan}
use sda_system.Pipeline.Stages.{
  Handover, slots_by_station, active, hand_over, run_greedy, slots_or_computed, sats_or_computed,
  run_ortools,
}

covers-mem :
    (ivs : List Interval) (iv : Interval) (t : ℕ)
    → Mem iv ivs
    → contains iv t ≡ true
    → covers ivs t ≡ true
unfolding covers
covers-mem [] iv t m h = absurd (not-mem-nil m)
covers-mem (jv ∷ ivs) iv t m h =
    Or.elim (Bool-set _ _) (mem-cons.0 m)
      (λ e.
        let head : contains jv t ≡ true = ap (λ v. contains v t) (sym e) ∙ h in
        ground (arith, head))
      (λ n. ground (arith, covers-mem ivs iv t n h))

slots_of-mem :
    (table : List SatellitePass) (start_time end_time : ℕ) (stations : List GroundStation)
    (station_id : String) (s : Interval)
    → Mem s (slots_of station_id (slots_by_station table start_time end_time stations))
    → Mem s (get_free_slots table station_id start_time end_time)
unfolding slots_of slots_by_station
slots_of-mem table start_time end_time [] station_id s m = absurd (not-mem-nil m)
slots_of-mem table start_time end_time (g ∷ gs) station_id s m =
    elim (Bool-cases (str_eq g.station_id station_id)) [
      | inl e ↦
          subst (λ i. Mem s (get_free_slots table i start_time end_time))
            ((eq_iff g.station_id station_id).0 e)
            ((Perm.mem_iff (sorted-perm by_start _)).0 (rw e at m))
      | inr e ↦ slots_of-mem table start_time end_time gs station_id s (rw e at m)
    ]

-- A pass in a free slot does not overlap a window that the slots leave out.
slot-Apart :
    (table : List SatellitePass) (start_time end_time : ℕ) (p q : SatellitePass) (s : Interval)
    → AllMeetChecks table
    → Mem s (get_free_slots table p.station_id start_time end_time)
    → s.start ≤ p.rise_time
    → p.set_time ≤ s.stop
    → Mem p table
    → Mem q table
    → is_occupied p.station_id start_time end_time q ≡ true
    → Apart p q
slot-Apart table start_time end_time p q s checks free low high row taken busy (a, b) =
    absurd (ground (arith, in_slot, in_window, covered))
  where
    t : ℕ
    t = max p.rise_time q.rise_time

    p_order : p.rise_time < p.set_time
    p_order = (checks p row).time_order

    q_order : q.rise_time < q.set_time
    q_order = (checks q taken).time_order

    in_slot : covers (get_free_slots table p.station_id start_time end_time) t ≡ true
    in_slot = covers-mem _ s t free (ground (arith, a, b, low, high, p_order))

    in_window : covers (occupied table p.station_id start_time end_time) t ≡ true
    in_window =
        covers-mem _ (window q) t (mem-map.1 ∣ (q, select-keep _ table q taken busy, refl) ∣₁)
          (ground (arith, a, b, q_order))

    covered : covers (get_free_slots table p.station_id start_time end_time) t ≡ (
        (leb start_time t && ltb t end_time)
        && not (covers (occupied table p.station_id start_time end_time) t))
    covered = get_free_slots-covers table p.station_id start_time end_time t checks

-- Nothing is written to the table before the commit.
Rounds-unflushed :
    {start_time end_time : ℕ}
    {Chosen : GroundStation → List SatellitePass → List SatellitePass → Type 0}
    {stations : List GroundStation} {run last : Run}
    → Rounds start_time end_time unflushed Chosen stations run last
    → last.table ≡ run.table
Rounds-unflushed Rounds.done = refl
Rounds-unflushed (Rounds.round selected chosen rest) = Rounds-unflushed rest

-- What the second stage picks keeps out of the way of the first one's schedule and of the table
-- that it found.
abbrev pub KeepsApart :
    (start_time end_time : ℕ) → (scheduled table picked : List SatellitePass) → Type 0
KeepsApart start_time end_time scheduled table picked =
    (p : SatellitePass)
    → Mem p picked
    → ((q : SatellitePass) → Mem q scheduled → p.norad_id ≢ q.norad_id)
      × ((q : SatellitePass)
          → Mem q table
          → is_occupied p.station_id start_time end_time q ≡ true
          → Apart p q)

module _ (stations : List GroundStation) (start_time end_time later_start later_end : ℕ)
    (out : Outcome) (checks : AllMeetChecks out.table) where
  abbrev handed : Handover
  handed = hand_over stations start_time end_time out

  -- The arguments that run_ortools computes itself hold no satellite and no slot that it must not
  -- use: where no slot is handed over, there is none.
  unseen-handed : (sats : List ℕ) (n : ℕ) → ¬ Mem n (sats_or_computed out.table sats) → ¬ Mem n sats
  unfolding sats_or_computed
  unseen-handed [] n h m = not-mem-nil m
  unseen-handed (k ∷ ks) n h m = h m

  slot-handed :
      (gs : List GroundStation) (station_id : String) (s : Interval)
      → active stations ≡ gs
      → Mem s (
          slots_of station_id (
            slots_or_computed stations out.table later_start later_end
              (slots_by_station out.table start_time end_time gs)))
      → Mem s (get_free_slots out.table station_id start_time end_time)
  unfolding slots_or_computed slots_by_station slots_of
  slot-handed [] station_id s e m = absurd (
      not-mem-nil (
        subst
          (λ gs. Mem s (slots_of station_id (slots_by_station out.table later_start later_end gs)))
          e m))
  slot-handed (g ∷ gs) station_id s e m =
      slots_of-mem out.table start_time end_time (g ∷ gs) station_id s m

  IsPlan-KeepsApart :
      (scheduled picked : List SatellitePass)
      → out.globally_scheduled ≡ map (λ (q : SatellitePass). q.norad_id) scheduled
      → IsPlan out.table
          (sats_or_computed out.table handed.scheduled_sats)
          later_start
          later_end
          (slots_or_computed stations out.table later_start later_end handed.free_slots)
          picked
      → KeepsApart start_time end_time scheduled out.table picked
  IsPlan-KeepsApart scheduled picked sats plan p m =
      let c = plan.eligible p m in
      (
        λ q taken same.
            unseen-handed out.globally_scheduled p.norad_id c.unseen
              (subst (Mem p.norad_id) (sym sats) (mem-map.1 ∣ (q, taken, sym same) ∣₁)),
        λ q taken busy. ∥∥₁_elim c.slot ¬_prop λ (s, n, low, high).
            slot-Apart out.table start_time end_time p q s checks
              (slot-handed (active stations) p.station_id s refl n) low high c.row taken busy,
      )

-- The two tasks in turn, on well-formed rows and stations with distinct keys: run_greedy returns the
-- table in which the passes of its schedule are marked, and whatever feasible values the solver
-- finds, run_ortools marks passes of its own on that table. None of them is of a satellite of which
-- the greedy schedule has a pass, and none overlaps a scheduled pass of its station that lies within
-- the horizon of the greedy run.
pub run_ortools-KeepsApart :
    (collate : String → String → Bool) (stations : List GroundStation) (db : List SatellitePass)
    (start_time end_time later_start later_end : ℕ) (solver : Program → Option (List Bool))
    (row_order : SatellitePass → SatellitePass → Bool)
    → SolverLaws solver
    → DistinctKeys stations
    → AllMeetChecks db
    → (run : Run) × (schedule_all_stations collate stations db start_time end_time
        ≡ some (finish Stage.greedy run))
      × (h : Handover) × (run_greedy collate stations db start_time end_time ≡ some h)
      × (h.table ≡ commit Stage.greedy run.scheduled db)
      × (picked : List SatellitePass) × (run_ortools solver row_order stations h.table later_start
            later_end h.scheduled_sats h.free_slots
          ≡ plan_of h.table picked)
      × KeepsApart start_time end_time run.scheduled h.table picked
unfolding run_greedy run_ortools
run_ortools-KeepsApart collate stations db start_time end_time later_start later_end solver
      row_order laws distinct checks =
    let (run, found, rounds, sound) =
      schedule_all_stations-IsSchedule collate stations db start_time end_time distinct checks in
    let out : Outcome = finish Stage.greedy run in
    let kept : AllMeetChecks out.table =
      commit-AllMeetChecks Stage.greedy run.scheduled run.table
        (subst AllMeetChecks (sym (Rounds-unflushed rounds)) checks) in
    let h = hand_over stations start_time end_time out in
    let (picked, made, plan) =
      optimize_remaining-IsPlan solver laws row_order out.table
        (sats_or_computed out.table h.scheduled_sats) later_start later_end
        (slots_or_computed stations out.table later_start later_end h.free_slots) in
    (
      run,
      found,
      h,
      ap (Option.map (hand_over stations start_time end_time)) found,
      ap (commit Stage.greedy run.scheduled) (Rounds-unflushed rounds),
      picked,
      made,
      IsPlan-KeepsApart stations start_time end_time later_start later_end out kept run.scheduled
          picked sound.satellites plan,
    )
