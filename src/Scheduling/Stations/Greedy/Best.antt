-- ===== src/Scheduling/Stations/Greedy/Best.antt =====
-- The greedy run over the stations: it returns, and each station gets the best of its candidates.
use mathlib.Core.List.Subperm
use mathlib.Core.List.{mem-cons_self, not-mem-nil}
use mathlib.Core.Option
use sda_system.Prelude.{
  ℕ, ◌≡◌, refl, sym, ◌∙◌, ap, Bool, some, List, [], ◌∷◌, Pairwise, Subperm, String, sum_by, ◌≤◌,
  arith,
}
use sda_system.Models.{Stage, SatellitePass, GroundStation, ConflictFree}
use sda_system.Scheduling.Selection.{AllMeetChecks, AllMeetChecks-subperm}
use sda_system.Scheduling.Weighted.{benefit}
use sda_system.Scheduling.Weighted.Optimal.{IsBest, schedule_weighted-IsBest}
use sda_system.Scheduling.Conflicts.Nothing.{detect_conflicts-nil_iff}
use sda_system.Scheduling.Stations.{Run, start_run, extend, finish, active_stations, candidates}
use sda_system.Scheduling.Stations.Rounds.{Rounds, IsSchedule, start-IsSchedule}
use sda_system.Scheduling.Stations.Lemmas.{
  extend-nil, candidates-AllMeetChecks, DistinctKeys, active_stations-DistinctKeys,
}
use sda_system.Scheduling.Stations.Marks.{commit-nil}
use sda_system.Scheduling.Stations.Greedy.{
  unflushed, drop_conflicts, drop_named, take_up, station_round, stations_loop, run_stations,
  schedule_all_stations,
}

-- The defensive check drops nothing from a selection without conflicts.
drop_conflicts-ConflictFree :
    (selected : List SatellitePass)
    → AllMeetChecks selected
    → ConflictFree selected
    → drop_conflicts selected ≡ selected
unfolding drop_conflicts drop_named
drop_conflicts-ConflictFree selected checks free =
    ap (drop_named selected) ((detect_conflicts-nil_iff selected checks).1 free)

nothing_within : (t : List SatellitePass) → Subperm t [] → sum_by benefit t ≤ 0
nothing_within [] sub = omega arith
nothing_within (p ∷ t) sub = absurd (not-mem-nil (Subperm.subset sub p mem-cons_self))

IsBest-nil : IsBest [] []
IsBest-nil = record {
  selected = Subperm.refl [];
  free = Pairwise.nil;
  largest = λ t sub free. nothing_within t sub;
}

module _ (start_time end_time : ℕ) where
  take_up-IsBest :
      (run : Run) (cs : List SatellitePass)
      → AllMeetChecks cs
      → (selected : List SatellitePass) × (take_up run cs ≡ some (extend unflushed run selected))
        × IsBest cs selected
  unfolding take_up
  take_up-IsBest run [] sound = ([], ap some (sym (extend-nil unflushed run refl)), IsBest-nil)
  take_up-IsBest run (c ∷ cs) sound =
      let (result, found, best) = schedule_weighted-IsBest (c ∷ cs) sound in
      let kept =
        drop_conflicts-ConflictFree result (AllMeetChecks-subperm best.selected sound) best.free in
      (
        result,
        ap (Option.map (λ selected. extend unflushed run (drop_conflicts selected))) found
            ∙ ap (λ l. some (extend unflushed run l)) kept,
        best,
      )

  stations_loop-Rounds :
      (stations : List GroundStation) (run : Run)
      → AllMeetChecks run.table
      → (last : Run) × (stations_loop start_time end_time stations run ≡ some last)
        × Rounds start_time end_time unflushed (λ s. IsBest) stations run last
  unfolding stations_loop station_round Option.bind
  stations_loop-Rounds [] run checks = (run, refl, Rounds.done)
  stations_loop-Rounds (s ∷ ss) run checks =
      let (selected, taken, best) =
        take_up-IsBest run (candidates run.table s.station_id start_time end_time run.satellites)
          (candidates-AllMeetChecks run.table _ _ _ _ checks) in
      let (last, found, rounds) = stations_loop-Rounds ss (extend unflushed run selected) checks in
      (
        last,
        ap (λ o. Option.bind o (stations_loop start_time end_time ss)) taken ∙ found,
        Rounds.round selected best rounds,
      )

  run_stations-Rounds :
      (db : List SatellitePass) (stations : List GroundStation)
      → AllMeetChecks db
      → (last : Run) × (run_stations db start_time end_time stations
          ≡ some (finish Stage.greedy last))
        × Rounds start_time end_time unflushed (λ s. IsBest) stations (start_run db) last
  unfolding run_stations
  run_stations-Rounds db [] checks = (
    start_run db,
    ap (λ t. some (record { all_scheduled = []; globally_scheduled = []; table = t }))
        (sym (commit-nil Stage.greedy db)),
    Rounds.done,
  )
  run_stations-Rounds db (s ∷ ss) checks =
      let (last, found, rounds) = stations_loop-Rounds (s ∷ ss) (start_run db) checks in
      (last, ap (Option.map (finish Stage.greedy)) found, rounds)

-- On well-formed rows and stations with distinct keys the run returns. Station after station it
-- took a conflict-free selection of the candidates that no other such selection exceeds in total
-- benefit, the whole schedule is sound (no overlap at one station, no satellite at two, open rows
-- of active stations within the horizon), and the rows scheduled are marked.
pub schedule_all_stations-IsSchedule :
    (collate : String → String → Bool) (stations : List GroundStation) (db : List SatellitePass)
    (start_time end_time : ℕ)
    → DistinctKeys stations
    → AllMeetChecks db
    → (run : Run) × (schedule_all_stations collate stations db start_time end_time
        ≡ some (finish Stage.greedy run))
      × Rounds start_time end_time unflushed
          (λ s. IsBest)
          (active_stations collate stations)
          (start_run db)
          run
      × IsSchedule db start_time end_time (active_stations collate stations) run
unfolding schedule_all_stations
schedule_all_stations-IsSchedule collate stations db start_time end_time distinct checks =
    let active = active_stations collate stations in
    let (last, found, rounds) = run_stations-Rounds start_time end_time db active checks in
    (
      last,
      found,
      rounds,
      start-IsSchedule db start_time end_time unflushed (λ sel table p m u. m) (λ s. IsBest)
          (λ s cs sel b. (b.selected, b.free)) active last
          (active_stations-DistinctKeys collate stations distinct) rounds,
    )
