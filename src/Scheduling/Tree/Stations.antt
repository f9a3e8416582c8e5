-- ===== src/Scheduling/Tree/Stations.antt =====
-- The interval-tree run over the stations, whichever of their commits fail.
use mathlib.Core.List.{nil-sublist}
use mathlib.Core.List.Pairwise
use mathlib.Core.List.Sublist
use mathlib.Core.Path.{subst}
use sda_system.Prelude.{
  ℕ, ◌≡◌, refl, sym, ◌∙◌, ap, Bool, true, false, List, [], ◌∷◌, ◌++◌, Subperm, String,
}
use sda_system.Prelude.Sorting.{sorted, by_key_desc}
use sda_system.Models.{Stage, SatellitePass, GroundStation, ConflictFree}
use sda_system.Scheduling.Selection.{AllMeetChecks, AllMeetChecks-subperm}
use sda_system.Scheduling.Weighted.{benefit}
use sda_system.Scheduling.Pick.Laws.{IsGreedy}
use sda_system.Scheduling.Stations.{
  Run, Writes, start_run, extend, committed, commit, candidates, active_stations,
}
use sda_system.Scheduling.Stations.Rounds.{Rounds, IsSchedule, start-IsSchedule}
use sda_system.Scheduling.Stations.Marks.{commit-nil, commit-OpensWithin, commit-AllMeetChecks}
use sda_system.Scheduling.Stations.Lemmas.{
  extend-nil, candidates-AllMeetChecks, DistinctKeys, active_stations-DistinctKeys,
}
use sda_system.Scheduling.Tree.{
  TreeOps, TreeLaws, tree_loop, verify_no_conflicts, conclude, attempt_on, take_attempt,
  tree_stations, schedule_for_station, schedule_all_by_tree,
}
use sda_system.Scheduling.Tree.Refines.{tree_loop-IsGreedy}
use sda_system.Scheduling.Tree.Verify.{verify_no_conflicts-nil_iff}

abbrev pub commits_each : Writes
commits_each = commit Stage.interval_tree

-- What a station takes up: with its commit the greedy selection, and nothing without.
abbrev pub Granted : Bool → List SatellitePass → List SatellitePass → Type 0
Granted true cs selected = IsGreedy benefit cs selected
Granted false cs selected = selected ≡ []

Granted-selects :
    (b : Bool) (cs selected : List SatellitePass)
    → Granted b cs selected
    → Subperm selected cs × ConflictFree selected
Granted-selects true cs selected g = (g.selected, g.free)
Granted-selects false cs selected g =
    subst (λ l. Subperm l cs × ConflictFree l) (sym g)
      (Sublist.subperm (nil-sublist cs), Pairwise.nil)

module _ (ops : TreeOps) (laws : TreeLaws ops) where
  nothing_taken : (run : Run) → run ≡ extend commits_each run []
  nothing_taken run = sym (extend-nil commits_each run (commit-nil Stage.interval_tree run.table))

  -- What an attempt adds to the run.
  abbrev Taken : Bool → Run → List SatellitePass → List SatellitePass → Type 0
  Taken b run l selected =
      (take_attempt ops run (attempt_on ops b run.table l) ≡ extend commits_each run selected)
      × (b ≡ true → selected ≡ tree_loop ops ops.empty l)
      × (b ≡ false → selected ≡ [])

  attempt_on-Taken :
      (b : Bool) (run : Run) (l : List SatellitePass)
      → verify_no_conflicts ops (tree_loop ops ops.empty l) ≡ []
      → (selected : List SatellitePass) × Taken b run l selected
  unfolding attempt_on conclude take_attempt
  attempt_on-Taken b run [] clean = (
    [],
    (
      ap
          (λ t. record {
            scheduled = run.scheduled ++ [];
            satellites = run.satellites ++ [];
            table = t;
          })
          (sym (commit-nil Stage.interval_tree run.table)),
      λ h. unfold tree_loop in refl,
      λ h. refl,
    ),
  )
  attempt_on-Taken true run (c ∷ cs) clean =
      let selected = tree_loop ops ops.empty (c ∷ cs) in
      (
        selected,
        (
          ap (λ v. take_attempt ops run (conclude ops true run.table selected v)) clean,
          λ h. refl,
          λ h. cc,
        ),
      )
  attempt_on-Taken false run (c ∷ cs) clean =
      let selected = tree_loop ops ops.empty (c ∷ cs) in
      (
        [],
        (
          ap (λ v. take_attempt ops run (conclude ops false run.table selected v)) clean
              ∙ nothing_taken run,
          λ h. cc,
          λ h. refl,
        ),
      )

  station-Granted :
      (b : Bool) (run : Run) (cs : List SatellitePass)
      → AllMeetChecks cs
      → (selected : List SatellitePass) × (take_attempt ops run
            (attempt_on ops b run.table (sorted (by_key_desc benefit) cs))
          ≡ extend commits_each run selected)
        × Granted b cs selected
  station-Granted b run cs checks =
      let l = sorted (by_key_desc benefit) cs in
      let greedy = tree_loop-IsGreedy ops laws cs checks in
      let clean =
        (verify_no_conflicts-nil_iff ops laws _ (AllMeetChecks-subperm greedy.selected checks)).1
          greedy.free in
      let (selected, (taken, whole, none_taken)) = attempt_on-Taken b run l clean in
      (selected, taken, granted b selected whole none_taken greedy)
    where
      granted :
          (b : Bool) (selected : List SatellitePass)
          → (b ≡ true → selected ≡ tree_loop ops ops.empty (sorted (by_key_desc benefit) cs))
          → (b ≡ false → selected ≡ [])
          → IsGreedy benefit cs (tree_loop ops ops.empty (sorted (by_key_desc benefit) cs))
          → Granted b cs selected
      granted true selected whole none_taken greedy =
          subst (IsGreedy benefit cs) (sym (whole refl)) greedy
      granted false selected whole none_taken greedy = none_taken refl

  module _ (commits : String → Bool) (start_time end_time : ℕ) where
    tree_stations-Rounds :
        (stations : List GroundStation) (run : Run)
        → AllMeetChecks run.table
        → Rounds start_time end_time commits_each
            (λ s. Granted (commits s.station_id))
            stations
            run
            (tree_stations ops commits start_time end_time stations run)
    unfolding tree_stations schedule_for_station
    tree_stations-Rounds [] run checks = Rounds.done
    tree_stations-Rounds (s ∷ ss) run checks =
        let cs = candidates run.table s.station_id start_time end_time run.satellites in
        let (selected, taken, granted) =
          station-Granted (commits s.station_id) run cs
            (candidates-AllMeetChecks run.table _ _ _ _ checks) in
        let next = extend commits_each run selected in
        Rounds.round selected granted (
          subst
            (λ r.
              Rounds start_time end_time commits_each (λ t. Granted (commits t.station_id)) ss next
                (tree_stations ops commits start_time end_time ss r))
            (sym taken)
            (tree_stations-Rounds ss next
              (commit-AllMeetChecks Stage.interval_tree selected run.table checks)))

-- On well-formed rows and stations with distinct keys, whichever commits fail: a station whose
-- commit goes through takes a conflict-free part of its candidates such that whatever it leaves
-- overlaps a pass it took that is worth no less, the others take nothing, and the whole schedule
-- is sound (no overlap at one station, no satellite at two, open rows of active stations within
-- the horizon).
pub schedule_all_by_tree-IsSchedule :
    (ops : TreeOps)
    → TreeLaws ops
    → (commits : String → Bool) (collate : String → String → Bool) (stations : List GroundStation)
      (db : List SatellitePass) (start_time end_time : ℕ)
    → DistinctKeys stations
    → AllMeetChecks db
    → (run : Run) × (schedule_all_by_tree ops commits collate stations db start_time end_time
        ≡ committed Stage.interval_tree run)
      × Rounds start_time end_time commits_each
          (λ s. Granted (commits s.station_id))
          (active_stations collate stations)
          (start_run db)
          run
      × IsSchedule db start_time end_time (active_stations collate stations) run
unfolding schedule_all_by_tree
schedule_all_by_tree-IsSchedule ops laws commits collate stations db start_time end_time distinct
      checks =
    let active = active_stations collate stations in
    let rounds =
      tree_stations-Rounds ops laws commits start_time end_time active (start_run db) checks in
    (
      _,
      refl,
      rounds,
      start-IsSchedule db start_time end_time commits_each
          (λ sel table. commit-OpensWithin Stage.interval_tree sel table)
          (λ s. Granted (commits s.station_id)) (λ s. Granted-selects (commits s.station_id)) active
          _ (active_stations-DistinctKeys collate stations distinct) rounds,
    )
