-- ===== src/Tests/Stations.antt =====
-- The runs over the stations on the sample, with a tree that is a list.
use mathlib.Core.List.{filter, mem-filter, mem-cons, not-mem-nil}
use mathlib.Core.List.Pairwise
use mathlib.Core.Logic.Dec
use text.Mathlib.TextEquality.{eq_iff}
use mathlib.Core.HLevel.{¬_prop}
use mathlib.Core.Bool.{true≢false}
use native.Mathlib.Decide.{dec_lt}
use sda_system.Prelude.{◌≡◌, ◌↔◌, refl, sym, forall-cons, true, false, List, [], ◌∷◌, some}
use sda_system.Models.{Stage, GroundStation, ConflictFree}
use sda_system.Scheduling.Stations.{Run, start_run, finish, committed, active_stations}
use sda_system.Scheduling.Stations.Rounds.{Rounds, IsSchedule}
use sda_system.Scheduling.Stations.Lemmas.{DistinctKeys}
use sda_system.Scheduling.Stations.Greedy.{unflushed, schedule_all_stations}
use sda_system.Scheduling.Stations.Greedy.Best.{schedule_all_stations-IsSchedule}
use sda_system.Scheduling.Weighted.Optimal.{IsBest}
use sda_system.Scheduling.Tree.{Entry, TreeOps, TreeLaws, schedule_all_by_tree, verify_no_conflicts}
use sda_system.Scheduling.Tree.Stations.{commits_each, Granted, schedule_all_by_tree-IsSchedule}
use sda_system.Scheduling.Tree.Verify.{verify_no_conflicts-nil_iff}
use sda_system.Tests.Sample.{sample, sample-checks}

abbrev here : GroundStation
here = record { station_id = "GS-01"; is_active = true }

abbrev closed : GroundStation
closed = record { station_id = "GS-02"; is_active = false }

abbrev pub stations : List GroundStation
stations = closed ∷ here ∷ []

pub stations-DistinctKeys : DistinctKeys stations
stations-DistinctKeys =
    Pairwise.cons
      (forall-cons (λ t. ¬_prop) (λ e. true≢false (sym ((eq_iff _ _).1 e)))
        (λ t m. absurd (not-mem-nil m)))
      (Pairwise.cons (λ t m. absurd (not-mem-nil m)) Pairwise.nil)

schedule_all_stations-IsSchedule_example :
    (run : Run) × (schedule_all_stations (λ a b. true) stations sample 0 100
      ≡ some (finish Stage.greedy run))
    × Rounds 0 100 unflushed
        (λ s. IsBest)
        (active_stations (λ a b. true) stations)
        (start_run sample)
        run
    × IsSchedule sample 0 100 (active_stations (λ a b. true) stations) run
schedule_all_stations-IsSchedule_example =
    schedule_all_stations-IsSchedule (λ a b. true) stations sample 0 100 stations-DistinctKeys
      sample-checks

abbrev list_tree : TreeOps
list_tree = record {
  Tree = List Entry;
  empty = [];
  add = λ t e. e ∷ t;
  overlap =
      λ t begin stop. filter (λ (x : Entry). Dec.and (dec_lt x.begin stop) (dec_lt begin x.stop)) t;
  items = λ t. t;
}

list_tree-TreeLaws : TreeLaws list_tree
list_tree-TreeLaws = record {
  items_empty = refl;
  items_add = λ t e x h. mem-cons;
  mem_overlap = λ t begin stop x h.
      let (to, from) =
        mem-filter (λ (y : Entry). Dec.and (dec_lt y.begin stop) (dec_lt begin y.stop)) in
      (λ m. let (k, w) = to m in (k, w.0, w.1), λ (k, before, after). from (k, (before, after)));
}

schedule_all_by_tree-IsSchedule_example :
    (run : Run) × (schedule_all_by_tree list_tree (λ s. true) (λ a b. true) stations sample 0 100
      ≡ committed Stage.interval_tree run)
    × Rounds 0 100 commits_each
        (λ s. Granted true)
        (active_stations (λ a b. true) stations)
        (start_run sample)
        run
    × IsSchedule sample 0 100 (active_stations (λ a b. true) stations) run
schedule_all_by_tree-IsSchedule_example =
    schedule_all_by_tree-IsSchedule list_tree list_tree-TreeLaws (λ s. true) (λ a b. true) stations
      sample 0 100 stations-DistinctKeys sample-checks

verify_no_conflicts-nil_iff_example :
    (verify_no_conflicts list_tree sample ≡ []) ↔ ConflictFree sample
verify_no_conflicts-nil_iff_example =
    verify_no_conflicts-nil_iff list_tree list_tree-TreeLaws sample sample-checks
