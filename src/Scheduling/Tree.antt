-- ===== src/Scheduling/Tree.antt =====
-- scheduling/interval_tree.py. The package intervaltree is not part of the repository: its tree is
-- a parameter, with the documented behaviour of the three operations used. `_to_utc_timestamp`
-- keeps the order of the instants, so the instants stand for their timestamps.
pub mod Refines
pub mod Verify
pub mod Stations
use sda_system.Prelude.{
  ℕ, ◌<◌, ◌≡◌, ◌↔◌, Bool, true, false, List, [], ◌∷◌, ◌++◌, map, Mem, String, leb, ltb, length,
  if◌then◌else◌,
}
use sda_system.Prelude.Sorting.{sorted, by_key_desc}
use sda_system.Models.{Stage, SatellitePass, GroundStation}
use sda_system.Scheduling.Weighted.{benefit}
use sda_system.Scheduling.Stations.{
  Run, start_run, Outcome, committed, commit, candidates, active_stations,
}
use mathlib.Core.Logic.{◌∨₁◌}

-- `Interval(begin, end, data)`
pub record Entry : Type 0 where
  pub begin : ℕ
  pub stop : ℕ
  pub value : ℕ

-- The operations of an IntervalTree, which is a set of intervals.
pub record TreeOps : Type 1 where
  pub Tree : Type 0
  pub empty : Tree
  pub add : Tree → Entry → Tree
  pub overlap : Tree → ℕ → ℕ → List Entry
  pub items : Tree → List Entry

-- What the package documents of them.
pub record TreeLaws (ops : TreeOps) : Type 0 where
  pub items_empty : ops.items ops.empty ≡ []
  pub items_add :
      (t : ops.Tree) (e x : Entry)
      → e.begin < e.stop
      → Mem x (ops.items (ops.add t e)) ↔ ((x ≡ e) ∨₁ Mem x (ops.items t))
  pub mem_overlap :
      (t : ops.Tree) (begin stop : ℕ) (x : Entry)
      → begin < stop
      → Mem x (ops.overlap t begin stop)
        ↔ (Mem x (ops.items t) × (x.begin < stop) × (begin < x.stop))

-- The truth value of a list.
abbrev pub is_truthy : List Entry → Bool
is_truthy [] = false
is_truthy (x ∷ xs) = true

abbrev pub entry : (SatellitePass → ℕ) → SatellitePass → Entry
entry value p = record { begin = p.rise_time; stop = p.set_time; value = value p }

module _ (ops : TreeOps) where
  -- The `for p in candidates`.
  unfoldable pub tree_loop : ops.Tree → List SatellitePass → List SatellitePass
  tree_loop tree [] = []
  tree_loop tree (p ∷ ps) = elim (leb p.set_time p.rise_time) [
    | true ↦ tree_loop tree ps
    | false ↦ elim (is_truthy (ops.overlap tree p.rise_time p.set_time)) [
      | true ↦ tree_loop tree ps
      | false ↦ p ∷ tree_loop (ops.add tree (entry (λ q. q.id) p)) ps
    ]
  ]

  verify_loop : ops.Tree → List SatellitePass → List (ℕ × ℕ)
  verify_loop tree [] = []
  verify_loop tree (p ∷ ps) = elim (leb p.set_time p.rise_time) [
    | true ↦ verify_loop tree ps
    | false ↦
        map (λ (iv : Entry). (p.norad_id, iv.value)) (ops.overlap tree p.rise_time p.set_time)
        ++ verify_loop (ops.add tree (entry (λ q. q.norad_id) p)) ps
  ]

  -- `_verify_no_conflicts`
  unfoldable pub verify_no_conflicts : List SatellitePass → List (ℕ × ℕ)
  unfolding verify_loop
  verify_no_conflicts passes = if ltb (length passes) 2 then [] else verify_loop ops.empty passes

  -- What `_schedule_for_station` comes to: the passes and the table that it leaves, or the error of
  -- its commit, after which the table is as before.
  pub data Attempt : Type 0 where
    returned : List SatellitePass → List SatellitePass → Attempt
    raised : Attempt

  conclude : (commits : Bool) (table selected : List SatellitePass) → List (ℕ × ℕ) → Attempt
  conclude commits table selected (c ∷ cs) = returned [] table
  conclude true table selected [] = returned selected (commit Stage.interval_tree selected table)
  conclude false table selected [] = raised

  attempt_on : (commits : Bool) (table : List SatellitePass) → List SatellitePass → Attempt
  unfolding conclude
  attempt_on commits table [] = returned [] table
  attempt_on commits table (c ∷ cs) =
      let selected = tree_loop ops.empty (c ∷ cs) in
      conclude commits table selected (verify_no_conflicts selected)

  -- `commits` tells whether the commit goes through.
  unfoldable pub schedule_for_station :
      (commits : Bool) → List SatellitePass → String → List ℕ → ℕ → ℕ → Attempt
  unfolding attempt_on
  schedule_for_station commits table station_id globally_scheduled start_time end_time =
      attempt_on commits table (
        sorted (by_key_desc benefit)
          (candidates table station_id start_time end_time globally_scheduled))

  -- The `try` around it.
  take_attempt : Run → Attempt → Run
  take_attempt run (returned selected table) = record {
    scheduled = run.scheduled ++ selected;
    satellites = run.satellites ++ map (λ (p : SatellitePass). p.norad_id) selected;
    table = table;
  }
  take_attempt run raised = run

  tree_stations : (commits : String → Bool) → ℕ → ℕ → List GroundStation → Run → Run
  unfolding take_attempt
  tree_stations commits start_time end_time [] run = run
  tree_stations commits start_time end_time (s ∷ ss) run =
      tree_stations commits start_time end_time ss (
        take_attempt run (
          schedule_for_station (commits s.station_id) run.table s.station_id run.satellites
            start_time end_time))

  -- IntervalTreeScheduler.schedule_all_stations
  unfoldable pub schedule_all_by_tree :
      (commits : String → Bool) (collate : String → String → Bool)
      → List GroundStation
      → List SatellitePass
      → ℕ
      → ℕ
      → Outcome
  unfolding tree_stations
  schedule_all_by_tree commits collate ground_stations db start_time end_time =
      committed Stage.interval_tree (
        tree_stations commits start_time end_time (active_stations collate ground_stations)
          (start_run db))
