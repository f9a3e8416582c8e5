-- ===== src/Scheduling/Optimizer.antt =====
-- scheduling/ortools_optimizer.py: the second stage, an integer program over the passes that fit
-- into the free slots. CP-SAT (package ortools) is not part of the repository: its solver is a
-- parameter, a function from the program to the values of the Boolean variables, where `none` is a
-- status other than OPTIMAL and FEASIBLE.
pub mod Fits
pub mod Groups
pub mod Candidates
pub mod Guards
pub mod Solved
use text.Mathlib.Text.{◌==◌ as str_eq}
use sda_system.Prelude.{
  ℕ, zero, suc, ◌+◌, ◌-◌, ◌*◌, ◌/◌, max, Bool, true, false, not, ◌&&◌, ◌||◌, Option, none, some,
  List, [], ◌∷◌, ◌++◌, map, String, ltb, leb, ◌==◌, length, get_or, elem, select, if◌then◌else◌,
}
use sda_system.Prelude.Sorting.{sorted}
use sda_system.Prelude.Bisect.{bisect_right}
use sda_system.Models.{Stage, SatellitePass}
use sda_system.Scheduling.Intervals.{Interval}
use sda_system.Scheduling.Weighted.{benefit}
use sda_system.Scheduling.Slots.{by_start}
use sda_system.Scheduling.Stations.{mark, commit}

-- Microseconds in a second.
abbrev pub second : ℕ
second = 1_000_000

-- `_to_utc_seconds`, where `none` is the ValueError. `int` rounds towards zero, so that a time
-- less than a second before the epoch is no error.
abbrev pub to_utc_seconds : ℕ → ℕ → Option ℕ
to_utc_seconds dt epoch =
    if leb epoch dt
    then some ((dt - epoch) / second)
    else if (epoch - dt) / second == 0
    then some 0
    else none

slot_at : ℕ → ℕ → List Interval → ℕ → Bool
slot_at rise end slots zero = false
slot_at rise end slots (suc pos) = leb end (get_or slots pos (record { start = 0; stop = 0 })).stop

-- `_fits_in_any_slot`: the slot at `pos - 1`, if there is one.
unfoldable pub fits_in_any_slot : ℕ → ℕ → List Interval → Bool
unfolding slot_at bisect_right
fits_in_any_slot rise end sorted_slots =
    slot_at rise end sorted_slots (bisect_right (map (λ (s : Interval). s.start) sorted_slots) rise)

-- The query of `_get_candidate_passes`; the last filter is left out while the set is empty.
unfoldable pub is_remaining : List ℕ → ℕ → ℕ → SatellitePass → Bool
is_remaining scheduled_satellites start_time end_time p =
    not p.is_scheduled
    && leb start_time p.rise_time
    && leb p.set_time end_time
    && not (elem p.norad_id scheduled_satellites)

-- `station_slots.get(station_id, [])`, the slots of the station in the order of their starts.
unfoldable pub slots_of : String → List (String × List Interval) → List Interval
slots_of station_id [] = []
slots_of station_id ((sid, slots) ∷ rest) =
    let others = slots_of station_id rest in
    if str_eq sid station_id then sorted by_start slots else others

-- `_get_candidate_passes`; `row_order` is the ORDER BY of the query.
unfoldable pub get_candidate_passes :
    (row_order : SatellitePass → SatellitePass → Bool)
    → List SatellitePass
    → List ℕ
    → ℕ
    → ℕ
    → List (String × List Interval)
    → List SatellitePass
get_candidate_passes row_order db scheduled_satellites start_time end_time [] = []
get_candidate_passes row_order db scheduled_satellites start_time end_time (s ∷ ss) =
    select (λ p. fits_in_any_slot p.rise_time p.set_time (slots_of p.station_id (s ∷ ss)))
      (sorted row_order (select (is_remaining scheduled_satellites start_time end_time) db))

-- A pass kept for the program, in whole seconds since the epoch.
pub record Timed : Type 0 where
  pub pass : SatellitePass
  pub start : ℕ
  pub stop : ℕ
  pub benefit : ℕ

-- `_BENEFIT_SCALE`
abbrev pub benefit_scale : ℕ
benefit_scale = 100

-- `int(max_elevation * duration_seconds * _BENEFIT_SCALE)`, from the units of the two factors.
abbrev pub scaled_benefit : SatellitePass → ℕ
scaled_benefit p = benefit p * benefit_scale / (second * second)

timed_at : SatellitePass → Option ℕ → Option ℕ → Option Timed
timed_at p (some s) (some e) =
    if leb e s
    then none
    else some (record { pass = p; start = s; stop = e; benefit = scaled_benefit p })
timed_at p o none = none
timed_at p none (some e) = none

keep_timed : Option Timed → List Timed → List Timed
keep_timed none rest = rest
keep_timed (some v) rest = v ∷ rest

-- Step 1 of `_solve`: the passes whose `keep` is true.
unfoldable pub valid_passes : ℕ → List SatellitePass → List Timed
unfolding timed_at keep_timed
valid_passes epoch [] = []
valid_passes epoch (p ∷ ps) =
    keep_timed (timed_at p (to_utc_seconds p.rise_time epoch) (to_utc_seconds p.set_time epoch))
      (valid_passes epoch ps)

-- `groups.setdefault(key, []).append(i)`
module _ {ℓ} {K : Type ℓ} (same : K → K → Bool) where
  unfoldable pub group_add : K → ℕ → List (K × List ℕ) → List (K × List ℕ)
  group_add key i [] = (key, i ∷ []) ∷ []
  group_add key i ((k, is) ∷ rest) =
      let later = group_add key i rest in
      if same k key then (k, is ++ i ∷ []) ∷ rest else (k, is) ∷ later

  -- `for i, … in enumerate(…)`
  unfoldable pub group_keys : ℕ → List K → List (K × List ℕ) → List (K × List ℕ)
  group_keys i [] groups = groups
  group_keys i (key ∷ keys) groups = group_keys (i + 1) keys (group_add key i groups)

-- What steps 2 to 5 hand to the solver: a Boolean and an optional interval for each pass, the
-- groups of AddNoOverlap and of AddAtMostOne, and the objective, whose terms are worth their
-- coefficient when one of their variables is true (a satellite's variable is the maximum of those
-- of its passes).
pub record Program : Type 0 where
  pub variables : List Timed
  pub no_overlap : List (List ℕ)
  pub at_most_one : List (List ℕ)
  pub objective : List (List ℕ × ℕ)

abbrev pub station_groups : List Timed → List (List ℕ)
station_groups ts =
    map (λ (g : String × List ℕ). g.1)
      (group_keys str_eq 0 (map (λ (t : Timed). t.pass.station_id) ts) [])

abbrev pub sat_groups : List Timed → List (List ℕ)
sat_groups ts =
    map (λ (g : ℕ × List ℕ). g.1) (group_keys ◌==◌ 0 (map (λ (t : Timed). t.pass.norad_id) ts) [])

-- `len(local_indices) > 1`
abbrev pub has_several : List ℕ → Bool
has_several is = ltb 1 (length is)

max_benefit : List Timed → ℕ
max_benefit [] = 0
max_benefit (t ∷ ts) = max t.benefit (max_benefit ts)

pass_terms : ℕ → List Timed → List (List ℕ × ℕ)
pass_terms i [] = []
pass_terms i (t ∷ ts) = (i ∷ [], t.benefit) ∷ pass_terms (i + 1) ts

unfoldable pub build_program : List Timed → Program
unfolding max_benefit pass_terms
build_program ts = record {
  variables = ts;
  no_overlap = select has_several (station_groups ts);
  at_most_one = select has_several (sat_groups ts);
  objective = map (λ g. (g, max_benefit ts + 1)) (sat_groups ts) ++ pass_terms 0 ts;
}

-- Step 7, with its two guards; `committed_norads` are the satellites committed before.
unfoldable pub extract : (already committed_norads : List ℕ) → List Timed → List Bool → List Timed
extract already committed_norads [] values = []
extract already committed_norads (t ∷ ts) [] = []
extract already committed_norads (t ∷ ts) (false ∷ values) =
    extract already committed_norads ts values
extract already committed_norads (t ∷ ts) (true ∷ values) =
    elim (elem t.pass.norad_id already || elem t.pass.norad_id committed_norads) [
      | true ↦ extract already committed_norads ts values
      | false ↦ t ∷ extract already (t.pass.norad_id ∷ committed_norads) ts values
    ]

-- The passes returned, and the table left.
pub record Plan : Type 0 where
  pub newly_scheduled : List SatellitePass
  pub table : List SatellitePass

abbrev pub plan_of : List SatellitePass → List SatellitePass → Plan
plan_of db picked = record {
  newly_scheduled = map (mark Stage.ortools) picked;
  table = commit Stage.ortools picked db;
}

commit_values : List SatellitePass → List ℕ → List Timed → Option (List Bool) → Plan
commit_values db already ts none = record { newly_scheduled = []; table = db }
commit_values db already ts (some values) =
    plan_of db (map (λ (t : Timed). t.pass) (extract already [] ts values))

solve_program : (Program → Option (List Bool)) → List SatellitePass → List ℕ → List Timed → Plan
unfolding commit_values
solve_program solver db already [] = record { newly_scheduled = []; table = db }
solve_program solver db already (t ∷ ts) =
    commit_values db already (t ∷ ts) (solver (build_program (t ∷ ts)))

-- ORToolsOptimizer.optimize_remaining and `_solve`.
unfoldable pub optimize_remaining :
    (solver : Program → Option (List Bool)) (row_order : SatellitePass → SatellitePass → Bool)
    → List SatellitePass
    → List ℕ
    → ℕ
    → ℕ
    → List (String × List Interval)
    → Plan
unfolding solve_program
optimize_remaining solver row_order db scheduled_satellites start_time end_time free_slots =
    solve_program solver db scheduled_satellites (
      valid_passes start_time
        (get_candidate_passes row_order db scheduled_satellites start_time end_time free_slots))
