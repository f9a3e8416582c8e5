-- ===== src/Passes/Coverage.antt =====
-- GET /api/coverage: the counts, the loop over the stages, and the rows of the stations. The
-- rounded percentages of floats are a parameter. GROUP BY gives one row for each key.
pub mod Counts
use text.Mathlib.Text.{◌==◌ as str_eq}
use sda_system.Prelude.{
  ℕ, ◌+◌, ◌-◌, Bool, true, false, not, ◌&&◌, Option, none, some, List, [], ◌∷◌, String, ltb, ◌==◌,
  if◌then◌else◌, map, select, length, elem,
}
use sda_system.Models.{Stage, SatellitePass, greedy, interval_tree, ortools}

-- `DISTINCT`
unfoldable pub distinct : List ℕ → List ℕ
distinct [] = []
distinct (x ∷ xs) = if elem x xs then distinct xs else x ∷ distinct xs

-- `count(distinct(norad_id))`
abbrev pub satellites : List SatellitePass → ℕ
satellites rows = length (distinct (map (λ (p : SatellitePass). p.norad_id) rows))

-- `GROUP BY key`
module _ {ℓ κ} {A : Type ℓ} {K : Type κ} (same : K → K → Bool) (key : A → K) where
  unfoldable pub add_row : A → List (K × List A) → List (K × List A)
  add_row x [] = (key x, x ∷ []) ∷ []
  add_row x ((k, xs) ∷ groups) =
      let rest = add_row x groups in if same k (key x) then (k, x ∷ xs) ∷ groups else (k, xs) ∷ rest

  unfoldable pub group_rows : List A → List (K × List A)
  group_rows [] = []
  group_rows (x ∷ xs) = add_row x (group_rows xs)

same_stage : Option Stage → Option Stage → Bool
same_stage none none = true
same_stage (some greedy) (some greedy) = true
same_stage (some interval_tree) (some interval_tree) = true
same_stage (some ortools) (some ortools) = true
same_stage a b = false

-- The `for` over the stages: `greedy_scheduled` and `ortools_scheduled`.
unfoldable pub stage_loop :
    (greedy_scheduled ortools_scheduled : ℕ) → List (Option Stage × List SatellitePass) → ℕ × ℕ
stage_loop g o [] = (g, o)
stage_loop g o ((some greedy, rows) ∷ groups) = stage_loop (g + satellites rows) o groups
stage_loop g o ((some interval_tree, rows) ∷ groups) = stage_loop (g + satellites rows) o groups
stage_loop g o ((some ortools, rows) ∷ groups) = stage_loop g (satellites rows) groups
stage_loop g o ((none, rows) ∷ groups) = stage_loop g o groups

abbrev pub is_scheduled : SatellitePass → Bool
is_scheduled p = p.is_scheduled

module _ (F : Type 0) where
  pub record StationUtilization : Type 0 where
    pub station_id : String
    pub station_name : String
    pub total_passes_visible : ℕ
    pub scheduled_passes : ℕ
    pub unique_satellites_scheduled : ℕ
    pub utilization_pct : F

  pub record CoverageResponse : Type 0 where
    pub total_visible_satellites : ℕ
    pub greedy_scheduled : ℕ
    pub ortools_scheduled : ℕ
    pub total_scheduled : ℕ
    pub coverage_pct : F
    pub greedy_coverage_pct : F
    pub ortools_improvement_pct : F
    pub station_utilization : List StationUtilization
    pub unscheduled_count : ℕ

  -- `round(part / total * 100, 1)` and that of a difference, and 0.0.
  pub record Percents : Type 0 where
    pub zero_pct : F
    pub percent : (part total : ℕ) → F
    pub difference : (a b total : ℕ) → F

  -- `station_names.get(station_id, f"Station_{station_id}")`
  unfoldable pub name_of : (fallback : String → String) → List (String × String) → String → String
  name_of fallback [] station_id = fallback station_id
  name_of fallback ((s, name) ∷ names) station_id =
      if str_eq s station_id then name else name_of fallback names station_id

  unfoldable pub station_row :
      Percents → (station_name : String → String) → String × List SatellitePass → StationUtilization
  station_row pct station_name (station_id, rows) = record {
    station_id = station_id;
    station_name = station_name station_id;
    total_passes_visible = length rows;
    scheduled_passes = length (select is_scheduled rows);
    unique_satellites_scheduled = satellites (select is_scheduled rows);
    utilization_pct =
        if ltb 0 (length rows)
        then pct.percent (length (select is_scheduled rows)) (length rows)
        else pct.zero_pct;
  }

  unfoldable pub get_coverage :
      Percents
      → (fallback : String → String) → (names : List (String × String)) → List SatellitePass
      → CoverageResponse
  unfolding same_stage name_of
  get_coverage pct fallback names db =
      let total_visible = satellites db in
      let scheduled = select is_scheduled db in
      let stages =
        stage_loop 0 0 (group_rows same_stage (λ (p : SatellitePass). p.scheduled_by) scheduled) in
      let total_scheduled = satellites scheduled in
      record {
        total_visible_satellites = total_visible;
        greedy_scheduled = stages.0;
        ortools_scheduled = stages.1;
        total_scheduled = total_scheduled;
        coverage_pct =
            if ltb 0 total_visible then pct.percent total_scheduled total_visible else pct.zero_pct;
        greedy_coverage_pct =
            if ltb 0 total_visible then pct.percent stages.0 total_visible else pct.zero_pct;
        ortools_improvement_pct =
            if ltb 0 total_visible
            then pct.difference total_scheduled stages.0 total_visible
            else pct.zero_pct;
        station_utilization =
            map (station_row pct (name_of fallback names))
              (group_rows str_eq (λ (p : SatellitePass). p.station_id) db);
        unscheduled_count = total_visible - total_scheduled;
      }
