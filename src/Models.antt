-- ===== src/Models.antt =====
-- db/models.py: the rows that the schedulers read and write, with the table's CHECK constraints.
-- A `DateTime(timezone=True)` is the number of microseconds since the Unix epoch. The two floats
-- that the schedulers multiply are counted in fixed small units, so that their product is exact.
-- Columns that no scheduler reads (azimuths, tle_epoch, created_at) are left out.
use sda_system.Prelude.{ℕ, ◌*◌, ◌≤◌, ◌<◌, String, Bool, Option, List, Pairwise}

-- Values constrained by ck_pass_scheduled_by_values.
pub data Stage : Type 0 where
  greedy interval_tree ortools : Stage

pub record SatellitePass : Type 0 where
  pub id : ℕ
  pub norad_id : ℕ
  pub station_id : String
  pub rise_time : ℕ
  pub set_time : ℕ
  pub duration_seconds : ℕ
  pub max_elevation : ℕ
  pub is_scheduled : Bool
  pub scheduled_by : Option Stage

pub record GroundStation : Type 0 where
  pub station_id : String
  pub is_active : Bool

-- One degree of elevation, in the unit of `max_elevation`.
abbrev pub degree : ℕ
degree = 1_000_000

-- The CHECK constraints of satellite_passes.
pub record MeetsChecks (p : SatellitePass) : Type 0 where
  pub time_order : p.rise_time < p.set_time
  pub duration_positive : 0 < p.duration_seconds
  pub elevation_range : p.max_elevation ≤ 90 * degree

-- Two passes of one station's antenna overlap: [a, b) and [c, d) with a < d and c < b.
abbrev pub Overlap : SatellitePass → SatellitePass → Type 0
Overlap p q = (p.rise_time < q.set_time) × (q.rise_time < p.set_time)

abbrev pub Apart : SatellitePass → SatellitePass → Type 0
Apart p q = ¬ Overlap p q

-- No two passes of the list overlap.
abbrev pub ConflictFree : List SatellitePass → Type 0
ConflictFree = Pairwise Apart
