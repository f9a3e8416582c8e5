-- ===== src/Ingestion/Seed.antt =====
-- ingestion/fetcher.py, TLEFetcher.init_ground_stations. A configured station is its id; the other
-- columns are copied. Whether the commit goes through is an argument.
pub mod Keys
use text.Mathlib.Text.{◌==◌ as str_eq}
use sda_system.Prelude.{Bool, true, false, ◌||◌, List, [], ◌∷◌, ◌++◌, map, String, if◌then◌else◌}
use sda_system.Models.{GroundStation}

unfoldable pub has_id : String → List String → Bool
has_id sid [] = false
has_id sid (s ∷ ids) = str_eq s sid || has_id sid ids

-- `[s for sid, s in configured.items() if sid not in existing_ids]`, where the dict has one item for
-- each id.
unfoldable pub missing : (known : List String) → (ids : List String) → List String
missing known [] = []
missing known (sid ∷ ids) =
    let others = missing known ids in
    let later = missing (sid ∷ known) ids in if has_id sid known then others else sid ∷ later

abbrev pub new_station : String → GroundStation
new_station sid = record { station_id = sid; is_active = true }

abbrev pub station_ids : List GroundStation → List String
station_ids = map (λ s. s.station_id)

-- The table left, and whether the commit raised.
pub record Seeded : Type 0 where
  pub table : List GroundStation
  pub raised : Bool

unfoldable pub commit_seed : (commits : Bool) → List GroundStation → List String → Seeded
commit_seed commits table [] = record { table = table; raised = false }
commit_seed true table (s ∷ ss) = record {
  table = table ++ map new_station (s ∷ ss);
  raised = false;
}
commit_seed false table (s ∷ ss) = record { table = table; raised = true }

-- init_ground_stations
unfoldable pub init_ground_stations :
    (commits : Bool) → (configured : List String) → List GroundStation → Seeded
init_ground_stations commits configured table =
    commit_seed commits table (missing (station_ids table) configured)
