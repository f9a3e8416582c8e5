-- ===== src/Tests/Fetch.antt =====
-- Two sources, of which the first never answers and the second answers late, and the stations.
use sda_system.Prelude.{
  ℕ, ◌≤◌, ◌≡◌, ◌≢◌, ◌↔◌, refl, true, false, none, some, List, [], ◌∷◌, String, ltb, elem,
  if◌then◌else◌,
}
use sda_system.Models.{GroundStation}
use sda_system.Ingestion.Tle.{lstrip, rstrip}
use sda_system.Ingestion.Fetch.{
  Outcome, text_found, no_text, raised, Reply, answered, network_error, on_reply, fetch_attempts,
  or_next, fetch_all,
}
use sda_system.Ingestion.Fetch.Sources.{Picks, fetch_all-Picks}
use sda_system.Ingestion.Seed.{has_id, missing, commit_seed, init_ground_stations}
use sda_system.Ingestion.Seed.Keys.{IsSeeded, init_ground_stations-IsSeeded}

-- Source 0 is down; the others answer 503 first, and then with a text.
abbrev server : ℕ → ℕ → Reply
server source attempt =
    if ltb 0 source
    then if ltb 1 attempt then answered 200 false (some (49 ∷ [])) else answered 503 false (some [])
    else network_error

second_source : (fetch_all server (0 ∷ 1 ∷ [])).outcome ≡ text_found (49 ∷ [])
unfolding fetch_all or_next fetch_attempts on_reply lstrip rstrip elem
second_source = refl

five_requests : (fetch_all server (0 ∷ 1 ∷ [])).requests ≡ 5
unfolding fetch_all or_next fetch_attempts on_reply lstrip rstrip elem
five_requests = refl

-- A body that cannot be decoded ends fetch_all, though the next source serves a text.
abbrev broken : ℕ → ℕ → Reply
broken source attempt =
    if ltb 0 source then answered 200 false (some (49 ∷ [])) else answered 200 false none

ends_early : (fetch_all broken (0 ∷ 1 ∷ [])).outcome ≡ raised
unfolding fetch_all or_next fetch_attempts on_reply
ends_early = refl

fetch_all-Picks_example :
    ((outcome : Outcome)
      → outcome ≢ no_text
      → ((fetch_all server (0 ∷ 1 ∷ [])).outcome ≡ outcome) ↔ Picks server (0 ∷ 1 ∷ []) outcome)
    × (((fetch_all server (0 ∷ 1 ∷ [])).outcome ≡ no_text)
        ↔ ((outcome : Outcome) → outcome ≢ no_text → ¬ Picks server (0 ∷ 1 ∷ []) outcome))
    × ((fetch_all server (0 ∷ 1 ∷ [])).requests ≤ 6)
    × ((fetch_all server (0 ∷ 1 ∷ [])).waited ≤ 12)
fetch_all-Picks_example = fetch_all-Picks server (0 ∷ 1 ∷ [])

abbrev configured : List String
configured = "GS-01" ∷ "GS-02" ∷ "GS-01" ∷ []

abbrev closed : GroundStation
closed = record { station_id = "GS-02"; is_active = false }

one_added :
    (init_ground_stations true configured (closed ∷ [])).table
    ≡ closed ∷ record { station_id = "GS-01"; is_active = true } ∷ []
unfolding init_ground_stations commit_seed missing has_id
one_added = refl

init_ground_stations-IsSeeded_example :
    IsSeeded configured (closed ∷ []) (init_ground_stations true configured (closed ∷ []))
    × ((init_ground_stations false configured (closed ∷ [])).table ≡ closed ∷ [])
init_ground_stations-IsSeeded_example = init_ground_stations-IsSeeded configured (closed ∷ [])
