-- ===== src/Passes.antt =====
-- api/routes/passes.py: GET /api/passes with its validation, its cache and its pages. Times are
-- microseconds since the epoch in UTC, as which the handler labels a time without a zone. What the
-- cache returned for the key of the request is an argument (`none` for a miss, an error or no
-- cache), and what the handler writes there is part of the result. Each query with ORDER BY is a parameter.
pub mod Ordered
pub mod Slices
pub mod Pages
pub mod Schedule
pub mod Coverage
use text.Mathlib.Text.{◌==◌ as str_eq}
use sda_system.Http.{Response, ok, status}
use sda_system.Prelude.{
  ℕ, ◌+◌, ◌-◌, ◌*◌, ◌/◌, Bool, true, false, not, ◌&&◌, ◌||◌, Option, none, some, List, [], ◌∷◌,
  String, ltb, leb, ◌==◌, if◌then◌else◌, map, select, length, slice,
}
use sda_system.Models.{Stage, SatellitePass}

-- The fields of PassResponse.
pub record PassResponse : Type 0 where
  pub id : ℕ
  pub norad_id : ℕ
  pub station_id : String
  pub rise_time : ℕ
  pub set_time : ℕ
  pub max_elevation : ℕ
  pub duration_seconds : ℕ
  pub is_scheduled : Bool
  pub scheduled_by : Option Stage

abbrev pub to_response : SatellitePass → PassResponse
to_response p = record {
  id = p.id;
  norad_id = p.norad_id;
  station_id = p.station_id;
  rise_time = p.rise_time;
  set_time = p.set_time;
  max_elevation = p.max_elevation;
  duration_seconds = p.duration_seconds;
  is_scheduled = p.is_scheduled;
  scheduled_by = p.scheduled_by;
}

pub record PaginatedPasses : Type 0 where
  pub items : List PassResponse
  pub total_count : ℕ
  pub page : ℕ
  pub page_size : ℕ
  pub next_page : Option ℕ

-- The query string. An empty station and the satellite 0 count as absent.
pub record PassQuery : Type 0 where
  pub station_id : Option String
  pub satellite_id : Option ℕ
  pub start_time : Option ℕ
  pub end_time : Option ℕ
  pub page : ℕ
  pub page_size : ℕ

-- The truth values of `station_id` and `satellite_id`.
abbrev pub given_station : Option String → Bool
given_station none = false
given_station (some s) = not (str_eq s "")

abbrev pub given_satellite : Option ℕ → Bool
given_satellite none = false
given_satellite (some n) = not (n == 0)

abbrev pub day : ℕ
day = 86_400_000_000

abbrev pub week : ℕ
week = 7 * day

abbrev pub or_else {ℓ} : {A : Type ℓ} → Option A → A → A
or_else none d = d
or_else (some a) d = a

-- The window asked for, from its defaults.
abbrev pub start_of : (now : ℕ) → PassQuery → ℕ
start_of now q = or_else q.start_time (now - week)

abbrev pub end_of : (now : ℕ) → PassQuery → ℕ
end_of now q = or_else q.end_time (start_of now q + week)

matches_station : Option String → SatellitePass → Bool
matches_station none p = true
matches_station (some s) p = str_eq s "" || str_eq p.station_id s

matches_satellite : Option ℕ → SatellitePass → Bool
matches_satellite none p = true
matches_satellite (some n) p = n == 0 || p.norad_id == n

-- The filters of the query.
unfoldable pub is_asked_for : (now : ℕ) → PassQuery → SatellitePass → Bool
unfolding matches_station matches_satellite
is_asked_for now q p =
    leb (start_of now q) p.rise_time
    && leb p.set_time (end_of now q)
    && matches_station q.station_id p
    && matches_satellite q.satellite_id p

-- `page_size` entries from the page's offset, and the number of the next page.
unfoldable pub page_of : (page page_size : ℕ) → List PassResponse → PaginatedPasses
page_of page page_size found =
    let offset = (page - 1) * page_size in
    record {
      items = slice offset (offset + page_size) found;
      total_count = length found;
      page = page;
      page_size = page_size;
      next_page = if ltb (offset + page_size) (length found) then some (page + 1) else none;
    }

-- An entry of the cache: station, date, and the passes.
pub record CacheEntry : Type 0 where
  pub station : Option String
  pub date : ℕ
  pub passes : List PassResponse

-- The page, and what is written to the cache.
pub record Answer : Type 0 where
  pub page : PaginatedPasses
  pub write_back : Option CacheEntry

-- All rows that the query finds, in the order of a query.
abbrev pub query_all :
    (order : List SatellitePass → List SatellitePass)
    → List SatellitePass
    → (now : ℕ) → PassQuery
    → List PassResponse
query_all order db now q = map to_response (order (select (is_asked_for now q) db))

-- `cached`, which is looked up for station-only queries.
abbrev pub looked_up :
    (has_cache : Bool) → PassQuery → Option (List PassResponse) → Option (List PassResponse)
looked_up has_cache q found =
    if has_cache && given_station q.station_id && not (given_satellite q.satellite_id)
    then found
    else none

-- The query of the page, of which OFFSET and LIMIT take a part, and the one of the write-back: each
-- puts rows of one rise time in an order of its own.
module _ (order write_order : List SatellitePass → List SatellitePass) where
  -- The answer of the database, and the write-back of the first page of a station-only query.
  unfoldable pub from_db : List SatellitePass → (has_cache : Bool) → (now : ℕ) → PassQuery → Answer
  from_db db has_cache now q = record {
    page = page_of q.page q.page_size (query_all order db now q);
    write_back =
        if has_cache
          && given_station q.station_id
          && not (given_satellite q.satellite_id)
          && q.page == 1
        then some (record {
          station = q.station_id;
          date = start_of now q / day;
          passes = query_all write_order db now q;
        })
        else none;
  }

  -- `if cached:` is false of an empty list.
  unfoldable pub from_cache :
      List SatellitePass
      → (has_cache : Bool) → (now : ℕ) → PassQuery
      → Option (List PassResponse)
      → Answer
  from_cache db has_cache now q none = from_db db has_cache now q
  from_cache db has_cache now q (some []) = from_db db has_cache now q
  from_cache db has_cache now q (some (p ∷ ps)) = record {
    page = page_of q.page q.page_size (p ∷ ps);
    write_back = none;
  }

  -- The handler; the bounds of `page` and `page_size` are those of its signature.
  unfoldable pub get_passes :
      List SatellitePass
      → (has_cache : Bool) → (found : Option (List PassResponse)) → (now : ℕ) → PassQuery
      → Response Answer
  get_passes db has_cache found now q =
      if ltb q.page 1 || ltb q.page_size 1 || ltb 100 q.page_size
      then status 422
      else if leb (end_of now q) (start_of now q)
      then status 400
      else if ltb week (end_of now q - start_of now q)
      then status 400
      else ok (from_cache db has_cache now q (looked_up has_cache q found))
