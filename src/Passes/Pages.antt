-- ===== src/Passes/Pages.antt =====
-- A client that follows `next_page` reads the whole result of its query.
use sda_system.Http.{Response, ok, status}
use sda_system.Prelude.{
  ℕ, zero, suc, ◌+◌, ◌≤◌, ◌<◌, ◌≡◌, ◌⊎◌, Bool, Option, none, some, List, ◌++◌, map, select,
}
use sda_system.Models.{SatellitePass}
use sda_system.Prelude.Sorting.{sorted}
use sda_system.Passes.Ordered.{by_rise, IsOrderBy}
use sda_system.Passes.{
  to_response, PassResponse, PaginatedPasses, PassQuery, Answer, is_asked_for, query_all,
  get_passes, end_of, week,
}

append_pages : List PassResponse → Option (List PassResponse) → Option (List PassResponse)
append_pages items none = none
append_pages items (some rest) = some (items ++ rest)

-- What a client has after a page, where `rest` reads on from a page.
unfoldable pub after_page :
    PaginatedPasses → (rest : ℕ → Option (List PassResponse)) → Option (List PassResponse)
unfolding append_pages
after_page pg rest = elim pg.next_page [
  | none ↦ some pg.items
  | some next ↦ append_pages pg.items (rest next)
]

-- An error ends the client with `none`.
unfoldable pub after_answer :
    Response Answer → (rest : ℕ → Option (List PassResponse)) → Option (List PassResponse)
after_answer (status n) rest = none
after_answer (ok a) rest = after_page a.page rest

-- The queries of the request of each page, what each query with ORDER BY makes of its rows and when
-- the request comes; the start of the window is given.
module _ (order write_order : ℕ → List SatellitePass → List SatellitePass) (db : List SatellitePass)
    (has_cache : Bool) (now : ℕ → ℕ) (q : PassQuery) (start_time : ℕ) where
  abbrev pub with_page : ℕ → PassQuery
  with_page page = record q { start_time = some start_time; page = page }

  -- A client that starts at a page and follows `next_page`, on fuel. `found` is what the cache
  -- returns to the request of each page.
  unfoldable pub follow :
      (found : ℕ → Option (List PassResponse)) → (fuel page : ℕ) → Option (List PassResponse)
  follow found zero page = none
  follow found (suc fuel) page =
      after_answer
        (get_passes (order page) (write_order page) db has_cache (found page) (now page)
          (with_page page))
        (follow found fuel)

  abbrev pub rows : List SatellitePass
  rows = select (is_asked_for 0 (with_page 1)) db

  -- The rows that are asked for, each once, by their rise times.
  abbrev pub whole : List PassResponse
  whole = map to_response (sorted by_rise rows)

  -- The cache returns nothing, or what the first page of this query wrote there.
  abbrev pub IsOwn : Option (List PassResponse) → Type 0
  IsOwn found =
      (found ≡ none)
      ⊎ ((any_order : List SatellitePass → List SatellitePass) × IsOrderBy any_order
          × (found ≡ some (query_all any_order db 0 (with_page 1))))

  -- The handler's signature and its two checks accept the query.
  abbrev pub IsAccepted : Type 0
  IsAccepted =
      (1 ≤ q.page_size)
      × (q.page_size ≤ 100)
      × (start_time < end_of 0 (with_page 1))
      × (end_of 0 (with_page 1) ≤ start_time + week)
