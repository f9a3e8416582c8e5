-- ===== src/Tests/Auth.antt =====
-- Runs of the key verification, on a server that is a list of entries with their last times.
use sda_system.Prelude.{
  ℕ, ◌+◌, ◌*◌, ◌≤◌, ◌≡◌, ◌≢◌, refl, true, false, Option, none, some, List, [], ◌∷◌, String, leb,
  ◌==◌, if◌then◌else◌, arith, ◌++◌, select, elem,
}
use sda_system.Auth.{
  ApiKey, Entry, EntryOps, EntryLaws, Faults, ok, status, State, verify, from_cached, from_table,
  from_row, write_entry, cached, update_row,
}
use sda_system.Auth.Keys.{revoke_api_key, with_row}
use sda_system.Auth.Fresh.{Event, verifies, revokes, act, run, Held, verify-Held}
use sda_system.Auth.Gate.{Gate, verify_api_key, rate_limited, admit}
use sda_system.Auth.Limits.{
  Arrival, Arriving, run_gate, verified, outcome, grants_after, verify_api_key-outcome,
}
use sda_system.RateLimiter.{minute, answered, check_rate_limit, rate_limit_lua, by_fate}
use sda_system.RateLimiter.Window.{Arrives}
use sda_system.Tests.RateLimiter.{list_set, list_set-SortedSetLaws}

abbrev Row : Type 0
Row = ℕ × ℕ × Entry

abbrev find : List Row → ℕ → ℕ → Option Entry
find [] k t = none
find ((j, last, v) ∷ rows) k t =
    if j == k then (if leb t last then some v else none) else find rows k t

abbrev list_server : EntryOps
list_server = record {
  Server = List Row;
  empty = [];
  get = find;
  setex = λ s k time duration v. (k, time + duration, v) ∷ s;
}

find_self :
    (s : List Row) (k last t : ℕ) (v w : Entry)
    → find ((k, last, v) ∷ s) k t ≡ some w
    → (w ≡ v) × (t ≤ last)
find_self s k last t v w h = (ground (arith, h), ground (arith, h))

find_ne :
    (s : List Row) (k j last t : ℕ) (v w : Entry)
    → k ≢ j
    → find ((k, last, v) ∷ s) j t ≡ some w
    → find s j t ≡ some w
find_ne s k j last t v w ne h = ground (arith, h, ne)

list_server-EntryLaws : EntryLaws list_server
list_server-EntryLaws = record {
  get_empty = λ k t. refl;
  get-setex_self = λ s k time duration t v w h. find_self s k (time + duration) t v w h;
  get-setex_ne = λ s k j time duration t v w ne h. find_ne s k j (time + duration) t v w ne h;
}

-- One key, of a digest that all texts share.
abbrev digest : String → ℕ
digest text = 7

abbrev one_key : List ApiKey
one_key =
    record {
      id = 1;
      key_hash = 7;
      name = "operator";
      is_active = true;
      rate_limit_per_min = 2;
      last_used_at = none;
    }
    ∷ []

abbrev no_faults : Faults
no_faults = record { get_raises = false; commit_raises = false; setex_raises = false }

abbrev seconds : ℕ → ℕ
seconds n = n * 1_000_000

-- A request, and the revocation of its key.
abbrev events : List Event
events =
    record { now = seconds 100; action = verifies (some "key") no_faults }
    ∷ record { now = seconds 101; action = revokes 1 }
    ∷ []

abbrev fresh_state : State list_server
fresh_state = record { table = one_key; server = [] }

-- The revoked key is accepted while its entry lasts, and refused after.
revoked_accepted :
    (verify list_server digest
      (run list_server digest fresh_state [] events).0
      no_faults
      (seconds 400)
      (some "key")).1
    ≡ ok (7, 2)
unfolding verify run act from_cached from_table from_row write_entry cached select revoke_api_key
    with_row update_row
revoked_accepted = refl

revoked_refused :
    (verify list_server digest
      (run list_server digest fresh_state [] events).0
      no_faults
      (seconds 401)
      (some "key")).1
    ≡ status 401
unfolding verify run act from_cached from_table from_row write_entry cached select revoke_api_key
    with_row update_row
revoked_refused = refl

verify-Held_example :
    (key : String) × (some "key" ≡ some key)
    × (7 ≡ digest key)
    × (let (s, past) = run list_server digest fresh_state [] events in
        Held (record { time = seconds 400; keys = s.table } ∷ past) 7 2 (seconds 400))
verify-Held_example =
    verify-Held list_server list_server-EntryLaws digest one_key events no_faults (seconds 400) 7 2
      (some "key") revoked_accepted

abbrev visit_at : ℕ → ℕ → Arrival list_server list_set
visit_at now member = record {
  visit = record { now = now; faults = no_faults; member = member; fate = answered };
  x_api_key = some "key";
}

abbrev visits : List (Arrival list_server list_set)
visits = visit_at (seconds 100) 1 ∷ visit_at (seconds 101) 2 ∷ []

abbrev gate : Gate list_server list_set
gate = record { auth = fresh_state; windows = λ t. ([], none) }

-- The third request of a minute exceeds the limit of two.
third_limited :
    (verify_api_key list_server list_set digest
      (run_gate list_server list_set digest gate (λ t. []) visits).0
      (visit_at (seconds 102) 3).visit
      (some "key")).1
    ≡ status 429
unfolding verify_api_key run_gate rate_limited admit verify from_cached from_table from_row
    write_entry cached select update_row check_rate_limit rate_limit_lua by_fate verified
    grants_after
third_limited = refl

visits-Arriving :
    Arriving list_server list_set list_set-SortedSetLaws minute []
      (visits ++ visit_at (seconds 102) 3 ∷ [])
unfolding Arrives elem
visits-Arriving = (omega arith, refl, (omega arith, refl, (omega arith, refl, tt)))

verify_api_key-outcome_example :
    let (g, grants) = run_gate list_server list_set digest gate (λ t. []) visits in
    (verify_api_key list_server list_set digest g (visit_at (seconds 102) 3).visit (some "key")).1
    ≡ outcome list_server list_set grants
        (visit_at (seconds 102) 3).visit
        (verified list_server list_set digest g (visit_at (seconds 102) 3)).1
verify_api_key-outcome_example =
    verify_api_key-outcome list_server list_set list_set-SortedSetLaws digest fresh_state visits
      (visit_at (seconds 102) 3) visits-Arriving
