-- ===== src/Tests/Cache.antt =====
-- Runs of the cache client: five failing calls, and a corrupt entry.
use sda_system.Prelude.{
  ℕ, ◌≤◌, ◌≡◌, ◌↔◌, refl, true, false, if◌then◌else◌, Option, none, some, [], String, replicate,
}
use text.Mathlib.Text.{◌==◌ as str_eq}
use sda_system.Cache.{
  new_cache, ok, transient, Command, circuit_is_open, call, max_retries, get_passes, get_tle,
  Decoded, corrupt, null, unsized, raised, no_data,
}
use sda_system.Cache.Breaker.{run, is_open_after, run-circuit_is_open}
use sda_system.Cache.Counters.{call-awaited}
use sda_system.Cache.Reads.{entry_of, IsPassesRead, IsTleRead, get_passes-counts, get_tle-counts}

abbrev failing : Command ℕ
failing = record { replies = λ n. transient; started = 0; failed_at = 700_000 }

abbrev answered : Command (Option String)
answered = record { replies = λ n. ok (some "garbage"); started = 0; failed_at = 0 }

-- Four failing calls leave the circuit closed, and the fifth opens it.
four_failures : circuit_is_open (run new_cache [] (replicate 4 failing)).0 1_000_000 ≡ false
unfolding run call
four_failures = refl

five_failures : circuit_is_open (run new_cache [] (replicate 5 failing)).0 1_000_000 ≡ true
unfolding run call
five_failures = refl

run-circuit_is_open_example :
    circuit_is_open (run new_cache [] (replicate 5 failing)).0 1_000_000
    ≡ is_open_after (run new_cache [] (replicate 5 failing)).1 1_000_000
run-circuit_is_open_example = run-circuit_is_open (replicate 5 failing) 1_000_000

call-awaited_example :
    ((call new_cache failing).awaited ≤ max_retries)
    × (((call new_cache failing).awaited ≡ 0) ↔ (circuit_is_open new_cache 0 ≡ true))
    × (circuit_is_open new_cache 0 ≡ true
        → ((call new_cache failing).result ≡ none) × ((call new_cache failing).cache ≡ new_cache))
call-awaited_example = call-awaited new_cache failing

-- Only "null" and "5" decode.
abbrev decode : String → Decoded ℕ
decode raw = if str_eq raw "null" then null else if str_eq raw "5" then unsized 5 else corrupt

abbrev stored : String → Command (Option String)
stored raw = record { replies = λ n. ok (some raw); started = 0; failed_at = 0 }

-- A number in the place of the list: a hit, and an exception.
number_raises :
    let read = get_passes decode failing new_cache (stored "5") in
    (read.outcome ≡ raised) × (read.cache.hits ≡ 1) × (read.cache.misses ≡ 0)
unfolding get_passes call
number_raises = (refl, refl, refl)

-- A null in the place of a TLE: a hit, and no data.
null_hit :
    let read = get_tle decode failing new_cache (stored "null") in
    (read.outcome ≡ no_data) × (read.cache.hits ≡ 1) × (read.cache.misses ≡ 0)
unfolding get_tle call
null_hit = (refl, refl, refl)

get_passes-counts_example :
    IsPassesRead new_cache
      (entry_of decode (call new_cache answered).result)
      (get_passes decode failing new_cache answered)
get_passes-counts_example = get_passes-counts decode failing new_cache answered

get_tle-counts_example :
    IsTleRead new_cache
      (entry_of decode (call new_cache answered).result)
      (get_tle decode failing new_cache answered)
get_tle-counts_example = get_tle-counts decode failing new_cache answered
