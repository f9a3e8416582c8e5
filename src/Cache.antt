-- ===== src/Cache.antt =====
-- cache/redis_client.py, RedisCache: the circuit breaker, the retries, and the reads and writes on
-- top of them. The Redis server and its client package are not part of the repository: what each
-- attempt of a command comes to is an argument. Times are microseconds of the monotonic clock.
pub mod Breaker
pub mod Counters
pub mod Reads
use mathlib.Core.Option
use sda_system.Prelude.{
  ℕ, zero, suc, ◌+◌, ◌*◌, Bool, true, false, not, ◌&&◌, Option, none, some, List, [], ◌∷◌, String,
  ltb, leb, ◌==◌, if◌then◌else◌,
}

-- `_MAX_RETRIES`, `_MAX_FAILURES`, `_OPEN_DURATION_SEC`
abbrev pub max_retries : ℕ
max_retries = 3

abbrev pub max_failures : ℕ
max_failures = 5

abbrev pub open_duration : ℕ
open_duration = 30_000_000

-- The state of the client that its operations change.
pub record RedisCache : Type 0 where
  pub failure_count : ℕ
  pub open_until : ℕ
  pub hits : ℕ
  pub misses : ℕ

abbrev pub new_cache : RedisCache
new_cache = record { failure_count = 0; open_until = 0; hits = 0; misses = 0 }

-- What one attempt of a command comes to: a ConnectionError or TimeoutError is transient, any
-- other RedisError permanent.
pub data Reply {ℓ} (V : Type ℓ) : Type ℓ where
  ok : V → Reply V
  transient permanent : Reply V

-- One call of a command: its attempts by number, when it starts, and when its last one fails.
pub record Command {ℓ} (V : Type ℓ) : Type ℓ where
  pub replies : ℕ → Reply V
  pub started : ℕ
  pub failed_at : ℕ

abbrev pub circuit_is_open : RedisCache → ℕ → Bool
circuit_is_open c now = not (c.open_until == 0) && ltb now c.open_until

abbrev pub on_success : RedisCache → RedisCache
on_success c = record c { failure_count = 0; open_until = 0 }

abbrev pub on_failure : RedisCache → ℕ → RedisCache
on_failure c now = record c {
  failure_count = c.failure_count + 1;
  open_until = if leb max_failures (c.failure_count + 1) then now + open_duration else c.open_until;
}

-- What a call comes to: the value, or a RedisError; and how often `fn` was awaited. What the client
-- package does within one await, as sending the command again on a timeout, is not seen here.
pub record Called {ℓ} (V : Type ℓ) : Type ℓ where
  pub cache : RedisCache
  pub result : Option V
  pub awaited : ℕ

module _ {ℓ} {V : Type ℓ} where
  -- The body of the `for`, at the given attempt, where `rest` is what the later ones come to.
  settle : RedisCache → ℕ → (attempt : ℕ) → (rest : Called V) → Reply V → Called V
  settle c failed_at attempt rest (ok v) = record {
    cache = on_success c;
    result = some v;
    awaited = attempt;
  }
  settle c failed_at attempt rest transient = rest
  settle c failed_at attempt rest permanent = record {
    cache = on_failure c failed_at;
    result = none;
    awaited = attempt;
  }

  -- The `for attempt in range(1, _MAX_RETRIES + 1)`, with `left` attempts to go.
  attempts : RedisCache → Command V → (left done : ℕ) → Called V
  unfolding settle
  attempts c command zero done = record {
    cache = on_failure c command.failed_at;
    result = none;
    awaited = done;
  }
  attempts c command (suc left) done =
      settle c command.failed_at (suc done) (attempts c command left (suc done))
        (command.replies (suc done))

  fail_fast : RedisCache → Called V → Bool → Called V
  fail_fast c called true = record { cache = c; result = none; awaited = 0 }
  fail_fast c called false = called

  -- `_call`
  unfoldable pub call : RedisCache → Command V → Called V
  unfolding attempts fail_fast
  call c command =
      fail_fast c (attempts c command max_retries 0) (circuit_is_open c command.started)

abbrev pub count_hit : RedisCache → RedisCache
count_hit c = record c { hits = c.hits + 1 }

abbrev pub count_miss : RedisCache → RedisCache
count_miss c = record c { misses = c.misses + 1 }

-- What `json.loads` comes to: a JSONDecodeError, another exception (as on too deep a nesting), or a
-- value: null, one without a length (a number or a Boolean), or one with (a list, dict or string).
pub data Decoded {ℓ} (V : Type ℓ) : Type ℓ where
  corrupt other_error null : Decoded V
  unsized sized : V → Decoded V

-- What a read comes to: None, data, or an exception.
pub data Outcome {ℓ} (V : Type ℓ) : Type ℓ where
  no_data : Outcome V
  returned : V → Outcome V
  raised : Outcome V

pub record Read {ℓ} (V : Type ℓ) : Type ℓ where
  pub outcome : Outcome V
  pub cache : RedisCache

-- `json.loads` is a parameter; `delete` is the command of `_safe_delete`.
module _ {ℓ} {V : Type ℓ} (loads : String → Decoded V) (delete : Command ℕ) where
  -- The hit is counted before the log call takes `len(data)`, which raises a TypeError on a value
  -- without a length.
  decode_passes : RedisCache → Decoded V → Read V
  decode_passes c corrupt = record { outcome = no_data; cache = count_miss ((call c delete).cache) }
  decode_passes c other_error = record { outcome = raised; cache = c }
  decode_passes c null = record { outcome = raised; cache = count_hit c }
  decode_passes c (unsized value) = record { outcome = raised; cache = count_hit c }
  decode_passes c (sized value) = record { outcome = returned value; cache = count_hit c }

  passes_reply : RedisCache → Option (Option String) → Read V
  unfolding decode_passes
  passes_reply c none = record { outcome = no_data; cache = count_miss c }
  passes_reply c (some none) = record { outcome = no_data; cache = count_miss c }
  passes_reply c (some (some raw)) = decode_passes c (loads raw)

  -- `get_passes`
  unfoldable pub get_passes : RedisCache → Command (Option String) → Read V
  unfolding passes_reply
  get_passes c command = passes_reply (call c command).cache (call c command).result

  -- The hit is counted before `json.loads`, whose null is None.
  decode_tle : RedisCache → Decoded V → Read V
  decode_tle c corrupt = record {
    outcome = no_data;
    cache = count_miss ((call (count_hit c) delete).cache);
  }
  decode_tle c other_error = record { outcome = raised; cache = count_hit c }
  decode_tle c null = record { outcome = no_data; cache = count_hit c }
  decode_tle c (unsized value) = record { outcome = returned value; cache = count_hit c }
  decode_tle c (sized value) = record { outcome = returned value; cache = count_hit c }

  tle_reply : RedisCache → Option (Option String) → Read V
  unfolding decode_tle
  tle_reply c none = record { outcome = no_data; cache = count_miss c }
  tle_reply c (some none) = record { outcome = no_data; cache = count_miss c }
  tle_reply c (some (some raw)) = decode_tle c (loads raw)

  -- `get_tle`
  unfoldable pub get_tle : RedisCache → Command (Option String) → Read V
  unfolding tle_reply
  get_tle c command = tle_reply (call c command).cache (call c command).result

-- `ping`, and the command of `set_passes` and `set_tle`: whether it went through.
abbrev pub went_through {ℓ} : {V : Type ℓ} → Option V → Bool
went_through none = false
went_through (some v) = true
