-- ===== src/RateLimiter.antt =====
-- api/middleware.py: RateLimiter with its Lua script. The Redis server is not part of the
-- repository: the commands that the script sends are operations of a parameter, on the sorted set
-- under one key, and `SortedSetLaws` is what Redis documents of them. Times are microseconds of
-- one clock, and a uuid is its number.
pub mod Window
pub mod Runs
pub mod Bound
use sda_system.Prelude.{
  ℕ, ◌+◌, ◌-◌, ◌≤◌, ◌≡◌, Bool, true, false, not, ◌&&◌, Option, none, some, List, [], ltb, leb, ◌==◌,
  if◌then◌else◌,
}

abbrev pub minute : ℕ
minute = 60_000_000

-- The commands on the sorted set under a key, and the set as a command finds it at a time, when
-- its time to live may have passed.
pub record SortedSetOps : Type 1 where
  pub SortedSet : Type 0
  pub absent : SortedSet
  pub found_at : SortedSet → (time : ℕ) → SortedSet
  pub zremrangebyscore : SortedSet → (low high : ℕ) → SortedSet
  pub zcard : SortedSet → ℕ
  pub zadd : SortedSet → (score member : ℕ) → SortedSet
  pub expire : SortedSet → (time duration : ℕ) → SortedSet

-- What Redis documents of them, by the number of members that a test admits, given their scores,
-- and by whether the time to live is over at a time.
pub record SortedSetLaws (ops : SortedSetOps) : Type 1 where
  pub count : ops.SortedSet → (test : ℕ → ℕ → Bool) → ℕ
  pub lapses : ops.SortedSet → (time : ℕ) → Bool
  pub count_le :
      (z : ops.SortedSet) (f g : ℕ → ℕ → Bool)
      → ((s m : ℕ) → f s m ≡ true → g s m ≡ true)
      → count z f ≤ count z g
  pub count_absent : (f : ℕ → ℕ → Bool) → count ops.absent f ≡ 0
  pub count_found :
      (z : ops.SortedSet) (time : ℕ) (f : ℕ → ℕ → Bool)
      → count (ops.found_at z time) f ≡ (if lapses z time then 0 else count z f)
  pub count_zremrangebyscore :
      (z : ops.SortedSet) (low high : ℕ) (f : ℕ → ℕ → Bool)
      → count (ops.zremrangebyscore z low high) f
        ≡ count z (λ s m. f s m && not (leb low s && leb s high))
  pub zcard_count : (z : ops.SortedSet) → ops.zcard z ≡ count z (λ s m. true)
  pub count_zadd :
      (z : ops.SortedSet) (score member : ℕ) (f : ℕ → ℕ → Bool)
      → count z (λ s m. m == member) ≡ 0
      → count (ops.zadd z score member) f ≡ count z f + (if f score member then 1 else 0)
  pub count_expire :
      (z : ops.SortedSet) (time duration : ℕ) (f : ℕ → ℕ → Bool)
      → count (ops.expire z time duration) f ≡ count z f
  pub lapses_found :
      (z : ops.SortedSet) (time t : ℕ) → lapses (ops.found_at z time) t ≡ true → lapses z t ≡ true
  pub lapses_zremrangebyscore :
      (z : ops.SortedSet) (low high t : ℕ)
      → lapses (ops.zremrangebyscore z low high) t ≡ true
      → lapses z t ≡ true
  pub lapses_expire :
      (z : ops.SortedSet) (score member time duration t : ℕ)
      → lapses (ops.expire (ops.zadd z score member) time duration) t ≡ true
      → time + duration ≤ t

-- What becomes of the call of `eval`: it is answered, it raises after the script ran, or it raises
-- and the script did not run.
pub data Fate : Type 0 where
  answered reply_lost not_run : Fate

-- One call of check_rate_limit: the time, the limit, the uuid drawn, and the fate of its `eval`.
pub record Request : Type 0 where
  pub now : ℕ
  pub requests_per_min : ℕ
  pub member : ℕ
  pub fate : Fate

module _ (ops : SortedSetOps) where
  -- `_RATE_LIMIT_LUA`: the set it leaves, and its result.
  unfoldable pub rate_limit_lua :
      ops.SortedSet → (now win_start limit member : ℕ) → ops.SortedSet × ℕ
  rate_limit_lua z now win_start limit member =
      let kept = ops.zremrangebyscore z 0 win_start in
      if leb limit (ops.zcard kept)
      then (kept, 1)
      else (ops.expire (ops.zadd kept now member) now minute, 0)

  abbrev pub eval : ops.SortedSet → Request → ops.SortedSet × ℕ
  eval z r =
      rate_limit_lua (ops.found_at z r.now) r.now (r.now - minute) r.requests_per_min r.member

-- The reply to the result of the script.
abbrev pub reply : (result : ℕ) → Bool × Option ℕ
reply result = if result == 1 then (false, some 60) else (true, none)

module _ (ops : SortedSetOps) where
  -- What check_rate_limit leaves and returns, by the fate of its `eval`.
  unfoldable pub by_fate :
      ops.SortedSet → ops.SortedSet × ℕ → Fate → ops.SortedSet × (Bool × Option ℕ)
  by_fate z evaluated answered = (evaluated.0, reply evaluated.1)
  by_fate z evaluated reply_lost = (evaluated.0, (true, none))
  by_fate z evaluated not_run = (z, (true, none))

  unfoldable pub check_rate_limit : ops.SortedSet → Request → ops.SortedSet × (Bool × Option ℕ)
  unfolding by_fate
  check_rate_limit z r = by_fate z (eval ops z r) r.fate
