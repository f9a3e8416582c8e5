-- ===== src/Cache/Breaker.antt =====
-- The breaker follows the history of its calls.
use sda_system.Prelude.{
  ℕ, zero, suc, ◌+◌, ◌<◌, ◌≡◌, refl, ◌∙◌, ap, inl, inr, Bool, true, false, ◌&&◌, ◌⊎◌, not, ◌==◌,
  ltb, Option, none, some, List, [], ◌∷◌, leb, Bool-cases, arith, if◌then◌else◌,
}
use sda_system.Cache.{
  RedisCache, new_cache, Reply, ok, transient, permanent, Command, circuit_is_open, on_success,
  on_failure, Called, settle, attempts, fail_fast, call, max_retries, max_failures, open_duration,
}

-- What a call came to, as the breaker sees it.
pub data Event : Type 0 where
  succeeded : Event
  failed : ℕ → Event
  refused : Event

-- The failures since the last success, of a history with its latest event first.
unfoldable pub recent_failures : List Event → ℕ
recent_failures [] = 0
recent_failures (succeeded ∷ past) = 0
recent_failures (failed t ∷ past) = recent_failures past + 1
recent_failures (refused ∷ past) = recent_failures past

-- When the latest failure of the history came.
unfoldable pub last_failure : List Event → ℕ
last_failure [] = 0
last_failure (succeeded ∷ past) = 0
last_failure (failed t ∷ past) = t
last_failure (refused ∷ past) = last_failure past

-- After five failures in a row the breaker is open for thirty seconds from the last of them.
abbrev pub is_open_after : List Event → ℕ → Bool
is_open_after past now =
    leb max_failures (recent_failures past) && ltb now (last_failure past + open_duration)

-- The state that a history leads to.
abbrev Tracks : RedisCache → List Event → Type 0
Tracks c past =
    (c.failure_count ≡ recent_failures past)
    × (c.open_until ≡ (
        if leb max_failures (recent_failures past) then last_failure past + open_duration else 0))

fewer : (n : ℕ) → leb max_failures (n + 1) ≡ false → leb max_failures n ≡ false
fewer n k = ground arith

-- One failure more: below five nothing was open.
opens_at :
    (u n f t : ℕ)
    → u ≡ (if leb max_failures n then f + open_duration else 0)
    → (leb max_failures (n + 1) ≡ true) ⊎ (leb max_failures (n + 1) ≡ false)
    → (if leb max_failures (n + 1) then t + open_duration else u)
      ≡ (if leb max_failures (n + 1) then t + open_duration else 0)
opens_at u n f t e (inl k) = rw k refl
opens_at u n f t e (inr k) = rw k (e ∙ ap (λ b. if b then f + open_duration else 0) (fewer n k))

is_open_until :
    (now u f : ℕ) (b : Bool)
    → u ≡ (if b then f + open_duration else 0)
    → (not (u == 0) && ltb now u) ≡ (b && ltb now (f + open_duration))
is_open_until now u f true e = ground arith
is_open_until now u f false e = ground arith

Tracks-failed :
    (c : RedisCache) (past : List Event) (t : ℕ)
    → Tracks c past
    → Tracks (on_failure c t) (failed t ∷ past)
unfolding recent_failures last_failure
Tracks-failed c past t h = (omega (arith, h.0), until)
  where
    until :
        (if leb max_failures (c.failure_count + 1) then t + open_duration else c.open_until)
        ≡ (if leb max_failures (recent_failures past + 1) then t + open_duration else 0)
    until =
        ap (λ n. if leb max_failures (n + 1) then t + open_duration else c.open_until) h.0
        ∙ opens_at c.open_until (recent_failures past) (last_failure past) t h.1
            (Bool-cases (leb max_failures (recent_failures past + 1)))

Tracks-succeeded : (c : RedisCache) (past : List Event) → Tracks (on_success c) (succeeded ∷ past)
unfolding recent_failures last_failure
Tracks-succeeded c past = (refl, refl)

Tracks-refused : (c : RedisCache) (past : List Event) → Tracks c past → Tracks c (refused ∷ past)
unfolding recent_failures last_failure
Tracks-refused c past h = h

module _ {ℓ} {V : Type ℓ} where
  event_of : ℕ → Option V → (awaited : ℕ) → Event
  event_of t o zero = refused
  event_of t none (suc n) = failed t
  event_of t (some v) (suc n) = succeeded

  -- The event of what was called.
  abbrev event : ℕ → Called V → Event
  event failed_at called = event_of failed_at called.result called.awaited

  settle-Tracks :
      (c : RedisCache) (past : List Event) (t n : ℕ) (rest : Called V) (r : Reply V)
      → Tracks c past
      → Tracks rest.cache (event t rest ∷ past)
      → Tracks (settle c t (suc n) rest r).cache (event t (settle c t (suc n) rest r) ∷ past)
  unfolding settle event_of
  settle-Tracks c past t n rest (ok v) h later = Tracks-succeeded c past
  settle-Tracks c past t n rest transient h later = later
  settle-Tracks c past t n rest permanent h later = Tracks-failed c past t h

  attempts-Tracks :
      (c : RedisCache) (past : List Event) (command : Command V) (left n : ℕ)
      → 0 < left + n
      → Tracks c past
      → Tracks
          (attempts c command left n).cache
          (event command.failed_at (attempts c command left n) ∷ past)
  unfolding attempts event_of
  attempts-Tracks c past command zero zero pos h = absurd (omega arith)
  attempts-Tracks c past command zero (suc n) pos h = Tracks-failed c past command.failed_at h
  attempts-Tracks c past command (suc left) n pos h =
      settle-Tracks c past command.failed_at n (attempts c command left (suc n))
        (command.replies (suc n)) h (attempts-Tracks c past command left (suc n) (omega arith) h)

  call-Tracks :
      (c : RedisCache) (past : List Event) (command : Command V)
      → Tracks c past
      → Tracks (call c command).cache (event command.failed_at (call c command) ∷ past)
  unfolding call
  call-Tracks c past command h = decided (circuit_is_open c command.started)
    where
      all : Called V
      all = attempts c command max_retries 0

      decided :
          (b : Bool)
          → Tracks (fail_fast c all b).cache (event command.failed_at (fail_fast c all b) ∷ past)
      decided true = unfold fail_fast event_of in Tracks-refused c past h
      decided false =
          unfold fail_fast in attempts-Tracks c past command max_retries 0 (omega arith) h

  -- The calls of a list in turn, each on the state that the one before it left, and their history.
  unfoldable pub run : RedisCache → List Event → List (Command V) → RedisCache × List Event
  unfolding event_of
  run c past [] = (c, past)
  run c past (command ∷ commands) =
      let called = call c command in
      run called.cache (event command.failed_at called ∷ past) commands

  run-Tracks :
      (c : RedisCache) (past : List Event) (commands : List (Command V))
      → Tracks c past
      → Tracks (run c past commands).0 (run c past commands).1
  unfolding run
  run-Tracks c past [] h = h
  run-Tracks c past (command ∷ commands) h =
      run-Tracks (call c command).cache (event command.failed_at (call c command) ∷ past) commands
        (call-Tracks c past command h)

  -- After any calls the breaker is open exactly when at least five calls in a row failed and the
  -- last of them failed less than thirty seconds ago; refused calls count as neither.
  pub run-circuit_is_open :
      (commands : List (Command V)) (now : ℕ)
      → circuit_is_open (run new_cache [] commands).0 now
        ≡ is_open_after (run new_cache [] commands).1 now
  run-circuit_is_open commands now =
      decided (run new_cache [] commands).0 (run new_cache [] commands).1
        (run-Tracks new_cache [] commands (unfold recent_failures last_failure in (refl, refl)))
    where
      decided :
          (c : RedisCache) (past : List Event)
          → Tracks c past
          → circuit_is_open c now ≡ is_open_after past now
      decided c past h =
          is_open_until now c.open_until (last_failure past)
            (leb max_failures (recent_failures past)) h.1
