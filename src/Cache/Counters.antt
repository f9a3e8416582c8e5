-- ===== src/Cache/Counters.antt =====
-- How often a call awaits its command, and that it leaves the counters.
use sda_system.Prelude.{ℕ, zero, suc, ◌+◌, ◌≤◌, ◌<◌, ◌≡◌, refl, ◌↔◌, Bool, true, false, none, arith}
use sda_system.Cache.{
  RedisCache, Reply, ok, transient, permanent, Command, circuit_is_open, Called, settle, attempts,
  fail_fast, call, max_retries,
}

-- A call changes neither counter.
abbrev pub SameCounts : RedisCache → RedisCache → Type 0
SameCounts c d = (d.hits ≡ c.hits) × (d.misses ≡ c.misses)

module _ {ℓ} {V : Type ℓ} where
  -- What any call comes to: it makes at most `most` attempts, at least one, and leaves the counters.
  abbrev Modest : RedisCache → ℕ → Called V → Type 0
  Modest c most called = (0 < called.awaited) × (called.awaited ≤ most) × SameCounts c called.cache

  settle-Modest :
      (c : RedisCache) (t n most : ℕ) (rest : Called V) (r : Reply V)
      → suc n ≤ most
      → Modest c most rest
      → Modest c most (settle c t (suc n) rest r)
  unfolding settle
  settle-Modest c t n most rest (ok v) h m = (omega arith, h, (refl, refl))
  settle-Modest c t n most rest transient h m = m
  settle-Modest c t n most rest permanent h m = (omega arith, h, (refl, refl))

  attempts-Modest :
      (c : RedisCache) (command : Command V) (left n : ℕ)
      → 0 < left + n
      → Modest c (left + n) (attempts c command left n)
  unfolding attempts
  attempts-Modest c command zero n h = (omega arith, omega arith, (refl, refl))
  attempts-Modest c command (suc left) n h =
      let rest = attempts-Modest c command left (suc n) (omega arith) in
      settle-Modest c command.failed_at n (suc left + n) (attempts c command left (suc n))
        (command.replies (suc n)) (omega arith) (rest.0, omega (arith, rest.1), rest.2)

  -- A call whose attempts return or raise a RedisError awaits its command at most three times, and
  -- not at all exactly when the circuit is open at its start, in which case it returns no value and
  -- leaves the state.
  pub call-awaited :
      (c : RedisCache) (command : Command V)
      → ((call c command).awaited ≤ max_retries)
        × (((call c command).awaited ≡ 0) ↔ (circuit_is_open c command.started ≡ true))
        × (circuit_is_open c command.started ≡ true
            → ((call c command).result ≡ none) × ((call c command).cache ≡ c))
  unfolding call
  call-awaited c command = decided (circuit_is_open c command.started)
    where
      all : Called V
      all = attempts c command max_retries 0

      decided :
          (b : Bool)
          → ((fail_fast c all b).awaited ≤ max_retries)
            × (((fail_fast c all b).awaited ≡ 0) ↔ (b ≡ true))
            × (b ≡ true → ((fail_fast c all b).result ≡ none) × ((fail_fast c all b).cache ≡ c))
      decided true = unfold fail_fast in (omega arith, (λ e. refl, λ e. refl), λ e. (refl, refl))
      decided false =
          unfold fail_fast in
          let m = attempts-Modest c command max_retries 0 (omega arith) in
          (m.1, (λ e. absurd (omega (arith, e, m.0)), λ e. cc), λ e. cc)

  pub call-SameCounts : (c : RedisCache) (command : Command V) → SameCounts c (call c command).cache
  unfolding call
  call-SameCounts c command = decided (circuit_is_open c command.started)
    where
      all : Called V
      all = attempts c command max_retries 0

      decided : (b : Bool) → SameCounts c (fail_fast c all b).cache
      decided true = unfold fail_fast in (refl, refl)
      decided false = unfold fail_fast in (attempts-Modest c command max_retries 0 (omega arith)).2
