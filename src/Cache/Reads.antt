-- ===== src/Cache/Reads.antt =====
-- What the reads count and return.
use sda_system.Prelude.{
  ℕ, ◌+◌, ◌≡◌, refl, ◌↔◌, ◌⊎◌, inl, inr, Bool, true, false, Option, none, some, String, arith,
}
use sda_system.Cache.{
  RedisCache, Command, call, went_through, Decoded, corrupt, other_error, null, unsized, sized,
  no_data, returned, Read, decode_passes, passes_reply, get_passes, decode_tle, tle_reply, get_tle,
  count_hit, count_miss,
}
use sda_system.Cache.Counters.{SameCounts, call-SameCounts}

abbrev pub one_if : Bool → ℕ
one_if true = 1
one_if false = 0

-- The entry that a call returned, as json.loads reads it: `none` where the call failed or returned
-- no entry.
abbrev pub entry_of {ℓ} :
    {V : Type ℓ} → (String → Decoded V) → Option (Option String) → Option (Decoded V)
entry_of loads none = none
entry_of loads (some none) = none
entry_of loads (some (some raw)) = some (loads raw)

module _ {ℓ} {V : Type ℓ} where
  -- There is no entry, or a corrupt one.
  abbrev pub is_missing : Option (Decoded V) → Bool
  is_missing none = true
  is_missing (some corrupt) = true
  is_missing (some other_error) = false
  is_missing (some null) = false
  is_missing (some (unsized value)) = false
  is_missing (some (sized value)) = false

  -- There is an entry that json.loads decodes.
  abbrev pub is_decoded : Option (Decoded V) → Bool
  is_decoded none = false
  is_decoded (some corrupt) = false
  is_decoded (some other_error) = false
  is_decoded (some null) = true
  is_decoded (some (unsized value)) = true
  is_decoded (some (sized value)) = true

  -- What get_passes counts and returns.
  pub record IsPassesRead (c : RedisCache) (entry : Option (Decoded V)) (read : Read V)
      : Type ℓ where
    pub hit : read.cache.hits ≡ c.hits + one_if (is_decoded entry)
    pub miss : read.cache.misses ≡ c.misses + one_if (is_missing entry)
    pub nothing : (read.outcome ≡ no_data) ↔ (is_missing entry ≡ true)
    pub data_of : (v : V) → (read.outcome ≡ returned v) ↔ (entry ≡ some (sized v))

  -- What get_tle counts and returns.
  pub record IsTleRead (c : RedisCache) (entry : Option (Decoded V)) (read : Read V) : Type ℓ where
    pub hit : read.cache.hits ≡ c.hits + one_if (went_through entry)
    pub miss : read.cache.misses ≡ c.misses + one_if (is_missing entry)
    pub nothing : (read.outcome ≡ no_data) ↔ ((is_missing entry ≡ true) ⊎ (entry ≡ some null))
    pub data_of :
        (v : V)
        → (read.outcome ≡ returned v) ↔ ((entry ≡ some (sized v)) ⊎ (entry ≡ some (unsized v)))

module _ {ℓ} {V : Type ℓ} (loads : String → Decoded V) (delete : Command ℕ) (c : RedisCache)
    (command : Command (Option String)) where
  -- get_passes counts a hit exactly when the call returned an entry that json.loads decodes, and a
  -- miss exactly when it returned none or a corrupt one, which is when get_passes returns no data. It
  -- returns data exactly when the entry decodes to a value that has a length: for null, a number or
  -- a Boolean the hit is counted and an exception raised.
  pub get_passes-counts :
      IsPassesRead c (entry_of loads (call c command).result) (get_passes loads delete c command)
  unfolding get_passes
  get_passes-counts =
      replied (call c command).cache (call c command).result (call-SameCounts c command)
    where
      decoded :
          (d : RedisCache) (o : Decoded V)
          → SameCounts c d
          → IsPassesRead c (some o) (decode_passes loads delete d o)
      decoded d corrupt h =
          unfold decode_passes in
          let k = call-SameCounts d delete in
          record {
            hit = omega (arith, h.0, k.0);
            miss = omega (arith, h.1, k.1);
            nothing = (λ e. refl, λ e. refl);
            data_of = λ v. (λ e. absurd (cc), λ e. absurd (cc));
          }
      decoded d other_error h =
          unfold decode_passes in
          record {
            hit = omega (arith, h.0);
            miss = omega (arith, h.1);
            nothing = (λ e. absurd (cc), λ e. absurd (cc));
            data_of = λ v. (λ e. absurd (cc), λ e. absurd (cc));
          }
      decoded d null h =
          unfold decode_passes in
          record {
            hit = omega (arith, h.0);
            miss = omega (arith, h.1);
            nothing = (λ e. absurd (cc), λ e. absurd (cc));
            data_of = λ v. (λ e. absurd (cc), λ e. absurd (cc));
          }
      decoded d (unsized value) h =
          unfold decode_passes in
          record {
            hit = omega (arith, h.0);
            miss = omega (arith, h.1);
            nothing = (λ e. absurd (cc), λ e. absurd (cc));
            data_of = λ v. (λ e. absurd (cc), λ e. absurd (cc));
          }
      decoded d (sized value) h =
          unfold decode_passes in
          record {
            hit = omega (arith, h.0);
            miss = omega (arith, h.1);
            nothing = (λ e. absurd (cc), λ e. absurd (cc));
            data_of = λ v. (λ e. cc, λ e. cc);
          }

      missing :
          (d : RedisCache)
          → SameCounts c d
          → IsPassesRead {V = V} c none (record { outcome = no_data; cache = count_miss d })
      missing d h = record {
        hit = omega (arith, h.0);
        miss = omega (arith, h.1);
        nothing = (λ e. refl, λ e. refl);
        data_of = λ v. (λ e. absurd (cc), λ e. absurd (cc));
      }

      replied :
          (d : RedisCache) (got : Option (Option String))
          → SameCounts c d
          → IsPassesRead c (entry_of loads got) (passes_reply loads delete d got)
      replied d none h = unfold passes_reply in missing d h
      replied d (some none) h = unfold passes_reply in missing d h
      replied d (some (some raw)) h = unfold passes_reply in decoded d (loads raw) h

  -- get_tle counts a hit exactly when the call returned an entry, and a miss exactly when it returned
  -- none or a corrupt one: a corrupt entry counts as both. It returns no data exactly when there is a
  -- miss or the entry is null, which counts as a hit alone; and it returns the value of every entry
  -- that decodes to another one.
  pub get_tle-counts :
      IsTleRead c (entry_of loads (call c command).result) (get_tle loads delete c command)
  unfolding get_tle
  get_tle-counts =
      replied (call c command).cache (call c command).result (call-SameCounts c command)
    where
      decoded :
          (d : RedisCache) (o : Decoded V)
          → SameCounts c d
          → IsTleRead c (some o) (decode_tle loads delete d o)
      decoded d corrupt h =
          unfold decode_tle in
          let k = call-SameCounts (count_hit d) delete in
          record {
            hit = omega (arith, h.0, k.0);
            miss = omega (arith, h.1, k.1);
            nothing = (λ e. inl refl, λ e. refl);
            data_of =
                λ v. (λ e. absurd (cc), λ e. elim e [ inl x ↦ absurd (cc) | inr x ↦ absurd (cc) ]);
          }
      decoded d other_error h =
          unfold decode_tle in
          record {
            hit = omega (arith, h.0);
            miss = omega (arith, h.1);
            nothing = (λ e. absurd (cc), λ e. elim e [ inl x ↦ absurd (cc) | inr x ↦ absurd (cc) ]);
            data_of =
                λ v. (λ e. absurd (cc), λ e. elim e [ inl x ↦ absurd (cc) | inr x ↦ absurd (cc) ]);
          }
      decoded d null h =
          unfold decode_tle in
          record {
            hit = omega (arith, h.0);
            miss = omega (arith, h.1);
            nothing = (λ e. inr refl, λ e. refl);
            data_of =
                λ v. (λ e. absurd (cc), λ e. elim e [ inl x ↦ absurd (cc) | inr x ↦ absurd (cc) ]);
          }
      decoded d (unsized value) h =
          unfold decode_tle in
          record {
            hit = omega (arith, h.0);
            miss = omega (arith, h.1);
            nothing = (λ e. absurd (cc), λ e. elim e [ inl x ↦ absurd (cc) | inr x ↦ absurd (cc) ]);
            data_of = λ v. (λ e. inr (cc), λ e. elim e [ inl x ↦ absurd (cc) | inr x ↦ cc ]);
          }
      decoded d (sized value) h =
          unfold decode_tle in
          record {
            hit = omega (arith, h.0);
            miss = omega (arith, h.1);
            nothing = (λ e. absurd (cc), λ e. elim e [ inl x ↦ absurd (cc) | inr x ↦ absurd (cc) ]);
            data_of = λ v. (λ e. inl (cc), λ e. elim e [ inl x ↦ cc | inr x ↦ absurd (cc) ]);
          }

      missing :
          (d : RedisCache)
          → SameCounts c d
          → IsTleRead {V = V} c none (record { outcome = no_data; cache = count_miss d })
      missing d h = record {
        hit = omega (arith, h.0);
        miss = omega (arith, h.1);
        nothing = (λ e. inl refl, λ e. refl);
        data_of =
            λ v. (λ e. absurd (cc), λ e. elim e [ inl x ↦ absurd (cc) | inr x ↦ absurd (cc) ]);
      }

      replied :
          (d : RedisCache) (got : Option (Option String))
          → SameCounts c d
          → IsTleRead c (entry_of loads got) (tle_reply loads delete d got)
      replied d none h = unfold tle_reply in missing d h
      replied d (some none) h = unfold tle_reply in missing d h
      replied d (some (some raw)) h = unfold tle_reply in decoded d (loads raw) h
