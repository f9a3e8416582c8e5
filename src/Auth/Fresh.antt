-- ===== src/Auth/Fresh.antt =====
-- What an accepted key was, over any requests and any work of the administrator.
use mathlib.Core.Path.{subst}
use sda_system.Prelude.{
  ℕ, ◌+◌, ◌≤◌, ◌≡◌, ◌≢◌, refl, sym, inl, inr, ◌⊎◌, Bool, true, false, Option, none, some, List, [],
  ◌∷◌, String, ◌==◌, Bool-cases, ==_iff, select, arith,
}
use sda_system.Auth.{
  ApiKey, Entry, valid, invalid, revoked, malformed, other, EntryOps, EntryLaws, valid_ttl,
  invalid_ttl, Faults, ok, is_usable_key, first, State, write_entry, from_row, from_table,
  from_cached, cached, verify,
}
use sda_system.Auth.Keys.{ApiKeyUpdate, update_api_key, revoke_api_key, create_api_key}

-- What the API is asked: a request with a key, or one of the administrator's writes.
pub data Action : Type 0 where
  verifies : Option String → Faults → Action
  updates : ℕ → ApiKeyUpdate → Action
  revokes : ℕ → Action
  creates : ℕ → String → String → ℕ → Action

pub record Event : Type 0 where
  pub now : ℕ
  pub action : Action

-- A time, and the table as it stood then.
pub record Moment : Type 0 where
  pub time : ℕ
  pub keys : List ApiKey

-- The table has an active key of the digest, and the first has the limit.
abbrev pub Holds : List ApiKey → (token limit : ℕ) → Type 0
Holds table token limit =
    (k : ApiKey) × (first (select (is_usable_key token) table) ≡ some k)
    × (k.rate_limit_per_min ≡ limit)

-- One of the moments, of 300 seconds before or later, had such a key.
unfoldable pub Held : List Moment → (token limit time : ℕ) → Type 0
Held [] token limit time = ⊥
Held (m ∷ ms) token limit time =
    (Holds m.keys token limit × (time ≤ m.time + valid_ttl)) ⊎ Held ms token limit time

module _ (ops : EntryOps) (sha256 : String → ℕ) where
  abbrev with_table : State ops → List ApiKey → State ops
  with_table s table = record s { table = table }

  -- One action at its time.
  unfoldable pub act : State ops → ℕ → Action → State ops
  act s now (verifies api_key f) = (verify ops sha256 s f now api_key).0
  act s now (updates id payload) = with_table s (update_api_key s.table id payload).0
  act s now (revokes id) = with_table s (revoke_api_key s.table id).0
  act s now (creates id raw_key name limit) =
      with_table s (create_api_key sha256 s.table id raw_key name limit).0

  -- The events of a list in turn: the state they leave, and the moments that they came at.
  unfoldable pub run : State ops → List Moment → List Event → State ops × List Moment
  run s past [] = (s, past)
  run s past (e ∷ es) =
      run (act s e.now e.action) (record { time = e.now; keys = s.table } ∷ past) es

module _ (ops : EntryOps) (laws : EntryLaws ops) (sha256 : String → ℕ) where
  -- Every entry that says a key is valid goes back to a moment at which it was.
  abbrev IsKnown : ops.Server → List Moment → Type 0
  IsKnown server past =
      (token limit time : ℕ)
      → ops.get server token time ≡ some (valid limit)
      → Held past token limit time

  IsKnown-later :
      (server : ops.Server) (past : List Moment) (m : Moment)
      → IsKnown server past
      → IsKnown server (m ∷ past)
  unfolding Held
  IsKnown-later server past m h token limit time e = inr (h token limit time e)

  -- A write of an entry that a present key backs, or of a refusal.
  write_entry-IsKnown :
      (server : ops.Server) (raises : Bool) (past : List Moment) (token now duration : ℕ)
      (v : Entry)
      → ((limit time : ℕ) → v ≡ valid limit → time ≤ now + duration → Held past token limit time)
      → IsKnown server past
      → IsKnown (write_entry ops server raises token now duration v) past
  unfolding write_entry
  write_entry-IsKnown server true past token now duration v backed h j limit time e =
      h j limit time e
  write_entry-IsKnown server false past token now duration v backed h j limit time e =
      elim (Bool-cases (token == j)) [
        | inl same ↦ here ((==_iff token j).0 same)
        | inr apart ↦ h j limit time (
            laws.get-setex_ne server token j now duration time v (valid limit)
              (λ q. ground (arith, q, apart)) e)
      ]
    where
      here : token ≡ j → Held past j limit time
      here q =
          let found =
            subst (λ x. ops.get (ops.setex server token now duration v) x time ≡ some (valid limit))
              (sym q) e in
          let (same, soon) =
            laws.get-setex_self server token now duration time v (valid limit) found in
          subst (λ x. Held past x limit time) q (backed limit time (sym same) soon)

  from_row-IsKnown :
      (s : State ops) (f : Faults) (token now : ℕ) (o : Option ApiKey) (past : List Moment)
      → first (select (is_usable_key token) s.table) ≡ o
      → IsKnown s.server past
      → IsKnown
          (from_row ops s f token now o).0.server
          (record { time = now; keys = s.table } ∷ past)
  unfolding from_row
  from_row-IsKnown s f token now none past e h =
      let later = record { time = now; keys = s.table } ∷ past in
      write_entry-IsKnown s.server f.setex_raises later token now invalid_ttl invalid
        (λ limit time q soon. absurd (invalid-ne limit q))
        (IsKnown-later s.server past (record { time = now; keys = s.table }) h)
    where
      invalid-ne : (limit : ℕ) → invalid ≢ valid limit
      invalid-ne limit = cc
  from_row-IsKnown s f token now (some k) past e h =
      let later = record { time = now; keys = s.table } ∷ past in
      write_entry-IsKnown s.server f.setex_raises later token now valid_ttl
        (valid k.rate_limit_per_min)
        (λ limit time q soon. unfold Held in inl ((k, e, limits limit q), soon))
        (IsKnown-later s.server past (record { time = now; keys = s.table }) h)
    where
      limits : (limit : ℕ) → valid k.rate_limit_per_min ≡ valid limit → k.rate_limit_per_min ≡ limit
      limits limit q = cc

  from_table-IsKnown :
      (s : State ops) (f : Faults) (token now : ℕ) (past : List Moment)
      → IsKnown s.server past
      → IsKnown
          (from_table ops s f token now).0.server
          (record { time = now; keys = s.table } ∷ past)
  unfolding from_table
  from_table-IsKnown s f token now past h =
      from_row-IsKnown s f token now (first (select (is_usable_key token) s.table)) past refl h

  from_cached-IsKnown :
      (s : State ops) (f : Faults) (token now : ℕ) (o : Option Entry) (past : List Moment)
      → IsKnown s.server past
      → IsKnown
          (from_cached ops s f token now o).0.server
          (record { time = now; keys = s.table } ∷ past)
  unfolding from_cached
  from_cached-IsKnown s f token now (some (valid n)) past h = IsKnown-later s.server past _ h
  from_cached-IsKnown s f token now (some invalid) past h = IsKnown-later s.server past _ h
  from_cached-IsKnown s f token now (some revoked) past h = IsKnown-later s.server past _ h
  from_cached-IsKnown s f token now (some malformed) past h =
      from_table-IsKnown s f token now past h
  from_cached-IsKnown s f token now (some other) past h = from_table-IsKnown s f token now past h
  from_cached-IsKnown s f token now none past h = from_table-IsKnown s f token now past h

  act-IsKnown :
      (s : State ops) (now : ℕ) (a : Action) (past : List Moment)
      → IsKnown s.server past
      → IsKnown (act ops sha256 s now a).server (record { time = now; keys = s.table } ∷ past)
  unfolding act verify
  act-IsKnown s now (verifies none f) past h = IsKnown-later s.server past _ h
  act-IsKnown s now (verifies (some api_key) f) past h =
      from_cached-IsKnown s f (sha256 api_key) now (cached ops s f.get_raises (sha256 api_key) now)
        past h
  act-IsKnown s now (updates id payload) past h = IsKnown-later s.server past _ h
  act-IsKnown s now (revokes id) past h = IsKnown-later s.server past _ h
  act-IsKnown s now (creates id raw_key name limit) past h = IsKnown-later s.server past _ h

  run-IsKnown :
      (s : State ops) (past : List Moment) (es : List Event)
      → IsKnown s.server past
      → IsKnown (run ops sha256 s past es).0.server (run ops sha256 s past es).1
  unfolding run
  run-IsKnown s past [] h = h
  run-IsKnown s past (e ∷ es) h =
      run-IsKnown (act ops sha256 s e.now e.action) (record { time = e.now; keys = s.table } ∷ past)
        es (act-IsKnown s e.now e.action past h)

  -- What a request accepted: the digest of its key, and a limit that is the row's or the entry's.
  from_row-Held :
      (s : State ops) (f : Faults) (token now t n : ℕ) (o : Option ApiKey) (past : List Moment)
      → first (select (is_usable_key token) s.table) ≡ o
      → (from_row ops s f token now o).1 ≡ ok (t, n)
      → (t ≡ token) × Held (record { time = now; keys = s.table } ∷ past) token n now
  unfolding from_row Held
  from_row-Held s f token now t n none past e a = absurd (cc)
  from_row-Held s f token now t n (some k) past e a = (cc, inl ((k, e, cc), omega arith))

  from_cached-Held :
      (s : State ops) (f : Faults) (token now t n : ℕ) (o : Option Entry) (past : List Moment)
      → ((limit : ℕ) → o ≡ some (valid limit) → Held past token limit now)
      → (from_cached ops s f token now o).1 ≡ ok (t, n)
      → (t ≡ token) × Held (record { time = now; keys = s.table } ∷ past) token n now
  unfolding from_cached from_table
  from_cached-Held s f token now t n (some (valid m)) past h a = (cc, unfold Held in inr (h n (cc)))
  from_cached-Held s f token now t n (some invalid) past h a = absurd (cc)
  from_cached-Held s f token now t n (some revoked) past h a = absurd (cc)
  from_cached-Held s f token now t n (some malformed) past h a =
      from_row-Held s f token now t n _ past refl a
  from_cached-Held s f token now t n (some other) past h a =
      from_row-Held s f token now t n _ past refl a
  from_cached-Held s f token now t n none past h a = from_row-Held s f token now t n _ past refl a

  -- After any requests and any creation, update or revocation of keys, whatever calls to Redis and
  -- commits fail: a request that is accepted carries a key whose digest is returned, and in the
  -- table as it stands, or as it stood at one of the events, 300 seconds before the request at the
  -- most, the first active row of that digest has the limit that is returned.
  pub verify-Held :
      (table : List ApiKey) (es : List Event) (f : Faults) (now t n : ℕ) (api_key : Option String)
      → let (s, past) = run ops sha256 (record { table = table; server = ops.empty }) [] es in
        (verify ops sha256 s f now api_key).1 ≡ ok (t, n)
        → (key : String) × (api_key ≡ some key)
          × (t ≡ sha256 key)
          × Held (record { time = now; keys = s.table } ∷ past) t n now
  unfolding verify
  verify-Held table es f now t n none a = absurd (cc)
  verify-Held table es f now t n (some key) a =
      let (s, past) = run ops sha256 (record { table = table; server = ops.empty }) [] es in
      let known =
        run-IsKnown (record { table = table; server = ops.empty }) [] es
          (λ token limit time e. absurd (nothing token limit time e)) in
      let (same, held) =
        from_cached-Held s f (sha256 key) now t n (cached ops s f.get_raises (sha256 key) now) past
          (λ limit e. read s past known f.get_raises limit e) a in
      (
        key,
        refl,
        same,
        subst (λ x. Held (record { time = now; keys = s.table } ∷ past) x n now) (sym same) held,
      )
    where
      nothing : (token limit time : ℕ) → ops.get ops.empty token time ≢ some (valid limit)
      nothing token limit time e = absurd (cc (laws.get_empty token time))

      read :
          (s : State ops) (past : List Moment) (known : IsKnown s.server past) (raises : Bool)
          (limit : ℕ)
          → cached ops s raises (sha256 key) now ≡ some (valid limit)
          → Held past (sha256 key) limit now
      read s past known true limit e = absurd (unfold cached in cc)
      read s past known false limit e = unfold cached in known (sha256 key) limit now e
