-- ===== src/Auth.antt =====
-- API keys: APIKeyAuth.verify of api/middleware.py, and the handlers of api/routes/admin.py that
-- write the table `api_keys`. The digest function is a parameter, and so is the Redis server with
-- what it documents of GET and SETEX (`EntryLaws`). A digest is its number, times are microseconds
-- of one clock. A handler returns what it leaves and its result, an HTTP status where it raises.
pub mod Keys
pub mod Fresh
pub mod Gate
pub mod Limits
pub use sda_system.Http.{Response, ok, status}
use sda_system.Prelude.{
  ℕ, ◌+◌, ◌*◌, ◌≤◌, ◌<◌, ◌≡◌, ◌≢◌, Bool, true, false, not, ◌&&◌, Option, none, some, List, [], ◌∷◌,
  String, ltb, ◌==◌, if◌then◌else◌, map, select,
}

-- A row of `api_keys`.
pub record ApiKey : Type 0 where
  pub id : ℕ
  pub key_hash : ℕ
  pub name : String
  pub is_active : Bool
  pub rate_limit_per_min : ℕ
  pub last_used_at : Option ℕ

-- What the text of a cache entry is to the code: "valid:<n>", the two refusals, "valid:" with what
-- `int` rejects, or any other text.
pub data Entry : Type 0 where
  valid : ℕ → Entry
  invalid revoked malformed other : Entry

-- GET and SETEX under the keys `api_key:<digest>`.
pub record EntryOps : Type 1 where
  pub Server : Type 0
  pub empty : Server
  pub get : Server → (digest time : ℕ) → Option Entry
  pub setex : Server → (digest time duration : ℕ) → Entry → Server

-- What Redis documents of them: an entry is found as it was written last, and only until its time
-- to live is over. It may be evicted before.
pub record EntryLaws (ops : EntryOps) : Type 1 where
  pub get_empty : (k t : ℕ) → ops.get ops.empty k t ≡ none
  pub get-setex_self :
      (s : ops.Server) (k time duration t : ℕ) (v w : Entry)
      → ops.get (ops.setex s k time duration v) k t ≡ some w
      → (w ≡ v) × (t ≤ time + duration)
  pub get-setex_ne :
      (s : ops.Server) (k j time duration t : ℕ) (v w : Entry)
      → k ≢ j
      → ops.get (ops.setex s k time duration v) j t ≡ some w
      → ops.get s j t ≡ some w

abbrev pub second : ℕ
second = 1_000_000

abbrev pub valid_ttl : ℕ
valid_ttl = 300 * second

abbrev pub invalid_ttl : ℕ
invalid_ttl = 60 * second

-- What the calls of a request to Redis and the commit of its time stamp come to.
pub record Faults : Type 0 where
  pub get_raises : Bool
  pub commit_raises : Bool
  pub setex_raises : Bool

-- `filter(key_hash == key_token, is_active == True)`
abbrev pub is_usable_key : ℕ → ApiKey → Bool
is_usable_key token k = k.key_hash == token && k.is_active

-- `.first()`
abbrev pub first {ℓ} : {A : Type ℓ} → List A → Option A
first [] = none
first (x ∷ xs) = some x

-- The write to the row of the given id.
unfoldable pub update_row : ℕ → (ApiKey → ApiKey) → List ApiKey → List ApiKey
update_row id change [] = []
update_row id change (k ∷ ks) = (if k.id == id then change k else k) ∷ update_row id change ks

module _ (ops : EntryOps) where
  -- The table and the server.
  pub record State : Type 0 where
    pub table : List ApiKey
    pub server : ops.Server

  -- `setex` under `except: pass`.
  unfoldable pub write_entry : ops.Server → Bool → (token now duration : ℕ) → Entry → ops.Server
  write_entry s true token now duration v = s
  write_entry s false token now duration v = ops.setex s token now duration v

  -- The lookup in the table, and what follows it.
  unfoldable pub from_row :
      State → Faults → (token now : ℕ) → Option ApiKey → State × Response (ℕ × ℕ)
  from_row s f token now none = (
    record s { server = write_entry s.server f.setex_raises token now invalid_ttl invalid },
    status 401,
  )
  from_row s f token now (some k) = (
    record {
      table =
          if f.commit_raises
          then s.table
          else update_row k.id (λ r. record r { last_used_at = some now }) s.table;
      server = write_entry s.server f.setex_raises token now valid_ttl (valid k.rate_limit_per_min);
    },
    ok (token, k.rate_limit_per_min),
  )

  unfoldable pub from_table : State → Faults → (token now : ℕ) → State × Response (ℕ × ℕ)
  from_table s f token now = from_row s f token now (first (select (is_usable_key token) s.table))

  -- The decision on the cached text.
  unfoldable pub from_cached :
      State → Faults → (token now : ℕ) → Option Entry → State × Response (ℕ × ℕ)
  from_cached s f token now (some (valid n)) = (s, ok (token, n))
  from_cached s f token now (some invalid) = (s, status 401)
  from_cached s f token now (some revoked) = (s, status 401)
  from_cached s f token now (some malformed) = from_table s f token now
  from_cached s f token now (some other) = from_table s f token now
  from_cached s f token now none = from_table s f token now

  -- `cached`, under the `try` of the GET.
  unfoldable pub cached : State → Bool → (token now : ℕ) → Option Entry
  cached s true token now = none
  cached s false token now = ops.get s.server token now

  -- APIKeyAuth.verify; `api_key` is the text of the header, "" is `none` here.
  unfoldable pub verify :
      (sha256 : String → ℕ)
      → State
      → Faults
      → (now : ℕ) → (api_key : Option String) → State × Response (ℕ × ℕ)
  verify sha256 s f now none = (s, status 400)
  verify sha256 s f now (some api_key) =
      from_cached s f (sha256 api_key) now (cached s f.get_raises (sha256 api_key) now)
