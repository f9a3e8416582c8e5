-- ===== src/Auth/Gate.antt =====
-- `verify_api_key` of api/routes/passes.py: the dependency of every route.
use sda_system.Prelude.{ℕ, Bool, true, false, Option, none, some, String, ◌==◌, if◌then◌else◌}
use sda_system.Auth.{EntryOps, Faults, Response, ok, status, State, verify}
use sda_system.RateLimiter.{SortedSetOps, Request, Fate, check_rate_limit}

-- The table and entries of the keys, and the sorted set under each digest.
module _ (ops : EntryOps) (sets : SortedSetOps) where
  pub record Gate : Type 0 where
    pub auth : State ops
    pub windows : ℕ → sets.SortedSet

  abbrev pub with_window : Gate → ℕ → sets.SortedSet → Gate
  with_window g token z = record g { windows = λ t. if t == token then z else g.windows t }

  -- What a request draws and meets besides its header.
  pub record Visit : Type 0 where
    pub now : ℕ
    pub faults : Faults
    pub member : ℕ
    pub fate : Fate

  abbrev pub limited : Visit → ℕ → Request
  limited v limit = record {
    now = v.now;
    requests_per_min = limit;
    member = v.member;
    fate = v.fate;
  }

  -- The reply to what check_rate_limit returned.
  unfoldable pub admit : Gate → ℕ → sets.SortedSet × (Bool × Option ℕ) → Gate × Response ℕ
  admit g token (z, (true, retry_after)) = (with_window g token z, ok token)
  admit g token (z, (false, retry_after)) = (with_window g token z, status 429)

  -- What follows `auth.verify`, which raises or returns the digest and the limit.
  unfoldable pub rate_limited : Gate → Visit → Response (ℕ × ℕ) → Gate × Response ℕ
  rate_limited g v (status n) = (g, status n)
  rate_limited g v (ok (token, limit)) =
      admit g token (check_rate_limit sets (g.windows token) (limited v limit))

  unfoldable pub verify_api_key :
      (sha256 : String → ℕ) → Gate → Visit → Option String → Gate × Response ℕ
  verify_api_key sha256 g v none = (g, status 401)
  verify_api_key sha256 g v (some key) =
      let verified = verify ops sha256 g.auth v.faults v.now (some key) in
      rate_limited (record g { auth = verified.0 }) v verified.1
