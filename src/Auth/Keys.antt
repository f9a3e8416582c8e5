-- ===== src/Auth/Keys.antt =====
-- api/routes/admin.py: the handlers that write the keys.
use text.Mathlib.Text.{◌==◌ as str_eq}
use sda_system.Prelude.{
  ℕ, Bool, true, false, not, ◌&&◌, ◌||◌, Option, none, some, List, [], ◌∷◌, String, ltb, ◌==◌,
  if◌then◌else◌, select, ◌++◌,
}
use sda_system.Auth.{ApiKey, Response, ok, status, first, update_row}

-- `_require_admin`: the statuses that it raises.
unfoldable pub require_admin : (expected : String) → Option String → Response (Unit {0})
require_admin expected none = status 401
require_admin expected (some x_admin_key) =
    if str_eq x_admin_key expected then ok tt else status 403

-- The payload of a PATCH.
pub record ApiKeyUpdate : Type 0 where
  pub rate_limit_per_min : Option ℕ
  pub is_active : Option Bool

abbrev pub or_old {ℓ} : {A : Type ℓ} → Option A → A → A
or_old none old = old
or_old (some new) old = new

abbrev pub apply_update : ApiKeyUpdate → ApiKey → ApiKey
apply_update u k = record k {
  rate_limit_per_min = or_old u.rate_limit_per_min k.rate_limit_per_min;
  is_active = or_old u.is_active k.is_active;
}

-- The lookup of a handler by id, and its 404. A commit that would break the constraint
-- `rate_limit_per_min > 0` raises, which the server answers with 500.
unfoldable pub with_row :
    List ApiKey → (ApiKey → ApiKey) → Option ApiKey → List ApiKey × Response ApiKey
with_row table change none = (table, status 404)
with_row table change (some k) =
    if ltb 0 (change k).rate_limit_per_min
    then (update_row k.id change table, ok (change k))
    else (table, status 500)

unfoldable pub update_api_key : List ApiKey → ℕ → ApiKeyUpdate → List ApiKey × Response ApiKey
update_api_key table key_id payload =
    with_row table (apply_update payload) (first (select (λ k. k.id == key_id) table))

abbrev pub deactivate : ApiKey → ApiKey
deactivate k = record k { is_active = false }

unfoldable pub revoke_api_key : List ApiKey → ℕ → List ApiKey × Response ApiKey
revoke_api_key table key_id = with_row table deactivate (first (select (λ k. k.id == key_id) table))

-- The row that create_api_key adds, with the id that the table gives it.
abbrev pub created : (id key_hash : ℕ) → String → ℕ → ApiKey
created id key_hash name rate_limit_per_min = record {
  id = id;
  key_hash = key_hash;
  name = name;
  is_active = true;
  rate_limit_per_min = rate_limit_per_min;
  last_used_at = none;
}

-- The constraints of the table that an insert can break.
unfoldable pub has_hash : ℕ → List ApiKey → Bool
has_hash key_hash [] = false
has_hash key_hash (k ∷ ks) = k.key_hash == key_hash || has_hash key_hash ks

unfoldable pub create_api_key :
    (sha256 : String → ℕ)
    → List ApiKey
    → (id : ℕ) → (raw_key name : String) → (rate_limit_per_min : ℕ)
    → List ApiKey × Response (ApiKey × String)
create_api_key sha256 table id raw_key name rate_limit_per_min =
    let key = created id (sha256 raw_key) name rate_limit_per_min in
    if ltb 0 rate_limit_per_min && not (has_hash key.key_hash table)
    then (table ++ key ∷ [], ok (key, raw_key))
    else (table, status 500)
