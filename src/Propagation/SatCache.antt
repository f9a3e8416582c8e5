-- ===== src/Propagation/SatCache.antt =====
-- propagation/sgp4_engine.py, `_get_or_create_satellite`: the cache of satellite objects. The
-- OrderedDict is the list of its items from its end to its front, most recent first; its lock makes
-- each call one step. The digest and the construction of a satellite are parameters.
pub mod Recent
pub mod Built
use sda_system.Prelude.{
  ℕ, zero, suc, Bool, true, false, Option, none, some, List, [], ◌∷◌, ◌++◌, map, length, ltb, ◌==◌,
  if◌then◌else◌,
}
use sda_system.Ingestion.Tle.{Line, strip}

module _ {ℓ} {S : Type ℓ} where
  -- `_sat_cache[key]`
  unfoldable pub cached_sat : ℕ → List (ℕ × S) → Option S
  cached_sat key [] = none
  cached_sat key ((k, s) ∷ items) = if k == key then some s else cached_sat key items

  unfoldable pub remove_item : ℕ → List (ℕ × S) → List (ℕ × S)
  remove_item key [] = []
  remove_item key ((k, s) ∷ items) = if k == key then items else (k, s) ∷ remove_item key items

  -- `popitem(last=False)`
  unfoldable pub drop_last : List (ℕ × S) → List (ℕ × S)
  drop_last [] = []
  drop_last (x ∷ []) = []
  drop_last (x ∷ y ∷ items) = x ∷ drop_last (y ∷ items)

  -- `move_to_end(key)`
  abbrev pub move_to_end : ℕ → S → List (ℕ × S) → List (ℕ × S)
  move_to_end key s items = (key, s) ∷ remove_item key items

  -- `if len(_sat_cache) > _SAT_CACHE_MAXSIZE: popitem`
  unfoldable pub evict : (max_size : ℕ) → List (ℕ × S) → List (ℕ × S)
  evict max_size items = if ltb max_size (length items) then drop_last items else items

  -- The two branches of the lookup, where `new` is the satellite that a miss builds.
  unfoldable pub after_lookup :
      (max_size key : ℕ) → (new : S) → Option S → List (ℕ × S) → List (ℕ × S) × S
  after_lookup max_size key new (some s) items = (move_to_end key s items, s)
  after_lookup max_size key new none items = (evict max_size ((key, new) ∷ items), new)

-- `_SAT_CACHE_MAXSIZE`
abbrev pub sat_cache_maxsize : ℕ
sat_cache_maxsize = 2_000

-- One call: the two lines and the name.
pub record Request : Type 0 where
  pub line1 : Line
  pub line2 : Line
  pub name : Line

abbrev pub bar : ℕ
bar = 124

-- `f"{line1.strip()}|{line2.strip()}"`
abbrev pub key_text : Request → Line
key_text r = strip r.line1 ++ bar ∷ strip r.line2

module _ {ℓ} {S : Type ℓ} (sha256 : Line → ℕ) (earth_satellite : Request → S) (max_size : ℕ) where
  -- `_get_or_create_satellite`, at any maximal size.
  unfoldable pub get_or_create_satellite : List (ℕ × S) → Request → List (ℕ × S) × S
  get_or_create_satellite items r =
      let key = sha256 (key_text r) in
      after_lookup max_size key (earth_satellite r) (cached_sat key items) items
