-- ===== src/Propagation/Engine.antt =====
-- propagation/sgp4_engine.py: the format check, SGP4Engine.propagate, its result and
-- batch_propagate. Positions, their finiteness and the SGP4 codes come from packages outside the
-- repository (`Orbit`). Times are microseconds since the epoch in UTC.
pub mod Valid
use sda_system.Prelude.{
  ℕ, zero, suc, ◌+◌, ◌*◌, ◌/◌, ◌≤◌, ◌<◌, ◌≡◌, Bool, true, false, not, ◌&&◌, ◌||◌, Option, none,
  some, List, [], ◌∷◌, map, length, ltb, leb, ◌==◌, get_or, slice, if◌then◌else◌,
}
use sda_system.Ingestion.Tle.{Line, Floats, strip, is_some}

-- The messages of `_validate_tle_format`.
pub data FormatError : Type 0 where
  line1_length line2_length line1_number line2_number id_mismatch bad_epoch : FormatError

abbrev pub same_line : Line → Line → Bool
same_line [] [] = true
same_line [] (d ∷ ds) = false
same_line (c ∷ cs) [] = false
same_line (c ∷ cs) (d ∷ ds) = c == d && same_line cs ds

-- `_validate_tle_format`
unfoldable pub validate_tle_format : Floats → Line → Line → Option FormatError
validate_tle_format floats line1 line2 =
    let l1 = strip line1 in
    let l2 = strip line2 in
    if not (length l1 == 69)
    then some line1_length
    else if not (length l2 == 69)
    then some line2_length
    else if not (get_or l1 0 0 == 49)
    then some line1_number
    else if not (get_or l2 0 0 == 50)
    then some line2_number
    else if not (same_line (slice 2 7 l1) (slice 2 7 l2))
    then some id_mismatch
    else if not (is_some (floats.parse (strip (slice 18 32 l1))))
    then some bad_epoch
    else none

-- Skyfield's positions of the satellite of two lines, and the codes of `sgp4_array`, which may
-- raise.
pub record Orbit : Type 1 where
  pub Position : Type 0
  pub nan : Position
  pub is_finite : Position → Bool
  pub positions_at : Line → Line → (times : List ℕ) → List Position
  pub sgp4_array : Line → Line → (times : List ℕ) → Option (List ℕ)

abbrev pub second : ℕ
second = 1_000_000

-- `times`, from the i-th on: what is left of the `range`.
unfoldable pub grid_from : (start_time step i rounds : ℕ) → List ℕ
grid_from start_time step i zero = []
grid_from start_time step i (suc n) =
    (start_time + i * step * second) ∷ grid_from start_time step (i + 1) n

-- The grid of `days` days at `step` seconds.
abbrev pub time_grid : (start_time days step : ℕ) → List ℕ
time_grid start_time days step = grid_from start_time step 0 (days * 86_400 / step + 1)

unfoldable pub zeros : ℕ → List ℕ
zeros zero = []
zeros (suc n) = 0 ∷ zeros n

-- The codes, or zeros where `sgp4_array` raised or returned another number of them.
unfoldable pub error_codes_of : (n : ℕ) → Option (List ℕ) → List ℕ
error_codes_of n none = zeros n
error_codes_of n (some codes) = if length codes == n then codes else zeros n

-- `np.any(error_codes == 6)`
unfoldable pub any_decay : List ℕ → Bool
any_decay [] = false
any_decay (c ∷ cs) = c == 6 || any_decay cs

-- `[x for x, v in zip(xs, valid_mask) if v]`, and `xs[valid_mask]`.
unfoldable pub masked {ℓ} : {A : Type ℓ} → List A → List Bool → List A
masked [] mask = []
masked (x ∷ xs) [] = []
masked (x ∷ xs) (v ∷ mask) = let rest = masked xs mask in if v then x ∷ rest else rest

-- `valid_mask.sum()`
unfoldable pub count_true : List Bool → ℕ
count_true [] = 0
count_true (v ∷ mask) = (if v then 1 else 0) + count_true mask

module _ (orbit : Orbit) where
  open orbit use {Position, nan, is_finite, positions_at, sgp4_array}

  pub record PropagationResult : Type 0 where
    pub norad_id : ℕ
    pub positions : List Position
    pub times : List ℕ
    pub valid_mask : List Bool
    pub error_codes : List ℕ
    pub decayed : Bool

  abbrev pub valid_positions : PropagationResult → List Position
  valid_positions r = masked r.positions r.valid_mask

  abbrev pub valid_times : PropagationResult → List ℕ
  valid_times r = masked r.times r.valid_mask

  -- `valid_fraction >= 0.90`: a quotient of such numbers rounds to 0.90 or more exactly when it is.
  unfoldable pub is_usable : PropagationResult → Bool
  is_usable r =
      not r.decayed
      && ltb 0 (length r.valid_mask)
      && leb (9 * length r.valid_mask) (10 * count_true r.valid_mask)

  -- `finite_mask & ok_mask`
  unfoldable pub mask_of : List Position → List ℕ → List Bool
  mask_of [] codes = []
  mask_of (p ∷ ps) [] = []
  mask_of (p ∷ ps) (c ∷ cs) = (is_finite p && c == 0) ∷ mask_of ps cs

  -- `positions_gcrs[~valid_mask] = np.nan`
  unfoldable pub nan_filled : List Position → List Bool → List Position
  nan_filled [] mask = []
  nan_filled (p ∷ ps) [] = p ∷ ps
  nan_filled (p ∷ ps) (v ∷ mask) = (if v then p else nan) ∷ nan_filled ps mask

  -- What propagate makes of the positions and the codes.
  unfoldable pub result_of : ℕ → List ℕ → List Position → List ℕ → PropagationResult
  result_of norad_id times positions codes = record {
    norad_id = norad_id;
    positions = nan_filled positions (mask_of positions codes);
    times = times;
    valid_mask = mask_of positions codes;
    error_codes = codes;
    decayed = any_decay codes;
  }

  -- The checked lines on the grid.
  unfoldable pub propagate_checked :
      Option FormatError → Line → Line → ℕ → List ℕ → Option PropagationResult
  propagate_checked (some e) line1 line2 norad_id times = none
  propagate_checked none line1 line2 norad_id times = some (
      result_of norad_id times (positions_at line1 line2 times)
        (error_codes_of (length times) (sgp4_array line1 line2 times)))

  -- SGP4Engine.propagate; `none` is its ValueError.
  unfoldable pub propagate :
      Floats → (line1 line2 : Line) → (norad_id start_time days step : ℕ) → Option PropagationResult
  unfolding propagate_checked
  propagate floats line1 line2 norad_id start_time days step =
      propagate_checked (validate_tle_format floats line1 line2) line1 line2 norad_id
        (time_grid start_time days step)

  -- SGP4Engine.batch_propagate: what it yields, in turn.
  unfoldable pub batch_propagate :
      Floats
      → (start_time days step : ℕ) → List (ℕ × Line × Line)
      → List (ℕ × Option PropagationResult)
  batch_propagate floats start_time days step [] = []
  batch_propagate floats start_time days step ((norad_id, line1, line2) ∷ tles) =
      (norad_id, propagate floats line1 line2 norad_id start_time days step)
      ∷ batch_propagate floats start_time days step tles
