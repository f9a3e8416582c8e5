-- ===== src/Ingestion/Tle/Epoch.antt =====
-- ingestion/validator.py: extract_norad_id, extract_epoch and validate_satellite_name, on ASCII
-- lines. An instant is counted in microseconds from the end of 30 December of the year 0, as
-- Propagation/Julian counts days. The difference of two floats and `timedelta(days=x)` are arguments.
pub mod Printed
use sda_system.Prelude.{
  ℕ, zero, suc, ◌+◌, ◌-◌, ◌*◌, Bool, true, false, not, ◌&&◌, ◌||◌, Option, none, some, List, [],
  ◌∷◌, length, all, slice, ltb, leb, ◌==◌, if◌then◌else◌,
}
use sda_system.Ingestion.Tle.{Line, Floats, strip, is_numeric, int, minus, parse_satellite_number}
use sda_system.Propagation.Julian.{day, ordinal}

-- `extract_norad_id`
unfoldable pub extract_norad_id : Line → Option ℕ
extract_norad_id line1 =
    if ltb (length line1) 7 then none else parse_satellite_number (slice 2 7 line1)

-- The year of two digits, with `_EPOCH_YEAR_CUTOFF`.
abbrev pub full_year : ℕ → ℕ
full_year year_2d = if leb 57 year_2d then 1900 + year_2d else 2000 + year_2d

abbrev pub plus : ℕ
plus = 43

-- `int` takes a sign before the digits; a negative number is below the cutoff.
signed_year : Line → Option ℕ
signed_year [] = none
signed_year (c ∷ cs) =
    if is_numeric cs && c == plus
    then some (full_year (int cs))
    else if is_numeric cs && c == minus
    then some (2000 - int cs)
    else none

unfoldable pub year_of : Line → Option ℕ
unfolding signed_year
year_of field =
    let s = strip field in if is_numeric s then some (full_year (int s)) else signed_year s

-- `datetime(year, 1, 1)`
abbrev pub start_of_year : ℕ → ℕ
start_of_year y = ordinal y 1 1 * day

module _ (floats : Floats) (sub : floats.Float → floats.Float → floats.Float)
    (timedelta : floats.Float → ℕ) where
  unfoldable pub epoch_from : Option ℕ → Option floats.Float → Option ℕ
  epoch_from none d = none
  epoch_from (some y) none = none
  epoch_from (some y) (some d) =
      if floats.le (floats.of_nat 1) d && floats.lt d (floats.of_nat 367)
      then some (start_of_year y + timedelta (sub d (floats.of_nat 1)))
      else none

  -- `extract_epoch`
  unfoldable pub extract_epoch : Line → Option ℕ
  extract_epoch line1 =
      if ltb (length line1) 32
      then none
      else epoch_from (year_of (slice 18 20 line1)) (floats.parse (strip (slice 20 32 line1)))

-- `validate_satellite_name`
unfoldable pub validate_satellite_name : Line → Bool
validate_satellite_name name =
    if length name == 0 || ltb 100 (length name)
    then false
    else all (λ c. leb 32 c && leb c 126) name
