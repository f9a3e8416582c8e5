-- ===== src/Tests/Tle.antt =====
-- A line 1 and a satellite number.
use sda_system.Prelude.{
  ℕ, ◌≡◌, ◌≢◌, refl, true, none, some, [], ◌∷◌, set, arith, all, ◌++◌, replicate,
}
use sda_system.Ingestion.Tle.{
  Line, Floats, tle_line_checksum, parse_satellite_number, validate_line1, validate_line2,
  validate_pair, first_failure, check, check_parsed, rstrip_return, rstrip, lstrip, int_from,
}
use sda_system.Ingestion.Tle.Pair.{IsAccepted, validate_pair-IsAccepted, validate_line1-set}
use sda_system.Ingestion.Tle.Number.{format_number, parse_satellite_number-format_number}

-- Floats that are whole numbers, each field being 1.
abbrev ones : Floats
ones = record {
  Float = ℕ;
  parse = λ field. some 1;
  of_nat = λ n. n;
  le = λ x y. true;
  lt = λ x y. true;
}

-- A line for satellite 25544 with the digits 2, 4 in the year, and spaces elsewhere.
abbrev line_of : ℕ → ℕ → Line
line_of number last =
    (number ∷ 32 ∷ 50 ∷ 53 ∷ 53 ∷ 52 ∷ 52 ∷ [])
    ++ replicate 11 32
    ++ (50 ∷ 52 ∷ [])
    ++ replicate 6 32
    ++ replicate 7 48
    ++ replicate 35 32
    ++ last ∷ []

abbrev first : Line
first = line_of 49 55

abbrev second : Line
second = line_of 50 56

first-accepted : validate_line1 ones first ≡ none
unfolding validate_line1 tle_line_checksum parse_satellite_number first_failure check check_parsed
    rstrip_return rstrip lstrip int_from all
first-accepted = refl

pair-accepted : validate_pair ones first second ≡ none
unfolding validate_pair validate_line1 validate_line2 tle_line_checksum parse_satellite_number
    first_failure check check_parsed rstrip_return rstrip lstrip int_from all
pair-accepted = refl

validate_pair-IsAccepted_example : (norad_id : ℕ) × IsAccepted first second norad_id
validate_pair-IsAccepted_example = validate_pair-IsAccepted ones first second pair-accepted

validate_line1-set_example : validate_line1 ones (set first 4 57) ≢ none
validate_line1-set_example =
    validate_line1-set ones first 4 57 first-accepted refl (omega arith) refl refl (omega arith)

parse_satellite_number-format_number_example :
    parse_satellite_number (format_number 101_234) ≡ some 101_234
parse_satellite_number-format_number_example =
    parse_satellite_number-format_number 101_234 (omega arith) (omega arith)
