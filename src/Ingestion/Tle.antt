-- ===== src/Ingestion/Tle.antt =====
-- ingestion/validator.py: the checks of a two-line element. A line is the list of its code points,
-- and only ASCII lines are covered: `str.isdigit`, `str.isupper` and `str.strip` are those of
-- ASCII. The floats of the interpreter are a parameter. A message is one of the reasons below, and
-- `none` is the answer `(True, None)`.
pub mod Checksum
pub mod Pair
pub mod Number
pub mod Epoch
use sda_system.Prelude.{
  ℕ, zero, suc, ◌+◌, ◌-◌, ◌*◌, ◌%◌, Bool, true, false, not, ◌&&◌, ◌||◌, Option, none, some, List,
  [], ◌∷◌, length, ltb, leb, ◌==◌, get_or, take, drop, slice, all, sum_by, if◌then◌else◌,
}

abbrev pub Line : Type 0
Line = List ℕ

-- `float(…)` and its comparisons; `parse` is `none` on a ValueError.
pub record Floats : Type 1 where
  pub Float : Type 0
  pub parse : Line → Option Float
  pub of_nat : ℕ → Float
  pub le : Float → Float → Bool
  pub lt : Float → Float → Bool

-- '0' to '9', 'A' to 'Z', and the white space of ASCII.
abbrev pub is_digit : ℕ → Bool
is_digit c = leb 48 c && leb c 57

abbrev pub is_upper : ℕ → Bool
is_upper c = leb 65 c && leb c 90

abbrev pub is_space : ℕ → Bool
is_space c = c == 32 || (leb 9 c && leb c 13) || (leb 28 c && leb c 31)

abbrev pub minus : ℕ
minus = 45

-- `str.isdigit`
abbrev pub is_numeric : Line → Bool
is_numeric [] = false
is_numeric (c ∷ cs) = all is_digit (c ∷ cs)

-- `str.lstrip` by a test, `str.rstrip`, `str.strip`.
unfoldable pub lstrip : (ℕ → Bool) → Line → Line
lstrip test [] = []
lstrip test (c ∷ cs) = let rest = lstrip test cs in if test c then rest else c ∷ cs

abbrev pub push_kept : (ℕ → Bool) → ℕ → Line → Line
push_kept test c [] = if test c then [] else c ∷ []
push_kept test c (d ∷ ds) = c ∷ d ∷ ds

unfoldable pub rstrip : (ℕ → Bool) → Line → Line
rstrip test [] = []
rstrip test (c ∷ cs) = push_kept test c (rstrip test cs)

abbrev pub strip : Line → Line
strip s = rstrip is_space (lstrip is_space s)

-- `int(…)` of digits.
unfoldable pub int_from : ℕ → Line → ℕ
int_from n [] = n
int_from n (c ∷ cs) = int_from (n * 10 + (c - 48)) cs

abbrev pub int : Line → ℕ
int s = int_from 0 s

-- What a character adds to the checksum.
abbrev pub char_value : ℕ → ℕ
char_value c = if is_digit c then c - 48 else if c == minus then 1 else 0

-- `_tle_line_checksum`
unfoldable pub tle_line_checksum : Line → ℕ
tle_line_checksum line = sum_by char_value (take 68 line) % 10

abbrev pub positive : ℕ → Option ℕ
positive val = if ltb 0 val then some val else none

alpha5 : Line → Option ℕ
alpha5 [] = none
alpha5 (c ∷ cs) =
    if length (c ∷ cs) == 5 && is_upper c && is_numeric cs
    then some ((c - 65 + 10) * 10_000 + int cs)
    else none

-- `_parse_satellite_number`
unfoldable pub parse_satellite_number : Line → Option ℕ
unfolding alpha5
parse_satellite_number field =
    let s = strip field in if is_numeric s then positive (int s) else alpha5 s

-- The checks, by the message of their failure.
pub data Reason : Type 0 where
  empty wrong_length wrong_line_number no_space bad_satellite_number : Reason
  bad_epoch_year bad_epoch_day epoch_day_range : Reason
  bad_element element_range bad_eccentricity : Reason
  bad_checksum_character checksum_mismatch : Reason

-- `if not …: return False, …`, and the early returns: the first check that fails decides.
unfoldable pub check : Bool → Reason → Option Reason
check true reason = none
check false reason = some reason

unfoldable pub first_failure : List (Option Reason) → Option Reason
first_failure [] = none
first_failure (none ∷ checks) = first_failure checks
first_failure (some reason ∷ checks) = some reason

abbrev pub is_some {ℓ} : {A : Type ℓ} → Option A → Bool
is_some none = false
is_some (some a) = true

-- The last checks of both lines.
abbrev pub check_checksum : Line → List (Option Reason)
check_checksum line =
    check (is_digit (get_or line 68 0)) bad_checksum_character
    ∷ check (tle_line_checksum line == (get_or line 68 0 - 48)) checksum_mismatch
    ∷ []

-- The first checks of both lines; `number` is the character that the line begins with.
abbrev pub check_head : ℕ → Line → List (Option Reason) → List (Option Reason)
check_head number line rest =
    check (length line == 69) wrong_length
    ∷ check (get_or line 0 0 == number) wrong_line_number
    ∷ check (get_or line 1 0 == 32) no_space
    ∷ check (is_some (parse_satellite_number (slice 2 7 line))) bad_satellite_number
    ∷ rest

is_return : ℕ → Bool
is_return c = c == 13

-- `line.rstrip('\r')`
unfoldable pub rstrip_return : Line → Line
unfolding is_return
rstrip_return line = rstrip is_return line

-- The messages of a pair.
pub data Rejection : Type 0 where
  line1 line2 : Reason → Rejection
  mismatch : Rejection

module _ (floats : Floats) where
  unfoldable pub check_parsed :
      Option floats.Float → (floats.Float → Bool) → (unparsed out : Reason) → Option Reason
  unfolding check
  check_parsed none test unparsed out = some unparsed
  check_parsed (some x) test unparsed out = check (test x) out

  -- `low <= x < high`, `low <= x <= high`, `low < x < high`
  abbrev from_below : ℕ → ℕ → floats.Float → Bool
  from_below low high x = floats.le (floats.of_nat low) x && floats.lt x (floats.of_nat high)

  abbrev within : ℕ → ℕ → floats.Float → Bool
  within low high x = floats.le (floats.of_nat low) x && floats.le x (floats.of_nat high)

  abbrev between : ℕ → ℕ → floats.Float → Bool
  between low high x = floats.lt (floats.of_nat low) x && floats.lt x (floats.of_nat high)

  abbrev pub line1_fields : Line → List (Option Reason)
  line1_fields line =
      check (is_numeric (slice 18 20 line)) bad_epoch_year
      ∷ check_parsed (floats.parse (strip (slice 20 32 line))) (from_below 1 367) bad_epoch_day
          epoch_day_range
      ∷ check_checksum line

  -- `float("0." + ecc_raw)`, which parses for every `ecc_raw` of digits.
  abbrev pub zero_point : Line → Line
  zero_point digits = 48 ∷ 46 ∷ digits

  abbrev pub line2_fields : Line → List (Option Reason)
  line2_fields line =
      check_parsed (floats.parse (slice 8 16 line)) (within 0 180) bad_element element_range
      ∷ check_parsed (floats.parse (slice 17 25 line)) (from_below 0 360) bad_element element_range
      ∷ check (is_numeric (slice 26 33 line)) bad_eccentricity
      ∷ check_parsed (floats.parse (zero_point (slice 26 33 line))) (from_below 0 1) bad_element
          element_range
      ∷ check_parsed (floats.parse (slice 34 42 line)) (from_below 0 360) bad_element element_range
      ∷ check_parsed (floats.parse (slice 43 51 line)) (from_below 0 360) bad_element element_range
      ∷ check_parsed (floats.parse (slice 52 63 line)) (between 0 20) bad_element element_range
      ∷ check_checksum line

  -- TLEValidator.validate_line1
  unfoldable pub validate_line1 : Line → Option Reason
  validate_line1 [] = some empty
  validate_line1 (c ∷ cs) =
      let line = rstrip_return (c ∷ cs) in first_failure (check_head 49 line (line1_fields line))

  -- TLEValidator.validate_line2
  unfoldable pub validate_line2 : Line → Option Reason
  validate_line2 [] = some empty
  validate_line2 (c ∷ cs) =
      let line = rstrip_return (c ∷ cs) in first_failure (check_head 50 line (line2_fields line))

  same_number : Option ℕ → Option ℕ → Option Rejection
  same_number (some a) (some b) = if a == b then none else some mismatch
  same_number none none = none
  same_number none (some b) = some mismatch
  same_number (some a) none = some mismatch

  second_line : Line → Line → Option Reason → Option Rejection
  second_line l1 l2 (some reason) = some (line2 reason)
  second_line l1 l2 none =
      same_number (parse_satellite_number (slice 2 7 l1)) (parse_satellite_number (slice 2 7 l2))

  first_line : Line → Line → Option Reason → Option Rejection
  first_line l1 l2 (some reason) = some (line1 reason)
  first_line l1 l2 none = second_line l1 l2 (validate_line2 l2)

  -- TLEValidator.validate_pair
  unfoldable pub validate_pair : Line → Line → Option Rejection
  unfolding first_line second_line same_number
  validate_pair l1 l2 = first_line l1 l2 (validate_line1 l1)
