-- ===== src/Ingestion/Tle/Checksum.antt =====
-- The checksum of an accepted line, and what it detects.
use mathlib.Core.Option
use sda_system.Prelude.{
  ℕ, zero, suc, ◌+◌, ◌-◌, ◌%◌, ◌≤◌, ◌<◌, ◌≡◌, ◌≢◌, refl, sym, ◌∙◌, ap, Bool, true, false, Option,
  none, some, List, [], ◌∷◌, length, get_or, set, take, slice, sum_by, ◌==◌, ==_iff, arith,
  if◌then◌else◌,
}
use sda_system.Ingestion.Tle.{
  Line, Floats, is_digit, char_value, tle_line_checksum, rstrip_return, parse_satellite_number,
  Reason, check, first_failure, is_some, check_checksum, check_head, line1_fields, line2_fields,
  validate_line1, validate_line2,
}

sum_by-set :
    (l : Line) (i v : ℕ)
    → i < length l
    → sum_by char_value (set l i v) + char_value (get_or l i 0) ≡ sum_by char_value l + char_value v
sum_by-set [] i v h = elim h [ ]
sum_by-set (x ∷ xs) zero v h = omega arith
sum_by-set (x ∷ xs) (suc i) v h = omega (arith, sum_by-set xs i v (omega arith))

take-set : (n i v : ℕ) (l : Line) → take n (set l i v) ≡ set (take n l) i v
take-set zero i v l = refl
take-set (suc n) i v [] = refl
take-set (suc n) zero v (x ∷ xs) = refl
take-set (suc n) (suc i) v (x ∷ xs) = ap (◌∷◌ x) (take-set n i v xs)

get_or-take : (n i : ℕ) (l : Line) → i < n → get_or (take n l) i 0 ≡ get_or l i 0
get_or-take zero i l h = elim h [ ]
get_or-take (suc n) i [] h = refl
get_or-take (suc n) zero (x ∷ xs) h = refl
get_or-take (suc n) (suc i) (x ∷ xs) h = get_or-take n i xs (omega arith)

lt-length-take : (n i : ℕ) (l : Line) → i < n → i < length l → i < length (take n l)
lt-length-take zero i l h k = elim h [ ]
lt-length-take (suc n) i [] h k = k
lt-length-take (suc n) zero (x ∷ xs) h k = omega arith
lt-length-take (suc n) (suc i) (x ∷ xs) h k =
    omega (arith, lt-length-take n i xs (omega arith) (omega arith))

digit_value : (c : ℕ) → is_digit c ≡ true → (char_value c ≡ c - 48) × (48 ≤ c) × (c ≤ 57)
digit_value c h =
    (ap (λ b. if b then c - 48 else if c == 45 then 1 else 0) h, ground arith, ground arith)

-- Another digit in the place of one of the first 68 characters changes the checksum.
pub tle_line_checksum-set :
    (line : Line) (i d : ℕ)
    → i < 68
    → i < length line
    → is_digit (get_or line i 0) ≡ true
    → is_digit d ≡ true
    → get_or line i 0 ≢ d
    → tle_line_checksum (set line i d) ≢ tle_line_checksum line
unfolding tle_line_checksum
tle_line_checksum-set line i d h short old new ne e =
    let l = take 68 line in
    let total = sum_by-set l i d (lt-length-take 68 i line h short) in
    let was = digit_value (get_or line i 0) old in
    let now = digit_value d new in
    let moved = ap (λ m. sum_by char_value m % 10) (sym (take-set 68 i d line)) ∙ e in
    let there = ap char_value (get_or-take 68 i line h) in
    ne (omega (arith, total, was.0, was.1, was.2, now.0, now.1, now.2, moved, there))

check-none : (b : Bool) (reason : Reason) → check b reason ≡ none → b ≡ true
unfolding check
check-none true reason e = refl
check-none false reason e = absurd (Option.some-ne-none _ e)

first_failure-none :
    (c : Option Reason) (cs : List (Option Reason))
    → first_failure (c ∷ cs) ≡ none
    → (c ≡ none) × (first_failure cs ≡ none)
unfolding first_failure
first_failure-none none cs e = (refl, e)
first_failure-none (some reason) cs e = absurd (Option.some-ne-none _ e)

-- What the two lines have in common when they are accepted.
pub record IsChecked (number : ℕ) (line : Line) : Type 0 where
  pub of_length : length line ≡ 69
  pub numbered : get_or line 0 0 ≡ number
  pub spaced : get_or line 1 0 ≡ 32
  pub satellite : is_some (parse_satellite_number (slice 2 7 line)) ≡ true
  pub digit : is_digit (get_or line 68 0) ≡ true
  pub checksum : tle_line_checksum line ≡ get_or line 68 0 - 48

head_IsChecked :
    (number : ℕ) (line : Line) (rest : List (Option Reason))
    → first_failure (check_head number line rest) ≡ none
    → (first_failure rest ≡ none → first_failure (check_checksum line) ≡ none)
    → IsChecked number line
head_IsChecked number line rest e ends =
    let (l, e1) = first_failure-none _ _ e in
    let (n, e2) = first_failure-none _ _ e1 in
    let (s, e3) = first_failure-none _ _ e2 in
    let (p, e4) = first_failure-none _ _ e3 in
    let (d, e5) = first_failure-none _ _ (ends e4) in
    let (c, e6) = first_failure-none _ _ e5 in
    record {
      of_length = (==_iff _ _).0 (check-none _ _ l);
      numbered = (==_iff _ _).0 (check-none _ _ n);
      spaced = (==_iff _ _).0 (check-none _ _ s);
      satellite = check-none _ _ p;
      digit = check-none _ _ d;
      checksum = (==_iff _ _).0 (check-none _ _ c);
    }

-- The checks that follow the first ones.
later :
    (c : Option Reason) (cs : List (Option Reason))
    → first_failure (c ∷ cs) ≡ none
    → first_failure cs ≡ none
later c cs e = (first_failure-none c cs e).1

module _ (floats : Floats) where
  line1_fields-none :
      (line : Line)
      → first_failure (line1_fields floats line) ≡ none
      → first_failure (check_checksum line) ≡ none
  line1_fields-none line e = later _ _ (later _ _ e)

  line2_fields-none :
      (line : Line)
      → first_failure (line2_fields floats line) ≡ none
      → first_failure (check_checksum line) ≡ none
  line2_fields-none line e =
      later _ _ (later _ _ (later _ _ (later _ _ (later _ _ (later _ _ (later _ _ e))))))

  pub validate_line1-IsChecked :
      (line : Line) → validate_line1 floats line ≡ none → IsChecked 49 (rstrip_return line)
  unfolding validate_line1
  validate_line1-IsChecked [] e = absurd (Option.some-ne-none _ e)
  validate_line1-IsChecked (c ∷ cs) e =
      head_IsChecked 49 _ _ e (line1_fields-none (rstrip_return (c ∷ cs)))

  pub validate_line2-IsChecked :
      (line : Line) → validate_line2 floats line ≡ none → IsChecked 50 (rstrip_return line)
  unfolding validate_line2
  validate_line2-IsChecked [] e = absurd (Option.some-ne-none _ e)
  validate_line2-IsChecked (c ∷ cs) e =
      head_IsChecked 50 _ _ e (line2_fields-none (rstrip_return (c ∷ cs)))
