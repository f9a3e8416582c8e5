-- ===== src/Ingestion/Tle/Epoch/Printed.antt =====
-- The epoch that a line was written with is read back.
use sda_system.Prelude.{
  ℕ, zero, suc, ◌+◌, ◌-◌, ◌*◌, ◌/◌, ◌%◌, ◌≤◌, ◌<◌, ◌≡◌, refl, sym, ap, ◌∙◌, Bool, true, false, not,
  ◌&&◌, leb, inl, inr, Bool-cases, some, none, [], ◌∷◌, ◌++◌, length, all, slice, take, drop, ltb,
  if◌then◌else◌, arith, append_assoc,
}
use sda_system.Ingestion.Tle.{Line, Floats, is_digit, is_space, is_numeric, int_from, int}
use sda_system.Ingestion.Tle.Number.{digit_of, strip-solid, is_solid}
use sda_system.Ingestion.Tle.Epoch.{
  full_year, signed_year, year_of, start_of_year, epoch_from, extract_epoch,
}

-- The last k decimal digits.
unfoldable pub digits : (k n : ℕ) → Line
digits zero n = []
digits (suc k) n = digits k (n / 10) ++ digit_of n ∷ []

abbrev pub point : ℕ
point = 46

-- YYDDD.DDDDDDDD, where n counts hundred-millionths of a day.
abbrev pub print_year : ℕ → Line
print_year year_2d = digits 2 year_2d

abbrev pub eighth : ℕ
eighth = 100_000_000

abbrev pub print_days : ℕ → Line
print_days n = digits 3 (n / eighth) ++ point ∷ digits 8 (n % eighth)

pub int_from-append : (a : ℕ) (xs ys : Line) → int_from a (xs ++ ys) ≡ int_from (int_from a xs) ys
unfolding int_from
int_from-append a [] ys = refl
int_from-append a (x ∷ xs) ys = int_from-append (a * 10 + (x - 48)) xs ys

unfoldable pub power : ℕ → ℕ
power zero = 1
power (suc k) = 10 * power k

pub int_from-digits : (k a n : ℕ) → n < power k → int_from a (digits k n) ≡ a * power k + n
unfolding digits power int_from
int_from-digits zero a n h = omega arith
int_from-digits (suc k) a n h =
    int_from-append a (digits k (n / 10)) (digit_of n ∷ [])
    ∙ omega (arith, int_from-digits k a (n / 10) (omega arith))

length-append : (xs ys : Line) → length (xs ++ ys) ≡ length xs + length ys
length-append [] ys = omega arith
length-append (x ∷ xs) ys = omega (arith, length-append xs ys)

length-digits : (k n : ℕ) → length (digits k n) ≡ k
unfolding digits
length-digits zero n = refl
length-digits (suc k) n =
    length-append (digits k (n / 10)) (digit_of n ∷ []) ∙ omega (arith, length-digits k (n / 10))

-- A field of a line.
drop-append : (xs ys : Line) (i : ℕ) → length xs ≡ i → drop i (xs ++ ys) ≡ ys
drop-append [] ys zero h = refl
drop-append [] ys (suc i) h = absurd (omega arith)
drop-append (x ∷ xs) ys zero h = absurd (omega arith)
drop-append (x ∷ xs) ys (suc i) h = drop-append xs ys i (omega arith)

take-append : (xs ys : Line) (i : ℕ) → length xs ≡ i → take i (xs ++ ys) ≡ xs
take-append [] [] zero h = refl
take-append [] (y ∷ ys) zero h = refl
take-append [] ys (suc i) h = absurd (omega arith)
take-append (x ∷ xs) ys zero h = absurd (omega arith)
take-append (x ∷ xs) ys (suc i) h = ap (◌∷◌ x) (take-append xs ys i (omega arith))

all-append :
    (test : ℕ → Bool) (xs ys : Line)
    → all test xs ≡ true
    → all test ys ≡ true
    → all test (xs ++ ys) ≡ true
unfolding all
all-append test [] ys h k = k
all-append test (x ∷ xs) ys h k = ground (arith, all-append test xs ys)

all-digits :
    (test : ℕ → Bool)
    → ((n : ℕ) → test (digit_of n) ≡ true)
    → (k n : ℕ) → all test (digits k n) ≡ true
unfolding digits all
all-digits test one zero n = refl
all-digits test one (suc k) n =
    all-append test (digits k (n / 10)) (digit_of n ∷ []) (all-digits test one k (n / 10))
      (unfold all in ground (arith, one n))

digit_of-is_digit : (n : ℕ) → is_digit (digit_of n) ≡ true
digit_of-is_digit n = ground arith

digit_of-is_solid : (n : ℕ) → not (is_space (digit_of n)) ≡ true
digit_of-is_solid n = ground arith

digits-is_solid : (k n : ℕ) → is_solid (digits k n) ≡ true
digits-is_solid k n = all-digits (λ c. not (is_space c)) digit_of-is_solid k n

print_days-is_solid : (n : ℕ) → is_solid (print_days n) ≡ true
print_days-is_solid n =
    all-append (λ c. not (is_space c)) (digits 3 (n / eighth)) (point ∷ digits 8 (n % eighth))
      (digits-is_solid 3 (n / eighth))
      (unfold all in ground (arith, digits-is_solid 8 (n % eighth)))

length-print_days : (n : ℕ) → length (print_days n) ≡ 12
length-print_days n =
    length-append (digits 3 (n / eighth)) (point ∷ digits 8 (n % eighth))
    ∙ omega (arith, length-digits 3 (n / eighth), length-digits 8 (n % eighth))

print_year-year_of :
    (year_2d : ℕ) → year_2d < 100 → year_of (print_year year_2d) ≡ some (full_year year_2d)
unfolding year_of
print_year-year_of y h =
    ap (λ s. if is_numeric s then some (full_year (int s)) else signed_year s)
      (strip-solid (print_year y) (digits-is_solid 2 y))
    ∙ numeric (print_year y) (all-digits is_digit digit_of-is_digit 2 y) (length-digits 2 y)
    ∙ ap (λ n. some (full_year n))
        (int_from-digits 2 0 y (unfold power in omega arith) ∙ omega arith)
  where
    numeric :
        (s : Line)
        → all is_digit s ≡ true
        → length s ≡ 2
        → (if is_numeric s then some (full_year (int s)) else signed_year s)
          ≡ some (full_year (int s))
    numeric [] a k = absurd (omega arith)
    numeric (c ∷ cs) a k = rw a refl

-- A decimal of three digits and eight places is read as a float that compares with a whole number
-- as the decimal does, and less a whole number it is a timedelta exact to the microsecond: 864 of
-- them are a hundred-millionth of a day.
pub record DayLaws (floats : Floats) (sub : floats.Float → floats.Float → floats.Float)
    (timedelta : floats.Float → ℕ) : Type 0 where
  pub of_decimal : ℕ → floats.Float
  pub parsed : (n : ℕ) → n < 1000 * eighth → floats.parse (print_days n) ≡ some (of_decimal n)
  pub from_whole :
      (k n : ℕ)
      → k < 1000
      → n < 1000 * eighth
      → floats.le (floats.of_nat k) (of_decimal n) ≡ leb (k * eighth) n
  pub below_whole :
      (n k : ℕ)
      → n < 1000 * eighth
      → k < 1000
      → floats.lt (of_decimal n) (floats.of_nat k) ≡ ltb n (k * eighth)
  pub offset :
      (n k : ℕ)
      → n < 1000 * eighth
      → k * eighth ≤ n
      → timedelta (sub (of_decimal n) (floats.of_nat k)) ≡ (n - k * eighth) * 864

module _ (floats : Floats) (sub : floats.Float → floats.Float → floats.Float)
    (timedelta : floats.Float → ℕ) (laws : DayLaws floats sub timedelta) where
  -- The days from the first of January on.
  epoch_from-days :
      (y n : ℕ)
      → n < 1000 * eighth
      → epoch_from floats sub timedelta (some y) (some (laws.of_decimal n)) ≡ (
          if leb eighth n && ltb n (367 * eighth)
          then some (start_of_year y + (n - eighth) * 864)
          else none)
  unfolding epoch_from
  epoch_from-days y n high =
      rw (laws.from_whole 1 n (omega arith) high, laws.below_whole n 367 high (omega arith))
        (elim (Bool-cases (leb eighth n && ltb n (367 * eighth))) [
          | inl e ↦
              let low : 1 * eighth ≤ n = ground (arith, e) in
              rw e (ap (λ x. some (start_of_year y + x)) (laws.offset n 1 high low))
          | inr e ↦ rw e refl
        ])

  -- The epoch of a line in which the columns from 18 on hold a year of two digits and a day of the
  -- year of three digits with eight decimals is read, from day 1 to below 367, as the instant so
  -- many hundred-millionths of a day after the start of that year, from 1957 to 2056, whatever else
  -- stands in the line; any other day is refused.
  pub extract_epoch-print :
      (before after : Line) (year_2d n : ℕ)
      → length before ≡ 18
      → year_2d < 100
      → n < 1000 * eighth
      → extract_epoch floats sub timedelta
          (before ++ (print_year year_2d ++ (print_days n ++ after)))
        ≡ (if leb eighth n && ltb n (367 * eighth)
            then some (start_of_year (full_year year_2d) + (n - eighth) * 864)
            else none)
  unfolding extract_epoch
  extract_epoch-print before after y n front small high =
      let line = before ++ (print_year y ++ (print_days n ++ after)) in
      rw (long, year_field, day_field)
        (ap (λ s. epoch_from floats sub timedelta (year_of (print_year y)) (floats.parse s))
            (strip-solid (print_days n) (print_days-is_solid n))
          ∙ ap (λ o. epoch_from floats sub timedelta o (floats.parse (print_days n)))
              (print_year-year_of y small)
          ∙ ap (epoch_from floats sub timedelta (some (full_year y))) (laws.parsed n high)
          ∙ epoch_from-days (full_year y) n high)
    where
      rest : Line
      rest = print_days n ++ after

      year_field : slice 18 20 (before ++ (print_year y ++ rest)) ≡ print_year y
      year_field =
          ap (take 2) (drop-append before (print_year y ++ rest) 18 front)
          ∙ take-append (print_year y) rest 2 (length-digits 2 y)

      day_field : slice 20 32 (before ++ (print_year y ++ rest)) ≡ print_days n
      day_field =
          ap (λ l. take 12 (drop 20 l)) (sym (append_assoc before (print_year y) rest))
          ∙ ap (take 12) (
              drop-append (before ++ print_year y) rest 20
                (length-append before (print_year y) ∙ omega (arith, front, length-digits 2 y)))
          ∙ take-append (print_days n) after 12 (length-print_days n)

      long : ltb (length (before ++ (print_year y ++ rest))) 32 ≡ false
      long =
          let a = length-append before (print_year y ++ rest) in
          let b = length-append (print_year y) rest in
          let c = length-append (print_days n) after in
          ground (arith, a, b, c, front, length-digits 2 y, length-print_days n)
