-- ===== src/Ingestion/Tle/Number.antt =====
-- The satellite numbers: the two formats of five columns, and the numbers that they hold.
use sda_system.Prelude.{
  ℕ, ◌+◌, ◌-◌, ◌*◌, ◌/◌, ◌%◌, ◌≤◌, ◌<◌, ◌≡◌, refl, ◌∙◌, ap, inl, inr, Bool, true, false, not, ◌&&◌,
  none, some, [], ◌∷◌, all, Bool-cases, ltb, lt→ltb, ltb→lt, arith, if◌then◌else◌,
}
use sda_system.Ingestion.Tle.{
  Line, is_digit, is_upper, is_space, is_numeric, lstrip, rstrip, strip, push_kept, int_from, int,
  positive, alpha5, parse_satellite_number,
}

-- The five columns of a number as the catalogue writes them: digits up to 99999, and from 100000 on
-- a letter for the tens of thousands, 'A' for ten.
abbrev pub digit_of : ℕ → ℕ
digit_of n = 48 + n % 10

abbrev pub last_four : ℕ → Line
last_four n = digit_of (n / 1000) ∷ digit_of (n / 100) ∷ digit_of (n / 10) ∷ digit_of n ∷ []

abbrev pub first_column : ℕ → ℕ
first_column n = if ltb n 100_000 then 48 + n / 10_000 else 65 + (n / 10_000 - 10)

abbrev pub format_number : ℕ → Line
format_number n = first_column n ∷ last_four n

-- No white space in it.
abbrev pub is_solid : Line → Bool
is_solid = all (λ c. not (is_space c))

lstrip-solid : (l : Line) → is_solid l ≡ true → lstrip is_space l ≡ l
unfolding lstrip all
lstrip-solid [] h = refl
lstrip-solid (c ∷ cs) h =
    ap (λ b. if b then lstrip is_space cs else c ∷ cs) (solid_head (is_space c) _ h)
  where
    solid_head : (a b : Bool) → (not a && b) ≡ true → a ≡ false
    solid_head a b e = ground arith

rstrip-solid : (l : Line) → is_solid l ≡ true → rstrip is_space l ≡ l
unfolding rstrip all
rstrip-solid [] h = refl
rstrip-solid (c ∷ cs) h =
    ap (push_kept is_space c) (rstrip-solid cs (solid_tail (is_space c) _ h))
    ∙ kept cs (solid_head (is_space c) _ h)
  where
    solid_head : (a b : Bool) → (not a && b) ≡ true → a ≡ false
    solid_head a b e = ground arith

    solid_tail : (a b : Bool) → (not a && b) ≡ true → b ≡ true
    solid_tail a b e = ground arith

    kept : (l : Line) → is_space c ≡ false → push_kept is_space c l ≡ c ∷ l
    kept [] e = ap (λ b. if b then [] else c ∷ []) e
    kept (d ∷ ds) e = refl

pub strip-solid : (l : Line) → is_solid l ≡ true → strip l ≡ l
strip-solid l h = ap (rstrip is_space) (lstrip-solid l h) ∙ rstrip-solid l h

digit_of-is_digit : (n : ℕ) → is_digit (digit_of n) ≡ true
digit_of-is_digit n = ground arith

solid_digit : (c : ℕ) → is_digit c ≡ true → not (is_space c) ≡ true
solid_digit c h = ground arith

last_four-digits : (n : ℕ) → all is_digit (last_four n) ≡ true
unfolding all
last_four-digits n =
    rw
      (
        digit_of-is_digit (n / 1000),
        digit_of-is_digit (n / 100),
        digit_of-is_digit (n / 10),
        digit_of-is_digit n,
      )
      refl

digits-solid : (l : Line) → all is_digit l ≡ true → is_solid l ≡ true
unfolding all
digits-solid [] h = refl
digits-solid (c ∷ cs) h = both _ _ (solid_digit c (left _ _ h)) (digits-solid cs (right _ _ h))
  where
    both : (a b : Bool) → a ≡ true → b ≡ true → (a && b) ≡ true
    both a b e f = ground arith

    left : (a b : Bool) → (a && b) ≡ true → a ≡ true
    left a b e = ground arith

    right : (a b : Bool) → (a && b) ≡ true → b ≡ true
    right a b e = ground arith

is_digit_lem : (c : ℕ) → 48 ≤ c → c ≤ 57 → is_digit c ≡ true
is_digit_lem c a b = ground arith

is_upper_lem :
    (c : ℕ)
    → 65 ≤ c
    → c ≤ 90
    → (is_upper c ≡ true) × (is_digit c ≡ false) × (not (is_space c) ≡ true)
is_upper_lem c a b = (ground arith, ground arith, ground arith)

-- The four columns after the first hold the number modulo ten thousand.
int_from-last_four : (a n : ℕ) → int_from a (last_four n) ≡ a * 10_000 + n % 10_000
unfolding int_from
int_from-last_four a n = omega arith

-- What the parser makes of five columns without white space.
parsed :
    (c : ℕ) (cs : Line)
    → is_solid (c ∷ cs) ≡ true
    → parse_satellite_number (c ∷ cs)
      ≡ (if all is_digit (c ∷ cs) then positive (int (c ∷ cs)) else alpha5 (c ∷ cs))
unfolding parse_satellite_number
parsed c cs h =
    ap (λ s. if is_numeric s then positive (int s) else alpha5 s) (strip-solid (c ∷ cs) h)

classic :
    (c n : ℕ)
    → c ≡ 48 + n / 10_000
    → 0 < n
    → n < 100_000
    → parse_satellite_number (c ∷ last_four n) ≡ some n
classic c n e pos h =
    let digits : all is_digit (c ∷ last_four n) ≡ true =
      unfold all in rw (is_digit_lem c (omega arith) (omega arith), last_four-digits n) refl in
    parsed c (last_four n) (digits-solid (c ∷ last_four n) digits)
    ∙ ap (λ b. if b then positive (int (c ∷ last_four n)) else alpha5 (c ∷ last_four n)) digits
    ∙ ap positive (value (unfold int_from in int_from-last_four (0 * 10 + (c - 48)) n))
    ∙ ap (λ b. if b then some n else none) (lt→ltb 0 n pos)
  where
    value :
        int (c ∷ last_four n) ≡ (0 * 10 + (c - 48)) * 10_000 + n % 10_000
        → int (c ∷ last_four n) ≡ n
    value q = omega (arith, q)

letter :
    (c n : ℕ)
    → c ≡ 65 + (n / 10_000 - 10)
    → 100_000 ≤ n
    → n < 360_000
    → parse_satellite_number (c ∷ last_four n) ≡ some n
letter c n e low h =
    let (upper, digit, solid) = is_upper_lem c (omega arith) (omega arith) in
    parsed c (last_four n) (columns_solid solid)
    ∙ ap (λ b. if b then positive (int (c ∷ last_four n)) else alpha5 (c ∷ last_four n))
        (first_differs digit)
    ∙ read upper
    ∙ ap some (value (int_from-last_four 0 n))
  where
    columns_solid : not (is_space c) ≡ true → is_solid (c ∷ last_four n) ≡ true
    columns_solid s =
        unfold all in
        ap (λ b. b && is_solid (last_four n)) s ∙ digits-solid (last_four n) (last_four-digits n)

    first_differs : is_digit c ≡ false → all is_digit (c ∷ last_four n) ≡ false
    first_differs d = unfold all in ap (λ b. b && all is_digit (last_four n)) d

    read :
        is_upper c ≡ true
        → alpha5 (c ∷ last_four n) ≡ some ((c - 65 + 10) * 10_000 + int (last_four n))
    read u =
        unfold alpha5 in
        ap
          (λ b.
            if b && all is_digit (last_four n)
            then some ((c - 65 + 10) * 10_000 + int (last_four n))
            else none)
          u
        ∙ ap (λ b. if b then some ((c - 65 + 10) * 10_000 + int (last_four n)) else none)
            (last_four-digits n)

    value :
        int (last_four n) ≡ 0 * 10_000 + n % 10_000 → (c - 65 + 10) * 10_000 + int (last_four n) ≡ n
    value q = omega (arith, q)

-- Every number from 1 to 359999, written in five columns, is read back.
pub parse_satellite_number-format_number :
    (n : ℕ) → 0 < n → n < 360_000 → parse_satellite_number (format_number n) ≡ some n
parse_satellite_number-format_number n pos h = elim (Bool-cases (ltb n 100_000)) [
  | inl k ↦
      classic (first_column n) n (ap (λ b. if b then 48 + n / 10_000 else 65 + (n / 10_000 - 10)) k)
        pos (ltb→lt _ _ k)
  | inr k ↦
      letter (first_column n) n (ap (λ b. if b then 48 + n / 10_000 else 65 + (n / 10_000 - 10)) k)
        (large k) h
]
  where
    large : ltb n 100_000 ≡ false → 100_000 ≤ n
    large k = ground arith
