-- ===== src/Ingestion/Tle/Pair.antt =====
-- What an accepted pair of lines is, and the corruptions that are rejected.
use mathlib.Core.Option
use mathlib.Core.Path.{subst}
use sda_system.Prelude.{
  ℕ, zero, suc, ◌-◌, ◌≤◌, ◌<◌, ◌≡◌, ◌≢◌, refl, sym, ◌∙◌, ap, inl, inr, Bool, true, false, Option,
  none, some, [], ◌∷◌, length, get_or, set, take, drop, slice, ◌==◌, ==_iff, Bool-cases, arith,
  if◌then◌else◌, get_or-set_ne, length-set, take_all,
}
use sda_system.Ingestion.Tle.{
  Line, Floats, is_digit, rstrip, push_kept, rstrip_return, is_return, parse_satellite_number,
  is_some, validate_line1, validate_line2, mismatch, same_number, first_line, second_line,
  validate_pair,
}
use sda_system.Ingestion.Tle.Checksum.{
  IsChecked, tle_line_checksum-set, validate_line1-IsChecked, validate_line2-IsChecked,
}

-- `rstrip` leaves a prefix.
rstrip-take :
    (test : ℕ → Bool) (l : Line)
    → (length (rstrip test l) ≤ length l) × (rstrip test l ≡ take (length (rstrip test l)) l)
unfolding rstrip
rstrip-take test [] = (omega arith, refl)
rstrip-take test (c ∷ cs) = pushed (rstrip test cs) (rstrip-take test cs)
  where
    pushed :
        (r : Line)
        → (length r ≤ length cs) × (r ≡ take (length r) cs)
        → (length (push_kept test c r) ≤ length (c ∷ cs))
          × (push_kept test c r ≡ take (length (push_kept test c r)) (c ∷ cs))
    pushed [] h = kept (test c)
      where
        kept :
            (b : Bool)
            → (length (if b then [] else c ∷ []) ≤ length (c ∷ cs))
              × ((if b then [] else c ∷ []) ≡ take (length (if b then [] else c ∷ [])) (c ∷ cs))
        kept true = (omega arith, refl)
        kept false = (omega arith, refl)
    pushed (d ∷ ds) h = (omega (arith, h.0), ap (◌∷◌ c) h.1)

rstrip_return-take : (l : Line) → rstrip_return l ≡ take (length (rstrip_return l)) l
unfolding rstrip_return
rstrip_return-take l = (rstrip-take is_return l).1

take-take : (a b : ℕ) (l : Line) → a ≤ b → take a (take b l) ≡ take a l
take-take zero b l h = refl
take-take (suc a) zero l h = elim h [ ]
take-take (suc a) (suc b) [] h = refl
take-take (suc a) (suc b) (x ∷ xs) h = ap (◌∷◌ x) (take-take a b xs (omega arith))

take-nil : (n : ℕ) → take {A = ℕ} n [] ≡ []
take-nil zero = refl
take-nil (suc n) = refl

drop-take : (i b : ℕ) (l : Line) → i ≤ b → drop i (take b l) ≡ take (b - i) (drop i l)
drop-take zero b l h = ap (λ n. take n l) (omega arith)
drop-take (suc i) zero l h = elim h [ ]
drop-take (suc i) (suc b) [] h = sym (take-nil (suc b - suc i))
drop-take (suc i) (suc b) (x ∷ xs) h =
    drop-take i b xs (omega arith) ∙ ap (λ n. take n (drop i xs)) (omega arith)

slice-take : (i j b : ℕ) (l : Line) → i ≤ j → j ≤ b → slice i j (take b l) ≡ slice i j l
slice-take i j b l h k =
    ap (take (j - i)) (drop-take i b l (omega arith))
    ∙ take-take (j - i) (b - i) (drop i l) (omega arith)

-- The satellite number of a checked line stands in the line as it came.
satellite_lem :
    (number : ℕ) (l : Line)
    → IsChecked number (rstrip_return l)
    → is_some (parse_satellite_number (slice 2 7 l)) ≡ true
satellite_lem number l c =
    subst (λ f. is_some (parse_satellite_number f) ≡ true)
      (ap (slice 2 7) (rstrip_return-take l ∙ ap (λ n. take n l) c.of_length)
        ∙ slice-take 2 7 69 l (omega arith) (omega arith))
      c.satellite

pub record IsAccepted (l1 l2 : Line) (norad_id : ℕ) : Type 0 where
  pub first : IsChecked 49 (rstrip_return l1)
  pub second : IsChecked 50 (rstrip_return l2)
  pub id1 : parse_satellite_number (slice 2 7 l1) ≡ some norad_id
  pub id2 : parse_satellite_number (slice 2 7 l2) ≡ some norad_id

module _ (floats : Floats) where
  same_number-some :
      (a b : Option ℕ)
      → is_some a ≡ true
      → same_number floats a b ≡ none
      → (n : ℕ) × (a ≡ some n) × (b ≡ some n)
  unfolding same_number
  same_number-some none b h e = cc
  same_number-some (some a) none h e = absurd (Option.some-ne-none _ e)
  same_number-some (some a) (some b) h e = elim (Bool-cases (a == b)) [
    | inl k ↦ (a, refl, ap some (sym ((==_iff a b).0 k)))
    | inr k ↦
        absurd (Option.some-ne-none _ (sym (ap (λ c. if c then none else some mismatch) k) ∙ e))
  ]

  -- An accepted pair has 69 characters a line (but for returns at the end), the right line numbers
  -- and checksums, and one satellite number in both lines.
  pub validate_pair-IsAccepted :
      (l1 l2 : Line)
      → validate_pair floats l1 l2 ≡ none
      → (norad_id : ℕ) × IsAccepted l1 l2 norad_id
  unfolding validate_pair first_line second_line
  validate_pair-IsAccepted l1 l2 e = by_first (validate_line1 floats l1) refl e
    where
      by_second :
          IsChecked 49 (rstrip_return l1)
          → (o : _) → validate_line2 floats l2 ≡ o
          → second_line floats l1 l2 o ≡ none
          → (norad_id : ℕ) × IsAccepted l1 l2 norad_id
      by_second c (some reason) f k = absurd (Option.some-ne-none _ k)
      by_second c none f k =
          let (n, a, b) = same_number-some _ _ (satellite_lem 49 l1 c) k in
          (n, record { first = c; second = validate_line2-IsChecked floats l2 f; id1 = a; id2 = b })

      by_first :
          (o : _)
          → validate_line1 floats l1 ≡ o
          → first_line floats l1 l2 o ≡ none
          → (norad_id : ℕ) × IsAccepted l1 l2 norad_id
      by_first (some reason) f k = absurd (Option.some-ne-none _ k)
      by_first none f k =
          by_second (validate_line1-IsChecked floats l1 f) (validate_line2 floats l2) refl k

  -- A line of 69 characters that is checked as it stands.
  whole_line :
      (number : ℕ) (l : Line)
      → length l ≡ 69
      → IsChecked number (rstrip_return l)
      → IsChecked number l
  whole_line number l n c =
      subst (IsChecked number) (rstrip_return-take l ∙ take_all l _ (omega (arith, n, c.of_length)))
        c

  -- If a line 1 of 69 characters is accepted, the line with another digit in the place of one of
  -- the digits before the checksum is rejected.
  pub validate_line1-set :
      (line : Line) (i d : ℕ)
      → validate_line1 floats line ≡ none
      → length line ≡ 69
      → i < 68
      → is_digit (get_or line i 0) ≡ true
      → is_digit d ≡ true
      → get_or line i 0 ≢ d
      → validate_line1 floats (set line i d) ≢ none
  validate_line1-set line i d e n h old new ne f =
      let c = whole_line 49 line n (validate_line1-IsChecked floats line e) in
      let k =
        whole_line 49 (set line i d) (length-set line i d ∙ n)
          (validate_line1-IsChecked floats (set line i d) f) in
      tle_line_checksum-set line i d h (omega (arith, n)) old new ne
        (k.checksum ∙ ap (λ x. x - 48) (get_or-set_ne line i 68 d 0 (apart i h)) ∙ sym c.checksum)
    where
      apart : (j : ℕ) → j < 68 → j ≢ 68
      apart j lt q = omega arith
