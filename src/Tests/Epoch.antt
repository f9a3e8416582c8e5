-- ===== src/Tests/Epoch.antt =====
-- Noon of 1 January 2024 in a line, with floats that count hundred-millionths.
use sda_system.Prelude.{
  ℕ, ◌+◌, ◌-◌, ◌*◌, ◌/◌, ◌%◌, ◌<◌, ◌≡◌, refl, ap, ◌∙◌, none, some, [], ◌++◌, take, drop, replicate,
  leb, ltb, if◌then◌else◌, ◌&&◌, arith,
}
use sda_system.Ingestion.Tle.{Floats, int}
use sda_system.Ingestion.Tle.Epoch.{start_of_year, extract_epoch}
use sda_system.Ingestion.Tle.Epoch.Printed.{
  digits, power, eighth, print_year, print_days, int_from-append, int_from-digits, DayLaws,
  extract_epoch-print,
}

abbrev decimals : Floats
decimals = record {
  Float = ℕ;
  parse = λ field. some (int (take 3 field ++ drop 4 field));
  of_nat = λ n. n * eighth;
  le = leb;
  lt = ltb;
}

abbrev minus : ℕ → ℕ → ℕ
minus m n = m - n

abbrev microseconds : ℕ → ℕ
microseconds d = d * 864

without_point :
    (n : ℕ)
    → take 3 (print_days n) ++ drop 4 (print_days n)
      ≡ digits 3 (n / eighth) ++ digits 8 (n % eighth)
unfolding digits
without_point n = refl

decimals-laws : DayLaws decimals minus microseconds
decimals-laws = record {
  of_decimal = λ n. n;
  parsed = read;
  from_whole = λ k n small high. refl;
  below_whole = λ n k high small. refl;
  offset = λ n k high low. refl;
}
  where
    read :
        (n : ℕ)
        → n < 1000 * eighth
        → some (int (take 3 (print_days n) ++ drop 4 (print_days n))) ≡ some n
    read n high =
        ap (λ l. some (int l)) (without_point n)
        ∙ ap some (
            int_from-append 0 (digits 3 (n / eighth)) (digits 8 (n % eighth))
            ∙ int_from-digits 8 (int (digits 3 (n / eighth))) (n % eighth)
                (unfold power in omega arith)
            ∙ (let days = int_from-digits 3 0 (n / eighth) (unfold power in omega arith) in
                unfold power in omega (arith, days)))

abbrev noon : ℕ
noon = 150_000_000

extract_epoch-print_example :
    extract_epoch decimals minus microseconds
      (replicate 18 48 ++ (print_year 24 ++ (print_days noon ++ [])))
    ≡ (if leb eighth noon && ltb noon (367 * eighth)
        then some (start_of_year 2024 + (noon - eighth) * 864)
        else none)
extract_epoch-print_example =
    extract_epoch-print decimals minus microseconds decimals-laws (replicate 18 48) [] 24 noon refl
      (omega arith) (omega arith)

-- The column of a line that is too short.
short_line : extract_epoch decimals minus microseconds (replicate 31 48) ≡ none
unfolding extract_epoch
short_line = refl
