-- ===== src/Propagation/Julian.antt =====
-- propagation/sgp4_engine.py, `_jd_from_components`: the split Julian date. The fraction of a day is
-- counted in microseconds, as exactly as the times that it comes from.
use mathlib.Core.Path.{subst}
use sda_system.Prelude.{
  ℕ, ◌+◌, ◌-◌, ◌*◌, ◌/◌, ◌%◌, ◌≤◌, ◌<◌, ◌≡◌, Bool, not, ◌&&◌, ◌||◌, ltb, ◌==◌, if◌then◌else◌, arith,
  ◌⊎◌, inl, inr, sym,
}

abbrev pub day : ℕ
day = 86_400_000_000

-- The integer day number of a calendar date.
unfoldable pub jd_int : (year month day_of_month : ℕ) → ℕ
jd_int y m d = 367 * y - 7 * (y + (m + 9) / 12) / 4 + 275 * m / 9 + d + 1_721_013

-- `jd_whole` and `jd_frac`, from the microseconds since midnight.
unfoldable pub jd_from_components : (year month day_of_month since_midnight : ℕ) → ℕ × ℕ
jd_from_components y m d t =
    let day_frac = t + day / 2 in (jd_int y m d + day_frac / day, day_frac % day)

-- The reference: days since 31 December of the year 0, by the rules of the Gregorian calendar.
abbrev pub is_leap : ℕ → Bool
is_leap y = (y % 4 == 0) && (not (y % 100 == 0) || y % 400 == 0)

abbrev pub month_start : ℕ → ℕ
month_start m =
    if m == 1
    then 0
    else if m == 2
    then 31
    else if m == 3
    then 59
    else if m == 4
    then 90
    else if m == 5
    then 120
    else if m == 6
    then 151
    else if m == 7
    then 181
    else if m == 8
    then 212
    else if m == 9
    then 243
    else if m == 10
    then 273
    else if m == 11
    then 304
    else 334

abbrev pub leap_day : (year month : ℕ) → ℕ
leap_day y m = if ltb 2 m && is_leap y then 1 else 0

abbrev pub ordinal : (year month day_of_month : ℕ) → ℕ
ordinal y m d =
    365 * (y - 1) + (y - 1) / 4 - (y - 1) / 100 + (y - 1) / 400 + month_start m + leap_day y m + d

-- From 1 March 1900 to 28 February 2100.
abbrev pub IsCovered : (year month : ℕ) → Type 0
IsCovered y m =
    (1 ≤ m)
    × (m ≤ 12)
    × (((1901 ≤ y) × (y ≤ 2099)) ⊎ (((y ≡ 1900) × (3 ≤ m)) ⊎ ((y ≡ 2100) × (m ≤ 2))))

-- The leap years of the covered span are the multiples of four.
leap_test : (y : ℕ) → 1901 ≤ y → y ≤ 2099 → is_leap y ≡ (y % 4 == 0)
leap_test y h k = ground arith

by_month :
    (y m d : ℕ) → 1901 ≤ y → y ≤ 2099 → 1 ≤ m → m ≤ 12 → jd_int y m d ≡ ordinal y m d + 1_721_424
unfolding jd_int
by_month y m d h k low high = ground arith

-- The years on either side.
in_1900 : (m d : ℕ) → 3 ≤ m → m ≤ 12 → jd_int 1900 m d ≡ ordinal 1900 m d + 1_721_424
unfolding jd_int
in_1900 m d low high = ground arith

in_2100 : (m d : ℕ) → 1 ≤ m → m ≤ 2 → jd_int 2100 m d ≡ ordinal 2100 m d + 1_721_424
unfolding jd_int
in_2100 m d low high = ground arith

from_2101 :
    (y m d : ℕ) → 2101 ≤ y → y ≤ 2199 → 1 ≤ m → m ≤ 12 → jd_int y m d ≡ ordinal y m d + 1_721_425
unfolding jd_int
from_2101 y m d h k low high = ground arith

late_2100 : (m d : ℕ) → 3 ≤ m → m ≤ 12 → jd_int 2100 m d ≡ ordinal 2100 m d + 1_721_425
unfolding jd_int
late_2100 m d low high = ground arith

jd_int-ordinal : (y m d : ℕ) → IsCovered y m → jd_int y m d ≡ ordinal y m d + 1_721_424
jd_int-ordinal y m d (low, high, inl (h, k)) = by_month y m d h k low high
jd_int-ordinal y m d (low, high, inr (inl (e, h))) =
    subst (λ x. jd_int x m d ≡ ordinal x m d + 1_721_424) (sym e) (in_1900 m d h high)
jd_int-ordinal y m d (low, high, inr (inr (e, h))) =
    subst (λ x. jd_int x m d ≡ ordinal x m d + 1_721_424) (sym e) (in_2100 m d low h)

-- From 1 March 2100 to the end of 2199.
abbrev pub IsAfter : (year month : ℕ) → Type 0
IsAfter y m = (1 ≤ m) × (m ≤ 12) × (((2101 ≤ y) × (y ≤ 2199)) ⊎ ((y ≡ 2100) × (3 ≤ m)))

jd_int-after : (y m d : ℕ) → IsAfter y m → jd_int y m d ≡ ordinal y m d + 1_721_425
jd_int-after y m d (low, high, inl (h, k)) = from_2101 y m d h k low high
jd_int-after y m d (low, high, inr (e, h)) =
    subst (λ x. jd_int x m d ≡ ordinal x m d + 1_721_425) (sym e) (late_2100 m d h high)

-- From 1 March 1900 to 28 February 2100 the two parts of the date add up to the days of the
-- Gregorian calendar and the time of the day, counted from noon, with a fraction of less than a day.
-- From 1 March 2100 to the end of 2199 the date is one day too late.
pub jd_from_components-ordinal :
    (y m d t : ℕ)
    → let (whole, fraction) = jd_from_components y m d t in
      (IsCovered y m → whole * day + fraction ≡ (ordinal y m d + 1_721_424) * day + t + day / 2)
      × (IsAfter y m → whole * day + fraction ≡ (ordinal y m d + 1_721_425) * day + t + day / 2)
      × (fraction < day)
unfolding jd_from_components
jd_from_components-ordinal y m d t = (
  λ h. omega (arith, jd_int-ordinal y m d h),
  λ h. omega (arith, jd_int-after y m d h),
  omega arith,
)
