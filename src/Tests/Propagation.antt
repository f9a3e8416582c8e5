-- ===== src/Tests/Propagation.antt =====
-- A date, a small cache, a run of two steps and the passes of seven samples.
use sda_system.Prelude.{
  length, ℕ, zero, suc, ◌+◌, ◌-◌, ◌*◌, ◌/◌, ◌≤◌, ◌<◌, ◌≡◌, refl, Bool, true, false, not, none, some,
  List, [], ◌∷◌, map, take, get_or, replicate, leb, ltb, ◌==◌, arith, if◌then◌else◌,
}
use sda_system.Scheduling.Intervals.{covers}
use sda_system.Scheduling.Slots.Merge.{IsMerged}
use sda_system.Ingestion.Tle.{Line, Floats, rstrip, lstrip}
use sda_system.Propagation.Julian.{
  day, jd_int, jd_from_components, ordinal, IsCovered, IsAfter, jd_from_components-ordinal,
}
use sda_system.Propagation.SatCache.{
  Request, key_text, cached_sat, remove_item, drop_last, evict, after_lookup,
  get_or_create_satellite,
}
use sda_system.Propagation.SatCache.Recent.{uses, keys}
use sda_system.Propagation.SatCache.Built.{run, BuiltBy, run-uses}
use sda_system.Propagation.Engine.{
  Orbit, PropagationResult, validate_tle_format, time_grid, grid_from, zeros, error_codes_of,
  any_decay, count_true, mask_of, result_of, is_usable, propagate, propagate_checked,
}
use sda_system.Propagation.Engine.Valid.{OrbitLaws, IsValidRun, propagate-IsValidRun}
use sda_system.Propagation.Samples.{
  Angles, AngleLaws, time_at, interpolate_crossing, between, argmax_from, refine_max_elevation,
}
use sda_system.Propagation.Detector.{
  DetectedPass, extract_passes, rise_indices, set_indices, zip_indices, index_pairs, windows_loop,
  window_step, step_of, any_nan,
}
use sda_system.Propagation.Detector.Edges.{index_pairs-runs}
use sda_system.Propagation.Detector.Crossings.{Ascending}
use sda_system.Propagation.Detector.Windows.{InTurn, extract_passes-InTurn}

-- Noon of 1 January 2000 is 2451545.
noon_2000 : jd_from_components 2000 1 1 43_200_000_000 ≡ (2_451_545, 0)
unfolding jd_from_components jd_int
noon_2000 = refl

jd_from_components-ordinal_example :
    let (whole, fraction) = jd_from_components 2024 2 29 0 in
    (IsCovered 2024 2
      → whole * day + fraction ≡ (ordinal 2024 2 29 + 1_721_424) * day + 0 + day / 2)
    × (IsAfter 2024 2
        → whole * day + fraction ≡ (ordinal 2024 2 29 + 1_721_425) * day + 0 + day / 2)
    × (fraction < day)
jd_from_components-ordinal_example = jd_from_components-ordinal 2024 2 29 0

-- A digest that tells lines of one character apart by that character.
abbrev digest : Line → ℕ
digest text = get_or text 0 0

abbrev request : ℕ → Request
request c = record { line1 = c ∷ []; line2 = 50 ∷ []; name = [] }

-- Two places: the third satellite puts out the one that was not used again.
abbrev requests : List Request
requests = request 65 ∷ request 66 ∷ request 65 ∷ request 67 ∷ []

least_recent_out : keys (run digest (λ r. r) 1 [] [] requests).0 ≡ 67 ∷ 65 ∷ []
unfolding run get_or_create_satellite after_lookup cached_sat remove_item evict drop_last rstrip
    lstrip
least_recent_out = refl

run-uses_example :
    let (items, past) = run digest (λ (r : Request). r) 1 [] [] requests in
    (keys items ≡ take 2 (uses (map (λ q. digest (key_text q)) past)))
    × BuiltBy digest
        (λ (r : Request). r)
        1
        (request 66 ∷ past)
        (digest (key_text (request 66)))
        (get_or_create_satellite digest (λ (r : Request). r) 2 items (request 66)).1
run-uses_example = run-uses digest (λ (r : Request). r) 1 requests (request 66)

-- Floats that are whole numbers, each field being 1.
abbrev pub ones : Floats
ones = record {
  Float = ℕ;
  parse = λ field. some 1;
  of_nat = λ n. n;
  le = λ x y. true;
  lt = λ x y. true;
}

-- A position is the time itself, and SGP4 has no error.
abbrev pub orbit : Orbit
orbit = record {
  Position = ℕ;
  nan = 0;
  is_finite = λ p. not (p == 0);
  positions_at = λ line1 line2 times. times;
  sgp4_array = λ line1 line2 times. some (zeros (length times));
}

pub orbit-laws : OrbitLaws orbit
orbit-laws line1 line2 times = refl

abbrev pub line_of : ℕ → Line
line_of number = number ∷ replicate 68 48

abbrev one_day : PropagationResult orbit
one_day = result_of orbit 5 (time_grid 1 1 43_200) (time_grid 1 1 43_200) (zeros 3)

propagates : propagate orbit ones (line_of 49) (line_of 50) 5 1 1 43_200 ≡ some one_day
unfolding propagate propagate_checked validate_tle_format rstrip lstrip error_codes_of grid_from
    zeros
propagates = refl

one_day-usable : is_usable orbit one_day ≡ true
unfolding is_usable result_of zeros grid_from mask_of count_true any_decay
one_day-usable = refl

-- Two lines that are too short.
refused : propagate orbit ones [] [] 5 1 1 43_200 ≡ none
unfolding propagate propagate_checked validate_tle_format rstrip lstrip
refused = refl

propagate-IsValidRun_example :
    IsValidRun orbit one_day (time_grid 1 1 43_200) (some (zeros 3)) (time_grid 1 1 43_200)
unfolding grid_from
propagate-IsValidRun_example =
    propagate-IsValidRun orbit orbit-laws ones (line_of 49) (line_of 50) 5 1 1 43_200 one_day
      propagates one_day-usable

abbrev above : List Bool
above = true ∷ false ∷ true ∷ true ∷ []

index_pairs-runs_example :
    ((t : ℕ) → covers (index_pairs above) t ≡ get_or above t false) × IsMerged 4 (index_pairs above)
index_pairs-runs_example = index_pairs-runs above

-- Angles that are whole degrees from the sentinel on, whose quotients are 0 or 1, so that a crossing
-- is at one of its samples.
abbrev pub degrees : Angles
degrees = record {
  Angle = ℕ;
  of_nat = λ n. n;
  nan_sentinel = 0;
  tiny = 0;
  add = λ x y. x + y;
  sub = λ x y. x - y;
  mul = λ x y. x * y;
  div = λ x y. if leb y x then 1 else 0;
  neg = λ x. 0;
  abs = λ x. x;
  ge = λ x y. leb y x;
  lt = ltb;
  is_finite = λ x. true;
  seconds = λ dt. dt;
  later_by = λ t dt. t + dt;
  Position = ℕ;
  pos_add = λ x y. x + y;
  pos_sub = λ x y. x - y;
  scale = λ x y. x * y;
  origin = 0;
}

pub degrees-laws : AngleLaws degrees
degrees-laws = record {
  low_fraction = (refl, refl);
  high_fraction = (refl, refl);
  later_by_fraction = λ f t dt h. by_cases f t dt (ground (arith, h.1));
}
  where
    by_cases : (f t dt : ℕ) → f ≤ 1 → (t ≤ t + f * dt) × (t + f * dt ≤ t + dt)
    by_cases zero t dt h = (omega arith, omega arith)
    by_cases (suc zero) t dt h = (omega arith, omega arith)
    by_cases (suc (suc f)) t dt h = absurd (omega arith)

abbrev sample_times : List ℕ
sample_times = 0 ∷ 100 ∷ 200 ∷ 300 ∷ 400 ∷ 500 ∷ []

abbrev sample_elevations : List ℕ
sample_elevations = 5 ∷ 20 ∷ 30 ∷ 5 ∷ 12 ∷ 2 ∷ []

abbrev sample_positions : List ℕ
sample_positions = 1 ∷ 2 ∷ 3 ∷ 4 ∷ 5 ∷ 6 ∷ []

found_passes : List (DetectedPass degrees)
found_passes =
    extract_passes degrees (λ x. x) sample_times sample_elevations sample_positions 10 250 60

-- The second window, of 200, is too short.
one_pass : map (λ (p : DetectedPass degrees). p.rise_time) found_passes ≡ 0 ∷ []
unfolding found_passes extract_passes windows_loop window_step interpolate_crossing between step_of
    argmax_from refine_max_elevation any_nan rise_indices set_indices zip_indices
one_pass = refl

ascending : Ascending 0 sample_times
unfolding Ascending
ascending =
    (omega arith, (omega arith, (omega arith, (omega arith, (omega arith, (omega arith, tt))))))

extract_passes-InTurn_example :
    InTurn degrees degrees-laws 250
      (time_at degrees sample_times 0)
      (extract_passes degrees (λ x. x) sample_times sample_elevations sample_positions 10 250 60)
extract_passes-InTurn_example =
    extract_passes-InTurn degrees degrees-laws (λ x. x) 0 sample_times sample_elevations
      sample_positions 10 250 60 ascending refl
