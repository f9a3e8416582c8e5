-- ===== src/Propagation/Samples.antt =====
-- propagation/pass_detector.py: the helpers on samples of one satellite over one station, written
-- over the operations of floats and vectors (`Angles`).
use sda_system.Prelude.{
  ℕ, zero, suc, ◌+◌, ◌-◌, ◌≤◌, ◌≡◌, min, Bool, true, false, not, ◌&&◌, ◌||◌, List, [], ◌∷◌, length,
  leb, ◌==◌, get_or, if◌then◌else◌,
}

-- Floats with the sentinel -999.0 and the constant 1e-12, seconds of a duration, a time that is later
-- by so many seconds, and vectors. `later_by` goes back where the seconds are negative.
pub record Angles : Type 1 where
  pub Angle : Type 0
  pub of_nat : ℕ → Angle
  pub nan_sentinel : Angle
  pub tiny : Angle
  pub add : Angle → Angle → Angle
  pub sub : Angle → Angle → Angle
  pub mul : Angle → Angle → Angle
  pub div : Angle → Angle → Angle
  pub neg : Angle → Angle
  pub abs : Angle → Angle
  pub ge : Angle → Angle → Bool
  pub lt : Angle → Angle → Bool
  pub is_finite : Angle → Bool
  pub seconds : ℕ → Angle
  pub later_by : ℕ → Angle → ℕ
  pub Position : Type 0
  pub pos_add : Position → Position → Position
  pub pos_sub : Position → Position → Position
  pub scale : Angle → Position → Position
  pub origin : Position

-- `np.clip`, of a number.
abbrev pub clip : (a : Angles) → (x low high : a.Angle) → a.Angle
clip a x low high = if a.ge x low then if a.ge high x then x else high else low

-- A fraction of a step, from 0 to 1.
abbrev pub IsFraction : (a : Angles) → a.Angle → Type 0
IsFraction a f = (a.ge f (a.of_nat 0) ≡ true) × (a.ge (a.of_nat 1) f ≡ true)

-- 0 and 1 are fractions, and a time later by a fraction of a duration is in that duration.
pub record AngleLaws (a : Angles) : Type 0 where
  pub low_fraction : IsFraction a (a.of_nat 0)
  pub high_fraction : IsFraction a (a.of_nat 1)
  pub later_by_fraction :
      (f : a.Angle) (t dt : ℕ)
      → IsFraction a f
      → (t ≤ a.later_by t (a.mul f (a.seconds dt)))
        × (a.later_by t (a.mul f (a.seconds dt)) ≤ t + dt)

module _ (angles : Angles) where
  open angles use {
    Angle, of_nat, nan_sentinel, tiny, add, sub, mul, div, neg, abs, ge, lt, is_finite, seconds,
    later_by, Position, pos_add, pos_sub, scale, origin,
  }

  abbrev pub at : List Angle → ℕ → Angle
  at elevations i = get_or elevations i nan_sentinel

  abbrev pub time_at : List ℕ → ℕ → ℕ
  time_at times i = get_or times i 0

  -- What `_interpolate_crossing` returns.
  pub record Crossing : Type 0 where
    pub time : ℕ
    pub frac : Angle
    pub left : ℕ
    pub right : ℕ

  -- The part of `_interpolate_crossing` between two samples, with its two fallbacks.
  unfoldable pub between :
      List ℕ → List Angle → (threshold : Angle) → (is_rise : Bool) → (left right : ℕ) → Crossing
  between times elevations threshold is_rise i j =
      let l = at elevations i in
      let r = at elevations j in
      let fraction = clip angles (div (sub threshold l) (sub r l)) (of_nat 0) (of_nat 1) in
      if not (is_finite l && is_finite r)
      then record {
        time = time_at times (if is_rise then j else i);
        frac = div (of_nat 1) (of_nat 2);
        left = i;
        right = j;
      }
      else if lt (abs (sub r l)) tiny
      then record {
        time = time_at times (if is_rise then i else j);
        frac = if is_rise then of_nat 0 else of_nat 1;
        left = i;
        right = j;
      }
      else record {
        time =
            later_by (time_at times i) (mul fraction (seconds (time_at times j - time_at times i)));
        frac = fraction;
        left = i;
        right = j;
      }

  -- `_interpolate_crossing`, for a rise and for a set. On a single sample, where the left index of
  -- the last clamp is -1 in the source, both give the position of that sample.
  unfoldable pub interpolate_crossing :
      List ℕ → List Angle → (idx : ℕ) → (threshold : Angle) → (is_rise : Bool) → Crossing
  interpolate_crossing times elevations zero threshold true = record {
    time = time_at times 0;
    frac = of_nat 0;
    left = 0;
    right = 0;
  }
  interpolate_crossing times elevations (suc i) threshold true =
      between times elevations threshold true i (suc i)
  interpolate_crossing times elevations idx threshold false =
      let n = length times in
      if leb n (idx + 1)
      then record { time = time_at times (n - 1); frac = of_nat 1; left = n - 2; right = n - 1 }
      else between times elevations threshold false idx (idx + 1)

  abbrev pub position_at : List Position → ℕ → Position
  position_at positions i = get_or positions i origin

  -- `_interpolated_ecef`
  unfoldable pub interpolated_ecef : List Position → Crossing → Position
  interpolated_ecef positions c =
      let l = position_at positions c.left in
      let r = position_at positions (min (length positions - 1) c.right) in
      if c.left == c.right then l else pos_add l (scale c.frac (pos_sub r l))

  -- `np.argmax`: the first index of a greatest element, from `best` at `at_index` on.
  unfoldable pub argmax_from : (best : Angle) → (at_index i : ℕ) → List Angle → ℕ
  argmax_from best at_index i [] = at_index
  argmax_from best at_index i (e ∷ es) =
      argmax_from (if ge best e then best else e) (if ge best e then at_index else i) (i + 1) es

  abbrev pub argmax : List Angle → ℕ
  argmax es = argmax_from (at es 0) 0 0 es

  -- `_refine_max_elevation`: the vertex of the parabola through three samples, as the source has it.
  unfoldable pub refine_max_elevation :
      List Angle → List ℕ → (max_i : ℕ) → (step_seconds : Angle) → (n : ℕ) → Angle × ℕ
  refine_max_elevation elevations times max_i step_seconds n =
      let c = at elevations max_i in
      let l = at elevations (max_i - 1) in
      let r = at elevations (max_i + 1) in
      let two_a = add (sub l (mul (of_nat 2) c)) r in
      let t_star = div (neg (sub r l)) (mul (of_nat 2) two_a) in
      let refined_elev = sub c (div (mul (sub r l) (sub r l)) (mul (of_nat 4) two_a)) in
      let clamped = clip angles t_star (neg (of_nat 1)) (of_nat 1) in
      let sample : Angle × ℕ = (c, time_at times max_i) in
      if max_i == 0 || leb n (max_i + 1)
      then sample
      else if ge nan_sentinel l || ge nan_sentinel r
      then sample
      else if ge two_a (of_nat 0)
      then sample
      else (refined_elev, later_by (time_at times max_i) (mul clamped step_seconds))
