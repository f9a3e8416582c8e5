-- ===== src/Propagation/Detector/Crossings.antt =====
-- A crossing that is interpolated between two samples lies between their times.
use sda_system.Prelude.{
  ℕ, zero, suc, ◌+◌, ◌-◌, ◌≤◌, ◌<◌, Bool, true, false, not, ◌&&◌, List, [], ◌∷◌, length, get_or,
  if◌then◌else◌, Bool-cases, inl, inr, arith,
}
use sda_system.Propagation.Samples.{
  Angles, AngleLaws, at, time_at, clip, IsFraction, Crossing, between,
}

-- Times that do not fall, from the given one on.
unfoldable pub Ascending : ℕ → List ℕ → Type 0
Ascending from [] = Unit {0}
Ascending from (t ∷ ts) = (from ≤ t) × Ascending t ts

pub Ascending-from :
    (from : ℕ) (ts : List ℕ) (j : ℕ) → Ascending from ts → j < length ts → from ≤ get_or ts j 0
unfolding Ascending
Ascending-from from [] j a h = absurd (omega arith)
Ascending-from from (t ∷ ts) zero a h = a.0
Ascending-from from (t ∷ ts) (suc j) a h =
    omega (arith, a.0, Ascending-from t ts j a.1 (omega arith))

pub Ascending-le :
    (from : ℕ) (ts : List ℕ) (i j : ℕ)
    → Ascending from ts
    → i ≤ j
    → j < length ts
    → get_or ts i 0 ≤ get_or ts j 0
unfolding Ascending
Ascending-le from [] i j a h k = absurd (omega arith)
Ascending-le from (t ∷ ts) zero zero a h k = omega arith
Ascending-le from (t ∷ ts) zero (suc j) a h k = Ascending-from t ts j a.1 (omega arith)
Ascending-le from (t ∷ ts) (suc i) zero a h k = absurd (omega arith)
Ascending-le from (t ∷ ts) (suc i) (suc j) a h k =
    Ascending-le t ts i j a.1 (omega arith) (omega arith)

module _ (angles : Angles) (laws : AngleLaws angles) where
  clip-IsFraction :
      (x : angles.Angle) → IsFraction angles (clip angles x (angles.of_nat 0) (angles.of_nat 1))
  clip-IsFraction x = elim (Bool-cases (angles.ge x (angles.of_nat 0))) [
    | inl low ↦ elim (Bool-cases (angles.ge (angles.of_nat 1) x)) [
      | inl high ↦ rw low (rw high (low, high))
      | inr over ↦ rw low (rw over laws.high_fraction)
    ]
    | inr under ↦ rw under laws.low_fraction
  ]

  -- A crossing from the one time to the other.
  pub record IsWithin (from end : ℕ) (c : Crossing angles) : Type 0 where
    pub low : from ≤ c.time
    pub high : c.time ≤ end

  pub between-IsWithin :
      (times : List ℕ) (es : List angles.Angle) (mask : angles.Angle) (is_rise : Bool) (i : ℕ)
      → time_at angles times i ≤ time_at angles times (suc i)
      → IsWithin
          (time_at angles times i)
          (time_at angles times (suc i))
          (between angles times es mask is_rise i (suc i))
  unfolding between
  between-IsWithin times es mask is_rise i up =
      by_tests (not (angles.is_finite l && angles.is_finite r))
        (angles.lt (angles.abs (angles.sub r l)) angles.tiny)
        (let both = either (suc i) i (omega arith, up) (up, omega arith) in
          record { low = both.0; high = both.1 })
        (let both = either i (suc i) (up, omega arith) (omega arith, up) in
          record { low = both.0; high = both.1 })
        (record { low = omega (arith, bound.0); high = omega (arith, bound.1, up) })
    where
      l : angles.Angle
      l = at angles es i

      r : angles.Angle
      r = at angles es (suc i)

      fraction : angles.Angle
      fraction =
          clip angles (angles.div (angles.sub mask l) (angles.sub r l)) (angles.of_nat 0)
            (angles.of_nat 1)

      bound :
          let t = time_at angles times i in
          let dt = time_at angles times (suc i) - t in
          (t ≤ angles.later_by t (angles.mul fraction (angles.seconds dt)))
          × (angles.later_by t (angles.mul fraction (angles.seconds dt)) ≤ t + dt)
      bound =
          laws.later_by_fraction fraction (time_at angles times i)
            (time_at angles times (suc i) - time_at angles times i) (clip-IsFraction _)

      either :
          (j k : ℕ)
          → (time_at angles times i ≤ time_at angles times k)
            × (time_at angles times k ≤ time_at angles times (suc i))
          → (time_at angles times i ≤ time_at angles times j)
            × (time_at angles times j ≤ time_at angles times (suc i))
          → (time_at angles times i ≤ time_at angles times (if is_rise then j else k))
            × (time_at angles times (if is_rise then j else k) ≤ time_at angles times (suc i))
      either j k below over =
          elim is_rise
            as (λ b.
              (time_at angles times i ≤ time_at angles times (if b then j else k))
              × (time_at angles times (if b then j else k) ≤ time_at angles times (suc i))) [
                | true ↦ over
                | false ↦ below
              ]

      by_tests :
          (gap level : Bool) {x y z : Crossing angles}
          → IsWithin (time_at angles times i) (time_at angles times (suc i)) x
          → IsWithin (time_at angles times i) (time_at angles times (suc i)) y
          → IsWithin (time_at angles times i) (time_at angles times (suc i)) z
          → IsWithin
              (time_at angles times i)
              (time_at angles times (suc i))
              (if gap then x else if level then y else z)
      by_tests true level a b c = a
      by_tests false true a b c = b
      by_tests false false a b c = c
