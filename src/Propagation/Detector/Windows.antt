-- ===== src/Propagation/Detector/Windows.antt =====
-- The passes that the detector finds for one satellite over one station.
use mathlib.Core.Path.{subst}
use sda_system.Prelude.{
  ℕ, zero, suc, ◌+◌, ◌-◌, ◌≤◌, ◌<◌, ◌≡◌, refl, ◌∙◌, true, false, List, [], ◌∷◌, map, length, ltb,
  leb, if◌then◌else◌, Bool-cases, inl, inr, arith, length-map,
}
use sda_system.Scheduling.Intervals.{Interval}
use sda_system.Scheduling.Slots.Merge.{Separated, IsMerged}
use sda_system.Propagation.Samples.{Angles, AngleLaws, time_at, Crossing, interpolate_crossing}
use sda_system.Propagation.Detector.{
  DetectedPass, sanitised, window_step, windows_loop, step_of, extract_passes, index_pairs,
}
use sda_system.Propagation.Detector.Edges.{index_pairs-IsMerged}
use sda_system.Propagation.Detector.Crossings.{Ascending, Ascending-le, between-IsWithin}

module _ (angles : Angles) (laws : AngleLaws angles) where
  -- Passes of at least the least duration, each from the end of the one before it.
  unfoldable pub InTurn : (min_duration from : ℕ) → List (DetectedPass angles) → Type 0
  InTurn min_duration from [] = Unit {0}
  InTurn min_duration from (p ∷ ps) =
      (from ≤ p.rise_time)
      × (p.rise_time < p.set_time)
      × (p.rise_time + min_duration ≤ p.set_time)
      × (p.duration ≡ p.set_time - p.rise_time)
      × InTurn min_duration p.set_time ps

  module _ (azimuth : angles.Position → angles.Angle) (from_time : ℕ) (times : List ℕ)
      (raw : List angles.Angle) (positions : List angles.Position) (mask : angles.Angle)
      (min_duration : ℕ) (step : angles.Angle) (up : Ascending from_time times) where
    le_at : (i j : ℕ) → i ≤ j → j < length times → time_at angles times i ≤ time_at angles times j
    le_at i j h k = Ascending-le from_time times i j up h k

    rise_lower :
        (r : ℕ)
        → r < length times
        → time_at angles times (r - 1)
          ≤ (interpolate_crossing angles times (sanitised angles raw) r mask true).time
    unfolding interpolate_crossing
    rise_lower zero h = le_at 0 0 (omega arith) h
    rise_lower (suc i) h =
        let pred : suc i - 1 ≡ i = omega arith in
        rw pred
          (between-IsWithin angles laws times (sanitised angles raw) mask true i
            (le_at i (suc i) (omega arith) h)).low

    set_upper :
        (s : ℕ)
        → 0 < s
        → s < length times
        → (interpolate_crossing angles times (sanitised angles raw) (s - 1) mask false).time
          ≤ time_at angles times s
    unfolding interpolate_crossing
    set_upper zero h k = absurd (omega arith)
    set_upper (suc i) h k =
        let pred : suc i - 1 ≡ i = omega arith in
        let next : i + 1 ≡ suc i = omega arith in
        let more : leb (length times) (suc i) ≡ false = ground arith in
        rw pred (
          rw next (
            rw more
              (between-IsWithin angles laws times (sanitised angles raw) mask false i
                (le_at i (suc i) (omega arith) k)).high))

    window_step-InTurn :
        (from r s : ℕ) (rise end : Crossing angles) (later : List (DetectedPass angles))
        → from ≤ rise.time
        → (rise.time < end.time → InTurn min_duration end.time later)
        → InTurn min_duration from later
        → InTurn min_duration from (
            window_step angles azimuth times raw positions mask min_duration step r s rise end
              later)
    unfolding window_step InTurn
    window_step-InTurn from r s rise end later h after skip =
        elim (Bool-cases (leb end.time rise.time)) [
          | inl e ↦ rw e skip
          | inr e ↦ elim (Bool-cases (ltb (end.time - rise.time) min_duration)) [
            | inl f ↦ rw (e, f) skip
            | inr f ↦ rw e (rw f (h, ground arith, ground arith, refl, after (ground arith)))
          ]
        ]

    windows_loop-InTurn :
        (ws : List Interval) (from j : ℕ)
        → (j < length times → from ≤ time_at angles times j)
        → Separated (length times) j ws
        → InTurn min_duration from
            (windows_loop angles azimuth times raw positions mask min_duration step ws)
    unfolding windows_loop InTurn
    windows_loop-InTurn [] from j h k = tt
    windows_loop-InTurn (w ∷ ws) from j h (a, b, c, rest) =
        window_step-InTurn from w.start w.stop
          (interpolate_crossing angles times (sanitised angles raw) w.start mask true)
          (interpolate_crossing angles times (sanitised angles raw) (w.stop - 1) mask false)
          (windows_loop angles azimuth times raw positions mask min_duration step ws)
          (omega (
            arith,
            h (omega arith),
            le_at j (w.start - 1) (omega arith) (omega arith),
            rise_lower w.start (omega arith),
          ))
          (λ up.
            windows_loop-InTurn ws
              (interpolate_crossing angles times (sanitised angles raw) (w.stop - 1) mask
                false).time
              w.stop (λ more. set_upper w.stop (omega arith) more) rest)
          (windows_loop-InTurn ws from w.stop
            (λ more. omega (arith, h (omega arith), le_at j w.stop (omega arith) more)) rest)

    first_window-InTurn :
        (ws : List Interval)
        → IsMerged (length times) ws
        → InTurn min_duration
            (time_at angles times 0)
            (windows_loop angles azimuth times raw positions mask min_duration step ws)
    unfolding windows_loop InTurn
    first_window-InTurn [] k = tt
    first_window-InTurn (w ∷ ws) (b, c, rest) =
        window_step-InTurn (time_at angles times 0) w.start w.stop
          (interpolate_crossing angles times (sanitised angles raw) w.start mask true)
          (interpolate_crossing angles times (sanitised angles raw) (w.stop - 1) mask false)
          (windows_loop angles azimuth times raw positions mask min_duration step ws)
          (omega (
            arith,
            le_at 0 (w.start - 1) (omega arith) (omega arith),
            rise_lower w.start (omega arith),
          ))
          (λ up.
            windows_loop-InTurn ws
              (interpolate_crossing angles times (sanitised angles raw) (w.stop - 1) mask
                false).time
              w.stop (λ more. set_upper w.stop (omega arith) more) rest)
          (windows_loop-InTurn ws (time_at angles times 0) w.stop
            (λ more. le_at 0 w.stop (omega arith) more) rest)

  -- On times that do not fall, with a sample for each, the passes found begin at the first time or
  -- later, each rises before it sets, lasts from its rise to its set and at least the least
  -- duration, and rises when the one before it has set or later.
  pub extract_passes-InTurn :
      (azimuth : angles.Position → angles.Angle) (from_time : ℕ) (times : List ℕ)
      (raw : List angles.Angle) (positions : List angles.Position) (mask : angles.Angle)
      (min_duration default_step : ℕ)
      → Ascending from_time times
      → length raw ≡ length times
      → InTurn min_duration
          (time_at angles times 0)
          (extract_passes angles azimuth times raw positions mask min_duration default_step)
  unfolding extract_passes
  extract_passes-InTurn azimuth from_time times raw positions mask min_duration default_step up
        same =
      let above = map (λ e. angles.ge e mask) (sanitised angles raw) in
      let size : length above ≡ length times =
        length-map (λ e. angles.ge e mask) (sanitised angles raw)
        ∙ length-map (λ e. if angles.is_finite e then e else angles.nan_sentinel) raw
        ∙ same in
      first_window-InTurn azimuth from_time times raw positions mask min_duration
        (step_of angles default_step times) up (index_pairs above)
        (subst (λ n. IsMerged n (index_pairs above)) size (index_pairs-IsMerged above))
