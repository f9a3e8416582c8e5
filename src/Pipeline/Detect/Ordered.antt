-- ===== src/Pipeline/Detect/Ordered.antt =====
-- What the rows are that a detect_passes task inserts.
use mathlib.Core.List.{mem-map, not-mem-nil}
use mathlib.Core.Logic.Or
use mathlib.Core.Logic.{∥∥₁_elim, ∨₁_prop, ◌∨₁◌}
use mathlib.Core.Path.{subst}
use mathlib.Core.Option.{none-ne-some, some_inj}
use mathlib.Core.Bool.{Bool-set}
use native.Mathlib.Nat.{ℕ_set}
use sda_system.Prelude.{
  ℕ, ◌+◌, ◌-◌, ◌≤◌, ◌<◌, ◌≡◌, refl, sym, ◌∙◌, inl, inr, true, false, Option, none, some, List, [],
  ◌∷◌, Mem, length, ltb, select, Bool-cases, arith, le_prop, ◌==◌, forall-cons,
}
use sda_system.Models.{SatellitePass, GroundStation}
use sda_system.Ingestion.Tle.{Floats}
use sda_system.Propagation.Engine.{
  Orbit, PropagationResult, valid_positions, valid_times, is_usable, propagate, masked, time_grid,
}
use sda_system.Propagation.Engine.Valid.{OrbitLaws, IsValidRun, propagate-IsValidRun}
use sda_system.Propagation.Samples.{Angles, AngleLaws, time_at}
use sda_system.Propagation.Detector.{DetectedPass, extract_passes}
use sda_system.Propagation.Detector.Crossings.{Ascending, Ascending-from}
use sda_system.Propagation.Detector.Windows.{InTurn, extract_passes-InTurn}
use sda_system.Propagation.Site.{Frames, FrameLaws, detect_passes}
use sda_system.Pipeline.Upsert.{station_rows}
use sda_system.Pipeline.Detect.{
  Elements, Settings, Columns, row_of, usable_track, track_of, detect, detect_active,
  detect_passes_task,
}
use sda_system.Pipeline.Detect.Rows.{All, detect_loop-All, grid_from-Ascending, masked-Ascending}

module _ (floats : Floats) (orbit : Orbit) (orbit_laws : OrbitLaws orbit) (angles : Angles)
    (laws : AngleLaws angles) (frames : Frames angles orbit.Position)
    (frame_laws : FrameLaws angles orbit.Position frames) (columns : Columns angles)
    (settings : Settings) (start_time : ℕ) where
  -- An open row that rises at start_time or later and before it sets, for the least duration or
  -- longer, of one of the satellites at one of the stations.
  pub record IsDetected (tles : List Elements) (stations : List GroundStation) (p : SatellitePass)
      : Type 0 where
    pub time_order : p.rise_time < p.set_time
    pub duration : p.duration_seconds ≡ p.set_time - p.rise_time
    pub lasting : p.rise_time + settings.min_pass_duration ≤ p.set_time
    pub from_start : start_time ≤ p.rise_time
    pub unscheduled : p.is_scheduled ≡ false
    pub satellite : ∥ ((tle : Elements) × Mem tle tles × (tle.norad_id ≡ p.norad_id)) ∥₁
    pub station : ∥ ((s : GroundStation) × Mem s stations × (s.station_id ≡ p.station_id)) ∥₁

  IsDetected-prop :
      (tles : List Elements) (stations : List GroundStation) (p : SatellitePass)
      → IsProp (IsDetected tles stations p)
  IsDetected-prop tles stations p = hlevel (le_prop, ℕ_set, Bool-set)

  abbrev Known : List Elements → List GroundStation → List SatellitePass → SatellitePass → Type 0
  Known tles stations table p = Mem p table ∨₁ IsDetected tles stations p

  usable_track_lem :
      (o : Option (PropagationResult orbit)) (r : PropagationResult orbit)
      → usable_track floats orbit angles frames columns settings start_time o ≡ some r
      → (o ≡ some r) × (is_usable orbit r ≡ true)
  unfolding usable_track
  usable_track_lem none r e = absurd (cc)
  usable_track_lem (some q) r e = elim (Bool-cases (is_usable orbit q)) [
    | inl u ↦ elim (Bool-cases (ltb 0 (length (valid_positions orbit q)))) [
      | inl k ↦
          let same : some q ≡ some r = rw (u, k) at e in
          (same, subst (λ x. is_usable orbit x ≡ true) (some_inj.0 same) u)
      | inr k ↦ let no_track = rw (u, k) at e in absurd (none-ne-some r no_track)
    ]
    | inr u ↦ let no_track = rw u at e in absurd (none-ne-some r no_track)
  ]

  abbrev Turn : ℕ → List (DetectedPass angles) → Type 0
  Turn = InTurn angles laws settings.min_pass_duration

  Turn-lower : (a b : ℕ) (ds : List (DetectedPass angles)) → a ≤ b → Turn b ds → Turn a ds
  unfolding InTurn
  Turn-lower a b [] h k = tt
  Turn-lower a b (d ∷ ds) h (low, order, long, lasts, rest) =
      (omega arith, order, long, lasts, rest)

  -- What is found for a usable track.
  detect-Turn :
      (tle : Elements) (r : PropagationResult orbit) (s : GroundStation)
      (ds : List (DetectedPass angles))
      → track_of floats orbit angles frames columns settings start_time tle ≡ some r
      → detect floats orbit angles frames columns settings start_time r s ≡ some ds
      → Turn start_time ds
  unfolding detect_passes
  detect-Turn tle r s ds e f =
      let (made, usable) =
        usable_track_lem
          (propagate orbit floats tle.line1 tle.line2 tle.norad_id start_time
            settings.propagation_days settings.propagation_step)
          r e in
      on_run (
        propagate-IsValidRun orbit orbit_laws floats tle.line1 tle.line2 tle.norad_id start_time
          settings.propagation_days settings.propagation_step r made usable)
    where
      times : List ℕ
      times = valid_times orbit r

      ecef : List angles.Position
      ecef = frames.teme_to_ecef_batch (valid_positions orbit r) times

      passes : List (DetectedPass angles)
      passes =
          extract_passes angles (frames.azimuth s) times (frames.elevations s ecef) ecef
            (frames.elevation_mask s) settings.min_pass_duration settings.propagation_step

      on_run :
          IsValidRun orbit r
            (orbit.positions_at tle.line1 tle.line2
              (time_grid start_time settings.propagation_days settings.propagation_step))
            (orbit.sgp4_array tle.line1 tle.line2
              (time_grid start_time settings.propagation_days settings.propagation_step))
            (time_grid start_time settings.propagation_days settings.propagation_step)
          → Turn start_time ds
      on_run run =
          let up : Ascending start_time times =
            subst (λ ts. Ascending start_time (masked ts r.valid_mask)) (sym run.on_grid)
              (masked-Ascending start_time _ r.valid_mask (
                grid_from-Ascending start_time settings.propagation_step 0 _ start_time
                  (omega arith))) in
          let filled : (length times == 0) ≡ false = ground (arith, run.some_left) in
          let aligned : (length (valid_positions orbit r) == length times) ≡ true =
            ground (arith, run.aligned) in
          let turn : Turn start_time passes =
            Turn-lower start_time (time_at angles times 0) passes
              (Ascending-from start_time times 0 up run.some_left)
              (extract_passes-InTurn angles laws (frames.azimuth s) start_time times
                (frames.elevations s ecef) ecef (frames.elevation_mask s) settings.min_pass_duration
                settings.propagation_step up
                (frame_laws s (valid_positions orbit r) times ∙ run.aligned)) in
          elim (Bool-cases (frames.in_range s)) [
            | inl placed ↦
                subst (Turn start_time) (some_inj.0 (rw (filled, aligned, placed) at f)) turn
            | inr outside ↦ absurd (none-ne-some ds (rw (filled, aligned, outside) at f))
          ]

  -- What is true of each pass in turn.
  abbrev Lasts : ℕ → DetectedPass angles → Type 0
  Lasts from d =
      (from ≤ d.rise_time)
      × (d.rise_time < d.set_time)
      × (d.rise_time + settings.min_pass_duration ≤ d.set_time)
      × (d.duration ≡ d.set_time - d.rise_time)

  Lasts-prop : (from : ℕ) (d : DetectedPass angles) → IsProp (Lasts from d)
  Lasts-prop from d = hlevel (le_prop, ℕ_set)

  Turn-mem :
      (from : ℕ) (ds : List (DetectedPass angles)) (d : DetectedPass angles)
      → Turn from ds
      → Mem d ds
      → Lasts from d
  unfolding InTurn
  Turn-mem from [] d t m = absurd (not-mem-nil m)
  Turn-mem from (x ∷ ds) d (low, order, long, lasts, rest) m =
      forall-cons (Lasts-prop from) (low, order, long, lasts)
        (λ y n.
          let (late, order', long', lasts') = Turn-mem x.set_time ds y rest n in
          (omega arith, order', long', lasts'))
        d m

  rows-Known :
      (tles : List Elements) (stations : List GroundStation) (table : List SatellitePass)
      (tle : Elements) (r : PropagationResult orbit) (s : GroundStation)
      → Mem tle tles
      → Mem s stations
      → track_of floats orbit angles frames columns settings start_time tle ≡ some r
      → All (Known tles stations table) (
          station_rows
            (row_of floats orbit angles frames columns settings start_time)
            (track_of floats orbit angles frames columns settings start_time)
            (detect floats orbit angles frames columns settings start_time)
            tle
            s
            (detect floats orbit angles frames columns settings start_time r s))
  unfolding station_rows
  rows-Known tles stations table tle r s mt ms e =
      by_found (detect floats orbit angles frames columns settings start_time r s) refl
    where
      by_found :
          (o : Option (List (DetectedPass angles)))
          → detect floats orbit angles frames columns settings start_time r s ≡ o
          → All (Known tles stations table) (
              station_rows
                (row_of floats orbit angles frames columns settings start_time)
                (track_of floats orbit angles frames columns settings start_time)
                (detect floats orbit angles frames columns settings start_time)
                tle
                s
                o)
      by_found none f p m = absurd (not-mem-nil m)
      by_found (some ds) f p m = ∥∥₁_elim (mem-map.0 m) ∨₁_prop λ (d, n, same).
          let (late, order, long, lasts) =
            Turn-mem start_time ds d (detect-Turn tle r s ds e f) n in
          subst (Known tles stations table) same (
            Or.inr record {
              time_order = order;
              duration = lasts;
              lasting = long;
              from_start = late;
              unscheduled = refl;
              satellite = ∣ (tle, mt, refl) ∣₁;
              station = ∣ (s, ms, refl) ∣₁;
            })

  -- Every row of the table that a detect_passes task leaves was in it before, or is an open row of
  -- one of the satellites at one of the active stations, that rises at the start of the window or
  -- later and before it sets, and lasts from its rise to its set and at least the least duration.
  pub detect_passes_task-IsDetected :
      (tles : List Elements) (stations : List GroundStation) (table : List SatellitePass)
      (p : SatellitePass)
      → Mem p
          (detect_passes_task floats orbit angles frames columns settings start_time tles stations
            table).0
      → Mem p table ∨₁ IsDetected tles (select (λ s. s.is_active) stations) p
  unfolding detect_active
  detect_passes_task-IsDetected tles stations table =
      by_stations (select (λ s. s.is_active) stations)
    where
      by_stations :
          (ss : List GroundStation)
          → All
              (Known tles ss table)
              (detect_active floats orbit angles frames columns settings start_time tles ss table).0
      by_stations [] = λ p m. Or.inl m
      by_stations (s ∷ ss) =
          detect_loop-All (Known tles (s ∷ ss) table) (λ p. ∨₁_prop)
            (row_of floats orbit angles frames columns settings start_time)
            (track_of floats orbit angles frames columns settings start_time)
            (detect floats orbit angles frames columns settings start_time) (s ∷ ss) tles table 0
            (λ p m. Or.inl m) (λ tle mt r e t ms. rows-Known tles (s ∷ ss) table tle r t mt ms e)
