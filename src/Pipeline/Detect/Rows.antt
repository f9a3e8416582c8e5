-- ===== src/Pipeline/Detect/Rows.antt =====
-- The rows that the loops of detect_passes insert, and the times that they start from.
use mathlib.Core.List.{mem-cons, mem-cons_self, mem-append, not-mem-nil}
use mathlib.Core.Logic.Or
use sda_system.Prelude.{
  ℕ, zero, suc, ◌+◌, ◌*◌, ◌≤◌, ◌≡◌, refl, Bool, true, false, Option, none, some, List, [], ◌∷◌,
  ◌++◌, Mem, length, arith, if◌then◌else◌, forall-cons,
}
use sda_system.Models.{SatellitePass, GroundStation}
use sda_system.Propagation.Engine.{masked, grid_from, second}
use sda_system.Propagation.Detector.Crossings.{Ascending}
use sda_system.Pipeline.Upsert.{
  has_pass, bulk_upsert_passes, station_rows, tle_rows, tle_round, detect_loop,
}

-- Every row of the list has the property.
abbrev pub All : (SatellitePass → Type 0) → List SatellitePass → Type 0
All P l = (p : SatellitePass) → Mem p l → P p

module _ (P : SatellitePass → Type 0) (prop : (p : SatellitePass) → IsProp (P p)) where
  All-append : (xs ys : List SatellitePass) → All P xs → All P ys → All P (xs ++ ys)
  All-append xs ys hx hy p m = Or.elim (prop p) (mem-append.0 m) (hx p) (hy p)

  All-upsert :
      (table rows : List SatellitePass)
      → All P table
      → All P rows
      → All P (bulk_upsert_passes table rows)
  unfolding bulk_upsert_passes
  All-upsert table [] ht hr = ht
  All-upsert table (q ∷ rows) ht hr =
      All-upsert (if has_pass q table then table else table ++ q ∷ []) rows
        (by_test (has_pass q table)) (λ p m. hr p (mem-cons.1 (Or.inr m)))
    where
      by_test : (b : Bool) → All P (if b then table else table ++ q ∷ [])
      by_test true = ht
      by_test false =
          All-append table (q ∷ []) ht
            (forall-cons prop (hr q mem-cons_self) (λ p m. absurd (not-mem-nil m)))

  module _ {T K D : Type 0} (row : T → GroundStation → D → SatellitePass) (track : T → Option K)
      (found : K → GroundStation → Option (List D)) where
    tle_rows-All :
        (tle : T) (k : K) (stations : List GroundStation)
        → ((s : GroundStation)
            → Mem s stations
            → All P (station_rows row track found tle s (found k s)))
        → All P (tle_rows row track found tle k stations)
    unfolding tle_rows
    tle_rows-All tle k [] each = λ p m. absurd (not-mem-nil m)
    tle_rows-All tle k (s ∷ ss) each =
        All-append (station_rows row track found tle s (found k s))
          (tle_rows row track found tle k ss) (each s mem-cons_self)
          (tle_rows-All tle k ss λ t m. each t (mem-cons.1 (Or.inr m)))

    -- What is true of the rows of each satellite at each station is true of those of the table.
    pub detect_loop-All :
        (stations : List GroundStation) (tles : List T) (table : List SatellitePass) (n : ℕ)
        → All P table
        → ((tle : T)
            → Mem tle tles
            → (k : K) → track tle ≡ some k
            → (s : GroundStation) → Mem s stations
            → All P (station_rows row track found tle s (found k s)))
        → All P (detect_loop row track found stations tles (table, n)).0
    unfolding detect_loop
    detect_loop-All stations [] table n ht each = ht
    detect_loop-All stations (tle ∷ tles) table n ht each =
        by_track (track tle) refl
          λ t m h. detect_loop-All stations tles t m h λ u mu. each u (mem-cons.1 (Or.inr mu))
      where
        by_track :
            (o : Option K)
            → track tle ≡ o
            → ((t : List SatellitePass) (m : ℕ)
                → All P t
                → All P (detect_loop row track found stations tles (t, m)).0)
            → All P
                (detect_loop row track found stations tles
                  (tle_round row track found stations tle o (table, n))).0
        by_track none e later = unfold tle_round in later table n ht
        by_track (some k) e later =
            unfold tle_round in
            later (bulk_upsert_passes table (tle_rows row track found tle k stations))
              (n + length (tle_rows row track found tle k stations))
              (All-upsert table (tle_rows row track found tle k stations) ht
                (tle_rows-All tle k stations (each tle mem-cons_self k e)))

-- The grid does not fall, and neither do the steps that are kept of it.
pub grid_from-Ascending :
    (start step i n from : ℕ)
    → from ≤ start + i * step * second
    → Ascending from (grid_from start step i n)
unfolding grid_from Ascending
grid_from-Ascending start step i zero from h = tt
grid_from-Ascending start step i (suc n) from h =
    (h, grid_from-Ascending start step (i + 1) n (start + i * step * second) (later start step i))
  where
    later : (start step i : ℕ) → start + i * step * second ≤ start + (i + 1) * step * second
    later start step i =
        let more : (i + 1) * step ≡ i * step + step = omega arith in rw more (omega arith)

pub Ascending-lower : (a b : ℕ) (ts : List ℕ) → a ≤ b → Ascending b ts → Ascending a ts
unfolding Ascending
Ascending-lower a b [] h k = tt
Ascending-lower a b (t ∷ ts) h k = (omega (arith, k.0), k.1)

pub masked-Ascending :
    (from : ℕ) (ts : List ℕ) (mask : List Bool)
    → Ascending from ts
    → Ascending from (masked ts mask)
unfolding masked Ascending
masked-Ascending from [] mask h = tt
masked-Ascending from (t ∷ ts) [] h = tt
masked-Ascending from (t ∷ ts) (true ∷ mask) h = (h.0, masked-Ascending t ts mask h.1)
masked-Ascending from (t ∷ ts) (false ∷ mask) h =
    Ascending-lower from t (masked ts mask) h.0 (masked-Ascending t ts mask h.1)
