-- ===== src/Propagation/Engine/Valid.antt =====
-- What a usable result hands on to the pass detector.
use mathlib.Core.Path.{subst}
use sda_system.Prelude.{
  ℕ, zero, suc, ◌*◌, ◌≤◌, ◌<◌, ◌≡◌, refl, sym, ap, ◌∙◌, inl, inr, Bool, true, false, not, ◌&&◌,
  Option, none, some, List, [], ◌∷◌, map, length, all, select, ltb, leb, ◌==◌, Bool-cases, ◌≢◌,
  arith,
}
use sda_system.Ingestion.Tle.{Line, Floats}
use sda_system.Propagation.Engine.{
  FormatError, validate_tle_format, Orbit, time_grid, zeros, error_codes_of, any_decay, masked,
  count_true, PropagationResult, valid_positions, valid_times, is_usable, mask_of, nan_filled,
  result_of, propagate_checked, propagate,
}

-- Skyfield gives a position for each time.
abbrev pub OrbitLaws : Orbit → Type 0
OrbitLaws orbit =
    (line1 line2 : Line) (times : List ℕ)
    → length (orbit.positions_at line1 line2 times) ≡ length times

-- One step: its position, its time and its code.
pub record Sample (P : Type 0) : Type 0 where
  pub position : P
  pub time : ℕ
  pub code : ℕ

unfoldable pub samples : {P : Type 0} → List P → List ℕ → List ℕ → List (Sample P)
samples (p ∷ ps) (t ∷ ts) (c ∷ cs) = record { position = p; time = t; code = c } ∷ samples ps ts cs
samples (p ∷ ps) (t ∷ ts) [] = []
samples (p ∷ ps) [] cs = []
samples [] ts cs = []

unfoldable pub pairs : {P : Type 0} → List P → List ℕ → List (P × ℕ)
pairs [] ts = []
pairs (p ∷ ps) [] = []
pairs (p ∷ ps) (t ∷ ts) = (p, t) ∷ pairs ps ts

length-zeros : (n : ℕ) → length (zeros n) ≡ n
unfolding zeros
length-zeros zero = refl
length-zeros (suc n) = ap suc (length-zeros n)

length-error_codes_of : (n : ℕ) (o : Option (List ℕ)) → length (error_codes_of n o) ≡ n
unfolding error_codes_of
length-error_codes_of n none = length-zeros n
length-error_codes_of n (some codes) = elim (Bool-cases (length codes == n)) [
  | inl e ↦ rw e (ground arith)
  | inr e ↦ rw e (length-zeros n)
]

all-zeros : (n : ℕ) → all (λ c. c == 0) (zeros n) ≡ true
unfolding zeros all
all-zeros zero = refl
all-zeros (suc n) = all-zeros n

-- The codes are those that sgp4_array returned, where it returned one for each of the n steps, and
-- all 0 where it raised or returned another number of them.
pub record AreCodesOf (reply : Option (List ℕ)) (n : ℕ) (codes : List ℕ) : Type 0 where
  pub returned : (cs : List ℕ) → reply ≡ some cs → length cs ≡ n → codes ≡ cs
  pub otherwise : ((cs : List ℕ) → reply ≡ some cs → length cs ≢ n) → all (λ c. c == 0) codes ≡ true

error_codes_of-AreCodesOf :
    (n : ℕ) (reply : Option (List ℕ)) → AreCodesOf reply n (error_codes_of n reply)
unfolding error_codes_of
error_codes_of-AreCodesOf n none = record {
  returned = λ cs e h. absurd (cc);
  otherwise = λ h. all-zeros n;
}
error_codes_of-AreCodesOf n (some codes) = elim (Bool-cases (length codes == n)) [
  | inl e ↦
      let size : length codes ≡ n = ground (arith, e) in
      rw e record { returned = λ cs h k. cc; otherwise = λ h. absurd (h codes refl size) }
  | inr e ↦ rw e record {
    returned =
        λ cs h k. let same : codes ≡ cs = cc in absurd (ground (arith, e, k, ap length same));
    otherwise = λ h. all-zeros n;
  }
]

module _ (orbit : Orbit) where
  -- The step has a finite position and no error.
  abbrev pub is_good : Sample orbit.Position → Bool
  is_good s = orbit.is_finite s.position && s.code == 0

  abbrev pub good_pairs : List (Sample orbit.Position) → List (orbit.Position × ℕ)
  good_pairs l = map (λ (s : Sample orbit.Position). (s.position, s.time)) (select is_good l)

  length-mask_of :
      (ps : List orbit.Position) (cs : List ℕ)
      → length ps ≡ length cs
      → length (mask_of orbit ps cs) ≡ length cs
  unfolding mask_of
  length-mask_of [] [] h = refl
  length-mask_of [] (c ∷ cs) h = absurd (omega arith)
  length-mask_of (p ∷ ps) [] h = absurd (omega arith)
  length-mask_of (p ∷ ps) (c ∷ cs) h = ap suc (length-mask_of ps cs (omega arith))

  masked-pairs :
      (ps : List orbit.Position) (ts cs : List ℕ)
      → length ps ≡ length ts
      → length cs ≡ length ts
      → pairs
          (masked (nan_filled orbit ps (mask_of orbit ps cs)) (mask_of orbit ps cs))
          (masked ts (mask_of orbit ps cs))
        ≡ good_pairs (samples ps ts cs)
  unfolding pairs masked nan_filled mask_of samples select
  masked-pairs [] ts cs h k = refl
  masked-pairs (p ∷ ps) [] cs h k = absurd (omega arith)
  masked-pairs (p ∷ ps) (t ∷ ts) [] h k = absurd (omega arith)
  masked-pairs (p ∷ ps) (t ∷ ts) (c ∷ cs) h k =
      let rest = masked-pairs ps ts cs (omega arith) (omega arith) in
      elim (Bool-cases (orbit.is_finite p && c == 0)) [
        | inl e ↦ rw e (ap (◌∷◌ (p, t)) rest)
        | inr e ↦ rw e rest
      ]

  masked-counts :
      (ps : List orbit.Position) (ts : List ℕ) (mask : List Bool)
      → length ps ≡ length ts
      → length mask ≡ length ts
      → (length (masked (nan_filled orbit ps mask) mask) ≡ length (masked ts mask))
        × (length (masked ts mask) ≡ count_true mask)
  unfolding masked nan_filled count_true
  masked-counts [] [] mask h k = (refl, no_more mask k)
    where
      no_more : (m : List Bool) → length m ≡ 0 → 0 ≡ count_true m
      no_more [] e = refl
      no_more (v ∷ m) e = absurd (omega arith)
  masked-counts [] (t ∷ ts) mask h k = absurd (omega arith)
  masked-counts (p ∷ ps) [] mask h k = absurd (omega arith)
  masked-counts (p ∷ ps) (t ∷ ts) [] h k = absurd (omega arith)
  masked-counts (p ∷ ps) (t ∷ ts) (true ∷ mask) h k =
      omega (arith, masked-counts ps ts mask (omega arith) (omega arith))
  masked-counts (p ∷ ps) (t ∷ ts) (false ∷ mask) h k =
      omega (arith, masked-counts ps ts mask (omega arith) (omega arith))

  -- What the pass detector gets of a usable result, from the positions and what sgp4_array comes to.
  pub record IsValidRun (r : PropagationResult orbit) (raw : List orbit.Position)
      (reply : Option (List ℕ)) (grid : List ℕ) : Type 0 where
    pub coded : AreCodesOf reply (length grid) r.error_codes
    pub on_grid : r.times ≡ grid
    pub aligned : length (valid_positions orbit r) ≡ length (valid_times orbit r)
    pub enough : 9 * length grid ≤ 10 * length (valid_times orbit r)
    pub some_left : 0 < length (valid_times orbit r)
    pub good :
        pairs (valid_positions orbit r) (valid_times orbit r)
        ≡ good_pairs (samples raw grid r.error_codes)
    pub not_decayed : any_decay r.error_codes ≡ false

  result_of-IsValidRun :
      (norad_id : ℕ) (grid : List ℕ) (raw : List orbit.Position) (reply : Option (List ℕ))
      (codes : List ℕ)
      → AreCodesOf reply (length grid) codes
      → length raw ≡ length grid
      → length codes ≡ length grid
      → is_usable orbit (result_of orbit norad_id grid raw codes) ≡ true
      → IsValidRun (result_of orbit norad_id grid raw codes) raw reply grid
  unfolding result_of is_usable
  result_of-IsValidRun norad_id grid raw reply codes from h k u =
      let mask = mask_of orbit raw codes in
      let size : length mask ≡ length codes = length-mask_of raw codes (h ∙ sym k) in
      let counts = masked-counts raw grid mask h (size ∙ k) in
      let usable = usable_parts (any_decay codes) (length mask) (count_true mask) u in
      record {
        coded = from;
        on_grid = refl;
        aligned = counts.0;
        enough = omega (arith, counts.1, usable.2, size);
        some_left = omega (arith, counts.1, usable.1, usable.2);
        good = masked-pairs raw grid codes h k;
        not_decayed = usable.0;
      }
    where
      usable_parts :
          (d : Bool) (n c : ℕ)
          → (not d && ltb 0 n && leb (9 * n) (10 * c)) ≡ true
          → (d ≡ false) × (0 < n) × (9 * n ≤ 10 * c)
      usable_parts d n c e = (ground (arith, e), ground (arith, e), ground (arith, e))

  -- A result of propagate that is usable covers the time grid: at nine tenths of its steps or more,
  -- and at one at least, a position is handed on together with the time of its step; these are the
  -- steps, in order, whose position is finite and whose code is 0, and no step has the code of decay.
  -- The codes are those of sgp4_array, where it returns one for each step; where it raises or
  -- returns another number of them, they are all 0.
  pub propagate-IsValidRun :
      OrbitLaws orbit
      → (floats : Floats) (line1 line2 : Line) (norad_id start_time days step : ℕ)
        (r : PropagationResult orbit)
      → propagate orbit floats line1 line2 norad_id start_time days step ≡ some r
      → is_usable orbit r ≡ true
      → IsValidRun r
          (orbit.positions_at line1 line2 (time_grid start_time days step))
          (orbit.sgp4_array line1 line2 (time_grid start_time days step))
          (time_grid start_time days step)
  unfolding propagate propagate_checked
  propagate-IsValidRun laws floats line1 line2 norad_id start_time days step r e u =
      by_check (validate_tle_format floats line1 line2) e
    where
      grid : List ℕ
      grid = time_grid start_time days step

      made : PropagationResult orbit
      made =
          result_of orbit norad_id grid (orbit.positions_at line1 line2 grid)
            (error_codes_of (length grid) (orbit.sgp4_array line1 line2 grid))

      some_inj : {a b : PropagationResult orbit} → some a ≡ some b → a ≡ b
      some_inj h = cc

      by_check :
          (o : Option FormatError)
          → propagate_checked orbit o line1 line2 norad_id grid ≡ some r
          → IsValidRun r
              (orbit.positions_at line1 line2 grid)
              (orbit.sgp4_array line1 line2 grid)
              grid
      by_check (some x) h = absurd (cc)
      by_check none h =
          let same : made ≡ r = some_inj h in
          subst
            (λ (q : PropagationResult orbit).
              IsValidRun q (orbit.positions_at line1 line2 grid) (orbit.sgp4_array line1 line2 grid)
                grid)
            same
            (result_of-IsValidRun norad_id grid (orbit.positions_at line1 line2 grid)
              (orbit.sgp4_array line1 line2 grid)
              (error_codes_of (length grid) (orbit.sgp4_array line1 line2 grid))
              (error_codes_of-AreCodesOf (length grid) (orbit.sgp4_array line1 line2 grid))
              (laws line1 line2 grid)
              (length-error_codes_of (length grid) (orbit.sgp4_array line1 line2 grid))
              (subst (λ q. is_usable orbit q ≡ true) (sym same) u))
