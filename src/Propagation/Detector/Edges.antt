-- ===== src/Propagation/Detector/Edges.antt =====
-- The index pairs are the maximal runs of samples above the mask.
use mathlib.Core.Path.{subst}
use sda_system.Prelude.{
  ℕ, zero, suc, ◌+◌, ◌<◌, ◌≡◌, refl, sym, ap, ◌∙◌, Bool, true, false, ◌&&◌, ◌||◌, Option, none,
  some, List, [], ◌∷◌, length, ltb, leb, ◌==◌, get_or, arith,
}
use sda_system.Scheduling.Intervals.{Interval, covers}
use sda_system.Scheduling.Slots.Merge.{Separated, IsMerged}
use sda_system.Propagation.Detector.{rise_indices, set_indices, zip_indices, index_pairs}

abbrev run_of : ℕ → ℕ → Interval
run_of s i = record { start = s; stop = i }

-- The same in one pass: `some s` while above since index s.
runs : Option ℕ → ℕ → List Bool → List Interval
runs none i [] = []
runs none i (true ∷ l) = runs (some i) (i + 1) l
runs none i (false ∷ l) = runs none (i + 1) l
runs (some s) i [] = run_of s i ∷ []
runs (some s) i (true ∷ l) = runs (some s) (i + 1) l
runs (some s) i (false ∷ l) = run_of s i ∷ runs none (i + 1) l

zip-runs :
    (i : ℕ) (l : List Bool)
    → (zip_indices (rise_indices false i l) (set_indices false i l) ≡ runs none i l)
      × ((s : ℕ)
          → zip_indices (s ∷ rise_indices true i l) (set_indices true i l) ≡ runs (some s) i l)
unfolding runs rise_indices set_indices zip_indices
zip-runs i [] = (refl, λ s. refl)
zip-runs i (true ∷ l) = let (off, on) = zip-runs (i + 1) l in (on i, on)
zip-runs i (false ∷ l) = let (off, on) = zip-runs (i + 1) l in (off, λ s. ap (◌∷◌ (run_of s i)) off)

-- The sample of an index, in a list that begins at index i.
above_at : ℕ → List Bool → ℕ → Bool
above_at i [] t = false
above_at i (b ∷ l) t = (i == t && b) || above_at (i + 1) l t

above_before : (i : ℕ) (l : List Bool) (t : ℕ) → t < i → above_at i l t ≡ false
unfolding above_at
above_before i [] t h = refl
above_before i (b ∷ l) t h = ground (arith, above_before (i + 1) l t)

above_at-get_or : (i : ℕ) (l : List Bool) (t : ℕ) → above_at i l (i + t) ≡ get_or l t false
unfolding above_at
above_at-get_or i [] t = refl
above_at-get_or i (b ∷ l) zero = ground (arith, above_before (i + 1) l (i + 0))
above_at-get_or i (b ∷ l) (suc t) =
    let shift : i + suc t ≡ i + 1 + t = omega arith in
    let rest = above_at-get_or (i + 1) l t in rw shift (ground arith)

runs-covers :
    (i : ℕ) (l : List Bool) (t : ℕ)
    → (covers (runs none i l) t ≡ above_at i l t)
      × ((s : ℕ) → s < i → covers (runs (some s) i l) t ≡ ((leb s t && ltb t i) || above_at i l t))
unfolding runs covers above_at
runs-covers i [] t = (refl, λ s h. refl)
runs-covers i (true ∷ l) t =
    let (off, on) = runs-covers (i + 1) l t in
    (on i (omega arith) ∙ ground arith, λ s h. on s (omega arith) ∙ ground arith)
runs-covers i (false ∷ l) t =
    let (off, on) = runs-covers (i + 1) l t in (off ∙ ground arith, λ s h. ground arith)

runs-Separated :
    (i from e : ℕ) (l : List Bool)
    → i + length l ≡ e
    → (from < i → Separated e from (runs none i l))
      × ((s : ℕ) → from < s → s < i → Separated e from (runs (some s) i l))
unfolding runs
runs-Separated i from e [] q = (λ h. tt, λ s h k. (h, k, omega arith, tt))
runs-Separated i from e (true ∷ l) q =
    let (off, on) = runs-Separated (i + 1) from e l (omega arith) in
    (λ h. on i h (omega arith), λ s h k. on s h (omega arith))
runs-Separated i from e (false ∷ l) q =
    let (off, on) = runs-Separated (i + 1) from e l (omega arith) in
    let (after, more) = runs-Separated (i + 1) i e l (omega arith) in
    (λ h. off (omega arith), λ s h k. (h, k, omega arith, after (omega arith)))

runs-IsMerged :
    (i e : ℕ) (l : List Bool)
    → i + length l ≡ e
    → IsMerged e (runs none i l) × ((s : ℕ) → s < i → IsMerged e (runs (some s) i l))
unfolding runs
runs-IsMerged i e [] q = (tt, λ s k. (k, omega arith, tt))
runs-IsMerged i e (true ∷ l) q =
    let (off, on) = runs-IsMerged (i + 1) e l (omega arith) in
    (on i (omega arith), λ s k. on s (omega arith))
runs-IsMerged i e (false ∷ l) q =
    let (off, on) = runs-IsMerged (i + 1) e l (omega arith) in
    let (after, more) = runs-Separated (i + 1) i e l (omega arith) in
    (off, λ s k. (k, omega arith, after (omega arith)))

pub index_pairs-IsMerged : (above : List Bool) → IsMerged (length above) (index_pairs above)
index_pairs-IsMerged above =
    subst (IsMerged (length above)) (sym (zip-runs 0 above).0)
      (runs-IsMerged 0 (length above) above (omega arith)).0

-- The index pairs, taken as intervals, contain an index exactly when its sample is above; each is
-- nonempty and ends by the number of samples, and between each and the next one there is a sample
-- that is not above.
pub index_pairs-runs :
    (above : List Bool)
    → ((t : ℕ) → covers (index_pairs above) t ≡ get_or above t false)
      × IsMerged (length above) (index_pairs above)
index_pairs-runs above = (
  λ t.
      ap (λ ws. covers ws t) (zip-runs 0 above).0
      ∙ (runs-covers 0 above t).0
      ∙ (let zero_add : 0 + t ≡ t = omega arith in ap (above_at 0 above) (sym zero_add))
      ∙ above_at-get_or 0 above t,
  index_pairs-IsMerged above,
)
