-- ===== src/Scheduling/Optimizer/Guards.antt =====
-- What step 7 takes: part of the passes whose variable is true, one for each satellite, none of a
-- satellite scheduled before.
use mathlib.Core.List.{mem-cons, not-mem-nil, nil-sublist}
use mathlib.Core.List.Sublist
use mathlib.Core.Logic.Or
use mathlib.Core.Path.{subst}
use mathlib.Core.Logic.{∥∥₁_elim, ∥∥₁_map, ∥∥₁_prop}
use sda_system.Prelude.{
  ℕ, suc, ◌<◌, ◌≡◌, ◌≢◌, refl, sym, inl, inr, Bool, true, false, ◌||◌, List, [], ◌∷◌, Mem, Pairwise,
  Sublist, arith, Bool-cases, elem, forall-cons, length, get_or,
}
use sda_system.Scheduling.Optimizer.{Timed, extract}

-- The passes whose variable is true.
abbrev pub chosen : List Timed → List Bool → List Timed
chosen [] values = []
chosen (t ∷ ts) [] = []
chosen (t ∷ ts) (false ∷ values) = chosen ts values
chosen (t ∷ ts) (true ∷ values) = t ∷ chosen ts values

pub extract-sublist :
    (already seen : List ℕ) (ts : List Timed) (values : List Bool)
    → Sublist (extract already seen ts values) (chosen ts values)
unfolding extract
extract-sublist already seen [] values = Sublist.refl []
extract-sublist already seen (t ∷ ts) [] = Sublist.refl []
extract-sublist already seen (t ∷ ts) (false ∷ values) = extract-sublist already seen ts values
extract-sublist already seen (t ∷ ts) (true ∷ values) =
    elim (Bool-cases (elem t.pass.norad_id already || elem t.pass.norad_id seen)) [
      | inl h ↦ rw (h, extract) (Sublist.cons t (extract-sublist already seen ts values))
      | inr h ↦
          rw (h, extract)
            (Sublist.cons-cons t (extract-sublist already (t.pass.norad_id ∷ seen) ts values))
    ]

chosen-sublist : (ts : List Timed) (values : List Bool) → Sublist (chosen ts values) ts
chosen-sublist [] values = Sublist.refl []
chosen-sublist (t ∷ ts) [] = nil-sublist _
chosen-sublist (t ∷ ts) (false ∷ values) = Sublist.cons t (chosen-sublist ts values)
chosen-sublist (t ∷ ts) (true ∷ values) = Sublist.cons-cons t (chosen-sublist ts values)

pub extract-mem :
    (already seen : List ℕ) (ts : List Timed) (values : List Bool) (t : Timed)
    → Mem t (extract already seen ts values)
    → Mem t ts
extract-mem already seen ts values t m =
    Sublist.subset (chosen-sublist ts values) t
      (Sublist.subset (extract-sublist already seen ts values) t m)

abbrev Fresh : List ℕ → List ℕ → Timed → Type 0
Fresh already seen t = (elem t.pass.norad_id already ≡ false) × (elem t.pass.norad_id seen ≡ false)

Fresh-prop : (already seen : List ℕ) (t : Timed) → IsProp (Fresh already seen t)
Fresh-prop already seen t = hlevel

Fresh-seen :
    (already seen : List ℕ) (n : ℕ) (t : Timed)
    → Fresh already (n ∷ seen) t
    → Fresh already seen t × (n ≢ t.pass.norad_id)
unfolding elem
Fresh-seen already seen n t f = ((f.0, ground arith), λ e. ground arith)

-- Every pass taken is of a fresh satellite, and no two are of one.
pub extract-Fresh :
    (already seen : List ℕ) (ts : List Timed) (values : List Bool)
    → ((t : Timed) → Mem t (extract already seen ts values) → Fresh already seen t)
      × Pairwise
          (λ (s t : Timed). s.pass.norad_id ≢ t.pass.norad_id)
          (extract already seen ts values)
unfolding extract
extract-Fresh already seen [] values = (λ t m. absurd (not-mem-nil m), Pairwise.nil)
extract-Fresh already seen (t ∷ ts) [] = (λ t m. absurd (not-mem-nil m), Pairwise.nil)
extract-Fresh already seen (t ∷ ts) (false ∷ values) = extract-Fresh already seen ts values
extract-Fresh already seen (t ∷ ts) (true ∷ values) =
    elim (Bool-cases (elem t.pass.norad_id already || elem t.pass.norad_id seen)) [
      | inl h ↦ rw (h, extract) (extract-Fresh already seen ts values)
      | inr h ↦
          let (fresh, distinct) = extract-Fresh already (t.pass.norad_id ∷ seen) ts values in
          let later =
            λ (q : Timed) (m : Mem q (extract already (t.pass.norad_id ∷ seen) ts values)).
              Fresh-seen already seen t.pass.norad_id q (fresh q m) in
          rw (h, extract)
            (
              forall-cons (Fresh-prop already seen) (ground arith) (λ q m. (later q m).0),
              Pairwise.cons (λ q m. (later q m).1) distinct,
            )
    ]

-- The place of a pass whose variable is true.
chosen-place :
    (d : Timed) (ts : List Timed) (values : List Bool) (t : Timed)
    → Mem t (chosen ts values)
    → ∥ ((i : ℕ) × (i < length ts) × (get_or values i false ≡ true) × (get_or ts i d ≡ t)) ∥₁
chosen-place d [] values t m = absurd (not-mem-nil m)
chosen-place d (x ∷ ts) [] t m = absurd (not-mem-nil m)
chosen-place d (x ∷ ts) (false ∷ values) t m =
    ∥∥₁_map (chosen-place d ts values t m) λ (i, h, v, e). (suc i, omega arith, v, e)
chosen-place d (x ∷ ts) (true ∷ values) t m =
    Or.elim ∥∥₁_prop (mem-cons.0 m) (λ e. ∣ (0, omega arith, refl, sym e) ∣₁)
      (λ k. ∥∥₁_map (chosen-place d ts values t k) λ (i, h, v, e). (suc i, omega arith, v, e))

-- A relation between any two true variables holds between the passes.
pub chosen-Pairwise {κ} :
    (d : Timed) (R : Timed → Timed → Type κ) (R_prop : (s t : Timed) → IsProp (R s t))
    (ts : List Timed) (values : List Bool)
    → ((i j : ℕ)
        → i < j
        → j < length ts
        → get_or values i false ≡ true
        → get_or values j false ≡ true
        → R (get_or ts i d) (get_or ts j d))
    → Pairwise R (chosen ts values)
chosen-Pairwise d R R_prop [] values h = Pairwise.nil
chosen-Pairwise d R R_prop (t ∷ ts) [] h = Pairwise.nil
chosen-Pairwise d R R_prop (t ∷ ts) (false ∷ values) h =
    chosen-Pairwise d R R_prop ts values
      (λ i j lt le vi vj. h (suc i) (suc j) (omega arith) (omega arith) vi vj)
chosen-Pairwise d R R_prop (t ∷ ts) (true ∷ values) h =
    Pairwise.cons
      (λ q m.
        ∥∥₁_elim (chosen-place d ts values q m) (R_prop t q)
          λ (j, le, v, e). subst (R t) e (h 0 (suc j) (omega arith) (omega arith) refl v))
      (chosen-Pairwise d R R_prop ts values
        (λ i j lt le vi vj. h (suc i) (suc j) (omega arith) (omega arith) vi vj))
