-- ===== src/Scheduling/Edf/Optimal.antt =====
-- schedule_edf returns a conflict-free selection of its input, and none is longer.
use mathlib.Core.List.{mem-cons_self}
use mathlib.Core.List.Perm
use mathlib.Core.List.Sublist
use mathlib.Core.List.Sublistᴰ
use mathlib.Core.Path.{subst}
use mathlib.Core.Logic.{∥∥₁_elim}
use sda_system.Prelude.{
  ℕ, suc, ◌≤◌, ◌≡◌, inl, inr, true, List, [], ◌∷◌, Mem, Pairwise, Sublist, Sublistᴰ, Subperm, arith,
  le_prop, length, length-perm, leb, leb→le, le→leb, Bool-cases,
}
use sda_system.Prelude.Sorting.{sorted, sorted-perm, sorted-IsSorted, by_key-IsTotal, IsSorted}
use sda_system.Models.{SatellitePass, ConflictFree}
use sda_system.Scheduling.Selection.{
  by_set, Follows, Follows-mono, AllMeetChecks, InOrder-of_subperm, Follows→ConflictFree,
  AllMeetChecks-subperm,
}
use sda_system.Scheduling.Edf.{edf_scan, schedule_edf}

edf_scan-Follows : (last_end : ℕ) (l : List SatellitePass) → Follows last_end (edf_scan last_end l)
unfolding edf_scan
edf_scan-Follows last_end [] = tt
edf_scan-Follows last_end (p ∷ ps) = elim (Bool-cases (leb last_end p.rise_time)) [
  | inl h ↦ rw (h, edf_scan) (leb→le _ _ h, edf_scan-Follows p.set_time ps)
  | inr h ↦ rw (h, edf_scan) (edf_scan-Follows last_end ps)
]

edf_scan-sublist : (last_end : ℕ) (l : List SatellitePass) → Sublist (edf_scan last_end l) l
unfolding edf_scan
edf_scan-sublist last_end [] = Sublist.refl []
edf_scan-sublist last_end (p ∷ ps) = elim (Bool-cases (leb last_end p.rise_time)) [
  | inl h ↦ rw (h, edf_scan) (Sublist.cons-cons p (edf_scan-sublist p.set_time ps))
  | inr h ↦ rw (h, edf_scan) (Sublist.cons p (edf_scan-sublist last_end ps))
]

-- No selection of `l` that starts after `from` is longer than the loop's.
abbrev TakesMost : List SatellitePass → Type 0
TakesMost l =
    (from : ℕ) (t : List SatellitePass)
    → Sublistᴰ t l
    → Follows from t
    → length t ≤ length (edf_scan from l)

module _ (x : SatellitePass) (xs : List SatellitePass)
    (below : (p : SatellitePass) → Mem p xs → by_set x p ≡ true) (ih : TakesMost xs) where
  -- The head is passed over: what the selection takes ends no earlier than the head does.
  longest_skip :
      (from : ℕ) (t : List SatellitePass)
      → Sublistᴰ t xs
      → Follows from t
      → length t ≤ length (edf_scan from (x ∷ xs))
  unfolding edf_scan
  longest_skip from [] d f = omega arith
  longest_skip from (y ∷ t) d f = elim (Bool-cases (leb from x.rise_time)) [
    | inl h ↦
        let later =
          leb→le x.set_time y.set_time (below y (Sublist.subset ∣ d ∣₁ y mem-cons_self)) in
        let rest = Sublistᴰ.trans (Sublistᴰ.cons (Sublistᴰ.refl t)) d in
        rw (h, edf_scan) (omega (arith, ih x.set_time t rest (Follows-mono _ _ t later f.1)))
    | inr h ↦ rw (h, edf_scan) (ih from (y ∷ t) d f)
  ]

  longest_keep :
      (from : ℕ) (t : List SatellitePass)
      → Sublistᴰ t xs
      → Follows from (x ∷ t)
      → suc (length t) ≤ length (edf_scan from (x ∷ xs))
  unfolding edf_scan
  longest_keep from t d f = rw (le→leb _ _ f.0, edf_scan) (omega (arith, ih x.set_time t d f.1))

edf_scan-longest : (l : List SatellitePass) → IsSorted by_set l → TakesMost l
edf_scan-longest [] s from t d f = rw (Sublistᴰ.eq-nil d) (omega arith)
edf_scan-longest (x ∷ xs) (Pairwise.cons below s) from t d f =
    let ih = edf_scan-longest xs s in
    elim (Sublistᴰ.cases_cons d) [
      | inl d' ↦ longest_skip x xs below ih from t d' f
      | inr (r, e, d') ↦ rw e (longest_keep x xs below ih from r d' (subst (Follows from) e f))
    ]

-- `result` is a conflict-free selection of `passes`, and no other has more passes.
pub record IsLongest (passes result : List SatellitePass) : Type 0 where
  pub selected : Subperm result passes
  pub free : ConflictFree result
  pub longest :
      (t : List SatellitePass) → Subperm t passes → ConflictFree t → length t ≤ length result

-- On well-formed passes schedule_edf returns a conflict-free selection of its input, and no
-- conflict-free selection of the input has more passes.
pub schedule_edf-IsLongest :
    (passes : List SatellitePass) → AllMeetChecks passes → IsLongest passes (schedule_edf passes)
unfolding schedule_edf
schedule_edf-IsLongest passes checks =
    let ordered = sorted-IsSorted by_set (by_key-IsTotal _) passes in
    let picked = edf_scan-sublist 0 (sorted by_set passes) in
    let selected = (Perm.Subperm-left (sorted-perm by_set passes)).0 (Sublist.subperm picked) in
    let follows = edf_scan-Follows 0 (sorted by_set passes) in
    record {
      selected = selected;
      free = (Follows→ConflictFree 0 _ follows (AllMeetChecks-subperm selected checks)).0;
      longest = λ t sub free. ∥∥₁_elim (InOrder-of_subperm t passes checks sub free) le_prop λ o.
          let most = edf_scan-longest (sorted by_set passes) ordered 0 o.picked o.kept o.follows in
          omega (arith, most, length-perm o.same);
    }
