-- ===== src/Scheduling/Intervals.antt =====
-- `(rise_time, set_time)` pairs, and the instants that a list of them covers.
use mathlib.Core.List.{Permᴰ}
use mathlib.Core.Logic.{∥∥₁_elim}
use mathlib.Core.Bool.{Bool-set}
use sda_system.Prelude.{
  ℕ, ◌≤◌, ◌<◌, ◌≡◌, refl, Bool, false, ◌&&◌, ◌||◌, List, [], ◌∷◌, Perm, ltb, leb, arith, ap,
}
use sda_system.Models.{SatellitePass}

pub record Interval : Type 0 where
  pub start : ℕ
  pub stop : ℕ

abbrev pub window : SatellitePass → Interval
window p = record { start = p.rise_time; stop = p.set_time }

-- The instant lies in [start, stop).
abbrev pub contains : Interval → ℕ → Bool
contains iv t = leb iv.start t && ltb t iv.stop

unfoldable pub covers : List Interval → ℕ → Bool
covers [] t = false
covers (iv ∷ ivs) t = contains iv t || covers ivs t

covers-permᴰ : {xs ys : List Interval} (t : ℕ) → Permᴰ xs ys → covers xs t ≡ covers ys t
unfolding covers
covers-permᴰ t Permᴰ.nil = refl
covers-permᴰ t (Permᴰ.cons e p) = ground (arith, covers-permᴰ t p, ap (λ iv. contains iv t) e)
covers-permᴰ t (Permᴰ.swap d e) =
    ground (arith, ap (λ iv. contains iv t) d, ap (λ iv. contains iv t) e)
covers-permᴰ t (Permᴰ.trans p q) = ground (arith, covers-permᴰ t p, covers-permᴰ t q)

pub covers-perm : {xs ys : List Interval} (t : ℕ) → Perm xs ys → covers xs t ≡ covers ys t
covers-perm t p = ∥∥₁_elim p (Bool-set _ _) (covers-permᴰ t)

-- Intervals of positive length, each from the end of the one before it.
abbrev pub Laid : ℕ → List Interval → Type 0
Laid from [] = Unit {0}
Laid from (iv ∷ ivs) = (from ≤ iv.start) × (iv.start < iv.stop) × Laid iv.stop ivs

pub covers_before :
    (from t : ℕ) (ivs : List Interval) → Laid from ivs → t < from → covers ivs t ≡ false
unfolding covers
covers_before from t [] l h = refl
covers_before from t (iv ∷ ivs) l h = ground (arith, covers_before iv.stop t ivs l.2)
