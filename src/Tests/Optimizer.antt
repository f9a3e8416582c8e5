-- ===== src/Tests/Optimizer.antt =====
-- The second stage on the sample, with a solver that takes the first variable alone.
use mathlib.Core.Bool.{false≢true}
use mathlib.Core.Option
use mathlib.Core.Path.{subst}
use sda_system.Prelude.{
  ℕ, zero, suc, ◌≡◌, refl, sym, ◌∙◌, arith, Bool, true, false, Option, some, List, [], ◌∷◌, String,
  get_or,
}
use sda_system.Prelude.Sorting.{by_key}
use sda_system.Models.{SatellitePass}
use sda_system.Scheduling.Intervals.{Interval}
use sda_system.Scheduling.Optimizer.{Program, plan_of, fits_in_any_slot, optimize_remaining}
use sda_system.Scheduling.Optimizer.Fits.{fits_some, fits_in_any_slot-fits_some}
use sda_system.Scheduling.Optimizer.Solved.{SolverLaws, IsPlan, optimize_remaining-IsPlan}
use sda_system.Tests.Sample.{middle}

abbrev pub first_alone : Program → Option (List Bool)
first_alone program = some (true ∷ [])

only_first : (i : ℕ) → get_or (true ∷ []) i false ≡ true → i ≡ 0
only_first zero h = refl
only_first (suc i) h = absurd (false≢true h)

pub first_alone-SolverLaws : SolverLaws first_alone
first_alone-SolverLaws = record {
  no_overlap = λ program values e g known i j mi mj differ vi vj d.
      let same = Option.some_inj.0 e in
      absurd (
        differ (
          only_first i (subst (λ v. get_or v i false ≡ true) (sym same) vi)
          ∙ sym (only_first j (subst (λ v. get_or v j false ≡ true) (sym same) vj))));
}

abbrev slots : List Interval
slots = record { start = 0; stop = 20 } ∷ record { start = 20; stop = 60 } ∷ []

fits_in_any_slot-fits_some_example : fits_in_any_slot 25 50 slots ≡ fits_some 25 50 slots
fits_in_any_slot-fits_some_example =
    fits_in_any_slot-fits_some 25 50 0 slots (omega arith)
      (omega arith, omega arith, (omega arith, omega arith, tt))

abbrev free : List (String × List Interval)
free = ("GS-01", record { start = 0; stop = 60_000_000 } ∷ []) ∷ []

abbrev pub by_id : SatellitePass → SatellitePass → Bool
by_id = by_key (λ p. p.id)

abbrev long_pass : SatellitePass
long_pass = record middle { rise_time = 2_000_000; set_time = 8_000_000 }

optimize_remaining-IsPlan_example :
    (picked : List SatellitePass) × (optimize_remaining first_alone by_id
        (long_pass ∷ [])
        (1 ∷ [])
        0
        9_000_000
        free
      ≡ plan_of (long_pass ∷ []) picked)
    × IsPlan (long_pass ∷ []) (1 ∷ []) 0 9_000_000 free picked
optimize_remaining-IsPlan_example =
    optimize_remaining-IsPlan first_alone first_alone-SolverLaws by_id (long_pass ∷ []) (1 ∷ []) 0
      9_000_000 free
