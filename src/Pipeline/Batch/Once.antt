-- ===== src/Pipeline/Batch/Once.antt =====
-- How often run_greedy is started for a batch.
use sda_system.Prelude.{ℕ, ◌+◌, ◌-◌, ◌≤◌, ◌≡◌, Bool, true, false, length, ◌↔◌}
use sda_system.Pipeline.Batch.{undelivered, Batch}

-- With a key: `held` tasks are taken out, of n in all. The counter stands for what is pending, taken out or
-- unreported, less the repeats; and every decrement from the one that brings it to 0 calls for a
-- start. Without one, every report is a start.
abbrev Accounts : (n : ℕ) → (has_key : Bool) → (held : ℕ) → Batch → Type 0
Accounts n true held b =
    (b.initial ≡ n)
    × (b.decrements + length b.pending + b.unreported + held ≡ b.initial + b.repeats)
    × (b.greedy_runs + b.undelivered ≡ b.decrements + 1 - b.initial)
Accounts n false held b =
    (b.initial ≡ n)
    × (b.greedy_runs + length b.pending + b.unreported + held ≡ b.initial + b.repeats)

-- The starts of run_greedy for a batch of n tasks.
pub record IsStarted (b : Batch) : Type 0 where
  pub starts : b.greedy_runs + b.undelivered ≡ b.repeats + 1 - (length b.pending + b.unreported)
  pub once :
      b.repeats ≡ 0
      → (b.greedy_runs ≤ 1)
        × ((b.greedy_runs ≡ 1)
            ↔ ((length b.pending ≡ 0) × (b.unreported ≡ 0) × (b.undelivered ≡ 0)))
