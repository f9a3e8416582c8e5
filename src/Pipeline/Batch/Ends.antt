-- ===== src/Pipeline/Batch/Ends.antt =====
-- A batch is over after four attempts for each task, and one more for each worker that is lost.
use sda_system.Prelude.{ℕ, ◌+◌, ◌<◌, Bool, List, [], ◌∷◌, length, sum_by}
use sda_system.Pipeline.Batch.{
  Attempt, succeeded, timed_out, failed, dropped, lost, reported, Limit, Batch, Step, step,
}
use sda_system.Pipeline.Batch.Taken.{weight}

-- The attempts that a batch has left at the most, if no worker is lost.
abbrev work : Batch → ℕ
work b = sum_by weight b.pending

-- The attempt ends with its worker, and its task is delivered again.
unfoldable pub losses_of : Attempt → ℕ
losses_of succeeded = 0
losses_of timed_out = 0
losses_of failed = 0
losses_of dropped = 0
losses_of lost = 1
losses_of (reported d a) = losses_of a

unfoldable pub losses : List Step → ℕ
losses [] = 0
losses (s ∷ ss) = losses_of s.attempt + losses ss

module _ (limit : Limit) (has_key : Bool) where
  -- Each event ends an attempt of a task that is pending.
  unfoldable pub AllPending : Batch → List Step → Type 0
  AllPending b [] = Unit {0}
  AllPending b (s ∷ ss) = (s.task < length b.pending) × AllPending (step limit has_key b s) ss
