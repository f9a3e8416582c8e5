-- ===== src/Pipeline/Batch.antt =====
-- workers/celery_app.py: a batch of detect_passes tasks and the counter that starts run_greedy, with
-- the retries of a task. Celery and Redis are not part of the repository: what an attempt and a DECR
-- come to are arguments, and so is what `self.retry(exc=…)` raises past its limit (`Limit`). The key of
-- the counter lives for a day: what is modelled is a batch that is over before.
pub mod Taken
pub mod Reported
pub mod Once
pub mod Ends
use sda_system.Prelude.{
  ℕ, zero, suc, ◌+◌, ◌^◌, Bool, true, false, Option, none, some, List, [], ◌∷◌, length, take, drop,
  min, max, ◌||◌, ltb, leb, if◌then◌else◌,
}

-- `_MAX_RETRY_COUNTDOWN`, and `max_retries` of the tasks.
abbrev pub max_retry_countdown : ℕ
max_retry_countdown = 300

abbrev pub max_retries : ℕ
max_retries = 3

-- `_countdown`
unfoldable pub countdown : ℕ → ℕ
countdown retries = min max_retry_countdown (max 2 (2 ^ retries))

-- What `_propagate_counter_decr` comes to: its DECR is answered, and run_greedy is sent where it is
-- called for; the DECR is done, but the answer is lost or `run_greedy.delay` raises; or the DECR
-- raises before it is done. Without a key there is no DECR, and `delay` goes through or raises.
pub data Decr : Type 0 where
  answered undelivered raised : Decr

-- How an attempt of a task ends: with a result; with SoftTimeLimitExceeded; with another exception;
-- without a report, as at the hard time limit or where a retry cannot be sent; or with its worker
-- (`task_acks_late`, `task_reject_on_worker_lost`), after which it is delivered again. An attempt
-- that called `_propagate_counter_decr` may still go on to one of the other ends.
pub data Attempt : Type 0 where
  succeeded timed_out failed dropped lost : Attempt
  reported : Decr → Attempt → Attempt

-- What `self.retry` raises when the retries are used up: MaxRetriesExceededError, or the exception
-- that it was given.
pub data Limit : Type 0 where
  max_retries_exceeded original : Limit

-- The counter holds the integer `initial - decrements`. A task that has not ended is pending, with
-- its retries so far. `unreported` counts the tasks that ended without a report or were never sent,
-- `repeats` the reports of attempts that did not end with them, and `undelivered` the starts of
-- run_greedy that failed.
pub record Batch : Type 0 where
  pub initial : ℕ
  pub decrements : ℕ
  pub pending : List ℕ
  pub unreported : ℕ
  pub repeats : ℕ
  pub undelivered : ℕ
  pub greedy_runs : ℕ

-- `_propagate_counter_decr`: with a key, `remaining <= 0` starts run_greedy, and what raises is
-- logged; without one, run_greedy is started at once, and what raises is passed on.
unfoldable pub propagate_counter_decr : (has_key : Bool) → Batch → Decr → Batch
propagate_counter_decr true b answered = record b {
  decrements = b.decrements + 1;
  greedy_runs = if leb b.initial (b.decrements + 1) then b.greedy_runs + 1 else b.greedy_runs;
}
propagate_counter_decr true b undelivered = record b {
  decrements = b.decrements + 1;
  undelivered = if leb b.initial (b.decrements + 1) then b.undelivered + 1 else b.undelivered;
}
propagate_counter_decr true b raised = b
propagate_counter_decr false b answered = record b { greedy_runs = b.greedy_runs + 1 }
propagate_counter_decr false b undelivered = record b { undelivered = b.undelivered + 1 }
propagate_counter_decr false b raised = record b { undelivered = b.undelivered + 1 }

-- Whether a report is done: the counter is decremented, or without a key run_greedy is started.
abbrev pub is_reported : (has_key : Bool) → Decr → Bool
is_reported true answered = true
is_reported true undelivered = true
is_reported true raised = false
is_reported false answered = true
is_reported false undelivered = false
is_reported false raised = false

unfoldable pub dispatched : List ℕ → List ℕ
dispatched [] = []
dispatched (n ∷ ns) = 0 ∷ dispatched ns

-- propagate_batch: the counter is set, and then one task is sent for each satellite, up to the
-- `sent`-th at which `apply_async` raises. Where the SET fails, `batch_key` is "".
abbrev pub propagate_batch : (sent : ℕ) → (norad_ids : List ℕ) → Batch
propagate_batch sent norad_ids = record {
  initial = length norad_ids;
  decrements = 0;
  pending = dispatched (take sent norad_ids);
  unreported = length (drop sent norad_ids);
  repeats = 0;
  undelivered = 0;
  greedy_runs = 0;
}

-- `has_key` is whether the SET of propagate_batch went through.
module _ (limit : Limit) (has_key : Bool) where
  -- The report with which a task ends.
  unfoldable pub report : Batch → Decr → Batch
  report b d = record (propagate_counter_decr has_key b d) {
    unreported = if is_reported has_key d then b.unreported else b.unreported + 1;
  }

  -- A report after which the attempt goes on.
  unfoldable pub report_early : Batch → Decr → Batch
  report_early b d = record (propagate_counter_decr has_key b d) {
    repeats = if is_reported has_key d then b.repeats + 1 else b.repeats;
  }

  -- The `except MaxRetriesExceededError`, past the limit.
  unfoldable pub past_limit : Limit → Batch → Decr → Batch
  past_limit max_retries_exceeded b d = report b d
  past_limit original b d = record b { unreported = b.unreported + 1 }

  -- The `except Exception`: a retry puts the task back.
  unfoldable pub on_exception : Batch → (retries : ℕ) → Decr → Batch
  on_exception b retries d =
      if ltb retries max_retries
      then record b { pending = suc retries ∷ b.pending }
      else past_limit limit b d

  -- The end of an attempt of a task with the given retries, which is taken from `pending`. Without a
  -- key, a `delay` that raises at the end of the body is an exception of the body.
  unfoldable pub finish_attempt : Batch → (retries : ℕ) → Attempt → Decr → Batch
  finish_attempt b retries succeeded d =
      if has_key || is_reported has_key d
      then report b d
      else on_exception (propagate_counter_decr has_key b d) retries d
  finish_attempt b retries timed_out d = report b d
  finish_attempt b retries failed d = on_exception b retries d
  finish_attempt b retries dropped d = record b { unreported = b.unreported + 1 }
  finish_attempt b retries lost d = record b { pending = retries ∷ b.pending }
  finish_attempt b retries (reported e a) d = finish_attempt (report_early b e) retries a d

-- The task at a place of the list, and the others.
unfoldable pub take_out : List ℕ → ℕ → Option (ℕ × List ℕ)
take_out [] i = none
take_out (x ∷ xs) zero = some (x, xs)
take_out (x ∷ xs) (suc i) = elim (take_out xs i) [ none ↦ none | some (y, ys) ↦ some (y, x ∷ ys) ]

-- One event: a worker ends an attempt of some pending task.
pub record Step : Type 0 where
  pub task : ℕ
  pub attempt : Attempt
  pub decr : Decr

module _ (limit : Limit) (has_key : Bool) where
  unfoldable pub attempt_taken : Batch → Attempt → Decr → Option (ℕ × List ℕ) → Batch
  attempt_taken b a d none = b
  attempt_taken b a d (some (retries, others)) =
      finish_attempt limit has_key (record b { pending = others }) retries a d

  unfoldable pub step : Batch → Step → Batch
  step b s = attempt_taken b s.attempt s.decr (take_out b.pending s.task)

  -- The events of a list in turn.
  unfoldable pub run : Batch → List Step → Batch
  run b [] = b
  run b (s ∷ ss) = run (step b s) ss
