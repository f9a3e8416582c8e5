-- ===== src/Pipeline/Batch/Reported.antt =====
-- Which events leave a task unreported, report early or fail to start run_greedy.
use sda_system.Prelude.{
  ℕ, ◌+◌, ◌*◌, ◌≤◌, Bool, true, false, Option, none, some, List, [], ◌∷◌, ltb, if◌then◌else◌, inl,
  inr, Bool-cases, arith,
}
use sda_system.Pipeline.Batch.{
  Attempt, succeeded, timed_out, failed, dropped, lost, reported, Limit, max_retries_exceeded,
  original, Decr, answered, undelivered, raised, Batch, propagate_counter_decr, is_reported, report,
  report_early, past_limit, on_exception, finish_attempt, take_out, Step, attempt_taken, step, run,
  max_retries,
}

-- A report that is not done.
abbrev pub misses_of : (has_key : Bool) → Decr → ℕ
misses_of has_key d = if is_reported has_key d then 0 else 1

-- A report that is not answered.
abbrev pub fault_of : Decr → ℕ
fault_of answered = 0
fault_of undelivered = 1
fault_of raised = 1

-- The attempt may end its task without a report.
unfoldable pub silent_of : Limit → (has_key : Bool) → Attempt → Decr → ℕ
silent_of limit has_key succeeded d = misses_of has_key d
silent_of limit has_key timed_out d = misses_of has_key d
silent_of max_retries_exceeded has_key failed d = misses_of has_key d
silent_of original has_key failed d = 1
silent_of limit has_key dropped d = 1
silent_of limit has_key lost d = 0
silent_of limit has_key (reported e a) d = silent_of limit has_key a d

-- The reports before the end of the attempt.
unfoldable pub early_of : Attempt → ℕ
early_of succeeded = 0
early_of timed_out = 0
early_of failed = 0
early_of dropped = 0
early_of lost = 0
early_of (reported e a) = 1 + early_of a

-- The reports of the attempt that are not answered.
unfoldable pub faults_of : Attempt → Decr → ℕ
faults_of succeeded d = fault_of d
faults_of timed_out d = fault_of d
faults_of failed d = fault_of d
faults_of dropped d = 0
faults_of lost d = 0
faults_of (reported e a) d = fault_of e + faults_of a d

unfoldable pub silences : Limit → (has_key : Bool) → List Step → ℕ
silences limit has_key [] = 0
silences limit has_key (s ∷ ss) =
    silent_of limit has_key s.attempt s.decr + silences limit has_key ss

unfoldable pub earlies : List Step → ℕ
earlies [] = 0
earlies (s ∷ ss) = early_of s.attempt + earlies ss

unfoldable pub faults : List Step → ℕ
faults [] = 0
faults (s ∷ ss) = faults_of s.attempt s.decr + faults ss

-- From one state to another at most so many tasks end unreported, reports come early, and starts
-- fail.
pub record Grows (b after : Batch) (silent early faulty : ℕ) : Type 0 where
  pub unreported : after.unreported ≤ b.unreported + silent
  pub repeats : after.repeats ≤ b.repeats + early
  pub undelivered : after.undelivered ≤ b.undelivered + faulty

report-Grows :
    (limit : Limit) (has_key : Bool) (b : Batch) (d : Decr)
    → Grows b (report limit has_key b d) (misses_of has_key d) 0 (fault_of d)
unfolding report propagate_counter_decr
report-Grows limit true b answered = record {
  unreported = ground arith;
  repeats = ground arith;
  undelivered = ground arith;
}
report-Grows limit true b undelivered = record {
  unreported = ground arith;
  repeats = ground arith;
  undelivered = ground arith;
}
report-Grows limit true b raised = record {
  unreported = ground arith;
  repeats = ground arith;
  undelivered = ground arith;
}
report-Grows limit false b answered = record {
  unreported = ground arith;
  repeats = ground arith;
  undelivered = ground arith;
}
report-Grows limit false b undelivered = record {
  unreported = ground arith;
  repeats = ground arith;
  undelivered = ground arith;
}
report-Grows limit false b raised = record {
  unreported = ground arith;
  repeats = ground arith;
  undelivered = ground arith;
}

report_early-Grows :
    (limit : Limit) (has_key : Bool) (b : Batch) (d : Decr)
    → Grows b (report_early limit has_key b d) 0 1 (fault_of d)
unfolding report_early propagate_counter_decr
report_early-Grows limit true b answered = record {
  unreported = ground arith;
  repeats = ground arith;
  undelivered = ground arith;
}
report_early-Grows limit true b undelivered = record {
  unreported = ground arith;
  repeats = ground arith;
  undelivered = ground arith;
}
report_early-Grows limit true b raised = record {
  unreported = ground arith;
  repeats = ground arith;
  undelivered = ground arith;
}
report_early-Grows limit false b answered = record {
  unreported = ground arith;
  repeats = ground arith;
  undelivered = ground arith;
}
report_early-Grows limit false b undelivered = record {
  unreported = ground arith;
  repeats = ground arith;
  undelivered = ground arith;
}
report_early-Grows limit false b raised = record {
  unreported = ground arith;
  repeats = ground arith;
  undelivered = ground arith;
}

past_limit-Grows :
    (limit : Limit) (has_key : Bool) (b : Batch) (d : Decr)
    → Grows b (past_limit limit has_key limit b d) (silent_of limit has_key failed d) 0 (fault_of d)
unfolding past_limit silent_of
past_limit-Grows max_retries_exceeded has_key b d = report-Grows max_retries_exceeded has_key b d
past_limit-Grows original has_key b d = record {
  unreported = omega arith;
  repeats = omega arith;
  undelivered = omega arith;
}

on_exception-Grows :
    (limit : Limit) (has_key : Bool) (b : Batch) (r : ℕ) (d : Decr)
    → Grows b (on_exception limit has_key b r d) (silent_of limit has_key failed d) 0 (fault_of d)
unfolding on_exception
on_exception-Grows limit has_key b r d = elim (Bool-cases (ltb r max_retries)) [
  | inl e ↦
      rw e record { unreported = omega arith; repeats = omega arith; undelivered = omega arith }
  | inr e ↦ rw e (past_limit-Grows limit has_key b d)
]

-- More may grow.
weaken-Grows :
    {b after : Batch} {x y z k l m : ℕ}
    → Grows b after x y z
    → x ≤ k
    → y ≤ l
    → z ≤ m
    → Grows b after k l m
weaken-Grows g p q r = record {
  unreported = omega (arith, g.unreported);
  repeats = omega (arith, g.repeats);
  undelivered = omega (arith, g.undelivered);
}

trans-Grows :
    {b mid after : Batch} {x y z k l m : ℕ}
    → Grows b mid x y z
    → Grows mid after k l m
    → Grows b after (x + k) (y + l) (z + m)
trans-Grows g h = record {
  unreported = omega (arith, g.unreported, h.unreported);
  repeats = omega (arith, g.repeats, h.repeats);
  undelivered = omega (arith, g.undelivered, h.undelivered);
}

silent-failed : (limit : Limit) (d : Decr) → silent_of limit false failed d ≤ 1
unfolding silent_of
silent-failed max_retries_exceeded answered = omega arith
silent-failed max_retries_exceeded undelivered = omega arith
silent-failed max_retries_exceeded raised = omega arith
silent-failed original d = omega arith

-- A start without a key that fails.
failed_start-Grows :
    (limit : Limit) (b : Batch) (r : ℕ) (d : Decr)
    → Grows b
        (on_exception limit false (record b { undelivered = b.undelivered + 1 }) r d)
        1
        0
        (1 + fault_of d)
failed_start-Grows limit b r d =
    let g = on_exception-Grows limit false (record b { undelivered = b.undelivered + 1 }) r d in
    record {
      unreported = omega (arith, g.unreported, silent-failed limit d);
      repeats = omega (arith, g.repeats);
      undelivered = omega (arith, g.undelivered);
    }

finish_attempt-Grows :
    (limit : Limit) (has_key : Bool) (b : Batch) (r : ℕ) (a : Attempt) (d : Decr)
    → Grows b
        (finish_attempt limit has_key b r a d)
        (silent_of limit has_key a d)
        (early_of a)
        (2 * faults_of a d)
unfolding finish_attempt silent_of early_of faults_of
finish_attempt-Grows limit true b r succeeded d =
    weaken-Grows (report-Grows limit true b d) (omega arith) (omega arith) (omega arith)
finish_attempt-Grows limit false b r succeeded answered =
    weaken-Grows (report-Grows limit false b answered) (omega arith) (omega arith) (omega arith)
finish_attempt-Grows limit false b r succeeded undelivered =
    unfold propagate_counter_decr in failed_start-Grows limit b r undelivered
finish_attempt-Grows limit false b r succeeded raised =
    unfold propagate_counter_decr in failed_start-Grows limit b r raised
finish_attempt-Grows limit has_key b r timed_out d =
    weaken-Grows (report-Grows limit has_key b d) (omega arith) (omega arith) (omega arith)
finish_attempt-Grows limit has_key b r failed d =
    weaken-Grows (on_exception-Grows limit has_key b r d) (omega arith) (omega arith) (omega arith)
finish_attempt-Grows limit has_key b r dropped d = record {
  unreported = omega arith;
  repeats = omega arith;
  undelivered = omega arith;
}
finish_attempt-Grows limit has_key b r lost d = record {
  unreported = omega arith;
  repeats = omega arith;
  undelivered = omega arith;
}
finish_attempt-Grows limit has_key b r (reported e a) d =
    weaken-Grows
      (trans-Grows (report_early-Grows limit has_key b e)
        (finish_attempt-Grows limit has_key (report_early limit has_key b e) r a d))
      (omega arith) (omega arith) (omega arith)

step-Grows :
    (limit : Limit) (has_key : Bool) (b : Batch) (s : Step)
    → Grows b
        (step limit has_key b s)
        (silent_of limit has_key s.attempt s.decr)
        (early_of s.attempt)
        (2 * faults_of s.attempt s.decr)
unfolding step
step-Grows limit has_key b s = by_task (take_out b.pending s.task)
  where
    by_task :
        (o : Option (ℕ × List ℕ))
        → Grows b
            (attempt_taken limit has_key b s.attempt s.decr o)
            (silent_of limit has_key s.attempt s.decr)
            (early_of s.attempt)
            (2 * faults_of s.attempt s.decr)
    by_task none =
        unfold attempt_taken in
        record { unreported = omega arith; repeats = omega arith; undelivered = omega arith }
    by_task (some (y, ys)) =
        unfold attempt_taken in
        let g = finish_attempt-Grows limit has_key (record b { pending = ys }) y s.attempt s.decr in
        record { unreported = g.unreported; repeats = g.repeats; undelivered = g.undelivered }

pub run-Grows :
    (limit : Limit) (has_key : Bool) (b : Batch) (ss : List Step)
    → Grows b (run limit has_key b ss) (silences limit has_key ss) (earlies ss) (2 * faults ss)
unfolding run silences earlies faults
run-Grows limit has_key b [] = record {
  unreported = omega arith;
  repeats = omega arith;
  undelivered = omega arith;
}
run-Grows limit has_key b (s ∷ ss) =
    weaken-Grows
      (trans-Grows (step-Grows limit has_key b s)
        (run-Grows limit has_key (step limit has_key b s) ss))
      (omega arith) (omega arith) (omega arith)
