-- ===== src/Tests/Pipeline.antt =====
-- A batch of two satellites, an upsert, and the two stages on the sample.
use sda_system.Prelude.{some, true, false, ℕ, ◌≡◌, refl, List, [], ◌∷◌, ◌++◌, map}
use sda_system.Models.{Stage, SatellitePass}
use sda_system.Pipeline.Batch.{
  Attempt, succeeded, failed, lost, reported, max_retries_exceeded, original, answered, Batch,
  propagate_counter_decr, report, report_early, on_exception, dispatched, propagate_batch,
  past_limit, finish_attempt, take_out, Step, attempt_taken, step, run, countdown,
}
use sda_system.Pipeline.Upsert.{has_pass, bulk_upsert_passes}
use sda_system.Pipeline.Upsert.Keys.{HasAll, IsKeyed, bulk_upsert_passes-IsKeyed}
use sda_system.Pipeline.Stages.{Handover, run_greedy, run_ortools}
use sda_system.Pipeline.Stages.Apart.{KeepsApart, run_ortools-KeepsApart}
use sda_system.Scheduling.Stations.{Run, commit, finish}
use sda_system.Scheduling.Stations.Greedy.{schedule_all_stations}
use sda_system.Scheduling.Optimizer.{plan_of}
use sda_system.Tests.Sample.{sample, sample-checks, early, middle, late}
use sda_system.Tests.Stations.{stations, stations-DistinctKeys}
use sda_system.Tests.Optimizer.{first_alone, first_alone-SolverLaws, by_id}

abbrev ends : Attempt → ℕ → Step
ends a i = record { task = i; attempt = a; decr = answered }

abbrev done : ℕ → Step
done = ends succeeded

abbrev fails : ℕ → Step
fails = ends failed

abbrev two : List ℕ
two = 25_544 ∷ 43_013 ∷ []

abbrev batch : Batch
batch = propagate_batch 2 two

-- The second task ends first, and the other one after a retry and a lost worker.
abbrev events : List Step
events = done 1 ∷ fails 0 ∷ ends lost 0 ∷ done 0 ∷ []

greedy_once : (run original true batch events).greedy_runs ≡ 1
unfolding run step attempt_taken take_out finish_attempt on_exception report propagate_counter_decr
    dispatched
greedy_once = refl

-- Without a key every task starts run_greedy.
greedy_each : (run original false batch events).greedy_runs ≡ 2
unfolding run step attempt_taken take_out finish_attempt on_exception report propagate_counter_decr
    dispatched
greedy_each = refl

-- A task fails for good: where `retry` raises the exception it was given, nothing is decremented.
abbrev fails_for_good : List Step
fails_for_good = done 1 ∷ fails 0 ∷ fails 0 ∷ fails 0 ∷ fails 0 ∷ []

greedy_never : (run original true batch fails_for_good).greedy_runs ≡ 0
unfolding run step attempt_taken take_out finish_attempt on_exception past_limit report
    propagate_counter_decr dispatched
greedy_never = refl

greedy_after_all : (run max_retries_exceeded true batch fails_for_good).greedy_runs ≡ 1
unfolding run step attempt_taken take_out finish_attempt on_exception past_limit report
    propagate_counter_decr dispatched
greedy_after_all = refl

-- A worker is lost between the report of its task and the end: run_greedy is started before the
-- second task has ended, and again after it.
abbrev counted_again : List Step
counted_again = ends (reported answered lost) 0 ∷ done 0 ∷ done 0 ∷ []

greedy_twice : (run original true batch counted_again).greedy_runs ≡ 2
unfolding run step attempt_taken take_out finish_attempt report report_early propagate_counter_decr
    dispatched
greedy_twice = refl

delays : map countdown (0 ∷ 1 ∷ 3 ∷ 9 ∷ []) ≡ 2 ∷ 2 ∷ 8 ∷ 300 ∷ []
unfolding countdown
delays = refl

-- A pass that is there is not inserted again.
upserted :
    bulk_upsert_passes (early ∷ middle ∷ []) (middle ∷ late ∷ late ∷ [])
    ≡ early ∷ middle ∷ late ∷ []
unfolding bulk_upsert_passes has_pass
upserted = refl

bulk_upsert_passes-IsKeyed_example :
    let after = bulk_upsert_passes (early ∷ []) (late ∷ early ∷ []) in
    ((more : List SatellitePass) × (after ≡ early ∷ [] ++ more))
    × HasAll after (late ∷ early ∷ [])
    × (IsKeyed (early ∷ []) → IsKeyed after)
    × (bulk_upsert_passes after (late ∷ early ∷ []) ≡ after)
bulk_upsert_passes-IsKeyed_example = bulk_upsert_passes-IsKeyed (early ∷ []) (late ∷ early ∷ [])

run_ortools-KeepsApart_example :
    (out : Run) × (schedule_all_stations (λ a b. true) stations sample 0 100
      ≡ some (finish Stage.greedy out))
    × (h : Handover) × (run_greedy (λ a b. true) stations sample 0 100 ≡ some h)
    × (h.table ≡ commit Stage.greedy out.scheduled sample)
    × (picked : List SatellitePass) × (run_ortools first_alone by_id stations h.table 5 105
          h.scheduled_sats h.free_slots
        ≡ plan_of h.table picked)
    × KeepsApart 0 100 out.scheduled h.table picked
run_ortools-KeepsApart_example =
    run_ortools-KeepsApart (λ a b. true) stations sample 0 100 5 105 first_alone by_id
      first_alone-SolverLaws stations-DistinctKeys sample-checks
