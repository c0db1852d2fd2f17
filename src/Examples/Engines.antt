-- ===== src/Examples/Engines.antt =====
-- Examples for src/engine.rs.
use execution_policy.Base.{ℕ, ◌≡◌, refl, Option, none, some, List, [], ◌∷◌, true, arith}
use execution_policy.Examples.Support.{thousandths}
use execution_policy.Outcome.{Result, ok, err, ExecutionError, retry_budget_exhausted, BreakerState}
use execution_policy.Attempt
use execution_policy.Event.{Event}
use execution_policy.Classify.{Classifier}
use execution_policy.Retry.{Retry, shared, decide}
use execution_policy.Classify
use execution_policy.Retry.Backoff.{fixed}
use execution_policy.Retry.Jitter
use execution_policy.Retry.Budget.{try_withdraw, deposit}
use execution_policy.Breaker.{BreakerRuntime, consecutive, opened, half_open, new, gate}
use execution_policy.Concurrency
use execution_policy.Engine.World.{World, Plan, Poll, next, context, set_breaker}
use execution_policy.Engine.Ensures.{Ensures, Awaits}
use execution_policy.Engine.Awaits.{race, drop_permit}
use execution_policy.Engine.Drive.{drive, drive_loop, round}
use execution_policy.Engine.Drive.Attempts.{Never, Ended, Waiting, drive-Ended}
use execution_policy.Engine.Pipeline.{run_pipeline, op_permit_for, gate_through, record_with, vote}
use execution_policy.Engine.Pipeline.Endings.{Told, Untold}
use execution_policy.Engine.Pipeline.Paced.{Keeps, run_pipeline-Paced}
use execution_policy.Engine.Pipeline.Truthful.{Justified, run_pipeline-Justified}
use execution_policy.Engine.Pipeline.Told.{run_pipeline-Told}
use execution_policy.Engine.Pipeline.Runs.{Ran, Waits, run_pipeline-Ran}
use execution_policy.Engine.Pipeline.Lift.{call_at}
use execution_policy.Engine.Pipeline.Votes.{Wedged, run_pipeline-Wedged}

-- Three attempts, a fixed delay, and a budget.
abbrev retry_thrice : Retry ℕ ℕ
retry_thrice = record {
  max_attempts = 3;
  max_elapsed = none;
  backoff = fixed 10;
  jitter = Jitter.Jitter.none;
  classifier = Classifier.retry_all;
  budget = some shared;
  retry_after = none;
}

abbrev pub plan : Plan ℕ ℕ
plan = record {
  retry = retry_thrice;
  attempt_timeout = none;
  total_timeout = none;
  breaker = some (record { record_when = none });
  concurrency = none;
  on_event = true;
}

abbrev cooled : BreakerRuntime
cooled = record (new (consecutive 1) 100 1) { state = opened; open_until = some 50 }

abbrev pub answers : Option (Result ℕ ℕ) → Poll ℕ ℕ
answers r = record { passed = 5; others = λ s. s; op = r }

abbrev pub world_with : ℕ → List (Poll ℕ ℕ) → World ℕ ℕ
world_with tokens polls = record {
  clock = 60;
  shared = record {
    breaker = cooled;
    sem = Concurrency.new 1;
    bucket = record { tokens = tokens; max_tokens = 9000; deposit_size = 0; retry_cost = 1000 };
  };
  task = 0;
  random = λ n. 0;
  drawn = 0;
  polls = polls;
  log = [];
  calls = [];
}

-- The first attempt fails, the sleep ends at its second poll, and the second attempt succeeds.
abbrev recovering : World ℕ ℕ
recovering =
    world_with 2000
      (answers (some (err 503)) ∷ answers none ∷ answers none ∷ answers (some (ok 7)) ∷ [])

drive-Ended_example :
    Ensures
      (Never (call_at plan recovering BreakerState.half_open))
      (Ended (call_at plan recovering BreakerState.half_open) recovering)
      (Waiting (call_at plan recovering BreakerState.half_open) recovering)
      (drive (call_at plan recovering BreakerState.half_open) recovering)
drive-Ended_example =
    drive-Ended (call_at plan recovering BreakerState.half_open) recovering (omega arith)
      (omega arith)

run_pipeline-Told_example :
    Awaits (Told plan recovering) (Untold plan recovering) (run_pipeline plan recovering)
run_pipeline-Told_example = run_pipeline-Told plan recovering refl (omega arith) (omega arith)

run_pipeline-Paced_example :
    Awaits (λ _ w. Keeps plan recovering w) (Keeps plan recovering) (run_pipeline plan recovering)
run_pipeline-Paced_example = run_pipeline-Paced plan recovering (omega arith) (omega arith)

run_pipeline-Justified_example :
    Awaits (Justified plan recovering) (λ _. Unit) (run_pipeline plan recovering)
run_pipeline-Justified_example = run_pipeline-Justified plan recovering (omega arith) (omega arith)

run_pipeline-Ran_example :
    Awaits (Ran plan recovering) (Waits plan recovering) (run_pipeline plan recovering)
run_pipeline-Ran_example = run_pipeline-Ran plan recovering (omega arith) (omega arith)

-- The probe fails with an empty budget.
abbrev drained : World ℕ ℕ
drained = world_with 0 (answers (some (err 503)) ∷ [])

abbrev probed : BreakerRuntime
probed = record cooled { state = half_open; half_open_in_flight = 1; half_open_successes = 0 }

abbrev exhausted : Result ℕ (ExecutionError ℕ)
exhausted = err (retry_budget_exhausted (context 1 60 65 none BreakerState.half_open))

abbrev left_over : World ℕ ℕ
left_over = record (set_breaker drained probed) {
  clock = 65;
  polls = [];
  calls = Attempt.new 1 60 60 ∷ [];
  log =
      Event.retry_budget_exhausted 1
      ∷ Event.attempt_failed 1
      ∷ Event.circuit_state_changed BreakerState.half_open
      ∷ [];
}

-- The call ends with an empty budget, and leaves the breaker's only slot taken.
drained-run : run_pipeline plan drained ≡ next exhausted left_over
unfolding run_pipeline op_permit_for gate_through record_with vote gate new drive drive_loop round
    race drop_permit decide Classify.decide try_withdraw deposit
drained-run = refl

run_pipeline-Wedged_example : Awaits (Wedged plan) (λ _. Unit) (run_pipeline plan drained)
unfolding gate new
run_pipeline-Wedged_example =
    run_pipeline-Wedged plan drained (record { record_when = none }) probed refl
      (λ limit e. ground arith) (omega arith) (omega arith) refl refl (omega arith)
      ((λ x. refl), tt)
