-- ===== src/Examples/Books.antt =====
-- Examples for the permits and the retries of a call of src/engine.rs.
use execution_policy.Base.{ℕ, ◌+◌, refl, none, some, List, [], ◌∷◌, arith, length, leb}
use execution_policy.Base.{if◌then◌else◌}
use execution_policy.Examples.Support.{thousandths}
use execution_policy.Outcome.{ok, err}
use execution_policy.Retry.{shared}
use execution_policy.Concurrency.{wait, attempts, release, new}
use execution_policy.Engine.World.{World, Plan, Poll}
use execution_policy.Engine.Ensures.{Awaits}
use execution_policy.Engine.Books.{called, Waits}
use execution_policy.Engine.Pipeline.{run_pipeline}
use execution_policy.Engine.Pipeline.Balance.{Keeps, Holds, run_pipeline-Balanced}
use execution_policy.Engine.Pipeline.Paid.{Steady, Covered, run_pipeline-Covered}
use execution_policy.Breaker.Invariant.{fails, after, run}
use execution_policy.Engine.Clients.{Leads, Leads-Steps, Clients}
use execution_policy.Engine.Pipeline.Ballot.{Voted, Staged, run_pipeline-Voted}
use execution_policy.Examples.Engines.{plan, answers, world_with}

-- Each attempt wants the only permit, which another task holds at first. It gives it back before the
-- second poll, and the attempt fails at the third.
abbrev limited : Plan ℕ ℕ
limited = record plan { concurrency = some (record { saturation = wait 5 none; scope = attempts }) }

abbrev given_back : Poll ℕ ℕ
given_back = record { passed = 5; others = λ s. record s { sem = (release s.sem).1 }; op = none }

abbrev elsewhere : List (Poll ℕ ℕ) → ℕ
elsewhere ps = if leb 3 (length ps) then 1 else 0

abbrev contended : World ℕ ℕ
contended =
    record (world_with 2000
      (answers none ∷ given_back ∷ answers (some (err 503)) ∷ answers (some (ok 7)) ∷ [])) {
        shared = record {
          breaker = (world_with 2000 []).shared.breaker;
          sem = new 0;
          bucket = (world_with 2000 []).shared.bucket;
        };
      }

contended-Keeps : Keeps 1 elsewhere contended.polls
unfolding release
contended-Keeps = (
  λ k s h. omega arith,
  (λ k s h. omega arith, (λ k s h. omega arith, (λ k s h. omega arith, tt))),
)

run_pipeline-Balanced_example :
    Awaits
      (λ _ w'. Holds 1 elsewhere called 0 w')
      (Waits (λ s k w'. Holds 1 elsewhere s k w'))
      (run_pipeline limited contended)
unfolding new
run_pipeline-Balanced_example =
    run_pipeline-Balanced limited 1 elsewhere contended (omega arith) (omega arith) (omega arith)
      (record { balance = refl; others = contended-Keeps })

-- Another task deposits 300 before the second poll.
abbrev topped_up : Poll ℕ ℕ
topped_up = record {
  passed = 5;
  others = λ s. record s { bucket = record (s.bucket) { tokens = s.bucket.tokens + 300 } };
  op = none;
}

abbrev supply : List (Poll ℕ ℕ) → ℕ
supply ps = if leb 3 (length ps) then 300 else 0

abbrev paying : World ℕ ℕ
paying =
    world_with 900
      (answers (some (err 503)) ∷ topped_up ∷ answers none ∷ answers (some (err 503)) ∷ [])

paying-Steady : Steady supply paying.polls
paying-Steady = (
  λ s. (omega arith, refl, refl),
  (
    λ s. (omega arith, refl, refl),
    (λ s. (omega arith, refl, refl), (λ s. (omega arith, refl, refl), tt)),
  ),
)

run_pipeline-Covered_example :
    Awaits
      (λ _ w'. Covered supply paying w')
      (λ w'. Covered supply paying w')
      (run_pipeline plan paying)
run_pipeline-Covered_example =
    run_pipeline-Covered supply plan shared paying refl (omega arith) (omega arith) paying-Steady

-- Another task's call on the same breaker fails before the second poll.
abbrev voted_down : Poll ℕ ℕ
voted_down = record {
  passed = 5;
  others = λ s. record s { breaker = after s.breaker (63, fails) };
  op = some (ok 7);
}

abbrev joined : World ℕ ℕ
joined = world_with 2000 (answers none ∷ voted_down ∷ [])

joined-Clients : Clients Leads joined.polls
unfolding run
joined-Clients = ((λ x. ([], refl)), ((λ x. ((63, fails) ∷ [], refl)), tt))

run_pipeline-Voted_example :
    Awaits (Voted Leads plan joined) (Staged Leads plan joined) (run_pipeline plan joined)
run_pipeline-Voted_example =
    run_pipeline-Voted Leads plan joined Leads-Steps (omega arith) (omega arith) joined-Clients
