-- ===== src/Examples/Serving.antt =====
-- Examples for a router of src/router.rs whose members src/engine.rs serves.
use execution_policy.Base.{ℕ, zero, suc, ◌*◌, ◌≡◌, refl, subst, none, some, [], ◌∷◌, arith, true}
use execution_policy.Examples.Support.{thousandths}
use execution_policy.Examples.Engines.{plan, answers, world_with}
use execution_policy.Outcome.{ok, err}
use execution_policy.Breaker.{
  BreakerRuntime, consecutive, new, gate, state_at, record_success, record_failure, should_trip,
}
use execution_policy.Builder.{Policy}
use execution_policy.Engine.World.{World}
use execution_policy.Pick.{first_healthy, by_score}
use execution_policy.Member.{fresh}
use execution_policy.Router.{RouterPolicy, Pool, healthy_members}
use execution_policy.Router.Choose.{choose, candidate_of, best_of}
use execution_policy.Router.Run.{
  Serve, served, run, run_loop, enter, leave, record_attempt, after_attempt,
}
use execution_policy.Policy.{circuit_state}
use execution_policy.Classify
use execution_policy.Retry.{decide}
use execution_policy.Retry.Budget.{try_withdraw, deposit}
use execution_policy.Engine.Awaits.{race, drop_permit}
use execution_policy.Engine.Drive.{drive, drive_loop, round}
use execution_policy.Engine.Pipeline.{run_pipeline, gate_through, op_permit_for, record_with, vote}
use execution_policy.Router.Serving.{serve_by}
use execution_policy.Breaker.Invariant.{IsValid, new-IsValid}
use execution_policy.Breaker.Invariant
use execution_policy.Engine.Clients.{Leads, Clients}
use execution_policy.Router.Sound.{AllValid, run-AllValid_served}
use execution_policy.Router.Sourced.{From, GaveAt, SparedAt, WaitsAt, run-Sourced}

abbrev pair : RouterPolicy ℕ ℕ
pair = record {
  targets = record { id = 70; weight = 1000 } ∷ record { id = 80; weight = 1000 } ∷ [];
  select = first_healthy;
  meter = none;
  advance_when = λ e. true;
  deadline = 3600000000000;
}

abbrev pool : Pool
pool = record {
  clock = 60;
  breakers = λ j. some (new (consecutive 5) 100 1);
  loads = λ j. fresh;
  random = λ n. n * 7;
  drawn = 0;
}

abbrev policies : ℕ → Policy ℕ ℕ
policies i = record { plan = plan; runtime = some (new (consecutive 5) 100 1); sem = none }

-- The first member fails with an empty budget after one attempt, and the second one serves.
abbrev worlds : ℕ → World ℕ ℕ
worlds zero = world_with 0 (answers (some (err 503)) ∷ [])
worlds (suc i) = world_with 2000 (answers none ∷ answers (some (ok 7)) ∷ [])

abbrev serve : Serve ℕ ℕ
serve = serve_by policies worlds (λ i p. p)

run-Sourced_example :
    From pair serve pool
      (GaveAt policies worlds)
      (SparedAt policies worlds)
      (WaitsAt policies worlds)
      (run pair serve pool).0
      (run pair serve pool).1
run-Sourced_example =
    run-Sourced policies worlds (λ i p. p) (λ i. omega arith) (λ i. omega arith) pair pool

serving-run :
    (run pair (serve_by policies worlds (λ i p. p)) pool).0
    ≡ served (record { value = 7; target = 80; attempts = 2 })
unfolding new gate state_at record_success record_failure should_trip run healthy_members
    circuit_state run_loop choose candidate_of best_of first_healthy by_score enter leave
    record_attempt after_attempt fresh run_pipeline gate_through op_permit_for record_with vote
    drop_permit race drive drive_loop round decide Classify.decide try_withdraw deposit
serving-run = refl

worlds-Clients : (i : ℕ) → Clients Leads (worlds i).polls
unfolding Invariant.run
worlds-Clients zero = ((λ x. ([], refl)), tt)
worlds-Clients (suc i) = ((λ x. ([], refl)), ((λ x. ([], refl)), tt))

pool-AllValid : AllValid pool
pool-AllValid k b e =
    subst IsValid (some_inj e)
      (new-IsValid (consecutive 5) 100 1 (omega arith) (omega arith) (omega arith))
  where
    some_inj : {b c : BreakerRuntime} → some b ≡ some c → b ≡ c
    some_inj h = ground arith

run-AllValid_served_example : AllValid (run pair (serve_by policies worlds (λ i p. p)) pool).2
run-AllValid_served_example =
    run-AllValid_served policies worlds (λ i p. p) (λ i. omega arith) (λ i. omega arith)
      worlds-Clients (λ i p v. v) pair pool pool-AllValid
