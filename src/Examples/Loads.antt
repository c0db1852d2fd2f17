-- ===== src/Examples/Loads.antt =====
-- Examples for the loads that src/router.rs keeps, and for round robin.
use execution_policy.Base.{
  ℕ, zero, suc, ◌+◌, ◌*◌, ◌/◌, ◌≡◌, refl, none, some, [], ◌∷◌, arith, true, u64,
}
use execution_policy.Examples.Support.{thousandths}
use execution_policy.Outcome.{ok, err, operation, BreakerState, ErrorContext}
use execution_policy.Pick.{round_robin, by_score}
use execution_policy.Member.{MemberState, fresh}
use execution_policy.Router.{RouterPolicy, Pool, healthy_members}
use execution_policy.Router.Choose.{choose, candidate_of, best_of}
use execution_policy.Policy.{circuit_state}
use execution_policy.Router.Run.{Serve, run, run_loop, enter, leave, record_attempt, after_attempt}
use execution_policy.Router.Loads.{Others, Fits, Loaded, run-Loaded}
use execution_policy.Router.Turns.{Counts}
use execution_policy.Router.Prompt.{Prompt, members}
use execution_policy.Router.Fairness.{after_runs, Even, all_picks, after_runs-Even, second}

-- Three members in turn.
abbrev trio : RouterPolicy ℕ ℕ
trio = record {
  targets =
      record { id = 70; weight = 1000 }
      ∷ record { id = 80; weight = 1000 }
      ∷ record { id = 90; weight = 1000 }
      ∷ [];
  select = round_robin;
  meter = none;
  advance_when = λ e. true;
  deadline = 3600000000000;
}

abbrev idle_pool : Pool
idle_pool = record {
  clock = 50;
  breakers = λ j. none;
  loads = λ j. fresh;
  random = λ n. n * 7;
  drawn = 0;
}

idle_pool-Fits : Fits idle_pool
unfolding fresh
idle_pool-Fits k = omega arith

-- The members serve, and take five nanoseconds.
abbrev prompt : Serve ℕ ℕ
prompt i p = some (ok 7, record p { clock = p.clock + 5 })

prompt-Prompt : Prompt prompt
prompt-Prompt i p = (7, record p { clock = p.clock + 5 }, refl, refl, refl)

thousandths-Counts : Counts 1000 (λ x. x / 1000)
thousandths-Counts = record {
  finite = λ n lt. ground (arith, lt);
  exact = λ n lt. omega arith;
  less = λ m n. ground arith;
  same = λ m n. ground arith;
}

after_runs-Even_example :
    Even trio (after_runs trio prompt 5 idle_pool)
    × (all_picks (after_runs trio prompt 5 idle_pool) (members trio) ≡ 0 + 5)
unfolding fresh
after_runs-Even_example =
    after_runs-Even trio prompt prompt-Prompt 1000 (λ x. x / 1000) thousandths-Counts refl refl
      (omega arith) 5 idle_pool (omega arith) idle_pool-Fits (λ k. refl) (λ k lt. omega arith)
      (λ i k i_in k_in. omega arith)

-- While the first member runs, and fails, another task starts a call on the second one.
abbrev joined : ℕ → MemberState → MemberState
joined zero s = s
joined (suc zero) s = record s { in_flight = u64 (s.in_flight + 1) }
joined (suc (suc k)) s = s

abbrev failure : ErrorContext
failure = record {
  attempts = 1;
  elapsed = 5;
  last_delay = none;
  breaker_state = BreakerState.disabled;
}

abbrev crowded : Serve ℕ ℕ
crowded zero p = some (err (operation 503 failure), record p { loads = λ k. joined k (p.loads k) })
crowded (suc i) p = some (ok 7, p)

abbrev one_more : ℕ → ℕ → ℕ
one_more zero (suc zero) = 1
one_more i k = 0

crowded-Others : Others crowded one_more (λ i k. 0)
crowded-Others zero p p1 o fits e k = rw (← second e) (by_member k)
  where
    by_member :
        (k : ℕ)
        → ((joined k (p.loads k)).in_flight ≡ u64 ((p.loads k).in_flight + one_more 0 k))
          × ((joined k (p.loads k)).pick_count ≡ u64 ((p.loads k).pick_count + 0))
    by_member zero = ground (arith, fits 0)
    by_member (suc zero) = ground (arith, fits 1)
    by_member (suc (suc k)) = ground (arith, fits (suc (suc k)))
crowded-Others (suc i) p p1 o fits e k = rw (← second e) (ground (arith, fits k))

crowded-run : (run trio crowded idle_pool).1 ≡ 1 ∷ 0 ∷ []
unfolding run healthy_members circuit_state run_loop choose candidate_of best_of round_robin
    by_score enter leave record_attempt after_attempt fresh
crowded-run = refl

run-Loaded_example :
    Loaded one_more
      (λ i k. 0)
      idle_pool
      (run trio crowded idle_pool).0
      (run trio crowded idle_pool).1
      (run trio crowded idle_pool).2
run-Loaded_example =
    run-Loaded trio crowded one_more (λ i k. 0) idle_pool crowded-Others idle_pool-Fits
