-- ===== src/Examples/Routers.antt =====
-- Examples for src/router.rs.
use execution_policy.Base.{
  ℕ, zero, suc, ap, ◌+◌, ◌<◌, ◌≡◌, refl, Instant, true, Option, none, some, List, [], ◌∷◌, arith,
  length, ◌==◌, ◌*◌,
}
use execution_policy.Base.Float.{F64}
use execution_policy.Examples.Support.{thousandths}
use execution_policy.Outcome.{ok, err, operation, BreakerState, ErrorContext}
use execution_policy.Breaker.{opened, consecutive, BreakerRuntime, new}
use execution_policy.Breaker.Invariant.{IsValid}
use execution_policy.Pick.{Candidate, first_healthy, by_score}
use execution_policy.Member.{fresh, from_arc}
use execution_policy.Router.Builder.{
  Equality, RouterPolicyBuilder, duplicate, builder, target, build_with,
}
use execution_policy.Router.Builder.Checks.{Verdict, build_with-Verdict}
use execution_policy.Policy.{circuit_state, cooling_until}
use execution_policy.Router.{RouterPolicy, Pool, healthy_members}
use execution_policy.Router.Choose.{chosen, best_of, sample_distinct, choose, candidate_of}
use execution_policy.Router.Members.{Has, Distinct}
use execution_policy.Router.Health.{Rejects, Admits, healthy_members-hint}
use execution_policy.Router.Sampling.{sample_distinct-Distinct}
use execution_policy.Router.Run.{
  served, Serve, run, run_loop, after_attempt, record_attempt, enter, leave,
}
use execution_policy.Router.Visits.{Toured, run-Toured}

abbrev cooling_down : Instant → BreakerRuntime
cooling_down t = record (new (consecutive 2) 100 2) { state = opened; open_until = some t }

cooling_down-IsValid : (t : Instant) → IsValid (cooling_down t)
unfolding new
cooling_down-IsValid t = record {
  trip_set = omega arith;
  calls_set = omega arith;
  probing = (refl, refl, λ e. cc);
}

-- Two members, with the ids 70 and 80; every error is transient.
abbrev pair : RouterPolicy ℕ ℕ
pair = record {
  targets = record { id = 70; weight = 1000 } ∷ record { id = 80; weight = 1000 } ∷ [];
  select = first_healthy;
  meter = none;
  advance_when = λ e. true;
  deadline = 3600000000000;
}

abbrev ends : ℕ → Instant
ends zero = 90
ends (suc j) = 70

abbrev cooling_pool : Pool
cooling_pool = record {
  clock = 50;
  breakers = λ j. some (cooling_down (ends j));
  loads = λ j. fresh;
  random = λ n. n * 7;
  drawn = 0;
}

cooling_pool-hint : healthy_members pair cooling_pool ≡ ([], some 70)
unfolding healthy_members circuit_state cooling_until execution_policy.Breaker.state_at
    execution_policy.Breaker.cooling_until new
cooling_pool-hint = refl

healthy_members-hint_example :
    (t : Instant) × ((healthy_members pair cooling_pool).1 ≡ some t)
    × (50 < t)
    × ((j : ℕ) → j < 2 → Rejects (cooling_pool.breakers j) t)
    × ((j : ℕ) × (j < 2) × Admits (cooling_pool.breakers j) t)
healthy_members-hint_example =
    healthy_members-hint pair cooling_pool (λ j. cooling_down-IsValid (ends j)) (omega arith)
      (ap (λ x. x.0) cooling_pool-hint)

abbrev healthy_pool : Pool
healthy_pool = record cooling_pool { breakers = λ j. none }

abbrev failure : ErrorContext
failure = record {
  attempts = 1;
  elapsed = 5;
  last_delay = none;
  breaker_state = BreakerState.disabled;
}

-- The first member fails, the second one serves.
abbrev serving : Serve ℕ ℕ
serving zero p = some (err (operation 503 failure), record p { clock = p.clock + 5 })
serving (suc _) p = some (ok 7, p)

serving-run : run pair serving healthy_pool ≡ (
  served (record { value = 7; target = 80; attempts = 2 }),
  1 ∷ 0 ∷ [],
  (run pair serving healthy_pool).2,
)
unfolding run healthy_members circuit_state run_loop choose candidate_of best_of first_healthy
    by_score enter leave record_attempt after_attempt fresh
serving-run = refl

run-Toured_example :
    Toured pair
      (healthy_members pair healthy_pool).1
      (healthy_members pair healthy_pool).0
      (run pair serving healthy_pool)
run-Toured_example = run-Toured pair serving healthy_pool two
  where
    two : length (healthy_members pair healthy_pool).0 < 4294967296
    two = unfold healthy_members circuit_state in omega arith

abbrev busy : List (Candidate ℕ)
busy =
    record { id = 70; index = 0; in_flight = 5; weight = 1000; pick_count = 0; latency = none }
    ∷ record { id = 80; index = 1; in_flight = 2; weight = 1000; pick_count = 0; latency = none }
    ∷ record { id = 90; index = 2; in_flight = 2; weight = 1000; pick_count = 0; latency = none }
    ∷ []

abbrev load : Candidate ℕ → Option F64
load c = some (c.in_flight * 1000)

busy-best_of : best_of load busy none ≡ chosen 1
unfolding best_of
busy-best_of = refl

-- Three members with that load, and the fewest outstanding calls as the strategy.
abbrev fleet : RouterPolicy ℕ ℕ
fleet = record pair {
  targets =
      record { id = 70; weight = 1000 }
      ∷ record { id = 80; weight = 1000 }
      ∷ record { id = 90; weight = 1000 }
      ∷ [];
  select = by_score load;
}

abbrev calls_on : ℕ → ℕ
calls_on zero = 5
calls_on (suc _) = 2

abbrev busy_pool : Pool
busy_pool = record healthy_pool { loads = λ j. record fresh { in_flight = calls_on j } }

sample_distinct-Distinct_example :
    Distinct (sample_distinct 5 2 healthy_pool).0
    × (length (sample_distinct 5 2 healthy_pool).0 ≡ 2)
    × ((x : ℕ) → Has x (sample_distinct 5 2 healthy_pool).0 → x < 5)
sample_distinct-Distinct_example = sample_distinct-Distinct 5 2 healthy_pool (omega arith)

instance abbrev by_number : Equality ℕ
by_number = record { same = ◌==◌ }

abbrev twice_70 : RouterPolicyBuilder ℕ ℕ
twice_70 = record (target (target builder (from_arc 70)) (from_arc 70)) {
  advance_when = some (λ e. true);
}

twice_70-build_with : build_with twice_70 ≡ err (duplicate 70)
unfolding build_with target builder from_arc
twice_70-build_with = refl

build_with-Verdict_example : Verdict twice_70 (build_with twice_70)
build_with-Verdict_example = build_with-Verdict twice_70
