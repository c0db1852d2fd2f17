-- ===== src/Examples/Builders.antt =====
-- Examples for src/builder.rs.
use execution_policy.Base.{ℕ, ◌≡◌, refl, true, none, some, [], ◌∷◌, secs, arith}
use execution_policy.Examples.Support.{thousandths}
use execution_policy.Outcome.{err}
use execution_policy.Retry.{exponential_delay}
use execution_policy.Breaker.{consecutive_failures, new}
use execution_policy.Concurrency
use execution_policy.Engine.World.{World}
use execution_policy.Engine.Ensures.{Awaits}
use execution_policy.Engine.Pipeline.{run_pipeline}
use execution_policy.Engine.Pipeline.Runs.{Ran, Waits}
use execution_policy.Builder.{
  ExecutionPolicyBuilder, timeout_inversion, validate, compile, try_build,
}
use execution_policy.Breaker.Invariant.{gates, fails}
use execution_policy.Builder.Configured
use execution_policy.Builder.Sound.{StaysValid, Admits, try_build-Sound}
use execution_policy.Builder.Built.{Validated, try_build-Validated, try_build-Ran}

abbrev layered : ExecutionPolicyBuilder ℕ ℕ
layered = record {
  retry = some (exponential_delay ℕ ℕ);
  attempt_timeout = some (secs 2);
  total_timeout = some (secs 5);
  breaker = some (consecutive_failures ℕ 3);
  concurrency = some (Concurrency.limit 4 Concurrency.attempts);
  on_event = true;
}

abbrev inverted_timeouts : ExecutionPolicyBuilder ℕ ℕ
inverted_timeouts = record layered { attempt_timeout = some (secs 9) }

inverted_timeouts-try_build :
    try_build inverted_timeouts ≡ err (timeout_inversion (secs 9) (secs 5))
unfolding try_build validate exponential_delay
inverted_timeouts-try_build = refl

try_build-Validated_example : Validated inverted_timeouts (try_build inverted_timeouts)
try_build-Validated_example = try_build-Validated inverted_timeouts

-- The call of the operation stays pending at its only poll.
abbrev waiting_world : World ℕ ℕ
waiting_world = record {
  clock = 60;
  shared = record {
    breaker = new (execution_policy.Breaker.consecutive 3) (secs 30) 1;
    sem = Concurrency.new 4;
    bucket = record { tokens = 0; max_tokens = 0; deposit_size = 0; retry_cost = 1000 };
  };
  task = 0;
  random = λ n. 0;
  drawn = 0;
  polls = record { passed = 5; others = λ s. s; op = none } ∷ [];
  log = [];
  calls = [];
}

try_build-Ran_example :
    Awaits
      (Ran (compile layered).plan waiting_world)
      (Waits (compile layered).plan waiting_world)
      (run_pipeline (compile layered).plan waiting_world)
unfolding try_build validate exponential_delay
try_build-Ran_example = try_build-Ran layered (compile layered) waiting_world (omega arith) refl

-- A breaker by failure ratio with four probes, and a limit of no permits, which the constructor makes one.
abbrev configured : Configured.BuilderCalls ℕ ℕ
configured =
    Configured.concurrency_limit
      (Configured.circuit_breaker (Configured.retry Configured.start (exponential_delay ℕ ℕ))
        (Configured.half_open_max_calls (Configured.ratio Configured.failure_ratio 250) 4))
      (Configured.rejecting (Configured.limited 0 Concurrency.operations))

try_build-Sound_example :
    StaysValid (compile (Configured.builder_of configured)).runtime ((5, gates) ∷ (9, fails) ∷ [])
    × Admits (compile (Configured.builder_of configured)).sem
unfolding try_build validate exponential_delay
try_build-Sound_example =
    try_build-Sound configured (compile (Configured.builder_of configured))
      ((5, gates) ∷ (9, fails) ∷ []) refl
