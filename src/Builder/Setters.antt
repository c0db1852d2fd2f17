-- ===== src/Builder/Setters.antt =====
-- The fluent setters of the policy builder (src/builder.rs). What is set twice is what was set last; a
-- build with debug assertions panics there.
use execution_policy.Base.{Duration, false, true, none, some}
use execution_policy.Base.Float.{Float64}
use execution_policy.Retry.{Retry}
use execution_policy.Breaker.{CircuitBreaker}
use execution_policy.Concurrency.{ConcurrencyLimit}
use execution_policy.Builder.{ExecutionPolicyBuilder}

module _ ⦃f : Float64⦄ where
  -- `new` and `default`
  abbrev pub new : (T E : Type 0) → ExecutionPolicyBuilder T E
  new T E = record {
    retry = none;
    attempt_timeout = none;
    total_timeout = none;
    breaker = none;
    concurrency = none;
    on_event = false;
  }

  module _ {T E : Type 0} where
    abbrev pub retry : ExecutionPolicyBuilder T E → Retry T E → ExecutionPolicyBuilder T E
    retry b r = record b { retry = some r }

    abbrev pub attempt_timeout : ExecutionPolicyBuilder T E → Duration → ExecutionPolicyBuilder T E
    attempt_timeout b d = record b { attempt_timeout = some d }

    abbrev pub total_timeout : ExecutionPolicyBuilder T E → Duration → ExecutionPolicyBuilder T E
    total_timeout b d = record b { total_timeout = some d }

    abbrev pub circuit_breaker :
        ExecutionPolicyBuilder T E → CircuitBreaker E → ExecutionPolicyBuilder T E
    circuit_breaker b breaker = record b { breaker = some breaker }

    abbrev pub concurrency_limit :
        ExecutionPolicyBuilder T E → ConcurrencyLimit → ExecutionPolicyBuilder T E
    concurrency_limit b limit = record b { concurrency = some limit }

    abbrev pub on_event : ExecutionPolicyBuilder T E → ExecutionPolicyBuilder T E
    on_event b = record b { on_event = true }
