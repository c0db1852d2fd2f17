-- ===== src/Builder.antt =====
-- The builder of a policy (src/builder.rs).
pub mod Built
pub mod Setters
pub mod Configured
pub mod Sound
use execution_policy.Base.{
  ℕ, Duration, Bool, true, false, Option, none, some, ltb, ◌==◌, if◌then◌else◌,
}
use execution_policy.Base.Float.{Float64}
use execution_policy.Outcome.{Result, ok, err}
use execution_policy.Retry.{Retry, no_retries}
use execution_policy.Breaker.{CircuitBreaker, BreakerRuntime}
use execution_policy.Breaker
use execution_policy.Concurrency.{ConcurrencyLimit, CompiledConcurrency, Semaphore}
use execution_policy.Concurrency
use execution_policy.Engine.World.{Plan, CompiledBreaker}

-- The messages of `BuildError`.
pub data BuildError : Type 0 where
  no_attempts : BuildError
  timeout_inversion : (attempt total : Duration) → BuildError

-- `CircuitBreaker::compile`
module _ ⦃f : Float64⦄ where
  abbrev pub compile_breaker : {E : Type 0} → CircuitBreaker E → BreakerRuntime × CompiledBreaker E
  compile_breaker b =
      (Breaker.new b.trip b.open_for b.half_open_max_calls, record { record_when = b.record_when })

  pub record ExecutionPolicyBuilder (T E : Type 0) : Type 0 where
    pub retry : Option (Retry T E)
    pub attempt_timeout : Option Duration
    pub total_timeout : Option Duration
    pub breaker : Option (CircuitBreaker E)
    pub concurrency : Option ConcurrencyLimit
    pub on_event : Bool

  -- A policy: its plan, and the live parts that the plan holds behind an `Arc`.
  pub record Policy (T E : Type 0) : Type 0 where
    pub plan : Plan T E
    pub runtime : Option BreakerRuntime
    pub sem : Option Semaphore

  abbrev pub no_cap : {T E : Type 0} → Option (Retry T E) → Bool
  no_cap none = false
  no_cap (some r) = r.max_attempts == 0

  abbrev pub inverted : Option Duration → Option Duration → Result (Unit {0}) BuildError
  inverted (some a) (some t) = if ltb t a then err (timeout_inversion a t) else ok tt
  inverted _ _ = ok tt

  abbrev pub retry_or_none : {T E : Type 0} → Option (Retry T E) → Retry T E
  retry_or_none {T} {E} none = no_retries T E
  retry_or_none (some r) = r

  abbrev pub compiled_breaker :
      {E : Type 0} → Option (CircuitBreaker E) → Option (CompiledBreaker E)
  compiled_breaker none = none
  compiled_breaker (some b) = some (compile_breaker b).1

  abbrev pub runtime_of : {E : Type 0} → Option (CircuitBreaker E) → Option BreakerRuntime
  runtime_of none = none
  runtime_of (some b) = some (compile_breaker b).0

  abbrev pub compiled_limit : Option ConcurrencyLimit → Option CompiledConcurrency
  compiled_limit none = none
  compiled_limit (some c) = some (Concurrency.compile c).0

  abbrev pub sem_of : Option ConcurrencyLimit → Option Semaphore
  sem_of none = none
  sem_of (some c) = some (Concurrency.compile c).1

  module _ {T E : Type 0} where
    unfoldable pub validate : ExecutionPolicyBuilder T E → Result (Unit {0}) BuildError
    validate b =
        if no_cap b.retry then err no_attempts else inverted b.attempt_timeout b.total_timeout

    unfoldable pub compile : ExecutionPolicyBuilder T E → Policy T E
    compile b = record {
      plan = record {
        retry = retry_or_none b.retry;
        attempt_timeout = b.attempt_timeout;
        total_timeout = b.total_timeout;
        breaker = compiled_breaker b.breaker;
        concurrency = compiled_limit b.concurrency;
        on_event = b.on_event;
      };
      runtime = runtime_of b.breaker;
      sem = sem_of b.concurrency;
    }

    abbrev pub after_check :
        ExecutionPolicyBuilder T E → Result (Unit {0}) BuildError → Result (Policy T E) BuildError
    after_check b (ok _) = ok (compile b)
    after_check b (err e) = err e

    -- `build` and `build_with` panic where `try_build` gives an error.
    unfoldable pub try_build : ExecutionPolicyBuilder T E → Result (Policy T E) BuildError
    try_build b = after_check b (validate b)
