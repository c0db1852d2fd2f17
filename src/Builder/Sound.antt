-- ===== src/Builder/Sound.antt =====
-- A policy that is built has sound live parts, however it was configured (src/builder.rs).
use execution_policy.Base.{◌≤◌, ◌≡◌, Instant, Option, none, some, List, subst}
use execution_policy.Base.Float.{Float64}
use execution_policy.Outcome.{ok}
use execution_policy.Breaker.{CircuitBreaker, BreakerRuntime}
use execution_policy.Breaker.Invariant.{IsValid, Call, run, run-IsValid}
use execution_policy.Concurrency.{ConcurrencyLimit, Semaphore}
use execution_policy.Concurrency
use execution_policy.Builder.{Policy, try_build, compile, runtime_of, sem_of}
use execution_policy.Builder.Built.{compile-try_build}
use execution_policy.Builder.Configured

module _ ⦃f : Float64⦄ where
  -- A configuration whose breaker and limit, if set, are sound.
  abbrev BreakerFits : {E : Type 0} → Option (CircuitBreaker E) → Type 0
  BreakerFits none = Unit
  BreakerFits (some b) = Configured.IsSound b

  abbrev LimitFits : Option ConcurrencyLimit → Type 0
  LimitFits none = Unit
  LimitFits (some c) = 1 ≤ c.permits

  record Fits {E : Type 0} (b : Option (CircuitBreaker E)) (l : Option ConcurrencyLimit)
      : Type 0 where
    breaker_fits : BreakerFits b
    limit_fits : LimitFits l

  module _ {T E : Type 0} where
    builder_of-Fits :
        (c : Configured.BuilderCalls T E)
        → let b = Configured.builder_of c in Fits b.breaker b.concurrency
    builder_of-Fits Configured.start = record { breaker_fits = tt; limit_fits = tt }
    builder_of-Fits (Configured.retry b _) = builder_of-Fits b
    builder_of-Fits (Configured.attempt_timeout b _) = builder_of-Fits b
    builder_of-Fits (Configured.total_timeout b _) = builder_of-Fits b
    builder_of-Fits (Configured.circuit_breaker b c) = record {
      breaker_fits = Configured.breaker_of-IsSound c;
      limit_fits = (builder_of-Fits b).limit_fits;
    }
    builder_of-Fits (Configured.concurrency_limit b c) = record {
      breaker_fits = (builder_of-Fits b).breaker_fits;
      limit_fits = Configured.limit_of-permits c;
    }
    builder_of-Fits (Configured.on_event b) = builder_of-Fits b

  -- The breaker after any calls of its clients, if there is one.
  abbrev pub StaysValid : Option BreakerRuntime → List (Instant × Call) → Type 0
  StaysValid none cs = Unit
  StaysValid (some b) cs = IsValid (run b cs)

  abbrev pub Admits : Option Semaphore → Type 0
  Admits none = Unit
  Admits (some s) = 1 ≤ s.permits

  compile-StaysValid :
      {E : Type 0} (b : Option (CircuitBreaker E)) (cs : List (Instant × Call))
      → BreakerFits b
      → StaysValid (runtime_of b) cs
  compile-StaysValid none cs h = tt
  compile-StaysValid (some b) cs h =
      run-IsValid b.trip b.open_for b.half_open_max_calls cs h.trip_set h.probes h.narrow

  compile-Admits : (c : Option ConcurrencyLimit) → LimitFits c → Admits (sem_of c)
  unfolding Concurrency.compile Concurrency.new
  compile-Admits none h = tt
  compile-Admits (some c) h = h

  module _ {T E : Type 0} where
    -- A policy that the builder lets through, however it was configured by the setters, has
    -- a breaker that stays well-formed through any calls of its clients, and a semaphore with a permit.
    pub try_build-Sound :
        (c : Configured.BuilderCalls T E) (p : Policy T E) (cs : List (Instant × Call))
        → try_build (Configured.builder_of c) ≡ ok p
        → StaysValid p.runtime cs × Admits p.sem
    unfolding compile
    try_build-Sound c p cs h =
        let b = Configured.builder_of c in
        let fits = builder_of-Fits c in
        subst (λ (q : Policy T E). StaysValid q.runtime cs × Admits q.sem) (compile-try_build b p h)
          (
            compile-StaysValid b.breaker cs fits.breaker_fits,
            compile-Admits b.concurrency fits.limit_fits,
          )
