-- ===== src/Builder/Configured.antt =====
-- What a client can configure, and that every policy built from it has sound live parts
-- (src/builder.rs, src/breaker.rs, src/concurrency.rs).
use execution_policy.Base.{u32, ℕ, ◌≤◌, ◌<◌, Duration, arith}
use execution_policy.Base.Float.{Float64, F64}
use execution_policy.Classify.{ErrorPredicate}
use execution_policy.Retry.{Retry}
use execution_policy.Breaker.{CircuitBreaker, Trip, consecutive_failures}
use execution_policy.Breaker.Config
use execution_policy.Breaker.Invariant.{IsTrip}
use execution_policy.Concurrency.{ConcurrencyLimit, Scope, Semaphore, limit}
use execution_policy.Concurrency
use execution_policy.Builder.{ExecutionPolicyBuilder}
use execution_policy.Builder.Setters

-- The calls that configure a concurrency limit, latest first.
pub data LimitCalls : Type 0 where
  limited : ℕ → Scope → LimitCalls
  max_queued : LimitCalls → ℕ → LimitCalls
  queue_timeout : LimitCalls → Duration → LimitCalls
  rejecting : LimitCalls → LimitCalls

abbrev pub limit_of : LimitCalls → ConcurrencyLimit
limit_of (limited n scope) = limit n scope
limit_of (max_queued c n) = Concurrency.max_queued (limit_of c) n
limit_of (queue_timeout c d) = Concurrency.queue_timeout (limit_of c) d
limit_of (rejecting c) = Concurrency.rejecting (limit_of c)

pub limit_of-permits : (c : LimitCalls) → 1 ≤ (limit_of c).permits
unfolding limit Concurrency.max_queued Concurrency.queue_timeout Concurrency.rejecting
limit_of-permits (limited n scope) = ground arith
limit_of-permits (max_queued c n) = limit_of-permits c
limit_of-permits (queue_timeout c d) = limit_of-permits c
limit_of-permits (rejecting c) = limit_of-permits c

module _ ⦃f : Float64⦄ where
  -- The calls that configure a breaker, latest first. A count is cut to a u32, the type of the argument.
  pub data BreakerCalls (E : Type 0) : Type 0 where
    consecutive : ℕ → BreakerCalls E
    failure_ratio : BreakerCalls E
    ratio : BreakerCalls E → F64 → BreakerCalls E
    minimum_throughput : BreakerCalls E → ℕ → BreakerCalls E
    sampling_window : BreakerCalls E → Duration → BreakerCalls E
    open_for : BreakerCalls E → Duration → BreakerCalls E
    half_open_max_calls : BreakerCalls E → ℕ → BreakerCalls E
    record_when : BreakerCalls E → ErrorPredicate E → BreakerCalls E

  with_ratio-IsTrip : (t : Trip) (r : F64) → IsTrip t → IsTrip (Config.with_ratio t r)
  with_ratio-IsTrip (Trip.consecutive _) r h = h
  with_ratio-IsTrip (Trip.failure_ratio _ _ _) r h = tt

  with_throughput-IsTrip : (t : Trip) (n : ℕ) → IsTrip t → IsTrip (Config.with_throughput t n)
  with_throughput-IsTrip (Trip.consecutive _) n h = h
  with_throughput-IsTrip (Trip.failure_ratio _ _ _) n h = tt

  with_window-IsTrip : (t : Trip) (d : Duration) → IsTrip t → IsTrip (Config.with_window t d)
  with_window-IsTrip (Trip.consecutive _) d h = h
  with_window-IsTrip (Trip.failure_ratio _ _ _) d h = tt

  module _ {E : Type 0} where
    abbrev pub breaker_of : BreakerCalls E → CircuitBreaker E
    breaker_of (consecutive n) = consecutive_failures E (u32 n)
    breaker_of failure_ratio = Config.failure_ratio E
    breaker_of (ratio c r) = Config.ratio (breaker_of c) r
    breaker_of (minimum_throughput c n) = Config.minimum_throughput (breaker_of c) (u32 n)
    breaker_of (sampling_window c d) = Config.sampling_window (breaker_of c) d
    breaker_of (open_for c d) = Config.open_for (breaker_of c) d
    breaker_of (half_open_max_calls c n) = Config.half_open_max_calls (breaker_of c) (u32 n)
    breaker_of (record_when c p) = Config.record_when (breaker_of c) p

    pub record IsSound (b : CircuitBreaker E) : Type 0 where
      pub trip_set : IsTrip b.trip
      pub probes : 1 ≤ b.half_open_max_calls
      pub narrow : b.half_open_max_calls < 4294967296

    with_trip-IsSound :
        (b : CircuitBreaker E) (t : Trip) → IsSound b → IsTrip t → IsSound (record b { trip = t })
    with_trip-IsSound b t h g = record { trip_set = g; probes = h.probes; narrow = h.narrow }

    pub breaker_of-IsSound : (c : BreakerCalls E) → IsSound (breaker_of c)
    unfolding consecutive_failures Config.failure_ratio
    breaker_of-IsSound (consecutive n) = ground arith
    breaker_of-IsSound failure_ratio = ground arith
    breaker_of-IsSound (ratio c r) =
        let h = breaker_of-IsSound c in
        with_trip-IsSound (breaker_of c) _ h (with_ratio-IsTrip (breaker_of c).trip r h.trip_set)
    breaker_of-IsSound (minimum_throughput c n) =
        let h = breaker_of-IsSound c in
        with_trip-IsSound (breaker_of c) _ h
          (with_throughput-IsTrip (breaker_of c).trip (u32 n) h.trip_set)
    breaker_of-IsSound (sampling_window c d) =
        let h = breaker_of-IsSound c in
        with_trip-IsSound (breaker_of c) _ h (with_window-IsTrip (breaker_of c).trip d h.trip_set)
    breaker_of-IsSound (open_for c d) =
        let h = breaker_of-IsSound c in
        record { trip_set = h.trip_set; probes = h.probes; narrow = h.narrow }
    breaker_of-IsSound (half_open_max_calls c n) =
        let g = breaker_of-IsSound c in
        record { trip_set = g.trip_set; probes = ground arith; narrow = ground arith }
    breaker_of-IsSound (record_when c p) =
        let h = breaker_of-IsSound c in
        record { trip_set = h.trip_set; probes = h.probes; narrow = h.narrow }

  -- The calls that configure a policy, latest first.
  pub data BuilderCalls (T E : Type 0) : Type 0 where
    start : BuilderCalls T E
    retry : BuilderCalls T E → Retry T E → BuilderCalls T E
    attempt_timeout : BuilderCalls T E → Duration → BuilderCalls T E
    total_timeout : BuilderCalls T E → Duration → BuilderCalls T E
    circuit_breaker : BuilderCalls T E → BreakerCalls E → BuilderCalls T E
    concurrency_limit : BuilderCalls T E → LimitCalls → BuilderCalls T E
    on_event : BuilderCalls T E → BuilderCalls T E

  abbrev pub builder_of : {T E : Type 0} → BuilderCalls T E → ExecutionPolicyBuilder T E
  builder_of {T} {E} start = Setters.new T E
  builder_of (retry b r) = Setters.retry (builder_of b) r
  builder_of (attempt_timeout b d) = Setters.attempt_timeout (builder_of b) d
  builder_of (total_timeout b d) = Setters.total_timeout (builder_of b) d
  builder_of (circuit_breaker b c) = Setters.circuit_breaker (builder_of b) (breaker_of c)
  builder_of (concurrency_limit b l) = Setters.concurrency_limit (builder_of b) (limit_of l)
  builder_of (on_event b) = Setters.on_event (builder_of b)
