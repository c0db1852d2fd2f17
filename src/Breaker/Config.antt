-- ===== src/Breaker/Config.antt =====
-- The configuration of a breaker (`CircuitBreaker` of src/breaker.rs) by its fluent setters.
use execution_policy.Base.{ℕ, Duration, none, some, secs, max_of}
use execution_policy.Base.Float.{Float64, F64}
use execution_policy.Classify.{ErrorPredicate}
use execution_policy.Breaker.{Trip, CircuitBreaker}

module _ ⦃f : Float64⦄ where
  abbrev pub with_ratio : Trip → F64 → Trip
  with_ratio (Trip.failure_ratio _ n span) r =
      Trip.failure_ratio (f.clamp r (f.of_u64 0) (f.of_u64 1)) n span
  with_ratio (Trip.consecutive t) r = Trip.consecutive t

  abbrev pub with_throughput : Trip → ℕ → Trip
  with_throughput (Trip.failure_ratio r _ span) n = Trip.failure_ratio r n span
  with_throughput (Trip.consecutive t) n = Trip.consecutive t

  abbrev pub with_window : Trip → Duration → Trip
  with_window (Trip.failure_ratio r n _) d = Trip.failure_ratio r n d
  with_window (Trip.consecutive t) d = Trip.consecutive t

  unfoldable pub failure_ratio : (E : Type 0) → CircuitBreaker E
  failure_ratio E = record {
    trip = Trip.failure_ratio (f.div (f.of_u64 1) (f.of_u64 2)) 10 (secs 30);
    open_for = secs 30;
    half_open_max_calls = 1;
    record_when = none;
  }

  module _ {E : Type 0} where
    abbrev pub failure_ratio_value : CircuitBreaker E → F64 → CircuitBreaker E
    failure_ratio_value b r = record b { trip = with_ratio b.trip r }

    abbrev pub ratio : CircuitBreaker E → F64 → CircuitBreaker E
    ratio b r = failure_ratio_value b r

    abbrev pub minimum_throughput : CircuitBreaker E → ℕ → CircuitBreaker E
    minimum_throughput b n = record b { trip = with_throughput b.trip n }

    abbrev pub sampling_window : CircuitBreaker E → Duration → CircuitBreaker E
    sampling_window b d = record b { trip = with_window b.trip d }

    abbrev pub open_for : CircuitBreaker E → Duration → CircuitBreaker E
    open_for b d = record b { open_for = d }

    abbrev pub half_open_max_calls : CircuitBreaker E → ℕ → CircuitBreaker E
    half_open_max_calls b n = record b { half_open_max_calls = max_of n 1 }

    abbrev pub record_when : CircuitBreaker E → ErrorPredicate E → CircuitBreaker E
    record_when b p = record b { record_when = some p }
