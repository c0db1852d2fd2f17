-- ===== src/Breaker/Invariant.antt =====
-- The well-formed breakers of src/breaker.rs, and that every method keeps them so.
use execution_policy.Base.{ℕ, ◌≤◌, ◌<◌, ◌≡◌, ◌≢◌, Duration, Instant, none, List, [], ◌∷◌, arith}
use execution_policy.Base.Float.{Float64}
use execution_policy.Breaker.{
  Latch, closed, opened, half_open, Trip, consecutive, failure_ratio, BreakerRuntime, new, gate,
  record_success, record_failure,
}

module _ ⦃f : Float64⦄ where
  -- A threshold is a u32, and the builder makes it at least 1.
  abbrev pub IsTrip : Trip → Type 0
  IsTrip (consecutive threshold) = (1 ≤ threshold) × (threshold < 4294967296)
  IsTrip (failure_ratio _ _ _) = Unit {0}

  abbrev pub IsCalm : Trip → ℕ → Type 0
  IsCalm (consecutive threshold) failures = failures < threshold
  IsCalm (failure_ratio _ _ _) failures = Unit {0}

  abbrev pub IsProbing : Latch → BreakerRuntime → Type 0
  IsProbing closed b =
      (b.half_open_in_flight ≡ 0)
      × (b.half_open_successes ≡ 0)
      × IsCalm b.trip b.consecutive_failures
  IsProbing opened b =
      (b.half_open_in_flight ≡ 0) × (b.half_open_successes ≡ 0) × (b.open_until ≢ none)
  IsProbing half_open b =
      (b.half_open_in_flight ≤ b.half_open_max_calls)
      × (b.half_open_successes < b.half_open_max_calls)

  pub record IsValid (b : BreakerRuntime) : Type 0 where
    pub trip_set : IsTrip b.trip
    pub calls_set : (1 ≤ b.half_open_max_calls) × (b.half_open_max_calls < 4294967296)
    pub probing : IsProbing b.state b

  pub new-IsValid :
      (trip : Trip) (open_for : Duration) (calls : ℕ)
      → IsTrip trip
      → 1 ≤ calls
      → calls < 4294967296
      → IsValid (new trip open_for calls)
  unfolding new
  new-IsValid (consecutive threshold) open_for calls t lo hi = ground arith
  new-IsValid (failure_ratio _ _ _) open_for calls t lo hi = ground arith

  gate-IsValid : (b : BreakerRuntime) (now : Instant) → IsValid b → IsValid (gate b now).1
  unfolding gate
  gate-IsValid b now v = ground arith

  record_success-IsValid :
      (b : BreakerRuntime) (now : Instant) → IsValid b → IsValid (record_success b now).1
  unfolding record_success
  record_success-IsValid b now v = ground arith

  record_failure-IsValid :
      (b : BreakerRuntime) (now : Instant) → IsValid b → IsValid (record_failure b now).1
  unfolding record_failure
  record_failure-IsValid b now v = ground arith

-- What a caller does to the shared breaker.
pub data Call : Type 0 where
  gates succeeds fails : Call

module _ ⦃f : Float64⦄ where
  abbrev pub after : BreakerRuntime → Instant × Call → BreakerRuntime
  after b (now, gates) = (gate b now).1
  after b (now, succeeds) = (record_success b now).1
  after b (now, fails) = (record_failure b now).1

  unfoldable pub run : BreakerRuntime → List (Instant × Call) → BreakerRuntime
  run b [] = b
  run b (c ∷ cs) = run (after b c) cs

  pub after-IsValid : (b : BreakerRuntime) (c : Instant × Call) → IsValid b → IsValid (after b c)
  after-IsValid b (now, gates) v = gate-IsValid b now v
  after-IsValid b (now, succeeds) v = record_success-IsValid b now v
  after-IsValid b (now, fails) v = record_failure-IsValid b now v

  pub run-IsValid_from :
      (b : BreakerRuntime) (cs : List (Instant × Call)) → IsValid b → IsValid (run b cs)
  unfolding run
  run-IsValid_from b [] v = v
  run-IsValid_from b (c ∷ cs) v = run-IsValid_from (after b c) cs (after-IsValid b c v)

  -- From a new breaker, no interleaving of gates and records, of stragglers too, leaves the well-formed
  -- states: no more probes than allowed are in flight, an open breaker has the end of its cooldown, and
  -- a closed one that counts consecutive failures has fewer than its threshold.
  pub run-IsValid :
      (trip : Trip) (open_for : Duration) (calls : ℕ) (cs : List (Instant × Call))
      → IsTrip trip
      → 1 ≤ calls
      → calls < 4294967296
      → IsValid (run (new trip open_for calls) cs)
  run-IsValid trip open_for calls cs t lo hi =
      run-IsValid_from (new trip open_for calls) cs (new-IsValid trip open_for calls t lo hi)
