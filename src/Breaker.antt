-- ===== src/Breaker.antt =====
-- The circuit breaker (src/breaker.rs). Each method is one atomic step: it holds the mutex, but for the
-- fast path of `gate`, which is one load. The breaker after a call stands beside its result.
pub mod Window
pub mod Invariant
pub mod Trips
pub mod Ratio
pub mod Cooldown
pub mod Probes
pub mod Config
use execution_policy.Base.{
  ℕ, ◌+◌, ◌-◌, ◌≤◌, Duration, Instant, Bool, true, false, ◌&&◌, Option, none, some, ltb, leb,
  if◌then◌else◌, max_of, secs, u32,
}
use execution_policy.Base.Float.{Float64, F64}
use execution_policy.Outcome.{BreakerState}
use execution_policy.Classify.{ErrorPredicate}

-- The values of the atomic `state`: CLOSED, OPEN, HALF_OPEN.
pub data Latch : Type 0 where
  closed opened half_open : Latch

module _ ⦃f : Float64⦄ where
  pub data Trip : Type 0 where
    consecutive : (threshold : ℕ) → Trip
    failure_ratio : (ratio : F64) (min_throughput : ℕ) (window : Duration) → Trip

  -- `CircuitBreaker`, the configuration.
  pub record CircuitBreaker (E : Type 0) : Type 0 where
    pub trip : Trip
    pub open_for : Duration
    pub half_open_max_calls : ℕ
    pub record_when : Option (ErrorPredicate E)

  -- `BreakerRuntime` with its `Inner`.
  pub record BreakerRuntime : Type 0 where
    pub state : Latch
    pub trip : Trip
    pub open_for : Duration
    pub half_open_max_calls : ℕ
    pub open_until : Option Instant
    pub consecutive_failures : ℕ  -- u32
    pub half_open_in_flight : ℕ  -- u32
    pub half_open_successes : ℕ  -- u32
    pub window : Window.Window

  unfoldable pub consecutive_failures : (E : Type 0) → ℕ → CircuitBreaker E
  consecutive_failures E n = record {
    trip = consecutive (max_of n 1);
    open_for = secs 30;
    half_open_max_calls = 1;
    record_when = none;
  }

  abbrev new_window : Trip → Window.Window
  new_window (failure_ratio _ _ span) = Window.new span
  new_window (consecutive _) = Window.new (secs 1)

  -- `BreakerRuntime::new`
  unfoldable pub new : Trip → Duration → ℕ → BreakerRuntime
  new trip open_for half_open_max_calls = record {
    state = closed;
    trip = trip;
    open_for = open_for;
    half_open_max_calls = half_open_max_calls;
    open_until = none;
    consecutive_failures = 0;
    half_open_in_flight = 0;
    half_open_successes = 0;
    window = new_window trip;
  }

  abbrev passed : Instant → Option Instant → Bool
  passed now none = false
  passed now (some t) = leb t now

  -- `open_until.map(|t| now >= t).unwrap_or(true)`
  abbrev pub ready : Instant → Option Instant → Bool
  ready now none = true
  ready now (some t) = leb t now

  abbrev reported : Latch → Instant → Option Instant → BreakerState
  reported closed now until = BreakerState.closed
  reported half_open now until = BreakerState.half_open
  reported opened now until =
      if passed now until then BreakerState.half_open else BreakerState.opened

  unfoldable pub state_at : BreakerRuntime → Instant → BreakerState
  state_at b now = reported b.state now b.open_until

  abbrev before : Instant → Option Instant → Option Instant
  before now none = none
  before now (some t) = if ltb now t then some t else none

  abbrev cooling : Latch → Instant → Option Instant → Option Instant
  cooling opened now until = before now until
  cooling _ now until = none

  unfoldable pub cooling_until : BreakerRuntime → Instant → Option Instant
  cooling_until b now = cooling b.state now b.open_until

  -- `Ok(state)` admits the call; `none` is `Err(())`.
  abbrev gate_at : Latch → BreakerRuntime → Instant → Option BreakerState × BreakerRuntime
  gate_at closed b now = (some BreakerState.closed, b)
  gate_at opened b now =
      if ready now b.open_until
      then (
        some BreakerState.half_open,
        record b { state = half_open; half_open_in_flight = 1; half_open_successes = 0 },
      )
      else (none, b)
  gate_at half_open b now =
      if ltb b.half_open_in_flight b.half_open_max_calls
      then (
        some BreakerState.half_open,
        record b { half_open_in_flight = u32 (b.half_open_in_flight + 1) },
      )
      else (none, b)

  unfoldable pub gate : BreakerRuntime → Instant → Option BreakerState × BreakerRuntime
  gate b now = gate_at b.state b now

  -- `open` and `close`
  unfoldable pub open_at : BreakerRuntime → Instant → BreakerRuntime
  open_at b now = record b {
    state = opened;
    open_until = some (now + b.open_for);
    half_open_successes = 0;
    half_open_in_flight = 0;
  }

  unfoldable pub close : BreakerRuntime → BreakerRuntime
  unfolding Window.clear
  close b = record b {
    state = closed;
    consecutive_failures = 0;
    half_open_successes = 0;
    half_open_in_flight = 0;
    window = Window.clear b.window;
  }

  -- Also the breaker after the test, which evicts old buckets when the trip is a ratio.
  abbrev trips : Trip → BreakerRuntime → Instant → Bool × BreakerRuntime
  trips (consecutive threshold) b now = (leb threshold b.consecutive_failures, b)
  trips (failure_ratio ratio min_throughput _) b now =
      let (w, failures, total) = Window.totals b.window now in
      (
        leb min_throughput total && f.ge (f.div (f.of_u64 failures) (f.of_u64 total)) ratio,
        record b { window = w },
      )

  unfoldable pub should_trip : BreakerRuntime → Instant → Bool × BreakerRuntime
  should_trip b now = trips b.trip b now

  abbrev success_at : Latch → BreakerRuntime → Instant → Option BreakerState × BreakerRuntime
  success_at half_open b now =
      let b' = record b {
        half_open_in_flight = b.half_open_in_flight - 1;
        half_open_successes = u32 (b.half_open_successes + 1);
      } in
      if leb b'.half_open_max_calls b'.half_open_successes
      then (some BreakerState.closed, close b')
      else (none, b')
  success_at _ b now =
      (none, record b { consecutive_failures = 0; window = Window.count b.window now false })

  unfoldable pub record_success : BreakerRuntime → Instant → Option BreakerState × BreakerRuntime
  unfolding close
  record_success b now = success_at b.state b now

  abbrev failure_at : Latch → BreakerRuntime → Instant → Option BreakerState × BreakerRuntime
  failure_at half_open b now = (
    some BreakerState.opened,
    open_at (record b { half_open_in_flight = b.half_open_in_flight - 1 }) now,
  )
  failure_at _ b now =
      let b' = record b {
        consecutive_failures = u32 (b.consecutive_failures + 1);
        window = Window.count b.window now true;
      } in
      let (trip, b'') = should_trip b' now in
      if trip then (some BreakerState.opened, open_at b'' now) else (none, b'')

  unfoldable pub record_failure : BreakerRuntime → Instant → Option BreakerState × BreakerRuntime
  unfolding open_at should_trip
  record_failure b now = failure_at b.state b now
