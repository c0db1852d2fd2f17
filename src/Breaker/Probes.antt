-- ===== src/Breaker/Probes.antt =====
-- The probes of a half-open breaker (src/breaker.rs).
use execution_policy.Base.{
  ℕ, ◌+◌, ◌-◌, ◌≤◌, ◌<◌, ◌≡◌, Instant, Option, none, some, List, [], ◌∷◌, arith, length, min_of,
}
use execution_policy.Base.Float.{Float64}
use execution_policy.Outcome.{BreakerState}
use execution_policy.Breaker.{closed, half_open, BreakerRuntime, gate, state_at, record_success}

module _ ⦃f : Float64⦄ where
  abbrev count_some : Option BreakerState → ℕ
  count_some none = 0
  count_some (some _) = 1

  -- How many calls are admitted of those that ask at the given instants, with no outcome in between.
  unfoldable pub admitted : BreakerRuntime → List Instant → ℕ
  admitted b [] = 0
  admitted b (now ∷ ts) = let (answer, b') = gate b now in count_some answer + admitted b' ts

  abbrev pub IsProbed : BreakerRuntime → Type 0
  IsProbed b =
      (b.state ≡ half_open)
      × (b.half_open_in_flight ≤ b.half_open_max_calls)
      × (b.half_open_max_calls < 4294967296)

  gate-IsProbed :
      (b : BreakerRuntime) (now : Instant)
      → IsProbed b
      → IsProbed (gate b now).1
        × ((gate b now).1.half_open_max_calls ≡ b.half_open_max_calls)
        × (count_some (gate b now).0 + b.half_open_in_flight ≡ (gate b now).1.half_open_in_flight)
        × (b.half_open_in_flight < b.half_open_max_calls → count_some (gate b now).0 ≡ 1)
  unfolding gate
  gate-IsProbed b now h = ground arith

  -- A half-open breaker admits callers up to `half_open_max_calls` probes in flight, and no further.
  pub admitted-min_of :
      (b : BreakerRuntime) (ts : List Instant)
      → b.state ≡ half_open
      → b.half_open_in_flight ≤ b.half_open_max_calls
      → b.half_open_max_calls < 4294967296
      → admitted b ts ≡ min_of (length ts) (b.half_open_max_calls - b.half_open_in_flight)
  unfolding admitted
  admitted-min_of b [] s le hi = ground arith
  admitted-min_of b (now ∷ ts) s le hi =
      let (next, cap, more, room) = gate-IsProbed b now (s, le, hi) in
      ground (arith, admitted-min_of (gate b now).1 ts next.0 next.1 next.2)

  -- The breaker after successes at the given instants.
  unfoldable pub after_successes : BreakerRuntime → List Instant → BreakerRuntime
  after_successes b [] = b
  after_successes b (now ∷ ts) = after_successes (record_success b now).1 ts

  record_success-more :
      (b : BreakerRuntime) (now : Instant)
      → b.state ≡ half_open
      → b.half_open_max_calls < 4294967296
      → b.half_open_successes + 1 < b.half_open_max_calls
      → let b' = (record_success b now).1 in
        ((record_success b now).0 ≡ none)
        × (b'.state ≡ half_open)
        × (b'.half_open_max_calls ≡ b.half_open_max_calls)
        × (b'.half_open_successes ≡ b.half_open_successes + 1)
  unfolding record_success
  record_success-more b now s hi low = ground arith

  record_success-last :
      (b : BreakerRuntime) (now : Instant)
      → b.state ≡ half_open
      → b.half_open_max_calls < 4294967296
      → b.half_open_successes + 1 ≡ b.half_open_max_calls
      → let b' = (record_success b now).1 in
        ((record_success b now).0 ≡ some BreakerState.closed)
        × (b'.state ≡ closed)
        × (b'.consecutive_failures ≡ 0)
        × (b'.window.buckets ≡ [])
  unfolding record_success
  record_success-last b now s hi e = ground arith

  -- A half-open breaker stays half-open through fewer successes than it still wants, and the success
  -- that completes them closes it, with no failure counted.
  pub after_successes-closed :
      (b : BreakerRuntime) (ts : List Instant) (now : Instant)
      → b.state ≡ half_open
      → b.half_open_max_calls < 4294967296
      → b.half_open_successes + length ts + 1 ≡ b.half_open_max_calls
      → let p = after_successes b ts in
        let q = record_success p now in
        (p.state ≡ half_open)
        × (q.0 ≡ some BreakerState.closed)
        × (q.1.state ≡ closed)
        × (q.1.consecutive_failures ≡ 0)
        × (q.1.window.buckets ≡ [])
  unfolding after_successes
  after_successes-closed b [] now s hi e =
      let (told, latch, none_failed, emptied) = record_success-last b now s hi (omega arith) in
      (s, told, latch, none_failed, emptied)
  after_successes-closed b (t ∷ ts) now s hi e =
      let (quiet, s', cap, more) = record_success-more b t s hi (omega arith) in
      after_successes-closed (record_success b t).1 ts now s' (omega arith) (omega arith)

  -- A half-open breaker whose slots are all taken, with nobody left to record an outcome, rejects every
  -- call at every later instant, while a poll keeps reading `HalfOpen`.
  pub gate_wedged :
      (b : BreakerRuntime) (now : Instant)
      → b.state ≡ half_open
      → b.half_open_max_calls ≤ b.half_open_in_flight
      → (gate b now ≡ (none, b)) × (state_at b now ≡ BreakerState.half_open)
  unfolding gate state_at
  gate_wedged b now s full = ground arith
