-- ===== src/Breaker/Trips.antt =====
-- When a breaker that counts consecutive failures trips (src/breaker.rs).
use execution_policy.Base.{
  ℕ, ◌+◌, ◌≤◌, ◌<◌, ◌≡◌, refl, ◌⊎◌, inl, inr, Duration, Instant, Bool, true, false, Option, none,
  some, List, [], ◌∷◌, arith, leb, if◌then◌else◌,
}
use execution_policy.Base.Float.{Float64}
use execution_policy.Outcome.{BreakerState}
use execution_policy.Breaker.{
  closed, consecutive, BreakerRuntime, new, record_success, record_failure,
}

-- The reference: the instant of the outcome that makes `threshold` failures in a row, `streak` of them
-- before the list. An outcome that is `true` is a success.
unfoldable pub streak_reaches : ℕ → ℕ → List (Instant × Bool) → Option Instant
streak_reaches threshold streak [] = none
streak_reaches threshold streak ((now, true) ∷ os) = streak_reaches threshold 0 os
streak_reaches threshold streak ((now, false) ∷ os) =
    let rest = streak_reaches threshold (streak + 1) os in
    if leb threshold (streak + 1) then some now else rest

module _ ⦃f : Float64⦄ where
  abbrev pub record_outcome : BreakerRuntime → Instant → Bool → Option BreakerState × BreakerRuntime
  record_outcome b now true = record_success b now
  record_outcome b now false = record_failure b now

  abbrev tripped_at : Instant → Option BreakerState → Option Instant → Option Instant
  tripped_at now none rest = rest
  tripped_at now (some _) rest = some now

  -- The outcomes are recorded in turn until one of them reports a transition.
  unfoldable pub first_trip : BreakerRuntime → List (Instant × Bool) → Option Instant
  first_trip b [] = none
  first_trip b ((now, ok) ∷ os) =
      let (transition, b') = record_outcome b now ok in
      let rest = first_trip b' os in tripped_at now transition rest

  -- Still closed, with `streak` failures in a row.
  record Counts (threshold streak : ℕ) (b : BreakerRuntime) : Type 0 where
    latch : b.state ≡ closed
    trip_set : b.trip ≡ consecutive threshold
    counted : b.consecutive_failures ≡ streak
    low : streak < threshold

  record_success-Counts :
      (threshold streak : ℕ) (b : BreakerRuntime) (now : Instant)
      → 1 ≤ threshold
      → Counts threshold streak b
      → ((record_success b now).0 ≡ none) × Counts threshold 0 (record_success b now).1
  unfolding record_success
  record_success-Counts threshold streak b now lo c = ground arith

  record_failure-Counts :
      (threshold streak : ℕ) (b : BreakerRuntime) (now : Instant)
      → threshold < 4294967296
      → Counts threshold streak b
      → ((leb threshold (streak + 1) ≡ true)
          × ((record_failure b now).0 ≡ some BreakerState.opened))
        ⊎ ((leb threshold (streak + 1) ≡ false)
            × ((record_failure b now).0 ≡ none)
            × Counts threshold (streak + 1) (record_failure b now).1)
  unfolding record_failure
  record_failure-Counts threshold streak b now hi c = ground arith

  first_trip-Counts :
      (threshold streak : ℕ) (b : BreakerRuntime) (os : List (Instant × Bool))
      → 1 ≤ threshold
      → threshold < 4294967296
      → Counts threshold streak b
      → first_trip b os ≡ streak_reaches threshold streak os
  unfolding first_trip streak_reaches
  first_trip-Counts threshold streak b [] lo hi c = refl
  first_trip-Counts threshold streak b ((now, true) ∷ os) lo hi c =
      let (quiet, next) = record_success-Counts threshold streak b now lo c in
      ground (arith, first_trip-Counts threshold 0 (record_success b now).1 os lo hi next)
  first_trip-Counts threshold streak b ((now, false) ∷ os) lo hi c =
      elim (record_failure-Counts threshold streak b now hi c) [
        | inl (reached, told) ↦ ground arith
        | inr (below, quiet, next) ↦
            ground (
              arith,
              first_trip-Counts threshold (streak + 1) (record_failure b now).1 os lo hi next,
            )
      ]

  -- A new breaker that counts consecutive failures trips at the outcome that makes `threshold` of them
  -- in a row, a success starting the count again, and at no other.
  pub first_trip-streak :
      (threshold calls : ℕ) (open_for : Duration) (os : List (Instant × Bool))
      → 1 ≤ threshold
      → threshold < 4294967296
      → first_trip (new (consecutive threshold) open_for calls) os ≡ streak_reaches threshold 0 os
  unfolding new
  first_trip-streak threshold calls open_for os lo hi =
      first_trip-Counts threshold 0 (new (consecutive threshold) open_for calls) os lo hi
        (ground arith)
