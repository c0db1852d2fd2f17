-- ===== src/Breaker/Cooldown.antt =====
-- The cooldown of an open breaker, as callers and pollers see it (src/breaker.rs).
use execution_policy.Base.{
  ◌+◌, ◌≤◌, ◌<◌, ◌≡◌, refl, ◌≢◌, subst, ◌↔◌, Instant, Option, none, some, arith,
}
use execution_policy.Base.Float.{Float64}
use execution_policy.Outcome.{BreakerState}
use execution_policy.Breaker.{
  Latch, closed, opened, half_open, BreakerRuntime, gate, state_at, reported, cooling_until,
  record_failure,
}
use execution_policy.Breaker.Invariant.{IsValid, IsProbing}

module _ ⦃f : Float64⦄ where
  -- What the three methods say at `now` of a breaker that cools down until `until`.
  pub record Cooling (until now : Instant) (b : BreakerRuntime) : Type 0 where
    pub early :
        now < until
        → (gate b now ≡ (none, b))
          × (state_at b now ≡ BreakerState.opened)
          × (cooling_until b now ≡ some until)
    pub late :
        until ≤ now
        → ((gate b now).0 ≡ some BreakerState.half_open)
          × (state_at b now ≡ BreakerState.half_open)
          × (cooling_until b now ≡ none)
          × ((gate b now).1.half_open_in_flight ≡ 1)

  -- A failure that trips the breaker, in whatever state, starts a cooldown of `open_for`: before its
  -- end every call is rejected and the breaker stays as it is, and from its end on the next call is
  -- admitted as the first probe. The two polling methods agree with the gate at every instant.
  pub record_failure-Cooling :
      (b : BreakerRuntime) (failed now : Instant)
      → (record_failure b failed).0 ≡ some BreakerState.opened
      → Cooling (failed + b.open_for) now (record_failure b failed).1
  unfolding record_failure gate state_at cooling_until
  record_failure-Cooling b failed now h = ground arith

  -- In a well-formed breaker a poll reads `Open` exactly when the breaker is latched open and a call at
  -- that instant would be rejected.
  pub state_at-gate :
      (b : BreakerRuntime) (now : Instant)
      → IsValid b
      → (state_at b now ≡ BreakerState.opened) ↔ ((b.state ≡ opened) × ((gate b now).0 ≡ none))
  unfolding state_at gate
  state_at-gate b now v = ground arith

  -- A cooling instant that is reported is the first one at which a call is admitted.
  pub cooling_until-gate :
      (b : BreakerRuntime) (now until later : Instant)
      → cooling_until b now ≡ some until
      → (now < until) × (((gate b later).0 ≡ none) ↔ (later < until))
  unfolding cooling_until gate
  cooling_until-gate b now until later h = ground arith

  reported-opened :
      (s : Latch) (now : Instant) (o : Option Instant)
      → (s ≡ opened → o ≢ none)
      → reported s now o ≡ BreakerState.opened
      → (until : Instant) × (s ≡ opened) × (o ≡ some until) × (now < until)
  reported-opened closed now o set h = ground arith
  reported-opened half_open now o set h = ground arith
  reported-opened opened now none set h = absurd (set refl refl)
  reported-opened opened now (some t) set h = (t, refl, refl, ground arith)

  open_until_set : (b : BreakerRuntime) → IsValid b → b.state ≡ opened → b.open_until ≢ none
  open_until_set b v e = (subst (λ s. IsProbing s b) e v.probing).2

  -- A well-formed breaker that a poll reads as `Open` reports an instant that lies ahead. Before it every call is
  -- rejected, and from it on the next call is admitted as a probe.
  pub state_at-opened :
      (b : BreakerRuntime) (now : Instant)
      → IsValid b
      → state_at b now ≡ BreakerState.opened
      → (until : Instant) × (cooling_until b now ≡ some until)
        × (now < until)
        × ((later : Instant) → later < until → (gate b later).0 ≡ none)
        × ((later : Instant) → until ≤ later → (gate b later).0 ≡ some BreakerState.half_open)
  unfolding state_at cooling_until gate
  state_at-opened b now v h =
      let (until, latched, set, ahead) =
        reported-opened b.state now b.open_until (open_until_set b v) h in
      (until, ground arith, ahead, λ later lt. ground arith, λ later le. ground arith)
