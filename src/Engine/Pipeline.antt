-- ===== src/Engine/Pipeline.antt =====
-- The pipeline around the retry loop (`run_pipeline` of src/engine.rs; `run_pipeline_boxed` is the same
-- text with another type of operation): the concurrency limit, then the breaker, then the loop.
pub mod Votes
pub mod Lift
pub mod Paced
pub mod Runs
pub mod Endings
pub mod Told
pub mod Truthful
pub mod Held
pub mod Balance
pub mod Paid
pub mod Cast
pub mod Ballot
pub mod Sound
use execution_policy.Base.{ℕ, ◌+◌, Instant, Bool, true, false, Option, none, some, if◌then◌else◌}
use execution_policy.Base.Float.{Float64}
use execution_policy.Outcome.{
  Result, ok, err, ExecutionError, operation, circuit_open, concurrency_rejected, BreakerState,
  is_timeout,
}
use execution_policy.Event.{Event}
use execution_policy.Classify.{ErrorPredicate}
use execution_policy.Breaker.{BreakerRuntime, gate, record_success, record_failure}
use execution_policy.Concurrency.{CompiledConcurrency, Scope, operations, attempts}
use execution_policy.Engine.World.{
  World, Plan, CompiledBreaker, Flow, next, finish, pending, stuck, M, ◌>>=◌, ◌>>◌, pure, return,
  catch, now, tell, set_breaker, context,
}
use execution_policy.Engine.Awaits.{acquire_permit, drop_permit}
use execution_policy.Engine.Drive.{Call, drive}

-- What the breaker is told of a result, if anything.
pub data Vote : Type 0 where
  success failure no_vote : Vote

abbrev counts : {E : Type 0} → Option (ErrorPredicate E) → E → Bool
counts none source = true
counts (some p) source = p source

unfoldable pub vote : {T E : Type 0} → CompiledBreaker E → Result T (ExecutionError E) → Vote
vote b (ok _) = success
vote b (err (operation source _)) = if counts b.record_when source then failure else success
vote b (err e) = if is_timeout e then failure else no_vote

abbrev deadline_of : Instant → Option ℕ → Option Instant
deadline_of start none = none
deadline_of start (some t) = some (start + t)

module _ ⦃f : Float64⦄ where
  abbrev cast_vote : Vote → BreakerRuntime → Instant → Option BreakerState × BreakerRuntime
  cast_vote success b t = record_success b t
  cast_vote failure b t = record_failure b t
  cast_vote no_vote b t = (none, b)

module _ ⦃f : Float64⦄ {T E : Type 0} where
  abbrev pub op_answer : Plan T E → Instant → Bool → M T E Bool
  op_answer plan start true = pure true
  op_answer plan start false = do
    tell plan Event.concurrency_rejected
    t ← now
    return (err (concurrency_rejected (context 0 start t none BreakerState.disabled)))

  abbrev pub scoped_permit :
      Scope → Plan T E → CompiledConcurrency → Instant → Option Instant → M T E Bool
  scoped_permit attempts plan limit start deadline = pure false
  scoped_permit operations plan limit start deadline = do
    got ← acquire_permit limit deadline
    op_answer plan start got

  -- One permit for the whole call: whether one is held.
  unfoldable pub op_permit_for :
      Option CompiledConcurrency → Plan T E → Instant → Option Instant → M T E Bool
  op_permit_for none plan start deadline = pure false
  op_permit_for (some limit) plan start deadline =
      scoped_permit limit.scope plan limit start deadline

  abbrev announce : Plan T E → BreakerState → M T E BreakerState
  announce plan BreakerState.half_open = do
    tell plan (Event.circuit_state_changed BreakerState.half_open)
    pure BreakerState.half_open
  announce plan s = pure s

  abbrev pub gated : Plan T E → Instant → Option BreakerState → M T E BreakerState
  gated plan start none = do
    t ← now
    return (err (circuit_open (context 0 start t none BreakerState.opened)))
  gated plan start (some s) = announce plan s

  -- The gate of the breaker, before the operation runs.
  unfoldable pub gate_through : Option (CompiledBreaker E) → Plan T E → Instant → M T E BreakerState
  gate_through none plan start w = next BreakerState.disabled w
  gate_through (some _) plan start w =
      let (answer, b) = gate w.shared.breaker w.clock in gated plan start answer (set_breaker w b)

  abbrev pub announce_change : Plan T E → Option BreakerState → M T E (Unit {0})
  announce_change plan none = pure tt
  announce_change plan (some to) = tell plan (Event.circuit_state_changed to)

  -- One vote on the result of the loop.
  unfoldable pub record_with :
      Option (CompiledBreaker E) → Plan T E → Result T (ExecutionError E) → M T E (Unit {0})
  record_with none plan result w = next tt w
  record_with (some cb) plan result w =
      let (change, b) = cast_vote (vote cb result) w.shared.breaker w.clock in
      announce_change plan change (set_breaker w b)

  -- The pipeline with its permit held.
  pub inner : Plan T E → Instant → Option Instant → M T E (Result T (ExecutionError E))
  inner plan start deadline = do
    s ← gate_through plan.breaker plan start
    result ← catch (
        drive (record { plan = plan; start = start; total_deadline = deadline; breaker_state = s }))
    record_with plan.breaker plan result
    pure result

  abbrev pub outer : Plan T E → Instant → Option Instant → M T E (Result T (ExecutionError E))
  outer plan start deadline = do
    held ← op_permit_for plan.concurrency plan start deadline
    result ← catch (inner plan start deadline)
    drop_permit held
    pure result

  -- `next` is the call's result, and `pending` a call that still waits.
  unfoldable pub run_pipeline : Plan T E → M T E (Result T (ExecutionError E))
  unfolding inner
  run_pipeline plan w = catch (outer plan w.clock (deadline_of w.clock plan.total_timeout)) w

  -- The twin around `drive_boxed`.
  abbrev pub run_pipeline_boxed : Plan T E → M T E (Result T (ExecutionError E))
  run_pipeline_boxed plan = run_pipeline plan
