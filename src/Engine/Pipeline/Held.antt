-- ===== src/Engine/Pipeline/Held.antt =====
-- What a call of the pipeline (`run_pipeline` of src/engine.rs) does to an account.
use execution_policy.Base.{arith, ℕ, ◌+◌, ◌≤◌, ◌<◌, Bool, true, false, Option, none, some}
use execution_policy.Base.{Instant}
use execution_policy.Base.Float.{Float64}
use execution_policy.Outcome.{Result, ExecutionError, BreakerState}
use execution_policy.Breaker.{gate}
use execution_policy.Breaker.Invariant.{gates, succeeds, fails}
use execution_policy.Concurrency.{CompiledConcurrency, Scope, operations, attempts}
use execution_policy.Engine.World.{
  World, Plan, Flow, next, finish, pending, stuck, CompiledBreaker, catch, set_breaker,
}
use execution_policy.Engine.Ensures.{Awaits}
use execution_policy.Engine.Pipeline.Runs.{run_pipeline-Ran}
use execution_policy.Engine.Books.Rule.{Kept, Kept-bind, Kept-await, catch-Kept}
use execution_policy.Engine.Books.{
  Phase, fresh, called, one, Account, Apart, Neutral, Turns, Waits, Apart-Neutral, same, same_back,
  logged,
}
use execution_policy.Engine.Awaits.{acquire_permit, drop_permit}
use execution_policy.Engine.Awaits.Held.{acquire_permit-Gains, drop_permit-Await}
use execution_policy.Engine.Drive.{Call, drive}
use execution_policy.Engine.Drive.Held.{drive-Neutral}
use execution_policy.Engine.Pipeline.{
  deadline_of, run_pipeline, outer, inner, gated, op_permit_for, scoped_permit, gate_through,
  record_with, cast_vote, vote, Vote, success, failure, no_vote, op_answer, announce_change,
}

module _ ⦃f : Float64⦄ {T E : Type 0} (plan : Plan T E) where
  gated-Apart :
      (answer : Option BreakerState) (start : Instant) (w : World T E)
      → Apart w (gated plan start answer w)
  gated-Apart none start w = ground arith
  gated-Apart (some BreakerState.half_open) start w = ground arith
  gated-Apart (some BreakerState.closed) start w = ground arith
  gated-Apart (some BreakerState.opened) start w = ground arith
  gated-Apart (some BreakerState.disabled) start w = ground arith

  announce_change-Apart :
      (change : Option BreakerState) (w : World T E) → Apart w (announce_change plan change w)
  announce_change-Apart none w = ground arith
  announce_change-Apart (some to) w = ground arith

  module _ (I : Phase → ℕ → World T E → Type 0) (account : Account plan.retry.budget I)
      (turns : Turns I) where
    gate_through-Neutral :
        (k : ℕ) (b : Option (CompiledBreaker E)) (start : Instant) (w : World T E)
        → I fresh k w
        → Neutral I fresh k (gate_through b plan start w)
    unfolding gate_through
    gate_through-Neutral k none start w h = h
    gate_through-Neutral k (some b) start w h =
        Apart-Neutral I account fresh k _ _ (gated-Apart (gate w.shared.breaker w.clock).0 start _)
          (turns fresh k w gates h)

    cast_vote-Kept :
        (k : ℕ) (v : Vote) (w : World T E)
        → I called k w
        → I called k (set_breaker w (cast_vote v w.shared.breaker w.clock).1)
    cast_vote-Kept k success w h = turns called k w succeeds h
    cast_vote-Kept k failure w h = turns called k w fails h
    cast_vote-Kept k no_vote w h = h

    record_with-Neutral :
        (k : ℕ) (b : Option (CompiledBreaker E)) (r : Result T (ExecutionError E)) (w : World T E)
        → I called k w
        → Neutral I called k (record_with b plan r w)
    unfolding record_with
    record_with-Neutral k none r w h = h
    record_with-Neutral k (some b) r w h =
        Apart-Neutral I account called k _ _
          (announce_change-Apart (cast_vote (vote b r) w.shared.breaker w.clock).0 _)
          (cast_vote-Kept k (vote b r) w h)

    inner-Neutral :
        (k : ℕ) (start : Instant) (deadline : Option Instant) (w : World T E)
        → I fresh k w
        → Neutral I called k (inner plan start deadline w)
    unfolding inner
    inner-Neutral k start deadline w h =
        Kept-bind _ _ _ _ _ (gate_through plan.breaker plan start) w
          (gate_through-Neutral k plan.breaker start w h)
          λ s w1 h1.
            Kept-await _ _ _ _ _ (catch (drive (call_in s))) w1
              (catch-Kept (I called k) (Waits I) (drive (call_in s)) w1
                (drive-Neutral (call_in s) I account k w1 h1))
              λ r w2 h2.
                Kept-bind _ _ _ _ _ (record_with plan.breaker plan r) w2
                  (record_with-Neutral k plan.breaker r w2 h2) λ _ w3 h3. h3
      where
        call_in : BreakerState → Call T E
        call_in s = record {
          plan = plan;
          start = start;
          total_deadline = deadline;
          breaker_state = s;
        }

    -- The permit of the whole call.
    abbrev Permitted : ℕ → Flow T E Bool → Type 0
    Permitted k = Kept (λ got w. I fresh (k + one got) w) (I called k) (Waits I)

    scoped_permit-Permitted :
        (k : ℕ) (s : Scope) (limit : CompiledConcurrency) (start : Instant)
        (deadline : Option Instant) (w : World T E)
        → I fresh k w
        → Permitted k (scoped_permit s plan limit start deadline w)
    scoped_permit-Permitted k attempts limit start deadline w h = same I fresh k w h
    scoped_permit-Permitted k operations limit start deadline w h =
        Kept-await _ _ _ _ _ (acquire_permit limit deadline) w
          (acquire_permit-Gains I account fresh k limit deadline w h) answered
      where
        answered :
            (got : Bool) (w' : World T E)
            → I fresh (k + one got) w'
            → Permitted k (op_answer plan start got w')
        answered true w' h' = h'
        answered false w' h' =
            account.ends fresh k _
              (account.still fresh k w' _ (logged _ _ _) (same_back I fresh k w' h'))

    op_permit_for-Permitted :
        (k : ℕ) (o : Option CompiledConcurrency) (start : Instant) (deadline : Option Instant)
        (w : World T E)
        → I fresh k w
        → Permitted k (op_permit_for o plan start deadline w)
    unfolding op_permit_for
    op_permit_for-Permitted k none start deadline w h = same I fresh k w h
    op_permit_for-Permitted k (some limit) start deadline w h =
        scoped_permit-Permitted k limit.scope limit start deadline w h

    outer-Neutral :
        (k : ℕ) (start : Instant) (deadline : Option Instant) (w : World T E)
        → I fresh k w
        → Neutral I called k (outer plan start deadline w)
    outer-Neutral k start deadline w h =
        Kept-bind _ _ _ _ _ (op_permit_for plan.concurrency plan start deadline) w
          (op_permit_for-Permitted k plan.concurrency start deadline w h)
          λ held w1 h1.
            Kept-await _ _ _ _ _ (catch (inner plan start deadline)) w1
              (catch-Kept (I called (k + one held)) (Waits I) (inner plan start deadline) w1
                (inner-Neutral (k + one held) start deadline w1 h1))
              λ r w2 h2.
                Kept-await _ _ _ _ _ (drop_permit held) w2
                  (drop_permit-Await I account called k held w2 h2) λ _ w3 h3. h3

  -- What is known of a stretch that is not stuck.
  pub ended :
      {A : Type 0} (Q Q' : A → World T E → Type 0) (S S' : World T E → Type 0) (x : Flow T E A)
      → Kept Q (λ _. ⊥) S x
      → Awaits Q' S' x
      → Awaits Q S x
  ended Q Q' S S' (next a w) h g = h
  ended Q Q' S S' (finish r w) h g = h
  ended Q Q' S S' (pending w) h g = h
  ended Q Q' S S' (stuck w) h g = g

  -- Every account holds of a call of the pipeline, however it ends, or while it waits: it then holds as
  -- many permits as at its start.
  pub run_pipeline-Account :
      (I : Phase → ℕ → World T E → Type 0) (k : ℕ) (w : World T E)
      → Account plan.retry.budget I
      → Turns I
      → 1 ≤ plan.retry.max_attempts
      → plan.retry.max_attempts < 4294967296
      → I fresh k w
      → Awaits (λ _ w'. I called k w') (Waits I) (run_pipeline plan w)
  unfolding run_pipeline
  run_pipeline-Account I k w account turns lo hi h =
      let deadline = deadline_of w.clock plan.total_timeout in
      ended _ _ _ _ (run_pipeline plan w)
        (catch-Kept (I called k) (Waits I) (outer plan w.clock deadline) w
          (outer-Neutral I account turns k w.clock deadline w h))
        (run_pipeline-Ran plan w lo hi)
