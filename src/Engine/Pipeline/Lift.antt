-- ===== src/Engine/Pipeline/Lift.antt =====
-- From the retry loop to a call of the pipeline (`run_pipeline` of src/engine.rs): what the loop ensures,
-- the layers around it keep.
use execution_policy.Base.{◌≡◌, refl, Bool, true, false, Option, none, some}
use execution_policy.Base.Float.{Float64}
use execution_policy.Outcome.{
  Result, err, ExecutionError, circuit_open, concurrency_rejected, BreakerState,
}
use execution_policy.Event.{Event, emit}
use execution_policy.Breaker.{gate}
use execution_policy.Concurrency.{CompiledConcurrency, Scope, operations, attempts, release}
use execution_policy.Engine.World.{
  World, Plan, CompiledBreaker, catch, context, set_breaker, set_sem,
}
use execution_policy.Engine.Ensures.{
  Ensures, Awaits, Ensures-bind, Awaits-bind, Ensures-mono, catch-Ensures,
}
use execution_policy.Engine.Awaits.{acquire_permit, drop_permit}
use execution_policy.Engine.Awaits.Frame.{Frame, acquire_permit-Quiet}
use execution_policy.Engine.Drive.{Call, drive}
use execution_policy.Engine.Pipeline.{
  deadline_of, run_pipeline, outer, inner, gated, op_permit_for, scoped_permit, gate_through,
  record_with, cast_vote, vote, op_answer, announce_change,
}

module _ ⦃f : Float64⦄ {T E : Type 0} (plan : Plan T E) (w : World T E) where
  -- The arguments of the loop of the call that starts in `w`.
  abbrev pub call_at : BreakerState → Call T E
  call_at s = record {
    plan = plan;
    start = w.clock;
    total_deadline = deadline_of w.clock plan.total_timeout;
    breaker_state = s;
  }

  abbrev pub note : Event → World T E → World T E
  note e v = record v { log = emit plan.on_event e v.log }

  -- What holds before the call asks the breaker, before the loop runs, of its result, at the end of the
  -- call, and while it waits.
  pub record Lifts (Fresh Asked : World T E → Type 0)
      (Over Final : Result T (ExecutionError E) → World T E → Type 0) (Waits : World T E → Type 0)
      : Type 0 where
    -- before the loop
    pub begins : Fresh w
    pub acquires :
        (limit : CompiledConcurrency) (v : World T E)
        → plan.concurrency ≡ some limit
        → limit.scope ≡ operations
        → Fresh v
        → Awaits
            (λ (got : Bool) v'. Fresh v')
            Waits
            (acquire_permit limit (deadline_of w.clock plan.total_timeout) v)
    pub unasked : (v : World T E) → plan.breaker ≡ none → Fresh v → Asked v
    pub admits :
        (v : World T E) (b : CompiledBreaker E) (s : BreakerState)
        → plan.breaker ≡ some b
        → (gate v.shared.breaker v.clock).0 ≡ some s
        → Fresh v
        → Asked (set_breaker v (gate v.shared.breaker v.clock).1)
    pub announces :
        (v : World T E)
        → Asked v
        → Asked (note (Event.circuit_state_changed BreakerState.half_open) v)
    -- a rejection
    pub turns_away :
        (v : World T E) (limit : CompiledConcurrency)
        → plan.concurrency ≡ some limit
        → limit.scope ≡ operations
        → Fresh v
        → Final
            (err (concurrency_rejected (context 0 w.clock v.clock none BreakerState.disabled)))
            (note Event.concurrency_rejected v)
    pub cuts_off :
        (v : World T E) (b : CompiledBreaker E)
        → plan.breaker ≡ some b
        → (gate v.shared.breaker v.clock).0 ≡ none
        → Fresh v
        → Final
            (err (circuit_open (context 0 w.clock v.clock none BreakerState.opened)))
            (set_breaker v (gate v.shared.breaker v.clock).1)
    -- the loop
    pub drives :
        (s : BreakerState) (v : World T E) → Asked v → Ensures Over Over Waits (drive (call_at s) v)
    -- after the loop
    pub unvoted :
        (r : Result T (ExecutionError E)) (v : World T E)
        → plan.breaker ≡ none
        → Over r v
        → Final r v
    pub votes :
        (r : Result T (ExecutionError E)) (v : World T E) (b : CompiledBreaker E)
        → plan.breaker ≡ some b
        → Over r v
        → Final r (set_breaker v (cast_vote (vote b r) v.shared.breaker v.clock).1)
    pub tells :
        (r : Result T (ExecutionError E)) (v : World T E) (to : BreakerState)
        → Final r v
        → Final r (note (Event.circuit_state_changed to) v)
    pub drops :
        (r : Result T (ExecutionError E)) (v : World T E)
        → Final r v
        → Final r (set_sem v (release v.shared.sem).1)

  -- What an await leaves alone is kept.
  pub by_Frame :
      (Fresh : World T E → Type 0) (Waits : World T E → Type 0)
      → ((v v' : World T E) → Frame v v' → Fresh v → Fresh v')
      → ((v : World T E) → Fresh v → Waits v)
      → (limit : CompiledConcurrency) (v : World T E) → plan.concurrency ≡ some limit
      → limit.scope ≡ operations
      → Fresh v
      → Awaits
          (λ (got : Bool) v'. Fresh v')
          Waits
          (acquire_permit limit (deadline_of w.clock plan.total_timeout) v)
  by_Frame Fresh Waits kept waits limit v e s u =
      Ensures-mono _ _ _ _ _ _ (acquire_permit limit (deadline_of w.clock plan.total_timeout) v)
        (acquire_permit-Quiet limit (deadline_of w.clock plan.total_timeout) v)
        (λ got v' q. kept v v' q u) (λ r v' q. q) (λ v' q. waits v' (kept v v' q u))

  module _ (Fresh Asked : World T E → Type 0)
      (Over Final : Result T (ExecutionError E) → World T E → Type 0) (Waits : World T E → Type 0)
      (lifts : Lifts Fresh Asked Over Final Waits) where
    granted :
        (limit : CompiledConcurrency) (got : Bool) (v : World T E)
        → plan.concurrency ≡ some limit
        → limit.scope ≡ operations
        → Fresh v
        → Ensures (λ (held : Bool) w'. Fresh w') Final Waits (op_answer plan w.clock got v)
    granted limit true v e s u = u
    granted limit false v e s u = lifts.turns_away v limit e s u

    op_permit_for-Lifted :
        (o : Option CompiledConcurrency)
        → plan.concurrency ≡ o
        → Ensures
            (λ (held : Bool) w'. Fresh w')
            Final
            Waits
            (op_permit_for o plan w.clock (deadline_of w.clock plan.total_timeout) w)
    unfolding op_permit_for
    op_permit_for-Lifted none e = lifts.begins
    op_permit_for-Lifted (some limit) e = by_scope limit.scope refl
      where
        by_scope :
            (s : Scope)
            → limit.scope ≡ s
            → Ensures
                (λ (held : Bool) w'. Fresh w')
                Final
                Waits
                (scoped_permit s plan limit w.clock (deadline_of w.clock plan.total_timeout) w)
        by_scope attempts g = lifts.begins
        by_scope operations g =
            Awaits-bind _ _ _ _ _ Waits
              (acquire_permit limit (deadline_of w.clock plan.total_timeout)) w
              (lifts.acquires limit w e g lifts.begins) (λ w' q. q)
              (λ got w' u. granted limit got w' e g u)

    gated-Lifted :
        (b : CompiledBreaker E) (answer : Option BreakerState) (v : World T E)
        → plan.breaker ≡ some b
        → (gate v.shared.breaker v.clock).0 ≡ answer
        → Fresh v
        → Ensures
            (λ (s : BreakerState) w'. Asked w')
            Final
            Waits
            (gated plan w.clock answer (set_breaker v (gate v.shared.breaker v.clock).1))
    gated-Lifted b none v e g u = lifts.cuts_off v b e g u
    gated-Lifted b (some BreakerState.disabled) v e g u = lifts.admits v b _ e g u
    gated-Lifted b (some BreakerState.closed) v e g u = lifts.admits v b _ e g u
    gated-Lifted b (some BreakerState.opened) v e g u = lifts.admits v b _ e g u
    gated-Lifted b (some BreakerState.half_open) v e g u =
        lifts.announces _ (lifts.admits v b _ e g u)

    gate_through-Lifted :
        (o : Option (CompiledBreaker E)) (v : World T E)
        → plan.breaker ≡ o
        → Fresh v
        → Ensures (λ (s : BreakerState) w'. Asked w') Final Waits (gate_through o plan w.clock v)
    unfolding gate_through
    gate_through-Lifted none v e u = lifts.unasked v e u
    gate_through-Lifted (some cb) v e u =
        gated-Lifted cb (gate v.shared.breaker v.clock).0 v e refl u

    announce_change-Lifted :
        (change : Option BreakerState) (r : Result T (ExecutionError E)) (v : World T E)
        → Final r v
        → Ensures (λ _ w'. Final r w') Final Waits (announce_change plan change v)
    announce_change-Lifted none r v h = h
    announce_change-Lifted (some to) r v h = lifts.tells r v to h

    record_with-Lifted :
        (o : Option (CompiledBreaker E)) (r : Result T (ExecutionError E)) (v : World T E)
        → plan.breaker ≡ o
        → Over r v
        → Ensures (λ _ w'. Final r w') Final Waits (record_with o plan r v)
    unfolding record_with
    record_with-Lifted none r v e h = lifts.unvoted r v e h
    record_with-Lifted (some cb) r v e h =
        announce_change-Lifted (cast_vote (vote cb r) v.shared.breaker v.clock).0 r _
          (lifts.votes r v cb e h)

    inner-Lifted :
        (v : World T E)
        → Fresh v
        → Ensures Final Final Waits (inner plan w.clock (deadline_of w.clock plan.total_timeout) v)
    unfolding inner
    inner-Lifted v u =
        Ensures-bind _ _ _ _ _ (gate_through plan.breaker plan w.clock) v
          (gate_through-Lifted plan.breaker v refl u)
          (λ s v1 u1.
            Awaits-bind _ _ _ _ _ Waits (catch (drive (call_at s))) v1
              (catch-Ensures Over Waits (drive (call_at s)) v1 (lifts.drives s v1 u1)) (λ w' q. q)
              (λ r v2 h.
                Ensures-bind _ _ _ _ _ (record_with plan.breaker plan r) v2
                  (record_with-Lifted plan.breaker r v2 refl h) (λ _ w' h'. h')))

    drop_permit-Lifted :
        (held : Bool) (r : Result T (ExecutionError E)) (v : World T E)
        → Final r v
        → Awaits (λ _ w'. Final r w') Waits (drop_permit held v)
    unfolding drop_permit
    drop_permit-Lifted true r v h = lifts.drops r v h
    drop_permit-Lifted false r v h = h

    pub run_pipeline-Lifted : Awaits Final Waits (run_pipeline plan w)
    unfolding run_pipeline
    run_pipeline-Lifted =
        catch-Ensures Final Waits (outer plan w.clock (deadline_of w.clock plan.total_timeout)) w (
          Ensures-bind _ _ _ _ _
            (op_permit_for plan.concurrency plan w.clock (deadline_of w.clock plan.total_timeout)) w
            (op_permit_for-Lifted plan.concurrency refl)
            (λ held v u.
              Awaits-bind _ _ _ _ _ Waits
                (catch (inner plan w.clock (deadline_of w.clock plan.total_timeout))) v
                (catch-Ensures Final Waits
                  (inner plan w.clock (deadline_of w.clock plan.total_timeout)) v
                  (inner-Lifted v u))
                (λ w' q. q)
                (λ r v' h.
                  Awaits-bind _ _ _ _ _ Waits (drop_permit held) v' (drop_permit-Lifted held r v' h)
                    (λ w' q. q) (λ _ w' h'. h'))))
