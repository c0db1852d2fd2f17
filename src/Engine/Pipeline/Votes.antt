-- ===== src/Engine/Pipeline/Votes.antt =====
-- What the pipeline tells the breaker of a call (`run_pipeline` of src/engine.rs), and what it forgets.
use execution_policy.Base.{
  arith, ◌≤◌, ◌<◌, ◌≡◌, refl, ap, sym, subst, ◌∙◌, Instant, false, Option, none, some,
}
use execution_policy.Base.Float.{Float64}
use execution_policy.Outcome.{
  Result, ok, err, ExecutionError, operation, attempt_timeout, total_timeout, circuit_open,
  concurrency_rejected, retry_budget_exhausted, BreakerState,
}
use execution_policy.Concurrency.{CompiledConcurrency, Scope, attempts, operations}
use execution_policy.Engine.Ensures.{Ensures, Ensures-mono, Awaits}
use execution_policy.Engine.Clients.{Clients, Same, Same-Steps, Led}
use execution_policy.Engine.Pipeline.Lift.{call_at, run_pipeline-Lifted}
use execution_policy.Engine.Pipeline.Ballot.{drive-Led}
use execution_policy.Breaker.Probes.{gate_wedged}
use execution_policy.Breaker.{BreakerRuntime, half_open, gate}
use execution_policy.Engine.World.{
  World, Plan, CompiledBreaker, next, finish, context, catch, ◌>>=◌,
}
use execution_policy.Engine.Awaits.{drop_permit}
use execution_policy.Engine.Drive.{drive}
use execution_policy.Engine.Pipeline.{
  no_vote, vote, deadline_of, run_pipeline, outer, inner, gated, op_permit_for, scoped_permit,
  gate_through, cast_vote,
}

module _ {T E : Type 0} where
  -- The errors that say nothing of the operation.
  abbrev pub IsUnvoted : Result T (ExecutionError E) → Type 0
  IsUnvoted (err (circuit_open _)) = Unit {0}
  IsUnvoted (err (concurrency_rejected _)) = Unit {0}
  IsUnvoted (err (retry_budget_exhausted _)) = Unit {0}
  IsUnvoted _ = ⊥

  unvoted :
      (cb : CompiledBreaker E) (r : Result T (ExecutionError E)) → IsUnvoted r → vote cb r ≡ no_vote
  unfolding vote
  unvoted cb (ok v) h = absurd h
  unvoted cb (err (circuit_open x)) h = refl
  unvoted cb (err (concurrency_rejected x)) h = refl
  unvoted cb (err (retry_budget_exhausted x)) h = refl
  unvoted cb (err (operation e x)) h = absurd h
  unvoted cb (err (attempt_timeout x)) h = absurd h
  unvoted cb (err (total_timeout x)) h = absurd h

module _ ⦃f : Float64⦄ {T E : Type 0} (plan : Plan T E) where
  -- A limit, if there is one, is on the attempts and not on the whole call.
  abbrev pub AttemptsOnly : Type 0
  AttemptsOnly =
      (limit : CompiledConcurrency) → plan.concurrency ≡ some limit → limit.scope ≡ attempts

  scoped_lem :
      (s : Scope) (limit : CompiledConcurrency) (start : Instant) (dl : Option Instant)
      (w : World T E)
      → s ≡ attempts
      → scoped_permit s plan limit start dl w ≡ next false w
  scoped_lem attempts limit start dl w e = refl
  scoped_lem operations limit start dl w e = ground arith

  no_permit :
      (o : Option CompiledConcurrency) (start : Instant) (dl : Option Instant) (w : World T E)
      → ((limit : CompiledConcurrency) → o ≡ some limit → limit.scope ≡ attempts)
      → op_permit_for o plan start dl w ≡ next false w
  unfolding op_permit_for
  no_permit none start dl w e = refl
  no_permit (some limit) start dl w e = scoped_lem limit.scope limit start dl w (e limit refl)

  gate_closed :
      (o : Option (CompiledBreaker E)) (cb : CompiledBreaker E) (w : World T E)
      → o ≡ some cb
      → gate w.shared.breaker w.clock ≡ (none, w.shared.breaker)
      → gate_through o plan w.clock w
        ≡ finish (err (circuit_open (context 0 w.clock w.clock none BreakerState.opened))) w
  unfolding gate_through
  gate_closed none cb w e g = cc
  gate_closed (some _) cb w e g = rw (g, gated)

  -- While the breaker rejects, a call without a limit on the whole call returns at once with `CircuitOpen`: the world
  -- stays as it is, so that the operation is not called, no time passes and no event is told.
  pub run_pipeline-open :
      (w : World T E) (cb : CompiledBreaker E)
      → plan.breaker ≡ some cb
      → AttemptsOnly
      → gate w.shared.breaker w.clock ≡ (none, w.shared.breaker)
      → run_pipeline plan w
        ≡ next (err (circuit_open (context 0 w.clock w.clock none BreakerState.opened))) w
  unfolding run_pipeline drop_permit
  run_pipeline-open w cb b c g = rw (
    no_permit plan.concurrency w.clock (deadline_of w.clock plan.total_timeout) w c,
    gate_closed plan.breaker cb w b g,
    run_pipeline,
    outer,
    inner,
    catch,
    ◌>>=◌,
  )

  module _ (w : World T E) (cb : CompiledBreaker E) (b' : BreakerRuntime)
      (guarded : plan.breaker ≡ some cb) (limits : AttemptsOnly)
      (asks : gate w.shared.breaker w.clock ≡ (some BreakerState.half_open, b')) where
    -- Nothing has moved the breaker, nor the clock, since the start of the call.
    record Fresh (v : World T E) : Type 0 where
      same : v.shared.breaker ≡ w.shared.breaker
      now : v.clock ≡ w.clock
      alone : Clients Same v.polls

    -- The breaker is as the gate left it.
    abbrev Left : World T E → Type 0
    Left = Led Same b'

    abbrev Final : Result T (ExecutionError E) → World T E → Type 0
    Final r v = IsUnvoted r → v.shared.breaker ≡ b'

    asks_again :
        (v : World T E)
        → Fresh v
        → gate v.shared.breaker v.clock ≡ (some BreakerState.half_open, b')
    asks_again v u = rw (u.same, u.now) asks

    impossible : {A B : Type 0} {x : A} {o : Option A} → o ≡ some x → o ≡ none → B
    impossible h n = ground arith

    wide_not : {s : Scope} {A : Type 0} → s ≡ attempts → s ≡ operations → A
    wide_not h n = ground arith

    vote-Left :
        (r : Result T (ExecutionError E)) (v : World T E) (c : CompiledBreaker E)
        → v.shared.breaker ≡ b'
        → IsUnvoted r
        → (cast_vote (vote c r) v.shared.breaker v.clock).1 ≡ b'
    vote-Left r v c h u = rw (unvoted c r u, cast_vote) h

    drives-Left :
        (lo : 1 ≤ plan.retry.max_attempts) (hi : plan.retry.max_attempts < 4294967296)
        (s : BreakerState) (v : World T E)
        → Left v
        → Ensures (λ r v'. Left v') (λ r v'. Left v') (λ _. Unit) (drive (call_at plan w s) v)
    drives-Left lo hi s v u =
        Ensures-mono _ _ _ _ _ _ (drive (call_at plan w s) v)
          (drive-Led Same plan w Same-Steps lo hi s v u.clients) (λ r v' h. left v' h)
          (λ r v' h. left v' h) (λ v' h. tt)
      where
        left : (v' : World T E) → Led Same v.shared.breaker v' → Left v'
        left v' h = record { led = h.led ∙ u.led; clients = h.clients }

    unvoted-Left :
        (lo : 1 ≤ plan.retry.max_attempts) (hi : plan.retry.max_attempts < 4294967296)
        → Clients Same w.polls
        → Awaits Final (λ _. Unit) (run_pipeline plan w)
    unvoted-Left lo hi alone =
        run_pipeline-Lifted plan w (λ v. Fresh v) (λ v. Left v) (λ r v. Left v) Final (λ _. Unit)
          (record {
            begins = record { same = refl; now = refl; alone = alone };
            acquires = λ limit v e s u. wide_not (limits limit e) s;
            unasked = λ v e u. impossible guarded e;
            admits = λ v c s e g u. record {
              led = ap (λ (x : Option BreakerState × BreakerRuntime). x.1) (asks_again v u);
              clients = u.alone;
            };
            announces = λ v u. record { led = u.led; clients = u.clients };
            turns_away = λ v limit e s u. wide_not (limits limit e) s;
            cuts_off = λ v c e g u.
                impossible (ap (λ (x : Option BreakerState × BreakerRuntime). x.0) (asks_again v u))
                  g;
            drives = drives-Left lo hi;
            unvoted = λ r v e u. impossible guarded e;
            votes = λ r v c e u unv. vote-Left r v c u.led unv;
            tells = λ r v to h. h;
            drops = λ r v h. h;
          })

  -- The call came to nothing for the breaker: every later call finds it as it is and is rejected.
  abbrev pub Wedged : Result T (ExecutionError E) → World T E → Type 0
  Wedged r w' =
      IsUnvoted r
      → (v : World T E) → v.shared.breaker ≡ w'.shared.breaker
      → run_pipeline plan v
        ≡ next (err (circuit_open (context 0 v.clock v.clock none BreakerState.opened))) v

  -- The last probe of a half-open breaker is lost when its call ends in an error that gives the breaker no
  -- vote: an empty retry budget, or a permit that an attempt was refused. Then every later call that
  -- finds the breaker unchanged is rejected, at any instant, and leaves it unchanged: the probe's slot is
  -- never given back. This is so for a policy with a valid cap, whose limit, if it has one, is on the
  -- attempts, when no other task touches the breaker while the probe runs.
  pub run_pipeline-Wedged :
      (w : World T E) (cb : CompiledBreaker E) (b' : BreakerRuntime)
      → plan.breaker ≡ some cb
      → AttemptsOnly
      → 1 ≤ plan.retry.max_attempts
      → plan.retry.max_attempts < 4294967296
      → gate w.shared.breaker w.clock ≡ (some BreakerState.half_open, b')
      → b'.state ≡ half_open
      → b'.half_open_max_calls ≤ b'.half_open_in_flight
      → Clients Same w.polls
      → Awaits Wedged (λ _. Unit) (run_pipeline plan w)
  run_pipeline-Wedged w cb b' b limits lo hi g s full alone =
      Ensures-mono _ _ _ _ _ _ (run_pipeline plan w) (unvoted-Left w cb b' b limits g lo hi alone)
        (λ r w' h u v e. run_pipeline-open v cb b limits (
          subst (λ b. gate b v.clock ≡ (none, b)) (sym (e ∙ h u))
            (gate_wedged b' v.clock s full).0))
        (λ r w' h. h) (λ w' h. h)
