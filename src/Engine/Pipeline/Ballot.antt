-- ===== src/Engine/Pipeline/Ballot.antt =====
-- The part of a call in the life of its breaker: one question and one vote (`run_pipeline` of
-- src/engine.rs).
use execution_policy.Base.{◌≤◌, ◌<◌, ◌≡◌, refl, Bool, Instant, Option, none, some, true, arith}
use execution_policy.Base.Float.{Float64}
use execution_policy.Outcome.{
  Result, err, ExecutionError, BreakerState, is_rejected, is_circuit_open,
}
use execution_policy.Breaker.{BreakerRuntime, gate}
use execution_policy.Concurrency.{CompiledConcurrency}
use execution_policy.Engine.World.{World, Plan, Flow, next, finish, pending, stuck, CompiledBreaker}
use execution_policy.Engine.Ensures.{Ensures, Ensures-mono, Awaits}
use execution_policy.Engine.Books.{fresh, called, Neutral}
use execution_policy.Engine.Books.Rule.{Kept-mono}
use execution_policy.Engine.Clients.{Steps, Clients, Led, Led-Account}
use execution_policy.Engine.Awaits.{acquire_permit}
use execution_policy.Engine.Awaits.Frame.{acquire_permit-Quiet}
use execution_policy.Engine.Awaits.Held.{acquire_permit-Gains}
use execution_policy.Engine.Drive.{drive}
use execution_policy.Engine.Drive.Held.{drive-Neutral}
use execution_policy.Engine.Drive.Attempts.{Never, Ended, Waiting, drive-Ended}
use execution_policy.Engine.Pipeline.{run_pipeline, deadline_of, cast_vote, vote}
use execution_policy.Engine.Pipeline.Cast.{Cast, cast_vote-Cast}
use execution_policy.Engine.Pipeline.Held.{ended}
use execution_policy.Engine.Pipeline.Lift.{call_at, run_pipeline-Lifted}

module _ ⦃f : Float64⦄ (R : BreakerRuntime → BreakerRuntime → Type 0) where
  -- Led by other tasks from `b` to a state in which the gate answered this call.
  pub record Asked (b : BreakerRuntime) (answer : Option BreakerState) (b' : BreakerRuntime)
      : Type 0 where
    pub found : BreakerRuntime
    pub at : Instant
    pub led : R b found
    pub answered : (gate found at).0 ≡ answer
    pub left : (gate found at).1 ≡ b'

  -- The gate admitted the call, and other tasks led the breaker on.
  pub record Running (b b' : BreakerRuntime) : Type 0 where
    pub state : BreakerState
    pub since : BreakerRuntime
    pub asked : Asked b (some state) since
    pub led : R since b'

module _ ⦃f : Float64⦄ {T E : Type 0} (R : BreakerRuntime → BreakerRuntime → Type 0)
    (plan : Plan T E) (b : BreakerRuntime) where
  -- The breaker while the call runs.
  pub data Stage (b' : BreakerRuntime) : Type 0 where
    unasked : R b b' → Stage b'
    running : Running R b b' → Stage b'

  -- The breaker at the end of a call, with the result `r` and at the time `t`.
  pub data Ballot (r : Result T (ExecutionError E)) (b' : BreakerRuntime) (t : Instant)
      : Type 0 where
    unguarded : plan.breaker ≡ none → R b b' → Ballot r b' t
    turned_away : (e : ExecutionError E) → r ≡ err e → is_rejected e ≡ true → R b b' → Ballot r b' t
    cut_off :
        (e : ExecutionError E)
        → r ≡ err e
        → is_circuit_open e ≡ true
        → Asked R b none b'
        → Ballot r b' t
    voted :
        (cb : CompiledBreaker E) (before : BreakerRuntime)
        → plan.breaker ≡ some cb
        → Running R b before
        → Cast cb r before t b'
        → Ballot r b' t

module _ ⦃f : Float64⦄ {T E : Type 0} (R : BreakerRuntime → BreakerRuntime → Type 0)
    (plan : Plan T E) (w : World T E) (steps : Steps R) (lo : 1 ≤ plan.retry.max_attempts)
    (hi : plan.retry.max_attempts < 4294967296) where
  -- The loop does not touch the breaker.
  pub drive-Led :
      (s : BreakerState) (v : World T E)
      → Clients R v.polls
      → Ensures
          (λ r v'. Led R v.shared.breaker v')
          (λ r v'. Led R v.shared.breaker v')
          (λ v'. Led R v.shared.breaker v')
          (drive (call_at plan w s) v)
  drive-Led s v clients =
      joined (drive (call_at plan w s) v) (drive-Ended (call_at plan w s) v lo hi) (
        drive-Neutral (call_at plan w s) (λ _ _ v'. Led R v.shared.breaker v')
          (Led-Account R v.shared.breaker steps plan.retry.budget) 0 v
          (record { led = steps.none v.shared.breaker; clients = clients }))
    where
      joined :
          (x : Flow T E (Result T (ExecutionError E)))
          → Ensures
              (Never (call_at plan w s))
              (Ended (call_at plan w s) v)
              (Waiting (call_at plan w s) v)
              x
          → Neutral (λ _ _ v'. Led R v.shared.breaker v') called 0 x
          → Ensures
              (λ r v'. Led R v.shared.breaker v')
              (λ r v'. Led R v.shared.breaker v')
              (λ v'. Led R v.shared.breaker v')
              x
      joined (next r v') h k = absurd h
      joined (finish r v') h k = k
      joined (pending v') h k = k.1
      joined (stuck v') h k = absurd h

set_and_not : {A B : Type 0} {x : A} {o : Option A} → o ≡ some x → o ≡ none → B
set_and_not h n = ground arith

module _ ⦃f : Float64⦄ {T E : Type 0} (R : BreakerRuntime → BreakerRuntime → Type 0)
    (plan : Plan T E) (w : World T E) where
  abbrev start : BreakerRuntime
  start = w.shared.breaker

  -- Between the gate and the vote.
  data Inside (b' : BreakerRuntime) : Type 0 where
    unguarded_yet : plan.breaker ≡ none → R start b' → Inside b'
    admitted : (cb : CompiledBreaker E) → plan.breaker ≡ some cb → Running R start b' → Inside b'

  record Within (v : World T E) : Type 0 where
    inside : Inside v.shared.breaker
    clients : Clients R v.polls

  Inside-Steps : (steps : Steps R) (b1 b2 : BreakerRuntime) → Inside b1 → R b1 b2 → Inside b2
  Inside-Steps steps b1 b2 (unguarded_yet e m) l = unguarded_yet e (steps.both start b1 b2 m l)
  Inside-Steps steps b1 b2 (admitted cb e m) l = admitted cb e (record {
    state = m.state;
    since = m.since;
    asked = m.asked;
    led = steps.both m.since b1 b2 m.led l;
  })

  Inside-Stage : (b' : BreakerRuntime) → Inside b' → Stage R plan start b'
  Inside-Stage b' (unguarded_yet e l) = unasked l
  Inside-Stage b' (admitted cb e m) = running m

  abbrev pub Voted : Result T (ExecutionError E) → World T E → Type 0
  Voted r w' = Ballot R plan start r w'.shared.breaker w'.clock

  abbrev pub Staged : World T E → Type 0
  Staged w' = Stage R plan start w'.shared.breaker

  -- The gate admits the call.
  admits-Within :
      (steps : Steps R) (v : World T E) (cb : CompiledBreaker E) (s : BreakerState)
      → plan.breaker ≡ some cb
      → (gate v.shared.breaker v.clock).0 ≡ some s
      → Led R start v
      → Inside (gate v.shared.breaker v.clock).1
  admits-Within steps v cb s e g u = admitted cb e (record {
    state = s;
    since = (gate v.shared.breaker v.clock).1;
    asked = record {
      found = v.shared.breaker;
      at = v.clock;
      led = u.led;
      answered = g;
      left = refl;
    };
    led = steps.none (gate v.shared.breaker v.clock).1;
  })

  -- The vote, or none without a breaker.
  unvoted-Voted :
      (r : Result T (ExecutionError E)) (b' : BreakerRuntime) (t : Instant)
      → plan.breaker ≡ none
      → Inside b'
      → Ballot R plan start r b' t
  unvoted-Voted r b' t e (unguarded_yet e' l) = unguarded e l
  unvoted-Voted r b' t e (admitted cb e' m) = set_and_not e' e

  votes-Voted :
      (r : Result T (ExecutionError E)) (b' : BreakerRuntime) (t : Instant) (cb : CompiledBreaker E)
      → plan.breaker ≡ some cb
      → Inside b'
      → Ballot R plan start r (cast_vote (vote cb r) b' t).1 t
  votes-Voted r b' t cb e (unguarded_yet e' l) = set_and_not e e'
  votes-Voted r b' t cb e (admitted cb' e' m) = voted cb b' e m (cast_vote-Cast cb r b' t)

  acquires-Led :
      (steps : Steps R) (limit : CompiledConcurrency) (v : World T E)
      → Led R start v
      → Awaits
          (λ (got : Bool) v'. Led R start v')
          Staged
          (acquire_permit limit (deadline_of w.clock plan.total_timeout) v)
  acquires-Led steps limit v u =
      let deadline = deadline_of w.clock plan.total_timeout in
      ended plan _ _ _ _ (acquire_permit limit deadline v)
        (Kept-mono _ _ _ _ _ _ (acquire_permit limit deadline v)
          (acquire_permit-Gains (λ s k v'. Led R start v') (Led-Account R start steps none) fresh 0
            limit deadline v u)
          (λ got v' h. h) (λ v' h. h) (λ v' h. unasked h.1.led))
        (acquire_permit-Quiet limit deadline v)

  module _ (steps : Steps R) (lo : 1 ≤ plan.retry.max_attempts)
      (hi : plan.retry.max_attempts < 4294967296) where
    drive-Within :
        (s : BreakerState) (v : World T E)
        → Within v
        → Ensures (λ r v'. Within v') (λ r v'. Within v') Staged (drive (call_at plan w s) v)
    drive-Within s v u =
        Ensures-mono _ _ _ _ _ _ (drive (call_at plan w s) v)
          (drive-Led R plan w steps lo hi s v u.clients) (λ r v' h. within v' h)
          (λ r v' h. within v' h) (λ v' h. Inside-Stage v'.shared.breaker (within v' h).inside)
      where
        within : (v' : World T E) → Led R v.shared.breaker v' → Within v'
        within v' h = record {
          inside = Inside-Steps steps v.shared.breaker v'.shared.breaker u.inside h.led;
          clients = h.clients;
        }

    -- A call of a policy with a valid cap has one part in the life of its breaker: it asks the gate once,
    -- and, if it is admitted, votes once, at its end: a success for a value, or for an error that the
    -- breaker's predicate does not count; a failure for a timeout, or for any other error of the
    -- operation; and no vote for an error that says nothing of the operation. Apart from these two steps
    -- only other tasks move the breaker, while the call waits, too: each stretch between is made of
    -- their steps, for every relation that contains what they do before a poll, and is closed under
    -- none and two steps. (If they do not touch the breaker, it is equality.) A call that the gate
    -- rejects ends in `CircuitOpen`, one that was refused its permit in `ConcurrencyRejected`, without
    -- a vote; without a breaker there is neither.
    pub run_pipeline-Voted : Clients R w.polls → Awaits Voted Staged (run_pipeline plan w)
    run_pipeline-Voted clients =
        run_pipeline-Lifted plan w (λ v. Led R start v) (λ v. Within v) (λ r v. Within v) Voted
          Staged
          (record {
            begins = record { led = steps.none start; clients = clients };
            acquires = λ limit v e s u. acquires-Led steps limit v u;
            unasked = λ v e u. record { inside = unguarded_yet e u.led; clients = u.clients };
            admits = λ v cb s e g u. record {
              inside = admits-Within steps v cb s e g u;
              clients = u.clients;
            };
            announces = λ v u. record { inside = u.inside; clients = u.clients };
            turns_away = λ v limit e s u. turned_away _ refl refl u.led;
            cuts_off = λ v cb e g u. cut_off _ refl refl (record {
              found = v.shared.breaker;
              at = v.clock;
              led = u.led;
              answered = g;
              left = refl;
            });
            drives = drive-Within;
            unvoted = λ r v e u. unvoted-Voted r v.shared.breaker v.clock e u.inside;
            votes = λ r v cb e u. votes-Voted r v.shared.breaker v.clock cb e u.inside;
            tells = λ r v to h. h;
            drops = λ r v h. h;
          })
