-- ===== src/Engine/Drive/Returns.antt =====
-- The returns of a round of the retry loop (`drive` of src/engine.rs): before the operation is called,
-- and from its outcome on.
use execution_policy.Base.{
  ◌-◌, ◌≤◌, ◌<◌, ◌≡◌, refl, Bool, true, false, Option, none, some, arith, if◌then◌else◌,
}
use execution_policy.Base.Float.{Float64}
use execution_policy.Outcome.{Result, ok, err, ExecutionError, context_of, is_rejected}
use execution_policy.Concurrency.{CompiledConcurrency, Scope, operations, attempts}
use execution_policy.Engine.World.{World, next}
use execution_policy.Engine.Ensures.{Ensures, Awaits-bind}
use execution_policy.Engine.Awaits.{AttemptOutcome, completed, acquire_permit}
use execution_policy.Engine.Awaits.Frame.{Frame, Frame-refl, acquire_permit-Quiet}
use execution_policy.Engine.Drive.{
  Loop, Call, rejected, permit_for, limited_by, judge, check_elapsed, withdraw,
}

module _ ⦃f : Float64⦄ {T E : Type 0} (c : Call T E) (l : Loop E) where
  -- An error's context tells the attempt, the time since the start, and the breaker's state at the gate.
  abbrev pub Reports : Result T (ExecutionError E) → World T E → Type 0
  Reports (ok v) w = Unit {0}
  Reports (err e) w =
      let x = context_of e in
      (x.attempts ≡ l.attempt_no)
      × (x.elapsed ≡ w.clock - c.start)
      × (x.breaker_state ≡ c.breaker_state)

  -- A return after the operation was called.
  pub record Returned (w : World T E) (r : Result T (ExecutionError E)) (w' : World T E)
      : Type 0 where
    pub called : w'.calls ≡ w.calls
    pub later : w.clock ≤ w'.clock
    pub reports : Reports r w'

  pub record GoesOn (w w' : World T E) : Type 0 where
    pub called : w'.calls ≡ w.calls
    pub same_time : w'.clock ≡ w.clock
    pub room : l.attempt_no < c.retry.max_attempts

  pub judge-Ensures :
      (o : AttemptOutcome T E) (w : World T E)
      → Ensures (λ (last : Option E) w'. GoesOn w w') (Returned w) (λ w'. ⊥) (judge c l o w)
  unfolding judge
  judge-Ensures AttemptOutcome.total_timeout w = ground arith
  judge-Ensures AttemptOutcome.attempt_timeout w = ground arith
  judge-Ensures (completed (ok v)) w = ground arith
  judge-Ensures (completed (err e)) w = ground arith

  pub check_elapsed-Ensures :
      (last : Option E) (w : World T E)
      → Ensures
          (λ _ w'. (w'.calls ≡ w.calls) × (w'.clock ≡ w.clock))
          (Returned w)
          (λ w'. ⊥)
          (check_elapsed c l last w)
  unfolding check_elapsed
  check_elapsed-Ensures none w = ground arith
  check_elapsed-Ensures (some e) w = ground arith

  pub withdraw-Ensures :
      (w : World T E)
      → Ensures
          (λ _ w'. (w'.calls ≡ w.calls) × (w'.clock ≡ w.clock))
          (Returned w)
          (λ w'. ⊥)
          (withdraw c l w)
  unfolding withdraw
  withdraw-Ensures w = ground arith

  abbrev pub IsRejection : Result T (ExecutionError E) → Type 0
  IsRejection (ok v) = ⊥
  IsRejection (err e) = is_rejected e ≡ true

  -- A return before the operation is called: the concurrency limit rejects the attempt.
  pub record Refused (w : World T E) (r : Result T (ExecutionError E)) (w' : World T E)
      : Type 0 where
    pub returned : Returned w r w'
    pub rejection : IsRejection r

  rejected-Refused :
      (w0 w : World T E)
      → Frame w0 w
      → Ensures (λ (b : Bool) w'. Frame w0 w') (Refused w0) (Frame w0) (rejected c l w)
  unfolding rejected
  rejected-Refused w0 w h = record { returned = ground arith; rejection = refl }

  permit_for-Ensures :
      (s : Scope) (limit : CompiledConcurrency) (w : World T E)
      → Ensures (λ (held : Bool) w'. Frame w w') (Refused w) (Frame w) (permit_for s c l limit w)
  permit_for-Ensures operations limit w = Frame-refl w
  permit_for-Ensures attempts limit w =
      Awaits-bind _ _ _ _ _ (Frame w) (acquire_permit limit c.total_deadline) w
        (acquire_permit-Quiet limit c.total_deadline w) (λ w' h. h) (λ got w' h. granted got w' h)
    where
      granted :
          (got : Bool) (w' : World T E)
          → Frame w w'
          → Ensures
              (λ (held : Bool) v. Frame w v)
              (Refused w)
              (Frame w)
              ((if got then (λ v. next true v) else rejected c l) w')
      granted true w' h = h
      granted false w' h = rejected-Refused w w' h

  pub limited_by-Ensures :
      (o : Option CompiledConcurrency) (w : World T E)
      → Ensures (λ (held : Bool) w'. Frame w w') (Refused w) (Frame w) (limited_by o c l w)
  limited_by-Ensures none w = Frame-refl w
  limited_by-Ensures (some limit) w = permit_for-Ensures limit.scope limit w
