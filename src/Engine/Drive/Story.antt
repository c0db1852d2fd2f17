-- ===== src/Engine/Drive/Story.antt =====
-- What a registered hook is told of one round of the retry loop (`drive` of src/engine.rs).
pub mod Round
use execution_policy.Base.{
  ℕ, ◌≡◌, refl, ◌∙◌, ap, ◌⊎◌, inl, inr, Duration, Instant, Bool, true, false, Option, none, some,
  List, [], ◌∷◌, arith, ◌==◌, Bool-cases, if◌then◌else◌,
}
use execution_policy.Base.Float.{Float64}
use execution_policy.Attempt
use execution_policy.Outcome.{
  Result, ok, err, ExecutionError, concurrency_rejected, retry_budget_exhausted, total_timeout,
}
use execution_policy.Event.{Event, emit}
use execution_policy.Concurrency.{CompiledConcurrency, Scope, operations, attempts}
use execution_policy.Engine.World.{World, next}
use execution_policy.Engine.Ensures.{Ensures, Ensures-then, Awaits-bind}
use execution_policy.Engine.Awaits.{AttemptOutcome, completed, acquire_permit, race, drop_permit}
use execution_policy.Engine.Awaits.Frame.{
  Frame, acquire_permit-Quiet, drop_permit-Quiet, race-Quiet, sleep-Quiet, Frame-refl,
}
use execution_policy.Engine.Drive.{
  Loop, Call, rejected, permit_for, limited_by, attempt_permit, doze, settle, schedule, overshoots,
  conclude, attempt, judge, check_elapsed, withdraw, back_off, round,
}

-- The attempts after which a retry was announced, the newest first.
abbrev pub scheduled : List Event → List ℕ
scheduled [] = []
scheduled (Event.retry_scheduled n d ∷ log) = n ∷ scheduled log
scheduled (e ∷ log) = scheduled log

-- The events that tell the end of a call.
abbrev pub closings : List Event → List Event
closings [] = []
closings (Event.succeeded n ∷ log) = Event.succeeded n ∷ closings log
closings (Event.gave_up n ∷ log) = Event.gave_up n ∷ closings log
closings (Event.concurrency_rejected ∷ log) = Event.concurrency_rejected ∷ closings log
closings (Event.retry_budget_exhausted n ∷ log) = Event.retry_budget_exhausted n ∷ closings log
closings (e ∷ log) = closings log

-- The event that tells the end with a result in round `n`.
abbrev pub closing_of : {T E : Type 0} → ℕ → Result T (ExecutionError E) → Event
closing_of n (ok v) = Event.succeeded n
closing_of n (err (concurrency_rejected _)) = Event.concurrency_rejected
closing_of n (err (retry_budget_exhausted _)) = Event.retry_budget_exhausted n
closing_of n (err e) = Event.gave_up n

abbrev pub IsTotalTimeout : {T E : Type 0} → Result T (ExecutionError E) → Type 0
IsTotalTimeout (err (total_timeout _)) = Unit
IsTotalTimeout r = ⊥

module _ ⦃f : Float64⦄ {T E : Type 0} (c : Call T E) (l : Loop E) where
  -- Neither a retry nor an end was told.
  pub record Silent (w w' : World T E) : Type 0 where
    pub none_scheduled : scheduled w'.log ≡ scheduled w.log
    pub none_closed : closings w'.log ≡ closings w.log

  -- A retry after this round was told, and no end.
  pub record Announced (w w' : World T E) : Type 0 where
    pub one_scheduled : scheduled w'.log ≡ l.attempt_no ∷ scheduled w.log
    pub none_closed : closings w'.log ≡ closings w.log

  -- The end was told, and no retry.
  pub record Closed (w : World T E) (r : Result T (ExecutionError E)) (w' : World T E)
      : Type 0 where
    pub none_scheduled : scheduled w'.log ≡ scheduled w.log
    pub one_closed : closings w'.log ≡ closing_of l.attempt_no r ∷ closings w.log

  pub Frame-Silent : (w0 w w' : World T E) → Silent w0 w → Frame w w' → Silent w0 w'
  Frame-Silent w0 w w' s q = record {
    none_scheduled = ap (λ log. scheduled log) q.log_kept ∙ s.none_scheduled;
    none_closed = ap (λ log. closings log) q.log_kept ∙ s.none_closed;
  }

  pub Silent-refl : (w : World T E) → Silent w w
  Silent-refl w = record { none_scheduled = refl; none_closed = refl }

  module _ (hook : c.plan.on_event ≡ true) where
    pub judge-Silent :
        (o : AttemptOutcome T E) (w0 w : World T E)
        → Silent w0 w
        → Ensures (λ (last : Option E) w'. Silent w0 w') (Closed w0) (λ w'. ⊥) (judge c l o w)
    unfolding judge
    judge-Silent AttemptOutcome.total_timeout w0 w s = ground arith
    judge-Silent AttemptOutcome.attempt_timeout w0 w s = ground arith
    judge-Silent (completed (ok v)) w0 w s = ground arith
    judge-Silent (completed (err e)) w0 w s = ground arith

    pub check_elapsed-Silent :
        (last : Option E) (w0 w : World T E)
        → Silent w0 w
        → Ensures (λ _ w'. Silent w0 w') (Closed w0) (λ w'. ⊥) (check_elapsed c l last w)
    unfolding check_elapsed
    check_elapsed-Silent none w0 w s = ground arith
    check_elapsed-Silent (some e) w0 w s = ground arith

    pub withdraw-Silent :
        (w0 w : World T E)
        → Silent w0 w
        → Ensures (λ _ w'. Silent w0 w') (Closed w0) (λ w'. ⊥) (withdraw c l w)
    unfolding withdraw
    withdraw-Silent w0 w s = ground arith
