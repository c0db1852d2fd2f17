-- ===== src/Engine/Drive/Truthful.antt =====
-- The rounds of the retry loop (`drive` of src/engine.rs) return nothing that they have no evidence of.
use execution_policy.Base.{
  ℕ, zero, suc, ◌≡◌, refl, Instant, Bool, true, false, Option, none, some, List, ◌∷◌, arith,
  if◌then◌else◌,
}
use execution_policy.Base.Float.{Float64}
use execution_policy.Attempt
use execution_policy.Retry.{RetryBudget}
use execution_policy.Retry.Budget.{deposit}
use execution_policy.Concurrency.{CompiledConcurrency, Scope, operations, attempts}
use execution_policy.Engine.World.{
  World, Poll, Flow, next, finish, pending, stuck, set_bucket, ◌>>=◌,
}
use execution_policy.Engine.Ensures.{Awaits, Awaits-bind, Ensures-bind}
use execution_policy.Engine.Awaits.{AttemptOutcome, acquire_permit, race, drop_permit}
use execution_policy.Engine.Awaits.Polls.{Shows, acquire_permit-Safe, race-Shown}
use execution_policy.Engine.Drive.{
  Loop, Call, rejected, permit_for, limited_by, attempt_permit, conclude, attempt, judge,
  drive_loop, drive, deposit_for, first_loop, check_elapsed, withdraw, round,
}
use execution_policy.Engine.Drive.Late.{Goes, back_off-Honest}
use execution_policy.Engine.Drive.Shown.{
  Fine, Justified, KeptError, Honest, judge-Honest, check_elapsed-Honest, withdraw-Honest,
}

none_some : {A : Type 0} {x : A} → none ≡ some x → ⊥
none_some h = ground arith

module _ ⦃f : Float64⦄ {T E : Type 0} (c : Call T E) (polls : List (Poll T E)) where
  drop_permit-Shows :
      (held : Bool) (o : AttemptOutcome T E) (w : World T E)
      → Fine c polls w
      → Shows c.plan c.start c.total_deadline polls o w.clock
      → Awaits
          (λ _ w'. Fine c polls w' × Shows c.plan c.start c.total_deadline polls o w'.clock)
          (λ _. Unit)
          (drop_permit held w)
  unfolding drop_permit
  drop_permit-Shows true o w s h = (record { rest = s.rest; begun = s.begun }, h)
  drop_permit-Shows false o w s h = (s, h)

  module _ (l : Loop E) (known : KeptError c polls l.last_error) where
    conclude-Honest :
        (o : AttemptOutcome T E) (w : World T E)
        → Fine c polls w
        → Shows c.plan c.start c.total_deadline polls o w.clock
        → Honest c polls (Goes c polls l) (conclude c l o w)
    unfolding conclude
    conclude-Honest o w s h =
        Ensures-bind _ _ _ _ _ (judge c l o) w (judge-Honest c polls l known o w s h) λ last w1 s1.
          Ensures-bind _ _ _ _ _ (check_elapsed c l last) w1
            (check_elapsed-Honest c polls l known last w1 s1.0 s1.1)
            λ _ w2 s2.
              Ensures-bind _ _ _ _ _ (withdraw c l) w2 (withdraw-Honest c polls l known w2 s2)
                λ _ w3 s3. back_off-Honest c polls l last w3 s3 s1.1

    attempt-Honest :
        (t : Instant) (held : Bool) (w : World T E)
        → Fine c polls w
        → Honest c polls (Goes c polls l) (attempt c l t held w)
    unfolding attempt
    attempt-Honest t held w s =
        Awaits-bind _ _ _ _ _ (λ _. Unit) (race c.attempt_timeout c.total_deadline) v
          (race-Shown c.plan c.start c.total_deadline polls v
            (record { rest = s.rest; begun = s.begun }))
          (λ w' q. tt)
          λ o w1 s1.
            Awaits-bind _ _ _ _ _ (λ _. Unit) (drop_permit held) w1
              (drop_permit-Shows held o w1 s1.0 s1.1) (λ w' q. tt)
              (λ _ w2 s2. conclude-Honest o w2 s2.0 s2.1)
      where
        v : World T E
        v = record w { calls = Attempt.new l.attempt_no c.start t ∷ w.calls }

    permit_for-Honest :
        (s : Scope) (limit : CompiledConcurrency) (w : World T E)
        → c.concurrency ≡ some limit
        → Fine c polls w
        → Honest c polls (λ _ w'. Fine c polls w') (permit_for s c l limit w)
    unfolding rejected
    permit_for-Honest operations limit w e s = s
    permit_for-Honest attempts limit w e s =
        Awaits-bind _ _ _ _ _ (λ _. Unit) (acquire_permit limit c.total_deadline) w
          (acquire_permit-Safe c.plan c.start c.total_deadline polls limit c.total_deadline w s)
          (λ w' q. tt) (λ got w' s'. granted got w' s')
      where
        granted :
            (got : Bool) (w' : World T E)
            → Fine c polls w'
            → Honest c polls
                (λ _ v. Fine c polls v)
                ((if got then (λ v. next true v) else rejected c l) w')
        granted true w' s' = s'
        granted false w' s' = (limit, e)

    attempt_permit-Honest :
        (w : World T E)
        → Fine c polls w
        → Honest c polls (λ _ w'. Fine c polls w') (attempt_permit c l w)
    unfolding attempt_permit
    attempt_permit-Honest w s = by_limit c.concurrency refl
      where
        by_limit :
            (o : Option CompiledConcurrency)
            → c.concurrency ≡ o
            → Honest c polls (λ _ w'. Fine c polls w') (limited_by o c l w)
        by_limit none e = s
        by_limit (some limit) e = permit_for-Honest limit.scope limit w e s

    round-Honest : (w : World T E) → Fine c polls w → Honest c polls (Goes c polls l) (round c l w)
    unfolding round
    round-Honest w s =
        Ensures-bind _ _ _ _ _ (attempt_permit c l) w (attempt_permit-Honest w s)
          (λ held w1 s1. attempt-Honest w.clock held w1 s1)

  -- What a stretch returns is justified, if it returns.
  abbrev pub Says : {A : Type 0} → Flow T E A → Type 0
  Says (finish r w) = Justified c polls r w
  Says (next a w) = Unit
  Says (pending w) = Unit
  Says (stuck w) = Unit

  drive_loop-Says :
      (fuel : ℕ) (l : Loop E) (w : World T E)
      → KeptError c polls l.last_error
      → Fine c polls w
      → Says (drive_loop fuel c l w)
  unfolding drive_loop
  drive_loop-Says zero l w known s = tt
  drive_loop-Says (suc fuel) l w known s =
      onward (round c l w) (λ l' w' h. drive_loop-Says fuel l' w' h.1 h.0)
        (round-Honest l known w s)
    where
      onward :
          (x : Flow T E (Loop E))
          → ((l' : Loop E) (w' : World T E) → Goes c polls l l' w' → Says (drive_loop fuel c l' w'))
          → Honest c polls (Goes c polls l) x
          → Says (elim x [
            | next l' w' ↦ drive_loop fuel c l' w'
            | finish r w' ↦ finish r w'
            | pending w' ↦ pending w'
            | stuck w' ↦ stuck w'
          ])
      onward (next l' w') g h = g l' w' h
      onward (finish r w') g h = h
      onward (pending w') g h = tt
      onward (stuck w') g h = tt

  -- The retry loop returns only what it has evidence of.
  pub drive-Says : (w : World T E) → Fine c polls w → Says (drive c w)
  unfolding drive
  drive-Says w s = by_budget c.retry.budget
    where
      unknown : KeptError c polls none
      unknown source h = absurd (none_some h)

      by_budget :
          (o : Option RetryBudget)
          → Says ((deposit_for o >>= λ _. drive_loop c.retry.max_attempts c first_loop) w)
      by_budget none = drive_loop-Says c.retry.max_attempts first_loop w unknown s
      by_budget (some _) =
          drive_loop-Says c.retry.max_attempts first_loop (set_bucket w (deposit w.shared.bucket))
            unknown (record { rest = s.rest; begun = s.begun })
