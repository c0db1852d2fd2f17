-- ===== src/Engine/Drive/Story/Round.antt =====
-- One round of the retry loop and the hook (`drive` of src/engine.rs).
use execution_policy.Base.{
  ◌≡◌, ◌∙◌, ap, ◌⊎◌, inl, inr, Duration, Instant, Bool, true, false, Option, none, some, ◌∷◌, arith,
  ◌==◌, Bool-cases, if◌then◌else◌,
}
use execution_policy.Base.Float.{Float64}
use execution_policy.Attempt
use execution_policy.Outcome.{Result, ExecutionError}
use execution_policy.Event.{Event, emit}
use execution_policy.Concurrency.{CompiledConcurrency, Scope, operations, attempts}
use execution_policy.Engine.World.{World, next}
use execution_policy.Engine.Ensures.{Ensures, Ensures-then, Awaits-bind}
use execution_policy.Engine.Awaits.{AttemptOutcome, acquire_permit, race, drop_permit}
use execution_policy.Engine.Awaits.Frame.{
  Frame, acquire_permit-Quiet, drop_permit-Quiet, race-Quiet, sleep-Quiet, Frame-refl,
}
use execution_policy.Engine.Drive.{
  Loop, Call, rejected, permit_for, limited_by, attempt_permit, doze, settle, schedule, overshoots,
  conclude, attempt, judge, check_elapsed, withdraw, back_off, round,
}
use execution_policy.Engine.Drive.Story.{
  scheduled, closings, IsTotalTimeout, Silent, Announced, Closed, Frame-Silent, Silent-refl,
  judge-Silent, check_elapsed-Silent, withdraw-Silent,
}

module _ ⦃f : Float64⦄ {T E : Type 0} (c : Call T E) (l : Loop E) where
  -- The end was told, or a deadline passed in the sleep before the next attempt.
  abbrev pub Ends : World T E → Result T (ExecutionError E) → World T E → Type 0
  Ends w r w' = Closed c l w r w' ⊎ (Announced c l w w' × IsTotalTimeout r)

  abbrev pub Holds : World T E → World T E → Type 0
  Holds w w' = Silent c l w w' ⊎ Announced c l w w'

  settle-Announced :
      (last : Option E) (raw : Duration) (w0 w : World T E)
      → Announced c l w0 w
      → Ensures
          (λ (l' : Loop E) w'. Announced c l w0 w')
          (Ends w0)
          (Holds w0)
          (settle c l last raw w)
  unfolding settle
  settle-Announced last raw w0 w s = ground arith

  doze-Frame :
      (d : Duration) (w : World T E) → Ensures (λ _ w'. Frame w w') (λ _ _. ⊥) (Frame w) (doze d w)
  doze-Frame d w = elim (Bool-cases (d == 0)) [
    | inl zero ↦ rw zero (Frame-refl w)
    | inr more ↦ rw more (sleep-Quiet d w)
  ]

  Frame-Announced : (w0 w w' : World T E) → Announced c l w0 w → Frame w w' → Announced c l w0 w'
  Frame-Announced w0 w w' s q = record {
    one_scheduled = ap (λ log. scheduled log) q.log_kept ∙ s.one_scheduled;
    none_closed = ap (λ log. closings log) q.log_kept ∙ s.none_closed;
  }

  module _ (hook : c.plan.on_event ≡ true) where
    schedule-Announced :
        (last : Option E) (raw d : Duration) (w0 w : World T E)
        → Silent c l w0 w
        → Ensures
            (λ (l' : Loop E) w'. Announced c l w0 w')
            (Ends w0)
            (Holds w0)
            (schedule c l last raw d w)
    unfolding schedule
    schedule-Announced last raw d w0 w s =
        Awaits-bind _ _ _ _ _ (Frame told) (doze d) told (doze-Frame d told)
          (λ w' q. inr (Frame-Announced w0 told w' announced q))
          (λ _ w' q. settle-Announced last raw w0 w' (Frame-Announced w0 told w' announced q))
      where
        told : World T E
        told = record w { log = emit c.plan.on_event (Event.retry_scheduled l.attempt_no d) w.log }

        announced : Announced c l w0 told
        announced = ground arith

    back_off-Announced :
        (last : Option E) (w0 w : World T E)
        → Silent c l w0 w
        → Ensures
            (λ (l' : Loop E) w'. Announced c l w0 w')
            (Ends w0)
            (Holds w0)
            (back_off c l last w)
    unfolding back_off
    back_off-Announced last w0 w s = elim (Bool-cases (overshoots c last w.clock)) [
      | inl over ↦ rw over (inl (ground arith))
      | inr fits ↦ rw fits (
          schedule-Announced last _ _ w0 _
            (record { none_scheduled = s.none_scheduled; none_closed = s.none_closed }))
    ]

    conclude-Announced :
        (o : AttemptOutcome T E) (w0 w : World T E)
        → Silent c l w0 w
        → Ensures (λ (l' : Loop E) w'. Announced c l w0 w') (Ends w0) (Holds w0) (conclude c l o w)
    unfolding conclude
    conclude-Announced o w0 w s =
        Ensures-then _ _ _ _ _ (Closed c l w0) (λ _. ⊥) (judge c l o) w
          (judge-Silent c l hook o w0 w s) (λ r w' q. inl q) (λ w' q. absurd q)
          λ last w1 s1.
            Ensures-then _ _ _ _ _ (Closed c l w0) (λ _. ⊥) (check_elapsed c l last) w1
              (check_elapsed-Silent c l hook last w0 w1 s1) (λ r w' q. inl q) (λ w' q. absurd q)
              λ _ w2 s2.
                Ensures-then _ _ _ _ _ (Closed c l w0) (λ _. ⊥) (withdraw c l) w2
                  (withdraw-Silent c l hook w0 w2 s2) (λ r w' q. inl q) (λ w' q. absurd q)
                  (λ _ w3 s3. back_off-Announced last w0 w3 s3)

    attempt-Announced :
        (t : Instant) (held : Bool) (w0 w : World T E)
        → Silent c l w0 w
        → Ensures
            (λ (l' : Loop E) w'. Announced c l w0 w')
            (Ends w0)
            (Holds w0)
            (attempt c l t held w)
    unfolding attempt
    attempt-Announced t held w0 w s =
        Awaits-bind _ _ _ _ _ (Frame v) (race c.attempt_timeout c.total_deadline) v
          (race-Quiet c.attempt_timeout c.total_deadline v)
          (λ w' q. inl (Frame-Silent c l w0 v w' started q))
          λ o w1 q.
            let s1 = Frame-Silent c l w0 v w1 started q in
            Awaits-bind _ _ _ _ _ (Frame w1) (drop_permit held) w1 (drop_permit-Quiet held w1)
              (λ w' q'. inl (Frame-Silent c l w0 w1 w' s1 q'))
              (λ _ w2 q'. conclude-Announced o w0 w2 (Frame-Silent c l w0 w1 w2 s1 q'))
      where
        v : World T E
        v = record w { calls = Attempt.new l.attempt_no c.start t ∷ w.calls }

        started : Silent c l w0 v
        started = record { none_scheduled = s.none_scheduled; none_closed = s.none_closed }

    rejected-Closed :
        (w0 w : World T E)
        → Silent c l w0 w
        → Ensures
            (λ (b : Bool) w'. Silent c l w0 w')
            (Closed c l w0)
            (Silent c l w0)
            (rejected c l w)
    unfolding rejected
    rejected-Closed w0 w s = ground arith

    permit_for-Silent :
        (s : Scope) (limit : CompiledConcurrency) (w : World T E)
        → Ensures
            (λ (held : Bool) w'. Silent c l w w')
            (Closed c l w)
            (Silent c l w)
            (permit_for s c l limit w)
    permit_for-Silent operations limit w = Silent-refl c l w
    permit_for-Silent attempts limit w =
        Awaits-bind _ _ _ _ _ (Frame w) (acquire_permit limit c.total_deadline) w
          (acquire_permit-Quiet limit c.total_deadline w)
          (λ w' q. Frame-Silent c l w w w' (Silent-refl c l w) q)
          (λ got w' q. granted got w' (Frame-Silent c l w w w' (Silent-refl c l w) q))
      where
        granted :
            (got : Bool) (w' : World T E)
            → Silent c l w w'
            → Ensures
                (λ (held : Bool) v. Silent c l w v)
                (Closed c l w)
                (Silent c l w)
                ((if got then (λ v. next true v) else rejected c l) w')
        granted true w' s = s
        granted false w' s = rejected-Closed w w' s

    limited_by-Silent :
        (o : Option CompiledConcurrency) (w : World T E)
        → Ensures
            (λ (held : Bool) w'. Silent c l w w')
            (Closed c l w)
            (Silent c l w)
            (limited_by o c l w)
    limited_by-Silent none w = Silent-refl c l w
    limited_by-Silent (some limit) w = permit_for-Silent limit.scope limit w

    pub round-Story :
        (w : World T E)
        → Ensures (λ (l' : Loop E) w'. Announced c l w w') (Ends w) (Holds w) (round c l w)
    unfolding round attempt_permit
    round-Story w =
        Ensures-then _ _ _ _ _ (Closed c l w) (Silent c l w) (attempt_permit c l) w
          (limited_by-Silent c.concurrency w) (λ r w' q. inl q) (λ w' q. inl q)
          (λ held w1 s. attempt-Announced w.clock held w w1 s)
