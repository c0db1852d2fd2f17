-- ===== src/Engine/Drive/Rounds.antt =====
-- What one round of the retry loop does (`drive` of src/engine.rs), whatever other tasks do meanwhile.
use execution_policy.Base.{
  ◌+◌, ◌≤◌, ◌<◌, ◌≡◌, ◌∙◌, ◌⊎◌, inl, inr, Duration, Instant, Bool, false, Option, ◌∷◌, arith, ◌==◌,
  u32, Bool-cases,
}
use execution_policy.Base.Float.{Float64}
use execution_policy.Attempt
use execution_policy.Outcome.{Result, ExecutionError}
use execution_policy.Event.{Event, emit}
use execution_policy.Engine.World.{World}
use execution_policy.Engine.Ensures.{Ensures, Ensures-then, Ensures-mono, Awaits-bind}
use execution_policy.Engine.Awaits.{AttemptOutcome, race, drop_permit}
use execution_policy.Engine.Awaits.Frame.{
  Frame, Frame-refl, Quiet, drop_permit-Quiet, race-Quiet, sleep-Quiet,
}
use execution_policy.Engine.Drive.{
  Loop, Call, attempt_permit, doze, settle, schedule, overshoots, conclude, attempt, judge,
  check_elapsed, withdraw, back_off, round, past,
}
use execution_policy.Engine.Drive.Returns.{
  Reports, Returned, GoesOn, Refused, IsRejection, judge-Ensures, check_elapsed-Ensures,
  withdraw-Ensures, limited_by-Ensures,
}

module _ ⦃f : Float64⦄ {T E : Type 0} (c : Call T E) (l : Loop E) where
  -- What changes while a round waits.
  record Passed (w w' : World T E) : Type 0 where
    called : w'.calls ≡ w.calls
    later : w.clock ≤ w'.clock

  -- The loop's variables after a round that goes on.
  record Advanced (w : World T E) (l' : Loop E) (w' : World T E) : Type 0 where
    passed : Passed w w'
    counted : l'.attempt_no ≡ u32 (l.attempt_no + 1)
    in_time : past c.total_deadline w'.clock ≡ false
    room : l.attempt_no < c.retry.max_attempts

  settle-Ensures :
      (last : Option E) (raw : Duration) (w0 w : World T E)
      → Passed w0 w
      → l.attempt_no < c.retry.max_attempts
      → Ensures (Advanced w0) (Returned c l w0) (Passed w0) (settle c l last raw w)
  unfolding settle
  settle-Ensures last raw w0 w h room = ground arith

  doze-Quiet : (d : Duration) (w : World T E) → Quiet w (doze d w)
  doze-Quiet d w = elim (Bool-cases (d == 0)) [
    | inl zero ↦ rw zero (Frame-refl w)
    | inr more ↦ rw more (sleep-Quiet d w)
  ]

  schedule-Ensures :
      (last : Option E) (raw d : Duration) (w0 w : World T E)
      → Passed w0 w
      → l.attempt_no < c.retry.max_attempts
      → Ensures (Advanced w0) (Returned c l w0) (Passed w0) (schedule c l last raw d w)
  unfolding schedule
  schedule-Ensures last raw d w0 w h room =
      Awaits-bind _ _ _ _ _ (Frame told) (doze d) told (doze-Quiet d told) (λ w' q. onward w' q)
        (λ _ w' q. settle-Ensures last raw w0 w' (onward w' q) room)
    where
      told : World T E
      told = record w { log = emit c.plan.on_event (Event.retry_scheduled l.attempt_no d) w.log }

      onward : (w' : World T E) → Frame told w' → Passed w0 w'
      onward w' q = ground arith

  back_off-Ensures :
      (last : Option E) (w0 w : World T E)
      → Passed w0 w
      → l.attempt_no < c.retry.max_attempts
      → Ensures (Advanced w0) (Returned c l w0) (Passed w0) (back_off c l last w)
  unfolding back_off
  back_off-Ensures last w0 w h room = elim (Bool-cases (overshoots c last w.clock)) [
    | inl over ↦ rw over (ground arith)
    | inr fits ↦ rw fits (schedule-Ensures last _ _ w0 _ (ground arith) room)
  ]

  conclude-Ensures :
      (o : AttemptOutcome T E) (w0 w : World T E)
      → Passed w0 w
      → Ensures (Advanced w0) (Returned c l w0) (Passed w0) (conclude c l o w)
  unfolding conclude
  conclude-Ensures o w0 w h =
      Ensures-then _ _ _ _ _ (Returned c l w) (λ _. ⊥) (judge c l o) w (judge-Ensures c l o w)
        (λ r w' q. from_here w r w' h q) (λ w' q. absurd q)
        λ last w1 g.
          Ensures-then _ _ _ _ _ (Returned c l w1) (λ _. ⊥) (check_elapsed c l last) w1
            (check_elapsed-Ensures c l last w1) (λ r w' q. from_here w1 r w' (onward w w1 h g) q)
            (λ w' q. absurd q)
            λ _ w2 e.
              Ensures-then _ _ _ _ _ (Returned c l w2) (λ _. ⊥) (withdraw c l) w2
                (withdraw-Ensures c l w2)
                (λ r w' q. from_here w2 r w' (still w1 w2 (onward w w1 h g) e) q) (λ w' q. absurd q)
                λ _ w3 e'.
                  back_off-Ensures last w0 w3 (still w2 w3 (still w1 w2 (onward w w1 h g) e) e')
                    g.room
    where
      from_here :
          (v : World T E) (r : Result T (ExecutionError E)) (w' : World T E)
          → Passed w0 v
          → Returned c l v r w'
          → Returned c l w0 r w'
      from_here v r w' p q = record {
        called = q.called ∙ p.called;
        later = omega arith;
        reports = q.reports;
      }

      onward : (v v' : World T E) → Passed w0 v → GoesOn c l v v' → Passed w0 v'
      onward v v' p g = ground arith

      still :
          (v v' : World T E)
          → Passed w0 v
          → (v'.calls ≡ v.calls) × (v'.clock ≡ v.clock)
          → Passed w0 v'
      still v v' p e = ground arith

  -- The world in which the operation is called.
  abbrev calling : Instant → World T E → World T E
  calling t w = record w { calls = Attempt.new l.attempt_no c.start t ∷ w.calls }

  attempt-Ensures :
      (t : Instant) (held : Bool) (w : World T E)
      → let w0 = calling t w in
        Ensures (Advanced w0) (Returned c l w0) (Passed w0) (attempt c l t held w)
  unfolding attempt
  attempt-Ensures t held w =
      Awaits-bind _ _ _ _ _ (Frame w0) (race c.attempt_timeout c.total_deadline) w0
        (race-Quiet c.attempt_timeout c.total_deadline w0) passed
        λ o w1 q.
          Awaits-bind _ _ _ _ _ (Frame w1) (drop_permit held) w1 (drop_permit-Quiet held w1)
            (λ w' q'. passed w' (onward w1 w' q q'))
            λ _ w2 q'. conclude-Ensures o w0 w2 (passed w2 (onward w1 w2 q q'))
    where
      w0 : World T E
      w0 = calling t w

      passed : (w' : World T E) → Frame w0 w' → Passed w0 w'
      passed w' q = ground arith

      onward : (v v' : World T E) → Frame w0 v → Frame v v' → Frame w0 v'
      onward v v' p q = ground arith

  -- What a round does that goes on, returns, or waits.
  pub record Next (w : World T E) (l' : Loop E) (w' : World T E) : Type 0 where
    pub called : w'.calls ≡ Attempt.new l.attempt_no c.start w.clock ∷ w.calls
    pub later : w.clock ≤ w'.clock
    pub counted : l'.attempt_no ≡ u32 (l.attempt_no + 1)
    pub in_time : past c.total_deadline w'.clock ≡ false
    pub room : l.attempt_no < c.retry.max_attempts

  pub record Done (w : World T E) (r : Result T (ExecutionError E)) (w' : World T E) : Type 0 where
    pub called :
        (w'.calls ≡ Attempt.new l.attempt_no c.start w.clock ∷ w.calls)
        ⊎ ((w'.calls ≡ w.calls) × IsRejection c l r)
    pub later : w.clock ≤ w'.clock
    pub reports : Reports c l r w'

  pub record Waits (w w' : World T E) : Type 0 where
    pub called :
        (w'.calls ≡ Attempt.new l.attempt_no c.start w.clock ∷ w.calls) ⊎ (w'.calls ≡ w.calls)
    pub later : w.clock ≤ w'.clock

  pub round-Ensures : (w : World T E) → Ensures (Next w) (Done w) (Waits w) (round c l w)
  unfolding round attempt_permit
  round-Ensures w =
      Ensures-then _ _ _ _ _ (Refused c l w) (Frame w) (attempt_permit c l) w
        (limited_by-Ensures c l c.concurrency w)
        (λ r w' q. record {
          called = inr (q.returned.called, q.rejection);
          later = q.returned.later;
          reports = q.returned.reports;
        })
        (λ w' q. record { called = inr q.calls_kept; later = q.later })
        λ held w1 q.
          Ensures-mono _ _ _ _ _ _ (attempt c l w.clock held w1) (attempt-Ensures w.clock held w1)
            (λ l' w' n. record {
              called = ground arith;
              later = omega arith;
              counted = n.counted;
              in_time = n.in_time;
              room = n.room;
            })
            (λ r w' d. record {
              called = inl (ground arith);
              later = omega arith;
              reports = d.reports;
            })
            (λ w' p. record { called = inl (ground arith); later = omega arith })
