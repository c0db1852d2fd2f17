-- ===== src/Engine/Drive/Pause.antt =====
-- How long a round of the retry loop that goes on takes (`drive` of src/engine.rs): its backoff.
use execution_policy.Base.{
  ℕ, ◌+◌, ◌≤◌, ◌≡◌, inl, inr, Duration, Instant, Bool, false, Option, none, some, ◌∷◌, arith, ◌==◌,
  Bool-cases,
}
use execution_policy.Base.Float.{Float64}
use execution_policy.Attempt
use execution_policy.Event.{Event, emit}
use execution_policy.Retry.{delay}
use execution_policy.Engine.World.{World, Flow}
use execution_policy.Engine.Ensures.{Ensures, Ensures-then, Awaits-bind}
use execution_policy.Engine.Awaits.{AttemptOutcome, race, drop_permit}
use execution_policy.Engine.Awaits.Slept.{Slept, sleep-Slept}
use execution_policy.Engine.Awaits.Frame.{Frame, drop_permit-Quiet, race-Quiet}
use execution_policy.Engine.Drive.{
  Loop, Call, attempt_permit, doze, settle, schedule, overshoots, conclude, attempt, judge,
  check_elapsed, withdraw, back_off, round, past, capped,
}
use execution_policy.Engine.Drive.Returns.{
  Returned, Refused, judge-Ensures, check_elapsed-Ensures, withdraw-Ensures, limited_by-Ensures,
}

-- A sleep that ends before the deadline was not cut short by it.
full_sleep :
    (o : Option Instant) (raw t t' : ℕ) → past o t' ≡ false → t + capped o raw t ≤ t' → t + raw ≤ t'
full_sleep none raw t t' early slept = slept
full_sleep (some d) raw t t' early slept = ground arith

module _ ⦃f : Float64⦄ {T E : Type 0} where
  doze-Slept : (d : Duration) (w : World T E) → Slept (w.clock + d) (doze d w)
  doze-Slept d w = elim (Bool-cases (d == 0)) [
    | inl zero ↦ rw zero (ground arith)
    | inr more ↦ rw more (sleep-Slept d w)
  ]

module _ ⦃f : Float64⦄ {T E : Type 0} (c : Call T E) (l : Loop E) where
  -- The round goes on no earlier than its backoff after the time `t`.
  pub record Paused (t : Instant) (w' : World T E) : Type 0 where
    pub rng : ℕ
    pub last : Option E
    pub waited : t + delay c.retry l.attempt_no rng last ≤ w'.clock
    pub in_time : past c.total_deadline w'.clock ≡ false

  abbrev Pauses : Instant → Flow T E (Loop E) → Type 0
  Pauses t = Ensures (λ (_ : Loop E) w'. Paused t w') (λ _ _. Unit) (λ _. Unit)

  settle-Paused :
      (last : Option E) (rng : ℕ) (t0 t : Instant) (w : World T E)
      → t0 ≤ t
      → t + capped c.total_deadline (delay c.retry l.attempt_no rng last) t ≤ w.clock
      → Pauses t0 (settle c l last (delay c.retry l.attempt_no rng last) w)
  unfolding settle
  settle-Paused last rng t0 t w le slept = elim (Bool-cases (past c.total_deadline w.clock)) [
    | inl late ↦ rw late tt
    | inr early ↦
        let full = full_sleep c.total_deadline _ t w.clock early slept in
        rw early
          (record { rng = rng; last = last; waited = omega (arith, full, le); in_time = early })
  ]

  schedule-Paused :
      (last : Option E) (rng : ℕ) (t0 : Instant) (w : World T E)
      → t0 ≤ w.clock
      → let raw = delay c.retry l.attempt_no rng last in
        Pauses t0 (schedule c l last raw (capped c.total_deadline raw w.clock) w)
  unfolding schedule
  schedule-Paused last rng t0 w le =
      Awaits-bind _ _ _ _ _ (λ _. Unit) (doze d) told (doze-Slept d told) (λ w' q. tt)
        (λ _ w' q. settle-Paused last rng t0 w.clock w' le q)
    where
      d : Duration
      d = capped c.total_deadline (delay c.retry l.attempt_no rng last) w.clock

      told : World T E
      told = record w { log = emit c.plan.on_event (Event.retry_scheduled l.attempt_no d) w.log }

  back_off-Paused :
      (last : Option E) (t0 : Instant) (w : World T E)
      → t0 ≤ w.clock
      → Pauses t0 (back_off c l last w)
  unfolding back_off
  back_off-Paused last t0 w le = elim (Bool-cases (overshoots c last w.clock)) [
    | inl over ↦ rw over tt
    | inr fits ↦ rw fits (schedule-Paused last _ t0 _ le)
  ]

  conclude-Paused :
      (o : AttemptOutcome T E) (t0 : Instant) (w : World T E)
      → t0 ≤ w.clock
      → Pauses t0 (conclude c l o w)
  unfolding conclude
  conclude-Paused o t0 w le =
      Ensures-then _ _ _ _ _ (Returned c l w) (λ _. ⊥) (judge c l o) w (judge-Ensures c l o w)
        (λ r w' q. tt) (λ w' q. tt)
        λ last w1 g.
          Ensures-then _ _ _ _ _ (Returned c l w1) (λ _. ⊥) (check_elapsed c l last) w1
            (check_elapsed-Ensures c l last w1) (λ r w' q. tt) (λ w' q. tt)
            λ _ w2 e.
              Ensures-then _ _ _ _ _ (Returned c l w2) (λ _. ⊥) (withdraw c l) w2
                (withdraw-Ensures c l w2) (λ r w' q. tt) (λ w' q. tt)
                (λ _ w3 e'. back_off-Paused last t0 w3 (omega (arith, le, g.same_time, e.1, e'.1)))

  attempt-Paused :
      (t : Instant) (held : Bool) (t0 : Instant) (w : World T E)
      → t0 ≤ w.clock
      → Pauses t0 (attempt c l t held w)
  unfolding attempt
  attempt-Paused t held t0 w le =
      Awaits-bind _ _ _ _ _ (Frame v) (race c.attempt_timeout c.total_deadline) v
        (race-Quiet c.attempt_timeout c.total_deadline v) (λ w' q. tt)
        λ o w1 q.
          Awaits-bind _ _ _ _ _ (Frame w1) (drop_permit held) w1 (drop_permit-Quiet held w1)
            (λ w' q'. tt)
            (λ _ w2 q'. conclude-Paused o t0 w2 (omega (arith, le, q.later, q'.later)))
    where
      v : World T E
      v = record w { calls = Attempt.new l.attempt_no c.start t ∷ w.calls }

  pub round-Paused : (w : World T E) → Pauses w.clock (round c l w)
  unfolding round attempt_permit
  round-Paused w =
      Ensures-then _ _ _ _ _ (Refused c l w) (Frame w) (attempt_permit c l) w
        (limited_by-Ensures c l c.concurrency w) (λ r w' q. tt) (λ w' q. tt)
        (λ held w1 q. attempt-Paused w.clock held w.clock w1 q.later)
