-- ===== src/Engine/Drive.antt =====
-- The retry loop (`drive` of src/engine.rs; `drive_boxed` is the same text with another type of
-- operation). One round of the loop, cut at its early returns.
pub mod Returns
pub mod Rounds
pub mod Handed
pub mod Story
pub mod Told
pub mod Pause
pub mod Paced
pub mod Shown
pub mod Late
pub mod Truthful
pub mod Attempts
pub mod Held
use execution_policy.Base.{
  ℕ, zero, suc, ◌+◌, ◌-◌, Duration, Instant, Bool, true, false, ◌&&◌, Option, none, some, List, [],
  ◌∷◌, leb, ltb, ◌==◌, if◌then◌else◌, min_of, u32,
}
use execution_policy.Base.Float.{Float64}
use execution_policy.Attempt
use execution_policy.Outcome.{
  Result, ok, err, ExecutionError, operation, attempt_timeout, total_timeout, concurrency_rejected,
  retry_budget_exhausted, BreakerState,
}
use execution_policy.Event.{Event}
use execution_policy.Classify.{RetryDecision, retry, stop}
use execution_policy.Retry.{Retry, RetryBudget, decide, delay, retry_after_hint}
use execution_policy.Retry.Budget.{deposit, try_withdraw}
use execution_policy.Concurrency.{CompiledConcurrency, Scope, operations, attempts}
use execution_policy.Engine.World.{
  World, Plan, Flow, next, finish, pending, stuck, M, ◌>>=◌, ◌>>◌, pure, return, now, next_u64,
  tell, set_bucket, context,
}
use execution_policy.Engine.Awaits.{
  AttemptOutcome, completed, acquire_permit, drop_permit, race, sleep,
}

-- The variables of the loop.
pub record Loop (E : Type 0) : Type 0 where
  pub attempt_no : ℕ  -- u32
  pub last_delay : Option Duration
  pub last_error : Option E

-- What stays the same from round to round.
pub record Call (T E : Type 0) : Type 0 where
  pub plan : Plan T E
  pub open plan use *
  pub start : Instant
  pub total_deadline : Option Instant
  pub breaker_state : BreakerState

abbrev exceeds : Option Duration → Duration → Bool
exceeds none elapsed = false
exceeds (some max_el) elapsed = leb max_el elapsed

abbrev capped : Option Instant → Duration → Instant → Duration
capped none raw t = raw
capped (some d) raw t = min_of raw (d - t)

abbrev past : Option Instant → Instant → Bool
past none t = false
past (some d) t = leb d t

abbrev pub first_loop : {E : Type 0} → Loop E
first_loop = record { attempt_no = 1; last_delay = none; last_error = none }

module _ ⦃f : Float64⦄ {T E : Type 0} where
  abbrev gives_up : Call T E → Loop E → ExecutionError E → {A : Type 0} → M T E A
  gives_up c l e = do tell c.plan (Event.gave_up l.attempt_no); return (err e)

  pub rejected : Call T E → Loop E → M T E Bool
  rejected c l = do
    tell c.plan Event.concurrency_rejected
    t ← now
    return
        (err (concurrency_rejected (context l.attempt_no c.start t l.last_delay c.breaker_state)))

  abbrev permit_for : Scope → Call T E → Loop E → CompiledConcurrency → M T E Bool
  permit_for operations c l limit = pure false
  permit_for attempts c l limit = do
    got ← acquire_permit limit c.total_deadline
    if got then pure true else rejected c l

  abbrev pub limited_by : Option CompiledConcurrency → Call T E → Loop E → M T E Bool
  limited_by none c l = pure false
  limited_by (some limit) c l = permit_for limit.scope c l limit

  -- The permit of one attempt: whether one is held.
  attempt_permit : Call T E → Loop E → M T E Bool
  attempt_permit c l = limited_by c.concurrency c l

  -- The metadata tells the time at the start of the round, before any wait for a permit.
  abbrev call_op : Call T E → Loop E → Instant → M T E (Unit {0})
  call_op c l t w = next tt (record w { calls = Attempt.new l.attempt_no c.start t ∷ w.calls })

  abbrev succeeds : Call T E → Loop E → T → {A : Type 0} → M T E A
  succeeds c l v = do tell c.plan (Event.succeeded l.attempt_no); return (ok v)

  abbrev fails : Call T E → Loop E → E → {A : Type 0} → M T E A
  fails c l e = do
    t ← now
    gives_up c l (operation e (context l.attempt_no c.start t l.last_delay c.breaker_state))

  abbrev judge_completed : Call T E → Loop E → RetryDecision → Result T E → M T E (Option E)
  judge_completed c l stop (ok v) = succeeds c l v
  judge_completed c l stop (err e) = fails c l e
  judge_completed c l retry (ok v) =
      if leb c.retry.max_attempts l.attempt_no then succeeds c l v else pure l.last_error
  judge_completed c l retry (err e) =
      if leb c.retry.max_attempts l.attempt_no
      then fails c l e
      else (do tell c.plan (Event.attempt_failed l.attempt_no); pure (some e))

  -- The `match outcome`: the last error that the rest of the round goes on with.
  pub judge : Call T E → Loop E → AttemptOutcome T E → M T E (Option E)
  judge c l AttemptOutcome.total_timeout = do
    t ← now
    gives_up c l (total_timeout (context l.attempt_no c.start t l.last_delay c.breaker_state))
  judge c l (completed result) = judge_completed c l (decide c.retry result) result
  judge c l AttemptOutcome.attempt_timeout = do
    tell c.plan (Event.attempt_timed_out l.attempt_no)
    t ← now
    if leb c.retry.max_attempts l.attempt_no
        then gives_up c l
            (attempt_timeout (context l.attempt_no c.start t l.last_delay c.breaker_state))
        else pure l.last_error

  abbrev elapsed_error : Call T E → Loop E → Option E → Instant → ExecutionError E
  elapsed_error c l (some e) t =
      operation e (context l.attempt_no c.start t l.last_delay c.breaker_state)
  elapsed_error c l none t =
      attempt_timeout (context l.attempt_no c.start t l.last_delay c.breaker_state)

  -- The `max_elapsed` guard.
  pub check_elapsed : Call T E → Loop E → Option E → M T E (Unit {0})
  check_elapsed c l last_error = do
    t ← now
    if exceeds c.retry.max_elapsed (t - c.start)
        then gives_up c l (elapsed_error c l last_error t)
        else pure tt

  abbrev withdrawn : Call T E → Loop E → Bool → M T E (Unit {0})
  withdrawn c l true = pure tt
  withdrawn c l false = do
    tell c.plan (Event.retry_budget_exhausted l.attempt_no)
    t ← now
    return
        (err (retry_budget_exhausted (context l.attempt_no c.start t l.last_delay c.breaker_state)))

  -- The retry budget.
  pub withdraw : Call T E → Loop E → M T E (Unit {0})
  withdraw c l w = elim c.retry.budget [
    | none ↦ next tt w
    | some _ ↦
        let (granted, bucket) = try_withdraw w.shared.bucket in
        withdrawn c l granted (set_bucket w bucket)
  ]

  abbrev hint_exceeds : Retry T E → Option E → Duration → Bool
  hint_exceeds r none remaining = false
  hint_exceeds r (some e) remaining = elim (retry_after_hint r e) [
    | none ↦ false
    | some hint ↦ ltb remaining hint
  ]

  abbrev overshoots : Call T E → Option E → Instant → Bool
  overshoots c last_error t = elim c.total_deadline [
    | none ↦ false
    | some deadline ↦ hint_exceeds c.retry last_error (deadline - t)
  ]

  abbrev doze : Duration → M T E (Unit {0})
  doze d = if d == 0 then pure tt else sleep d

  -- After the sleep. A deadline that has passed meanwhile ends the call without an event.
  settle : Call T E → Loop E → Option E → Duration → M T E (Loop E)
  settle c l last_error raw = do
    t ← now
    if past c.total_deadline t
        then return
            (err (total_timeout (context l.attempt_no c.start t (some raw) c.breaker_state)))
        else pure (record {
          attempt_no = u32 (l.attempt_no + 1);
          last_delay = some raw;
          last_error = last_error;
        })

  schedule : Call T E → Loop E → Option E → Duration → Duration → M T E (Loop E)
  schedule c l last_error raw d = do
    tell c.plan (Event.retry_scheduled l.attempt_no d)
    doze d
    settle c l last_error raw

  -- From the choice of the delay to the end of the round.
  pub back_off : Call T E → Loop E → Option E → M T E (Loop E)
  back_off c l last_error = do
    rng ← next_u64
    let raw = delay c.retry l.attempt_no rng last_error
    t ← now
    if overshoots c last_error t
        then gives_up c l
            (total_timeout (context l.attempt_no c.start t (some raw) c.breaker_state))
        else schedule c l last_error raw (capped c.total_deadline raw t)

  -- From the outcome of the attempt on.
  conclude : Call T E → Loop E → AttemptOutcome T E → M T E (Loop E)
  conclude c l outcome = do
    last_error ← judge c l outcome
    check_elapsed c l last_error
    withdraw c l
    back_off c l last_error

  -- The attempt, with or without a permit.
  attempt : Call T E → Loop E → Instant → Bool → M T E (Loop E)
  attempt c l t held = do
    call_op c l t
    outcome ← race c.attempt_timeout c.total_deadline
    drop_permit held
    conclude c l outcome

  unfoldable pub round : Call T E → Loop E → M T E (Loop E)
  unfolding attempt_permit attempt conclude judge check_elapsed withdraw back_off rejected schedule
      settle
  round c l = do t ← now; held ← attempt_permit c l; attempt c l t held

  -- The loop, with fuel for its rounds.
  unfoldable pub drive_loop : ℕ → Call T E → Loop E → M T E (Result T (ExecutionError E))
  drive_loop zero c l w = stuck w
  drive_loop (suc fuel) c l w = elim (round c l w) [
    | next l' w' ↦ drive_loop fuel c l' w'
    | finish r w' ↦ finish r w'
    | pending w' ↦ pending w'
    | stuck w' ↦ stuck w'
  ]

  abbrev deposit_for : Option RetryBudget → M T E (Unit {0})
  deposit_for none w = next tt w
  deposit_for (some _) w = next tt (set_bucket w (deposit w.shared.bucket))

  -- `max_attempts` rounds are fuel enough, since the validated cap is at least 1.
  unfoldable pub drive : Call T E → M T E (Result T (ExecutionError E))
  drive c = do deposit_for c.retry.budget; drive_loop c.retry.max_attempts c first_loop

  -- The twin that takes an operation of owned futures. A poll says the same of both.
  abbrev pub drive_boxed : Call T E → M T E (Result T (ExecutionError E))
  drive_boxed c = drive c
