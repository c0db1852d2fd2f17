-- ===== src/Engine/Awaits.antt =====
-- The three awaits of src/engine.rs: a permit, an attempt, and the backoff sleep. Each is a loop over
-- the polls of its future. A sleep is ready at the first poll at which its time has come.
pub mod Frame
pub mod Held
pub mod Slept
pub mod Polls
use execution_policy.Base.{
  ℕ, ◌+◌, ◌-◌, Duration, Instant, Bool, true, false, Option, none, some, List, [], ◌∷◌, leb,
  if◌then◌else◌,
}
use execution_policy.Base.Float.{Float64}
use execution_policy.Outcome.{Result}
use execution_policy.Concurrency.{
  CompiledConcurrency, SaturationPolicy, wait, reject, try_acquire, poll_acquire, queued, release,
}
use execution_policy.Engine.World.{World, Poll, Flow, next, finish, pending, M, set_sem, arrive}

pub data AttemptOutcome (T E : Type 0) : Type 0 where
  completed : Result T E → AttemptOutcome T E
  attempt_timeout : AttemptOutcome T E
  total_timeout : AttemptOutcome T E

-- `duration.map(|d| core.sleep(d))`, armed at `now`: when it is ready.
abbrev pub after : Instant → Option Duration → Option Instant
after now none = none
after now (some d) = some (now + d)

-- `total_deadline.map(|d| core.sleep(d.saturating_duration_since(core.now())))`
abbrev pub until : Instant → Option Instant → Option Instant
until now none = none
until now (some d) = some (now + (d - now))

abbrev pub is_due : Instant → Option Instant → Bool
is_due now none = false
is_due now (some t) = leb t now

module _ ⦃f : Float64⦄ {T E : Type 0} where
  -- The `poll_fn` of `acquire_permit`. A future that is dropped leaves its wakers in the queue.
  pub wait_permit : Option Instant → Option Instant → List (Poll T E) → M T E Bool
  wait_permit qto dl [] w = pending w
  wait_permit qto dl (p ∷ ps) w =
      let w1 = arrive w p ps in
      let (got, sem) = poll_acquire w1.shared.sem w1.task in
      let w2 = set_sem w1 sem in
      let again = wait_permit qto dl ps w2 in
      if got
      then next true w2
      else if is_due w2.clock qto
      then next false w2
      else if is_due w2.clock dl
      then next false w2
      else again

  queue_up : SaturationPolicy → Option Instant → M T E Bool
  unfolding wait_permit
  queue_up reject total_deadline w = next false w
  queue_up (wait max_queued queue_timeout) total_deadline w =
      if leb max_queued (queued w.shared.sem)
      then next false w
      else wait_permit (after w.clock queue_timeout) (until w.clock total_deadline) w.polls w

  -- `true` is a permit, `false` is `Err(())`.
  unfoldable pub acquire_permit : CompiledConcurrency → Option Instant → M T E Bool
  unfolding queue_up
  acquire_permit c total_deadline w =
      let (got, sem) = try_acquire w.shared.sem in
      if got then next true (set_sem w sem) else queue_up c.saturation total_deadline w

  -- `drop` of a permit that is held.
  unfoldable pub drop_permit : Bool → M T E (Unit {0})
  drop_permit true w = next tt (set_sem w (release w.shared.sem).1)
  drop_permit false w = next tt w

  -- The `poll_fn` around an attempt, once the timers are armed: the operation is polled first, then the
  -- attempt's timer, then the total one.
  pub race_armed : Option Instant → Option Instant → List (Poll T E) → M T E (AttemptOutcome T E)
  race_armed at_sleep tot_sleep [] w = pending w
  race_armed at_sleep tot_sleep (p ∷ ps) w =
      let w1 = arrive w p ps in
      let again = race_armed at_sleep tot_sleep ps w1 in
      elim p.op [
        | some r ↦ next (completed r) w1
        | none ↦
            if is_due w1.clock at_sleep
            then next attempt_timeout w1
            else if is_due w1.clock tot_sleep
            then next total_timeout w1
            else again
      ]

  -- The first poll arms the timers, if the operation is not ready at once.
  race_first : Option Duration → Option Instant → List (Poll T E) → M T E (AttemptOutcome T E)
  unfolding race_armed
  race_first attempt_limit total_deadline [] w = pending w
  race_first attempt_limit total_deadline (p ∷ ps) w =
      let w1 = arrive w p ps in
      let at_sleep = after w1.clock attempt_limit in
      let tot_sleep = until w1.clock total_deadline in
      elim p.op [
        | some r ↦ next (completed r) w1
        | none ↦
            if is_due w1.clock at_sleep
            then next attempt_timeout w1
            else if is_due w1.clock tot_sleep
            then next total_timeout w1
            else race_armed at_sleep tot_sleep ps w1
      ]

  unfoldable pub race : Option Duration → Option Instant → M T E (AttemptOutcome T E)
  unfolding race_first
  race attempt_limit total_deadline w = race_first attempt_limit total_deadline w.polls w

  -- `core.sleep(delay).await`
  pub sleep_until : Instant → List (Poll T E) → M T E (Unit {0})
  sleep_until t [] w = pending w
  sleep_until t (p ∷ ps) w =
      let w1 = arrive w p ps in
      let again = sleep_until t ps w1 in if leb t w1.clock then next tt w1 else again

  unfoldable pub sleep : Duration → M T E (Unit {0})
  unfolding sleep_until
  sleep delay w = sleep_until (w.clock + delay) w.polls w
