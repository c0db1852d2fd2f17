-- ===== src/Engine/Drive/Held.antt =====
-- What the retry loop (`drive` of src/engine.rs) does to an account: a round gives back the permit that
-- it takes, whatever way it ends, and pays for the next one.
use execution_policy.Base.{
  Instant, ℕ, zero, suc, ◌+◌, ◌≡◌, ◌⊎◌, Option-cases, refl, Bool, true, false, Option, none, some,
  ◌==◌, arith, Duration, if◌then◌else◌, Bool-cases, inl, inr,
}
use execution_policy.Base.Float.{Float64}
use execution_policy.Attempt
use execution_policy.Outcome.{ok, err}
use execution_policy.Event.{Event, emit}
use execution_policy.Retry.{RetryBudget}
use execution_policy.Concurrency.{CompiledConcurrency, Scope, operations, attempts}
use execution_policy.Engine.World.{World, Flow, next, set_bucket}
use execution_policy.Retry.Budget.{try_withdraw}
use execution_policy.Engine.Books.Rule.{Kept, Kept-bind, Kept-await}
use execution_policy.Engine.Books.{
  Phase, fresh, ready, called, one, Account, Apart, Await, Neutral, Waits, Apart-Neutral, same,
  same_back, logged,
}
use execution_policy.Engine.Awaits.{AttemptOutcome, completed, race, drop_permit, acquire_permit}
use execution_policy.Engine.Awaits.Held.{
  acquire_permit-Gains, drop_permit-Await, race-Await, sleep-Await,
}
use execution_policy.Engine.Drive.{
  Loop, Call, first_loop, rejected, permit_for, limited_by, attempt_permit, doze, settle, schedule,
  overshoots, conclude, withdrawn, attempt, judge, check_elapsed, withdraw, back_off, round,
  drive_loop, deposit_for, drive,
}

module _ ⦃f : Float64⦄ {T E : Type 0} (c : Call T E) (l : Loop E) where
  judge-Apart : (o : AttemptOutcome T E) (w : World T E) → Apart w (judge c l o w)
  unfolding judge
  judge-Apart AttemptOutcome.total_timeout w = ground arith
  judge-Apart AttemptOutcome.attempt_timeout w = ground arith
  judge-Apart (completed (ok v)) w = ground arith
  judge-Apart (completed (err e)) w = ground arith

  check_elapsed-Apart : (last : Option E) (w : World T E) → Apart w (check_elapsed c l last w)
  unfolding check_elapsed
  check_elapsed-Apart none w = ground arith
  check_elapsed-Apart (some e) w = ground arith

  settle-Apart :
      (last : Option E) (raw : Duration) (w : World T E) → Apart w (settle c l last raw w)
  unfolding settle
  settle-Apart last raw w = ground arith

  module _ (I : Phase → ℕ → World T E → Type 0) (account : Account c.retry.budget I) (k : ℕ) where
    doze-Await : (d : Duration) (w : World T E) → I ready k w → Await I ready k (doze d w)
    doze-Await d w h = elim (Bool-cases (d == 0)) [
      | inl nought ↦ rw nought h
      | inr more ↦ rw more (sleep-Await I account ready k d w h)
    ]

    schedule-Neutral :
        (last : Option E) (raw d : Duration) (w : World T E)
        → I ready k w
        → Neutral I ready k (schedule c l last raw d w)
    unfolding schedule
    schedule-Neutral last raw d w h =
        Kept-await _ _ _ _ _ (doze d) told
          (doze-Await d told (account.still ready k w told (logged _ _ _) h))
          (λ _ w' h'. Apart-Neutral I account ready k w' _ (settle-Apart last raw w') h')
      where
        told : World T E
        told = record w { log = emit c.plan.on_event (Event.retry_scheduled l.attempt_no d) w.log }

    back_off-Neutral :
        (last : Option E) (w : World T E) → I ready k w → Neutral I ready k (back_off c l last w)
    unfolding back_off
    back_off-Neutral last w h = elim (Bool-cases (overshoots c last w.clock)) [
      | inl over ↦ rw over (account.ends ready k _ (account.still ready k w _ (logged _ _ _) h))
      | inr fits ↦
          rw fits (schedule-Neutral last _ _ _ (account.still ready k w _ (logged _ _ _) h))
    ]

    -- A retry is paid for, or the call ends.
    withdraw-Neutral : (w : World T E) → I called k w → Neutral I ready k (withdraw c l w)
    unfolding withdraw
    withdraw-Neutral w h = elim (Option-cases c.retry.budget) [
      | inl e ↦ rw e (account.unpaid called k w e h)
      | inr (b, e) ↦ rw e (paid (Bool-cases (try_withdraw w.shared.bucket).0))
    ]
      where
        paid :
            ((try_withdraw w.shared.bucket).0 ≡ true) ⊎ ((try_withdraw w.shared.bucket).0 ≡ false)
            → Neutral I ready k (
                withdrawn c l
                  (try_withdraw w.shared.bucket).0
                  (set_bucket w (try_withdraw w.shared.bucket).1))
        paid (inl granted) = rw granted (account.pays k w granted h)
        paid (inr refused) =
            rw refused (account.still called k _ _ (logged _ _ _) (account.refuses k w refused h))

    conclude-Neutral :
        (o : AttemptOutcome T E) (w : World T E)
        → I called k w
        → Neutral I ready k (conclude c l o w)
    unfolding conclude
    conclude-Neutral o w h =
        Kept-bind _ _ _ _ _ (judge c l o) w
          (Apart-Neutral I account called k w _ (judge-Apart o w) h)
          λ last w1 h1.
            Kept-bind _ _ _ _ _ (check_elapsed c l last) w1
              (Apart-Neutral I account called k w1 _ (check_elapsed-Apart last w1) h1)
              λ _ w2 h2.
                Kept-bind _ _ _ _ _ (withdraw c l) w2 (withdraw-Neutral w2 h2)
                  λ _ w3 h3. back_off-Neutral last w3 h3

  module _ (I : Phase → ℕ → World T E → Type 0) (account : Account c.retry.budget I) (k : ℕ) where
    attempt-Neutral :
        (t : Instant) (held : Bool) (w : World T E)
        → I ready (k + one held) w
        → Neutral I ready k (attempt c l t held w)
    unfolding attempt
    attempt-Neutral t held w h =
        Kept-await _ _ _ _ _ (race c.attempt_timeout c.total_deadline) _
          (race-Await I account called (k + one held) c.attempt_timeout c.total_deadline _
            (account.calls (k + one held) w (Attempt.new l.attempt_no c.start t) h))
          λ o w1 h1.
            Kept-await _ _ _ _ _ (drop_permit held) w1
              (drop_permit-Await I account called k held w1 h1)
              λ _ w2 h2. conclude-Neutral I account k o w2 h2

    -- The permit of an attempt.
    abbrev Permitted : Flow T E Bool → Type 0
    Permitted = Kept (λ got w. I ready (k + one got) w) (I called k) (Waits I)

    permit_for-Permitted :
        (s : Scope) (limit : CompiledConcurrency) (w : World T E)
        → I ready k w
        → Permitted (permit_for s c l limit w)
    permit_for-Permitted operations limit w h = same I ready k w h
    permit_for-Permitted attempts limit w h =
        Kept-await _ _ _ _ _ (acquire_permit limit c.total_deadline) w
          (acquire_permit-Gains I account ready k limit c.total_deadline w h) granted
      where
        granted :
            (got : Bool) (w' : World T E)
            → I ready (k + one got) w'
            → Permitted ((if got then (λ v. next true v) else rejected c l) w')
        granted true w' h' = h'
        granted false w' h' =
            unfold rejected in
            account.ends ready k _
              (account.still ready k w' _ (logged _ _ _) (same_back I ready k w' h'))

    limited_by-Permitted :
        (o : Option CompiledConcurrency) (w : World T E)
        → I ready k w
        → Permitted (limited_by o c l w)
    limited_by-Permitted none w h = same I ready k w h
    limited_by-Permitted (some limit) w h = permit_for-Permitted limit.scope limit w h

    pub round-Neutral : (w : World T E) → I ready k w → Neutral I ready k (round c l w)
    unfolding round attempt_permit
    round-Neutral w h =
        Kept-bind _ _ _ _ _ (attempt_permit c l) w (limited_by-Permitted c.concurrency w h)
          λ held w1 h1. attempt-Neutral w.clock held w1 h1

module _ ⦃f : Float64⦄ {T E : Type 0} (c : Call T E) (I : Phase → ℕ → World T E → Type 0)
    (account : Account c.retry.budget I) (k : ℕ) where
  drive_loop-Neutral :
      (fuel : ℕ) (l : Loop E) (w : World T E)
      → I ready k w
      → Neutral I called k (drive_loop fuel c l w)
  unfolding drive_loop
  drive_loop-Neutral zero l w h = tt
  drive_loop-Neutral (suc fuel) l w h =
      Kept-bind _ _ _ _ (λ l'. drive_loop fuel c l') (round c l) w
        (round-Neutral c l I account k w h) λ l' w' h'. drive_loop-Neutral fuel l' w' h'

  pub drive-Neutral : (w : World T E) → I fresh k w → Neutral I called k (drive c w)
  unfolding drive
  drive-Neutral w h =
      Kept-await _ _ _ _ (λ _. drive_loop c.retry.max_attempts c first_loop)
        (deposit_for c.retry.budget) w (deposited c.retry.budget refl)
        λ _ w' h'. drive_loop-Neutral c.retry.max_attempts first_loop w' h'
    where
      deposited : (b : Option RetryBudget) → c.retry.budget ≡ b → Await I ready k (deposit_for b w)
      deposited none e = account.unpaid fresh k w e h
      deposited (some _) e = account.deposits k w h
