-- ===== src/Engine/Awaits/Held.antt =====
-- What the awaits of src/engine.rs do to an account: only a wait for a permit takes one, and only its
-- drop gives one back.
use execution_policy.Base.{
  ℕ, ◌+◌, ◌≡◌, refl, subst, Bool, true, false, Option, none, some, List, [], ◌∷◌, arith, leb,
  if◌then◌else◌, Duration, Instant,
}
use execution_policy.Base.Float.{Float64}
use execution_policy.Outcome.{Result}
use execution_policy.Retry.{RetryBudget}
use execution_policy.Concurrency.{
  CompiledConcurrency, SaturationPolicy, wait, reject, Semaphore, try_acquire, poll_acquire, queued,
}
use execution_policy.Engine.World.{World, Poll, Flow, next, arrive, set_sem}
use execution_policy.Engine.Books.Rule.{Kept-if}
use execution_policy.Engine.Books.{Phase, Account, one, Await, Gains, same, same_back}
use execution_policy.Engine.Awaits.{
  AttemptOutcome, completed, attempt_timeout, total_timeout, is_due, after, until, wait_permit,
  queue_up, acquire_permit, drop_permit, race_armed, race_first, race, sleep_until, sleep,
}

-- An answer of the semaphore accounts for the permit that it hands out.
try_acquire_lem : (s : Semaphore) → (try_acquire s).1.permits + one (try_acquire s).0 ≡ s.permits
unfolding try_acquire
try_acquire_lem s = ground arith

poll_acquire_lem :
    (s : Semaphore) (t : ℕ) → (poll_acquire s t).1.permits + one (poll_acquire s t).0 ≡ s.permits
unfolding poll_acquire
poll_acquire_lem s t = ground arith

module _ ⦃f : Float64⦄ {T E : Type 0} {budget : Option RetryBudget}
    (I : Phase → ℕ → World T E → Type 0) (account : Account budget I) where
  wait_permit-Gains :
      (s : Phase) (k : ℕ) (qto dl : Option Instant) (ps : List (Poll T E)) (w : World T E)
      → w.polls ≡ ps
      → I s k w
      → Gains I s k (wait_permit qto dl ps w)
  unfolding wait_permit
  wait_permit-Gains s k qto dl [] w e h = (k, account.ends s k w h)
  wait_permit-Gains s k qto dl (p ∷ ps) w e h =
      let w1 = arrive w p ps in
      let answer = poll_acquire w1.shared.sem w1.task in
      let w2 = set_sem w1 answer.1 in
      let h1 = account.arrives s k w p ps e h in
      let answered =
        account.answers s k w1 answer.0 answer.1 (poll_acquire_lem w1.shared.sem w1.task) h1 in
      Kept-if _ _ _ answer.0 _ _ (λ got. subst (λ (b : Bool). I s (k + one b) w2) got answered)
        λ refused.
          let h2' = subst (λ (b : Bool). I s (k + one b) w2) refused answered in
          let h2 = same_back I s k w2 h2' in
          Kept-if _ _ _ (is_due w2.clock qto) _ _ (λ _. h2')
            λ _.
              Kept-if _ _ _ (is_due w2.clock dl) _ _ (λ _. h2')
                λ _. wait_permit-Gains s k qto dl ps w2 refl h2

  queue_up-Gains :
      (s : Phase) (k : ℕ) (policy : SaturationPolicy) (dl : Option Instant) (w : World T E)
      → I s k w
      → Gains I s k (queue_up policy dl w)
  unfolding queue_up
  queue_up-Gains s k reject dl w h = same I s k w h
  queue_up-Gains s k (wait max_queued queue_timeout) dl w h =
      Kept-if _ _ _ (leb max_queued (queued w.shared.sem)) _ _ (λ _. same I s k w h)
        (λ _.
          wait_permit-Gains s k (after w.clock queue_timeout) (until w.clock dl) w.polls w refl h)

  pub acquire_permit-Gains :
      (s : Phase) (k : ℕ) (c : CompiledConcurrency) (dl : Option Instant) (w : World T E)
      → I s k w
      → Gains I s k (acquire_permit c dl w)
  unfolding acquire_permit
  acquire_permit-Gains s k c dl w h =
      let answer = try_acquire w.shared.sem in
      let answered = account.answers s k w answer.0 answer.1 (try_acquire_lem w.shared.sem) h in
      Kept-if _ _ _ answer.0 _ _
        (λ got. subst (λ (b : Bool). I s (k + one b) (set_sem w answer.1)) got answered)
        (λ _. queue_up-Gains s k c.saturation dl w h)

  pub drop_permit-Await :
      (s : Phase) (k : ℕ) (held : Bool) (w : World T E)
      → I s (k + one held) w
      → Await I s k (drop_permit held w)
  unfolding drop_permit
  drop_permit-Await s k true w h = account.drops s k w h
  drop_permit-Await s k false w h = same_back I s k w h

  race_step-Await :
      (s : Phase) (k : ℕ) (w1 : World T E) (op : Option (Result T E)) (at tot : Option Instant)
      (again : Flow T E (AttemptOutcome T E))
      → I s k w1
      → Await I s k again
      → Await I s k (elim op [
        | some r ↦ next (completed r) w1
        | none ↦
            if is_due w1.clock at
            then next attempt_timeout w1
            else if is_due w1.clock tot
            then next total_timeout w1
            else again
      ])
  race_step-Await s k w1 (some r) at tot again h more = h
  race_step-Await s k w1 none at tot again h more =
      Kept-if _ _ _ (is_due w1.clock at) _ _ (λ _. h)
        (λ _. Kept-if _ _ _ (is_due w1.clock tot) _ _ (λ _. h) (λ _. more))

  race_armed-Await :
      (s : Phase) (k : ℕ) (at tot : Option Instant) (ps : List (Poll T E)) (w : World T E)
      → w.polls ≡ ps
      → I s k w
      → Await I s k (race_armed at tot ps w)
  unfolding race_armed
  race_armed-Await s k at tot [] w e h = (k, account.ends s k w h)
  race_armed-Await s k at tot (p ∷ ps) w e h =
      let w1 = arrive w p ps in
      let h1 = account.arrives s k w p ps e h in
      race_step-Await s k w1 p.op at tot _ h1 (race_armed-Await s k at tot ps w1 refl h1)

  race_first-Await :
      (s : Phase) (k : ℕ) (limit : Option Duration) (dl : Option Instant) (ps : List (Poll T E))
      (w : World T E)
      → w.polls ≡ ps
      → I s k w
      → Await I s k (race_first limit dl ps w)
  unfolding race_first
  race_first-Await s k limit dl [] w e h = (k, account.ends s k w h)
  race_first-Await s k limit dl (p ∷ ps) w e h =
      let w1 = arrive w p ps in
      let h1 = account.arrives s k w p ps e h in
      let at_sleep = after w1.clock limit in
      let tot_sleep = until w1.clock dl in
      race_step-Await s k w1 p.op at_sleep tot_sleep _ h1
        (race_armed-Await s k at_sleep tot_sleep ps w1 refl h1)

  pub race-Await :
      (s : Phase) (k : ℕ) (limit : Option Duration) (dl : Option Instant) (w : World T E)
      → I s k w
      → Await I s k (race limit dl w)
  unfolding race
  race-Await s k limit dl w h = race_first-Await s k limit dl w.polls w refl h

  sleep_until-Await :
      (s : Phase) (k : ℕ) (t : Instant) (ps : List (Poll T E)) (w : World T E)
      → w.polls ≡ ps
      → I s k w
      → Await I s k (sleep_until t ps w)
  unfolding sleep_until
  sleep_until-Await s k t [] w e h = (k, account.ends s k w h)
  sleep_until-Await s k t (p ∷ ps) w e h =
      let w1 = arrive w p ps in
      let h1 = account.arrives s k w p ps e h in
      Kept-if _ _ _ (leb t w1.clock) _ _ (λ _. h1) (λ _. sleep_until-Await s k t ps w1 refl h1)

  pub sleep-Await :
      (s : Phase) (k : ℕ) (d : Duration) (w : World T E) → I s k w → Await I s k (sleep d w)
  unfolding sleep
  sleep-Await s k d w h = sleep_until-Await s k (w.clock + d) w.polls w refl h
