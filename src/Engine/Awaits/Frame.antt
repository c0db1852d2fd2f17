-- ===== src/Engine/Awaits/Frame.antt =====
-- What an await leaves alone: only the clock, the shared state and the polls to come change.
use execution_policy.Base.{
  ◌+◌, ◌≤◌, ◌≡◌, refl, Duration, Instant, Bool, true, false, Option, none, some, List, [], ◌∷◌,
  arith, leb, if◌then◌else◌,
}
use execution_policy.Outcome.{Result}
use execution_policy.Base.Float.{Float64}
use execution_policy.Concurrency.{
  CompiledConcurrency, SaturationPolicy, wait, reject, Semaphore, try_acquire, poll_acquire, queued,
  release,
}
use execution_policy.Engine.World.{World, Poll, Flow, next, arrive, set_sem}
use execution_policy.Engine.Ensures.{Awaits}
use execution_policy.Engine.Awaits.{
  AttemptOutcome, completed, attempt_timeout, total_timeout, is_due, after, until, wait_permit,
  queue_up, acquire_permit, drop_permit, race_armed, race_first, race, sleep_until, sleep,
}

module _ ⦃f : Float64⦄ {T E : Type 0} where
  pub record Frame (w w' : World T E) : Type 0 where
    pub calls_kept : w'.calls ≡ w.calls
    pub log_kept : w'.log ≡ w.log
    pub later : w.clock ≤ w'.clock

  -- What every await of this file ensures.
  abbrev pub Quiet : {A : Type 0} → World T E → Flow T E A → Type 0
  Quiet {A} w = Awaits (λ (a : A) w'. Frame w w') (Frame w)

  Quiet-if :
      {A : Type 0} (w0 : World T E) (b : Bool) (x y : Flow T E A)
      → Quiet w0 x
      → Quiet w0 y
      → Quiet w0 (if b then x else y)
  Quiet-if w0 true x y hx hy = hx
  Quiet-if w0 false x y hx hy = hy

  Frame-arrive :
      (w0 w : World T E) (p : Poll T E) (ps : List (Poll T E))
      → Frame w0 w
      → Frame w0 (arrive w p ps)
  Frame-arrive w0 w p ps h = record {
    calls_kept = h.calls_kept;
    log_kept = h.log_kept;
    later = omega arith;
  }

  Frame-set_sem : (w0 w : World T E) (s : Semaphore) → Frame w0 w → Frame w0 (set_sem w s)
  Frame-set_sem w0 w s h = record {
    calls_kept = h.calls_kept;
    log_kept = h.log_kept;
    later = h.later;
  }

  pub Frame-refl : (w : World T E) → Frame w w
  Frame-refl w = record { calls_kept = refl; log_kept = refl; later = omega arith }

  wait_permit-Quiet :
      (w0 : World T E) (qto dl : Option Instant) (ps : List (Poll T E)) (w : World T E)
      → Frame w0 w
      → Quiet w0 (wait_permit qto dl ps w)
  unfolding wait_permit
  wait_permit-Quiet w0 qto dl [] w h = h
  wait_permit-Quiet w0 qto dl (p ∷ ps) w h =
      let w1 = arrive w p ps in
      let answer = poll_acquire w1.shared.sem w1.task in
      let w2 = set_sem w1 answer.1 in
      let h2 = Frame-set_sem w0 w1 answer.1 (Frame-arrive w0 w p ps h) in
      Quiet-if w0 answer.0 _ _ h2 (
        Quiet-if w0 (is_due w2.clock qto) _ _ h2
          (Quiet-if w0 (is_due w2.clock dl) _ _ h2 (wait_permit-Quiet w0 qto dl ps w2 h2)))

  queue_up-Quiet :
      (s : SaturationPolicy) (dl : Option Instant) (w : World T E) → Quiet w (queue_up s dl w)
  unfolding queue_up
  queue_up-Quiet reject dl w = Frame-refl w
  queue_up-Quiet (wait max_queued queue_timeout) dl w =
      Quiet-if w (leb max_queued (queued w.shared.sem)) _ _ (Frame-refl w) (
        wait_permit-Quiet w (after w.clock queue_timeout) (until w.clock dl) w.polls w
          (Frame-refl w))

  pub acquire_permit-Quiet :
      (c : CompiledConcurrency) (dl : Option Instant) (w : World T E)
      → Quiet w (acquire_permit c dl w)
  unfolding acquire_permit
  acquire_permit-Quiet c dl w =
      let answer = try_acquire w.shared.sem in
      Quiet-if w answer.0 _ _ (Frame-set_sem w w answer.1 (Frame-refl w))
        (queue_up-Quiet c.saturation dl w)

  pub drop_permit-Quiet : (held : Bool) (w : World T E) → Quiet w (drop_permit held w)
  unfolding drop_permit
  drop_permit-Quiet true w = Frame-set_sem w w (release w.shared.sem).1 (Frame-refl w)
  drop_permit-Quiet false w = Frame-refl w

  sleep_until-Quiet :
      (w0 : World T E) (t : Instant) (ps : List (Poll T E)) (w : World T E)
      → Frame w0 w
      → Quiet w0 (sleep_until t ps w)
  unfolding sleep_until
  sleep_until-Quiet w0 t [] w h = h
  sleep_until-Quiet w0 t (p ∷ ps) w h =
      let w1 = arrive w p ps in
      let h1 = Frame-arrive w0 w p ps h in
      Quiet-if w0 (leb t w1.clock) _ _ h1 (sleep_until-Quiet w0 t ps w1 h1)

  pub sleep-Quiet : (d : Duration) (w : World T E) → Quiet w (sleep d w)
  unfolding sleep
  sleep-Quiet d w = sleep_until-Quiet w (w.clock + d) w.polls w (Frame-refl w)

  race_step-Quiet :
      (w0 w1 : World T E) (op : Option (Result T E)) (at tot : Option Instant)
      (again : Flow T E (AttemptOutcome T E))
      → Frame w0 w1
      → Quiet w0 again
      → Quiet w0 (elim op [
        | some r ↦ next (completed r) w1
        | none ↦
            if is_due w1.clock at
            then next attempt_timeout w1
            else if is_due w1.clock tot
            then next total_timeout w1
            else again
      ])
  race_step-Quiet w0 w1 (some r) at tot again h more = h
  race_step-Quiet w0 w1 none at tot again h more =
      Quiet-if w0 (is_due w1.clock at) _ _ h (Quiet-if w0 (is_due w1.clock tot) _ _ h more)

  race_armed-Quiet :
      (w0 : World T E) (at tot : Option Instant) (ps : List (Poll T E)) (w : World T E)
      → Frame w0 w
      → Quiet w0 (race_armed at tot ps w)
  unfolding race_armed
  race_armed-Quiet w0 at tot [] w h = h
  race_armed-Quiet w0 at tot (p ∷ ps) w h =
      let w1 = arrive w p ps in
      let h1 = Frame-arrive w0 w p ps h in
      race_step-Quiet w0 w1 p.op at tot _ h1 (race_armed-Quiet w0 at tot ps w1 h1)

  race_first-Quiet :
      (limit : Option Duration) (dl : Option Instant) (ps : List (Poll T E)) (w : World T E)
      → Quiet w (race_first limit dl ps w)
  unfolding race_first
  race_first-Quiet limit dl [] w = Frame-refl w
  race_first-Quiet limit dl (p ∷ ps) w =
      let w1 = arrive w p ps in
      let h1 = Frame-arrive w w p ps (Frame-refl w) in
      let at_sleep = after w1.clock limit in
      let tot_sleep = until w1.clock dl in
      race_step-Quiet w w1 p.op at_sleep tot_sleep _ h1
        (race_armed-Quiet w at_sleep tot_sleep ps w1 h1)

  pub race-Quiet :
      (limit : Option Duration) (dl : Option Instant) (w : World T E) → Quiet w (race limit dl w)
  unfolding race
  race-Quiet limit dl w = race_first-Quiet limit dl w.polls w
