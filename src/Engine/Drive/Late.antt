-- ===== src/Engine/Drive/Late.antt =====
-- How a retry of src/engine.rs may end before it starts: a hint or a sleep beyond the deadline.
use execution_policy.Base.{
  ◌-◌, ◌≡◌, refl, inl, inr, Duration, Instant, true, false, Option, none, some, List, arith, ◌==◌,
  ltb, Bool-cases,
}
use execution_policy.Base.Float.{Float64}
use execution_policy.Event.{Event, emit}
use execution_policy.Retry.{retry_after_hint}
use execution_policy.Engine.World.{World, Poll}
use execution_policy.Engine.Ensures.{Awaits-bind}
use execution_policy.Engine.Awaits.Polls.{Safe, sleep-Safe}
use execution_policy.Engine.Drive.{
  Loop, Call, doze, settle, schedule, overshoots, hint_exceeds, back_off, past,
}
use execution_policy.Engine.Evidence.{TotalLate}
use execution_policy.Engine.Drive.Shown.{Fine, KeptError, Honest, told-Fine, false-true}

module _ ⦃f : Float64⦄ {T E : Type 0} (c : Call T E) (polls : List (Poll T E)) (l : Loop E) where
  hinted :
      (dl : Instant) (last : Option E) (t : Instant)
      → c.total_deadline ≡ some dl
      → KeptError c polls last
      → hint_exceeds c.retry last (dl - t) ≡ true
      → TotalLate c.plan c.start c.total_deadline polls t
  hinted dl none t e k h = absurd (false-true h)
  hinted dl (some x) t e k h = by_hint (retry_after_hint c.retry x) refl h
    where
      by_hint :
          (o : Option Duration)
          → retry_after_hint c.retry x ≡ o
          → (elim o [ none ↦ false | some hint ↦ ltb (dl - t) hint ]) ≡ true
          → TotalLate c.plan c.start c.total_deadline polls t
      by_hint none asked h = absurd (false-true h)
      by_hint (some hint) asked h = (
        dl,
        e,
        inr (record {
          source = x;
          hint = hint;
          polled = k x refl;
          asked = asked;
          beyond = ground (arith, h);
        }),
      )

  overshot :
      (o : Option Instant) (last : Option E) (t : Instant)
      → c.total_deadline ≡ o
      → KeptError c polls last
      → (elim o [ none ↦ false | some dl ↦ hint_exceeds c.retry last (dl - t) ]) ≡ true
      → TotalLate c.plan c.start c.total_deadline polls t
  overshot none last t e k h = absurd (false-true h)
  overshot (some dl) last t e k h = hinted dl last t e k h

  -- What the loop goes on with.
  abbrev pub Goes : Loop E → World T E → Type 0
  Goes l' w' = Fine c polls w' × KeptError c polls l'.last_error

  settle-Honest :
      (last : Option E) (raw : Duration) (w : World T E)
      → Fine c polls w
      → KeptError c polls last
      → Honest c polls Goes (settle c l last raw w)
  unfolding settle
  settle-Honest last raw w s k = elim (Bool-cases (past c.total_deadline w.clock)) [
    | inl late ↦ rw late (missed c.total_deadline refl late)
    | inr early ↦ rw early (s, k)
  ]
    where
      missed :
          (o : Option Instant)
          → c.total_deadline ≡ o
          → past o w.clock ≡ true
          → TotalLate c.plan c.start c.total_deadline polls w.clock
      missed none e h = absurd (false-true h)
      missed (some dl) e h = (dl, e, inl (ground (arith, h)))

  doze-Safe :
      (d : Duration) (w : World T E)
      → Fine c polls w
      → Safe c.plan c.start c.total_deadline polls (doze d w)
  doze-Safe d w s = elim (Bool-cases (d == 0)) [
    | inl nought ↦ rw nought s
    | inr more ↦ rw more (sleep-Safe c.plan c.start c.total_deadline polls d w s)
  ]

  schedule-Honest :
      (last : Option E) (raw d : Duration) (w : World T E)
      → Fine c polls w
      → KeptError c polls last
      → Honest c polls Goes (schedule c l last raw d w)
  unfolding schedule
  schedule-Honest last raw d w s k =
      Awaits-bind _ _ _ _ _ (λ _. Unit) (doze d) told (doze-Safe d told (told-Fine c polls w _ s))
        (λ w' q. tt) (λ _ w' s'. settle-Honest last raw w' s' k)
    where
      told : World T E
      told = record w { log = emit c.plan.on_event (Event.retry_scheduled l.attempt_no d) w.log }

  pub back_off-Honest :
      (last : Option E) (w : World T E)
      → Fine c polls w
      → KeptError c polls last
      → Honest c polls Goes (back_off c l last w)
  unfolding back_off
  back_off-Honest last w s k = elim (Bool-cases (overshoots c last w.clock)) [
    | inl over ↦ rw over (overshot c.total_deadline last w.clock refl k over)
    | inr fits ↦ rw fits (schedule-Honest last _ _ _ (record { rest = s.rest; begun = s.begun }) k)
  ]
