-- ===== src/Engine/Awaits/Polls.antt =====
-- The awaits of src/engine.rs take their polls from those of the call, and an attempt ends as a poll or
-- a timer says.
use execution_policy.Base.{
  ℕ, ◌≤◌, ◌≡◌, refl, subst, inl, inr, Duration, Instant, Bool, true, false, Option, none, some,
  List, [], ◌∷◌, arith, if◌then◌else◌,
}
use execution_policy.Base.Float.{Float64}
use execution_policy.Outcome.{Result}
use execution_policy.Concurrency.{CompiledConcurrency}
use execution_policy.Engine.World.{World, Plan, Poll, Flow, next, finish, pending, stuck, arrive}
use execution_policy.Engine.Ensures.{Awaits, Ensures-if}
use execution_policy.Engine.Books.{Phase, ready, Account}
use execution_policy.Engine.Books.Rule.{Kept}
use execution_policy.Engine.Awaits.{
  AttemptOutcome, completed, attempt_timeout, total_timeout, is_due, after, until, acquire_permit,
  drop_permit, race_armed, race_first, race, sleep,
}
use execution_policy.Engine.Awaits.Held.{acquire_permit-Gains, drop_permit-Await, sleep-Await}
use execution_policy.Engine.Awaits.Frame.{
  Quiet, acquire_permit-Quiet, drop_permit-Quiet, sleep-Quiet,
}
use execution_policy.Engine.Evidence.{Polled, AttemptLate, TotalLate, Sane}
use execution_policy.Router.Least.{In}

-- What a stretch without a return ensures, and what it keeps.
module _ ⦃f : Float64⦄ {T E A : Type 0} where
  both :
      (Q Q' : A → World T E → Type 0) (S S' : World T E → Type 0) (x : Flow T E A)
      → Awaits Q S x
      → Kept Q' (λ _. ⊥) S' x
      → Awaits (λ a w. Q a w × Q' a w) (λ w. S w × S' w) x
  both Q Q' S S' (next a w) h k = (h, k)
  both Q Q' S S' (finish r w) h k = h
  both Q Q' S S' (pending w) h k = (h, k)
  both Q Q' S S' (stuck w) h k = h

module _ ⦃f : Float64⦄ {T E : Type 0} (plan : Plan T E) (start : Instant)
    (deadline : Option Instant) (polls : List (Poll T E)) where
  abbrev Fine : World T E → Type 0
  Fine = Sane plan start deadline polls

  -- The polls to come are of those of the call.
  abbrev Rest : World T E → Type 0
  Rest w = (p : Poll T E) → In p w.polls → In p polls

  arrive-Rest :
      (w : World T E) (p : Poll T E) (ps : List (Poll T E))
      → w.polls ≡ p ∷ ps
      → Rest w
      → In p polls × Rest (arrive w p ps)
  arrive-Rest w p ps e rest =
      let come = subst (λ (l : List (Poll T E)). (q : Poll T E) → In q l → In q polls) e rest in
      (come p (inl refl), λ q m. come q (inr m))

  Rest-Account : Account none (λ (s : Phase) (k : ℕ) w. Rest w)
  Rest-Account = record {
    still = λ s k w w' q h p m. h p (subst (λ (l : List (Poll T E)). In p l) q.polls_kept m);
    arrives = λ s k w p ps e h. (arrive-Rest w p ps e h).1;
    answers = λ s k w got sem e h. h;
    drops = λ s k w h. h;
    deposits = λ k w h. h;
    calls = λ k w a h. h;
    pays = λ k w g h. h;
    refuses = λ k w g h. h;
    unpaid = λ s k w e h. h;
    ends = λ s k w h. h;
  }

  -- An await that leaves the call sane.
  abbrev pub Safe : {A : Type 0} → Flow T E A → Type 0
  Safe {A} = Awaits (λ (a : A) w'. Fine w') (λ _. Unit)

  framed :
      {A : Type 0} (w : World T E) (x : Flow T E A)
      → Fine w
      → Quiet w x
      → Kept (λ _ w'. Rest w') (λ _. ⊥) (λ w'. ℕ × Rest w') x
      → Safe x
  framed w (next a w') s q k = record { rest = k; begun = omega (arith, s.begun, q.later) }
  framed w (finish r w') s q k = absurd q
  framed w (pending w') s q k = tt
  framed w (stuck w') s q k = q

  pub acquire_permit-Safe :
      (c : CompiledConcurrency) (dl : Option Instant) (w : World T E)
      → Fine w
      → Safe (acquire_permit c dl w)
  acquire_permit-Safe c dl w s =
      framed w (acquire_permit c dl w) s (acquire_permit-Quiet c dl w)
        (acquire_permit-Gains _ Rest-Account ready 0 c dl w s.rest)

  pub drop_permit-Safe : (held : Bool) (w : World T E) → Fine w → Safe (drop_permit held w)
  drop_permit-Safe held w s =
      framed w (drop_permit held w) s (drop_permit-Quiet held w)
        (drop_permit-Await _ Rest-Account ready 0 held w s.rest)

  pub sleep-Safe : (d : Duration) (w : World T E) → Fine w → Safe (sleep d w)
  sleep-Safe d w s =
      framed w (sleep d w) s (sleep-Quiet d w) (sleep-Await _ Rest-Account ready 0 d w s.rest)

  -- What the outcome of an attempt shows.
  abbrev pub Shows : AttemptOutcome T E → Instant → Type 0
  Shows (completed r) t = Polled plan start deadline polls r
  Shows attempt_timeout t = AttemptLate plan start deadline polls t
  Shows total_timeout t = TotalLate plan start deadline polls t

  -- An outcome with its evidence.
  abbrev pub Shown : Flow T E (AttemptOutcome T E) → Type 0
  Shown = Awaits (λ o w'. Fine w' × Shows o w'.clock) (λ _. Unit)

  race_step-Shown :
      (w1 : World T E) (p : Poll T E) (op : Option (Result T E)) (at tot : Option Instant)
      (again : Flow T E (AttemptOutcome T E))
      → p.op ≡ op
      → In p polls
      → Fine w1
      → (is_due w1.clock at ≡ true → Shows attempt_timeout w1.clock)
      → (is_due w1.clock tot ≡ true → Shows total_timeout w1.clock)
      → Shown again
      → Shown (elim op [
        | some r ↦ next (completed r) w1
        | none ↦
            if is_due w1.clock at
            then next attempt_timeout w1
            else if is_due w1.clock tot
            then next total_timeout w1
            else again
      ])
  race_step-Shown w1 p (some r) at tot again e m s la lt more =
      (s, record { poll = p; came = m; ready = e })
  race_step-Shown w1 p none at tot again e m s la lt more =
      Ensures-if _ _ _ (is_due w1.clock at) _ _ (λ due. (s, la due))
        (λ _. Ensures-if _ _ _ (is_due w1.clock tot) _ _ (λ due. (s, lt due)) (λ _. more))

  race_armed-Shown :
      (at tot : Option Instant) (ps : List (Poll T E)) (w : World T E)
      → w.polls ≡ ps
      → Fine w
      → ((t : Instant) → is_due t at ≡ true → Shows attempt_timeout t)
      → ((t : Instant) → is_due t tot ≡ true → Shows total_timeout t)
      → Shown (race_armed at tot ps w)
  unfolding race_armed
  race_armed-Shown at tot [] w e s la lt = tt
  race_armed-Shown at tot (p ∷ ps) w e s la lt =
      let w1 = arrive w p ps in
      let (came, rest) = arrive-Rest w p ps e s.rest in
      let s1 : Fine w1 = record { rest = rest; begun = omega (arith, s.begun) } in
      race_step-Shown w1 p p.op at tot _ refl came s1 (la w1.clock) (lt w1.clock)
        (race_armed-Shown at tot ps w1 refl s1 la lt)

  attempt_due :
      (now : Instant) (limit : Option Duration)
      → start ≤ now
      → plan.attempt_timeout ≡ limit
      → (t : Instant) → is_due t (after now limit) ≡ true
      → Shows attempt_timeout t
  attempt_due now none begun e t due = absurd (false-true due)
    where
      false-true : false ≡ true → ⊥
      false-true h = ground arith
  attempt_due now (some d) begun e t due = (d, e, ground (arith, due, begun))

  total_due :
      (now : Instant) (dl : Option Instant)
      → deadline ≡ dl
      → (t : Instant) → is_due t (until now dl) ≡ true
      → Shows total_timeout t
  total_due now none e t due = absurd (false-true due)
    where
      false-true : false ≡ true → ⊥
      false-true h = ground arith
  total_due now (some d) e t due = (d, e, inl (ground (arith, due)))

  race_first-Shown :
      (ps : List (Poll T E)) (w : World T E)
      → w.polls ≡ ps
      → Fine w
      → Shown (race_first plan.attempt_timeout deadline ps w)
  unfolding race_first
  race_first-Shown [] w e s = tt
  race_first-Shown (p ∷ ps) w e s =
      let w1 = arrive w p ps in
      let (came, rest) = arrive-Rest w p ps e s.rest in
      let s1 : Fine w1 = record { rest = rest; begun = omega (arith, s.begun) } in
      let la = attempt_due w1.clock plan.attempt_timeout s1.begun refl in
      let lt = total_due w1.clock deadline refl in
      race_step-Shown w1 p p.op _ _ _ refl came s1 (la w1.clock) (lt w1.clock)
        (race_armed-Shown _ _ ps w1 refl s1 la lt)

  pub race-Shown : (w : World T E) → Fine w → Shown (race plan.attempt_timeout deadline w)
  unfolding race
  race-Shown w s = race_first-Shown w.polls w refl s
