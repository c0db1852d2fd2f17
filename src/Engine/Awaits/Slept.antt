-- ===== src/Engine/Awaits/Slept.antt =====
-- How long a sleep of src/engine.rs takes.
use execution_policy.Base.{
  ◌+◌, ◌≤◌, inl, inr, Duration, Instant, List, [], ◌∷◌, arith, leb, Bool-cases,
}
use execution_policy.Base.Float.{Float64}
use execution_policy.Engine.World.{World, Poll, Flow, arrive}
use execution_policy.Engine.Ensures.{Awaits}
use execution_policy.Engine.Awaits.{sleep_until, sleep}

module _ ⦃f : Float64⦄ {T E : Type 0} where
  -- A sleep takes its time.
  abbrev pub Slept : Instant → Flow T E (Unit {0}) → Type 0
  Slept t = Awaits (λ _ w'. t ≤ w'.clock) (λ _. Unit)

  sleep_until-Slept :
      (t : Instant) (ps : List (Poll T E)) (w : World T E) → Slept t (sleep_until t ps w)
  unfolding sleep_until
  sleep_until-Slept t [] w = tt
  sleep_until-Slept t (p ∷ ps) w = elim (Bool-cases (leb t (arrive w p ps).clock)) [
    | inl due ↦ rw due (ground arith)
    | inr early ↦ rw early (sleep_until-Slept t ps (arrive w p ps))
  ]

  pub sleep-Slept : (d : Duration) (w : World T E) → Slept (w.clock + d) (sleep d w)
  unfolding sleep
  sleep-Slept d w = sleep_until-Slept (w.clock + d) w.polls w
