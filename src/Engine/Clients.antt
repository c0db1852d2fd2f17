-- ===== src/Engine/Clients.antt =====
-- Clients of a breaker of src/breaker.rs: what other tasks do to the breaker that a call of src/engine.rs
-- shares with them, as a relation of the states before and after.
use execution_policy.Base.{◌≡◌, refl, ap, ◌∙◌, subst, List, [], ◌∷◌, ◌++◌, Instant, Option}
use execution_policy.Base.Float.{Float64}
use execution_policy.Retry.{RetryBudget}
use execution_policy.Breaker.{BreakerRuntime}
use execution_policy.Breaker.Invariant.{Call, after, run}
use execution_policy.Engine.World.{World, Poll, Shared, arrive}
use execution_policy.Engine.Books.{Account}

module _ ⦃f : Float64⦄ where
  -- One state of the breaker is reached from another by calls that ask it and that vote.
  abbrev pub Leads : BreakerRuntime → BreakerRuntime → Type 0
  Leads b b' = (cs : List (Instant × Call)) × (run b cs ≡ b')

  run-append :
      (b : BreakerRuntime) (cs ds : List (Instant × Call)) → run b (cs ++ ds) ≡ run (run b cs) ds
  unfolding run
  run-append b [] ds = refl
  run-append b (c ∷ cs) ds = run-append (after b c) cs ds

  pub Leads-trans : (a b c : BreakerRuntime) → Leads a b → Leads b c → Leads a c
  Leads-trans a b c (cs, e) (ds, g) = (cs ++ ds, run-append a cs ds ∙ ap (λ x. run x ds) e ∙ g)

  pub Leads-refl : (b : BreakerRuntime) → Leads b b
  unfolding run
  Leads-refl b = ([], refl)

  pub Leads-turn : (b : BreakerRuntime) (c : Instant × Call) → Leads b (after b c)
  unfolding run
  Leads-turn b c = (c ∷ [], refl)

module _ ⦃f : Float64⦄ (R : BreakerRuntime → BreakerRuntime → Type 0) where
  -- Steps of other tasks, one after the other, make a step of theirs.
  pub record Steps : Type 0 where
    pub none : (b : BreakerRuntime) → R b b
    pub both : (a b c : BreakerRuntime) → R a b → R b c → R a c

module _ ⦃f : Float64⦄ where
  pub Leads-Steps : Steps Leads
  Leads-Steps = record { none = Leads-refl; both = Leads-trans }

  -- Nobody else touches the breaker.
  abbrev pub Same : BreakerRuntime → BreakerRuntime → Type 0
  Same b b' = b' ≡ b

  pub Same-Steps : Steps Same
  Same-Steps = record { none = λ b. refl; both = λ a b c e g. g ∙ e }

module _ ⦃f : Float64⦄ {T E : Type 0} (R : BreakerRuntime → BreakerRuntime → Type 0) where
  -- Before each poll other tasks move the breaker by such a step.
  abbrev pub Clients : List (Poll T E) → Type 0
  Clients [] = Unit {0}
  Clients (p ∷ ps) = ((x : Shared) → R x.breaker (p.others x).breaker) × Clients ps

  module _ (b : BreakerRuntime) where
    -- Only other tasks have moved the breaker since `b`, and only they will.
    pub record Led (w : World T E) : Type 0 where
      pub led : R b w.shared.breaker
      pub clients : Clients w.polls

    module _ (steps : Steps R) where
      Led-arrives :
          (w : World T E) (p : Poll T E) (ps : List (Poll T E))
          → w.polls ≡ p ∷ ps
          → Led w
          → Led (arrive w p ps)
      Led-arrives w p ps e h =
          let clients = subst (λ (l : List (Poll T E)). Clients l) e h.clients in
          record {
            led =
                steps.both b w.shared.breaker (p.others w.shared).breaker h.led
                  (clients.0 w.shared);
            clients = clients.1;
          }

      pub Led-Account : (budget : Option RetryBudget) → Account budget (λ s k w. Led w)
      Led-Account budget = record {
        still = λ s k w w' q h. record {
          led = rw q.breaker_kept h.led;
          clients = rw q.polls_kept h.clients;
        };
        arrives = λ s k w p ps e h. Led-arrives w p ps e h;
        answers = λ s k w got sem count h. record { led = h.led; clients = h.clients };
        drops = λ s k w h. record { led = h.led; clients = h.clients };
        deposits = λ k w h. record { led = h.led; clients = h.clients };
        calls = λ k w a h. record { led = h.led; clients = h.clients };
        pays = λ k w g h. record { led = h.led; clients = h.clients };
        refuses = λ k w g h. record { led = h.led; clients = h.clients };
        unpaid = λ s k w e h. h;
        ends = λ s k w h. h;
      }
