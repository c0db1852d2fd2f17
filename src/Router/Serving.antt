-- ===== src/Router/Serving.antt =====
-- The members of the router served by the engine: the call of a member's policy in `run` of
-- src/router.rs, with the plan and the breaker that the member has.
use execution_policy.Base.{ℕ, Option, none, some, ◌==◌, if◌then◌else◌, ◌≡◌, refl}
use execution_policy.Base.Float.{Float64}
use execution_policy.Outcome.{Result, ExecutionError}
use execution_policy.Breaker.{BreakerRuntime}
use execution_policy.Builder.{Policy}
use execution_policy.Engine.World.{World, Flow, next, finish, pending, stuck, set_breaker}
use execution_policy.Policy.Runs
use execution_policy.Router.{Pool}
use execution_policy.Router.Run.{Serve}

module _ ⦃f : Float64⦄ where
  abbrev pub set_runtime : Option BreakerRuntime → BreakerRuntime → Option BreakerRuntime
  set_runtime none b = none
  set_runtime (some _) b = some b

module _ ⦃f : Float64⦄ {T E : Type 0} where
  abbrev pub with_breaker : Option BreakerRuntime → World T E → World T E
  with_breaker none w = w
  with_breaker (some b) w = set_breaker w b

  pub polls-with_breaker :
      (w : World T E) (b : Option BreakerRuntime) → (with_breaker b w).polls ≡ w.polls
  polls-with_breaker w none = refl
  polls-with_breaker w (some b) = refl

  -- The world of a call on a member: the clock and the member's breaker are those of the pool.
  abbrev pub world_at : World T E → ℕ → Pool → World T E
  world_at w i p = with_breaker (p.breakers i) (record w { clock = p.clock })

  abbrev pub pool_after : ℕ → Pool → World T E → Pool
  pool_after i p w = record p {
    clock = w.clock;
    breakers = λ k. if k == i then set_runtime (p.breakers k) w.shared.breaker else p.breakers k;
  }

  abbrev pub answered :
      (World T E → Pool)
      → Flow T E (Result T (ExecutionError E))
      → Option (Result T (ExecutionError E) × Pool)
  answered pool_of (next r w) = some (r, pool_of w)
  answered pool_of (finish r w) = some (r, pool_of w)
  answered pool_of (pending w) = none
  answered pool_of (stuck w) = none

  -- A call on the member `i` runs its policy in its world; `meanwhile` is what other tasks did to the
  -- rest of the pool.
  abbrev pub serve_by : (ℕ → Policy T E) → (ℕ → World T E) → (ℕ → Pool → Pool) → Serve T E
  serve_by policies worlds meanwhile i p =
      answered (λ w. meanwhile i (pool_after i p w))
        (Runs.run (policies i) (world_at (worlds i) i p))
