-- ===== src/Router/Sound.antt =====
-- What a run of the router leaves of the members' breakers, when the engine serves the members (`run` of
-- src/router.rs).
use execution_policy.Base.{
  ℕ, ◌≤◌, ◌<◌, ◌≡◌, refl, sym, subst, Instant, Bool, true, false, Option, none, some, ◌==◌,
  if◌then◌else◌, arith,
}
use execution_policy.Base.Float.{Float64}
use execution_policy.Outcome.{Result, ok, err, ExecutionError, operation}
use execution_policy.Breaker.{BreakerRuntime}
use execution_policy.Breaker.Invariant.{IsValid}
use execution_policy.Builder.{Policy}
use execution_policy.Engine.World.{World, Flow, next, finish, pending, stuck}
use execution_policy.Engine.Ensures.{Awaits}
use execution_policy.Engine.Clients.{Leads, Clients}
use execution_policy.Engine.Pipeline.Sound.{run_pipeline-IsValid}
use execution_policy.Policy.Runs
use execution_policy.Router.{RouterPolicy, Pool}
use execution_policy.Router.Fairness.{second}
use execution_policy.Router.Lift.{back, Gives, Rounds, run-Lifted}
use execution_policy.Router.Choose.{Choice}
use execution_policy.Router.Run.{Journey, Serve, RunState, run, enter, leave, record_attempt}
use execution_policy.Router.Serving.{
  polls-with_breaker, world_at, with_breaker, answered, serve_by, pool_after, set_runtime,
}

module _ ⦃f : Float64⦄ where
  -- The breakers of the pool are well-formed.
  abbrev pub AllValid : Pool → Type 0
  AllValid p = (k : ℕ) (b : BreakerRuntime) → p.breakers k ≡ some b → IsValid b

  enter-AllValid : (i : ℕ) (p : Pool) → AllValid p → AllValid (enter p i)
  unfolding enter
  enter-AllValid i p v = v

  module _ {Key T E : Type 0} (r : RouterPolicy Key E) (serve : Serve T E)
      (keeps : (i : ℕ) (p p1 : Pool) (o : Result T (ExecutionError E))
        → AllValid p
        → serve i p ≡ some (o, p1)
        → AllValid p1) where
    abbrev Between : RunState E → Pool → Type 0
    Between l p = AllValid p

    abbrev Chosen : RunState E → Choice Key × Pool → Type 0
    Chosen l c = AllValid c.1

    abbrev After : Journey Key T E → Type 0
    After j = AllValid j.2

    back-AllValid :
        (soonest : Option Instant) (l : RunState E) (i : ℕ) (p p1 : Pool) (is_ok : Bool)
        (o : Result T (ExecutionError E))
        → Gives r serve soonest Between Chosen After l i p (some (o, p1))
        → AllValid (back r serve soonest i p.clock is_ok p1)
    unfolding leave record_attempt
    back-AllValid soonest l i p p1 is_ok o g =
        keeps i (enter p i) p1 o (enter-AllValid i p g.before) g.gives

    rounds-AllValid : (soonest : Option Instant) → Rounds r serve soonest Between Chosen After
    rounds-AllValid soonest = record {
      draws = λ l p d v. subst AllValid (sym d.1) v;
      scores = λ l p id value v. v;
      panics = λ l c v. v;
      waits = λ l i p g. enter-AllValid i p g.before;
      serves = λ l i p p1 t v e g. back-AllValid soonest l i p p1 _ (ok v) g;
      fails_fast = λ l i p p1 source c stays g.
          back-AllValid soonest l i p p1 _ (err (operation source c)) g;
      advances = λ l i p p1 t source c found moves g.
          back-AllValid soonest l i p p1 _ (err (operation source c)) g;
      passes_over = λ l i p p1 t e found no_source g. back-AllValid soonest l i p p1 _ (err e) g;
      ends = λ l p e v. v;
    }

    run-AllValid : (p : Pool) → AllValid p → AllValid (run r serve p).2
    run-AllValid p v = run-Lifted r serve p Between Chosen After rounds-AllValid (λ healthy e. v)

  some_inj : {b c : BreakerRuntime} → some b ≡ some c → b ≡ c
  some_inj h = ground arith

  none_some : {A : Type 0} {x : A} → none ≡ some x → ⊥
  none_some h = ground arith

  set_runtime-IsValid :
      (o : Option BreakerRuntime) (c b : BreakerRuntime)
      → set_runtime o c ≡ some b
      → ((x : BreakerRuntime) → o ≡ some x → IsValid c)
      → IsValid b
  set_runtime-IsValid none c b e v = absurd (none_some e)
  set_runtime-IsValid (some x) c b e v = subst IsValid (some_inj e) (v x refl)

  breaker-with_breaker :
      {T E : Type 0} (o : Option BreakerRuntime) (w : World T E) (b : BreakerRuntime)
      → o ≡ some b
      → (with_breaker o w).shared.breaker ≡ b
  breaker-with_breaker none w b e = absurd (none_some e)
  breaker-with_breaker (some c) w b e = some_inj e

module _ ⦃f : Float64⦄ {T E : Type 0} (policies : ℕ → Policy T E) (worlds : ℕ → World T E)
    (meanwhile : ℕ → Pool → Pool) (lo : (i : ℕ) → 1 ≤ (policies i).plan.retry.max_attempts)
    (hi : (i : ℕ) → (policies i).plan.retry.max_attempts < 4294967296)
    (clients : (i : ℕ) → Clients Leads (worlds i).polls)
    (careful : (i : ℕ) (p : Pool) → AllValid p → AllValid (meanwhile i p)) where
  pool_after-AllValid :
      (i : ℕ) (p : Pool) (w : World T E)
      → AllValid p
      → ((b : BreakerRuntime) → p.breakers i ≡ some b → IsValid w.shared.breaker)
      → AllValid (pool_after i p w)
  pool_after-AllValid i p w v last k b e = by_index (k == i) refl e
    where
      same_index : k == i ≡ true → k ≡ i
      same_index h = ground arith

      by_index :
          (t : Bool)
          → k == i ≡ t
          → (if t then set_runtime (p.breakers k) w.shared.breaker else p.breakers k) ≡ some b
          → IsValid b
      by_index true same e' =
          set_runtime-IsValid (p.breakers k) w.shared.breaker b e'
            (λ x g. last x (subst (λ j. p.breakers j ≡ some x) (same_index same) g))
      by_index false other e' = v k b e'

  answered-AllValid :
      (i : ℕ) (p p1 : Pool) (o : Result T (ExecutionError E))
      (x : Flow T E (Result T (ExecutionError E)))
      → AllValid p
      → ((b : BreakerRuntime)
          → p.breakers i ≡ some b
          → Awaits (λ r w'. IsValid w'.shared.breaker) (λ w'. IsValid w'.shared.breaker) x)
      → answered (λ w. meanwhile i (pool_after i p w)) x ≡ some (o, p1)
      → AllValid p1
  answered-AllValid i p p1 o (next r w) v k e =
      subst AllValid (second e) (careful i _ (pool_after-AllValid i p w v (λ b g. k b g)))
  answered-AllValid i p p1 o (finish r w) v k e =
      subst AllValid (second e) (careful i _ (pool_after-AllValid i p w v (λ b g. absurd (k b g))))
  answered-AllValid i p p1 o (pending w) v k e = absurd (none_some e)
  answered-AllValid i p p1 o (stuck w) v k e = absurd (none_some e)

  serve_by-AllValid :
      (i : ℕ) (p p1 : Pool) (o : Result T (ExecutionError E))
      → AllValid p
      → serve_by policies worlds meanwhile i p ≡ some (o, p1)
      → AllValid p1
  serve_by-AllValid i p p1 o v e =
      answered-AllValid i p p1 o (Runs.run (policies i) (world_at (worlds i) i p)) v
        (λ b g.
          run_pipeline-IsValid (policies i).plan (world_at (worlds i) i p) (lo i) (hi i)
            (subst IsValid (sym (breaker-with_breaker (p.breakers i) _ b g)) (v i b g))
            (subst (Clients Leads) (sym (polls-with_breaker _ (p.breakers i))) (clients i)))
        e

  -- When the engine serves the members, each under a policy with a valid cap, a run of the router
  -- leaves each breaker of its pool well-formed, if they are so at its start, and if other tasks do no more
  -- to the breaker of a call than to ask it and to vote, and keep the others well-formed.
  pub run-AllValid_served :
      {Key : Type 0} (r : RouterPolicy Key E) (p : Pool)
      → AllValid p
      → AllValid (run r (serve_by policies worlds meanwhile) p).2
  run-AllValid_served r p v =
      run-AllValid r (serve_by policies worlds meanwhile) serve_by-AllValid p v
