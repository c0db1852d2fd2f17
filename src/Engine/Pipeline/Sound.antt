-- ===== src/Engine/Pipeline/Sound.antt =====
-- A call of the pipeline keeps the breaker that it shares well-formed (`run_pipeline` of src/engine.rs).
use execution_policy.Base.{◌≤◌, ◌<◌, sym, subst, inl, inr, Instant, Option, some, none}
use execution_policy.Base.Float.{Float64}
use execution_policy.Outcome.{
  Result, ok, err, ExecutionError, operation, attempt_timeout, total_timeout, circuit_open,
  concurrency_rejected, retry_budget_exhausted, BreakerState,
}
use execution_policy.Engine.Pipeline.Cast.{Cast}
use execution_policy.Breaker.{BreakerRuntime}
use execution_policy.Breaker.Invariant.{
  IsValid, gates, succeeds, fails, after-IsValid, run-IsValid_from,
}
use execution_policy.Engine.World.{World, Plan, CompiledBreaker}
use execution_policy.Engine.Ensures.{Awaits, Ensures-mono}
use execution_policy.Engine.Clients.{Leads, Leads-Steps, Clients}
use execution_policy.Engine.Pipeline.{run_pipeline}
use execution_policy.Engine.Pipeline.Ballot.{
  Asked, Running, Stage, unasked, running, Ballot, unguarded, turned_away, cut_off, voted,
  run_pipeline-Voted,
}

module _ ⦃f : Float64⦄ where
  Leads-IsValid : (b b' : BreakerRuntime) → Leads b b' → IsValid b → IsValid b'
  Leads-IsValid b b' (cs, e) v = subst IsValid e (run-IsValid_from b cs v)

  Asked-IsValid :
      (b b' : BreakerRuntime) (answer : Option BreakerState)
      → Asked Leads b answer b'
      → IsValid b
      → IsValid b'
  Asked-IsValid b b' answer a v =
      subst IsValid a.left (after-IsValid a.found (a.at, gates) (Leads-IsValid b a.found a.led v))

  Running-IsValid : (b b' : BreakerRuntime) → Running Leads b b' → IsValid b → IsValid b'
  Running-IsValid b b' m v =
      Leads-IsValid m.since b' m.led (Asked-IsValid b m.since (some m.state) m.asked v)

  Cast-IsValid :
      {T E : Type 0} (cb : CompiledBreaker E) (r : Result T (ExecutionError E)) (b : BreakerRuntime)
      (t : Instant) (b' : BreakerRuntime)
      → Cast cb r b t b'
      → IsValid b
      → IsValid b'
  Cast-IsValid cb (ok x) b t b' c v = subst IsValid (sym c) (after-IsValid b (t, succeeds) v)
  Cast-IsValid cb (err (operation source x)) b t b' (inl c) v =
      subst IsValid (sym c.1) (after-IsValid b (t, succeeds) v)
  Cast-IsValid cb (err (operation source x)) b t b' (inr c) v =
      subst IsValid (sym c.1) (after-IsValid b (t, fails) v)
  Cast-IsValid cb (err (attempt_timeout x)) b t b' c v =
      subst IsValid (sym c) (after-IsValid b (t, fails) v)
  Cast-IsValid cb (err (total_timeout x)) b t b' c v =
      subst IsValid (sym c) (after-IsValid b (t, fails) v)
  Cast-IsValid cb (err (circuit_open x)) b t b' c v = subst IsValid (sym c) v
  Cast-IsValid cb (err (concurrency_rejected x)) b t b' c v = subst IsValid (sym c) v
  Cast-IsValid cb (err (retry_budget_exhausted x)) b t b' c v = subst IsValid (sym c) v

module _ ⦃f : Float64⦄ {T E : Type 0} (plan : Plan T E) where
  Stage-IsValid : (b b' : BreakerRuntime) → Stage Leads plan b b' → IsValid b → IsValid b'
  Stage-IsValid b b' (unasked l) v = Leads-IsValid b b' l v
  Stage-IsValid b b' (running m) v = Running-IsValid b b' m v

  Ballot-IsValid :
      (b b' : BreakerRuntime) (r : Result T (ExecutionError E)) (t : Instant)
      → Ballot Leads plan b r b' t
      → IsValid b
      → IsValid b'
  Ballot-IsValid b b' r t (unguarded e l) v = Leads-IsValid b b' l v
  Ballot-IsValid b b' r t (turned_away x e c l) v = Leads-IsValid b b' l v
  Ballot-IsValid b b' r t (cut_off x e c a) v = Asked-IsValid b b' none a v
  Ballot-IsValid b b' r t (voted cb before e m c) v =
      Cast-IsValid cb r before t b' c (Running-IsValid b before m v)

  -- A call leaves a well-formed breaker well-formed, when it ends, in whatever way, and while it waits.
  pub run_pipeline-IsValid :
      (w : World T E)
      → 1 ≤ plan.retry.max_attempts
      → plan.retry.max_attempts < 4294967296
      → IsValid w.shared.breaker
      → Clients Leads w.polls
      → Awaits
          (λ _ w'. IsValid w'.shared.breaker)
          (λ w'. IsValid w'.shared.breaker)
          (run_pipeline plan w)
  run_pipeline-IsValid w lo hi valid clients =
      Ensures-mono _ _ _ _ _ _ (run_pipeline plan w)
        (run_pipeline-Voted Leads plan w Leads-Steps lo hi clients)
        (λ r w' h. Ballot-IsValid w.shared.breaker w'.shared.breaker r w'.clock h valid)
        (λ r w' h. h) (λ w' h. Stage-IsValid w.shared.breaker w'.shared.breaker h valid)
