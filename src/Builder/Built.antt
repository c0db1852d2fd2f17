-- ===== src/Builder/Built.antt =====
-- What the builder of a policy lets through (src/builder.rs), and what that means for its calls.
use execution_policy.Base.{
  ◌≤◌, ◌<◌, ◌≡◌, refl, Option, none, some, Duration, arith, ltb, ltb→lt, ◌==◌, Bool-cases, inl, inr,
  if◌then◌else◌, subst,
}
use execution_policy.Base.Float.{Float64}
use execution_policy.Outcome.{Result, ok, err}
use execution_policy.Retry.{Retry, no_retries}
use execution_policy.Engine.World.{World}
use execution_policy.Engine.Ensures.{Awaits}
use execution_policy.Engine.Pipeline.{run_pipeline}
use execution_policy.Engine.Pipeline.Runs.{Ran, Waits, run_pipeline-Ran}
use execution_policy.Builder.{
  BuildError, no_attempts, timeout_inversion, ExecutionPolicyBuilder, Policy, validate, compile,
  try_build, after_check, inverted, no_cap, retry_or_none,
}

module _ ⦃f : Float64⦄ {T E : Type 0} where
  -- A retry policy is set whose cap is a u32.
  abbrev pub IsWord : Option (Retry T E) → Type 0
  IsWord none = Unit {0}
  IsWord (some r) = r.max_attempts < 4294967296

  -- What the validation says of a configuration.
  abbrev pub Validated : ExecutionPolicyBuilder T E → Result (Policy T E) BuildError → Type 0
  Validated b (ok p) =
      (1 ≤ p.plan.retry.max_attempts)
      × ((a t : Duration) → p.plan.attempt_timeout ≡ some a → p.plan.total_timeout ≡ some t → a ≤ t)
  Validated b (err no_attempts) = (r : Retry T E) × (b.retry ≡ some r) × (r.max_attempts ≡ 0)
  Validated b (err (timeout_inversion a t)) =
      (b.attempt_timeout ≡ some a) × (b.total_timeout ≡ some t) × (t < a)

  -- The timeouts are in order, or the error names them.
  inverted-Validated :
      (b : ExecutionPolicyBuilder T E) (a t : Option Duration)
      → b.attempt_timeout ≡ a
      → b.total_timeout ≡ t
      → 1 ≤ (compile b).plan.retry.max_attempts
      → Validated b (after_check b (inverted a t))
  unfolding compile
  inverted-Validated b none t e1 e2 lo = (lo, λ x y p q. ground arith)
  inverted-Validated b (some a) none e1 e2 lo = (lo, λ x y p q. ground arith)
  inverted-Validated b (some a) (some t) e1 e2 lo = elim (Bool-cases (ltb t a)) [
    | inl late ↦ rw late (e1, e2, ltb→lt t a late)
    | inr in_order ↦ rw in_order (lo, λ x y p q. ground arith)
  ]

  -- A policy that the builder lets through makes at least one attempt, and no attempt may take longer
  -- than the whole call. An error names the mistake that the configuration has.
  pub try_build-Validated : (b : ExecutionPolicyBuilder T E) → Validated b (try_build b)
  unfolding try_build validate compile no_retries
  try_build-Validated b = capped b.retry refl
    where
      capped :
          (r : Option (Retry T E))
          → b.retry ≡ r
          → Validated b (
              after_check b
                (if no_cap r then err no_attempts else inverted b.attempt_timeout b.total_timeout))
      capped none e =
          inverted-Validated b b.attempt_timeout b.total_timeout refl refl (rw e (omega arith))
      capped (some r) e = elim (Bool-cases (r.max_attempts == 0)) [
        | inl zero ↦ rw zero (r, e, ground arith)
        | inr more ↦
            rw more (
              inverted-Validated b b.attempt_timeout b.total_timeout refl refl
                (rw e (ground arith)))
      ]

  compile-IsWord :
      (b : ExecutionPolicyBuilder T E)
      → IsWord b.retry
      → (compile b).plan.retry.max_attempts < 4294967296
  unfolding compile no_retries
  compile-IsWord b h = small b.retry h
    where
      small : (r : Option (Retry T E)) → IsWord r → (retry_or_none r).max_attempts < 4294967296
      small none h = omega arith
      small (some r) h = h

  pub compile-try_build :
      (b : ExecutionPolicyBuilder T E) (p : Policy T E) → try_build b ≡ ok p → compile b ≡ p
  unfolding try_build
  compile-try_build b p e = compiled (validate b) e
    where
      compiled : (v : Result (Unit {0}) BuildError) → after_check b v ≡ ok p → compile b ≡ p
      compiled (ok _) e = ground arith
      compiled (err x) e = ground arith

  -- Every call of a policy that the builder lets through ends or waits for a poll, whatever other tasks
  -- do, with the operation called at most as often as the cap allows, and reports what it did.
  pub try_build-Ran :
      (b : ExecutionPolicyBuilder T E) (p : Policy T E) (w : World T E)
      → IsWord b.retry
      → try_build b ≡ ok p
      → Awaits (Ran p.plan w) (Waits p.plan w) (run_pipeline p.plan w)
  unfolding try_build
  try_build-Ran b p w h e =
      run_pipeline-Ran p.plan w (subst (Validated b) e (try_build-Validated b)).0 (
        subst (λ p. p.plan.retry.max_attempts < 4294967296) (compile-try_build b p e)
          (compile-IsWord b h))
