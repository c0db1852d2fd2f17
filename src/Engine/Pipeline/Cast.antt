-- ===== src/Engine/Pipeline/Cast.antt =====
-- What a call's result says to the breaker (the vote in `run_pipeline` of src/engine.rs), written out.
use execution_policy.Base.{
  ◌≡◌, refl, sym, ap, ◌∙◌, ◌⊎◌, inl, inr, Instant, Option, none, some, true, false, Bool-cases,
  arith,
}
use execution_policy.Base.Float.{Float64}
use execution_policy.Outcome.{
  Result, ok, err, ExecutionError, operation, attempt_timeout, total_timeout, circuit_open,
  concurrency_rejected, retry_budget_exhausted, ErrorContext,
}
use execution_policy.Classify.{ErrorPredicate}
use execution_policy.Breaker.{BreakerRuntime, record_success, record_failure}
use execution_policy.Engine.World.{CompiledBreaker}
use execution_policy.Engine.Pipeline.{cast_vote, vote}

false-true : {A : Type 0} → false ≡ true → A
false-true h = ground arith

none-some : {A B : Type 0} {x : A} → none ≡ some x → B
none-some h = ground arith

some_inj : {A : Type 0} {x y : A} → some x ≡ some y → x ≡ y
some_inj h = ground arith

module _ {E : Type 0} where
  -- The breaker's predicate does not count the error as a failure.
  abbrev pub Excused : CompiledBreaker E → E → Type 0
  Excused cb source =
      (counts : ErrorPredicate E) × (cb.record_when ≡ some counts) × (counts source ≡ false)

module _ ⦃f : Float64⦄ {T E : Type 0} where
  -- The vote of a result: a success for a value and for an excused error, a failure for a timeout and for
  -- any other error of the operation, and none for an error that says nothing of the operation.
  abbrev pub Cast :
      CompiledBreaker E
      → Result T (ExecutionError E)
      → BreakerRuntime
      → Instant
      → BreakerRuntime
      → Type 0
  Cast cb (ok _) b t b' = b' ≡ (record_success b t).1
  Cast cb (err (operation source _)) b t b' =
      (Excused cb source × (b' ≡ (record_success b t).1))
      ⊎ ((¬ Excused cb source) × (b' ≡ (record_failure b t).1))
  Cast cb (err (attempt_timeout _)) b t b' = b' ≡ (record_failure b t).1
  Cast cb (err (total_timeout _)) b t b' = b' ≡ (record_failure b t).1
  Cast cb (err (circuit_open _)) b t b' = b' ≡ b
  Cast cb (err (concurrency_rejected _)) b t b' = b' ≡ b
  Cast cb (err (retry_budget_exhausted _)) b t b' = b' ≡ b

module _ ⦃f : Float64⦄ (T : Type 0) {E : Type 0} where
  operation-Cast :
      (cb : CompiledBreaker E) (source : E) (c : ErrorContext) (b : BreakerRuntime) (t : Instant)
      → Cast {T = T} cb
          (err (operation source c))
          b
          t
          (cast_vote (vote {T = T} cb (err (operation source c))) b t).1
  unfolding vote
  operation-Cast cb source c b t = by_predicate cb.record_when refl
    where
      excused_not :
          (p : ErrorPredicate E) → cb.record_when ≡ some p → p source ≡ true → ¬ Excused cb source
      excused_not p e counted (q, e', excused) =
          false-true (
            sym excused ∙ ap (λ (g : ErrorPredicate E). g source) (some_inj (sym e' ∙ e)) ∙ counted)

      by_predicate :
          (o : Option (ErrorPredicate E))
          → cb.record_when ≡ o
          → Cast {T = T} cb
              (err (operation source c))
              b
              t
              (cast_vote (vote {T = T} cb (err (operation source c))) b t).1
      by_predicate none e = inr ((λ x. none-some (sym e ∙ x.1)), rw e refl)
      by_predicate (some p) e = elim (Bool-cases (p source)) [
        | inl counted ↦ inr (excused_not p e counted, rw (e, counted) refl)
        | inr excused ↦ inl ((p, e, excused), rw (e, excused) refl)
      ]

module _ ⦃f : Float64⦄ {T E : Type 0} where
  pub cast_vote-Cast :
      (cb : CompiledBreaker E) (r : Result T (ExecutionError E)) (b : BreakerRuntime) (t : Instant)
      → Cast cb r b t (cast_vote (vote cb r) b t).1
  unfolding vote
  cast_vote-Cast cb (ok v) b t = refl
  cast_vote-Cast cb (err (operation source c)) b t = operation-Cast T cb source c b t
  cast_vote-Cast cb (err (attempt_timeout c)) b t = refl
  cast_vote-Cast cb (err (total_timeout c)) b t = refl
  cast_vote-Cast cb (err (circuit_open c)) b t = refl
  cast_vote-Cast cb (err (concurrency_rejected c)) b t = refl
  cast_vote-Cast cb (err (retry_budget_exhausted c)) b t = refl
