-- ===== src/Policy/Runs.antt =====
-- The ways to run an operation under a policy (src/policy.rs). They differ in what the operation is
-- given: nothing, the attempt, the state that the caller injects, or both. What its future then gives
-- stands in the polls of the world.
use execution_policy.Base.Float.{Float64}
use execution_policy.Outcome.{Result, ExecutionError}
use execution_policy.Engine.World.{M}
use execution_policy.Engine.Pipeline.{run_pipeline, run_pipeline_boxed}
use execution_policy.Builder.{Policy}

module _ ⦃f : Float64⦄ {T E : Type 0} where
  abbrev pub run : Policy T E → M T E (Result T (ExecutionError E))
  run p = run_pipeline p.plan

  abbrev pub execute : Policy T E → M T E (Result T (ExecutionError E))
  execute p = run_pipeline p.plan

  abbrev pub run_boxed : Policy T E → M T E (Result T (ExecutionError E))
  run_boxed p = run_pipeline_boxed p.plan

  abbrev pub run_with : {S : Type 0} → Policy T E → S → M T E (Result T (ExecutionError E))
  run_with p state = run_pipeline p.plan

  abbrev pub execute_with : {S : Type 0} → Policy T E → S → M T E (Result T (ExecutionError E))
  execute_with p state = run_pipeline p.plan
