-- ===== src/Policy.antt =====
-- The pollable health of a policy (src/policy.rs). Its `run` methods hand an operation to
-- `run_pipeline`.
pub mod Runs
use execution_policy.Base.{Instant, Option, none, some}
use execution_policy.Base.Float.{Float64}
use execution_policy.Outcome.{BreakerState}
use execution_policy.Breaker.{BreakerRuntime}
use execution_policy.Breaker

module _ ⦃f : Float64⦄ where
  unfoldable pub circuit_state : Option BreakerRuntime → Instant → Option BreakerState
  circuit_state none now = none
  circuit_state (some b) now = some (Breaker.state_at b now)

  unfoldable pub cooling_until : Option BreakerRuntime → Instant → Option Instant
  cooling_until none now = none
  cooling_until (some b) now = Breaker.cooling_until b now
