-- ===== src/Outcome.antt =====
-- `Result`, and the failures that the engine reports (src/error.rs).
use execution_policy.Base.{ℕ, Duration, Bool, true, false, Option, none, some}

-- Rust's `Result<T, E>`.
pub data Result {ℓ κ} (T : Type ℓ) (E : Type κ) : Type (ℓ ⊔ κ) where
  ok : T → Result T E
  err : E → Result T E

abbrev pub is_ok {ℓ κ} : {T : Type ℓ} {E : Type κ} → Result T E → Bool
is_ok (ok _) = true
is_ok (err _) = false

pub data BreakerState : Type 0 where
  disabled closed opened half_open : BreakerState

pub record ErrorContext : Type 0 where
  pub attempts : ℕ
  pub elapsed : Duration
  pub last_delay : Option Duration
  pub breaker_state : BreakerState

pub data ExecutionError (E : Type 0) : Type 0 where
  operation : E → ErrorContext → ExecutionError E
  attempt_timeout : ErrorContext → ExecutionError E
  total_timeout : ErrorContext → ExecutionError E
  circuit_open : ErrorContext → ExecutionError E
  concurrency_rejected : ErrorContext → ExecutionError E
  retry_budget_exhausted : ErrorContext → ExecutionError E

module _ {E : Type 0} where
  abbrev pub context_of : ExecutionError E → ErrorContext
  context_of (operation _ c) = c
  context_of (attempt_timeout c) = c
  context_of (total_timeout c) = c
  context_of (circuit_open c) = c
  context_of (concurrency_rejected c) = c
  context_of (retry_budget_exhausted c) = c

  abbrev pub into_inner : ExecutionError E → Option E
  into_inner (operation source _) = some source
  into_inner _ = none

  abbrev pub is_timeout : ExecutionError E → Bool
  is_timeout (attempt_timeout _) = true
  is_timeout (total_timeout _) = true
  is_timeout _ = false

  abbrev pub is_circuit_open : ExecutionError E → Bool
  is_circuit_open (circuit_open _) = true
  is_circuit_open _ = false

  abbrev pub is_rejected : ExecutionError E → Bool
  is_rejected (concurrency_rejected _) = true
  is_rejected _ = false

  abbrev pub is_exhausted : ExecutionError E → Bool
  is_exhausted (operation _ _) = true
  is_exhausted (retry_budget_exhausted _) = true
  is_exhausted _ = false
