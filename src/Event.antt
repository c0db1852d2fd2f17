-- ===== src/Event.antt =====
-- The lifecycle events (src/event.rs). A registered hook is a log of the events that it was given.
use execution_policy.Base.{ℕ, Duration, Bool, true, false, List, ◌∷◌}
use execution_policy.Outcome.{BreakerState}

pub data Event : Type 0 where
  attempt_failed : ℕ → Event
  attempt_timed_out : ℕ → Event
  retry_scheduled : ℕ → Duration → Event
  succeeded : ℕ → Event
  gave_up : ℕ → Event
  circuit_state_changed : BreakerState → Event
  concurrency_rejected : Event
  retry_budget_exhausted : ℕ → Event

-- `emit`: the first argument tells whether a hook is registered. The newest event stands first.
abbrev pub emit : Bool → Event → List Event → List Event
emit true e log = e ∷ log
emit false e log = log
