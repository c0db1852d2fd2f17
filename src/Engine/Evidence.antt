-- ===== src/Engine/Evidence.antt =====
-- What the result of a call of src/engine.rs is evidence of.
use execution_policy.Base.{◌+◌, ◌≤◌, ◌<◌, ◌≡◌, ◌⊎◌, Duration, Instant, Option, some, List}
use execution_policy.Base.Float.{Float64}
use execution_policy.Outcome.{
  Result, ok, err, ExecutionError, operation, attempt_timeout, total_timeout, circuit_open,
  concurrency_rejected, retry_budget_exhausted,
}
use execution_policy.Retry.{RetryBudget, retry_after_hint}
use execution_policy.Concurrency.{CompiledConcurrency}
use execution_policy.Engine.World.{World, Plan, Poll, CompiledBreaker}
use execution_policy.Router.Least.{In}

module _ ⦃f : Float64⦄ {T E : Type 0} (plan : Plan T E) (start : Instant)
    (deadline : Option Instant) (polls : List (Poll T E)) where
  -- One of the polls found the operation's future ready with this result.
  pub record Polled (r : Result T E) : Type 0 where
    pub poll : Poll T E
    pub came : In poll polls
    pub ready : poll.op ≡ some r

  abbrev pub AttemptLate : Instant → Type 0
  AttemptLate t = (d : Duration) × (plan.attempt_timeout ≡ some d) × (start + d ≤ t)

  abbrev pub ElapsedLate : Instant → Type 0
  ElapsedLate t = (d : Duration) × (plan.retry.max_elapsed ≡ some d) × (start + d ≤ t)

  -- The operation asked for a retry after the deadline.
  pub record Hinted (dl t : Instant) : Type 0 where
    pub source : E
    pub hint : Duration
    pub polled : Polled (err source)
    pub asked : retry_after_hint plan.retry source ≡ some hint
    pub beyond : dl < t + hint

  abbrev pub TotalLate : Instant → Type 0
  TotalLate t = (dl : Instant) × (deadline ≡ some dl) × ((dl ≤ t) ⊎ Hinted dl t)

  -- The evidence for a result at the time `t`.
  abbrev pub Evidence : Result T (ExecutionError E) → Instant → Type 0
  Evidence (ok v) t = Polled (ok v)
  Evidence (err (operation source _)) t = Polled (err source)
  Evidence (err (attempt_timeout _)) t = AttemptLate t ⊎ ElapsedLate t
  Evidence (err (total_timeout _)) t = TotalLate t
  Evidence (err (circuit_open _)) t = (b : CompiledBreaker E) × (plan.breaker ≡ some b)
  Evidence (err (concurrency_rejected _)) t =
      (limit : CompiledConcurrency) × (plan.concurrency ≡ some limit)
  Evidence (err (retry_budget_exhausted _)) t = (b : RetryBudget) × (plan.retry.budget ≡ some b)

  -- The polls to come are of those, and the call has started.
  pub record Sane (w : World T E) : Type 0 where
    pub rest : (p : Poll T E) → In p w.polls → In p polls
    pub begun : start ≤ w.clock

  -- An error that the loop keeps came from a poll.
  abbrev pub Known : Option E → Type 0
  Known last = (source : E) → last ≡ some source → Polled (err source)
