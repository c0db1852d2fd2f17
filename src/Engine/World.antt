-- ===== src/Engine/World.antt =====
-- What a call of the engine runs on: the plan (src/plan.rs), the state that it shares with other calls,
-- and the polls of its future.
use execution_policy.Base.{ℕ, suc, ◌+◌, ◌-◌, Duration, Instant, Bool, Option, List}
use execution_policy.Base.Float.{Float64}
use execution_policy.Attempt.{Attempt}
use execution_policy.Outcome.{Result, ExecutionError, ErrorContext, BreakerState}
use execution_policy.Event.{Event, emit}
use execution_policy.Classify.{ErrorPredicate}
use execution_policy.Retry.{Retry}
use execution_policy.Retry.Budget.{Bucket}
use execution_policy.Breaker.{BreakerRuntime}
use execution_policy.Concurrency.{CompiledConcurrency, Semaphore}

-- The live parts that the plan holds behind an `Arc` stand in `Shared`.
pub record CompiledBreaker (E : Type 0) : Type 0 where
  pub record_when : Option (ErrorPredicate E)

pub record Plan (T E : Type 0) : Type 0 where
  pub retry : Retry T E
  pub attempt_timeout : Option Duration
  pub total_timeout : Option Duration
  pub breaker : Option (CompiledBreaker E)
  pub concurrency : Option CompiledConcurrency
  pub on_event : Bool

module _ ⦃f : Float64⦄ where
  pub record Shared : Type 0 where
    pub breaker : BreakerRuntime
    pub sem : Semaphore
    pub bucket : Bucket

  -- One poll of the future that the call awaits: the time since the poll before it, what other tasks
  -- did to the shared state meanwhile, and what the operation's future gives if it is polled now.
  pub record Poll (T E : Type 0) : Type 0 where
    pub passed : Duration
    pub others : Shared → Shared
    pub op : Option (Result T E)

  pub record World (T E : Type 0) : Type 0 where
    pub clock : Instant
    pub shared : Shared
    pub task : ℕ  -- the waker of this call
    pub random : ℕ → ℕ  -- the numbers that `next_u64` gives
    pub drawn : ℕ  -- how many of them were drawn
    pub polls : List (Poll T E)  -- the polls to come
    pub log : List Event  -- what the hook was given, newest first
    pub calls : List Attempt  -- the attempts handed to the operation, newest first

  -- A stretch of the engine goes on with a value, returns from its function, waits for a poll that is
  -- not in the list, or has used up its fuel.
  pub data Flow (T E A : Type 0) : Type 0 where
    next : A → World T E → Flow T E A
    finish : Result T (ExecutionError E) → World T E → Flow T E A
    pending : World T E → Flow T E A
    stuck : World T E → Flow T E A

  abbrev pub M : Type 0 → Type 0 → Type 0 → Type 0
  M T E A = World T E → Flow T E A

module _ ⦃f : Float64⦄ {T E : Type 0} where
  infixl 5 ◌>>=◌ ◌>>◌
  abbrev pub ◌>>=◌ : {A B : Type 0} → M T E A → (A → M T E B) → M T E B
  ◌>>=◌ m k w = elim (m w) [
    | next a w' ↦ k a w'
    | finish r w' ↦ finish r w'
    | pending w' ↦ pending w'
    | stuck w' ↦ stuck w'
  ]

  abbrev pub ◌>>◌ : {B : Type 0} → M T E (Unit {0}) → M T E B → M T E B
  m >> k = m >>= λ _. k

  abbrev pub pure : {A : Type 0} → A → M T E A
  pure a w = next a w

  abbrev pub return : {A : Type 0} → Result T (ExecutionError E) → M T E A
  return r w = finish r w

  -- The result of an inner function, for the function that calls it.
  abbrev pub catch : M T E (Result T (ExecutionError E)) → M T E (Result T (ExecutionError E))
  catch m w = elim (m w) [
    | next r w' ↦ next r w'
    | finish r w' ↦ next r w'
    | pending w' ↦ pending w'
    | stuck w' ↦ stuck w'
  ]

  abbrev pub now : M T E Instant
  now w = next w.clock w

  abbrev pub next_u64 : M T E ℕ
  next_u64 w = next (w.random w.drawn) (record w { drawn = suc w.drawn })

  abbrev pub tell : Plan T E → Event → M T E (Unit {0})
  tell plan e w = next tt (record w { log = emit plan.on_event e w.log })

  abbrev pub set_breaker : World T E → BreakerRuntime → World T E
  set_breaker w b = record w { shared = record (w.shared) { breaker = b } }

  abbrev pub set_sem : World T E → Semaphore → World T E
  set_sem w s = record w { shared = record (w.shared) { sem = s } }

  abbrev pub set_bucket : World T E → Bucket → World T E
  set_bucket w b = record w { shared = record (w.shared) { bucket = b } }

  -- The world at a poll, with the polls after it.
  abbrev pub arrive : World T E → Poll T E → List (Poll T E) → World T E
  arrive w p ps = record w { clock = w.clock + p.passed; shared = p.others w.shared; polls = ps }

-- `context`
abbrev pub context : ℕ → Instant → Instant → Option Duration → BreakerState → ErrorContext
context attempts start now last_delay breaker_state = record {
  attempts = attempts;
  elapsed = now - start;
  last_delay = last_delay;
  breaker_state = breaker_state;
}
