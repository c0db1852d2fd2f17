-- ===== src/Retry.antt =====
-- Retry policies (src/retry/mod.rs). A policy holds its budget behind an `Arc`: the handle says that
-- there is one, and the bucket itself stands in the state that the engine shares.
pub mod Backoff
pub mod Jitter
pub mod Budget
pub mod Delays
pub mod Hints
pub mod Config
use execution_policy.Base.{ℕ, Duration, Option, none, some, ltb, if◌then◌else◌, millis, secs}
use execution_policy.Outcome.{Result}
use execution_policy.Classify.{Classifier, RetryDecision, RetryAfterExtractor}
use execution_policy.Classify
use Backoff.{fixed, exponential, raw_delay}
use Jitter.{apply}

-- The handle of the shared budget.
pub data RetryBudget : Type 0 where
  shared : RetryBudget

pub record Retry (T E : Type 0) : Type 0 where
  pub max_attempts : ℕ
  pub max_elapsed : Option Duration
  pub backoff : Backoff.Backoff
  pub jitter : Jitter.Jitter
  pub classifier : Classifier T E
  pub budget : Option RetryBudget
  pub retry_after : Option (RetryAfterExtractor E)

abbrev base : (T E : Type 0) → ℕ → Backoff.Backoff → Retry T E
base T E max_attempts backoff = record {
  max_attempts = max_attempts;
  max_elapsed = none;
  backoff = backoff;
  jitter = Jitter.none;
  classifier = Classifier.retry_all;
  budget = none;
  retry_after = none;
}

unfoldable pub no_retries : (T E : Type 0) → Retry T E
no_retries T E = base T E 1 (fixed 0)

unfoldable pub fixed_delay : (T E : Type 0) → Duration → Retry T E
fixed_delay T E delay = base T E 3 (fixed delay)

unfoldable pub exponential_delay : (T E : Type 0) → Retry T E
exponential_delay T E = base T E 3 (exponential (millis 100) (secs 10))

unfoldable pub standard : (T E : Type 0) → Retry T E
standard T E = record (base T E 4 (exponential (millis 100) (secs 2))) { jitter = Jitter.full }

abbrev with_base : Backoff.Backoff → Duration → Backoff.Backoff
with_base (exponential _ max) d = exponential d max
with_base (fixed _) d = fixed d

abbrev with_max : Backoff.Backoff → Duration → Backoff.Backoff
with_max (exponential base _) d = exponential base d
with_max (fixed delay) d = fixed delay

abbrev ask : {E : Type 0} → Option (RetryAfterExtractor E) → Option E → Option Duration
ask (some f) (some e) = f e
ask _ _ = none

-- The hint is a floor under the delay after jitter.
abbrev floored : Option Duration → Duration → Duration
floored (some h) jittered = if ltb jittered h then h else jittered
floored none jittered = jittered

module _ {T E : Type 0} where
  unfoldable pub base_delay : Retry T E → Duration → Retry T E
  base_delay r d = record r { backoff = with_base r.backoff d }

  unfoldable pub max_delay : Retry T E → Duration → Retry T E
  max_delay r d = record r { backoff = with_max r.backoff d }

  unfoldable pub decide : Retry T E → Result T E → RetryDecision
  decide r outcome = Classify.decide r.classifier outcome

  -- `delay`: `rng` is the number that `core.next_u64()` gives.
  unfoldable pub delay : Retry T E → ℕ → ℕ → Option E → Duration
  delay r attempt rng last_err =
      let jittered = apply r.jitter (raw_delay r.backoff attempt) rng in
      floored (ask r.retry_after last_err) jittered

  unfoldable pub retry_after_hint : Retry T E → E → Option Duration
  retry_after_hint r e = ask r.retry_after (some e)
