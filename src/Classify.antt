-- ===== src/Classify.antt =====
-- Failure classification (src/classify.rs).
use execution_policy.Base.{Duration, Bool, true, false, Option, if◌then◌else◌}
use execution_policy.Outcome.{Result, ok, err}

pub data FailureClass : Type 0 where
  success retryable permanent ignored : FailureClass

pub data RetryDecision : Type 0 where
  retry stop : RetryDecision

pub should_advance : FailureClass → Bool
should_advance retryable = true
should_advance _ = false

abbrev pub ErrorPredicate : Type 0 → Type 0
ErrorPredicate E = E → Bool

abbrev pub OutcomeClassifier : Type 0 → Type 0 → Type 0
OutcomeClassifier T E = Result T E → RetryDecision

abbrev pub RetryAfterExtractor : Type 0 → Type 0
RetryAfterExtractor E = E → Option Duration

pub data Classifier (T E : Type 0) : Type 0 where
  retry_all : Classifier T E
  when_err : ErrorPredicate E → Classifier T E
  when_outcome : OutcomeClassifier T E → Classifier T E

module _ {T E : Type 0} where
  pub classify : Result T E → (E → Bool) → (E → Bool) → FailureClass
  classify (ok _) is_permanent is_transient = success
  classify (err e) is_permanent is_transient =
      if is_permanent e then permanent else if is_transient e then retryable else permanent

  unfoldable pub decide : Classifier T E → Result T E → RetryDecision
  decide retry_all (ok _) = stop
  decide retry_all (err _) = retry
  decide (when_err pred) (ok _) = stop
  decide (when_err pred) (err e) = if pred e then retry else stop
  decide (when_outcome f) outcome = f outcome
