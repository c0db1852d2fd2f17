-- ===== src/Retry/Config.antt =====
-- The fluent setters of a retry policy, and its getters (src/retry/mod.rs).
use execution_policy.Base.{ℕ, Duration, Option, some}
use execution_policy.Classify.{Classifier, ErrorPredicate, OutcomeClassifier, RetryAfterExtractor}
use execution_policy.Retry.{Retry, RetryBudget}
use execution_policy.Retry.Jitter

module _ {T E : Type 0} where
  abbrev pub max_attempts : Retry T E → ℕ → Retry T E
  max_attempts r n = record r { max_attempts = n }

  abbrev pub max_elapsed : Retry T E → Duration → Retry T E
  max_elapsed r d = record r { max_elapsed = some d }

  abbrev pub jitter : Retry T E → Jitter.Jitter → Retry T E
  jitter r j = record r { jitter = j }

  abbrev pub budget : Retry T E → RetryBudget → Retry T E
  budget r b = record r { budget = some b }

  -- The two setters of the classifier replace each other's.
  abbrev pub when : Retry T E → ErrorPredicate E → Retry T E
  when r pred = record r { classifier = Classifier.when_err pred }

  abbrev pub when_outcome : Retry T E → OutcomeClassifier T E → Retry T E
  when_outcome r g = record r { classifier = Classifier.when_outcome g }

  abbrev pub retry_after : Retry T E → RetryAfterExtractor E → Retry T E
  retry_after r g = record r { retry_after = some g }

  abbrev pub max_attempts_value : Retry T E → ℕ
  max_attempts_value r = r.max_attempts

  abbrev pub max_elapsed_value : Retry T E → Option Duration
  max_elapsed_value r = r.max_elapsed
