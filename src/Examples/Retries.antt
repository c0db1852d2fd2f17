-- ===== src/Examples/Retries.antt =====
-- Examples for src/retry.
use execution_policy.Base.{
  ℕ, ◌+◌, ◌*◌, ◌^◌, ◌-◌, ◌≤◌, ◌≡◌, refl, none, some, List, [], ◌∷◌, arith, min_of, max_of, millis,
  secs, u32_max,
}
use execution_policy.Examples.Support.{thousandths}
use execution_policy.Retry.Backoff.{exponential, raw_delay}
use execution_policy.Retry.Jitter.{full}
use execution_policy.Retry.Delays.{raw_delay-exact}
use execution_policy.Retry.Hints.{delay_hinted}
use execution_policy.Retry.{Retry, delay}
use execution_policy.Retry.Budget.{Bucket, new, try_withdraw, deposit}
use execution_policy.Retry.Budget.Fairness.{
  Use, call, retry, run, granted, calls, granted-le, Linearized, withdraw_loop-Linearized,
}

third_delay : raw_delay (exponential (millis 50) (millis 400)) 3 ≡ millis 200
unfolding raw_delay
third_delay = refl

late_delay : raw_delay (exponential (millis 50) (millis 400)) 40 ≡ millis 400
unfolding raw_delay
late_delay = refl

-- A nanosecond doubled 33 times should be 8.6 s, and stays at 4.3 s.
saturated_delay : raw_delay (exponential 1 (secs 10)) 34 ≡ 4294967295
unfolding raw_delay
saturated_delay = refl

raw_delay-exact_example :
    raw_delay (exponential 1 (secs 10)) 34 ≡ min_of (1 * min_of (2 ^ (34 - 1)) u32_max) (secs 10)
raw_delay-exact_example = raw_delay-exact 1 (secs 10) 34 (omega arith)

abbrev throttled : Retry ℕ ℕ
throttled = record {
  max_attempts = 4;
  max_elapsed = none;
  backoff = exponential (millis 100) (secs 2);
  jitter = full;
  classifier = execution_policy.Classify.Classifier.retry_all;
  budget = none;
  retry_after = some (λ e. some (secs 47));
}

delay_hinted_example :
    (secs 47 ≤ delay throttled 2 77 (some 429))
    × (delay throttled 2 77 (some 429) ≤ max_of (secs 2) (secs 47))
delay_hinted_example =
    delay_hinted throttled (millis 100) (secs 2) 2 77 (λ e. some (secs 47)) 429 (secs 47) refl
      (omega arith) (omega arith) refl refl

abbrev half_budget : Bucket
half_budget = record { tokens = 1000; max_tokens = 1000; deposit_size = 500; retry_cost = 1000 }

half_budget-new : new 500 1 ≡ half_budget
unfolding new
half_budget-new = refl

abbrev traffic : List Use
traffic = retry ∷ retry ∷ call ∷ call ∷ retry ∷ retry ∷ []

traffic-granted : granted half_budget traffic ≡ 2
unfolding granted try_withdraw deposit
traffic-granted = refl

granted-le_example :
    granted half_budget traffic * 1000 + (run half_budget traffic).tokens
    ≤ 1000 + calls traffic * 500
granted-le_example = granted-le half_budget traffic

withdraw_loop-Linearized_example : Linearized half_budget 1500 (2000 ∷ 1000 ∷ [])
withdraw_loop-Linearized_example = withdraw_loop-Linearized half_budget 1500 (2000 ∷ 1000 ∷ []) refl
