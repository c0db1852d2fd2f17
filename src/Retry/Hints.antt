-- ===== src/Retry/Hints.antt =====
-- `Retry::delay` with its hint (src/retry/mod.rs).
use execution_policy.Base.{ℕ, ◌^◌, ◌≤◌, ◌<◌, ◌≡◌, Duration, Option, none, some, arith, max_of}
use execution_policy.Retry.Backoff.{exponential, raw_delay}
use execution_policy.Retry.Jitter.{Jitter, apply}
use execution_policy.Retry.Delays.{raw_delay-le-max, apply-full_lt, apply-equal_bounds}
use execution_policy.Retry.{Retry, delay}

apply-le : (j : Jitter) (base rng : ℕ) → rng < 2 ^ 64 → base < 2 ^ 64 → apply j base rng ≤ base
apply-le Jitter.none base rng h fits = unfold apply in ground arith
apply-le Jitter.full base rng h fits = ground (arith, apply-full_lt base rng h, zero_stays rng)
  where
    zero_stays : (n : ℕ) → apply Jitter.full 0 n ≡ 0
    zero_stays n = unfold apply in ground arith
apply-le Jitter.equal base rng h fits = (apply-equal_bounds base rng h fits).1

-- The jittered delay of an exponential schedule stays below its cap.
jittered-le :
    (j : Jitter) (base max attempt rng : ℕ)
    → rng < 2 ^ 64
    → max < 2 ^ 64
    → apply j (raw_delay (exponential base max) attempt) rng ≤ max
jittered-le j base max attempt rng fits small =
    let low = raw_delay-le-max base max attempt in
    omega (
      arith,
      low,
      apply-le j (raw_delay (exponential base max) attempt) rng fits (omega (arith, low)),
    )

module _ {T E : Type 0} (r : Retry T E) (base max attempt rng : ℕ) where
  -- With an exponential schedule the delay never exceeds its cap, or the hint if that is longer.
  pub delay_hinted :
      (f : E → Option Duration) (e : E) (hint : Duration)
      → r.backoff ≡ exponential base max
      → rng < 2 ^ 64
      → max < 2 ^ 64
      → r.retry_after ≡ some f
      → f e ≡ some hint
      → (hint ≤ delay r attempt rng (some e)) × (delay r attempt rng (some e) ≤ max_of max hint)
  unfolding delay
  delay_hinted f e hint b fits small p q =
      ground (arith, jittered-le r.jitter base max attempt rng fits small)

  pub delay_unhinted :
      r.backoff ≡ exponential base max
      → rng < 2 ^ 64
      → max < 2 ^ 64
      → delay r attempt rng none ≤ max
  unfolding delay
  delay_unhinted b fits small = ground (arith, jittered-le r.jitter base max attempt rng fits small)
