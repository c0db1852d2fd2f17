-- ===== src/Retry/Delays.antt =====
-- How long a retry waits: src/retry/backoff.rs, src/retry/jitter.rs and `Retry::delay`.
use execution_policy.Base.{
  ℕ, ◌-◌, ◌*◌, ◌/◌, ◌%◌, ◌^◌, ◌≤◌, ◌<◌, ◌≡◌, refl, ◌⊎◌, inl, inr, Bool-cases, Duration, arith,
  two_pow_mono, duration_max, min_of, u32_max, leb, if◌then◌else◌, none, some,
}
use native.Mathlib.Nat.{mul-le-mul_left, mul-le-mul_right}
use execution_policy.Retry.Backoff.{exponential, raw_delay, factor_of, shift_of, or_else}
use execution_policy.Retry.Jitter.{apply, full, equal, frac}

-- The delay never exceeds the cap of the schedule.
pub raw_delay-le-max :
    (base max : Duration) (attempt : ℕ) → raw_delay (exponential base max) attempt ≤ max
unfolding raw_delay
raw_delay-le-max base max attempt = ground arith

factor_of_mono : (a b : ℕ) → a ≤ b → factor_of a ≤ factor_of b
factor_of_mono a b h = ground (arith, two_pow_mono {i = shift_of a} {j = shift_of b})

abbrev clamped : ℕ → Duration → Duration
clamped scaled max =
    min_of (or_else (if leb scaled duration_max then some scaled else none) max) max

clamped_mono : (p q max : ℕ) → p ≤ q → clamped p max ≤ clamped q max
clamped_mono p q max h = ground arith

clamped-min_of : (p max : ℕ) → max ≤ duration_max → clamped p max ≡ min_of p max
clamped-min_of p max h = ground arith

-- A later attempt never waits less, before jitter.
pub raw_delay_mono :
    (base max : Duration) (a b : ℕ)
    → a ≤ b
    → raw_delay (exponential base max) a ≤ raw_delay (exponential base max) b
unfolding raw_delay
raw_delay_mono base max a b h = clamped_mono _ _ max (mul-le-mul_left base (factor_of_mono a b h))

factor_of-min_of : (attempt : ℕ) → factor_of attempt ≡ min_of (2 ^ (attempt - 1)) u32_max
factor_of-min_of attempt = elim (Bool-cases (leb attempt 32)) [
  | inl low ↦ ground (arith, two_pow_mono {i = attempt - 1} {j = 31})
  | inr high ↦
      ground (
        arith,
        two_pow_mono {i = 32} {j = shift_of attempt},
        two_pow_mono {i = 32} {j = attempt - 1},
      )
]

-- The delay is `base * 2^(attempt - 1)`, clamped to `max`, but the factor never exceeds `u32::MAX`,
-- which it reaches at the 33rd attempt.
pub raw_delay-exact :
    (base max : Duration) (attempt : ℕ)
    → max ≤ duration_max
    → raw_delay (exponential base max) attempt
      ≡ min_of (base * min_of (2 ^ (attempt - 1)) u32_max) max
unfolding raw_delay
raw_delay-exact base max attempt fits =
    rw (← factor_of-min_of attempt) (clamped-min_of (base * factor_of attempt) max fits)

-- The high 53 bits of a random number, as a fraction of the span, stay below the span.
frac-lt : (rng span : ℕ) → rng < 2 ^ 64 → 0 < span → span < 2 ^ 64 → frac rng span < span
unfolding frac
frac-lt rng span h pos fits = ground (arith, product, bound)
  where
    product : rng / 2048 * span ≤ 9007199254740991 * span
    product = mul-le-mul_right span (omega arith)

    bound : rng / 2048 * span / 9007199254740992 < span
    bound = omega (arith, product)

frac_zero : (rng : ℕ) → frac rng 0 ≡ 0
unfolding frac
frac_zero rng = refl

-- Full jitter shortens a delay, and a delay of zero stays zero.
pub apply-full_lt :
    (base : Duration) (rng : ℕ) → rng < 2 ^ 64 → (base ≡ 0) ⊎ (apply full base rng < base)
unfolding apply
apply-full_lt base rng h = ground (arith, frac-lt rng (base % 2 ^ 64), frac_zero rng)

-- Equal jitter keeps at least half of a delay that fits 64 bits of nanoseconds, and adds nothing to it.
pub apply-equal_bounds :
    (base : Duration) (rng : ℕ)
    → rng < 2 ^ 64
    → base < 2 ^ 64
    → (base / 2 ≤ apply equal base rng) × (apply equal base rng ≤ base)
unfolding apply
apply-equal_bounds base rng h fits = ground (arith, frac-lt rng (base / 2), frac_zero rng)
