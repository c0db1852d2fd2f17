-- ===== src/Retry/Backoff.antt =====
-- Delay schedules (src/retry/backoff.rs).
use execution_policy.Base.{
  ℕ, ◌-◌, ◌^◌, Duration, Option, none, some, leb, if◌then◌else◌, min_of, checked_mul, u32_max,
}

pub data Backoff : Type 0 where
  fixed : Duration → Backoff
  exponential : (base max : Duration) → Backoff

-- `1u64.checked_shl(shift)` at a shift of at most 63 is a power of two, and never `None`.
abbrev pub shift_of : ℕ → ℕ
shift_of attempt = min_of (attempt - 1) 63

-- `u32::try_from(factor).unwrap_or(u32::MAX)`
abbrev pub factor_of : ℕ → ℕ
factor_of attempt =
    let factor = 2 ^ shift_of attempt in if leb factor u32_max then factor else u32_max

abbrev pub or_else {ℓ} : {A : Type ℓ} → Option A → A → A
or_else none d = d
or_else (some a) d = a

unfoldable pub raw_delay : Backoff → ℕ → Duration
raw_delay (fixed d) attempt = d
raw_delay (exponential base max) attempt =
    let scaled = or_else (checked_mul base (factor_of attempt)) max in min_of scaled max
