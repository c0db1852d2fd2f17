-- ===== src/Retry/Jitter.antt =====
-- Randomisation of a delay (src/retry/jitter.rs).
use execution_policy.Base.{ℕ, ◌+◌, ◌*◌, ◌/◌, Duration, ◌==◌, if◌then◌else◌, u64}

pub data Jitter : Type 0 where
  none full equal : Jitter

-- The closure `frac`: a fraction of `span` from the high 53 bits of `rng`.
unfoldable pub frac : ℕ → ℕ → ℕ
frac rng span = if span == 0 then 0 else u64 (rng / 2048 * span / 9007199254740992)

abbrev apply_nanos : Jitter → Duration → ℕ → ℕ → Duration
apply_nanos none base nanos rng = base
apply_nanos full base nanos rng = frac rng nanos
apply_nanos equal base nanos rng = let half = nanos / 2 in half + frac rng half

-- `base.as_nanos() as u64` keeps the low 64 bits.
unfoldable pub apply : Jitter → Duration → ℕ → Duration
apply j base rng = if base == 0 then base else apply_nanos j base (u64 base) rng
