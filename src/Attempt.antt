-- ===== src/Attempt.antt =====
-- The metadata of an attempt (src/attempt.rs).
use execution_policy.Base.{ℕ, ◌-◌, Duration, Instant}

pub record Attempt : Type 0 where
  pub number : ℕ
  pub start : Instant
  pub now : Instant

abbrev pub new : ℕ → Instant → Instant → Attempt
new number start now = record { number = number; start = start; now = now }

-- `duration_since` stops at 0.
abbrev pub elapsed : Attempt → Duration
elapsed a = a.now - a.start
