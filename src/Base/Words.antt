-- ===== src/Base/Words.antt =====
-- Machine words, and the arithmetic of `std::time::Duration`.
use Prim.Native.Nat.{ℕ, ◌-◌, ◌*◌, ◌%◌, ◌^◌, ◌≤◌, ◌<◌}
use mathlib.Core.Option.{Option, none, some}
use native.Mathlib.Nat.{pow-le-pow_right}
use native.Mathlib.Omega.{arith}
use execution_policy.Base.Tests.{leb, ltb, if◌then◌else◌}

-- A sum that wraps in a build without overflow checks.
abbrev pub u32 : ℕ → ℕ
u32 n = n % 4294967296

abbrev pub u64 : ℕ → ℕ
u64 n = n % 18446744073709551616

abbrev pub u32_max : ℕ
u32_max = 4294967295

abbrev pub u64_max : ℕ
u64_max = 18446744073709551615

-- A `Duration` and an `Instant` are numbers of nanoseconds.
abbrev pub Duration : Type 0
Duration = ℕ

abbrev pub Instant : Type 0
Instant = ℕ

-- `Duration::MAX`: 2^64 - 1 seconds and 999,999,999 nanoseconds.
abbrev pub duration_max : Duration
duration_max = 18446744073709551615999999999

abbrev pub millis : ℕ → Duration
millis n = n * 1000000

abbrev pub secs : ℕ → Duration
secs n = n * 1000000000

-- `Duration::checked_mul`.
abbrev pub checked_mul : Duration → ℕ → Option Duration
checked_mul d k = if leb (d * k) duration_max then some (d * k) else none

-- `Instant::checked_sub`: the instants are counted from the earliest one that the platform has.
abbrev pub checked_sub : Instant → Duration → Option Instant
checked_sub t d = if leb d t then some (t - d) else none

-- `Ord::min` and `Ord::max`.
abbrev pub min_of : ℕ → ℕ → ℕ
min_of a b = if ltb b a then b else a

abbrev pub max_of : ℕ → ℕ → ℕ
max_of a b = if ltb b a then a else b

pub two_pow_mono : {i j : ℕ} → i ≤ j → 2 ^ i ≤ 2 ^ j
two_pow_mono h = pow-le-pow_right (omega arith) h

pub two_pow_pos : (k : ℕ) → 0 < 2 ^ k
two_pow_pos k = two_pow_mono {i = 0} {j = k} (omega arith)
