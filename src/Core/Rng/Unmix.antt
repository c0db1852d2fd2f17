-- ===== src/Core/Rng/Unmix.antt =====
-- The mixing of SplitMix64 loses nothing.
use execution_policy.Base.{ℕ, ◌*◌, ◌<◌, ◌≡◌, arith, u64, ◌⊕◌, ◌>>>◌, xorshift_undone, xor-lt}
use execution_policy.Base.{shift-le}
use execution_policy.Core.Rng.{mix}

unshift : ℕ → ℕ → ℕ
unshift k x = x ⊕ ((x >>> k) ⊕ (x >>> k >>> k))

-- The inverses of the two multipliers modulo 2^64.
abbrev unscale : ℕ → ℕ
unscale z = u64 (z * 10871156337175269513)

abbrev unscale' : ℕ → ℕ
unscale' z = u64 (z * 3573116690164977347)

pub unmix : ℕ → ℕ
unmix y = unshift 30 (unscale (unshift 27 (unscale' (unshift 31 y))))

unscale_lem : (a : ℕ) → a < 18446744073709551616 → unscale (u64 (a * 0xBF58_476D_1CE4_E5B9)) ≡ a
unscale_lem a h = omega arith

unscale'_lem : (a : ℕ) → a < 18446744073709551616 → unscale' (u64 (a * 0x94D0_49BB_1331_11EB)) ≡ a
unscale'_lem a h = omega arith

unshift_lem : (k z : ℕ) → z >>> k >>> k >>> k ≡ 0 → unshift k (z ⊕ (z >>> k)) ≡ z
unfolding unshift
unshift_lem k z clear = xorshift_undone k z clear

xorshift-lt : (k z : ℕ) → z < 18446744073709551616 → z ⊕ (z >>> k) < 18446744073709551616
xorshift-lt k z h = xor-lt 64 h (omega (arith, shift-le k z))

-- The state can be read off the number that is mixed from it.
pub unmix-mix : (s : ℕ) → s < 18446744073709551616 → unmix (mix s) ≡ s
unfolding mix unmix
unmix-mix s h =
    let a = s ⊕ (s >>> 30) in
    let z = u64 (a * 0xBF58_476D_1CE4_E5B9) in
    let b = z ⊕ (z >>> 27) in
    let z' = u64 (b * 0x94D0_49BB_1331_11EB) in
    rw
      (
        unshift_lem 31 z' (omega arith),
        unscale'_lem b (xorshift-lt 27 z (omega arith)),
        unshift_lem 27 z (omega arith),
        unscale_lem a (xorshift-lt 30 s h),
      )
      (unshift_lem 30 s (omega arith))
