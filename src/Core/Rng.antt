-- ===== src/Core/Rng.antt =====
-- src/core/rng.rs: the SplitMix64 generator.
pub mod Unmix
use execution_policy.Base.{ℕ, zero, suc, ◌+◌, ◌*◌, u64, ◌⊕◌, ◌>>>◌, List, [], ◌∷◌}

-- The number that the generator adds to its state.
abbrev pub golden : ℕ
golden = 0x9E37_79B9_7F4A_7C15

pub record SplitMix64 : Type 0 where
  pub state : ℕ

abbrev pub new : ℕ → SplitMix64
new seed = record { state = seed }

unfoldable pub mix : ℕ → ℕ
mix s =
    let z = u64 ((s ⊕ (s >>> 30)) * 0xBF58_476D_1CE4_E5B9) in
    let z' = u64 ((z ⊕ (z >>> 27)) * 0x94D0_49BB_1331_11EB) in z' ⊕ (z' >>> 31)

abbrev pub next_u64 : SplitMix64 → ℕ × SplitMix64
next_u64 g = let s = u64 (g.state + golden) in (mix s, record { state = s })

-- The first `n` numbers of a generator, oldest first.
abbrev pub stream : ℕ → SplitMix64 → List ℕ
stream zero g = []
stream (suc n) g = let (x, g') = next_u64 g in x ∷ stream n g'
