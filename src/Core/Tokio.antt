-- ===== src/Core/Tokio.antt =====
-- src/core/tokio.rs: the random numbers of the production core. Its clock and its sleeps are the
-- runtime's.
use execution_policy.Base.{ℕ, ◌+◌, u64, max_of, ◌⊕◌, List, [], ◌∷◌}
use execution_policy.Core.Rng

pub record TokioCore : Type 0 where
  pub rng_state : ℕ

-- `elapsed` is the time from the clock's reading to the next one, in nanoseconds.
abbrev pub new : ℕ → TokioCore
new elapsed = record { rng_state = max_of (u64 elapsed ⊕ 0x2545_F491_4F6C_DD1D) 1 }

-- `fetch_add` is one atomic step: it gives the state before it.
abbrev pub next_u64 : TokioCore → ℕ × TokioCore
next_u64 core =
    let s = core.rng_state in
    ((Rng.next_u64 (Rng.new s)).0, record { rng_state = u64 (s + Rng.golden) })

-- The calls of tasks that share a core, in the order of their `fetch_add`s: who drew which number.
abbrev pub drawn : List ℕ → TokioCore → List (ℕ × ℕ)
drawn [] core = []
drawn (task ∷ tasks) core = let (x, core') = next_u64 core in (task, x) ∷ drawn tasks core'
