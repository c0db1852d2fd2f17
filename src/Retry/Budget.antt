-- ===== src/Retry/Budget.antt =====
-- The shared token bucket (src/retry/budget.rs). Tokens are an `AtomicI64` that never falls below 0:
-- `try_withdraw` tests before it subtracts, and `deposit` adds.
pub mod Fairness
pub mod Steps
use execution_policy.Base.{
  ℕ, ◌+◌, ◌-◌, ◌*◌, Bool, true, false, List, [], ◌∷◌, ltb, if◌then◌else◌, min_of, max_of,
}
use execution_policy.Base.Float.{Float64, F64}

abbrev pub scale : ℕ
scale = 1000

-- `Inner`
pub record Bucket : Type 0 where
  pub tokens : ℕ
  pub max_tokens : ℕ
  pub deposit_size : ℕ
  pub retry_cost : ℕ

-- `RetryBudget::new`
unfoldable pub new : ⦃f : Float64⦄ → F64 → ℕ → Bucket
new ⦃f⦄ ratio burst =
    let clamped = f.clamp ratio (f.of_u64 0) (f.of_u64 1) in
    let max_tokens = max_of burst 1 * scale in
    record {
      tokens = max_tokens;
      max_tokens = max_tokens;
      deposit_size = f.to_i64 (f.mul clamped (f.of_u64 scale));
      retry_cost = scale;
    }

-- The compare-exchange loops. The list holds what the exchanges that failed observed: the write of
-- another client, or the same value again, since the exchange is the weak one. The bucket is the one
-- that the last round finds; `cur` is the loop's local variable.
unfoldable pub deposit_loop : Bucket → ℕ → List ℕ → Bucket
deposit_loop b cur [] = record b { tokens = min_of (cur + b.deposit_size) b.max_tokens }
deposit_loop b cur (observed ∷ rest) = deposit_loop b observed rest

unfoldable pub withdraw_loop : Bucket → ℕ → List ℕ → Bool × Bucket
withdraw_loop b cur [] =
    if ltb cur b.retry_cost then (false, b) else (true, record b { tokens = cur - b.retry_cost })
withdraw_loop b cur (observed ∷ rest) =
    let next = withdraw_loop b observed rest in if ltb cur b.retry_cost then (false, b) else next

-- The loops as one atomic step: the first exchange succeeds.
unfoldable pub deposit : Bucket → Bucket
unfolding deposit_loop
deposit b = deposit_loop b b.tokens []

unfoldable pub try_withdraw : Bucket → Bool × Bucket
unfolding withdraw_loop
try_withdraw b = withdraw_loop b b.tokens []
