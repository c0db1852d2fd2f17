-- ===== src/Retry/Budget/Steps.antt =====
-- What a deposit and a withdrawal do to the fields of a bucket (src/retry/budget.rs).
use execution_policy.Base.{◌+◌, ◌≤◌, ◌≡◌, refl, true, false, arith}
use execution_policy.Retry.Budget.{Bucket, deposit, try_withdraw, deposit_loop, withdraw_loop}

pub deposit-tokens : (b : Bucket) → (deposit b).tokens ≤ b.tokens + b.deposit_size
unfolding deposit deposit_loop
deposit-tokens b = ground arith

pub deposit-cost : (b : Bucket) → (deposit b).retry_cost ≡ b.retry_cost
unfolding deposit deposit_loop
deposit-cost b = refl

pub withdraw-tokens :
    (b : Bucket) → (try_withdraw b).0 ≡ true → (try_withdraw b).1.tokens + b.retry_cost ≡ b.tokens
unfolding try_withdraw withdraw_loop
withdraw-tokens b h = ground arith

pub withdraw-cost : (b : Bucket) → (try_withdraw b).1.retry_cost ≡ b.retry_cost
unfolding try_withdraw withdraw_loop
withdraw-cost b = ground arith

pub refused_lem : (b : Bucket) → (try_withdraw b).0 ≡ false → (try_withdraw b).1 ≡ b
unfolding try_withdraw withdraw_loop
refused_lem b h = ground arith

pub deposit-size : (b : Bucket) → (deposit b).deposit_size ≡ b.deposit_size
unfolding deposit deposit_loop
deposit-size b = refl

pub withdraw-size : (b : Bucket) → (try_withdraw b).1.deposit_size ≡ b.deposit_size
unfolding try_withdraw withdraw_loop
withdraw-size b = ground arith
