-- ===== src/Retry/Budget/Fairness.antt =====
-- What the token bucket of src/retry/budget.rs grants over any interleaving of its clients.
use execution_policy.Base.{
  ℕ, ◌+◌, ◌*◌, ◌≤◌, ◌<◌, ◌≡◌, refl, ◌↔◌, ◌∙◌, ◌⊎◌, inl, inr, true, false, List, [], ◌∷◌, arith, ltb,
  Bool-cases,
}
use execution_policy.Retry.Budget.{Bucket, deposit_loop, withdraw_loop, deposit, try_withdraw}

-- The value that a loop's last round works with.
abbrev pub last_seen : ℕ → List ℕ → ℕ
last_seen cur [] = cur
last_seen cur (o ∷ os) = last_seen o os

deposit_loop-atomic :
    (b : Bucket) (cur : ℕ) (os : List ℕ)
    → last_seen cur os ≡ b.tokens
    → deposit_loop b cur os ≡ deposit b
unfolding deposit_loop deposit
deposit_loop-atomic b cur [] h = ground arith
deposit_loop-atomic b cur (o ∷ os) h = deposit_loop-atomic b o os h

-- A value among those that the loop saw.
abbrev pub Seen : (ℕ → Type 0) → ℕ → List ℕ → Type 0
Seen P cur [] = P cur
Seen P cur (o ∷ os) = P cur ⊎ Seen P o os

abbrev pub Linearized : Bucket → ℕ → List ℕ → Type 0
Linearized b cur os =
    (withdraw_loop b cur os ≡ try_withdraw b)
    ⊎ (Seen (λ v. v < b.retry_cost) cur os × (withdraw_loop b cur os ≡ (false, b)))

-- A withdrawal whose exchanges fail any number of times acts as one atomic step at its last round, or
-- is refused, with the bucket as it was, because some value that it saw was below the cost of a retry.
pub withdraw_loop-Linearized :
    (b : Bucket) (cur : ℕ) (os : List ℕ) → last_seen cur os ≡ b.tokens → Linearized b cur os
unfolding withdraw_loop try_withdraw
withdraw_loop-Linearized b cur [] h = inl (ground arith)
withdraw_loop-Linearized b cur (o ∷ os) h = elim (Bool-cases (ltb cur b.retry_cost)) [
  | inl low ↦ inr (inl (ground arith), ground arith)
  | inr high ↦ elim (withdraw_loop-Linearized b o os h) [
    | inl same ↦ inl (ground arith)
    | inr (seen, out) ↦ inr (inr seen, ground arith)
  ]
]

-- One client's step on the bucket: a call deposits, a retry withdraws.
pub data Use : Type 0 where
  call retry : Use

abbrev pub after : Bucket → Use → Bucket
after b call = deposit b
after b retry = (try_withdraw b).1

abbrev pub granted_by : Bucket → Use → ℕ
granted_by b call = 0
granted_by b retry = elim (try_withdraw b).0 [ true ↦ 1 | false ↦ 0 ]

abbrev pub calls_in : Use → ℕ
calls_in call = 1
calls_in retry = 0

unfoldable pub run : Bucket → List Use → Bucket
run b [] = b
run b (u ∷ us) = run (after b u) us

unfoldable pub granted : Bucket → List Use → ℕ
granted b [] = 0
granted b (u ∷ us) = granted_by b u + granted (after b u) us

unfoldable pub calls : List Use → ℕ
calls [] = 0
calls (u ∷ us) = calls_in u + calls us

record Steps (b b' : Bucket) (u : Use) : Type 0 where
  cap : b'.max_tokens ≡ b.max_tokens
  size : b'.deposit_size ≡ b.deposit_size
  cost : b'.retry_cost ≡ b.retry_cost
  capped : b.tokens ≤ b.max_tokens → b'.tokens ≤ b'.max_tokens
  paid : granted_by b u * b.retry_cost + b'.tokens ≤ b.tokens + calls_in u * b.deposit_size

after-Steps : (b : Bucket) (u : Use) → Steps b (after b u) u
unfolding deposit try_withdraw
after-Steps b call = ground arith
after-Steps b retry = ground arith

-- The bucket never holds more than its maximum, whatever its clients do.
pub run-capped :
    (b : Bucket) (us : List Use) → b.tokens ≤ b.max_tokens → (run b us).tokens ≤ b.max_tokens
unfolding run
run-capped b [] h = h
run-capped b (u ∷ us) h =
    let s = after-Steps b u in omega (arith, s.cap, run-capped (after b u) us (s.capped h))

granted-account :
    (b : Bucket) (us : List Use) (cost size : ℕ)
    → b.retry_cost ≡ cost
    → b.deposit_size ≡ size
    → granted b us * cost + (run b us).tokens ≤ b.tokens + calls us * size
unfolding run granted calls
granted-account b [] cost size p q = omega arith
granted-account b (u ∷ us) cost size p q =
    let s = after-Steps b u in
    let paid : granted_by b u * cost + (after b u).tokens ≤ b.tokens + calls_in u * size =
      rw (← p, ← q) s.paid in
    omega (arith, paid, granted-account (after b u) us cost size (s.cost ∙ p) (s.size ∙ q))

-- Over any interleaving of its clients, the retries that a bucket grants, at their cost, and the tokens
-- left are together at most the tokens at the start and those that the calls deposit.
pub granted-le :
    (b : Bucket) (us : List Use)
    → granted b us * b.retry_cost + (run b us).tokens ≤ b.tokens + calls us * b.deposit_size
granted-le b us = granted-account b us b.retry_cost b.deposit_size refl refl

-- A retry is refused exactly when the bucket holds less than its cost, and then takes nothing.
pub try_withdraw_iff : (b : Bucket) → ((try_withdraw b).0 ≡ true) ↔ (b.retry_cost ≤ b.tokens)
unfolding try_withdraw
try_withdraw_iff b = ground arith
