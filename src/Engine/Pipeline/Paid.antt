-- ===== src/Engine/Pipeline/Paid.antt =====
-- The retries of a call (`run_pipeline` of src/engine.rs) and the tokens of its budget.
use execution_policy.Base.{
  ℕ, zero, suc, ◌+◌, ◌-◌, ◌*◌, ◌≤◌, ◌<◌, ◌≡◌, refl, ap, ◌∙◌, subst, Option, none, some, List, [],
  ◌∷◌, arith, length,
}
use execution_policy.Base.Float.{Float64}
use execution_policy.Retry.{RetryBudget}
use execution_policy.Retry.Budget.Steps.{
  deposit-tokens, deposit-cost, deposit-size, withdraw-tokens, withdraw-cost, withdraw-size,
  refused_lem,
}
use execution_policy.Engine.World.{World, Plan, Poll, Shared, arrive}
use execution_policy.Engine.Ensures.{Awaits, Ensures-mono}
use execution_policy.Engine.Books.{Phase, fresh, ready, called, Account}
use execution_policy.Engine.Pipeline.{run_pipeline}
use execution_policy.Engine.Pipeline.Held.{run_pipeline-Account}

abbrev pub retries : ℕ → ℕ
retries zero = 0
retries (suc n) = n

-- The retries to be paid for once an operation was called `n` times: the next one, or the ones made.
abbrev pub owed : Phase → ℕ → ℕ
owed fresh n = n
owed ready n = n
owed called n = retries n

-- What is to come in by the deposit of this call.
abbrev incoming : Phase → ℕ → ℕ
incoming fresh size = size
incoming ready size = 0
incoming called size = 0

sub_self : (n : ℕ) → n - n ≡ 0
sub_self n = omega arith

suc-sub : (base n : ℕ) → base ≤ n → suc n - base ≡ suc (n - base)
suc-sub base n h = omega arith

set_and_not : {o : Option RetryBudget} {b : RetryBudget} → o ≡ some b → o ≡ none → ⊥
set_and_not e e' = cc

owed_again : (n cost : ℕ) → owed ready n * cost ≤ owed called n * cost + cost
owed_again zero cost = omega arith
owed_again (suc n) cost = omega arith

retries_less : (n cost : ℕ) → retries n * cost ≤ n * cost
retries_less zero cost = omega arith
retries_less (suc n) cost = omega arith

owed_less : (s : Phase) (n cost : ℕ) → owed called n * cost ≤ owed s n * cost
owed_less fresh n cost = retries_less n cost
owed_less ready n cost = retries_less n cost
owed_less called n cost = omega arith

-- `supply` is what other tasks add to the bucket before the polls to come, at most.
module _ ⦃f : Float64⦄ {T E : Type 0} (supply : List (Poll T E) → ℕ) where
  abbrev pub Steady : List (Poll T E) → Type 0
  Steady [] = Unit
  Steady (p ∷ ps) =
      ((s : Shared)
        → ((p.others s).bucket.tokens + supply ps ≤ s.bucket.tokens + supply (p ∷ ps))
          × ((p.others s).bucket.retry_cost ≡ s.bucket.retry_cost)
          × ((p.others s).bucket.deposit_size ≡ s.bucket.deposit_size))
      × Steady ps

  module _ (base total cost size : ℕ) where
    record Pays (s : Phase) (k : ℕ) (w : World T E) : Type 0 where
      since : base ≤ length w.calls
      covered :
          w.shared.bucket.tokens
            + supply w.polls
            + owed s (length w.calls - base) * cost
            + incoming s size
          ≤ total
      price : w.shared.bucket.retry_cost ≡ cost
      paid_in : w.shared.bucket.deposit_size ≡ size
      others : Steady w.polls

    arrived :
        (s : Phase) (k : ℕ) (w : World T E) (p : Poll T E) (ps : List (Poll T E))
        → w.polls ≡ p ∷ ps
        → Pays s k w
        → Pays s k (arrive w p ps)
    arrived s k w p ps e h =
        let steady = subst (λ (l : List (Poll T E)). Steady l) e h.others in
        let (tokens, cost_kept, size_kept) = steady.0 w.shared in
        record {
          since = h.since;
          covered = omega (arith, h.covered, tokens, ap (λ l. supply l) e);
          price = cost_kept ∙ h.price;
          paid_in = size_kept ∙ h.paid_in;
          others = steady.1;
        }

    Pays-Account :
        (budget : Option RetryBudget) (b : RetryBudget)
        → budget ≡ some b
        → Account budget (λ s k w. Pays s k w)
    Pays-Account budget b e = record {
      still = λ s k w w' q h. record {
        since = rw q.calls_kept h.since;
        covered = rw (q.bucket_kept, q.polls_kept, q.calls_kept) h.covered;
        price = rw q.bucket_kept h.price;
        paid_in = rw q.bucket_kept h.paid_in;
        others = rw q.polls_kept h.others;
      };
      arrives = λ s k w p ps e' h. arrived s k w p ps e' h;
      answers = λ s k w got sem count h. record {
        since = h.since;
        covered = h.covered;
        price = h.price;
        paid_in = h.paid_in;
        others = h.others;
      };
      drops = λ s k w h. record {
        since = h.since;
        covered = h.covered;
        price = h.price;
        paid_in = h.paid_in;
        others = h.others;
      };
      deposits = λ k w h. record {
        since = h.since;
        covered = omega (arith, h.covered, h.paid_in, deposit-tokens w.shared.bucket);
        price = deposit-cost w.shared.bucket ∙ h.price;
        paid_in = deposit-size w.shared.bucket ∙ h.paid_in;
        others = h.others;
      };
      calls = λ k w a h. record {
        since = omega (arith, h.since);
        covered = rw (suc-sub base (length w.calls) h.since) h.covered;
        price = h.price;
        paid_in = h.paid_in;
        others = h.others;
      };
      pays = λ k w g h. record {
        since = h.since;
        covered = omega (
          arith,
          h.covered,
          h.price,
          withdraw-tokens w.shared.bucket g,
          owed_again (length w.calls - base) cost,
        );
        price = withdraw-cost w.shared.bucket ∙ h.price;
        paid_in = withdraw-size w.shared.bucket ∙ h.paid_in;
        others = h.others;
      };
      refuses = λ k w g h. rw (refused_lem w.shared.bucket g) (record {
        since = h.since;
        covered = h.covered;
        price = h.price;
        paid_in = h.paid_in;
        others = h.others;
      });
      unpaid = λ s k w e' h. absurd (set_and_not e e');
      ends = λ s k w h. record {
        since = h.since;
        covered = omega (arith, h.covered, owed_less s (length w.calls - base) cost);
        price = h.price;
        paid_in = h.paid_in;
        others = h.others;
      };
    }

  -- The calls of the operation since the world `w`.
  abbrev pub calls_since : World T E → World T E → ℕ
  calls_since w w' = length w'.calls - length w.calls

  -- The tokens that are left, those to come from other tasks, and the cost of the retries since the world
  -- `w` are together at most the tokens of then, this call's deposit, and all that other tasks add.
  abbrev pub Covered : World T E → World T E → Type 0
  Covered w w' =
      let b = w.shared.bucket in
      w'.shared.bucket.tokens + supply w'.polls + retries (calls_since w w') * b.retry_cost
      ≤ b.tokens + b.deposit_size + supply w.polls

  -- The retries of a call of a policy with a budget and a valid cap are paid for: when it ends, or while it
  -- waits, the tokens left and the cost of its retries, the calls of the operation but the first, are at
  -- most the tokens at its start, its one deposit, and what other tasks added to the bucket meanwhile.
  pub run_pipeline-Covered :
      (plan : Plan T E) (b : RetryBudget) (w : World T E)
      → plan.retry.budget ≡ some b
      → 1 ≤ plan.retry.max_attempts
      → plan.retry.max_attempts < 4294967296
      → Steady w.polls
      → Awaits (λ _ w'. Covered w w') (λ w'. Covered w w') (run_pipeline plan w)
  run_pipeline-Covered plan b w e lo hi steady =
      let bucket = w.shared.bucket in
      let base = length w.calls in
      let total = bucket.tokens + bucket.deposit_size + supply w.polls in
      Ensures-mono _ _ _ _ _ _ (run_pipeline plan w)
        (run_pipeline-Account plan _ 0 w
          (Pays-Account base total bucket.retry_cost bucket.deposit_size plan.retry.budget b e)
          (λ s k v c q. record {
            since = q.since;
            covered = q.covered;
            price = q.price;
            paid_in = q.paid_in;
            others = q.others;
          })
          lo hi
          (record {
            since = omega arith;
            covered = rw (sub_self base) (omega arith);
            price = refl;
            paid_in = refl;
            others = steady;
          }))
        (λ _ w' h. omega (arith, h.covered)) (λ _ _ q. q) (λ w' h. omega (arith, h.1.covered))
