-- ===== src/Engine/Pipeline/Balance.antt =====
-- The permits of a call (`run_pipeline` of src/engine.rs) among those of other tasks.
use execution_policy.Base.{ℕ, ◌+◌, ◌≤◌, ◌<◌, ◌≡◌, subst, Option, List, [], ◌∷◌, arith}
use execution_policy.Base.Float.{Float64}
use execution_policy.Retry.{RetryBudget}
use execution_policy.Concurrency.{release}
use execution_policy.Engine.World.{World, Plan, Poll, Shared}
use execution_policy.Engine.Ensures.{Awaits}
use execution_policy.Engine.Books.{Phase, fresh, called, Account, Waits}
use execution_policy.Engine.Pipeline.{run_pipeline}
use execution_policy.Engine.Pipeline.Held.{run_pipeline-Account}

-- `n` permits in all, and how many of them other tasks hold before the polls to come.
module _ ⦃f : Float64⦄ {T E : Type 0} (n : ℕ) (elsewhere : List (Poll T E) → ℕ) where
  -- What the other tasks do between polls keeps the books, whatever this call holds.
  abbrev pub Keeps : List (Poll T E) → Type 0
  Keeps [] = Unit
  Keeps (p ∷ ps) =
      ((k : ℕ) (s : Shared)
        → s.sem.permits + k + elsewhere (p ∷ ps) ≡ n
        → (p.others s).sem.permits + k + elsewhere ps ≡ n)
      × Keeps ps

  -- This call holds `k` permits: with the free ones and those held elsewhere they are all.
  pub record Holds (s : Phase) (k : ℕ) (w : World T E) : Type 0 where
    pub balance : w.shared.sem.permits + k + elsewhere w.polls ≡ n
    pub others : Keeps w.polls

  Holds-arrives :
      (s : Phase) (k : ℕ) (w : World T E) (p : Poll T E) (ps : List (Poll T E))
      → w.polls ≡ p ∷ ps
      → Holds s k w
      → (((p.others w.shared).sem.permits + k + elsewhere ps ≡ n) × Keeps ps)
  Holds-arrives s k w p ps e h =
      let kept = subst (λ (l : List (Poll T E)). Keeps l) e h.others in
      let balance =
        subst (λ (l : List (Poll T E)). w.shared.sem.permits + k + elsewhere l ≡ n) e h.balance in
      (kept.0 k w.shared balance, kept.1)

  Holds-Account :
      (budget : Option RetryBudget)
      → n < 18446744073709551616
      → Account budget (λ s k w. Holds s k w)
  unfolding release
  Holds-Account budget lt = record {
    still = λ s k w w' q h. record {
      balance = rw (q.sem_kept, q.polls_kept) h.balance;
      others = rw q.polls_kept h.others;
    };
    arrives = λ s k w p ps e h.
        let after = Holds-arrives s k w p ps e h in record { balance = after.0; others = after.1 };
    answers = λ s k w got sem count h. record {
      balance = omega (arith, h.balance, count);
      others = h.others;
    };
    drops = λ s k w h. record { balance = omega (arith, h.balance); others = h.others };
    deposits = λ k w h. record { balance = h.balance; others = h.others };
    calls = λ k w a h. record { balance = h.balance; others = h.others };
    pays = λ k w g h. record { balance = h.balance; others = h.others };
    refuses = λ k w g h. record { balance = h.balance; others = h.others };
    unpaid = λ s k w e h. record { balance = h.balance; others = h.others };
    ends = λ s k w h. record { balance = h.balance; others = h.others };
  }

module _ ⦃f : Float64⦄ {T E : Type 0} (plan : Plan T E) where
  -- When a call of a policy with a valid cap ends, in whatever way, it holds no permit: the free ones and
  -- those that other tasks hold make up all of them again, as they did at its start. This is so for either
  -- scope, and whatever the other tasks do, as long as they keep their books. The permits are fewer than
  -- 2^64.
  pub run_pipeline-Balanced :
      (n : ℕ) (elsewhere : List (Poll T E) → ℕ) (w : World T E)
      → n < 18446744073709551616
      → 1 ≤ plan.retry.max_attempts
      → plan.retry.max_attempts < 4294967296
      → Holds n elsewhere fresh 0 w
      → Awaits
          (λ _ w'. Holds n elsewhere called 0 w')
          (Waits (λ s k w'. Holds n elsewhere s k w'))
          (run_pipeline plan w)
  run_pipeline-Balanced n elsewhere w lt lo hi h =
      run_pipeline-Account plan _ 0 w (Holds-Account n elsewhere plan.retry.budget lt)
        (λ s k v c q. record { balance = q.balance; others = q.others }) lo hi h
