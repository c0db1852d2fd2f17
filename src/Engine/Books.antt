-- ===== src/Engine/Books.antt =====
-- Accounts of a call of src/engine.rs: what a predicate on the worlds must satisfy to hold all along, by
-- where the call stands and how many permits it holds.
pub mod Rule
use execution_policy.Base.{
  ℕ, ◌+◌, ◌≡◌, refl, subst, sym, arith, Bool, true, false, Option, none, some,
}
use execution_policy.Base.{List, [], ◌∷◌}
use execution_policy.Base.Float.{Float64}
use execution_policy.Attempt.{Attempt}
use execution_policy.Event.{Event}
use execution_policy.Retry.{RetryBudget}
use execution_policy.Retry.Budget.{deposit, try_withdraw}
use execution_policy.Concurrency.{Semaphore, release}
use execution_policy.Breaker.Invariant.{Call, after}
use execution_policy.Engine.World.{World, Poll, Flow, arrive, set_breaker, set_sem, set_bucket}
use Rule.{Kept, Kept-mono}

-- Nothing was paid in yet; the operation may be called; it was called.
pub data Phase : Type 0 where
  fresh ready called : Phase

-- A permit that is held, or none.
abbrev pub one : Bool → ℕ
one true = 1
one false = 0

module _ ⦃f : Float64⦄ {T E : Type 0} where
  -- A stretch that touches nothing that an account counts.
  pub record Still (w w' : World T E) : Type 0 where
    pub sem_kept : w'.shared.sem ≡ w.shared.sem
    pub bucket_kept : w'.shared.bucket ≡ w.shared.bucket
    pub polls_kept : w'.polls ≡ w.polls
    pub calls_kept : w'.calls ≡ w.calls
    pub breaker_kept : w'.shared.breaker ≡ w.shared.breaker

  pub logged :
      (w : World T E) (log : List Event) (drawn : ℕ)
      → Still w (record w { log = log; drawn = drawn })
  logged w log drawn = record {
    sem_kept = refl;
    bucket_kept = refl;
    polls_kept = refl;
    calls_kept = refl;
    breaker_kept = refl;
  }

  -- A stretch without an await.
  abbrev pub Apart : {A : Type 0} → World T E → Flow T E A → Type 0
  Apart w = Kept (λ _ w'. Still w w') (Still w) (λ _. ⊥)

  -- An account: at each step of a call, what holds before it holds after it.
  pub record Account (budget : Option RetryBudget) (I : Phase → ℕ → World T E → Type 0)
      : Type 0 where
    pub still : (s : Phase) (k : ℕ) (w w' : World T E) → Still w w' → I s k w → I s k w'
    pub arrives :
        (s : Phase) (k : ℕ) (w : World T E) (p : Poll T E) (ps : List (Poll T E))
        → w.polls ≡ p ∷ ps
        → I s k w
        → I s k (arrive w p ps)
    -- The semaphore answers, and accounts for the permit that it hands out.
    pub answers :
        (s : Phase) (k : ℕ) (w : World T E) (got : Bool) (sem : Semaphore)
        → sem.permits + one got ≡ w.shared.sem.permits
        → I s k w
        → I s (k + one got) (set_sem w sem)
    pub drops :
        (s : Phase) (k : ℕ) (w : World T E)
        → I s (k + 1) w
        → I s k (set_sem w (release w.shared.sem).1)
    pub deposits :
        (k : ℕ) (w : World T E) → I fresh k w → I ready k (set_bucket w (deposit w.shared.bucket))
    pub calls :
        (k : ℕ) (w : World T E) (a : Attempt)
        → I ready k w
        → I called k (record w { calls = a ∷ w.calls })
    pub pays :
        (k : ℕ) (w : World T E)
        → (try_withdraw w.shared.bucket).0 ≡ true
        → I called k w
        → I ready k (set_bucket w (try_withdraw w.shared.bucket).1)
    pub refuses :
        (k : ℕ) (w : World T E)
        → (try_withdraw w.shared.bucket).0 ≡ false
        → I called k w
        → I called k (set_bucket w (try_withdraw w.shared.bucket).1)
    -- A call without a budget neither pays in nor pays for its retries.
    pub unpaid : (s : Phase) (k : ℕ) (w : World T E) → budget ≡ none → I s k w → I ready k w
    -- A call may end anywhere.
    pub ends : (s : Phase) (k : ℕ) (w : World T E) → I s k w → I called k w

  -- It holds still when the call asks the breaker, or votes.
  abbrev pub Turns : (Phase → ℕ → World T E → Type 0) → Type 0
  Turns I =
      (s : Phase) (k : ℕ) (w : World T E) (c : Call)
      → I s k w
      → I s k (set_breaker w (after w.shared.breaker (w.clock, c)))

  module _ (I : Phase → ℕ → World T E → Type 0) where
    -- A call that waits holds some number of permits.
    abbrev pub Waits : World T E → Type 0
    Waits w = (k : ℕ) × I called k w

    -- An await of a call that holds `k` permits.
    abbrev pub Await : {A : Type 0} → Phase → ℕ → Flow T E A → Type 0
    Await s k = Kept (λ _ w. I s k w) (λ _. ⊥) Waits

    -- An await that says whether the call holds one permit more.
    abbrev pub Gains : Phase → ℕ → Flow T E Bool → Type 0
    Gains s k = Kept (λ got w. I s (k + one got) w) (λ _. ⊥) Waits

    -- A stretch after which the call holds as many permits as before, however it ends.
    abbrev pub Neutral : {A : Type 0} → Phase → ℕ → Flow T E A → Type 0
    Neutral s k = Kept (λ _ w. I s k w) (I called k) Waits

    pub same : (s : Phase) (k : ℕ) (w : World T E) → I s k w → I s (k + one false) w
    same s k w h = subst (λ (m : ℕ). I s m w) (omega arith) h

    pub same_back : (s : Phase) (k : ℕ) (w : World T E) → I s (k + one false) w → I s k w
    same_back s k w h = subst (λ (m : ℕ). I s m w) (omega arith) h

    pub Apart-Neutral :
        {budget : Option RetryBudget} (account : Account budget I) (s : Phase) (k : ℕ) {A : Type 0}
        (w : World T E) (x : Flow T E A)
        → Apart w x
        → I s k w
        → Neutral s k x
    Apart-Neutral account s k w x a h =
        Kept-mono _ _ _ _ _ _ x a (λ _ w' q. account.still s k w w' q h)
          (λ w' q. account.ends s k w' (account.still s k w w' q h)) (λ w' q. absurd q)
