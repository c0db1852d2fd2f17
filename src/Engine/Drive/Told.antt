-- ===== src/Engine/Drive/Told.antt =====
-- What a registered hook is told of the retry loop (`drive` of src/engine.rs, src/event.rs).
use execution_policy.Base.{
  ℕ, zero, suc, ◌+◌, ◌≤◌, ◌<◌, ◌≡◌, refl, ◌∙◌, ap, ◌⊎◌, inl, inr, true, Option, none, some, List,
  [], ◌∷◌, ◌++◌, arith,
}
use execution_policy.Base.Float.{Float64}
use execution_policy.Outcome.{Result, ok, err, ExecutionError, context_of}
use execution_policy.Retry.{RetryBudget}
use execution_policy.Retry.Budget.{deposit}
use execution_policy.Engine.World.{World, set_bucket, ◌>>=◌}
use execution_policy.Engine.Ensures.{Ensures, Ensures-then, Ensures-both}
use execution_policy.Engine.Drive.{Loop, Call, round, drive_loop, drive, deposit_for, first_loop}
use execution_policy.Engine.Drive.Returns.{Reports}
use execution_policy.Engine.Drive.Rounds.{Next, Done, Waits, round-Ensures}
use execution_policy.Engine.Drive.Attempts.{Never}
use execution_policy.Engine.Drive.Story.{scheduled, closings, closing_of, IsTotalTimeout, Announced}
use execution_policy.Engine.Drive.Story.Round.{Ends, Holds, round-Story}

-- The attempts `n`, `n - 1`, … 1.
abbrev pub countdown : ℕ → List ℕ
countdown zero = []
countdown (suc n) = suc n ∷ countdown n

-- An error that tells `n` attempts.
abbrev pub Numbered : {T E : Type 0} → ℕ → Result T (ExecutionError E) → Type 0
Numbered n (ok v) = Unit
Numbered n (err e) = (context_of e).attempts ≡ n

module _ ⦃f : Float64⦄ {T E : Type 0} (c : Call T E) where
  -- Since `w0` the hook was told of a retry after each of the attempts 1 to `m`, in this order.
  pub record Retried (w0 : World T E) (m : ℕ) (w : World T E) : Type 0 where
    pub in_order : scheduled w.log ≡ countdown m ++ scheduled w0.log
    pub room : m ≤ c.retry.max_attempts

  -- The end was told once, with the attempt in which it came; or a deadline passed in the sleep after
  -- the last retry was told, which is told by no event.
  abbrev pub Ended : World T E → ℕ → Result T (ExecutionError E) → World T E → Type 0
  Ended w0 m r w =
      (Numbered (suc m) r × (closings w.log ≡ closing_of (suc m) r ∷ closings w0.log))
      ⊎ (Numbered m r × IsTotalTimeout r × (closings w.log ≡ closings w0.log))

  abbrev pub Told : World T E → Result T (ExecutionError E) → World T E → Type 0
  Told w0 r w = (m : ℕ) × Retried w0 m w × Ended w0 m r w

  abbrev pub Untold : World T E → World T E → Type 0
  Untold w0 w = (m : ℕ) × Retried w0 m w × (closings w.log ≡ closings w0.log)

  record Going (w0 : World T E) (fuel k : ℕ) (l : Loop E) (w : World T E) : Type 0 where
    numbered : l.attempt_no ≡ suc k
    retried : scheduled w.log ≡ countdown k ++ scheduled w0.log
    none_closed : closings w.log ≡ closings w0.log
    enough : c.retry.max_attempts < fuel + suc k
    capped : suc k ≤ c.retry.max_attempts
    small : c.retry.max_attempts < 4294967296

  Announced-Retried :
      (w0 : World T E) (fuel k : ℕ) (l : Loop E) (w w' : World T E)
      → Going w0 fuel k l w
      → Announced c l w w'
      → Retried w0 (suc k) w'
  Announced-Retried w0 fuel k l w w' g a = record {
    in_order =
        a.one_scheduled
        ∙ ap (λ n. n ∷ scheduled w.log) g.numbered
        ∙ ap (λ log. suc k ∷ log) g.retried;
    room = g.capped;
  }

  unchanged :
      (w0 : World T E) (fuel k : ℕ) (l : Loop E) (w w' : World T E)
      → Going w0 fuel k l w
      → scheduled w'.log ≡ scheduled w.log
      → Retried w0 k w'
  unchanged w0 fuel k l w w' g same = record {
    in_order = same ∙ g.retried;
    room = omega (arith, g.capped);
  }

  Reports-Numbered :
      (k : ℕ) (l : Loop E) (r : Result T (ExecutionError E)) (w : World T E)
      → l.attempt_no ≡ suc k
      → Reports c l r w
      → Numbered (suc k) r
  Reports-Numbered k l (ok v) w e h = tt
  Reports-Numbered k l (err x) w e h = h.0 ∙ e

  Ends-Told :
      (w0 : World T E) (fuel k : ℕ) (l : Loop E) (w : World T E) (r : Result T (ExecutionError E))
      (w' : World T E)
      → Going w0 fuel k l w
      → Done c l w r w'
      → Ends c l w r w'
      → Told w0 r w'
  Ends-Told w0 fuel k l w r w' g d (inl x) = (
    k,
    unchanged w0 fuel k l w w' g x.none_scheduled,
    inl (
      Reports-Numbered k l r w' g.numbered d.reports,
      x.one_closed
          ∙ ap (λ n. closing_of n r ∷ closings w.log) g.numbered
          ∙ ap (λ log. closing_of (suc k) r ∷ log) g.none_closed,
    ),
  )
  Ends-Told w0 fuel k l w r w' g d (inr (a, late)) = (
    suc k,
    Announced-Retried w0 fuel k l w w' g a,
    inr (Reports-Numbered k l r w' g.numbered d.reports, late, a.none_closed ∙ g.none_closed),
  )

  Holds-Untold :
      (w0 : World T E) (fuel k : ℕ) (l : Loop E) (w w' : World T E)
      → Going w0 fuel k l w
      → Holds c l w w'
      → Untold w0 w'
  Holds-Untold w0 fuel k l w w' g (inl s) =
      (k, unchanged w0 fuel k l w w' g s.none_scheduled, s.none_closed ∙ g.none_closed)
  Holds-Untold w0 fuel k l w w' g (inr a) =
      (suc k, Announced-Retried w0 fuel k l w w' g a, a.none_closed ∙ g.none_closed)

  Next-Going :
      (w0 : World T E) (fuel k : ℕ) (l l' : Loop E) (w w' : World T E)
      → Going w0 (suc fuel) k l w
      → Next c l w l' w'
      → Announced c l w w'
      → Going w0 fuel (suc k) l' w'
  Next-Going w0 fuel k l l' w w' g n a = record {
    numbered = ground arith;
    retried = (Announced-Retried w0 (suc fuel) k l w w' g a).in_order;
    none_closed = a.none_closed ∙ g.none_closed;
    enough = omega (arith, g.enough);
    capped = ground arith;
    small = g.small;
  }

  module _ (hook : c.plan.on_event ≡ true) where
    drive_loop-Told :
        (w0 : World T E) (fuel k : ℕ) (l : Loop E) (w : World T E)
        → Going w0 fuel k l w
        → Ensures (Never c) (Told w0) (Untold w0) (drive_loop fuel c l w)
    unfolding drive_loop
    drive_loop-Told w0 zero k l w g = absurd (omega (arith, g.enough, g.capped))
    drive_loop-Told w0 (suc fuel) k l w g =
        Ensures-then _ _ _ _ _ (λ r w'. Done c l w r w' × Ends c l w r w')
          (λ w'. Waits c l w w' × Holds c l w w') (round c l) w
          (Ensures-both _ _ _ _ _ _ (round c l w) (round-Ensures c l w) (round-Story c l hook w))
          (λ r w' q. Ends-Told w0 (suc fuel) k l w r w' g q.0 q.1)
          (λ w' q. Holds-Untold w0 (suc fuel) k l w w' g q.1)
          (λ l' w' n.
            drive_loop-Told w0 fuel (suc k) l' w' (Next-Going w0 fuel k l l' w w' g n.0 n.1))

    -- With a hook and a cap of at least 1, the loop has told of a retry after each of the attempts 1 to
    -- `m`, in this order and each once. While it waits it has told no end. When it returns it has told
    -- exactly one end, the one that its result stands for, with the number of the attempt, `m + 1`, that
    -- an error tells, too. The exception is a total deadline that passed in the sleep after attempt `m`:
    -- the call then returns `TotalTimeout` and has told no end. This holds whatever other tasks do.
    pub drive-Told :
        (w : World T E)
        → 1 ≤ c.retry.max_attempts
        → c.retry.max_attempts < 4294967296
        → Ensures (Never c) (Told w) (Untold w) (drive c w)
    unfolding drive
    drive-Told w lo hi = by_budget c.retry.budget
      where
        by_budget :
            (o : Option RetryBudget)
            → Ensures
                (Never c)
                (Told w)
                (Untold w)
                ((deposit_for o >>= λ _. drive_loop c.retry.max_attempts c first_loop) w)
        by_budget none = drive_loop-Told w _ 0 first_loop w (record {
          numbered = refl;
          retried = refl;
          none_closed = refl;
          enough = omega arith;
          capped = lo;
          small = hi;
        })
        by_budget (some _) =
            drive_loop-Told w _ 0 first_loop (set_bucket w (deposit w.shared.bucket)) (record {
              numbered = refl;
              retried = refl;
              none_closed = refl;
              enough = omega arith;
              capped = lo;
              small = hi;
            })
