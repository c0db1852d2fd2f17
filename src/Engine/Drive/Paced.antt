-- ===== src/Engine/Drive/Paced.antt =====
-- The pace of the attempts of a call (`drive` of src/engine.rs).
use execution_policy.Base.{
  ℕ, zero, suc, ◌+◌, ◌≤◌, ◌<◌, ◌≡◌, refl, ◌∙◌, sym, ap, subst, inl, inr, Instant, false, Option,
  none, some, List, ◌∷◌, arith,
}
use execution_policy.Base.Float.{Float64}
use execution_policy.Attempt
use execution_policy.Attempt.{Attempt}
use execution_policy.Outcome.{Result, ExecutionError}
use execution_policy.Retry.{Retry, RetryBudget, delay}
use execution_policy.Retry.Budget.{deposit}
use execution_policy.Engine.World.{World, set_bucket, ◌>>=◌}
use execution_policy.Engine.Ensures.{Ensures, Ensures-then, Ensures-both}
use execution_policy.Engine.Drive.{
  Loop, Call, round, drive_loop, drive, deposit_for, first_loop, past,
}
use execution_policy.Engine.Drive.Rounds.{Next, Done, Waits, round-Ensures}
use execution_policy.Engine.Drive.Attempts.{Never}
use execution_policy.Engine.Drive.Pause.{Paused, round-Paused}

module _ ⦃f : Float64⦄ {T E : Type 0} (retry : Retry T E) (deadline : Option Instant)
    (start : Instant) (before : List Attempt) where
  -- The calls of the operation since `before`, the newest first. The time in an attempt's metadata is that
  -- at which its round began, before a permit of its own was awaited. The first round begins at the
  -- start or after it. The round of a retry begins no earlier than the backoff of the attempt before it,
  -- for some random number and some error, after the round of that attempt began, and before the deadline.
  pub data Paced : ℕ → List Attempt → Type 0 where
    untried : Paced 0 before
    first : {t : Instant} → start ≤ t → Paced 1 (Attempt.new 1 start t ∷ before)
    retried :
        {n : ℕ} {a : Attempt} {xs : List Attempt} {t : Instant} (rng : ℕ) (last : Option E)
        → Paced (suc n) (a ∷ xs)
        → a.now + delay retry (suc n) rng last ≤ t
        → past deadline t ≡ false
        → Paced (suc (suc n)) (Attempt.new (suc (suc n)) start t ∷ a ∷ xs)

module _ ⦃f : Float64⦄ {T E : Type 0} (c : Call T E) where
  abbrev PacedCall : List Attempt → ℕ → List Attempt → Type 0
  PacedCall before = Paced c.retry c.total_deadline c.start before

  -- The attempts since `w0` keep the pace, and their number the cap.
  pub record Kept (w0 : World T E) (n : ℕ) (w : World T E) : Type 0 where
    pub pace : PacedCall w0.calls n w.calls
    pub room : n ≤ c.retry.max_attempts

  abbrev pub Keeps : World T E → World T E → Type 0
  Keeps w0 w = (n : ℕ) × Kept w0 n w

  -- The next attempt may come.
  data Due (w0 : World T E) : ℕ → World T E → Type 0 where
    at_start : {w : World T E} → w.calls ≡ w0.calls → c.start ≤ w.clock → Due w0 0 w
    after_backoff :
        {m : ℕ} {w : World T E} (a : Attempt) (xs : List Attempt)
        → w.calls ≡ a ∷ xs
        → PacedCall w0.calls (suc m) (a ∷ xs)
        → (rng : ℕ) (last : Option E) → a.now + delay c.retry (suc m) rng last ≤ w.clock
        → past c.total_deadline w.clock ≡ false
        → Due w0 (suc m) w

  record Going (w0 : World T E) (fuel k : ℕ) (l : Loop E) (w : World T E) : Type 0 where
    numbered : l.attempt_no ≡ suc k
    due : Due w0 k w
    enough : c.retry.max_attempts < fuel + suc k
    capped : suc k ≤ c.retry.max_attempts
    small : c.retry.max_attempts < 4294967296

  paced_again :
      (w0 w : World T E) (k : ℕ)
      → Due w0 k w
      → PacedCall w0.calls (suc k) (Attempt.new (suc k) c.start w.clock ∷ w.calls)
  paced_again w0 w k (at_start e le) =
      subst (λ xs. PacedCall w0.calls 1 (Attempt.new 1 c.start w.clock ∷ xs)) (sym e) (first le)
  paced_again w0 w k (after_backoff {m} a xs e p rng last waited early) =
      subst
        (λ ys. PacedCall w0.calls (suc (suc m)) (Attempt.new (suc (suc m)) c.start w.clock ∷ ys))
        (sym e) (retried rng last p waited early)

  paced_so_far : (w0 w : World T E) (k : ℕ) → Due w0 k w → PacedCall w0.calls k w.calls
  paced_so_far w0 w k (at_start e le) = subst (λ xs. PacedCall w0.calls 0 xs) (sym e) untried
  paced_so_far w0 w k (after_backoff {m} a xs e p rng last waited early) =
      subst (λ ys. PacedCall w0.calls (suc m) ys) (sym e) p

  called-Kept :
      (w0 : World T E) (fuel k : ℕ) (l : Loop E) (w w' : World T E)
      → Going w0 fuel k l w
      → w'.calls ≡ Attempt.new l.attempt_no c.start w.clock ∷ w.calls
      → Kept w0 (suc k) w'
  called-Kept w0 fuel k l w w' g e = record {
    pace =
        subst (λ xs. PacedCall w0.calls (suc k) xs)
          (sym (e ∙ ap (λ n. Attempt.new n c.start w.clock ∷ w.calls) g.numbered))
          (paced_again w0 w k g.due);
    room = g.capped;
  }

  same-Kept :
      (w0 : World T E) (fuel k : ℕ) (l : Loop E) (w w' : World T E)
      → Going w0 fuel k l w
      → w'.calls ≡ w.calls
      → Kept w0 k w'
  same-Kept w0 fuel k l w w' g e = record {
    pace = subst (λ xs. PacedCall w0.calls k xs) (sym e) (paced_so_far w0 w k g.due);
    room = omega (arith, g.capped);
  }

  Done-Keeps :
      (w0 : World T E) (fuel k : ℕ) (l : Loop E) (w : World T E) (r : Result T (ExecutionError E))
      (w' : World T E)
      → Going w0 fuel k l w
      → Done c l w r w'
      → Keeps w0 w'
  Done-Keeps w0 fuel k l w r w' g d = elim d.called [
    | inl called ↦ (suc k, called-Kept w0 fuel k l w w' g called)
    | inr same ↦ (k, same-Kept w0 fuel k l w w' g same.0)
  ]

  Waits-Keeps :
      (w0 : World T E) (fuel k : ℕ) (l : Loop E) (w w' : World T E)
      → Going w0 fuel k l w
      → Waits c l w w'
      → Keeps w0 w'
  Waits-Keeps w0 fuel k l w w' g d = elim d.called [
    | inl called ↦ (suc k, called-Kept w0 fuel k l w w' g called)
    | inr same ↦ (k, same-Kept w0 fuel k l w w' g same)
  ]

  Next-Going :
      (w0 : World T E) (fuel k : ℕ) (l l' : Loop E) (w w' : World T E)
      → Going w0 (suc fuel) k l w
      → Next c l w l' w'
      → Paused c l w.clock w'
      → Going w0 fuel (suc k) l' w'
  Next-Going w0 fuel k l l' w w' g n p = record {
    numbered = ground arith;
    due =
        after_backoff (Attempt.new (suc k) c.start w.clock) w.calls
          (n.called ∙ ap (λ m. Attempt.new m c.start w.clock ∷ w.calls) g.numbered)
          (paced_again w0 w k g.due) p.rng p.last
          (subst (λ m. w.clock + delay c.retry m p.rng p.last ≤ w'.clock) g.numbered p.waited)
          p.in_time;
    enough = omega (arith, g.enough);
    capped = ground arith;
    small = g.small;
  }

  drive_loop-Keeps :
      (w0 : World T E) (fuel k : ℕ) (l : Loop E) (w : World T E)
      → Going w0 fuel k l w
      → Ensures (Never c) (λ _ w'. Keeps w0 w') (Keeps w0) (drive_loop fuel c l w)
  unfolding drive_loop
  drive_loop-Keeps w0 zero k l w g = absurd (omega (arith, g.enough, g.capped))
  drive_loop-Keeps w0 (suc fuel) k l w g =
      Ensures-then _ _ _ _ _ (λ r w'. Done c l w r w' × Unit) (λ w'. Waits c l w w' × Unit)
        (round c l) w
        (Ensures-both _ _ _ _ _ _ (round c l w) (round-Ensures c l w) (round-Paused c l w))
        (λ r w' q. Done-Keeps w0 (suc fuel) k l w r w' g q.0)
        (λ w' q. Waits-Keeps w0 (suc fuel) k l w w' g q.0)
        (λ l' w' n.
          drive_loop-Keeps w0 fuel (suc k) l' w' (Next-Going w0 fuel k l l' w w' g n.0 n.1))

  -- The retry loop keeps the pace, whether it returns or waits.
  pub drive-Keeps :
      (w : World T E)
      → 1 ≤ c.retry.max_attempts
      → c.retry.max_attempts < 4294967296
      → c.start ≤ w.clock
      → Ensures (Never c) (λ _ w'. Keeps w w') (Keeps w) (drive c w)
  unfolding drive
  drive-Keeps w lo hi begun = by_budget c.retry.budget
    where
      from_start :
          (v : World T E)
          → v.calls ≡ w.calls
          → c.start ≤ v.clock
          → Going w c.retry.max_attempts 0 first_loop v
      from_start v same le = record {
        numbered = refl;
        due = at_start same le;
        enough = omega arith;
        capped = lo;
        small = hi;
      }

      by_budget :
          (o : Option RetryBudget)
          → Ensures
              (Never c)
              (λ _ w'. Keeps w w')
              (Keeps w)
              ((deposit_for o >>= λ _. drive_loop c.retry.max_attempts c first_loop) w)
      by_budget none = drive_loop-Keeps w _ 0 first_loop w (from_start w refl begun)
      by_budget (some _) =
          drive_loop-Keeps w _ 0 first_loop (set_bucket w (deposit w.shared.bucket))
            (from_start _ refl begun)
