-- ===== src/Engine/Drive/Attempts.antt =====
-- The retry loop as a whole (`drive` of src/engine.rs): it ends, and how often it calls the operation.
use execution_policy.Base.{
  ℕ, zero, suc, ◌+◌, ◌-◌, ◌≤◌, ◌<◌, ◌≡◌, refl, ◌∙◌, ◌⊎◌, inl, inr, Option, none, some, ◌∷◌, true,
  arith,
}
use execution_policy.Base.Float.{Float64}
use execution_policy.Outcome.{Result, ok, err, ExecutionError, context_of, is_rejected}
use execution_policy.Retry.{RetryBudget}
use execution_policy.Retry.Budget.{deposit}
use execution_policy.Attempt
use execution_policy.Engine.World.{World, set_bucket, ◌>>=◌}
use execution_policy.Engine.Ensures.{Ensures, Ensures-then}
use execution_policy.Engine.Drive.{Loop, Call, round, drive_loop, drive, deposit_for, first_loop}
use execution_policy.Engine.Drive.Handed.{Handed, none_yet, Handed-same, Handed-hand}
use execution_policy.Engine.Drive.Rounds.{Next, Done, Waits, round-Ensures}

module _ ⦃f : Float64⦄ {T E : Type 0} (c : Call T E) where
  -- Since `w0` the operation was called for the attempts 1 to `n`, at most the cap.
  pub record Called (w0 : World T E) (n : ℕ) (w : World T E) : Type 0 where
    pub in_order : Handed c.start w0.calls w0.clock n w.clock w.calls
    pub capped : n ≤ c.retry.max_attempts

  -- What an error reports after `n` calls. Only a rejected permit ends an attempt without its call.
  abbrev pub Told : ℕ → Result T (ExecutionError E) → World T E → Type 0
  Told n (ok v) w = 1 ≤ n
  Told n (err e) w =
      let x = context_of e in
      ((x.attempts ≡ n) ⊎ ((x.attempts ≡ n + 1) × (is_rejected e ≡ true)))
      × (x.elapsed ≡ w.clock - c.start)
      × (x.breaker_state ≡ c.breaker_state)

  abbrev pub Ended : World T E → Result T (ExecutionError E) → World T E → Type 0
  Ended w r w' = (n : ℕ) × Called w n w' × Told n r w'

  abbrev pub Waiting : World T E → World T E → Type 0
  Waiting w w' = (n : ℕ) × Called w n w'

  record Going (w0 : World T E) (fuel k : ℕ) (l : Loop E) (w : World T E) : Type 0 where
    numbered : l.attempt_no ≡ suc k
    calls : Handed c.start w0.calls w0.clock k w.clock w.calls
    enough : c.retry.max_attempts < fuel + suc k
    capped : suc k ≤ c.retry.max_attempts
    small : c.retry.max_attempts < 4294967296

  abbrev pub Never : Result T (ExecutionError E) → World T E → Type 0
  Never r w = ⊥

  -- After a round that called the operation, and after one that did not.
  round-Called :
      (w0 : World T E) (fuel k : ℕ) (l : Loop E) (w w' : World T E)
      → Going w0 fuel k l w
      → w'.calls ≡ Attempt.new l.attempt_no c.start w.clock ∷ w.calls
      → w.clock ≤ w'.clock
      → Called w0 (suc k) w'
  round-Called w0 fuel k l w w' g called later = record {
    in_order = Handed-hand called g.numbered later g.calls;
    capped = g.capped;
  }

  refused-Called :
      (w0 : World T E) (fuel k : ℕ) (l : Loop E) (w w' : World T E)
      → Going w0 fuel k l w
      → w'.calls ≡ w.calls
      → w.clock ≤ w'.clock
      → Called w0 k w'
  refused-Called w0 fuel k l w w' g same later = record {
    in_order = Handed-same same later g.calls;
    capped = omega (arith, g.capped);
  }

  Done-Ended :
      (w0 : World T E) (fuel k : ℕ) (l : Loop E) (w : World T E) (r : Result T (ExecutionError E))
      (w' : World T E)
      → Going w0 fuel k l w
      → Done c l w r w'
      → Ended w0 r w'
  Done-Ended w0 fuel k l w (ok v) w' g d = elim d.called [
    | inl called ↦ (suc k, round-Called w0 fuel k l w w' g called d.later, omega arith)
    | inr (same, bad) ↦ absurd bad
  ]
  Done-Ended w0 fuel k l w (err e) w' g d = elim d.called [
    | inl called ↦ (
      suc k,
      round-Called w0 fuel k l w w' g called d.later,
      (inl (d.reports.0 ∙ g.numbered), d.reports.1, d.reports.2),
    )
    | inr (same, bad) ↦ (
      k,
      refused-Called w0 fuel k l w w' g same d.later,
      (inr (ground arith, bad), d.reports.1, d.reports.2),
    )
  ]

  Waits-Waiting :
      (w0 : World T E) (fuel k : ℕ) (l : Loop E) (w w' : World T E)
      → Going w0 fuel k l w
      → Waits c l w w'
      → Waiting w0 w'
  Waits-Waiting w0 fuel k l w w' g d = elim d.called [
    | inl called ↦ (suc k, round-Called w0 fuel k l w w' g called d.later)
    | inr same ↦ (k, refused-Called w0 fuel k l w w' g same d.later)
  ]

  Next-Going :
      (w0 : World T E) (fuel k : ℕ) (l l' : Loop E) (w w' : World T E)
      → Going w0 (suc fuel) k l w
      → Next c l w l' w'
      → Going w0 fuel (suc k) l' w'
  Next-Going w0 fuel k l l' w w' g n = record {
    numbered = ground arith;
    calls = (round-Called w0 (suc fuel) k l w w' g n.called n.later).in_order;
    enough = omega (arith, g.enough);
    capped = ground arith;
    small = g.small;
  }

  drive_loop-Ensures :
      (w0 : World T E) (fuel k : ℕ) (l : Loop E) (w : World T E)
      → Going w0 fuel k l w
      → Ensures Never (Ended w0) (Waiting w0) (drive_loop fuel c l w)
  unfolding drive_loop
  drive_loop-Ensures w0 zero k l w g = absurd (omega (arith, g.enough, g.capped))
  drive_loop-Ensures w0 (suc fuel) k l w g =
      Ensures-then _ _ _ _ _ (Done c l w) (Waits c l w) (round c l) w (round-Ensures c l w)
        (λ r w' d. Done-Ended w0 (suc fuel) k l w r w' g d)
        (λ w' q. Waits-Waiting w0 (suc fuel) k l w w' g q)
        (λ l' w' n. drive_loop-Ensures w0 fuel (suc k) l' w' (Next-Going w0 fuel k l l' w w' g n))

  -- With a cap of at least 1, as the builder demands, the loop is never out of fuel: it has returned or
  -- waits for a poll. It has then called the operation for the attempts 1 to `n` in this order, with `n`
  -- at most the cap, and each time handed it the attempt's number, the start of the pipeline and the
  -- time, which never goes back; a success comes after at least one call; and an error's context tells
  -- the number of calls (one more if a permit was refused for the next), the time since the start of the
  -- pipeline, and the breaker's state at the gate. This holds whatever other tasks do to the shared
  -- state meanwhile.
  pub drive-Ended :
      (w : World T E)
      → 1 ≤ c.retry.max_attempts
      → c.retry.max_attempts < 4294967296
      → Ensures Never (Ended w) (Waiting w) (drive c w)
  unfolding drive
  drive-Ended w lo hi = by_budget c.retry.budget
    where
      from_start :
          (v : World T E)
          → v.calls ≡ w.calls
          → v.clock ≡ w.clock
          → Going w c.retry.max_attempts 0 first_loop v
      from_start v same now = record {
        numbered = refl;
        calls = Handed-same {t = v.clock} same (omega arith) (none_yet (omega (arith, now)));
        enough = omega arith;
        capped = lo;
        small = hi;
      }

      by_budget :
          (o : Option RetryBudget)
          → Ensures Never
              (Ended w)
              (Waiting w)
              ((deposit_for o >>= λ _. drive_loop c.retry.max_attempts c first_loop) w)
      by_budget none = drive_loop-Ensures w _ 0 first_loop w (from_start w refl refl)
      by_budget (some _) =
          drive_loop-Ensures w _ 0 first_loop (set_bucket w (deposit w.shared.bucket))
            (from_start _ refl refl)
