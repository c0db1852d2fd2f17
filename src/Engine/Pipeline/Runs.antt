-- ===== src/Engine/Pipeline/Runs.antt =====
-- What a call of the pipeline comes to (`run_pipeline` of src/engine.rs), with all its layers.
use execution_policy.Base.{ℕ, ◌+◌, ◌-◌, ◌≤◌, ◌<◌, ◌≡◌, refl, ◌∙◌, ◌⊎◌, inl, true, arith}
use execution_policy.Base.Float.{Float64}
use execution_policy.Outcome.{
  Result, ok, err, ExecutionError, context_of, is_rejected, BreakerState,
}
use execution_policy.Engine.World.{World, Plan}
use execution_policy.Engine.Ensures.{Ensures, Awaits, Ensures-mono}
use execution_policy.Engine.Awaits.Frame.{Frame}
use execution_policy.Engine.Drive.{Call, drive}
use execution_policy.Engine.Drive.Handed.{Handed, none_yet, Handed-same, Handed-sooner}
use execution_policy.Engine.Drive.Attempts.{Never, Ended, Waiting, drive-Ended}
use execution_policy.Engine.Pipeline.Lift.{call_at, by_Frame, run_pipeline-Lifted}
use execution_policy.Engine.Pipeline.{run_pipeline}

module _ ⦃f : Float64⦄ {T E : Type 0} (plan : Plan T E) (w : World T E) where
  -- The operation was called for the attempts 1 to `n`, in this order, since the start in `w`.
  pub record Called (n : ℕ) (w' : World T E) : Type 0 where
    pub in_order : Handed w.clock w.calls w.clock n w'.clock w'.calls
    pub capped : n ≤ plan.retry.max_attempts

  abbrev pub Told : ℕ → Result T (ExecutionError E) → World T E → Type 0
  Told n (ok v) w' = 1 ≤ n
  Told n (err e) w' =
      let x = context_of e in
      ((x.attempts ≡ n) ⊎ ((x.attempts ≡ n + 1) × (is_rejected e ≡ true)))
      × (x.elapsed ≡ w'.clock - w.clock)

  abbrev pub Ran : Result T (ExecutionError E) → World T E → Type 0
  Ran r w' = (n : ℕ) × Called n w' × Told n r w'

  abbrev pub Waits : World T E → Type 0
  Waits w' = (n : ℕ) × Called n w'

  -- Nothing was called yet.
  record Untouched (w' : World T E) : Type 0 where
    calls_kept : w'.calls ≡ w.calls
    later : w.clock ≤ w'.clock

  Frame-Untouched : (w' : World T E) → Frame w w' → Untouched w'
  Frame-Untouched w' q = record { calls_kept = q.calls_kept; later = q.later }

  Untouched-Called : (w' : World T E) → Untouched w' → Called 0 w'
  Untouched-Called w' u = record {
    in_order = Handed-same u.calls_kept u.later (none_yet (omega arith));
    capped = omega arith;
  }

  Called-moved :
      (n : ℕ) (v v' : World T E)
      → v'.calls ≡ v.calls
      → v'.clock ≡ v.clock
      → Called n v
      → Called n v'
  Called-moved n v v' same now c = record {
    in_order = Handed-same same (omega (arith, now)) c.in_order;
    capped = c.capped;
  }

  moved :
      (r : Result T (ExecutionError E)) (v v' : World T E)
      → v'.calls ≡ v.calls
      → v'.clock ≡ v.clock
      → Ran r v
      → Ran r v'
  moved (ok x) v v' same now (n, c, t) = (n, Called-moved n v v' same now c, t)
  moved (err e) v v' same now (n, c, t) = (n, Called-moved n v v' same now c, (t.0, ground arith))

  drive-Ran :
      (s : BreakerState) (v : World T E)
      → 1 ≤ plan.retry.max_attempts
      → plan.retry.max_attempts < 4294967296
      → Untouched v
      → Ensures Ran Ran Waits (drive (call_at plan w s) v)
  drive-Ran s v lo hi u =
      Ensures-mono _ _ _ _ _ _ (drive (call_at plan w s) v) (drive-Ended (call_at plan w s) v lo hi)
        (λ r w' n. absurd n) (λ r w' d. ended r w' d) (λ w' q. (q.0, since_start q.0 w' q.1))
    where
      since_start :
          (n : ℕ) (w' : World T E)
          → execution_policy.Engine.Drive.Attempts.Called (call_at plan w s) v n w'
          → Called n w'
      since_start n w' c = record {
        in_order = Handed-sooner u.calls_kept u.later c.in_order;
        capped = c.capped;
      }

      ended :
          (r : Result T (ExecutionError E)) (w' : World T E)
          → Ended (call_at plan w s) v r w'
          → Ran r w'
      ended (ok x) w' (n, c, t) = (n, since_start n w' c, t)
      ended (err e) w' (n, c, t) = (n, since_start n w' c, (t.0, t.1))

  -- With a valid cap a call of the pipeline ends, or waits for a poll. It has then called the operation
  -- for the attempts 1 to `n` in this order, with `n` at most the cap, whatever layer ended it, and each
  -- time handed it the attempt's number, the start of the call and the time, which never goes back. A
  -- success comes after at least one call. An error tells the number of calls (one more if a permit was
  -- refused for the next attempt), and the time from the start of the call to its end. This holds for
  -- every plan, and whatever other tasks do to the shared state meanwhile.
  pub run_pipeline-Ran :
      1 ≤ plan.retry.max_attempts
      → plan.retry.max_attempts < 4294967296
      → Awaits Ran Waits (run_pipeline plan w)
  run_pipeline-Ran lo hi = run_pipeline-Lifted plan w Untouched Untouched Ran Ran Waits (record {
    begins = record { calls_kept = refl; later = omega arith };
    acquires =
        by_Frame plan w Untouched Waits
          (λ v v' q u. record {
            calls_kept = q.calls_kept ∙ u.calls_kept;
            later = omega (arith, q.later, u.later);
          })
          (λ v u. (0, Untouched-Called v u));
    unasked = λ v e u. u;
    admits = λ v b s e g u. record { calls_kept = u.calls_kept; later = u.later };
    announces = λ v u. record { calls_kept = u.calls_kept; later = u.later };
    turns_away = λ v limit e s u. (
      0,
      Untouched-Called _ (record { calls_kept = u.calls_kept; later = u.later }),
      (inl refl, refl),
    );
    cuts_off = λ v b e g u. (
      0,
      Untouched-Called _ (record { calls_kept = u.calls_kept; later = u.later }),
      (inl refl, refl),
    );
    drives = λ s v u. drive-Ran s v lo hi u;
    unvoted = λ r v e h. h;
    votes = λ r v b e h. moved r v _ refl refl h;
    tells = λ r v to h. moved r v _ refl refl h;
    drops = λ r v h. moved r v _ refl refl h;
  })
