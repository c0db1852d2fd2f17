-- ===== src/Engine/Pipeline/Paced.antt =====
-- The pace of the attempts of a call of the pipeline (`run_pipeline` of src/engine.rs).
use execution_policy.Base.{ℕ, ◌≤◌, ◌<◌, ◌≡◌, refl, ◌∙◌, sym, subst, List, arith}
use execution_policy.Base.Float.{Float64}
use execution_policy.Attempt.{Attempt}
use execution_policy.Outcome.{BreakerState}
use execution_policy.Engine.World.{World, Plan}
use execution_policy.Engine.Ensures.{Ensures, Awaits, Ensures-mono}
use execution_policy.Engine.Drive.{drive}
use execution_policy.Engine.Drive.Paced.{Paced, untried, drive-Keeps}
use execution_policy.Engine.Pipeline.{run_pipeline, deadline_of}
use execution_policy.Engine.Pipeline.Lift.{call_at, by_Frame, run_pipeline-Lifted}

module _ ⦃f : Float64⦄ {T E : Type 0} (plan : Plan T E) (w : World T E) where
  abbrev PacedCall : ℕ → List Attempt → Type 0
  PacedCall = Paced plan.retry (deadline_of w.clock plan.total_timeout) w.clock w.calls

  -- The call made `n` attempts, at most the cap, in the pace of the policy.
  pub record Kept (n : ℕ) (w' : World T E) : Type 0 where
    pub pace : PacedCall n w'.calls
    pub room : n ≤ plan.retry.max_attempts

  abbrev pub Keeps : World T E → Type 0
  Keeps w' = (n : ℕ) × Kept n w'

  record Fresh (w' : World T E) : Type 0 where
    same : w'.calls ≡ w.calls
    later : w.clock ≤ w'.clock

  Fresh-Keeps : (v v' : World T E) → v'.calls ≡ v.calls → Fresh v → Keeps v'
  Fresh-Keeps v v' e u = (
    0,
    record { pace = subst (λ xs. PacedCall 0 xs) (sym (e ∙ u.same)) untried; room = omega arith },
  )

  kept : (v v' : World T E) → v'.calls ≡ v.calls → Keeps v → Keeps v'
  kept v v' e (n, k) =
      (n, record { pace = subst (λ xs. PacedCall n xs) (sym e) k.pace; room = k.room })

  module _ (lo : 1 ≤ plan.retry.max_attempts) (hi : plan.retry.max_attempts < 4294967296) where
    drive-Kept :
        (s : BreakerState) (v : World T E)
        → Fresh v
        → Ensures (λ _ w'. Keeps w') (λ _ w'. Keeps w') Keeps (drive (call_at plan w s) v)
    drive-Kept s v u =
        Ensures-mono _ _ _ _ _ _ (drive (call_at plan w s) v)
          (drive-Keeps (call_at plan w s) v lo hi u.later) (λ r w' n. absurd n)
          (λ r w' q. since_start w' q.0 q.1) (λ w' q. since_start w' q.0 q.1)
      where
        since_start :
            (w' : World T E) (n : ℕ)
            → execution_policy.Engine.Drive.Paced.Kept (call_at plan w s) v n w'
            → Keeps w'
        since_start w' n k = (
          n,
          record {
            pace =
                subst
                  (λ b.
                    Paced plan.retry (deadline_of w.clock plan.total_timeout) w.clock b n w'.calls)
                  u.same k.pace;
            room = k.room;
          },
        )

    -- A call of a policy with a valid cap makes the attempts 1 to `n`, at most the cap, each in a round of
    -- its own, and the metadata of an attempt carries the time at which its round began. The rounds keep
    -- the pace: the first begins at the start of the call or later; that of a retry no earlier than the
    -- full backoff of the attempt before it, the policy's delay for that attempt with some random number
    -- and some error, after the round of that attempt began, and before the total deadline. Nothing is
    -- said of the wait for an attempt's own permit, which comes between the beginning of its round and
    -- the call of the operation. This holds when the call has ended and while it waits, whatever other
    -- tasks do.
    pub run_pipeline-Paced : Awaits (λ _ w'. Keeps w') Keeps (run_pipeline plan w)
    run_pipeline-Paced =
        run_pipeline-Lifted plan w Fresh Fresh (λ _ w'. Keeps w') (λ _ w'. Keeps w') Keeps
          (record {
            begins = record { same = refl; later = omega arith };
            acquires =
                by_Frame plan w Fresh Keeps
                  (λ v v' q u. record {
                    same = q.calls_kept ∙ u.same;
                    later = omega (arith, q.later, u.later);
                  })
                  (λ v u. Fresh-Keeps v v refl u);
            unasked = λ v e u. u;
            admits = λ v b s e g u. record { same = u.same; later = u.later };
            announces = λ v u. record { same = u.same; later = u.later };
            turns_away = λ v limit e s u. Fresh-Keeps v _ refl u;
            cuts_off = λ v b e g u. Fresh-Keeps v _ refl u;
            drives = drive-Kept;
            unvoted = λ r v e h. h;
            votes = λ r v b e h. kept v _ refl h;
            tells = λ r v to h. kept v _ refl h;
            drops = λ r v h. kept v _ refl h;
          })
