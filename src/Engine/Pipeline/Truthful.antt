-- ===== src/Engine/Pipeline/Truthful.antt =====
-- The results of a call of the pipeline (`run_pipeline` of src/engine.rs) are true.
use execution_policy.Base.{◌≤◌, ◌<◌, arith}
use execution_policy.Base.Float.{Float64}
use execution_policy.Outcome.{Result, ExecutionError, BreakerState}
use execution_policy.Engine.World.{World, Plan, Flow, next, finish, pending, stuck}
use execution_policy.Engine.Ensures.{Ensures, Awaits}
use execution_policy.Engine.Awaits.Polls.{acquire_permit-Safe}
use execution_policy.Engine.Drive.{drive}
use execution_policy.Engine.Drive.Attempts.{Never, Ended, Waiting, drive-Ended}
use execution_policy.Engine.Drive.Truthful.{Says, drive-Says}
use execution_policy.Engine.Evidence.{Evidence, Sane}
use execution_policy.Engine.Pipeline.{run_pipeline, deadline_of}
use execution_policy.Engine.Pipeline.Lift.{call_at, run_pipeline-Lifted}

module _ ⦃f : Float64⦄ {T E : Type 0} (plan : Plan T E) (w : World T E) where
  -- There is evidence for the result in the polls of the call and on the clock.
  abbrev pub Justified : Result T (ExecutionError E) → World T E → Type 0
  Justified r w' = Evidence plan w.clock (deadline_of w.clock plan.total_timeout) w.polls r w'.clock

  abbrev Fine : World T E → Type 0
  Fine = Sane plan w.clock (deadline_of w.clock plan.total_timeout) w.polls

  module _ (lo : 1 ≤ plan.retry.max_attempts) (hi : plan.retry.max_attempts < 4294967296) where
    drive-Justified :
        (s : BreakerState) (v : World T E)
        → Fine v
        → Ensures Justified Justified (λ _. Unit) (drive (call_at plan w s) v)
    drive-Justified s v u =
        joined (drive (call_at plan w s) v) (drive-Ended (call_at plan w s) v lo hi)
          (drive-Says (call_at plan w s) w.polls v u)
      where
        joined :
            (x : Flow T E (Result T (ExecutionError E)))
            → Ensures
                (Never (call_at plan w s))
                (Ended (call_at plan w s) v)
                (Waiting (call_at plan w s) v)
                x
            → Says (call_at plan w s) w.polls x
            → Ensures Justified Justified (λ _. Unit) x
        joined (next r w') h k = absurd h
        joined (finish r w') h k = k
        joined (pending w') h k = tt
        joined (stuck w') h k = h

    pub run_pipeline-Justified : Awaits Justified (λ _. Unit) (run_pipeline plan w)
    run_pipeline-Justified =
        run_pipeline-Lifted plan w Fine Fine Justified Justified (λ _. Unit)
          (record {
            begins = record { rest = λ p m. m; begun = omega arith };
            acquires = λ limit v e s u.
                acquire_permit-Safe plan w.clock (deadline_of w.clock plan.total_timeout) w.polls
                  limit _ v u;
            unasked = λ v e u. u;
            admits = λ v b s e g u. record { rest = u.rest; begun = u.begun };
            announces = λ v u. record { rest = u.rest; begun = u.begun };
            turns_away = λ v limit e s u. (limit, e);
            cuts_off = λ v b e g u. (b, e);
            drives = drive-Justified;
            unvoted = λ r v e h. h;
            votes = λ r v b e h. h;
            tells = λ r v to h. h;
            drops = λ r v h. h;
          })
