-- ===== src/Engine/Pipeline/Told.antt =====
-- What a registered hook is told of a call of the pipeline (`run_pipeline` of src/engine.rs,
-- src/event.rs).
use execution_policy.Base.{
  ℕ, suc, ◌≤◌, ◌<◌, ◌≡◌, refl, ◌∙◌, ap, inl, inr, true, none, ◌∷◌, ◌++◌, arith,
}
use execution_policy.Base.Float.{Float64}
use execution_policy.Outcome.{Result, err, ExecutionError, concurrency_rejected, BreakerState}
use execution_policy.Event.{Event}
use execution_policy.Engine.World.{World, Plan, context}
use execution_policy.Engine.Ensures.{Ensures, Awaits, Ensures-mono}
use execution_policy.Engine.Drive.{drive}
use execution_policy.Engine.Drive.Story.{closing_of}
use execution_policy.Engine.Drive.Told.{countdown, drive-Told}
use execution_policy.Engine.Pipeline.{run_pipeline}
use execution_policy.Engine.Pipeline.Lift.{call_at, note, by_Frame, run_pipeline-Lifted}
use execution_policy.Engine.Pipeline.Endings.{
  scheduled-change, closings-change, Same, Ended, once, turned_away, cut_off, overslept, Retried,
  Told, Untold, Same-Retried, Same-Untold, Frame-Same, moved,
}

module _ ⦃f : Float64⦄ {T E : Type 0} (plan : Plan T E) (w : World T E) where
  module _ (hook : plan.on_event ≡ true) where
    turned_away-Told :
        (v : World T E)
        → Same plan w v
        → Told plan w
            (err (concurrency_rejected (context 0 w.clock v.clock none BreakerState.disabled)))
            (note plan w Event.concurrency_rejected v)
    turned_away-Told v u = rw hook (
      0,
      record { in_order = u.none_scheduled; room = omega arith },
      turned_away refl refl refl (ap (λ log. Event.concurrency_rejected ∷ log) u.none_closed),
    )

    module _ (lo : 1 ≤ plan.retry.max_attempts) (hi : plan.retry.max_attempts < 4294967296) where
      loop-Told :
          (s : BreakerState) (v : World T E)
          → Same plan w v
          → Ensures (Told plan w) (Told plan w) (Untold plan w) (drive (call_at plan w s) v)
      loop-Told s v u =
          Ensures-mono _ _ _ _ _ _ (drive (call_at plan w s) v)
            (drive-Told (call_at plan w s) hook v lo hi) (λ r w' n. absurd n)
            (λ r w' d. (d.0, since_start d.0 w' d.1, ended d.0 r w' d.2))
            (λ w' q. (q.0, since_start q.0 w' q.1, q.2 ∙ u.none_closed))
        where
          since_start :
              (m : ℕ) (w' : World T E)
              → execution_policy.Engine.Drive.Told.Retried (call_at plan w s) v m w'
              → Retried plan w m w'
          since_start m w' c = record {
            in_order = c.in_order ∙ ap (λ log. countdown m ++ log) u.none_scheduled;
            room = c.room;
          }

          ended :
              (m : ℕ) (r : Result T (ExecutionError E)) (w' : World T E)
              → execution_policy.Engine.Drive.Told.Ended (call_at plan w s) v m r w'
              → Ended plan w m r w'
          ended m r w' (inl (n, e)) =
              once n (e ∙ ap (λ log. closing_of (suc m) r ∷ log) u.none_closed)
          ended m r w' (inr (n, late, e)) = overslept n late (e ∙ u.none_closed)

      -- With a hook and a valid cap a call of the pipeline has told of a retry after each of the attempts
      -- 1 to `m`, in this order and each once, and of no end while it waits. When it has ended, it has
      -- told exactly one end, which is the one that its result stands for, with the attempt `m + 1` that
      -- an error tells, too; or `ConcurrencyRejected` if the limit on whole calls rejects it. It has told
      -- no end if the breaker rejects the call, or if a total deadline passed in the sleep after attempt
      -- `m`, with the result `TotalTimeout`. This holds whatever other tasks do.
      pub run_pipeline-Told : Awaits (Told plan w) (Untold plan w) (run_pipeline plan w)
      run_pipeline-Told =
          run_pipeline-Lifted plan w (Same plan w) (Same plan w) (Told plan w) (Told plan w)
            (Untold plan w)
            (record {
              begins = record { none_scheduled = refl; none_closed = refl };
              acquires =
                  by_Frame plan w (Same plan w) (Untold plan w)
                    (λ v v' q u. Frame-Same plan w v v' u q) (λ v u. Same-Untold plan w v u);
              unasked = λ v e u. u;
              admits = λ v b s e g u. record {
                none_scheduled = u.none_scheduled;
                none_closed = u.none_closed;
              };
              announces = λ v u. record {
                none_scheduled =
                    scheduled-change plan.on_event BreakerState.half_open v.log ∙ u.none_scheduled;
                none_closed =
                    closings-change plan.on_event BreakerState.half_open v.log ∙ u.none_closed;
              };
              turns_away = λ v limit e s u. turned_away-Told v u;
              cuts_off = λ v b e g u. (
                0,
                Same-Retried plan w _
                    (record { none_scheduled = u.none_scheduled; none_closed = u.none_closed }),
                cut_off refl refl refl u.none_closed,
              );
              drives = loop-Told;
              unvoted = λ r v e h. h;
              votes = λ r v b e h. moved plan w r v _ refl refl h;
              tells = λ r v to h.
                  moved plan w r v _ (scheduled-change plan.on_event to v.log)
                    (closings-change plan.on_event to v.log) h;
              drops = λ r v h. moved plan w r v _ refl refl h;
            })
