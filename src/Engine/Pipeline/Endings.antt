-- ===== src/Engine/Pipeline/Endings.antt =====
-- How a registered hook is told of the end of a call (`run_pipeline` of src/engine.rs, src/event.rs).
use execution_policy.Base.{
  ℕ, suc, ◌≤◌, ◌≡◌, refl, ◌∙◌, ap, Bool, true, false, List, ◌∷◌, ◌++◌, arith,
}
use execution_policy.Base.Float.{Float64}
use execution_policy.Outcome.{
  Result, ok, err, ExecutionError, is_rejected, is_circuit_open, BreakerState,
}
use execution_policy.Event.{Event, emit}
use execution_policy.Engine.World.{World, Plan}
use execution_policy.Engine.Awaits.Frame.{Frame}
use execution_policy.Engine.Drive.Story.{scheduled, closings, closing_of, IsTotalTimeout}
use execution_policy.Engine.Drive.Told.{countdown, Numbered}

abbrev pub IsError :
    {T E : Type 0} → (ExecutionError E → Bool) → Result T (ExecutionError E) → Type 0
IsError p (ok v) = ⊥
IsError p (err e) = p e ≡ true

-- A change of the breaker's state is neither a retry nor an end.
pub scheduled-change :
    (hook : Bool) (to : BreakerState) (log : List Event)
    → scheduled (emit hook (Event.circuit_state_changed to) log) ≡ scheduled log
scheduled-change true to log = refl
scheduled-change false to log = refl

pub closings-change :
    (hook : Bool) (to : BreakerState) (log : List Event)
    → closings (emit hook (Event.circuit_state_changed to) log) ≡ closings log
closings-change true to log = refl
closings-change false to log = refl

module _ ⦃f : Float64⦄ {T E : Type 0} (plan : Plan T E) (w : World T E) where
  -- No retry and no end was told since `w`.
  pub record Same (w' : World T E) : Type 0 where
    pub none_scheduled : scheduled w'.log ≡ scheduled w.log
    pub none_closed : closings w'.log ≡ closings w.log

  -- How the end of a call with the result `r` is told, after a retry was told for `m` attempts:
  pub data Ended (m : ℕ) (r : Result T (ExecutionError E)) (w' : World T E) : Type 0 where
    -- once, by the event that the result stands for, in the next attempt;
    once :
        Numbered (suc m) r → closings w'.log ≡ closing_of (suc m) r ∷ closings w.log → Ended m r w'
    -- once, by the limit on whole calls, before the first attempt;
    turned_away :
        m ≡ 0
        → Numbered 0 r
        → IsError is_rejected r
        → closings w'.log ≡ Event.concurrency_rejected ∷ closings w.log
        → Ended m r w'
    -- or not at all: the breaker rejects the call, or a deadline passed in a sleep.
    cut_off :
        m ≡ 0
        → Numbered 0 r
        → IsError is_circuit_open r
        → closings w'.log ≡ closings w.log
        → Ended m r w'
    overslept : Numbered m r → IsTotalTimeout r → closings w'.log ≡ closings w.log → Ended m r w'

  -- A retry was told after each of the attempts 1 to `m`.
  pub record Retried (m : ℕ) (w' : World T E) : Type 0 where
    pub in_order : scheduled w'.log ≡ countdown m ++ scheduled w.log
    pub room : m ≤ plan.retry.max_attempts

  abbrev pub Told : Result T (ExecutionError E) → World T E → Type 0
  Told r w' = (m : ℕ) × Retried m w' × Ended m r w'

  abbrev pub Untold : World T E → Type 0
  Untold w' = (m : ℕ) × Retried m w' × (closings w'.log ≡ closings w.log)

  pub Same-Retried : (w' : World T E) → Same w' → Retried 0 w'
  Same-Retried w' u = record { in_order = u.none_scheduled; room = omega arith }

  pub Same-Untold : (w' : World T E) → Same w' → Untold w'
  Same-Untold w' u = (0, Same-Retried w' u, u.none_closed)

  pub Frame-Same : (v v' : World T E) → Same v → Frame v v' → Same v'
  Frame-Same v v' u q = record {
    none_scheduled = ap (λ log. scheduled log) q.log_kept ∙ u.none_scheduled;
    none_closed = ap (λ log. closings log) q.log_kept ∙ u.none_closed;
  }

  Ended-moved :
      (m : ℕ) (r : Result T (ExecutionError E)) (v v' : World T E)
      → closings v'.log ≡ closings v.log
      → Ended m r v
      → Ended m r v'
  Ended-moved m r v v' same (once n e) = once n (same ∙ e)
  Ended-moved m r v v' same (turned_away z n x e) = turned_away z n x (same ∙ e)
  Ended-moved m r v v' same (cut_off z n x e) = cut_off z n x (same ∙ e)
  Ended-moved m r v v' same (overslept n x e) = overslept n x (same ∙ e)

  pub moved :
      (r : Result T (ExecutionError E)) (v v' : World T E)
      → scheduled v'.log ≡ scheduled v.log
      → closings v'.log ≡ closings v.log
      → Told r v
      → Told r v'
  moved r v v' s e (m, t, d) =
      (m, record { in_order = s ∙ t.in_order; room = t.room }, Ended-moved m r v v' e d)
