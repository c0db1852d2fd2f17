-- ===== src/Router/Calls.antt =====
-- The calls that a run of the router makes (`run` of src/router.rs): on which member, and on which pool.
use execution_policy.Base.{
  arith, true, false, ℕ, ◌+◌, ◌≡◌, refl, Option, none, some, List, nth, u32,
}
use execution_policy.Base.Float.{Float64}
use execution_policy.Outcome.{
  Result, err, ExecutionError, operation, attempt_timeout, total_timeout, circuit_open,
  concurrency_rejected, retry_budget_exhausted, into_inner, is_ok, ErrorContext,
}
use execution_policy.Member.{Member}
use execution_policy.Router.{RouterPolicy, Pool, healthy_members}
use execution_policy.Router.Choose.{chosen, choose}
use execution_policy.Router.Rotation.{after_visit}
use execution_policy.Router.Run.{
  advance, after_attempt, Serve, RunState, first_loop, record_attempt, enter, leave,
}

module _ ⦃f : Float64⦄ {Key T E : Type 0} (r : RouterPolicy Key E) (serve : Serve T E)
    (p0 : Pool) where
  -- The loop of the run that starts on the pool `p0` comes to a round with this state and pool.
  pub data Reached : RunState E → Pool → Type 0 where
    at_start :
        (healthy : List ℕ) → (healthy_members r p0).0 ≡ healthy → Reached (first_loop healthy) p0
    after_round :
        {l : RunState E} {q q1 p1 : Pool} {i : ℕ} {t : Member Key} {o : Result T (ExecutionError E)}
        {last : Option E}
        → Reached l q
        → choose r l.healthy q ≡ (chosen i, q1)
        → nth r.targets i ≡ some t
        → serve i (enter q1 i) ≡ some (o, p1)
        → after_attempt r.advance_when t.id (u32 (l.attempts + 1)) o l.last_err ≡ advance last
        → Reached (after_visit l i last) (leave (record_attempt r.meter i q1.clock (is_ok o) p1) i)

  -- The run makes a call on the member `i`, on the pool `enter pool i`.
  pub record Made (i : ℕ) : Type 0 where
    pub state : RunState E
    pub found : Pool
    pub pool : Pool
    pub reached : Reached state found
    pub chose : choose r state.healthy found ≡ (chosen i, pool)

  -- An error of the engine leaves the loop's last error as it is.
  passed-advance :
      (id : Key) (n : ℕ) (e : ExecutionError E) (last : Option E)
      → into_inner e ≡ none
      → after_attempt {Key = Key} {T = T} r.advance_when id n (err e) last ≡ advance last
  unfolding after_attempt
  passed-advance id n (operation source c) last h = ground arith
  passed-advance id n (attempt_timeout c) last h = refl
  passed-advance id n (total_timeout c) last h = refl
  passed-advance id n (circuit_open c) last h = refl
  passed-advance id n (concurrency_rejected c) last h = refl
  passed-advance id n (retry_budget_exhausted c) last h = refl

  moved-advance :
      (id : Key) (n : ℕ) (source : E) (c : ErrorContext) (last : Option E)
      → r.advance_when source ≡ true
      → after_attempt {Key = Key} {T = T} r.advance_when id n (err (operation source c)) last
        ≡ advance (some source)
  unfolding after_attempt
  moved-advance id n source c last h = rw h refl

  pub Reached-passed :
      (i : ℕ) (p1 : Pool) (t : Member Key) (e : ExecutionError E) (call : Made i)
      → nth r.targets i ≡ some t
      → into_inner e ≡ none
      → serve i (enter call.pool i) ≡ some (err e, p1)
      → Reached
          (after_visit call.state i call.state.last_err)
          (leave (record_attempt r.meter i call.pool.clock false p1) i)
  Reached-passed i p1 t e call found h g =
      after_round call.reached call.chose found g (passed-advance t.id _ e call.state.last_err h)

  pub Reached-moved :
      (i : ℕ) (p1 : Pool) (t : Member Key) (source : E) (c : ErrorContext) (call : Made i)
      → nth r.targets i ≡ some t
      → r.advance_when source ≡ true
      → serve i (enter call.pool i) ≡ some (err (operation source c), p1)
      → Reached
          (after_visit call.state i (some source))
          (leave (record_attempt r.meter i call.pool.clock false p1) i)
  Reached-moved i p1 t source c call found h g =
      after_round call.reached call.chose found g
        (moved-advance t.id _ source c call.state.last_err h)
