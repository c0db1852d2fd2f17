-- ===== src/Router/Sourced.antt =====
-- Where the result of a run of the router comes from, when the engine serves its members (`run` of
-- src/router.rs, `run_pipeline` of src/engine.rs).
use execution_policy.Base.{
  ℕ, ◌≤◌, ◌<◌, ◌≡◌, refl, sym, subst, Instant, Option, none, some, List, [], ◌∷◌, arith, inl, inr,
}
use execution_policy.Base.Float.{Float64}
use execution_policy.Outcome.{
  Result, ok, err, ExecutionError, operation, attempt_timeout, total_timeout, circuit_open,
  concurrency_rejected, retry_budget_exhausted, into_inner,
}
use execution_policy.Builder.{Policy}
use execution_policy.Engine.World.{World, Poll, Flow, next, finish, pending, stuck}
use execution_policy.Engine.Ensures.{Awaits}
use execution_policy.Engine.Pipeline.Truthful.{Justified, run_pipeline-Justified}
use execution_policy.Policy.Runs
use execution_policy.Router.{RouterPolicy, Pool, all_unavailable, exhausted, score_error}
use execution_policy.Router.Least.{In}
use execution_policy.Router.Lift.{Gives, Rounds, run-Lifted}
use execution_policy.Router.Calls.{Reached, at_start, Made, Reached-passed, Reached-moved}
use execution_policy.Router.Choose.{Choice, choose}
use execution_policy.Router.Members.{Has}
use execution_policy.Router.Run.{
  Routed, served, failed, waiting, panic, out_of_fuel, spent, Journey, Serve, RunState, run, enter,
}
use execution_policy.Router.Serving.{polls-with_breaker, world_at, answered, serve_by}

module _ ⦃f : Float64⦄ {Key T E : Type 0} (r : RouterPolicy Key E) (serve : Serve T E) (p0 : Pool)
    (Gave : ℕ → Pool → Result T E → Type 0) (Spared Waits : ℕ → Pool → Type 0) where
  -- The run that starts on `p0` made a call on the member `i` of which this holds.
  abbrev Called : (Pool → Type 0) → ℕ → Type 0
  Called P i = (call : Made r serve p0 i) × P (enter call.pool i)

  -- What the call on a member, on this pool, says of its operation.
  abbrev Yields : ℕ → Pool → Option (Result T (ExecutionError E) × Pool) → Type 0
  Yields i q none = Waits i q
  Yields i q (some (ok v, _)) = Gave i q (ok v)
  Yields i q (some (err (operation source _), _)) = Gave i q (err source)
  Yields i q (some (err _, _)) = Spared i q

  -- Where a result comes from.
  abbrev pub From : Routed Key T E → List ℕ → Type 0
  From (served s) [] = ⊥
  From (served s) (i ∷ _) = Called (λ q. Gave i q (ok s.value)) i
  From (failed (exhausted e)) tried = (i : ℕ) × Has i tried × Called (λ q. Gave i q (err e)) i
  From (failed (all_unavailable _)) tried = (i : ℕ) → Has i tried → Called (λ q. Spared i q) i
  From (failed (score_error _ _)) tried = Unit {0}
  From waiting [] = ⊥
  From waiting (i ∷ _) = Called (λ q. Waits i q) i
  From panic tried = Unit {0}
  From out_of_fuel tried = ⊥

  -- The error that the loop keeps is one that a call on a member tried gave.
  abbrev Traced : Option E → List ℕ → Type 0
  Traced none tried = (i : ℕ) → Has i tried → Called (λ q. Spared i q) i
  Traced (some e) tried = (i : ℕ) × Has i tried × Called (λ q. Gave i q (err e)) i

  record Between (l : RunState E) (q : Pool) : Type 0 where
    reached : Reached r serve p0 l q
    traced : Traced l.last_err l.tried

  record Chosen (l : RunState E) (c : Choice Key × Pool) : Type 0 where
    found : Pool
    reached : Reached r serve p0 l found
    chose : choose r l.healthy found ≡ c
    traced : Traced l.last_err l.tried

  abbrev FromBy : Journey Key T E → Type 0
  FromBy j = From j.0 j.1

  -- An error without a source leaves the kept one as it is.
  spared :
      (i : ℕ) (q p1 : Pool) (e : ExecutionError E)
      → into_inner e ≡ none
      → Yields i q (some (err e, p1))
      → Spared i q
  spared i q p1 (operation source c) h y = ground arith
  spared i q p1 (attempt_timeout c) h y = y
  spared i q p1 (total_timeout c) h y = y
  spared i q p1 (circuit_open c) h y = y
  spared i q p1 (concurrency_rejected c) h y = y
  spared i q p1 (retry_budget_exhausted c) h y = y

  Traced-more :
      (last : Option E) (i : ℕ) (tried : List ℕ)
      → Called (λ q. Spared i q) i
      → Traced last tried
      → Traced last (i ∷ tried)
  Traced-more none i tried y k =
      λ j m. elim m [ inl e ↦ subst (λ j. Called (λ q. Spared j q) j) (sym e) y | inr n ↦ k j n ]
  Traced-more (some e) i tried y (j, m, gave) = (j, inr m, gave)

  spent-From :
      (last : Option E) (soonest : Option Instant) (tried : List ℕ) (p : Pool)
      → Traced last tried
      → FromBy (spent last soonest, tried, p)
  spent-From none soonest tried p k = k
  spent-From (some e) soonest tried p k = k

  module _ (yields : (i : ℕ) (q : Pool) → Yields i q (serve i q)) (soonest : Option Instant) where
    abbrev GaveIt : RunState E → ℕ → Pool → Option (Result T (ExecutionError E) × Pool) → Type 0
    GaveIt = Gives r serve soonest (λ l q. Between l q) (λ l c. Chosen l c) FromBy

    abbrev made :
        (l : RunState E) (i : ℕ) (p : Pool) (o : Option (Result T (ExecutionError E) × Pool))
        → GaveIt l i p o
        → Made r serve p0 i
    made l i p o g = record {
      state = l;
      found = g.before.found;
      pool = p;
      reached = g.before.reached;
      chose = g.before.chose;
    }

    yielded :
        (l : RunState E) (i : ℕ) (p : Pool) (o : Option (Result T (ExecutionError E) × Pool))
        → GaveIt l i p o
        → Yields i (enter p i) o
    yielded l i p o g = subst (λ x. Yields i (enter p i) x) g.gives (yields i (enter p i))

    rounds-From : Rounds r serve soonest (λ l q. Between l q) (λ l c. Chosen l c) FromBy
    rounds-From = record {
      draws = λ l p d k. record { found = p; reached = k.reached; chose = refl; traced = k.traced };
      scores = λ l p id value k. tt;
      panics = λ l c k. tt;
      waits = λ l i p g. (made l i p none g, yielded l i p none g);
      serves = λ l i p p1 t v e g. (made l i p _ g, yielded l i p _ g);
      fails_fast = λ l i p p1 source c stays g. (i, inl refl, (made l i p _ g, yielded l i p _ g));
      advances = λ l i p p1 t source c found moves g. record {
        reached = Reached-moved r serve p0 i p1 t source c (made l i p _ g) found moves g.gives;
        traced = (i, inl refl, (made l i p _ g, yielded l i p _ g));
      };
      passes_over = λ l i p p1 t e found no_source g. record {
        reached = Reached-passed r serve p0 i p1 t e (made l i p _ g) found no_source g.gives;
        traced =
            Traced-more l.last_err i l.tried
              (made l i p _ g, spared i (enter p i) p1 e no_source (yielded l i p _ g))
              g.before.traced;
      };
      ends = λ l p empty k. spent-From l.last_err soonest l.tried p k.traced;
    }

  run-From : ((i : ℕ) (q : Pool) → Yields i q (serve i q)) → FromBy (run r serve p0)
  run-From yields =
      run-Lifted r serve p0 (λ l q. Between l q) (λ l c. Chosen l c) FromBy
        (λ soonest. rounds-From yields soonest)
        (λ healthy e. record { reached = at_start healthy e; traced = λ i h. absurd h })

module _ ⦃f : Float64⦄ {T E : Type 0} (policies : ℕ → Policy T E) (worlds : ℕ → World T E) where
  -- The call of the engine for the member `i` on a pool.
  abbrev call_on : ℕ → Pool → Flow T E (Result T (ExecutionError E))
  call_on i q = Runs.run (policies i) (world_at (worlds i) i q)

  -- The result of the call on this pool carries that of the operation.
  abbrev Carries : Result T (ExecutionError E) → Result T E → Type 0
  Carries (ok v) x = x ≡ ok v
  Carries (err (operation source _)) x = x ≡ err source
  Carries (err _) x = ⊥

  -- The call ended with what a poll of it found the operation's future ready with.
  abbrev pub GaveAt : ℕ → Pool → Result T E → Type 0
  GaveAt i q x =
      ((o : Result T (ExecutionError E)) × (w : World T E) × (call_on i q ≡ next o w) × Carries o x)
      × ((poll : Poll T E) × In poll (worlds i).polls × (poll.op ≡ some x))

  -- The call ended in an error of the engine, not of the operation.
  abbrev pub SparedAt : ℕ → Pool → Type 0
  SparedAt i q =
      (w : World T E) × (e : ExecutionError E) × (call_on i q ≡ next (err e) w)
      × (into_inner e ≡ none)

  -- The call waits for a poll.
  abbrev pub WaitsAt : ℕ → Pool → Type 0
  WaitsAt i q = (w : World T E) × (call_on i q ≡ pending w)

  module _ (meanwhile : ℕ → Pool → Pool) (lo : (i : ℕ) → 1 ≤ (policies i).plan.retry.max_attempts)
      (hi : (i : ℕ) → (policies i).plan.retry.max_attempts < 4294967296) {Key : Type 0}
      (r : RouterPolicy Key E) (p : Pool) where
    answered-Yields :
        (i : ℕ) (q : Pool) (pool_of : World T E → Pool) (x : Flow T E (Result T (ExecutionError E)))
        → call_on i q ≡ x
        → Awaits (Justified (policies i).plan (world_at (worlds i) i q)) (λ _. Unit) x
        → Yields r
            (serve_by policies worlds meanwhile)
            p
            GaveAt
            SparedAt
            WaitsAt
            i
            q
            (answered pool_of x)
    answered-Yields i q pool_of (next (ok v) w) e j = (
      (_, w, e, refl),
      (j.poll, subst (In j.poll) (polls-with_breaker _ (q.breakers i)) j.came, j.ready),
    )
    answered-Yields i q pool_of (next (err (operation source c)) w) e j = (
      (_, w, e, refl),
      (j.poll, subst (In j.poll) (polls-with_breaker _ (q.breakers i)) j.came, j.ready),
    )
    answered-Yields i q pool_of (next (err (attempt_timeout c)) w) e j = (w, _, e, refl)
    answered-Yields i q pool_of (next (err (total_timeout c)) w) e j = (w, _, e, refl)
    answered-Yields i q pool_of (next (err (circuit_open c)) w) e j = (w, _, e, refl)
    answered-Yields i q pool_of (next (err (concurrency_rejected c)) w) e j = (w, _, e, refl)
    answered-Yields i q pool_of (next (err (retry_budget_exhausted c)) w) e j = (w, _, e, refl)
    answered-Yields i q pool_of (finish x w) e j = absurd j
    answered-Yields i q pool_of (pending w) e j = (w, e)
    answered-Yields i q pool_of (stuck w) e j = absurd j

    -- When the engine serves the members, each under a policy with a valid cap, the result of a run of
    -- the router comes from the calls that this run makes, each on the pool as its round leaves it. A
    -- value that is served is the result of the call on the member tried last, and the error of
    -- `Exhausted` that of a call on a member that was tried; either is what the operation's future gave at
    -- a poll of that call. A run ends in `AllUnavailable` only if the call on each member that it tried
    -- ended in an error of the engine, which has no error of the operation. A run that waits does so
    -- for a poll of its call on the member tried last, and none is out of fuel. This holds whatever
    -- other tasks do to the shared state and the pool meanwhile.
    pub run-Sourced :
        let j = run r (serve_by policies worlds meanwhile) p in
        From r (serve_by policies worlds meanwhile) p GaveAt SparedAt WaitsAt j.0 j.1
    run-Sourced = run-From r (serve_by policies worlds meanwhile) p GaveAt SparedAt WaitsAt (λ i q.
        answered-Yields i q _ (call_on i q) refl
          (run_pipeline-Justified (policies i).plan (world_at (worlds i) i q) (lo i) (hi i)))
