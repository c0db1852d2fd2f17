-- ===== src/Router/Lift.antt =====
-- What the rounds of the router's loop keep, a run ensures (`run` of src/router.rs).
use execution_policy.Base.{
  ℕ, zero, suc, ◌+◌, ◌<◌, ◌≡◌, refl, ap, inl, inr, Instant, Bool, true, false, Option, none, some,
  List, [], ◌∷◌, arith, length, nth, u32, Bool-cases,
}
use execution_policy.Base.Float.{Float64, F64}
use execution_policy.Outcome.{
  Result, ok, err, ExecutionError, operation, attempt_timeout, total_timeout, circuit_open,
  concurrency_rejected, retry_budget_exhausted, is_ok, into_inner, ErrorContext,
}
use execution_policy.Member.{Member}
use execution_policy.Router.{RouterPolicy, Pool, exhausted, score_error, healthy_members}
use execution_policy.Router.Choose.{Choice, chosen, bad_score, panicked, choose}
use execution_policy.Router.Chosen.{Picked, choose-Picked}
use execution_policy.Router.Drawn.{Drew, choose-Drew}
use execution_policy.Router.Members.{Has, length-others_lt}
use execution_policy.Router.Rotation.{after_visit}
use execution_policy.Router.Run.{
  served, failed, waiting, panic, after_attempt, spent, Journey, Serve, RunState, resolve, visit,
  proceed, round, run_loop, first_loop, start, run, record_attempt, enter, leave,
}

module _ ⦃f : Float64⦄ {Key T E : Type 0} (r : RouterPolicy Key E) (serve : Serve T E)
    (soonest : Option Instant) where
  -- The pool that the call on `i` gave, once it is recorded and its guard has dropped.
  abbrev pub back : ℕ → Instant → Bool → Pool → Pool
  back i attempt_start is_ok p1 = leave (record_attempt r.meter i attempt_start is_ok p1) i

  module _ (Inv : RunState E → Pool → Type 0) (Mid : RunState E → Choice Key × Pool → Type 0)
      (Post : Journey Key T E → Type 0) where
    -- The call on the member that was chosen gives this.
    pub record Gives (l : RunState E) (i : ℕ) (p : Pool)
        (o : Option (Result T (ExecutionError E) × Pool)) : Type 0 where
      pub before : Mid l (chosen i, p)
      pub healthy : Has i l.healthy
      pub gives : serve i (enter p i) ≡ o

    -- What holds between two rounds, once a round has chosen, and at the end.
    pub record Rounds : Type 0 where
      pub draws :
          (l : RunState E) (p : Pool)
          → Drew p (choose r l.healthy p).1
          → Inv l p
          → Mid l (choose r l.healthy p)
      pub scores :
          (l : RunState E) (p : Pool) (id : Key) (value : F64)
          → Mid l (bad_score id value, p)
          → Post (failed (score_error id value), l.tried, p)
      pub panics : (l : RunState E) (c : Choice Key × Pool) → Mid l c → Post (panic, l.tried, c.1)
      pub waits :
          (l : RunState E) (i : ℕ) (p : Pool)
          → Gives l i p none
          → Post (waiting, i ∷ l.tried, enter p i)
      pub serves :
          (l : RunState E) (i : ℕ) (p p1 : Pool) (t : Member Key) (v : T)
          → nth r.targets i ≡ some t
          → Gives l i p (some (ok v, p1))
          → Post (
            served (record { value = v; target = t.id; attempts = u32 (l.attempts + 1) }),
            i ∷ l.tried,
            back i p.clock true p1,
          )
      pub fails_fast :
          (l : RunState E) (i : ℕ) (p p1 : Pool) (source : E) (c : ErrorContext)
          → r.advance_when source ≡ false
          → Gives l i p (some (err (operation source c), p1))
          → Post (failed (exhausted source), i ∷ l.tried, back i p.clock false p1)
      pub advances :
          (l : RunState E) (i : ℕ) (p p1 : Pool) (t : Member Key) (source : E) (c : ErrorContext)
          → nth r.targets i ≡ some t
          → r.advance_when source ≡ true
          → Gives l i p (some (err (operation source c), p1))
          → Inv (after_visit l i (some source)) (back i p.clock false p1)
      pub passes_over :
          (l : RunState E) (i : ℕ) (p p1 : Pool) (t : Member Key) (e : ExecutionError E)
          → nth r.targets i ≡ some t
          → into_inner e ≡ none
          → Gives l i p (some (err e, p1))
          → Inv (after_visit l i l.last_err) (back i p.clock false p1)
      pub ends :
          (l : RunState E) (p : Pool)
          → l.healthy ≡ []
          → Inv l p
          → Post (spent l.last_err soonest, l.tried, p)

    module _ (rounds : Rounds) where
      -- What the rest of the loop comes to, once `i` is no longer one of the healthy members.
      abbrev Onward : (RunState E → Pool → Journey Key T E) → RunState E → ℕ → Type 0
      Onward again l i =
          (last : Option E) (p : Pool)
          → Inv (after_visit l i last) p
          → Post (again (after_visit l i last) p)

      resolve-Lifted :
          (again : RunState E → Pool → Journey Key T E) (l : RunState E) (i : ℕ) (p p1 : Pool)
          (t : Member Key) (o : Result T (ExecutionError E))
          → nth r.targets i ≡ some t
          → Gives l i p (some (o, p1))
          → Onward again l i
          → Post (
              resolve again l i
                (back i p.clock (is_ok o) p1)
                (after_attempt r.advance_when t.id (u32 (l.attempts + 1)) o l.last_err))
      unfolding after_attempt
      resolve-Lifted again l i p p1 t (ok v) e g k = rounds.serves l i p p1 t v e g
      resolve-Lifted again l i p p1 t (err (operation source c)) e g k =
          elim (Bool-cases (r.advance_when source)) [
            | inl moves ↦
                rw moves (k (some source) _ (rounds.advances l i p p1 t source c e moves g))
            | inr stays ↦ rw stays (rounds.fails_fast l i p p1 source c stays g)
          ]
      resolve-Lifted again l i p p1 t (err (attempt_timeout c)) e g k =
          k l.last_err _ (rounds.passes_over l i p p1 t _ e refl g)
      resolve-Lifted again l i p p1 t (err (total_timeout c)) e g k =
          k l.last_err _ (rounds.passes_over l i p p1 t _ e refl g)
      resolve-Lifted again l i p p1 t (err (circuit_open c)) e g k =
          k l.last_err _ (rounds.passes_over l i p p1 t _ e refl g)
      resolve-Lifted again l i p p1 t (err (concurrency_rejected c)) e g k =
          k l.last_err _ (rounds.passes_over l i p p1 t _ e refl g)
      resolve-Lifted again l i p p1 t (err (retry_budget_exhausted c)) e g k =
          k l.last_err _ (rounds.passes_over l i p p1 t _ e refl g)

      answered-Lifted :
          (again : RunState E → Pool → Journey Key T E) (l : RunState E) (i : ℕ) (p : Pool)
          (t : Member Key) (o : Option (Result T (ExecutionError E) × Pool))
          → nth r.targets i ≡ some t
          → Gives l i p o
          → Onward again l i
          → Post (elim o [
            | none ↦ (waiting, i ∷ l.tried, enter p i)
            | some (outcome, p1) ↦
                let p2 = leave (record_attempt r.meter i p.clock (is_ok outcome) p1) i in
                resolve again l i p2
                  (after_attempt r.advance_when t.id (u32 (l.attempts + 1)) outcome l.last_err)
          ])
      answered-Lifted again l i p t none e g k = rounds.waits l i p g
      answered-Lifted again l i p t (some (o, p1)) e g k = resolve-Lifted again l i p p1 t o e g k

      visit-Lifted :
          (again : RunState E → Pool → Journey Key T E) (l : RunState E) (i : ℕ) (p : Pool)
          (o : Option (Member Key))
          → nth r.targets i ≡ o
          → Mid l (chosen i, p)
          → Has i l.healthy
          → Onward again l i
          → Post (visit r serve again l i p o)
      visit-Lifted again l i p none e u h k = rounds.panics l (chosen i, p) u
      visit-Lifted again l i p (some t) e u h k =
          answered-Lifted again l i p t (serve i (enter p i)) e
            (record { before = u; healthy = h; gives = refl }) k

      proceed-Lifted :
          (again : RunState E → Pool → Journey Key T E) (l : RunState E) (c : Choice Key × Pool)
          → Picked (λ i. Has i l.healthy) c.0
          → Mid l c
          → ((i : ℕ) → Has i l.healthy → Onward again l i)
          → Post (proceed r serve again l c)
      proceed-Lifted again l (bad_score id value, p) h u k = rounds.scores l p id value u
      proceed-Lifted again l (panicked, p) h u k = rounds.panics l (panicked, p) u
      proceed-Lifted again l (chosen i, p) h u k =
          visit-Lifted again l i p (nth r.targets i) refl u h (k i h)

      round-Lifted :
          (again : RunState E → Pool → Journey Key T E) (l : RunState E) (p : Pool) (hs : List ℕ)
          → l.healthy ≡ hs
          → Inv l p
          → ((i : ℕ) → Has i l.healthy → Onward again l i)
          → Post (round r serve soonest again l p hs)
      round-Lifted again l p [] e u k = rounds.ends l p e u
      round-Lifted again l p (_ ∷ _) e u k =
          proceed-Lifted again l (choose r l.healthy p) (choose-Picked r p l.healthy)
            (rounds.draws l p (choose-Drew r l.healthy p) u) k

      pub run_loop-Lifted :
          (fuel : ℕ) (l : RunState E) (p : Pool)
          → length l.healthy < fuel
          → Inv l p
          → Post (run_loop fuel r serve soonest l p)
      unfolding run_loop
      run_loop-Lifted zero l p le u = absurd (omega (arith, le))
      run_loop-Lifted (suc fuel) l p le u =
          round-Lifted (run_loop fuel r serve soonest) l p l.healthy refl u (λ i h last p'.
            run_loop-Lifted fuel (after_visit l i last) p'
              (omega (arith, le, length-others_lt i l.healthy h)))

module _ ⦃f : Float64⦄ {Key T E : Type 0} (r : RouterPolicy Key E) (serve : Serve T E) (p : Pool)
    (Inv : RunState E → Pool → Type 0) (Mid : RunState E → Choice Key × Pool → Type 0)
    (Post : Journey Key T E → Type 0) where
  -- From its start a run ensures what its rounds keep.
  pub run-Lifted :
      ((soonest : Option Instant) → Rounds r serve soonest Inv Mid Post)
      → ((healthy : List ℕ) → (healthy_members r p).0 ≡ healthy → Inv (first_loop healthy) p)
      → Post (run r serve p)
  unfolding run
  run-Lifted rounds begins = started (healthy_members r p) refl
    where
      started : (h : List ℕ × Option Instant) → healthy_members r p ≡ h → Post (start r serve p h)
      started ([], soonest) e =
          (rounds soonest).ends (first_loop []) p refl
            (begins [] (ap (λ (x : List ℕ × Option Instant). x.0) e))
      started (i ∷ is, soonest) e =
          run_loop-Lifted r serve soonest Inv Mid Post (rounds soonest) (suc (length (i ∷ is)))
            (first_loop (i ∷ is)) p (omega arith)
            (begins (i ∷ is) (ap (λ (x : List ℕ × Option Instant). x.0) e))
