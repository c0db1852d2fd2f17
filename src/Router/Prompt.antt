-- ===== src/Router/Prompt.antt =====
-- One run of the router with round robin (`run` of src/router.rs, `round_robin` of src/pick.rs).
use execution_policy.Base.{
  ℕ, zero, suc, ◌+◌, ◌≤◌, ◌<◌, ◌≡◌, refl, sym, ap, ◌∙◌, subst, inl, inr, Instant, Option, none,
  some, List, [], ◌∷◌, arith, length, nth, range, ◌==◌, u32, Bool-cases,
}
use execution_policy.Base.Float.{Float64, F64}
use execution_policy.Outcome.{Result, ok, ExecutionError, is_ok}
use execution_policy.Pick.{round_robin}
use execution_policy.Member.{Member}
use execution_policy.Policy.{circuit_state, cooling_until}
use execution_policy.Router.{RouterPolicy, Pool, Served, scan, healthy_members}
use execution_policy.Router.Choose.{Choice, chosen, bad_score, panicked, choose}
use execution_policy.Router.Members.{Has}
use execution_policy.Router.Run.{
  served, waiting, resolve, Journey, Serve, RunState, visit, proceed, run_loop, first_loop, start,
  run, after_attempt, enter, leave, record_attempt,
}
use execution_policy.Router.Drawn.{choose-Drew}
use execution_policy.Router.Turns.{Counts, LeastPicked, valid_index, choose-LeastPicked}

pub Has-range : (k i n : ℕ) → Has k (range i n) → (i ≤ k) × (k < i + n)
Has-range k i zero h = absurd h
Has-range k i (suc n) (inl e) = omega (arith, e)
Has-range k i (suc n) (inr h) = let b = Has-range k (suc i) n h in omega (arith, b)

pub range-Has : (k i n : ℕ) → i ≤ k → k < i + n → Has k (range i n)
range-Has k i zero lo hi = absurd (omega (arith, lo, hi))
range-Has k i (suc n) lo hi = elim (Bool-cases (k == i)) [
  | inl e ↦ inl (ground (arith, e))
  | inr e ↦ inr (range-Has k (suc i) n (ground (arith, e, lo)) (omega (arith, hi)))
]

module _ ⦃f : Float64⦄ where
  abbrev pub Unguarded : Pool → Type 0
  Unguarded p = (k : ℕ) → p.breakers k ≡ none

  scan-Unguarded :
      {A : Type 0} (p : Pool) (i : ℕ) (ts : List A) (soonest : Option Instant)
      → Unguarded p
      → scan p i ts soonest ≡ (range i (length ts), soonest)
  unfolding circuit_state cooling_until
  scan-Unguarded p i [] soonest u = refl
  scan-Unguarded p i (t ∷ ts) soonest u = rw (u i, scan-Unguarded p (suc i) ts soonest u) refl

  module _ {T E : Type 0} (serve : Serve T E) where
    -- Every call is served, and no other task changes a load or a breaker meanwhile.
    abbrev pub Prompt : Type 0
    Prompt =
        (i : ℕ) (p : Pool)
        → (v : T) × (p1 : Pool) × (serve i p ≡ some (ok v, p1))
          × (p1.loads ≡ p.loads)
          × (p1.breakers ≡ p.breakers)

  -- A run that one of the members `hs` serves at once, none of which was picked less often.
  pub record Turn {Key T E : Type 0} (p : Pool) (hs : List ℕ) (j : Journey Key T E) : Type 0 where
    pub who : ℕ
    pub one_of : Has who hs
    pub least : (k : ℕ) → Has k hs → (p.loads who).pick_count ≤ (p.loads k).pick_count
    pub result : Served Key T
    pub served_by : j.0 ≡ served result
    pub tried_one : j.1 ≡ who ∷ []
    pub unguarded : Unguarded j.2

  module _ {Key T E : Type 0} (r : RouterPolicy Key E) (serve : Serve T E)
      (prompt : Prompt serve) where
    answered-Turn :
        (again : RunState E → Pool → Journey Key T E) (p q p1 : Pool) (hs : List ℕ) (i : ℕ)
        (t : Member Key) (v : T) (o : Option (Result T (ExecutionError E) × Pool))
        → Has i hs
        → ((k : ℕ) → Has k hs → (p.loads i).pick_count ≤ (p.loads k).pick_count)
        → o ≡ some (ok v, p1)
        → Unguarded p1
        → let l = first_loop hs in
          Turn p hs (elim o [
            | none ↦ (waiting, i ∷ l.tried, enter q i)
            | some (outcome, p1) ↦
                let p2 = leave (record_attempt r.meter i q.clock (is_ok outcome) p1) i in
                resolve again l i p2
                  (after_attempt r.advance_when t.id (u32 (l.attempts + 1)) outcome l.last_err)
          ])
    unfolding after_attempt leave record_attempt
    answered-Turn again p q p1 hs i t v o has least e u = rw e (record {
      who = i;
      one_of = has;
      least = least;
      result = record { value = v; target = t.id; attempts = u32 (0 + 1) };
      served_by = refl;
      tried_one = refl;
      unguarded = u;
    })

    proceed-Turn :
        (again : RunState E → Pool → Journey Key T E) (p : Pool) (hs : List ℕ)
        (c : Choice Key × Pool)
        → ((k : ℕ) → Has k hs → k < length r.targets)
        → LeastPicked r p hs c.0
        → Unguarded c.1
        → Turn p hs (proceed r serve again (first_loop hs) c)
    unfolding enter
    proceed-Turn again p hs (bad_score id value, q) valid l u = absurd l
    proceed-Turn again p hs (panicked, q) valid l u = absurd l
    proceed-Turn again p hs (chosen i, q) valid l u =
        visited (valid_index r.targets i (valid i l.0))
      where
        visited :
            (t : Member Key) × (nth r.targets i ≡ some t)
            → Turn p hs (visit r serve again (first_loop hs) i q (nth r.targets i))
        visited (t, found) =
            let (v, p1, e, loads, same) = prompt i (enter q i) in
            rw found (
              answered-Turn again p q p1 hs i t v (serve i (enter q i)) l.0 l.1 e
                (λ k. ap (λ b. b k) same ∙ u k))

  module _ {Key E : Type 0} (r : RouterPolicy Key E) where
    abbrev pub members : List ℕ
    members = range 0 (length r.targets)

    abbrev pub Below : ℕ → Pool → Type 0
    Below limit p = (k : ℕ) → k < length r.targets → (p.loads k).pick_count < limit

  module _ {Key T E : Type 0} (r : RouterPolicy Key E) (serve : Serve T E) (prompt : Prompt serve)
      (limit : ℕ) (rank : F64 → ℕ) (counts : Counts limit rank) (turns : r.select ≡ round_robin)
      (meterless : r.meter ≡ none) (some_target : 0 < length r.targets) where
    run_loop-Turn :
        (fuel : ℕ) (soonest : Option Instant) (p : Pool) (i : ℕ) (is : List ℕ)
        → members r ≡ i ∷ is
        → Below r limit p
        → Unguarded p
        → Turn p (i ∷ is) (run_loop (suc fuel) r serve soonest (first_loop (i ∷ is)) p)
    unfolding run_loop
    run_loop-Turn fuel soonest p i is e below u =
        proceed-Turn r serve prompt (run_loop fuel r serve soonest) p (i ∷ is) (choose r (i ∷ is) p)
          (λ k h. within k h)
          (choose-LeastPicked r p limit rank counts (i ∷ is) turns meterless
            (λ k h. (within k h, below k (within k h))) i (inl refl))
          (let (n, same) = choose-Drew r (i ∷ is) p in
            λ k. subst (λ (q : Pool). q.breakers k ≡ none) (sym same) (u k))
      where
        within : (k : ℕ) → Has k (i ∷ is) → k < length r.targets
        within k h =
            let b = Has-range k 0 (length r.targets) (subst (Has k) (sym e) h) in omega (arith, b.1)

    pub run-Turn : (p : Pool) → Below r limit p → Unguarded p → Turn p (members r) (run r serve p)
    unfolding run healthy_members
    run-Turn p below u = rw (scan-Unguarded p 0 r.targets none u) (started (members r) refl)
      where
        started : (hs : List ℕ) → members r ≡ hs → Turn p hs (start r serve p (hs, none))
        started [] e = absurd (
            subst (Has 0) e
              (range-Has 0 0 (length r.targets) (omega arith) (omega (arith, some_target))))
        started (i ∷ is) e = run_loop-Turn (length (i ∷ is)) none p i is e below u
