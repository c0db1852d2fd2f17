-- ===== src/Router/Loads.antt =====
-- What a run of the router leaves on the load of the members (`run`, `record_attempt` and
-- `InFlightGuard` of src/router.rs).
use execution_policy.Base.{
  ℕ, ◌+◌, ◌≡◌, ◌<◌, sym, subst, inl, inr, Instant, Bool, Option, none, some, List, [], ◌∷◌, arith,
  ◌==◌, u64, Bool-cases, if◌then◌else◌,
}
use execution_policy.Base.Float.{Float64}
use execution_policy.Outcome.{Result, ok, err, ExecutionError, operation, is_ok}
use execution_policy.Member.{Meter}
use execution_policy.Router.{RouterPolicy, Pool}
use execution_policy.Router.Choose.{Choice}
use execution_policy.Router.Run.{
  Routed, served, failed, panic, out_of_fuel, waiting, spent, Journey, Serve, RunState, run,
  record_attempt, enter, leave,
}
use execution_policy.Router.Drawn.{Drew}
use execution_policy.Router.Lift.{back, Gives, Rounds, run-Lifted}

abbrev pub one_at : ℕ → ℕ → ℕ
one_at i k = if k == i then 1 else 0

-- The sum over the members tried.
abbrev pub total : (ℕ → ℕ → ℕ) → List ℕ → ℕ → ℕ
total g [] k = 0
total g (i ∷ is) k = g i k + total g is k

module _ ⦃f : Float64⦄ where
  -- The counts of the members are machine words.
  abbrev pub Fits : Pool → Type 0
  Fits p =
      (k : ℕ)
      → ((p.loads k).in_flight < 18446744073709551616)
        × ((p.loads k).pick_count < 18446744073709551616)

module _ ⦃f : Float64⦄ {T E : Type 0} (serve : Serve T E) (outstanding picks : ℕ → ℕ → ℕ) where
  -- What other tasks add to the load of the member `k` while the member `i` runs. A number of calls
  -- that end is its complement to 2^64.
  abbrev pub Others : Type 0
  Others =
      (i : ℕ) (p p1 : Pool) (o : Result T (ExecutionError E))
      → Fits p
      → serve i p ≡ some (o, p1)
      → (k : ℕ)
      → ((p1.loads k).in_flight ≡ u64 ((p.loads k).in_flight + outstanding i k))
        × ((p1.loads k).pick_count ≡ u64 ((p.loads k).pick_count + picks i k))

module _ ⦃f : Float64⦄ where
  module _ (outstanding picks : ℕ → ℕ → ℕ) (p0 : Pool) where
    -- One pick for each member tried, and what other tasks added meanwhile.
    abbrev picked : List ℕ → ℕ → ℕ
    picked = total (λ i k. one_at i k + picks i k)

    -- The loads are those of `p0`, with one pick for each member tried, no call of this run in flight,
    -- and what other tasks added while they ran.
    abbrev pub Moved : List ℕ → Pool → Type 0
    Moved tried p =
        (k : ℕ)
        → ((p.loads k).in_flight ≡ u64 ((p0.loads k).in_flight + total outstanding tried k))
          × ((p.loads k).pick_count ≡ u64 ((p0.loads k).pick_count + picked tried k))

    -- A run that waits has its one call in flight on the member that it tried last.
    abbrev pub Entered : List ℕ → Pool → Type 0
    Entered [] p = ⊥
    Entered (i ∷ tried) p =
        (k : ℕ)
        → ((p.loads k).in_flight
            ≡ u64 ((p0.loads k).in_flight + total outstanding tried k + one_at i k))
          × ((p.loads k).pick_count ≡ u64 ((p0.loads k).pick_count + picked tried k))

    abbrev pub Loaded : {Key T E : Type 0} → Routed Key T E → List ℕ → Pool → Type 0
    Loaded waiting tried p = Entered tried p
    Loaded (served _) tried p = Moved tried p
    Loaded (failed _) tried p = Moved tried p
    Loaded panic tried p = Moved tried p
    Loaded out_of_fuel tried p = ⊥

    enter-Entered :
        (i : ℕ) (tried : List ℕ) (p : Pool) → Moved tried p → Entered (i ∷ tried) (enter p i)
    unfolding enter
    enter-Entered i tried p m k = elim (Bool-cases (k == i)) [
      | inl same ↦ rw same (ground (arith, m k, m i))
      | inr other ↦ rw other (ground (arith, m k))
    ]

    -- The call on `i` comes back, is recorded, and its guard drops.
    returned-Moved :
        {T E : Type 0} (serve : Serve T E) (meter : Option Meter) (i : ℕ) (t : Instant)
        (is_ok : Bool) (o : Result T (ExecutionError E)) (tried : List ℕ) (q p1 : Pool)
        → Others serve outstanding picks
        → serve i q ≡ some (o, p1)
        → Entered (i ∷ tried) q
        → Moved (i ∷ tried) (leave (record_attempt meter i t is_ok p1) i)
    unfolding leave record_attempt
    returned-Moved serve meter i t is_ok o tried q p1 others e m k = elim (Bool-cases (k == i)) [
      | inl same ↦ rw same (ground (arith, m k, others i q p1 o (λ j. ground (arith, m j)) e k))
      | inr other ↦ rw other (ground (arith, m k, others i q p1 o (λ j. ground (arith, m j)) e k))
    ]

    Moved-Drew : (tried : List ℕ) (p p' : Pool) → Drew p p' → Moved tried p → Moved tried p'
    Moved-Drew tried p p' (n, e) m = subst (λ q. Moved tried q) (sym e) m

  module _ {Key T E : Type 0} (r : RouterPolicy Key E) (serve : Serve T E)
      (outstanding picks : ℕ → ℕ → ℕ) (others : Others serve outstanding picks) (p0 : Pool) where
    abbrev MovedTo : RunState E → Pool → Type 0
    MovedTo l = Moved outstanding picks p0 l.tried

    abbrev MovedAt : RunState E → Choice Key × Pool → Type 0
    MovedAt l c = Moved outstanding picks p0 l.tried c.1

    abbrev LoadedBy : Journey Key T E → Type 0
    LoadedBy j = Loaded outstanding picks p0 j.0 j.1 j.2

    back-Moved :
        (soonest : Option Instant) (l : RunState E) (i : ℕ) (p p1 : Pool)
        (o : Result T (ExecutionError E))
        → Gives r serve soonest MovedTo MovedAt LoadedBy l i p (some (o, p1))
        → Moved outstanding picks p0 (i ∷ l.tried) (back r serve soonest i p.clock (is_ok o) p1)
    back-Moved soonest l i p p1 o g =
        returned-Moved outstanding picks p0 serve r.meter i p.clock (is_ok o) o l.tried (enter p i)
          p1 others g.gives (enter-Entered outstanding picks p0 i l.tried p g.before)

    spent-Loaded :
        (last : Option E) (soonest : Option Instant) (tried : List ℕ) (p : Pool)
        → Moved outstanding picks p0 tried p
        → LoadedBy (spent last soonest, tried, p)
    spent-Loaded none soonest tried p m = m
    spent-Loaded (some e) soonest tried p m = m

    rounds-Loaded : (soonest : Option Instant) → Rounds r serve soonest MovedTo MovedAt LoadedBy
    rounds-Loaded soonest = record {
      draws = λ l p d m. Moved-Drew outstanding picks p0 l.tried p _ d m;
      scores = λ l p id value m. m;
      panics = λ l c m. m;
      waits = λ l i p g. enter-Entered outstanding picks p0 i l.tried p g.before;
      serves = λ l i p p1 t v e g. back-Moved soonest l i p p1 (ok v) g;
      fails_fast =
          λ l i p p1 source c stays g. back-Moved soonest l i p p1 (err (operation source c)) g;
      advances = λ l i p p1 t source c found moves g.
          back-Moved soonest l i p p1 (err (operation source c)) g;
      passes_over = λ l i p p1 t e found no_source g. back-Moved soonest l i p p1 (err e) g;
      ends = λ l p e m. spent-Loaded l.last_err soonest l.tried p m;
    }

  -- A run keeps the books of the load: when it ends, in whatever way, it has no call in flight, and has
  -- added one pick to each member that it tried; while it waits, it has one call in flight, on the
  -- member tried last. All else that the counts have gained since is what other tasks added while the
  -- members ran. The counts of members are below 2^64 at the start, and wrap around there.
  pub run-Loaded :
      {Key T E : Type 0} (r : RouterPolicy Key E) (serve : Serve T E)
      (outstanding picks : ℕ → ℕ → ℕ) (p : Pool)
      → Others serve outstanding picks
      → Fits p
      → let j = run r serve p in Loaded outstanding picks p j.0 j.1 j.2
  run-Loaded r serve outstanding picks p others fits =
      run-Lifted r serve p (MovedTo r serve outstanding picks others p)
        (MovedAt r serve outstanding picks others p) (LoadedBy r serve outstanding picks others p)
        (rounds-Loaded r serve outstanding picks others p) (λ healthy e k. ground (arith, fits k))
