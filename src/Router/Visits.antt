-- ===== src/Router/Visits.antt =====
-- Which members a run of the router tries, and what its result says of them (`run` of src/router.rs).
use execution_policy.Base.{
  ℕ, suc, ◌<◌, ◌≡◌, refl, subst, ◌⊎◌, inl, inr, Instant, false, Option, none, some, List, [], ◌∷◌,
  arith, length, nth,
}
use execution_policy.Base.Float.{Float64}
use execution_policy.Outcome.{Result, ExecutionError}
use execution_policy.Member.{Member}
use execution_policy.Router.{
  RouterPolicy, Pool, all_unavailable, exhausted, score_error, healthy_members,
}
use execution_policy.Router.Lift.{Gives, Rounds, run_loop-Lifted}
use execution_policy.Router.Members.{Has, Distinct}
use execution_policy.Router.Rotation.{Under, after_visit, Under-after_visit, first_loop-Under}
use execution_policy.Router.Choose.{Choice}
use execution_policy.Router.Run.{
  Routed, served, failed, waiting, panic, out_of_fuel, spent, Journey, Serve, RunState, first_loop,
  start, run,
}

module _ ⦃f : Float64⦄ {Key E : Type 0} (r : RouterPolicy Key E) where
  -- The newest of the members tried has the id.
  abbrev pub LastIs : Key → List ℕ → Type 0
  LastIs id [] = ⊥
  LastIs id (i ∷ _) = (t : Member Key) × (nth r.targets i ≡ some t) × (t.id ≡ id)

abbrev pub AllIn : List ℕ → List ℕ → Type 0
AllIn xs ys = (i : ℕ) → Has i xs → Has i ys

module _ ⦃f : Float64⦄ {Key T E : Type 0} (r : RouterPolicy Key E) (soonest : Option Instant)
    (offered : List ℕ) where
  -- What an outcome says of the members tried.
  abbrev pub Says : Routed Key T E → List ℕ → Type 0
  Says (served s) tried = (s.attempts ≡ length tried) × LastIs r s.target tried
  Says (failed (all_unavailable hint)) tried = AllIn offered tried × (hint ≡ soonest)
  Says (failed (exhausted e)) tried = AllIn offered tried ⊎ (r.advance_when e ≡ false)
  Says (failed (score_error _ _)) tried = Unit {0}
  Says waiting tried = Unit {0}
  Says panic tried = Unit {0}
  Says out_of_fuel tried = ⊥

  pub record Toured (j : Journey Key T E) : Type 0 where
    pub once : Distinct j.1
    pub from_offered : AllIn j.1 offered
    pub says : Says j.0 j.1

  -- A run that stops between two rounds.
  between :
      (l : RunState E) (p : Pool) (x : Routed Key T E)
      → Under offered l
      → Says x l.tried
      → Toured (x, l.tried, p)
  between l p x u q = record { once = u.once; from_offered = u.from_offered; says = q }

  spent-Toured :
      (l : RunState E) (p : Pool)
      → Under offered l
      → AllIn offered l.tried
      → Toured (spent l.last_err soonest, l.tried, p)
  spent-Toured l p u all = by_last l.last_err
    where
      by_last : (o : Option E) → Toured (spent o soonest, l.tried, p)
      by_last none = between l p _ u (all, refl)
      by_last (some e) = between l p _ u (inl all)

  module _ (small : length offered < 4294967296) (serve : Serve T E) where
    abbrev Between : RunState E → Pool → Type 0
    Between l p = Under offered l

    abbrev Chosen : RunState E → Choice Key × Pool → Type 0
    Chosen l c = Under offered l

    -- A run that stops with the member `i`.
    after_one :
        (l : RunState E) (i : ℕ) (p p' : Pool) (o : Option (Result T (ExecutionError E) × Pool))
        (x : Routed Key T E)
        → Gives r serve soonest Between Chosen Toured l i p o
        → Says x (i ∷ l.tried)
        → Toured (x, i ∷ l.tried, p')
    after_one l i p p' o x g q =
        between (after_visit l i none) p' x
          (Under-after_visit offered l i none small g.before g.healthy) q

    rounds-Toured : Rounds r serve soonest Between Chosen Toured
    rounds-Toured = record {
      draws = λ l p d u. u;
      scores = λ l p id value u. between l p _ u tt;
      panics = λ l c u. between l c.1 _ u tt;
      waits = λ l i p g. after_one l i p _ _ _ g tt;
      serves = λ l i p p1 t v e g.
          let u = Under-after_visit offered l i none small g.before g.healthy in
          after_one l i p _ _ _ g (u.counted, (t, e, refl));
      fails_fast = λ l i p p1 source c stays g. after_one l i p _ _ _ g (inr stays);
      advances = λ l i p p1 t source c found moves g.
          Under-after_visit offered l i (some source) small g.before g.healthy;
      passes_over = λ l i p p1 t e found no_source g.
          Under-after_visit offered l i l.last_err small g.before g.healthy;
      ends = λ l p e u.
          spent-Toured l p u
            (λ i k. elim (u.covered i k) [ inl n ↦ absurd (subst (Has i) e n) | inr m ↦ m ]);
    }

module _ ⦃f : Float64⦄ {Key T E : Type 0} (r : RouterPolicy Key E) where
  -- A run never is out of fuel. It tries healthy members, none of them twice. If one serves, it is the
  -- last one tried, and `attempts` counts those tried. A run that ends in `AllUnavailable` has tried
  -- every healthy member and gives the earliest cooling instant as its hint; one that ends in
  -- `Exhausted` has tried them all, too, or stopped at an error that is not to be advanced on. This
  -- holds whatever the members' calls and other tasks do to the pool meanwhile.
  pub run-Toured :
      (serve : Serve T E) (p : Pool)
      → length (healthy_members r p).0 < 4294967296
      → Toured r (healthy_members r p).1 (healthy_members r p).0 (run r serve p)
  unfolding run
  run-Toured serve p small = started (healthy_members r p) small
    where
      started :
          (h : List ℕ × Option Instant)
          → length h.0 < 4294967296
          → Toured r h.1 h.0 (start r serve p h)
      started ([], soonest) lt = record {
        once = tt;
        from_offered = λ i k. k;
        says = ((λ i k. k), refl);
      }
      started (i ∷ is, soonest) lt =
          run_loop-Lifted r serve soonest (Between r soonest (i ∷ is) lt serve)
            (Chosen r soonest (i ∷ is) lt serve) (Toured r soonest (i ∷ is))
            (rounds-Toured r soonest (i ∷ is) lt serve) (suc (length (i ∷ is)))
            (first_loop (i ∷ is)) p (omega arith) (first_loop-Under (i ∷ is))
