-- ===== src/Router/Drawn.antt =====
-- A choice of the router draws random numbers, and leaves the rest of the pool alone (`choose` of
-- src/router.rs).
use execution_policy.Base.{
  ℕ, zero, suc, ◌+◌, ◌-◌, ◌%◌, ◌≡◌, refl, ◌∙◌, inl, inr, Option, none, some, List, length, nth,
  traverse, ltb, Bool-cases,
}
use execution_policy.Base.Float.{Float64, F64}
use execution_policy.Pick.{Candidate}
use execution_policy.Router.{RouterPolicy, Pool}
use execution_policy.Router.Choose.{
  choose, shuffle, sample_distinct, swap, positions, choose_from, candidate_of, best_among,
}

module _ ⦃f : Float64⦄ where
  -- Nothing but random numbers were drawn.
  abbrev pub Drew : Pool → Pool → Type 0
  Drew p p' = (n : ℕ) × (p' ≡ record p { drawn = n })

  shuffle-Drew : (left i n : ℕ) (idx : ℕ → ℕ) (p : Pool) → Drew p (shuffle left i n idx p).1
  unfolding shuffle
  shuffle-Drew zero i n idx p = (p.drawn, refl)
  shuffle-Drew (suc left) i n idx p =
      shuffle-Drew left (suc i) n (swap idx i (i + p.random p.drawn % (n - i)))
        (record p { drawn = suc p.drawn })

  positions-Drew : (sample : Option ℕ) (n : ℕ) (p : Pool) → Drew p (positions sample n p).1
  unfolding sample_distinct
  positions-Drew none n p = (p.drawn, refl)
  positions-Drew (some k) n p = elim (Bool-cases (ltb k n)) [
    | inl less ↦ rw less (shuffle-Drew k 0 n (λ m. m) p)
    | inr all ↦ rw all (p.drawn, refl)
  ]

  best_among-same :
      {Key : Type 0} (score : Candidate Key → Option F64) (p : Pool)
      (o : Option (List (Candidate Key)))
      → (best_among score p o).1 ≡ p
  best_among-same score p none = refl
  best_among-same score p (some cs) = refl

  pub choose-Drew :
      {Key E : Type 0} (r : RouterPolicy Key E) (healthy : List ℕ) (p : Pool)
      → Drew p (choose r healthy p).1
  unfolding choose
  choose-Drew {Key} r healthy p = by_candidates (traverse (candidate_of r p) healthy)
    where
      by_candidates : (o : Option (List (Candidate Key))) → Drew p (choose_from r.select p o).1
      by_candidates none = (p.drawn, refl)
      by_candidates (some cands) =
          let (ps, q) = positions r.select.sample (length cands) p in
          let (n, e) = positions-Drew r.select.sample (length cands) p in
          (n, best_among-same r.select.score q (traverse (nth cands) ps) ∙ e)
