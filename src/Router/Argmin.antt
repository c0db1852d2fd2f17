-- ===== src/Router/Argmin.antt =====
-- What `choose` of src/router.rs gives without sampling.
use execution_policy.Base.{
  ◌⊎◌, ℕ, suc, ◌≡◌, refl, ap, none, some, List, [], ◌∷◌, ◌++◌, length, nth, traverse, range,
}
use execution_policy.Base.Float.{Float64, F64}
use execution_policy.Pick.{Candidate}
use execution_policy.Router.{RouterPolicy, Pool}
use execution_policy.Router.Choose.{Choice, panicked, candidate_of, choose}
use execution_policy.Router.Members.{Has}
use execution_policy.Member.{Member, Meter, PeakEwmaState}
use execution_policy.Router.Least.{Ranks, Least, best_of-Least}

nth-front :
    {A : Type 0} (pre : List A) (x : A) (xs : List A) → nth (pre ++ x ∷ xs) (length pre) ≡ some x
nth-front [] x xs = refl
nth-front (y ∷ pre) x xs = nth-front pre x xs

append_one :
    {A : Type 0} (pre : List A) (x : A) (xs : List A) → (pre ++ x ∷ []) ++ xs ≡ pre ++ x ∷ xs
append_one [] x xs = refl
append_one (y ∷ pre) x xs = ap (λ l. y ∷ l) (append_one pre x xs)

length_one : {A : Type 0} (pre : List A) (x : A) → length (pre ++ x ∷ []) ≡ suc (length pre)
length_one [] x = refl
length_one (y ∷ pre) x = ap suc (length_one pre x)

-- Every position in turn gives every candidate.
traverse-nth :
    {A : Type 0} (pre xs : List A)
    → traverse (nth (pre ++ xs)) (range (length pre) (length xs)) ≡ some xs
traverse-nth pre [] = refl
traverse-nth pre (x ∷ xs) =
    let rest : traverse (nth (pre ++ x ∷ xs)) (range (suc (length pre)) (length xs)) ≡ some xs =
      rw (← append_one pre x xs, ← length_one pre x) (traverse-nth (pre ++ x ∷ []) xs) in
    rw (nth-front pre x xs, rest, traverse) refl

module _ ⦃f : Float64⦄ {Key E : Type 0} (r : RouterPolicy Key E) (p : Pool) where
  -- The member's reading is no duration, so that `from_secs_f64` panics on it.
  pub record BadReading (i : ℕ) : Type 0 where
    pub meter : Meter
    pub set : r.meter ≡ some meter
    pub reading : PeakEwmaState
    pub stored : (p.loads i).meter ≡ some reading
    pub refused : f.from_secs reading.value_secs ≡ none

  -- A member that cannot be described: there is no such target, or its reading is no duration.
  abbrev pub Undescribed : ℕ → Type 0
  Undescribed i = (nth r.targets i ≡ none) ⊎ BadReading i

module _ ⦃f : Float64⦄ {Key E : Type 0} (r : RouterPolicy Key E) (rank : F64 → ℕ) where
  -- The choice among candidates that can all be described.
  pub choose-Least :
      (healthy : List ℕ) (p : Pool) (cands : List (Candidate Key))
      → r.select.sample ≡ none
      → Ranks r.select.score rank
      → traverse (candidate_of r p) healthy ≡ some cands
      → Least r.select.score rank cands (choose r healthy p).0
  unfolding choose
  choose-Least healthy p cands s o e =
      rw (e, s, traverse-nth [] cands) (best_of-Least r.select.score rank cands o)

  -- What `choose` decides: by the candidates of the healthy members, or it panics on one of them.
  abbrev pub Decided : List ℕ → Pool → Choice Key → Type 0
  Decided healthy p o =
      ((cands : List (Candidate Key)) × (traverse (candidate_of r p) healthy ≡ some cands)
        × Least r.select.score rank cands o)
      ⊎ ((o ≡ panicked) × (i : ℕ) × Has i healthy × Undescribed r p i)
