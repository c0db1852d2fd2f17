-- ===== src/Router/Chosen.antt =====
-- The member that the router chooses is one of those offered (`choose` of src/router.rs).
use execution_policy.Base.{
  ℕ, zero, suc, refl, inl, inr, Bool, true, false, Option, none, some, List, [], ◌∷◌, length, All,
  nth, traverse, if◌then◌else◌,
}
use execution_policy.Base.Float.{Float64, F64}
use execution_policy.Pick.{Pick, Candidate}
use execution_policy.Member.{Member, MemberState, Meter}
use execution_policy.Router.{RouterPolicy, Pool}
use execution_policy.Router.Members.{Has}
use execution_policy.Router.Choose.{
  Choice, chosen, bad_score, panicked, takes, best_of, best_at, positions, candidate_of, choose,
  best_among, choose_from, latency_of, with_latency, described,
}

-- The value, if there is one, has the property.
abbrev IfSome : {A : Type 0} → (A → Type 0) → Option A → Type 0
IfSome P none = Unit {0}
IfSome P (some x) = P x

nth-All : {A : Type 0} (P : A → Type 0) (xs : List A) (n : ℕ) → All P xs → IfSome P (nth xs n)
nth-All P [] n h = tt
nth-All P (y ∷ ys) zero h = h.0
nth-All P (y ∷ ys) (suc n) h = nth-All P ys n h.1

traverse-All :
    {A B : Type 0} (P : A → Type 0) (Q : B → Type 0) (g : A → Option B) (xs : List A)
    → ((x : A) → P x → IfSome Q (g x))
    → All P xs
    → IfSome (All Q) (traverse g xs)
traverse-All P Q g [] h ps = tt
traverse-All {B = B} P Q g (x ∷ xs) h ps =
    both (g x) (traverse g xs) (h x ps.0) (traverse-All P Q g xs h ps.1)
  where
    both :
        (o : Option B) (os : Option (List B))
        → IfSome Q o
        → IfSome (All Q) os
        → IfSome
            (All Q)
            (elim o [ none ↦ none | some y ↦ elim os [ none ↦ none | some ys ↦ some (y ∷ ys) ] ])
    both none os q qs = tt
    both (some y) none q qs = tt
    both (some y) (some ys) q qs = (q, qs)

All-Has : (xs ys : List ℕ) → ((x : ℕ) → Has x xs → Has x ys) → All (λ x. Has x ys) xs
All-Has [] ys h = tt
All-Has (x ∷ xs) ys h = (h x (inl refl), All-Has xs ys (λ y k. h y (inr k)))

All-any : {A : Type 0} (xs : List A) → All (λ x. Unit {0}) xs
All-any [] = tt
All-any (x ∷ xs) = (tt, All-any xs)

module _ ⦃f : Float64⦄ {Key : Type 0} (P : ℕ → Type 0) where
  abbrev Offered : Candidate Key → Type 0
  Offered c = P c.index

  -- The chosen index, if there is one, has the property.
  abbrev pub Picked : Choice Key → Type 0
  Picked (chosen i) = P i
  Picked _ = Unit {0}

  abbrev BestOffered : Option (Candidate Key × F64) → Type 0
  BestOffered none = Unit {0}
  BestOffered (some (c, s)) = P c.index

  best_of-Picked :
      (score : Candidate Key → Option F64) (cs : List (Candidate Key))
      (best : Option (Candidate Key × F64))
      → All Offered cs
      → BestOffered best
      → Picked (best_of score cs best)
  unfolding best_of
  best_of-Picked score [] none h b = tt
  best_of-Picked score [] (some (c, s)) h b = b
  best_of-Picked score (c ∷ cs) best h b =
      scored (score c) (λ s. best_of-Picked score cs (next s) h.1 (kept s (takes best c s)))
    where
      next : F64 → Option (Candidate Key × F64)
      next s = if takes best c s then some (c, s) else best

      kept : (s : F64) (t : Bool) → BestOffered (if t then some (c, s) else best)
      kept s true = h.0
      kept s false = b

      finite :
          (s : F64) (t : Bool) (rest : Choice Key)
          → Picked rest
          → Picked (if t then rest else bad_score c.id s)
      finite s true rest q = q
      finite s false rest q = tt

      scored :
          (o : Option F64)
          → ((s : F64) → Picked (best_of score cs (next s)))
          → Picked (elim o [
            | none ↦ panicked
            | some s ↦
                let rest = best_of score cs (next s) in
                if f.is_finite s then rest else bad_score c.id s
          ])
      scored none q = tt
      scored (some s) q = finite s (f.is_finite s) _ (q s)

  best_among-Picked :
      (score : Candidate Key → Option F64) (p : Pool) (o : Option (List (Candidate Key)))
      → IfSome (All Offered) o
      → Picked (best_among score p o).0
  best_among-Picked score p none h = tt
  best_among-Picked score p (some cs) h = best_of-Picked score cs none h tt

  best_at-Picked :
      (score : Candidate Key → Option F64) (cands : List (Candidate Key)) (ps : List ℕ × Pool)
      → All Offered cands
      → Picked (best_at score cands ps).0
  best_at-Picked score cands (ps, p) h = best_among-Picked score p (traverse (nth cands) ps) (
      traverse-All (λ n. Unit {0}) Offered (nth cands) ps (λ n _. nth-All Offered cands n h)
        (All-any ps))

  choose_from-Picked :
      (pick : Pick Key) (p : Pool) (o : Option (List (Candidate Key)))
      → IfSome (All Offered) o
      → Picked (choose_from pick p o).0
  choose_from-Picked pick p none h = tt
  choose_from-Picked pick p (some cands) h =
      best_at-Picked pick.score cands (positions pick.sample (length cands) p) h

module _ ⦃f : Float64⦄ {Key E : Type 0} (r : RouterPolicy Key E) (p : Pool) where
  with_latency-Offered :
      (P : ℕ → Type 0) (i : ℕ) (t : Member Key) (s : MemberState) (l : Option (Option ℕ))
      → P i
      → IfSome (Offered P) (with_latency i t s l)
  with_latency-Offered P i t s none h = tt
  with_latency-Offered P i t s (some l) h = h

  described-Offered :
      (P : ℕ → Type 0) (i : ℕ) (m : Option Meter) (s : MemberState) (o : Option (Member Key))
      → P i
      → IfSome (Offered P) (described i m s o)
  described-Offered P i m s none h = tt
  described-Offered P i m s (some t) h = with_latency-Offered P i t s (latency_of m s) h

  candidate_of-Offered : (P : ℕ → Type 0) (i : ℕ) → P i → IfSome (Offered P) (candidate_of r p i)
  unfolding candidate_of
  candidate_of-Offered P i h = described-Offered P i r.meter (p.loads i) (nth r.targets i) h

  pub choose-Picked : (h : List ℕ) → Picked (λ i. Has i h) (choose r h p).0
  unfolding choose
  choose-Picked h =
      choose_from-Picked (λ i. Has i h) r.select p (traverse (candidate_of r p) h)
        (traverse-All (λ i. Has i h) (Offered (λ i. Has i h)) (candidate_of r p) h
          (candidate_of-Offered (λ i. Has i h)) (All-Has h h (λ x k. k)))
