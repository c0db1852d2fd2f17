-- ===== src/Router/Least.antt =====
-- The candidate with the least score (the loop of `choose` in src/router.rs).
use execution_policy.Base.{
  ℕ, ◌≤◌, ◌<◌, ◌≡◌, refl, sym, ap, ◌∙◌, subst, ◌⊎◌, inl, inr, Bool, true, false, Option, none, some,
  List, [], ◌∷◌, arith, ltb, ◌==◌, if◌then◌else◌,
}
use execution_policy.Base.Float.{Float64, F64}
use execution_policy.Pick.{Candidate}
use execution_policy.Router.Choose.{Choice, chosen, bad_score, panicked, takes, best_of}

abbrev pub In : {A : Type 0} → A → List A → Type 0
In x [] = ⊥
In x (y ∷ ys) = (x ≡ y) ⊎ In x ys

module _ ⦃f : Float64⦄ {Key : Type 0} (score : Candidate Key → Option F64) (rank : F64 → ℕ) where
  -- The order of the finite scores is that of numbers. This is so of `f64` when no score is `-0.0`,
  -- which `==` and `total_cmp` treat differently.
  pub record Ranks : Type 0 where
    pub less :
        (c d : Candidate Key) (x y : F64)
        → score c ≡ some x
        → score d ≡ some y
        → f.is_finite x ≡ true
        → f.is_finite y ≡ true
        → f.total_less x y ≡ ltb (rank x) (rank y)
    pub same :
        (c d : Candidate Key) (x y : F64)
        → score c ≡ some x
        → score d ≡ some y
        → f.is_finite x ≡ true
        → f.is_finite y ≡ true
        → f.eq x y ≡ (rank x == rank y)

  -- A lower score, or the same and no later index.
  abbrev pub Beats : Candidate Key → F64 → Candidate Key → Type 0
  Beats c x d =
      (y : F64) → score d ≡ some y → (rank x < rank y) ⊎ ((rank x ≡ rank y) × (c.index ≤ d.index))

  -- What the choice among candidates comes to.
  abbrev pub Least : List (Candidate Key) → Choice Key → Type 0
  Least cs (chosen i) =
      (c : Candidate Key) × (x : F64) × In c cs
      × (c.index ≡ i)
      × (score c ≡ some x)
      × (f.is_finite x ≡ true)
      × ((d : Candidate Key) → In d cs → Beats c x d)
  Least cs (bad_score id x) =
      (c : Candidate Key) × In c cs × (score c ≡ some x) × (f.is_finite x ≡ false) × (c.id ≡ id)
  Least cs panicked = (cs ≡ []) ⊎ ((c : Candidate Key) × In c cs × (score c ≡ none))

  -- The best candidate of those of `all` that no longer stand in `cs`.
  abbrev Leads : List (Candidate Key) → List (Candidate Key) → Option (Candidate Key × F64) → Type 0
  Leads all cs none = all ≡ cs
  Leads all cs (some (b, x)) =
      In b all
      × (score b ≡ some x)
      × (f.is_finite x ≡ true)
      × ((d : Candidate Key) → In d all → In d cs ⊎ Beats b x d)

  Beats-self : (c d : Candidate Key) (x : F64) → score c ≡ some x → d ≡ c → Beats c x d
  Beats-self c d x sc e y sd =
      inr (ap rank (some_inj (sym sc ∙ ap score (sym e) ∙ sd)), eq_le (ap (λ q. q.index) (sym e)))
    where
      eq_le : {a b : ℕ} → a ≡ b → a ≤ b
      eq_le h = omega (arith, h)

      some_inj : {x y : F64} → some x ≡ some y → x ≡ y
      some_inj h = ground arith

  Beats-trans :
      (b c d : Candidate Key) (x y : F64)
      → (rank x < rank y) ⊎ ((rank x ≡ rank y) × (c.index ≤ b.index))
      → Beats b y d
      → Beats c x d
  Beats-trans b c d x y h g z sd = ground (arith, g z sd)

  module _ (o : Ranks) (all : List (Candidate Key)) where
    -- The candidate `c` takes the lead, and what that decides.
    Taken : Candidate Key → F64 → Candidate Key → F64 → Type 0
    Taken b y c x =
        ((takes (some (b, y)) c x ≡ true)
          × ((rank x < rank y) ⊎ ((rank x ≡ rank y) × (c.index ≤ b.index))))
        ⊎ ((takes (some (b, y)) c x ≡ false)
            × ((rank y < rank x) ⊎ ((rank y ≡ rank x) × (b.index ≤ c.index))))

    ranked-Taken :
        (b c : Candidate Key) (y x : F64)
        → f.total_less x y ≡ ltb (rank x) (rank y)
        → f.eq x y ≡ (rank x == rank y)
        → Taken b y c x
    unfolding Taken
    ranked-Taken b c y x l e = rw (l, e) (ground arith)

    takes-Leads :
        (c : Candidate Key) (cs : List (Candidate Key)) (best : Option (Candidate Key × F64))
        (x : F64)
        → In c all
        → score c ≡ some x
        → f.is_finite x ≡ true
        → Leads all (c ∷ cs) best
        → Leads all cs (if takes best c x then some (c, x) else best)
    unfolding Taken
    takes-Leads c cs none x m sc fin l = (
      m,
      sc,
      fin,
      λ d k. elim (subst (In d) l k) [ inl e ↦ inr (Beats-self c d x sc e) | inr q ↦ inl q ],
    )
    takes-Leads c cs (some (b, y)) x m sc fin (mb, sb, finb, rest) =
        elim (ranked-Taken b c y x (o.less c b x y sc sb fin finb)
          (o.same c b x y sc sb fin finb)) [
            | inl (taken, wins) ↦ rw taken (
              m,
              sc,
              fin,
              λ d k. elim (rest d k) [
                | inl (inl e) ↦ inr (Beats-self c d x sc e)
                | inl (inr q) ↦ inl q
                | inr beaten ↦ inr (Beats-trans b c d x y wins beaten)
              ],
            )
            | inr (kept, wins) ↦ rw kept (
              mb,
              sb,
              finb,
              λ d k. elim (rest d k) [
                | inl (inl e) ↦ inr (Beats-trans c b d y x wins (Beats-self c d x sc e))
                | inl (inr q) ↦ inl q
                | inr beaten ↦ inr beaten
              ],
            )
          ]

    best_of-Leads :
        (cs : List (Candidate Key)) (best : Option (Candidate Key × F64))
        → ((c : Candidate Key) → In c cs → In c all)
        → Leads all cs best
        → Least all (best_of score cs best)
    unfolding best_of
    best_of-Leads [] none within l = inl l
    best_of-Leads [] (some (b, y)) within (mb, sb, finb, rest) =
        (b, y, mb, refl, sb, finb, λ d m. elim (rest d m) [ inl k ↦ absurd k | inr q ↦ q ])
    best_of-Leads (c ∷ cs) best within l = scored (score c) refl (λ x sc fin.
        best_of-Leads cs (if takes best c x then some (c, x) else best) (λ d m. within d (inr m))
          (takes-Leads c cs best x (within c (inl refl)) sc fin l))
      where
        after : F64 → Choice Key
        after x = best_of score cs (if takes best c x then some (c, x) else best)

        finite :
            (x : F64) (t : Bool)
            → score c ≡ some x
            → f.is_finite x ≡ t
            → (f.is_finite x ≡ true → Least all (after x))
            → Least all (if t then after x else bad_score c.id x)
        finite x true sc fin g = g fin
        finite x false sc fin g = (c, within c (inl refl), sc, fin, refl)

        scored :
            (r : Option F64)
            → score c ≡ r
            → ((x : F64) → score c ≡ some x → f.is_finite x ≡ true → Least all (after x))
            → Least all (elim r [
              | none ↦ panicked
              | some s ↦
                  let rest = best_of score cs (if takes best c s then some (c, s) else best) in
                  if f.is_finite s then rest else bad_score c.id s
            ])
        scored none sc g = inr (c, within c (inl refl), sc)
        scored (some x) sc g = finite x (f.is_finite x) sc refl (g x sc)

  -- The loop of `choose` picks a candidate whose score is the least, and of those the one that was
  -- registered first. It stops at a score that is not finite, and panics only if a score closure does
  -- or there is no candidate.
  pub best_of-Least : (cs : List (Candidate Key)) → Ranks → Least cs (best_of score cs none)
  best_of-Least cs o = best_of-Leads o cs cs none (λ c m. m) refl
