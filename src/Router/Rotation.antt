-- ===== src/Router/Rotation.antt =====
-- The members that a run of the router has left between two rounds (src/router.rs).
use execution_policy.Base.{
  ℕ, ◌+◌, ◌≤◌, ◌<◌, ◌≡◌, refl, sym, subst, ◌⊎◌, inl, inr, Option, List, ◌∷◌, arith, length, u32,
}
use execution_policy.Router.Members.{Has, Distinct, Has-others, others-Has, length-others_lt}
use execution_policy.Router.Run.{RunState, others, first_loop}

abbrev pub after_visit : {E : Type 0} → RunState E → ℕ → Option E → RunState E
after_visit l i last = record {
  healthy = others i l.healthy;
  attempts = u32 (l.attempts + 1);
  last_err = last;
  tried = i ∷ l.tried;
}

module _ {E : Type 0} (offered : List ℕ) where
  -- The variables of the loop between two rounds.
  pub record Under (l : RunState E) : Type 0 where
    pub counted : l.attempts ≡ length l.tried
    pub once : Distinct l.tried
    pub from_offered : (i : ℕ) → Has i l.tried → Has i offered
    pub left : (i : ℕ) → Has i l.healthy → Has i offered × ¬ Has i l.tried
    pub covered : (i : ℕ) → Has i offered → Has i l.healthy ⊎ Has i l.tried
    pub room : length l.tried + length l.healthy ≤ length offered

  pub Under-after_visit :
      (l : RunState E) (i : ℕ) (last : Option E)
      → length offered < 4294967296
      → Under l
      → Has i l.healthy
      → Under (after_visit l i last)
  Under-after_visit l i last small u h = record {
    counted = ground (arith, u.counted, u.room, length-others_lt i l.healthy h);
    once = ((u.left i h).1, u.once);
    from_offered = λ x k. newest x k;
    left = λ x k. still x k;
    covered = λ x k. kept x (u.covered x k);
    room = ground (arith, u.room, length-others_lt i l.healthy h);
  }
    where
      newest : (x : ℕ) → Has x (i ∷ l.tried) → Has x offered
      newest x (inl e) = subst (λ y. Has y offered) (sym e) (u.left i h).0
      newest x (inr m) = u.from_offered x m

      still : (x : ℕ) → Has x (others i l.healthy) → Has x offered × ¬ Has x (i ∷ l.tried)
      still x k =
          let (m, ne) = Has-others i x l.healthy k in
          ((u.left x m).0, λ q. elim q [ inl e ↦ ne e | inr n ↦ (u.left x m).1 n ])

      kept :
          (x : ℕ)
          → Has x l.healthy ⊎ Has x l.tried
          → Has x (others i l.healthy) ⊎ Has x (i ∷ l.tried)
      kept x (inr m) = inr (inr m)
      kept x (inl m) = ground (arith, others-Has i x l.healthy m)

  pub first_loop-Under : Under (first_loop offered)
  first_loop-Under = record {
    counted = refl;
    once = tt;
    from_offered = λ i h. absurd h;
    left = λ i h. (h, λ n. n);
    covered = λ i h. inl h;
    room = omega arith;
  }
