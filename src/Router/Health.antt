-- ===== src/Router/Health.antt =====
-- Which members the router offers, and when the others come back (`healthy_members` of src/router.rs).
use execution_policy.Base.{
  ℕ, suc, ◌+◌, ◌≤◌, ◌<◌, ◌≡◌, refl, ◌⊎◌, inl, inr, Instant, subst, Bool, true, false, Option, none,
  some, List, [], ◌∷◌, arith, length, if◌then◌else◌, min_of, ap,
}
use execution_policy.Base.Float.{Float64}
use execution_policy.Outcome.{BreakerState}
use execution_policy.Breaker.{BreakerRuntime, gate}
use execution_policy.Breaker.Cooldown.{state_at-opened}
use execution_policy.Breaker.Invariant.{IsValid}
use execution_policy.Policy.{circuit_state, cooling_until}
use execution_policy.Router.{RouterPolicy, Pool, scan, healthy_members, is_open, sooner, earlier}

module _ ⦃f : Float64⦄ where
  -- Every call before `t` is rejected.
  abbrev pub Rejects : Option BreakerRuntime → Instant → Type 0
  Rejects o t =
      (b : BreakerRuntime) × (o ≡ some b)
      × ((later : Instant) → later < t → (gate b later).0 ≡ none)

  -- From `t` on a call is admitted, as a probe.
  abbrev pub Admits : Option BreakerRuntime → Instant → Type 0
  Admits o t =
      (b : BreakerRuntime) × (o ≡ some b)
      × ((later : Instant) → t ≤ later → (gate b later).0 ≡ some BreakerState.half_open)

  abbrev pub IsSound : Option BreakerRuntime → Type 0
  IsSound none = Unit {0}
  IsSound (some b) = IsValid b

  record Cools (o : Option BreakerRuntime) (now until : Instant) : Type 0 where
    reported : cooling_until o now ≡ some until
    ahead : now < until
    rejects : Rejects o until
    admits : Admits o until

  is_opened : (s : BreakerState) → is_open (some s) ≡ true → s ≡ BreakerState.opened
  is_opened BreakerState.disabled h = ground arith
  is_opened BreakerState.closed h = ground arith
  is_opened BreakerState.opened h = refl
  is_opened BreakerState.half_open h = ground arith

  is_open-Cools :
      (o : Option BreakerRuntime) (now : Instant)
      → IsSound o
      → is_open (circuit_state o now) ≡ true
      → (until : Instant) × Cools o now until
  unfolding circuit_state cooling_until
  is_open-Cools none now v h = ground arith
  is_open-Cools (some b) now v h =
      let (until, told, ahead, early, late) = state_at-opened b now v (is_opened _ h) in
      (
        until,
        record {
          reported = told;
          ahead = ahead;
          rejects = (b, refl, early);
          admits = (b, refl, late);
        },
      )

  Rejects-le : (o : Option BreakerRuntime) (t u : Instant) → t ≤ u → Rejects o u → Rejects o t
  Rejects-le o t u le (b, e, h) = (b, e, λ later lt. h later (omega (arith, lt, le)))

  -- What a hint says of the members `i` to `n - 1` that were skipped after the hint `soonest`.
  record Hints (p : Pool) (soonest : Option Instant) (i n : ℕ) (hint : Option Instant)
      : Type 0 where
    kept : (u : Instant) → soonest ≡ some u → (t : Instant) × (hint ≡ some t) × (t ≤ u)
    early : (j : ℕ) → i ≤ j → j < n → (t : Instant) × (hint ≡ some t) × Rejects (p.breakers j) t
    reached :
        (t : Instant)
        → hint ≡ some t
        → (soonest ≡ some t)
          ⊎ ((j : ℕ) × (i ≤ j) × (j < n) × (p.clock < t) × Admits (p.breakers j) t)

  earliest :
      (soonest : Option Instant) (u t : Instant)
      → earlier soonest u ≡ some t
      → (soonest ≡ some t) ⊎ (u ≡ t)
  earliest none u t e = ground arith
  earliest (some s) u t e = ground arith

  earlier-le :
      (soonest : Option Instant) (u : Instant)
      → (t : Instant) × (earlier soonest u ≡ some t)
        × (t ≤ u)
        × ((v : Instant) → soonest ≡ some v → t ≤ v)
  earlier-le none u = (u, refl, omega arith, λ v e. ground arith)
  earlier-le (some s) u = (min_of s u, refl, ground arith, λ v e. ground arith)

  Hints-skip :
      (p : Pool) (soonest : Option Instant) (i n : ℕ) (hint : Option Instant) (u : Instant)
      → i < n
      → Cools (p.breakers i) p.clock u
      → Hints p (earlier soonest u) (suc i) n hint
      → Hints p soonest i n hint
  Hints-skip p soonest i n hint u lt c ih =
      let (m, is_m, m_u, m_v) = earlier-le soonest u in
      let (t, is_t, t_m) = ih.kept m is_m in
      record {
        kept = λ v e. (t, is_t, omega (arith, t_m, m_v v e));
        early = λ j le below. first j (le_cases i j le) below t is_t (omega (arith, t_m, m_u));
        reached = λ t' e. elim (ih.reached t' e) [
          | inl q ↦ from_here t' (earliest soonest u t' q)
          | inr (j, le, below, ahead, a) ↦ inr (j, omega (arith, le), below, ahead, a)
        ];
      }
    where
      le_cases : (i j : ℕ) → i ≤ j → (i ≡ j) ⊎ (suc i ≤ j)
      le_cases i j h = ground arith

      first :
          (j : ℕ)
          → (i ≡ j) ⊎ (suc i ≤ j)
          → j < n
          → (t : Instant) → hint ≡ some t
          → t ≤ u
          → (t : Instant) × (hint ≡ some t) × Rejects (p.breakers j) t
      first j (inr more) below t e le = ih.early j more below
      first j (inl same) below t e le =
          (t, e, subst (λ k. Rejects (p.breakers k) t) same (Rejects-le _ t u le c.rejects))

      from_here :
          (t : Instant)
          → (soonest ≡ some t) ⊎ (u ≡ t)
          → (soonest ≡ some t)
            ⊎ ((j : ℕ) × (i ≤ j) × (j < n) × (p.clock < t) × Admits (p.breakers j) t)
      from_here t (inl e) = inl e
      from_here t (inr e) = inr (
        i,
        omega arith,
        lt,
        subst (λ t. p.clock < t) e c.ahead,
        subst (λ t. Admits (p.breakers i) t) e c.admits,
      )

  scan-Hints :
      {A : Type 0} (p : Pool) (i : ℕ) (ts : List A) (soonest : Option Instant)
      → ((j : ℕ) → IsSound (p.breakers j))
      → (scan p i ts soonest).0 ≡ []
      → Hints p soonest i (i + length ts) (scan p i ts soonest).1
  scan-Hints p i [] soonest v h = record {
    kept = λ u e. (u, e, omega arith);
    early = λ j le lt. absurd (omega (arith, le, lt));
    reached = λ t e. inl e;
  }
  scan-Hints {A} p i (x ∷ ts) soonest v h =
      scanned (is_open (circuit_state (p.breakers i) p.clock)) refl h
        (λ s k. scan-Hints p (suc i) ts s v k)
    where
      n : ℕ
      n = i + length (x ∷ ts)

      scanned :
          (b : Bool)
          → is_open (circuit_state (p.breakers i) p.clock) ≡ b
          → (if b
              then scan p (suc i) ts (sooner soonest (cooling_until (p.breakers i) p.clock))
              else (i ∷ (scan p (suc i) ts soonest).0, (scan p (suc i) ts soonest).1)).0
            ≡ []
          → ((s : Option Instant)
              → (scan p (suc i) ts s).0 ≡ []
              → Hints p s (suc i) (suc i + length ts) (scan p (suc i) ts s).1)
          → Hints p soonest i n
              (if b
                then scan p (suc i) ts (sooner soonest (cooling_until (p.breakers i) p.clock))
                else (i ∷ (scan p (suc i) ts soonest).0, (scan p (suc i) ts soonest).1)).1
      scanned false e k ih = ground arith
      scanned true e k ih =
          let (u, c) = is_open-Cools (p.breakers i) p.clock (v i) e in
          let same : sooner soonest (cooling_until (p.breakers i) p.clock) ≡ earlier soonest u =
            ap (sooner soonest) c.reported in
          let hint : Option Instant =
            (scan p (suc i) ts (sooner soonest (cooling_until (p.breakers i) p.clock))).1 in
          Hints-skip p soonest i n hint u (omega arith) c (
            subst (λ s. Hints p s (suc i) n hint) same
              (subst
                (λ m.
                  Hints p (sooner soonest (cooling_until (p.breakers i) p.clock)) (suc i) m hint)
                (omega arith) (ih _ k)))

  -- When the breakers of all targets are open, the hint is the first instant at which some target's
  -- breaker admits a call: it lies ahead, before it every target rejects, and from it on one admits.
  pub healthy_members-hint :
      {Key E : Type 0} (r : RouterPolicy Key E) (p : Pool)
      → ((j : ℕ) → IsSound (p.breakers j))
      → 0 < length r.targets
      → (healthy_members r p).0 ≡ []
      → (t : Instant) × ((healthy_members r p).1 ≡ some t)
        × (p.clock < t)
        × ((j : ℕ) → j < length r.targets → Rejects (p.breakers j) t)
        × ((j : ℕ) × (j < length r.targets) × Admits (p.breakers j) t)
  unfolding healthy_members
  healthy_members-hint r p v some_target none_healthy =
      let h = scan-Hints p 0 r.targets none v none_healthy in
      let (t, is_t, _) = h.early 0 (omega arith) (omega (arith, some_target)) in
      elim (h.reached t is_t) [
        | inl e ↦ absurd (some_is_none t e)
        | inr (j, le, lt, ahead, admits) ↦ (
          t,
          is_t,
          ahead,
          λ k below. at t is_t k (h.early k (omega arith) (omega (arith, below))),
          (j, omega (arith, lt), admits),
        )
      ]
    where
      some_is_none : (t : Instant) → ¬ (none ≡ some t)
      some_is_none t e = ground arith

      at :
          (t : Instant)
          → (scan p 0 r.targets none).1 ≡ some t
          → (j : ℕ)
          → ((u : Instant) × ((scan p 0 r.targets none).1 ≡ some u) × Rejects (p.breakers j) u)
          → Rejects (p.breakers j) t
      at t e j (u, e', q) = subst (Rejects (p.breakers j)) (ground arith) q
