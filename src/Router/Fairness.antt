-- ===== src/Router/Fairness.antt =====
-- Round robin over many runs of the router (`run` of src/router.rs, `round_robin` of src/pick.rs).
use execution_policy.Base.{
  ℕ, zero, suc, ◌+◌, ◌≤◌, ◌<◌, ◌≡◌, refl, sym, ap, ◌∙◌, subst, inl, inr, true, false, Option, none,
  some, List, [], ◌∷◌, arith, length, range, ◌==◌, Bool-cases,
}
use execution_policy.Base.Float.{Float64, F64}
use execution_policy.Pick.{round_robin}
use execution_policy.Router.{RouterPolicy, Pool}
use execution_policy.Router.Run.{Routed, served, Serve, run}
use execution_policy.Router.Loads.{Others, Fits, Loaded, one_at, run-Loaded}
use execution_policy.Router.Turns.{Counts}
use execution_policy.Router.Prompt.{
  Has-range, range-Has, Unguarded, Prompt, Turn, members, Below, run-Turn,
}

pub second :
    {A B : Type 0} {a b : A} {x y : B}
    → ◌≡◌ {A = Option (A × B)} (some (a, x)) (some (b, y))
    → x ≡ y
second {A} {B} {a} {b} {x} h = ap (λ (o : Option (A × B)). elim o [ none ↦ x | some q ↦ q.1 ]) h

module _ ⦃f : Float64⦄ where
  module _ {Key T E : Type 0} (r : RouterPolicy Key E) (serve : Serve T E) where
    -- The pool after `m` runs, one after the other.
    abbrev pub after_runs : ℕ → Pool → Pool
    after_runs zero p = p
    after_runs (suc m) p = after_runs m (run r serve p).2

  module _ {Key E : Type 0} (r : RouterPolicy Key E) where
    -- No member was picked more than once more than another.
    abbrev pub Even : Pool → Type 0
    Even p =
        (i k : ℕ)
        → i < length r.targets
        → k < length r.targets
        → (p.loads i).pick_count ≤ (p.loads k).pick_count + 1

  abbrev pub all_picks : Pool → List ℕ → ℕ
  all_picks p [] = 0
  all_picks p (k ∷ ks) = (p.loads k).pick_count + all_picks p ks

  module _ {Key T E : Type 0} (r : RouterPolicy Key E) (serve : Serve T E) (prompt : Prompt serve)
      (limit : ℕ) (rank : F64 → ℕ) (counts : Counts limit rank) (turns : r.select ≡ round_robin)
      (meterless : r.meter ≡ none) (some_target : 0 < length r.targets) where
    others : Others serve (λ _ _. 0) (λ _ _. 0)
    others i p p1 o fits e k =
        let (v, q, e', loads, same) = prompt i p in
        let kept : p1.loads ≡ p.loads = ap (λ (l : Pool). l.loads) (second (sym e ∙ e')) ∙ loads in
        rw kept (ground (arith, fits k))

    -- What one turn does to the counts.
    record Stepped (p p' : Pool) : Type 0 where
      who : ℕ
      in_range : who < length r.targets
      least : (k : ℕ) → k < length r.targets → (p.loads who).pick_count ≤ (p.loads k).pick_count
      counted :
          (k : ℕ)
          → k < length r.targets
          → (p'.loads k).pick_count ≡ (p.loads k).pick_count + one_at who k
      fits : Fits p'
      unguarded : Unguarded p'

    abbrev LoadedFrom : Pool → Routed Key T E → List ℕ → Pool → Type 0
    LoadedFrom p x is p' = Loaded (λ _ _. 0) (λ _ _. 0) p x is p'

    run-Stepped :
        (p : Pool)
        → limit ≤ 18446744073709551615
        → Below r limit p
        → Fits p
        → Unguarded p
        → Stepped p (run r serve p).2
    run-Stepped p small below fits u =
        let t = run-Turn r serve prompt limit rank counts turns meterless some_target p below u in
        let j = run r serve p in
        moved t (
          subst (λ (x : Routed Key T E). LoadedFrom p x j.1 j.2) t.served_by
            (run-Loaded r serve (λ _ _. 0) (λ _ _. 0) p others fits))
      where
        moved :
            (t : Turn p (members r) (run r serve p))
            → LoadedFrom p (served t.result) (run r serve p).1 (run r serve p).2
            → Stepped p (run r serve p).2
        moved t loaded =
            let counts_of =
              subst (λ (is : List ℕ). LoadedFrom p (served t.result) is (run r serve p).2)
                t.tried_one loaded in
            let who_in = Has-range t.who 0 (length r.targets) t.one_of in
            record {
              who = t.who;
              in_range = omega (arith, who_in.1);
              least = λ k lt.
                  t.least k (range-Has k 0 (length r.targets) (omega arith) (omega (arith, lt)));
              counted = λ k lt. ground (arith, counts_of k, below k lt);
              fits = λ k. ground (arith, counts_of k);
              unguarded = t.unguarded;
            }

    Stepped-Even : (p p' : Pool) → Stepped p p' → Even r p → Even r p'
    Stepped-Even p p' s even i k i_in k_in =
        let low = s.least k k_in in
        elim (Bool-cases (i == s.who)) [
          | inl same ↦
              let as_who = ap (λ n. (p.loads n).pick_count) (at i s.who same) in
              omega (arith, s.counted i i_in, s.counted k k_in, low, as_who, upto i)
          | inr other ↦
              omega (arith, s.counted i i_in, s.counted k k_in, even i k i_in k_in, off i other)
        ]
      where
        at : (m n : ℕ) → (m == n) ≡ true → m ≡ n
        at m n e = ground (arith, e)

        upto : (i : ℕ) → one_at s.who i ≤ 1
        upto i = ground arith

        off : (i : ℕ) → (i == s.who) ≡ false → one_at s.who i ≡ 0
        off i e = ground (arith, e)

    module _ (p p' : Pool) (s : Stepped p p') where
      picks_missed :
          (i n : ℕ)
          → s.who < i
          → i + n ≤ length r.targets
          → all_picks p' (range i n) ≡ all_picks p (range i n)
      picks_missed i zero lt le = refl
      picks_missed i (suc n) lt le = omega (
        arith,
        s.counted i (omega (arith, le)),
        off,
        picks_missed (suc i) n (omega (arith, lt)) (omega (arith, le)),
      )
        where
          off : one_at s.who i ≡ 0
          off = ground (arith, lt)

      picks_hit :
          (i n : ℕ)
          → i ≤ s.who
          → s.who < i + n
          → i + n ≤ length r.targets
          → all_picks p' (range i n) ≡ all_picks p (range i n) + 1
      picks_hit i zero lo hi le = absurd (omega (arith, lo, hi))
      picks_hit i (suc n) lo hi le = elim (Bool-cases (i == s.who)) [
        | inl same ↦ omega (
          arith,
          s.counted i (omega (arith, le)),
          on same,
          picks_missed (suc i) n (ground (arith, same)) (omega (arith, le)),
        )
        | inr other ↦ omega (
          arith,
          s.counted i (omega (arith, le)),
          off other,
          picks_hit (suc i) n (ground (arith, other, lo)) (omega (arith, hi)) (omega (arith, le)),
        )
      ]
        where
          on : (i == s.who) ≡ true → one_at s.who i ≡ 1
          on e = ground (arith, e)

          off : (i == s.who) ≡ false → one_at s.who i ≡ 0
          off e = ground (arith, e)

    -- Round robin is fair. From counts that differ by at most one, after any number of runs they do so
    -- again, and the runs have added one pick each: with `m` runs over `n` new members, each of these
    -- was picked `m / n` times, rounded down or up. It is so for members without a breaker that serve
    -- every call, with no other task on them and no meter, and for counts below the limit of exact
    -- floats.
    pub after_runs-Even :
        (m : ℕ) (p : Pool)
        → limit ≤ 18446744073709551615
        → Fits p
        → Unguarded p
        → ((k : ℕ) → k < length r.targets → (p.loads k).pick_count + m ≤ limit)
        → Even r p
        → Even r (after_runs r serve m p)
          × (all_picks (after_runs r serve m p) (members r) ≡ all_picks p (members r) + m)
    after_runs-Even zero p small fits u below even = (even, omega arith)
    after_runs-Even (suc m) p small fits u below even =
        let s = run-Stepped p small (λ k lt. omega (arith, below k lt)) fits u in
        let p' = (run r serve p).2 in
        let (even', sum) =
          after_runs-Even m p' small s.fits s.unguarded
            (λ k lt. omega (arith, s.counted k lt, below k lt, at_most s.who k))
            (Stepped-Even p p' s even) in
        (
          even',
          omega (
            arith,
            sum,
            picks_hit p p' s 0 (length r.targets) (omega arith) (omega (arith, s.in_range))
                (omega arith),
          ),
        )
      where
        at_most : (who k : ℕ) → one_at who k ≤ 1
        at_most who k = ground arith
