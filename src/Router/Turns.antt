-- ===== src/Router/Turns.antt =====
-- The member that the round-robin strategy chooses (`round_robin` of src/pick.rs, `choose` of
-- src/router.rs).
use execution_policy.Base.{
  ℕ, zero, suc, ◌≤◌, ◌<◌, ◌≡◌, refl, sym, ap, ◌∙◌, subst, inl, inr, Bool, true, false, Option, none,
  some, List, [], ◌∷◌, arith, length, nth, traverse, ltb, ◌==◌,
}
use execution_policy.Base.Float.{Float64, F64}
use execution_policy.Pick.{Candidate, Pick, round_robin, by_score}
use execution_policy.Member.{Member, MemberState, Meter}
use execution_policy.Router.{RouterPolicy, Pool}
use execution_policy.Router.Choose.{
  Choice, chosen, bad_score, panicked, choose, candidate_of, described,
}
use execution_policy.Router.Members.{Has}
use execution_policy.Router.Least.{Ranks, Least, In}
use execution_policy.Router.Argmin.{choose-Least}

-- An index of a target.
pub valid_index : {A : Type 0} (xs : List A) (i : ℕ) → i < length xs → (x : A) × (nth xs i ≡ some x)
valid_index [] i lt = absurd (omega (arith, lt))
valid_index (x ∷ xs) zero lt = (x, refl)
valid_index (x ∷ xs) (suc i) lt = valid_index xs i (omega (arith, lt))

traverse-cons :
    {A B : Type 0} (g : A → Option B) (x : A) (xs : List A) (y : B) (ys : List B)
    → g x ≡ some y
    → traverse g xs ≡ some ys
    → traverse g (x ∷ xs) ≡ some (y ∷ ys)
traverse-cons g x xs y ys e es = rw (e, es, traverse) refl

module _ ⦃f : Float64⦄ where
  -- `n as f64` is finite and exact for counts below the limit, and ordered as the counts are. This is so
  -- of `f64` up to 2^53.
  pub record Counts (limit : ℕ) (rank : F64 → ℕ) : Type 0 where
    pub finite : (n : ℕ) → n < limit → f.is_finite (f.of_u64 n) ≡ true
    pub exact : (n : ℕ) → n < limit → rank (f.of_u64 n) ≡ n
    pub less :
        (m n : ℕ)
        → f.total_less (f.of_u64 m) (f.of_u64 n) ≡ ltb (rank (f.of_u64 m)) (rank (f.of_u64 n))
    pub same : (m n : ℕ) → f.eq (f.of_u64 m) (f.of_u64 n) ≡ (rank (f.of_u64 m) == rank (f.of_u64 n))

  -- A candidate without a latency.
  abbrev plain : {Key : Type 0} → ℕ → Member Key → MemberState → Candidate Key
  plain index t s = record {
    id = t.id;
    index = index;
    in_flight = s.in_flight;
    weight = t.weight;
    pick_count = s.pick_count;
    latency = none;
  }

  described-plain :
      {Key : Type 0} (index : ℕ) (m : Option Meter) (s : MemberState) (o : Option (Member Key))
      (t : Member Key)
      → m ≡ none
      → o ≡ some t
      → described index m s o ≡ some (plain index t s)
  described-plain index m s o t em eo = rw (em, eo) refl

  module _ {Key E : Type 0} (r : RouterPolicy Key E) (p : Pool) where
    abbrev pub picks_of : ℕ → ℕ
    picks_of k = (p.loads k).pick_count

    -- The candidates of the members `hs`.
    record Describes (hs : List ℕ) (cands : List (Candidate Key)) : Type 0 where
      each : (c : Candidate Key) → In c cands → Has c.index hs × (c.pick_count ≡ picks_of c.index)
      all : (k : ℕ) → Has k hs → (c : Candidate Key) × In c cands × (c.index ≡ k)

    candidates :
        (hs : List ℕ)
        → r.meter ≡ none
        → ((k : ℕ) → Has k hs → k < length r.targets)
        → (cands : List (Candidate Key)) × (traverse (candidate_of r p) hs ≡ some cands)
          × Describes hs cands
    unfolding candidate_of
    candidates [] none_set valid =
        ([], refl, record { each = λ c m. absurd m; all = λ k h. absurd h })
    candidates (h ∷ hs) none_set valid =
        let (t, found) = valid_index r.targets h (valid h (inl refl)) in
        let (cands, e, d) = candidates hs none_set (λ k m. valid k (inr m)) in
        let c = plain h t (p.loads h) in
        (
          c ∷ cands,
          traverse-cons (candidate_of r p) h hs c cands
              (described-plain h r.meter (p.loads h) (nth r.targets h) t none_set found) e,
          record {
            each = λ c' m. elim m [
              | inl same ↦ (
                inl (ap (λ q. q.index) same),
                ap (λ q. q.pick_count) same ∙ ap picks_of (sym (ap (λ q. q.index) same)),
              )
              | inr k ↦ (inr (d.each c' k).0, (d.each c' k).1)
            ];
            all = λ k m. elim m [
              | inl same ↦ (c, inl refl, sym same)
              | inr n ↦ let (c', i, e') = d.all k n in (c', inr i, e')
            ];
          },
        )

    -- A member of `hs` that no other one was picked less often than.
    abbrev pub LeastPicked : List ℕ → Choice Key → Type 0
    LeastPicked hs (chosen i) = Has i hs × ((k : ℕ) → Has k hs → picks_of i ≤ picks_of k)
    LeastPicked hs (bad_score id value) = ⊥
    LeastPicked hs panicked = ⊥

    module _ (limit : ℕ) (rank : F64 → ℕ) (counts : Counts limit rank) where
      some_inj : {x y : F64} → some x ≡ some y → x ≡ y
      some_inj h = ground arith

      round_robin-Ranks : Ranks (round_robin {Key = Key}).score rank
      unfolding round_robin by_score
      round_robin-Ranks = record {
        less = λ c d x y sc sd fx fy.
            rw (← some_inj sc, ← some_inj sd) (counts.less c.pick_count d.pick_count);
        same = λ c d x y sc sd fx fy.
            rw (← some_inj sc, ← some_inj sd) (counts.same c.pick_count d.pick_count);
      }

      Least-LeastPicked :
          (hs : List ℕ) (cands : List (Candidate Key)) (o : Choice Key)
          → Describes hs cands
          → (k : ℕ) → Has k hs
          → ((j : ℕ) → Has j hs → picks_of j < limit)
          → Least (round_robin {Key = Key}).score rank cands o
          → LeastPicked hs o
      unfolding round_robin by_score
      Least-LeastPicked hs cands (chosen i) d k m below (c, x, c_in, e, sc, fin, beats) =
          let (c_has, c_picks) = d.each c c_in in
          (
            subst (λ j. Has j hs) e c_has,
            λ j j_has.
                let (q, q_in, q_is) = d.all j j_has in
                let (q_has, q_picks) = d.each q q_in in
                let rank_c = ranked c x (c_has) c_picks sc in
                let rank_q = ranked q (f.of_u64 q.pick_count) q_has q_picks refl in
                elim (beats q q_in (f.of_u64 q.pick_count) refl) [
                  | inl lt ↦ omega (arith, lt, rank_c, rank_q, ap picks_of e, ap picks_of q_is)
                  | inr tie ↦ omega (arith, tie.0, rank_c, rank_q, ap picks_of e, ap picks_of q_is)
                ],
          )
        where
          ranked :
              (c : Candidate Key) (x : F64)
              → Has c.index hs
              → c.pick_count ≡ picks_of c.index
              → some (f.of_u64 c.pick_count) ≡ some x
              → rank x ≡ picks_of c.index
          ranked c x has same sc =
              ap rank (sym (some_inj sc) ∙ ap f.of_u64 same)
              ∙ counts.exact (picks_of c.index) (below c.index has)
      Least-LeastPicked hs cands (bad_score id x) d k m below (c, c_in, sc, fin, e) =
          let (has, same) = d.each c c_in in
          not_finite
            (ap f.is_finite (sym (some_inj sc) ∙ ap f.of_u64 same)
              ∙ counts.finite (picks_of c.index) (below c.index has))
            fin
        where
          not_finite : {b : Bool} → b ≡ true → b ≡ false → ⊥
          not_finite t n = ground arith
      Least-LeastPicked hs cands panicked d k m below (inl empty) =
          let (c, c_in, e) = d.all k m in subst (In c) empty c_in
      Least-LeastPicked hs cands panicked d k m below (inr (c, c_in, sc)) = not_none sc
        where
          not_none : {x : F64} → some x ≡ none → ⊥
          not_none h = ground arith

      -- With round robin and no meter, `choose` gives one of the healthy members that were picked least
      -- often, as long as their counts are below the limit of exact floats. It neither fails nor panics.
      pub choose-LeastPicked :
          (hs : List ℕ)
          → r.select ≡ round_robin
          → r.meter ≡ none
          → ((k : ℕ) → Has k hs → (k < length r.targets) × (picks_of k < limit))
          → (k : ℕ) → Has k hs
          → LeastPicked hs (choose r hs p).0
      unfolding round_robin by_score
      choose-LeastPicked hs turns none_set valid k m =
          let (cands, e, d) = candidates hs none_set (λ j h. (valid j h).0) in
          Least-LeastPicked hs cands _ d k m (λ j h. (valid j h).1)
            (subst (λ (s : Pick Key). Least s.score rank cands (choose r hs p).0) turns
              (choose-Least r rank hs p cands (ap (λ (s : Pick Key). s.sample) turns)
                (subst (λ (s : Pick Key). Ranks s.score rank) (sym turns) round_robin-Ranks) e))
