-- ===== src/Router/Choose.antt =====
-- How the router chooses a member (`choose` and `sample_distinct` of src/router.rs).
use execution_policy.Base.{
  ℕ, zero, suc, ◌+◌, ◌-◌, ◌%◌, Bool, true, ◌&&◌, ◌||◌, Option, none, some, List, [], ◌∷◌, map, ◌==◌,
  ltb, if◌then◌else◌, length, nth, traverse, range, Duration,
}
use execution_policy.Base.Float.{Float64, F64}
use execution_policy.Pick.{Pick, Candidate}
use execution_policy.Member.{MemberState, Member, Meter, PeakEwmaState}
use execution_policy.Router.{RouterPolicy, Pool}

-- `idx.swap(i, j)`: a vector is the function of its entries.
abbrev pub swap : (ℕ → ℕ) → ℕ → ℕ → (ℕ → ℕ)
swap idx i j m = if m == i then idx j else if m == j then idx i else idx m

module _ ⦃f : Float64⦄ where
  -- The loop of `sample_distinct`: `left` draws more, the next for place `i`.
  unfoldable pub shuffle : ℕ → ℕ → ℕ → (ℕ → ℕ) → Pool → (ℕ → ℕ) × Pool
  shuffle zero i n idx p = (idx, p)
  shuffle (suc left) i n idx p =
      let j = i + p.random p.drawn % (n - i) in
      shuffle left (suc i) n (swap idx i j) (record p { drawn = suc p.drawn })

  unfoldable pub sample_distinct : ℕ → ℕ → Pool → List ℕ × Pool
  sample_distinct n k p = let (idx, p') = shuffle k 0 n (λ m. m) p in (map idx (range 0 k), p')

  abbrev pub positions : Option ℕ → ℕ → Pool → List ℕ × Pool
  positions none n p = (range 0 n, p)
  positions (some k) n p = if ltb k n then sample_distinct n k p else (range 0 n, p)

  abbrev reading : Option PeakEwmaState → Option Duration
  reading none = some 0
  reading (some s) = f.from_secs s.value_secs

  -- `none` is a panic of `from_secs_f64`.
  abbrev pub latency_of : Option Meter → MemberState → Option (Option Duration)
  latency_of none s = some none
  latency_of (some _) s = elim (reading s.meter) [ none ↦ none | some d ↦ some (some d) ]

  module _ {Key : Type 0} where
    abbrev candidate : ℕ → Member Key → MemberState → Option Duration → Candidate Key
    candidate index t s latency = record {
      id = t.id;
      index = index;
      in_flight = s.in_flight;
      weight = t.weight;
      pick_count = s.pick_count;
      latency = latency;
    }

    abbrev pub with_latency :
        ℕ → Member Key → MemberState → Option (Option Duration) → Option (Candidate Key)
    with_latency index t s none = none
    with_latency index t s (some latency) = some (candidate index t s latency)

    abbrev pub described :
        ℕ → Option Meter → MemberState → Option (Member Key) → Option (Candidate Key)
    described index meter s none = none
    described index meter s (some t) = with_latency index t s (latency_of meter s)

  module _ {Key E : Type 0} where
    unfoldable pub candidate_of : RouterPolicy Key E → Pool → ℕ → Option (Candidate Key)
    candidate_of r p index = described index r.meter (p.loads index) (nth r.targets index)

  -- What `choose` gives: a target's index, a score that is not finite, or a panic.
  pub data Choice (Key : Type 0) : Type 0 where
    chosen : ℕ → Choice Key
    bad_score : (id : Key) (value : F64) → Choice Key
    panicked : Choice Key

  module _ {Key : Type 0} where
    abbrev pub takes : Option (Candidate Key × F64) → Candidate Key → F64 → Bool
    takes none c s = true
    takes (some (b, bs)) c s = f.total_less s bs || f.eq s bs && ltb c.index b.index

    abbrev found : Option (Candidate Key × F64) → Choice Key
    found none = panicked
    found (some (b, _)) = chosen b.index

    -- The loop over the positions, with the candidates in their order.
    unfoldable pub best_of :
        (Candidate Key → Option F64)
        → List (Candidate Key)
        → Option (Candidate Key × F64)
        → Choice Key
    best_of score [] best = found best
    best_of score (c ∷ cs) best = elim (score c) [
      | none ↦ panicked
      | some s ↦
          let rest = best_of score cs (if takes best c s then some (c, s) else best) in
          if f.is_finite s then rest else bad_score c.id s
    ]

    abbrev pub best_among :
        (Candidate Key → Option F64) → Pool → Option (List (Candidate Key)) → Choice Key × Pool
    best_among score p none = (panicked, p)
    best_among score p (some cs) = (best_of score cs none, p)

    abbrev pub best_at :
        (Candidate Key → Option F64) → List (Candidate Key) → List ℕ × Pool → Choice Key × Pool
    best_at score cands (ps, p) = best_among score p (traverse (nth cands) ps)

    abbrev pub choose_from : Pick Key → Pool → Option (List (Candidate Key)) → Choice Key × Pool
    choose_from pick p none = (panicked, p)
    choose_from pick p (some cands) =
        best_at pick.score cands (positions pick.sample (length cands) p)

  module _ {Key E : Type 0} where
    unfoldable pub choose : RouterPolicy Key E → List ℕ → Pool → Choice Key × Pool
    choose r healthy p = choose_from r.select p (traverse (candidate_of r p) healthy)
