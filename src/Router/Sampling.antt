-- ===== src/Router/Sampling.antt =====
-- The sample is drawn without repetition (`sample_distinct` of src/router.rs).
use execution_policy.Base.{
  ℕ, zero, suc, ◌+◌, ◌-◌, ◌%◌, ◌≤◌, ◌<◌, ◌≡◌, refl, inl, inr, arith, length, map, range,
}
use execution_policy.Base.Float.{Float64}
use execution_policy.Router.{Pool}
use execution_policy.Router.Choose.{swap, shuffle, sample_distinct}
use execution_policy.Router.Members.{Has, Distinct}

-- The first `n` entries are the numbers below `n` in some order.
record Shuffled (n : ℕ) (idx : ℕ → ℕ) : Type 0 where
  below : (m : ℕ) → m < n → idx m < n
  once : (a b : ℕ) → a < n → b < n → idx a ≡ idx b → a ≡ b

swap-Shuffled :
    (n i j : ℕ) (idx : ℕ → ℕ) → i < n → j < n → Shuffled n idx → Shuffled n (swap idx i j)
swap-Shuffled n i j idx hi hj s = record {
  below = λ m h. ground (arith, s.below m h, s.below i hi, s.below j hj);
  once = λ a b ha hb e. ground (
    arith,
    s.once a b ha hb,
    s.once i a hi ha,
    s.once j a hj ha,
    s.once i b hi hb,
    s.once j b hj hb,
    s.once i j hi hj,
  );
}

map-Has :
    (idx : ℕ → ℕ) (i k x : ℕ)
    → Has x (map idx (range i k))
    → (m : ℕ) × (i ≤ m) × (m < i + k) × (x ≡ idx m)
map-Has idx i zero x h = absurd h
map-Has idx i (suc k) x (inl e) = (i, omega arith, omega arith, e)
map-Has idx i (suc k) x (inr h) =
    let (m, le, lt, e) = map-Has idx (suc i) k x h in (m, omega (arith, le), omega (arith, lt), e)

map-Distinct :
    (n : ℕ) (idx : ℕ → ℕ) (i k : ℕ) → Shuffled n idx → i + k ≤ n → Distinct (map idx (range i k))
map-Distinct n idx i zero s h = tt
map-Distinct n idx i (suc k) s h = (
  λ q.
      let (m, le, lt, e) = map-Has idx (suc i) k (idx i) q in
      omega (arith, le, s.once i m (omega arith) (omega (arith, lt)) e),
  map-Distinct n idx (suc i) k s (omega arith),
)

length-map-range : (idx : ℕ → ℕ) (i k : ℕ) → length (map idx (range i k)) ≡ k
length-map-range idx i zero = refl
length-map-range idx i (suc k) = omega (arith, length-map-range idx (suc i) k)

module _ ⦃f : Float64⦄ where
  shuffle-Shuffled :
      (left i n : ℕ) (idx : ℕ → ℕ) (p : Pool)
      → i + left ≤ n
      → Shuffled n idx
      → Shuffled n (shuffle left i n idx p).0
  unfolding shuffle
  shuffle-Shuffled zero i n idx p h s = s
  shuffle-Shuffled (suc left) i n idx p h s =
      shuffle-Shuffled left (suc i) n _ _ (omega arith)
        (swap-Shuffled n i (i + p.random p.drawn % (n - i)) idx (omega arith) (omega arith) s)

  -- A sample of `k` of `n` indices has `k` of them, each below `n` and none twice, whatever the random
  -- numbers are.
  pub sample_distinct-Distinct :
      (n k : ℕ) (p : Pool)
      → k ≤ n
      → Distinct (sample_distinct n k p).0
        × (length (sample_distinct n k p).0 ≡ k)
        × ((x : ℕ) → Has x (sample_distinct n k p).0 → x < n)
  unfolding sample_distinct
  sample_distinct-Distinct n k p h =
      let idx : ℕ → ℕ = (shuffle k 0 n (λ m. m) p).0 in
      let s : Shuffled n idx =
        shuffle-Shuffled k 0 n (λ m. m) p (omega arith)
          (record { below = λ m q. q; once = λ a b ha hb e. e }) in
      (
        map-Distinct n idx 0 k s (omega arith),
        length-map-range idx 0 k,
        λ x q.
            let (m, le, lt, e) = map-Has idx 0 k x q in
            omega (arith, e, s.below m (omega (arith, lt))),
      )
