-- ===== src/Router/Members.antt =====
-- Lists of members by their index: what `retain` leaves (src/router.rs).
use execution_policy.Base.{
  ℕ, ◌<◌, ◌≡◌, ◌⊎◌, List, [], ◌∷◌, arith, length, length-retain-le, not, ◌==◌,
}
use execution_policy.Router.Run.{others}

-- The number stands in the list.
abbrev pub Has : ℕ → List ℕ → Type 0
Has x [] = ⊥
Has x (y ∷ ys) = (x ≡ y) ⊎ Has x ys

-- No number stands in the list twice.
abbrev pub Distinct : List ℕ → Type 0
Distinct [] = Unit {0}
Distinct (x ∷ xs) = (¬ Has x xs) × Distinct xs

pub Has-others : (i x : ℕ) (xs : List ℕ) → Has x (others i xs) → Has x xs × ¬ (x ≡ i)
Has-others i x [] h = absurd h
Has-others i x (y ∷ ys) h = ground (arith, Has-others i x ys)

pub others-Has : (i x : ℕ) (xs : List ℕ) → Has x xs → ¬ (x ≡ i) → Has x (others i xs)
others-Has i x [] h ne = absurd h
others-Has i x (y ∷ ys) h ne = ground (arith, others-Has i x ys)

pub length-others_lt : (i : ℕ) (xs : List ℕ) → Has i xs → length (others i xs) < length xs
length-others_lt i [] h = absurd h
length-others_lt i (y ∷ ys) h =
    ground (arith, length-others_lt i ys, length-retain-le (λ j. not (j == i)) ys)
