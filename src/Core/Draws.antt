-- ===== src/Core/Draws.antt =====
-- What tasks draw from a core that they share.
use execution_policy.Base.{ℕ, zero, suc, ◌+◌, ◌*◌, ◌<◌, ◌≡◌, ◌≢◌, refl, sym, ap, ◌∙◌, arith, u64}
use execution_policy.Base.{List, [], ◌∷◌, map, length, nth, Option, none, some}
use execution_policy.Core.Rng.{mix, golden, stream}
use execution_policy.Core.Rng
use execution_policy.Core.Rng.Unmix.{unmix, unmix-mix}
use execution_policy.Core.Tokio.{TokioCore, drawn, next_u64}

-- The numbers that the tasks draw, in the order of their `fetch_add`s, are the numbers of one
-- SplitMix64 generator with the core's state as its seed.
pub drawn-stream :
    (tasks : List ℕ) (core : TokioCore)
    → map (λ d. d.1) (drawn tasks core) ≡ stream (length tasks) (Rng.new core.rng_state)
drawn-stream [] core = refl
drawn-stream (task ∷ tasks) core =
    let (x, core') = next_u64 core in ap (λ xs. x ∷ xs) (drawn-stream tasks core')

-- The number at a place of the draws.
nth-drawn :
    (tasks : List ℕ) (core : TokioCore) (i : ℕ) (d : ℕ × ℕ)
    → nth (drawn tasks core) i ≡ some d
    → d.1 ≡ mix (u64 (core.rng_state + suc i * golden))
nth-drawn [] core i d h = cc
nth-drawn (task ∷ tasks) core zero d h =
    sym (ap (λ o. (unwrap o).1) h) ∙ ap (λ n. mix n) (omega arith)
  where
    unwrap : Option (ℕ × ℕ) → ℕ × ℕ
    unwrap none = d
    unwrap (some e) = e
nth-drawn (task ∷ tasks) core (suc i) d h = nth-drawn tasks _ i d h ∙ ap (λ n. mix n) (omega arith)

-- The step of the state is odd: two places of one period with equal states are the same place.
same_place :
    (s i j : ℕ)
    → i < 18446744073709551616
    → j < 18446744073709551616
    → u64 (s + suc i * golden) ≡ u64 (s + suc j * golden)
    → i ≡ j
same_place s i j p q h = omega (arith, place i, place j, ap (λ n. u64 (n * 17428512612931826493)) h)
  where
    place :
        (n : ℕ)
        → u64 (u64 (s + suc n * golden) * 17428512612931826493)
          ≡ u64 (s * 17428512612931826493 + suc n)
    place n = omega arith

-- Of the first 2^64 draws from a core that tasks share, no two give the same number, whichever tasks
-- draw them.
pub drawn-distinct :
    (tasks : List ℕ) (core : TokioCore) (i j : ℕ) (d e : ℕ × ℕ)
    → i < 18446744073709551616
    → j < 18446744073709551616
    → i ≢ j
    → nth (drawn tasks core) i ≡ some d
    → nth (drawn tasks core) j ≡ some e
    → d.1 ≢ e.1
drawn-distinct tasks core i j d e p q apart h g same = apart (
    same_place core.rng_state i j p q (
      sym (unmix-mix _ (omega arith))
      ∙ ap (λ n. unmix n) (sym (nth-drawn tasks core i d h) ∙ same ∙ nth-drawn tasks core j e g)
      ∙ unmix-mix _ (omega arith)))
