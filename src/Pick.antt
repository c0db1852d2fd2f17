-- ===== src/Pick.antt =====
-- Selection strategies (src/pick.rs).
use execution_policy.Base.{ℕ, zero, Duration, Bool, true, false, Option, none, some, not}
use execution_policy.Base.Float.{Float64, F64}

abbrev is_zero : Option ℕ → Bool
is_zero (some zero) = true
is_zero _ = false

module _ ⦃f : Float64⦄ where
  pub record Candidate (Key : Type 0) : Type 0 where
    pub id : Key
    pub index : ℕ
    pub in_flight : ℕ
    pub weight : F64
    pub pick_count : ℕ
    pub latency : Option Duration

  -- A score closure that panics gives `none`.
  pub record Pick (Key : Type 0) : Type 0 where
    pub score : Candidate Key → Option F64
    pub sample : Option ℕ
    pub requires_meter : Bool

  -- `expect` panics without a latency.
  abbrev slowness : ℕ → Option Duration → Option F64
  slowness in_flight none = none
  slowness in_flight (some d) = some (f.mul (f.as_secs d) (f.add (f.of_u64 in_flight) (f.of_u64 1)))

  module _ {Key : Type 0} where
    unfoldable pub by_score : (Candidate Key → Option F64) → Pick Key
    by_score g = record { score = g; sample = none; requires_meter = false }

    unfoldable pub by_sampled_score : ℕ → (Candidate Key → Option F64) → Pick Key
    by_sampled_score k g = record { score = g; sample = some k; requires_meter = false }

    unfoldable pub first_healthy : Pick Key
    unfolding by_score
    first_healthy = by_score (λ c. some (f.of_u64 c.index))

    unfoldable pub round_robin : Pick Key
    unfolding by_score
    round_robin = by_score (λ c. some (f.of_u64 c.pick_count))

    unfoldable pub least_in_flight : Pick Key
    unfolding by_score
    least_in_flight = by_score (λ c. some (f.of_u64 c.in_flight))

    unfoldable pub weighted_least_in_flight : Pick Key
    unfolding by_score
    weighted_least_in_flight =
        by_score (λ c. some (f.div (f.add (f.of_u64 c.in_flight) (f.of_u64 1)) c.weight))

    unfoldable pub p2c : Pick Key
    unfolding by_sampled_score
    p2c = by_sampled_score 2 (λ c. some (f.of_u64 c.in_flight))

    unfoldable pub peak_ewma : Pick Key
    unfolding by_sampled_score
    peak_ewma = record (by_sampled_score 2 (λ c. slowness c.in_flight c.latency)) {
      requires_meter = true;
    }

    unfoldable pub sample_is_valid : Pick Key → Bool
    sample_is_valid p = not (is_zero p.sample)
