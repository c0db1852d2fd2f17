-- ===== src/Member.antt =====
-- A member of a router and its shared load state (src/member.rs), with the meter that folds into it
-- (src/meter.rs).
use execution_policy.Base.{ℕ, Duration, Instant, Bool, Option, none, not, ◌||◌, if◌then◌else◌}
use execution_policy.Base.Float.{Float64, F64}
use execution_policy.Outcome.{Result, ok, err}

module _ ⦃f : Float64⦄ where
  pub record Sample : Type 0 where
    pub latency : Duration
    pub at : Instant
    pub last_update : Instant
    pub in_flight : ℕ
    pub is_ok : Bool

  pub record PeakEwmaState : Type 0 where
    pub value_secs : F64
    pub last_update : Instant

  -- `reads_latency` is true of every meter.
  pub record Meter : Type 0 where
    pub fold : Option PeakEwmaState → Sample → PeakEwmaState

  pub record MemberState : Type 0 where
    pub in_flight : ℕ  -- usize
    pub pick_count : ℕ  -- u64
    pub meter : Option PeakEwmaState

  unfoldable pub fresh : MemberState
  fresh = record { in_flight = 0; pick_count = 0; meter = none }

  -- The policy and the state behind an `Arc` stand in the pool that the router works on.
  pub record Member (Key : Type 0) : Type 0 where
    pub id : Key
    pub weight : F64

  module _ {Key : Type 0} where
    -- `new` and `from_arc`
    unfoldable pub from_arc : Key → Member Key
    from_arc id = record { id = id; weight = f.of_u64 1 }

    -- `err` is `WeightError`.
    unfoldable pub try_weight : Member Key → F64 → Result (Member Key) F64
    try_weight m w =
        if not (f.is_finite w) || f.le w (f.of_u64 0) then err w else ok (record m { weight = w })
