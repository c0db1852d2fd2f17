-- ===== src/Router.antt =====
-- The router over several policies (src/router.rs): its data, and the polls of its members' health.
pub mod Choose
pub mod Builder
pub mod Run
pub mod Members
pub mod Chosen
pub mod Health
pub mod Least
pub mod Argmin
pub mod Sampling
pub mod Rotation
pub mod Visits
pub mod Drawn
pub mod Lift
pub mod Loads
pub mod Calls
pub mod Serving
pub mod Sourced
pub mod Sound
pub mod Turns
pub mod Prompt
pub mod Fairness
use execution_policy.Base.{
  ℕ, suc, ◌+◌, ◌-◌, ◌%◌, Duration, Instant, Bool, true, false, Option, none, some, List, [], ◌∷◌,
  ◌==◌, if◌then◌else◌, min_of, u64,
}
use execution_policy.Base.Float.{Float64, F64}
use execution_policy.Outcome.{Result, ExecutionError, BreakerState}
use execution_policy.Breaker.{BreakerRuntime}
use execution_policy.Pick.{Pick}
use execution_policy.Member.{MemberState, Member, Meter, Sample}
use execution_policy.Policy.{circuit_state, cooling_until}

pub record Served (Key T : Type 0) : Type 0 where
  pub value : T
  pub target : Key
  pub attempts : ℕ  -- u32

module _ ⦃f : Float64⦄ where
  pub data RouterError (Key E : Type 0) : Type 0 where
    all_unavailable : (next_available_at : Option Instant) → RouterError Key E
    exhausted : E → RouterError Key E
    score_error : (id : Key) (value : F64) → RouterError Key E

  pub record RouterPolicy (Key E : Type 0) : Type 0 where
    pub targets : List (Member Key)
    pub select : Pick Key
    pub meter : Option Meter
    pub advance_when : E → Bool
    pub deadline : Duration

  -- What the router shares with other tasks: the clock, the breaker and the load of each target by its
  -- index, and the random numbers.
  pub record Pool : Type 0 where
    pub clock : Instant
    pub breakers : ℕ → Option BreakerRuntime
    pub loads : ℕ → MemberState
    pub random : ℕ → ℕ
    pub drawn : ℕ

  abbrev pub earlier : Option Instant → Instant → Option Instant
  earlier none until = some until
  earlier (some s) until = some (min_of s until)

  abbrev pub sooner : Option Instant → Option Instant → Option Instant
  sooner soonest none = soonest
  sooner soonest (some until) = earlier soonest until

  abbrev pub is_open : Option BreakerState → Bool
  is_open (some BreakerState.opened) = true
  is_open _ = false

  -- The loop of `healthy_members`, from the target `i` on.
  abbrev pub scan : {A : Type 0} → Pool → ℕ → List A → Option Instant → List ℕ × Option Instant
  scan p i [] soonest = ([], soonest)
  scan p i (_ ∷ ts) soonest =
      let b = p.breakers i in
      let skipped = scan p (suc i) ts (sooner soonest (cooling_until b p.clock)) in
      let (healthy, hint) = scan p (suc i) ts soonest in
      if is_open (circuit_state b p.clock) then skipped else (i ∷ healthy, hint)

  module _ {Key E : Type 0} where
    unfoldable pub healthy_members : RouterPolicy Key E → Pool → List ℕ × Option Instant
    healthy_members r p = scan p 0 r.targets none
