-- ===== src/Base/Float.antt =====
-- The operations of `f64` that the sources call, as an interface: the processor's floating point
-- is no code of the crate.
use Prim.Native.Nat.{ℕ}
use mathlib.Core.Bool.{Bool}
use mathlib.Core.Option.{Option}

pub record Float64 : Type 1 where
  pub Carrier : Type 0
  -- `n as f64` and `x as i64`, the latter at a value that is not negative
  pub of_u64 : ℕ → Carrier
  pub to_i64 : Carrier → ℕ
  pub mul : Carrier → Carrier → Carrier
  pub div : Carrier → Carrier → Carrier
  -- `x.clamp(lo, hi)`
  pub clamp : Carrier → Carrier → Carrier → Carrier
  -- `x >= y`
  pub ge : Carrier → Carrier → Bool
  pub add : Carrier → Carrier → Carrier
  pub sub : Carrier → Carrier → Carrier
  pub neg : Carrier → Carrier
  pub exp : Carrier → Carrier
  -- `x.max(y)` and `f64::MIN_POSITIVE`
  pub max : Carrier → Carrier → Carrier
  pub min_positive : Carrier
  -- `x <= y` and `x == y`
  pub le : Carrier → Carrier → Bool
  pub eq : Carrier → Carrier → Bool
  -- `x.total_cmp(&y) == Ordering::Less`
  pub total_less : Carrier → Carrier → Bool
  pub is_finite : Carrier → Bool
  -- `Duration::as_secs_f64`, and `Duration::from_secs_f64`, which panics (`none`) at some values
  pub as_secs : ℕ → Carrier
  pub from_secs : Carrier → Option ℕ

abbrev pub F64 : ⦃f : Float64⦄ → Type 0
F64 ⦃f⦄ = f.Carrier
