-- ===== src/Examples/Support.antt =====
-- A concrete arithmetic for the interface of `f64`: numbers of thousandths. Of the negative numbers it
-- has the size only, and `exp` takes that of an exponent below zero.
use execution_policy.Base.{ℕ, ◌+◌, ◌-◌, ◌*◌, ◌/◌, ◌==◌, some, leb, ltb, min_of, max_of}
use execution_policy.Base.Float.{Float64}

instance abbrev pub thousandths : Float64
thousandths = record {
  Carrier = ℕ;
  of_u64 = λ n. n * 1000;
  to_i64 = λ x. x / 1000;
  mul = λ x y. x * y / 1000;
  div = λ x y. x * 1000 / y;
  clamp = λ x lo hi. min_of (max_of x lo) hi;
  ge = λ x y. leb y x;
  add = λ x y. x + y;
  sub = λ x y. x - y;
  neg = λ x. x;
  exp = λ x. 1000000 / (1000 + x);
  max = max_of;
  min_positive = 1;
  le = λ x y. leb x y;
  eq = λ x y. x == y;
  total_less = λ x y. ltb x y;
  is_finite = λ x. ltb x 1000000000;
  as_secs = λ d. d / 1000000;
  from_secs = λ x. some (x * 1000000);
}
