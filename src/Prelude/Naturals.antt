-- ===== src/Prelude/Naturals.antt =====
-- Natural numbers in place of a floating-point type, for the examples: no NaN, and differences that stop at 0.
use Prim.Native.Nat.{ℕ, ◌+◌, ◌-◌, ◌*◌, ◌/◌, ◌^◌, min, max}
use mathlib.Core.Bool.{true, false}
use package.watershed_delineation.Prelude.Tests.{ltb, leb}
use package.watershed_delineation.Prelude.Order.{nat_order}
use package.watershed_delineation.Prelude.Floats.{Floats}

abbrev pub naturals : Floats ℕ
naturals = record {
  total = nat_order;
  less = ltb;
  at_most = leb;
  is_nan = λ a. false;
  is_finite = λ a. true;
  nan = 0;
  literal = λ n k. n / 10 ^ k;
  of_nat = λ n. n;
  floor_nat = λ a. a;
  add = ◌+◌;
  sub = ◌-◌;
  mul = ◌*◌;
  div = ◌/◌;
  neg = λ a. 0;
  abs = λ a. a;
  larger = max;
  smaller = min;
  sqrt = λ a. a;
  cos = λ a. 1;
  to_radians = λ a. a;
}
