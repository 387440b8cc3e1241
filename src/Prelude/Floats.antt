-- ===== src/Prelude/Floats.antt =====
-- The operations of a floating-point type that the program uses. The type is a parameter of the
-- models: its arithmetic is the target's, and a theorem that relies on a property names it.
use Prim.Native.Nat.{ℕ}
use mathlib.Core.Bool.{Bool}
use package.watershed_delineation.Prelude.Order.{TotalOrder}

pub record Floats (F : Type 0) : Type 0 where
  -- `total_cmp`.
  pub total : TotalOrder F
  -- `<` and `<=`, which do not hold of a NaN.
  pub less : F → F → Bool
  pub at_most : F → F → Bool
  pub is_nan : F → Bool
  pub is_finite : F → Bool
  pub nan : F
  -- The literal `n` with its last `k` digits behind the point.
  pub literal : ℕ → ℕ → F
  -- `as` from an integer, and `floor() as usize`.
  pub of_nat : ℕ → F
  pub floor_nat : F → ℕ
  pub add : F → F → F
  pub sub : F → F → F
  pub mul : F → F → F
  pub div : F → F → F
  pub neg : F → F
  pub abs : F → F
  pub larger : F → F → F
  pub smaller : F → F → F
  pub sqrt : F → F
  pub cos : F → F
  pub to_radians : F → F
