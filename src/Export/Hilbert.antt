-- ===== src/Export/Hilbert.antt =====
-- The Hilbert index of a cell of a 2^16 by 2^16 grid (crates/core/src/export/spatial.rs). `u32`
-- operations that leave the range panic, as in a build with overflow checks.
pub mod Curve
use package.watershed_delineation.Prelude.{
  ℕ, zero, suc, ◌+◌, ◌-◌, ◌*◌, ◌^◌, Bool, ◌&&◌, Outcome, returns, panics, ◌>>=◌, ltb, leb,
  if◌then◌else◌,
}

abbrev pub hilbert_bits : ℕ
hilbert_bits = 16

-- `a + b`, `a - b` and `a * b` on `u32`.
abbrev pub add32 : ℕ → ℕ → Outcome ℕ
add32 a b = if ltb (a + b) (2 ^ 32) then returns (a + b) else panics

abbrev pub sub32 : ℕ → ℕ → Outcome ℕ
sub32 a b = if leb b a then returns (a - b) else panics

abbrev pub mul32 : ℕ → ℕ → Outcome ℕ
mul32 a b = if ltb (a * b) (2 ^ 32) then returns (a * b) else panics

-- `x`, `y` and `index`.
pub record Walk : Type 0 where
  pub x : ℕ
  pub y : ℕ
  pub index : ℕ

-- The body of the loop, at `half = 1 << (bits - 1)`.
unfoldable pub descend : ℕ → Walk → Outcome Walk
descend half w = do
  quadrant_area ← mul32 half half
  let first = returns (record w { x = w.y; y = w.x })
  let second = do
    index ← add32 w.index quadrant_area
    y ← sub32 w.y half
    returns (record w { y = y; index = index })
  let third = do
    area ← mul32 2 quadrant_area
    index ← add32 w.index area
    x ← sub32 w.x half
    y ← sub32 w.y half
    returns (record { x = x; y = y; index = index })
  let fourth = do
    area ← mul32 3 quadrant_area
    index ← add32 w.index area
    h ← sub32 half 1
    next_x ← sub32 h w.y
    dx ← sub32 w.x half
    next_y ← sub32 h dx
    returns (record { x = next_x; y = next_y; index = index })
  if ltb w.x half && ltb w.y half
      then first
      else if ltb w.x half
      then second
      else if leb half w.y
      then third
      else fourth

unfoldable pub hilbert_loop : ℕ → Walk → Outcome ℕ
hilbert_loop zero w = returns w.index
hilbert_loop (suc bits) w = descend (2 ^ bits) w >>= hilbert_loop bits

unfoldable pub xy_to_hilbert_index : ℕ → ℕ → Outcome ℕ
xy_to_hilbert_index x y = hilbert_loop hilbert_bits (record { x = x; y = y; index = 0 })
