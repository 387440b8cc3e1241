-- ===== src/Polygon/Boundary.antt =====
-- The directed edges around the marked cells: `extract_edges` (crates/core/src/algo/polygonize.rs).
pub mod Cells
pub mod Balance
use package.watershed_delineation.Prelude.{
  ℕ, zero, suc, ◌-◌, Bool, true, false, not, List, [], ◌∷◌, ◌++◌, Outcome, returns, ◌>>=◌, ◌==◌,
  if◌then◌else◌,
}
use package.watershed_delineation.Raster.Grid.{GridCoord}
use package.watershed_delineation.Raster.Mask.{CatchmentMask, contains}
use package.watershed_delineation.Polygon.{Corner, Edge}

-- `at_border || !mask.contains(neighbour)`.
unfoldable pub borders : Bool → CatchmentMask → ℕ → ℕ → Outcome Bool
borders at_border m r c =
    let neighbour = contains m (record { row = r; col = c }) >>= λ marked. returns (not marked) in
    if at_border then returns true else neighbour

-- `if border { edges.push(edge) }`.
abbrev pub push_if : Bool → Edge → List Edge → List Edge
push_if border edge edges = if border then edge ∷ edges else edges

-- The body of the loops.
unfoldable pub cell_edges : CatchmentMask → ℕ → ℕ → Outcome (List Edge)
cell_edges m r c = do
  marked ← contains m (record { row = r; col = c })
  let sides = do
    top ← borders (r == 0) m (r - 1) c
    bottom ← borders (suc r == m.rows) m (suc r) c
    left ← borders (c == 0) m r (c - 1)
    right ← borders (suc c == m.cols) m r (suc c)
    returns (
        push_if top ((r, c), (r, suc c))
          (push_if bottom ((suc r, suc c), (suc r, c))
            (push_if left ((suc r, c), (r, c)) (push_if right ((r, suc c), (suc r, suc c)) []))))
  if marked then sides else returns []

-- The inner loop, over `n` columns from `c` on.
unfoldable pub row_edges : CatchmentMask → ℕ → ℕ → ℕ → Outcome (List Edge)
row_edges m r c zero = returns []
row_edges m r c (suc n) = do
  here ← cell_edges m r c
  later ← row_edges m r (suc c) n
  returns (here ++ later)

-- The outer loop, over `n` rows from `r` on.
unfoldable pub grid_edges : CatchmentMask → ℕ → ℕ → Outcome (List Edge)
grid_edges m r zero = returns []
grid_edges m r (suc n) = do
  here ← row_edges m r 0 m.cols
  later ← grid_edges m (suc r) n
  returns (here ++ later)

unfoldable pub extract_edges : CatchmentMask → Outcome (List Edge)
extract_edges m = grid_edges m 0 m.rows
