-- ===== src/Trace.antt =====
-- The trace of the cells upstream of a pour point (crates/core/src/algo/trace.rs).
pub mod Region
mod Scan
pub mod Correct
mod Examples
use package.watershed_delineation.Prelude.{
  ℕ, zero, suc, ◌+◌, ◌*◌, ◌≡◌, Bool, true, false, Option, none, some, List, [], ◌∷◌, Outcome,
  returns, panics, out_of_fuel, ◌>>=◌, or_panic, get_elem?, set, replicate, length, ltb,
  if◌then◌else◌,
}
use package.watershed_delineation.Prelude.Int.{ℤ, pos, pos_part, ◌+ℤ◌}
use package.watershed_delineation.Raster.Grid.{GridCoord, GridDims, flat}
use package.watershed_delineation.Raster.FlowDir.{
  FlowDir, east, southeast, south, southwest, west, northwest, north, northeast, all, dx, dy,
  opposite,
}
use package.watershed_delineation.Raster.FlowTile
use package.watershed_delineation.Raster.FlowTile.{FlowDirectionTile, TileState}
use package.watershed_delineation.Raster.Mask.{CatchmentMask, from_traced}

-- `visited` and `stack`; the head of the list is the top of the stack.
pub record Search : Type 0 where
  pub visited : List Bool
  pub stack : List GridCoord

-- The derived `==` of directions.
abbrev pub same_dir : FlowDir → FlowDir → Bool
same_dir east east = true
same_dir southeast southeast = true
same_dir south south = true
same_dir southwest southwest = true
same_dir west west = true
same_dir northwest northwest = true
same_dir north north = true
same_dir northeast northeast = true
same_dir d e = false

-- The guard `Some(neighbor_dir) && neighbor_dir == dir.opposite()`.
abbrev pub flows_back : FlowDir → Option FlowDir → Bool
flows_back dir none = false
flows_back dir (some d) = same_dir d (opposite dir)

-- `if !visited[idx] { visited[idx] = true; stack.push(..) }`.
pub mark : ℕ → GridCoord → Search → Outcome Search
mark cols p s = do
  let idx = flat cols p
  seen ← or_panic (get_elem? s.visited idx)
  returns (if seen then s else record { visited = set s.visited idx true; stack = p ∷ s.stack })

module _ {G : Type 0} {S : TileState} (t : FlowDirectionTile G S) where
  -- The body of the loop over the directions.
  pub visit : GridCoord → FlowDir → Search → Outcome Search
  visit q dir s = do
    let nr = pos q.row +ℤ dy dir
    let nc = pos q.col +ℤ dx dir
    found ← FlowTile.get_checked t nr nc
    let marked = mark t.inner.cols (record { row = pos_part nr; col = pos_part nc }) s
    if flows_back dir found then marked else returns s

  pub scan : GridCoord → List FlowDir → Search → Outcome Search
  scan q [] s = returns s
  scan q (dir ∷ dirs) s = visit q dir s >>= scan q dirs

  -- The `while let` loop.
  pub search_loop : ℕ → List Bool → List GridCoord → Outcome (List Bool)
  search_loop fuel visited [] = returns visited
  search_loop zero visited (q ∷ stack) = out_of_fuel
  search_loop (suc fuel) visited (q ∷ stack) =
      scan q all (record { visited = visited; stack = stack }) >>= λ s.
      search_loop fuel s.visited s.stack

  -- Each round pops one cell and pushes only cells that it marks, so a round for each cell of the
  -- grid is enough.
  pub trace_upstream : GridCoord → Outcome CatchmentMask
  trace_upstream pour = do
    let dims = FlowTile.dims t
    let cells = dims.rows * dims.cols
    let idx = flat dims.cols pour
    let visited = set (replicate cells false) idx true
    let traced = search_loop cells visited (pour ∷ [])
    visited ← if ltb idx cells then traced else panics
    from_traced visited dims
