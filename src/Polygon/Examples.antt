-- ===== src/Polygon/Examples.antt =====
-- Runs of the boundary extraction and the ring assembly, and the theorems at two squares that touch in a corner.
use package.watershed_delineation.Prelude.{
  true, false, ◌≡◌, refl, List, [], ◌∷◌, returns, panics, arith,
}
use package.watershed_delineation.Polygon.{
  Corner, Edge, assemble_rings, assemble, walk, take_end, pop_end, build, insert,
}
use package.watershed_delineation.Polygon.Take.{starts, stops, times}
use package.watershed_delineation.Raster.Grid.{flat}
use package.watershed_delineation.Raster.Mask.{CatchmentMask, contains}
use package.watershed_delineation.Polygon.Boundary.{
  extract_edges, grid_edges, row_edges, cell_edges, borders,
}
use package.watershed_delineation.Polygon.Boundary.Balance.{extract_edges-AllClosed}
use package.watershed_delineation.Polygon.Rings.{AllClosed, passes_all, assemble_rings-AllClosed}

-- The cells (0, 0) and (1, 1).
abbrev diagonal : List Edge
diagonal =
    ((0, 0), (0, 1))
    ∷ ((1, 1), (1, 0))
    ∷ ((1, 0), (0, 0))
    ∷ ((0, 1), (1, 1))
    ∷ ((1, 1), (1, 2))
    ∷ ((2, 2), (2, 1))
    ∷ ((2, 1), (1, 1))
    ∷ ((1, 2), (2, 2))
    ∷ []

-- The rings, the last corner first.
diagonal_rings :
    assemble_rings diagonal
    ≡ returns
        (((0, 0) ∷ (1, 0) ∷ (1, 1) ∷ (2, 1) ∷ (2, 2) ∷ (1, 2) ∷ (1, 1) ∷ (0, 1) ∷ (0, 0) ∷ []) ∷ [])
unfolding assemble_rings assemble walk take_end pop_end build insert
diagonal_rings = refl

-- Without its last edge the boundary is not closed, and the `unwrap` of the missing entry panics.
broken : assemble_rings (((0, 0), (0, 1)) ∷ []) ≡ panics
unfolding assemble_rings assemble walk take_end pop_end build insert
broken = refl

diagonal_balanced : (v : Corner) → starts v diagonal ≡ stops v diagonal
diagonal_balanced v = omega arith

assemble_rings-AllClosed_example :
    (rings : List (List Corner)) × (assemble_rings diagonal ≡ returns rings)
    × AllClosed rings
    × ((s t : Corner) → passes_all s t rings ≡ times s t diagonal)
assemble_rings-AllClosed_example = assemble_rings-AllClosed diagonal diagonal_balanced

abbrev two_cells : CatchmentMask
two_cells = record { data_vec = true ∷ false ∷ false ∷ true ∷ []; rows = 2; cols = 2 }

two_cells_edges : extract_edges two_cells ≡ returns diagonal
unfolding extract_edges grid_edges row_edges cell_edges borders contains flat
two_cells_edges = refl

extract_edges-AllClosed_example :
    (edges : List Edge) × (rings : List (List Corner)) × (extract_edges two_cells ≡ returns edges)
    × (assemble_rings edges ≡ returns rings)
    × AllClosed rings
    × ((s t : Corner) → passes_all s t rings ≡ times s t edges)
extract_edges-AllClosed_example = extract_edges-AllClosed two_cells refl
