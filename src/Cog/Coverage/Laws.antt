-- ===== src/Cog/Coverage/Laws.antt =====
-- The place of a covered tile.
use package.watershed_delineation.Prelude.{ℕ, ◌/◌, ◌≡◌, refl, some, List, mem?_iff, nat_eq, arith}
use package.watershed_delineation.Prelude.Calls.{done}
use package.watershed_delineation.Cog.{CogMetadata, RasterPixelWindow, tiles_across}
use package.watershed_delineation.Cog.Plan.{for_window}
use package.watershed_delineation.Cog.Plan.Covers.{InWindow, IsPlannable, tile_at, div-lt-div_ceil}
use package.watershed_delineation.Cog.Copy.Tiles.{split_index}
use package.watershed_delineation.Cog.Copy.Window.{plan-Meets}
use package.watershed_delineation.Cog.Coverage.{RasterWindowCoverage, covered_tile_col_row}

-- The coverage that records a plan.
abbrev pub coverage_of : CogMetadata → RasterPixelWindow → List ℕ → RasterWindowCoverage
coverage_of m w indices = record {
  raster_width = m.width;
  raster_height = m.height;
  tile_width = m.tile_width;
  tile_height = m.tile_height;
  window_col_off = w.col_off;
  window_row_off = w.row_off;
  covered_tile_indexes = indices;
}

-- When a window is planned, the coverage of the plan gives for the tile of each pixel of the window
-- its column and row in the grid of tiles.
pub covered_tile_col_row-planned :
    (m : CogMetadata) (w : RasterPixelWindow) (indices : List ℕ) (x y : ℕ)
    → IsPlannable m w
    → for_window m w ≡ done indices
    → InWindow w x y
    → covered_tile_col_row (coverage_of m w indices) (tile_at m x y)
      ≡ some (x / m.tile_width, y / m.tile_height)
unfolding covered_tile_col_row
covered_tile_col_row-planned m w indices x y h plan inside =
    let planned = (plan-Meets m w indices h plan (tile_at m x y)).1 (x, y, inside, refl) in
    let (row, col) = split_index (y / m.tile_height) (x / m.tile_width) (tiles_across m) (
      div-lt-div_ceil x m.width m.tile_width h.has_tile_width
        (omega (arith, inside, h.columns_inside))) in
    rw ((mem?_iff nat_eq (tile_at m x y) indices).1 planned, row, col) refl
