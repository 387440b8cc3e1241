-- ===== src/Cog/Coverage.antt =====
-- Which tiles a fetched window covers: `RasterWindowCoverage` (crates/core/src/cog.rs), without its
-- float fields.
pub mod Laws
use package.watershed_delineation.Prelude.{
  ℕ, ◌/◌, ◌%◌, Bool, true, false, not, ◌||◌, Option, none, some, List, [], ◌∷◌, map, length, mem?,
  nat_eq, ltb, if◌then◌else◌,
}
use package.watershed_delineation.Cog.{div_ceil}

pub data CrossedTileAxes : Type 0 where
  neither x_axis y_axis x_and_y : CrossedTileAxes

pub record RasterWindowCoverage : Type 0 where
  pub raster_width : ℕ
  pub raster_height : ℕ
  pub tile_width : ℕ
  pub tile_height : ℕ
  pub window_col_off : ℕ
  pub window_row_off : ℕ
  pub covered_tile_indexes : List ℕ

-- `flat_index % tiles_across` and `flat_index / tiles_across`.
pub covered_tile_col_row : RasterWindowCoverage → ℕ → Option (ℕ × ℕ)
covered_tile_col_row cov flat_index =
    let tiles_across = div_ceil cov.raster_width cov.tile_width in
    if not (mem? nat_eq flat_index cov.covered_tile_indexes)
    then none
    else some (flat_index % tiles_across, flat_index / tiles_across)

-- The members of a `BTreeSet` that is collected from a list, in any order.
unfoldable pub distinct : List ℕ → List ℕ
distinct [] = []
distinct (n ∷ ns) = if mem? nat_eq n ns then distinct ns else n ∷ distinct ns

unfoldable pub crossed_axes : RasterWindowCoverage → CrossedTileAxes
crossed_axes cov =
    let tiles_across = div_ceil cov.raster_width cov.tile_width in
    let columns = distinct (map (λ index. index % tiles_across) cov.covered_tile_indexes) in
    let rows = distinct (map (λ index. index / tiles_across) cov.covered_tile_indexes) in
    if ltb 1 (length columns)
    then (if ltb 1 (length rows) then x_and_y else x_axis)
    else (if ltb 1 (length rows) then y_axis else neither)
