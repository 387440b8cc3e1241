-- ===== src/Raster.antt =====
-- The raster types of crates/core/src/algo: directions, grids, tiles and masks.
pub mod FlowDir
pub mod Grid
pub mod Tile
pub mod FlowTile
pub mod AccTile
pub mod Mask
mod Examples
