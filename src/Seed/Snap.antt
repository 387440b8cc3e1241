-- ===== src/Seed/Snap.antt =====
-- `snap_pour_point` (crates/core/src/algo/snap.rs).
pub mod Choice
use package.watershed_delineation.Prelude.{ℕ}
use package.watershed_delineation.Prelude.Floats.{Floats}
use package.watershed_delineation.Prelude.Calls.{Call, done, ◌>>=◌, of_outcome, of_result, or_fail}
use package.watershed_delineation.Raster.FlowTile.{TileState}
use package.watershed_delineation.Raster.AccTile.{AccumulationTile, SnapThreshold, dims}
use package.watershed_delineation.Geo.{NativeCoord, GeoTransform, pixel_to_coord}
use package.watershed_delineation.Seed.{
  FlowAccumulationUnits, SnappedPoint, SnapError, no_cell_above_threshold, outlet_out_of_bounds,
  quantize_grid_cell, effective_threshold, raster_seed_candidates, rank_seeds,
}

module _ {F A : Type 0} (fl : Floats F) (fs : Floats A) (to_f32 : F → A) where
  pub snap_pour_point :
      {S : TileState}
      → NativeCoord F
      → AccumulationTile (GeoTransform F) A S
      → SnapThreshold
      → FlowAccumulationUnits
      → ℕ
      → Call (SnapError F A) (SnappedPoint F A)
  snap_pour_point outlet accumulation threshold units epsg = do
    let geo = accumulation.inner.geo
    let d = dims accumulation
    let refused = outlet_out_of_bounds epsg outlet d
    _ ← of_result (λ _. refused) (quantize_grid_cell fl outlet geo d epsg)
    let least = effective_threshold fl fs to_f32 threshold units geo
    candidates ← of_outcome (raster_seed_candidates fl fs outlet accumulation least)
    candidate ←
        or_fail (no_cell_above_threshold least units epsg outlet) (rank_seeds fl fs candidates)
    done (record {
      cell = candidate.cell;
      coord = pixel_to_coord fl geo candidate.cell;
      accumulation = candidate.accumulation;
    })
