-- ===== src/Seed.antt =====
-- The choice of a raster seed (crates/core/src/algo/snap.rs), over parameters for `f64` and `f32`.
pub mod Snap
pub mod Laws
mod Examples
use package.watershed_delineation.Prelude.{
  ℕ, zero, suc, Bool, true, false, ◌||◌, not, ◌&&◌, Option, none, some, List, [], ◌∷◌, ◌++◌, Result,
  ok, err, Outcome, returns, ◌>>=◌, if◌then◌else◌,
}
use package.watershed_delineation.Prelude.Order.{TotalOrder, then_with, min_by, nat_order}
use package.watershed_delineation.Prelude.Floats.{Floats}
use package.watershed_delineation.Raster.Grid.{GridCoord, GridDims}
use package.watershed_delineation.Raster.FlowTile.{TileState, masked}
use package.watershed_delineation.Raster.AccTile.{
  AccumulationTile, SnapThreshold, get_raw, dims, as_f32,
}
use package.watershed_delineation.Geo.{NativeCoord, GeoTransform, pixel_area, coord_to_pixel_f64}
use Prim.Native.Nat.{Ordering}

-- `FlowAccumulationUnits` of the hfx crate.
pub data FlowAccumulationUnits : Type 0 where
  cells km2 : FlowAccumulationUnits

pub record SnappedPoint (F A : Type 0) : Type 0 where
  pub cell : GridCoord
  pub coord : NativeCoord F
  pub accumulation : A

pub record RasterSeedCandidate (F A : Type 0) : Type 0 where
  pub cell : GridCoord
  pub distance_squared : F
  pub accumulation : A

-- The fields are `epsg`, the outlet and the extent.
pub data GridMappingError (F : Type 0) : Type 0 where
  outside_raster_window : ℕ → NativeCoord F → GridDims → GridMappingError F

-- The fields are `threshold`, `units`, `epsg` and the outlet; `epsg`, the outlet and the extent.
pub data SnapError (F A : Type 0) : Type 0 where
  no_cell_above_threshold : A → FlowAccumulationUnits → ℕ → NativeCoord F → SnapError F A
  outlet_out_of_bounds : ℕ → NativeCoord F → GridDims → SnapError F A

-- Half-open bounds of a fractional row and column.
abbrev pub is_outside : {F : Type 0} → Floats F → F × F → GridDims → Bool
is_outside fl frac d =
    not (fl.is_finite frac.0)
    || not (fl.is_finite frac.1)
    || fl.less frac.0 (fl.literal 0 0)
    || fl.less frac.1 (fl.literal 0 0)
    || fl.at_most (fl.of_nat d.rows) frac.0
    || fl.at_most (fl.of_nat d.cols) frac.1

module _ {F : Type 0} (fl : Floats F) where
  unfoldable pub quantize_grid_cell :
      NativeCoord F → GeoTransform F → GridDims → ℕ → Result GridCoord (GridMappingError F)
  quantize_grid_cell outlet geo d epsg =
      let frac = coord_to_pixel_f64 fl geo outlet in
      if is_outside fl frac d
      then err (outside_raster_window epsg outlet d)
      else ok (record { row = fl.floor_nat frac.0; col = fl.floor_nat frac.1 })

  pub distance_squared : F × F → GridCoord → F
  distance_squared frac cell =
      let half = fl.literal 5 1 in
      let dr = fl.sub (fl.add (fl.of_nat cell.row) half) frac.0 in
      let dc = fl.sub (fl.add (fl.of_nat cell.col) half) frac.1 in
      fl.add (fl.mul dr dr) (fl.mul dc dc)

-- `value.is_nan() || value < effective_threshold`.
abbrev pub is_below : {A : Type 0} → Floats A → A → A → Bool
is_below fs threshold value = fs.is_nan value || fs.less value threshold

module _ {F A : Type 0} (fl : Floats F) (fs : Floats A) where
  pub effective_threshold : (F → A) → SnapThreshold → FlowAccumulationUnits → GeoTransform F → A
  effective_threshold to_f32 threshold cells geo = as_f32 fs threshold
  effective_threshold to_f32 threshold km2 geo =
      to_f32
        (fl.div (fl.mul (fl.of_nat threshold.pixels) (pixel_area fl geo)) (fl.literal 1000000 0))

  abbrev pub candidate_of : F × F → GridCoord → A → RasterSeedCandidate F A
  candidate_of frac cell value = record {
    cell = cell;
    distance_squared = distance_squared fl frac cell;
    accumulation = value;
  }

  module _ {S : TileState} (accumulation : AccumulationTile (GeoTransform F) A S) (frac : F × F)
      (threshold : A) where
    -- The columns `col`, ..., `col + n - 1` of a row.
    pub row_candidates : ℕ → ℕ → ℕ → Outcome (List (RasterSeedCandidate F A))
    row_candidates row col zero = returns []
    row_candidates row col (suc n) = do
      let cell : GridCoord = record { row = row; col = col }
      value ← get_raw accumulation cell
      candidates ← row_candidates row (suc col) n
      returns (
          if is_below fs threshold value
          then candidates
          else candidate_of frac cell value ∷ candidates)

    pub grid_candidates : ℕ → ℕ → Outcome (List (RasterSeedCandidate F A))
    grid_candidates row zero = returns []
    grid_candidates row (suc n) = do
      here ← row_candidates row 0 (dims accumulation).cols
      later ← grid_candidates (suc row) n
      returns (here ++ later)

  pub raster_seed_candidates :
      {S : TileState}
      → NativeCoord F
      → AccumulationTile (GeoTransform F) A S
      → A
      → Outcome (List (RasterSeedCandidate F A))
  raster_seed_candidates outlet accumulation threshold =
      grid_candidates accumulation (coord_to_pixel_f64 fl accumulation.inner.geo outlet) threshold 0
        (dims accumulation).rows

  -- The comparison of `NearestAccumulationRasterSeedRanker`.
  abbrev pub seed_order : RasterSeedCandidate F A → RasterSeedCandidate F A → Ordering
  seed_order a b = then_with (fl.total.cmp a.distance_squared b.distance_squared) (
      then_with (fs.total.cmp b.accumulation a.accumulation)
        (then_with (nat_order.cmp a.cell.row b.cell.row) (nat_order.cmp a.cell.col b.cell.col)))

  pub rank_seeds : List (RasterSeedCandidate F A) → Option (RasterSeedCandidate F A)
  rank_seeds candidates = min_by seed_order candidates
