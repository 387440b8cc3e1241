-- ===== src/Refine.antt =====
-- Refinement of a terminal unit on rasters (crates/core/src/algo/refine.rs), over parameters for
-- `f64` and `f32`, for rasterization and polygonization, and for the declared pairs of CRS and units.
pub mod Steps
use package.watershed_delineation.Prelude.{
  ℕ, Bool, true, false, not, ◌&&◌, ◌||◌, ◌==◌, Option, none, some, List, [], ◌∷◌, Result, ok, err,
  Outcome, if◌then◌else◌,
}
use package.watershed_delineation.Prelude.Floats.{Floats}
use package.watershed_delineation.Raster.Grid.{GridCoord, GridDims}
use package.watershed_delineation.Raster.Tile.{RasterTileError}
use package.watershed_delineation.Raster.AccTile.{SnapThreshold}
use package.watershed_delineation.Raster.Mask.{CatchmentMask}
use package.watershed_delineation.Geo.{NativeCoord, GeoTransform}
use package.watershed_delineation.Seed.{FlowAccumulationUnits, SnappedPoint, SnapError}

-- The authority of the outlet: a vector point, or a request point within a unit.
pub data RasterOutlet (F : Type 0) : Type 0 where
  vector_point unit_only : NativeCoord F → RasterOutlet F

pub data RasterSeedKind : Type 0 where
  vector_quantized raster_ranked : RasterSeedKind

pub data VectorOutletGuardFailureKind : Type 0 where
  grid_mapping outside_terminal_mask undefined_flow_direction undefined_accumulation
        below_threshold :
      VectorOutletGuardFailureKind

pub record VectorOutletGuardFailure (A : Type 0) : Type 0 where
  pub kind : VectorOutletGuardFailureKind
  pub requested_threshold : SnapThreshold
  pub effective_threshold : A
  pub units : FlowAccumulationUnits
  pub mapped_cell : Option GridCoord
  pub measured_accumulation : Option A

-- `L` and `P` are the errors of the raster source and of the projection. The fields are the rows and columns
-- of both tiles; rows and columns; rows and columns; an error or a failure; `epsg` and units; `epsg` and an error.
pub data RefinementError (F A L P : Type 0) : Type 0 where
  dimension_mismatch : ℕ → ℕ → ℕ → ℕ → RefinementError F A L P
  geo_transform_mismatch : ℕ → ℕ → RefinementError F A L P
  degenerate_terminal_polygon : RefinementError F A L P
  empty_raster_mask : ℕ → ℕ → RefinementError F A L P
  mask_failed : RasterTileError → RefinementError F A L P
  snap_failed : SnapError F A → RefinementError F A L P
  vector_outlet_unusable : VectorOutletGuardFailure A → RefinementError F A L P
  empty_polygonization : RefinementError F A L P
  raster_load : L → RefinementError F A L P
  geographic_km2_unsupported : ℕ → FlowAccumulationUnits → RefinementError F A L P
  inverse_projection : ℕ → P → RefinementError F A L P

pub record RefinementResult (F A Shape : Type 0) : Type 0 where
  pub snapped_point : SnappedPoint F A
  pub seed_kind : RasterSeedKind
  pub polygon : Shape

abbrev pub snapped_coord : {F A Shape : Type 0} → RefinementResult F A Shape → NativeCoord F
snapped_coord r = r.snapped_point.coord

-- What the refinement uses of its neighbours: `d8_pair_is_compatible` of the declared `EPSG:` code and units,
-- `rasterize_multi_polygon`, `polygonize` and the cast to `f32`.
pub record Rasters (F A Shape : Type 0) : Type 0 where
  pub as_f32 : F → A
  pub d8_pair_is_compatible : ℕ → FlowAccumulationUnits → Bool
  pub rasterize_multi_polygon : Shape → GeoTransform F → GridDims → List Bool
  pub polygonize : CatchmentMask → GeoTransform F → Option Shape

-- `any(|&value| value)`.
abbrev pub any_marked : List Bool → Bool
any_marked [] = false
any_marked (v ∷ vs) = v || any_marked vs

-- The derived `==` of transforms.
abbrev pub same_geo : {F : Type 0} → Floats F → GeoTransform F → GeoTransform F → Bool
same_geo {F = F} fl g h =
    let same : F → F → Bool = λ a b. fl.at_most a b && fl.at_most b a in
    same g.origin_x h.origin_x
    && same g.origin_y h.origin_y
    && same g.pixel_width h.pixel_width
    && same g.pixel_height h.pixel_height

abbrev pub same_dims : GridDims → GridDims → Bool
same_dims d e = d.rows == e.rows && d.cols == e.cols
