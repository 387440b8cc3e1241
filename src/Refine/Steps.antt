-- ===== src/Refine/Steps.antt =====
-- `refine_terminal` and `refine_terminal_from_source` (crates/core/src/algo/refine.rs).
pub mod Guards
pub mod Contained
mod Examples
use package.watershed_delineation.Prelude.{
  ℕ, Bool, true, false, not, Option, none, some, List, Result, if◌then◌else◌,
}
use package.watershed_delineation.Prelude.Floats.{Floats}
use package.watershed_delineation.Prelude.Calls.{
  Call, done, fails, panics, out_of_fuel, ◌>>=◌, of_outcome, of_result, or_fail, require,
}
use package.watershed_delineation.Raster.Grid.{GridCoord, GridDims}
use package.watershed_delineation.Raster.FlowDir.{FlowDirEncoding}
use package.watershed_delineation.Raster.FlowTile
use package.watershed_delineation.Raster.FlowTile.{FlowDirectionTile, raw, masked}
use package.watershed_delineation.Raster.AccTile
use package.watershed_delineation.Raster.AccTile.{AccumulationTile, SnapThreshold}
use package.watershed_delineation.Raster.Mask.{CatchmentMask, contains, from_traced}
use package.watershed_delineation.Geo.{NativeCoord, GeoTransform, pixel_to_coord}
use package.watershed_delineation.Seed.{
  FlowAccumulationUnits, SnappedPoint, SnapError, quantize_grid_cell, effective_threshold,
}
use package.watershed_delineation.Seed.Snap.{snap_pour_point}
use package.watershed_delineation.Trace.{trace_upstream}
use package.watershed_delineation.Refine.{
  RasterOutlet, vector_point, unit_only, RasterSeedKind, vector_quantized, raster_ranked,
  VectorOutletGuardFailureKind, grid_mapping, outside_terminal_mask, undefined_flow_direction,
  undefined_accumulation, below_threshold, VectorOutletGuardFailure, RefinementError,
  dimension_mismatch, geo_transform_mismatch, degenerate_terminal_polygon, empty_raster_mask,
  mask_failed, snap_failed, vector_outlet_unusable, empty_polygonization, raster_load,
  geographic_km2_unsupported, RefinementResult, Rasters, any_marked, same_geo, same_dims,
}

abbrev pub is_defined : {A : Type 0} → Option A → Bool
is_defined none = false
is_defined (some a) = true

-- `?` under `From<SnapError>`.
abbrev pub of_snap :
    {F A L P R : Type 0} → Call (SnapError F A) R → Call (RefinementError F A L P) R
of_snap (done r) = done r
of_snap (fails e) = fails (snap_failed e)
of_snap panics = panics
of_snap out_of_fuel = out_of_fuel

module _ {F A Shape L P : Type 0} (fl : Floats F) (fs : Floats A) (rasters : Rasters F A Shape)
    (threshold : SnapThreshold) (units : FlowAccumulationUnits) (epsg : ℕ) where
  abbrev pub unusable :
      A → VectorOutletGuardFailureKind → Option GridCoord → Option A → RefinementError F A L P
  unusable least kind mapped measured = vector_outlet_unusable (record {
    kind = kind;
    requested_threshold = threshold;
    effective_threshold = least;
    units = units;
    mapped_cell = mapped;
    measured_accumulation = measured;
  })

  -- The guard of a vector point, in step 4.
  pub guarded_seed :
      NativeCoord F
      → FlowDirectionTile (GeoTransform F) raw
      → AccumulationTile (GeoTransform F) A raw
      → CatchmentMask
      → A
      → Call (RefinementError F A L P) (SnappedPoint F A)
  guarded_seed vector flow_dir accumulation catchment_mask least = do
    let geo = flow_dir.inner.geo
    mapped ←
        of_result (λ _. unusable least grid_mapping none none)
          (quantize_grid_cell fl vector geo (FlowTile.dims flow_dir) epsg)
    inside ← of_outcome (contains catchment_mask mapped)
    value ← of_outcome (AccTile.get fs accumulation mapped)
    _ ← require inside (unusable least outside_terminal_mask (some mapped) value)
    decoded ← of_outcome (FlowTile.decoded_cell flow_dir mapped)
    _ ← require (is_defined decoded) (unusable least undefined_flow_direction (some mapped) value)
    measured ← or_fail (unusable least undefined_accumulation (some mapped) none) value
    _ ←
        require (not (fs.less measured least))
          (unusable least below_threshold (some mapped) (some measured))
    done (record { cell = mapped; coord = pixel_to_coord fl geo mapped; accumulation = measured })

  abbrev pub prepared_seed :
      RasterOutlet F
      → FlowDirectionTile (GeoTransform F) raw
      → AccumulationTile (GeoTransform F) A raw
      → CatchmentMask
      → A
      → Call (RefinementError F A L P) (Option (SnappedPoint F A))
  prepared_seed (vector_point v) flow_dir accumulation catchment_mask least =
      guarded_seed v flow_dir accumulation catchment_mask least >>= λ seed. done (some seed)
  prepared_seed (unit_only request) flow_dir accumulation catchment_mask least = done none

  -- Step 6; the other pairs are unreachable.
  abbrev pub chosen_seed :
      RasterOutlet F
      → Option (SnappedPoint F A)
      → AccumulationTile (GeoTransform F) A masked
      → Call (RefinementError F A L P) (SnappedPoint F A × RasterSeedKind)
  chosen_seed (vector_point v) (some seed) masked_acc = done (seed, vector_quantized)
  chosen_seed (unit_only request) none masked_acc =
      of_snap (snap_pour_point fl fs rasters.as_f32 request masked_acc threshold units epsg)
      >>= λ seed. done (seed, raster_ranked)
  chosen_seed (vector_point v) none masked_acc = panics
  chosen_seed (unit_only request) (some seed) masked_acc = panics

  -- Steps 4 to 9, for a mask that is not empty.
  pub refine_masked :
      RasterOutlet F
      → FlowDirectionTile (GeoTransform F) raw
      → AccumulationTile (GeoTransform F) A raw
      → CatchmentMask
      → Call (RefinementError F A L P) (RefinementResult F A Shape)
  refine_masked outlet flow_dir accumulation catchment_mask = do
    let geo = flow_dir.inner.geo
    let least = effective_threshold fl fs rasters.as_f32 threshold units geo
    vector_seed ← prepared_seed outlet flow_dir accumulation catchment_mask least
    masked_flow_dir ← of_result mask_failed (FlowTile.apply_mask flow_dir catchment_mask)
    masked_acc ← of_result mask_failed (AccTile.apply_mask fs accumulation catchment_mask)
    chosen ← chosen_seed outlet vector_seed masked_acc
    trace_mask ← of_outcome (trace_upstream masked_flow_dir chosen.0.cell)
    polygon ← or_fail empty_polygonization (rasters.polygonize trace_mask geo)
    done (record { snapped_point = chosen.0; seed_kind = chosen.1; polygon = polygon })

  pub refine_terminal :
      Shape
      → RasterOutlet F
      → FlowDirectionTile (GeoTransform F) raw
      → AccumulationTile (GeoTransform F) A raw
      → Call (RefinementError F A L P) (RefinementResult F A Shape)
  refine_terminal terminal_polygon outlet flow_dir accumulation = do
    _ ← require (rasters.d8_pair_is_compatible epsg units) (geographic_km2_unsupported epsg units)
    let fd = FlowTile.dims flow_dir
    let acc = AccTile.dims accumulation
    _ ← require (same_dims fd acc) (dimension_mismatch fd.rows fd.cols acc.rows acc.cols)
    let geo = flow_dir.inner.geo
    _ ← require (same_geo fl geo accumulation.inner.geo) (geo_transform_mismatch fd.rows fd.cols)
    let mask_data = rasters.rasterize_multi_polygon terminal_polygon geo fd
    _ ← require (any_marked mask_data) (empty_raster_mask fd.rows fd.cols)
    catchment_mask ← of_outcome (from_traced mask_data fd)
    refine_masked outlet flow_dir accumulation catchment_mask

  -- The arguments are the bounding rectangle of a polygon, and the loads from the source.
  pub refine_terminal_from_source :
      {Rect Uri : Type 0}
      → (Shape → Option Rect)
      → (Uri → Rect → FlowDirEncoding → Result (FlowDirectionTile (GeoTransform F) raw) L)
      → (Uri → Rect → Result (AccumulationTile (GeoTransform F) A raw) L)
      → Uri
      → Uri
      → Shape
      → RasterOutlet F
      → FlowDirEncoding
      → Call (RefinementError F A L P) (RefinementResult F A Shape)
  refine_terminal_from_source bounding_rect load_flow_direction load_accumulation flow_dir_uri
        flow_acc_uri terminal_polygon outlet encoding =
      do
        bbox ← or_fail degenerate_terminal_polygon (bounding_rect terminal_polygon)
        flow_dir ← of_result raster_load (load_flow_direction flow_dir_uri bbox encoding)
        accumulation ← of_result raster_load (load_accumulation flow_acc_uri bbox)
        refine_terminal terminal_polygon outlet flow_dir accumulation
