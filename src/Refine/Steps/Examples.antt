-- ===== src/Refine/Steps/Examples.antt =====
-- The theorems on refinement at small tiles, with numbers for floats.
use package.watershed_delineation.Prelude.{
  ℕ, ◌≡◌, refl, ◌⊎◌, Bool, true, false, Option, none, some, [], ◌==◌, ◌∷◌, returns, arith,
}
use package.watershed_delineation.Prelude.Naturals.{naturals}
use package.watershed_delineation.Prelude.Calls.{fails}
use package.watershed_delineation.Raster.Grid.{Inside}
use package.watershed_delineation.Raster.FlowDir.{esri}
use package.watershed_delineation.Raster.FlowTile
use package.watershed_delineation.Raster.FlowTile.{FlowDirectionTile, DecodedFlowCell, raw, dims}
use package.watershed_delineation.Raster.AccTile
use package.watershed_delineation.Raster.AccTile.{AccumulationTile, SnapThreshold}
use package.watershed_delineation.Raster.Mask.{CatchmentMask, contains}
use package.watershed_delineation.Geo.{NativeCoord, GeoTransform, coord_to_pixel_f64}
use package.watershed_delineation.Seed.{cells, is_outside}
use package.watershed_delineation.Refine.{Rasters, grid_mapping, vector_point}
use package.watershed_delineation.Refine.Steps.{unusable, guarded_seed, refine_terminal}
use package.watershed_delineation.Refine.Steps.Guards.{Guarded, mapped_cell, guarded_seed-Guarded}
use package.watershed_delineation.Refine.Steps.Contained.{Refined, refine_terminal-Refined}
use package.watershed_delineation.Prelude.Floats.{Floats}

abbrev geo : GeoTransform ℕ
geo = record { origin_x = 0; origin_y = 0; pixel_width = 1; pixel_height = 1 }

abbrev flow_dir : FlowDirectionTile (GeoTransform ℕ) raw
flow_dir = record {
  inner = record { data_vec = 1 ∷ 4 ∷ 1 ∷ 1 ∷ []; rows = 2; cols = 2; nodata = 255; geo = geo };
  encoding = esri;
}

abbrev accumulation : AccumulationTile (GeoTransform ℕ) ℕ raw
accumulation = record {
  inner = record { data_vec = 1 ∷ 2 ∷ 1 ∷ 9 ∷ []; rows = 2; cols = 2; nodata = 0; geo = geo };
}

abbrev outlet : NativeCoord ℕ
outlet = record { x = 1; y = 1 }

abbrev threshold : SnapThreshold
threshold = record { pixels = 5 }

-- 99 is the only NaN.
abbrev f32 : Floats ℕ
f32 = record naturals { is_nan = λ a. a == 99; nan = 99 }

-- The terminal polygon is the column on the right; a polygon is the number of marked cells.
abbrev rasters : Rasters ℕ ℕ ℕ
rasters = record {
  as_f32 = λ a. a;
  d8_pair_is_compatible = λ epsg units. true;
  rasterize_multi_polygon = λ shape g d. false ∷ true ∷ false ∷ true ∷ [];
  polygonize = λ mask g. some 2;
}

abbrev column : CatchmentMask
column = record { data_vec = false ∷ true ∷ false ∷ true ∷ []; rows = 2; cols = 2 }

guarded_seed-Guarded_example :
    let frac = coord_to_pixel_f64 naturals geo outlet in
    let cell = mapped_cell naturals frac in
    let call =
      guarded_seed {L = Unit {0}} {P = Unit {0}} naturals f32 rasters threshold cells 4326 outlet
        flow_dir accumulation column 5 in
    ((is_outside naturals frac (dims flow_dir) ≡ true)
      × (call
          ≡ fails (unusable naturals f32 rasters threshold cells 4326 5 grid_mapping none none)))
    ⊎ ((is_outside naturals frac (dims flow_dir) ≡ false)
        × Inside (dims flow_dir) cell
        × ((inside : Bool) × (decoded : Option DecodedFlowCell) × (v : ℕ) × (contains column cell
              ≡ returns inside)
            × (FlowTile.decoded_cell flow_dir cell ≡ returns decoded)
            × (AccTile.get_raw accumulation cell ≡ returns v)
            × Guarded naturals f32 rasters threshold cells 4326 outlet flow_dir accumulation column
                5 cell inside decoded v call))
guarded_seed-Guarded_example =
    guarded_seed-Guarded naturals f32 rasters threshold cells 4326 outlet flow_dir accumulation
      column 5 (omega arith) (omega arith) refl refl refl
      (λ x n finite low high. ground (arith, high))

refine_terminal-Refined_example :
    Refined {L = Unit {0}} {P = Unit {0}} naturals f32 rasters threshold cells 4326
      (vector_point outlet)
      flow_dir
      accumulation
      column
      (refine_terminal naturals f32 rasters threshold cells 4326 0
        (vector_point outlet)
        flow_dir
        accumulation)
refine_terminal-Refined_example =
    refine_terminal-Refined naturals f32 rasters threshold cells 4326 (vector_point outlet) flow_dir
      accumulation 0 (omega arith) (omega arith) refl (λ x n finite low high. ground (arith, high))
      refl
