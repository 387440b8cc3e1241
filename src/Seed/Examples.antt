-- ===== src/Seed/Examples.antt =====
-- The theorems on raster seeds at a small tile, with numbers for floats.
use package.watershed_delineation.Prelude.{ℕ, ◌≡◌, ◌⊎◌, true, false, [], ◌∷◌, arith}
use package.watershed_delineation.Prelude.Naturals.{naturals}
use package.watershed_delineation.Prelude.Calls.{done, fails}
use package.watershed_delineation.Raster.FlowTile.{masked}
use package.watershed_delineation.Raster.AccTile.{AccumulationTile, SnapThreshold, dims}
use package.watershed_delineation.Geo.{
  NativeCoord, GeoTransform, pixel_to_coord, coord_to_pixel_f64,
}
use package.watershed_delineation.Seed.{
  RasterSeedCandidate, cells, no_cell_above_threshold, outlet_out_of_bounds, is_outside,
  effective_threshold,
}
use package.watershed_delineation.Seed.Laws.{Eligible}
use package.watershed_delineation.Seed.Snap.{snap_pour_point}
use package.watershed_delineation.Seed.Snap.Choice.{IsNearest, snap_pour_point-IsNearest}

abbrev geo : GeoTransform ℕ
geo = record { origin_x = 0; origin_y = 0; pixel_width = 1; pixel_height = 1 }

abbrev tile : AccumulationTile (GeoTransform ℕ) ℕ masked
tile = record {
  inner = record { data_vec = 1 ∷ 7 ∷ 3 ∷ 9 ∷ []; rows = 2; cols = 2; nodata = 0; geo = geo };
}

abbrev outlet : NativeCoord ℕ
outlet = record { x = 1; y = 0 }

abbrev threshold : SnapThreshold
threshold = record { pixels = 5 }

snap_pour_point-IsNearest_example :
    let frac = coord_to_pixel_f64 naturals geo outlet in
    let least = effective_threshold naturals naturals (λ a. a) threshold cells geo in
    let call = snap_pour_point naturals naturals (λ a. a) outlet tile threshold cells 4326 in
    (is_outside naturals frac (dims tile) ≡ true
      → call ≡ fails (outlet_out_of_bounds 4326 outlet (dims tile)))
    × (is_outside naturals frac (dims tile) ≡ false
        → (((c : RasterSeedCandidate ℕ ℕ) → ¬ Eligible naturals naturals tile frac least c)
            × (call ≡ fails (no_cell_above_threshold least cells 4326 outlet)))
          ⊎ ((c : RasterSeedCandidate ℕ ℕ) × IsNearest naturals naturals tile frac least c
              × (call
                  ≡ done (record {
                    cell = c.cell;
                    coord = pixel_to_coord naturals geo c.cell;
                    accumulation = c.accumulation;
                  }))))
snap_pour_point-IsNearest_example =
    snap_pour_point-IsNearest naturals naturals (λ a. a) outlet tile threshold cells 4326
      (omega arith)
