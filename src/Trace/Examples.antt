-- ===== src/Trace/Examples.antt =====
-- Runs of the trace on a small tile, and the theorem at this tile.
use package.watershed_delineation.Prelude.{
  ◌≡◌, refl, ◌↔◌, true, false, [], ◌∷◌, returns, panics, arith,
}
use package.watershed_delineation.Raster.Grid.{GridCoord, Inside, flat}
use package.watershed_delineation.Raster.FlowDir.{esri, from_encoded}
use package.watershed_delineation.Raster.FlowTile.{FlowDirectionTile, raw, dims, decode}
use package.watershed_delineation.Raster.FlowTile
use package.watershed_delineation.Raster.Tile
use package.watershed_delineation.Raster.Mask.{CatchmentMask, mask_dims, contains, from_traced}
use package.watershed_delineation.Trace.{trace_upstream, search_loop, scan, visit, mark}
use package.watershed_delineation.Trace.Region.{Drains}
use package.watershed_delineation.Trace.Correct.{trace_upstream-Drains}

-- →  ↓  ←
-- ↑  →  ↓ , the last cell flows off the tile.
abbrev small : FlowDirectionTile (Unit {0}) raw
small = record {
  inner = record {
    data_vec = 1 ∷ 4 ∷ 16 ∷ 64 ∷ 1 ∷ 4 ∷ [];
    rows = 2;
    cols = 3;
    nodata = 255;
    geo = tt;
  };
  encoding = esri;
}

abbrev outlet : GridCoord
outlet = record { row = 1; col = 1 }

trace_small :
    trace_upstream small outlet
    ≡ returns
        (record { data_vec = true ∷ true ∷ true ∷ true ∷ true ∷ false ∷ []; rows = 2; cols = 3 })
unfolding trace_upstream search_loop scan visit mark FlowTile.get_checked from_traced flat
    Tile.get_checked decode from_encoded
trace_small = refl

-- A pour point off the tile indexes past the flags.
trace_outside : trace_upstream small (record { row = 2; col = 0 }) ≡ panics
unfolding trace_upstream flat
trace_outside = refl

trace_upstream-Drains_example :
    (m : CatchmentMask) × (trace_upstream small outlet ≡ returns m)
    × (mask_dims m ≡ dims small)
    × ((p : GridCoord)
        → Inside (dims small) p
        → (contains m p ≡ returns true) ↔ Drains small outlet p)
trace_upstream-Drains_example = trace_upstream-Drains small outlet (omega arith) (omega arith)
