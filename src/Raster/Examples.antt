-- ===== src/Raster/Examples.antt =====
-- The theorems on tiles and encodings at concrete tiles and bytes.
use package.watershed_delineation.Prelude.{
  ℕ, ◌*◌, ◌≡◌, refl, ◌↔◌, ◌⊎◌, true, false, none, some, [], ◌∷◌, ok, err, returns, arith,
}
use package.watershed_delineation.Raster.Grid.{GridCoord, Inside}
use package.watershed_delineation.Raster.FlowDir.{
  southwest, southeast, grass, esri, from_encoded, to_encoded, invalid_encoding, from_grass,
}
use package.watershed_delineation.Raster.FlowDir.Laws.{from_encoded_iff, from_encoded-echo}
use package.watershed_delineation.Raster.Tile
use package.watershed_delineation.Raster.Tile.{RasterTile, dimension_mismatch}
use package.watershed_delineation.Raster.Tile.Laws.{get-set}
use package.watershed_delineation.Raster.Mask.{CatchmentMask, contains}
use package.watershed_delineation.Raster.FlowTile
use package.watershed_delineation.Raster.FlowTile.{
  FlowDirectionTile, raw, masked, dims, apply_mask, mask_cells, direction, from_raw,
}
use package.watershed_delineation.Prelude.Naturals.{naturals}
use package.watershed_delineation.Raster.AccTile
use package.watershed_delineation.Raster.AccTile.{AccumulationTile}
use package.watershed_delineation.Raster.AccTile.Laws.{get_raw-apply_mask}
use package.watershed_delineation.Raster.FlowTile.Laws.{get-apply_mask, get-decoded_cell}

from_encoded_iff_example :
    (from_encoded 5 grass ≡ ok (some southwest)) ↔ (to_encoded southwest grass ≡ 5)
from_encoded_iff_example = from_encoded_iff 5 grass southwest (omega arith)

-- 200 is -56 as an `i8`.
refused : from_encoded 200 grass ≡ err (invalid_encoding 200)
unfolding from_encoded from_grass
refused = refl

from_encoded-echo_example : ◌≡◌ {A = ℕ} 200 200
from_encoded-echo_example = from_encoded-echo 200 200 grass (omega arith) refused

abbrev bytes : RasterTile (Unit {0}) ℕ
bytes = record { data_vec = 1 ∷ 2 ∷ 255 ∷ 4 ∷ []; rows = 2; cols = 2; nodata = 255; geo = tt }

abbrev corner : GridCoord
corner = record { row = 0; col = 1 }

get-set_example :
    (t' : RasterTile (Unit {0}) ℕ) × (Tile.set bytes corner 8 ≡ returns t')
    × Tile.IsValid t'
    × (Tile.get t' corner ≡ returns 8)
    × ((record { row = 1; col = 0 } ≡ corner)
        ⊎ (Tile.get t' (record { row = 1; col = 0 })
            ≡ Tile.get bytes (record { row = 1; col = 0 })))
get-set_example =
    get-set bytes corner (record { row = 1; col = 0 }) 8 (omega arith) (omega arith) (omega arith)

abbrev tile : FlowDirectionTile (Unit {0}) raw
tile = record { inner = bytes; encoding = esri }

bytes-accepted : from_raw bytes esri ≡ ok tile
unfolding from_raw from_encoded
bytes-accepted = refl

get-decoded_cell_example :
    (FlowTile.get tile corner ≡ returns (some southeast))
    ↔ (FlowTile.decoded_cell tile corner ≡ returns (some (direction southeast)))
get-decoded_cell_example = get-decoded_cell bytes esri tile corner southeast bytes-accepted

abbrev half : CatchmentMask
half = record { data_vec = true ∷ false ∷ true ∷ true ∷ []; rows = 2; cols = 2 }

get-apply_mask_example :
    ((half.rows ≡ 2) × (half.cols ≡ 2)
      → (t' : FlowDirectionTile (Unit {0}) masked) × (apply_mask tile half ≡ ok t')
        × Tile.IsValid t'.inner
        × ((p : GridCoord)
            → Inside (dims tile) p
            → ((contains half p ≡ returns true) × (FlowTile.get t' p ≡ FlowTile.get tile p))
              ⊎ ((contains half p ≡ returns false) × (FlowTile.get t' p ≡ returns none))))
    × (¬ ((half.rows ≡ 2) × (half.cols ≡ 2))
        → apply_mask tile half ≡ err (dimension_mismatch (2 * 2) 2 2 (2 * 2)))
get-apply_mask_example = get-apply_mask tile half (omega arith) refl

abbrev flow : AccumulationTile (Unit {0}) ℕ raw
flow = record { inner = bytes }

get_raw-apply_mask_example :
    ((half.rows ≡ 2) × (half.cols ≡ 2)
      → (t' : AccumulationTile (Unit {0}) ℕ masked) × (AccTile.apply_mask naturals flow half
          ≡ ok t')
        × Tile.IsValid t'.inner
        × (AccTile.dims t' ≡ AccTile.dims flow)
        × (t'.inner.geo ≡ tt)
        × ((p : GridCoord)
            → Inside (AccTile.dims flow) p
            → ((contains half p ≡ returns true) × (AccTile.get_raw t' p ≡ AccTile.get_raw flow p))
              ⊎ ((contains half p ≡ returns false) × (AccTile.get_raw t' p ≡ returns 0))))
    × (¬ ((half.rows ≡ 2) × (half.cols ≡ 2))
        → AccTile.apply_mask naturals flow half ≡ err (dimension_mismatch (2 * 2) 2 2 (2 * 2)))
get_raw-apply_mask_example = get_raw-apply_mask naturals flow half (omega arith) refl
