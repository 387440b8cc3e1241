-- ===== src/Raster/FlowTile.antt =====
-- Tiles of flow directions (crates/core/src/algo/flow_direction_tile.rs). The type-level state of a
-- tile, raw or masked, is a parameter of its type.
pub mod Laws
use package.watershed_delineation.Prelude.{
  ℕ, ◌*◌, ◌≡◌, Bool, true, false, not, ◌&&◌, Option, none, some, List, [], ◌∷◌, Result, ok, err,
  Outcome, returns, ◌>>=◌, ◌==◌, if◌then◌else◌,
}
use package.watershed_delineation.Prelude.Int.{ℤ}
use package.watershed_delineation.Raster.Grid.{GridCoord, GridDims}
use package.watershed_delineation.Raster.FlowDir.{
  FlowDir, FlowDirEncoding, esri, taudem, grass, Decoded, from_encoded,
}
use package.watershed_delineation.Raster.Tile
use package.watershed_delineation.Raster.Tile.{RasterTile, RasterTileError, dimension_mismatch}
use package.watershed_delineation.Raster.Mask.{CatchmentMask, mask_dims}

-- `NODATA`.
abbrev pub nodata_byte : ℕ
nodata_byte = 255

pub data TileState : Type 0 where
  raw masked : TileState

pub data FlowDirectionTileError : Type 0 where
  directional_nodata : ℕ → FlowDirEncoding → FlowDirectionTileError

pub data DecodedFlowCell : Type 0 where
  direction : FlowDir → DecodedFlowCell
  terminal : DecodedFlowCell

pub record FlowDirectionTile (G : Type 0) (S : TileState) : Type 0 where
  pub inner : RasterTile G ℕ
  pub encoding : FlowDirEncoding

-- `unwrap_or_default` of a decoded byte.
abbrev pub or_default : Decoded → Option FlowDir
or_default (ok d) = d
or_default (err e) = none

unfoldable pub decode : ℕ → FlowDirEncoding → Option FlowDir
decode raw_byte e = if raw_byte == nodata_byte then none else or_default (from_encoded raw_byte e)

abbrev pub is_grass : FlowDirEncoding → Bool
is_grass grass = true
is_grass esri = false
is_grass taudem = false

-- The match of `decoded_cell` on what the byte decodes to.
abbrev pub classify : Decoded → FlowDirEncoding → Option DecodedFlowCell
classify (ok (some d)) e = some (direction d)
classify (ok none) e = if is_grass e then some terminal else none
classify (err x) e = none

abbrev pub decode_some : FlowDirEncoding → Option ℕ → Option FlowDir
decode_some e none = none
decode_some e (some raw_byte) = decode raw_byte e

module _ {G : Type 0} {S : TileState} where
  unfoldable pub get : FlowDirectionTile G S → GridCoord → Outcome (Option FlowDir)
  get t cell = Tile.get t.inner cell >>= λ raw_byte. returns (decode raw_byte t.encoding)

  unfoldable pub decoded_cell : FlowDirectionTile G S → GridCoord → Outcome (Option DecodedFlowCell)
  decoded_cell t cell = do
    raw_byte ← Tile.get t.inner cell
    returns (
        if raw_byte == t.inner.nodata
        then none
        else classify (from_encoded raw_byte t.encoding) t.encoding)

  unfoldable pub get_checked : FlowDirectionTile G S → ℤ → ℤ → Outcome (Option FlowDir)
  get_checked t row col =
      Tile.get_checked t.inner row col >>= λ o. returns (decode_some t.encoding o)

  abbrev pub dims : FlowDirectionTile G S → GridDims
  dims t = Tile.dims t.inner

abbrev pub is_directional : Decoded → Bool
is_directional (ok (some d)) = true
is_directional (ok none) = false
is_directional (err x) = false

-- The loop of `apply_mask` over the zipped cells and flags.
unfoldable pub mask_cells : List ℕ → List Bool → List ℕ
mask_cells [] keep = []
mask_cells (c ∷ cs) [] = c ∷ cs
mask_cells (c ∷ cs) (k ∷ keep) = (if k then c else 255) ∷ mask_cells cs keep

module _ {G : Type 0} where
  unfoldable pub new :
      GridDims → G → FlowDirEncoding → Result (FlowDirectionTile G raw) RasterTileError
  new d geo e = elim (Tile.new d nodata_byte geo) [
    | ok inner ↦ ok (record { inner = inner; encoding = e })
    | err x ↦ err x
  ]

  unfoldable pub from_raw :
      RasterTile G ℕ → FlowDirEncoding → Result (FlowDirectionTile G raw) FlowDirectionTileError
  from_raw tile e =
      if is_directional (from_encoded tile.nodata e)
      then err (directional_nodata tile.nodata e)
      else ok (record { inner = tile; encoding = e })

  unfoldable pub set_raw :
      FlowDirectionTile G raw → GridCoord → ℕ → Outcome (FlowDirectionTile G raw)
  set_raw t cell value =
      Tile.set t.inner cell value >>= λ inner. returns (record t { inner = inner })

  unfoldable pub apply_mask :
      FlowDirectionTile G raw → CatchmentMask → Result (FlowDirectionTile G masked) RasterTileError
  apply_mask t m =
      let inner = t.inner in
      if m.rows == inner.rows && m.cols == inner.cols
      then ok (record {
        inner = record inner { data_vec = mask_cells inner.data_vec m.data_vec };
        encoding = t.encoding;
      })
      else err
          (dimension_mismatch (inner.rows * inner.cols) inner.rows inner.cols (m.rows * m.cols))
