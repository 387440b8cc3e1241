-- ===== src/Raster/AccTile.antt =====
-- Tiles of flow accumulation (crates/core/src/algo/accumulation_tile.rs), over a parameter for `f32`.
-- A cell without data is a NaN.
pub mod Laws
use package.watershed_delineation.Prelude.{
  ℕ, ◌*◌, Bool, true, false, not, ◌&&◌, Option, none, some, List, [], ◌∷◌, map, Result, ok, err,
  Outcome, returns, ◌>>=◌, ◌==◌, if◌then◌else◌,
}
use package.watershed_delineation.Prelude.Int.{ℤ}
use package.watershed_delineation.Prelude.Floats.{Floats}
use package.watershed_delineation.Raster.Grid.{GridCoord, GridDims}
use package.watershed_delineation.Raster.Tile
use package.watershed_delineation.Raster.Tile.{RasterTile, RasterTileError, dimension_mismatch}
use package.watershed_delineation.Raster.FlowTile.{TileState, raw, masked}
use package.watershed_delineation.Raster.Mask.{CatchmentMask}

pub record AccumulationTile (G A : Type 0) (S : TileState) : Type 0 where
  pub inner : RasterTile G A

-- `SnapThreshold`, a number of upstream cells (crates/core/src/algo/snap_threshold.rs).
pub record SnapThreshold : Type 0 where
  pub pixels : ℕ

abbrev pub default_threshold : SnapThreshold
default_threshold = record { pixels = 1000 }

module _ {A : Type 0} (fl : Floats A) where
  abbrev pub as_f32 : SnapThreshold → A
  as_f32 threshold = fl.of_nat threshold.pixels

  -- `filter(|value| !value.is_nan())`.
  abbrev pub defined : A → Option A
  defined value = if fl.is_nan value then none else some value

  abbrev pub and_defined : Option A → Option A
  and_defined none = none
  and_defined (some value) = defined value

  abbrev pub reaches : SnapThreshold → A → Bool
  reaches threshold value = not (fl.is_nan value) && fl.at_most (as_f32 threshold) value

  abbrev pub mask_values : List A → List Bool → List A
  mask_values [] keeps = []
  mask_values (value ∷ values) [] = value ∷ values
  mask_values (value ∷ values) (keep ∷ keeps) =
      (if keep then value else fl.nan) ∷ mask_values values keeps

  module _ {G : Type 0} where
    unfoldable pub get : {S : TileState} → AccumulationTile G A S → GridCoord → Outcome (Option A)
    get t cell = Tile.get t.inner cell >>= λ value. returns (defined value)

    pub get_checked : {S : TileState} → AccumulationTile G A S → ℤ → ℤ → Outcome (Option A)
    get_checked t row col =
        Tile.get_checked t.inner row col >>= λ value. returns (and_defined value)

    pub new : GridDims → G → Result (AccumulationTile G A raw) RasterTileError
    new d geo = elim (Tile.new d fl.nan geo) [
      | ok inner ↦ ok (record { inner = inner })
      | err e ↦ err e
    ]

    pub stream_mask : AccumulationTile G A raw → SnapThreshold → List Bool
    stream_mask t threshold = map (reaches threshold) t.inner.data_vec

    pub exceeds_threshold : AccumulationTile G A raw → GridCoord → SnapThreshold → Outcome Bool
    exceeds_threshold t cell threshold =
        Tile.get t.inner cell >>= λ value. returns (reaches threshold value)

    unfoldable pub apply_mask :
        AccumulationTile G A raw
        → CatchmentMask
        → Result (AccumulationTile G A masked) RasterTileError
    apply_mask t m =
        let inner = t.inner in
        if m.rows == inner.rows && m.cols == inner.cols
        then ok
            (record { inner = record inner { data_vec = mask_values inner.data_vec m.data_vec } })
        else err
            (dimension_mismatch (inner.rows * inner.cols) inner.rows inner.cols (m.rows * m.cols))

module _ {G A : Type 0} where
  abbrev pub get_raw : {S : TileState} → AccumulationTile G A S → GridCoord → Outcome A
  get_raw t cell = Tile.get t.inner cell

  abbrev pub dims : {S : TileState} → AccumulationTile G A S → GridDims
  dims t = Tile.dims t.inner

  abbrev pub from_raw : RasterTile G A → AccumulationTile G A raw
  from_raw tile = record { inner = tile }

  pub set_raw : AccumulationTile G A raw → GridCoord → A → Outcome (AccumulationTile G A raw)
  set_raw t cell value = Tile.set t.inner cell value >>= λ inner. returns (record { inner = inner })
