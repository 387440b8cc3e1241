-- ===== src/Raster/Tile.antt =====
-- A raster tile with a nodata sentinel (crates/core/src/algo/raster_tile.rs). The geo-transform is
-- carried along unread, so its type `G` is a parameter.
pub mod Laws
use package.watershed_delineation.Prelude.{
  ℕ, ◌+◌, ◌*◌, ◌<◌, ◌≡◌, Bool, ◌||◌, Option, none, some, List, Result, ok, err, Outcome, returns,
  panics, ◌>>=◌, or_panic, leb, ltb, ◌==◌, if◌then◌else◌, length, replicate, get_elem?, arith,
}
use package.watershed_delineation.Prelude.Int.{ℤ, pos_part, is_negative}
use package.watershed_delineation.Prelude
use package.watershed_delineation.Raster.Grid.{GridCoord, GridDims, flat}

pub data RasterTileError : Type 0 where
  dimension_mismatch : ℕ → ℕ → ℕ → ℕ → RasterTileError
  empty_tile : ℕ → ℕ → RasterTileError

pub record RasterTile (G T : Type 0) : Type 0 where
  pub data_vec : List T
  pub rows : ℕ
  pub cols : ℕ
  pub nodata : T
  pub geo : G

module _ {G T : Type 0} where
  unfoldable pub new : GridDims → T → G → Result (RasterTile G T) RasterTileError
  new dims nodata geo =
      let rows = dims.rows in
      let cols = dims.cols in
      if rows == 0 || cols == 0
      then err (empty_tile rows cols)
      else ok (record {
        data_vec = replicate (rows * cols) nodata;
        rows = rows;
        cols = cols;
        nodata = nodata;
        geo = geo;
      })

  -- The fields of the mismatch are `expected`, `rows`, `cols` and `actual`.
  unfoldable pub from_vec : List T → GridDims → T → G → Result (RasterTile G T) RasterTileError
  from_vec values dims nodata geo =
      let rows = dims.rows in
      let cols = dims.cols in
      let expected = rows * cols in
      if rows == 0 || cols == 0
      then err (empty_tile rows cols)
      else if length values == expected
      then ok (record { data_vec = values; rows = rows; cols = cols; nodata = nodata; geo = geo })
      else err (dimension_mismatch expected rows cols (length values))

  unfoldable pub get : RasterTile G T → GridCoord → Outcome T
  unfolding flat
  get t cell = or_panic (get_elem? t.data_vec (flat t.cols cell))

  -- The test that `get_checked` and the index operator share.
  is_outside : RasterTile G T → ℤ → ℤ → Bool
  is_outside t row col =
      is_negative row || is_negative col || leb t.rows (pos_part row) || leb t.cols (pos_part col)

  unfoldable pub get_checked : RasterTile G T → ℤ → ℤ → Outcome (Option T)
  unfolding is_outside get
  get_checked t row col =
      if is_outside t row col
      then returns none
      else (get t (record { row = pos_part row; col = pos_part col }) >>= λ v. returns (some v))

  unfoldable pub set : RasterTile G T → GridCoord → T → Outcome (RasterTile G T)
  unfolding flat
  set t cell value =
      let i = flat t.cols cell in
      if ltb i (length t.data_vec)
      then returns (record t { data_vec = Prelude.set t.data_vec i value })
      else panics

  -- `Index<(isize, isize)>`.
  unfoldable pub index : RasterTile G T → ℤ → ℤ → Outcome T
  unfolding is_outside get
  index t row col =
      if is_outside t row col
      then returns t.nodata
      else get t (record { row = pos_part row; col = pos_part col })

  abbrev pub dims : RasterTile G T → GridDims
  dims t = record { rows = t.rows; cols = t.cols }

  abbrev pub IsValid : RasterTile G T → Type 0
  IsValid t = (0 < t.rows) × (0 < t.cols) × (length t.data_vec ≡ t.rows * t.cols)
