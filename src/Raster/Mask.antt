-- ===== src/Raster/Mask.antt =====
-- The mask of a catchment's cells (crates/core/src/algo/catchment_mask.rs).
use package.watershed_delineation.Prelude.{
  ℕ, suc, ◌*◌, Bool, true, false, List, [], ◌∷◌, Outcome, returns, panics, or_panic, length,
  get_elem?, ◌==◌, if◌then◌else◌,
}
use package.watershed_delineation.Raster.Grid.{GridCoord, GridDims, flat}

pub record CatchmentMask : Type 0 where
  pub data_vec : List Bool
  pub rows : ℕ
  pub cols : ℕ

-- `from_traced` and `new`, whose bodies agree. A `debug_assert` of a debug build panics.
unfoldable pub from_traced : List Bool → GridDims → Outcome CatchmentMask
from_traced flags d =
    if length flags == d.rows * d.cols
    then returns (record { data_vec = flags; rows = d.rows; cols = d.cols })
    else panics

unfoldable pub contains : CatchmentMask → GridCoord → Outcome Bool
unfolding flat
contains m cell = or_panic (get_elem? m.data_vec (flat m.cols cell))

abbrev pub mask_dims : CatchmentMask → GridDims
mask_dims m = record { rows = m.rows; cols = m.cols }

abbrev pub count_true : List Bool → ℕ
count_true [] = 0
count_true (true ∷ vs) = suc (count_true vs)
count_true (false ∷ vs) = count_true vs

-- `cell_count`.
unfoldable pub marked_cells : CatchmentMask → ℕ
marked_cells m = count_true m.data_vec
