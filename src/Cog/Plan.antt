-- ===== src/Cog/Plan.antt =====
-- The tiles that a window needs: `TilePlan::for_window` (crates/core/src/cog.rs).
pub mod Indices
pub mod Covers
use package.watershed_delineation.Prelude.{
  ℕ, zero, suc, ◌+◌, ◌-◌, List, [], ◌∷◌, ◌++◌, ltb, if◌then◌else◌,
}
use package.watershed_delineation.Prelude.Calls.{
  Call, done, fails, ◌>>=◌, or_fail, or_panics, checked_add, checked_mul, checked_sub, checked_div,
  and_then,
}
use package.watershed_delineation.Cog.{
  CogMetadata, RasterPixelWindow, tiles_across, RemoteLayoutError, window_column_overflow,
  window_row_overflow, tile_count_overflow, tile_index_overflow, too_many_tiles,
}

abbrev pub max_planned_tile_count : ℕ
max_planned_tile_count = 65536

-- The inner loop, over `n` columns of tiles.
unfoldable pub plan_row : ℕ → ℕ → ℕ → ℕ → Call RemoteLayoutError (List ℕ)
plan_row across tile_row tile_col zero = done []
plan_row across tile_row tile_col (suc n) = do
  let checked = and_then (checked_mul 32 tile_row across) (λ value. checked_add 32 value tile_col)
  index ← or_fail tile_index_overflow checked
  indices ← plan_row across tile_row (suc tile_col) n
  done (index ∷ indices)

-- The outer loop, over `n` rows of tiles.
unfoldable pub plan_rows : ℕ → ℕ → ℕ → ℕ → ℕ → Call RemoteLayoutError (List ℕ)
plan_rows across tile_row first_col cols zero = done []
plan_rows across tile_row first_col cols (suc n) = do
  here ← plan_row across tile_row first_col cols
  indices ← plan_rows across (suc tile_row) first_col cols n
  done (here ++ indices)

-- The first and the last tile that `off .. off + len` meets on an axis.
unfoldable pub axis_tiles : RemoteLayoutError → ℕ → ℕ → ℕ → Call RemoteLayoutError (ℕ × ℕ)
axis_tiles overflow off len tile_len = do
  first ← or_panics (checked_div off tile_len)
  last ← or_fail overflow (and_then (checked_add 32 off len) (λ value. checked_sub value 1))
  last_tile ← or_panics (checked_div last tile_len)
  done (first, last_tile)

-- `last - first + 1`.
unfoldable pub steps : ℕ → ℕ → Call RemoteLayoutError ℕ
steps first last = do
  difference ← or_panics (checked_sub last first)
  or_panics (checked_add 32 difference 1)

unfoldable pub for_window : CogMetadata → RasterPixelWindow → Call RemoteLayoutError (List ℕ)
for_window m window = do
  cols ← axis_tiles window_column_overflow window.col_off window.width m.tile_width
  rows ← axis_tiles window_row_overflow window.row_off window.height m.tile_height
  tile_cols ← steps cols.0 cols.1
  tile_rows ← steps rows.0 rows.1
  count ← or_fail tile_count_overflow (checked_mul 64 tile_cols tile_rows)
  if ltb max_planned_tile_count count
      then fails (too_many_tiles count)
      else plan_rows (tiles_across m) rows.0 cols.0 tile_cols tile_rows
