-- ===== src/Cog/Copy.antt =====
-- The copy of decoded tiles into a window: `decode_window`, `copy_tile_u8` and `copy_tile_f32`
-- (crates/core/src/cog.rs). The two copies have one body at two sample types, here `T`. The decoded
-- chunks are an argument. `u32` arithmetic panics when it leaves the range.
pub mod Slices
pub mod Rows
pub mod Tiles
pub mod Window
use package.watershed_delineation.Prelude.{
  ℕ, zero, suc, ◌+◌, ◌-◌, ◌*◌, ◌/◌, ◌%◌, ◌^◌, min, max, Option, none, some, List, [], ◌∷◌, length,
  take, drop, replicate, ltb, leb, if◌then◌else◌,
}
use package.watershed_delineation.Prelude.Calls.{
  Call, done, fails, panics, ◌>>=◌, or_fail, or_panics, checked_add, checked_mul, checked_sub,
  checked_div,
}
use package.watershed_delineation.Cog.{CogMetadata, RasterPixelWindow, tiles_across}

abbrev pub max_window_allocation_bytes : ℕ
max_window_allocation_bytes = 1073741824

pub data WindowError : Type 0 where
  element_count_overflow allocation_bytes_overflow : WindowError
  too_many_bytes : ℕ → WindowError

-- The conversion to `usize` of 64 bits never fails.
unfoldable pub window_allocation_len : ℕ → ℕ → ℕ → Call WindowError ℕ
window_allocation_len width height sample_width = do
  elements ← or_fail element_count_overflow (checked_mul 64 width height)
  bytes ← or_fail allocation_bytes_overflow (checked_mul 64 elements sample_width)
  if ltb max_window_allocation_bytes bytes then fails (too_many_bytes bytes) else done elements

-- `a + b`, `a - b`, `a * b` on `u32`.
abbrev pub add32 : ℕ → ℕ → Call WindowError ℕ
add32 a b = or_panics (checked_add 32 a b)

abbrev pub sub32 : ℕ → ℕ → Call WindowError ℕ
sub32 a b = or_panics (checked_sub a b)

abbrev pub mul32 : ℕ → ℕ → Call WindowError ℕ
mul32 a b = or_panics (checked_mul 32 a b)

abbrev pub tile_col_row : CogMetadata → ℕ → ℕ × ℕ
tile_col_row m index = (index % tiles_across m, index / tiles_across m)

-- The tuple that `tile_copy_span` returns.
pub record CopySpan : Type 0 where
  pub src_width : ℕ
  pub src_height : ℕ
  pub dst_col : ℕ
  pub dst_row : ℕ
  pub copy_width : ℕ
  pub copy_height : ℕ

unfoldable pub tile_copy_span : CogMetadata → RasterPixelWindow → ℕ → ℕ → Call WindowError CopySpan
tile_copy_span m window tile_col tile_row = do
  tile_x ← mul32 tile_col m.tile_width
  tile_y ← mul32 tile_row m.tile_height
  right ← sub32 m.width tile_x
  below ← sub32 m.height tile_y
  let src_width = min m.tile_width right
  let src_height = min m.tile_height below
  let dst_col = max window.col_off tile_x
  let dst_row = max window.row_off tile_y
  window_end_col ← add32 window.col_off window.width
  tile_end_col ← add32 tile_x src_width
  window_end_row ← add32 window.row_off window.height
  tile_end_row ← add32 tile_y src_height
  copy_width ← sub32 (min window_end_col tile_end_col) dst_col
  copy_height ← sub32 (min window_end_row tile_end_row) dst_row
  done (record {
    src_width = src_width;
    src_height = src_height;
    dst_col = dst_col;
    dst_row = dst_row;
    copy_width = copy_width;
    copy_height = copy_height;
  })

module _ {T : Type 0} where
  -- `xs[start..start + n]`.
  unfoldable pub slice : List T → ℕ → ℕ → Option (List T)
  slice xs start n = if leb (start + n) (length xs) then some (take n (drop start xs)) else none

  -- The values `vs` written over `xs` from `start` on.
  unfoldable pub overwrite : List T → ℕ → List T → List T
  overwrite [] start vs = []
  overwrite (x ∷ xs) (suc start) vs = x ∷ overwrite xs start vs
  overwrite (x ∷ xs) zero [] = x ∷ xs
  overwrite (x ∷ xs) zero (v ∷ vs) = v ∷ overwrite xs zero vs

  -- The body of the loop over the rows of a tile.
  unfoldable pub copy_row :
      CogMetadata
      → RasterPixelWindow
      → ℕ
      → ℕ
      → CopySpan
      → List T
      → ℕ
      → List T
      → Call WindowError (List T)
  copy_row m window tile_col tile_row span tile_data row out = do
    y ← add32 span.dst_row row
    tile_y ← mul32 tile_row m.tile_height
    src_row ← sub32 y tile_y
    src_line ← mul32 src_row span.src_width
    tile_x ← mul32 tile_col m.tile_width
    src_col ← sub32 span.dst_col tile_x
    src_start ← add32 src_line src_col
    window_row ← sub32 y window.row_off
    line ← mul32 window_row window.width
    window_col ← sub32 span.dst_col window.col_off
    dst_start ← add32 line window_col
    destination ← or_panics (slice out dst_start span.copy_width)
    source ← or_panics (slice tile_data src_start span.copy_width)
    done (overwrite out dst_start source)

  -- Rows `row` and the `n - 1` after it.
  unfoldable pub copy_rows :
      CogMetadata
      → RasterPixelWindow
      → ℕ
      → ℕ
      → CopySpan
      → List T
      → ℕ
      → ℕ
      → List T
      → Call WindowError (List T)
  copy_rows m window tile_col tile_row span tile_data row zero out = done out
  copy_rows m window tile_col tile_row span tile_data row (suc n) out =
      copy_row m window tile_col tile_row span tile_data row out
      >>= copy_rows m window tile_col tile_row span tile_data (suc row) n

  unfoldable pub copy_tile :
      List T → List T → CogMetadata → RasterPixelWindow → ℕ → Call WindowError (List T)
  copy_tile tile_data out m window tile_index = do
    let tile = tile_col_row m tile_index
    span ← tile_copy_span m window tile.0 tile.1
    copy_rows m window tile.0 tile.1 span tile_data 0 span.copy_height out

  -- The loop over the planned tiles, each with its decoded chunk.
  unfoldable pub copy_tiles :
      CogMetadata → RasterPixelWindow → List (ℕ × List T) → List T → Call WindowError (List T)
  copy_tiles m window [] out = done out
  copy_tiles m window ((index, tile_data) ∷ tiles) out =
      copy_tile tile_data out m window index >>= copy_tiles m window tiles

  -- `decode_window` at chunks that decoded, with the value that stands for no data.
  unfoldable pub fill_window :
      ℕ → T → CogMetadata → RasterPixelWindow → List (ℕ × List T) → Call WindowError (List T)
  fill_window sample_width nodata m window tiles = do
    length ← window_allocation_len window.width window.height sample_width
    copy_tiles m window tiles (replicate length nodata)
