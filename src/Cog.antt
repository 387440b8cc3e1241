-- ===== src/Cog.antt =====
-- The geometry of tiled rasters (crates/core/src/cog.rs): what a header says of the tiles, and the
-- window that a request asks for. The float fields and the nodata string are not in the model.
pub mod Plan
pub mod Copy
pub mod Ranges
pub mod Coverage
pub mod Layout
mod Examples
use package.watershed_delineation.Prelude.{ℕ, ◌+◌, ◌-◌, ◌/◌}

pub data IndexStorage : Type 0 where
  inline_scalar out_of_line : ℕ → IndexStorage

pub record IndexDescriptor : Type 0 where
  pub field_type : ℕ
  pub element_width : ℕ
  pub count : ℕ
  pub storage : IndexStorage

pub data CogSampleType : Type 0 where
  u8 i8 f32 i32 : CogSampleType

-- The fields of `remote` are `tile_offsets` and `tile_byte_counts`.
pub data CogIndex : Type 0 where
  remote : IndexDescriptor → IndexDescriptor → CogIndex
  local_file : CogIndex

pub record CogMetadata : Type 0 where
  pub width : ℕ
  pub height : ℕ
  pub tile_width : ℕ
  pub tile_height : ℕ
  pub sample_type : CogSampleType
  pub compression : ℕ
  pub predictor : ℕ
  pub index : CogIndex

pub record RasterPixelWindow : Type 0 where
  pub col_off : ℕ
  pub row_off : ℕ
  pub width : ℕ
  pub height : ℕ

-- `u32::div_ceil` with a divisor that is not zero.
abbrev pub div_ceil : ℕ → ℕ → ℕ
div_ceil a b = (a + (b - 1)) / b

abbrev pub tiles_across : CogMetadata → ℕ
tiles_across m = div_ceil m.width m.tile_width

abbrev pub tiles_down : CogMetadata → ℕ
tiles_down m = div_ceil m.height m.tile_height

pub data RemoteLayoutError : Type 0 where
  window_column_overflow window_row_overflow tile_count_overflow tile_index_overflow :
      RemoteLayoutError
  too_many_tiles : ℕ → RemoteLayoutError
