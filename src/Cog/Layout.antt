-- ===== src/Cog/Layout.antt =====
-- The layouts that a remote raster may have: `validate_merit_layout` (crates/core/src/cog.rs).
pub mod Laws
use package.watershed_delineation.Prelude.{
  ℕ, ◌*◌, Bool, true, false, ◌&&◌, ◌||◌, ◌==◌, ltb, if◌then◌else◌,
}
use package.watershed_delineation.Prelude.Calls.{
  Call, done, fails, ◌>>=◌, or_fail, checked_mul, require,
}
use package.watershed_delineation.Cog.{
  CogMetadata, CogSampleType, u8, i8, f32, i32, CogIndex, remote, local_file, IndexDescriptor,
  tiles_across, tiles_down,
}

-- `RasterKind` (crates/core/src/session.rs).
pub data RasterKind : Type 0 where
  flow_dir flow_acc : RasterKind

pub data LayoutError : Type 0 where
  tile_size : ℕ → ℕ → LayoutError
  tile_count_overflow local_index index_mismatch : LayoutError
  unsupported_samples : RasterKind → CogSampleType → LayoutError
  not_deflate : ℕ → LayoutError
  unsupported_predictor : CogSampleType → ℕ → LayoutError

unfoldable pub remote_index_descriptors :
    CogMetadata → Call LayoutError (IndexDescriptor × IndexDescriptor)
remote_index_descriptors m = elim m.index [
  | remote tile_offsets tile_byte_counts ↦ done (tile_offsets, tile_byte_counts)
  | local_file ↦ fails local_index
]

abbrev pub valid_sample : RasterKind → CogSampleType → Bool
valid_sample flow_dir u8 = true
valid_sample flow_dir i8 = true
valid_sample flow_dir f32 = false
valid_sample flow_dir i32 = false
valid_sample flow_acc u8 = false
valid_sample flow_acc i8 = false
valid_sample flow_acc f32 = true
valid_sample flow_acc i32 = true

abbrev pub supported : CogSampleType → ℕ → Bool
supported u8 predictor = predictor == 1 || predictor == 2
supported i8 predictor = predictor == 1 || predictor == 2
supported i32 predictor = predictor == 1 || predictor == 2
supported f32 predictor = predictor == 1 || predictor == 3

unfoldable pub validate_merit_layout : CogMetadata → RasterKind → Call LayoutError (Unit {0})
validate_merit_layout m kind = do
  _ ← require (m.tile_width == 512 && m.tile_height == 512) (tile_size m.tile_width m.tile_height)
  expected_tiles ← or_fail tile_count_overflow (checked_mul 64 (tiles_across m) (tiles_down m))
  index ← remote_index_descriptors m
  _ ← require (index.0.count == expected_tiles && index.1.count == expected_tiles) index_mismatch
  _ ← require (valid_sample kind m.sample_type) (unsupported_samples kind m.sample_type)
  _ ← require (m.compression == 8 || m.compression == 32946) (not_deflate m.compression)
  require (supported m.sample_type m.predictor) (unsupported_predictor m.sample_type m.predictor)
