-- ===== src/Cog/Ranges.antt =====
-- The byte ranges that a plan fetches: `validate_compressed_ranges`, `checked_remote_range` and
-- `IndexDescriptor::byte_extent` (crates/core/src/cog.rs). Numbers are `u64`.
pub mod Laws
use package.watershed_delineation.Prelude.{
  ℕ, Bool, Option, none, some, List, [], ◌∷◌, ltb, leb, if◌then◌else◌,
}
use package.watershed_delineation.Cog.{IndexDescriptor, IndexStorage, inline_scalar, out_of_line}
use package.watershed_delineation.Prelude.Calls.{
  require, Call, done, fails, ◌>>=◌, or_fail, checked_add, checked_mul, checked_sub,
}

abbrev pub max_compressed_chunk_bytes : ℕ
max_compressed_chunk_bytes = 16777216

abbrev pub max_covered_chunk_bytes : ℕ
max_covered_chunk_bytes = 1073741824

-- `Range<u64>`: the end is `stop`.
pub record ByteRange : Type 0 where
  pub start : ℕ
  pub stop : ℕ

pub record ResolvedTile : Type 0 where
  pub index : ℕ
  pub range : ByteRange

pub record ResolvedTilePlan : Type 0 where
  pub object_size : ℕ
  pub tiles : List ResolvedTile
  pub compressed_bytes : ℕ

pub data RangeError : Type 0 where
  invalid_range chunk_length_overflow covered_bytes_overflow range_end_overflow field_size_overflow
        field_end_overflow :
      RangeError
  chunk_too_long : ℕ → ℕ → RangeError
  covered_too_long : ℕ → RangeError
  beyond_object : ByteRange → ℕ → RangeError

-- The loop, at the bytes `aggregate` of the tiles before.
unfoldable pub validate_tiles : ℕ → ℕ → List ResolvedTile → Call RangeError (List ByteRange)
validate_tiles object_size aggregate [] = done []
validate_tiles object_size aggregate (tile ∷ tiles) = do
  _ ← require (ltb tile.range.start tile.range.stop) invalid_range
  bytes ← or_fail chunk_length_overflow (checked_sub tile.range.stop tile.range.start)
  _ ← require (leb bytes max_compressed_chunk_bytes) (chunk_too_long tile.index bytes)
  total ← or_fail covered_bytes_overflow (checked_add 64 aggregate bytes)
  _ ← require (leb total max_covered_chunk_bytes) (covered_too_long total)
  _ ← require (leb tile.range.stop object_size) (beyond_object tile.range object_size)
  ranges ← validate_tiles object_size total tiles
  done (tile.range ∷ ranges)

unfoldable pub validate_compressed_ranges : ResolvedTilePlan → Call RangeError (List ByteRange)
validate_compressed_ranges plan = validate_tiles plan.object_size 0 plan.tiles

pub checked_remote_range : ℕ → ℕ → ℕ → Call RangeError ByteRange
checked_remote_range start length object_size = do
  stop ← or_fail range_end_overflow (checked_add 64 start length)
  let range : ByteRange = record { start = start; stop = stop }
  _ ← require (leb stop object_size) (beyond_object range object_size)
  done range

pub byte_extent : IndexDescriptor → Call RangeError (Option ByteRange)
byte_extent d = elim d.storage [
  | inline_scalar value ↦ done none
  | out_of_line offset ↦
      or_fail field_size_overflow (checked_mul 64 d.count d.element_width) >>= λ byte_count.
      or_fail field_end_overflow (checked_add 64 offset byte_count) >>= λ stop.
      done (some (record { start = offset; stop = stop }))
]
