-- ===== src/Cog/Layout/Laws.antt =====
-- Which layouts are accepted, in any order of the tests.
use package.watershed_delineation.Prelude.{
  ℕ, ◌+◌, ◌*◌, ◌/◌, ◌^◌, ◌<◌, ◌≡◌, ◌≢◌, ◌∙◌, refl, ◌⊎◌, ◌↔◌, inl, inr, true, ◌&&◌, ◌||◌, ◌==◌,
  arith,
}
use package.watershed_delineation.Prelude.Calls.{done, fails, checked_mul-some}
use package.watershed_delineation.Cog.{
  CogMetadata, CogSampleType, u8, i8, f32, i32, CogIndex, remote, local_file, IndexDescriptor,
  tiles_across, tiles_down,
}
use package.watershed_delineation.Cog.Plan.Covers.{mul-lt}
use package.watershed_delineation.Cog.Layout.{
  local_index, RasterKind, flow_dir, flow_acc, remote_index_descriptors, validate_merit_layout,
  valid_sample, supported,
}

-- The samples of each kind of raster.
abbrev pub IsSample : RasterKind → CogSampleType → Type 0
IsSample flow_dir s = (s ≡ u8) ⊎ (s ≡ i8)
IsSample flow_acc s = (s ≡ f32) ⊎ (s ≡ i32)

-- Predictor 1 goes with every sample, 2 with the integers and 3 with the floats.
abbrev pub IsPredictor : CogSampleType → ℕ → Type 0
IsPredictor s p = (p ≡ 1) ⊎ ((p ≡ 2) × (s ≢ f32)) ⊎ ((p ≡ 3) × (s ≡ f32))

-- The tiles of 512 by 512 that a raster needs.
abbrev pub tiles_needed : CogMetadata → ℕ
tiles_needed m = ((m.width + 511) / 512) * ((m.height + 511) / 512)

-- What a layout must be.
pub record IsAccepted (m : CogMetadata) (kind : RasterKind) : Type 0 where
  pub tile_width : m.tile_width ≡ 512
  pub tile_height : m.tile_height ≡ 512
  pub tile_offsets : IndexDescriptor
  pub tile_byte_counts : IndexDescriptor
  pub remote_index : m.index ≡ remote tile_offsets tile_byte_counts
  pub offset_count : tile_offsets.count ≡ tiles_needed m
  pub byte_count_count : tile_byte_counts.count ≡ tiles_needed m
  pub sample : IsSample kind m.sample_type
  pub deflate : (m.compression ≡ 8) ⊎ (m.compression ≡ 32946)
  pub predictor : IsPredictor m.sample_type m.predictor

valid_sample_iff :
    (kind : RasterKind) (s : CogSampleType) → (valid_sample kind s ≡ true) ↔ IsSample kind s
valid_sample_iff kind s = ground arith

supported_iff : (s : CogSampleType) (p : ℕ) → (supported s p ≡ true) ↔ IsPredictor s p
supported_iff u8 p = (λ h. ground (arith, h), λ h. ground (arith, h))
supported_iff i8 p = (λ h. ground (arith, h), λ h. ground (arith, h))
supported_iff i32 p = (λ h. ground (arith, h), λ h. ground (arith, h))
supported_iff f32 p = (λ h. ground (arith, h), λ h. ground (arith, h))

-- The tiles are counted as the ceiling of the divisions.
tiles-eq :
    (m : CogMetadata) (kind : RasterKind)
    → m.tile_width ≡ 512
    → m.tile_height ≡ 512
    → tiles_across m * tiles_down m ≡ tiles_needed m
tiles-eq m kind ew eh = rw (ew, eh) refl

index-cases :
    (i : CogIndex)
    → (i ≡ local_file) ⊎ ((o : IndexDescriptor) × (c : IndexDescriptor) × (i ≡ remote o c))
index-cases (remote o c) = inr (o, c, refl)
index-cases local_file = inl refl

descriptors-remote :
    (m : CogMetadata) (o c : IndexDescriptor)
    → m.index ≡ remote o c
    → remote_index_descriptors m ≡ done (o, c)
unfolding remote_index_descriptors
descriptors-remote m o c e = rw e refl

descriptors-local :
    (m : CogMetadata) → m.index ≡ local_file → remote_index_descriptors m ≡ fails local_index
unfolding remote_index_descriptors
descriptors-local m e = rw e refl

accepted :
    (m : CogMetadata) (kind : RasterKind)
    → tiles_across m * tiles_down m < 2 ^ 64
    → IsAccepted m kind
    → validate_merit_layout m kind ≡ done tt
unfolding validate_merit_layout
accepted m kind fit h =
    let tiles_ok : (m.tile_width == 512 && m.tile_height == 512) ≡ true =
      ground (arith, h.tile_width, h.tile_height) in
    let offsets_ok : (h.tile_offsets.count == tiles_across m * tiles_down m) ≡ true =
      ground (arith, h.offset_count, tiles-eq m kind h.tile_width h.tile_height) in
    let counts_ok : (h.tile_byte_counts.count == tiles_across m * tiles_down m) ≡ true =
      ground (arith, h.byte_count_count, tiles-eq m kind h.tile_width h.tile_height) in
    let deflate_ok : (m.compression == 8 || m.compression == 32946) ≡ true =
      ground (arith, h.deflate) in
    rw
      (
        validate_merit_layout,
        tiles_ok,
        checked_mul-some 64 (tiles_across m) (tiles_down m) fit,
        descriptors-remote m h.tile_offsets h.tile_byte_counts h.remote_index,
        offsets_ok,
        counts_ok,
        (valid_sample_iff kind m.sample_type).1 h.sample,
        deflate_ok,
        (supported_iff m.sample_type m.predictor).1 h.predictor,
      )
      refl

validate_merit_layout-IsAccepted :
    (m : CogMetadata) (kind : RasterKind)
    → validate_merit_layout m kind ≡ done tt
    → IsAccepted m kind
unfolding validate_merit_layout
validate_merit_layout-IsAccepted m kind h = elim (index-cases m.index) [
  | inl none_remote ↦ absurd (ground (arith, h, descriptors-local m none_remote))
  | inr (o, c, e) ↦
      let d = descriptors-remote m o c e in
      let wide : m.tile_width ≡ 512 = ground (arith, h, d) in
      let high : m.tile_height ≡ 512 = ground (arith, h, d) in
      record {
        tile_width = wide;
        tile_height = high;
        tile_offsets = o;
        tile_byte_counts = c;
        remote_index = e;
        offset_count =
            (let e : o.count ≡ tiles_across m * tiles_down m = ground (arith, h, d) in e)
            ∙ tiles-eq m kind wide high;
        byte_count_count =
            (let e : c.count ≡ tiles_across m * tiles_down m = ground (arith, h, d) in e)
            ∙ tiles-eq m kind wide high;
        sample = (valid_sample_iff kind m.sample_type).0 (ground (arith, h, d));
        deflate = ground (arith, h, d);
        predictor = (supported_iff m.sample_type m.predictor).0 (ground (arith, h, d));
      }
]

-- In the range of a `u32`, the tiles of a raster are counted in 64 bits.
tiles_fit :
    (m : CogMetadata) (kind : RasterKind)
    → m.width < 2 ^ 32
    → m.height < 2 ^ 32
    → IsAccepted m kind
    → tiles_across m * tiles_down m < 2 ^ 64
tiles_fit m kind hw hh h =
    rw (h.tile_width, h.tile_height)
      (mul-lt ((m.width + 511) / 512) ((m.height + 511) / 512) (omega arith) (omega arith))

-- A raster with less than 2^32 columns and rows is accepted exactly when it has tiles of 512 by 512, a
-- remote index with an offset and a length for each tile, samples of its kind (8-bit for directions, 32-bit
-- for accumulations), DEFLATE compression, and predictor 1, or 2 for integers, or 3 for floats.
pub validate_merit_layout_iff :
    (m : CogMetadata) (kind : RasterKind)
    → m.width < 2 ^ 32
    → m.height < 2 ^ 32
    → (validate_merit_layout m kind ≡ done tt) ↔ IsAccepted m kind
validate_merit_layout_iff m kind hw hh =
    (validate_merit_layout-IsAccepted m kind, λ h. accepted m kind (tiles_fit m kind hw hh h) h)
