-- ===== src/Cog/Copy/Rows.antt =====
-- What a copied row of a tile writes.
use package.watershed_delineation.Prelude.{
  ℕ, ◌+◌, ◌-◌, ◌*◌, ◌^◌, ◌≤◌, ◌<◌, ◌≡◌, refl, ap, ◌∙◌, ◌⊎◌, inl, inr, ⊎_elim, ℕ_discrete, dec_lt,
  min, max, some, List, length, get_elem?, arith,
}
use package.watershed_delineation.Prelude.Calls.{
  done, checked_add-some, checked_mul-some, checked_sub-some,
}
use package.watershed_delineation.Cog.{CogMetadata, RasterPixelWindow}
use package.watershed_delineation.Cog.Plan.Covers.{InWindow}
use package.watershed_delineation.Cog.Plan.Indices.{row_fits}
use package.watershed_delineation.Cog.Copy.{CopySpan, tile_copy_span, slice, overwrite, copy_row}
use package.watershed_delineation.Cog.Copy.Slices.{
  length-overwrite, get_elem?-overwrite_in, get_elem?-overwrite_out, slice-some,
}

-- The tile that starts at `start`, of side `side`, meets `off .. off + len` on an axis of `size`.
abbrev pub Crosses : ℕ → ℕ → ℕ → ℕ → ℕ → Type 0
Crosses off len size side start =
    (start < off + len) × (off < start + side) × (off + len ≤ size) × (size < 2 ^ 32)

mul_mono : (a b c d : ℕ) → a ≤ c → b ≤ d → a * b ≤ c * d
mul_mono a b c d h k = grind arith

abbrev pub span_of : CogMetadata → RasterPixelWindow → ℕ → ℕ → CopySpan
span_of m w tile_x tile_y =
    let src_width = min m.tile_width (m.width - tile_x) in
    let src_height = min m.tile_height (m.height - tile_y) in
    record {
      src_width = src_width;
      src_height = src_height;
      dst_col = max w.col_off tile_x;
      dst_row = max w.row_off tile_y;
      copy_width = min (w.col_off + w.width) (tile_x + src_width) - max w.col_off tile_x;
      copy_height = min (w.row_off + w.height) (tile_y + src_height) - max w.row_off tile_y;
    }

-- The place of a pixel of the raster in the window's vector.
abbrev pub place : RasterPixelWindow → ℕ → ℕ → ℕ
place w x y = (y - w.row_off) * w.width + (x - w.col_off)

-- The chunk has the raster's values at the pixels of the tile that starts at `tile_x`, `tile_y`.
abbrev pub Holds : {T : Type 0} → (ℕ → ℕ → T) → List T → CopySpan → ℕ → ℕ → Type 0
Holds raster chunk span tile_x tile_y =
    (length chunk ≡ span.src_height * span.src_width)
    × ((x y : ℕ)
        → (tile_x ≤ x) × (x < tile_x + span.src_width)
        → (tile_y ≤ y) × (y < tile_y + span.src_height)
        → get_elem? chunk ((y - tile_y) * span.src_width + (x - tile_x)) ≡ some (raster x y))

-- `written` is `out` with the raster's values at the pixels of the window that are in the box.
abbrev pub Paints :
    {T : Type 0} → RasterPixelWindow → (ℕ → ℕ → T) → (ℕ → ℕ → Type 0) → List T → List T → Type 0
Paints w raster Box out written =
    (length written ≡ w.height * w.width)
    × ((x y : ℕ)
        → InWindow w x y
        → (Box x y × (get_elem? written (place w x y) ≡ some (raster x y)))
          ⊎ (¬ Box x y × (get_elem? written (place w x y) ≡ get_elem? out (place w x y))))

module _ (m : CogMetadata) (w : RasterPixelWindow) (c r : ℕ)
    (cols : Crosses w.col_off w.width m.width m.tile_width (c * m.tile_width))
    (rows : Crosses w.row_off w.height m.height m.tile_height (r * m.tile_height)) where
  pub tile_copy_span-eq :
      tile_copy_span m w c r ≡ done (span_of m w (c * m.tile_width) (r * m.tile_height))
  unfolding tile_copy_span
  tile_copy_span-eq =
      let x = c * m.tile_width in
      let y = r * m.tile_height in
      let sw = min m.tile_width (m.width - x) in
      let sh = min m.tile_height (m.height - y) in
      rw
        (
          tile_copy_span,
          checked_mul-some 32 c m.tile_width (omega arith),
          checked_mul-some 32 r m.tile_height (omega arith),
          checked_sub-some m.width x (omega arith),
          checked_sub-some m.height y (omega arith),
          checked_add-some 32 w.col_off w.width (omega arith),
          checked_add-some 32 x sw (omega arith),
          checked_add-some 32 w.row_off w.height (omega arith),
          checked_add-some 32 y sh (omega arith),
          checked_sub-some (min (w.col_off + w.width) (x + sw)) (max w.col_off x) (omega arith),
          checked_sub-some (min (w.row_off + w.height) (y + sh)) (max w.row_off y) (omega arith),
        )
        refl

  module _ {T : Type 0} (raster : ℕ → ℕ → T) (chunk out : List T) (k : ℕ) where
    abbrev pub tile_x : ℕ
    tile_x = c * m.tile_width

    abbrev pub tile_y : ℕ
    tile_y = r * m.tile_height

    abbrev pub span : CopySpan
    span = span_of m w tile_x tile_y

    abbrev src_start : ℕ
    src_start = (span.dst_row + k - tile_y) * span.src_width + (span.dst_col - tile_x)

    abbrev dst_start : ℕ
    dst_start = (span.dst_row + k - w.row_off) * w.width + (span.dst_col - w.col_off)

    -- The row lies in the tile and in the window.
    module _ (few : k < span.copy_height) (small_tile : m.tile_height * m.tile_width < 2 ^ 32)
        (small_window : w.height * w.width < 2 ^ 32) (holds : Holds raster chunk span tile_x tile_y)
        (whole_window : length out ≡ w.height * w.width) where
      src_line :
          (span.dst_row + k - tile_y) * span.src_width + span.src_width
          ≤ span.src_height * span.src_width
      src_line = row_fits span.src_width span.src_height (span.dst_row + k - tile_y) (omega arith)

      src_small : span.src_height * span.src_width < 2 ^ 32
      src_small = omega (
        arith,
        small_tile,
        mul_mono span.src_height span.src_width m.tile_height m.tile_width (omega arith)
            (omega arith),
      )

      dst_line : (span.dst_row + k - w.row_off) * w.width + w.width ≤ w.height * w.width
      dst_line = row_fits w.width w.height (span.dst_row + k - w.row_off) (omega arith)

      src_fits : src_start + span.copy_width ≤ length chunk
      src_fits = omega (arith, holds.0, src_line)

      dst_fits : dst_start + span.copy_width ≤ length out
      dst_fits = omega (arith, dst_line)

      -- The row of the box that the tile and the window share.
      abbrev pub InRow : ℕ → ℕ → Type 0
      InRow x y = (span.dst_col ≤ x) × (x < span.dst_col + span.copy_width) × (y ≡ span.dst_row + k)

      copy_row-eq :
          (old values : List T)
          → slice out dst_start span.copy_width ≡ some old
          → slice chunk src_start span.copy_width ≡ some values
          → copy_row m w c r span chunk k out ≡ done (overwrite out dst_start values)
      unfolding copy_row
      copy_row-eq old values e_out e_chunk =
          rw
            (
              checked_add-some 32 span.dst_row k (omega arith),
              checked_mul-some 32 r m.tile_height (omega arith),
              checked_sub-some (span.dst_row + k) tile_y (omega arith),
              checked_mul-some 32 (span.dst_row + k - tile_y) span.src_width
                  (omega (arith, src_line, src_small)),
              checked_mul-some 32 c m.tile_width (omega arith),
              checked_sub-some span.dst_col tile_x (omega arith),
              checked_add-some 32 ((span.dst_row + k - tile_y) * span.src_width)
                  (span.dst_col - tile_x) (omega (arith, src_line, src_small)),
              checked_sub-some (span.dst_row + k) w.row_off (omega arith),
              checked_mul-some 32 (span.dst_row + k - w.row_off) w.width
                  (omega (arith, dst_line, small_window)),
              checked_sub-some span.dst_col w.col_off (omega arith),
              checked_add-some 32 ((span.dst_row + k - w.row_off) * w.width)
                  (span.dst_col - w.col_off) (omega (arith, dst_line, small_window)),
              e_out,
              e_chunk,
            )
            refl

      InRow-cases : (x y : ℕ) → InRow x y ⊎ (¬ InRow x y)
      InRow-cases x y = omega arith

      row_painted :
          (values : List T)
          → length values ≡ span.copy_width
          → ((i : ℕ) → i < span.copy_width → get_elem? values i ≡ get_elem? chunk (src_start + i))
          → (x y : ℕ) → InWindow w x y
          → InRow x y
          → get_elem? (overwrite out dst_start values) (place w x y) ≡ some (raster x y)
      row_painted values len same x y inside row =
          let line = ap (λ t. (t - w.row_off) * w.width) row.2 in
          let src = ap (λ t. (t - tile_y) * span.src_width) row.2 in
          get_elem?-overwrite_in out dst_start values (x - span.dst_col) (place w x y)
            (omega (arith, len, dst_fits)) (omega (arith, len)) (omega (arith, line))
          ∙ same (x - span.dst_col) (omega arith)
          ∙ ap (get_elem? chunk) (omega (arith, src))
          ∙ holds.1 x y (omega arith, omega arith) (omega arith, omega arith)

      row_kept :
          (values : List T)
          → length values ≡ span.copy_width
          → (x y : ℕ) → InWindow w x y
          → ¬ InRow x y
          → get_elem? (overwrite out dst_start values) (place w x y) ≡ get_elem? out (place w x y)
      row_kept values len x y inside apart =
          get_elem?-overwrite_out out dst_start values (place w x y)
            (elim (ℕ_discrete y (span.dst_row + k)) [
              | yes e ↦
                  let line = ap (λ t. (t - w.row_off) * w.width) e in
                  elim (dec_lt x span.dst_col) [
                    | yes before ↦ inl (omega (arith, line, before))
                    | no after ↦ inr (elim (dec_lt x (span.dst_col + span.copy_width)) [
                      | yes within ↦ absurd (apart (omega (arith, after), within, e))
                      | no beyond ↦ omega (arith, line, len, beyond)
                    ])
                  ]
              | no ne ↦ elim (dec_lt y (span.dst_row + k)) [
                | yes above ↦ inl (
                    omega (
                      arith,
                      row_fits w.width (span.dst_row + k - w.row_off) (y - w.row_off)
                          (omega (arith, above)),
                    ))
                | no below ↦ inr (
                    omega (
                      arith,
                      len,
                      row_fits w.width (y - w.row_off) (span.dst_row + k - w.row_off)
                          (omega (arith, below, ne)),
                    ))
              ]
            ])

      -- One round of the loop returns, and writes the row's pixels of the raster and nothing else.
      pub copy_row-Paints :
          (written : List T) × (copy_row m w c r span chunk k out ≡ done written)
          × Paints w raster InRow out written
      copy_row-Paints =
          let (old, e_out, _, _) = slice-some out dst_start span.copy_width dst_fits in
          let (values, e_chunk, len, same) = slice-some chunk src_start span.copy_width src_fits in
          (
            overwrite out dst_start values,
            copy_row-eq old values e_out e_chunk,
            (
              length-overwrite out dst_start values ∙ whole_window,
              λ x y inside.
                  ⊎_elim (λ row. inl (row, row_painted values len same x y inside row))
                    (λ apart. inr (apart, row_kept values len x y inside apart)) (InRow-cases x y),
            ),
          )
