-- ===== src/Cog/Copy/Tiles.antt =====
-- What the copied tiles write.
use native.Mathlib.Nat.{
  mul-add-div_right, div-eq_of_lt, div-eq_of_lt-le, div-mul-le_self, lt-div-mul-add, mod-add-div',
}
use package.watershed_delineation.Prelude.{
  ℕ, zero, suc, ◌+◌, ◌*◌, ◌/◌, ◌%◌, ◌^◌, ◌≤◌, ◌<◌, ◌≡◌, refl, sym, ap, ◌∙◌, ◌⊎◌, ◌↔◌, inl, inr,
  ⊎_elim, List, [], ◌∷◌, ◌∈◌, map, length, arith,
}
use package.watershed_delineation.Prelude.Calls.{done}
use package.watershed_delineation.Cog.{CogMetadata, RasterPixelWindow, tiles_across}
use package.watershed_delineation.Cog.Plan.Covers.{
  InWindow, Meets, IsPlannable, tile_at, div-lt-div_ceil,
}
use package.watershed_delineation.Cog.Copy.{CopySpan, copy_rows, copy_tile, copy_tiles}
use package.watershed_delineation.Cog.Copy.Rows.{
  Crosses, Holds, Paints, span_of, tile_copy_span-eq, copy_row-Paints,
}

-- The place of a tile in the grid of tiles.
pub split_index :
    (r c across : ℕ)
    → c < across
    → ((r * across + c) / across ≡ r) × ((r * across + c) % across ≡ c)
split_index r c across h =
    let row : (r * across + c) / across ≡ r =
      mul-add-div_right (omega (arith, h)) r c ∙ omega (arith, div-eq_of_lt h) in
    let line = ap (λ t. t * across) row in
    (row, omega (arith, line, mod-add-div' (r * across + c) across))

in_tile : (x k : ℕ) → 0 < k → (x / k * k ≤ x) × (x < x / k * k + k)
in_tile x k h = (div-mul-le_self x k, lt-div-mul-add h)

-- A number is in tile `c` exactly when it is between the tile's ends.
in_tile_iff : (x c k : ℕ) → 0 < k → (x / k ≡ c) ↔ (c * k ≤ x) × (x < c * k + k)
in_tile_iff x c k h = (
  λ e. let line = ap (λ t. t * k) e in omega (arith, line, in_tile x k h),
  λ b. div-eq_of_lt-le k b.0 (grind arith),
)

abbrev pub col_of : CogMetadata → ℕ → ℕ
col_of m i = i % tiles_across m

abbrev pub row_of : CogMetadata → ℕ → ℕ
row_of m i = i / tiles_across m

module _ {T : Type 0} where
  abbrev pub index_of : ℕ × List T → ℕ
  index_of tile = tile.0

  -- The chunk of tile `i` decoded to the raster's values.
  abbrev pub TileHolds : CogMetadata → RasterPixelWindow → (ℕ → ℕ → T) → ℕ → List T → Type 0
  TileHolds m w raster i chunk =
      let tile_x = col_of m i * m.tile_width in
      let tile_y = row_of m i * m.tile_height in
      Holds raster chunk (span_of m w tile_x tile_y) tile_x tile_y

  abbrev pub AllHold : CogMetadata → RasterPixelWindow → (ℕ → ℕ → T) → List (ℕ × List T) → Type 0
  AllHold m w raster [] = Unit
  AllHold m w raster ((i, chunk) ∷ tiles) = TileHolds m w raster i chunk × AllHold m w raster tiles

Paints-box :
    {T : Type 0} (w : RasterPixelWindow) (raster : ℕ → ℕ → T) (Box Box' : ℕ → ℕ → Type 0)
    (out written : List T)
    → ((x y : ℕ) → InWindow w x y → Box x y ↔ Box' x y)
    → Paints w raster Box out written
    → Paints w raster Box' out written
Paints-box w raster Box Box' out written same p = (
  p.0,
  λ x y inside.
      ⊎_elim (λ in_box. inl ((same x y inside).0 in_box.0, in_box.1))
        (λ apart. inr (λ b. apart.0 ((same x y inside).1 b), apart.1)) (p.1 x y inside),
)

-- Two rounds, one after the other.
Paints-trans :
    {T : Type 0} (w : RasterPixelWindow) (raster : ℕ → ℕ → T) (Box Box' : ℕ → ℕ → Type 0)
    (out mid written : List T)
    → Paints w raster Box out mid
    → Paints w raster Box' mid written
    → Paints w raster (λ x y. Box x y ⊎ Box' x y) out written
Paints-trans w raster Box Box' out mid written first second = (
  second.0,
  λ x y inside.
      ⊎_elim (λ in_second. inl (inr in_second.0, in_second.1))
        (λ not_second.
          ⊎_elim (λ in_first. inl (inl in_first.0, not_second.1 ∙ in_first.1))
            (λ not_first. inr (⊎_elim not_first.0 not_second.0, not_second.1 ∙ not_first.1))
            (first.1 x y inside))
        (second.1 x y inside),
)

module _ {T : Type 0} (m : CogMetadata) (w : RasterPixelWindow) (raster : ℕ → ℕ → T)
    (small_tile : m.tile_height * m.tile_width < 2 ^ 32)
    (small_window : w.height * w.width < 2 ^ 32) where
  module _ (c r : ℕ) (cols : Crosses w.col_off w.width m.width m.tile_width (c * m.tile_width))
      (rows : Crosses w.row_off w.height m.height m.tile_height (r * m.tile_height))
      (chunk : List T) where
    abbrev span : CopySpan
    span = span_of m w (c * m.tile_width) (r * m.tile_height)

    abbrev InRows : ℕ → ℕ → ℕ → ℕ → Type 0
    InRows k n x y =
        (span.dst_col ≤ x)
        × (x < span.dst_col + span.copy_width)
        × (span.dst_row + k ≤ y)
        × (y < span.dst_row + k + n)

    copy_rows-Paints :
        (k n : ℕ) (out : List T)
        → Holds raster chunk span (c * m.tile_width) (r * m.tile_height)
        → length out ≡ w.height * w.width
        → k + n ≤ span.copy_height
        → (written : List T) × (copy_rows m w c r span chunk k n out ≡ done written)
          × Paints w raster (InRows k n) out written
    unfolding copy_rows
    copy_rows-Paints k zero out holds whole fits =
        (out, refl, (whole, λ x y inside. inr (λ b. omega (arith, b), refl)))
    copy_rows-Paints k (suc n) out holds whole fits =
        let (mid, e, p) =
          copy_row-Paints m w c r cols rows raster chunk out k (omega (arith, fits)) small_tile
            small_window holds whole in
        let (written, e', p') = copy_rows-Paints (suc k) n mid holds p.0 (omega (arith, fits)) in
        (
          written,
          rw e e',
          Paints-box w raster _ (InRows k (suc n)) out written
              (λ x y inside. (λ b. omega (arith, b), λ b. omega (arith, b)))
              (Paints-trans w raster _ (InRows (suc k) n) out mid written p p'),
        )

  module _ (h : IsPlannable m w) where
    place_in_grid :
        (x y : ℕ)
        → InWindow w x y
        → (row_of m (tile_at m x y) ≡ y / m.tile_height)
          × (col_of m (tile_at m x y) ≡ x / m.tile_width)
    place_in_grid x y inside = split_index (y / m.tile_height) (x / m.tile_width) (tiles_across m) (
        div-lt-div_ceil x m.width m.tile_width h.has_tile_width
          (omega (arith, inside, h.columns_inside)))

    -- In the window, the pixels of tile `i` are those between its ends.
    tile_at_iff :
        (i x y : ℕ)
        → InWindow w x y
        → (tile_at m x y ≡ i) ↔ (
            ((col_of m i * m.tile_width ≤ x) × (x < col_of m i * m.tile_width + m.tile_width))
            × ((row_of m i * m.tile_height ≤ y) × (y < row_of m i * m.tile_height + m.tile_height)))
    tile_at_iff i x y inside =
        let (row, col) = place_in_grid x y inside in
        (
          λ e. (
            (in_tile_iff x (col_of m i) m.tile_width h.has_tile_width).0
                (sym col ∙ ap (col_of m) e),
            (in_tile_iff y (row_of m i) m.tile_height h.has_tile_height).0
                (sym row ∙ ap (row_of m) e),
          ),
          λ b.
              let line =
                ap (λ t. t * tiles_across m)
                  ((in_tile_iff y (row_of m i) m.tile_height h.has_tile_height).1 b.1) in
              omega (
                arith,
                line,
                (in_tile_iff x (col_of m i) m.tile_width h.has_tile_width).1 b.0,
                mod-add-div' i (tiles_across m),
              ),
        )

    copy_tile-Paints :
        (i : ℕ) (chunk out : List T)
        → Meets m w i
        → TileHolds m w raster i chunk
        → length out ≡ w.height * w.width
        → (written : List T) × (copy_tile chunk out m w i ≡ done written)
          × Paints w raster (λ x y. tile_at m x y ≡ i) out written
    unfolding copy_tile
    copy_tile-Paints i chunk out (x, y, inside, e) holds whole =
        let (bx, by) = (tile_at_iff i x y inside).0 (sym e) in
        let cols : Crosses w.col_off w.width m.width m.tile_width (col_of m i * m.tile_width) =
          omega (arith, inside, bx, h.columns_inside, h.few_columns) in
        let rows : Crosses w.row_off w.height m.height m.tile_height (row_of m i * m.tile_height) =
          omega (arith, inside, by, h.rows_inside, h.few_rows) in
        let s = span_of m w (col_of m i * m.tile_width) (row_of m i * m.tile_height) in
        let (written, e_rows, p) =
          copy_rows-Paints (col_of m i) (row_of m i) cols rows chunk 0 s.copy_height out holds whole
            (omega arith) in
        (
          written,
          rw (tile_copy_span-eq m w (col_of m i) (row_of m i) cols rows, e_rows) refl,
          Paints-box w raster _ _ out written
              (λ x' y' inside'.
                let (to, from) = tile_at_iff i x' y' inside' in
                (
                  λ b. from (omega (arith, b), omega (arith, b)),
                  λ e'. omega (arith, to e', inside', h.columns_inside, h.rows_inside),
                ))
              p,
        )

    pub copy_tiles-Paints :
        (tiles : List (ℕ × List T)) (out : List T)
        → ((i : ℕ) → i ∈ map index_of tiles → Meets m w i)
        → AllHold m w raster tiles
        → length out ≡ w.height * w.width
        → (written : List T) × (copy_tiles m w tiles out ≡ done written)
          × Paints w raster (λ x y. tile_at m x y ∈ map index_of tiles) out written
    unfolding copy_tiles
    copy_tiles-Paints [] out meets hold whole =
        (out, refl, (whole, λ x y inside. inr (λ b. absurd b, refl)))
    copy_tiles-Paints ((i, chunk) ∷ tiles) out meets hold whole =
        let (mid, e, p) = copy_tile-Paints i chunk out (meets i (inl refl)) hold.0 whole in
        let (written, e', p') = copy_tiles-Paints tiles mid (λ j m'. meets j (inr m')) hold.1 p.0 in
        (written, rw e e', Paints-trans w raster _ _ out mid written p p')
