-- ===== src/Cog/Plan/Covers.antt =====
-- The plan of a window holds exactly the tiles that the window meets.
use native.Mathlib.Nat.{le-div_iff_mul-le, div-lt_iff_lt-mul, div-eq_of_lt-le, div-le_self}
use package.watershed_delineation.Prelude.{
  ℕ, suc, ◌+◌, ◌-◌, ◌*◌, ◌/◌, ◌^◌, ◌≤◌, ◌<◌, ◌≡◌, refl, sym, ap₂, ◌∙◌, ◌⊎◌, ◌↔◌, inl, inr, max,
  Bool-cases, ltb, ltb→lt, if◌then◌else◌, List, ◌∈◌, Nodup, arith,
}
use package.watershed_delineation.Prelude.Calls.{
  done, fails, checked_add-some, checked_mul-some, checked_sub-some, checked_div-some,
}
use package.watershed_delineation.Cog.{
  CogMetadata, RasterPixelWindow, tiles_across, tiles_down, div_ceil, RemoteLayoutError,
  too_many_tiles, window_column_overflow, window_row_overflow,
}
use package.watershed_delineation.Cog.Plan.{axis_tiles, steps, for_window, max_planned_tile_count}
use package.watershed_delineation.Cog.Plan.Indices.{
  rect_list, rect_list-mem, rect_list-Nodup, InRect, plan_rows-eq,
}

pub div_mono : (a b k : ℕ) → 0 < k → a ≤ b → a / k ≤ b / k
div_mono a b k hk h =
    (le-div_iff_mul-le hk).1
      (omega (arith, h, (le-div_iff_mul-le {k = k} {x = a / k} {y = a} hk).0 (omega arith)))

-- A tile between the tiles of `a` and of `b` holds a number between `a` and `b`.
between :
    (a b c k : ℕ)
    → 0 < k
    → a ≤ b
    → a / k ≤ c
    → c ≤ b / k
    → (x : ℕ) × (a ≤ x) × (x ≤ b) × (x / k ≡ c)
between a b c k hk h lo hi =
    let above = (le-div_iff_mul-le hk).0 hi in
    let below = (div-lt_iff_lt-mul {k = k} {x = a} {y = suc c} hk).0 (omega (arith, lo)) in
    (
      max a (c * k),
      omega arith,
      omega (arith, h, above),
      div-eq_of_lt-le k (omega arith) (grind arith),
    )

-- A pixel of a raster lies in a tile of its grid.
pub div-lt-div_ceil : (x n k : ℕ) → 0 < k → x < n → x / k < div_ceil n k
div-lt-div_ceil x n k hk h =
    let one_more : suc (x / k) ≤ (n + (k - 1)) / k =
      (le-div_iff_mul-le hk).1 (
        omega (arith, h, hk, (le-div_iff_mul-le {k = k} {x = x / k} {y = x} hk).0 (omega arith))) in
    omega (arith, one_more)

axis_tiles-eq :
    (e : RemoteLayoutError) (off len k : ℕ)
    → 0 < k
    → 0 < len
    → off + len < 2 ^ 32
    → axis_tiles e off len k ≡ done (off / k, (off + len - 1) / k)
unfolding axis_tiles
axis_tiles-eq e off len k hk hl h =
    rw
      (
        checked_div-some off k hk,
        checked_add-some 32 off len h,
        checked_sub-some (off + len) 1 (omega (arith, hl)),
        checked_div-some (off + len - 1) k hk,
      )
      refl

steps-eq : (a b : ℕ) → a ≤ b → b + 1 < 2 ^ 32 → steps a b ≡ done (b - a + 1)
unfolding steps
steps-eq a b h small =
    rw (checked_sub-some b a h, checked_add-some 32 (b - a) 1 (omega (arith, small))) refl

pub mul-lt : (a b : ℕ) → a < 2 ^ 32 → b < 2 ^ 32 → a * b < 2 ^ 64
mul-lt a b ha hb = grind arith

-- A window with pixels, inside a raster with less than 2^32 columns, rows and tiles.
pub record IsPlannable (m : CogMetadata) (w : RasterPixelWindow) : Type 0 where
  pub has_tile_width : 0 < m.tile_width
  pub has_tile_height : 0 < m.tile_height
  pub has_columns : 0 < w.width
  pub has_rows : 0 < w.height
  pub columns_inside : w.col_off + w.width ≤ m.width
  pub rows_inside : w.row_off + w.height ≤ m.height
  pub few_columns : m.width < 2 ^ 32
  pub few_rows : m.height < 2 ^ 32
  pub few_tiles : tiles_down m * tiles_across m ≤ 2 ^ 32

-- The index of the tile with the pixel in column `x` and row `y`.
abbrev pub tile_at : CogMetadata → ℕ → ℕ → ℕ
tile_at m x y = y / m.tile_height * tiles_across m + x / m.tile_width

-- Pixel `x`, `y` of the raster is in the window.
abbrev pub InWindow : RasterPixelWindow → ℕ → ℕ → Type 0
InWindow w x y =
    (w.col_off ≤ x) × (x < w.col_off + w.width) × (w.row_off ≤ y) × (y < w.row_off + w.height)

abbrev pub Meets : CogMetadata → RasterPixelWindow → ℕ → Type 0
Meets m w i = (x : ℕ) × (y : ℕ) × InWindow w x y × (i ≡ tile_at m x y)

-- The tiles from that of pixel `off` to that of pixel `off + len - 1`.
abbrev pub span : ℕ → ℕ → ℕ → ℕ
span off len k = (off + len - 1) / k - off / k + 1

module _ (m : CogMetadata) (w : RasterPixelWindow) (h : IsPlannable m w) where
  tile_cols : ℕ
  tile_cols = span w.col_off w.width m.tile_width

  tile_rows : ℕ
  tile_rows = span w.row_off w.height m.tile_height

  abbrev planned : List ℕ
  planned =
      rect_list (tiles_across m) (w.row_off / m.tile_height) (w.col_off / m.tile_width) tile_cols
        tile_rows

  cols_fit : w.col_off / m.tile_width + tile_cols ≤ tiles_across m
  unfolding tile_cols
  cols_fit = omega (
    arith,
    h.has_columns,
    div_mono w.col_off (w.col_off + w.width - 1) m.tile_width h.has_tile_width
        (omega (arith, h.has_columns)),
    div-lt-div_ceil (w.col_off + w.width - 1) m.width m.tile_width h.has_tile_width
        (omega (arith, h.has_columns, h.columns_inside)),
  )

  rows_fit : w.row_off / m.tile_height + tile_rows ≤ tiles_down m
  unfolding tile_rows
  rows_fit = omega (
    arith,
    h.has_rows,
    div_mono w.row_off (w.row_off + w.height - 1) m.tile_height h.has_tile_height
        (omega (arith, h.has_rows)),
    div-lt-div_ceil (w.row_off + w.height - 1) m.height m.tile_height h.has_tile_height
        (omega (arith, h.has_rows, h.rows_inside)),
  )

  for_window-eq : for_window m w ≡ (
      if ltb max_planned_tile_count (tile_cols * tile_rows)
      then fails (too_many_tiles (tile_cols * tile_rows))
      else done planned)
  unfolding for_window tile_cols tile_rows
  for_window-eq =
      let last_col = div-le_self (w.col_off + w.width - 1) m.tile_width in
      let last_row = div-le_self (w.row_off + w.height - 1) m.tile_height in
      let cols_small : tile_cols < 2 ^ 32 =
        omega (arith, h.columns_inside, h.few_columns, h.has_columns, last_col) in
      let rows_small : tile_rows < 2 ^ 32 =
        omega (arith, h.rows_inside, h.few_rows, h.has_rows, last_row) in
      rw
        (
          for_window,
          axis_tiles-eq window_column_overflow w.col_off w.width m.tile_width h.has_tile_width
              h.has_columns (omega (arith, h.columns_inside, h.few_columns)),
          axis_tiles-eq window_row_overflow w.row_off w.height m.tile_height h.has_tile_height
              h.has_rows (omega (arith, h.rows_inside, h.few_rows)),
          steps-eq (w.col_off / m.tile_width) ((w.col_off + w.width - 1) / m.tile_width)
              (div_mono w.col_off (w.col_off + w.width - 1) m.tile_width h.has_tile_width
                (omega (arith, h.has_columns)))
              (omega (arith, h.columns_inside, h.few_columns, h.has_columns, last_col)),
          steps-eq (w.row_off / m.tile_height) ((w.row_off + w.height - 1) / m.tile_height)
              (div_mono w.row_off (w.row_off + w.height - 1) m.tile_height h.has_tile_height
                (omega (arith, h.has_rows)))
              (omega (arith, h.rows_inside, h.few_rows, h.has_rows, last_row)),
          checked_mul-some 64 tile_cols tile_rows
              (mul-lt tile_cols tile_rows cols_small rows_small),
          plan_rows-eq (tiles_across m) (tiles_down m) (w.row_off / m.tile_height)
              (w.col_off / m.tile_width) tile_cols tile_rows h.few_tiles rows_fit cols_fit,
        )
        refl

  Meets-InRect :
      (i : ℕ)
      → Meets m w i
      → InRect
          (tiles_across m)
          (w.row_off / m.tile_height)
          (w.col_off / m.tile_width)
          tile_cols
          tile_rows
          i
  unfolding tile_cols tile_rows
  Meets-InRect i (x, y, inside, e) =
      let col = div_mono w.col_off x m.tile_width h.has_tile_width (omega (arith, inside)) in
      let col' =
        div_mono x (w.col_off + w.width - 1) m.tile_width h.has_tile_width
          (omega (arith, inside)) in
      let row = div_mono w.row_off y m.tile_height h.has_tile_height (omega (arith, inside)) in
      let row' =
        div_mono y (w.row_off + w.height - 1) m.tile_height h.has_tile_height
          (omega (arith, inside)) in
      (
        y / m.tile_height,
        x / m.tile_width,
        (row, omega (arith, row, row')),
        (col, omega (arith, col, col')),
        e,
      )

  InRect-Meets :
      (i : ℕ)
      → InRect
          (tiles_across m)
          (w.row_off / m.tile_height)
          (w.col_off / m.tile_width)
          tile_cols
          tile_rows
          i
      → Meets m w i
  unfolding tile_cols tile_rows
  InRect-Meets i (r, c, hr, hc, e) =
      let (x, x_lo, x_hi, ex) =
        between w.col_off (w.col_off + w.width - 1) c m.tile_width h.has_tile_width
          (omega (arith, h.has_columns)) hc.0
          (omega (
            arith,
            hc,
            div_mono w.col_off (w.col_off + w.width - 1) m.tile_width h.has_tile_width
                (omega (arith, h.has_columns)),
          )) in
      let (y, y_lo, y_hi, ey) =
        between w.row_off (w.row_off + w.height - 1) r m.tile_height h.has_tile_height
          (omega (arith, h.has_rows)) hr.0
          (omega (
            arith,
            hr,
            div_mono w.row_off (w.row_off + w.height - 1) m.tile_height h.has_tile_height
                (omega (arith, h.has_rows)),
          )) in
      (
        x,
        y,
        (x_lo, omega (arith, x_hi, h.has_columns), y_lo, omega (arith, y_hi, h.has_rows)),
        e ∙ ap₂ (λ r' c'. r' * tiles_across m + c') (sym ey) (sym ex),
      )

  planned-Meets : (i : ℕ) → (i ∈ planned) ↔ Meets m w i
  planned-Meets i =
      let (to, from) =
        rect_list-mem (tiles_across m) (w.row_off / m.tile_height) (w.col_off / m.tile_width)
          tile_cols tile_rows i in
      (λ mem. InRect-Meets i (to mem), λ meets. from (Meets-InRect i meets))

  -- A window with pixels inside a raster whose columns, rows and tiles are counted in 32 bits is
  -- refused when it spans more than 65536 tiles, and otherwise planned: the plan holds the index of
  -- each tile that has a pixel of the window once, and no other.
  pub for_window-covers :
      ((65536 < span w.col_off w.width m.tile_width * span w.row_off w.height m.tile_height)
        × (for_window m w
            ≡ fails (
                too_many_tiles
                  (span w.col_off w.width m.tile_width * span w.row_off w.height m.tile_height))))
      ⊎ ((indices : List ℕ) × (for_window m w ≡ done indices)
          × Nodup indices
          × ((i : ℕ) → (i ∈ indices) ↔ Meets m w i))
  unfolding tile_cols tile_rows
  for_window-covers = elim (Bool-cases (ltb max_planned_tile_count (tile_cols * tile_rows))) [
    | inl many ↦
        inl
          (ltb→lt max_planned_tile_count (tile_cols * tile_rows) many, for_window-eq ∙ rw many refl)
    | inr few ↦ inr (
      planned,
      for_window-eq ∙ rw few refl,
      rect_list-Nodup (tiles_across m) (w.row_off / m.tile_height) (w.col_off / m.tile_width)
          tile_cols tile_rows cols_fit,
      planned-Meets,
    )
  ]
