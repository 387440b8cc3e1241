-- ===== src/Polygon/Boundary/Cells.antt =====
-- The edges of one cell of a mask, by the marks of the cell and its neighbours.
use package.watershed_delineation.Prelude.{
  ℕ, zero, suc, ◌+◌, ◌-◌, ◌*◌, ◌<◌, ◌≤◌, ◌≡◌, refl, Bool, true, false, not, ◌&&◌, List, [], ◌++◌,
  length, returns, ltb, ◌==◌, if◌then◌else◌, Bool-cases, inl, inr, lt→ltb, arith,
}
use package.watershed_delineation.Raster.Grid.{at, get_elem?-flat}
use package.watershed_delineation.Raster.Mask.{CatchmentMask, contains}
use package.watershed_delineation.Polygon.{Edge}
use package.watershed_delineation.Polygon.Boundary.{
  borders, push_if, cell_edges, row_edges, grid_edges, extract_edges,
}

-- The mark of cell (i - 1, j - 1), and none around the grid.
abbrev pub mark_at : CatchmentMask → ℕ → ℕ → Bool
mark_at m zero j = false
mark_at m (suc r) zero = false
mark_at m (suc r) (suc c) =
    ltb r m.rows && ltb c m.cols && at m.cols m.data_vec (record { row = r; col = c })

-- The edges of cell (r, c).
abbrev pub edges_at : CatchmentMask → ℕ → ℕ → List Edge
edges_at m r c =
    if mark_at m (suc r) (suc c)
    then push_if (not (mark_at m r (suc c))) ((r, c), (r, suc c))
        (push_if (not (mark_at m (suc (suc r)) (suc c))) ((suc r, suc c), (suc r, c))
          (push_if (not (mark_at m (suc r) c)) ((suc r, c), (r, c))
            (push_if (not (mark_at m (suc r) (suc (suc c)))) ((r, suc c), (suc r, suc c)) [])))
    else []

-- `n` cells of row `r` from column `c` on, and `n` rows from row `r` on.
abbrev pub row_list : CatchmentMask → ℕ → ℕ → ℕ → List Edge
row_list m r c zero = []
row_list m r c (suc n) = edges_at m r c ++ row_list m r (suc c) n

abbrev pub grid_list : CatchmentMask → ℕ → ℕ → List Edge
grid_list m r zero = []
grid_list m r (suc n) = row_list m r 0 m.cols ++ grid_list m (suc r) n

if-returns :
    {A : Type 0} (t : Bool) (x y : A)
    → (if t then returns x else returns y) ≡ returns (if t then x else y)
if-returns true x y = refl
if-returns false x y = refl

suc-sub : (n : ℕ) → suc n - 1 ≡ n
suc-sub n = omega arith

suc-not_zero : (n : ℕ) → (suc n == 0) ≡ false
suc-not_zero n = ground arith

module _ (m : CatchmentMask) (whole : length m.data_vec ≡ m.rows * m.cols) where
  contains-mark_at :
      (r c : ℕ)
      → r < m.rows
      → c < m.cols
      → contains m (record { row = r; col = c }) ≡ returns (mark_at m (suc r) (suc c))
  unfolding contains
  contains-mark_at r c hr hc =
      rw
        (
          get_elem?-flat (record { rows = m.rows; cols = m.cols }) m.data_vec whole
              (record { row = r; col = c }) (hr, hc),
          lt→ltb r m.rows hr,
          lt→ltb c m.cols hc,
        )
        refl

  top-mark_at :
      (r c : ℕ)
      → r < m.rows
      → c < m.cols
      → borders (r == 0) m (r - 1) c ≡ returns (not (mark_at m r (suc c)))
  unfolding borders
  top-mark_at zero c hr hc = refl
  top-mark_at (suc r) c hr hc =
      rw (suc-not_zero r, suc-sub r, contains-mark_at r c (omega arith) hc) refl

  left-mark_at :
      (r c : ℕ)
      → r < m.rows
      → c < m.cols
      → borders (c == 0) m r (c - 1) ≡ returns (not (mark_at m (suc r) c))
  unfolding borders
  left-mark_at r zero hr hc = refl
  left-mark_at r (suc c) hr hc =
      rw (suc-not_zero c, suc-sub c, contains-mark_at r c hr (omega arith)) refl

  bottom-mark_at :
      (r c : ℕ)
      → r < m.rows
      → c < m.cols
      → borders (suc r == m.rows) m (suc r) c ≡ returns (not (mark_at m (suc (suc r)) (suc c)))
  unfolding borders
  bottom-mark_at r c hr hc = elim (Bool-cases (suc r == m.rows)) [
    | inl last ↦ ground (arith, last)
    | inr more ↦ rw (more, contains-mark_at (suc r) c (ground (arith, more)) hc) refl
  ]

  right-mark_at :
      (r c : ℕ)
      → r < m.rows
      → c < m.cols
      → borders (suc c == m.cols) m r (suc c) ≡ returns (not (mark_at m (suc r) (suc (suc c))))
  unfolding borders
  right-mark_at r c hr hc = elim (Bool-cases (suc c == m.cols)) [
    | inl last ↦ ground (arith, last)
    | inr more ↦ rw (more, contains-mark_at r (suc c) hr (ground (arith, more))) refl
  ]

  -- The edges of a cell of the grid are found without a panic.
  pub cell_edges-edges_at :
      (r c : ℕ) → r < m.rows → c < m.cols → cell_edges m r c ≡ returns (edges_at m r c)
  unfolding cell_edges
  cell_edges-edges_at r c hr hc =
      rw
        (
          cell_edges,
          contains-mark_at r c hr hc,
          top-mark_at r c hr hc,
          bottom-mark_at r c hr hc,
          left-mark_at r c hr hc,
          right-mark_at r c hr hc,
        )
        (if-returns (mark_at m (suc r) (suc c)) _ _)

  row_edges-row_list :
      (r c n : ℕ) → r < m.rows → c + n ≤ m.cols → row_edges m r c n ≡ returns (row_list m r c n)
  unfolding row_edges
  row_edges-row_list r c zero hr hc = refl
  row_edges-row_list r c (suc n) hr hc =
      rw
        (
          cell_edges-edges_at r c hr (omega (arith, hc)),
          row_edges-row_list r (suc c) n hr (omega (arith, hc)),
        )
        refl

  grid_edges-grid_list : (r n : ℕ) → r + n ≤ m.rows → grid_edges m r n ≡ returns (grid_list m r n)
  unfolding grid_edges
  grid_edges-grid_list r zero hr = refl
  grid_edges-grid_list r (suc n) hr =
      rw
        (
          row_edges-row_list r 0 m.cols (omega (arith, hr)) (omega arith),
          grid_edges-grid_list (suc r) n (omega (arith, hr)),
        )
        refl

  pub extract_edges-grid_list : extract_edges m ≡ returns (grid_list m 0 m.rows)
  unfolding extract_edges
  extract_edges-grid_list = grid_edges-grid_list 0 m.rows (omega arith)
