-- ===== src/Raster/Grid.antt =====
-- Cells and extents of a grid (crates/core/src/algo/coord.rs), and the row-major index. Products of
-- `usize` are not wrapped: a tile's cells are in memory, so their number is far below 2^64.
use package.watershed_delineation.Prelude.{
  ℕ, ◌+◌, ◌*◌, ◌<◌, ◌≡◌, sym, ◌⊎◌, inl, inr, ℕ_discrete, List, length, set, get_or, get_elem?, some,
  Bool, false, arith, get_or-set_self, get_or-set_ne, get_elem?-eq-get_or,
}

pub record GridCoord : Type 0 where
  pub row : ℕ
  pub col : ℕ

pub record GridDims : Type 0 where
  pub rows : ℕ
  pub cols : ℕ

abbrev pub cell_count : GridDims → ℕ
cell_count d = d.rows * d.cols

abbrev pub Inside : GridDims → GridCoord → Type 0
Inside d p = (p.row < d.rows) × (p.col < d.cols)

-- `row * cols + col`.
unfoldable pub flat : ℕ → GridCoord → ℕ
flat cols p = p.row * cols + p.col

pub flat-lt : (d : GridDims) (p : GridCoord) → Inside d p → flat d.cols p < d.rows * d.cols
unfolding flat
flat-lt d p inside = grind arith

flat-lt-flat :
    (cols : ℕ) (p q : GridCoord) → p.col < cols → p.row < q.row → flat cols p < flat cols q
unfolding flat
flat-lt-flat cols p q hp hr = grind arith

-- Cells of one grid with one index are equal.
pub flat_inj :
    (cols : ℕ) (p q : GridCoord) → p.col < cols → q.col < cols → flat cols p ≡ flat cols q → p ≡ q
unfolding flat
flat_inj cols p q hp hq e = ground (arith, flat-lt-flat cols p q, flat-lt-flat cols q p)

-- A vector of flags, read at a cell.
unfoldable pub at : ℕ → List Bool → GridCoord → Bool
at cols flags p = get_or flags (flat cols p) false

module _ (d : GridDims) (flags : List Bool) (size : length flags ≡ d.rows * d.cols) (p : GridCoord)
    (inside : Inside d p) where
  pub in_range : flat d.cols p < length flags
  in_range = rw size (flat-lt d p inside)

  pub get_elem?-flat : get_elem? flags (flat d.cols p) ≡ some (at d.cols flags p)
  unfolding at
  get_elem?-flat = get_elem?-eq-get_or flags (flat d.cols p) false in_range

  pub at-set_self : (v : Bool) → at d.cols (set flags (flat d.cols p) v) p ≡ v
  unfolding at
  at-set_self v = get_or-set_self flags (flat d.cols p) v false in_range

  -- Another cell keeps its flag.
  pub at-set_cases :
      (v : Bool) (q : GridCoord)
      → Inside d q
      → (q ≡ p) ⊎ (at d.cols (set flags (flat d.cols p) v) q ≡ at d.cols flags q)
  unfolding at
  at-set_cases v q hq = elim (ℕ_discrete (flat d.cols p) (flat d.cols q)) [
    | yes e ↦ inl (sym (flat_inj d.cols p q inside.1 hq.1 e))
    | no ne ↦ inr (get_or-set_ne flags (flat d.cols p) (flat d.cols q) v false ne)
  ]
