-- ===== src/Polygon/Boundary/Balance.antt =====
-- The boundary of a mask is balanced: each corner starts as many edges as it ends.
use package.watershed_delineation.Prelude.{
  ℕ, zero, suc, ◌+◌, ◌*◌, ◌≡◌, refl, ap, Bool, not, ◌&&◌, List, [], ◌∷◌, ◌++◌, length, returns,
  if◌then◌else◌, arith,
}
use package.watershed_delineation.Raster.Mask.{CatchmentMask}
use package.watershed_delineation.Polygon.{Corner, Edge, same, assemble_rings}
use package.watershed_delineation.Polygon.Take.{one_if, starts, stops, times}
use package.watershed_delineation.Polygon.Rings.{AllClosed, passes_all, assemble_rings-AllClosed}
use package.watershed_delineation.Polygon.Boundary.{push_if, extract_edges}
use package.watershed_delineation.Polygon.Boundary.Cells.{
  mark_at, edges_at, row_list, grid_list, extract_edges-grid_list,
}

starts-append : (v : Corner) (xs ys : List Edge) → starts v (xs ++ ys) ≡ starts v xs + starts v ys
starts-append v [] ys = omega arith
starts-append v (x ∷ xs) ys = omega (arith, starts-append v xs ys)

stops-append : (v : Corner) (xs ys : List Edge) → stops v (xs ++ ys) ≡ stops v xs + stops v ys
stops-append v [] ys = omega arith
stops-append v (x ∷ xs) ys = omega (arith, stops-append v xs ys)

-- The total of `f` at `c`, ..., `c + n - 1`.
abbrev total : (ℕ → ℕ) → ℕ → ℕ → ℕ
total f c zero = 0
total f c (suc n) = f c + total f (suc c) n

total-zero : (f : ℕ → ℕ) (c n : ℕ) → ((i : ℕ) → f i ≡ 0) → total f c n ≡ 0
total-zero f c zero h = refl
total-zero f c (suc n) h = omega (arith, h c, total-zero f (suc c) n h)

-- A side that a cell has and the side that it shares with a marked neighbour add up to one.
cell_balance :
    (x top bottom left right : Bool) (a b c d : ℕ)
    → ((if x
          then (if not top then a else 0)
            + ((if not bottom then d else 0)
                + ((if not left then c else 0) + (if not right then b else 0)))
          else 0)
        + (if top && x then a else 0)
        + (if x && bottom then d else 0)
        + (if left && x then c else 0)
        + (if x && right then b else 0))
      ≡ ((if x
            then (if not top then b else 0)
              + ((if not bottom then c else 0)
                  + ((if not left then a else 0) + (if not right then d else 0)))
            else 0)
          + (if top && x then b else 0)
          + (if x && bottom then c else 0)
          + (if left && x then a else 0)
          + (if x && right then d else 0))
cell_balance x top bottom left right a b c d = ground arith

starts-sides :
    (v : Corner) (x top bottom left right : Bool) (e f g h : Edge)
    → starts v
        (if x then push_if top e (push_if bottom f (push_if left g (push_if right h []))) else [])
      ≡ (if x
          then (if top then one_if (same v e.0) else 0)
            + ((if bottom then one_if (same v f.0) else 0)
                + ((if left then one_if (same v g.0) else 0)
                    + (if right then one_if (same v h.0) else 0)))
          else 0)
starts-sides v x top bottom left right e f g h = ground arith

stops-sides :
    (v : Corner) (x top bottom left right : Bool) (e f g h : Edge)
    → stops v
        (if x then push_if top e (push_if bottom f (push_if left g (push_if right h []))) else [])
      ≡ (if x
          then (if top then one_if (same v e.1) else 0)
            + ((if bottom then one_if (same v f.1) else 0)
                + ((if left then one_if (same v g.1) else 0)
                    + (if right then one_if (same v h.1) else 0)))
          else 0)
stops-sides v x top bottom left right e f g h = ground arith

module _ (m : CatchmentMask) (v : Corner) where
  at_corner : ℕ → ℕ → ℕ
  at_corner i j = one_if (same v (i, j))

  -- The sides between two marked cells, one above the other, by the corner at their left and right.
  abbrev up_left : ℕ → ℕ → ℕ
  up_left r c = if mark_at m r (suc c) && mark_at m (suc r) (suc c) then at_corner r c else 0

  abbrev up_right : ℕ → ℕ → ℕ
  up_right r c = if mark_at m r (suc c) && mark_at m (suc r) (suc c) then at_corner r (suc c) else 0

  -- The sides between two marked cells side by side, by the corner at their lower and upper end.
  abbrev side_low : ℕ → ℕ → ℕ
  side_low r c = if mark_at m (suc r) c && mark_at m (suc r) (suc c) then at_corner (suc r) c else 0

  abbrev side_high : ℕ → ℕ → ℕ
  side_high r c = if mark_at m (suc r) c && mark_at m (suc r) (suc c) then at_corner r c else 0

  cell_balanced :
      (r c : ℕ)
      → starts v (edges_at m r c)
          + up_left r c
          + up_right (suc r) c
          + side_low r c
          + side_high r (suc c)
        ≡ stops v (edges_at m r c)
          + up_right r c
          + up_left (suc r) c
          + side_high r c
          + side_low r (suc c)
  unfolding at_corner
  cell_balanced r c =
      let x = mark_at m (suc r) (suc c) in
      let top = mark_at m r (suc c) in
      let bottom = mark_at m (suc (suc r)) (suc c) in
      let left = mark_at m (suc r) c in
      let right = mark_at m (suc r) (suc (suc c)) in
      omega (
        arith,
        starts-sides v x (not top) (not bottom) (not left) (not right) ((r, c), (r, suc c))
            ((suc r, suc c), (suc r, c)) ((suc r, c), (r, c)) ((r, suc c), (suc r, suc c)),
        stops-sides v x (not top) (not bottom) (not left) (not right) ((r, c), (r, suc c))
            ((suc r, suc c), (suc r, c)) ((suc r, c), (r, c)) ((r, suc c), (suc r, suc c)),
        cell_balance x top bottom left right (at_corner r c) (at_corner r (suc c))
            (at_corner (suc r) c) (at_corner (suc r) (suc c)),
      )

  row_balanced :
      (r c n e : ℕ)
      → e ≡ c + n
      → starts v (row_list m r c n)
          + total (up_left r) c n
          + total (up_right (suc r)) c n
          + side_low r c
          + side_high r e
        ≡ stops v (row_list m r c n)
          + total (up_right r) c n
          + total (up_left (suc r)) c n
          + side_high r c
          + side_low r e
  row_balanced r c zero e h =
      let here : e ≡ c = omega (arith, h) in
      omega (arith, ap (side_high r) here, ap (side_low r) here)
  row_balanced r c (suc n) e h = omega (
    arith,
    cell_balanced r c,
    row_balanced r (suc c) n e (omega (arith, h)),
    starts-append v (edges_at m r c) (row_list m r (suc c) n),
    stops-append v (edges_at m r c) (row_list m r (suc c) n),
  )

  -- No side is shared with the outside of the grid.
  side_low-last : (r : ℕ) → side_low r m.cols ≡ 0
  side_low-last r = ground arith

  side_high-last : (r : ℕ) → side_high r m.cols ≡ 0
  side_high-last r = ground arith

  up_left-last : (c : ℕ) → up_left m.rows c ≡ 0
  up_left-last c = ground arith

  up_right-last : (c : ℕ) → up_right m.rows c ≡ 0
  up_right-last c = ground arith

  grid_balanced :
      (r n e : ℕ)
      → e ≡ r + n
      → starts v (grid_list m r n) + total (up_left r) 0 m.cols + total (up_right e) 0 m.cols
        ≡ stops v (grid_list m r n) + total (up_right r) 0 m.cols + total (up_left e) 0 m.cols
  grid_balanced r zero e h =
      let here : e ≡ r = omega (arith, h) in
      omega (
        arith,
        ap (λ i. total (up_left i) 0 m.cols) here,
        ap (λ i. total (up_right i) 0 m.cols) here,
      )
  grid_balanced r (suc n) e h = omega (
    arith,
    row_balanced r 0 m.cols m.cols (omega arith),
    grid_balanced (suc r) n e (omega (arith, h)),
    starts-append v (row_list m r 0 m.cols) (grid_list m (suc r) n),
    stops-append v (row_list m r 0 m.cols) (grid_list m (suc r) n),
    side_low-last r,
    side_high-last r,
  )

  boundary_balanced : starts v (grid_list m 0 m.rows) ≡ stops v (grid_list m 0 m.rows)
  boundary_balanced = omega (
    arith,
    grid_balanced 0 m.rows m.rows (omega arith),
    total-zero (up_left 0) 0 m.cols (λ c. refl),
    total-zero (up_right 0) 0 m.cols (λ c. refl),
    total-zero (up_left m.rows) 0 m.cols up_left-last,
    total-zero (up_right m.rows) 0 m.cols up_right-last,
  )

-- On a mask with a mark for each cell, the boundary is extracted without a panic and assembled without
-- one, into closed rings that together use each edge of the boundary as often as it was extracted.
pub extract_edges-AllClosed :
    (m : CatchmentMask)
    → length m.data_vec ≡ m.rows * m.cols
    → (edges : List Edge) × (rings : List (List Corner)) × (extract_edges m ≡ returns edges)
      × (assemble_rings edges ≡ returns rings)
      × AllClosed rings
      × ((s t : Corner) → passes_all s t rings ≡ times s t edges)
extract_edges-AllClosed m whole =
    let edges = grid_list m 0 m.rows in
    let (rings, e, closed, counted) = assemble_rings-AllClosed edges (boundary_balanced m) in
    (edges, rings, extract_edges-grid_list m whole, e, closed, counted)
