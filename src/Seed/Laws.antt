-- ===== src/Seed/Laws.antt =====
-- The candidates are the cells of the tile that reach the threshold.
use package.watershed_delineation.Prelude.{
  ℕ, zero, suc, ◌+◌, ◌≤◌, ◌<◌, ◌≡◌, refl, sym, ap, ap₂, subst, ◌∙◌, ◌↔◌, inl, inr, ⊎_elim,
  ℕ_discrete, false, Bool-cases, List, [], ◌∷◌, ◌++◌, ◌∈◌, mem-append, returns, returns_inj, arith,
}
use package.watershed_delineation.Prelude.Floats.{Floats}
use package.watershed_delineation.Raster.Grid.{GridCoord, Inside}
use package.watershed_delineation.Raster.FlowTile.{TileState}
use package.watershed_delineation.Raster.AccTile.{AccumulationTile, get_raw, dims}
use package.watershed_delineation.Raster.Tile
use package.watershed_delineation.Raster.Tile.Laws.{value, get-value}
use package.watershed_delineation.Geo.{GeoTransform}
use package.watershed_delineation.Seed.{
  RasterSeedCandidate, is_below, distance_squared, candidate_of, row_candidates, grid_candidates,
}

module _ {F A : Type 0} (fl : Floats F) (fs : Floats A) {S : TileState}
    (t : AccumulationTile (GeoTransform F) A S) (frac : F × F) (threshold : A) where
  -- A cell of the tile that reaches the threshold, with its distance and accumulation.
  abbrev pub Eligible : RasterSeedCandidate F A → Type 0
  Eligible c =
      Inside (dims t) c.cell
      × (get_raw t c.cell ≡ returns c.accumulation)
      × (is_below fs threshold c.accumulation ≡ false)
      × (c.distance_squared ≡ distance_squared fl frac c.cell)

  Eligible-candidate_of :
      (c : RasterSeedCandidate F A) (row col : ℕ) (v : A)
      → Eligible c
      → c.cell.row ≡ row
      → c.cell.col ≡ col
      → get_raw t (record { row = row; col = col }) ≡ returns v
      → c ≡ candidate_of fl fs frac (record { row = row; col = col }) v
  Eligible-candidate_of c row col v h er ec g =
      let same : c.cell ≡ record { row = row; col = col } =
        ap₂ (λ r k. record { row = r; col = k }) er ec in
      let seen : c.accumulation ≡ v = returns_inj (sym h.1 ∙ ap (get_raw t) same ∙ g) in
      let far : c.distance_squared ≡ distance_squared fl frac (record { row = row; col = col }) =
        h.3 ∙ ap (distance_squared fl frac) same in
      cc (same, seen, far)

  -- Column `col` or a later one, before column `col + n`.
  abbrev Among : ℕ → ℕ → ℕ → RasterSeedCandidate F A → Type 0
  Among row col n c = Eligible c × (c.cell.row ≡ row) × (col ≤ c.cell.col) × (c.cell.col < col + n)

  module _ (valid : Tile.IsValid t.inner) where
    row_candidates-Among :
        (row col n : ℕ)
        → row < t.inner.rows
        → col + n ≤ t.inner.cols
        → (cs : List (RasterSeedCandidate F A)) × (row_candidates fl fs t frac threshold row col n
            ≡ returns cs)
          × ((c : RasterSeedCandidate F A) → (c ∈ cs) ↔ Among row col n c)
    unfolding row_candidates
    row_candidates-Among row col zero hr hc =
        ([], refl, λ c. (λ z. absurd z, λ h. omega (arith, h)))
    row_candidates-Among row col (suc n) hr hc =
        let cell : GridCoord = record { row = row; col = col } in
        let v = value t.inner cell in
        let g = get-value t.inner valid cell (hr, omega (arith, hc)) in
        let (cs, e, mem) = row_candidates-Among row (suc col) n hr (omega (arith, hc)) in
        elim (Bool-cases (is_below fs threshold v)) [
          | inl below ↦ (
            cs,
            rw (g, e, below) refl,
            λ c. (
              λ m. let a = (mem c).0 m in (a.0, a.1, omega (arith, a), omega (arith, a)),
              λ a. elim (ℕ_discrete c.cell.col col) [
                | yes here ↦
                    let same = Eligible-candidate_of c row col v a.0 a.1 here g in
                    absurd (cc (below, a.0.2, ap (λ k. is_below fs threshold k.accumulation) same))
                | no ne ↦ (mem c).1 (a.0, a.1, omega (arith, a, ne), omega (arith, a))
              ],
            ),
          )
          | inr enough ↦ (
            candidate_of fl fs frac cell v ∷ cs,
            rw (g, e, enough) refl,
            λ c. (
              ⊎_elim
                  (λ first.
                    subst (Among row col (suc n)) (sym first)
                      (((hr, omega (arith, hc)), g, enough, refl), refl, omega arith, omega arith))
                  (λ m. let a = (mem c).0 m in (a.0, a.1, omega (arith, a), omega (arith, a))),
              λ a. elim (ℕ_discrete c.cell.col col) [
                | yes here ↦ inl (Eligible-candidate_of c row col v a.0 a.1 here g)
                | no ne ↦ inr ((mem c).1 (a.0, a.1, omega (arith, a, ne), omega (arith, a)))
              ],
            ),
          )
        ]

    grid_candidates-Eligible :
        (row n : ℕ)
        → row + n ≤ t.inner.rows
        → (cs : List (RasterSeedCandidate F A)) × (grid_candidates fl fs t frac threshold row n
            ≡ returns cs)
          × ((c : RasterSeedCandidate F A)
              → (c ∈ cs) ↔ Eligible c × (row ≤ c.cell.row) × (c.cell.row < row + n))
    unfolding grid_candidates
    grid_candidates-Eligible row zero hr = ([], refl, λ c. (λ z. absurd z, λ h. omega (arith, h)))
    grid_candidates-Eligible row (suc n) hr =
        let (here, e, mem) =
          row_candidates-Among row 0 t.inner.cols (omega (arith, hr)) (omega arith) in
        let (later, e', mem') = grid_candidates-Eligible (suc row) n (omega (arith, hr)) in
        (
          here ++ later,
          rw (e, e') refl,
          λ c. (
            λ m.
                ⊎_elim (λ m0. let a = (mem c).0 m0 in (a.0, omega (arith, a), omega (arith, a)))
                  (λ m1. let a = (mem' c).0 m1 in (a.0, omega (arith, a), omega (arith, a)))
                  ((mem-append c here later).0 m),
            λ a. (mem-append c here later).1 (elim (ℕ_discrete c.cell.row row) [
              | yes same ↦ inl ((mem c).1 (a.0, same, omega arith, omega (arith, a.0.0)))
              | no ne ↦ inr ((mem' c).1 (a.0, omega (arith, a, ne), omega (arith, a)))
            ]),
          ),
        )

    -- The candidates are found without a panic, and are the eligible cells.
    pub grid_candidates-all :
        (cs : List (RasterSeedCandidate F A)) × (grid_candidates fl fs t frac threshold 0
            t.inner.rows
          ≡ returns cs)
        × ((c : RasterSeedCandidate F A) → (c ∈ cs) ↔ Eligible c)
    grid_candidates-all =
        let (cs, e, mem) = grid_candidates-Eligible 0 t.inner.rows (omega arith) in
        (cs, e, λ c. (λ m. ((mem c).0 m).0, λ el. (mem c).1 (el, omega arith, omega (arith, el.0))))
