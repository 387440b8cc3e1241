-- ===== src/Raster/AccTile/Laws.antt =====
-- What masking does to an accumulation tile.
use package.watershed_delineation.Prelude.{
  ℕ, zero, suc, ◌*◌, ◌<◌, ◌≡◌, refl, sym, ap, ap₂, ◌∙◌, ◌⊎◌, inl, inr, Bool, true, false,
  Bool-cases, some, List, [], ◌∷◌, ok, err, returns, length, get_elem?, get_or, get_elem?-eq-get_or,
  if◌then◌else◌, arith,
}
use package.watershed_delineation.Prelude.Floats.{Floats}
use package.watershed_delineation.Raster.Grid.{GridCoord, Inside, flat, flat-lt}
use package.watershed_delineation.Raster.Tile
use package.watershed_delineation.Raster.Tile.{dimension_mismatch}
use package.watershed_delineation.Raster.FlowTile.{raw, masked}
use package.watershed_delineation.Raster.Mask.{CatchmentMask, contains}
use package.watershed_delineation.Raster.AccTile.{
  AccumulationTile, mask_values, get_raw, dims, apply_mask,
}

module _ {A : Type 0} (fl : Floats A) where
  get_elem?-mask_values :
      (values : List A) (keep : List Bool) (i : ℕ)
      → length keep ≡ length values
      → i < length values
      → get_elem? (mask_values fl values keep) i
        ≡ some (if get_or keep i false then get_or values i fl.nan else fl.nan)
  get_elem?-mask_values [] keep i e h = absurd (omega arith)
  get_elem?-mask_values (v ∷ vs) [] i e h = absurd (omega arith)
  get_elem?-mask_values (v ∷ vs) (k ∷ keep) zero e h = refl
  get_elem?-mask_values (v ∷ vs) (k ∷ keep) (suc i) e h =
      get_elem?-mask_values vs keep i (omega arith) (omega arith)

  length-mask_values :
      (values : List A) (keep : List Bool) → length (mask_values fl values keep) ≡ length values
  length-mask_values [] keep = refl
  length-mask_values (v ∷ vs) [] = refl
  length-mask_values (v ∷ vs) (k ∷ keep) = ap suc (length-mask_values vs keep)

  -- Masking a valid tile by a mask of its own extent succeeds and keeps the tile valid; a cell that the mask
  -- holds keeps its value, and every other cell is NaN. A mask of another extent is refused.
  pub get_raw-apply_mask :
      {G : Type 0} (t : AccumulationTile G A raw) (m : CatchmentMask)
      → Tile.IsValid t.inner
      → length m.data_vec ≡ m.rows * m.cols
      → ((m.rows ≡ t.inner.rows) × (m.cols ≡ t.inner.cols)
          → (t' : AccumulationTile G A masked) × (apply_mask fl t m ≡ ok t')
            × Tile.IsValid t'.inner
            × (dims t' ≡ dims t)
            × (t'.inner.geo ≡ t.inner.geo)
            × ((p : GridCoord)
                → Inside (dims t) p
                → ((contains m p ≡ returns true) × (get_raw t' p ≡ get_raw t p))
                  ⊎ ((contains m p ≡ returns false) × (get_raw t' p ≡ returns fl.nan))))
        × (¬ ((m.rows ≡ t.inner.rows) × (m.cols ≡ t.inner.cols))
            → apply_mask fl t m
              ≡ err (
                  dimension_mismatch
                    (t.inner.rows * t.inner.cols)
                    t.inner.rows
                    t.inner.cols
                    (m.rows * m.cols)))
  unfolding apply_mask Tile.get contains
  get_raw-apply_mask t m valid size = (
    λ (er, ec). (
      record { inner = record t.inner { data_vec = mask_values fl t.inner.data_vec m.data_vec } },
      ground arith,
      (valid.0, valid.1, length-mask_values t.inner.data_vec m.data_vec ∙ valid.2),
      refl,
      refl,
      λ p ip.
          let i = flat t.inner.cols p in
          let inside : i < length t.inner.data_vec = rw valid.2 (flat-lt (dims t) p ip) in
          let sizes : length m.data_vec ≡ length t.inner.data_vec =
            size ∙ ap₂ ◌*◌ er ec ∙ sym valid.2 in
          let flag = get_elem?-eq-get_or m.data_vec i false (rw sizes inside) in
          let found = get_elem?-mask_values t.inner.data_vec m.data_vec i sizes inside in
          elim (Bool-cases (get_or m.data_vec i false)) [
            | inl keep ↦ inl (
              rw (ec, flag, keep) refl,
              rw (found, keep, get_elem?-eq-get_or t.inner.data_vec i fl.nan inside) refl,
            )
            | inr drop ↦ inr (rw (ec, flag, drop) refl, rw (found, drop) refl)
          ],
    ),
    λ ne. ground arith,
  )
