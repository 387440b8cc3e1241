-- ===== src/Seed/Snap/Choice.antt =====
-- Which cell `snap_pour_point` chooses, and when it fails.
use package.watershed_delineation.Prelude.{
  ℕ, ◌≡◌, ◌≢◌, refl, sym, ap, ap₂, ◌∙◌, ◌⊎◌, ◌↔◌, inl, inr, true, false, none, some, List, [], ◌∷◌,
  ◌∈◌, returns_inj, arith,
}
use package.watershed_delineation.Prelude.Order.{
  IsPreorder, is_gt, min_by-IsLeast, nat_order, swapped-IsPreorder, part-IsPreorder,
  then_with-IsPreorder,
}
use package.watershed_delineation.Prelude.Floats.{Floats}
use package.watershed_delineation.Prelude.Calls.{done, fails}
use package.watershed_delineation.Raster.FlowTile.{TileState}
use package.watershed_delineation.Raster.AccTile.{AccumulationTile, SnapThreshold, get_raw, dims}
use package.watershed_delineation.Raster.Tile
use package.watershed_delineation.Geo.{
  NativeCoord, GeoTransform, pixel_to_coord, coord_to_pixel_f64,
}
use package.watershed_delineation.Seed.{
  FlowAccumulationUnits, RasterSeedCandidate, no_cell_above_threshold, outlet_out_of_bounds,
  is_outside, quantize_grid_cell, distance_squared, effective_threshold, raster_seed_candidates,
  seed_order, rank_seeds,
}
use package.watershed_delineation.Seed.Laws.{Eligible, grid_candidates-all}
use package.watershed_delineation.Seed.Snap.{snap_pour_point}
use Prim.Native.Nat.{Ordering}

module _ {F A : Type 0} (fl : Floats F) (fs : Floats A) where
  pub seed_order-IsPreorder : IsPreorder (seed_order fl fs)
  seed_order-IsPreorder =
      then_with-IsPreorder _ _
        (part-IsPreorder (λ c. c.distance_squared) fl.total.cmp fl.total.preorder)
        (then_with-IsPreorder _ _
          (part-IsPreorder (λ c. c.accumulation) _
            (swapped-IsPreorder fs.total.cmp fs.total.preorder))
          (then_with-IsPreorder _ _ (part-IsPreorder (λ c. c.cell.row) _ nat_order.preorder)
            (part-IsPreorder (λ c. c.cell.col) _ nat_order.preorder)))

  same_cell : (a b : RasterSeedCandidate F A) → seed_order fl fs a b ≡ Ordering.eq → a.cell ≡ b.cell
  same_cell a b h = ap₂ (λ r k. record { row = r; col = k }) (ground (arith, h)) (ground (arith, h))

  module _ {S : TileState} (t : AccumulationTile (GeoTransform F) A S) (frac : F × F)
      (threshold : A) where
    Eligible-eq :
        (a b : RasterSeedCandidate F A)
        → Eligible fl fs t frac threshold a
        → Eligible fl fs t frac threshold b
        → a.cell ≡ b.cell
        → a ≡ b
    Eligible-eq a b h k e =
        let seen : a.accumulation ≡ b.accumulation =
          returns_inj (sym h.1 ∙ ap (get_raw t) e ∙ k.1) in
        let far : a.distance_squared ≡ b.distance_squared =
          h.3 ∙ ap (distance_squared fl frac) e ∙ sym k.3 in
        cc (e, seen, far)

    -- Eligible, and strictly before every other eligible candidate.
    abbrev pub IsNearest : RasterSeedCandidate F A → Type 0
    IsNearest c =
        Eligible fl fs t frac threshold c
        × ((b : RasterSeedCandidate F A)
            → Eligible fl fs t frac threshold b
            → b ≢ c
            → seed_order fl fs c b ≡ Ordering.lt)

    -- Ranking the eligible candidates.
    rank_seeds-IsNearest :
        (cs : List (RasterSeedCandidate F A))
        → ((c : RasterSeedCandidate F A) → (c ∈ cs) ↔ Eligible fl fs t frac threshold c)
        → (((c : RasterSeedCandidate F A) → ¬ Eligible fl fs t frac threshold c)
            × (rank_seeds fl fs cs ≡ none))
          ⊎ ((c : RasterSeedCandidate F A) × IsNearest c × (rank_seeds fl fs cs ≡ some c))
    unfolding rank_seeds
    rank_seeds-IsNearest [] mem = inl (λ c el. (mem c).1 el, refl)
    rank_seeds-IsNearest (x ∷ xs) mem =
        let (inside, least) =
          min_by-IsLeast (seed_order fl fs) seed_order-IsPreorder (x ∷ xs) _ refl in
        let own = (mem _).0 inside in
        inr (
          _,
          (
            own,
            λ b el ne.
                strictly_before _ b (least b ((mem b).1 el))
                  (λ e. ne (sym (Eligible-eq _ b own el (same_cell _ b e)))),
          ),
          refl,
        )
      where
        strictly_before :
            (c b : RasterSeedCandidate F A)
            → is_gt (seed_order fl fs c b) ≡ false
            → seed_order fl fs c b ≢ Ordering.eq
            → seed_order fl fs c b ≡ Ordering.lt
        strictly_before c b h ne = ordering _ h ne
          where
            ordering : (o : Ordering) → is_gt o ≡ false → o ≢ Ordering.eq → o ≡ Ordering.lt
            ordering Ordering.lt h ne = refl
            ordering Ordering.eq h ne = absurd (ne refl)
            ordering Ordering.gt h ne = absurd cc

  -- On a valid tile: an outlet outside the tile is refused; otherwise either no cell is eligible and
  -- the call fails, or the result is the cell of the one eligible candidate that is strictly before every other.
  pub snap_pour_point-IsNearest :
      (to_f32 : F → A) {S : TileState} (outlet : NativeCoord F)
      (t : AccumulationTile (GeoTransform F) A S) (threshold : SnapThreshold)
      (units : FlowAccumulationUnits) (epsg : ℕ)
      → Tile.IsValid t.inner
      → let geo = t.inner.geo in
        let frac = coord_to_pixel_f64 fl geo outlet in
        let least = effective_threshold fl fs to_f32 threshold units geo in
        let call = snap_pour_point fl fs to_f32 outlet t threshold units epsg in
        (is_outside fl frac (dims t) ≡ true
          → call ≡ fails (outlet_out_of_bounds epsg outlet (dims t)))
        × (is_outside fl frac (dims t) ≡ false
            → (((c : RasterSeedCandidate F A) → ¬ Eligible fl fs t frac least c)
                × (call ≡ fails (no_cell_above_threshold least units epsg outlet)))
              ⊎ ((c : RasterSeedCandidate F A) × IsNearest t frac least c
                  × (call
                      ≡ done (record {
                        cell = c.cell;
                        coord = pixel_to_coord fl geo c.cell;
                        accumulation = c.accumulation;
                      }))))
  unfolding snap_pour_point quantize_grid_cell raster_seed_candidates
  snap_pour_point-IsNearest to_f32 outlet t threshold units epsg valid =
      let geo = t.inner.geo in
      let frac = coord_to_pixel_f64 fl geo outlet in
      let least = effective_threshold fl fs to_f32 threshold units geo in
      let (cs, e, mem) = grid_candidates-all fl fs t frac least valid in
      (
        λ outside. rw outside refl,
        λ inside. elim (rank_seeds-IsNearest t frac least cs mem) [
          | inl (none_left, r) ↦ inl (none_left, rw (inside, e, r) refl)
          | inr (c, nearest, r) ↦ inr (c, nearest, rw (inside, e, r) refl)
        ],
      )
