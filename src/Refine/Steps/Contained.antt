-- ===== src/Refine/Steps/Contained.antt =====
-- A refined terminal stays within its terminal polygon.
use package.watershed_delineation.Prelude.{
  ℕ, ◌*◌, ◌≡◌, refl, sym, ap, ap₂, subst, ◌∙◌, ◌⊎◌, ◌↔◌, inl, inr, ⊎_elim, true, false, Bool-cases,
  Option, Option-cases, none, some, ok, returns, returns_inj, length, ==_iff, arith,
}
use package.watershed_delineation.Prelude.Floats.{Floats}
use package.watershed_delineation.Prelude.Calls.{Call, done, fails, ◌>>=◌}
use package.watershed_delineation.Raster.Grid.{GridCoord, GridDims, Inside}
use package.watershed_delineation.Raster.FlowTile
use package.watershed_delineation.Raster.FlowTile.{FlowDirectionTile, raw, masked, dims}
use package.watershed_delineation.Raster.FlowTile.Laws.{get-apply_mask}
use package.watershed_delineation.Raster.AccTile
use package.watershed_delineation.Raster.AccTile.{AccumulationTile, SnapThreshold}
use package.watershed_delineation.Raster.AccTile.Laws.{get_raw-apply_mask}
use package.watershed_delineation.Raster.Tile
use package.watershed_delineation.Raster.Mask.{CatchmentMask, contains, mask_dims, from_traced}
use package.watershed_delineation.Geo.{NativeCoord, GeoTransform, coord_to_pixel_f64}
use package.watershed_delineation.Seed.{
  FlowAccumulationUnits, SnappedPoint, SnapError, is_outside, effective_threshold,
}
use package.watershed_delineation.Seed.Snap.Choice.{snap_pour_point-IsNearest}
use package.watershed_delineation.Trace.{trace_upstream}
use package.watershed_delineation.Trace.Region.{Drains, here, next}
use package.watershed_delineation.Trace.Correct.{trace_upstream-Drains}
use package.watershed_delineation.Refine.{
  RasterOutlet, vector_point, unit_only, RasterSeedKind, raster_ranked, empty_polygonization,
  geographic_km2_unsupported, dimension_mismatch, geo_transform_mismatch, empty_raster_mask,
  RefinementError, RefinementResult, Rasters, any_marked, same_geo, same_dims,
}
use package.watershed_delineation.Refine.Steps.{
  of_snap, guarded_seed, prepared_seed, chosen_seed, refine_masked, refine_terminal,
}
use package.watershed_delineation.Refine.Steps.Guards.{FloorsBelow, guarded_seed-Guarded}

apply_mask-dims :
    {G : Type 0} (t : FlowDirectionTile G raw) (m : CatchmentMask) (t' : FlowDirectionTile G masked)
    → FlowTile.apply_mask t m ≡ ok t'
    → dims t' ≡ dims t
unfolding FlowTile.apply_mask
apply_mask-dims t m t' h = ground (arith, h)

-- A cell whose flow leads to `pour` over masked directions is `pour`, or is in the mask.
Drains-contains :
    {G : Type 0} (t : FlowDirectionTile G raw) (t' : FlowDirectionTile G masked) (m : CatchmentMask)
    (pour p : GridCoord)
    → ((q : GridCoord)
        → Inside (dims t) q
        → ((contains m q ≡ returns true) × (FlowTile.get t' q ≡ FlowTile.get t q))
          ⊎ ((contains m q ≡ returns false) × (FlowTile.get t' q ≡ returns none)))
    → dims t' ≡ dims t
    → contains m pour ≡ returns true
    → Drains t' pour p
    → contains m p ≡ returns true
Drains-contains t t' m pour p reads same marked here = marked
Drains-contains t t' m pour p reads same marked (next i f rest) =
    ⊎_elim (λ h. h.0) (λ h. let flow = f.reads in absurd (cc (h.1, flow)))
      (reads p (subst (λ d. Inside d p) same i))

-- What a seed must have: it is on the tile and in the mask.
abbrev IsSeed : GridDims → CatchmentMask → GridCoord → Type 0
IsSeed d m cell = Inside d cell × (contains m cell ≡ returns true)

module _ {F A Shape L P : Type 0} (fl : Floats F) (fs : Floats A) (rasters : Rasters F A Shape)
    (threshold : SnapThreshold) (units : FlowAccumulationUnits) (epsg : ℕ) (outlet : RasterOutlet F)
    (flow_dir : FlowDirectionTile (GeoTransform F) raw)
    (accumulation : AccumulationTile (GeoTransform F) A raw) where
  -- The refinement fails, or it succeeds with the polygon of a trace that lies in the mask.
  abbrev pub Refined :
      CatchmentMask → Call (RefinementError F A L P) (RefinementResult F A Shape) → Type 0
  Refined mask call =
      ((e : RefinementError F A L P) × (call ≡ fails e))
      ⊎ ((r : RefinementResult F A Shape) × (t' : FlowDirectionTile (GeoTransform F) masked)
          × (trace : CatchmentMask) × (call ≡ done r)
          × (contains mask r.snapped_point.cell ≡ returns true)
          × (FlowTile.apply_mask flow_dir mask ≡ ok t')
          × (trace_upstream t' r.snapped_point.cell ≡ returns trace)
          × (rasters.polygonize trace flow_dir.inner.geo ≡ some r.polygon)
          × ((p : GridCoord)
              → Inside (dims flow_dir) p
              → (contains trace p ≡ returns true) ↔ Drains t' r.snapped_point.cell p)
          × ((p : GridCoord)
              → Inside (dims flow_dir) p
              → contains trace p ≡ returns true
              → contains mask p ≡ returns true))

  module _ (mask : CatchmentMask) (same_mask : mask_dims mask ≡ dims flow_dir)
      (size : length mask.data_vec ≡ mask.rows * mask.cols) where
    guarded_seed-IsSeed :
        (vector : NativeCoord F) (least : A)
        → Tile.IsValid flow_dir.inner
        → Tile.IsValid accumulation.inner
        → AccTile.dims accumulation ≡ dims flow_dir
        → FloorsBelow fl
        → let call =
            guarded_seed {L = L} {P = P} fl fs rasters threshold units epsg vector flow_dir
              accumulation mask least in
          ((e : RefinementError F A L P) × (call ≡ fails e))
          ⊎ ((s : SnappedPoint F A) × (call ≡ done s) × IsSeed (dims flow_dir) mask s.cell)
    guarded_seed-IsSeed vector least vf va same_acc floors =
        elim (guarded_seed-Guarded {L = L} {P = P} fl fs rasters threshold units epsg vector
          flow_dir accumulation mask least vf va same_acc same_mask size floors) [
            | inl (off, e) ↦ inl (_, e)
            | inr (on, i, (inside, decoded, v, flag, seen, read, inl (why, e))) ↦ inl (_, e)
            | inr (on, i, (inside, decoded, v, flag, seen, read, inr (inl (yes_in, why, e)))) ↦
                inl (_, e)
            | inr
                  (
                    on,
                    i,
                    (inside, decoded, v, flag, seen, read, inr (inr (inl (yes_in, d, why, e)))),
                  ) ↦
                inl (_, e)
            | inr
                  (
                    on,
                    i,
                    (
                      inside,
                      decoded,
                      v,
                      flag,
                      seen,
                      read,
                      inr (inr (inr (inl (yes_in, d, n, why, e)))),
                    ),
                  ) ↦
                inl (_, e)
            | inr
                  (
                    on,
                    i,
                    (
                      inside,
                      decoded,
                      v,
                      flag,
                      seen,
                      read,
                      inr (inr (inr (inr (yes_in, d, n, enough, e)))),
                    ),
                  ) ↦
                inr (_, e, (i, flag ∙ ap returns yes_in))
          ]

    prepared_seed-IsSeed :
        (least : A)
        → Tile.IsValid flow_dir.inner
        → Tile.IsValid accumulation.inner
        → AccTile.dims accumulation ≡ dims flow_dir
        → FloorsBelow fl
        → (masked_acc : AccumulationTile (GeoTransform F) A masked) → Tile.IsValid masked_acc.inner
        → AccTile.dims masked_acc ≡ AccTile.dims accumulation
        → ((p : GridCoord)
            → Inside (AccTile.dims accumulation) p
            → ((contains mask p ≡ returns true)
                × (AccTile.get_raw masked_acc p ≡ AccTile.get_raw accumulation p))
              ⊎ ((contains mask p ≡ returns false)
                  × (AccTile.get_raw masked_acc p ≡ returns fs.nan)))
        → fs.is_nan fs.nan ≡ true
        → (o : RasterOutlet F)
        → let seeds =
            prepared_seed {L = L} {P = P} fl fs rasters threshold units epsg o flow_dir accumulation
              mask least in
          let chosen : Option (SnappedPoint F A)
              → Call (RefinementError F A L P) (SnappedPoint F A × RasterSeedKind) =
            λ seed. chosen_seed fl fs rasters threshold units epsg o seed masked_acc in
          ((e : RefinementError F A L P) × (seeds ≡ fails e))
          ⊎ ((seed : Option (SnappedPoint F A)) × (seeds ≡ done seed)
              × (((e : RefinementError F A L P) × (chosen seed ≡ fails e))
                  ⊎ ((s : SnappedPoint F A) × (k : RasterSeedKind) × (chosen seed ≡ done (s, k))
                      × IsSeed (dims flow_dir) mask s.cell)))
    prepared_seed-IsSeed least vf va same_acc floors masked_acc vm same reads nan (vector_point v) =
        elim (guarded_seed-IsSeed v least vf va same_acc floors) [
          | inl (e, h) ↦ inl (e, rw h refl)
          | inr (s, h, seed) ↦ inr (some s, rw h refl, inr (s, _, refl, seed))
        ]
    prepared_seed-IsSeed least vf va same_acc floors masked_acc vm same reads nan
          (unit_only request) =
        let frac = coord_to_pixel_f64 fl masked_acc.inner.geo request in
        let (outside, inside) =
          snap_pour_point-IsNearest fl fs rasters.as_f32 request masked_acc threshold units epsg
            vm in
        let ranked : Call (SnapError F A) (SnappedPoint F A)
            → Call (RefinementError F A L P) (SnappedPoint F A × RasterSeedKind) =
          λ call. of_snap call >>= λ seed. done (seed, raster_ranked) in
        inr (
          none,
          refl,
          elim (Bool-cases (is_outside fl frac (AccTile.dims masked_acc))) [
            | inl off ↦ inl (_, ap ranked (outside off))
            | inr on ↦ elim (inside on) [
              | inl (nowhere, e) ↦ inl (_, ap ranked e)
              | inr (c, (eligible, nearest), e) ↦
                  let i = subst (λ d. Inside d c.cell) same eligible.0 in
                  inr (
                    _,
                    _,
                    ap ranked e,
                    (
                      subst (λ d. Inside d c.cell) same_acc i,
                      ⊎_elim (λ h. h.0)
                          (λ h.
                            let unseen : fs.is_nan c.accumulation ≡ true =
                              subst (λ v. fs.is_nan v ≡ true) (returns_inj (sym h.1 ∙ eligible.1))
                                nan in
                            absurd (ground (arith, unseen, eligible.2)))
                          (reads c.cell i),
                    ),
                  )
            ]
          ],
        )

    -- Steps 4 to 9.
    refine_masked-Refined :
        Tile.IsValid flow_dir.inner
        → Tile.IsValid accumulation.inner
        → AccTile.dims accumulation ≡ dims flow_dir
        → FloorsBelow fl
        → fs.is_nan fs.nan ≡ true
        → Refined mask
            (refine_masked fl fs rasters threshold units epsg outlet flow_dir accumulation mask)
    unfolding refine_masked
    refine_masked-Refined vf va same_acc floors nan =
        let least = effective_threshold fl fs rasters.as_f32 threshold units flow_dir.inner.geo in
        let (t', masks, vt, reads) =
          (get-apply_mask flow_dir mask vf size).0
            (ap (λ d. d.rows) same_mask, ap (λ d. d.cols) same_mask) in
        let (a', masks', va', same', geo', reads') =
          (get_raw-apply_mask fs accumulation mask va size).0 (
            ap (λ d. d.rows) (same_mask ∙ sym same_acc),
            ap (λ d. d.cols) (same_mask ∙ sym same_acc),
          ) in
        let kept : dims t' ≡ dims flow_dir = apply_mask-dims flow_dir mask t' masks in
        elim (prepared_seed-IsSeed least vf va same_acc floors a' va' same' reads' nan outlet) [
          | inl (e, h) ↦ inl (e, rw h refl)
          | inr (seed, h, inl (e, k)) ↦ inl (e, rw (h, masks, masks', k) refl)
          | inr (seed, h, inr (s, kind, k, (i, marked))) ↦
              let (trace, e, extent, drains) =
                trace_upstream-Drains t' s.cell vt (subst (λ d. Inside d s.cell) (sym kept) i) in
              elim (Option-cases (rasters.polygonize trace flow_dir.inner.geo)) [
                | inl shapeless ↦
                    inl (empty_polygonization, rw (h, masks, masks', k, e, shapeless) refl)
                | inr (polygon, shaped) ↦ inr (
                  record { snapped_point = s; seed_kind = kind; polygon = polygon },
                  t',
                  trace,
                  rw (h, masks, masks', k, e, shaped) refl,
                  marked,
                  masks,
                  e,
                  shaped,
                  λ p ip. drains p (subst (λ d. Inside d p) (sym kept) ip),
                  λ p ip c.
                      Drains-contains flow_dir t' mask s.cell p reads kept marked
                        ((drains p (subst (λ d. Inside d p) (sym kept) ip)).0 c),
                )
              ]
        ]

  -- For valid tiles and a rasterization of their extent: the refinement fails, or it succeeds with the polygon of
  -- a trace that lies in the rasterized terminal polygon.
  pub refine_terminal-Refined :
      (terminal_polygon : Shape)
      → Tile.IsValid flow_dir.inner
      → Tile.IsValid accumulation.inner
      → length (rasters.rasterize_multi_polygon terminal_polygon flow_dir.inner.geo (dims flow_dir))
        ≡ flow_dir.inner.rows * flow_dir.inner.cols
      → FloorsBelow fl
      → fs.is_nan fs.nan ≡ true
      → let flags =
          rasters.rasterize_multi_polygon terminal_polygon flow_dir.inner.geo (dims flow_dir) in
        Refined
          (record { data_vec = flags; rows = flow_dir.inner.rows; cols = flow_dir.inner.cols })
          (refine_terminal fl fs rasters threshold units epsg terminal_polygon outlet flow_dir
            accumulation)
  unfolding refine_terminal from_traced
  refine_terminal-Refined terminal_polygon vf va size floors nan =
      let d = dims flow_dir in
      let flags = rasters.rasterize_multi_polygon terminal_polygon flow_dir.inner.geo d in
      let fits = (==_iff (length flags) (d.rows * d.cols)).1 size in
      elim (Bool-cases (rasters.d8_pair_is_compatible epsg units)) [
        | inr other ↦ inl (geographic_km2_unsupported epsg units, rw other refl)
        | inl pair ↦ elim (Bool-cases (same_dims d (AccTile.dims accumulation))) [
          | inr other ↦ inl (
            dimension_mismatch d.rows d.cols accumulation.inner.rows accumulation.inner.cols,
            rw (pair, other) refl,
          )
          | inl same ↦ elim (Bool-cases (same_geo fl flow_dir.inner.geo accumulation.inner.geo)) [
            | inr other ↦ inl (geo_transform_mismatch d.rows d.cols, rw (pair, same, other) refl)
            | inl here_too ↦ elim (Bool-cases (any_marked flags)) [
              | inr nothing ↦
                  inl (empty_raster_mask d.rows d.cols, rw (pair, same, here_too, nothing) refl)
              | inl something ↦
                  rw (pair, same, here_too, something, fits)
                    (refine_masked-Refined
                      (record { data_vec = flags; rows = d.rows; cols = d.cols }) refl size vf va
                      (same_dims_eq d (AccTile.dims accumulation) same) floors nan)
            ]
          ]
        ]
      ]
    where
      same_dims_eq : (d e : GridDims) → same_dims d e ≡ true → e ≡ d
      same_dims_eq d e h =
          ap₂ (λ r c. record { rows = r; cols = c }) (ground (arith, h)) (ground (arith, h))
