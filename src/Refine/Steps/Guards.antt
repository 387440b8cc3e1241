-- ===== src/Refine/Steps/Guards.antt =====
-- The guard of a vector point, on every branch.
use package.watershed_delineation.Prelude.{
  ℕ, ◌<◌, ◌*◌, ◌≡◌, refl, sym, ap, subst, ◌⊎◌, inl, inr, Bool, true, false, Bool-cases, Option,
  none, some, returns, ◌>>=◌, ◌==◌, if◌then◌else◌, length, get_or, get_elem?-eq-get_or, arith,
}
use package.watershed_delineation.Prelude.Floats.{Floats}
use package.watershed_delineation.Prelude.Calls.{Call, done, fails}
use package.watershed_delineation.Raster.Grid.{GridCoord, GridDims, Inside, flat, flat-lt}
use package.watershed_delineation.Raster.FlowTile
use package.watershed_delineation.Raster.FlowDir.{from_encoded}
use package.watershed_delineation.Raster.FlowTile.{
  FlowDirectionTile, DecodedFlowCell, classify, raw, dims,
}
use package.watershed_delineation.Raster.AccTile
use package.watershed_delineation.Raster.AccTile.{AccumulationTile, SnapThreshold, defined}
use package.watershed_delineation.Raster.Tile
use package.watershed_delineation.Raster.Tile.Laws.{value, get-value}
use package.watershed_delineation.Raster.Mask.{CatchmentMask, contains, mask_dims}
use package.watershed_delineation.Geo.{
  NativeCoord, GeoTransform, pixel_to_coord, coord_to_pixel_f64,
}
use package.watershed_delineation.Seed.{
  FlowAccumulationUnits, SnappedPoint, is_outside, quantize_grid_cell,
}
use package.watershed_delineation.Refine.{
  VectorOutletGuardFailureKind, grid_mapping, outside_terminal_mask, undefined_flow_direction,
  undefined_accumulation, below_threshold, RefinementError, Rasters,
}
use package.watershed_delineation.Refine.Steps.{is_defined, unusable, guarded_seed}

-- `floor() as usize` of a number in `0 .. n` is below `n`.
abbrev pub FloorsBelow : {F : Type 0} → Floats F → Type 0
FloorsBelow {F = F} fl =
    (x : F) (n : ℕ)
    → fl.is_finite x ≡ true
    → fl.less x (fl.literal 0 0) ≡ false
    → fl.at_most (fl.of_nat n) x ≡ false
    → fl.floor_nat x < n

module _ {F : Type 0} (fl : Floats F) where
  abbrev pub mapped_cell : F × F → GridCoord
  mapped_cell frac = record { row = fl.floor_nat frac.0; col = fl.floor_nat frac.1 }

  pub mapped_cell-Inside :
      FloorsBelow fl
      → (frac : F × F) (d : GridDims) → is_outside fl frac d ≡ false
      → Inside d (mapped_cell frac)
  mapped_cell-Inside floors frac d inside = (
    floors frac.0 d.rows (ground (arith, inside)) (ground (arith, inside)) (ground (arith, inside)),
    floors frac.1 d.cols (ground (arith, inside)) (ground (arith, inside)) (ground (arith, inside)),
  )

pub contains-flag :
    (m : CatchmentMask) (p : GridCoord)
    → length m.data_vec ≡ m.rows * m.cols
    → Inside (mask_dims m) p
    → (b : Bool) × (contains m p ≡ returns b)
unfolding contains
contains-flag m p size i = (
  get_or m.data_vec (flat m.cols p) false,
  rw (get_elem?-eq-get_or m.data_vec (flat m.cols p) false (rw size (flat-lt (mask_dims m) p i)))
      refl,
)

pub decoded_cell-total :
    {G : Type 0} (t : FlowDirectionTile G raw) (p : GridCoord)
    → Tile.IsValid t.inner
    → Inside (dims t) p
    → (o : Option DecodedFlowCell) × (FlowTile.decoded_cell t p ≡ returns o)
unfolding FlowTile.decoded_cell
decoded_cell-total t p valid i =
    let read : (b : ℕ) × (Tile.get t.inner p ≡ returns b) =
      (value t.inner p, get-value t.inner valid p i) in
    go read.0 read.1
  where
    go :
        (b : ℕ)
        → Tile.get t.inner p ≡ returns b
        → (o : Option DecodedFlowCell) × (FlowTile.decoded_cell t p ≡ returns o)
    go b e = (
      _,
      ap
          (λ k. k >>= λ raw_byte. returns (
            if raw_byte == t.inner.nodata
            then none
            else classify (from_encoded raw_byte t.encoding) t.encoding))
          e,
    )

module _ {F A Shape L P : Type 0} (fl : Floats F) (fs : Floats A) (rasters : Rasters F A Shape)
    (threshold : SnapThreshold) (units : FlowAccumulationUnits) (epsg : ℕ) (vector : NativeCoord F)
    (flow_dir : FlowDirectionTile (GeoTransform F) raw)
    (accumulation : AccumulationTile (GeoTransform F) A raw) (mask : CatchmentMask)
    (least : A) where
  abbrev refusal :
      VectorOutletGuardFailureKind
      → Option GridCoord
      → Option A
      → Call (RefinementError F A L P) (SnappedPoint F A)
  refusal kind mapped measured =
      fails (unusable fl fs rasters threshold units epsg least kind mapped measured)

  -- The guards after the mapping to a cell, in their order.
  abbrev pub Guarded :
      GridCoord
      → Bool
      → Option DecodedFlowCell
      → A
      → Call (RefinementError F A L P) (SnappedPoint F A)
      → Type 0
  Guarded cell inside decoded v call =
      ((inside ≡ false) × (call ≡ refusal outside_terminal_mask (some cell) (defined fs v)))
      ⊎ ((inside ≡ true)
          × (decoded ≡ none)
          × (call ≡ refusal undefined_flow_direction (some cell) (defined fs v)))
      ⊎ ((inside ≡ true)
          × (is_defined decoded ≡ true)
          × (fs.is_nan v ≡ true)
          × (call ≡ refusal undefined_accumulation (some cell) none))
      ⊎ ((inside ≡ true)
          × (is_defined decoded ≡ true)
          × (fs.is_nan v ≡ false)
          × (fs.less v least ≡ true)
          × (call ≡ refusal below_threshold (some cell) (some v)))
      ⊎ ((inside ≡ true)
          × (is_defined decoded ≡ true)
          × (fs.is_nan v ≡ false)
          × (fs.less v least ≡ false)
          × (call
              ≡ done (record {
                cell = cell;
                coord = pixel_to_coord fl flow_dir.inner.geo cell;
                accumulation = v;
              })))

  guards :
      (inside : Bool) (decoded : Option DecodedFlowCell) (v : A)
      → let frac = coord_to_pixel_f64 fl flow_dir.inner.geo vector in
        let cell = mapped_cell fl frac in
        is_outside fl frac (dims flow_dir) ≡ false
        → contains mask cell ≡ returns inside
        → FlowTile.decoded_cell flow_dir cell ≡ returns decoded
        → AccTile.get_raw accumulation cell ≡ returns v
        → Guarded cell inside decoded v (
            guarded_seed fl fs rasters threshold units epsg vector flow_dir accumulation mask least)
  unfolding guarded_seed quantize_grid_cell AccTile.get
  guards false decoded v on flag seen read = inl (refl, rw (on, flag, read) refl)
  guards true none v on flag seen read = inr (inl (refl, refl, rw (on, flag, read, seen) refl))
  guards true (some d) v on flag seen read = elim (Bool-cases (fs.is_nan v)) [
    | inl bad ↦ inr (inr (inl (refl, refl, bad, rw (on, flag, read, seen, bad) refl)))
    | inr good ↦ elim (Bool-cases (fs.less v least)) [
      | inl low ↦
          inr (inr (inr (inl (refl, refl, good, low, rw (on, flag, read, seen, good, low) refl))))
      | inr enough ↦
          inr (
            inr
              (inr (inr (refl, refl, good, enough, rw (on, flag, read, seen, good, enough) refl))))
    ]
  ]

  -- On valid tiles and a mask of one extent, each guard that fails first gives its own failure, and a point that
  -- passes all of them is the seed.
  pub guarded_seed-Guarded :
      Tile.IsValid flow_dir.inner
      → Tile.IsValid accumulation.inner
      → AccTile.dims accumulation ≡ dims flow_dir
      → mask_dims mask ≡ dims flow_dir
      → length mask.data_vec ≡ mask.rows * mask.cols
      → FloorsBelow fl
      → let frac = coord_to_pixel_f64 fl flow_dir.inner.geo vector in
        let cell = mapped_cell fl frac in
        let call =
          guarded_seed fl fs rasters threshold units epsg vector flow_dir accumulation mask least in
        ((is_outside fl frac (dims flow_dir) ≡ true) × (call ≡ refusal grid_mapping none none))
        ⊎ ((is_outside fl frac (dims flow_dir) ≡ false)
            × Inside (dims flow_dir) cell
            × ((inside : Bool) × (decoded : Option DecodedFlowCell) × (v : A) × (contains mask cell
                  ≡ returns inside)
                × (FlowTile.decoded_cell flow_dir cell ≡ returns decoded)
                × (AccTile.get_raw accumulation cell ≡ returns v)
                × Guarded cell inside decoded v call))
  unfolding guarded_seed quantize_grid_cell AccTile.get
  guarded_seed-Guarded vf va same_acc same_mask size floors =
      let frac = coord_to_pixel_f64 fl flow_dir.inner.geo vector in
      let cell = mapped_cell fl frac in
      elim (Bool-cases (is_outside fl frac (dims flow_dir))) [
        | inl off ↦ inl (off, rw off refl)
        | inr on ↦
            let i = mapped_cell-Inside fl floors frac (dims flow_dir) on in
            let (inside, flag) =
              contains-flag mask cell size (subst (λ d. Inside d cell) (sym same_mask) i) in
            let (decoded, seen) = decoded_cell-total flow_dir cell vf i in
            let v = value accumulation.inner cell in
            let read =
              get-value accumulation.inner va cell (subst (λ d. Inside d cell) (sym same_acc) i) in
            inr (
              on,
              i,
              (inside, decoded, v, flag, seen, read, guards inside decoded v on flag seen read),
            )
      ]
