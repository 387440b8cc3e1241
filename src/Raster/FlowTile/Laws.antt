-- ===== src/Raster/FlowTile/Laws.antt =====
-- What flow-direction tiles guarantee of their nodata byte and of masking.
use package.watershed_delineation.Prelude.{
  ℕ, zero, suc, ◌*◌, ◌<◌, ◌≡◌, refl, sym, ap, ap₂, ◌∙◌, ◌↔◌, Bool, true, false, Bool-cases, none,
  some, List, [], ◌∷◌, ok, err, Outcome, returns, panics, out_of_fuel, returns_inj, ◌⊎◌, ◌>>=◌,
  length, get_elem?, if◌then◌else◌, ◌==◌, arith, ==→≡, inl, inr, get_or, get_elem?-eq-get_or,
}
use package.watershed_delineation.Raster.Grid.{GridCoord, Inside, flat, flat-lt}
use package.watershed_delineation.Raster.FlowDir.{
  FlowDir, FlowDirEncoding, esri, taudem, grass, from_encoded, Decoded,
}
use package.watershed_delineation.Raster.Tile
use package.watershed_delineation.Raster.Tile.{RasterTile, RasterTileError, dimension_mismatch}
use package.watershed_delineation.Raster.Mask.{CatchmentMask, contains}
use package.watershed_delineation.Raster.FlowTile
use package.watershed_delineation.Raster.FlowTile.{
  FlowDirectionTile, TileState, raw, masked, DecodedFlowCell, direction, terminal, decode, dims,
  mask_cells, apply_mask, from_raw, classify, or_default, is_directional,
}

-- The byte 255 is no direction in any encoding.
nodata_byte-undirected : (e : FlowDirEncoding) → is_directional (from_encoded 255 e) ≡ false
unfolding from_encoded
nodata_byte-undirected esri = refl
nodata_byte-undirected taudem = refl
nodata_byte-undirected grass = refl

-- Two tests that hide only bytes that are no directions leave the same directions.
agree :
    (r : Decoded) (e : FlowDirEncoding) (d : FlowDir) (a b : Bool)
    → (a ≡ true → is_directional r ≡ false)
    → (b ≡ true → is_directional r ≡ false)
    → ((if a then none else or_default r) ≡ some d)
      ↔ ((if b then none else classify r e) ≡ some (direction d))
agree (ok (some d')) e d a b ha hb = ground (arith, ha, hb)
agree (ok none) e d a b ha hb = ground arith
agree (err x) e d a b ha hb = ground arith

-- What `from_raw` has checked.
from_raw-accepts :
    {G : Type 0} (tile : RasterTile G ℕ) (e : FlowDirEncoding) (t : FlowDirectionTile G raw)
    → from_raw tile e ≡ ok t
    → is_directional (from_encoded t.inner.nodata t.encoding) ≡ false
unfolding from_raw
from_raw-accepts tile e t h = ground (arith, h)

-- The two readings of one byte.
readings :
    (nodata : ℕ) (e : FlowDirEncoding) (d : FlowDir) (byte : Outcome ℕ)
    → is_directional (from_encoded nodata e) ≡ false
    → ((byte >>= λ b. returns (decode b e)) ≡ returns (some d)) ↔ (
        (byte >>= λ b. returns (if b == nodata then none else classify (from_encoded b e) e))
        ≡ returns (some (direction d)))
unfolding decode
readings nodata e d (returns b) h =
    let (to, from) =
      agree (from_encoded b e) e d (b == 255) (b == nodata)
        (λ hit. rw (==→≡ b 255 hit) (nodata_byte-undirected e)) (λ hit. rw (==→≡ b nodata hit) h) in
    (λ k. ap returns (to (returns_inj k)), λ k. ap returns (from (returns_inj k)))
readings nodata e d panics h = (λ k. cc, λ k. cc)
readings nodata e d out_of_fuel h = (λ k. cc, λ k. cc)

-- Whatever tile `from_raw` accepts: `get` and `decoded_cell` read the same directions at every
-- cell, although one hides the byte 255 and the other the tile's own nodata byte.
pub get-decoded_cell :
    {G : Type 0} (tile : RasterTile G ℕ) (e : FlowDirEncoding) (t : FlowDirectionTile G raw)
    (p : GridCoord) (d : FlowDir)
    → from_raw tile e ≡ ok t
    → (FlowTile.get t p ≡ returns (some d))
      ↔ (FlowTile.decoded_cell t p ≡ returns (some (direction d)))
unfolding FlowTile.get FlowTile.decoded_cell
get-decoded_cell tile e t p d h =
    readings t.inner.nodata t.encoding d (Tile.get t.inner p) (from_raw-accepts tile e t h)

get_elem?-mask_cells :
    (cells : List ℕ) (keep : List Bool) (i : ℕ)
    → length keep ≡ length cells
    → i < length cells
    → get_elem? (mask_cells cells keep) i
      ≡ some (if get_or keep i false then get_or cells i 0 else 255)
unfolding mask_cells
get_elem?-mask_cells [] keep i e h = absurd (omega arith)
get_elem?-mask_cells (c ∷ cs) [] i e h = absurd (omega arith)
get_elem?-mask_cells (c ∷ cs) (k ∷ keep) zero e h = refl
get_elem?-mask_cells (c ∷ cs) (k ∷ keep) (suc i) e h =
    get_elem?-mask_cells cs keep i (omega arith) (omega arith)

length-mask_cells :
    (cells : List ℕ) (keep : List Bool) → length (mask_cells cells keep) ≡ length cells
unfolding mask_cells
length-mask_cells [] keep = refl
length-mask_cells (c ∷ cs) [] = refl
length-mask_cells (c ∷ cs) (k ∷ keep) = ap suc (length-mask_cells cs keep)

masked_tile : {G : Type 0} → FlowDirectionTile G raw → CatchmentMask → FlowDirectionTile G masked
masked_tile t m =
    let inner = t.inner in
    record {
      inner = record inner { data_vec = mask_cells inner.data_vec m.data_vec };
      encoding = t.encoding;
    }

decode-nodata : (e : FlowDirEncoding) → decode 255 e ≡ none
unfolding decode
decode-nodata e = refl

-- Masking a valid tile by a mask of its own extent succeeds and keeps the tile valid; a cell that
-- the mask holds keeps its direction, and every other cell has none. A mask of another extent is
-- refused.
pub get-apply_mask :
    {G : Type 0} (t : FlowDirectionTile G raw) (m : CatchmentMask)
    → Tile.IsValid t.inner
    → length m.data_vec ≡ m.rows * m.cols
    → ((m.rows ≡ t.inner.rows) × (m.cols ≡ t.inner.cols)
        → (t' : FlowDirectionTile G masked) × (apply_mask t m ≡ ok t')
          × Tile.IsValid t'.inner
          × ((p : GridCoord)
              → Inside (dims t) p
              → ((contains m p ≡ returns true) × (FlowTile.get t' p ≡ FlowTile.get t p))
                ⊎ ((contains m p ≡ returns false) × (FlowTile.get t' p ≡ returns none))))
      × (¬ ((m.rows ≡ t.inner.rows) × (m.cols ≡ t.inner.cols))
          → apply_mask t m
            ≡ err (
                dimension_mismatch
                  (t.inner.rows * t.inner.cols)
                  t.inner.rows
                  t.inner.cols
                  (m.rows * m.cols)))
unfolding apply_mask FlowTile.get Tile.get contains masked_tile
get-apply_mask t m valid size = (
  λ (er, ec). (
    masked_tile t m,
    ground arith,
    (valid.0, valid.1, length-mask_cells t.inner.data_vec m.data_vec ∙ valid.2),
    λ p ip.
        let i = flat t.inner.cols p in
        let inside : i < length t.inner.data_vec = rw valid.2 (flat-lt (dims t) p ip) in
        let sizes : length m.data_vec ≡ length t.inner.data_vec =
          size ∙ ap₂ ◌*◌ er ec ∙ sym valid.2 in
        let flag = get_elem?-eq-get_or m.data_vec i false (rw sizes inside) in
        let byte = get_elem?-mask_cells t.inner.data_vec m.data_vec i sizes inside in
        elim (Bool-cases (get_or m.data_vec i false)) [
          | inl keep ↦ inl (
            rw (ec, flag, keep),
            rw (byte, keep, get_elem?-eq-get_or t.inner.data_vec i 0 inside),
          )
          | inr drop ↦ inr (rw (ec, flag, drop), rw (byte, drop, decode-nodata t.encoding))
        ],
  ),
  λ ne. ground arith,
)
