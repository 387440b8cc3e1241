-- ===== src/Raster/Tile/Laws.antt =====
-- Reads of a valid tile do not panic.
use package.watershed_delineation.Prelude.{
  ℕ, ◌*◌, ◌+◌, ◌<◌, ◌≡◌, refl, sym, ◌∙◌, ◌≢◌, lt→ltb, ℕ_discrete, get_elem?-set_self,
  get_elem?-set_ne, ◌⊎◌, inl, inr, Bool-cases, Option, none, some, Outcome, returns, panics, ◌>>=◌,
  or_panic, length, get_elem?, length-set, arith, Bool, true, false, get_or, get_elem?-eq-get_or,
  leb, ltb, if◌then◌else◌, ◌||◌, Result, ok, err, length-replicate, List, ==→≡, ◌==◌,
}
use package.watershed_delineation.Prelude.Int.{ℤ, pos, negsuc}
use package.watershed_delineation.Raster.Grid.{GridCoord, GridDims, Inside, flat, flat-lt, flat_inj}
use package.watershed_delineation.Prelude
use package.watershed_delineation.Raster.Tile
use package.watershed_delineation.Raster.Tile.{RasterTile, IsValid, dims, RasterTileError}

module _ {G T : Type 0} (t : RasterTile G T) where
  -- The value of a cell of a valid tile.
  unfoldable pub value : GridCoord → T
  value p = get_or t.data_vec (flat t.cols p) t.nodata

  pub get-value : IsValid t → (p : GridCoord) → Inside (dims t) p → Tile.get t p ≡ returns (value p)
  unfolding Tile.get value
  get-value v p i =
      rw (get_elem?-eq-get_or t.data_vec (flat t.cols p) t.nodata (rw v.2 (flat-lt (dims t) p i)))

  -- A cell given by signed numbers, if it lies on the tile.
  pub get_checked-value :
      IsValid t
      → (p : GridCoord) → Inside (dims t) p
      → Tile.get_checked t (pos p.row) (pos p.col) ≡ returns (some (value p))
  unfolding Tile.get_checked
  get_checked-value v p i = ground (arith, get-value v p i)

  pub get_checked-cases :
      IsValid t
      → (r c : ℤ)
      → (Tile.get_checked t r c ≡ returns none)
        ⊎ ((p : GridCoord) × Inside (dims t) p × (r ≡ pos p.row) × (c ≡ pos p.col))
  unfolding Tile.get_checked
  get_checked-cases v (negsuc r) c = inl refl
  get_checked-cases v (pos r) (negsuc c) = inl refl
  get_checked-cases v (pos r) (pos c) = elim (Bool-cases (leb t.rows r || leb t.cols c)) [
    | inl off ↦ inl (rw off)
    | inr on ↦ inr (record { row = r; col = c }, ground arith, refl, refl)
  ]

-- What a tile that the constructors accept looks like.
pub from_vec-IsValid :
    {G T : Type 0} (values : List T) (d : GridDims) (nodata : T) (geo : G) (t : RasterTile G T)
    → Tile.from_vec values d nodata geo ≡ ok t
    → IsValid t × (dims t ≡ d) × (t.data_vec ≡ values)
unfolding Tile.from_vec
from_vec-IsValid values d nodata geo t h = ground (arith, h)

pub new-IsValid :
    {G T : Type 0} (d : GridDims) (nodata : T) (geo : G) (t : RasterTile G T)
    → Tile.new d nodata geo ≡ ok t
    → IsValid t × (dims t ≡ d)
unfolding Tile.new
new-IsValid d nodata geo t h = ground (arith, h, length-replicate (d.rows * d.cols) nodata)

-- On a valid tile a write inside succeeds and keeps the tile valid; a later read gives the written
-- value at the same cell and the old value at any other.
pub get-set :
    {G T : Type 0} (t : RasterTile G T) (p q : GridCoord) (v : T)
    → IsValid t
    → Inside (dims t) p
    → Inside (dims t) q
    → (t' : RasterTile G T) × (Tile.set t p v ≡ returns t')
      × IsValid t'
      × (Tile.get t' p ≡ returns v)
      × ((q ≡ p) ⊎ (Tile.get t' q ≡ Tile.get t q))
unfolding Tile.set Tile.get
get-set t p q v valid ip iq =
    let i = flat t.cols p in
    let fits : i < length t.data_vec = rw valid.2 (flat-lt (dims t) p ip) in
    (
      record t { data_vec = Prelude.set t.data_vec i v },
      rw (lt→ltb _ _ fits),
      (valid.0, valid.1, length-set t.data_vec i v ∙ valid.2),
      rw (get_elem?-set_self t.data_vec i v fits),
      elim (ℕ_discrete i (flat t.cols q)) [
        | yes e ↦ inl (sym (flat_inj t.cols p q ip.1 iq.1 e))
        | no ne ↦ inr (rw (get_elem?-set_ne t.data_vec i (flat t.cols q) v ne))
      ],
    )
