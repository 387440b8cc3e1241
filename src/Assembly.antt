-- ===== src/Assembly.antt =====
-- The assembly of a watershed from catchment geometries (crates/core/src/assembly.rs), over parameters for
-- the polygons and for the cleaning of the dissolved geometry.
pub mod Entries
pub mod Geometries
pub mod Complete
mod Examples
use package.watershed_delineation.Prelude.{
  ℕ, Bool, true, false, not, ◌&&◌, ◌==◌, ltb, Option, none, some, List, [], ◌∷◌, ◌++◌, map, Result,
  ok, err, if◌then◌else◌,
}
use package.watershed_delineation.Prelude.Filters.{filter}
use package.watershed_delineation.Prelude.Calls.{Call, done, fails, ◌>>=◌, of_result, require}

-- A multi-polygon is the list of its polygons `P`, and a decoded row a unit with its geometry.
abbrev pub MultiPolygon : Type 0 → Type 0
MultiPolygon P = List P

abbrev pub Row : Type 0 → Type 0
Row P = ℕ × MultiPolygon P

-- `CatchmentGeometryQueryError`, with the errors `S` of a session and `W` of decoding.
pub data CatchmentGeometryQueryError (S W : Type 0) : Type 0 where
  read : S → CatchmentGeometryQueryError S W
  decode : ℕ → W → CatchmentGeometryQueryError S W

-- `D` are the errors of dissolving, of the topology repair and of the area.
pub data AssemblyError (S W D : Type 0) : Type 0 where
  catchment_query : S → AssemblyError S W D
  missing_catchments : List ℕ → AssemblyError S W D
  duplicate_catchment : ℕ → AssemblyError S W D
  geometry_decode : ℕ → W → AssemblyError S W D
  empty_catchment_geometry empty_refined_terminal_geometry : ℕ → AssemblyError S W D
  dissolving topology_repair area : D → AssemblyError S W D
  empty_assembled_geometry : AssemblyError S W D

pub record AssemblyResult (P K : Type 0) : Type 0 where
  pub geometry : MultiPolygon P
  pub area : K

-- `dissolve`, the two ways to clean its result, `fill_holes` with its mode, and `geodesic_area_multi`; and of
-- the geo crate the parts of a polygon, `Polygon::new` and the two windings of a ring `R`.
pub record Cleaning (P R K D : Type 0) : Type 0 where
  pub into_inner : P → R × List R
  pub new : R → List R → P
  pub make_ccw_winding : R → R
  pub make_cw_winding : R → R
  pub dissolve : List P → Result (MultiPolygon P) D
  pub repair_topology : Option (MultiPolygon P → Result (MultiPolygon P) D)
  pub clean_topology : MultiPolygon P → MultiPolygon P
  pub fill_holes : MultiPolygon P → MultiPolygon P
  pub geodesic_area_multi : MultiPolygon P → Result K D

-- What the assembly reads of `UpstreamUnits`: `terminal()` and `unit_ids()`.
pub record UnitsToAssemble : Type 0 where
  pub terminal : ℕ
  pub unit_ids : List ℕ

-- What the assembly asks of a `CatchmentStore`.
pub record CatchmentStore (P S W : Type 0) : Type 0 where
  pub query_geometries_by_ids : List ℕ → Result (List (Row P)) (CatchmentGeometryQueryError S W)
  pub contains_id : ℕ → Bool

-- A `BTreeMap` is the list of its entries in ascending order. An occupied entry is `none`.
abbrev pub with_first : {V : Type 0} → ℕ × V → Option (List (ℕ × V)) → Option (List (ℕ × V))
with_first entry none = none
with_first entry (some rest) = some (entry ∷ rest)

abbrev pub insert_vacant : {V : Type 0} → ℕ → V → List (ℕ × V) → Option (List (ℕ × V))
insert_vacant key v [] = some ((key, v) ∷ [])
insert_vacant key v (e ∷ entries) =
    let later = insert_vacant key v entries in
    if key == e.0
    then none
    else (if ltb key e.0 then some ((key, v) ∷ e ∷ entries) else with_first e later)

abbrev pub contains_key : {V : Type 0} → List (ℕ × V) → ℕ → Bool
contains_key [] key = false
contains_key (e ∷ entries) key = if key == e.0 then true else contains_key entries key

abbrev pub is_empty : {A : Type 0} → List A → Bool
is_empty [] = true
is_empty (x ∷ xs) = false

module _ {S W D : Type 0} where
  abbrev pub map_geometry_query_error : CatchmentGeometryQueryError S W → AssemblyError S W D
  map_geometry_query_error (read source) = catchment_query source
  map_geometry_query_error (decode id source) = geometry_decode id source

  abbrev pub empty_error : ℕ → Bool → ℕ → AssemblyError S W D
  empty_error terminal refined id =
      if id == terminal && refined
      then empty_refined_terminal_geometry terminal
      else empty_catchment_geometry id

module _ {P : Type 0} where
  abbrev pub is_refined : Option (MultiPolygon P) → Bool
  is_refined none = false
  is_refined (some geometry) = true

  abbrev pub query_ids : UnitsToAssemble → Option (MultiPolygon P) → List ℕ
  query_ids upstream (some geometry) =
      filter (λ id. not (id == upstream.terminal)) upstream.unit_ids
  query_ids upstream none = upstream.unit_ids

  -- `flat_map(|mp| mp.0)`.
  abbrev pub polygons_of : List (MultiPolygon P) → List P
  polygons_of [] = []
  polygons_of (g ∷ geometries) = g ++ polygons_of geometries

-- The winding of crates/core/src/algo/watershed_geometry.rs.
module _ {P R K D : Type 0} (cleaning : Cleaning P R K D) where
  pub normalize_polygon_winding : P → P
  normalize_polygon_winding poly =
      let (exterior, interiors) = cleaning.into_inner poly in
      cleaning.new (cleaning.make_ccw_winding exterior) (map cleaning.make_cw_winding interiors)

  pub into_canonical_multi_polygon : MultiPolygon P → MultiPolygon P
  into_canonical_multi_polygon polygons = map normalize_polygon_winding polygons

module _ {P S W D : Type 0} where
  abbrev pub vacant_or_duplicate :
      ℕ → Option (List (Row P)) → Call (AssemblyError S W D) (List (Row P))
  vacant_or_duplicate id none = fails (duplicate_catchment id)
  vacant_or_duplicate id (some entries) = done entries

  -- The loop of `index_catchments_by_id`, which starts at the empty map.
  abbrev pub index_from : List (Row P) → List (Row P) → Call (AssemblyError S W D) (List (Row P))
  index_from entries [] = done entries
  index_from entries (unit ∷ fetched) =
      vacant_or_duplicate unit.0 (insert_vacant unit.0 unit.1 entries) >>= λ next.
      index_from next fetched

  pub index_catchments_by_id : List (Row P) → Call (AssemblyError S W D) (List (Row P))
  index_catchments_by_id fetched = index_from [] fetched

  -- The refined geometry of the terminal unit, when there is one and the store knows the unit.
  pub override_terminal :
      CatchmentStore P S W
      → ℕ
      → Option (MultiPolygon P)
      → List (Row P)
      → Call (AssemblyError S W D) (List (Row P))
  override_terminal store terminal none entries = done entries
  override_terminal store terminal (some geometry) entries =
      if store.contains_id terminal
      then vacant_or_duplicate terminal (insert_vacant terminal geometry entries)
      else done entries

  -- The loop over the entries.
  pub collect_geometries :
      ℕ → Bool → List (Row P) → Call (AssemblyError S W D) (List (MultiPolygon P))
  collect_geometries terminal refined [] = done []
  collect_geometries terminal refined (e ∷ entries) = do
    _ ← require (not (is_empty e.1)) (empty_error terminal refined e.0)
    geometries ← collect_geometries terminal refined entries
    done (e.1 ∷ geometries)

  abbrev pub with_holes_filled :
      {R K : Type 0}
      → Cleaning P R K D
      → MultiPolygon P
      → Call (AssemblyError S W D) (MultiPolygon P)
  with_holes_filled cleaning dissolved = elim cleaning.repair_topology [
    | some repairer ↦ of_result topology_repair (repairer dissolved) >>= λ repaired.
        done (cleaning.fill_holes repaired)
    | none ↦ done (cleaning.fill_holes (cleaning.clean_topology dissolved))
  ]

  pub assemble_from_geometries :
      {R K : Type 0}
      → Cleaning P R K D
      → List (MultiPolygon P)
      → Call (AssemblyError S W D) (AssemblyResult P K)
  assemble_from_geometries cleaning geometries = do
    dissolved ← of_result dissolving (cleaning.dissolve (polygons_of geometries))
    holes_filled ← with_holes_filled cleaning dissolved
    let geometry = into_canonical_multi_polygon cleaning holes_filled
    _ ← require (not (is_empty geometry)) empty_assembled_geometry
    total ← of_result area (cleaning.geodesic_area_multi geometry)
    done (record { geometry = geometry; area = total })

  pub assemble_watershed :
      {R K : Type 0}
      → CatchmentStore P S W
      → UnitsToAssemble
      → Option (MultiPolygon P)
      → Cleaning P R K D
      → Call (AssemblyError S W D) (AssemblyResult P K)
  assemble_watershed store upstream refined cleaning = do
    fetched ←
        of_result map_geometry_query_error
          (store.query_geometries_by_ids (query_ids upstream refined))
    indexed ← index_catchments_by_id fetched
    unit_map ← override_terminal store upstream.terminal refined indexed
    let missing_ids = filter (λ id. not (contains_key unit_map id)) upstream.unit_ids
    _ ← require (is_empty missing_ids) (missing_catchments missing_ids)
    geometries ← collect_geometries upstream.terminal (is_refined refined) unit_map
    assemble_from_geometries cleaning geometries
