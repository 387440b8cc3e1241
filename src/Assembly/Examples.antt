-- ===== src/Assembly/Examples.antt =====
-- The theorem on assembly at a small store.
use package.watershed_delineation.Prelude.{
  ℕ, ◌≡◌, ◌≢◌, refl, ◌⊎◌, ◌↔◌, true, Option, none, some, List, [], ◌∷◌, ◌∈◌, length, ok, ◌+◌,
}
use package.watershed_delineation.Prelude.Calls.{done}
use package.watershed_delineation.Assembly.{
  MultiPolygon, Row, Cleaning, UnitsToAssemble, CatchmentStore, index_catchments_by_id,
  override_terminal, collect_geometries, normalize_polygon_winding, into_canonical_multi_polygon,
  assemble_from_geometries, assemble_watershed,
}
use package.watershed_delineation.Assembly.Complete.{FromQuery, assemble_watershed-FromEntries}

abbrev rows : List (Row ℕ)
rows = (7, 70 ∷ []) ∷ (3, 30 ∷ 31 ∷ []) ∷ []

abbrev store : CatchmentStore ℕ (Unit {0}) (Unit {0})
store = record { query_geometries_by_ids = λ ids. ok rows; contains_id = λ id. true }

abbrev upstream : UnitsToAssemble
upstream = record { terminal = 5; unit_ids = 5 ∷ 7 ∷ 3 ∷ [] }

abbrev refined : Option (MultiPolygon ℕ)
refined = some (50 ∷ [])

-- A polygon is the number of its exterior ring, and winding a ring adds 100 to its number.
abbrev cleaning : Cleaning ℕ ℕ ℕ (Unit {0})
cleaning = record {
  into_inner = λ polygon. (polygon, []);
  new = λ exterior interiors. exterior;
  make_ccw_winding = λ ring. ring + 100;
  make_cw_winding = λ ring. ring;
  dissolve = λ polygons. ok polygons;
  repair_topology = none;
  clean_topology = λ geometry. geometry;
  fill_holes = λ geometry. geometry;
  geodesic_area_multi = λ geometry. ok (length geometry);
}

assembled :
    assemble_watershed store upstream refined cleaning
    ≡ done (record { geometry = 130 ∷ 131 ∷ 150 ∷ 170 ∷ []; area = 4 })
unfolding assemble_watershed index_catchments_by_id override_terminal collect_geometries
    normalize_polygon_winding into_canonical_multi_polygon assemble_from_geometries
assembled = refl

assemble_watershed-FromEntries_example :
    (ids : List ℕ) × ((k : ℕ) → (k ∈ ids) ↔ ((k ∈ 5 ∷ 7 ∷ 3 ∷ []) × ((refined ≡ none) ⊎ (k ≢ 5))))
    × FromQuery store upstream refined cleaning ids
        (assemble_watershed store upstream refined cleaning)
assemble_watershed-FromEntries_example =
    assemble_watershed-FromEntries store upstream refined cleaning
