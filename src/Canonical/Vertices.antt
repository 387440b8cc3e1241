-- ===== src/Canonical/Vertices.antt =====
-- Normalizing rings and polygons (crates/core/src/algo/canonical_wkb.rs).
pub mod Reordered
use package.watershed_delineation.Prelude.{
  Bool, true, false, List, [], ◌∷◌, ◌++◌, map, Outcome, returns, ◌>>=◌, if◌then◌else◌,
}
use package.watershed_delineation.Prelude.Int.{pos, compare_ℤ}
use package.watershed_delineation.Prelude.Sorting.{sort_by}
use package.watershed_delineation.Canonical.{
  RoundedCoord, compare_coord, CanonicalRing, CanonicalPolygon, RingOrientation, exterior_ring,
  hole_ring, but_last, signed_area_twice, compare_ring, compare_polygon,
}
use package.watershed_delineation.Canonical.Rotation.{rotate_to_total_order_start}
use Prim.Native.Nat.{Ordering}

abbrev is_eq : Ordering → Bool
is_eq Ordering.lt = false
is_eq Ordering.eq = true
is_eq Ordering.gt = false

abbrev last_or : RoundedCoord → List RoundedCoord → RoundedCoord
last_or v [] = v
last_or v (w ∷ vs) = last_or w vs

-- `if vertices.first() == vertices.last()`, the last vertex goes.
abbrev pub opened : List RoundedCoord → List RoundedCoord
opened [] = []
opened (v ∷ vs) = if is_eq (compare_coord v (last_or v vs)) then but_last (v ∷ vs) else v ∷ vs

abbrev pub reversed : List RoundedCoord → List RoundedCoord
reversed [] = []
reversed (v ∷ vs) = reversed vs ++ v ∷ []

abbrev is_turned : RingOrientation → Ordering → Bool
is_turned exterior_ring Ordering.lt = true
is_turned exterior_ring Ordering.eq = false
is_turned exterior_ring Ordering.gt = false
is_turned hole_ring Ordering.lt = false
is_turned hole_ring Ordering.eq = false
is_turned hole_ring Ordering.gt = true

abbrev pub oriented : RingOrientation → List RoundedCoord → List RoundedCoord
oriented orientation vertices =
    if is_turned orientation (compare_ℤ (signed_area_twice vertices) (pos 0))
    then reversed vertices
    else vertices

-- The first vertex once more at the end.
abbrev pub closed : List RoundedCoord → List RoundedCoord
closed [] = []
closed (v ∷ vs) = (v ∷ vs) ++ v ∷ []

module _ {C : Type 0} (from_coord : C → RoundedCoord) where
  pub normalize_ring : List C → RingOrientation → Outcome CanonicalRing
  normalize_ring ring orientation =
      rotate_to_total_order_start compare_coord
        (oriented orientation (opened (map from_coord ring)))
      >>= λ vertices. returns (record { vertices = closed vertices })

  pub normalize_holes : List (List C) → Outcome (List CanonicalRing)
  normalize_holes [] = returns []
  normalize_holes (ring ∷ rings) = do
    hole ← normalize_ring ring hole_ring
    holes ← normalize_holes rings
    returns (hole ∷ holes)

  -- A polygon is its exterior and its interiors.
  pub normalize_polygon : List C × List (List C) → Outcome CanonicalPolygon
  normalize_polygon polygon = do
    exterior ← normalize_ring polygon.0 exterior_ring
    holes ← normalize_holes polygon.1
    returns (record { exterior = exterior; holes = sort_by compare_ring holes })

  pub normalize_polygons : List (List C × List (List C)) → Outcome (List CanonicalPolygon)
  normalize_polygons [] = returns []
  normalize_polygons (polygon ∷ polygons) = do
    normalized ← normalize_polygon polygon
    rest ← normalize_polygons polygons
    returns (normalized ∷ rest)

  abbrev pub into_line_string : (RoundedCoord → C) → CanonicalRing → List C
  into_line_string into_coord ring = map into_coord ring.vertices

  abbrev pub into_polygon : (RoundedCoord → C) → CanonicalPolygon → List C × List (List C)
  into_polygon into_coord polygon = (
    into_line_string into_coord polygon.exterior,
    map (into_line_string into_coord) polygon.holes,
  )

  -- The encoder is a parameter.
  pub canonical_wkb_multi_polygon :
      {B : Type 0}
      → (RoundedCoord → C)
      → (List (List C × List (List C)) → B)
      → List (List C × List (List C))
      → Outcome B
  canonical_wkb_multi_polygon into_coord encode_wkb_multi_polygon mp =
      normalize_polygons mp >>= λ polygons.
      returns (
        encode_wkb_multi_polygon (map (into_polygon into_coord) (sort_by compare_polygon polygons)))
