-- ===== src/Canonical/Vertices/Reordered.antt =====
-- The canonical bytes of a multi-polygon whose polygons and holes stand in another order.
use package.watershed_delineation.Prelude.{
  ◌≡◌, refl, sym, ap, ap₂, subst, ◌∙◌, List, [], ◌∷◌, ◌++◌, ◌∈◌, map, returns,
}
use package.watershed_delineation.Prelude.Filters.{mem-map}
use package.watershed_delineation.Prelude.Sorting.{sort_by, mem-sort_by}
use package.watershed_delineation.Prelude.Reorder.{sort_by-Permᴰ}
use package.watershed_delineation.Canonical.{
  RoundedCoord, CanonicalRing, CanonicalPolygon, RingOrientation, exterior_ring, hole_ring,
  but_last, compare_ring, compare_polygon,
}
use package.watershed_delineation.Canonical.Vertices.{
  opened, oriented, closed, normalize_ring, normalize_holes, normalize_polygon, normalize_polygons,
  into_polygon, canonical_wkb_multi_polygon,
}
use package.watershed_delineation.Canonical.Orders.{
  coord_order, IsClosed, compare_ring-IsPreorder, compare_ring-eq, compare_polygon-IsPreorder,
  compare_polygon-eq,
}
use package.watershed_delineation.Canonical.Rotation.Invariance.{rotate_to_total_order_start-append}
use mathlib.Core.List.{Permᴰ}
use Prim.Native.Nat.{Ordering}

but_last-append : (vs : List RoundedCoord) (v : RoundedCoord) → but_last (vs ++ v ∷ []) ≡ vs
but_last-append [] v = refl
but_last-append (w ∷ []) v = refl
but_last-append (w ∷ u ∷ vs) v = ap (λ xs. w ∷ xs) (but_last-append (u ∷ vs) v)

closed-IsClosed : (vs : List RoundedCoord) → IsClosed (record { vertices = closed vs })
closed-IsClosed [] = refl
closed-IsClosed (v ∷ vs) = ap closed (sym (but_last-append (v ∷ vs) v))

module _ {C : Type 0} (from_coord : C → RoundedCoord) where
  normalize_ring-IsClosed :
      (ring : List C) (orientation : RingOrientation)
      → (r : CanonicalRing) × (normalize_ring from_coord ring orientation ≡ returns r) × IsClosed r
  unfolding normalize_ring
  normalize_ring-IsClosed ring orientation =
      let (w, _, e, _) =
        rotate_to_total_order_start-append coord_order
          (oriented orientation (opened (map from_coord ring))) [] in
      (record { vertices = closed w }, rw e refl, closed-IsClosed w)

  abbrev hole_of : List C → CanonicalRing
  hole_of ring = (normalize_ring-IsClosed ring hole_ring).0

  abbrev polygon_of : List C × List (List C) → CanonicalPolygon
  polygon_of polygon = record {
    exterior = (normalize_ring-IsClosed polygon.0 exterior_ring).0;
    holes = sort_by compare_ring (map hole_of polygon.1);
  }

  normalize_holes-map :
      (rings : List (List C)) → normalize_holes from_coord rings ≡ returns (map hole_of rings)
  unfolding normalize_holes
  normalize_holes-map [] = refl
  normalize_holes-map (ring ∷ rings) =
      rw ((normalize_ring-IsClosed ring hole_ring).1, normalize_holes-map rings) refl

  normalize_polygons-map :
      (polygons : List (List C × List (List C)))
      → normalize_polygons from_coord polygons ≡ returns (map polygon_of polygons)
  unfolding normalize_polygons normalize_polygon
  normalize_polygons-map [] = refl
  normalize_polygons-map (polygon ∷ polygons) =
      rw
        (
          (normalize_ring-IsClosed polygon.0 exterior_ring).1,
          normalize_holes-map polygon.1,
          normalize_polygons-map polygons,
        )
        refl

  hole_of-eq :
      (a b : List C) → compare_ring (hole_of a) (hole_of b) ≡ Ordering.eq → hole_of a ≡ hole_of b
  hole_of-eq a b =
      compare_ring-eq (hole_of a) (hole_of b) (normalize_ring-IsClosed a hole_ring).2
        (normalize_ring-IsClosed b hole_ring).2

  holes-IsClosed :
      (rings : List (List C)) (r : CanonicalRing)
      → r ∈ sort_by compare_ring (map hole_of rings)
      → IsClosed r
  holes-IsClosed rings r m =
      let (ring, _, e) =
        mem-map hole_of r rings ((mem-sort_by compare_ring r (map hole_of rings)).0 m) in
      subst IsClosed e (normalize_ring-IsClosed ring hole_ring).2

  polygon_of-eq :
      (a b : List C × List (List C))
      → compare_polygon (polygon_of a) (polygon_of b) ≡ Ordering.eq
      → polygon_of a ≡ polygon_of b
  polygon_of-eq a b =
      compare_polygon-eq (polygon_of a) (polygon_of b) (normalize_ring-IsClosed a.0 exterior_ring).2
        (normalize_ring-IsClosed b.0 exterior_ring).2 (holes-IsClosed a.1) (holes-IsClosed b.1)

  -- The same polygons one by one, each with its holes in any order.
  abbrev pub SamePolygons : List (List C × List (List C)) → List (List C × List (List C)) → Type 0
  SamePolygons [] [] = Unit
  SamePolygons [] (q ∷ qs) = ⊥
  SamePolygons (p ∷ ps) [] = ⊥
  SamePolygons (p ∷ ps) (q ∷ qs) = (p.0 ≡ q.0) × Permᴰ p.1 q.1 × SamePolygons ps qs

  SamePolygons-eq :
      (ps qs : List (List C × List (List C)))
      → SamePolygons ps qs
      → map polygon_of ps ≡ map polygon_of qs
  SamePolygons-eq [] [] h = refl
  SamePolygons-eq [] (q ∷ qs) h = absurd h
  SamePolygons-eq (p ∷ ps) [] h = absurd h
  SamePolygons-eq (p ∷ ps) (q ∷ qs) (e, d, h) =
      ap₂ (λ r rs. r ∷ rs)
        (ap₂ (λ r rs. record { exterior = r; holes = rs })
          (ap (λ ring. (normalize_ring-IsClosed ring exterior_ring).0) e)
          (sort_by-Permᴰ compare_ring compare_ring-IsPreorder hole_of hole_of-eq d))
        (SamePolygons-eq ps qs h)

  -- On integers without bounds, the canonical form is computed without a panic, and is the same for polygons in
  -- another order, each with its holes in another order.
  pub canonical_wkb_multi_polygon-SamePolygons :
      {B : Type 0} (into_coord : RoundedCoord → C)
      (encode_wkb_multi_polygon : List (List C × List (List C)) → B)
      (mp middle other : List (List C × List (List C)))
      → SamePolygons mp middle
      → Permᴰ middle other
      → (bytes : B) × (canonical_wkb_multi_polygon from_coord into_coord encode_wkb_multi_polygon mp
          ≡ returns bytes)
        × (canonical_wkb_multi_polygon from_coord into_coord encode_wkb_multi_polygon other
            ≡ returns bytes)
  unfolding canonical_wkb_multi_polygon
  canonical_wkb_multi_polygon-SamePolygons into_coord encode_wkb_multi_polygon mp middle other h d =
      let same : sort_by compare_polygon (map polygon_of other)
          ≡ sort_by compare_polygon (map polygon_of mp) =
        sym (
          ap (sort_by compare_polygon) (SamePolygons-eq mp middle h)
          ∙ sort_by-Permᴰ compare_polygon compare_polygon-IsPreorder polygon_of polygon_of-eq d) in
      (
        encode_wkb_multi_polygon (
            map (into_polygon from_coord into_coord) (sort_by compare_polygon (map polygon_of mp))),
        rw (normalize_polygons-map mp) refl,
        rw (normalize_polygons-map other) (
            ap
              (λ l. returns (encode_wkb_multi_polygon (map (into_polygon from_coord into_coord) l)))
              same),
      )
