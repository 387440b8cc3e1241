-- ===== src/Canonical/Examples.antt =====
-- The theorems on rings and polygons at small ones.
use package.watershed_delineation.Prelude.{ℕ, ◌≡◌, refl, List, [], ◌∷◌, ◌++◌, returns, ◌+◌}
use package.watershed_delineation.Prelude.Int.{pos, negsuc}
use package.watershed_delineation.Canonical.{RoundedCoord, compare_coord}
use package.watershed_delineation.Canonical.Orders.{coord_order}
use package.watershed_delineation.Canonical.Vertices.{canonical_wkb_multi_polygon}
use package.watershed_delineation.Canonical.Vertices.Reordered.{
  canonical_wkb_multi_polygon-SamePolygons,
}
use package.watershed_delineation.Canonical.Rotation.{rotate_to_total_order_start}
use package.watershed_delineation.Canonical.Rotation.Sequences.{rotated}
use package.watershed_delineation.Canonical.Rotation.Invariance.{rotate_to_total_order_start-append}
use mathlib.Core.List.{Permᴰ}

abbrev east_side : List RoundedCoord
east_side = record { x = pos 1; y = pos 0 } ∷ record { x = pos 1; y = pos 1 } ∷ []

abbrev west_side : List RoundedCoord
west_side = record { x = negsuc 0; y = pos 1 } ∷ record { x = negsuc 0; y = pos 0 } ∷ []

rotate_to_total_order_start-append_example :
    (w : List RoundedCoord) × (rotate_to_total_order_start compare_coord (east_side ++ west_side)
      ≡ returns w)
    × (rotate_to_total_order_start compare_coord (west_side ++ east_side) ≡ returns w)
    × ((i : ℕ) × (w ≡ rotated i (east_side ++ west_side)))
rotate_to_total_order_start-append_example =
    rotate_to_total_order_start-append coord_order east_side west_side

-- A square of the given size with its lower corner at the given place on the diagonal.
abbrev square : ℕ → ℕ → List RoundedCoord
square at size =
    record { x = pos at; y = pos at }
    ∷ record { x = pos (at + size); y = pos at }
    ∷ record { x = pos (at + size); y = pos (at + size) }
    ∷ record { x = pos at; y = pos (at + size) }
    ∷ []

abbrev Polygon : Type 0
Polygon = List RoundedCoord × List (List RoundedCoord)

abbrev polygons : List Polygon
polygons = (square 0 9, square 1 2 ∷ square 5 2 ∷ []) ∷ (square 20 3, []) ∷ []

abbrev reordered : List Polygon
reordered = (square 20 3, []) ∷ (square 0 9, square 5 2 ∷ square 1 2 ∷ []) ∷ []

canonical_wkb_multi_polygon-SamePolygons_example :
    (bytes : List Polygon) × (canonical_wkb_multi_polygon (λ c. c) (λ c. c) (λ l. l) polygons
      ≡ returns bytes)
    × (canonical_wkb_multi_polygon (λ c. c) (λ c. c) (λ l. l) reordered ≡ returns bytes)
canonical_wkb_multi_polygon-SamePolygons_example =
    canonical_wkb_multi_polygon-SamePolygons (λ c. c) (λ c. c) (λ l. l) polygons
      ((square 0 9, square 5 2 ∷ square 1 2 ∷ []) ∷ (square 20 3, []) ∷ []) reordered
      (refl, Permᴰ.swap refl refl, (refl, Permᴰ.nil, tt)) (Permᴰ.swap refl refl)
