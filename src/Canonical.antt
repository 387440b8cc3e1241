-- ===== src/Canonical.antt =====
-- The canonical form of polygons (crates/core/src/algo/canonical_wkb.rs): rings of rounded coordinates, over
-- parameters for the rounding and for the encoder. Integers are not bounded here; the source has `i64`
-- coordinates and `i128` areas.
pub mod Rotation
pub mod Vertices
pub mod Orders
mod Examples
use package.watershed_delineation.Prelude.{
  ℕ, suc, Bool, true, false, ◌&&◌, Option, none, some, List, [], ◌∷◌, ◌++◌, map, length, take,
  Outcome, returns, panics, out_of_fuel, ◌>>=◌, if◌then◌else◌, ltb,
}
use package.watershed_delineation.Prelude.Int.{ℤ, pos, negsuc, ◌+ℤ◌, ◌-ℤ◌, ◌*ℤ◌, abs_ℤ, compare_ℤ}
use package.watershed_delineation.Prelude.Order.{then_with, nat_order}
use package.watershed_delineation.Prelude.Sorting.{sort_by}
use package.watershed_delineation.Canonical.Rotation.{rotate_to_total_order_start}
use Prim.Native.Nat.{Ordering}

pub record RoundedCoord : Type 0 where
  pub x : ℤ
  pub y : ℤ

-- The derived order, by `x` and then by `y`.
abbrev pub compare_coord : RoundedCoord → RoundedCoord → Ordering
compare_coord a b = then_with (compare_ℤ a.x b.x) (compare_ℤ a.y b.y)

-- The derived order of lists: the first elements that differ, and then the lengths.
abbrev pub compare_lists : {A : Type 0} → (A → A → Ordering) → List A → List A → Ordering
compare_lists cmp [] [] = Ordering.eq
compare_lists cmp [] (r ∷ rs) = Ordering.lt
compare_lists cmp (l ∷ ls) [] = Ordering.gt
compare_lists cmp (l ∷ ls) (r ∷ rs) = then_with (cmp l r) (compare_lists cmp ls rs)

pub record CanonicalRing : Type 0 where
  pub vertices : List RoundedCoord

pub record RingBbox : Type 0 where
  pub min_x : ℤ
  pub min_y : ℤ
  pub max_x : ℤ
  pub max_y : ℤ

pub record CanonicalPolygon : Type 0 where
  pub exterior : CanonicalRing
  pub holes : List CanonicalRing

pub data RingOrientation : Type 0 where
  exterior_ring hole_ring : RingOrientation

-- `split_last`: all vertices but the last.
abbrev pub but_last : List RoundedCoord → List RoundedCoord
but_last [] = []
but_last (v ∷ []) = []
but_last (v ∷ w ∷ vs) = v ∷ but_last (w ∷ vs)

abbrev pub open_vertices : CanonicalRing → List RoundedCoord
open_vertices ring = but_last ring.vertices

abbrev pub smaller_ℤ : ℤ → ℤ → ℤ
smaller_ℤ a b = elim (compare_ℤ a b) [ Ordering.lt ↦ a | Ordering.eq ↦ a | Ordering.gt ↦ b ]

abbrev pub larger_ℤ : ℤ → ℤ → ℤ
larger_ℤ a b = elim (compare_ℤ a b) [ Ordering.lt ↦ b | Ordering.eq ↦ a | Ordering.gt ↦ a ]

abbrev pub empty_bbox : RingBbox
empty_bbox = record {
  min_x = pos 9223372036854775807;
  min_y = pos 9223372036854775807;
  max_x = negsuc 9223372036854775807;
  max_y = negsuc 9223372036854775807;
}

abbrev pub include : RingBbox → RoundedCoord → RingBbox
include b coord = record {
  min_x = smaller_ℤ b.min_x coord.x;
  min_y = smaller_ℤ b.min_y coord.y;
  max_x = larger_ℤ b.max_x coord.x;
  max_y = larger_ℤ b.max_y coord.y;
}

abbrev pub include_all : RingBbox → List RoundedCoord → RingBbox
include_all b [] = b
include_all b (v ∷ vs) = include_all (include b v) vs

pub bbox : CanonicalRing → RingBbox
bbox ring = include_all empty_bbox (open_vertices ring)

abbrev pub compare_bbox : RingBbox → RingBbox → Ordering
compare_bbox a b = then_with (compare_ℤ a.min_x b.min_x) (
    then_with (compare_ℤ a.min_y b.min_y)
      (then_with (compare_ℤ a.max_x b.max_x) (compare_ℤ a.max_y b.max_y)))

-- The terms of each vertex and the next, the first vertex standing after the last.
abbrev pub cross_terms : RoundedCoord → List RoundedCoord → ℤ
cross_terms first [] = pos 0
cross_terms first (v ∷ []) = (v.x *ℤ first.y) -ℤ (first.x *ℤ v.y)
cross_terms first (v ∷ w ∷ vs) = ((v.x *ℤ w.y) -ℤ (w.x *ℤ v.y)) +ℤ cross_terms first (w ∷ vs)

pub signed_area_twice : List RoundedCoord → ℤ
signed_area_twice [] = pos 0
signed_area_twice (v ∷ vs) = if ltb (length (v ∷ vs)) 3 then pos 0 else cross_terms v (v ∷ vs)

abbrev pub hole_areas : List CanonicalRing → ℤ
hole_areas [] = pos 0
hole_areas (h ∷ hs) = abs_ℤ (signed_area_twice (open_vertices h)) +ℤ hole_areas hs

pub area_twice : CanonicalPolygon → ℤ
area_twice polygon =
    abs_ℤ (signed_area_twice (open_vertices polygon.exterior)) -ℤ hole_areas polygon.holes

pub compare_ring : CanonicalRing → CanonicalRing → Ordering
compare_ring left right = then_with (compare_bbox (bbox left) (bbox right)) (
    then_with
      (compare_ℤ (signed_area_twice (open_vertices left)) (signed_area_twice (open_vertices right)))
      (compare_lists compare_coord (open_vertices left) (open_vertices right)))

abbrev pub compare_hole_sequences : List CanonicalRing → List CanonicalRing → Ordering
compare_hole_sequences left right = compare_lists compare_ring left right

pub compare_polygon : CanonicalPolygon → CanonicalPolygon → Ordering
compare_polygon left right = then_with (compare_bbox (bbox left.exterior) (bbox right.exterior)) (
    then_with (compare_ℤ (area_twice left) (area_twice right)) (
      then_with (nat_order.cmp (length left.holes) (length right.holes)) (
        then_with
          (compare_lists compare_coord (open_vertices left.exterior) (open_vertices right.exterior))
          (compare_hole_sequences left.holes right.holes))))
