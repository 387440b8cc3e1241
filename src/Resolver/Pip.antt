-- ===== src/Resolver/Pip.antt =====
-- Resolution by point-in-polygon tests: `resolve_via_pip` (crates/core/src/resolver.rs).
pub mod Laws
pub mod Choice
use package.watershed_delineation.Prelude.{
  ℕ, suc, Bool, true, false, not, ◌&&◌, ◌==◌, ltb, Option, none, some, List, [], ◌∷◌, map, length,
  if◌then◌else◌,
}
use package.watershed_delineation.Prelude.Order.{TotalOrder, then_with, nat_order}
use package.watershed_delineation.Prelude.Filters.{filter}
use package.watershed_delineation.Prelude.Sorting.{sort_by}
use package.watershed_delineation.Prelude.Floats.{Floats}
use package.watershed_delineation.Prelude.Calls.{
  Call, done, fails, panics, ◌>>=◌, of_result, or_fail,
}
use package.watershed_delineation.Geo.{GeoCoord}
use package.watershed_delineation.Resolver.{
  CatchmentUnit, Geometry, Session, PipTieBreak, highest_upstream_area, highest_local_area,
  lowest_unit_id, OutletResolution, unit_containment, OutletResolutionError, outside_all_catchments,
  dataset_read, all_geometries_corrupt, search_bbox,
}
use Prim.Native.Nat.{Ordering}

module _ {W : Type 0} (fw : Floats W) where
  -- Present before absent, and the larger first.
  abbrev pub upstream_area_order : Option W → Option W → Ordering
  upstream_area_order (some x) (some y) = fw.total.cmp y x
  upstream_area_order (some x) none = Ordering.lt
  upstream_area_order none (some y) = Ordering.gt
  upstream_area_order none none = Ordering.eq

  -- `!=` on `Option<f32>`.
  abbrev pub differ : Option W → Option W → Bool
  differ (some x) (some y) = not (fw.at_most x y && fw.at_most y x)
  differ (some x) none = true
  differ none (some y) = true
  differ none none = false

  abbrev is_eq : Ordering → Bool
  is_eq Ordering.lt = false
  is_eq Ordering.eq = true
  is_eq Ordering.gt = false

  module _ {B : Type 0} where
    -- The comparison of the tie-break cascade.
    abbrev pub cascade_order : CatchmentUnit W B → CatchmentUnit W B → Ordering
    cascade_order a b =
        then_with (upstream_area_order a.upstream_area b.upstream_area)
          (then_with (fw.total.cmp b.area a.area) (nat_order.cmp a.id b.id))

    pub tie_break_of : CatchmentUnit W B → CatchmentUnit W B → PipTieBreak
    tie_break_of a b =
        if differ a.upstream_area b.upstream_area
        then highest_upstream_area
        else (if not (is_eq (fw.total.cmp a.area b.area))
            then highest_local_area
            else lowest_unit_id)

module _ {W B Area : Type 0} where
  abbrev pub at_level : Option ℕ → List (CatchmentUnit W B × Area) → List (CatchmentUnit W B × Area)
  at_level none decoded = decoded
  at_level (some level) decoded = filter (λ u. u.0.level == level) decoded

-- Strict containment, and the boundary when it has no hit.
abbrev pub boundary_if_none : {A : Type 0} → List A → List A → List A
boundary_if_none [] fallback = fallback
boundary_if_none (u ∷ us) fallback = u ∷ us

module _ {F B Area : Type 0} {W : Type 0} where
  abbrev pub hit_by :
      (Area → GeoCoord F → Bool)
      → GeoCoord F
      → List (CatchmentUnit W B × Area)
      → List (CatchmentUnit W B)
  hit_by test point decoded = map (λ u. u.0) (filter (λ u. test u.1 point) decoded)

module _ {F W B Shape Area Box : Type 0} (geometry : Geometry F W B Shape Area Box) where
  abbrev pub decoded_with :
      CatchmentUnit W B
      → Option Area
      → ℕ × List (CatchmentUnit W B × Area)
      → ℕ × List (CatchmentUnit W B × Area)
  decoded_with unit none rest = (suc rest.0, rest.1)
  decoded_with unit (some area) rest = (rest.0, (unit, area) ∷ rest.1)

  -- The number of failures, and the decoded units in their order.
  abbrev pub decode_units : List (CatchmentUnit W B) → ℕ × List (CatchmentUnit W B × Area)
  decode_units [] = (0, [])
  decode_units (unit ∷ units) =
      decoded_with unit (geometry.decode_wkb_multi_polygon unit.geometry) (decode_units units)

  pub hits_of : GeoCoord F → List (CatchmentUnit W B × Area) → List (CatchmentUnit W B)
  hits_of point decoded =
      boundary_if_none (hit_by geometry.contains point decoded)
        (hit_by geometry.intersects point decoded)

module _ {F W B E : Type 0} (fw : Floats W) where
  -- What the sorted hits give.
  abbrev pub first_of_sorted :
      GeoCoord F
      → ℕ
      → List (CatchmentUnit W B)
      → Call (OutletResolutionError F E) (OutletResolution F W)
  first_of_sorted outlet considered (a ∷ b ∷ rest) = done (
      unit_containment a.id outlet
        (record { candidates_considered = considered; tie_break = some (tie_break_of fw a b) }))
  first_of_sorted outlet considered (a ∷ []) = panics
  first_of_sorted outlet considered [] = panics

  unfoldable pub choose_hit :
      GeoCoord F
      → ℕ
      → ℕ
      → ℕ
      → List (CatchmentUnit W B)
      → Call (OutletResolutionError F E) (OutletResolution F W)
  choose_hit outlet total failures considered [] =
      if ltb 0 failures && (failures == total)
      then fails (all_geometries_corrupt outlet failures)
      else fails (outside_all_catchments outlet)
  choose_hit outlet total failures considered (winner ∷ []) = done (
      unit_containment winner.id outlet
        (record { candidates_considered = considered; tie_break = none }))
  choose_hit outlet total failures considered (a ∷ b ∷ rest) =
      first_of_sorted outlet considered (sort_by (cascade_order fw) (a ∷ b ∷ rest))

module _ {F W B Shape Area Box E : Type 0} (fl : Floats F) (fw : Floats W)
    (geometry : Geometry F W B Shape Area Box) where
  unfoldable pub choose_unit :
      GeoCoord F
      → Option ℕ
      → List (CatchmentUnit W B)
      → Call (OutletResolutionError F E) (OutletResolution F W)
  choose_unit outlet selected_level [] = fails (outside_all_catchments outlet)
  choose_unit outlet selected_level (u ∷ us) =
      let (failures, decoded_all_levels) = decode_units geometry (u ∷ us) in
      let decoded = at_level selected_level decoded_all_levels in
      choose_hit fw outlet (length (u ∷ us)) failures (length decoded)
        (hits_of geometry outlet decoded)

  -- `PIP_BUFFER_M` is 100.
  unfoldable pub resolve_via_pip :
      Session W B Box E
      → GeoCoord F
      → Option ℕ
      → Call (OutletResolutionError F E) (OutletResolution F W)
  resolve_via_pip session outlet selected_level = do
    box ←
        or_fail (dataset_read session.integrity) (search_bbox fl geometry outlet (fl.literal 100 0))
    candidates ← of_result dataset_read (session.catchments box)
    choose_unit outlet selected_level candidates
