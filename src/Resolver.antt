-- ===== src/Resolver.antt =====
-- Outlet resolution (crates/core/src/resolver.rs): its configuration, results, errors and distances,
-- over parameters for `f64`, for the geometry crates and for the dataset session.
pub mod Vector
pub mod Pip
pub mod Authority
mod Examples
use package.watershed_delineation.Prelude.{
  ℕ, Bool, true, false, not, ◌||◌, Option, none, some, List, Result, ok, err, if◌then◌else◌,
}
use package.watershed_delineation.Prelude.Floats.{Floats}
use package.watershed_delineation.Prelude.Calls.{Call, of_result, or_fail}
use package.watershed_delineation.Geo.{GeoCoord}

-- The types of the `hfx` crate, by what their accessors return: geometries are bytes `B`, weights and
-- areas are `f32`, identifiers and levels are numbers.
pub data StemRole : Type 0 where
  mainstem tributary distributary unknown : StemRole

pub record SnapTarget (W B : Type 0) : Type 0 where
  pub id : ℕ
  pub unit_id : ℕ
  pub weight : W
  pub stem_role : Option StemRole
  pub geometry : B

pub record CatchmentUnit (W B : Type 0) : Type 0 where
  pub id : ℕ
  pub level : ℕ
  pub area : W
  pub upstream_area : Option W
  pub geometry : B

-- `geo::Closest`.
pub data Closest (F : Type 0) : Type 0 where
  intersection single_point : GeoCoord F → Closest F
  indeterminate : Closest F

-- What the resolver uses of the geometry crates: decoded geometries `Shape` and multi-polygons `Area`,
-- bounding boxes `Box`. A decoding error is `none`.
pub record Geometry (F W B Shape Area Box : Type 0) : Type 0 where
  pub as_f32 : F → W
  pub bounding_box : W → W → W → W → Option Box
  pub decode_wkb : B → Option Shape
  pub closest_point : Shape → GeoCoord F → Closest F
  pub decode_wkb_multi_polygon : B → Option Area
  pub contains : Area → GeoCoord F → Bool
  pub intersects : Area → GeoCoord F → Bool

-- What the resolver asks of a `DatasetSession`, with errors `E`.
abbrev pub SnapStore : Type 0 → Type 0 → Type 0 → Type 0 → Type 0
SnapStore W B Box E = Box → Result (List (SnapTarget W B)) E

pub record Session (W B Box E : Type 0) : Type 0 where
  pub snap : Option (SnapStore W B Box E)
  pub snap_for_level : ℕ → Option (SnapStore W B Box E)
  pub catchments : Box → Result (List (CatchmentUnit W B)) E
  pub level_of : ℕ → Option ℕ
  -- `SessionError::integrity`, with its message left out.
  pub integrity : E

pub data SnapStrategy : Type 0 where
  distance_first weight_first : SnapStrategy

pub record ResolverConfig (F : Type 0) : Type 0 where
  pub search_radius : F
  pub distance_tolerance_m : F
  pub snap_strategy : SnapStrategy

module _ {F : Type 0} (fl : Floats F) where
  -- `SearchRadiusMetres::new`; the error is a fixed text.
  pub search_radius_metres : F → Result F (Unit {0})
  search_radius_metres metres =
      if not (fl.is_finite metres) || fl.at_most metres (fl.literal 0 0) then err tt else ok metres

  pub default_config : ResolverConfig F
  default_config = record {
    search_radius = fl.literal 1000 0;
    distance_tolerance_m = fl.literal 1 0;
    snap_strategy = weight_first;
  }

  pub with_distance_tolerance : ResolverConfig F → F → Result (ResolverConfig F) (Unit {0})
  with_distance_tolerance config tolerance_m =
      if not (fl.is_finite tolerance_m) || fl.less tolerance_m (fl.literal 0 0)
      then err tt
      else ok (record config { distance_tolerance_m = tolerance_m })

abbrev pub with_search_radius : {F : Type 0} → ResolverConfig F → F → ResolverConfig F
with_search_radius config radius = record config { search_radius = radius }

abbrev pub with_snap_strategy : {F : Type 0} → ResolverConfig F → SnapStrategy → ResolverConfig F
with_snap_strategy config strategy = record config { snap_strategy = strategy }

pub data PipTieBreak : Type 0 where
  highest_upstream_area highest_local_area lowest_unit_id : PipTieBreak

-- The fields are strategy, snap id, distance, weight, stem role and number of candidates; number of
-- candidates and tie break.
pub data ResolutionMethod (F W : Type 0) : Type 0 where
  snap : SnapStrategy → ℕ → F → W → Option StemRole → ℕ → ResolutionMethod F W
  point_in_polygon : ℕ → Option PipTieBreak → ResolutionMethod F W

pub record VectorResolutionProvenance (F W : Type 0) : Type 0 where
  pub strategy : SnapStrategy
  pub snap_id : ℕ
  pub distance_m : F
  pub weight : W
  pub mainstem_status : Option StemRole
  pub candidates_considered : ℕ

pub record ContainmentResolutionProvenance : Type 0 where
  pub candidates_considered : ℕ
  pub tie_break : Option PipTieBreak

-- The fields are the unit, the input coordinate, for a vector point also its coordinate, and the provenance.
pub data OutletResolution (F W : Type 0) : Type 0 where
  vector_point : ℕ → GeoCoord F → GeoCoord F → VectorResolutionProvenance F W → OutletResolution F W
  unit_containment : ℕ → GeoCoord F → ContainmentResolutionProvenance → OutletResolution F W

module _ {F W : Type 0} where
  abbrev pub unit_id : OutletResolution F W → ℕ
  unit_id (vector_point u i v p) = u
  unit_id (unit_containment u i p) = u

  abbrev pub input_coord : OutletResolution F W → GeoCoord F
  input_coord (vector_point u i v p) = i
  input_coord (unit_containment u i p) = i

  abbrev pub resolved_coord : OutletResolution F W → GeoCoord F
  resolved_coord (vector_point u i v p) = v
  resolved_coord (unit_containment u i p) = i

  abbrev pub method : OutletResolution F W → ResolutionMethod F W
  method (vector_point u i v p) =
      snap p.strategy p.snap_id p.distance_m p.weight p.mainstem_status p.candidates_considered
  method (unit_containment u i p) = point_in_polygon p.candidates_considered p.tie_break

  abbrev pub vector_coord : OutletResolution F W → Option (GeoCoord F)
  vector_coord (vector_point u i v p) = some v
  vector_coord (unit_containment u i p) = none

-- The legacy result, which keeps no authority of its own.
pub record ResolvedOutlet (F W : Type 0) : Type 0 where
  pub unit_id : ℕ
  pub input_coord : GeoCoord F
  pub resolved_coord : GeoCoord F
  pub method : ResolutionMethod F W

module _ {F W : Type 0} where
  -- `impl From<OutletResolution> for ResolvedOutlet`, and its `vector_coord`.
  abbrev pub of_resolution : OutletResolution F W → ResolvedOutlet F W
  of_resolution value = record {
    unit_id = unit_id value;
    input_coord = input_coord value;
    resolved_coord = resolved_coord value;
    method = method value;
  }

  abbrev is_snap : ResolutionMethod F W → Bool
  is_snap (snap s i d w m n) = true
  is_snap (point_in_polygon n t) = false

  abbrev pub legacy_vector_coord : ResolvedOutlet F W → Option (GeoCoord F)
  legacy_vector_coord o = if is_snap o.method then some o.resolved_coord else none

-- The fields are the outlet and the radius; the outlet; the session's error; the outlet and a count.
pub data OutletResolutionError (F E : Type 0) : Type 0 where
  no_snap_candidates : GeoCoord F → F → OutletResolutionError F E
  outside_all_catchments : GeoCoord F → OutletResolutionError F E
  dataset_read : E → OutletResolutionError F E
  all_geometries_corrupt : GeoCoord F → ℕ → OutletResolutionError F E

module _ {F : Type 0} (fl : Floats F) where
  pub local_metre_distance : GeoCoord F → GeoCoord F → F
  local_metre_distance a b =
      let lat_avg = fl.to_radians (fl.div (fl.add a.lat b.lat) (fl.literal 2 0)) in
      let dx_m = fl.mul (fl.mul (fl.sub b.lon a.lon) (fl.literal 111320 0)) (fl.cos lat_avg) in
      let dy_m = fl.mul (fl.sub b.lat a.lat) (fl.literal 110540 0) in
      fl.sqrt (fl.add (fl.mul dx_m dx_m) (fl.mul dy_m dy_m))

  module _ {W B Shape Area Box : Type 0} (geometry : Geometry F W B Shape Area Box) where
    -- The edges of the search box: minx, miny, maxx, maxy.
    abbrev pub search_bbox : GeoCoord F → F → Option Box
    search_bbox center radius_m =
        let cos_lat = fl.larger (fl.abs (fl.cos (fl.to_radians center.lat))) (fl.literal 1 10) in
        let dlat = fl.div radius_m (fl.literal 110540 0) in
        let dlon = fl.div radius_m (fl.mul (fl.literal 111320 0) cos_lat) in
        geometry.bounding_box
          (geometry.as_f32 (fl.larger (fl.sub center.lon dlon) (fl.neg (fl.literal 180 0))))
          (geometry.as_f32 (fl.larger (fl.sub center.lat dlat) (fl.neg (fl.literal 90 0))))
          (geometry.as_f32 (fl.smaller (fl.add center.lon dlon) (fl.literal 180 0)))
          (geometry.as_f32 (fl.smaller (fl.add center.lat dlat) (fl.literal 90 0)))

    -- The distance and the nearest point.
    pub snap_nearest_point : GeoCoord F → Shape → Option (F × GeoCoord F)
    snap_nearest_point outlet shape = elim (geometry.closest_point shape outlet) [
      | intersection p ↦ some (local_metre_distance outlet p, p)
      | single_point p ↦ some (local_metre_distance outlet p, p)
      | indeterminate ↦ none
    ]
