-- ===== src/Resolver/Examples.antt =====
-- The theorems on outlet resolution at a small session, with numbers for floats and for geometries.
use package.watershed_delineation.Prelude.{
  ℕ, refl, ◌≡◌, leb, none, some, List, [], ◌∷◌, ok, arith, ltb,
}
use package.watershed_delineation.Prelude.Naturals.{naturals}
use package.watershed_delineation.Prelude.Calls.{done}
use package.watershed_delineation.Geo.{GeoCoord}
use package.watershed_delineation.Resolver.{
  SnapTarget, CatchmentUnit, mainstem, single_point, Geometry, SnapStore, Session, ResolverConfig,
  distance_first, snap, snap_nearest_point, local_metre_distance,
}
use package.watershed_delineation.Resolver.Vector.{
  score_all, rank, choose_scored, choose_candidate, resolve_via_snap_store,
}
use package.watershed_delineation.Resolver.Vector.Winner
use package.watershed_delineation.Resolver.Vector.Winner.{resolve_via_snap_store-IsWinner}
use package.watershed_delineation.Resolver.Pip.{resolve_via_pip}
use package.watershed_delineation.Resolver.Pip.Choice
use package.watershed_delineation.Resolver.Authority.{
  resolve_via_snap, resolve_outlet_authority, resolve_outlet,
}
use package.watershed_delineation.Resolver.Authority.Legacy.{
  Reads, Snapped, Contained, resolve_outlet-Snapped, resolve_outlet-Contained,
}
use package.watershed_delineation.Resolver.Pip.Choice.{resolve_via_pip-IsLeast}

abbrev place : ℕ → GeoCoord ℕ
place n = record { lon = n; lat = n }

-- A geometry is the number of its nearest place, and an area the half-open interval up to a longitude.
abbrev geometry : Geometry ℕ ℕ ℕ ℕ ℕ (Unit {0})
geometry = record {
  as_f32 = λ a. a;
  bounding_box = λ a b c d. some tt;
  decode_wkb = λ b. some b;
  closest_point = λ shape outlet. single_point (place shape);
  decode_wkb_multi_polygon = λ b. some b;
  contains = λ area point. ltb point.lon area;
  intersects = λ area point. leb point.lon area;
}

abbrev target : ℕ → ℕ → ℕ → SnapTarget ℕ ℕ
target id weight at = record {
  id = id;
  unit_id = id;
  weight = weight;
  stem_role = some mainstem;
  geometry = at;
}

abbrev targets : List (SnapTarget ℕ ℕ)
targets = target 1 5 40 ∷ target 2 9 41 ∷ target 3 9 90 ∷ []

abbrev unit : ℕ → ℕ → ℕ → CatchmentUnit ℕ ℕ
unit id area edge = record {
  id = id;
  level = 1;
  area = area;
  upstream_area = none;
  geometry = edge;
}

abbrev units : List (CatchmentUnit ℕ ℕ)
units = unit 7 2 50 ∷ unit 8 3 60 ∷ unit 9 9 30 ∷ []

abbrev store : SnapStore ℕ ℕ (Unit {0}) (Unit {0})
store box = ok targets

abbrev session : Session ℕ ℕ (Unit {0}) (Unit {0})
session = record {
  snap = some store;
  snap_for_level = λ level. some store;
  catchments = λ box. ok units;
  level_of = λ id. some 1;
  integrity = tt;
}

abbrev config : ResolverConfig ℕ
config = record {
  search_radius = 30000000000;
  distance_tolerance_m = 5;
  snap_strategy = distance_first;
}

resolve_via_snap_store-IsWinner_example :
    Winner.Answer naturals naturals geometry session
      (place 40)
      none
      config
      targets
      (resolve_via_snap_store naturals naturals geometry session store (place 40) none config)
resolve_via_snap_store-IsWinner_example =
    resolve_via_snap_store-IsWinner naturals naturals geometry session (place 40) none config store
      tt targets refl refl (λ c m r. ground arith)

resolve_via_pip-IsLeast_example :
    Choice.Answer naturals naturals geometry session
      (place 40)
      none
      units
      (resolve_via_pip naturals naturals geometry session (place 40) none)
resolve_via_pip-IsLeast_example =
    resolve_via_pip-IsLeast naturals naturals geometry session (place 40) none tt units refl refl

snapped :
    resolve_outlet naturals naturals geometry session (place 39) config
    ≡ done (record {
      unit_id = 1;
      input_coord = place 39;
      resolved_coord = place 40;
      method =
          snap distance_first 1
            (local_metre_distance naturals (place 39) (place 40))
            5
            (some mainstem)
            3;
    })
unfolding resolve_outlet resolve_outlet_authority resolve_via_snap resolve_via_snap_store
    choose_candidate choose_scored score_all rank snap_nearest_point local_metre_distance
snapped = refl

resolve_outlet-Snapped_example :
    Reads naturals naturals geometry session
      (place 39)
      none
      30000000000
      store
      (Snapped naturals naturals geometry session (place 39) none config)
      (resolve_outlet naturals naturals geometry session (place 39) config)
resolve_outlet-Snapped_example =
    resolve_outlet-Snapped naturals naturals geometry session (place 39) config store refl
      (λ c r. ground arith)

abbrev without_snap : Session ℕ ℕ (Unit {0}) (Unit {0})
without_snap = record session { snap = none }

resolve_outlet-Contained_example :
    Reads naturals naturals geometry without_snap
      (place 39)
      none
      100
      without_snap.catchments
      (Contained naturals naturals geometry without_snap (place 39) none)
      (resolve_outlet naturals naturals geometry without_snap (place 39) config)
resolve_outlet-Contained_example =
    resolve_outlet-Contained naturals naturals geometry without_snap (place 39) config refl
