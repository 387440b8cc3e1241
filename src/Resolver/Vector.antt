-- ===== src/Resolver/Vector.antt =====
-- Resolution by snap targets: scoring, ranking and `resolve_via_snap_store` (crates/core/src/resolver.rs).
pub mod Laws
pub mod Winner
use package.watershed_delineation.Prelude.{
  ℕ, suc, ◌+◌, Bool, true, false, ◌&&◌, ◌==◌, not, Option, none, some, List, [], ◌∷◌, map,
  get_elem?, length, ltb, if◌then◌else◌,
}
use package.watershed_delineation.Prelude.Order.{TotalOrder, then_with, min_by, nat_order}
use package.watershed_delineation.Prelude.Filters.{filter, enumerate}
use package.watershed_delineation.Prelude.Floats.{Floats}
use package.watershed_delineation.Prelude.Calls.{
  Call, done, fails, ◌>>=◌, of_result, or_fail, or_panics,
}
use package.watershed_delineation.Geo.{GeoCoord}
use package.watershed_delineation.Resolver.{
  StemRole, mainstem, tributary, distributary, unknown, SnapTarget, Geometry, SnapStore, Session,
  SnapStrategy, distance_first, weight_first, ResolverConfig, OutletResolution, vector_point,
  OutletResolutionError, no_snap_candidates, dataset_read, all_geometries_corrupt, search_bbox,
  snap_nearest_point,
}
use Prim.Native.Nat.{Ordering}

pub record ScoredCandidate (F W B : Type 0) : Type 0 where
  pub target : SnapTarget W B
  pub distance_m : F
  pub nearest_coord : GeoCoord F

abbrev pub mainstem_rank : Option StemRole → ℕ
mainstem_rank (some mainstem) = 1
mainstem_rank (some tributary) = 0
mainstem_rank (some distributary) = 0
mainstem_rank (some unknown) = 0
mainstem_rank none = 0

abbrev pub index_of : {A : Type 0} → Option (ℕ × A) → Option ℕ
index_of none = none
index_of (some (i, x)) = some i

module _ {F W B : Type 0} (fl : Floats F) (fw : Floats W) where
  abbrev pub vector_dominance_order :
      Bool → ScoredCandidate F W B → ScoredCandidate F W B → Ordering
  vector_dominance_order include_distance a b =
      then_with (fw.total.cmp b.target.weight a.target.weight) (
        then_with
          (nat_order.cmp (mainstem_rank b.target.stem_role) (mainstem_rank a.target.stem_role))
          (then_with
            (if include_distance then fl.total.cmp a.distance_m b.distance_m else Ordering.eq)
            (nat_order.cmp a.target.id b.target.id)))

  -- The candidates at most `limit` away, with their indices.
  abbrev pub within : F → List (ScoredCandidate F W B) → List (ℕ × ScoredCandidate F W B)
  within limit candidates = filter (λ c. fl.at_most c.1.distance_m limit) (enumerate 0 candidates)

  abbrev pub indexed : Bool → ℕ × ScoredCandidate F W B → ℕ × ScoredCandidate F W B → Ordering
  indexed include_distance a b = vector_dominance_order include_distance a.1 b.1

  -- `ConfiguredVectorCandidateRanker::rank`: the index of the winner.
  abbrev pub rank_within : F → List (ScoredCandidate F W B) → Option F → Option ℕ
  rank_within tolerance candidates none = none
  rank_within tolerance candidates (some minimum) =
      index_of (min_by (indexed false) (within (fl.add minimum tolerance) candidates))

  unfoldable pub rank : SnapStrategy → F → List (ScoredCandidate F W B) → Option ℕ
  rank distance_first tolerance candidates =
      rank_within tolerance candidates (min_by fl.total.cmp (map (λ c. c.distance_m) candidates))
  rank weight_first tolerance candidates = index_of (min_by (indexed true) (enumerate 0 candidates))

-- What becomes of one candidate: left out, not decoded, or scored.
pub data Scoring (F W B : Type 0) : Type 0 where
  skipped failed : Scoring F W B
  scored : ScoredCandidate F W B → Scoring F W B

module _ {W B Box E : Type 0} (session : Session W B Box E) where
  abbrev is_level : ℕ → Option ℕ → Bool
  is_level level none = false
  is_level level (some l) = l == level

  -- Without a selected level every unit passes.
  abbrev pub passes_level : Option ℕ → ℕ → Bool
  passes_level none u = true
  passes_level (some level) u = is_level level (session.level_of u)

module _ {F W B Shape Area Box E : Type 0} (fl : Floats F) (fw : Floats W)
    (geometry : Geometry F W B Shape Area Box) (session : Session W B Box E) where
  abbrev pub score_nearest : F → SnapTarget W B → Option (F × GeoCoord F) → Scoring F W B
  score_nearest radius target none = failed
  score_nearest radius target (some (distance, nearest)) =
      if fl.less radius distance
      then skipped
      else scored (record { target = target; distance_m = distance; nearest_coord = nearest })

  abbrev pub score_decoded : GeoCoord F → F → SnapTarget W B → Option Shape → Scoring F W B
  score_decoded outlet radius target none = failed
  score_decoded outlet radius target (some shape) =
      score_nearest radius target (snap_nearest_point fl geometry outlet shape)

  module _ (outlet : GeoCoord F) (selected_level : Option ℕ) (radius : F) where
    abbrev pub score : SnapTarget W B → Scoring F W B
    score target =
        if passes_level session selected_level target.unit_id
        then score_decoded outlet radius target (geometry.decode_wkb target.geometry)
        else skipped

    abbrev pub counted :
        Scoring F W B → ℕ × List (ScoredCandidate F W B) → ℕ × List (ScoredCandidate F W B)
    counted skipped rest = rest
    counted failed rest = (suc rest.0, rest.1)
    counted (scored c) rest = (rest.0, c ∷ rest.1)

    -- The number of decoding failures, and the scored candidates in their order.
    unfoldable pub score_all : List (SnapTarget W B) → ℕ × List (ScoredCandidate F W B)
    score_all [] = (0, [])
    score_all (target ∷ targets) = counted (score target) (score_all targets)

  -- What follows the scoring of `total` candidates.
  unfoldable pub choose_scored :
      GeoCoord F
      → ResolverConfig F
      → ℕ
      → ℕ
      → List (ScoredCandidate F W B)
      → Call (OutletResolutionError F E) (OutletResolution F W)
  choose_scored outlet config total failures [] =
      if ltb 0 failures && (failures == total)
      then fails (all_geometries_corrupt outlet failures)
      else fails (no_snap_candidates outlet config.search_radius)
  choose_scored outlet config total failures (c ∷ cs) = do
    i ←
        or_fail (dataset_read session.integrity)
          (rank fl fw config.snap_strategy config.distance_tolerance_m (c ∷ cs))
    winner ← or_panics (get_elem? (c ∷ cs) i)
    done (
        vector_point winner.target.unit_id outlet winner.nearest_coord (record {
          strategy = config.snap_strategy;
          snap_id = winner.target.id;
          distance_m = winner.distance_m;
          weight = winner.target.weight;
          mainstem_status = winner.target.stem_role;
          candidates_considered = total;
        }))

  unfoldable pub choose_candidate :
      GeoCoord F
      → Option ℕ
      → ResolverConfig F
      → List (SnapTarget W B)
      → Call (OutletResolutionError F E) (OutletResolution F W)
  choose_candidate outlet selected_level config [] =
      fails (no_snap_candidates outlet config.search_radius)
  choose_candidate outlet selected_level config (t ∷ ts) =
      let (failures, candidates) = score_all outlet selected_level config.search_radius (t ∷ ts) in
      choose_scored outlet config (length (t ∷ ts)) failures candidates

  unfoldable pub resolve_via_snap_store :
      SnapStore W B Box E
      → GeoCoord F
      → Option ℕ
      → ResolverConfig F
      → Call (OutletResolutionError F E) (OutletResolution F W)
  resolve_via_snap_store store outlet selected_level config = do
    box ←
        or_fail (dataset_read session.integrity)
          (search_bbox fl geometry outlet config.search_radius)
    candidates ← of_result dataset_read (store box)
    choose_candidate outlet selected_level config candidates
