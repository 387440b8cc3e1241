-- ===== src/Resolver/Vector/Winner.antt =====
-- What `resolve_via_snap_store` answers.
use package.watershed_delineation.Prelude.{
  ℕ, ◌≡◌, ◌≢◌, refl, ◌⊎◌, ◌↔◌, inl, inr, true, Bool-cases, ◌==◌, ==_iff, Option, some, List, [],
  ◌∷◌, ◌∈◌, length, ok, arith,
}
use package.watershed_delineation.Prelude.Floats.{Floats}
use package.watershed_delineation.Prelude.Calls.{Call, done, fails}
use package.watershed_delineation.Geo.{GeoCoord}
use package.watershed_delineation.Resolver.{
  SnapTarget, Geometry, SnapStore, Session, ResolverConfig, OutletResolution, vector_point,
  OutletResolutionError, no_snap_candidates, all_geometries_corrupt, search_bbox,
}
use package.watershed_delineation.Resolver.Vector.{
  ScoredCandidate, score_all, choose_scored, choose_candidate, resolve_via_snap_store,
}
use package.watershed_delineation.Resolver.Vector.Laws.{
  IsWinner, Tolerant, rank-IsWinner, IsReached, IsCorrupt, score_all-IsReached, score_all-IsCorrupt,
}

module _ {F W B Shape Area Box E : Type 0} (fl : Floats F) (fw : Floats W)
    (geometry : Geometry F W B Shape Area Box) (session : Session W B Box E) (outlet : GeoCoord F)
    (selected_level : Option ℕ) (config : ResolverConfig F) where
  abbrev pub Reached : ScoredCandidate F W B → Type 0
  Reached = IsReached fl fw geometry session outlet selected_level config.search_radius

  abbrev pub Corrupt : SnapTarget W B → Type 0
  Corrupt = IsCorrupt fl fw geometry session outlet selected_level config.search_radius

  abbrev pub resolution_of : ScoredCandidate F W B → ℕ → OutletResolution F W
  resolution_of w total = vector_point w.target.unit_id outlet w.nearest_coord (record {
    strategy = config.snap_strategy;
    snap_id = w.target.id;
    distance_m = w.distance_m;
    weight = w.target.weight;
    mainstem_status = w.target.stem_role;
    candidates_considered = total;
  })

  -- The answers for the targets that the store returns.
  abbrev pub Answer :
      List (SnapTarget W B) → Call (OutletResolutionError F E) (OutletResolution F W) → Type 0
  Answer ts call =
      (((c : ScoredCandidate F W B) → c.target ∈ ts → ¬ Reached c)
        × (((ts ≢ [])
              × ((t : SnapTarget W B) → t ∈ ts → Corrupt t)
              × (call ≡ fails (all_geometries_corrupt outlet (length ts))))
            ⊎ (((ts ≡ []) ⊎ ¬ ((t : SnapTarget W B) → t ∈ ts → Corrupt t))
                × (call ≡ fails (no_snap_candidates outlet config.search_radius)))))
      ⊎ ((cs : List (ScoredCandidate F W B)) × (w : ScoredCandidate F W B) × ((c : ScoredCandidate F
              W B)
            → (c ∈ cs) ↔ ((c.target ∈ ts) × Reached c))
          × IsWinner fl fw config.snap_strategy config.distance_tolerance_m cs w
          × (call ≡ done (resolution_of w (length ts))))

  choose_scored-Answer :
      (t : SnapTarget W B) (ts : List (SnapTarget W B)) (failures : ℕ)
      (cs : List (ScoredCandidate F W B))
      → ((c : ScoredCandidate F W B) → (c ∈ cs) ↔ ((c.target ∈ t ∷ ts) × Reached c))
      → (failures ≡ length (t ∷ ts)) ↔ ((b : SnapTarget W B) → b ∈ t ∷ ts → Corrupt b)
      → Tolerant fl fw config.distance_tolerance_m cs
      → Answer
          (t ∷ ts)
          (choose_scored fl fw geometry session outlet config (length (t ∷ ts)) failures cs)
  unfolding choose_scored
  choose_scored-Answer t ts failures [] mem all near = inl (
    λ c m r. (mem c).1 (m, r),
    elim (Bool-cases (failures == length (t ∷ ts))) [
      | inl every ↦
          let e = (==_iff failures (length (t ∷ ts))).0 every in
          inl (λ h. cc h, all.0 e, rw (every, e) (ground arith))
      | inr fewer ↦ inr (
        inr (λ h. absurd (cc (fewer, (==_iff failures (length (t ∷ ts))).1 (all.1 h)))),
        ground (arith, fewer),
      )
    ],
  )
  choose_scored-Answer t ts failures (c ∷ cs) mem all near =
      let (i, w, e, found, wins) =
        rank-IsWinner fl fw config.snap_strategy config.distance_tolerance_m c cs near in
      inr (c ∷ cs, w, mem, wins, rw (e, found) refl)

  -- For the targets that the store returns for the search box: the answer.
  pub resolve_via_snap_store-IsWinner :
      (store : SnapStore W B Box E) (box : Box) (ts : List (SnapTarget W B))
      → search_bbox fl geometry outlet config.search_radius ≡ some box
      → store box ≡ ok ts
      → ((c : ScoredCandidate F W B)
          → c.target ∈ ts
          → Reached c
          → fl.at_most c.distance_m (fl.add c.distance_m config.distance_tolerance_m) ≡ true)
      → Answer ts (resolve_via_snap_store fl fw geometry session store outlet selected_level config)
  unfolding resolve_via_snap_store choose_candidate
  resolve_via_snap_store-IsWinner store box [] boxed stored near =
      inl (λ c m r. m, inr (inl refl, rw (boxed, stored) refl))
  resolve_via_snap_store-IsWinner store box (t ∷ ts) boxed stored near =
      let all =
        score_all fl fw geometry session outlet selected_level config.search_radius (t ∷ ts) in
      let mem =
        score_all-IsReached fl fw geometry session outlet selected_level config.search_radius
          (t ∷ ts) in
      rw (boxed, stored)
        (choose_scored-Answer t ts all.0 all.1 mem
          (score_all-IsCorrupt fl fw geometry session outlet selected_level config.search_radius
            (t ∷ ts)).1
          (λ c m. let r = (mem c).0 m in near c r.0 r.1))
