-- ===== src/Resolver/Authority/Legacy.antt =====
-- What `resolve_outlet` answers, whose result has lost its authority.
use package.watershed_delineation.Prelude.{
  ℕ, ◌≡◌, ◌≢◌, refl, ap, subst, sym, ◌∙◌, ◌⊎◌, ◌↔◌, inl, inr, true, Option, Option-cases, none,
  some, List, [], ◌∈◌, length, Result, ok, err,
}
use package.watershed_delineation.Prelude.Floats.{Floats}
use package.watershed_delineation.Prelude.Calls.{Call, done, fails, ◌>>=◌, or_fail, Result-cases}
use package.watershed_delineation.Geo.{GeoCoord}
use package.watershed_delineation.Resolver.{
  CatchmentUnit, SnapTarget, Geometry, SnapStore, Session, PipTieBreak, ResolverConfig,
  OutletResolution, snap, point_in_polygon, ResolvedOutlet, OutletResolutionError,
  no_snap_candidates, outside_all_catchments, all_geometries_corrupt, search_bbox, dataset_read,
  of_resolution, legacy_vector_coord,
}
use package.watershed_delineation.Resolver.Vector.{ScoredCandidate, resolve_via_snap_store}
use package.watershed_delineation.Resolver.Vector.Laws.{IsWinner, IsReached, IsCorrupt}
use package.watershed_delineation.Resolver.Vector.Winner
use package.watershed_delineation.Resolver.Vector.Winner.{resolve_via_snap_store-IsWinner}
use package.watershed_delineation.Resolver.Pip.{at_level, decode_units, resolve_via_pip}
use package.watershed_delineation.Resolver.Pip.Laws.{IsHit}
use package.watershed_delineation.Resolver.Pip.Choice
use package.watershed_delineation.Resolver.Pip.Choice.{Chosen, resolve_via_pip-IsLeast}
use package.watershed_delineation.Resolver.Authority.{
  resolve_via_snap, by_snap_or_pip, resolve_outlet_authority, resolve_outlet,
}

module _ {F W B Shape Area Box E : Type 0} (fl : Floats F) (fw : Floats W)
    (geometry : Geometry F W B Shape Area Box) (session : Session W B Box E) (outlet : GeoCoord F)
    (selected_level : Option ℕ) where
  abbrev LegacyCall : Type 0
  LegacyCall = Call (OutletResolutionError F E) (ResolvedOutlet F W)

  -- What is read in the box of the given radius about the outlet: a box or a store that fails is an error of
  -- the session, and otherwise `P` holds of what the store returns.
  abbrev pub Reads :
      {A : Type 0} → F → (Box → Result A E) → (A → LegacyCall → Type 0) → LegacyCall → Type 0
  Reads {A = A} radius store P result =
      ((search_bbox fl geometry outlet radius ≡ none)
        × (result ≡ fails (dataset_read session.integrity)))
      ⊎ ((box : Box) × (search_bbox fl geometry outlet radius ≡ some box)
          × (((e : E) × (store box ≡ err e) × (result ≡ fails (dataset_read e)))
              ⊎ ((a : A) × (store box ≡ ok a) × P a result)))

  -- The result for the targets `ts`: an error that tells corrupt geometries from no candidate; or the outlet
  -- moved to the nearest point of the winner, with the unit and the data of its target.
  abbrev pub Snapped : ResolverConfig F → List (SnapTarget W B) → LegacyCall → Type 0
  Snapped config ts result =
      let Reached = IsReached fl fw geometry session outlet selected_level config.search_radius in
      let Corrupt = IsCorrupt fl fw geometry session outlet selected_level config.search_radius in
      (((c : ScoredCandidate F W B) → c.target ∈ ts → ¬ Reached c)
        × (((ts ≢ [])
              × ((t : SnapTarget W B) → t ∈ ts → Corrupt t)
              × (result ≡ fails (all_geometries_corrupt outlet (length ts))))
            ⊎ (((ts ≡ []) ⊎ ¬ ((t : SnapTarget W B) → t ∈ ts → Corrupt t))
                × (result ≡ fails (no_snap_candidates outlet config.search_radius)))))
      ⊎ ((cs : List (ScoredCandidate F W B)) × (w : ScoredCandidate F W B) × ((c : ScoredCandidate F
              W B)
            → (c ∈ cs) ↔ ((c.target ∈ ts) × Reached c))
          × IsWinner fl fw config.snap_strategy config.distance_tolerance_m cs w
          × (o : ResolvedOutlet F W) × (result ≡ done o)
          × (o.unit_id ≡ w.target.unit_id)
          × (o.input_coord ≡ outlet)
          × (o.resolved_coord ≡ w.nearest_coord)
          × (o.method
              ≡ snap config.snap_strategy w.target.id w.distance_m w.target.weight
                  w.target.stem_role (length ts))
          × (legacy_vector_coord o ≡ some w.nearest_coord))

  -- The result for the units `us`: an error that tells corrupt geometries from an outlet outside; or the
  -- outlet where it is, in a least unit of the cascade among the hits.
  abbrev pub Contained : List (CatchmentUnit W B) → LegacyCall → Type 0
  Contained us result =
      (((u : CatchmentUnit W B) → ¬ IsHit geometry outlet selected_level us u)
        × (((us ≢ [])
              × ((u : CatchmentUnit W B)
                  → u ∈ us
                  → geometry.decode_wkb_multi_polygon u.geometry ≡ none)
              × (result ≡ fails (all_geometries_corrupt outlet (length us))))
            ⊎ (((us ≡ [])
                  ⊎ ¬ (
                      (u : CatchmentUnit W B)
                      → u ∈ us
                      → geometry.decode_wkb_multi_polygon u.geometry ≡ none))
                × (result ≡ fails (outside_all_catchments outlet)))))
      ⊎ ((hits : List (CatchmentUnit W B)) × (a : CatchmentUnit W B) × (label : Option PipTieBreak)
          × ((u : CatchmentUnit W B) → (u ∈ hits) ↔ IsHit geometry outlet selected_level us u)
          × Chosen fw hits a label
          × (o : ResolvedOutlet F W) × (result ≡ done o)
          × (o.unit_id ≡ a.id)
          × (o.input_coord ≡ outlet)
          × (o.resolved_coord ≡ outlet)
          × (o.method
              ≡ point_in_polygon (length (at_level selected_level (decode_units geometry us).1))
                  label)
          × (legacy_vector_coord o ≡ none))

  abbrev legacy : Call (OutletResolutionError F E) (OutletResolution F W) → LegacyCall
  legacy call = call >>= λ value. done (of_resolution value)

  Answer-Snapped :
      (config : ResolverConfig F) (ts : List (SnapTarget W B))
      (call : Call (OutletResolutionError F E) (OutletResolution F W))
      → Winner.Answer fl fw geometry session outlet selected_level config ts call
      → Snapped config ts (legacy call)
  Answer-Snapped config ts call (inl (none_reached, inl (some_target, corrupt, e))) =
      inl (none_reached, inl (some_target, corrupt, ap legacy e))
  Answer-Snapped config ts call (inl (none_reached, inr (sound, e))) =
      inl (none_reached, inr (sound, ap legacy e))
  Answer-Snapped config ts call (inr (cs, w, mem, wins, e)) =
      inr (cs, w, mem, wins, _, ap legacy e, refl, refl, refl, refl, refl)

  Answer-Contained :
      (us : List (CatchmentUnit W B))
      (call : Call (OutletResolutionError F E) (OutletResolution F W))
      → Choice.Answer fl fw geometry session outlet selected_level us call
      → Contained us (legacy call)
  Answer-Contained us call (inl (no_hit, inl (some_unit, corrupt, e))) =
      inl (no_hit, inl (some_unit, corrupt, ap legacy e))
  Answer-Contained us call (inl (no_hit, inr (sound, e))) = inl (no_hit, inr (sound, ap legacy e))
  Answer-Contained us call (inr (hits, a, label, mem, chosen_a, e)) =
      inr (hits, a, label, mem, chosen_a, _, ap legacy e, refl, refl, refl, refl, refl)

  -- The tolerance only widens the band about a distance.
  abbrev pub Widens : ResolverConfig F → Type 0
  Widens config =
      (c : ScoredCandidate F W B)
      → IsReached fl fw geometry session outlet selected_level config.search_radius c
      → fl.at_most c.distance_m (fl.add c.distance_m config.distance_tolerance_m) ≡ true

  resolve_via_snap_store-Snapped :
      (config : ResolverConfig F) (store : SnapStore W B Box E)
      → Widens config
      → Reads config.search_radius store (Snapped config) (
          legacy (resolve_via_snap_store fl fw geometry session store outlet selected_level config))
  unfolding resolve_via_snap_store
  resolve_via_snap_store-Snapped config store widens =
      elim (Option-cases (search_bbox fl geometry outlet config.search_radius)) [
        | inl unboxed ↦ inl (unboxed, rw unboxed refl)
        | inr (box, boxed) ↦ inr (
          box,
          boxed,
          elim (Result-cases (store box)) [
            | inl (ts, stored) ↦ inr (
              ts,
              stored,
              Answer-Snapped config ts _ (
                  resolve_via_snap_store-IsWinner fl fw geometry session outlet selected_level
                    config store box ts boxed stored (λ c m. widens c)),
            )
            | inr (e, failed) ↦ inl (e, failed, rw (boxed, failed) refl)
          ],
        )
      ]

  resolve_via_pip-Contained :
      Reads
        (fl.literal 100 0)
        session.catchments
        Contained
        (legacy (resolve_via_pip fl fw geometry session outlet selected_level))
  unfolding resolve_via_pip
  resolve_via_pip-Contained =
      elim (Option-cases (search_bbox fl geometry outlet (fl.literal 100 0))) [
        | inl unboxed ↦ inl (unboxed, rw unboxed refl)
        | inr (box, boxed) ↦ inr (
          box,
          boxed,
          elim (Result-cases (session.catchments box)) [
            | inl (us, stored) ↦ inr (
              us,
              stored,
              Answer-Contained us _ (
                  resolve_via_pip-IsLeast fl fw geometry session outlet selected_level box us boxed
                    stored),
            )
            | inr (e, failed) ↦ inl (e, failed, rw (boxed, failed) refl)
          ],
        )
      ]

module _ {F W B Shape Area Box E : Type 0} (fl : Floats F) (fw : Floats W)
    (geometry : Geometry F W B Shape Area Box) (session : Session W B Box E)
    (outlet : GeoCoord F) where
  -- Let the session have a snap store and the tolerance only widen the band about a distance. Then a search box
  -- that cannot be made or a store that fails is a dataset error. For the targets that the store returns, the
  -- legacy result has the unit, the nearest point and the data of a winner among exactly the reached targets,
  -- with this point as its vector coordinate; without a reached target, the error tells whether all geometries
  -- are corrupt.
  pub resolve_outlet-Snapped :
      (config : ResolverConfig F) (store : SnapStore W B Box E)
      → session.snap ≡ some store
      → Widens fl fw geometry session outlet none config
      → Reads fl fw geometry session outlet none config.search_radius store
          (Snapped fl fw geometry session outlet none config)
          (resolve_outlet fl fw geometry session outlet config)
  unfolding resolve_outlet resolve_outlet_authority resolve_via_snap
  resolve_outlet-Snapped config store present widens =
      subst
        (Reads fl fw geometry session outlet none config.search_radius store
          (Snapped fl fw geometry session outlet none config))
        (sym (
          ap
            (λ o. by_snap_or_pip fl fw geometry session outlet config o >>= λ value.
              done (of_resolution value))
            present
          ∙ ap
              (λ o.
                or_fail (dataset_read session.integrity) o
                >>= (λ snap_store.
                    resolve_via_snap_store fl fw geometry session snap_store outlet none config)
                >>= λ value. done (of_resolution value))
              present))
        (resolve_via_snap_store-Snapped fl fw geometry session outlet none config store widens)

  -- Let the session have no snap store. Then a box of 100 metres that cannot be made or a store that fails is a
  -- dataset error. For the units that the store returns, the legacy result keeps the outlet, in a least unit of the
  -- cascade among exactly the hits, with the number of candidates, the label of the choice and no vector coordinate;
  -- without a hit, the error tells whether all geometries are corrupt.
  pub resolve_outlet-Contained :
      (config : ResolverConfig F)
      → session.snap ≡ none
      → Reads fl fw geometry session outlet none
          (fl.literal 100 0)
          session.catchments
          (Contained fl fw geometry session outlet none)
          (resolve_outlet fl fw geometry session outlet config)
  unfolding resolve_outlet resolve_outlet_authority
  resolve_outlet-Contained config absent =
      subst
        (Reads fl fw geometry session outlet none (fl.literal 100 0) session.catchments
          (Contained fl fw geometry session outlet none))
        (sym (
          ap
            (λ o. by_snap_or_pip fl fw geometry session outlet config o >>= λ value.
              done (of_resolution value))
            absent))
        (resolve_via_pip-Contained fl fw geometry session outlet none)
