-- ===== src/Assembly/Geometries.antt =====
-- The last steps of the assembly: the loop over the entries, and the union of their polygons.
use package.watershed_delineation.Prelude.{
  ℕ, ◌≡◌, ◌≢◌, refl, sym, ap, subst, ◌⊎◌, inl, inr, ⊎_elim, Bool-cases, ◌==◌, ==_iff, Option,
  Option-cases, none, some, List, [], ◌∷◌, ◌∈◌, ◌++◌, map, not, Result, ok, err,
}
use package.watershed_delineation.Prelude.Calls.{
  Call, done, fails, ◌>>=◌, require, of_result, Result-cases,
}
use package.watershed_delineation.Assembly.{
  MultiPolygon, Row, AssemblyError, empty_catchment_geometry, empty_refined_terminal_geometry,
  dissolving, topology_repair, area, empty_assembled_geometry, AssemblyResult, Cleaning, is_refined,
  empty_error, is_empty, collect_geometries, polygons_of, with_holes_filled,
  normalize_polygon_winding, into_canonical_multi_polygon, assemble_from_geometries,
}

module _ {P S W D : Type 0} where
  -- The error for the unit `id` without a polygon: its own one for a terminal with a refined geometry.
  abbrev pub NamesEmpty : ℕ → Option (MultiPolygon P) → ℕ → AssemblyError S W D → Type 0
  NamesEmpty terminal refined id e =
      ((id ≡ terminal) × (refined ≢ none) × (e ≡ empty_refined_terminal_geometry terminal))
      ⊎ (¬ ((id ≡ terminal) × (refined ≢ none)) × (e ≡ empty_catchment_geometry id))

  empty_error-NamesEmpty :
      (terminal : ℕ) (refined : Option (MultiPolygon P)) (id : ℕ)
      → NamesEmpty terminal refined id (empty_error terminal (is_refined refined) id)
  empty_error-NamesEmpty terminal none id = elim (Bool-cases (id == terminal)) [
    | inl same ↦ inr (λ h. h.1 refl, rw same refl)
    | inr other ↦ inr (λ h. h.1 refl, rw other refl)
  ]
  empty_error-NamesEmpty terminal (some geometry) id = elim (Bool-cases (id == terminal)) [
    | inl same ↦ inl ((==_iff id terminal).0 same, λ z. cc z, rw same refl)
    | inr other ↦ inr (λ h. absurd (cc (other, (==_iff id terminal).1 h.0)), rw other refl)
  ]

  -- The first entry without a polygon, and the error of the loop for it; or the geometries of all entries.
  pub collect_geometries-cases :
      (terminal : ℕ) (refined : Option (MultiPolygon P)) (es : List (Row P))
      → ((earlier later : List (Row P)) × (id : ℕ) × (e : AssemblyError S W D) × (es
            ≡ earlier ++ ((id, []) ∷ later))
          × ((r : Row P) → r ∈ earlier → r.1 ≢ [])
          × NamesEmpty terminal refined id e
          × (collect_geometries terminal (is_refined refined) es ≡ fails e))
        ⊎ ((collect_geometries {S = S} {W = W} {D = D} terminal (is_refined refined) es
              ≡ done (map (λ r. r.1) es))
            × ((r : Row P) → r ∈ es → r.1 ≢ []))
  unfolding collect_geometries
  collect_geometries-cases terminal refined [] = inr (refl, λ r m. absurd m)
  collect_geometries-cases terminal refined ((id, []) ∷ es) = inl (
    [],
    es,
    id,
    empty_error terminal (is_refined refined) id,
    refl,
    (λ r m. absurd m),
    empty_error-NamesEmpty terminal refined id,
    refl,
  )
  collect_geometries-cases terminal refined ((id, p ∷ ps) ∷ es) =
      elim (collect_geometries-cases terminal refined es) [
        | inl (earlier, later, k, e, split, full, names, h) ↦ inl (
          (id, p ∷ ps) ∷ earlier,
          later,
          k,
          e,
          ap (λ l. (id, p ∷ ps) ∷ l) split,
          (λ r. ⊎_elim (λ first. λ nothing. absurd (cc (nothing, ap (λ r. r.1) first))) (full r)),
          names,
          rw h refl,
        )
        | inr (h, full) ↦ inr (
          rw h refl,
          λ r. ⊎_elim (λ first. λ nothing. absurd (cc (nothing, ap (λ r. r.1) first))) (full r),
        )
      ]

module _ {P : Type 0} where
  -- The polygons of the entries, one entry after another.
  abbrev pub Flattened : List (Row P) → List P → Type 0
  Flattened [] polygons = polygons ≡ []
  Flattened (r ∷ entries) polygons =
      (rest : List P) × (polygons ≡ r.1 ++ rest) × Flattened entries rest

  polygons_of-Flattened :
      (entries : List (Row P)) → Flattened entries (polygons_of (map (λ r. r.1) entries))
  polygons_of-Flattened [] = refl
  polygons_of-Flattened (r ∷ entries) =
      (polygons_of (map (λ r. r.1) entries), refl, polygons_of-Flattened entries)

module _ {P R K D : Type 0} (cleaning : Cleaning P R K D) where
  -- Polygons rebuilt with a counterclockwise exterior and clockwise holes.
  abbrev pub wound : MultiPolygon P → MultiPolygon P
  wound polygons =
      map
        (λ p.
          cleaning.new (cleaning.make_ccw_winding (cleaning.into_inner p).0)
            (map cleaning.make_cw_winding (cleaning.into_inner p).1))
        polygons

module _ {P S W R K D : Type 0} (cleaning : Cleaning P R K D) where
  -- What becomes of a geometry whose holes are filled: it is wound, must not be empty, and has an area.
  abbrev pub Measured : MultiPolygon P → Call (AssemblyError S W D) (AssemblyResult P K) → Type 0
  Measured holes_filled result =
      (geometry : MultiPolygon P) × (geometry ≡ wound cleaning holes_filled)
      × (((geometry ≡ []) × (result ≡ fails empty_assembled_geometry))
          ⊎ ((geometry ≢ [])
              × (((e : D) × (cleaning.geodesic_area_multi geometry ≡ err e)
                    × (result ≡ fails (area e)))
                  ⊎ ((total : K) × (cleaning.geodesic_area_multi geometry ≡ ok total)
                      × (result ≡ done (record { geometry = geometry; area = total }))))))

  -- What becomes of a dissolved geometry: the repairer, when there is one, takes the place of the cleaning.
  abbrev pub Repaired : MultiPolygon P → Call (AssemblyError S W D) (AssemblyResult P K) → Type 0
  Repaired dissolved result =
      ((cleaning.repair_topology ≡ none)
        × Measured (cleaning.fill_holes (cleaning.clean_topology dissolved)) result)
      ⊎ ((repairer : MultiPolygon P → Result (MultiPolygon P) D) × (cleaning.repair_topology
            ≡ some repairer)
          × (((e : D) × (repairer dissolved ≡ err e) × (result ≡ fails (topology_repair e)))
              ⊎ ((repaired : MultiPolygon P) × (repairer dissolved ≡ ok repaired)
                  × Measured (cleaning.fill_holes repaired) result)))

  -- What becomes of the entries: all their polygons are dissolved together.
  abbrev pub United : List (Row P) → Call (AssemblyError S W D) (AssemblyResult P K) → Type 0
  United entries result =
      (polygons : List P) × Flattened entries polygons
      × (((e : D) × (cleaning.dissolve polygons ≡ err e) × (result ≡ fails (dissolving e)))
          ⊎ ((dissolved : MultiPolygon P) × (cleaning.dissolve polygons ≡ ok dissolved)
              × Repaired dissolved result))

  abbrev from_holes_filled : MultiPolygon P → Call (AssemblyError S W D) (AssemblyResult P K)
  from_holes_filled holes_filled = do
    let geometry = into_canonical_multi_polygon cleaning holes_filled
    _ ← require (not (is_empty geometry)) empty_assembled_geometry
    total ← of_result area (cleaning.geodesic_area_multi geometry)
    done (record { geometry = geometry; area = total })

  from_holes_filled-Measured :
      (holes_filled : MultiPolygon P) → Measured holes_filled (from_holes_filled holes_filled)
  unfolding into_canonical_multi_polygon normalize_polygon_winding
  from_holes_filled-Measured [] = ([], refl, inl (refl, refl))
  from_holes_filled-Measured (p ∷ ps) = (
    wound cleaning (p ∷ ps),
    refl,
    inr (
      λ z. cc z,
      elim (Result-cases (cleaning.geodesic_area_multi (wound cleaning (p ∷ ps)))) [
        | inl (total, e) ↦ inr (total, e, rw e refl)
        | inr (x, e) ↦ inl (x, e, rw e refl)
      ],
    ),
  )

  with_holes_filled_cleaned :
      (dissolved : MultiPolygon P)
      → cleaning.repair_topology ≡ none
      → done (cleaning.fill_holes (cleaning.clean_topology dissolved))
        ≡ with_holes_filled {S = S} {W = W} cleaning dissolved
  with_holes_filled_cleaned dissolved nothing = rw nothing refl

  with_holes_filled_repairer :
      (dissolved : MultiPolygon P) (repairer : MultiPolygon P → Result (MultiPolygon P) D)
      (r : Result (MultiPolygon P) D)
      → cleaning.repair_topology ≡ some repairer
      → repairer dissolved ≡ r
      → with_holes_filled {S = S} {W = W} cleaning dissolved
        ≡ (of_result topology_repair r >>= λ repaired. done (cleaning.fill_holes repaired))
  with_holes_filled_repairer dissolved repairer r present e = rw (present, e) refl

  with_holes_filled-Repaired :
      (dissolved : MultiPolygon P)
      → Repaired dissolved (with_holes_filled cleaning dissolved >>= from_holes_filled)
  with_holes_filled-Repaired dissolved = elim (Option-cases cleaning.repair_topology) [
    | inl nothing ↦ inl (
      nothing,
      subst
          (λ c.
            Measured (cleaning.fill_holes (cleaning.clean_topology dissolved))
              (c >>= from_holes_filled))
          (with_holes_filled_cleaned dissolved nothing) (from_holes_filled-Measured _),
    )
    | inr (repairer, present) ↦ inr (
      repairer,
      present,
      elim (Result-cases (repairer dissolved)) [
        | inl (repaired, e) ↦ inr (
          repaired,
          e,
          subst (λ c. Measured (cleaning.fill_holes repaired) (c >>= from_holes_filled))
              (sym (with_holes_filled_repairer dissolved repairer (ok repaired) present e))
              (from_holes_filled-Measured _),
        )
        | inr (x, e) ↦ inl (
          x,
          e,
          ap (λ c. c >>= from_holes_filled)
              (with_holes_filled_repairer dissolved repairer (err x) present e),
        )
      ],
    )
  ]

  pub assemble_from_geometries-United :
      (entries : List (Row P))
      → United entries (assemble_from_geometries cleaning (map (λ r. r.1) entries))
  unfolding assemble_from_geometries
  assemble_from_geometries-United entries =
      let polygons = polygons_of (map (λ r. r.1) entries) in
      (
        polygons,
        polygons_of-Flattened entries,
        elim (Result-cases (cleaning.dissolve polygons)) [
          | inl (dissolved, e) ↦ inr (dissolved, e, rw e (with_holes_filled-Repaired dissolved))
          | inr (x, e) ↦ inl (x, e, rw e refl)
        ],
      )
