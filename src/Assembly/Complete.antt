-- ===== src/Assembly/Complete.antt =====
-- Which geometries an assembled watershed is made of, and when the assembly stops before it.
use package.watershed_delineation.Prelude.{
  ℕ, ◌≡◌, ◌≢◌, refl, sym, ap, subst, ◌⊎◌, ◌↔◌, inl, inr, ⊎_elim, Bool-cases, ◌==◌, ==_iff, not,
  Option, none, some, List, List-cases, [], ◌∷◌, ◌∈◌, ◌++◌, if◌then◌else◌, ok, err,
}
use package.watershed_delineation.Prelude.Filters.{filter, mem-filter, mem-map, map-mem}
use package.watershed_delineation.Prelude.Calls.{Call, done, fails, ◌>>=◌, require, Result-cases}
use package.watershed_delineation.Assembly.{
  MultiPolygon, Row, read, decode, AssemblyError, catchment_query, missing_catchments,
  duplicate_catchment, geometry_decode, AssemblyResult, Cleaning, UnitsToAssemble, CatchmentStore,
  contains_key, index_catchments_by_id, override_terminal, is_refined, collect_geometries,
  query_ids, is_empty, assemble_from_geometries, assemble_watershed,
}
use package.watershed_delineation.Assembly.Entries.{
  keys, Ascending, insert_vacant-Ascending, contains_key_iff, Repeats, index_from-Ascending,
}
use package.watershed_delineation.Assembly.Geometries.{
  NamesEmpty, collect_geometries-cases, United, assemble_from_geometries-United,
}

module _ {P S W : Type 0} where
  -- The entry that a refined terminal adds.
  abbrev override_rows : CatchmentStore P S W → ℕ → Option (MultiPolygon P) → List (Row P)
  override_rows store terminal none = []
  override_rows store terminal (some geometry) =
      if store.contains_id terminal then (terminal, geometry) ∷ [] else []

module _ {P S W D : Type 0} where
  override_terminal-Ascending :
      (store : CatchmentStore P S W) (terminal : ℕ) (refined : Option (MultiPolygon P))
      (es : List (Row P))
      → Ascending es
      → ((override_terminal {D = D} store terminal refined es
            ≡ fails (duplicate_catchment terminal))
          × (terminal ∈ keys es)
          × (override_rows store terminal refined ≢ []))
        ⊎ ((out : List (Row P)) × (override_terminal {D = D} store terminal refined es ≡ done out)
            × Ascending out
            × ((e : Row P) → (e ∈ out) ↔ ((e ∈ es) ⊎ (e ∈ override_rows store terminal refined))))
  unfolding override_terminal
  override_terminal-Ascending store terminal none es h =
      inr (es, refl, h, λ e. (inl, ⊎_elim (λ m. m) (λ z. absurd z)))
  override_terminal-Ascending store terminal (some geometry) es h =
      elim (Bool-cases (store.contains_id terminal)) [
        | inr unknown ↦ rw unknown (inr (es, refl, h, λ e. (inl, ⊎_elim (λ m. m) (λ z. absurd z))))
        | inl known ↦ rw known (elim (insert_vacant-Ascending terminal geometry es h) [
          | inl (e, m) ↦ inl (rw e refl, m, λ z. cc z)
          | inr (out, e, rises, mem) ↦ inr (
            out,
            rw e refl,
            rises,
            λ q. (
              λ m. ⊎_elim (λ added. inr (inl added)) inl ((mem q).0 m),
              ⊎_elim (λ m. (mem q).1 (inr m))
                  (⊎_elim (λ added. (mem q).1 (inl added)) (λ z. absurd z)),
            ),
          )
        ])
      ]

module _ {P S W D R K : Type 0} (store : CatchmentStore P S W) (upstream : UnitsToAssemble)
    (refined : Option (MultiPolygon P)) (cleaning : Cleaning P R K D) where
  abbrev added : List (Row P)
  added = override_rows store upstream.terminal refined

  -- Units that have no entry; a first entry without a polygon; or the union of the geometries of all entries.
  abbrev pub FromEntries : List (Row P) → Call (AssemblyError S W D) (AssemblyResult P K) → Type 0
  FromEntries entries result =
      ((missing : List ℕ) × (missing ≢ [])
        × ((k : ℕ) → (k ∈ missing) ↔ ((k ∈ upstream.unit_ids) × ¬ (k ∈ keys entries)))
        × (result ≡ fails (missing_catchments missing)))
      ⊎ (((k : ℕ) → k ∈ upstream.unit_ids → k ∈ keys entries)
          × (((earlier later : List (Row P)) × (id : ℕ) × (e : AssemblyError S W D) × (entries
                  ≡ earlier ++ ((id, []) ∷ later))
                × ((r : Row P) → r ∈ earlier → r.1 ≢ [])
                × NamesEmpty upstream.terminal refined id e
                × (result ≡ fails e))
              ⊎ (((r : Row P) → r ∈ entries → r.1 ≢ []) × United cleaning entries result)))

  -- What follows from the rows that the store returns: a repeated unit; or one entry for each unit of the rows
  -- and for a refined terminal that the store knows, in ascending order.
  abbrev pub FromRows : List (Row P) → Call (AssemblyError S W D) (AssemblyResult P K) → Type 0
  FromRows fetched result =
      ((k : ℕ) × (result ≡ fails (duplicate_catchment k))
        × (Repeats k fetched ⊎ ((k ≡ upstream.terminal) × (k ∈ keys fetched) × (added ≢ []))))
      ⊎ ((entries : List (Row P)) × Ascending entries
          × ((e : Row P) → (e ∈ entries) ↔ ((e ∈ fetched) ⊎ (e ∈ added)))
          × FromEntries entries result)

  -- The store is asked for the units `ids`: it fails, or returns rows.
  abbrev pub FromQuery : List ℕ → Call (AssemblyError S W D) (AssemblyResult P K) → Type 0
  FromQuery ids result =
      ((e : S) × (store.query_geometries_by_ids ids ≡ err (read e))
        × (result ≡ fails (catchment_query e)))
      ⊎ ((id : ℕ) × (e : W) × (store.query_geometries_by_ids ids ≡ err (decode id e))
          × (result ≡ fails (geometry_decode id e)))
      ⊎ ((fetched : List (Row P)) × (store.query_geometries_by_ids ids ≡ ok fetched)
          × FromRows fetched result)

  mem-missing :
      (entries : List (Row P)) (k : ℕ)
      → (k ∈ filter (λ id. not (contains_key entries id)) upstream.unit_ids)
        ↔ ((k ∈ upstream.unit_ids) × ¬ (k ∈ keys entries))
  mem-missing entries k =
      let (to, from) = mem-filter (λ id. not (contains_key entries id)) k upstream.unit_ids in
      let (found, there) = contains_key_iff entries k in
      (
        λ m. ((to m).0, λ n. absurd (cc ((to m).1, there n, ap not (there n)))),
        λ h. from (
          h.0,
          elim (Bool-cases (contains_key entries k)) [
            | inl has ↦ absurd (h.1 (found has))
            | inr lacks ↦ ap not lacks
          ],
        ),
      )

  abbrev from_entries : List (Row P) → Call (AssemblyError S W D) (AssemblyResult P K)
  from_entries unit_map = do
    let missing_ids = filter (λ id. not (contains_key unit_map id)) upstream.unit_ids
    _ ← require (is_empty missing_ids) (missing_catchments missing_ids)
    geometries ← collect_geometries upstream.terminal (is_refined refined) unit_map
    assemble_from_geometries cleaning geometries

  from_entries-FromEntries : (entries : List (Row P)) → FromEntries entries (from_entries entries)
  from_entries-FromEntries entries =
      elim (List-cases (filter (λ id. not (contains_key entries id)) upstream.unit_ids)) [
        | inr (x, xs, some_gone) ↦ inl (
          filter (λ id. not (contains_key entries id)) upstream.unit_ids,
          λ z. cc (some_gone, z),
          mem-missing entries,
          rw (ap is_empty some_gone) refl,
        )
        | inl nothing ↦ inr (
          λ k m. elim (Bool-cases (contains_key entries k)) [
            | inl has ↦ (contains_key_iff entries k).0 has
            | inr lacks ↦ absurd (
                subst (λ l. k ∈ l) nothing
                  ((mem-filter (λ id. not (contains_key entries id)) k upstream.unit_ids).1
                    (m, ap not lacks)))
          ],
          elim (collect_geometries-cases {S = S} {W = W} {D = D} upstream.terminal refined
              entries) [
                | inl (earlier, later, id, e, split, full, names, h) ↦
                    inl
                      (earlier, later, id, e, split, full, names, rw (ap is_empty nothing, h) refl)
                | inr (h, full) ↦ inr (
                  full,
                  subst (United cleaning entries) (sym (rw (ap is_empty nothing, h) refl))
                      (assemble_from_geometries-United cleaning entries),
                )
              ],
        )
      ]

  abbrev from_rows : List (Row P) → Call (AssemblyError S W D) (AssemblyResult P K)
  from_rows fetched = do
    indexed ← index_catchments_by_id fetched
    unit_map ← override_terminal store upstream.terminal refined indexed
    from_entries unit_map

  from_rows-FromRows : (fetched : List (Row P)) → FromRows fetched (from_rows fetched)
  unfolding index_catchments_by_id
  from_rows-FromRows fetched = elim (index_from-Ascending {S = S} {W = W} {D = D} fetched [] tt) [
    | inl (k, e, twice) ↦ inl (k, rw e refl, ⊎_elim (λ m. absurd m.0) inl twice)
    | inr (indexed, e, rises, mem) ↦
        elim (override_terminal-Ascending {D = D} store upstream.terminal refined indexed rises) [
          | inl (f, m, has) ↦ inl (
            upstream.terminal,
            rw (e, f) refl,
            inr (
              refl,
              (let (q, n, name) = mem-map (λ r. r.0) upstream.terminal indexed m in
                  subst (λ k. k ∈ keys fetched) name
                    (map-mem (λ r. r.0) q fetched (⊎_elim (λ z. absurd z) (λ o. o) ((mem q).0 n)))),
              has,
            ),
          )
          | inr (entries, f, rises', mem') ↦ inr (
            entries,
            rises',
            λ q. (
              λ m. ⊎_elim (λ n. ⊎_elim (λ z. absurd z) inl ((mem q).0 n)) inr ((mem' q).0 m),
              ⊎_elim (λ m. (mem' q).1 (inl ((mem q).1 (inr m)))) (λ m. (mem' q).1 (inr m)),
            ),
            subst (FromEntries entries) (sym (rw (e, f) refl)) (from_entries-FromEntries entries),
          )
        ]
  ]

  query_ids-mem :
      (k : ℕ)
      → (k ∈ query_ids upstream refined)
        ↔ ((k ∈ upstream.unit_ids) × ((refined ≡ none) ⊎ (k ≢ upstream.terminal)))
  query_ids-mem k = named refined
    where
      named :
          (o : Option (MultiPolygon P))
          → (k ∈ query_ids upstream o)
            ↔ ((k ∈ upstream.unit_ids) × ((o ≡ none) ⊎ (k ≢ upstream.terminal)))
      named none = (λ m. (m, inl refl), λ h. h.0)
      named (some geometry) =
          let (to, from) = mem-filter (λ id. not (id == upstream.terminal)) k upstream.unit_ids in
          (
            λ m. (
              (to m).0,
              inr (λ e. absurd (cc ((to m).1, ap not ((==_iff k upstream.terminal).1 e)))),
            ),
            λ h. from (
              h.0,
              ⊎_elim (λ z. absurd (cc z))
                  (λ other. elim (Bool-cases (k == upstream.terminal)) [
                    | inl same ↦ absurd (other ((==_iff k upstream.terminal).0 same))
                    | inr differs ↦ ap not differs
                  ])
                  h.1,
            ),
          )

  -- The store is asked for the units, without the terminal one when it has a refined geometry. The assembly
  -- reports the failure of the store, or a repeated unit, or all units without an entry, or the first entry
  -- without a polygon. Otherwise it dissolves the polygons of the entries, in ascending order of the units,
  -- repairs or cleans the result, fills its holes, winds its polygons and measures it; the failure of such a step is
  -- the result, and so is an error when no polygon is left.
  pub assemble_watershed-FromEntries :
      (ids : List ℕ) × ((k : ℕ)
        → (k ∈ ids) ↔ ((k ∈ upstream.unit_ids) × ((refined ≡ none) ⊎ (k ≢ upstream.terminal))))
      × FromQuery ids (assemble_watershed store upstream refined cleaning)
  unfolding assemble_watershed
  assemble_watershed-FromEntries = (
    query_ids upstream refined,
    query_ids-mem,
    elim (Result-cases (store.query_geometries_by_ids (query_ids upstream refined))) [
      | inl (fetched, e) ↦ inr (
          inr (fetched, e, subst (FromRows fetched) (sym (rw e refl)) (from_rows-FromRows fetched)))
      | inr (read x, e) ↦ inl (x, e, rw e refl)
      | inr (decode id x, e) ↦ inr (inl (id, x, e, rw e refl))
    ],
  )
