-- ===== src/Resolver/Pip/Choice.antt =====
-- What `resolve_via_pip` answers.
use package.watershed_delineation.Prelude.{
  ℕ, suc, ◌≡◌, ◌≢◌, refl, sym, subst, ◌⊎◌, ◌↔◌, inl, inr, ⊎_elim, false, Bool-cases, ◌==◌, ==_iff,
  Option, none, some, List, [], ◌∷◌, ◌∈◌, length, ok, arith,
}
use package.watershed_delineation.Prelude.Order.{is_gt, IsLeast, cmp_refl}
use package.watershed_delineation.Prelude.Sorting.{
  sort_by, mem-sort_by, length-sort_by, IsSorted, sort_by-IsSorted,
}
use package.watershed_delineation.Prelude.Floats.{Floats}
use package.watershed_delineation.Prelude.Calls.{Call, done, fails}
use package.watershed_delineation.Geo.{GeoCoord}
use package.watershed_delineation.Resolver.{
  CatchmentUnit, Geometry, Session, PipTieBreak, OutletResolution, unit_containment,
  OutletResolutionError, outside_all_catchments, all_geometries_corrupt, search_bbox,
}
use package.watershed_delineation.Resolver.Pip.{
  cascade_order, tie_break_of, decode_units, at_level, hits_of, first_of_sorted, choose_hit,
  choose_unit, resolve_via_pip,
}
use package.watershed_delineation.Resolver.Pip.Laws.{
  cascade_order-IsPreorder, decode_units-failures, IsHit, hits_of-IsHit,
}

module _ {W B : Type 0} (fw : Floats W) where
  -- The label of a choice `a` among hits: none for a single hit, and otherwise the rule that tells `a` from a
  -- least one of the others.
  abbrev pub IsLabel : List (CatchmentUnit W B) → CatchmentUnit W B → Option PipTieBreak → Type 0
  IsLabel hits a label =
      ((hits ≡ a ∷ []) × (label ≡ none))
      ⊎ ((b : CatchmentUnit W B) × (rest : List (CatchmentUnit W B)) × ((u : CatchmentUnit W B)
            → (u ∈ hits) ↔ ((u ≡ a) ⊎ (u ∈ b ∷ rest)))
          × (length hits ≡ suc (length (b ∷ rest)))
          × IsLeast (cascade_order fw) b (b ∷ rest)
          × (label ≡ some (tie_break_of fw a b)))

  -- The choice among hits: a least one, with its label.
  abbrev pub Chosen : List (CatchmentUnit W B) → CatchmentUnit W B → Option PipTieBreak → Type 0
  Chosen hits a label = IsLeast (cascade_order fw) a hits × IsLabel hits a label

  head-IsLeast :
      (a : CatchmentUnit W B) (rest : List (CatchmentUnit W B))
      → IsSorted (cascade_order fw) (a ∷ rest)
      → IsLeast (cascade_order fw) a (a ∷ rest)
  head-IsLeast a rest h = (
    inl refl,
    λ b.
        ⊎_elim
          (λ e.
            subst (λ k. is_gt (cascade_order fw a k) ≡ false) (sym e)
              (cmp_refl (cascade_order fw) (cascade_order-IsPreorder fw) a))
          (h.0 b),
  )

  module _ {F E : Type 0} (outlet : GeoCoord F) (considered : ℕ) where
    abbrev pub chosen :
        CatchmentUnit W B
        → Option PipTieBreak
        → Call (OutletResolutionError F E) (OutletResolution F W)
    chosen a label = done (
        unit_containment a.id outlet
          (record { candidates_considered = considered; tie_break = label }))

    first_of_sorted-Chosen :
        (hits sorted : List (CatchmentUnit W B)) (n : ℕ)
        → length hits ≡ suc (suc n)
        → length sorted ≡ length hits
        → ((u : CatchmentUnit W B) → (u ∈ sorted) ↔ (u ∈ hits))
        → IsSorted (cascade_order fw) sorted
        → (a : CatchmentUnit W B) × (label : Option PipTieBreak) × Chosen hits a label
          × (first_of_sorted {B = B} fw outlet considered sorted ≡ chosen a label)
    first_of_sorted-Chosen hits [] n size same mem order = absurd (omega (arith, size, same))
    first_of_sorted-Chosen hits (a ∷ []) n size same mem order = absurd (omega (arith, size, same))
    first_of_sorted-Chosen hits (a ∷ b ∷ rest) n size same mem order =
        let least = head-IsLeast a (b ∷ rest) order in
        (
          a,
          some (tie_break_of fw a b),
          (
            ((mem a).0 (inl refl), λ u m. least.1 u ((mem u).1 m)),
            inr (
              b,
              rest,
              (λ u. ((mem u).1, (mem u).0)),
              sym same,
              head-IsLeast b rest order.1,
              refl,
            ),
          ),
          refl,
        )

    -- Some hit is chosen when there is one.
    pub choose_hit-Chosen :
        (total failures : ℕ) (hits : List (CatchmentUnit W B))
        → hits ≢ []
        → (a : CatchmentUnit W B) × (label : Option PipTieBreak) × Chosen hits a label
          × (choose_hit {B = B} fw outlet total failures considered hits ≡ chosen a label)
    unfolding choose_hit
    choose_hit-Chosen total failures [] some_hit = absurd (some_hit refl)
    choose_hit-Chosen total failures (a ∷ []) some_hit =
        (a, none, (head-IsLeast a [] (λ b m. absurd m, tt), inl (refl, refl)), refl)
    choose_hit-Chosen total failures (a ∷ b ∷ rest) some_hit =
        let hits : List (CatchmentUnit W B) = a ∷ b ∷ rest in
        let order = cascade_order fw in
        first_of_sorted-Chosen hits (sort_by order hits) (length rest) refl
          (length-sort_by order hits) (λ u. mem-sort_by order u hits)
          (sort_by-IsSorted order (cascade_order-IsPreorder fw) hits)

module _ {F W B Shape Area Box E : Type 0} (fl : Floats F) (fw : Floats W)
    (geometry : Geometry F W B Shape Area Box) (session : Session W B Box E) (outlet : GeoCoord F)
    (selected_level : Option ℕ) where
  -- The answers for the units that the store returns.
  abbrev pub Answer :
      List (CatchmentUnit W B) → Call (OutletResolutionError F E) (OutletResolution F W) → Type 0
  Answer us call =
      (((u : CatchmentUnit W B) → ¬ IsHit geometry outlet selected_level us u)
        × (((us ≢ [])
              × ((u : CatchmentUnit W B)
                  → u ∈ us
                  → geometry.decode_wkb_multi_polygon u.geometry ≡ none)
              × (call ≡ fails (all_geometries_corrupt outlet (length us))))
            ⊎ (((us ≡ [])
                  ⊎ ¬ (
                      (u : CatchmentUnit W B)
                      → u ∈ us
                      → geometry.decode_wkb_multi_polygon u.geometry ≡ none))
                × (call ≡ fails (outside_all_catchments outlet)))))
      ⊎ ((hits : List (CatchmentUnit W B)) × (a : CatchmentUnit W B) × (label : Option PipTieBreak)
          × ((u : CatchmentUnit W B) → (u ∈ hits) ↔ IsHit geometry outlet selected_level us u)
          × Chosen fw hits a label
          × (call
              ≡ chosen fw outlet (length (at_level selected_level (decode_units geometry us).1)) a
                  label))

  choose_hit-Answer :
      (x : CatchmentUnit W B) (us : List (CatchmentUnit W B)) (failures : ℕ)
      (hits : List (CatchmentUnit W B))
      → ((u : CatchmentUnit W B) → (u ∈ hits) ↔ IsHit geometry outlet selected_level (x ∷ us) u)
      → (failures ≡ length (x ∷ us)) ↔ (
          (u : CatchmentUnit W B)
          → u ∈ x ∷ us
          → geometry.decode_wkb_multi_polygon u.geometry ≡ none)
      → Answer (x ∷ us) (
          choose_hit fw outlet
            (length (x ∷ us))
            failures
            (length (at_level selected_level (decode_units geometry (x ∷ us)).1))
            hits)
  unfolding choose_hit
  choose_hit-Answer x us failures [] mem all = inl (
    λ u h. (mem u).1 h,
    elim (Bool-cases (failures == length (x ∷ us))) [
      | inl every ↦
          let e = (==_iff failures (length (x ∷ us))).0 every in
          inl (λ h. cc h, all.0 e, rw (every, e) (ground arith))
      | inr fewer ↦ inr (
        inr (λ h. absurd (cc (fewer, (==_iff failures (length (x ∷ us))).1 (all.1 h)))),
        ground (arith, fewer),
      )
    ],
  )
  choose_hit-Answer x us failures (h ∷ hs) mem all =
      let considered = length (at_level selected_level (decode_units geometry (x ∷ us)).1) in
      let (a, label, chosen_a, e) =
        choose_hit-Chosen fw outlet considered (length (x ∷ us)) failures (h ∷ hs) (λ z. cc z) in
      inr (h ∷ hs, a, label, mem, chosen_a, e)

  -- For the units that the store returns for the search box: the answer.
  pub resolve_via_pip-IsLeast :
      (box : Box) (us : List (CatchmentUnit W B))
      → search_bbox fl geometry outlet (fl.literal 100 0) ≡ some box
      → session.catchments box ≡ ok us
      → Answer us (resolve_via_pip fl fw geometry session outlet selected_level)
  unfolding resolve_via_pip choose_unit
  resolve_via_pip-IsLeast box [] boxed stored =
      inl (none_hit, inr (inl refl, rw (boxed, stored) refl))
    where
      none_hit : (u : CatchmentUnit W B) → ¬ IsHit geometry outlet selected_level [] u
      none_hit u (inl h) = h.1.0
      none_hit u (inr h) = h.1.1.0
  resolve_via_pip-IsLeast box (x ∷ us) boxed stored =
      let all = decode_units geometry (x ∷ us) in
      let decoded = at_level selected_level all.1 in
      rw (boxed, stored)
        (choose_hit-Answer x us all.0 (hits_of geometry outlet decoded)
          (hits_of-IsHit geometry outlet selected_level (x ∷ us))
          (decode_units-failures geometry (x ∷ us)).1)
