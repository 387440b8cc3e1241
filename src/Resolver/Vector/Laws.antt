-- ===== src/Resolver/Vector/Laws.antt =====
-- Which candidates are scored, and which one the ranker chooses.
use package.watershed_delineation.Prelude.{
  ℕ, suc, ◌≤◌, ◌≡◌, refl, sym, ap, subst, ◌⊎◌, ◌↔◌, inl, inr, ⊎_elim, Bool, true, false, Bool-cases,
  Option, Option-cases, none, some, List, [], ◌∷◌, ◌∈◌, map, get_elem?, length, if◌then◌else◌,
  arith,
}
use package.watershed_delineation.Prelude.Order.{
  IsPreorder, is_gt, min_by, min_from, min_by-IsLeast, IsLeast, nat_order, swapped-IsPreorder,
  part-IsPreorder, then_with-IsPreorder, constant-IsPreorder,
}
use package.watershed_delineation.Prelude.Filters.{
  enumerate, get_elem?-mem, mem-filter, get_elem?-enumerate, enumerate-mem, mem-map,
}
use package.watershed_delineation.Prelude.Floats.{Floats}
use package.watershed_delineation.Geo.{GeoCoord}
use package.watershed_delineation.Resolver.{
  SnapTarget, Geometry, Session, SnapStrategy, distance_first, weight_first, snap_nearest_point,
}
use package.watershed_delineation.Resolver.Vector.{
  ScoredCandidate, mainstem_rank, index_of, vector_dominance_order, within, indexed, rank, Scoring,
  skipped, failed, scored, passes_level, score, score_all,
}
use Prim.Native.Nat.{Ordering}

module _ {F W B : Type 0} (fl : Floats F) (fw : Floats W) where
  distance_order-IsPreorder :
      (include_distance : Bool)
      → IsPreorder {A = ScoredCandidate F W B}
          (λ a b. if include_distance then fl.total.cmp a.distance_m b.distance_m else Ordering.eq)
  distance_order-IsPreorder true =
      part-IsPreorder (λ c. c.distance_m) fl.total.cmp fl.total.preorder
  distance_order-IsPreorder false = constant-IsPreorder

  pub vector_dominance_order-IsPreorder :
      (include_distance : Bool)
      → IsPreorder {A = ScoredCandidate F W B} (vector_dominance_order fl fw include_distance)
  vector_dominance_order-IsPreorder include_distance =
      then_with-IsPreorder _ _
        (part-IsPreorder (λ c. c.target.weight) _
          (swapped-IsPreorder fw.total.cmp fw.total.preorder))
        (then_with-IsPreorder _ _
          (part-IsPreorder (λ c. mainstem_rank c.target.stem_role) _
            (swapped-IsPreorder nat_order.cmp nat_order.preorder))
          (then_with-IsPreorder _ _ (distance_order-IsPreorder include_distance)
            (part-IsPreorder (λ c. c.target.id) nat_order.cmp nat_order.preorder)))

  -- What the strategy promises of the winner among the candidates: for `weight_first`, that no candidate
  -- dominates it; for `distance_first`, that it is within the tolerance of the least distance, and that no
  -- candidate that is dominates it, distances left aside.
  abbrev pub IsWinner :
      SnapStrategy → F → List (ScoredCandidate F W B) → ScoredCandidate F W B → Type 0
  IsWinner weight_first tolerance cs w = IsLeast (vector_dominance_order fl fw true) w cs
  IsWinner distance_first tolerance cs w =
      (minimum : F) × IsLeast fl.total.cmp minimum (map (λ c. c.distance_m) cs)
      × (w ∈ cs)
      × (fl.at_most w.distance_m (fl.add minimum tolerance) ≡ true)
      × ((b : ScoredCandidate F W B)
          → b ∈ cs
          → fl.at_most b.distance_m (fl.add minimum tolerance) ≡ true
          → is_gt (vector_dominance_order fl fw false w b) ≡ false)

  -- Each candidate's own distance is within the tolerance of it.
  abbrev pub Tolerant : F → List (ScoredCandidate F W B) → Type 0
  Tolerant tolerance cs =
      (c : ScoredCandidate F W B)
      → c ∈ cs
      → fl.at_most c.distance_m (fl.add c.distance_m tolerance) ≡ true

  min_by-indexed :
      (include_distance : Bool) (ps : List (ℕ × ScoredCandidate F W B))
      (p : ℕ × ScoredCandidate F W B)
      → p ∈ ps
      → (w : ℕ × ScoredCandidate F W B) × (min_by (indexed fl fw include_distance) ps ≡ some w)
        × IsLeast (indexed fl fw include_distance) w ps
  min_by-indexed include_distance [] p m = absurd m
  min_by-indexed include_distance (x ∷ xs) p m = (
    _,
    refl,
    min_by-IsLeast (indexed fl fw include_distance)
        (part-IsPreorder (λ q. q.1) _ (vector_dominance_order-IsPreorder include_distance)) (x ∷ xs)
        _ refl,
  )

  -- The ranker finds a winner among candidates that are not empty.
  pub rank-IsWinner :
      (strategy : SnapStrategy) (tolerance : F) (c : ScoredCandidate F W B)
      (cs : List (ScoredCandidate F W B))
      → Tolerant tolerance (c ∷ cs)
      → (i : ℕ) × (w : ScoredCandidate F W B) × (rank fl fw strategy tolerance (c ∷ cs) ≡ some i)
        × (get_elem? (c ∷ cs) i ≡ some w)
        × IsWinner strategy tolerance (c ∷ cs) w
  unfolding rank
  rank-IsWinner weight_first tolerance c cs near =
      let (p, e, least) = min_by-indexed true (enumerate 0 (c ∷ cs)) (0, c) (inl refl) in
      let found = get_elem?-enumerate (c ∷ cs) p least.0 in
      (
        p.0,
        p.1,
        ap index_of e,
        found,
        (
          get_elem?-mem (c ∷ cs) p.0 p.1 found,
          λ b m. let (i, n) = enumerate-mem 0 (c ∷ cs) b m in least.1 (i, b) n,
        ),
      )
  rank-IsWinner distance_first tolerance c cs near =
      let minimum : F = min_from fl.total.cmp c.distance_m (map (λ k. k.distance_m) cs) in
      let limit : F = fl.add minimum tolerance in
      let first =
        min_by-IsLeast fl.total.cmp fl.total.preorder (map (λ k. k.distance_m) (c ∷ cs)) minimum
          refl in
      let (nearest, m, e) = mem-map (λ k. k.distance_m) minimum (c ∷ cs) first.0 in
      let (i, n) = enumerate-mem 0 (c ∷ cs) nearest m in
      let inside =
        (mem-filter (λ k. fl.at_most k.1.distance_m limit) (i, nearest) (enumerate 0 (c ∷ cs))).1 (
          n,
          subst (λ k. fl.at_most nearest.distance_m (fl.add k tolerance) ≡ true) e (near nearest m),
        ) in
      let (p, e', least) = min_by-indexed false (within fl fw limit (c ∷ cs)) (i, nearest) inside in
      let own =
        (mem-filter (λ k. fl.at_most k.1.distance_m limit) p (enumerate 0 (c ∷ cs))).0 least.0 in
      let found = get_elem?-enumerate (c ∷ cs) p own.0 in
      (
        p.0,
        p.1,
        ap index_of e',
        found,
        (
          minimum,
          first,
          get_elem?-mem (c ∷ cs) p.0 p.1 found,
          own.1,
          λ b k close.
              let (j, n') = enumerate-mem 0 (c ∷ cs) b k in
              least.1 (j, b)
                ((mem-filter (λ q. fl.at_most q.1.distance_m limit) (j, b) (enumerate 0 (c ∷ cs))).1
                  (n', close)),
        ),
      )

module _ {F W B Shape Area Box E : Type 0} (fl : Floats F) (fw : Floats W)
    (geometry : Geometry F W B Shape Area Box) (session : Session W B Box E) (outlet : GeoCoord F)
    (selected_level : Option ℕ) (radius : F) where
  abbrev verdict : SnapTarget W B → Scoring F W B
  verdict = score fl fw geometry session outlet selected_level radius

  abbrev tally : List (SnapTarget W B) → ℕ × List (ScoredCandidate F W B)
  tally = score_all fl fw geometry session outlet selected_level radius

  -- The unit has the selected level, the geometry is decoded and has a nearest point, and the distance is
  -- not above the radius.
  abbrev pub IsReached : ScoredCandidate F W B → Type 0
  IsReached c =
      (passes_level session selected_level c.target.unit_id ≡ true)
      × ((shape : Shape) × (geometry.decode_wkb c.target.geometry ≡ some shape)
          × (snap_nearest_point fl geometry outlet shape ≡ some (c.distance_m, c.nearest_coord)))
      × (fl.less radius c.distance_m ≡ false)

  -- A target of the selected level without a geometry, or without a nearest point.
  abbrev pub IsCorrupt : SnapTarget W B → Type 0
  IsCorrupt t =
      (passes_level session selected_level t.unit_id ≡ true)
      × ((geometry.decode_wkb t.geometry ≡ none)
          ⊎ ((shape : Shape) × (geometry.decode_wkb t.geometry ≡ some shape)
              × (snap_nearest_point fl geometry outlet shape ≡ none)))

  verdict-IsReached : (c : ScoredCandidate F W B) → IsReached c → verdict c.target ≡ scored c
  verdict-IsReached c (level, (shape, decoded, nearest), near) =
      rw (level, decoded, nearest, near) refl

  verdict-IsCorrupt : (t : SnapTarget W B) → IsCorrupt t → verdict t ≡ failed
  verdict-IsCorrupt t (level, inl undecoded) = rw (level, undecoded) refl
  verdict-IsCorrupt t (level, inr (shape, decoded, nowhere)) = rw (level, decoded, nowhere) refl

  verdict-cases :
      (t : SnapTarget W B)
      → (verdict t ≡ skipped)
        ⊎ ((verdict t ≡ failed) × IsCorrupt t)
        ⊎ ((c : ScoredCandidate F W B) × (verdict t ≡ scored c) × (c.target ≡ t) × IsReached c)
  verdict-cases t = elim (Bool-cases (passes_level session selected_level t.unit_id)) [
    | inr other ↦ inl (rw other refl)
    | inl level ↦ elim (Option-cases (geometry.decode_wkb t.geometry)) [
      | inl undecoded ↦ inr (inl (rw (level, undecoded) refl, (level, inl undecoded)))
      | inr (shape, decoded) ↦ elim (Option-cases (snap_nearest_point fl geometry outlet shape)) [
        | inl nowhere ↦
            inr (inl (rw (level, decoded, nowhere) refl, (level, inr (shape, decoded, nowhere))))
        | inr (found, nearest) ↦ elim (Bool-cases (fl.less radius found.0)) [
          | inl far ↦ inl (rw (level, decoded, nearest, far) refl)
          | inr near ↦ inr (
              inr (
                record { target = t; distance_m = found.0; nearest_coord = found.1 },
                rw (level, decoded, nearest, near) refl,
                refl,
                (level, (shape, decoded, nearest), near),
              ))
        ]
      ]
    ]
  ]

  -- The scored candidates are the reached ones, in the targets.
  pub score_all-IsReached :
      (ts : List (SnapTarget W B)) (c : ScoredCandidate F W B)
      → (c ∈ (tally ts).1) ↔ ((c.target ∈ ts) × IsReached c)
  unfolding score_all
  score_all-IsReached [] c = (λ z. absurd z, λ h. absurd h.0)
  score_all-IsReached (t ∷ ts) c =
      let (to, from) = score_all-IsReached ts c in
      let inside = verdict-IsReached c in
      elim (verdict-cases t) [
        | inl e ↦ rw e (
          λ m. (inr (to m).0, (to m).1),
          λ h.
              ⊎_elim (λ same. absurd (cc (e, same, inside h.1, ap verdict same)))
                (λ m. from (m, h.1)) h.0,
        )
        | inr (inl (e, bad)) ↦ rw e (
          λ m. (inr (to m).0, (to m).1),
          λ h.
              ⊎_elim (λ same. absurd (cc (e, same, inside h.1, ap verdict same)))
                (λ m. from (m, h.1)) h.0,
        )
        | inr (inr (c', e, own, reached)) ↦ rw e (
          ⊎_elim
              (λ same. subst (λ k. (k.target ∈ t ∷ ts) × IsReached k) (sym same) (inl own, reached))
              (λ m. (inr (to m).0, (to m).1)),
          λ h.
              ⊎_elim (λ same. inl (cc (e, same, inside h.1, ap verdict same)))
                (λ m. inr (from (m, h.1))) h.0,
        )
      ]

  -- No more failures than targets, and as many when all are corrupt.
  pub score_all-IsCorrupt :
      (ts : List (SnapTarget W B))
      → ((tally ts).0 ≤ length ts)
        × (((tally ts).0 ≡ length ts) ↔ ((t : SnapTarget W B) → t ∈ ts → IsCorrupt t))
  unfolding score_all
  score_all-IsCorrupt [] = (omega arith, (λ e t m. absurd m, λ h. refl))
  score_all-IsCorrupt (t ∷ ts) =
      let (few, (to, from)) = score_all-IsCorrupt ts in
      elim (verdict-cases t) [
        | inl e ↦ rw e (
          omega (arith, few),
          (
            λ k. absurd (omega (arith, few, k)),
            λ h. absurd (cc (e, verdict-IsCorrupt t (h t (inl refl)))),
          ),
        )
        | inr (inl (e, bad)) ↦ rw e (
          omega (arith, few),
          (
            λ k b. ⊎_elim (λ same. subst IsCorrupt (sym same) bad) (to (omega (arith, k)) b),
            λ h. ap suc (from (λ b m. h b (inr m))),
          ),
        )
        | inr (inr (c', e, own, reached)) ↦ rw e (
          omega (arith, few),
          (
            λ k. absurd (omega (arith, few, k)),
            λ h. absurd (cc (e, verdict-IsCorrupt t (h t (inl refl)))),
          ),
        )
      ]
