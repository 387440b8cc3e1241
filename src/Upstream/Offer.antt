-- ===== src/Upstream/Offer.antt =====
-- One expansion: what it adds to the queue, the visited set and the tree.
use mathlib.Core.List.{append_assoc, append-nil}
use package.watershed_delineation.Prelude.{
  ℕ, suc, ◌+◌, ◌≤◌, ◌≡◌, refl, sym, ap, ◌∙◌, ◌⊎◌, inl, inr, ⊎_elim, ◌↔◌, true, false, Bool-cases,
  none, some, Option-cases, List, [], ◌∷◌, ◌++◌, ◌∈◌, Nodup, length, Result, ok, err, Eq, mem?,
  mem?_iff, not-mem?, lookup, beq_refl, beq_ne, if◌then◌else◌, arith,
}
use package.watershed_delineation.Upstream.{
  DrainageGraph, TraversalError, dangling_upstream_ref, Frontier, offer, offer_all,
}

module _ {UnitId : Type 0} (eq : Eq UnitId) (graph : DrainageGraph UnitId) where
  -- The rows that are not yet visited.
  pub unseen : List UnitId → List UnitId → ℕ
  unseen [] visited = 0
  unseen (r ∷ rows) visited = (if mem? eq r visited then 0 else 1) + unseen rows visited

  unseen_mono :
      (rows : List UnitId) (id : UnitId) (visited : List UnitId)
      → unseen rows (id ∷ visited) ≤ unseen rows visited
  unfolding unseen
  unseen_mono [] id visited = omega arith
  unseen_mono (r ∷ rows) id visited = ground (arith, unseen_mono rows id visited)

  unseen-cons :
      (rows : List UnitId) (id : UnitId) (visited : List UnitId)
      → id ∈ rows
      → mem? eq id visited ≡ false
      → suc (unseen rows (id ∷ visited)) ≤ unseen rows visited
  unfolding unseen
  unseen-cons [] id visited m new = absurd m
  unseen-cons (r ∷ rows) id visited (inl e) new =
      ground
        (arith, unseen_mono rows id visited, e, beq_refl eq r, new, ap (λ x. mem? eq x visited) e)
  unseen-cons (r ∷ rows) id visited (inr m) new = ground (arith, unseen-cons rows id visited m new)

  unseen-nil : (rows : List UnitId) → unseen rows [] ≡ length rows
  unfolding unseen
  unseen-nil [] = refl
  unseen-nil (r ∷ rows) = omega (arith, unseen-nil rows)

  pub unseen-start :
      (terminal : UnitId)
      → terminal ∈ graph.rows
      → suc (unseen graph.rows (terminal ∷ [])) ≤ length graph.rows
  unseen-start terminal m =
      omega (arith, unseen-cons graph.rows terminal [] m refl, unseen-nil graph.rows)

  -- The ids that were offered and pushed, in their order.
  pub record Adds (current : UnitId) (ids : List UnitId) (s s' : Frontier UnitId) : Type 0 where
    pub added : List UnitId
    pub queue : s'.queue ≡ s.queue ++ added
    pub visited : (v : UnitId) → (v ∈ s'.visited) ↔ ((v ∈ s.visited) ⊎ (v ∈ added))
    pub offered : (v : UnitId) → v ∈ added → v ∈ ids
    pub covered : (v : UnitId) → v ∈ ids → v ∈ s'.visited
    pub unique : Nodup added
    pub fresh : (v : UnitId) → v ∈ added → ¬ (v ∈ s.visited)
    pub present : (v : UnitId) → v ∈ added → (row : List UnitId) × (graph.get v ≡ some row)
    pub parent : (v : UnitId) → v ∈ added → lookup eq v s'.parents ≡ some current
    pub kept : (v : UnitId) → ¬ (v ∈ added) → lookup eq v s'.parents ≡ lookup eq v s.parents
    pub work : unseen graph.rows s'.visited + length added ≤ unseen graph.rows s.visited

  pub data Offers (current : UnitId) (ids : List UnitId) (s : Frontier UnitId)
      (r : Result (Frontier UnitId) (TraversalError UnitId)) : Type 0 where
    adds : (s' : Frontier UnitId) → r ≡ ok s' → Adds current ids s s' → Offers current ids s r
    dangles :
        (t : UnitId)
        → r ≡ err (dangling_upstream_ref current t)
        → t ∈ ids
        → graph.get t ≡ none
        → Offers current ids s r

  Adds-none : (current : UnitId) (s : Frontier UnitId) → Adds current [] s s
  Adds-none current s = record {
    added = [];
    queue = sym (append-nil s.queue);
    visited = λ v. (inl, ⊎_elim (λ h. h) (λ h. absurd h));
    offered = λ v m. m;
    covered = λ v m. absurd m;
    unique = tt;
    fresh = λ v m. absurd m;
    present = λ v m. absurd m;
    parent = λ v m. absurd m;
    kept = λ v m. refl;
    work = omega arith;
  }

  Adds-skip :
      {current id : UnitId} {ids : List UnitId} {s s' : Frontier UnitId}
      → id ∈ s.visited
      → Adds current ids s s'
      → Adds current (id ∷ ids) s s'
  Adds-skip {id} seen a = record {
    added = a.added;
    queue = a.queue;
    visited = a.visited;
    offered = λ v m. inr (a.offered v m);
    covered = λ v. ⊎_elim (λ e. rw e ((a.visited id).1 (inl seen))) (a.covered v);
    unique = a.unique;
    fresh = a.fresh;
    present = a.present;
    parent = a.parent;
    kept = a.kept;
    work = a.work;
  }

  abbrev pushed : UnitId → UnitId → Frontier UnitId → Frontier UnitId
  pushed current id s = record {
    visited = id ∷ s.visited;
    parents = (id, current) ∷ s.parents;
    queue = s.queue ++ id ∷ [];
  }

  Adds-push :
      {current id : UnitId} {ids row : List UnitId} {s s' : Frontier UnitId}
      → mem? eq id s.visited ≡ false
      → graph.get id ≡ some row
      → Adds current ids (pushed current id s) s'
      → Adds current (id ∷ ids) s s'
  Adds-push {current} {id} {ids} {row} {s} {s'} new e a = record {
    added = id ∷ a.added;
    queue = a.queue ∙ append_assoc s.queue (id ∷ []) a.added;
    visited = λ v. ground (arith, a.visited v);
    offered = λ v. ⊎_elim inl (λ m. inr (a.offered v m));
    covered = λ v. ⊎_elim (λ e'. rw e' ((a.visited id).1 (inl (inl refl)))) (a.covered v);
    unique = (λ m. a.fresh id m (inl refl), a.unique);
    fresh = λ v.
        ⊎_elim (λ e' m. not-mem? eq id s.visited new (rw e' at m)) (λ m k. a.fresh v m (inr k));
    present = λ v. ⊎_elim (λ e'. (row, rw e' e)) (a.present v);
    parent = λ v.
        ⊎_elim (λ e'. rw e' (a.kept id (λ m. a.fresh id m (inl refl)) ∙ rw (beq_refl eq id)))
          (a.parent v);
    kept = λ v far. a.kept v (λ m. far (inr m)) ∙ rw (beq_ne eq id v (λ e'. far (inl (sym e'))));
    work =
        omega
          (arith, unseen-cons graph.rows id s.visited (graph.listed id (λ gone. cc (e, gone))) new);
  }

  offer-seen :
      (current id : UnitId) (s : Frontier UnitId)
      → mem? eq id s.visited ≡ true
      → offer eq graph current id s ≡ ok s
  unfolding offer
  offer-seen current id s seen = rw seen

  offer-new :
      (current id : UnitId) (s : Frontier UnitId) {row : List UnitId}
      → mem? eq id s.visited ≡ false
      → graph.get id ≡ some row
      → offer eq graph current id s ≡ ok (pushed current id s)
  unfolding offer
  offer-new current id s new found = rw (new, found)

  offer-gone :
      (current id : UnitId) (s : Frontier UnitId)
      → mem? eq id s.visited ≡ false
      → graph.get id ≡ none
      → offer eq graph current id s ≡ err (dangling_upstream_ref current id)
  unfolding offer
  offer-gone current id s new gone = rw (new, gone)

  pub offer_all-Offers :
      (current : UnitId) (ids : List UnitId) (s : Frontier UnitId)
      → Offers current ids s (offer_all eq graph current ids s)
  unfolding offer_all
  offer_all-Offers current [] s = adds s refl (Adds-none current s)
  offer_all-Offers current (id ∷ ids) s = elim (Bool-cases (mem? eq id s.visited)) [
    | inl seen ↦
        let e' = offer-seen current id s seen in
        elim (offer_all-Offers current ids s) [
          | adds s' e a ↦
              adds s' (rw (e', offer_all) e) (Adds-skip ((mem?_iff eq id s.visited).0 seen) a)
          | dangles t e m gone ↦ dangles t (rw (e', offer_all) e) (inr m) gone
        ]
    | inr new ↦ elim (Option-cases (graph.get id)) [
      | inl gone ↦ dangles id (rw (offer-gone current id s new gone, offer_all)) (inl refl) gone
      | inr (row, found) ↦
          let e' = offer-new current id s new found in
          elim (offer_all-Offers current ids (pushed current id s)) [
            | adds s' e a ↦ adds s' (rw (e', offer_all) e) (Adds-push new found a)
            | dangles t e m gone ↦ dangles t (rw (e', offer_all) e) (inr m) gone
          ]
    ]
  ]
