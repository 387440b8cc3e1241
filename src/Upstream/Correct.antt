-- ===== src/Upstream/Correct.antt =====
-- The traversal returns the upstream units of the terminal, with their drainage tree, or a
-- dangling reference that it met.
use mathlib.Core.List.{append_assoc, append-nil}
use package.watershed_delineation.Prelude.{
  ℕ, zero, suc, ◌+◌, ◌≤◌, ◌≡◌, refl, sym, ap, ◌∙◌, subst, inl, inr, ⊎_elim, ◌↔◌, true, none, some,
  Option-cases, List, [], ◌∷◌, ◌++◌, ◌∈◌, mem-append, Nodup, Nodup-append, List-cases, length,
  length-append, Result, ok, err, Eq, mem?_iff, mem_cases, lookup, returns, arith,
}
use package.watershed_delineation.Upstream.{
  DrainageGraph, TraversalError, terminal_not_found, dangling_upstream_ref, UpstreamUnits, Frontier,
  offer_all, expand, traverse, collect_upstream, contains, terminal_of,
}
use package.watershed_delineation.Upstream.Walk.{Edge, Reaches, here, step}
use package.watershed_delineation.Upstream.Offer.{
  unseen, unseen-start, Adds, adds, dangles, offer_all-Offers,
}

module _ {UnitId : Type 0} (eq : Eq UnitId) (graph : DrainageGraph UnitId) (terminal : UnitId) where
  -- The recorded downstream units lead from `v` to the terminal, along edges of the graph.
  pub data Leads (parents : List (UnitId × UnitId)) : UnitId → Type 0 where
    root : lookup eq terminal parents ≡ none → Leads parents terminal
    via :
        {v p : UnitId}
        → lookup eq v parents ≡ some p
        → Edge graph p v
        → Leads parents p
        → Leads parents v

  -- The loop's invariant, over the units listed and the queue.
  record Inv (units : List UnitId) (s : Frontier UnitId) : Type 0 where
    unique : Nodup (units ++ s.queue)
    seen : (v : UnitId) → (v ∈ s.visited) ↔ (v ∈ units ++ s.queue)
    sound : (v : UnitId) → v ∈ s.visited → Reaches graph terminal v
    present : (v : UnitId) → v ∈ s.visited → (row : List UnitId) × (graph.get v ≡ some row)
    closed : (u v : UnitId) → u ∈ units → Edge graph u v → v ∈ s.visited
    first : (rest : List UnitId) × (units ++ s.queue ≡ terminal ∷ rest)
    tree : (v : UnitId) → v ∈ s.visited → Leads s.parents v
    keyed : (v p : UnitId) → lookup eq v s.parents ≡ some p → v ∈ s.visited

  -- A tree stays a tree when only the parents of units outside it are set.
  Leads-kept :
      {m m' : List (UnitId × UnitId)} {v : UnitId}
      → ((w : UnitId) → Leads m w → lookup eq w m' ≡ lookup eq w m)
      → Leads m v
      → Leads m' v
  Leads-kept kept (root e) = root (kept terminal (root e) ∙ e)
  Leads-kept kept (via {v} {p} e edge up) =
      via (kept v (via e edge up) ∙ e) edge (Leads-kept kept up)

  regroup :
      (units rest added : List UnitId) (u : UnitId)
      → (units ++ u ∷ []) ++ (rest ++ added) ≡ (units ++ u ∷ rest) ++ added
  regroup units rest added u = simp append_assoc

  Leads-visited :
      {units : List UnitId} {s : Frontier UnitId} {w : UnitId}
      → Inv units s
      → Leads s.parents w
      → w ∈ s.visited
  Leads-visited i (root e) = (i.seen terminal).1 (rw i.first.1 (inl refl))
  Leads-visited i (via {v} {p} e edge up) = i.keyed v p e

  Inv-start :
      (row : List UnitId)
      → graph.get terminal ≡ some row
      → Inv [] (record { visited = terminal ∷ []; parents = []; queue = terminal ∷ [] })
  Inv-start row e = record {
    unique = (λ m. m, tt);
    seen = λ v. (λ m. m, λ m. m);
    sound = λ v. ⊎_elim (λ e'. rw e' here) (λ z. absurd z);
    present = λ v. ⊎_elim (λ e'. (row, rw e' e)) (λ z. absurd z);
    closed = λ u v m edge. absurd m;
    first = ([], refl);
    tree = λ v. ⊎_elim (λ e'. rw e' (root refl)) (λ z. absurd z);
    keyed = λ v p e'. cc;
  }

  -- The front of the queue moves to the list when its upstream ids are added.
  Inv-expand :
      {units rest ids : List UnitId} {current : UnitId} {s s' : Frontier UnitId}
      → s.queue ≡ current ∷ rest
      → Inv units s
      → graph.get current ≡ some ids
      → Adds eq graph current ids (record s { queue = rest }) s'
      → Inv (units ++ current ∷ []) s'
  Inv-expand {units} {rest} {ids} {current} {s} {s'} front i found a = record {
    unique = rw grown (
        Nodup-append (units ++ s.queue) a.added i.unique a.unique
          (λ v m k. a.fresh v k ((i.seen v).1 m)));
    seen = λ v.
        rw grown (ground (arith, a.visited v, i.seen v, mem-append v (units ++ s.queue) a.added));
    sound = λ v m.
        ⊎_elim (i.sound v) (λ k. step (i.sound current current_seen) (edge v k))
          ((a.visited v).0 m);
    present = λ v m. ⊎_elim (i.present v) (a.present v) ((a.visited v).0 m);
    closed = λ u v m e.
        ⊎_elim (λ old. (a.visited v).1 (inl (i.closed u v old e)))
          (λ last. leads_on u v (only last) e) ((mem-append u units (current ∷ [])).0 m);
    first = (i.first.0 ++ a.added, rw grown (ap (λ l. l ++ a.added) i.first.1));
    tree = λ v m.
        ⊎_elim (old_tree v) (λ k. via (a.parent v k) (edge v k) (old_tree current current_seen))
          ((a.visited v).0 m);
    keyed = λ v p e.
        ⊎_elim (λ k. (a.visited v).1 (inr k))
          (λ far. (a.visited v).1 (inl (i.keyed v p (sym (a.kept v far) ∙ e))))
          (mem_cases eq v a.added);
  }
    where
      grown : (units ++ current ∷ []) ++ s'.queue ≡ (units ++ s.queue) ++ a.added
      grown = rw (a.queue, front) (regroup units rest a.added current)

      current_seen : current ∈ s.visited
      current_seen =
          (i.seen current).1
            (rw front ((mem-append current units (current ∷ rest)).1 (inr (inl refl))))

      edge : (v : UnitId) → v ∈ a.added → Edge graph current v
      edge v m = (ids, found, a.offered v m)

      only : {u : UnitId} → u ∈ current ∷ [] → u ≡ current
      only m = ⊎_elim (λ e. e) (λ z. absurd z) m

      leads_on : (u v : UnitId) → u ≡ current → Edge graph u v → v ∈ s'.visited
      leads_on u v e (ids', e', m) =
          let same : ids' ≡ ids = cc (e, e', found) in a.covered v (rw same at m)

      old_tree : (v : UnitId) → v ∈ s.visited → Leads s'.parents v
      old_tree v m =
          Leads-kept (λ w l. a.kept w (λ k. a.fresh w k (Leads-visited i l))) (i.tree v m)

  -- What the collected units are.
  pub record IsUpstream (u : UpstreamUnits UnitId) : Type 0 where
    pub starts : terminal_of u ≡ returns terminal
    pub unique : Nodup u.units
    pub exact : (v : UnitId) → (v ∈ u.units) ↔ Reaches graph terminal v
    pub index : (v : UnitId) → (contains eq u v ≡ true) ↔ (v ∈ u.units)
    pub present : (v : UnitId) → v ∈ u.units → (row : List UnitId) × (graph.get v ≡ some row)
    pub tree : (v : UnitId) → v ∈ u.units → Leads u.downstream v

  pub data Collects (r : Result (UpstreamUnits UnitId) (TraversalError UnitId)) : Type 0 where
    collected : (u : UpstreamUnits UnitId) → r ≡ ok u → IsUpstream u → Collects r
    no_terminal : r ≡ err (terminal_not_found terminal) → graph.get terminal ≡ none → Collects r
    dangling :
        (v t : UnitId)
        → r ≡ err (dangling_upstream_ref v t)
        → Reaches graph terminal v
        → Edge graph v t
        → graph.get t ≡ none
        → Collects r

  all_units : (units : List UnitId) (s : Frontier UnitId) → s.queue ≡ [] → units ++ s.queue ≡ units
  all_units units s e = ap (λ q. units ++ q) e ∙ append-nil units

  -- At the end the visited units are those that are listed.
  settled :
      (units : List UnitId) (s : Frontier UnitId)
      → Inv units s
      → s.queue ≡ []
      → (v : UnitId) → (v ∈ s.visited) ↔ (v ∈ units)
  settled units s i e v = subst (λ l. (v ∈ s.visited) ↔ (v ∈ l)) (all_units units s e) (i.seen v)

  -- A walk stays among the listed units, which their edges do not leave.
  complete :
      (units : List UnitId) (s : Frontier UnitId) {v : UnitId}
      → Inv units s
      → s.queue ≡ []
      → Reaches graph terminal v
      → v ∈ units
  complete units s i e here = rw (sym (all_units units s e) ∙ i.first.1) (inl refl)
  complete units s i e (step {u} {v} r edge) =
      (settled units s i e v).0 (i.closed u v (complete units s i e r) edge)

  IsUpstream-end :
      (units : List UnitId) (s : Frontier UnitId)
      → Inv units s
      → s.queue ≡ []
      → IsUpstream (record { units = units; index = s.visited; downstream = s.parents })
  unfolding terminal_of contains
  IsUpstream-end units s i e =
      let same = settled units s i e in
      record {
        starts = rw (sym (all_units units s e) ∙ i.first.1);
        unique = subst Nodup (all_units units s e) i.unique;
        exact = λ v. (λ m. i.sound v ((same v).1 m), complete units s i e);
        index = λ v.
            let (to, from) = mem?_iff eq v s.visited in
            (λ m. (same v).0 (to m), λ m. from ((same v).1 m));
        present = λ v m. i.present v ((same v).1 m);
        tree = λ v m. i.tree v ((same v).1 m);
      }

  expand-offer_all :
      (current : UnitId) (ids : List UnitId) (s : Frontier UnitId)
      → graph.get current ≡ some ids
      → expand eq graph current s ≡ offer_all eq graph current ids s
  unfolding expand
  expand-offer_all current ids s found = rw (found, expand)

  traverse-Collects :
      (fuel : ℕ) (units : List UnitId) (s : Frontier UnitId)
      → Inv units s
      → unseen eq graph graph.rows s.visited + length s.queue ≤ fuel
      → (r : Result (UpstreamUnits UnitId) (TraversalError UnitId)) × (traverse eq graph fuel units
            s
          ≡ returns r)
        × Collects r
  unfolding traverse
  traverse-Collects zero units s i h = elim (List-cases s.queue) [
    | inl empty ↦ (_, rw (empty, traverse), collected _ refl (IsUpstream-end units s i empty))
    | inr (current, rest, front) ↦ absurd (omega (arith, ap length front))
  ]
  traverse-Collects (suc fuel) units s i h = elim (List-cases s.queue) [
    | inl empty ↦ (_, rw (empty, traverse), collected _ refl (IsUpstream-end units s i empty))
    | inr (current, rest, front) ↦
        let seen =
          (i.seen current).1
            (rw front ((mem-append current units (current ∷ rest)).1 (inr (inl refl)))) in
        let (ids, found) = i.present current seen in
        let popped : Frontier UnitId = record s { queue = rest } in
        let opens = expand-offer_all current ids popped found in
        elim (offer_all-Offers eq graph current ids popped) [
          | adds s' e a ↦
              let (r, runs, spec) =
                traverse-Collects fuel (units ++ current ∷ []) s' (Inv-expand front i found a) (
                  omega (
                    arith,
                    a.work,
                    ap length front,
                    ap length a.queue,
                    length-append rest a.added,
                  )) in
              (r, rw (front, opens ∙ e, traverse) runs, spec)
          | dangles t e m gone ↦ (
            err (dangling_upstream_ref current t),
            rw (front, opens ∙ e, traverse),
            dangling current t refl (i.sound current seen) (ids, found, m) gone,
          )
        ]
  ]

-- With a round for each row of the graph, the traversal returns. It collects, terminal first and
-- none twice, exactly the units that walks along upstream ids reach from the terminal, all with
-- a row, with a tree of downstream units whose edges are the graph's and lead to the terminal;
-- or it reports a terminal with no row, or a reference to a unit with no row, from a unit that
-- it reached.
pub collect_upstream-Collects :
    {UnitId : Type 0} (eq : Eq UnitId) (graph : DrainageGraph UnitId) (terminal : UnitId) (fuel : ℕ)
    → length graph.rows ≤ fuel
    → (r : Result (UpstreamUnits UnitId) (TraversalError UnitId)) × (collect_upstream eq graph fuel
          terminal
        ≡ returns r)
      × Collects eq graph terminal r
unfolding collect_upstream
collect_upstream-Collects eq graph terminal fuel h = elim (Option-cases (graph.get terminal)) [
  | inl gone ↦
      (err (terminal_not_found terminal), rw (gone, collect_upstream), no_terminal refl gone)
  | inr (row, found) ↦
      let (r, runs, spec) =
        traverse-Collects eq graph terminal fuel [] _ (Inv-start eq graph terminal row found) (
          omega (
            arith,
            h,
            unseen-start eq graph terminal (graph.listed terminal (λ gone. cc (gone, found))),
          )) in
      (r, rw (found, collect_upstream) runs, spec)
]
