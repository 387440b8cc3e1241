-- ===== src/Upstream.antt =====
-- The inclusive upstream traversal (crates/core/src/algo/upstream.rs). `DrainageGraph` and `UnitId`
-- are of the hfx crate: of an id the traversal uses only equality, of the graph only `get` and the
-- `upstream_ids` of a row.
pub mod Walk
mod Offer
pub mod Correct
mod Examples
use package.watershed_delineation.Prelude.{
  ℕ, zero, suc, ◌≡◌, Bool, true, false, Option, none, some, List, [], ◌∷◌, ◌++◌, Outcome, returns,
  panics, out_of_fuel, ◌>>=◌, or_panic, Result, ok, err, Eq, mem?, lookup, ◌∈◌, ◌≢◌, if◌then◌else◌,
}

-- `get` is `DrainageGraph::get` followed by `upstream_ids`. A graph is a finite table: `rows` are
-- the ids that have a row.
pub record DrainageGraph (UnitId : Type 0) : Type 0 where
  pub get : UnitId → Option (List UnitId)
  pub rows : List UnitId
  pub listed : (id : UnitId) → get id ≢ none → id ∈ rows

pub data TraversalError (UnitId : Type 0) : Type 0 where
  terminal_not_found : UnitId → TraversalError UnitId
  dangling_upstream_ref : UnitId → UnitId → TraversalError UnitId

pub record UpstreamUnits (UnitId : Type 0) : Type 0 where
  pub units : List UnitId
  pub index : List UnitId
  pub downstream : List (UnitId × UnitId)

-- `visited`, `downstream` and `queue`, its front first.
pub record Frontier (UnitId : Type 0) : Type 0 where
  pub visited : List UnitId
  pub parents : List (UnitId × UnitId)
  pub queue : List UnitId

module _ {UnitId : Type 0} (eq : Eq UnitId) where
  module _ (graph : DrainageGraph UnitId) where
    -- One round of the loop over `upstream_ids`.
    pub offer : UnitId → UnitId → Frontier UnitId → Result (Frontier UnitId) (TraversalError UnitId)
    offer current id s = if mem? eq id s.visited then ok s else elim (graph.get id) [
      | none ↦ err (dangling_upstream_ref current id)
      | some row ↦ ok (record {
        visited = id ∷ s.visited;
        parents = (id, current) ∷ s.parents;
        queue = s.queue ++ id ∷ [];
      })
    ]

    pub offer_all :
        UnitId → List UnitId → Frontier UnitId → Result (Frontier UnitId) (TraversalError UnitId)
    offer_all current [] s = ok s
    offer_all current (id ∷ ids) s = elim (offer current id s) [
      | ok s' ↦ offer_all current ids s'
      | err e ↦ err e
    ]

    -- The body of the `while let` loop after the front left the queue.
    pub expand : UnitId → Frontier UnitId → Result (Frontier UnitId) (TraversalError UnitId)
    expand current s = elim (graph.get current) [ none ↦ ok s | some ids ↦ offer_all current ids s ]

    pub traverse :
        ℕ
        → List UnitId
        → Frontier UnitId
        → Outcome (Result (UpstreamUnits UnitId) (TraversalError UnitId))
    traverse zero units s = elim s.queue [
      | [] ↦ returns (ok (record { units = units; index = s.visited; downstream = s.parents }))
      | current ∷ rest ↦ out_of_fuel
    ]
    traverse (suc fuel) units s = elim s.queue [
      | [] ↦ returns (ok (record { units = units; index = s.visited; downstream = s.parents }))
      | current ∷ rest ↦ elim (expand current (record s { queue = rest })) [
        | err e ↦ returns (err e)
        | ok s' ↦ traverse fuel (units ++ current ∷ []) s'
      ]
    ]

    pub collect_upstream :
        ℕ → UnitId → Outcome (Result (UpstreamUnits UnitId) (TraversalError UnitId))
    collect_upstream fuel terminal = elim (graph.get terminal) [
      | none ↦ returns (err (terminal_not_found terminal))
      | some row ↦
          traverse fuel [] (record { visited = terminal ∷ []; parents = []; queue = terminal ∷ [] })
    ]

  -- The accessors of `UpstreamUnits`.
  pub contains : UpstreamUnits UnitId → UnitId → Bool
  contains u id = mem? eq id u.index

  pub downstream_of : UpstreamUnits UnitId → UnitId → Option UnitId
  downstream_of u id = lookup eq id u.downstream

-- `self.units[0]`.
pub terminal_of : {UnitId : Type 0} → UpstreamUnits UnitId → Outcome UnitId
terminal_of u = elim u.units [ [] ↦ panics | t ∷ rest ↦ returns t ]
