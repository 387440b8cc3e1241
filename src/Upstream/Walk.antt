-- ===== src/Upstream/Walk.antt =====
-- Walks against the flow, from a terminal unit along `upstream_ids`.
use package.watershed_delineation.Prelude.{◌≡◌, List, ◌∈◌, some}
use package.watershed_delineation.Upstream.{DrainageGraph}

module _ {UnitId : Type 0} (graph : DrainageGraph UnitId) where
  -- The row of `u` names `v` as upstream.
  abbrev pub Edge : UnitId → UnitId → Type 0
  Edge u v = (ids : List UnitId) × (graph.get u ≡ some ids) × (v ∈ ids)

  pub data Reaches (terminal : UnitId) : UnitId → Type 0 where
    here : Reaches terminal terminal
    step : {u v : UnitId} → Reaches terminal u → Edge u v → Reaches terminal v
