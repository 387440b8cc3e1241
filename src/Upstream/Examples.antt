-- ===== src/Upstream/Examples.antt =====
-- Runs of the traversal on a small graph, and the theorem at this graph.
use package.watershed_delineation.Prelude.{
  ℕ, ◌≡◌, refl, ◌≢◌, none, List, [], ◌∷◌, ◌∈◌, lookup, nat_eq, Result, ok, err, returns, arith,
}
use package.watershed_delineation.Upstream.{
  DrainageGraph, TraversalError, dangling_upstream_ref, UpstreamUnits, offer, offer_all, expand,
  traverse, collect_upstream,
}
use package.watershed_delineation.Upstream.Correct.{Collects, collect_upstream-Collects}

-- 4 is upstream of 1 by two ways, and 7 is not connected.
abbrev table : List (ℕ × List ℕ)
table = (1, 2 ∷ 3 ∷ []) ∷ (2, 4 ∷ []) ∷ (3, 4 ∷ []) ∷ (4, []) ∷ (7, 9 ∷ []) ∷ []

table-listed : (id : ℕ) → lookup nat_eq id table ≢ none → id ∈ 1 ∷ 2 ∷ 3 ∷ 4 ∷ 7 ∷ []
table-listed id h = ground (arith, h)

abbrev diamond : DrainageGraph ℕ
diamond = record {
  get = λ id. lookup nat_eq id table;
  rows = 1 ∷ 2 ∷ 3 ∷ 4 ∷ 7 ∷ [];
  listed = table-listed;
}

collect_diamond :
    collect_upstream nat_eq diamond 5 1
    ≡ returns (
        ok (record {
          units = 1 ∷ 2 ∷ 3 ∷ 4 ∷ [];
          index = 4 ∷ 3 ∷ 2 ∷ 1 ∷ [];
          downstream = (4, 2) ∷ (3, 1) ∷ (2, 1) ∷ [];
        }))
unfolding collect_upstream traverse expand offer_all offer
collect_diamond = refl

collect_dangling : collect_upstream nat_eq diamond 5 7 ≡ returns (err (dangling_upstream_ref 7 9))
unfolding collect_upstream traverse expand offer_all offer
collect_dangling = refl

collect_upstream-Collects_example :
    (r : Result (UpstreamUnits ℕ) (TraversalError ℕ)) × (collect_upstream nat_eq diamond 5 1
      ≡ returns r)
    × Collects nat_eq diamond 1 r
collect_upstream-Collects_example = collect_upstream-Collects nat_eq diamond 1 5 (omega arith)
