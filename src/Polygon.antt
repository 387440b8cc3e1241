-- ===== src/Polygon.antt =====
-- The boundary of a mask (crates/core/src/algo/polygonize.rs): directed edges between the corners of
-- cells, and their assembly into rings.
pub mod Take
pub mod Rings
pub mod Boundary
mod Examples
use package.watershed_delineation.Prelude.{
  ℕ, zero, suc, ◌+◌, Bool, true, false, ◌&&◌, ◌||◌, Option, none, some, List, [], ◌∷◌, length,
  Outcome, returns, panics, out_of_fuel, ◌>>=◌, or_panic, ltb, ◌==◌, if◌then◌else◌,
}

-- A corner `(row, column)`.
abbrev pub Corner : Type 0
Corner = ℕ × ℕ

abbrev pub Edge : Type 0
Edge = Corner × Corner

abbrev pub same : Corner → Corner → Bool
same a b = a.0 == b.0 && a.1 == b.1

-- The order of tuples.
abbrev pub before : Corner → Corner → Bool
before a b = ltb a.0 b.0 || a.0 == b.0 && ltb a.1 b.1

-- The `BTreeMap`, in the order of its keys. A `Vec` that is pushed and popped, here of ends and
-- later of a ring's corners, is the list of its elements, the last one first.
abbrev pub Adjacency : Type 0
Adjacency = List (Corner × List Corner)

-- `adjacency.entry(start).or_default().push(end)`.
unfoldable pub insert : Corner → Corner → Adjacency → Adjacency
insert start end [] = (start, end ∷ []) ∷ []
insert start end ((key, ends) ∷ rest) =
    let later = (key, ends) ∷ insert start end rest in
    if same key start
    then (key, end ∷ ends) ∷ rest
    else if before start key
    then (start, end ∷ []) ∷ (key, ends) ∷ rest
    else later

unfoldable pub build : List Edge → Adjacency → Adjacency
build [] adjacency = adjacency
build ((start, end) ∷ edges) adjacency = build edges (insert start end adjacency)

-- `ends.pop()`, and the entry that is left: removed when it is empty.
unfoldable pub pop_end : Corner → List Corner → Adjacency → Option (Corner × Adjacency)
pop_end key [] rest = none
pop_end key (next ∷ []) rest = some (next, rest)
pop_end key (next ∷ end ∷ ends) rest = some (next, (key, end ∷ ends) ∷ rest)

abbrev pub keep : Corner × List Corner → Option (Corner × Adjacency) → Option (Corner × Adjacency)
keep entry none = none
keep entry (some (next, rest)) = some (next, entry ∷ rest)

-- The steps from `adjacency.get_mut(&current)` to `adjacency.remove(&current)`. It is `none` where
-- an `unwrap` panics.
unfoldable pub take_end : Corner → Adjacency → Option (Corner × Adjacency)
take_end current [] = none
take_end current ((key, ends) ∷ rest) =
    let later = keep (key, ends) (take_end current rest) in
    if same key current then pop_end key ends rest else later

-- The inner loop.
unfoldable pub walk :
    ℕ → Corner → Corner → Adjacency → List Corner → Outcome (List Corner × Adjacency)
walk zero origin current adjacency ring = out_of_fuel
walk (suc fuel) origin current adjacency ring = do
  taken ← or_panic (take_end current adjacency)
  let go_on = walk fuel origin taken.0 taken.1 (taken.0 ∷ ring)
  if same taken.0 origin then returns (origin ∷ ring, taken.1) else go_on

-- The outer loop.
unfoldable pub assemble : ℕ → ℕ → Adjacency → Outcome (List (List Corner))
assemble fuel steps [] = returns []
assemble zero steps ((origin, ends) ∷ rest) = out_of_fuel
assemble (suc fuel) steps ((origin, ends) ∷ rest) =
    walk steps origin origin ((origin, ends) ∷ rest) (origin ∷ []) >>= λ r.
    assemble fuel steps r.1 >>= λ rings. returns (r.0 ∷ rings)

-- A step takes one edge away or panics, so one step more than there are edges, and as many rings as
-- there are edges, are enough.
unfoldable pub assemble_rings : List Edge → Outcome (List (List Corner))
assemble_rings edges = assemble (length edges) (suc (length edges)) (build edges [])
