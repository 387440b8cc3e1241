-- ===== src/Polygon/Rings.antt =====
-- The assembly of balanced edges into closed rings.
use package.watershed_delineation.Prelude.{
  ℕ, zero, suc, ◌+◌, ◌≤◌, ◌<◌, ◌≡◌, refl, ap, inl, inr, ◌&&◌, Bool-cases, List, [], ◌∷◌, length,
  returns, arith,
}
use package.watershed_delineation.Polygon.{
  Corner, Edge, Adjacency, same, walk, assemble, build, assemble_rings,
}
use package.watershed_delineation.Polygon.Take.{
  one_if, leaving, entering, joining, size, NoEmpty, same_refl, same→≡, take_end-Taken, starts,
  stops, times, build-Built,
}

-- How often a ring, the last corner first, goes from `s` to `t`.
abbrev pub passes : Corner → Corner → List Corner → ℕ
passes s t [] = 0
passes s t (v ∷ []) = 0
passes s t (v ∷ u ∷ ring) = one_if (same s u && same t v) + passes s t (u ∷ ring)

-- The ring ends at `v`, and starts at `v`.
abbrev pub EndsAt : Corner → List Corner → Type 0
EndsAt v [] = ⊥
EndsAt v (u ∷ ring) = u ≡ v

abbrev pub StartsAt : Corner → List Corner → Type 0
StartsAt v [] = ⊥
StartsAt v (u ∷ []) = u ≡ v
StartsAt v (u ∷ u' ∷ ring) = StartsAt v (u' ∷ ring)

abbrev pub IsClosed : List Corner → Type 0
IsClosed ring = (1 < length ring) × ((v : Corner) × EndsAt v ring × StartsAt v ring)

-- As many edges leave a corner as enter it.
abbrev pub Balanced : Adjacency → Type 0
Balanced adjacency = (u : Corner) → leaving u adjacency ≡ entering u adjacency

-- With a path open from `origin` to `current`.
abbrev pub Open : Corner → Corner → Adjacency → Type 0
Open origin current adjacency =
    (u : Corner)
    → leaving u adjacency + one_if (same u origin) ≡ entering u adjacency + one_if (same u current)

-- A walk comes back to its origin, and the ring has the edges that it took.
abbrev pub Walked : ℕ → Corner → Corner → Adjacency → List Corner → Type 0
Walked fuel origin current adjacency path =
    (ring : List Corner) × (rest : Adjacency) × (walk fuel origin current adjacency path
      ≡ returns (ring, rest))
    × (IsClosed ring × NoEmpty rest × Balanced rest × (size rest < size adjacency))
    × ((s t : Corner)
        → joining s t adjacency + passes s t path ≡ joining s t rest + passes s t ring)

walk-Walked :
    (fuel : ℕ) (origin current : Corner) (adjacency : Adjacency) (older : List Corner)
    → NoEmpty adjacency
    → size adjacency ≤ fuel
    → Open origin current adjacency
    → 0 < leaving current adjacency
    → StartsAt origin (current ∷ older)
    → Walked fuel origin current adjacency (current ∷ older)
unfolding walk
walk-Walked zero origin current adjacency older ne enough open_ leaves start =
    let (next, rest, e, w) = take_end-Taken current adjacency ne leaves in
    absurd (omega (arith, w.smaller, enough))
walk-Walked (suc fuel) origin current adjacency older ne enough open_ leaves start =
    let (next, rest, e, w) = take_end-Taken current adjacency ne leaves in
    elim (Bool-cases (same next origin)) [
      | inl home ↦ (
        origin ∷ current ∷ older,
        rest,
        rw (e, home) refl,
        (
          (omega arith, (origin, refl, start)),
          w.no_empty,
          (λ u. omega (
            arith,
            open_ u,
            w.leaves u,
            w.enters u,
            ap (λ k. one_if (same u k)) (same→≡ next origin home),
          )),
          omega (arith, w.smaller),
        ),
        λ s t. omega (
          arith,
          w.joins s t,
          ap (λ k. one_if (same s current && same t k)) (same→≡ next origin home),
        ),
      )
      | inr away ↦
          let (ring, left, e', good, passed) =
            walk-Walked fuel origin next rest (current ∷ older) w.no_empty
              (omega (arith, enough, w.smaller))
              (λ u. omega (arith, open_ u, w.leaves u, w.enters u))
              (omega (
                arith,
                open_ next,
                w.leaves next,
                w.enters next,
                ap one_if (same_refl next),
                ap one_if away,
              ))
              start in
          (
            ring,
            left,
            rw (e, away) e',
            (good.0, good.1, good.2, omega (arith, good.3, w.smaller)),
            λ s t. omega (arith, w.joins s t, passed s t),
          )
    ]

-- How often the rings go from `s` to `t` together.
abbrev pub passes_all : Corner → Corner → List (List Corner) → ℕ
passes_all s t [] = 0
passes_all s t (ring ∷ rings) = passes s t ring + passes_all s t rings

abbrev pub AllClosed : List (List Corner) → Type 0
AllClosed [] = Unit
AllClosed (ring ∷ rings) = IsClosed ring × AllClosed rings

assemble-AllClosed :
    (fuel steps : ℕ) (adjacency : Adjacency)
    → NoEmpty adjacency
    → size adjacency ≤ fuel
    → size adjacency ≤ steps
    → Balanced adjacency
    → (rings : List (List Corner)) × (assemble fuel steps adjacency ≡ returns rings)
      × AllClosed rings
      × ((s t : Corner) → passes_all s t rings ≡ joining s t adjacency)
unfolding assemble
assemble-AllClosed zero steps [] ne enough enough' balanced = ([], refl, tt, λ s t. refl)
assemble-AllClosed (suc fuel) steps [] ne enough enough' balanced = ([], refl, tt, λ s t. refl)
assemble-AllClosed zero steps ((origin, ends) ∷ rest) ne enough enough' balanced =
    absurd (omega (arith, ne, enough))
assemble-AllClosed (suc fuel) steps ((origin, ends) ∷ rest) ne enough enough' balanced =
    let (ring, left, e, (closed, ne', balanced', smaller), passed) =
      walk-Walked steps origin origin ((origin, ends) ∷ rest) [] ne enough'
        (λ u. omega (arith, balanced u)) (ground (arith, ne, same_refl origin)) refl in
    let (rings, e', all_closed, counted) =
      assemble-AllClosed fuel steps left ne' (omega (arith, smaller, enough))
        (omega (arith, smaller, enough')) balanced' in
    (
      ring ∷ rings,
      rw (e, e') refl,
      (closed, all_closed),
      λ s t. omega (arith, passed s t, counted s t),
    )

-- When each corner starts as many of the edges as it ends, the assembly returns, each ring is closed,
-- and the rings together go from corner to corner exactly as often as there is an edge.
pub assemble_rings-AllClosed :
    (edges : List Edge)
    → ((v : Corner) → starts v edges ≡ stops v edges)
    → (rings : List (List Corner)) × (assemble_rings edges ≡ returns rings)
      × AllClosed rings
      × ((s t : Corner) → passes_all s t rings ≡ times s t edges)
unfolding assemble_rings
assemble_rings-AllClosed edges balanced =
    let b = build-Built edges [] tt in
    let (rings, e, closed, counted) =
      assemble-AllClosed (length edges) (suc (length edges)) (build edges []) b.no_empty
        (omega (arith, b.sized)) (omega (arith, b.sized))
        (λ u. omega (arith, b.leaves u, b.enters u, balanced u)) in
    (rings, e, closed, λ s t. omega (arith, counted s t, b.joins s t))
