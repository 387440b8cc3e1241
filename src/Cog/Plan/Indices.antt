-- ===== src/Cog/Plan/Indices.antt =====
-- The indices that the planning loops push, as a rectangle of tiles.
use package.watershed_delineation.Prelude.{
  ℕ, zero, suc, sym, subst, ℕ_discrete, ◌+◌, ◌-◌, ◌*◌, ◌^◌, ◌≤◌, ◌<◌, ◌≡◌, refl, ◌↔◌, inl, inr,
  ⊎_elim, List, [], ◌∷◌, ◌++◌, ◌∈◌, mem-append, Nodup, Nodup-append, arith,
}
use package.watershed_delineation.Prelude.Calls.{done, checked_mul-some, checked_add-some}
use package.watershed_delineation.Cog.Plan.{plan_row, plan_rows}

abbrev pub row_list : ℕ → ℕ → ℕ → ℕ → List ℕ
row_list across row col zero = []
row_list across row col (suc n) = (row * across + col) ∷ row_list across row (suc col) n

abbrev pub rect_list : ℕ → ℕ → ℕ → ℕ → ℕ → List ℕ
rect_list across row first cols zero = []
rect_list across row first cols (suc n) =
    row_list across row first cols ++ rect_list across (suc row) first cols n

plan_row-eq :
    (across row col n : ℕ)
    → row * across + across ≤ 2 ^ 32
    → col + n ≤ across
    → plan_row across row col n ≡ done (row_list across row col n)
unfolding plan_row
plan_row-eq across row col zero fits inside = refl
plan_row-eq across row col (suc n) fits inside =
    rw
      (
        checked_mul-some 32 row across (omega (arith, fits, inside)),
        checked_add-some 32 (row * across) col (omega (arith, fits, inside)),
        plan_row-eq across row (suc col) n fits (omega (arith, inside)),
      )
      refl

pub row_fits : (across down row : ℕ) → row < down → row * across + across ≤ down * across
row_fits across down row h = grind arith

-- A rectangle of tiles inside a grid with at most 2^32 tiles.
pub plan_rows-eq :
    (across down row first cols n : ℕ)
    → down * across ≤ 2 ^ 32
    → row + n ≤ down
    → first + cols ≤ across
    → plan_rows across row first cols n ≡ done (rect_list across row first cols n)
unfolding plan_rows
plan_rows-eq across down row first cols zero fits below inside = refl
plan_rows-eq across down row first cols (suc n) fits below inside =
    rw
      (
        plan_row-eq across row first cols
            (omega (arith, fits, row_fits across down row (omega (arith, below)))) inside,
        plan_rows-eq across down (suc row) first cols n fits (omega (arith, below)) inside,
      )
      refl

row_list-mem :
    (across row col n i : ℕ)
    → (i ∈ row_list across row col n) ↔ ((row * across + col ≤ i) × (i < row * across + col + n))
row_list-mem across row col zero i = (λ h. absurd h, λ h. omega (arith, h))
row_list-mem across row col (suc n) i = ground (arith, row_list-mem across row (suc col) n i)

row_list-Nodup : (across row col n : ℕ) → Nodup (row_list across row col n)
row_list-Nodup across row col zero = tt
row_list-Nodup across row col (suc n) = (
  λ m. omega (arith, (row_list-mem across row (suc col) n (row * across + col)).0 m),
  row_list-Nodup across row (suc col) n,
)

rect_list-above :
    (across row first cols n i : ℕ)
    → i ∈ rect_list across row first cols n
    → row * across + first ≤ i
rect_list-above across row first cols zero i h = absurd h
rect_list-above across row first cols (suc n) i h =
    ⊎_elim (λ here. ((row_list-mem across row first cols i).0 here).0)
      (λ later. omega (
        arith,
        rect_list-above across (suc row) first cols n i later,
        row_fits across (suc row) row (omega arith),
      ))
      ((mem-append i (row_list across row first cols) (rect_list across (suc row) first cols n)).0
        h)

pub rect_list-Nodup :
    (across row first cols n : ℕ)
    → first + cols ≤ across
    → Nodup (rect_list across row first cols n)
rect_list-Nodup across row first cols zero inside = tt
rect_list-Nodup across row first cols (suc n) inside =
    Nodup-append (row_list across row first cols) (rect_list across (suc row) first cols n)
      (row_list-Nodup across row first cols) (rect_list-Nodup across (suc row) first cols n inside)
      (λ i here later. omega (
        arith,
        inside,
        (row_list-mem across row first cols i).0 here,
        rect_list-above across (suc row) first cols n i later,
      ))

-- Tile `i` lies in the rectangle, in row `r` and column `c`.
abbrev pub InRect : ℕ → ℕ → ℕ → ℕ → ℕ → ℕ → Type 0
InRect across row first cols n i =
    (r : ℕ) × (c : ℕ) × ((row ≤ r) × (r < row + n))
    × ((first ≤ c) × (c < first + cols))
    × (i ≡ r * across + c)

rect_list-InRect :
    (across row first cols n i : ℕ)
    → i ∈ rect_list across row first cols n
    → InRect across row first cols n i
rect_list-InRect across row first cols zero i h = absurd h
rect_list-InRect across row first cols (suc n) i h =
    ⊎_elim
      (λ here.
        let b = (row_list-mem across row first cols i).0 here in
        (
          row,
          i - row * across,
          (omega arith, omega arith),
          (omega (arith, b), omega (arith, b)),
          omega (arith, b),
        ))
      (λ later.
        let (r, c, hr, hc, e) = rect_list-InRect across (suc row) first cols n i later in
        (r, c, (omega (arith, hr), omega (arith, hr)), hc, e))
      ((mem-append i (row_list across row first cols) (rect_list across (suc row) first cols n)).0
        h)

InRect-rect_list :
    (across row first cols n r c : ℕ)
    → (row ≤ r) × (r < row + n)
    → (first ≤ c) × (c < first + cols)
    → r * across + c ∈ rect_list across row first cols n
InRect-rect_list across row first cols zero r c hr hc = absurd (omega (arith, hr))
InRect-rect_list across row first cols (suc n) r c hr hc =
    (mem-append (r * across + c) (row_list across row first cols)
        (rect_list across (suc row) first cols n)).1
      (elim (ℕ_discrete row r) [
        | yes e ↦ inl (
            subst (λ k. k * across + c ∈ row_list across row first cols) e
              ((row_list-mem across row first cols (row * across + c)).1
                (omega (arith, hc), omega (arith, hc))))
        | no ne ↦ inr (
            InRect-rect_list across (suc row) first cols n r c
              (omega (arith, hr, ne), omega (arith, hr)) hc)
      ])

pub rect_list-mem :
    (across row first cols n i : ℕ)
    → (i ∈ rect_list across row first cols n) ↔ InRect across row first cols n i
rect_list-mem across row first cols n i = (
  rect_list-InRect across row first cols n i,
  λ h.
      subst (λ k. k ∈ rect_list across row first cols n) (sym h.4)
        (InRect-rect_list across row first cols n h.0 h.1 h.2 h.3),
)
