-- ===== src/Export/RowGroups/Laws.antt =====
-- Every non-empty export is planned, and its groups are balanced and of legal size.
use native.Mathlib.Nat.{div-add-mod'}
use package.watershed_delineation.Prelude.{
  ℕ, zero, suc, ◌+◌, ◌-◌, ◌*◌, ◌/◌, ◌%◌, ◌≤◌, ◌<◌, ◌≡◌, refl, ◌∙◌, ◌⊎◌, inl, inr, ⊎_elim, true,
  List, [], ◌∷◌, ◌∈◌, map, ok, ltb, if◌then◌else◌, Bool-cases, ltb→lt, min, arith,
}
use package.watershed_delineation.Export.RowGroups.{
  range_from, balanced, plan_sizes, all_legal, plan_row_groups, div_ceil,
}

abbrev pub sum : List ℕ → ℕ
sum [] = 0
sum (x ∷ xs) = x + sum xs

abbrev size_of : ℕ → ℕ → ℕ → ℕ
size_of base remainder index = base + (if ltb index remainder then 1 else 0)

sum-sizes :
    (base remainder index n : ℕ)
    → sum (map (size_of base remainder) (range_from index n))
      ≡ n * base + (min remainder (index + n) - index)
unfolding range_from
sum-sizes base remainder index zero = ground arith
sum-sizes base remainder index (suc n) = grind (arith, sum-sizes base remainder (suc index) n)

-- Every group has the base size or one row more.
mem-sizes :
    (base remainder index n size : ℕ)
    → size ∈ map (size_of base remainder) (range_from index n)
    → (base ≤ size) × (size ≤ base + 1) × ((size ≡ base) ⊎ (index < remainder))
unfolding range_from
mem-sizes base remainder index zero size m = absurd m
mem-sizes base remainder index (suc n) size m =
    ⊎_elim (λ e. ground (arith, e))
      (λ k. ground (arith, mem-sizes base remainder (suc index) n size k)) m

all_legal_of_mem :
    (sizes : List ℕ)
    → ((size : ℕ) → size ∈ sizes → (4096 ≤ size) × (size ≤ 8192))
    → all_legal sizes ≡ true
unfolding all_legal
all_legal_of_mem [] h = refl
all_legal_of_mem (size ∷ sizes) h =
    ground (arith, h size (inl refl), all_legal_of_mem sizes (λ s m. h s (inr m)))

group_count_bounds :
    (n : ℕ) → 4096 ≤ n → let g = div_ceil n 8192 in (0 < g) × (n ≤ 8192 * g) × (8192 * g < n + 8192)
group_count_bounds n h = omega arith

-- A quotient between bounds that are multiples of the divisor.
quotient_ge : (g q r k : ℕ) → r < g → k * g ≤ q * g + r → k ≤ q
quotient_ge g q r k hr h = grind arith

quotient_le : (g q r k : ℕ) → 0 < g → q * g + r ≤ k * g → q ≤ k
quotient_le g q r k hg h = grind arith

quotient_lt : (g q r k : ℕ) → 0 < r → q * g + r ≤ k * g → q < k
quotient_lt g q r k hr h = grind arith

module _ (n : ℕ) (big : 4096 ≤ n) where
  abbrev g : ℕ
  g = div_ceil n 8192

  split : (n % g < g) × (n / g * g + n % g ≡ n)
  split = let (hg, _, _) = group_count_bounds n big in (omega (arith, hg), div-add-mod' n g)

  base_bounds : (4096 ≤ n / g) × (n / g ≤ 8192) × (0 < n % g → n / g < 8192)
  base_bounds =
      let (hg, le, lt) = group_count_bounds n big in
      let (hr, e) = split in
      (
        quotient_ge g (n / g) (n % g) 4096 hr (rw e (omega (arith, le, lt, big))),
        quotient_le g (n / g) (n % g) 8192 hg (rw e le),
        λ hp. quotient_lt g (n / g) (n % g) 8192 hp (rw e le),
      )

  large_sizes : List ℕ
  large_sizes = map (size_of (n / g) (n % g)) (range_from 0 g)

  large-mem :
      (size : ℕ)
      → size ∈ large_sizes
      → (4096 ≤ size) × (size ≤ 8192) × (n / g ≤ size) × (size ≤ n / g + 1)
  unfolding large_sizes
  large-mem size m = ground (arith, mem-sizes (n / g) (n % g) 0 g size m, base_bounds)

  sum-large : sum large_sizes ≡ n
  unfolding large_sizes
  sum-large = sum-sizes (n / g) (n % g) 0 g ∙ omega (arith, split)

  plan-large : plan_row_groups n ≡ ok large_sizes
  unfolding plan_row_groups plan_sizes balanced large_sizes
  plan-large =
      let legal : all_legal large_sizes ≡ true =
        all_legal_of_mem large_sizes (λ s m. ground (arith, large-mem s m)) in
      ground (arith, legal)

plan-small : (n : ℕ) → 0 < n → n < 4096 → plan_row_groups n ≡ ok (n ∷ [])
unfolding plan_row_groups plan_sizes
plan-small n h s = ground arith

-- An export with rows is always planned: the sizes add up to the number of rows, none is empty,
-- above 8192, or below 4096 and the number of rows, and no two differ by more than one.
pub plan_row_groups-ok :
    (n : ℕ)
    → 0 < n
    → (sizes : List ℕ) × (plan_row_groups n ≡ ok sizes)
      × (sum sizes ≡ n)
      × ((size : ℕ) → size ∈ sizes → (0 < size) × (min n 4096 ≤ size) × (size ≤ 8192))
      × ((a b : ℕ) → a ∈ sizes → b ∈ sizes → a ≤ b + 1)
plan_row_groups-ok n h = elim (Bool-cases (ltb n 4096)) [
  | inl small ↦
      let s = ltb→lt n 4096 small in
      (
        n ∷ [],
        plan-small n h s,
        omega arith,
        λ size. ⊎_elim (λ e. omega (arith, e, h)) (λ z. absurd z),
        λ a b ma mb. ground (arith, ma, mb),
      )
  | inr large ↦
      let big : 4096 ≤ n = ground arith in
      (
        large_sizes n big,
        plan-large n big,
        sum-large n big,
        λ size m. omega (arith, big, large-mem n big size m),
        λ a b ma mb. omega (arith, large-mem n big a ma, large-mem n big b mb),
      )
]
