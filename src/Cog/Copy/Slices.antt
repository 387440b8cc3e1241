-- ===== src/Cog/Copy/Slices.antt =====
-- Reading a slice, and writing over one.
use package.watershed_delineation.Prelude.{
  ℕ, zero, suc, ◌+◌, ◌-◌, ◌≤◌, ◌<◌, ◌≡◌, refl, ap, ◌∙◌, ◌⊎◌, some, List, [], ◌∷◌, length, take,
  drop, get_elem?, arith,
}
use package.watershed_delineation.Cog.Copy.{slice, overwrite}

module _ {T : Type 0} where
  get_elem?-drop : (xs : List T) (s i j : ℕ) → j ≡ s + i → get_elem? (drop s xs) i ≡ get_elem? xs j
  get_elem?-drop xs zero i j e = ap (get_elem? xs) (omega (arith, e))
  get_elem?-drop [] (suc s) i j e = refl
  get_elem?-drop (x ∷ xs) (suc s) i zero e = absurd (omega (arith, e))
  get_elem?-drop (x ∷ xs) (suc s) i (suc j) e = get_elem?-drop xs s i j (omega (arith, e))

  get_elem?-take : (n : ℕ) (xs : List T) (i : ℕ) → i < n → get_elem? (take n xs) i ≡ get_elem? xs i
  get_elem?-take zero xs i h = absurd (omega (arith, h))
  get_elem?-take (suc n) [] i h = refl
  get_elem?-take (suc n) (x ∷ xs) zero h = refl
  get_elem?-take (suc n) (x ∷ xs) (suc i) h = get_elem?-take n xs i (omega (arith, h))

  length-take : (n : ℕ) (xs : List T) → n ≤ length xs → length (take n xs) ≡ n
  length-take zero xs h = refl
  length-take (suc n) [] h = absurd (omega (arith, h))
  length-take (suc n) (x ∷ xs) h = ap suc (length-take n xs (omega (arith, h)))

  length-drop : (s : ℕ) (xs : List T) → length (drop s xs) ≡ length xs - s
  length-drop zero xs = omega arith
  length-drop (suc s) [] = omega arith
  length-drop (suc s) (x ∷ xs) = length-drop s xs ∙ omega arith

  pub length-overwrite :
      (xs : List T) (s : ℕ) (vs : List T) → length (overwrite xs s vs) ≡ length xs
  unfolding overwrite
  length-overwrite [] s vs = refl
  length-overwrite (x ∷ xs) (suc s) vs = ap suc (length-overwrite xs s vs)
  length-overwrite (x ∷ xs) zero [] = refl
  length-overwrite (x ∷ xs) zero (v ∷ vs) = ap suc (length-overwrite xs zero vs)

  pub get_elem?-overwrite_in :
      (xs : List T) (s : ℕ) (vs : List T) (i j : ℕ)
      → s + length vs ≤ length xs
      → i < length vs
      → j ≡ s + i
      → get_elem? (overwrite xs s vs) j ≡ get_elem? vs i
  unfolding overwrite
  get_elem?-overwrite_in [] s vs i j fits h e = absurd (omega (arith, fits, h))
  get_elem?-overwrite_in (x ∷ xs) (suc s) vs i zero fits h e = absurd (omega (arith, e))
  get_elem?-overwrite_in (x ∷ xs) (suc s) vs i (suc j) fits h e =
      get_elem?-overwrite_in xs s vs i j (omega (arith, fits)) h (omega (arith, e))
  get_elem?-overwrite_in (x ∷ xs) zero [] i j fits h e = absurd (omega (arith, h))
  get_elem?-overwrite_in (x ∷ xs) zero (v ∷ vs) zero zero fits h e = refl
  get_elem?-overwrite_in (x ∷ xs) zero (v ∷ vs) zero (suc j) fits h e = absurd (omega (arith, e))
  get_elem?-overwrite_in (x ∷ xs) zero (v ∷ vs) (suc i) zero fits h e = absurd (omega (arith, e))
  get_elem?-overwrite_in (x ∷ xs) zero (v ∷ vs) (suc i) (suc j) fits h e =
      get_elem?-overwrite_in xs zero vs i j (omega (arith, fits)) (omega (arith, h))
        (omega (arith, e))

  pub get_elem?-overwrite_out :
      (xs : List T) (s : ℕ) (vs : List T) (i : ℕ)
      → (i < s) ⊎ (s + length vs ≤ i)
      → get_elem? (overwrite xs s vs) i ≡ get_elem? xs i
  unfolding overwrite
  get_elem?-overwrite_out [] s vs i h = refl
  get_elem?-overwrite_out (x ∷ xs) (suc s) vs zero h = refl
  get_elem?-overwrite_out (x ∷ xs) (suc s) vs (suc i) h =
      get_elem?-overwrite_out xs s vs i (omega (arith, h))
  get_elem?-overwrite_out (x ∷ xs) zero [] i h = refl
  get_elem?-overwrite_out (x ∷ xs) zero (v ∷ vs) zero h = absurd (omega (arith, h))
  get_elem?-overwrite_out (x ∷ xs) zero (v ∷ vs) (suc i) h =
      get_elem?-overwrite_out xs zero vs i (omega (arith, h))

  -- A slice inside a vector has the values at its places.
  pub slice-some :
      (xs : List T) (s n : ℕ)
      → s + n ≤ length xs
      → (vs : List T) × (slice xs s n ≡ some vs)
        × (length vs ≡ n)
        × ((i : ℕ) → i < n → get_elem? vs i ≡ get_elem? xs (s + i))
  unfolding slice
  slice-some xs s n h = (
    take n (drop s xs),
    ground (arith, h),
    length-take n (drop s xs) (omega (arith, h, length-drop s xs)),
    λ i hi. get_elem?-take n (drop s xs) i hi ∙ get_elem?-drop xs s i (s + i) refl,
  )
