-- ===== src/Prelude/Filters.antt =====
-- `filter` and `enumerate`, and membership of what they and `map` return.
use Prim.Native.Nat.{ℕ, zero, suc, ◌+◌}
use mathlib.Core.Path.{◌≡◌, refl, sym, ap, subst}
use mathlib.Core.Logic.{◌↔◌, inl, inr, ⊎_elim}
use mathlib.Core.Bool.{Bool, true}
use mathlib.Core.Option.{some}
use mathlib.Core.List.{List, [], ◌∷◌, map}
use native.Mathlib.Omega.{arith}
use package.watershed_delineation.Prelude.Tests.{if◌then◌else◌, Bool-cases}
use package.watershed_delineation.Prelude.Lists.{◌∈◌, get_elem?}

module _ {A : Type 0} where
  abbrev pub filter : (A → Bool) → List A → List A
  filter p [] = []
  filter p (x ∷ xs) = if p x then x ∷ filter p xs else filter p xs

  -- `enumerate`, from `i` on.
  abbrev pub enumerate : ℕ → List A → List (ℕ × A)
  enumerate i [] = []
  enumerate i (x ∷ xs) = (i, x) ∷ enumerate (suc i) xs

  pub mem-filter :
      (p : A → Bool) (a : A) (xs : List A) → (a ∈ filter p xs) ↔ ((a ∈ xs) × (p a ≡ true))
  mem-filter p a [] = (λ z. absurd z, λ h. absurd h.0)
  mem-filter p a (x ∷ xs) = elim (Bool-cases (p x)) [
    | inl kept ↦ rw kept (
      ⊎_elim (λ e. (inl e, subst (λ k. p k ≡ true) (sym e) kept))
          (λ m. let h = (mem-filter p a xs).0 m in (inr h.0, h.1)),
      λ h. ⊎_elim inl (λ m. inr ((mem-filter p a xs).1 (m, h.1))) h.0,
    )
    | inr dropped ↦ rw dropped (
      λ m. let h = (mem-filter p a xs).0 m in (inr h.0, h.1),
      λ h.
          ⊎_elim (λ e. absurd (cc (dropped, h.1, e, ap p e))) (λ m. (mem-filter p a xs).1 (m, h.1))
            h.0,
    )
  ]

  pub get_elem?-mem : (xs : List A) (i : ℕ) (a : A) → get_elem? xs i ≡ some a → a ∈ xs
  get_elem?-mem [] i a h = absurd cc
  get_elem?-mem (x ∷ xs) zero a h = inl cc
  get_elem?-mem (x ∷ xs) (suc i) a h = inr (get_elem?-mem xs i a h)

  get_elem?-enumerate_from :
      (k : ℕ) (xs : List A) (p : ℕ × A)
      → p ∈ enumerate k xs
      → (j : ℕ) × (p.0 ≡ k + j) × (get_elem? xs j ≡ some p.1)
  get_elem?-enumerate_from k [] p m = absurd m
  get_elem?-enumerate_from k (x ∷ xs) p (inl e) =
      (0, let first : p.0 ≡ k = ap (λ q. q.0) e in omega (arith, first), ap (λ q. some q.1) (sym e))
  get_elem?-enumerate_from k (x ∷ xs) p (inr m) =
      let (j, e, g) = get_elem?-enumerate_from (suc k) xs p m in (suc j, omega (arith, e), g)

  -- An index of `enumerate` finds its element.
  pub get_elem?-enumerate :
      (xs : List A) (p : ℕ × A) → p ∈ enumerate 0 xs → get_elem? xs p.0 ≡ some p.1
  get_elem?-enumerate xs p m =
      let (j, e, g) = get_elem?-enumerate_from 0 xs p m in
      subst (λ i. get_elem? xs i ≡ some p.1) (omega (arith, e)) g

  pub enumerate-mem : (k : ℕ) (xs : List A) (a : A) → a ∈ xs → (i : ℕ) × ((i, a) ∈ enumerate k xs)
  enumerate-mem k [] a m = absurd m
  enumerate-mem k (x ∷ xs) a (inl e) = (k, inl (ap (λ b. (k, b)) e))
  enumerate-mem k (x ∷ xs) a (inr m) = let (i, n) = enumerate-mem (suc k) xs a m in (i, inr n)

  pub mem-map :
      {B : Type 0} (f : A → B) (b : B) (xs : List A) → b ∈ map f xs → (a : A) × (a ∈ xs) × (f a ≡ b)
  mem-map f b [] m = absurd m
  mem-map f b (x ∷ xs) (inl e) = (x, inl refl, sym e)
  mem-map f b (x ∷ xs) (inr m) = let (a, n, e) = mem-map f b xs m in (a, inr n, e)

  pub map-mem : {B : Type 0} (f : A → B) (a : A) (xs : List A) → a ∈ xs → f a ∈ map f xs
  map-mem f a [] m = absurd m
  map-mem f a (x ∷ xs) (inl e) = inl (ap f e)
  map-mem f a (x ∷ xs) (inr m) = inr (map-mem f a xs m)
