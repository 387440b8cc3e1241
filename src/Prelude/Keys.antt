-- ===== src/Prelude/Keys.antt =====
-- Keys that are compared for equality, sets and maps over them. A `HashSet` is the list of its
-- members, a `HashMap` the list of its insertions, newest first.
use Prim.Native.Nat.{ℕ}
use mathlib.Core.Path.{◌≡◌, refl}
use mathlib.Core.Logic.{◌≢◌, ◌↔◌, ◌⊎◌, inl, inr, ⊎_elim}
use mathlib.Core.Bool.{Bool, true, false, ◌||◌}
use mathlib.Core.Option.{Option, none, some}
use mathlib.Core.List.{List, [], ◌∷◌}
use native.Mathlib.Omega.{arith}
use package.watershed_delineation.Prelude.Tests.{◌==◌, ==_iff, if◌then◌else◌, Bool-cases}
use package.watershed_delineation.Prelude.Lists.{◌∈◌}

pub record Eq (A : Type 0) : Type 0 where
  pub beq : A → A → Bool
  pub beq_iff : (a b : A) → (beq a b ≡ true) ↔ (a ≡ b)

abbrev pub nat_eq : Eq ℕ
nat_eq = record { beq = ◌==◌; beq_iff = ==_iff }

module _ {A : Type 0} (e : Eq A) where
  abbrev pub mem? : A → List A → Bool
  mem? a [] = false
  mem? a (x ∷ xs) = e.beq a x || mem? a xs

  pub mem?_iff : (a : A) (xs : List A) → (mem? a xs ≡ true) ↔ (a ∈ xs)
  mem?_iff a [] = (λ h. cc, λ h. absurd h)
  mem?_iff a (x ∷ xs) = ground (arith, mem?_iff a xs, e.beq_iff a x)

  pub not-mem? : (a : A) (xs : List A) → mem? a xs ≡ false → ¬ (a ∈ xs)
  not-mem? a xs h m = cc ((mem?_iff a xs).1 m)

  -- A key is in a list or not.
  pub mem_cases : (a : A) (xs : List A) → (a ∈ xs) ⊎ (¬ (a ∈ xs))
  mem_cases a xs =
      ⊎_elim (λ t. inl ((mem?_iff a xs).0 t)) (λ f. inr (not-mem? a xs f)) (Bool-cases (mem? a xs))

  abbrev pub lookup {ℓ} : {V : Type ℓ} → A → List (A × V) → Option V
  lookup a [] = none
  lookup a ((k, v) ∷ m) = if e.beq k a then some v else lookup a m

  pub beq_refl : (a : A) → e.beq a a ≡ true
  beq_refl a = (e.beq_iff a a).1 refl

  pub beq_ne : (a b : A) → a ≢ b → e.beq a b ≡ false
  beq_ne a b ne = ⊎_elim (λ t. absurd (ne ((e.beq_iff a b).0 t))) (λ f. f) (Bool-cases (e.beq a b))
