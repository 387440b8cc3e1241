-- ===== src/Prelude/Sorting.antt =====
-- The stable `sort_by`, by insertion.
use Prim.Native.Nat.{suc, Ordering}
use mathlib.Core.Path.{◌≡◌, refl, sym, ap, subst, ◌∙◌}
use mathlib.Core.Logic.{◌↔◌, ◌⊎◌, inl, inr, ⊎_elim}
use mathlib.Core.Bool.{false}
use mathlib.Core.List.{List, [], ◌∷◌}
use package.watershed_delineation.Prelude.Tests.{if◌then◌else◌, Bool-cases}
use package.watershed_delineation.Prelude.Lists.{◌∈◌, length}
use package.watershed_delineation.Prelude.Order.{IsPreorder, is_gt, not_gt_swap}

module _ {A : Type 0} (cmp : A → A → Ordering) where
  abbrev pub insert_by : A → List A → List A
  insert_by a [] = a ∷ []
  insert_by a (x ∷ xs) =
      let rest = insert_by a xs in if is_gt (cmp a x) then x ∷ rest else a ∷ x ∷ xs

  abbrev pub sort_by : List A → List A
  sort_by [] = []
  sort_by (x ∷ xs) = insert_by x (sort_by xs)

  abbrev pub IsSorted : List A → Type 0
  IsSorted [] = Unit
  IsSorted (x ∷ xs) = ((b : A) → b ∈ xs → is_gt (cmp x b) ≡ false) × IsSorted xs

  mem-insert_by : (a b : A) (xs : List A) → (b ∈ insert_by a xs) ↔ ((b ≡ a) ⊎ (b ∈ xs))
  mem-insert_by a b [] = (λ h. h, λ h. h)
  mem-insert_by a b (x ∷ xs) = elim (Bool-cases (is_gt (cmp a x))) [
    | inl later ↦ rw later (
      ⊎_elim (λ e. inr (inl e)) (λ m. ⊎_elim inl (λ n. inr (inr n)) ((mem-insert_by a b xs).0 m)),
      ⊎_elim (λ e. inr ((mem-insert_by a b xs).1 (inl e)))
          (⊎_elim inl (λ n. inr ((mem-insert_by a b xs).1 (inr n)))),
    )
    | inr first ↦ rw first (λ h. h, λ h. h)
  ]

  -- Sorting keeps the elements and their number.
  pub mem-sort_by : (b : A) (xs : List A) → (b ∈ sort_by xs) ↔ (b ∈ xs)
  mem-sort_by b [] = (λ h. h, λ h. h)
  mem-sort_by b (x ∷ xs) =
      let (to, from) = mem-insert_by x b (sort_by xs) in
      (
        λ m. ⊎_elim inl (λ n. inr ((mem-sort_by b xs).0 n)) (to m),
        λ m. from (⊎_elim inl (λ n. inr ((mem-sort_by b xs).1 n)) m),
      )

  length-insert_by : (a : A) (xs : List A) → length (insert_by a xs) ≡ suc (length xs)
  length-insert_by a [] = refl
  length-insert_by a (x ∷ xs) = elim (Bool-cases (is_gt (cmp a x))) [
    | inl later ↦ rw later (ap suc (length-insert_by a xs))
    | inr first ↦ rw first refl
  ]

  pub length-sort_by : (xs : List A) → length (sort_by xs) ≡ length xs
  length-sort_by [] = refl
  length-sort_by (x ∷ xs) = length-insert_by x (sort_by xs) ∙ ap suc (length-sort_by xs)

  module _ (p : IsPreorder cmp) where
    insert_by-IsSorted : (a : A) (xs : List A) → IsSorted xs → IsSorted (insert_by a xs)
    insert_by-IsSorted a [] h = (λ b m. absurd m, tt)
    insert_by-IsSorted a (x ∷ xs) h = elim (Bool-cases (is_gt (cmp a x))) [
      | inl later ↦ rw later (
        λ b m.
            ⊎_elim (λ e. subst (λ k. is_gt (cmp x k) ≡ false) (sym e) (not_gt_swap cmp p a x later))
              (h.0 b) ((mem-insert_by a b xs).0 m),
        insert_by-IsSorted a xs h.1,
      )
      | inr first ↦ rw first (
        λ b.
            ⊎_elim (λ e. subst (λ k. is_gt (cmp a k) ≡ false) (sym e) first)
              (λ m. p.trans a x b first (h.0 b m)),
        h,
      )
    ]

    pub sort_by-IsSorted : (xs : List A) → IsSorted (sort_by xs)
    sort_by-IsSorted [] = tt
    sort_by-IsSorted (x ∷ xs) = insert_by-IsSorted x (sort_by xs) (sort_by-IsSorted xs)
