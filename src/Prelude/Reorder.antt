-- ===== src/Prelude/Reorder.antt =====
-- Sorting forgets the order of its input when the comparison tells its elements apart.
use Prim.Native.Nat.{Ordering}
use mathlib.Core.Path.{◌≡◌, refl, sym, ap, ap₂, ◌∙◌}
use mathlib.Core.Logic.{inl, inr}
use mathlib.Core.Bool.{true, false}
use mathlib.Core.List.{List, [], ◌∷◌, map, Permᴰ}
use package.watershed_delineation.Prelude.Tests.{if◌then◌else◌, Bool-cases}
use package.watershed_delineation.Prelude.Order.{IsPreorder, is_gt, reverse}
use package.watershed_delineation.Prelude.Sorting.{insert_by, sort_by}

module _ {B : Type 0} (cmp : B → B → Ordering) (p : IsPreorder cmp) where
  -- Two elements in front of a list, whichever is inserted first.
  both_first :
      (a b : B) (xs : List B)
      → (cmp a b ≡ Ordering.eq → a ≡ b)
      → (if is_gt (cmp a b) then b ∷ a ∷ xs else a ∷ b ∷ xs)
        ≡ (if is_gt (cmp b a) then a ∷ b ∷ xs else b ∷ a ∷ xs)
  both_first a b xs same = decided (cmp a b) (cmp b a) (p.swap a b) same
    where
      decided :
          (o q : Ordering)
          → q ≡ reverse o
          → (o ≡ Ordering.eq → a ≡ b)
          → (if is_gt o then b ∷ a ∷ xs else a ∷ b ∷ xs)
            ≡ (if is_gt q then a ∷ b ∷ xs else b ∷ a ∷ xs)
      decided Ordering.lt q e same = rw e refl
      decided Ordering.gt q e same = rw e refl
      decided Ordering.eq q e same = rw e (ap₂ (λ x y. x ∷ y ∷ xs) (same refl) (sym (same refl)))

  insert_by_later :
      (a x : B) (xs : List B)
      → is_gt (cmp a x) ≡ true
      → insert_by cmp a (x ∷ xs) ≡ x ∷ insert_by cmp a xs
  insert_by_later a x xs later = rw later refl

  insert_by_first :
      (a x : B) (xs : List B) → is_gt (cmp a x) ≡ false → insert_by cmp a (x ∷ xs) ≡ a ∷ x ∷ xs
  insert_by_first a x xs first = rw first refl

  insert_by_around :
      (a b x : B) (xs : List B)
      → is_gt (cmp a x) ≡ true
      → is_gt (cmp b x) ≡ false
      → insert_by cmp a (insert_by cmp b (x ∷ xs)) ≡ insert_by cmp b (insert_by cmp a (x ∷ xs))
  insert_by_around a b x xs later first =
      ap (insert_by cmp a) (insert_by_first b x xs first)
      ∙ insert_by_later a b (x ∷ xs) above
      ∙ ap (λ ys. b ∷ ys) (insert_by_later a x xs later)
      ∙ sym (insert_by_first b x (insert_by cmp a xs) first)
      ∙ sym (ap (insert_by cmp b) (insert_by_later a x xs later))
    where
      above : is_gt (cmp a b) ≡ true
      above = elim (Bool-cases (is_gt (cmp a b))) [
        | inl gt ↦ gt
        | inr le ↦ absurd (cc (later, p.trans a b x le first))
      ]

  insert_by_comm :
      (a b : B) (xs : List B)
      → (cmp a b ≡ Ordering.eq → a ≡ b)
      → insert_by cmp a (insert_by cmp b xs) ≡ insert_by cmp b (insert_by cmp a xs)
  insert_by_comm a b [] same = both_first a b [] same
  insert_by_comm a b (x ∷ xs) same = elim (Bool-cases (is_gt (cmp a x))) [
    | inl after_a ↦ elim (Bool-cases (is_gt (cmp b x))) [
      | inl after_b ↦
          ap (insert_by cmp a) (insert_by_later b x xs after_b)
          ∙ insert_by_later a x (insert_by cmp b xs) after_a
          ∙ ap (λ ys. x ∷ ys) (insert_by_comm a b xs same)
          ∙ sym (insert_by_later b x (insert_by cmp a xs) after_b)
          ∙ sym (ap (insert_by cmp b) (insert_by_later a x xs after_a))
      | inr before_b ↦ insert_by_around a b x xs after_a before_b
    ]
    | inr before_a ↦ elim (Bool-cases (is_gt (cmp b x))) [
      | inl after_b ↦ sym (insert_by_around b a x xs after_b before_a)
      | inr before_b ↦
          ap (insert_by cmp a) (insert_by_first b x xs before_b)
          ∙ ap (λ l. if is_gt (cmp a b) then b ∷ l else a ∷ b ∷ x ∷ xs)
              (insert_by_first a x xs before_a)
          ∙ both_first a b (x ∷ xs) same
          ∙ ap (λ l. if is_gt (cmp b a) then a ∷ l else b ∷ a ∷ x ∷ xs)
              (sym (insert_by_first b x xs before_b))
          ∙ sym (ap (insert_by cmp b) (insert_by_first a x xs before_a))
    ]
  ]

  pub sort_by-Permᴰ :
      {A : Type 0} (f : A → B)
      → ((a b : A) → cmp (f a) (f b) ≡ Ordering.eq → f a ≡ f b)
      → {xs ys : List A} → Permᴰ xs ys
      → sort_by cmp (map f xs) ≡ sort_by cmp (map f ys)
  sort_by-Permᴰ f same Permᴰ.nil = refl
  sort_by-Permᴰ f same (Permᴰ.cons e d) = ap₂ (insert_by cmp) (ap f e) (sort_by-Permᴰ f same d)
  sort_by-Permᴰ f same (Permᴰ.swap {a = a} {b = b} {l = l} e h) =
      insert_by_comm (f a) (f b) (sort_by cmp (map f l)) (same a b)
      ∙ ap₂ (λ x y. insert_by cmp (f x) (insert_by cmp (f y) (sort_by cmp (map f l)))) h e
  sort_by-Permᴰ f same (Permᴰ.trans c d) = sort_by-Permᴰ f same c ∙ sort_by-Permᴰ f same d
