-- ===== src/Prelude/Order.antt =====
-- Comparison functions (`Ordering`, `then_with`, `min_by`), and what makes one an order.
use Prim.Native.Nat.{ℕ, Ordering, compare}
use mathlib.Core.Path.{◌≡◌, refl, sym, ap, subst}
use mathlib.Core.Logic.{inl, inr, ⊎_elim}
use mathlib.Core.Bool.{Bool, true, false}
use mathlib.Core.Option.{Option, none, some}
use mathlib.Core.List.{List, [], ◌∷◌}
use native.Mathlib.Omega.{arith}
use package.watershed_delineation.Prelude.Tests.{if◌then◌else◌, Bool-cases}
use package.watershed_delineation.Prelude.Lists.{◌∈◌}

abbrev pub reverse : Ordering → Ordering
reverse Ordering.lt = Ordering.gt
reverse Ordering.eq = Ordering.eq
reverse Ordering.gt = Ordering.lt

abbrev pub then_with : Ordering → Ordering → Ordering
then_with Ordering.lt o = Ordering.lt
then_with Ordering.eq o = o
then_with Ordering.gt o = Ordering.gt

abbrev pub is_gt : Ordering → Bool
is_gt Ordering.lt = false
is_gt Ordering.eq = false
is_gt Ordering.gt = true

-- A total preorder: opposite answers for swapped arguments, and transitive.
pub record IsPreorder {A : Type 0} (cmp : A → A → Ordering) : Type 0 where
  pub swap : (a b : A) → cmp b a ≡ reverse (cmp a b)
  pub trans :
      (a b c : A) → is_gt (cmp a b) ≡ false → is_gt (cmp b c) ≡ false → is_gt (cmp a c) ≡ false

-- A total order: only equal elements compare as equal.
pub record TotalOrder (A : Type 0) : Type 0 where
  pub cmp : A → A → Ordering
  pub preorder : IsPreorder cmp
  pub cmp-eq : (a b : A) → cmp a b ≡ Ordering.eq → a ≡ b

pub compare-IsPreorder : IsPreorder compare
compare-IsPreorder = record { swap = λ a b. ground arith; trans = λ a b c h h'. ground arith }

pub compare-eq : (a b : ℕ) → compare a b ≡ Ordering.eq → a ≡ b
compare-eq a b h = ground arith

abbrev pub nat_order : TotalOrder ℕ
nat_order = record { cmp = compare; preorder = compare-IsPreorder; cmp-eq = compare-eq }

module _ {A : Type 0} where
  -- The comparison with its arguments swapped, as for a descending order.
  pub swapped-IsPreorder : (cmp : A → A → Ordering) → IsPreorder cmp → IsPreorder (λ a b. cmp b a)
  swapped-IsPreorder cmp p = record {
    swap = λ a b. p.swap b a;
    trans = λ a b c h h'. p.trans c b a h' h;
  }

  pub constant-IsPreorder : IsPreorder {A = A} (λ a b. Ordering.eq)
  constant-IsPreorder = record { swap = λ a b. refl; trans = λ a b c h h'. refl }

  -- A comparison of a part.
  pub part-IsPreorder :
      {B : Type 0} (f : A → B) (cmp : B → B → Ordering)
      → IsPreorder cmp
      → IsPreorder (λ a b. cmp (f a) (f b))
  part-IsPreorder f cmp p = record {
    swap = λ a b. p.swap (f a) (f b);
    trans = λ a b c. p.trans (f a) (f b) (f c);
  }

  pub then_with-IsPreorder :
      (first second : A → A → Ordering)
      → IsPreorder first
      → IsPreorder second
      → IsPreorder (λ a b. then_with (first a b) (second a b))
  then_with-IsPreorder first second p q = record {
    swap = λ a b. ground (arith, p.swap a b, q.swap a b);
    trans = λ a b c h h'. ground (
      arith,
      h,
      h',
      p.swap a b,
      p.swap b c,
      p.swap a c,
      p.trans a b c,
      p.trans b c a,
      p.trans c a b,
      q.trans a b c,
    );
  }

  module _ (cmp : A → A → Ordering) where
    -- The first of the least elements.
    abbrev pub min_from : A → List A → A
    min_from best [] = best
    min_from best (x ∷ xs) = min_from (if is_gt (cmp best x) then x else best) xs

    abbrev pub min_by : List A → Option A
    min_by [] = none
    min_by (x ∷ xs) = some (min_from x xs)

    -- No element comes before `a`.
    abbrev pub IsLeast : A → List A → Type 0
    IsLeast a xs = (a ∈ xs) × ((b : A) → b ∈ xs → is_gt (cmp a b) ≡ false)

    module _ (p : IsPreorder cmp) where
      pub cmp_refl : (a : A) → is_gt (cmp a a) ≡ false
      cmp_refl a = ground (arith, p.swap a a)

      -- What is not before `a`, `a` is before.
      pub not_gt_swap : (a b : A) → is_gt (cmp a b) ≡ true → is_gt (cmp b a) ≡ false
      not_gt_swap a b h = ground (arith, h, p.swap a b)

      min_from-IsLeast : (best : A) (xs : List A) → IsLeast (min_from best xs) (best ∷ xs)
      min_from-IsLeast best [] = (
        inl refl,
        λ b.
            ⊎_elim (λ e. subst (λ c. is_gt (cmp best c) ≡ false) (sym e) (cmp_refl best))
              (λ z. absurd z),
      )
      min_from-IsLeast best (x ∷ xs) = elim (Bool-cases (is_gt (cmp best x))) [
        | inl later ↦
            let (mem, least) = min_from-IsLeast x xs in
            subst (λ k. IsLeast k (best ∷ x ∷ xs))
              (ap (λ t. min_from (if t then x else best) xs) (sym later))
              (
                inr mem,
                λ b.
                    ⊎_elim
                      (λ e.
                        subst (λ c. is_gt (cmp (min_from x xs) c) ≡ false) (sym e)
                          (p.trans (min_from x xs) x best (least x (inl refl))
                            (not_gt_swap best x later)))
                      (least b),
              )
        | inr kept ↦
            let (mem, least) = min_from-IsLeast best xs in
            subst (λ k. IsLeast k (best ∷ x ∷ xs))
              (ap (λ t. min_from (if t then x else best) xs) (sym kept))
              (
                ⊎_elim inl (λ m. inr (inr m)) mem,
                λ b.
                    ⊎_elim (λ e. least b (inl e))
                      (⊎_elim
                        (λ e.
                          subst (λ c. is_gt (cmp (min_from best xs) c) ≡ false) (sym e)
                            (p.trans (min_from best xs) best x (least best (inl refl)) kept))
                        (λ m. least b (inr m))),
              )
      ]

      -- The least element of a list that is not empty.
      pub min_by-IsLeast : (xs : List A) (m : A) → min_by xs ≡ some m → IsLeast m xs
      min_by-IsLeast [] m h = absurd cc
      min_by-IsLeast (x ∷ xs) m h = subst (λ k. IsLeast k (x ∷ xs)) (cc h) (min_from-IsLeast x xs)

      -- Two least elements compare as equal.
      pub IsLeast-eq : (a b : A) (xs : List A) → IsLeast a xs → IsLeast b xs → cmp a b ≡ Ordering.eq
      IsLeast-eq a b xs h k = ground (arith, h.1 b k.0, k.1 a h.0, p.swap a b)
