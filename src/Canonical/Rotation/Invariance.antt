-- ===== src/Canonical/Rotation/Invariance.antt =====
-- A ring has one canonical rotation.
use package.watershed_delineation.Prelude.{
  ℕ, ◌+◌, ◌-◌, ◌%◌, ◌<◌, ◌≡◌, refl, sym, ap, ap₂, ◌∙◌, subst, false, List, [], ◌∷◌, ◌++◌, length,
  length-append, take, drop, leb, returns, arith,
}
use package.watershed_delineation.Prelude.Order.{TotalOrder, is_gt, reverse, cmp_refl}
use package.watershed_delineation.Canonical.Rotation.{rotate_to_total_order_start}
use package.watershed_delineation.Canonical.Rotation.Sequences.{
  lex, lex-eq, ext, rotated, length-rotated,
}
use package.watershed_delineation.Canonical.Rotation.Start.{
  around, get_or-rotated, around-rotated, start_order, lex_order, IsFirst, best_start-IsFirst,
}
use Prim.Native.Nat.{Ordering}
use native.Mathlib.Nat.{mod-eq_of_lt, mod-lt, add-mod-mod, add-mod_right}

module _ {V : Type 0} where
  append-nil : (xs : List V) → xs ++ [] ≡ xs
  append-nil [] = refl
  append-nil (x ∷ xs) = ap (λ ys. x ∷ ys) (append-nil xs)

module _ {V : Type 0} (order : TotalOrder V) (d : V) where
  own-IsFirst : (vs : List V) → IsFirst d order vs 1 0
  own-IsFirst vs j h =
      let here : 0 ≡ j = omega (arith, h) in
      subst (λ k. is_gt (start_order d order vs 0 k) ≡ false) here
        (cmp_refl _ (lex_order d order (length vs)) (around d vs 0))

  -- The rotation of a ring with a vertex.
  pub rotate_to_total_order_start-IsFirst :
      (vs : List V)
      → 0 < length vs
      → (i : ℕ) × (rotate_to_total_order_start order.cmp vs ≡ returns (rotated i vs))
        × (i < length vs)
        × IsFirst d order vs (length vs) i
  unfolding rotate_to_total_order_start
  rotate_to_total_order_start-IsFirst [] h = absurd (omega (arith, h))
  rotate_to_total_order_start-IsFirst (v ∷ []) h = (0, refl, omega arith, own-IsFirst (v ∷ []))
  rotate_to_total_order_start-IsFirst (v ∷ w ∷ vs) h =
      let ring : List V = v ∷ w ∷ vs in
      let (i, e, hi, first) =
        best_start-IsFirst d order ring 0 1 (length ring - 1) (omega arith) (omega arith)
          (own-IsFirst ring) in
      let long : leb (length ring) 1 ≡ false = ground arith in (i, rw (long, e) refl, hi, first)

  -- Two orderings that are not greater either way.
  both_ways : (a : Ordering) → is_gt a ≡ false → is_gt (reverse a) ≡ false → a ≡ Ordering.eq
  both_ways Ordering.lt h k = absurd cc
  both_ways Ordering.eq h k = refl
  both_ways Ordering.gt h k = absurd cc

  rotations :
      (vs : List V) (s : ℕ)
      → s < length vs
      → (w : List V) × (rotate_to_total_order_start order.cmp vs ≡ returns w)
        × (rotate_to_total_order_start order.cmp (rotated s vs) ≡ returns w)
        × ((i : ℕ) × (w ≡ rotated i vs))
  rotations vs s hs =
      let n = length vs in
      let ws = rotated s vs in
      let same : length ws ≡ n = length-rotated s vs (omega (arith, hs)) in
      let (i, e, hi, first) = rotate_to_total_order_start-IsFirst vs (omega (arith, hs)) in
      let (i', e', hi', first') =
        rotate_to_total_order_start-IsFirst ws (omega (arith, hs, same)) in
      let p = lex_order d order n in
      let a : ℕ → V = around d vs i in
      let b : ℕ → V = around d ws i' in
      let from_b : around d vs ((s + i') % n) ≡ b = sym (around-rotated d s i' vs hs) in
      let j : ℕ = (i + (n - s)) % n in
      let back : (s + j) % n ≡ i =
        add-mod-mod s (i + (n - s)) n
        ∙ ap (λ k. k % n) (omega (arith, hs))
        ∙ add-mod_right i n
        ∙ mod-eq_of_lt hi in
      let from_a : around d ws j ≡ a = around-rotated d s j vs hs ∙ ap (around d vs) back in
      let a_first : is_gt (lex order.cmp 0 n a b) ≡ false =
        subst (λ f. is_gt (lex order.cmp 0 n a f) ≡ false) from_b
          (first ((s + i') % n) (mod-lt (s + i') (omega (arith, hs)))) in
      let j_inside : j < n = mod-lt (i + (n - s)) (omega (arith, hs)) in
      let b_first : is_gt (lex order.cmp 0 n b a) ≡ false =
        subst (λ f. is_gt (lex order.cmp 0 n b f) ≡ false) from_a
          (subst (λ m. is_gt (lex order.cmp 0 m b (around d ws j)) ≡ false) same
            (first' j (omega (arith, same, j_inside)))) in
      let equal : lex order.cmp 0 n a b ≡ Ordering.eq =
        both_ways (lex order.cmp 0 n a b) a_first
          (subst (λ o. is_gt o ≡ false) (p.swap a b) b_first) in
      let one : rotated i' ws ≡ rotated i vs =
        ext d (rotated i' ws) (rotated i vs)
          (length-rotated i' ws (omega (arith, hi'))
            ∙ same
            ∙ sym (length-rotated i vs (omega (arith, hi))))
          (λ k hk.
            let long = length-rotated i' ws (omega (arith, hi')) in
            get_or-rotated d i' k ws hi' (omega (arith, hk, long))
            ∙ sym (
                lex-eq order.cmp order.cmp-eq 0 n a b equal k (omega arith)
                  (omega (arith, hk, long, same)))
            ∙ sym (get_or-rotated d i k vs hi (omega (arith, hk, long, same)))) in
      (rotated i vs, e, e' ∙ ap returns one, (i, refl))

module _ {V : Type 0} (order : TotalOrder V) where
  rotated-append : (xs ys : List V) → rotated (length xs) (xs ++ ys) ≡ ys ++ xs
  rotated-append xs ys = ap₂ ◌++◌ (drop-append xs ys) (take-append xs ys)
    where
      drop-append : (xs ys : List V) → drop (length xs) (xs ++ ys) ≡ ys
      drop-append [] ys = refl
      drop-append (x ∷ xs) ys = drop-append xs ys

      take-append : (xs ys : List V) → take (length xs) (xs ++ ys) ≡ xs
      take-append [] ys = refl
      take-append (x ∷ xs) ys = ap (λ zs. x ∷ zs) (take-append xs ys)

  -- A ring and the same ring begun elsewhere are rotated without a panic to one and the same list, which is a
  -- rotation of both.
  pub rotate_to_total_order_start-append :
      (xs ys : List V)
      → (w : List V) × (rotate_to_total_order_start order.cmp (xs ++ ys) ≡ returns w)
        × (rotate_to_total_order_start order.cmp (ys ++ xs) ≡ returns w)
        × ((i : ℕ) × (w ≡ rotated i (xs ++ ys)))
  unfolding rotate_to_total_order_start
  rotate_to_total_order_start-append [] [] = ([], refl, refl, (0, refl))
  rotate_to_total_order_start-append (x ∷ xs) [] =
      let ring : List V = (x ∷ xs) ++ [] in
      let (i, e, hi, first) = rotate_to_total_order_start-IsFirst order x ring (omega arith) in
      (
        rotated i ring,
        e,
        subst (λ vs. rotate_to_total_order_start order.cmp vs ≡ returns (rotated i ring))
            (append-nil (x ∷ xs)) e,
        (i, refl),
      )
  rotate_to_total_order_start-append xs (y ∷ ys) =
      let size = length-append xs (y ∷ ys) in
      let (w, e, e', r) = rotations order y (xs ++ y ∷ ys) (length xs) (omega (arith, size)) in
      (
        w,
        e,
        subst (λ vs. rotate_to_total_order_start order.cmp vs ≡ returns w)
            (rotated-append xs (y ∷ ys)) e',
        r,
      )
