-- ===== src/Canonical/Rotation/Sequences.antt =====
-- The vertices of a ring read from a start, and their order.
use package.watershed_delineation.Prelude.{
  ℕ, zero, suc, ◌+◌, ◌-◌, ◌<◌, ◌≤◌, ◌≡◌, refl, ap, ap₂, subst, List, [], ◌∷◌, ◌++◌, length,
  length-append, get_or, take, drop, dec_lt, arith,
}
use package.watershed_delineation.Prelude.Order.{
  IsPreorder, then_with, then_with-IsPreorder, part-IsPreorder, constant-IsPreorder,
}
use Prim.Native.Nat.{Ordering}

module _ {V : Type 0} (cmp : V → V → Ordering) where
  -- The lexicographic order of two sequences at `k`, ..., `k + n - 1`.
  abbrev pub lex : ℕ → ℕ → (ℕ → V) → (ℕ → V) → Ordering
  lex k zero f g = Ordering.eq
  lex k (suc n) f g = then_with (cmp (f k) (g k)) (lex (suc k) n f g)

  pub lex-IsPreorder : IsPreorder cmp → (k n : ℕ) → IsPreorder (lex k n)
  lex-IsPreorder p k zero = constant-IsPreorder
  lex-IsPreorder p k (suc n) =
      then_with-IsPreorder _ _ (part-IsPreorder (λ f. f k) cmp p) (lex-IsPreorder p (suc k) n)

  then_with-eq :
      (a b : Ordering) → then_with a b ≡ Ordering.eq → (a ≡ Ordering.eq) × (b ≡ Ordering.eq)
  then_with-eq Ordering.lt b h = absurd cc
  then_with-eq Ordering.eq b h = (refl, h)
  then_with-eq Ordering.gt b h = absurd cc

  -- Sequences that compare as equal agree.
  pub lex-eq :
      ((a b : V) → cmp a b ≡ Ordering.eq → a ≡ b)
      → (k n : ℕ) (f g : ℕ → V) → lex k n f g ≡ Ordering.eq
      → (i : ℕ) → k ≤ i
      → i < k + n
      → f i ≡ g i
  lex-eq same k zero f g h i low high = absurd (omega (arith, low, high))
  lex-eq same k (suc n) f g h i low high =
      let (first, later) = then_with-eq (cmp (f k) (g k)) (lex (suc k) n f g) h in
      elim (dec_lt k i) [
        | yes above ↦ lex-eq same (suc k) n f g later i (omega (arith, above)) (omega (arith, high))
        | no here ↦
            let e : k ≡ i = omega (arith, low, here) in
            subst (λ j. f j ≡ g j) e (same (f k) (g k) first)
      ]

module _ {V : Type 0} (d : V) where
  pub get_or-drop : (s i j : ℕ) (vs : List V) → j ≡ s + i → get_or (drop s vs) i d ≡ get_or vs j d
  get_or-drop zero i j vs e = ap (λ k. get_or vs k d) (omega (arith, e))
  get_or-drop (suc s) i j [] e = refl
  get_or-drop (suc s) i zero (v ∷ vs) e = absurd (omega (arith, e))
  get_or-drop (suc s) i (suc j) (v ∷ vs) e = get_or-drop s i j vs (omega (arith, e))

  pub get_or-take : (s i : ℕ) (vs : List V) → i < s → get_or (take s vs) i d ≡ get_or vs i d
  get_or-take zero i vs h = absurd (omega (arith, h))
  get_or-take (suc s) i [] h = refl
  get_or-take (suc s) zero (v ∷ vs) h = refl
  get_or-take (suc s) (suc i) (v ∷ vs) h = get_or-take s i vs (omega (arith, h))

  pub get_or-append_left :
      (xs ys : List V) (i : ℕ) → i < length xs → get_or (xs ++ ys) i d ≡ get_or xs i d
  get_or-append_left [] ys i h = absurd (omega (arith, h))
  get_or-append_left (x ∷ xs) ys zero h = refl
  get_or-append_left (x ∷ xs) ys (suc i) h = get_or-append_left xs ys i (omega (arith, h))

  pub get_or-append_right :
      (xs ys : List V) (i j : ℕ) → j ≡ length xs + i → get_or (xs ++ ys) j d ≡ get_or ys i d
  get_or-append_right [] ys i j e = ap (λ k. get_or ys k d) (omega (arith, e))
  get_or-append_right (x ∷ xs) ys i zero e = absurd (omega (arith, e))
  get_or-append_right (x ∷ xs) ys i (suc j) e = get_or-append_right xs ys i j (omega (arith, e))

  -- Lists of one length that agree at each index are equal.
  pub ext :
      (xs ys : List V)
      → length xs ≡ length ys
      → ((i : ℕ) → i < length xs → get_or xs i d ≡ get_or ys i d)
      → xs ≡ ys
  ext [] [] e h = refl
  ext [] (y ∷ ys) e h = absurd (omega (arith, e))
  ext (x ∷ xs) [] e h = absurd (omega (arith, e))
  ext (x ∷ xs) (y ∷ ys) e h =
      ap₂ ◌∷◌ (h 0 (omega arith))
        (ext xs ys (omega (arith, e)) (λ i m. h (suc i) (omega (arith, m))))

module _ {V : Type 0} where
  pub length-drop : (s : ℕ) (vs : List V) → length (drop s vs) ≡ length vs - s
  length-drop zero vs = omega arith
  length-drop (suc s) [] = omega arith
  length-drop (suc s) (v ∷ vs) = let h = length-drop s vs in omega (arith, h)

  length-take : (s : ℕ) (vs : List V) → s ≤ length vs → length (take s vs) ≡ s
  length-take zero vs h = refl
  length-take (suc s) [] h = absurd (omega (arith, h))
  length-take (suc s) (v ∷ vs) h = ap suc (length-take s vs (omega (arith, h)))

  -- The ring from the vertex `s` on.
  abbrev pub rotated : ℕ → List V → List V
  rotated s vs = drop s vs ++ take s vs

  pub length-rotated : (s : ℕ) (vs : List V) → s ≤ length vs → length (rotated s vs) ≡ length vs
  length-rotated s vs h =
      let a = length-drop s vs in
      let b = length-take s vs h in
      let c = length-append (drop s vs) (take s vs) in omega (arith, h, a, b, c)
