-- ===== src/Canonical/Rotation/Start.antt =====
-- The start vertex does not depend on where the ring begins.
use package.watershed_delineation.Prelude.{
  ℕ, zero, suc, ◌+◌, ◌-◌, ◌%◌, ◌<◌, ◌≡◌, refl, sym, ap, ◌∙◌, subst, fun_ext, inl, inr, true, false,
  Bool-cases, List, length, get_or, get_elem?-eq-get_or, take, drop, dec_lt, returns, arith,
}
use package.watershed_delineation.Prelude.Order.{TotalOrder, IsPreorder, is_gt, reverse, cmp_refl}
use package.watershed_delineation.Canonical.Rotation.{
  is_less, compare_offsets, compare_cyclic_sequence, best_start,
}
use package.watershed_delineation.Canonical.Rotation.Sequences.{
  lex, lex-IsPreorder, get_or-drop, get_or-take, get_or-append_left, get_or-append_right, rotated,
  length-drop, length-rotated,
}
use Prim.Native.Nat.{Ordering}
use native.Mathlib.Nat.{mod-eq_of_lt, mod-eq-sub-mod, mod-lt, mod-add-mod, add-mod-mod}

module _ {V : Type 0} (d : V) where
  -- The vertices read from the start `s`, around the ring.
  abbrev pub around : List V → ℕ → ℕ → V
  around vs s k = get_or vs ((s + k) % length vs) d

  pub get_or-rotated :
      (s i : ℕ) (vs : List V)
      → s < length vs
      → i < length vs
      → get_or (rotated s vs) i d ≡ around vs s i
  get_or-rotated s i vs hs hi =
      let n = length vs in
      let size = length-drop s vs in
      elim (dec_lt (s + i) n) [
        | yes inside ↦
            get_or-append_left d (drop s vs) (take s vs) i (omega (arith, size, inside))
            ∙ get_or-drop d s i (s + i) vs refl
            ∙ ap (λ k. get_or vs k d) (sym (mod-eq_of_lt inside))
        | no beyond ↦
            let over : s + i - n < s = omega (arith, hi, beyond, hs) in
            let wrap : (s + i) % n ≡ s + i - n =
              mod-eq-sub-mod (omega (arith, beyond)) ∙ mod-eq_of_lt (omega (arith, hs, over)) in
            get_or-append_right d (drop s vs) (take s vs) (s + i - n) i
              (omega (arith, size, beyond, hs))
            ∙ get_or-take d s (s + i - n) vs over
            ∙ ap (λ k. get_or vs k d) (sym wrap)
      ]

  -- Reading a rotated ring is reading the ring from another start.
  pub around-rotated :
      (s j : ℕ) (vs : List V)
      → s < length vs
      → around (rotated s vs) j ≡ around vs ((s + j) % length vs)
  around-rotated s j vs hs = fun_ext (λ k.
      let n = length vs in
      let same : length (rotated s vs) ≡ n = length-rotated s vs (omega (arith, hs)) in
      ap (λ m. get_or (rotated s vs) ((j + k) % m) d) same
      ∙ get_or-rotated s ((j + k) % n) vs hs (mod-lt (j + k) (omega (arith, hs)))
      ∙ ap (λ i. get_or vs i d)
          (add-mod-mod s (j + k) n ∙ ap (λ i. i % n) (omega arith) ∙ sym (mod-add-mod (s + j) n k)))

  module _ (order : TotalOrder V) where
    compare_offsets-lex :
        (vs : List V) (l r k m : ℕ)
        → 0 < length vs
        → compare_offsets order.cmp vs l r k m
          ≡ returns (lex order.cmp k m (around vs l) (around vs r))
    compare_offsets-lex vs l r k zero h = refl
    compare_offsets-lex vs l r k (suc m) h =
        let left = get_elem?-eq-get_or vs ((l + k) % length vs) d (mod-lt (l + k) h) in
        let right = get_elem?-eq-get_or vs ((r + k) % length vs) d (mod-lt (r + k) h) in
        rw (left, right, compare_offsets-lex vs l r (suc k) m h) refl

    -- The order of the starts of a ring.
    abbrev pub start_order : List V → ℕ → ℕ → Ordering
    start_order vs i j = lex order.cmp 0 (length vs) (around vs i) (around vs j)

    pub lex_order : (n : ℕ) → IsPreorder (lex order.cmp 0 n)
    lex_order n = lex-IsPreorder order.cmp order.preorder 0 n

    lt-not_gt : (o : Ordering) → is_less o ≡ true → is_gt o ≡ false
    lt-not_gt Ordering.lt h = refl
    lt-not_gt Ordering.eq h = refl
    lt-not_gt Ordering.gt h = absurd cc

    not_less-swap : (o : Ordering) → is_less o ≡ false → is_gt (reverse o) ≡ false
    not_less-swap Ordering.lt h = absurd cc
    not_less-swap Ordering.eq h = refl
    not_less-swap Ordering.gt h = refl

    -- No start below `n` comes before `i`.
    abbrev pub IsFirst : List V → ℕ → ℕ → Type 0
    IsFirst vs n i = (j : ℕ) → j < n → is_gt (start_order vs i j) ≡ false

    pub best_start-IsFirst :
        (vs : List V) (best candidate m : ℕ)
        → best < length vs
        → candidate + m ≡ length vs
        → IsFirst vs candidate best
        → (i : ℕ) × (best_start order.cmp vs best candidate m ≡ returns i)
          × (i < length vs)
          × IsFirst vs (length vs) i
    unfolding best_start compare_cyclic_sequence
    best_start-IsFirst vs best candidate zero hb hc first =
        (best, refl, hb, λ j h. first j (omega (arith, hc, h)))
    best_start-IsFirst vs best candidate (suc m) hb hc first =
        let p = lex_order (length vs) in
        let o = start_order vs candidate best in
        let compared = compare_offsets-lex vs candidate best 0 (length vs) (omega (arith, hb)) in
        elim (Bool-cases (is_less o)) [
          | inl less ↦
              let (i, e, hi, least) =
                best_start-IsFirst vs candidate (suc candidate) m (omega (arith, hc))
                  (omega (arith, hc))
                  (λ j h. elim (dec_lt j candidate) [
                    | yes old ↦ p.trans _ _ _ (lt-not_gt o less) (first j old)
                    | no new ↦
                        let here : candidate ≡ j = omega (arith, h, new) in
                        subst (λ k. is_gt (start_order vs candidate k) ≡ false) here
                          (cmp_refl _ p (around vs candidate))
                  ]) in
              (i, rw (compared, less) e, hi, least)
          | inr kept ↦
              let (i, e, hi, least) =
                best_start-IsFirst vs best (suc candidate) m hb (omega (arith, hc)) (λ j h.
                  elim (dec_lt j candidate) [
                    | yes old ↦ first j old
                    | no new ↦
                        let here : candidate ≡ j = omega (arith, h, new) in
                        subst (λ k. is_gt (start_order vs best k) ≡ false) here
                          (rw (p.swap (around vs candidate) (around vs best))
                            (not_less-swap o kept))
                  ]) in
              (i, rw (compared, kept) e, hi, least)
        ]
