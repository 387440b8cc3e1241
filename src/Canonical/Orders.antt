-- ===== src/Canonical/Orders.antt =====
-- The comparisons of the canonical form: preorders, which tell closed rings and their polygons apart.
use package.watershed_delineation.Prelude.{
  ◌≡◌, false, refl, sym, ap, ap₂, ◌∙◌, List, [], ◌∷◌, ◌∈◌, inl, inr, length, arith,
}
use package.watershed_delineation.Prelude.Int.{ℤ, compare_ℤ}
use package.watershed_delineation.Prelude.Order.{
  TotalOrder, IsPreorder, then_with, is_gt, reverse, nat_order, part-IsPreorder,
  then_with-IsPreorder,
}
use package.watershed_delineation.Canonical.{
  RoundedCoord, compare_coord, compare_lists, CanonicalRing, CanonicalPolygon, open_vertices, bbox,
  compare_bbox, signed_area_twice, area_twice, compare_ring, compare_polygon,
}
use package.watershed_delineation.Canonical.Vertices.{closed}
use Prim.Native.Nat.{Ordering}

compare_ℤ-IsPreorder : IsPreorder compare_ℤ
compare_ℤ-IsPreorder = record { swap = λ a b. ground arith; trans = λ a b c h k. ground arith }

compare_ℤ-eq : (a b : ℤ) → compare_ℤ a b ≡ Ordering.eq → a ≡ b
compare_ℤ-eq a b h = ground arith

pub compare_coord-IsPreorder : IsPreorder compare_coord
compare_coord-IsPreorder =
    then_with-IsPreorder _ _ (part-IsPreorder (λ c. c.x) compare_ℤ compare_ℤ-IsPreorder)
      (part-IsPreorder (λ c. c.y) compare_ℤ compare_ℤ-IsPreorder)

then_with-eq :
    (o p : Ordering) → then_with o p ≡ Ordering.eq → (o ≡ Ordering.eq) × (p ≡ Ordering.eq)
then_with-eq Ordering.lt p h = absurd cc
then_with-eq Ordering.eq p h = (refl, h)
then_with-eq Ordering.gt p h = absurd cc

pub compare_coord-eq : (a b : RoundedCoord) → compare_coord a b ≡ Ordering.eq → a ≡ b
compare_coord-eq a b h =
    let (ex, ey) = then_with-eq (compare_ℤ a.x b.x) (compare_ℤ a.y b.y) h in
    ap₂ (λ x y. record { x = x; y = y }) (compare_ℤ-eq a.x b.x ex) (compare_ℤ-eq a.y b.y ey)

abbrev pub coord_order : TotalOrder RoundedCoord
coord_order = record {
  cmp = compare_coord;
  preorder = compare_coord-IsPreorder;
  cmp-eq = compare_coord-eq;
}

module _ {A : Type 0} (cmp : A → A → Ordering) (p : IsPreorder cmp) where
  compare_lists_swap :
      (xs ys : List A) → compare_lists cmp ys xs ≡ reverse (compare_lists cmp xs ys)
  compare_lists_swap [] [] = refl
  compare_lists_swap [] (y ∷ ys) = refl
  compare_lists_swap (x ∷ xs) [] = refl
  compare_lists_swap (x ∷ xs) (y ∷ ys) = ground (arith, p.swap x y, compare_lists_swap xs ys)

  compare_lists_trans :
      (xs ys zs : List A)
      → is_gt (compare_lists cmp xs ys) ≡ false
      → is_gt (compare_lists cmp ys zs) ≡ false
      → is_gt (compare_lists cmp xs zs) ≡ false
  compare_lists_trans [] ys [] h k = refl
  compare_lists_trans [] ys (z ∷ zs) h k = refl
  compare_lists_trans (x ∷ xs) [] zs h k = absurd cc
  compare_lists_trans (x ∷ xs) (y ∷ ys) [] h k = absurd cc
  compare_lists_trans (x ∷ xs) (y ∷ ys) (z ∷ zs) h k = ground (
    arith,
    h,
    k,
    p.swap x y,
    p.swap y z,
    p.swap x z,
    p.trans x y z,
    p.trans y z x,
    p.trans z x y,
    compare_lists_trans xs ys zs,
  )

  compare_lists-IsPreorder : IsPreorder (compare_lists cmp)
  compare_lists-IsPreorder = record { swap = compare_lists_swap; trans = compare_lists_trans }

-- Lists that compare as equal agree when their elements do.
compare_lists-eq :
    {A : Type 0} (cmp : A → A → Ordering) (xs ys : List A)
    → ((a b : A) → a ∈ xs → b ∈ ys → cmp a b ≡ Ordering.eq → a ≡ b)
    → compare_lists cmp xs ys ≡ Ordering.eq
    → xs ≡ ys
compare_lists-eq cmp [] [] same h = refl
compare_lists-eq cmp [] (y ∷ ys) same h = absurd cc
compare_lists-eq cmp (x ∷ xs) [] same h = absurd cc
compare_lists-eq cmp (x ∷ xs) (y ∷ ys) same h =
    let (first, later) = then_with-eq (cmp x y) (compare_lists cmp xs ys) h in
    ap₂ (λ z zs. z ∷ zs) (same x y (inl refl) (inl refl) first)
      (compare_lists-eq cmp xs ys (λ a b m n. same a b (inr m) (inr n)) later)

compare_bbox-IsPreorder : IsPreorder compare_bbox
compare_bbox-IsPreorder =
    then_with-IsPreorder _ _ (part-IsPreorder (λ b. b.min_x) compare_ℤ compare_ℤ-IsPreorder) (
      then_with-IsPreorder _ _ (part-IsPreorder (λ b. b.min_y) compare_ℤ compare_ℤ-IsPreorder) (
        then_with-IsPreorder _ _ (part-IsPreorder (λ b. b.max_x) compare_ℤ compare_ℤ-IsPreorder)
          (part-IsPreorder (λ b. b.max_y) compare_ℤ compare_ℤ-IsPreorder)))

pub compare_ring-IsPreorder : IsPreorder compare_ring
unfolding compare_ring
compare_ring-IsPreorder =
    then_with-IsPreorder _ _ (part-IsPreorder bbox compare_bbox compare_bbox-IsPreorder) (
      then_with-IsPreorder _ _
        (part-IsPreorder (λ r. signed_area_twice (open_vertices r)) compare_ℤ compare_ℤ-IsPreorder)
        (part-IsPreorder open_vertices _
          (compare_lists-IsPreorder compare_coord compare_coord-IsPreorder)))

pub compare_polygon-IsPreorder : IsPreorder compare_polygon
unfolding compare_polygon
compare_polygon-IsPreorder =
    then_with-IsPreorder _ _
      (part-IsPreorder (λ q. bbox q.exterior) compare_bbox compare_bbox-IsPreorder)
      (then_with-IsPreorder _ _ (part-IsPreorder area_twice compare_ℤ compare_ℤ-IsPreorder) (
        then_with-IsPreorder _ _
          (part-IsPreorder (λ q. length q.holes) nat_order.cmp nat_order.preorder)
          (then_with-IsPreorder _ _
            (part-IsPreorder (λ q. open_vertices q.exterior) _
              (compare_lists-IsPreorder compare_coord compare_coord-IsPreorder))
            (part-IsPreorder (λ q. q.holes) _
              (compare_lists-IsPreorder compare_ring compare_ring-IsPreorder)))))

open_vertices-eq :
    (r s : CanonicalRing)
    → compare_lists compare_coord (open_vertices r) (open_vertices s) ≡ Ordering.eq
    → open_vertices r ≡ open_vertices s
open_vertices-eq r s =
    compare_lists-eq compare_coord (open_vertices r) (open_vertices s)
      (λ a b m n. compare_coord-eq a b)

-- A ring that ends with its first vertex.
abbrev pub IsClosed : CanonicalRing → Type 0
IsClosed r = r.vertices ≡ closed (open_vertices r)

IsClosed-eq :
    (r s : CanonicalRing) → IsClosed r → IsClosed s → open_vertices r ≡ open_vertices s → r ≡ s
IsClosed-eq r s h k same = ap (λ vs. record { vertices = vs }) (h ∙ ap closed same ∙ sym k)

pub compare_ring-eq :
    (r s : CanonicalRing) → IsClosed r → IsClosed s → compare_ring r s ≡ Ordering.eq → r ≡ s
unfolding compare_ring
compare_ring-eq r s h k e = IsClosed-eq r s h k (
    open_vertices-eq r s
      (then_with-eq
        (compare_ℤ (signed_area_twice (open_vertices r)) (signed_area_twice (open_vertices s))) _
        (then_with-eq (compare_bbox (bbox r) (bbox s)) _ e).1).1)

pub compare_polygon-eq :
    (p q : CanonicalPolygon)
    → IsClosed p.exterior
    → IsClosed q.exterior
    → ((r : CanonicalRing) → r ∈ p.holes → IsClosed r)
    → ((r : CanonicalRing) → r ∈ q.holes → IsClosed r)
    → compare_polygon p q ≡ Ordering.eq
    → p ≡ q
unfolding compare_polygon
compare_polygon-eq p q h k hs ks e =
    let rest =
      (then_with-eq (nat_order.cmp (length p.holes) (length q.holes)) _
        (then_with-eq (compare_ℤ (area_twice p) (area_twice q)) _
          (then_with-eq (compare_bbox (bbox p.exterior) (bbox q.exterior)) _ e).1).1).1 in
    let (outer, inner) = then_with-eq _ _ rest in
    ap₂ (λ r rs. record { exterior = r; holes = rs })
      (IsClosed-eq p.exterior q.exterior h k (open_vertices-eq p.exterior q.exterior outer))
      (compare_lists-eq compare_ring p.holes q.holes
        (λ a b m n. compare_ring-eq a b (hs a m) (ks b n)) inner)
