-- ===== src/Resolver/Pip/Laws.antt =====
-- Which units `resolve_via_pip` considers, and which one it chooses.
use package.watershed_delineation.Prelude.{
  ℕ, suc, ◌≤◌, ◌≡◌, refl, ap, subst, ◌⊎◌, ◌↔◌, inl, inr, ⊎_elim, Bool, true, false, ◌==◌, ==_iff,
  Option, Option-cases, none, some, List, [], ◌∷◌, ◌∈◌, length, arith,
}
use package.watershed_delineation.Prelude.Order.{
  IsPreorder, reverse, is_gt, nat_order, swapped-IsPreorder, part-IsPreorder, then_with-IsPreorder,
}
use package.watershed_delineation.Prelude.Filters.{mem-filter, mem-map, map-mem}
use package.watershed_delineation.Prelude.Floats.{Floats}
use package.watershed_delineation.Geo.{GeoCoord}
use package.watershed_delineation.Resolver.{CatchmentUnit, Geometry}
use package.watershed_delineation.Resolver.Pip.{
  upstream_area_order, cascade_order, decode_units, at_level, hit_by, boundary_if_none, hits_of,
}

module _ {W : Type 0} (fw : Floats W) where
  upstream_area_order-IsPreorder : IsPreorder (upstream_area_order fw)
  upstream_area_order-IsPreorder = record { swap = swap; trans = trans }
    where
      swap : (a b : Option W) → upstream_area_order fw b a ≡ reverse (upstream_area_order fw a b)
      swap (some x) (some y) = fw.total.preorder.swap y x
      swap (some x) none = refl
      swap none (some y) = refl
      swap none none = refl

      trans :
          (a b c : Option W)
          → is_gt (upstream_area_order fw a b) ≡ false
          → is_gt (upstream_area_order fw b c) ≡ false
          → is_gt (upstream_area_order fw a c) ≡ false
      trans (some x) (some y) (some z) h k = fw.total.preorder.trans z y x k h
      trans (some x) b none h k = refl
      trans (some x) none (some z) h k = absurd cc
      trans none (some y) c h k = absurd cc
      trans none none (some z) h k = absurd cc
      trans none none none h k = refl

  pub cascade_order-IsPreorder :
      {B : Type 0} → IsPreorder {A = CatchmentUnit W B} (cascade_order fw)
  cascade_order-IsPreorder =
      then_with-IsPreorder _ _
        (part-IsPreorder (λ u. u.upstream_area) _ upstream_area_order-IsPreorder)
        (then_with-IsPreorder _ _
          (part-IsPreorder (λ u. u.area) _ (swapped-IsPreorder fw.total.cmp fw.total.preorder))
          (part-IsPreorder (λ u. u.id) nat_order.cmp nat_order.preorder))

module _ {F W B Area : Type 0} (test : Area → GeoCoord F → Bool) (point : GeoCoord F) where
  mem-hit_by :
      (decoded : List (CatchmentUnit W B × Area)) (u : CatchmentUnit W B)
      → (u ∈ hit_by test point decoded) ↔ ((a : Area) × ((u, a) ∈ decoded) × (test a point ≡ true))
  mem-hit_by decoded u = (
    λ m.
        let (q, n, e) = mem-map (λ k. k.0) u _ m in
        let h = (mem-filter (λ k. test k.1 point) q decoded).0 n in
        (q.1, subst (λ k. (k, q.1) ∈ decoded) e h.0, h.1),
    λ (a, m, t).
        map-mem (λ k. k.0) (u, a) _ ((mem-filter (λ k. test k.1 point) (u, a) decoded).1 (m, t)),
  )

module _ {F W B Shape Area Box : Type 0} (geometry : Geometry F W B Shape Area Box) where
  mem-decode_units :
      (us : List (CatchmentUnit W B)) (u : CatchmentUnit W B) (a : Area)
      → ((u, a) ∈ (decode_units geometry us).1)
        ↔ ((u ∈ us) × (geometry.decode_wkb_multi_polygon u.geometry ≡ some a))
  mem-decode_units [] u a = (λ z. absurd z, λ h. absurd h.0)
  mem-decode_units (x ∷ us) u a =
      let (to, from) = mem-decode_units us u a in
      elim (Option-cases (geometry.decode_wkb_multi_polygon x.geometry)) [
        | inl bad ↦ rw bad (
          λ m. (inr (to m).0, (to m).1),
          λ h.
              ⊎_elim
                (λ e.
                  absurd (cc (bad, h.1, ap (λ k. geometry.decode_wkb_multi_polygon k.geometry) e)))
                (λ m. from (m, h.1)) h.0,
        )
        | inr (b, good) ↦ rw good (
          ⊎_elim
              (λ e. (
                inl (ap (λ k. k.0) e),
                cc (
                  good,
                  ap (λ k. geometry.decode_wkb_multi_polygon k.0.geometry) e,
                  ap (λ k. k.1) e,
                ),
              ))
              (λ m. (inr (to m).0, (to m).1)),
          λ h.
              ⊎_elim
                (λ e.
                  inl (cc (good, h.1, e, ap (λ k. geometry.decode_wkb_multi_polygon k.geometry) e)))
                (λ m. inr (from (m, h.1))) h.0,
        )
      ]

  -- No more failures than units, and as many when none is decoded.
  pub decode_units-failures :
      (us : List (CatchmentUnit W B))
      → ((decode_units geometry us).0 ≤ length us)
        × (((decode_units geometry us).0 ≡ length us) ↔ (
            (u : CatchmentUnit W B) → u ∈ us → geometry.decode_wkb_multi_polygon u.geometry ≡ none))
  decode_units-failures [] = (omega arith, (λ e u m. absurd m, λ h. refl))
  decode_units-failures (x ∷ us) =
      let (few, (to, from)) = decode_units-failures us in
      elim (Option-cases (geometry.decode_wkb_multi_polygon x.geometry)) [
        | inl bad ↦ rw bad (
          omega (arith, few),
          (
            λ k u.
                ⊎_elim (λ e. cc (bad, ap (λ b. geometry.decode_wkb_multi_polygon b.geometry) e))
                  (to (omega (arith, k)) u),
            λ h. ap suc (from (λ u m. h u (inr m))),
          ),
        )
        | inr (b, good) ↦ rw good (
          omega (arith, few),
          (λ k. absurd (omega (arith, few, k)), λ h. absurd (cc (good, h x (inl refl)))),
        )
      ]

  module _ (outlet : GeoCoord F) (selected_level : Option ℕ) (us : List (CatchmentUnit W B)) where
    abbrev pub HasLevel : Option ℕ → CatchmentUnit W B → Type 0
    HasLevel none u = Unit
    HasLevel (some level) u = u.level ≡ level

    -- A unit of the selected level, with its multi-polygon.
    abbrev pub IsDecoded : CatchmentUnit W B → Area → Type 0
    IsDecoded u a =
        (u ∈ us)
        × (geometry.decode_wkb_multi_polygon u.geometry ≡ some a)
        × HasLevel selected_level u

    abbrev pub Holds : (Area → GeoCoord F → Bool) → CatchmentUnit W B → Type 0
    Holds test u = (a : Area) × IsDecoded u a × (test a outlet ≡ true)

    -- A unit that contains the outlet, or, when none does, one that it intersects.
    abbrev pub IsHit : CatchmentUnit W B → Type 0
    IsHit u =
        Holds geometry.contains u
        ⊎ (((v : CatchmentUnit W B) → ¬ Holds geometry.contains v) × Holds geometry.intersects u)

    abbrev decoded_units : List (CatchmentUnit W B × Area)
    decoded_units = at_level selected_level (decode_units geometry us).1

    mem-at_level :
        (level : Option ℕ) (u : CatchmentUnit W B) (a : Area) (ps : List (CatchmentUnit W B × Area))
        → ((u, a) ∈ at_level level ps) ↔ (((u, a) ∈ ps) × HasLevel level u)
    mem-at_level none u a ps = (λ m. (m, tt), λ h. h.0)
    mem-at_level (some level) u a ps =
        let (to, from) = mem-filter (λ k. k.0.level == level) (u, a) ps in
        (
          λ m. ((to m).0, (==_iff u.level level).0 (to m).1),
          λ h. from (h.0, (==_iff u.level level).1 h.1),
        )

    mem-IsDecoded : (u : CatchmentUnit W B) (a : Area) → ((u, a) ∈ decoded_units) ↔ IsDecoded u a
    mem-IsDecoded u a =
        let (to, from) = mem-decode_units us u a in
        let (cut, uncut) = mem-at_level selected_level u a (decode_units geometry us).1 in
        (λ m. let h = cut m in ((to h.0).0, (to h.0).1, h.1), λ (m, d, l). uncut (from (m, d), l))

    mem-Holds :
        (test : Area → GeoCoord F → Bool) (u : CatchmentUnit W B)
        → (u ∈ hit_by test outlet decoded_units) ↔ Holds test u
    mem-Holds test u =
        let (to, from) = mem-hit_by test outlet decoded_units u in
        (
          λ m. let (a, d, t) = to m in (a, (mem-IsDecoded u a).0 d, t),
          λ (a, d, t). from (a, (mem-IsDecoded u a).1 d, t),
        )

    boundary_if_none-mem :
        (inside boundary : List (CatchmentUnit W B)) (u : CatchmentUnit W B)
        → (u ∈ boundary_if_none inside boundary)
          ↔ ((u ∈ inside) ⊎ (((v : CatchmentUnit W B) → ¬ (v ∈ inside)) × (u ∈ boundary)))
    boundary_if_none-mem [] boundary u = (λ m. inr (λ v z. z, m), ⊎_elim (λ z. absurd z) (λ h. h.1))
    boundary_if_none-mem (x ∷ xs) boundary u =
        (inl, ⊎_elim (λ m. m) (λ h. absurd (h.0 x (inl refl))))

    -- The hits are the units that contain the outlet, or else those that it intersects.
    pub hits_of-IsHit :
        (u : CatchmentUnit W B) → (u ∈ hits_of geometry outlet decoded_units) ↔ IsHit u
    unfolding hits_of
    hits_of-IsHit u =
        let (to, from) =
          boundary_if_none-mem (hit_by geometry.contains outlet decoded_units)
            (hit_by geometry.intersects outlet decoded_units) u in
        let inside = mem-Holds geometry.contains in
        let boundary = mem-Holds geometry.intersects u in
        (
          λ m.
              ⊎_elim (λ i. inl ((inside u).0 i))
                (λ (n, b). inr (λ v h. n v ((inside v).1 h), boundary.0 b)) (to m),
          λ h. from (
              ⊎_elim (λ i. inl ((inside u).1 i))
                (λ (n, b). inr (λ v m. n v ((inside v).0 m), boundary.1 b)) h),
        )
