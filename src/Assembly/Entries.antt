-- ===== src/Assembly/Entries.antt =====
-- The entries of the map that the assembly builds.
use package.watershed_delineation.Prelude.{
  ℕ, ◌<◌, ◌≡◌, refl, sym, ap, subst, ◌∙◌, ◌⊎◌, ◌↔◌, inl, inr, ⊎_elim, true, Bool-cases, ◌==◌, ltb,
  ==_iff, ==→≡, ltb→lt, none, some, List, [], ◌∷◌, ◌∈◌, map, arith,
}
use package.watershed_delineation.Prelude.Filters.{map-mem, mem-map}
use package.watershed_delineation.Prelude.Calls.{done, fails}
use package.watershed_delineation.Assembly.{
  Row, duplicate_catchment, insert_vacant, contains_key, index_from,
}

module _ {V : Type 0} where
  abbrev pub keys : List (ℕ × V) → List ℕ
  keys es = map (λ e. e.0) es

  -- Every key is above `k`.
  abbrev pub Above : ℕ → List (ℕ × V) → Type 0
  Above k es = (e : ℕ × V) → e ∈ es → k < e.0

  abbrev pub Ascending : List (ℕ × V) → Type 0
  Ascending [] = Unit
  Ascending (e ∷ es) = Above e.0 es × Ascending es

  -- Inserting finds the key, or adds the entry.
  pub insert_vacant-Ascending :
      (k : ℕ) (v : V) (es : List (ℕ × V))
      → Ascending es
      → ((insert_vacant k v es ≡ none) × (k ∈ keys es))
        ⊎ ((out : List (ℕ × V)) × (insert_vacant k v es ≡ some out)
            × Ascending out
            × ((e : ℕ × V) → (e ∈ out) ↔ ((e ≡ (k, v)) ⊎ (e ∈ es))))
  insert_vacant-Ascending k v [] h =
      inr ((k, v) ∷ [], refl, (λ e m. absurd m, tt), λ e. (λ m. m, λ m. m))
  insert_vacant-Ascending k v (x ∷ es) h = elim (Bool-cases (k == x.0)) [
    | inl same ↦ inl (rw same refl, inl (==→≡ k x.0 same))
    | inr other ↦ elim (Bool-cases (ltb k x.0)) [
      | inl before ↦ inr (
        (k, v) ∷ x ∷ es,
        rw (other, before) refl,
        (
          λ e.
              ⊎_elim (λ first. subst (λ q. k < q.0) (sym first) (ltb→lt k x.0 before))
                (λ m.
                  let low = h.0 e m in
                  let start = ltb→lt k x.0 before in omega (arith, low, start)),
          h,
        ),
        λ e. (λ m. m, λ m. m),
      )
      | inr after ↦ elim (insert_vacant-Ascending k v es h.1) [
        | inl (e, m) ↦ inl (rw (other, after, e) refl, inr m)
        | inr (out, e, rises, mem) ↦
            let beyond : x.0 < k = ground (arith, other, after) in
            inr (
              x ∷ out,
              rw (other, after, e) refl,
              (
                λ q m.
                    ⊎_elim (λ first. subst (λ z. x.0 < z.0) (sym first) beyond) (h.0 q)
                      ((mem q).0 m),
                rises,
              ),
              λ q. (
                ⊎_elim (λ first. inr (inl first))
                    (λ m. ⊎_elim inl (λ n. inr (inr n)) ((mem q).0 m)),
                ⊎_elim (λ added. inr ((mem q).1 (inl added)))
                    (⊎_elim inl (λ n. inr ((mem q).1 (inr n)))),
              ),
            )
      ]
    ]
  ]

  pub contains_key_iff : (es : List (ℕ × V)) (k : ℕ) → (contains_key es k ≡ true) ↔ (k ∈ keys es)
  contains_key_iff [] k = (λ h. absurd cc, λ z. absurd z)
  contains_key_iff (e ∷ es) k =
      let (to, from) = contains_key_iff es k in
      elim (Bool-cases (k == e.0)) [
        | inl same ↦ rw same (λ h. inl (==→≡ k e.0 same), λ m. refl)
        | inr other ↦
            rw other (λ h. inr (to h), ⊎_elim (λ h. absurd (cc (other, (==_iff k e.0).1 h))) from)
      ]

  -- The unit occurs twice in the rows.
  abbrev pub Repeats : ℕ → List (ℕ × V) → Type 0
  Repeats k [] = ⊥
  Repeats k (e ∷ es) = ((k ≡ e.0) × (k ∈ keys es)) ⊎ Repeats k es

module _ {P S W D : Type 0} where
  -- Indexing rows fails at a unit that the map holds or the rows repeat, or gives a map of all entries.
  pub index_from-Ascending :
      (fetched : List (Row P)) (es : List (Row P))
      → Ascending es
      → ((k : ℕ) × (index_from {S = S} {W = W} {D = D} es fetched ≡ fails (duplicate_catchment k))
          × (((k ∈ keys es) × (k ∈ keys fetched)) ⊎ Repeats k fetched))
        ⊎ ((out : List (Row P)) × (index_from {S = S} {W = W} {D = D} es fetched ≡ done out)
            × Ascending out
            × ((e : Row P) → (e ∈ out) ↔ ((e ∈ es) ⊎ (e ∈ fetched))))
  index_from-Ascending [] es h = inr (es, refl, h, λ e. (inl, ⊎_elim (λ m. m) (λ z. absurd z)))
  index_from-Ascending (u ∷ fetched) es h = elim (insert_vacant-Ascending u.0 u.1 es h) [
    | inl (e, m) ↦ inl (u.0, rw e refl, inl (m, inl refl))
    | inr (out, e, rises, mem) ↦ elim (index_from-Ascending fetched out rises) [
      | inl (k, f, where_it_is) ↦ inl (
        k,
        rw e f,
        ⊎_elim
            (λ (m, n).
              let (q, in_out, name) = mem-map (λ r. r.0) k out m in
              ⊎_elim (λ added. inr (inl (sym name ∙ ap (λ r. r.0) added, n)))
                (λ old. inl (subst (λ j. j ∈ keys es) name (map-mem (λ r. r.0) q es old), inr n))
                ((mem q).0 in_out))
            (λ r. inr (inr r)) where_it_is,
      )
      | inr (last, f, rises', mem') ↦ inr (
        last,
        rw e f,
        rises',
        λ q. (
          λ m.
              ⊎_elim (λ n. ⊎_elim (λ added. inr (inl added)) inl ((mem q).0 n)) (λ n. inr (inr n))
                ((mem' q).0 m),
          ⊎_elim (λ m. (mem' q).1 (inl ((mem q).1 (inr m))))
              (⊎_elim (λ added. (mem' q).1 (inl ((mem q).1 (inl added))))
                (λ n. (mem' q).1 (inr n))),
        ),
      )
    ]
  ]
