-- ===== src/Polygon/Take.antt =====
-- Degrees of corners in the adjacency, and what taking an end changes.
use package.watershed_delineation.Prelude.{
  ℕ, suc, ◌+◌, ◌<◌, ◌≡◌, refl, ap, subst, inl, inr, Bool, true, false, ◌&&◌, Bool-cases, some, List,
  [], ◌∷◌, length, if◌then◌else◌, arith,
}
use package.watershed_delineation.Polygon.{
  Corner, Edge, Adjacency, same, before, insert, build, pop_end, take_end,
}

abbrev pub one_if : Bool → ℕ
one_if t = if t then 1 else 0

abbrev pub count : Corner → List Corner → ℕ
count v [] = 0
count v (end ∷ ends) = one_if (same v end) + count v ends

-- The edges that leave `v`, that enter `v`, that go from `s` to `t`, and all.
abbrev pub leaving : Corner → Adjacency → ℕ
leaving v [] = 0
leaving v ((key, ends) ∷ rest) = (if same v key then length ends else 0) + leaving v rest

abbrev pub entering : Corner → Adjacency → ℕ
entering v [] = 0
entering v ((key, ends) ∷ rest) = count v ends + entering v rest

abbrev pub joining : Corner → Corner → Adjacency → ℕ
joining s t [] = 0
joining s t ((key, ends) ∷ rest) = (if same s key then count t ends else 0) + joining s t rest

abbrev pub size : Adjacency → ℕ
size [] = 0
size ((key, ends) ∷ rest) = length ends + size rest

abbrev pub NoEmpty : Adjacency → Type 0
NoEmpty [] = Unit
NoEmpty ((key, ends) ∷ rest) = (0 < length ends) × NoEmpty rest

pub same_refl : (v : Corner) → same v v ≡ true
same_refl v = ground arith

pub same→≡ : (a b : Corner) → same a b ≡ true → a ≡ b
same→≡ a b h = ground arith

-- The adjacency without one edge from `v` to `next`.
pub record Without (v next : Corner) (adjacency rest : Adjacency) : Type 0 where
  pub no_empty : NoEmpty rest
  pub smaller : size adjacency ≡ suc (size rest)
  pub leaves : (u : Corner) → leaving u adjacency ≡ one_if (same u v) + leaving u rest
  pub enters : (u : Corner) → entering u adjacency ≡ one_if (same u next) + entering u rest
  pub joins :
      (s t : Corner) → joining s t adjacency ≡ one_if (same s v && same t next) + joining s t rest

abbrev pub Taken : Corner → Adjacency → Type 0
Taken v adjacency =
    (next : Corner) × (rest : Adjacency) × (take_end v adjacency ≡ some (next, rest))
    × Without v next adjacency rest

pop-Without :
    (key : Corner) (ends : List Corner) (rest : Adjacency)
    → 0 < length ends
    → NoEmpty rest
    → (next : Corner) × (left : Adjacency) × (pop_end key ends rest ≡ some (next, left))
      × Without key next ((key, ends) ∷ rest) left
unfolding pop_end
pop-Without key [] rest some_end ne = absurd (omega arith)
pop-Without key (next ∷ []) rest some_end ne = (
  next,
  rest,
  refl,
  record {
    no_empty = ne;
    smaller = omega arith;
    leaves = λ u. ground arith;
    enters = λ u. omega arith;
    joins = λ s t. ground arith;
  },
)
pop-Without key (next ∷ end ∷ ends) rest some_end ne = (
  next,
  (key, end ∷ ends) ∷ rest,
  refl,
  record {
    no_empty = (omega arith, ne);
    smaller = omega arith;
    leaves = λ u. ground arith;
    enters = λ u. omega arith;
    joins = λ s t. ground arith;
  },
)

-- The edge that is taken from a later entry.
Without-later :
    (v next key : Corner) (ends : List Corner) (rest left : Adjacency)
    → 0 < length ends
    → Without v next rest left
    → Without v next ((key, ends) ∷ rest) ((key, ends) ∷ left)
Without-later v next key ends rest left some_end w = record {
  no_empty = (some_end, w.no_empty);
  smaller = omega (arith, w.smaller);
  leaves = λ u. omega (arith, w.leaves u);
  enters = λ u. omega (arith, w.enters u);
  joins = λ s t. omega (arith, w.joins s t);
}

same_sym : (a b : Corner) → same a b ≡ false → same b a ≡ false
same_sym a b h = ground arith

-- An edge that leaves `v` can be taken.
pub take_end-Taken :
    (v : Corner) (adjacency : Adjacency)
    → NoEmpty adjacency
    → 0 < leaving v adjacency
    → Taken v adjacency
unfolding take_end
take_end-Taken v [] ne h = absurd (omega arith)
take_end-Taken v ((key, ends) ∷ rest) ne h = elim (Bool-cases (same key v)) [
  | inl here ↦
      let (next, left, e, w) = pop-Without key ends rest ne.0 ne.1 in
      (
        next,
        left,
        rw here e,
        subst (λ k. Without k next ((key, ends) ∷ rest) left) (same→≡ key v here) w,
      )
  | inr there ↦
      let (next, left, e, w) =
        take_end-Taken v rest ne.1 (ground (arith, h, same_sym key v there)) in
      (next, (key, ends) ∷ left, rw (there, e) refl, Without-later v next key ends rest left ne.0 w)
]

-- A pushed edge can be taken away again.
insert-Without :
    (s t : Corner) (adjacency : Adjacency)
    → NoEmpty adjacency
    → Without s t (insert s t adjacency) adjacency × NoEmpty (insert s t adjacency)
unfolding insert
insert-Without s t [] ne = (
  record {
    no_empty = tt;
    smaller = omega arith;
    leaves = λ u. ground arith;
    enters = λ u. omega arith;
    joins = λ u v. ground arith;
  },
  (omega arith, tt),
)
insert-Without s t ((key, ends) ∷ rest) ne = elim (Bool-cases (same key s)) [
  | inl here ↦ rw here (
    record {
      no_empty = ne;
      smaller = omega arith;
      leaves = λ u. ground (arith, ap (same u) (same→≡ key s here));
      enters = λ u. omega arith;
      joins = λ u v. ground (arith, ap (same u) (same→≡ key s here));
    },
    (omega arith, ne.1),
  )
  | inr there ↦ rw there (elim (Bool-cases (before s key)) [
    | inl first ↦ rw first (
      record {
        no_empty = ne;
        smaller = omega arith;
        leaves = λ u. ground arith;
        enters = λ u. omega arith;
        joins = λ u v. ground arith;
      },
      (omega arith, ne),
    )
    | inr later ↦
        let (w, ne') = insert-Without s t rest ne.1 in
        rw later (Without-later s t key ends (insert s t rest) rest ne.0 w, (ne.0, ne'))
  ])
]

-- The edges of a list that leave `v`, that enter `v`, and that go from `s` to `t`.
abbrev pub starts : Corner → List Edge → ℕ
starts v [] = 0
starts v (edge ∷ edges) = one_if (same v edge.0) + starts v edges

abbrev pub stops : Corner → List Edge → ℕ
stops v [] = 0
stops v (edge ∷ edges) = one_if (same v edge.1) + stops v edges

abbrev pub times : Corner → Corner → List Edge → ℕ
times s t [] = 0
times s t (edge ∷ edges) = one_if (same s edge.0 && same t edge.1) + times s t edges

-- The adjacency has the edges of the list besides those of `adjacency`.
pub record Built (edges : List Edge) (adjacency built : Adjacency) : Type 0 where
  pub no_empty : NoEmpty built
  pub sized : size built ≡ length edges + size adjacency
  pub leaves : (u : Corner) → leaving u built ≡ starts u edges + leaving u adjacency
  pub enters : (u : Corner) → entering u built ≡ stops u edges + entering u adjacency
  pub joins : (s t : Corner) → joining s t built ≡ times s t edges + joining s t adjacency

pub build-Built :
    (edges : List Edge) (adjacency : Adjacency)
    → NoEmpty adjacency
    → Built edges adjacency (build edges adjacency)
unfolding build
build-Built [] adjacency ne = record {
  no_empty = ne;
  sized = omega arith;
  leaves = λ u. omega arith;
  enters = λ u. omega arith;
  joins = λ s t. omega arith;
}
build-Built (edge ∷ edges) adjacency ne =
    let (w, ne') = insert-Without edge.0 edge.1 adjacency ne in
    let b = build-Built edges (insert edge.0 edge.1 adjacency) ne' in
    record {
      no_empty = b.no_empty;
      sized = omega (arith, b.sized, w.smaller);
      leaves = λ u. omega (arith, b.leaves u, w.leaves u);
      enters = λ u. omega (arith, b.enters u, w.enters u);
      joins = λ s t. omega (arith, b.joins s t, w.joins s t);
    }
