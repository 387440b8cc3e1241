-- ===== src/Trace/Scan.antt =====
-- The inner loop of the trace: which flags it sets, and which cells it pushes.
use package.watershed_delineation.Prelude.{
  ℕ, zero, suc, ◌+◌, ◌*◌, ◌<◌, ◌≡◌, refl, sym, ap, ◌∙◌, ◌⊎◌, inl, inr, ⊎_elim, Bool, true, false,
  Bool-cases, List, [], ◌∷◌, ◌∈◌, Outcome, returns, length, set, length-set, arith, get_or,
}
use package.watershed_delineation.Raster.Grid.{
  GridCoord, GridDims, Inside, flat, flat-lt, at, get_elem?-flat, at-set_self, at-set_cases,
}
use package.watershed_delineation.Raster.FlowDir.{FlowDir}
use package.watershed_delineation.Raster.Tile
use package.watershed_delineation.Raster.FlowTile.{FlowDirectionTile, TileState, dims}
use package.watershed_delineation.Trace.{Search, mark, visit, scan}
use package.watershed_delineation.Trace.Region.{Found, Found-unique, visit-cases}

-- The flags that are still false.
abbrev pub unvisited : List Bool → ℕ
unvisited [] = 0
unvisited (true ∷ vs) = unvisited vs
unvisited (false ∷ vs) = suc (unvisited vs)

pub unvisited-set :
    (vs : List Bool) (i : ℕ)
    → i < length vs
    → get_or vs i false ≡ false
    → suc (unvisited (set vs i true)) ≡ unvisited vs
unvisited-set [] i h e = absurd (omega arith)
unvisited-set (true ∷ vs) zero h e = cc
unvisited-set (false ∷ vs) zero h e = refl
unvisited-set (true ∷ vs) (suc i) h e = unvisited-set vs i (omega arith) e
unvisited-set (false ∷ vs) (suc i) h e = ap suc (unvisited-set vs i (omega arith) e)

-- How one search state follows another: flags are only set, a cell that is set is pushed, and
-- the flags left and the stack together keep their number.
pub record Follows (d : GridDims) (s s' : Search) : Type 0 where
  pub size : length s'.visited ≡ d.rows * d.cols
  pub work : unvisited s'.visited + length s'.stack ≡ unvisited s.visited + length s.stack
  pub grows :
      (w : GridCoord) → Inside d w → at d.cols s.visited w ≡ true → at d.cols s'.visited w ≡ true
  pub keeps : (w : GridCoord) → w ∈ s.stack → w ∈ s'.stack
  pub queued :
      (w : GridCoord)
      → Inside d w
      → at d.cols s'.visited w ≡ true
      → (at d.cols s.visited w ≡ true) ⊎ (w ∈ s'.stack)
  pub stacked :
      (w : GridCoord) → w ∈ s'.stack → (w ∈ s.stack) ⊎ Inside d w × (at d.cols s'.visited w ≡ true)

Follows-refl : (d : GridDims) (s : Search) → length s.visited ≡ d.rows * d.cols → Follows d s s
Follows-refl d s size = record {
  size = size;
  work = refl;
  grows = λ w i m. m;
  keeps = λ w m. m;
  queued = λ w i m. inl m;
  stacked = λ w m. inl m;
}

Follows-trans :
    {d : GridDims} {s s' s'' : Search} → Follows d s s' → Follows d s' s'' → Follows d s s''
Follows-trans f g = record {
  size = g.size;
  work = g.work ∙ f.work;
  grows = λ w i m. g.grows w i (f.grows w i m);
  keeps = λ w m. g.keeps w (f.keeps w m);
  queued = λ w i m. elim (g.queued w i m) [
    | inl old ↦ ⊎_elim inl (λ k. inr (g.keeps w k)) (f.queued w i old)
    | inr k ↦ inr k
  ];
  stacked = λ w m. elim (g.stacked w m) [
    | inl k ↦ ⊎_elim inl (λ (i, v). inr (i, g.grows w i v)) (f.stacked w k)
    | inr k ↦ inr k
  ];
}

unvisited-at :
    (d : GridDims) (p : GridCoord) (s : Search)
    → Inside d p
    → length s.visited ≡ d.rows * d.cols
    → at d.cols s.visited p ≡ false
    → suc (unvisited (set s.visited (flat d.cols p) true)) ≡ unvisited s.visited
unfolding at
unvisited-at d p s i size fresh =
    unvisited-set s.visited (flat d.cols p) (rw size (flat-lt d p i)) fresh

-- `mark` sets the flag of its cell and no other.
record Marks (d : GridDims) (p : GridCoord) (s : Search) (r : Outcome Search) : Type 0 where
  out : Search
  result : r ≡ returns out
  follows : Follows d s out
  marked : at d.cols out.visited p ≡ true
  only :
      (w : GridCoord)
      → Inside d w
      → at d.cols out.visited w ≡ true
      → (at d.cols s.visited w ≡ true) ⊎ (w ≡ p)

mark-Marks :
    (d : GridDims) (p : GridCoord) (s : Search)
    → Inside d p
    → length s.visited ≡ d.rows * d.cols
    → Marks d p s (mark d.cols p s)
unfolding mark
mark-Marks d p s i size =
    let read = get_elem?-flat d s.visited size p i in
    elim (Bool-cases (at d.cols s.visited p)) [
      | inl seen ↦ record {
        out = s;
        result = rw (read, seen);
        follows = Follows-refl d s size;
        marked = seen;
        only = λ w iw m. inl m;
      }
      | inr fresh ↦ record {
        out = record { visited = set s.visited (flat d.cols p) true; stack = p ∷ s.stack };
        result = rw (read, fresh);
        follows = record {
          size = length-set s.visited (flat d.cols p) true ∙ size;
          work = omega (arith, unvisited-at d p s i size fresh);
          grows = λ w iw m. elim (at-set_cases d s.visited size p i true w iw) [
            | inl e ↦ rw e (at-set_self d s.visited size p i true)
            | inr same ↦ same ∙ m
          ];
          keeps = λ w m. inr m;
          queued = λ w iw m. elim (at-set_cases d s.visited size p i true w iw) [
            | inl e ↦ inr (inl e)
            | inr same ↦ inl (sym same ∙ m)
          ];
          stacked =
              λ w. ⊎_elim (λ e. inr (rw e i, rw e (at-set_self d s.visited size p i true))) inl;
        };
        marked = at-set_self d s.visited size p i true;
        only = λ w iw m.
            ⊎_elim inr (λ same. inl (sym same ∙ m)) (at-set_cases d s.visited size p i true w iw);
      }
    ]

module _ {G : Type 0} {S : TileState} (t : FlowDirectionTile G S) (valid : Tile.IsValid t.inner)
    (q : GridCoord) where
  -- A scan from `q` over `dirs`: every cell that drains to `q` from one of them is marked, and no
  -- other cell is.
  pub record Scans (dirs : List FlowDir) (s : Search) (r : Outcome Search) : Type 0 where
    pub out : Search
    pub result : r ≡ returns out
    pub follows : Follows (dims t) s out
    pub marked :
        (dir : FlowDir) (p : GridCoord)
        → dir ∈ dirs
        → Found t q dir p
        → at t.inner.cols out.visited p ≡ true
    pub only :
        (w : GridCoord)
        → Inside (dims t) w
        → at t.inner.cols out.visited w ≡ true
        → (at t.inner.cols s.visited w ≡ true) ⊎ ((dir : FlowDir) × Found t q dir w)

  visit-Scans :
      (dir : FlowDir) (s : Search)
      → length s.visited ≡ t.inner.rows * t.inner.cols
      → Scans (dir ∷ []) s (visit t q dir s)
  visit-Scans dir s size = elim (visit-cases t valid q dir s) [
    | inl (e, nothing) ↦ record {
      out = s;
      result = e;
      follows = Follows-refl (dims t) s size;
      marked = λ dir' p m f. ⊎_elim (λ same. absurd (nothing p (rw same at f))) (λ z. absurd z) m;
      only = λ w iw m. inl m;
    }
    | inr (p, f, e) ↦
        let m = mark-Marks (dims t) p s f.inside size in
        record {
          out = m.out;
          result = e ∙ m.result;
          follows = m.follows;
          marked = λ dir' p' d f'.
              let here : Found t q dir p' = ⊎_elim (λ same. rw same at f') (λ z. absurd z) d in
              rw (Found-unique t valid q dir p' p here f) m.marked;
          only = λ w iw mw. ⊎_elim inl (λ same. inr (dir, rw same f)) (m.only w iw mw);
        }
  ]

  pub scan-Scans :
      (dirs : List FlowDir) (s : Search)
      → length s.visited ≡ t.inner.rows * t.inner.cols
      → Scans dirs s (scan t q dirs s)
  unfolding scan
  scan-Scans [] s size = record {
    out = s;
    result = refl;
    follows = Follows-refl (dims t) s size;
    marked = λ dir p m f. absurd m;
    only = λ w iw m. inl m;
  }
  scan-Scans (dir ∷ dirs) s size =
      let v = visit-Scans dir s size in
      let r = scan-Scans dirs v.out v.follows.size in
      record {
        out = r.out;
        result = rw v.result r.result;
        follows = Follows-trans v.follows r.follows;
        marked = λ dir' p m f. elim m [
          | inl e ↦ r.follows.grows p f.inside (v.marked dir' p (inl e) f)
          | inr later ↦ r.marked dir' p later f
        ];
        only = λ w iw m. ⊎_elim (v.only w iw) inr (r.only w iw m);
      }
