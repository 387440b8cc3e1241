-- ===== src/Trace/Correct.antt =====
-- The trace returns, and its mask holds exactly the cells that drain to the pour point.
use package.watershed_delineation.Prelude.{
  ℕ, zero, suc, ◌+◌, ◌*◌, ◌≤◌, ◌≡◌, refl, sym, ap, ◌∙◌, ◌⊎◌, inl, inr, ⊎_elim, ◌↔◌, Bool, true,
  false, List, [], ◌∷◌, ◌∈◌, Outcome, returns, length, set, replicate, length-set, length-replicate,
  get_or-replicate, arith, lt→ltb, ==_iff,
}
use package.watershed_delineation.Raster.Grid.{
  GridCoord, GridDims, Inside, flat, flat-lt, at, get_elem?-flat, at-set_self, at-set_cases,
}
use package.watershed_delineation.Raster.FlowDir.{all, opposite}
use package.watershed_delineation.Raster.Tile
use package.watershed_delineation.Raster.FlowTile.{FlowDirectionTile, TileState, dims}
use package.watershed_delineation.Raster.Mask.{CatchmentMask, mask_dims, contains, from_traced}
use package.watershed_delineation.Trace.{Search, search_loop, trace_upstream}
use package.watershed_delineation.Trace.Region.{
  FlowsInto, Drains, here, next, mem-all, FlowsInto-Found,
}
use package.watershed_delineation.Trace.Scan.{unvisited, unvisited-set, Scans, scan-Scans}

at-blank : (n cols : ℕ) (w : GridCoord) → at cols (replicate n false) w ≡ false
unfolding at
at-blank n cols w = get_or-replicate n (flat cols w) false

unvisited-replicate : (n : ℕ) → unvisited (replicate n false) ≡ n
unvisited-replicate zero = refl
unvisited-replicate (suc n) = ap suc (unvisited-replicate n)

-- `contains` reads the flag of a cell of the mask.
contains-at :
    (d : GridDims) (flags : List Bool) (p : GridCoord)
    → length flags ≡ d.rows * d.cols
    → Inside d p
    → contains (record { data_vec = flags; rows = d.rows; cols = d.cols }) p
      ≡ returns (at d.cols flags p)
unfolding contains
contains-at d flags p size i = rw (get_elem?-flat d flags size p i)

module _ {G : Type 0} {S : TileState} (t : FlowDirectionTile G S) (valid : Tile.IsValid t.inner)
    (pour : GridCoord) (first : Inside (dims t) pour) where
  abbrev IsMarked : List Bool → GridCoord → Type 0
  IsMarked visited w = at t.inner.cols visited w ≡ true

  -- A marked cell is on the stack, or all that drains into it is marked.
  record Inv (visited : List Bool) (stack : List GridCoord) : Type 0 where
    size : length visited ≡ t.inner.rows * t.inner.cols
    start : IsMarked visited pour
    waiting : (w : GridCoord) → w ∈ stack → Inside (dims t) w × IsMarked visited w
    sound : (w : GridCoord) → Inside (dims t) w → IsMarked visited w → Drains t pour w
    closed :
        (w : GridCoord)
        → Inside (dims t) w
        → IsMarked visited w
        → (w ∈ stack) ⊎ ((p : GridCoord) → Inside (dims t) p → FlowsInto t p w → IsMarked visited p)

  Inv-scan :
      {visited : List Bool} {q : GridCoord} {stack : List GridCoord} {r : Outcome Search}
      → Inv visited (q ∷ stack)
      → (sc : Scans t valid q all (record { visited = visited; stack = stack }) r)
      → Inv sc.out.visited sc.out.stack
  Inv-scan {q} i sc = record {
    size = sc.follows.size;
    start = sc.follows.grows pour first i.start;
    waiting = λ w m. elim (sc.follows.stacked w m) [
      | inl old ↦ let (iw, mw) = i.waiting w (inr old) in (iw, sc.follows.grows w iw mw)
      | inr new ↦ new
    ];
    sound = λ w iw m. elim (sc.only w iw m) [
      | inl old ↦ i.sound w iw old
      | inr (dir, f) ↦
          next iw f.flows (i.sound q (i.waiting q (inl refl)).0 (i.waiting q (inl refl)).1)
    ];
    closed = λ w iw m. elim (sc.follows.queued w iw m) [
      | inr waits ↦ inl waits
      | inl old ↦ elim (i.closed w iw old) [
        | inl (inl e) ↦ inr (λ p ip f. all_marked p ip (rw e at f))
        | inl (inr waits) ↦ inl (sc.follows.keeps w waits)
        | inr done ↦ inr (λ p ip f. sc.follows.grows p ip (done p ip f))
      ]
    ];
  }
    where
      all_marked : (p : GridCoord) → Inside (dims t) p → FlowsInto t p q → IsMarked sc.out.visited p
      all_marked p ip f =
          sc.marked (opposite f.dir) p (mem-all (opposite f.dir)) (FlowsInto-Found t p q ip f)

  record Traces (r : Outcome (List Bool)) : Type 0 where
    out : List Bool
    result : r ≡ returns out
    inv : Inv out []

  search_loop-Traces :
      (fuel : ℕ) (visited : List Bool) (stack : List GridCoord)
      → Inv visited stack
      → unvisited visited + length stack ≤ fuel
      → Traces (search_loop t fuel visited stack)
  unfolding search_loop
  search_loop-Traces fuel visited [] i h = record { out = visited; result = refl; inv = i }
  search_loop-Traces zero visited (q ∷ stack) i h = absurd (omega arith)
  search_loop-Traces (suc fuel) visited (q ∷ stack) i h =
      let sc = scan-Scans t valid q all (record { visited = visited; stack = stack }) i.size in
      let rest =
        search_loop-Traces fuel sc.out.visited sc.out.stack (Inv-scan i sc)
          (omega (arith, sc.follows.work)) in
      record { out = rest.out; result = rw sc.result rest.result; inv = rest.inv }

  -- The state in which the loop starts.
  pub start_flags : List Bool
  start_flags = set (replicate (t.inner.rows * t.inner.cols) false) (flat t.inner.cols pour) true

  Inv-start : Inv start_flags (pour ∷ [])
  unfolding start_flags
  Inv-start = record {
    size = length-set blank (flat t.inner.cols pour) true ∙ length-blank;
    start = at-set_self (dims t) blank length-blank pour first true;
    waiting = λ w.
        ⊎_elim (λ e. rw e (first, at-set_self (dims t) blank length-blank pour first true))
          (λ z. absurd z);
    sound = λ w iw m. rw (only w iw m) here;
    closed = λ w iw m. inl (inl (only w iw m));
  }
    where
      blank : List Bool
      blank = replicate (t.inner.rows * t.inner.cols) false

      length-blank : length blank ≡ t.inner.rows * t.inner.cols
      length-blank = length-replicate (t.inner.rows * t.inner.cols) false

      only :
          (w : GridCoord)
          → Inside (dims t) w
          → IsMarked (set blank (flat t.inner.cols pour) true) w
          → w ≡ pour
      only w iw m = elim (at-set_cases (dims t) blank length-blank pour first true w iw) [
        | inl e ↦ e
        | inr same ↦ cc (sym same ∙ m, at-blank (t.inner.rows * t.inner.cols) t.inner.cols w)
      ]

  unvisited-start : unvisited start_flags + 1 ≡ t.inner.rows * t.inner.cols
  unfolding start_flags
  unvisited-start =
      let cells = t.inner.rows * t.inner.cols in
      let i = flat t.inner.cols pour in
      omega (
        arith,
        unvisited-replicate cells,
        unvisited-set (replicate cells false) i
            (rw (length-replicate cells false) (flat-lt (dims t) pour first))
            (get_or-replicate cells i false),
      )

  complete :
      {visited : List Bool}
      → Inv visited []
      → {w : GridCoord} → Drains t pour w
      → Inside (dims t) w × IsMarked visited w
  complete i here = (first, i.start)
  complete i (next {p} {q} ip f d) =
      let (iq, mq) = complete i d in
      (ip, ⊎_elim (λ z. absurd z) (λ done. done p ip f) (i.closed q iq mq))

-- From a pour point on a valid tile the trace returns, without a panic and within its rounds; its
-- mask has the tile's extent, and it holds a cell of the tile exactly when the directions that the
-- tile's `get` reads lead from this cell to the pour point, in any number of steps.
pub trace_upstream-Drains :
    {G : Type 0} {S : TileState} (t : FlowDirectionTile G S) (pour : GridCoord)
    → Tile.IsValid t.inner
    → Inside (dims t) pour
    → (m : CatchmentMask) × (trace_upstream t pour ≡ returns m)
      × (mask_dims m ≡ dims t)
      × ((p : GridCoord) → Inside (dims t) p → (contains m p ≡ returns true) ↔ Drains t pour p)
unfolding trace_upstream from_traced start_flags
trace_upstream-Drains t pour valid first =
    let enough = unvisited-start t valid pour first in
    let tr =
      search_loop-Traces t valid pour first (t.inner.rows * t.inner.cols)
        (start_flags t valid pour first) (pour ∷ []) (Inv-start t valid pour first) (omega arith) in
    (
      record { data_vec = tr.out; rows = t.inner.rows; cols = t.inner.cols },
      rw (lt→ltb _ _ (flat-lt (dims t) pour first), tr.result, (==_iff _ _).1 tr.inv.size),
      refl,
      λ p ip. (
        λ c. tr.inv.sound p ip (ground (arith, c, contains-at (dims t) tr.out p tr.inv.size ip)),
        λ d.
            contains-at (dims t) tr.out p tr.inv.size ip
            ∙ ap returns (complete t valid pour first tr.inv d).1,
      ),
    )
