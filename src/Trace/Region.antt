-- ===== src/Trace/Region.antt =====
-- The cells that drain to a cell, described by the directions that the tile's `get` reads.
use package.watershed_delineation.Prelude.{
  ℕ, ◌≡◌, refl, sym, ◌↔◌, ◌⊎◌, inl, inr, true, Bool-cases, Option, none, some, returns, arith, ◌∈◌,
}
use package.watershed_delineation.Prelude.Int.{ℤ, pos, ◌+ℤ◌}
use package.watershed_delineation.Raster.Grid.{GridCoord, Inside}
use package.watershed_delineation.Raster.FlowDir.{FlowDir, all, dx, dy, opposite}
use package.watershed_delineation.Raster.Tile
use package.watershed_delineation.Raster.Tile.Laws.{
  value, get-value, get_checked-value, get_checked-cases,
}
use package.watershed_delineation.Raster.FlowTile
use package.watershed_delineation.Raster.FlowTile.{FlowDirectionTile, TileState, decode, dims}
use package.watershed_delineation.Trace.{Search, same_dir, flows_back, mark, visit}

same_dir_iff : (a b : FlowDir) → (same_dir a b ≡ true) ↔ (a ≡ b)
same_dir_iff a b = ground arith

opposite-opposite : (d : FlowDir) → opposite (opposite d) ≡ d
opposite-opposite d = ground arith

pub mem-all : (d : FlowDir) → d ∈ all
mem-all d = ground arith

-- A step and the step in the opposite direction.
step_back : (a b : ℕ) (d : FlowDir) → (pos a +ℤ dy d ≡ pos b) ↔ (pos a ≡ pos b +ℤ dy (opposite d))
step_back a b d = ground arith

side_back : (a b : ℕ) (d : FlowDir) → (pos a +ℤ dx d ≡ pos b) ↔ (pos a ≡ pos b +ℤ dx (opposite d))
side_back a b d = ground arith

-- The guard of the loop at a decoded cell.
flows_back_iff :
    (dir : FlowDir) (o : Option FlowDir) → (flows_back dir o ≡ true) ↔ (o ≡ some (opposite dir))
flows_back_iff dir none = ground arith
flows_back_iff dir (some d) = ground (arith, same_dir_iff d (opposite dir))

module _ {G : Type 0} {S : TileState} (t : FlowDirectionTile G S) where
  -- The cell `p` has the direction that points at `q`.
  pub record FlowsInto (p q : GridCoord) : Type 0 where
    pub dir : FlowDir
    pub reads : FlowTile.get t p ≡ returns (some dir)
    pub row : pos q.row ≡ pos p.row +ℤ dy dir
    pub col : pos q.col ≡ pos p.col +ℤ dx dir

  -- The cells whose flow path leads to `pour`.
  pub data Drains (pour : GridCoord) : GridCoord → Type 0 where
    here : Drains pour pour
    next : {p q : GridCoord} → Inside (dims t) p → FlowsInto p q → Drains pour q → Drains pour p

  -- `p` is what the loop over the directions finds at `q` in the direction `dir`.
  pub record Found (q : GridCoord) (dir : FlowDir) (p : GridCoord) : Type 0 where
    pub inside : Inside (dims t) p
    pub flows : FlowsInto p q
    pub back : flows.dir ≡ opposite dir

  -- A cell that flows into `q` is found from `q` in the direction opposite to its own.
  pub FlowsInto-Found :
      (p q : GridCoord) → Inside (dims t) p → (f : FlowsInto p q) → Found q (opposite f.dir) p
  FlowsInto-Found p q i f = record { inside = i; flows = f; back = sym (opposite-opposite f.dir) }

  get_checked-off :
      (r c : ℤ)
      → Tile.get_checked t.inner r c ≡ returns none
      → FlowTile.get_checked t r c ≡ returns none
  unfolding FlowTile.get_checked
  get_checked-off r c off = rw off

  module _ (valid : Tile.IsValid t.inner) where
    pub get-decode :
        (p : GridCoord)
        → Inside (dims t) p
        → FlowTile.get t p ≡ returns (decode (value t.inner p) t.encoding)
    unfolding FlowTile.get
    get-decode p i = rw (get-value t.inner valid p i)

    get_checked-decode :
        (p : GridCoord)
        → Inside (dims t) p
        → FlowTile.get_checked t (pos p.row) (pos p.col)
          ≡ returns (decode (value t.inner p) t.encoding)
    unfolding FlowTile.get_checked
    get_checked-decode p i = rw (get_checked-value t.inner valid p i)

    -- What the loop finds, by the cell's place and its byte.
    abbrev At : GridCoord → FlowDir → GridCoord → Type 0
    At q dir p =
        (pos q.row +ℤ dy dir ≡ pos p.row)
        × (pos q.col +ℤ dx dir ≡ pos p.col)
        × (decode (value t.inner p) t.encoding ≡ some (opposite dir))

    Found-At : (q : GridCoord) (dir : FlowDir) (p : GridCoord) → Found q dir p → At q dir p
    Found-At q dir p f = (
      (step_back q.row p.row dir).1 (rw (← f.back) f.flows.row),
      (side_back q.col p.col dir).1 (rw (← f.back) f.flows.col),
      cc (get-decode p f.inside, f.flows.reads, f.back),
    )

    pub At-Found :
        (q : GridCoord) (dir : FlowDir) (p : GridCoord)
        → Inside (dims t) p
        → At q dir p
        → Found q dir p
    At-Found q dir p i (hr, hc, e) = record {
      inside = i;
      flows = record {
        dir = opposite dir;
        reads = rw (get-decode p i, e);
        row = (step_back q.row p.row dir).0 hr;
        col = (side_back q.col p.col dir).0 hc;
      };
      back = refl;
    }

    pub Found-unique :
        (q : GridCoord) (dir : FlowDir) (p p' : GridCoord) → Found q dir p → Found q dir p' → p ≡ p'
    Found-unique q dir p p' f f' =
        let (hr, hc, _) = Found-At q dir p f in
        let (hr', hc', _) = Found-At q dir p' f' in ground (arith, hr, hc, hr', hc')

    -- One direction of the loop: it changes nothing, and no cell drains to `q` from there, or it
    -- marks the cell that does.
    pub visit-cases :
        (q : GridCoord) (dir : FlowDir) (s : Search)
        → (visit t q dir s ≡ returns s) × ((p : GridCoord) → ¬ Found q dir p)
          ⊎ ((p : GridCoord) × Found q dir p × (visit t q dir s ≡ mark t.inner.cols p s))
    unfolding visit
    visit-cases q dir s =
        elim (get_checked-cases t.inner valid (pos q.row +ℤ dy dir) (pos q.col +ℤ dx dir)) [
          | inl off ↦ inl (
            rw (get_checked-off (pos q.row +ℤ dy dir) (pos q.col +ℤ dx dir) off),
            λ p f.
                let (hr, hc, _) = Found-At q dir p f in
                cc (off, hr, hc, get_checked-value t.inner valid p f.inside),
          )
          | inr (p, i, hr, hc) ↦
              let read = get_checked-decode p i in
              let guard = flows_back_iff dir (decode (value t.inner p) t.encoding) in
              elim (Bool-cases (flows_back dir (decode (value t.inner p) t.encoding))) [
                | inl back ↦
                    inr (p, At-Found q dir p i (hr, hc, guard.0 back), rw (hr, hc, read, back))
                | inr other ↦ inl (
                  rw (hr, hc, read, other),
                  λ p' f.
                      let (hr', hc', e) = Found-At q dir p' f in
                      let same : p' ≡ p = ground (arith, hr, hc, hr', hc') in
                      cc (guard.1 (rw same at e), other),
                )
              ]
        ]
