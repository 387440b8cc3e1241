-- ===== src/Export/Hilbert/Curve.antt =====
-- The index is below 2^32 and determines its cell.
use native.Mathlib.Nat.{pow-suc}
use package.watershed_delineation.Prelude.{
  ℕ, zero, suc, ◌+◌, ◌-◌, ◌*◌, ◌^◌, ◌≤◌, ◌<◌, ◌≡◌, ap, ap₂, ◌↔◌, ◌∙◌, inl, inr, true, false,
  Bool-cases, returns, ltb, leb, lt→ltb, dec_lt, if◌then◌else◌, arith,
}
use package.watershed_delineation.Export.Hilbert.{
  descend, hilbert_loop, xy_to_hilbert_index, add32, sub32, mul32,
}

-- The quadrant of a cell of a square of side `2 * half`, in the order of the curve, and the cell's
-- place in that quadrant, turned so that the curve enters it in the corner at the origin.
quadrant : ℕ → ℕ → ℕ → ℕ
quadrant half x y =
    if ltb x half then (if ltb y half then 0 else 1) else (if ltb y half then 3 else 2)

turned_x : ℕ → ℕ → ℕ → ℕ
turned_x half x y =
    if ltb x half
    then (if ltb y half then y else x)
    else (if ltb y half then half - 1 - y else x - half)

turned_y : ℕ → ℕ → ℕ → ℕ
turned_y half x y =
    if ltb x half
    then (if ltb y half then x else y - half)
    else (if ltb y half then half - 1 - (x - half) else y - half)

mul32-ok : (a b : ℕ) → a * b < 2 ^ 32 → mul32 a b ≡ returns (a * b)
mul32-ok a b h = rw (lt→ltb (a * b) (2 ^ 32) h)

add32-ok : (a b : ℕ) → a + b < 2 ^ 32 → add32 a b ≡ returns (a + b)
add32-ok a b h = rw (lt→ltb (a + b) (2 ^ 32) h)

sub32-ok : (a b : ℕ) → b ≤ a → sub32 a b ≡ returns (a - b)
sub32-ok a b h = ground arith

-- A square with a cell has an area.
square_pos : (half x : ℕ) → x < half * 2 → 0 < half * half
square_pos half x h = grind arith

-- Inside the square no operation leaves the range of a `u32`.
descend_lem :
    (half x y index : ℕ)
    → (x < half * 2) × (y < half * 2)
    → index + 4 * (half * half) ≤ 2 ^ 32
    → descend half (record { x = x; y = y; index = index })
      ≡ returns (record {
        x = turned_x half x y;
        y = turned_y half x y;
        index = index + quadrant half x y * (half * half);
      })
unfolding descend quadrant turned_x turned_y
descend_lem half x y index inside room =
    let q : ℕ = half * half in
    let some_area : 0 < half * half = square_pos half x inside.0 in
    let area = mul32-ok half half (omega (arith, room, some_area)) in
    elim (Bool-cases (ltb x half)) [
      | inl bx ↦ elim (Bool-cases (ltb y half)) [
        | inl by ↦ rw (area, bx, by) (ap returns (ground arith))
        | inr by ↦
            let grown = add32-ok index q (omega (arith, room, some_area)) in
            rw (area, bx, by, grown, sub32-ok y half (ground (arith, by)))
              (ap returns (ground arith))
      ]
      | inr bx ↦ elim (Bool-cases (ltb y half)) [
        | inl by ↦
            let x_right : half ≤ x = ground (arith, bx) in
            let y_low : y < half = ground (arith, by) in
            let times = mul32-ok 3 q (omega (arith, room, some_area)) in
            let grown = add32-ok index (3 * q) (omega (arith, room, some_area)) in
            let far : leb half y ≡ false = ground (arith, by) in
            rw
              (
                area,
                bx,
                by,
                far,
                times,
                grown,
                sub32-ok half 1 (omega arith),
                sub32-ok (half - 1) y (omega arith),
                sub32-ok x half x_right,
                sub32-ok (half - 1) (x - half) (omega (arith, inside)),
              )
              (ap returns (ground arith))
        | inr by ↦
            let x_right : half ≤ x = ground (arith, bx) in
            let times = mul32-ok 2 q (omega (arith, room, some_area)) in
            let grown = add32-ok index (2 * q) (omega (arith, room, some_area)) in
            let high : leb half y ≡ true = ground (arith, by) in
            rw (area, bx, by, high, times, grown, sub32-ok x half x_right)
              (ap returns (ground arith))
      ]
    ]

turned_inside :
    (half x y : ℕ)
    → (x < half * 2) × (y < half * 2)
    → (turned_x half x y < half) × (turned_y half x y < half) × (quadrant half x y < 4)
unfolding quadrant turned_x turned_y
turned_inside half x y inside = ground (arith, inside)

-- A cell is known from its quadrant and its place there.
turned_inj :
    (half x y x' y' : ℕ)
    → (x < half * 2) × (y < half * 2)
    → (x' < half * 2) × (y' < half * 2)
    → quadrant half x y ≡ quadrant half x' y'
    → turned_x half x y ≡ turned_x half x' y'
    → turned_y half x y ≡ turned_y half x' y'
    → (x ≡ x') × (y ≡ y')
unfolding quadrant turned_x turned_y
turned_inj half x y x' y' i i' e ex ey = elim (Bool-cases (ltb x half)) [
  | inl bx ↦ elim (Bool-cases (ltb y half)) [
    | inl by ↦ (ground arith, ground arith)
    | inr by ↦ (ground arith, ground arith)
  ]
  | inr bx ↦ elim (Bool-cases (ltb y half)) [
    | inl by ↦ (ground arith, ground arith)
    | inr by ↦ (ground arith, ground arith)
  ]
]

-- Numbers in units of an area, with a rest below the area.
in_quadrant :
    (area q rest half : ℕ)
    → q < 4
    → rest < half * half
    → q * (half * half) + rest < half * 2 * (half * 2)
in_quadrant area q rest half hq hr = grind arith

split_lt : (area q q' rest rest' : ℕ) → rest < area → q < q' → q * area + rest < q' * area + rest'
split_lt area q q' rest rest' hr h = grind arith

split_inj :
    (area q q' rest rest' : ℕ)
    → rest < area
    → rest' < area
    → q * area + rest ≡ q' * area + rest'
    → (q ≡ q') × (rest ≡ rest')
split_inj area q q' rest rest' hr hr' e = elim (dec_lt q q') [
  | yes p ↦ absurd (omega (arith, split_lt area q q' rest rest' hr p, e))
  | no np ↦ elim (dec_lt q' q) [
    | yes p ↦ absurd (omega (arith, split_lt area q' q rest' rest hr' p, e))
    | no np' ↦
        let same : q ≡ q' = omega (arith, np, np') in
        let e' : q' * area + rest ≡ q' * area + rest' = rw same at e in (same, omega (arith, e'))
  ]
]

quadrant_room : (area q : ℕ) → q < 4 → q * area + area ≤ 4 * area
quadrant_room area q h = grind arith

-- The index by recursion on the side.
hilbert : ℕ → ℕ → ℕ → ℕ
hilbert zero x y = 0
hilbert (suc bits) x y =
    let half = 2 ^ bits in
    quadrant half x y * (half * half) + hilbert bits (turned_x half x y) (turned_y half x y)

InSquare : ℕ → ℕ → ℕ → Type 0
InSquare bits x y = (x < 2 ^ bits) × (y < 2 ^ bits)

InSquare-half : (bits x y : ℕ) → InSquare (suc bits) x y → (x < 2 ^ bits * 2) × (y < 2 ^ bits * 2)
unfolding InSquare
InSquare-half bits x y h = rw (← pow-suc 2 bits) h

InSquare-turned :
    (bits x y : ℕ)
    → InSquare (suc bits) x y
    → InSquare bits (turned_x (2 ^ bits) x y) (turned_y (2 ^ bits) x y)
unfolding InSquare
InSquare-turned bits x y h =
    let (hx, hy, _) = turned_inside (2 ^ bits) x y (InSquare-half bits x y h) in (hx, hy)

hilbert-lt : (bits x y : ℕ) → InSquare bits x y → hilbert bits x y < 2 ^ bits * 2 ^ bits
unfolding hilbert
hilbert-lt zero x y h = omega arith
hilbert-lt (suc bits) x y h =
    let half = 2 ^ bits in
    let rest =
      hilbert-lt bits (turned_x half x y) (turned_y half x y) (InSquare-turned bits x y h) in
    let (_, _, hq) = turned_inside half x y (InSquare-half bits x y h) in
    rw (pow-suc 2 bits) (in_quadrant (half * half) (quadrant half x y) _ half hq rest)

-- The loop computes the index.
hilbert_loop-hilbert :
    (bits x y index : ℕ)
    → InSquare bits x y
    → index + 2 ^ bits * 2 ^ bits ≤ 2 ^ 32
    → hilbert_loop bits (record { x = x; y = y; index = index })
      ≡ returns (index + hilbert bits x y)
unfolding hilbert_loop hilbert
hilbert_loop-hilbert zero x y index h room = ap returns (omega arith)
hilbert_loop-hilbert (suc bits) x y index h room =
    let half = 2 ^ bits in
    let (hx, hy, hq) = turned_inside half x y (InSquare-half bits x y h) in
    let room' : index + 4 * (half * half) ≤ 2 ^ 32 =
      let r = rw (pow-suc 2 bits) at room in omega (arith, r) in
    rw (descend_lem half x y index (InSquare-half bits x y h) room', hilbert_loop)
      (hilbert_loop-hilbert bits (turned_x half x y) (turned_y half x y)
          (index + quadrant half x y * (half * half)) (InSquare-turned bits x y h)
          (omega (arith, room', quadrant_room (half * half) (quadrant half x y) hq))
        ∙ ap returns (omega arith))

hilbert_inj :
    (bits x y x' y' : ℕ)
    → InSquare bits x y
    → InSquare bits x' y'
    → hilbert bits x y ≡ hilbert bits x' y'
    → (x ≡ x') × (y ≡ y')
unfolding hilbert InSquare
hilbert_inj zero x y x' y' h h' e = (omega (arith, h, h'), omega (arith, h, h'))
hilbert_inj (suc bits) x y x' y' h h' e =
    let half = 2 ^ bits in
    let rest =
      hilbert-lt bits (turned_x half x y) (turned_y half x y) (InSquare-turned bits x y h) in
    let rest' =
      hilbert-lt bits (turned_x half x' y') (turned_y half x' y') (InSquare-turned bits x' y' h') in
    let (same_quadrant, same_rest) =
      split_inj (half * half) (quadrant half x y) (quadrant half x' y') _ _ rest rest' e in
    let (ex, ey) =
      hilbert_inj bits (turned_x half x y) (turned_y half x y) (turned_x half x' y')
        (turned_y half x' y') (InSquare-turned bits x y h) (InSquare-turned bits x' y' h')
        same_rest in
    turned_inj half x y x' y' (InSquare-half bits x y h) (InSquare-half bits x' y' h') same_quadrant
      ex ey

-- For two cells of the grid, at coordinates below 2^16, the loop returns without leaving the range
-- of a `u32`; both indices are below 2^32, and equal exactly for equal cells.
pub xy_to_hilbert_index_inj :
    (x y x' y' : ℕ)
    → (x < 2 ^ 16) × (y < 2 ^ 16)
    → (x' < 2 ^ 16) × (y' < 2 ^ 16)
    → (i : ℕ) × (i' : ℕ) × (xy_to_hilbert_index x y ≡ returns i)
      × (xy_to_hilbert_index x' y' ≡ returns i')
      × (i < 2 ^ 32)
      × (i' < 2 ^ 32)
      × ((i ≡ i') ↔ (x ≡ x') × (y ≡ y'))
unfolding xy_to_hilbert_index InSquare
xy_to_hilbert_index_inj x y x' y' h h' = (
  hilbert 16 x y,
  hilbert 16 x' y',
  hilbert_loop-hilbert 16 x y 0 h (omega arith) ∙ ap returns (omega arith),
  hilbert_loop-hilbert 16 x' y' 0 h' (omega arith) ∙ ap returns (omega arith),
  hilbert-lt 16 x y h,
  hilbert-lt 16 x' y' h',
  (hilbert_inj 16 x y x' y' h h', λ e. ap₂ (hilbert 16) e.0 e.1),
)
