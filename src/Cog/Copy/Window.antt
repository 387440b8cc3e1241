-- ===== src/Cog/Copy/Window.antt =====
-- The window that planned tiles fill.
use package.watershed_delineation.Prelude.{
  ℕ, ◌-◌, ◌*◌, ◌^◌, ◌≤◌, ◌<◌, ◌≡◌, refl, ap, subst, ◌∙◌, ◌⊎◌, ◌↔◌, inl, inr, ⊎_elim, some, List,
  ◌∈◌, map, length, replicate, length-replicate, get_elem?, get_or-replicate, get_elem?-eq-get_or,
  arith,
}
use package.watershed_delineation.Prelude.Calls.{done, checked_mul-some}
use package.watershed_delineation.Cog.{CogMetadata, RasterPixelWindow}
use package.watershed_delineation.Cog.Plan.{for_window}
use package.watershed_delineation.Cog.Plan.Indices.{row_fits}
use package.watershed_delineation.Cog.Plan.Covers.{
  InWindow, Meets, IsPlannable, tile_at, for_window-covers,
}
use package.watershed_delineation.Cog.Copy.{fill_window, window_allocation_len}
use package.watershed_delineation.Cog.Copy.Rows.{place}
use package.watershed_delineation.Cog.Copy.Tiles.{AllHold, index_of, copy_tiles-Paints}

le-mul : (a n : ℕ) → 0 < n → a ≤ a * n
le-mul a n h = grind arith

window_allocation_len-eq :
    (width height sample_width : ℕ)
    → 0 < sample_width
    → width * height * sample_width ≤ 1073741824
    → window_allocation_len width height sample_width ≡ done (width * height)
unfolding window_allocation_len
window_allocation_len-eq width height n hn h =
    rw
      (
        checked_mul-some 64 width height (omega (arith, le-mul (width * height) n hn)),
        checked_mul-some 64 (width * height) n (omega arith),
      )
      ground (arith, h)

-- A place of the window is in the vector that it is prefilled with.
place-replicate :
    {T : Type 0} (w : RasterPixelWindow) (nodata : T) (x y : ℕ)
    → InWindow w x y
    → get_elem? (replicate (w.width * w.height) nodata) (place w x y) ≡ some nodata
place-replicate w nodata x y inside =
    get_elem?-eq-get_or (replicate (w.width * w.height) nodata) (place w x y) nodata (
      omega (
        arith,
        length-replicate (w.width * w.height) nodata,
        row_fits w.width w.height (y - w.row_off) (omega (arith, inside)),
        inside,
      ))
    ∙ ap some (get_or-replicate (w.width * w.height) (place w x y) nodata)

-- A plan that is returned holds the tiles that the window meets.
pub plan-Meets :
    (m : CogMetadata) (w : RasterPixelWindow) (indices : List ℕ)
    → IsPlannable m w
    → for_window m w ≡ done indices
    → (i : ℕ) → (i ∈ indices) ↔ Meets m w i
plan-Meets m w indices h e =
    ⊎_elim (λ refused. absurd (cc (refused.1, e)))
      (λ (planned, e', _, same). subst (λ l. (i : ℕ) → (i ∈ l) ↔ Meets m w i) (cc (e, e')) same)
      (for_window-covers m w h)

-- What the theorems ask of a window: its tiles are planned, a tile has less than 2^32 pixels, and the
-- window's bytes are within the allocation ceiling.
pub record IsFillable (m : CogMetadata) (w : RasterPixelWindow) (sample_width : ℕ) : Type 0 where
  pub plannable : IsPlannable m w
  pub small_tile : m.tile_height * m.tile_width < 2 ^ 32
  pub some_bytes : 0 < sample_width
  pub few_bytes : w.width * w.height * sample_width ≤ 1073741824

module _ {T : Type 0} (m : CogMetadata) (w : RasterPixelWindow) (sample_width : ℕ) (nodata : T)
    (raster : ℕ → ℕ → T) (tiles : List (ℕ × List T)) (h : IsFillable m w sample_width) where
  -- Let each listed tile meet the window, with a chunk that holds the raster's values. Then the fill
  -- returns a vector for the window, with the raster's value at each pixel of a listed tile and the
  -- value for no data at each other pixel.
  fill_window-listed :
      ((i : ℕ) → i ∈ map index_of tiles → Meets m w i)
      → AllHold m w raster tiles
      → (out : List T) × (fill_window sample_width nodata m w tiles ≡ done out)
        × (length out ≡ w.height * w.width)
        × ((x y : ℕ)
            → InWindow w x y
            → ((tile_at m x y ∈ map index_of tiles)
                × (get_elem? out (place w x y) ≡ some (raster x y)))
              ⊎ (¬ (tile_at m x y ∈ map index_of tiles)
                  × (get_elem? out (place w x y) ≡ some nodata)))
  unfolding fill_window
  fill_window-listed meets hold =
      let small_window : w.height * w.width < 2 ^ 32 =
        omega (arith, h.few_bytes, le-mul (w.width * w.height) sample_width h.some_bytes) in
      let (out, e, p) =
        copy_tiles-Paints m w raster h.small_tile small_window h.plannable tiles
          (replicate (w.width * w.height) nodata) meets hold
          (length-replicate (w.width * w.height) nodata ∙ omega arith) in
      (
        out,
        rw
            (
              fill_window,
              window_allocation_len-eq w.width w.height sample_width h.some_bytes h.few_bytes,
            )
            e,
        p.0,
        λ x y inside.
            ⊎_elim inl (λ missing. inr (missing.0, missing.1 ∙ place-replicate w nodata x y inside))
              (p.1 x y inside),
      )

  -- When the listed tiles are those of the plan, in its order, the vector has the raster's value at
  -- each pixel of the window.
  pub fill_window-planned :
      for_window m w ≡ done (map index_of tiles)
      → AllHold m w raster tiles
      → (out : List T) × (fill_window sample_width nodata m w tiles ≡ done out)
        × (length out ≡ w.height * w.width)
        × ((x y : ℕ) → InWindow w x y → get_elem? out (place w x y) ≡ some (raster x y))
  fill_window-planned plan hold =
      let same = plan-Meets m w (map index_of tiles) h.plannable plan in
      let (out, e, size, pixels) = fill_window-listed (λ i mem. (same i).0 mem) hold in
      (
        out,
        e,
        size,
        λ x y inside.
            ⊎_elim (λ found. found.1)
              (λ missing. absurd (missing.0 ((same (tile_at m x y)).1 (x, y, inside, refl))))
              (pixels x y inside),
      )
