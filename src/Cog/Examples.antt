-- ===== src/Cog/Examples.antt =====
-- Runs of the planning, the copy and the range tests, and the theorems at these values.
use package.watershed_delineation.Prelude.{
  ℕ, ◌+◌, ◌-◌, ◌*◌, ◌≤◌, ◌<◌, ◌≡◌, refl, ◌↔◌, ◌⊎◌, List, [], ◌∷◌, ◌∈◌, Nodup, map, some, get_elem?,
  length, subst, ℕ_discrete, arith,
}
use package.watershed_delineation.Prelude.Calls.{done, fails, panics}
use package.watershed_delineation.Cog.{
  CogMetadata, u8, local_file, RasterPixelWindow, too_many_tiles,
}
use package.watershed_delineation.Cog.{IndexDescriptor, out_of_line, remote}
use package.watershed_delineation.Cog.Layout.{
  flow_dir, flow_acc, unsupported_samples, validate_merit_layout, remote_index_descriptors,
}
use package.watershed_delineation.Cog.Layout.Laws.{IsAccepted, validate_merit_layout_iff}
use package.watershed_delineation.Cog.Coverage.{
  crossed_axes, distinct, covered_tile_col_row, x_and_y,
}
use package.watershed_delineation.Cog.Coverage.Laws.{coverage_of, covered_tile_col_row-planned}
use package.watershed_delineation.Cog.Plan.{for_window, axis_tiles, steps, plan_rows, plan_row}
use package.watershed_delineation.Cog.Plan.Covers.{
  IsPlannable, Meets, InWindow, span, tile_at, for_window-covers,
}
use package.watershed_delineation.Cog.Copy.{
  fill_window, window_allocation_len, copy_tiles, copy_tile, copy_rows, copy_row, tile_copy_span,
  slice, overwrite,
}
use package.watershed_delineation.Cog.Copy.Rows.{place}
use package.watershed_delineation.Cog.Copy.Tiles.{TileHolds, AllHold}
use package.watershed_delineation.Cog.Copy.Window.{IsFillable, fill_window-planned}
use package.watershed_delineation.Cog.Ranges.{
  ResolvedTilePlan, validate_compressed_ranges, validate_tiles,
}
use package.watershed_delineation.Cog.Ranges.Laws.{
  Fetchable, range_of, validate_compressed_ranges_iff,
}

-- A raster of 5 columns and 3 rows, in tiles of 2 by 2, and a window of 3 by 2 pixels.
abbrev small : CogMetadata
small = record {
  width = 5;
  height = 3;
  tile_width = 2;
  tile_height = 2;
  sample_type = u8;
  compression = 8;
  predictor = 1;
  index = local_file;
}

abbrev window : RasterPixelWindow
window = record { col_off = 2; row_off = 1; width = 3; height = 2 }

small-IsPlannable : IsPlannable small window
small-IsPlannable = record {
  has_tile_width = omega arith;
  has_tile_height = omega arith;
  has_columns = omega arith;
  has_rows = omega arith;
  columns_inside = omega arith;
  rows_inside = omega arith;
  few_columns = omega arith;
  few_rows = omega arith;
  few_tiles = omega arith;
}

plan : for_window small window ≡ done (1 ∷ 2 ∷ 4 ∷ 5 ∷ [])
unfolding for_window axis_tiles steps plan_rows plan_row
plan = refl

no_columns : for_window small (record window { width = 0 }) ≡ panics
unfolding for_window axis_tiles steps plan_rows plan_row
no_columns = refl

for_window-covers_example :
    ((65536 < span 2 3 2 * span 1 2 2)
      × (for_window small window ≡ fails (too_many_tiles (span 2 3 2 * span 1 2 2))))
    ⊎ ((indices : List ℕ) × (for_window small window ≡ done indices)
        × Nodup indices
        × ((i : ℕ) → (i ∈ indices) ↔ Meets small window i))
for_window-covers_example = for_window-covers small window small-IsPlannable

-- The raster's value is ten times the row and the column.
abbrev raster : ℕ → ℕ → ℕ
raster x y = y * 10 + x

-- The chunks of the planned tiles; those of the last column have one column, those of the last row
-- one row.
abbrev tiles : List (ℕ × List ℕ)
tiles = (1, 2 ∷ 3 ∷ 12 ∷ 13 ∷ []) ∷ (2, 4 ∷ 14 ∷ []) ∷ (4, 22 ∷ 23 ∷ []) ∷ (5, 24 ∷ []) ∷ []

filled : fill_window 1 255 small window tiles ≡ done (12 ∷ 13 ∷ 14 ∷ 22 ∷ 23 ∷ 24 ∷ [])
unfolding fill_window window_allocation_len copy_tiles copy_tile copy_rows copy_row tile_copy_span
    slice overwrite
filled = refl

small-IsFillable : IsFillable small window 1
small-IsFillable = record {
  plannable = small-IsPlannable;
  small_tile = omega arith;
  some_bytes = omega arith;
  few_bytes = omega arith;
}

-- What holds at `a` holds between `a` and `a + 1`, and the like for two numbers.
one_value : (P : ℕ → Type 0) (a : ℕ) → P a → (x : ℕ) → (a ≤ x) × (x < a + 1) → P x
one_value P a p x h = subst P (omega (arith, h)) p

two_values : (P : ℕ → Type 0) (a : ℕ) → P a → P (a + 1) → (x : ℕ) → (a ≤ x) × (x < a + 2) → P x
two_values P a p p' x h = elim (ℕ_discrete a x) [
  | yes e ↦ subst P e p
  | no ne ↦ subst P (omega (arith, h, ne)) p'
]

tile_1-TileHolds : TileHolds small window raster 1 (2 ∷ 3 ∷ 12 ∷ 13 ∷ [])
tile_1-TileHolds = (
  refl,
  λ x y hx hy.
      two_values (λ x. get_elem? (2 ∷ 3 ∷ 12 ∷ 13 ∷ []) ((y - 0) * 2 + (x - 2)) ≡ some (raster x y))
        2
        (two_values
          (λ y. get_elem? (2 ∷ 3 ∷ 12 ∷ 13 ∷ []) ((y - 0) * 2 + (2 - 2)) ≡ some (raster 2 y)) 0 refl
          refl y hy)
        (two_values
          (λ y. get_elem? (2 ∷ 3 ∷ 12 ∷ 13 ∷ []) ((y - 0) * 2 + (3 - 2)) ≡ some (raster 3 y)) 0 refl
          refl y hy)
        x hx,
)

tile_2-TileHolds : TileHolds small window raster 2 (4 ∷ 14 ∷ [])
tile_2-TileHolds = (
  refl,
  λ x y hx hy.
      one_value (λ x. get_elem? (4 ∷ 14 ∷ []) ((y - 0) * 1 + (x - 4)) ≡ some (raster x y)) 4
        (two_values (λ y. get_elem? (4 ∷ 14 ∷ []) ((y - 0) * 1 + (4 - 4)) ≡ some (raster 4 y)) 0
          refl refl y hy)
        x hx,
)

tile_4-TileHolds : TileHolds small window raster 4 (22 ∷ 23 ∷ [])
tile_4-TileHolds = (
  refl,
  λ x y hx hy.
      two_values (λ x. get_elem? (22 ∷ 23 ∷ []) ((y - 2) * 2 + (x - 2)) ≡ some (raster x y)) 2
        (one_value (λ y. get_elem? (22 ∷ 23 ∷ []) ((y - 2) * 2 + (2 - 2)) ≡ some (raster 2 y)) 2
          refl y hy)
        (one_value (λ y. get_elem? (22 ∷ 23 ∷ []) ((y - 2) * 2 + (3 - 2)) ≡ some (raster 3 y)) 2
          refl y hy)
        x hx,
)

tile_5-TileHolds : TileHolds small window raster 5 (24 ∷ [])
tile_5-TileHolds = (
  refl,
  λ x y hx hy.
      one_value (λ x. get_elem? (24 ∷ []) ((y - 2) * 1 + (x - 4)) ≡ some (raster x y)) 4
        (one_value (λ y. get_elem? (24 ∷ []) ((y - 2) * 1 + (4 - 4)) ≡ some (raster 4 y)) 2 refl y
          hy)
        x hx,
)

tiles-AllHold : AllHold small window raster tiles
tiles-AllHold = (tile_1-TileHolds, (tile_2-TileHolds, (tile_4-TileHolds, (tile_5-TileHolds, tt))))

fill_window-planned_example :
    (out : List ℕ) × (fill_window 1 255 small window tiles ≡ done out)
    × (length out ≡ window.height * window.width)
    × ((x y : ℕ) → InWindow window x y → get_elem? out (place window x y) ≡ some (raster x y))
fill_window-planned_example =
    fill_window-planned small window 1 255 raster tiles small-IsFillable plan tiles-AllHold

-- Tiles 1 and 4 of a plan, in an object of 100 bytes.
abbrev ranges_plan : ResolvedTilePlan
ranges_plan = record {
  object_size = 100;
  tiles =
      record { index = 1; range = record { start = 10; stop = 60 } }
      ∷ record { index = 4; range = record { start = 60; stop = 100 } }
      ∷ [];
  compressed_bytes = 90;
}

validate_compressed_ranges_iff_example :
    (validate_compressed_ranges ranges_plan
      ≡ done (record { start = 10; stop = 60 } ∷ record { start = 60; stop = 100 } ∷ []))
    ↔ (Fetchable 100 0 ranges_plan.tiles
        × (record { start = 10; stop = 60 } ∷ record { start = 60; stop = 100 } ∷ []
            ≡ map range_of ranges_plan.tiles))
validate_compressed_ranges_iff_example =
    validate_compressed_ranges_iff ranges_plan
      (record { start = 10; stop = 60 } ∷ record { start = 60; stop = 100 } ∷ [])

both_ranges :
    validate_compressed_ranges ranges_plan
    ≡ done (record { start = 10; stop = 60 } ∷ record { start = 60; stop = 100 } ∷ [])
unfolding validate_compressed_ranges validate_tiles
both_ranges = refl

abbrev per_tile : IndexDescriptor
per_tile = record { field_type = 4; element_width = 4; count = 6; storage = out_of_line 1000 }

-- Three tiles across and two down.
abbrev directions : CogMetadata
directions = record {
  width = 1200;
  height = 600;
  tile_width = 512;
  tile_height = 512;
  sample_type = u8;
  compression = 8;
  predictor = 2;
  index = remote per_tile per_tile;
}

directions_accepted : validate_merit_layout directions flow_dir ≡ done tt
unfolding validate_merit_layout remote_index_descriptors
directions_accepted = refl

directions_refused :
    validate_merit_layout directions flow_acc ≡ fails (unsupported_samples flow_acc u8)
unfolding validate_merit_layout remote_index_descriptors
directions_refused = refl

validate_merit_layout_iff_example :
    (validate_merit_layout directions flow_dir ≡ done tt) ↔ IsAccepted directions flow_dir
validate_merit_layout_iff_example =
    validate_merit_layout_iff directions flow_dir (omega arith) (omega arith)

crossed : crossed_axes (coverage_of small window (1 ∷ 2 ∷ 4 ∷ 5 ∷ [])) ≡ x_and_y
unfolding crossed_axes distinct
crossed = refl

covered_tile_col_row-planned_example :
    covered_tile_col_row (coverage_of small window (1 ∷ 2 ∷ 4 ∷ 5 ∷ [])) (tile_at small 4 2)
    ≡ some (2, 1)
covered_tile_col_row-planned_example =
    covered_tile_col_row-planned small window (1 ∷ 2 ∷ 4 ∷ 5 ∷ []) 4 2 small-IsPlannable plan
      (omega arith, omega arith, omega arith, omega arith)
