-- ===== src/Export/Examples.antt =====
-- Runs of the export helpers, and the theorems at these values.
use package.watershed_delineation.Prelude.{
  ℕ, ◌+◌, ◌^◌, ◌≤◌, ◌<◌, ◌≡◌, refl, ◌↔◌, List, [], ◌∷◌, ◌∈◌, ok, err, returns, min, arith,
}
use package.watershed_delineation.Prelude.Int.{pos, negsuc}
use package.watershed_delineation.Export.RowGroups.{
  plan_row_groups, plan_sizes, balanced, range_from, all_legal, row_group_planning_failure,
  empty_export,
}
use package.watershed_delineation.Export.RowGroups.Laws.{plan_row_groups-ok, sum}
use package.watershed_delineation.Export.Hilbert.{xy_to_hilbert_index, hilbert_loop, descend}
use package.watershed_delineation.Export.Hilbert.Curve.{xy_to_hilbert_index_inj}
use package.watershed_delineation.Export.BasinId.{
  same_bytes, strip_prefix, ends_with, numbered, is_windows_device_name, all_allowed,
  invalid_reason, parse, decimal, from_terminal_unit_id_raw, invalid_basin_id, device_name,
}
use package.watershed_delineation.Export.BasinId.Default.{from_terminal_unit_id_raw_unique}

no_rows : plan_row_groups 0 ≡ err (row_group_planning_failure 0 empty_export)
unfolding plan_row_groups plan_sizes balanced range_from all_legal
no_rows = refl

two_groups : plan_row_groups 8193 ≡ ok (4097 ∷ 4096 ∷ [])
unfolding plan_row_groups plan_sizes balanced range_from all_legal
two_groups = refl

plan_row_groups-ok_example :
    (sizes : List ℕ) × (plan_row_groups 8193 ≡ ok sizes)
    × (sum sizes ≡ 8193)
    × ((size : ℕ) → size ∈ sizes → (0 < size) × (min 8193 4096 ≤ size) × (size ≤ 8192))
    × ((a b : ℕ) → a ∈ sizes → b ∈ sizes → a ≤ b + 1)
plan_row_groups-ok_example = plan_row_groups-ok 8193 (omega arith)

corner : xy_to_hilbert_index 65535 0 ≡ returns 4294967295
unfolding xy_to_hilbert_index hilbert_loop descend
corner = refl

xy_to_hilbert_index_inj_example :
    (i : ℕ) × (i' : ℕ) × (xy_to_hilbert_index 3 5 ≡ returns i)
    × (xy_to_hilbert_index 65535 0 ≡ returns i')
    × (i < 2 ^ 32)
    × (i' < 2 ^ 32)
    × ((i ≡ i') ↔ (◌≡◌ {A = ℕ} 3 65535) × (◌≡◌ {A = ℕ} 5 0))
xy_to_hilbert_index_inj_example =
    xy_to_hilbert_index_inj 3 5 65535 0 (omega arith, omega arith) (omega arith, omega arith)

reserved :
    parse (b'l' ∷ b'P' ∷ b't' ∷ b'9' ∷ [])
    ≡ err (invalid_basin_id (b'l' ∷ b'P' ∷ b't' ∷ b'9' ∷ []) device_name)
unfolding parse invalid_reason same_bytes ends_with is_windows_device_name numbered strip_prefix
    all_allowed
reserved = refl

thirty_nine : from_terminal_unit_id_raw (pos 39) ≡ ok (b'3' ∷ b'9' ∷ [])
unfolding from_terminal_unit_id_raw decimal parse invalid_reason same_bytes ends_with
    is_windows_device_name numbered strip_prefix all_allowed
thirty_nine = refl

from_terminal_unit_id_raw_unique_example :
    (id : List ℕ) × (from_terminal_unit_id_raw (pos 39) ≡ ok id)
    × ((from_terminal_unit_id_raw (negsuc 38) ≡ ok id) ↔ (negsuc 38 ≡ pos 39))
from_terminal_unit_id_raw_unique_example =
    from_terminal_unit_id_raw_unique 39 (negsuc 38) (omega arith) (omega arith)
