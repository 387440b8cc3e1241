-- ===== src/Export/RowGroups.antt =====
-- Row-group planning (crates/core/src/export/row_groups.rs).
pub mod Laws
use package.watershed_delineation.Prelude.{
  ℕ, zero, suc, ◌+◌, ◌-◌, ◌/◌, ◌%◌, ◌≡◌, Bool, true, false, ◌&&◌, ◌||◌, List, [], ◌∷◌, map, Result,
  ok, err, ltb, leb, ◌==◌, if◌then◌else◌,
}

abbrev pub min_balanced_row_group_size : ℕ
min_balanced_row_group_size = 4096

abbrev pub target_row_group_size : ℕ
target_row_group_size = 8192

pub data Reason : Type 0 where
  empty_export unbalanced : Reason

-- `ExportError::RowGroupPlanningFailure`.
pub data PlanError : Type 0 where
  row_group_planning_failure : ℕ → Reason → PlanError

-- `usize::div_ceil`.
abbrev pub div_ceil : ℕ → ℕ → ℕ
div_ceil a b = (a + (b - 1)) / b

-- The range `index..index + n`.
unfoldable pub range_from : ℕ → ℕ → List ℕ
range_from index zero = []
range_from index (suc n) = index ∷ range_from (suc index) n

-- `base + usize::from(index < remainder)` for each group.
unfoldable pub balanced : ℕ → ℕ → ℕ → List ℕ
balanced base remainder group_count =
    map (λ index. base + (if ltb index remainder then 1 else 0)) (range_from 0 group_count)

unfoldable pub plan_sizes : ℕ → List ℕ
plan_sizes row_count =
    if ltb row_count min_balanced_row_group_size
    then row_count ∷ []
    else let group_count = div_ceil row_count target_row_group_size in
      balanced (row_count / group_count) (row_count % group_count) group_count

unfoldable pub all_legal : List ℕ → Bool
all_legal [] = true
all_legal (size ∷ sizes) =
    leb min_balanced_row_group_size size && leb size target_row_group_size && all_legal sizes

-- The plan is the list of its sizes.
unfoldable pub plan_row_groups : ℕ → Result (List ℕ) PlanError
plan_row_groups row_count =
    let sizes = plan_sizes row_count in
    if row_count == 0
    then err (row_group_planning_failure row_count empty_export)
    else if ltb row_count min_balanced_row_group_size || all_legal sizes
    then ok sizes
    else err (row_group_planning_failure row_count unbalanced)
