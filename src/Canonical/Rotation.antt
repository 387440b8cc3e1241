-- ===== src/Canonical/Rotation.antt =====
-- The first vertex of a ring: `rotate_to_total_order_start` (crates/core/src/algo/canonical_wkb.rs), over the
-- order of the vertices.
pub mod Sequences
pub mod Start
pub mod Invariance
use package.watershed_delineation.Prelude.{
  ℕ, zero, suc, ◌+◌, ◌%◌, ◌-◌, Bool, true, false, List, [], ◌∷◌, ◌++◌, length, get_elem?, take,
  drop, leb, Outcome, returns, ◌>>=◌, or_panic, if◌then◌else◌,
}
use package.watershed_delineation.Prelude.Order.{then_with}
use Prim.Native.Nat.{Ordering}

abbrev pub is_less : Ordering → Bool
is_less Ordering.lt = true
is_less Ordering.eq = false
is_less Ordering.gt = false

module _ {V : Type 0} (cmp : V → V → Ordering) (vertices : List V) where
  -- The vertices at the offsets `k`, ..., `k + n - 1` from both starts, up to the first that differ.
  abbrev pub compare_offsets : ℕ → ℕ → ℕ → ℕ → Outcome Ordering
  compare_offsets left_start right_start k zero = returns Ordering.eq
  compare_offsets left_start right_start k (suc n) = do
    left ← or_panic (get_elem? vertices ((left_start + k) % length vertices))
    right ← or_panic (get_elem? vertices ((right_start + k) % length vertices))
    later ← compare_offsets left_start right_start (suc k) n
    returns (then_with (cmp left right) later)

  pub compare_cyclic_sequence : ℕ → ℕ → Outcome Ordering
  compare_cyclic_sequence left_start right_start =
      compare_offsets left_start right_start 0 (length vertices)

  -- The `fold` over the candidates `candidate`, ..., `candidate + n - 1`.
  pub best_start : ℕ → ℕ → ℕ → Outcome ℕ
  best_start best candidate zero = returns best
  best_start best candidate (suc n) = compare_cyclic_sequence candidate best >>= λ o.
      best_start (if is_less o then candidate else best) (suc candidate) n

  pub rotate_to_total_order_start : Outcome (List V)
  rotate_to_total_order_start =
      let found = best_start 0 1 (length vertices - 1) in
      if leb (length vertices) 1
      then returns vertices
      else found >>= λ start. returns (drop start vertices ++ take start vertices)
