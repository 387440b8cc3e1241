-- ===== src/Cog/Ranges/Laws.antt =====
-- The ranges that are fetched: within the object and the ceilings, and nothing else is refused.
use package.watershed_delineation.Prelude.{
  ℕ, ◌+◌, ◌-◌, ◌≤◌, ◌<◌, ◌≡◌, refl, ◌↔◌, inl, inr, List, [], ◌∷◌, map, arith,
}
use package.watershed_delineation.Prelude.Calls.{Call-cases, done}
use package.watershed_delineation.Cog.Ranges.{
  ByteRange, ResolvedTile, ResolvedTilePlan, validate_tiles, validate_compressed_ranges,
}

-- The tiles from `aggregate` bytes on are within the ceilings.
abbrev pub Fetchable : ℕ → ℕ → List ResolvedTile → Type 0
Fetchable object_size aggregate [] = Unit
Fetchable object_size aggregate (tile ∷ tiles) =
    (tile.range.start < tile.range.stop)
    × (tile.range.stop - tile.range.start ≤ 16777216)
    × (aggregate + (tile.range.stop - tile.range.start) ≤ 1073741824)
    × (tile.range.stop ≤ object_size)
    × Fetchable object_size (aggregate + (tile.range.stop - tile.range.start)) tiles

abbrev pub range_of : ResolvedTile → ByteRange
range_of tile = tile.range

accepted :
    (object_size aggregate : ℕ) (tiles : List ResolvedTile)
    → Fetchable object_size aggregate tiles
    → validate_tiles object_size aggregate tiles ≡ done (map range_of tiles)
unfolding validate_tiles
accepted object_size aggregate [] h = refl
accepted object_size aggregate (tile ∷ tiles) h =
    ground (arith, h, accepted object_size (aggregate + (tile.range.stop - tile.range.start)) tiles)

accepted_only :
    (object_size aggregate : ℕ) (tiles : List ResolvedTile) (ranges : List ByteRange)
    → validate_tiles object_size aggregate tiles ≡ done ranges
    → Fetchable object_size aggregate tiles × (ranges ≡ map range_of tiles)
unfolding validate_tiles
accepted_only object_size aggregate [] ranges h = (tt, cc)
accepted_only object_size aggregate (tile ∷ tiles) ranges h =
    let total = aggregate + (tile.range.stop - tile.range.start) in
    elim (Call-cases (validate_tiles object_size total tiles)) [
      | inl (rest, e) ↦ ground (arith, h, e, accepted_only object_size total tiles rest e)
      | inr (inl (x, e)) ↦ ground (arith, h, e)
      | inr (inr (inl e)) ↦ ground (arith, h, e)
      | inr (inr (inr e)) ↦ ground (arith, h, e)
    ]

-- The ranges of a plan are accepted exactly when each tile's range is not empty, has at most 2^24
-- bytes and ends in the object, and the bytes up to it are at most 2^30 together. They are then the
-- ranges of the tiles in order.
pub validate_compressed_ranges_iff :
    (plan : ResolvedTilePlan) (ranges : List ByteRange)
    → (validate_compressed_ranges plan ≡ done ranges)
      ↔ (Fetchable plan.object_size 0 plan.tiles × (ranges ≡ map range_of plan.tiles))
unfolding validate_compressed_ranges
validate_compressed_ranges_iff plan ranges = (
  accepted_only plan.object_size 0 plan.tiles ranges,
  λ (h, e). cc (accepted plan.object_size 0 plan.tiles h, e),
)
