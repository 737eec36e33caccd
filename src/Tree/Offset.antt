-- ===== src/Tree/Offset.antt =====
-- `calculateOffset` numbers the leaves of the block tree: its offsets are in range, and the block
-- index is computed back from them.
use naofs.Prelude.{ℕ, ◌+◌, ◌*◌, ◌/◌, ◌≤◌, ◌<◌, ◌≡◌, arith}
use naofs.Params.{block_size}
use naofs.Tree.{
  BlkTreeOffset, direct, single, double, triple, beyond, calculate_offset, triple_indirect_limit,
}

-- Each offset is an index into its array.
abbrev pub InRange : BlkTreeOffset → Type 0
InRange (direct i) = i < 10
InRange (single i) = i < 128
InRange (double i j) = (i < 128) × (j < 128)
InRange (triple i j k) = (i < 128) × (j < 128) × (k < 128)
InRange beyond = ⊥

-- The index of the leaf among all leaves, direct blocks first.
abbrev pub leaf_index : BlkTreeOffset → ℕ
leaf_index (direct i) = i
leaf_index (single i) = 10 + i
leaf_index (double i j) = 10 + 128 + 128 * i + j
leaf_index (triple i j k) = 10 + 128 + 128 * 128 + 128 * 128 * i + 128 * j + k
leaf_index beyond = 0

-- For an offset in a block that the tree of a file reaches, `calculateOffset` gives offsets in
-- range from which the index of the block is computed back.
pub calculate_offset_lem :
    (offset : ℕ)
    → offset / block_size ≤ triple_indirect_limit
    → InRange (calculate_offset offset)
      × (leaf_index (calculate_offset offset) ≡ offset / block_size)
unfolding calculate_offset
calculate_offset_lem offset h = ground arith

-- Every leaf with offsets in range is the leaf of some offset: the block index that it stands for
-- leads back to it.
pub calculate_offset-leaf :
    (t : BlkTreeOffset) → InRange t → calculate_offset (leaf_index t * block_size) ≡ t
unfolding calculate_offset
calculate_offset-leaf (direct i) r = ground arith
calculate_offset-leaf (single i) r = ground arith
calculate_offset-leaf (double i j) r = ground arith
calculate_offset-leaf (triple i j k) r = ground arith
calculate_offset-leaf beyond r = absurd r
