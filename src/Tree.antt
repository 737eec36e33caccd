-- ===== src/Tree.antt =====
-- src/incoreInodeOps/iNodeManager.c and bmap.c: from an offset in a file to a block of the disk,
-- through direct, single, double and triple indirect blocks, and the growth of that tree.
pub mod Offset
pub mod Bmap
use naofs.Prelude.{
  ℕ, zero, suc, ◌+◌, ◌-◌, ◌*◌, ◌/◌, ◌%◌, ◌^◌, List, [], ◌∷◌, Bool, true, false, Option, none, some,
  get_or, set, ltb, leb, ◌==◌, if◌then◌else◌, ◌&&◌, ◌||◌, not, ℤ, pos, add_int,
}
use naofs.Params.{block_size, direct_block_limit, block_addresses_per_block}
use naofs.Disk.{Disk, Block, get_disk_block, fetch, store}
use naofs.Meta.{make_free_disk_list_block, write_free_disk_list_block}
use naofs.Inode.{InCoreINode}
use naofs.Blocks.{block_alloc, block_free}

abbrev pub blk_addr_nos : ℕ
blk_addr_nos = block_addresses_per_block

abbrev pub single_indirect_limit : ℕ
single_indirect_limit = direct_block_limit + block_addresses_per_block

abbrev pub double_indirect_limit : ℕ
double_indirect_limit =
    single_indirect_limit + block_addresses_per_block * block_addresses_per_block

abbrev pub triple_indirect_limit : ℕ
triple_indirect_limit =
    double_indirect_limit
    + block_addresses_per_block * block_addresses_per_block * block_addresses_per_block

-- The bytes that the blocks of the tree have room for.
abbrev pub tree_size : ℕ
tree_size = (triple_indirect_limit + 1) * block_size

-- `blkTreeOffset`: the member `offsets` that each level sets, in order; what the source fills with
-- -1 is left out. A block index past the triple indirect blocks sets nothing, `beyond`: what the
-- source does with the unset struct is undefined, and no file of less than `tree_size` bytes, the
-- bound of what is stated of sizes, comes to it.
pub data BlkTreeOffset : Type 0 where
  direct : ℕ → BlkTreeOffset
  single : ℕ → BlkTreeOffset
  double : ℕ → ℕ → BlkTreeOffset
  triple : ℕ → ℕ → ℕ → BlkTreeOffset
  beyond : BlkTreeOffset

unfoldable pub calculate_offset : ℕ → BlkTreeOffset
calculate_offset offset =
    let blk_index = offset / block_size in
    let n = blk_addr_nos in
    let first2 = (blk_index - single_indirect_limit - 1) / n in
    let first3 = (blk_index - double_indirect_limit - 1) / (n * n) in
    let second3 = (blk_index - first3 * (n * n) - double_indirect_limit - 1) / n in
    if leb blk_index direct_block_limit
    then direct blk_index
    else if leb blk_index single_indirect_limit
    then single (blk_index - direct_block_limit - 1)
    else if leb blk_index double_indirect_limit
    then double first2 (blk_index - first2 * n - single_indirect_limit - 1)
    else if leb blk_index triple_indirect_limit
    then triple first3 second3
        (blk_index - second3 * n - first3 * (n * n) - double_indirect_limit - 1)
    else beyond

-- `offsetIndirection`, and the offsets below the first level.
abbrev pub indirection : BlkTreeOffset → ℕ
indirection (direct i) = 0
indirection (single i) = 1
indirection (double i j) = 2
indirection (triple i j k) = 3
indirection beyond = 0

abbrev pub below : BlkTreeOffset → List ℕ
below (direct i) = []
below (single i) = i ∷ []
below (double i j) = i ∷ j ∷ []
below (triple i j k) = i ∷ j ∷ k ∷ []
below beyond = []

unfoldable pub all_zero : List ℕ → Bool
all_zero [] = true
all_zero (o ∷ os) = if o == 0 then all_zero os else false

-- `allocateIfNeeded`: a new block, or `ERROR_BLOCK`.
unfoldable pub allocate_if_needed : List ℕ → Disk → ℕ × Disk
allocate_if_needed offsets d = if all_zero offsets then block_alloc d else (0, d)

-- The rounds of `allocateAllNeededBlocks` behind the first: `off` is where `curBlock` points in
-- `workingData`, which was read from the block `parent` into `buffer`.
unfoldable pub grow_below :
    List ℕ → (off parent : ℕ) → (working : List ℕ) → Block → Disk → (add : ℕ) → Disk
grow_below [] off parent working buffer d add =
    store d parent (write_free_disk_list_block (set working off add) buffer)
grow_below (o ∷ os) off parent working buffer d add =
    let (new, d1) = allocate_if_needed (o ∷ os) d in
    let kept = new == 0 in
    let working1 = if kept then working else set working off new in
    let buffer1 = if kept then buffer else write_free_disk_list_block working1 buffer in
    let d2 = if kept then d1 else store d1 parent buffer1 in
    let current = get_or working1 off 0 in
    let buffer2 = (get_disk_block d2 current buffer1).1 in
    grow_below os o current (make_free_disk_list_block buffer2) buffer2 d2 add

-- `allocateAllNeededBlocks`: returns what `*curBlock`, a member of the inode, becomes.
unfoldable pub allocate_all_needed_blocks : (slot add : ℕ) → List ℕ → Disk → ℕ × Disk
allocate_all_needed_blocks slot add [] d = (add, d)
allocate_all_needed_blocks slot add (o ∷ os) d =
    let (new, d1) = allocate_if_needed (o ∷ os) d in
    let slot' = if new == 0 then slot else new in
    let buffer = fetch d1 slot' in
    (slot', grow_below os o slot' (make_free_disk_list_block buffer) buffer d1 add)

-- `updateINodeMetadata`; `now` is what `time(NULL)` returns.
unfoldable pub update_inode_metadata : ℕ → InCoreINode → ℤ → ℕ → InCoreINode
update_inode_metadata now c (pos zero) links = record c {
  size = add_int c.size (pos 0);
  links_count = links;
  inode_changed = true;
}
update_inode_metadata now c difference links = record c {
  size = add_int c.size difference;
  links_count = links;
  modification = now;
  file_data_changed = true;
  inode_changed = true;
}

-- `updateIndex`. For an index beyond the tree the source reads what it never set; here nothing
-- changes.
unfoldable pub update_index : ℕ → InCoreINode → ℕ → BlkTreeOffset → Disk → InCoreINode × Disk
update_index now c add (direct i) d =
    (record c { data_block_nums = set c.data_block_nums i add }, d)
update_index now c add beyond d = (c, d)
update_index now c add t d =
    let index = direct_block_limit + indirection t in
    let (slot, d') =
      allocate_all_needed_blocks (get_or c.data_block_nums index 0) add (below t) d in
    let c' = record c { data_block_nums = set c.data_block_nums index slot } in
    (update_inode_metadata now c' (pos 0) c.links_count, d')

unfoldable pub insert_data_block_in_inode : ℕ → InCoreINode → ℕ → Disk → InCoreINode × Disk
unfolding update_index
insert_data_block_in_inode now c add d =
    if c.size % block_size == 0 then update_index now c add (calculate_offset c.size) d else (c, d)

-- The first `while` of `freeNeededBlocks`: the indirect blocks on the path whose first leaf is the
-- one that goes. `freeNeeded` is the test of `allocateIfNeeded`.
unfoldable pub blocks_to_be_freed : List ℕ → ℕ → Block → Disk → List ℕ
blocks_to_be_freed [] current buffer d = []
blocks_to_be_freed (o ∷ os) current buffer d =
    let buffer' = (get_disk_block d current buffer).1 in
    let rest = blocks_to_be_freed os (get_or (make_free_disk_list_block buffer') o 0) buffer' d in
    if all_zero (o ∷ os) then current ∷ rest else rest

unfoldable pub free_all : List ℕ → Disk → Disk
free_all [] d = d
free_all (n ∷ ns) d = free_all ns (block_free d n)

unfoldable pub free_needed_blocks : InCoreINode → ℕ → BlkTreeOffset → Disk → Disk
unfolding free_all blocks_to_be_freed
free_needed_blocks c remove t d =
    let d' = block_free d remove in
    let slot = get_or c.data_block_nums (direct_block_limit + indirection t) 0 in
    if indirection t == 0 then d' else free_all (blocks_to_be_freed (below t) slot d'.junk d') d'

-- `freeDataBlockInINode`: the offsets are those of the inode's size.
unfoldable pub free_data_block_in_inode : InCoreINode → ℕ → Disk → Disk
unfolding free_needed_blocks
free_data_block_in_inode c remove d = free_needed_blocks c remove (calculate_offset c.size) d

-- `processAndGetDiskBlock`
unfoldable pub process_and_get_disk_block : List ℕ → ℕ → Block → Disk → ℕ
process_and_get_disk_block [] current buffer d = current
process_and_get_disk_block (o ∷ os) current buffer d =
    let buffer' = (get_disk_block d current buffer).1 in
    process_and_get_disk_block os (get_or (make_free_disk_list_block buffer') o 0) buffer' d

pub record BmapResponse : Type 0 where
  pub block_number : ℕ
  pub byte_offset_in_block : ℕ
  pub bytes_left_in_block : ℕ

unfoldable pub create_bmap_response : ℕ → ℕ → BmapResponse
create_bmap_response block offset = record {
  block_number = block;
  byte_offset_in_block = offset;
  bytes_left_in_block = block_size - offset;
}

pub data BmapMode : Type 0 where
  read_mode append_mode : BmapMode

abbrev pub is_append : BmapMode → Bool
is_append read_mode = false
is_append append_mode = true

-- The block that holds a leaf. Beyond the tree the source reads what it never set; here it is 0.
unfoldable pub leaf_block : InCoreINode → BlkTreeOffset → Disk → ℕ
unfolding process_and_get_disk_block
leaf_block c (direct i) d = get_or c.data_block_nums i 0
leaf_block c beyond d = 0
leaf_block c t d =
    process_and_get_disk_block (below t)
      (get_or c.data_block_nums (direct_block_limit + indirection t) 0) d.junk d

-- `bmap`: `none` is -1. In append mode at the end of a full last block the file grows by a block.
unfoldable pub bmap :
    ℕ → InCoreINode → ℕ → BmapMode → Disk → Option BmapResponse × InCoreINode × Disk
bmap now c offset mode d =
    let (new, d1) = block_alloc d in
    let (c2, d2) = insert_data_block_in_inode now c new d1 in
    if leb c.size offset && (not (is_append mode) || ltb c.size offset)
    then (none, c, d)
    else if offset == c.size && offset % block_size == 0 && is_append mode
    then (some (create_bmap_response new 0), c2, d2)
    else (
      some (create_bmap_response (leaf_block c (calculate_offset offset) d) (offset % block_size)),
      c,
      d,
    )
