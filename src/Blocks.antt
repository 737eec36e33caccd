-- ===== src/Blocks.antt =====
-- src/dsk/alloc.c and free.c: the free block list. Block 2 holds 128 block numbers, zeros in front;
-- the last one is itself free and holds the next such list. The mutexes of the two files are taken
-- and released within one call, so they do not show.
pub mod Zeros
pub mod Chain
pub mod Alloc
pub mod Free
use naofs.Prelude.{
  ℕ, zero, suc, ◌+◌, ◌-◌, List, [], ◌∷◌, Bool, ltb, ◌==◌, if◌then◌else◌, get_or, set, not,
}
use naofs.Params.{block_size, free_list_block, block_addresses_per_block, direct_block_limit}
use naofs.Disk.{Block, Disk, get_disk_block, fetch, store}
use naofs.Meta.{make_free_disk_list_block, write_free_disk_list_block}
use naofs.Inode.{InCoreINode}

-- Where the `for` of `blockAlloc` stops: at the first number that is not zero, or at the end.
unfoldable pub alloc_scan : List ℕ → ℕ
alloc_scan [] = 0
alloc_scan (x ∷ xs) = let rest = suc (alloc_scan xs) in if x == 0 then rest else 0

-- When the number taken is the last one, the buffer is refilled from that block; a failed read
-- leaves it as it was.
unfoldable pub block_alloc : Disk → ℕ × Disk
block_alloc d =
    let buffer = fetch d free_list_block in
    let blk_nos = make_free_disk_list_block buffer in
    let counter = alloc_scan blk_nos in
    let new_block = get_or blk_nos counter 0 in
    let buffer' =
      if counter == block_addresses_per_block - 1
      then (get_disk_block d new_block buffer).1
      else write_free_disk_list_block (set blk_nos counter 0) buffer in
    (new_block, store d free_list_block buffer')

-- The loop that clears the first `n` numbers.
unfoldable pub clear_first : ℕ → List ℕ → List ℕ
clear_first zero xs = xs
clear_first (suc n) [] = []
clear_first (suc n) (x ∷ xs) = 0 ∷ clear_first n xs

-- The loop from index `n - 1` down to 0, which writes over the first zero that it meets.
unfoldable pub put_last_zero : ℕ → List ℕ → ℕ → List ℕ
put_last_zero zero xs b = xs
put_last_zero (suc i) xs b =
    let rest = put_last_zero i xs b in if get_or xs i 0 == 0 then set xs i b else rest

-- `_freeInto`
unfoldable pub free_into : Disk → ℕ → ℕ → Disk
free_into d list_block n =
    let buffer = fetch d list_block in
    let blk_nos = make_free_disk_list_block buffer in
    let last = block_addresses_per_block - 1 in
    if get_or blk_nos 0 0 == 0
    then store d list_block
        (write_free_disk_list_block (put_last_zero block_addresses_per_block blk_nos n) buffer)
    else store (store d n buffer) list_block
        (write_free_disk_list_block (clear_first last (set blk_nos last n)) buffer)

unfoldable pub block_free : Disk → ℕ → Disk
unfolding free_into
block_free d n = free_into d free_list_block n

-- The `for` of `diskBlockFree` over the numbers of an indirect block. The size left is only tested
-- for being positive, so it stops at 0 here.
unfoldable pub free_each : (Disk → ℕ → ℕ → ℕ × Disk) → List ℕ → Disk → ℕ → ℕ × Disk
free_each free_one [] d left = (left, d)
free_each free_one (n ∷ ns) d left =
    let (left', d') = free_one d n left in
    let rest = free_each free_one ns d' left' in if ltb 0 left then rest else (left, d)

unfoldable pub disk_block_free : ℕ → Disk → ℕ → ℕ → ℕ × Disk
unfolding free_each
disk_block_free zero d n left = (left - block_size, block_free d n)
disk_block_free (suc level) d n left =
    let blk_nos = make_free_disk_list_block (fetch d n) in
    let (left', d') = free_each (disk_block_free level) blk_nos d left in (left', block_free d' n)

-- The `for` of `inodeBlocksFree` over the direct blocks, `rounds` of them left from index `i` on.
unfoldable pub free_direct : ℕ → ℕ → List ℕ → Disk → ℕ → List ℕ × Disk × ℕ
free_direct zero i nums d left = (nums, d, left)
free_direct (suc rounds) i nums d left =
    let rest =
      free_direct rounds (i + 1) (set nums i 0) (block_free d (get_or nums i 0))
        (left - block_size) in
    if ltb 0 left then rest else (nums, d, left)

-- The `while (leftSize > 0)` over the single, double and triple indirect block. A size that three
-- levels cannot hold would index past `indirectBlocks`; the model stops there.
unfoldable pub free_indirect : ℕ → ℕ → List ℕ → Disk → ℕ → List ℕ × Disk
free_indirect zero i nums d left = (nums, d)
free_indirect (suc rounds) i nums d left =
    let index = direct_block_limit + 1 + i in
    let (left', d') = disk_block_free (i + 1) d (get_or nums index 0) left in
    let rest = free_indirect rounds (i + 1) (set nums index 0) d' left' in
    if ltb 0 left then rest else (nums, d)

unfoldable pub inode_blocks_free : InCoreINode → Disk → InCoreINode × Disk
unfolding free_direct free_indirect disk_block_free
inode_blocks_free c d =
    let (nums, d', left) = free_direct (direct_block_limit + 1) 0 c.data_block_nums d c.size in
    let (nums', d'') = free_indirect 3 0 nums d' left in (record c { data_block_nums = nums' }, d'')
