-- ===== src/Meta.antt =====
-- src/mkfs/metaBlocks.c, freeBlockList.c and include/mkfs/metaBlocks.h: the bytes of the metadata
-- blocks, and the numbers and inodes that they stand for. A `while (ptrIntoBlock < endOfBlock)`
-- makes one round for each word of the block; an array of the source is a list of its length.
pub mod RoundTrip
use naofs.Prelude.{
  ℕ, zero, suc, ◌+◌, ◌-◌, ◌*◌, List, [], ◌∷◌, to_bytes, from_bytes, slice, splice, read_words,
  write_words, ltb, if◌then◌else◌, replicate, Bool, true, false,
}
use naofs.Params.{
  block_size, block_address_size, inode_address_size, block_addresses_per_block,
  inode_nos_per_block, inodes_per_block, sizeof_inode, num_of_blocks,
}
use naofs.Disk.{Block}
use naofs.Inode.{INode, encode, decode}

-- `makeSuperBlock`: the super block holds `rememberedINode` alone.
unfoldable pub make_super_block : Block → ℕ
make_super_block block = from_bytes (slice 0 inode_address_size block)

unfoldable pub write_super_block : ℕ → Block → Block
write_super_block remembered block = splice block 0 (to_bytes inode_address_size remembered)

unfoldable pub make_free_disk_list_block : Block → List ℕ
make_free_disk_list_block block = read_words block_address_size block_addresses_per_block 0 block

unfoldable pub write_free_disk_list_block : List ℕ → Block → Block
write_free_disk_list_block blk_nos block = write_words block_address_size blk_nos 0 block

unfoldable pub make_inode_list_block : Block → List ℕ
make_inode_list_block block = read_words inode_address_size inode_nos_per_block 0 block

unfoldable pub write_inode_list_block : List ℕ → Block → Block
write_inode_list_block inode_nos block = write_words inode_address_size inode_nos 0 block

-- `memcpy` of `INODES_PER_BLOCK*sizeof(iNode)` bytes: the structs lie one behind the other.
unfoldable pub inodes_at : ℕ → ℕ → Block → List INode
inodes_at zero ptr block = []
inodes_at (suc n) ptr block =
    decode (slice ptr sizeof_inode block) ∷ inodes_at n (ptr + sizeof_inode) block

unfoldable pub make_inodes_block : Block → List INode
unfolding inodes_at
make_inodes_block block = inodes_at inodes_per_block 0 block

unfoldable pub put_inodes : List INode → ℕ → Block → Block
put_inodes [] ptr block = block
put_inodes (i ∷ is) ptr block = put_inodes is (ptr + sizeof_inode) (splice block ptr (encode i))

unfoldable pub write_inodes_block : List INode → Block → Block
unfolding put_inodes
write_inodes_block inodes block = put_inodes inodes 0 block

-- The loop of `makeOneBlock`; the fuel is the number of words left in the block, so that the fuel
-- is gone exactly when `ptrIntoBlock == endOfBlock`. Returns the counter, whether the pointer
-- reached the end, and the block.
unfoldable pub fill_loop : ℕ → ℕ → ℕ → ℕ → Block → ℕ × Bool × Block
fill_loop zero limit ptr counter block = (counter, true, block)
fill_loop (suc n) limit ptr counter block =
    let more =
      fill_loop n limit (ptr + block_address_size) (counter + 1)
        (splice block ptr (to_bytes block_address_size counter)) in
    if ltb counter limit then more else (counter, false, block)

-- `makeOneBlock` with `NUM_OF_BLOCKS` as an argument.
unfoldable pub make_one_block : ℕ → ℕ → ℕ × Block
make_one_block limit start =
    let (counter, full, block) =
      fill_loop block_addresses_per_block limit 0 start (replicate block_size 0) in
    (if full then counter - 1 else 0, block)
