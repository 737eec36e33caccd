-- ===== src/InodeTable.antt =====
-- src/mkfs/iNodeManager.c: the inodes in their blocks, four slots of 256 bytes to a block from block
-- 4 on, and the search for free ones.
pub mod Access
pub mod Stride
use naofs.Prelude.{
  ℕ, zero, suc, ◌+◌, ◌-◌, ◌*◌, ◌/◌, ◌%◌, List, [], ◌∷◌, slice, splice, replicate, set, get_or, ltb,
  leb, ◌==◌, if◌then◌else◌,
}
use naofs.Params.{
  inode_size, inodes_per_block, inode_nos_per_block, num_of_inodes, inode_blocks_head, block_size,
  sizeof_inode,
}
use naofs.Disk.{Disk, Block, Status, ok, failed, fetch, store}
use naofs.Inode.{INode, encode, decode, t_free}
use naofs.Meta.{make_inodes_block}

abbrev pub end_of_inode_blocks : ℕ
end_of_inode_blocks = inode_blocks_head + inode_size * num_of_inodes / block_size

-- `getReturnValue`. An index past the array would be read from the memory behind it; here it is 0.
unfoldable pub get_return_value : List ℕ → ℕ → ℕ
get_return_value nos count =
    if count == 0 then 0 else if ltb count inode_nos_per_block then 0 else get_or nos (count - 1) 0

-- The loop of `getFromBlock`: `at` is where `nextAddrAt` points. A write past the array is dropped.
unfoldable pub get_from_block : List INode → ℕ → List ℕ → ℕ × List ℕ
get_from_block [] at nos = (0, nos)
get_from_block (i ∷ is) at nos =
    let taken = get_from_block is (at + 1) (set nos at i.inode_number) in
    let skipped = get_from_block is at nos in
    if i.type == t_free then (taken.0 + 1, taken.1) else skipped

-- The `while` of `searchINodes`; the fuel is the number of inode blocks left.
unfoldable pub search_loop : ℕ → Disk → ℕ → ℕ → List ℕ → ℕ × List ℕ
search_loop zero d block count nos = (count, nos)
search_loop (suc left) d block count nos =
    let (collected, nos') = get_from_block (make_inodes_block (fetch d block)) count nos in
    let rest = search_loop left d (block + 1) (count + collected) nos' in
    if ltb count inode_nos_per_block then rest else (count, nos)

unfoldable pub search_inodes : Disk → ℕ → List ℕ → ℕ × List ℕ
unfolding search_loop
search_inodes d start nos =
    let block = start / inodes_per_block + inode_blocks_head in
    let (count, nos') = search_loop (end_of_inode_blocks - block) d block 0 nos in
    if start == 0 then (0, nos) else (get_return_value nos' count, nos')

-- Where an inode lies.
abbrev pub block_of : ℕ → ℕ
block_of n = n / inodes_per_block + inode_blocks_head

abbrev pub byte_of : ℕ → ℕ
byte_of n = n % inodes_per_block * inode_size

-- `accessINodeAndItsBlock` with `INODE_READ`; on an error the struct stays as the caller had it.
unfoldable pub get_disk_inode : Disk → ℕ → INode → Status × INode
get_disk_inode d n inode =
    if leb num_of_inodes n
    then (failed, inode)
    else (ok, decode (slice (byte_of n) sizeof_inode (fetch d (block_of n))))

-- The bytes of a block with the slot cleared and the inode copied into it.
unfoldable pub put_inode : Block → ℕ → INode → Block
put_inode block n inode =
    splice (splice block (byte_of n) (replicate inode_size 0)) (byte_of n) (encode inode)

-- `accessINodeAndItsBlock` with `INODE_WRITE`.
unfoldable pub write_disk_inode : Disk → ℕ → INode → Status × Disk
unfolding put_inode
write_disk_inode d n inode =
    if leb num_of_inodes n
    then (failed, d)
    else (ok, store d (block_of n) (put_inode (fetch d (block_of n)) n inode))

-- `updateINodeData`; `now` is what `time(NULL)` returns.
unfoldable pub update_inode_data : Disk → (now n type mode uid gid size links : ℕ) → Disk
unfolding get_disk_inode write_disk_inode
update_inode_data d now n type mode uid gid size links =
    let inode = (get_disk_inode d n (decode d.junk)).1 in
    (write_disk_inode d n (record inode {
      status_change = now;
      type = type;
      file_mode = mode;
      owner_uid = uid;
      group_uid = gid;
      size = size;
      links_count = links;
    })).1
