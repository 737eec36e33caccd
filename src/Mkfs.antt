-- ===== src/Mkfs.antt =====
-- src/mkfs/mkfs.c: laying out an empty file system. The number of blocks of the disk and of inode
-- blocks are arguments; `make_file_system` passes the program's.
pub mod Upto
pub mod FreeList
use naofs.Prelude.{ℕ, zero, suc, ◌+◌, ◌-◌, ◌*◌, ◌/◌, List, [], ◌∷◌, set, ltb, ◌==◌, if◌then◌else◌}
use naofs.Params.{
  block_size, inode_address_size, num_of_inodes, num_of_inode_blocks, num_of_blocks,
  block_addresses_per_block, super_block, free_list_block, inode_list_block, inode_blocks_head,
}
use naofs.Disk.{Disk, Block, fetch, store}
use naofs.Inode.{decode, t_directory, populate_inodes_in, init_inode_list_block}
use naofs.InodeTable.{get_disk_inode, write_disk_inode}
use naofs.Meta.{make_one_block, write_super_block}
use naofs.Blocks.{block_alloc}

-- `S_IFDIR | S_IRWXU | S_IRGRP | S_IXGRP | S_IWGRP | S_IROTH | S_IXOTH | S_IWOTH`
abbrev pub root_mode : ℕ
root_mode = 0o40777

unfoldable pub assign_root_data : Disk → Disk
assign_root_data d =
    let root = (get_disk_inode d 0 (decode d.junk)).1 in
    let (block, d') = block_alloc d in
    (write_disk_inode d' 0 (record root {
      type = t_directory;
      file_mode = root_mode;
      data_block_nums = set root.data_block_nums 0 block;
    })).1

-- The numbers `n + 1` up to `n + count`.
unfoldable pub numbers_from : ℕ → ℕ → List ℕ
numbers_from zero n = []
numbers_from (suc count) n = (n + 1) ∷ numbers_from count (n + 1)

unfoldable pub write_inode_list_to_disk : Disk → ℕ → ℕ → ℕ × Disk
write_inode_list_to_disk d block size =
    let d' = assign_root_data d in
    let (remembered, buffer) = init_inode_list_block (numbers_from size 0) in
    (remembered, store d' block buffer)

abbrev pub get_inode_list_size : ℕ
get_inode_list_size =
    let n = block_size / inode_address_size in if ltb num_of_inodes n then num_of_inodes else n

-- The `while` of `createINodes`; the fuel is the number of blocks left.
unfoldable pub create_inodes : ℕ → Disk → ℕ → ℕ → Disk
create_inodes zero d block counter = d
create_inodes (suc left) d block counter =
    let (counter', buffer) = populate_inodes_in counter in
    create_inodes left (store d block buffer) (block + 1) counter'

unfoldable pub initialize_inode_data : ℕ → Disk → ℕ → ℕ → ℕ × Disk
unfolding create_inodes
initialize_inode_data inode_blocks d block start =
    write_inode_list_to_disk (create_inodes inode_blocks d start 0) block get_inode_list_size

-- The `while` of `initializeDiskBlocks` for a disk of `limit` blocks. Each round takes 128 numbers,
-- so `limit` rounds are enough.
unfoldable pub initialize_disk_blocks : ℕ → ℕ → Disk → ℕ → ℕ → Disk
initialize_disk_blocks zero limit d pointer start = d
initialize_disk_blocks (suc fuel) limit d pointer start =
    let (next, buffer) = make_one_block limit start in
    let d' = store d pointer buffer in
    let rest = initialize_disk_blocks fuel limit d' next (start + block_addresses_per_block) in
    if ltb pointer limit then (if next == 0 then d' else rest) else d

-- The super block is written over what a fresh buffer holds.
unfoldable pub make_file_system : Disk → Disk
unfolding initialize_inode_data initialize_disk_blocks
make_file_system d =
    let (remembered, d1) =
      initialize_inode_data num_of_inode_blocks d inode_list_block inode_blocks_head in
    let d2 =
      initialize_disk_blocks num_of_blocks num_of_blocks d1 free_list_block
        (4 + num_of_inode_blocks) in
    store d2 super_block (write_super_block remembered d2.junk)
