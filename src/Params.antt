-- ===== src/Params.antt =====
-- include/mandsk/params.h, include/mkfs/diskParams.h and src/mandsk/params.c: the sizes of the disk
-- layout. The macros are constants here; the four globals that `initializeINodeParams` computes are
-- a record that it returns.
pub mod Size
use naofs.Prelude.{ℕ, zero, suc, ◌+◌, ◌*◌, ◌/◌, ◌^◌, ◌==◌, if◌then◌else◌}

abbrev pub block_address_size : ℕ
block_address_size = 8

abbrev pub disk_size_in_gb : ℕ
disk_size_in_gb = 30

abbrev pub block_size : ℕ
block_size = 1024

abbrev pub inode_address_size : ℕ
inode_address_size = 2

abbrev pub num_of_inodes : ℕ
num_of_inodes = 2 ^ 16

abbrev pub filename_size : ℕ
filename_size = 62

abbrev pub directory_entry_size : ℕ
directory_entry_size = filename_size + inode_address_size

abbrev pub directory_entries_in_block : ℕ
directory_entries_in_block = block_size / directory_entry_size

abbrev pub direct_block_limit : ℕ
direct_block_limit = 9

abbrev pub inode_buffer_size : ℕ
inode_buffer_size = 32

abbrev pub inode_hash_size : ℕ
inode_hash_size = 8

abbrev pub max_file_descriptors : ℕ
max_file_descriptors = 10000

abbrev pub block_addresses_per_block : ℕ
block_addresses_per_block = block_size / block_address_size

abbrev pub inode_nos_per_block : ℕ
inode_nos_per_block = block_size / inode_address_size

-- The numbers of the metadata blocks.
abbrev pub super_block : ℕ
super_block = 1

abbrev pub free_list_block : ℕ
free_list_block = 2

abbrev pub inode_list_block : ℕ
inode_list_block = 3

abbrev pub inode_blocks_head : ℕ
inode_blocks_head = 4

-- `sizeof(iNode)` with 8-byte `size_t` and `time_t` and 4-byte enums and ids: no padding.
abbrev pub sizeof_inode : ℕ
sizeof_inode = 176

pub record Params : Type 0 where
  pub inode_size : ℕ
  pub inodes_per_block : ℕ
  pub num_of_inode_blocks : ℕ
  pub num_of_blocks : ℕ

-- `while (iNodeStructSize != 0) { iNodeSize *= 2; iNodeStructSize /= 2; }`; the fuel is the number
-- of rounds allowed.
pub inode_size_loop : ℕ → ℕ → ℕ → ℕ
inode_size_loop zero struct_size size = size
inode_size_loop (suc fuel) struct_size size =
    let rest = inode_size_loop fuel (struct_size / 2) (size * 2) in
    if struct_size == 0 then size else rest

-- `struct_size` rounds are enough, since each halves it.
unfoldable pub initialize_inode_params : ℕ → Params
unfolding inode_size_loop
initialize_inode_params struct_size =
    let inode_size = inode_size_loop (struct_size + 1) struct_size 1 in
    record {
      inode_size = inode_size;
      inodes_per_block = block_size / inode_size;
      num_of_inode_blocks = inode_size * num_of_inodes / block_size;
      num_of_blocks = disk_size_in_gb * 2 ^ 20;
    }

-- The globals as the program runs with them.
abbrev pub inode_size : ℕ
inode_size = 256

abbrev pub inodes_per_block : ℕ
inodes_per_block = 4

abbrev pub num_of_inode_blocks : ℕ
num_of_inode_blocks = 16384

abbrev pub num_of_blocks : ℕ
num_of_blocks = 31457280
