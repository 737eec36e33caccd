-- ===== src/Inode.antt =====
-- include/inode/iNode.h, inCoreiNode.h, src/inode/iNode.c and inCoreiNode.c: the inode on the disk
-- and its copy in memory.
pub mod RoundTrip
use naofs.Prelude.{
  ℕ, zero, suc, ◌+◌, ◌-◌, ◌*◌, ◌≤◌, Bool, true, false, List, [], ◌∷◌, ◌++◌, get_or, encode_fields,
  decode_fields, write_words, slice, splice, replicate, length, leb, ltb, ◌==◌, if◌then◌else◌,
}
use naofs.Params.{
  block_size, num_of_inodes, inode_size, inodes_per_block, sizeof_inode, inode_address_size,
}
use naofs.Disk.{Block}

-- `BLOCKS_IN_INODE`
abbrev pub blocks_in_inode : ℕ
blocks_in_inode = 13

-- `enum iNodeType`; an inode keeps its `int`.
abbrev pub t_free : ℕ
t_free = 0

abbrev pub t_regular : ℕ
t_regular = 1

abbrev pub t_directory : ℕ
t_directory = 2

-- `struct iNode`. Times are kept as their bit patterns.
pub record INode : Type 0 where
  pub device_number : ℕ
  pub inode_number : ℕ
  pub access : ℕ
  pub modification : ℕ
  pub status_change : ℕ
  pub links_count : ℕ
  pub type : ℕ
  pub file_mode : ℕ
  pub owner_uid : ℕ
  pub group_uid : ℕ
  pub data_block_nums : List ℕ
  pub size : ℕ

-- `struct inCoreiNode`: the inode with a mutex, a reference count and two dirty bits.
pub record InCoreINode : Type 0 where
  pub locked : Bool
  pub reference_count : ℕ
  pub device_number : ℕ
  pub inode_number : ℕ
  pub access : ℕ
  pub modification : ℕ
  pub status_change : ℕ
  pub links_count : ℕ
  pub type : ℕ
  pub file_mode : ℕ
  pub owner_uid : ℕ
  pub group_uid : ℕ
  pub data_block_nums : List ℕ
  pub inode_changed : Bool
  pub file_data_changed : Bool
  pub size : ℕ

-- The widths of the members of the struct, and their values in the same order.
abbrev pub widths : List ℕ
widths =
    8 ∷ 8 ∷ 8 ∷ 8 ∷ 8 ∷ 8 ∷ 4 ∷ 4 ∷ 4 ∷ 4 ∷ 8 ∷ 8 ∷ 8 ∷ 8 ∷ 8 ∷ 8 ∷ 8 ∷ 8 ∷ 8 ∷ 8 ∷ 8 ∷ 8 ∷ 8 ∷ 8
    ∷ []

abbrev pub members : INode → List ℕ
members i =
    i.device_number
    ∷ i.inode_number
    ∷ i.access
    ∷ i.modification
    ∷ i.status_change
    ∷ i.links_count
    ∷ i.type
    ∷ i.file_mode
    ∷ i.owner_uid
    ∷ i.group_uid
    ∷ (i.data_block_nums ++ (i.size ∷ []))

abbrev pub of_members : List ℕ → INode
of_members v = record {
  device_number = get_or v 0 0;
  inode_number = get_or v 1 0;
  access = get_or v 2 0;
  modification = get_or v 3 0;
  status_change = get_or v 4 0;
  links_count = get_or v 5 0;
  type = get_or v 6 0;
  file_mode = get_or v 7 0;
  owner_uid = get_or v 8 0;
  group_uid = get_or v 9 0;
  data_block_nums = slice 10 blocks_in_inode v;
  size = get_or v 23 0;
}

-- The bytes of the struct, and the struct at the head of a run of bytes: `memcpy` between an
-- `iNode` and a block, on a little-endian machine.
unfoldable pub encode : INode → List ℕ
encode i = encode_fields widths (members i)

unfoldable pub decode : List ℕ → INode
decode bytes = of_members (decode_fields widths bytes)

-- The inode with every member zero, as `memset` leaves it.
abbrev pub zero_inode : INode
zero_inode = record {
  device_number = 0;
  inode_number = 0;
  access = 0;
  modification = 0;
  status_change = 0;
  links_count = 0;
  type = 0;
  file_mode = 0;
  owner_uid = 0;
  group_uid = 0;
  data_block_nums = 0 ∷ 0 ∷ 0 ∷ 0 ∷ 0 ∷ 0 ∷ 0 ∷ 0 ∷ 0 ∷ 0 ∷ 0 ∷ 0 ∷ 0 ∷ [];
  size = 0;
}

unfoldable pub initialize_inode : ℕ → INode
initialize_inode n = if leb num_of_inodes n then zero_inode else record zero_inode {
  device_number = 0;
  inode_number = n;
  links_count = 0;
  type = t_free;
  file_mode = 0;
  owner_uid = 0;
  group_uid = 0;
}

-- `while (ptrIntoBlock < endOfBlock)` of `populateINodesIn`: the fuel is the number of slots left.
unfoldable pub populate_loop : ℕ → ℕ → ℕ → Block → ℕ × Block
populate_loop zero ptr counter block = (counter, block)
populate_loop (suc slots) ptr counter block =
    populate_loop slots (ptr + inode_size) (counter + 1)
      (splice block ptr (encode (initialize_inode counter)))

-- The block is cleared whole first, so what it held does not matter.
unfoldable pub populate_inodes_in : ℕ → ℕ × Block
unfolding populate_loop
populate_inodes_in n = populate_loop inodes_per_block 0 n (replicate block_size 0)

-- The loop of `initINodeListBlock`.
unfoldable pub init_inode_list_block : List ℕ → ℕ × Block
init_inode_list_block list =
    let block = write_words inode_address_size list 0 (replicate block_size 0) in
    (
      if inode_address_size * length list == block_size then get_or list (length list - 1) 0 else 0,
      block,
    )

-- The reference count, the mutex and the dirty bits stay as they are.
unfoldable pub insert_disk_inode_data : INode → InCoreINode → InCoreINode
insert_disk_inode_data i c = record c {
  device_number = i.device_number;
  inode_number = i.inode_number;
  access = i.access;
  modification = i.modification;
  status_change = i.status_change;
  links_count = i.links_count;
  type = i.type;
  file_mode = i.file_mode;
  owner_uid = i.owner_uid;
  group_uid = i.group_uid;
  data_block_nums = i.data_block_nums;
  size = i.size;
}

unfoldable pub get_disk_inode_data : InCoreINode → INode
get_disk_inode_data c = record {
  device_number = c.device_number;
  inode_number = c.inode_number;
  access = c.access;
  modification = c.modification;
  status_change = c.status_change;
  links_count = c.links_count;
  type = c.type;
  file_mode = c.file_mode;
  owner_uid = c.owner_uid;
  group_uid = c.group_uid;
  data_block_nums = c.data_block_nums;
  size = c.size;
}
