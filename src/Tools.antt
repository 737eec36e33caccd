-- ===== src/Tools.antt =====
-- src/mkfs/diskReader.c: the tool that prints the metadata of a device. What is printed is the list
-- of the numbers; `globals` are the variables of params.c, which the tool never sets.
pub mod Reader
use naofs.Prelude.{ℕ, Option, none, some, List, [], ◌∷◌}
use naofs.Params.{Params, free_list_block, inode_list_block, inode_blocks_head}
use naofs.Disk.{Device, Disk, Status, ok, failed, setup_disk, get_disk_block_of}
use naofs.Inode.{INode}
use naofs.Meta.{make_free_disk_list_block, make_inode_list_block, inodes_at}

-- What variables that nothing sets start with.
abbrev pub unset : Params
unset = record { inode_size = 0; inodes_per_block = 0; num_of_inode_blocks = 0; num_of_blocks = 0 }

unfoldable pub print_free_list : Params → Disk → List ℕ
unfolding make_free_disk_list_block get_disk_block_of
print_free_list globals d =
    make_free_disk_list_block (get_disk_block_of globals.num_of_blocks d free_list_block d.junk).1

unfoldable pub print_free_inode_list : Params → Disk → List ℕ
unfolding make_inode_list_block get_disk_block_of
print_free_inode_list globals d =
    make_inode_list_block (get_disk_block_of globals.num_of_blocks d inode_list_block d.junk).1

unfoldable pub print_a_free_inode : INode → List ℕ
print_a_free_inode i = i.device_number ∷ i.inode_number ∷ i.links_count ∷ i.type ∷ []

-- The first inode of the array, or what memory holds behind an array of none.
unfoldable pub first_inode : INode → List INode → INode
first_inode fresh [] = fresh
first_inode fresh (i ∷ is) = i

unfoldable pub print_inode_for_sanity : Params → INode → Disk → List ℕ
unfolding print_a_free_inode first_inode inodes_at get_disk_block_of
print_inode_for_sanity globals fresh d =
    let block = (get_disk_block_of globals.num_of_blocks d inode_blocks_head d.junk).1 in
    print_a_free_inode (first_inode fresh (inodes_at globals.inodes_per_block 0 block))

unfoldable pub print_all : Params → INode → Status × Disk → Option (List ℕ × List ℕ × List ℕ)
unfolding print_free_list print_free_inode_list print_inode_for_sanity
print_all globals fresh (failed, d) = none
print_all globals fresh (ok, d) = some (
  print_free_list globals d,
  print_free_inode_list globals d,
  print_inode_for_sanity globals fresh d,
)

-- `main`, which returns 0 in any case: what it prints of the device, if it gets there.
unfoldable pub disk_reader :
    Params
    → (device_of : List ℕ → Device) → (argv : List (List ℕ)) → INode
    → Disk
    → Option (List ℕ × List ℕ × List ℕ)
unfolding print_all
disk_reader globals device_of (program ∷ name ∷ []) fresh d =
    print_all globals fresh (setup_disk (record d { device = device_of name }))
disk_reader globals device_of argv fresh d = none
