-- ===== src/Tests/Inodes.antt =====
-- Inodes: their bytes, their slots, the lists that remember free ones, and offsets in a file.
use naofs.Prelude.{ℕ, zero, suc, ◌/◌, ◌<◌, ◌≡◌, refl, arith, get_or, replicate, AllBelow}
use naofs.Params.{block_size}
use naofs.Disk.{fetch, ok}
use naofs.Inode.{INode, InCoreINode, zero_inode, t_free, insert_disk_inode_data}
use naofs.Inode.RoundTrip.{IsInode}
use naofs.Meta.{make_inodes_block}
use naofs.Meta.RoundTrip.{IsBlock}
use naofs.InodeTable.{get_disk_inode, write_disk_inode, put_inode, block_of}
use naofs.InodeTable.Access.{get_disk_inode-write_self}
use naofs.InodeTable.Stride.{second_inode_lem}
use naofs.Tree.{calculate_offset}
use naofs.Tree.Offset.{InRange, leaf_index, calculate_offset_lem}
use naofs.Pool.{zero_in_core}
use naofs.Tests.{blank_disk, blank_block, blank_block-IsBlock, fetch-blank_IsBlock}

abbrev file : INode
file = record zero_inode {
  inode_number = 5;
  access = 1550000000;
  links_count = 1;
  type = 1;
  file_mode = 33188;
  size = 2000;
}

file-IsInode : IsInode file
file-IsInode = record {
  fits = (
    omega arith,
    (
      omega arith,
      (
        omega arith,
        (
          omega arith,
          (
            omega arith,
            (
              omega arith,
              (
                omega arith,
                (
                  omega arith,
                  (
                    omega arith,
                    (
                      omega arith,
                      (
                        omega arith,
                        (
                          omega arith,
                          (
                            omega arith,
                            (
                              omega arith,
                              (
                                omega arith,
                                (
                                  omega arith,
                                  (
                                    omega arith,
                                    (
                                      omega arith,
                                      (
                                        omega arith,
                                        (
                                          omega arith,
                                          (
                                            omega arith,
                                            (omega arith, (omega arith, (omega arith, tt))),
                                          ),
                                        ),
                                      ),
                                    ),
                                  ),
                                ),
                              ),
                            ),
                          ),
                        ),
                      ),
                    ),
                  ),
                ),
              ),
            ),
          ),
        ),
      ),
    ),
  );
  blocks = refl;
}

AllBelow-replicate : (n b : ℕ) → 0 < b → AllBelow b (replicate n 0)
unfolding replicate
AllBelow-replicate zero b h = tt
AllBelow-replicate (suc n) b h = (h, AllBelow-replicate n b h)

write_self_example :
    ((write_disk_inode blank_disk 5 file).0 ≡ ok)
    × (get_disk_inode (write_disk_inode blank_disk 5 file).1 5 zero_inode ≡ (ok, file))
    × IsBlock (fetch (write_disk_inode blank_disk 5 file).1 (block_of 5))
write_self_example =
    get_disk_inode-write_self blank_disk 5 file zero_inode refl (omega arith)
      (fetch-blank_IsBlock (block_of 5)) file-IsInode

second_inode_example :
    ((get_or (make_inodes_block (put_inode blank_block 4 file)) 1 file).type ≡ t_free)
    × ((get_or (make_inodes_block (put_inode blank_block 4 file)) 1 file).inode_number ≡ 0)
second_inode_example =
    second_inode_lem blank_block 4 file file refl file-IsInode blank_block-IsBlock

calculate_offset_example :
    InRange (calculate_offset 300000) × (leaf_index (calculate_offset 300000) ≡ 300000 / block_size)
calculate_offset_example = calculate_offset_lem 300000 (omega arith)

abbrev file_in_core : InCoreINode
file_in_core = insert_disk_inode_data file zero_in_core
