-- ===== src/Tests/Blocks.antt =====
-- Free blocks on a blank disk that `initializeDiskBlocks` was run on from block 3 on, with room for
-- one list.
use naofs.Prelude.{ℕ, ◌+◌, ◌*◌, ◌<◌, ◌≡◌, ◌≢◌, refl, some, ◌∷◌, arith, set, zero, suc}
use naofs.Params.{block_size, free_list_block}
use naofs.Disk.{Disk, fetch}
use naofs.Blocks.{block_alloc, block_free}
use naofs.Blocks.Chain.{IsFree, IsData, AllNe}
use naofs.Blocks.Alloc.{block_alloc-pop}
use naofs.Blocks.Free.{block_free-push}
use naofs.Mkfs.{initialize_disk_blocks}
use naofs.Mkfs.Upto.{upto}
use naofs.Mkfs.FreeList.{initialize_disk_blocks_lem}
use naofs.Inode.{InCoreINode}
use naofs.Pool.{zero_in_core}
use naofs.Tree.{bmap, append_mode}
use naofs.Tree.Bmap.{bmap-append}
use naofs.Tests.{blank_disk}

abbrev fresh_disk : Disk
fresh_disk = initialize_disk_blocks 2 512 blank_disk free_list_block 3

initialize_disk_blocks_example :
    IsFree fresh_disk (upto (128 * 1) 3)
    × ((k : ℕ) → k < 3 → k ≢ free_list_block → fetch fresh_disk k ≡ fetch blank_disk k)
initialize_disk_blocks_example =
    initialize_disk_blocks_lem 1 2 512 blank_disk 3 (omega arith) refl (omega arith) (omega arith)
      (omega arith) (omega arith)

fresh_disk-IsFree : IsFree fresh_disk (upto (128 * 1) 3)
fresh_disk-IsFree =
    (initialize_disk_blocks_lem 1 2 512 blank_disk 3 (omega arith) refl (omega arith) (omega arith)
      (omega arith) (omega arith)).0

split-IsFree : IsFree fresh_disk (3 ∷ upto 127 4)
unfolding upto
split-IsFree = fresh_disk-IsFree

AllNe-upto : (k n start : ℕ) → start + n < k → AllNe k (upto n start)
unfolding upto
AllNe-upto k zero start h = tt
AllNe-upto k (suc n) start h = (omega arith, AllNe-upto k n (start + 1) (omega arith))

block_alloc_example :
    ((block_alloc fresh_disk).0 ≡ 3)
    × IsFree (block_alloc fresh_disk).1 (upto 127 4)
    × IsData 3
    × AllNe 3 (upto 127 4)
    × ((k : ℕ) → k ≢ free_list_block → fetch (block_alloc fresh_disk).1 k ≡ fetch fresh_disk k)
block_alloc_example = block_alloc-pop fresh_disk 3 (upto 127 4) split-IsFree

block_free_example :
    IsFree (block_free fresh_disk 700) (700 ∷ upto (128 * 1) 3)
    × ((k : ℕ)
        → k ≢ free_list_block
        → k ≢ 700
        → fetch (block_free fresh_disk 700) k ≡ fetch fresh_disk k)
block_free_example =
    block_free-push fresh_disk 700 (upto (128 * 1) 3) fresh_disk-IsFree
      (omega arith, omega arith, omega arith) (AllNe-upto 700 (128 * 1) 3 (omega arith))

abbrev empty_file : InCoreINode
empty_file = zero_in_core

bmap-append_example :
    let (response, c', d') = bmap 9 empty_file 0 append_mode fresh_disk in
    (response
      ≡ some
          (record { block_number = 3; byte_offset_in_block = 0; bytes_left_in_block = block_size }))
    × (c' ≡ record empty_file { data_block_nums = set empty_file.data_block_nums 0 3 })
    × IsFree d' (upto 127 4)
    × ((b : ℕ) → b ≢ free_list_block → fetch d' b ≡ fetch fresh_disk b)
bmap-append_example =
    bmap-append 9 empty_file 0 3 (upto 127 4) fresh_disk (omega arith) refl split-IsFree
