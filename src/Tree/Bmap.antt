-- ===== src/Tree/Bmap.antt =====
-- `bmap` on each branch: the refused offsets, the direct blocks, and a file that grows by one.
use naofs.Prelude.{
  ℕ, ◌-◌, ◌*◌, ◌/◌, ◌%◌, ◌<◌, ◌≡◌, refl, ◌≢◌, ◌↔◌, ◌⊎◌, List, ◌∷◌, none, some, arith, get_or, set,
}
use naofs.Params.{block_size, free_list_block}
use naofs.Disk.{Disk, fetch}
use naofs.Inode.{InCoreINode}
use naofs.Blocks.{block_alloc}
use naofs.Blocks.Chain.{IsFree}
use naofs.Blocks.Alloc.{block_alloc-pop}
use naofs.Tree.{
  bmap, BmapMode, read_mode, append_mode, create_bmap_response, leaf_block, calculate_offset,
  insert_data_block_in_inode,
}

-- `bmap` fails exactly for an offset past the end, and at the end in read mode; then nothing
-- changes.
pub bmap-none_iff :
    (now : ℕ) (c : InCoreINode) (offset : ℕ) (mode : BmapMode) (d : Disk)
    → (bmap now c offset mode d ≡ (none, c, d))
      ↔ ((c.size < offset) ⊎ ((c.size ≡ offset) × (mode ≡ read_mode)))
unfolding bmap
bmap-none_iff now c offset read_mode d = (λ e. ground arith, λ h. ground arith)
bmap-none_iff now c offset append_mode d = (λ e. ground arith, λ h. ground arith)

-- Inside the first ten blocks of a file `bmap` answers with the inode's own block number, the
-- offset in that block and the bytes that are left of it, in both modes, and changes nothing.
pub bmap-direct :
    (now : ℕ) (c : InCoreINode) (offset : ℕ) (mode : BmapMode) (d : Disk)
    → offset < c.size
    → offset < 10 * block_size
    → bmap now c offset mode d ≡ (
      some (record {
        block_number = get_or c.data_block_nums (offset / block_size) 0;
        byte_offset_in_block = offset % block_size;
        bytes_left_in_block = block_size - offset % block_size;
      }),
      c,
      d,
    )
unfolding bmap create_bmap_response leaf_block calculate_offset
bmap-direct now c offset read_mode d h lt = ground arith
bmap-direct now c offset append_mode d h lt = ground arith

-- In read mode inside the file the answer is the leaf of the offset.
pub bmap-inside :
    (now : ℕ) (c : InCoreINode) (offset : ℕ) (d : Disk)
    → offset < c.size
    → (bmap now c offset read_mode d).0
      ≡ some (create_bmap_response (leaf_block c (calculate_offset offset) d) (offset % block_size))
unfolding bmap
bmap-inside now c offset d h = ground arith

-- Offsets in the same block have the same leaf.
pub leaf-same :
    (p q : ℕ) → p / block_size ≡ q / block_size → calculate_offset p ≡ calculate_offset q
unfolding calculate_offset
leaf-same p q h = rw h refl

insert-direct :
    (now : ℕ) (c : InCoreINode) (k add : ℕ) (d : Disk)
    → k < 10
    → c.size ≡ k * block_size
    → insert_data_block_in_inode now c add d
      ≡ (record c { data_block_nums = set c.data_block_nums k add }, d)
unfolding insert_data_block_in_inode calculate_offset
insert-direct now c k add d h e = ground arith

bmap-at_end :
    (now : ℕ) (c : InCoreINode) (k : ℕ) (d : Disk)
    → c.size ≡ k * block_size
    → bmap now c c.size append_mode d ≡ (
      some (create_bmap_response (block_alloc d).0 0),
      (insert_data_block_in_inode now c (block_alloc d).0 (block_alloc d).1).0,
      (insert_data_block_in_inode now c (block_alloc d).0 (block_alloc d).1).1,
    )
unfolding bmap
bmap-at_end now c k d e = ground arith

-- A file of `k` full blocks, fewer than ten, that is extended in append mode gets the top of the
-- stack of free blocks as its block `k`; the rest of the stack is free, and no block of the disk
-- but the free list's own changes.
pub bmap-append :
    (now : ℕ) (c : InCoreINode) (k x : ℕ) (xs : List ℕ) (d : Disk)
    → k < 10
    → c.size ≡ k * block_size
    → IsFree d (x ∷ xs)
    → let (response, c', d') = bmap now c c.size append_mode d in
      (response
        ≡ some (record {
          block_number = x;
          byte_offset_in_block = 0;
          bytes_left_in_block = block_size;
        }))
      × (c' ≡ record c { data_block_nums = set c.data_block_nums k x })
      × IsFree d' xs
      × ((b : ℕ) → b ≢ free_list_block → fetch d' b ≡ fetch d b)
unfolding create_bmap_response
bmap-append now c k x xs d h e f =
    let p = block_alloc-pop d x xs f in
    rw (bmap-at_end now c k d e, insert-direct now c k (block_alloc d).0 (block_alloc d).1 h e, p.0)
      (refl, refl, p.1, p.4)
