-- ===== src/Meta/RoundTrip.antt =====
-- Each pair of functions of metaBlocks.c is a round trip on what fits its words.
use naofs.Prelude.{
  ℕ, ◌^◌, ◌≤◌, ◌<◌, ◌≡◌, sym, ap, ◌∙◌, List, arith, length, slice, to_bytes, from_bytes,
  from_bytes-to_bytes, length-to_bytes, slice-splice_self, AllBelow, read_words,
  read_words-write_words, length-write_words, write_words, slice-splice_after,
}
use naofs.Params.{block_size, block_addresses_per_block, inode_nos_per_block}
use naofs.Disk.{Block}
use naofs.Meta.{
  make_super_block, write_super_block, make_free_disk_list_block, write_free_disk_list_block,
  make_inode_list_block, write_inode_list_block,
}

-- A block has `BLOCK_SIZE` bytes.
abbrev pub IsBlock : Block → Type 0
IsBlock block = length block ≡ block_size

-- The array of a free block list: 128 block numbers.
pub record IsBlockList (xs : List ℕ) : Type 0 where
  pub count : length xs ≡ block_addresses_per_block
  pub fits : AllBelow (256 ^ 8) xs

-- The array of a free inode list: 512 inode numbers.
pub record IsINodeList (xs : List ℕ) : Type 0 where
  pub count : length xs ≡ inode_nos_per_block
  pub fits : AllBelow (256 ^ 2) xs

-- A list of 128 block numbers of 8 bytes written over any block is read back, and the block keeps
-- its length.
pub make_free_disk_list_block-write :
    (xs : List ℕ) (block : Block)
    → IsBlockList xs
    → IsBlock block
    → (make_free_disk_list_block (write_free_disk_list_block xs block) ≡ xs)
      × IsBlock (write_free_disk_list_block xs block)
unfolding make_free_disk_list_block write_free_disk_list_block
make_free_disk_list_block-write xs block v b = (
  ap (λ n. read_words 8 n 0 (write_words 8 xs 0 block)) (sym v.count)
      ∙ read_words-write_words 8 xs 0 block v.fits (omega (arith, v.count)),
  length-write_words 8 xs 0 block ∙ b,
)

-- A list of 512 inode numbers of 2 bytes written over any block is read back, and the block keeps
-- its length.
pub make_inode_list_block-write :
    (xs : List ℕ) (block : Block)
    → IsINodeList xs
    → IsBlock block
    → (make_inode_list_block (write_inode_list_block xs block) ≡ xs)
      × IsBlock (write_inode_list_block xs block)
unfolding make_inode_list_block write_inode_list_block
make_inode_list_block-write xs block v b = (
  ap (λ n. read_words 2 n 0 (write_words 2 xs 0 block)) (sym v.count)
      ∙ read_words-write_words 2 xs 0 block v.fits (omega (arith, v.count)),
  length-write_words 2 xs 0 block ∙ b,
)

-- The remembered inode is read back, and no byte behind it changes.
pub make_super_block-write :
    (n : ℕ) (block : Block)
    → n < 256 ^ 2
    → IsBlock block
    → (make_super_block (write_super_block n block) ≡ n)
      × ((j k : ℕ) → 2 ≤ j → slice j k (write_super_block n block) ≡ slice j k block)
unfolding make_super_block write_super_block
make_super_block-write n block h b = (
  ap from_bytes (
        ap (λ k. slice 0 k (write_super_block n block)) (sym (length-to_bytes 2 n))
        ∙ slice-splice_self block 0 (to_bytes 2 n) (omega (arith, length-to_bytes 2 n)))
      ∙ from_bytes-to_bytes 2 n h,
  λ j k le. slice-splice_after block 0 (to_bytes 2 n) j k (omega (arith, length-to_bytes 2 n)),
)
