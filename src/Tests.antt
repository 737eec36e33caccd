-- ===== src/Tests.antt =====
-- The theorems applied to concrete data: a blank disk in memory, an inode, a pool of two nodes.
mod Blocks
mod Inodes
mod Memory
mod Cache
mod Directory
mod Io
mod Callbacks
mod Buffers
mod Descriptors
use naofs.Prelude.{ℕ, ◌≡◌, false, none, [], length, replicate, length-replicate, if_both, ltb}
use naofs.Params.{block_size}
use naofs.Disk.{
  Status, ok, failed, num_of_blocks_in_mem, Block, Device, Disk, get_disk_block,
  fetch_memory_disk_block, fetch,
}
use naofs.Disk.Laws.{InMemory}
use naofs.Meta.RoundTrip.{IsBlock}

abbrev pub blank_block : Block
blank_block = replicate block_size 0

pub blank_block-IsBlock : IsBlock blank_block
blank_block-IsBlock = length-replicate block_size 0

abbrev pub no_device : Device
no_device = record {
  usable = false;
  written = [];
  on_read = λ l n. none;
  on_write = λ l n b. false;
}

abbrev pub blank_disk : Disk
blank_disk = record {
  available = false;
  opened = false;
  memory = λ n. blank_block;
  device = no_device;
  junk = blank_block;
}

pub fetch-blank_IsBlock : (n : ℕ) → IsBlock (fetch blank_disk n)
unfolding fetch get_disk_block fetch_memory_disk_block
fetch-blank_IsBlock n =
    if_both (λ (r : Status × Block). length r.1 ≡ block_size) (ltb n num_of_blocks_in_mem)
      (ok, blank_block) (failed, blank_block) blank_block-IsBlock blank_block-IsBlock
