-- ===== src/Disk/Laws.antt =====
-- The disk as the rest of the program relies on it: a block that was stored is fetched, and no other
-- block changes. The laws are those of the in-memory disk, which runs when no device was set up.
use naofs.Prelude.{ℕ, ◌≤◌, ◌<◌, ◌≡◌, ◌≢◌, false, arith, ==-refl, ne→==-false}
use naofs.Disk.{
  Block, Disk, failed, num_of_blocks_in_mem, update_block, get_disk_block, write_disk_block, fetch,
  store,
}

-- `isDiskAvailable` is false: blocks are kept in the array `mem_disk`.
abbrev pub InMemory : Disk → Type 0
InMemory d = d.available ≡ false

module _ (d : Disk) (n : ℕ) (block : Block) where
  pub InMemory-store : InMemory d → InMemory (store d n block)
  unfolding store
  InMemory-store m = ground arith

  pub junk-store : (store d n block).junk ≡ d.junk
  unfolding store
  junk-store = ground arith

  -- What was stored at a number in range is fetched.
  pub fetch-store_self : InMemory d → n < num_of_blocks_in_mem → fetch (store d n block) n ≡ block
  unfolding store fetch update_block
  fetch-store_self m h = ground (arith, ==-refl n)

  -- On a disk in memory, a write to one number leaves every other block as it was.
  pub fetch-store_ne : (k : ℕ) → InMemory d → k ≢ n → fetch (store d n block) k ≡ fetch d k
  unfolding store fetch update_block
  fetch-store_ne k m h = ground (arith, ne→==-false k n h)

  -- On a disk in memory, a block number past the end of the array is refused by both functions,
  -- and nothing changes.
  pub out_of_range :
      InMemory d
      → num_of_blocks_in_mem ≤ n
      → (write_disk_block d n block ≡ (failed, d)) × (get_disk_block d n block ≡ (failed, block))
  unfolding write_disk_block get_disk_block
  out_of_range m h = (ground arith, ground arith)
