-- ===== src/Disk.antt =====
-- src/dsk/mdisk.c, diskAccess.c and blkfetch.c: blocks of bytes, in memory or on a device.
-- A function that fills `*blockData` returns the buffer beside its `int`: on an error the buffer is
-- the one that the caller passed.

pub mod Laws
use naofs.Prelude.{ℕ, Bool, true, Option, none, some, List, ◌∷◌, ltb, ◌==◌, if◌then◌else◌}
use naofs.Params.{num_of_blocks}

-- `disk_block`: `BLOCK_SIZE` bytes.
abbrev pub Block : Type 0
Block = List ℕ

abbrev pub num_of_blocks_in_mem : ℕ
num_of_blocks_in_mem = 65536

-- The device behind `devFD`: what its `read` and `write` answer may depend on every block written
-- before. `none` is a short read, `false` a failed write; `usable` is what `access` says.
pub record Device : Type 0 where
  pub usable : Bool
  pub written : List (ℕ × Block)
  pub on_read : List (ℕ × Block) → ℕ → Option Block
  pub on_write : List (ℕ × Block) → ℕ → Block → Bool

-- The static variables of the three files: `opened` is `devName != NULL`. `junk` is what a buffer
-- from `malloc` holds before it is filled.
pub record Disk : Type 0 where
  pub available : Bool
  pub opened : Bool
  pub memory : ℕ → Block
  pub device : Device
  pub junk : Block

-- The `int` that a function of the disk returns.
pub data Status : Type 0 where
  ok failed : Status

unfoldable pub update_block : (ℕ → Block) → ℕ → Block → ℕ → Block
update_block blocks n block m = if m == n then block else blocks m

unfoldable pub fetch_memory_disk_block : Disk → ℕ → Block → Status × Block
fetch_memory_disk_block d n buffer =
    if ltb n num_of_blocks_in_mem then (ok, d.memory n) else (failed, buffer)

unfoldable pub write_memory_disk_block : Disk → ℕ → Block → Status × Disk
write_memory_disk_block d n block =
    if ltb n num_of_blocks_in_mem
    then (ok, record d { memory = update_block d.memory n block })
    else (failed, d)

unfoldable pub init_device_accessor : Disk → Status × Disk
init_device_accessor d =
    if d.opened
    then (failed, d)
    else if d.device.usable
    then (ok, record d { opened = true })
    else (failed, d)

-- `fetchDeviceDiskBlock` for a value of `NUM_OF_BLOCKS`.
abbrev pub fetch_device_disk_block_of : (blocks : ℕ) → Disk → ℕ → Block → Status × Block
fetch_device_disk_block_of blocks d n buffer =
    if ltb n blocks
    then elim (d.device.on_read d.device.written n) [
      | none ↦ (failed, buffer)
      | some block ↦ (ok, block)
    ]
    else (failed, buffer)

unfoldable pub fetch_device_disk_block : Disk → ℕ → Block → Status × Block
fetch_device_disk_block d n buffer = fetch_device_disk_block_of num_of_blocks d n buffer

unfoldable pub write_device_disk_block : Disk → ℕ → Block → Status × Disk
write_device_disk_block d n block =
    if ltb n num_of_blocks
    then if d.device.on_write d.device.written n block
      then (ok, record d { device = record dev { written = (n, block) ∷ dev.written } })
      else (failed, d)
    else (failed, d)
  where
    dev : Device
    dev = d.device

unfoldable pub setup_disk : Disk → Status × Disk
unfolding init_device_accessor
setup_disk d = if d.available then (failed, d) else opening (init_device_accessor d)
  where
    opening : Status × Disk → Status × Disk
    opening (ok, d') = (ok, record d' { available = true })
    opening (failed, d') = (failed, d')

-- `getDiskBlock` for a value of `NUM_OF_BLOCKS`.
unfoldable pub get_disk_block_of : (blocks : ℕ) → Disk → ℕ → Block → Status × Block
unfolding fetch_memory_disk_block
get_disk_block_of blocks d n buffer =
    if d.available
    then fetch_device_disk_block_of blocks d n buffer
    else fetch_memory_disk_block d n buffer

unfoldable pub get_disk_block : Disk → ℕ → Block → Status × Block
unfolding get_disk_block_of
get_disk_block d n buffer = get_disk_block_of num_of_blocks d n buffer

unfoldable pub write_disk_block : Disk → ℕ → Block → Status × Disk
unfolding write_device_disk_block write_memory_disk_block
write_disk_block d n block =
    if d.available then write_device_disk_block d n block else write_memory_disk_block d n block

-- The calls as every other file makes them: the status is dropped, the buffer is fresh.
unfoldable pub fetch : Disk → ℕ → Block
unfolding get_disk_block
fetch d n = (get_disk_block d n d.junk).1

unfoldable pub store : Disk → ℕ → Block → Disk
unfolding write_disk_block
store d n block = (write_disk_block d n block).1
