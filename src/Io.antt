-- ===== src/Io.antt =====
-- src/interface/open.c, close.c, read.c, write.c and the rest of truncate.c: open files and their
-- bytes. The table of open files is passed along beside the steps on the pool and the disk.
pub mod Locks
pub mod Directories
pub mod Read
pub mod Write
pub mod Overwrite
pub mod Append
pub mod Descriptors
use naofs.Prelude.{
  ℕ, zero, suc, ◌+◌, ◌-◌, ◌%◌, ◌^◌, min, Bool, true, false, Option, none, some, List, [], ◌∷◌, ◌++◌,
  take, drop, slice, splice, ltb, leb, ◌==◌, if◌then◌else◌, not, ◌&&◌, ℤ, pos, negsuc, to_int,
  int_sum,
}
use naofs.Disk.{Disk, fetch, store}
use naofs.Inode.{InCoreINode, t_directory}
use naofs.Pool.{Ptr, update}
use naofs.Cache.{Run, done, fault, deadlock, Fs, set_inode}
use naofs.Tree.{BmapResponse, bmap, read_mode, append_mode, update_inode_metadata}
use naofs.Files.{
  FileTable, FileTableEntry, create_and_get_file_descriptor, get_file_descriptor, Descriptor, entry,
  bad,
}
use naofs.System.{Env, M, pure, ◌>>=◌, ◌>>◌, inode_at, lock_at, unlock_at, iput_at, truncate_at}
use naofs.Namei.{get_file_inode}
use naofs.Attributes.{enoent}

-- `-EBADF` and `-EISDIR`
abbrev pub ebadf : ℤ
ebadf = negsuc 8

abbrev pub eisdir : ℤ
eisdir = negsuc 20

-- An `int` in a `uint64_t`.
unfoldable pub of_int : ℤ → ℕ
of_int (pos n) = n
of_int (negsuc n) = 2 ^ 64 - suc n

abbrev pub disk_now : M Disk
disk_now s = done (s.disk, s)

unfoldable pub set_both : ℕ → InCoreINode → Disk → M (Unit {0})
unfolding set_inode
set_both node c d s = done (tt, set_inode (record s { disk = d }) node c)

-- `file->offset += count`
unfoldable pub advance : FileTable → (fd count : ℕ) → FileTable
advance files fd count =
    update files fd (record (files fd) { offset = ((files fd).offset + count) % 2 ^ 64 })

-- `calculateFileOffset`: `flags && O_APPEND` holds for every flags but 0.
unfoldable pub calculate_file_offset : InCoreINode → (flags : ℕ) → ℕ
calculate_file_offset c flags = if flags == 0 then 0 else c.size

-- The part of `openFile` behind `getFileINode`: the result, `fi->fh` and the table.
unfoldable pub open_found : (flags pid fh : ℕ) → FileTable → Ptr → M (ℤ × ℕ × FileTable)
unfolding lock_at inode_at unlock_at create_and_get_file_descriptor calculate_file_offset
open_found flags pid fh files none = pure (enoent, fh, files)
open_found flags pid fh files (some node) = do
  lock_at node
  c ← inode_at node
  unlock_at node
  let (fd, files') =
      create_and_get_file_descriptor files pid node flags (calculate_file_offset c flags)
  pure (pos 0, of_int fd, files')

unfoldable pub open_file :
    Env → (path : List ℕ) → (flags pid fh : ℕ) → FileTable → M (ℤ × ℕ × FileTable)
unfolding get_file_inode open_found
open_file e path flags pid fh files = do
  found ← get_file_inode e path
  open_found flags pid fh files found

-- `closeFile`, whose error is swallowed.
unfoldable pub close_at : Env → FileTable → Descriptor → M (ℤ × FileTable)
unfolding iput_at
close_at e files bad = pure (pos 0, files)
close_at e files Descriptor.fault = λ s. fault
close_at e files (entry fd) = do
  r ← iput_at e (files fd).inode
  pure (r, update files fd (record (files fd) { valid_entry = false }))

unfoldable pub close_file : Env → (fh : ℕ) → FileTable → M (ℤ × FileTable)
unfolding get_file_descriptor close_at
close_file e fh files = close_at e files (get_file_descriptor files (to_int fh))

-- `O_RDONLY`
abbrev pub o_rdonly : ℕ
o_rdonly = 0

-- `validateFile` of an open file, whose result `readFile` overwrites.
unfoldable pub validate_file : Fs → FileTableEntry → ℤ
validate_file s file =
    if (s.pool.inode file.inode).type == t_directory
    then eisdir
    else if not (file.flags == 0) && not (o_rdonly == 0)
    then pos 0
    else ebadf

-- `readInBlock`: the bytes that are copied out. Past the end of the block there is nothing to copy.
unfoldable pub read_in_block : Disk → BmapResponse → (size : ℕ) → List ℕ
read_in_block d r size = slice r.byte_offset_in_block size (fetch d r.block_number)

-- The `while` of `readBytes`: how many bytes it counts, and the bytes in order. `bytesLeft` is signed
-- and only compared with 0, so it may stop at 0. A round reads a byte or more.
unfoldable pub read_loop :
    ℕ → (now : ℕ) → InCoreINode → (last_byte bytes_read bytes_left offset : ℕ) → Disk → ℕ × List ℕ
unfolding read_in_block
read_loop zero now c last_byte bytes_read bytes_left offset d = (bytes_read, [])
read_loop (suc fuel) now c last_byte bytes_read bytes_left offset d = elim (ltb 0 bytes_left) [
  | false ↦ (bytes_read, [])
  | true ↦ elim (bmap now c offset read_mode d).0 [
    | none ↦ (bytes_read, [])
    | some r ↦
        let bytes = min r.bytes_left_in_block (last_byte - bytes_read) in
        let (count, copied) =
          read_loop fuel now c last_byte (bytes_read + bytes) (bytes_left - bytes) (offset + bytes)
            d in
        (count, read_in_block d r bytes ++ copied)
  ]
]

-- `readBytes`. Sizes and offsets are below 2 ^ 63, where their conversion to `ssize_t` keeps them.
unfoldable pub read_bytes : (now : ℕ) → InCoreINode → (size offset : ℕ) → Disk → ℕ × List ℕ
unfolding read_loop
read_bytes now c size offset d =
    read_loop size now c (min c.size (size + offset)) 0 (min size (c.size - offset)) offset d

-- The part of `readFile` behind `getFileDescriptor`: what it returns, the bytes in `buf` and the
-- table. The result of `validateFile` is overwritten.
unfoldable pub read_at :
    Env → (size offset : ℕ) → FileTable → Descriptor → M (ℤ × List ℕ × FileTable)
unfolding lock_at inode_at unlock_at read_bytes
read_at e size offset files bad = pure (ebadf, [], files)
read_at e size offset files Descriptor.fault = λ s. fault
read_at e size offset files (entry fd) = do
  lock_at (files fd).inode
  c ← inode_at (files fd).inode
  d ← disk_now
  let (count, bytes) = read_bytes e.now c size offset d
  unlock_at (files fd).inode
  pure (to_int count, bytes, advance files fd count)

unfoldable pub read_file : Env → (size offset fh : ℕ) → FileTable → M (ℤ × List ℕ × FileTable)
unfolding get_file_descriptor read_at
read_file e size offset fh files =
    read_at e size offset files (get_file_descriptor files (to_int fh))

-- `writeToBlock`
unfoldable pub write_to_block : Disk → BmapResponse → (bytes : List ℕ) → Disk
write_to_block d r bytes =
    store d r.block_number (splice (fetch d r.block_number) r.byte_offset_in_block bytes)

-- The `if` and `else if` of the `while` of `writeToFile`. The differences are of `size_t`.
unfoldable pub write_metadata :
    (now : ℕ) → InCoreINode → (size written offset bytes : ℕ) → InCoreINode
write_metadata now c size written offset bytes =
    if offset == c.size
    then update_inode_metadata now c (to_int bytes) c.links_count
    else if ltb ((c.size + 2 ^ 64 - written) % 2 ^ 64) (size - written)
    then update_inode_metadata now c (to_int ((bytes + 2 ^ 64 - c.size) % 2 ^ 64)) c.links_count
    else c

-- The `while` of `writeToFile`: the count, the inode and the disk. A round writes a byte or more. The
-- count is the `int` `bytesWritten` as the `size_t` that it is compared and subtracted as.
unfoldable pub write_loop :
    ℕ
    → (now : ℕ) → InCoreINode
    → (buf : List ℕ) → (size written offset : ℕ) → Disk
    → ℕ × InCoreINode × Disk
unfolding write_to_block write_metadata
write_loop zero now c buf size written offset d = (written, c, d)
write_loop (suc fuel) now c buf size written offset d = elim (ltb written size) [
  | false ↦ (written, c, d)
  | true ↦
      let (answer, c', d') = bmap now c offset append_mode d in
      elim answer [
        | none ↦ (written, c', d')
        | some r ↦
            let bytes = min r.bytes_left_in_block (size - written) in
            write_loop fuel now (write_metadata now c' size written offset bytes) buf size
              (int_sum written bytes) (offset + bytes)
              (write_to_block d' r (slice written bytes buf))
      ]
]

-- The part of `writeToFile` behind `getFileDescriptor`: what it returns, and the table. A count that
-- passes 2 ^ 31 ends the loop, so its low 32 bits are what `offset` was moved by.
unfoldable pub write_at :
    Env → (buf : List ℕ) → (size offset : ℕ) → FileTable → Descriptor → M (ℤ × FileTable)
unfolding lock_at inode_at unlock_at write_loop set_both
write_at e buf size offset files bad = pure (negsuc 0, files)
write_at e buf size offset files Descriptor.fault = λ s. fault
write_at e buf size offset files (entry fd) = do
  lock_at (files fd).inode
  c ← inode_at (files fd).inode
  if ltb c.size offset then (do unlock_at (files fd).inode; pure (negsuc 0, files)) else (do
    d ← disk_now
    let (count, c', d') = write_loop size e.now c buf size 0 offset d
    set_both (files fd).inode c' d'
    unlock_at (files fd).inode
    pure (to_int count, advance files fd (count % 2 ^ 32)))

-- `writeToFile`; `fi->fh < 0` never holds of an unsigned number.
unfoldable pub write_to_file :
    Env → (buf : List ℕ) → (size offset fh : ℕ) → FileTable → M (ℤ × FileTable)
unfolding get_file_descriptor write_at
write_to_file e buf size offset fh files =
    write_at e buf size offset files (get_file_descriptor files (to_int fh))

-- The part of `truncateFile` behind `getFileINode`.
unfoldable pub truncate_found : Env → (size : ℕ) → Ptr → M ℤ
unfolding lock_at inode_at truncate_at unlock_at iput_at
truncate_found e size none = pure enoent
truncate_found e size (some node) = do
  lock_at node
  c ← inode_at node
  if c.type == t_directory
      then pure eisdir
      else (do truncate_at e node size; unlock_at node; iput_at e node; pure (pos 0))

unfoldable pub truncate_file : Env → (path : List ℕ) → (size : ℕ) → M ℤ
unfolding get_file_inode truncate_found
truncate_file e path size = do found ← get_file_inode e path; truncate_found e size found
