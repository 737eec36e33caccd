-- ===== src/Truncate.antt =====
-- src/interface/truncate.c: the change of a file's size. `truncateFile`, which looks the file up by
-- its path, is in Io.
pub mod Answers
pub mod Size
use naofs.Prelude.{
  ℕ, zero, suc, ◌+◌, ◌-◌, min, Option, none, some, splice, replicate, ltb, ◌==◌, if◌then◌else◌,
  to_int, negate,
}
use naofs.Disk.{Disk, fetch, store}
use naofs.Inode.{InCoreINode}
use naofs.Tree.{
  BmapResponse, bmap, read_mode, append_mode, update_inode_metadata, free_data_block_in_inode,
}

-- `writeNullBytes`
unfoldable pub write_null_bytes : Disk → (block_number offset bytes : ℕ) → Disk
write_null_bytes d block_number offset bytes =
    store d block_number (splice (fetch d block_number) offset (replicate bytes 0))

-- What `*bmapResp` holds behind a call whose result is not looked at.
unfoldable pub response_or : Option BmapResponse → BmapResponse → BmapResponse
response_or none old = old
response_or (some r) old = r

-- What a round of a `while` makes of the answer of `bmap`: the number of bytes, `*bmapResp`, the inode
-- and the disk.
abbrev pub Answer : Type 0
Answer = Option BmapResponse × InCoreINode × Disk

unfoldable pub increase_round :
    (now size written : ℕ) → BmapResponse → Answer → ℕ × BmapResponse × InCoreINode × Disk
increase_round now size written r (answer, c, d) =
    let r1 = response_or answer r in
    let bytes = min r1.bytes_left_in_block (size - written) in
    (
      bytes,
      r1,
      update_inode_metadata now c (to_int bytes) c.links_count,
      write_null_bytes d r1.block_number r1.byte_offset_in_block bytes,
    )

-- The `while` of `increaseFileSizeBy`; a round adds a byte or more, so the fuel is the size.
unfoldable pub increase_loop :
    ℕ
    → (now : ℕ) → InCoreINode
    → (size written offset : ℕ) → BmapResponse
    → Disk
    → InCoreINode × Disk
increase_loop zero now c size written offset r d = (c, d)
increase_loop (suc fuel) now c size written offset r d =
    let (bytes, r1, c1, d1) = increase_round now size written r (bmap now c offset append_mode d) in
    let rest = increase_loop fuel now c1 size (written + bytes) (offset + bytes) r1 d1 in
    if ltb written size then rest else (c, d)

-- `r` is what the fresh `bmapResp` holds.
unfoldable pub increase_file_size_by :
    ℕ → InCoreINode → ℕ → BmapResponse → Disk → InCoreINode × Disk
increase_file_size_by now c size r d = increase_loop size now c size 0 c.size r d

-- The last round of `decreaseFileSizeBy`, which keeps the block, and every other.
unfoldable pub decrease_last : (now bytes : ℕ) → Answer → InCoreINode × Disk
decrease_last now bytes (answer, c, d) =
    (update_inode_metadata now c (to_int (negate bytes)) c.links_count, d)

unfoldable pub decrease_round : ℕ → BmapResponse → Answer → ℕ × BmapResponse × InCoreINode × Disk
decrease_round now r (answer, c, d) =
    let r1 = response_or answer r in
    let bytes = r1.byte_offset_in_block + 1 in
    (
      bytes,
      r1,
      update_inode_metadata now c (to_int (negate bytes)) c.links_count,
      free_data_block_in_inode c r1.block_number d,
    )

-- The `while` of `decreaseFileSizeBy`; a round takes a byte or more. `left` is the source's `offset`
-- and one, the number of bytes that are left: `offset` itself goes below 0 behind the last round.
unfoldable pub decrease_loop :
    ℕ → (now : ℕ) → InCoreINode → (size reduced left : ℕ) → BmapResponse → Disk → InCoreINode × Disk
decrease_loop zero now c size reduced left r d = (c, d)
decrease_loop (suc fuel) now c size reduced left r d =
    let answer = bmap now c (left - 1) read_mode d in
    let (bytes, r1, c1, d1) = decrease_round now r answer in
    let rest = decrease_loop fuel now c1 size (reduced + bytes) (left - bytes) r1 d1 in
    if ltb reduced size
    then if ltb (size - reduced) bytes then decrease_last now (size - reduced) answer else rest
    else (c, d)

unfoldable pub decrease_file_size_by :
    ℕ → InCoreINode → ℕ → BmapResponse → Disk → InCoreINode × Disk
decrease_file_size_by now c size r d = decrease_loop size now c size 0 c.size r d

unfoldable pub truncate_inode : ℕ → InCoreINode → ℕ → BmapResponse → Disk → InCoreINode × Disk
unfolding increase_file_size_by decrease_file_size_by
truncate_inode now c size r d =
    if c.size == size
    then (c, d)
    else if ltb size c.size
    then decrease_file_size_by now c (c.size - size) r d
    else increase_file_size_by now c (size - c.size) r d
