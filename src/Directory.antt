-- ===== src/Directory.antt =====
-- src/trav/directory.c: directories, files of entries of 64 bytes, a name of 62 and an inode number
-- of 2.
pub mod Entry
pub mod Names
pub mod Search
pub mod Add
use naofs.Prelude.{
  ℕ, zero, suc, ◌+◌, ◌-◌, ◌*◌, ◌/◌, ◌%◌, ◌^◌, Bool, true, false, Option, none, some, List, [], ◌∷◌,
  get_or, set, slice, splice, take, drop, to_bytes, from_bytes, ltb, leb, ◌==◌, if◌then◌else◌, ◌&&◌,
  ◌||◌, not, pos,
}
use naofs.Params.{
  block_size, filename_size, inode_address_size, directory_entry_size, directory_entries_in_block,
}
use naofs.Disk.{Disk, Block, fetch, store}
use naofs.Inode.{InCoreINode}
use naofs.Tree.{BmapResponse, bmap, read_mode, append_mode, update_inode_metadata}
use naofs.Truncate.{response_or}

-- `directoryEntry`; `iNodeNum` is kept as its 64 bits.
pub record DirectoryEntry : Type 0 where
  pub name : List ℕ
  pub inode_num : ℕ

-- `(ssize_t)-1`
abbrev pub no_inode : ℕ
no_inode = 2 ^ 64 - 1

-- The two `memcpy` calls out of a block: of the number only the low bytes are written.
unfoldable pub read_entry : Block → ℕ → DirectoryEntry → DirectoryEntry
read_entry block ptr old = record {
  name = slice ptr filename_size block;
  inode_num =
      old.inode_num
      - old.inode_num % 2 ^ 16
      + from_bytes (slice (ptr + filename_size) inode_address_size block);
}

-- The two `memcpy` calls into a block.
unfoldable pub write_entry : Block → ℕ → List ℕ → ℕ → Block
write_entry block ptr name number =
    splice (splice block ptr (take filename_size name)) (ptr + filename_size)
      (to_bytes inode_address_size number)

-- `makeDirectoryTable`, with `left` entries left.
unfoldable pub make_table : ℕ → ℕ → Block → List DirectoryEntry → List DirectoryEntry
make_table zero ptr block table = []
make_table (suc left) ptr block [] = []
make_table (suc left) ptr block (old ∷ table) =
    read_entry block ptr old ∷ make_table left (ptr + directory_entry_size) block table

unfoldable pub make_directory_table : Block → List DirectoryEntry → List DirectoryEntry
unfolding make_table
make_directory_table block table = make_table directory_entries_in_block 0 block table

-- `S_ISDIR`
unfoldable pub is_dir : ℕ → Bool
is_dir mode = mode / 2 ^ 12 % 2 ^ 4 == 4

-- `validateSearch`: whether it returns 0. `!=` binds tighter than `&`, so the second test is of
-- `file_mode & 0` and never refuses.
unfoldable pub validate_search : InCoreINode → Bool
unfolding is_dir
validate_search c = is_dir c.file_mode

-- `strcmp` of the bytes from a pointer on with a string; the end of the block ends the bytes.
unfoldable pub same_name : List ℕ → List ℕ → Bool
same_name [] name = false
same_name (b ∷ bs) [] = b == 0
same_name (b ∷ bs) (c ∷ cs) = let rest = same_name bs cs in if b == c then rest else false

-- The write of `*lastEntry` over the entry that was found.
unfoldable pub replace_entry : Block → ℕ → Option DirectoryEntry → Block
unfolding write_entry
replace_entry block ptr none = block
replace_entry block ptr (some last) =
    if last.inode_num == no_inode then block else write_entry block ptr last.name last.inode_num

-- `searchBlockDirectoryEntries` for a name, with `left` entries left: whether it was found, what
-- `*entryBuffer` becomes, and the block.
unfoldable pub search_block :
    ℕ → Block → ℕ → List ℕ → DirectoryEntry → Option DirectoryEntry → Bool × DirectoryEntry × Block
unfolding replace_entry
search_block zero block ptr name buffer last = (false, buffer, block)
search_block (suc left) block ptr name buffer last =
    let rest = search_block left block (ptr + directory_entry_size) name buffer last in
    if same_name (drop ptr block) name
    then (true, read_entry block ptr buffer, replace_entry block ptr last)
    else rest

-- `searchBlockDirectoryEntries` without a name: the entries, which fill the buffer in order.
unfoldable pub collect_block : ℕ → Block → ℕ → List DirectoryEntry → List DirectoryEntry
collect_block zero block ptr buffer = buffer
collect_block (suc left) block ptr [] = []
collect_block (suc left) block ptr (old ∷ buffer) =
    read_entry block ptr old ∷ collect_block left block (ptr + directory_entry_size) buffer

-- The number of entries that `checkInBlock` looks at.
unfoldable pub entries_in_block : ℕ → BmapResponse → ℕ
entries_in_block till_end r =
    if ltb till_end r.bytes_left_in_block
    then till_end / directory_entry_size
    else r.bytes_left_in_block / directory_entry_size

-- `checkInBlock` for a name.
unfoldable pub check_in_block :
    ℕ
    → BmapResponse
    → List ℕ
    → DirectoryEntry
    → Option DirectoryEntry
    → Disk
    → Bool × DirectoryEntry × Disk
unfolding search_block entries_in_block
check_in_block till_end r name buffer last d =
    let (found, buffer', block) =
      search_block (entries_in_block till_end r) (fetch d r.block_number) r.byte_offset_in_block
        name buffer last in
    (found, buffer', if found && replaces last then store d r.block_number block else d)
  where
    replaces : Option DirectoryEntry → Bool
    replaces none = false
    replaces (some e) = not (e.inode_num == no_inode)

-- `getLastEntry`. The mark for a directory of two entries is set first, and then overwritten in its
-- low bytes like any entry; `r` and `entry` are what fresh memory holds.
unfoldable pub get_last_entry :
    ℕ → InCoreINode → DirectoryEntry → BmapResponse → Disk → DirectoryEntry
unfolding read_entry
get_last_entry now c entry r d =
    let entry' =
      if leb c.size (2 * directory_entry_size)
      then record entry { inode_num = no_inode }
      else entry in
    let offset = (c.size + 2 ^ 64 - directory_entry_size) % 2 ^ 64 in
    let r' = response_or (bmap now c offset read_mode d).0 r in
    read_entry (fetch d r'.block_number) r'.byte_offset_in_block entry'

-- The `while` of `searchINodeDirectoryEntries` for a name. Each round goes one block on and `bmap`
-- refuses an offset past the end, so one round more than there are blocks is enough.
unfoldable pub search_directory_loop :
    ℕ
    → (now : ℕ) → InCoreINode
    → ℕ
    → List ℕ
    → DirectoryEntry
    → Option DirectoryEntry
    → Disk
    → Bool × DirectoryEntry × Disk
search_directory_loop zero now c offset name buffer last d = (false, buffer, d)
search_directory_loop (suc fuel) now c offset name buffer last d =
    elim (bmap now c offset read_mode d).0 [
      | none ↦ (false, buffer, d)
      | some r ↦
          let (found, buffer', d') = check_in_block (c.size - offset) r name buffer last d in
          let rest = search_directory_loop fuel now c (offset + block_size) name buffer' last d' in
          if found then (true, buffer', d') else rest
    ]

-- `searchINodeDirectoryEntries` for a name from the first entry on: `none` is -1. `last` is the
-- result of `getLastEntry` for an unlink.
unfoldable pub search_inode_directory_entries :
    ℕ
    → InCoreINode
    → List ℕ
    → DirectoryEntry
    → Option DirectoryEntry
    → Disk
    → Option (Bool × DirectoryEntry × Disk)
search_inode_directory_entries now c name buffer last d =
    let fuel = c.size / block_size + 2 in
    if validate_search c then some (search_directory_loop fuel now c 0 name buffer last d) else none

unfoldable pub add_directory_entry : Disk → ℕ → ℕ → List ℕ → ℕ → Disk
unfolding write_entry
add_directory_entry d block_number offset filename number =
    store d block_number (write_entry (fetch d block_number) offset filename number)

-- `getAndUpdateDirectoryTable`: `none` is -1; on success the source returns no value.
unfoldable pub get_and_update_directory_table :
    ℕ → InCoreINode → ℕ → List ℕ → Disk → Option (InCoreINode × Disk)
unfolding add_directory_entry
get_and_update_directory_table now parent number filename d =
    let (answer, c, d1) = bmap now parent parent.size append_mode d in
    if validate_search parent then added answer c d1 else none
  where
    added : Option BmapResponse → InCoreINode → Disk → Option (InCoreINode × Disk)
    added none c d1 = none
    added (some r) c d1 = some (
      update_inode_metadata now c (pos directory_entry_size) c.links_count,
      add_directory_entry d1 r.block_number r.byte_offset_in_block filename number,
    )

-- `updateNewDirMetaData`, with the names `.` and `..` and what stands behind them in memory.
unfoldable pub update_new_dir_meta_data :
    ℕ → InCoreINode → ℕ → (dot dots : List ℕ) → Disk → Option (InCoreINode × Disk)
unfolding add_directory_entry
update_new_dir_meta_data now inode parent_number dot dots d =
    let (answer, c, d1) = bmap now inode inode.size append_mode d in added answer c d1
  where
    added : Option BmapResponse → InCoreINode → Disk → Option (InCoreINode × Disk)
    added none c d1 = none
    added (some r) c d1 =
        let d2 = add_directory_entry d1 r.block_number r.byte_offset_in_block dot c.inode_number in
        some (
          update_inode_metadata now c (pos (2 * directory_entry_size)) 2,
          add_directory_entry d2 r.block_number (r.byte_offset_in_block + directory_entry_size) dots
              parent_number,
        )
