-- ===== src/Listing.antt =====
-- The listing of a directory: searchINodeDirectoryEntries of src/trav/directory.c without a name, and
-- readDirectory of src/interface/read.c. What the callback `filler` gets is a list of names.
pub mod Round
pub mod Names
pub mod Entries
pub mod Last
pub mod Remove
pub mod Locks
use naofs.Prelude.{
  ℕ, zero, suc, ◌+◌, ◌*◌, ◌-◌, ◌/◌, Option, none, some, List, [], ◌∷◌, ◌++◌, take, drop, replicate,
  ltb, false, true, if◌then◌else◌, ℤ, pos, negsuc,
}
use naofs.Params.{block_size, directory_entry_size}
use naofs.Disk.{Disk, fetch}
use naofs.Inode.{InCoreINode}
use naofs.Pool.{Ptr}
use naofs.Cache.{Run, done, fault, deadlock}
use naofs.Tree.{BmapResponse, bmap, read_mode}
use naofs.Directory.{DirectoryEntry, validate_search, entries_in_block, collect_block}
use naofs.System.{Env, M, pure, ◌>>=◌, ◌>>◌, inode_at, iput_at}
use naofs.Namei.{cleared_entry, get_file_inode}
use naofs.Unlink.{c_string}
use naofs.Io.{disk_now}

-- `checkInBlock` without a name: how many entries, and the buffer from where they go on.
unfoldable pub collect_in_block :
    (till_end : ℕ) → BmapResponse → List DirectoryEntry → Disk → ℕ × List DirectoryEntry
unfolding entries_in_block collect_block
collect_in_block till_end r buffer d = (
  entries_in_block till_end r,
  collect_block (entries_in_block till_end r) (fetch d r.block_number) r.byte_offset_in_block
      buffer,
)

-- The `while` of `searchINodeDirectoryEntries` without a name. Each round goes one block on and
-- `bmap` refuses an offset past the end, so one round more than there are blocks is enough.
unfoldable pub collect_loop :
    ℕ
    → (now : ℕ) → InCoreINode
    → (wanted read offset : ℕ) → List DirectoryEntry
    → Disk
    → ℕ × List DirectoryEntry
unfolding collect_in_block
collect_loop zero now c wanted read offset buffer d = (read, buffer)
collect_loop (suc fuel) now c wanted read offset buffer d = elim (ltb read wanted) [
  | false ↦ (read, buffer)
  | true ↦ elim (bmap now c offset read_mode d).0 [
    | none ↦ (read, buffer)
    | some r ↦
        let (n, filled) = collect_in_block (c.size - offset) r (drop read buffer) d in
        collect_loop fuel now c wanted (read + n) (offset + block_size) (take read buffer ++ filled)
          d
  ]
]

-- `searchINodeDirectoryEntries` without a name: `none` is -1.
unfoldable pub collect_inode_directory_entries :
    ℕ
    → InCoreINode
    → (offset : ℕ) → List DirectoryEntry
    → (wanted : ℕ) → Disk
    → Option (ℕ × List DirectoryEntry)
unfolding collect_loop
collect_inode_directory_entries now c offset buffer wanted d =
    let fuel = c.size / block_size + 2 in
    if validate_search c
    then some (collect_loop fuel now c wanted 0 (offset * directory_entry_size) buffer d)
    else none

abbrev pub entries_per_iteration : ℕ
entries_per_iteration = block_size / directory_entry_size

-- The calls of `filler`.
unfoldable pub names_of : List DirectoryEntry → List (List ℕ)
names_of [] = []
names_of (entry ∷ entries) = c_string entry.name ∷ names_of entries

unfoldable pub and_names : List (List ℕ) → Option (List (List ℕ)) → Option (List (List ℕ))
and_names names none = none
and_names names (some rest) = some (names ++ rest)

-- The `while` of `fillDirectoryEntries`. A round reads an entry or more. On -1 the source reads on
-- past the buffer: `none`.
unfoldable pub fill_entries_loop :
    ℕ → (now : ℕ) → InCoreINode → (entries offset : ℕ) → Disk → Option (List (List ℕ))
unfolding collect_inode_directory_entries names_of and_names
fill_entries_loop zero now c entries offset d = some []
fill_entries_loop (suc fuel) now c entries offset d = elim (ltb offset entries) [
  | false ↦ some []
  | true ↦
      elim (collect_inode_directory_entries now c offset
        (replicate entries_per_iteration cleared_entry) entries_per_iteration d) [
          | none ↦ none
          | some (n, buffer) ↦
              and_names (names_of (take n buffer))
                (fill_entries_loop fuel now c entries (offset + n) d)
        ]
]

unfoldable pub fill_directory_entries : ℕ → InCoreINode → Disk → Option (List (List ℕ))
unfolding fill_entries_loop
fill_directory_entries now c d =
    let entries = c.size / directory_entry_size in fill_entries_loop entries now c entries 0 d

-- The part of `readDirectory` behind `getFileINode`.
unfoldable pub list_found : Env → Ptr → M (ℤ × List (List ℕ))
unfolding inode_at fill_directory_entries iput_at
list_found e none = pure (negsuc 0, [])
list_found e (some node) = do
  c ← inode_at node
  d ← disk_now
  elim (fill_directory_entries e.now c d) [
    | none ↦ λ s. fault
    | some names ↦ (do iput_at e node; pure (pos 0, names))
  ]

unfoldable pub read_directory : Env → (path : List ℕ) → M (ℤ × List (List ℕ))
unfolding get_file_inode list_found
read_directory e path = do found ← get_file_inode e path; list_found e found
