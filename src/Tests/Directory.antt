-- ===== src/Tests/Directory.antt =====
-- Directories of two and three entries, in a blank block.
use naofs.Prelude.{
  ap, ◌==◌, false, set, from_bytes, ◌≡◌, refl, zero, suc, [], ◌∷◌, none, some, true, slice,
  replicate, take, arith,
}
use naofs.Params.{filename_size}
use naofs.Disk.{Disk, fetch, get_disk_block, fetch_memory_disk_block}
use naofs.Inode.{InCoreINode, t_directory}
use naofs.Pool.{zero_in_core}
use naofs.Directory.{
  get_last_entry, no_inode, read_entry, DirectoryEntry, is_dir, same_name,
  get_and_update_directory_table, search_inode_directory_entries,
}
use naofs.Directory.Add.{NotIn, get_and_update-search}
use naofs.Listing.{fill_directory_entries}
use naofs.Listing.Round.{name_at, names_from}
use naofs.Listing.Last.{get_last_entry-first}
use naofs.Listing.Remove.{search-truncate_names}
use naofs.Truncate.{truncate_inode}
use naofs.Tree.{BmapResponse}
use naofs.Listing.Names.{fill_directory_entries-names}
use naofs.Tests.{blank_disk, fetch-blank_IsBlock}

abbrev cleared : DirectoryEntry
cleared = record { name = replicate filename_size 0; inode_num = 0 }

abbrev two_entries : InCoreINode
two_entries = record zero_in_core {
  type = t_directory;
  file_mode = 16877;
  size = 128;
  data_block_nums = 7 ∷ replicate 12 0;
}

no_names : NotIn (fetch blank_disk 7) (97 ∷ []) 2
unfolding fetch get_disk_block fetch_memory_disk_block slice take replicate same_name
no_names zero h = refl
no_names (suc zero) h = refl
no_names (suc (suc i)) h = absurd (omega arith)

get_and_update-search_example :
    (c' : InCoreINode) × (d' : Disk) × (get_and_update_directory_table 9 two_entries 700
        (97 ∷ 0 ∷ replicate 80 5)
        blank_disk
      ≡ some (c', d'))
    × (search_inode_directory_entries 9 c' (97 ∷ []) cleared none d'
        ≡ some (
          true,
          record { name = take filename_size (97 ∷ 0 ∷ replicate 80 5); inode_num = 700 },
          d',
        ))
unfolding take replicate is_dir
get_and_update-search_example =
    get_and_update-search 9 700 (97 ∷ []) (replicate 80 5) two_entries cleared blank_disk 2 refl
      (omega arith) (fetch-blank_IsBlock 7) refl refl (omega arith) (omega arith) (omega arith) refl
      (omega arith) (omega arith) no_names

fill_directory_entries-names_example :
    fill_directory_entries 9 two_entries blank_disk ≡ some (names_from two_entries blank_disk 0 2)
unfolding is_dir
fill_directory_entries-names_example = fill_directory_entries-names 9 two_entries blank_disk refl

abbrev three_entries : InCoreINode
three_entries = record two_entries { size = 192 }

abbrev any_response : BmapResponse
any_response = record { block_number = 0; byte_offset_in_block = 0; bytes_left_in_block = 0 }

last_unmarked :
    ((get_last_entry 9 three_entries cleared any_response blank_disk).inode_num == no_inode) ≡ false
unfolding fetch get_disk_block fetch_memory_disk_block slice take replicate read_entry from_bytes
last_unmarked =
    ap (λ (z : DirectoryEntry). z.inode_num == no_inode)
      (get_last_entry-first 9 three_entries cleared any_response blank_disk 2 refl (omega arith)
        (omega arith))

first_unnamed : same_name (slice 0 filename_size (fetch blank_disk 7)) [] ≡ true
unfolding fetch get_disk_block fetch_memory_disk_block slice take replicate same_name
first_unnamed = refl

search-truncate_names_example :
    let last = get_last_entry 9 three_entries cleared any_response blank_disk in
    let names = names_from three_entries blank_disk 0 3 in
    (d' : Disk) × (c' : InCoreINode) × (search_inode_directory_entries 9 three_entries [] cleared
        (some last)
        blank_disk
      ≡ some (true, read_entry (fetch blank_disk 7) 0 cleared, d'))
    × (truncate_inode 9 three_entries 128 any_response d' ≡ (c', d'))
    × (fill_directory_entries 9 three_entries blank_disk ≡ some names)
    × (fill_directory_entries 9 c' d'
        ≡ some (take 2 (set names 0 (name_at three_entries blank_disk 2))))
unfolding is_dir
search-truncate_names_example =
    search-truncate_names 9 three_entries [] cleared cleared any_response blank_disk 2 0 refl
      (omega arith) (fetch-blank_IsBlock 7) refl refl (omega arith) (omega arith) (omega arith)
      (omega arith) (λ i h. absurd (omega arith)) first_unnamed last_unmarked
