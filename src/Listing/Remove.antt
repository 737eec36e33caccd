-- ===== src/Listing/Remove.antt =====
-- What the removal of a name leaves of a directory of one block.
use naofs.Prelude.{
  ℕ, suc, ◌+◌, ◌-◌, ◌*◌, ◌/◌, ◌%◌, ◌^◌, ◌≡◌, ◌≤◌, ◌<◌, sym, ap, ap₂, ◌∙◌, true, false, some, List,
  take, drop, slice, slice-all, set, length, length-slice, ◌==◌, to_int, negate, add_int, arith,
}
use naofs.Params.{filename_size, directory_entry_size}
use naofs.Disk.{Disk, fetch, store, num_of_blocks_in_mem}
use naofs.Disk.Laws.{InMemory, fetch-store_self}
use naofs.Inode.{InCoreINode}
use naofs.Meta.RoundTrip.{IsBlock}
use naofs.Tree.{BmapResponse, update_inode_metadata}
use naofs.Truncate.{truncate_inode}
use naofs.Directory.{
  DirectoryEntry, no_inode, is_dir, same_name, read_entry, write_entry, get_last_entry,
  search_inode_directory_entries,
}
use naofs.Directory.Names.{same_name-entry}
use naofs.Directory.Add.{NotIn}
use naofs.Directory.Search.{first_block, search_inode-found}
use naofs.Unlink.{c_string}
use naofs.Listing.{fill_directory_entries}
use naofs.Listing.Round.{name_at, names_from}
use naofs.Listing.Names.{fill_directory_entries-names}
use naofs.Listing.Entries.{
  entry_names, names_from-first, entry_names-take, slice-over, entry_names-over, name_at-first,
}
use naofs.Listing.Last.{get_last_entry-first, truncate_inode-entry}

take-whole : (n : ℕ) (xs : List ℕ) → length xs ≡ n → take n xs ≡ xs
unfolding slice
take-whole n xs h = ap (λ k. take k xs) (sym h) ∙ slice-all xs

-- Removing a name from a directory of one block, as an unlink does it: the search writes the
-- last entry over the first one with the name, and the file then loses an entry at its end. The
-- listing afterwards is the one before with the last name in the place of the removed one and
-- without its end. The directory has from 3 to 16 entries and lies on the disk in memory in a
-- block of full length, the name is shorter than the 62 bytes of an entry, and the number of the
-- last entry is not the mark -1.
pub search-truncate_names :
    (now : ℕ) (c : InCoreINode) (name : List ℕ) (buffer entry : DirectoryEntry) (r : BmapResponse)
    (d : Disk) (m i : ℕ)
    → InMemory d
    → first_block c < num_of_blocks_in_mem
    → IsBlock (fetch d (first_block c))
    → is_dir c.file_mode ≡ true
    → c.size ≡ suc m * directory_entry_size
    → 2 ≤ m
    → m < 16
    → i ≤ m
    → length name < filename_size
    → NotIn (fetch d (first_block c)) name i
    → same_name (slice (i * directory_entry_size) filename_size (fetch d (first_block c))) name
      ≡ true
    → ((get_last_entry now c entry r d).inode_num == no_inode) ≡ false
    → let last = get_last_entry now c entry r d in
      let names = names_from c d 0 (suc m) in
      (d' : Disk) × (c' : InCoreINode) × (search_inode_directory_entries now c name buffer
          (some last)
          d
        ≡ some (true, read_entry (fetch d (first_block c)) (i * directory_entry_size) buffer, d'))
      × (truncate_inode now c (c.size - directory_entry_size) r d' ≡ (c', d'))
      × (fill_directory_entries now c d ≡ some names)
      × (fill_directory_entries now c' d' ≡ some (take m (set names i (name_at c d m))))
unfolding update_inode_metadata to_int negate add_int read_entry
search-truncate_names now c name buffer entry r d m i mem f b v e two h le n none_of found u =
    let block = fetch d (first_block c) in
    let whole = slice (m * directory_entry_size) filename_size block in
    let last = read_entry block (m * directory_entry_size) entry in
    let is_last = get_last_entry-first now c entry r d m e two h in
    let at : 0 + i * directory_entry_size ≡ i * directory_entry_size = omega arith in
    let long : length whole ≡ filename_size =
      length-slice (m * directory_entry_size) filename_size block (omega arith) in
    let full : take filename_size whole ≡ whole = take-whole filename_size whole long in
    let fits : length (take filename_size whole) ≡ filename_size = ap length full ∙ long in
    let w = write_entry block (i * directory_entry_size) whole last.inode_num in
    let d' = store d (first_block c) w in
    let c' = update_inode_metadata now c (to_int (negate directory_entry_size)) c.links_count in
    let seen : (k : ℕ)
        → same_name (drop (0 + k * directory_entry_size) block) name
          ≡ same_name (slice (k * directory_entry_size) filename_size block) name =
      λ k. same_name-entry block name k n in
    let size : c.size / directory_entry_size ≡ suc m = omega arith in
    let size' : (c.size + 2 ^ 64 - directory_entry_size) % 2 ^ 64 / directory_entry_size ≡ m =
      omega arith in
    (
      d',
      c',
      ap (λ z. search_inode_directory_entries now c name buffer (some z) d) is_last
          ∙ search_inode-found now c name buffer d i (suc m) v e h (omega arith)
              (λ k lt. seen k ∙ none_of k lt) (seen i ∙ found) (some last)
              (ap (λ z. z.inode_num == no_inode) (sym is_last) ∙ u)
          ∙ ap
              (λ q. some (
                true,
                read_entry block q buffer,
                store d (first_block c) (write_entry block q whole last.inode_num),
              ))
              at,
      truncate_inode-entry now c r d' m e (omega arith) h,
      fill_directory_entries-names now c d v ∙ ap (λ k. some (names_from c d 0 k)) size,
      fill_directory_entries-names now c' d' v
          ∙ ap (λ k. some (names_from c' d' 0 k)) size'
          ∙ ap some (
              names_from-first m c' d' 0 (omega arith)
              ∙ ap (λ bs. entry_names bs 0 m) (fetch-store_self d (first_block c) w mem f)
              ∙ sym (entry_names-take m (suc m) w 0 (omega arith))
              ∙ ap (take m) (
                  entry_names-over block i last.inode_num whole b fits (suc m) i 0 (omega arith)
                    (slice-over block i last.inode_num whole b fits (omega arith))
                  ∙ ap₂ (λ l s. set l i s) (sym (names_from-first (suc m) c d 0 (omega arith)))
                      (ap c_string full ∙ sym (name_at-first c d m h)))),
    )
