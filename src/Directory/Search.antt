-- ===== src/Directory/Search.antt =====
-- The search for a name in a directory of one block: the first entry that has it is found.
use naofs.Prelude.{
  Option, ◌≤◌, ℕ, suc, ◌+◌, ◌-◌, ◌*◌, ◌/◌, ◌≡◌, ◌<◌, ap, ◌∙◌, Bool, ◌&&◌, not, ◌==◌, true, false,
  none, some, List, drop, get_or, if◌then◌else◌, arith,
}
use naofs.Params.{block_size, directory_entry_size}
use naofs.Disk.{Disk, fetch, store}
use naofs.Inode.{InCoreINode}
use naofs.Tree.{BmapResponse, create_bmap_response, leaf_block, calculate_offset}
use naofs.Tree.Bmap.{bmap-inside}
use naofs.Directory.{
  DirectoryEntry, no_inode, replace_entry, is_dir, validate_search, same_name, read_entry,
  write_entry, check_in_block, entries_in_block, search_directory_loop,
  search_inode_directory_entries, search_block,
}
use naofs.Directory.Names.{search_block-first}

-- The number of the first block of a directory.
abbrev pub first_block : InCoreINode → ℕ
first_block c = get_or c.data_block_nums 0 0

-- The entry that is to replace another does not carry the mark -1.
abbrev pub IsMarkless : Option DirectoryEntry → Type 0
IsMarkless none = Unit
IsMarkless (some last) = (last.inode_num == no_inode) ≡ false

-- The search in a directory of one block with `n` entries, of which `k` is the first with the name.
module _ (now : ℕ) (c : InCoreINode) (name : List ℕ) (buffer : DirectoryEntry) (d : Disk) (k n : ℕ)
    (v : is_dir c.file_mode ≡ true) (e : c.size ≡ n * directory_entry_size) (h : n ≤ 16)
    (lt : k < n)
    (before : (i : ℕ)
      → i < k
      → same_name (drop (0 + i * directory_entry_size) (fetch d (first_block c))) name ≡ false)
    (found : same_name (drop (0 + k * directory_entry_size) (fetch d (first_block c))) name
      ≡ true) where
  abbrev pub found_entry : DirectoryEntry
  found_entry = read_entry (fetch d (first_block c)) (0 + k * directory_entry_size) buffer

  -- The disk behind a search that may write another entry over the one it finds.
  abbrev pub replaced : Option DirectoryEntry → Disk
  replaced none = d
  replaced (some last) = store d (first_block c) (
      write_entry (fetch d (first_block c)) (0 + k * directory_entry_size) last.name last.inode_num)

  all_entries : entries_in_block (c.size - 0) (create_bmap_response (first_block c) 0) ≡ n
  unfolding entries_in_block create_bmap_response
  all_entries = ground arith

  search_block-found :
      (last : Option DirectoryEntry)
      → search_block
          (entries_in_block (c.size - 0) (create_bmap_response (first_block c) 0))
          (fetch d (first_block c))
          0
          name
          buffer
          last
        ≡ (
          true,
          found_entry,
          replace_entry (fetch d (first_block c)) (0 + k * directory_entry_size) last,
        )
  search_block-found last =
      ap (λ m. search_block m (fetch d (first_block c)) 0 name buffer last) all_entries
      ∙ search_block-first n k 0 (fetch d (first_block c)) name buffer last lt before found

  check_in_block-found :
      (last : Option DirectoryEntry)
      → IsMarkless last
      → check_in_block (c.size - 0) (create_bmap_response (first_block c) 0) name buffer last d
        ≡ (true, found_entry, replaced last)
  unfolding check_in_block create_bmap_response replace_entry
  check_in_block-found none u =
      ap
        (λ (q : Bool × DirectoryEntry × List ℕ).
          (q.0, q.1, if q.0 && false then store d (first_block c) q.2 else d))
        (search_block-found none)
  check_in_block-found (some last) u =
      let w =
        write_entry (fetch d (first_block c)) (0 + k * directory_entry_size) last.name
          last.inode_num in
      ap
        (λ (q : Bool × DirectoryEntry × List ℕ). (
          q.0,
          q.1,
          if q.0 && not (last.inode_num == no_inode) then store d (first_block c) q.2 else d,
        ))
        (search_block-found (some last))
      ∙ ap
          (λ b. (
            true,
            found_entry,
            if true && not b
                then store d (first_block c) (if b then fetch d (first_block c) else w)
                else d,
          ))
          u

  search_directory_loop-found :
      (fuel : ℕ) (last : Option DirectoryEntry)
      → IsMarkless last
      → search_directory_loop (suc fuel) now c 0 name buffer last d
        ≡ (true, found_entry, replaced last)
  unfolding search_directory_loop leaf_block calculate_offset
  search_directory_loop-found fuel last u =
      ap (λ a. elim a [ none ↦ (false, buffer, d) | some r ↦ further r ])
        (bmap-inside now c 0 d (omega arith))
      ∙ ap finish (check_in_block-found last u)
    where
      finish : Bool × DirectoryEntry × Disk → Bool × DirectoryEntry × Disk
      finish q =
          let (found, buffer', d') = q in
          let rest = search_directory_loop fuel now c (0 + block_size) name buffer' last d' in
          if found then (true, buffer', d') else rest

      further : BmapResponse → Bool × DirectoryEntry × Disk
      further r = finish (check_in_block (c.size - 0) r name buffer last d)

  pub search_inode-found :
      (last : Option DirectoryEntry)
      → IsMarkless last
      → search_inode_directory_entries now c name buffer last d
        ≡ some (true, found_entry, replaced last)
  unfolding search_inode_directory_entries validate_search
  search_inode-found last u =
      let fuel : c.size / block_size + 2 ≡ suc (c.size / block_size + 1) = omega arith in
      ap
        (λ b.
          if b
          then some (search_directory_loop (c.size / block_size + 2) now c 0 name buffer last d)
          else none)
        v
      ∙ ap (λ f. some (search_directory_loop f now c 0 name buffer last d)) fuel
      ∙ ap some (search_directory_loop-found (c.size / block_size + 1) last u)
