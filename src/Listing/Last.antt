-- ===== src/Listing/Last.antt =====
-- The last entry of a directory of one block: how it is read, and how the file loses it.
use naofs.Prelude.{
  ℕ, suc, ◌+◌, ◌-◌, ◌*◌, ◌/◌, ◌%◌, ◌^◌, ◌≡◌, ◌≢◌, ◌≤◌, ◌<◌, ap, ap₂, ◌∙◌, Option, Bool, false, some,
  if◌then◌else◌, ltb, leb, lt→ltb, ne→==-false, to_int, negate, arith,
}
use naofs.Params.{block_size, directory_entry_size}
use naofs.Disk.{Disk, fetch}
use naofs.Inode.{InCoreINode}
use naofs.Tree.{
  bmap, read_mode, BmapResponse, create_bmap_response, leaf_block, calculate_offset,
  update_inode_metadata,
}
use naofs.Tree.Bmap.{leaf-same, bmap-inside}
use naofs.Truncate.{
  truncate_inode, decrease_file_size_by, increase_file_size_by, decrease_loop, decrease_round,
  decrease_last, response_or, Answer,
}
use naofs.Directory.{DirectoryEntry, no_inode, read_entry, get_last_entry}
use naofs.Directory.Search.{first_block}

-- The last entry of a directory of one block with more than two entries.
pub get_last_entry-first :
    (now : ℕ) (c : InCoreINode) (entry : DirectoryEntry) (r : BmapResponse) (d : Disk) (m : ℕ)
    → c.size ≡ suc m * directory_entry_size
    → 2 ≤ m
    → suc m ≤ 16
    → get_last_entry now c entry r d
      ≡ read_entry (fetch d (first_block c)) (m * directory_entry_size) entry
unfolding get_last_entry response_or create_bmap_response leaf_block calculate_offset
get_last_entry-first now c entry r d m e two h =
    let off = (c.size + 2 ^ 64 - directory_entry_size) % 2 ^ 64 in
    let o : off ≡ m * directory_entry_size = omega arith in
    let first : m * directory_entry_size / block_size ≡ 0 / block_size = omega arith in
    let inside : m * directory_entry_size % block_size ≡ m * directory_entry_size = omega arith in
    let large : leb c.size (2 * directory_entry_size) ≡ false = ground arith in
    ap₂ of_answer large (
      ap (λ q. (bmap now c q read_mode d).0) o
      ∙ bmap-inside now c (m * directory_entry_size) d (omega arith)
      ∙ ap₂ (λ t q. some (create_bmap_response (leaf_block c t d) q))
          (leaf-same (m * directory_entry_size) 0 first) inside)
  where
    of_answer : Bool → Option BmapResponse → DirectoryEntry
    of_answer small a =
        let r' = response_or a r in
        read_entry (fetch d r'.block_number) r'.byte_offset_in_block
          (if small then record entry { inode_num = no_inode } else entry)

bmap-read :
    (now : ℕ) (c : InCoreINode) (offset : ℕ) (d : Disk)
    → offset < c.size
    → bmap now c offset read_mode d ≡ (
      some (create_bmap_response (leaf_block c (calculate_offset offset) d) (offset % block_size)),
      c,
      d,
    )
unfolding bmap
bmap-read now c offset d h = ground arith

-- Taking one entry off the end of a directory of one block keeps the block.
pub truncate_inode-entry :
    (now : ℕ) (c : InCoreINode) (r : BmapResponse) (d : Disk) (m : ℕ)
    → c.size ≡ suc m * directory_entry_size
    → 0 < m
    → suc m ≤ 16
    → truncate_inode now c (c.size - directory_entry_size) r d
      ≡ (update_inode_metadata now c (to_int (negate directory_entry_size)) c.links_count, d)
unfolding truncate_inode decrease_file_size_by decrease_loop decrease_round decrease_last
    response_or create_bmap_response
truncate_inode-entry now c r d m e p h =
    let size = c.size - directory_entry_size in
    let ne : c.size ≢ size = λ q. omega arith in
    let one : c.size - size ≡ directory_entry_size = omega arith in
    let answer = some (
      create_bmap_response (leaf_block c (calculate_offset (c.size - 1)) d)
        ((c.size - 1) % block_size)) in
    ap
      (λ b.
        if b
        then (c, d)
        else if ltb size c.size
        then decrease (c.size - size)
        else increase_file_size_by now c (size - c.size) r d)
      (ne→==-false c.size size ne)
    ∙ ap
        (λ b.
          if b then decrease (c.size - size) else increase_file_size_by now c (size - c.size) r d)
        (lt→ltb size c.size (omega arith))
    ∙ ap decrease one
    ∙ ap round (bmap-read now c (c.size - 1) d (omega arith))
    ∙ ap
        (λ b.
          if b then decrease_last now directory_entry_size (answer, c, d) else rest (answer, c, d))
        (lt→ltb directory_entry_size ((c.size - 1) % block_size + 1) (omega arith))
  where
    decrease : ℕ → InCoreINode × Disk
    decrease k = decrease_loop k now c k 0 c.size r d

    rest : Answer → InCoreINode × Disk
    rest a =
        let (bytes, r1, c1, d1) = decrease_round now r a in
        decrease_loop 63 now c1 64 (0 + bytes) (c.size - bytes) r1 d1

    round : Answer → InCoreINode × Disk
    round a =
        if ltb (64 - 0) (decrease_round now r a).0 then decrease_last now (64 - 0) a else rest a
