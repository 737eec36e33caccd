-- ===== src/InodeList.antt =====
-- src/mkfs/ialloc.c and ifree.c: handing out inode numbers and taking them back. Block 3 holds 512
-- numbers, zeros in front; block 1 remembers where a search for more would begin.
pub mod Scan
use naofs.Prelude.{
  ℕ, zero, suc, ◌+◌, ◌-◌, ◌^◌, List, [], ◌∷◌, Bool, true, false, not, set, get_or, ltb, ◌==◌,
  if◌then◌else◌, Option, none, some,
}
use naofs.Params.{inode_nos_per_block, super_block, inode_list_block}
use naofs.Disk.{Disk, Block, fetch, store}
use naofs.Meta.{make_super_block, write_super_block, make_inode_list_block, write_inode_list_block}
use naofs.InodeTable.{search_inodes, update_inode_data}

-- `return -1` from a function that returns `size_t`.
abbrev pub minus_one : ℕ
minus_one = 2 ^ 64 - 1

-- The `while` of `checkAndGetFreeINode`: how many numbers it reads, and the last one read.
unfoldable pub scan : List ℕ → ℕ × ℕ
scan [] = (0, 0)
scan (x ∷ xs) = let (counter, free) = scan xs in if x == 0 then (counter + 1, free) else (1, x)

unfoldable pub check_and_get_free_inode : List ℕ → ℕ × List ℕ
check_and_get_free_inode nos =
    let (counter, free) = scan nos in
    if counter == inode_nos_per_block then (minus_one, nos) else (free, set nos (counter - 1) 0)

unfoldable pub fetch_free_inodes : Disk → List ℕ → List ℕ × Disk
fetch_free_inodes d nos =
    let buffer = fetch d super_block in
    let (remembered, nos') = search_inodes d (make_super_block buffer) nos in
    (nos', store d super_block (write_super_block remembered buffer))

-- The part of `getNewINode` behind the choice of the number.
unfoldable pub take_inode : Disk → (now type mode uid gid free : ℕ) → List ℕ → Block → ℕ × Disk
take_inode d now type mode uid gid free nos buffer =
    let d' = update_inode_data d now free type mode uid gid 0 0 in
    (free, store d' inode_list_block (write_inode_list_block nos buffer))

unfoldable pub get_new_inode : Disk → (now type mode uid gid : ℕ) → ℕ × Disk
unfolding take_inode fetch_free_inodes
get_new_inode d now type mode uid gid =
    let buffer = fetch d inode_list_block in
    let (free, nos) = check_and_get_free_inode (make_inode_list_block buffer) in
    let (nos2, d2) = fetch_free_inodes d nos in
    let (free3, nos3) = check_and_get_free_inode nos2 in
    if free == 0
    then take_inode d2 now type mode uid gid free3 nos3 buffer
    else take_inode d now type mode uid gid free nos buffer

-- Where the `while` of `saveInListIfPossible` stops: at the first number that is not zero.
unfoldable pub first_used : List ℕ → ℕ
first_used [] = 0
first_used (x ∷ xs) = let rest = suc (first_used xs) in if x == 0 then rest else 0

-- The list, and whether it was saved. At the end of the list nothing is written.
unfoldable pub save_in_list_if_possible : ℕ → List ℕ → Bool × List ℕ
save_in_list_if_possible n nos =
    let counter = first_used nos in
    if counter == 0
    then (false, nos)
    else (true, if counter == inode_nos_per_block then nos else set nos (counter - 1) n)

unfoldable pub remember_if_needed : Disk → ℕ → List ℕ → Disk
remember_if_needed d n nos =
    let buffer = fetch d super_block in
    if ltb (get_or nos (inode_nos_per_block - 1) 0) n
    then d
    else store d super_block (write_super_block n buffer)

unfoldable pub free_inode : Disk → ℕ → ℕ → Disk
unfolding remember_if_needed
free_inode d now n =
    let d' = update_inode_data d now n 0 0 0 0 0 0 in
    let buffer = fetch d' inode_list_block in
    let nos = make_inode_list_block buffer in
    let (saved, nos') = save_in_list_if_possible n nos in
    if saved
    then store d' inode_list_block (write_inode_list_block nos' buffer)
    else remember_if_needed d' n nos
