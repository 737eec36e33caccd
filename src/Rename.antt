-- ===== src/Rename.antt =====
-- src/interface/rename.c: a new name for a file, in place of what stood under it.
pub mod Locks
use naofs.Prelude.{
  ℕ, zero, suc, ◌+◌, ◌%◌, ◌^◌, Bool, true, false, none, some, List, ◌==◌, if◌then◌else◌, ℤ, pos,
  negsuc,
}
use naofs.Inode.{t_directory}
use naofs.Pool.{Ptr}
use naofs.Directory.{DirectoryEntry}
use naofs.System.{
  Env, M, pure, ◌>>=◌, ◌>>◌, target, inode_at, lock_at, unlock_at, update_metadata_at, add_entry_at,
  iget_at_root, iput_at, search_at,
}
use naofs.Namei.{get_file_inode, get_parent_inode, get_filename_from_path}
use naofs.Attributes.{enoent}
use naofs.Create.{name_of}
use naofs.Unlink.{c_string, is_negative, unlink_file_from_inode, unlink_file, validate_and_empty}

-- The part of `removeDestinationIfExists` behind the search.
unfoldable pub remove_destination : ℕ → Env → ℕ → ℤ → DirectoryEntry → M ℤ
unfolding iget_at_root target lock_at inode_at validate_and_empty unlock_at iput_at c_string
remove_destination depth e parent (pos (suc zero)) entry = do
  found ← iget_at_root entry.inode_num
  node ← target found
  lock_at node
  c ← inode_at node
  r ← (if c.type == t_directory then validate_and_empty depth e true node else pure (pos 0))
  unlock_at node
  iput_at e node
  if is_negative r then pure r else unlink_file_from_inode e parent (c_string entry.name)
remove_destination depth e parent found entry = pure (pos 0)

unfoldable pub remove_destination_if_exists : ℕ → Env → ℕ → (filename : List ℕ) → M ℤ
unfolding search_at remove_destination
remove_destination_if_exists depth e parent filename = do
  (found, entry) ← search_at e parent filename e.fresh_entry false
  remove_destination depth e parent found entry

-- `retVal != 0`, negated.
abbrev pub is_zero : ℤ → Bool
is_zero (pos zero) = true
is_zero (pos (suc n)) = false
is_zero (negsuc n) = false

-- The end of `renameFile`: the new entry and link, and the removal of the old name.
unfoldable pub move_name :
    Env → (from : List ℕ) → (new_filename : List ℕ) → (file to_parent : ℕ) → M ℤ
unfolding lock_at inode_at add_entry_at update_metadata_at unlock_at iput_at unlink_file
move_name e from new_filename file to_parent = do
  lock_at file
  c ← inode_at file
  add_entry_at e to_parent c.inode_number new_filename
  c' ← inode_at file
  update_metadata_at e file (pos 0) ((c'.links_count + 1) % 2 ^ 64)
  unlock_at to_parent
  iput_at e to_parent
  unlock_at file
  iput_at e file
  r ← unlink_file e from
  pure (if is_zero r then pos 0 else negsuc 0)

-- The part of `renameFile` behind `getParentINode`.
unfoldable pub rename_to : ℕ → Env → (from : List ℕ) → (new_filename : List ℕ) → ℕ → Ptr → M ℤ
unfolding lock_at remove_destination_if_exists iput_at unlock_at move_name
rename_to depth e from new_filename file none = pure enoent
rename_to depth e from new_filename file (some to_parent) = do
  lock_at to_parent
  r ← remove_destination_if_exists depth e to_parent new_filename
  if is_negative r
      then (do iput_at e file; unlock_at to_parent; iput_at e to_parent; pure r)
      else move_name e from new_filename file to_parent

-- The part of `renameFile` behind `getFileINode`.
unfoldable pub rename_from : ℕ → Env → (from to : List ℕ) → Ptr → M ℤ
unfolding get_parent_inode name_of get_filename_from_path rename_to
rename_from depth e from to none = pure enoent
rename_from depth e from to (some file) = do
  to_parent ← get_parent_inode e to
  rename_to depth e from (name_of (get_filename_from_path to)) file to_parent

unfoldable pub rename_file : (depth : ℕ) → Env → (from to : List ℕ) → M ℤ
unfolding get_file_inode rename_from
rename_file depth e from to = do file ← get_file_inode e from; rename_from depth e from to file
