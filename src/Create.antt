-- ===== src/Create.antt =====
-- src/interface/create.c: a new file or directory.
pub mod Locks
use naofs.Prelude.{
  ℕ, zero, suc, [], Option, Bool, true, false, none, some, List, ◌==◌, if◌then◌else◌, ℤ, pos,
  negsuc, bit_or, ◌||◌,
}
use naofs.Inode.{t_regular, t_directory}
use naofs.Pool.{Ptr}
use naofs.System.{
  Env, M, pure, ◌>>=◌, ◌>>◌, target, inode_at, update_metadata_at, iget_at_root, iput_at, search_at,
  add_entry_at, new_dir_at, new_inode,
}
use naofs.Namei.{get_parent_inode, get_filename_from_path}
use naofs.Attributes.{s_ifdir}

-- `retValue > 0`
abbrev pub is_positive : ℤ → Bool
is_positive (pos zero) = false
is_positive (pos (suc n)) = true
is_positive (negsuc n) = false

unfoldable pub does_file_exist_in : Env → (filename : List ℕ) → ℕ → M Bool
unfolding search_at
does_file_exist_in e filename parent = do
  (found, entry) ← search_at e parent filename e.fresh_entry false
  pure (is_positive found)

-- The part of `validateThenGetParentINode` behind `getParentINode`: the parent keeps its reference
-- when the name is taken.
unfoldable pub parent_without : Env → (filename : List ℕ) → Ptr → M Ptr
unfolding does_file_exist_in
parent_without e filename none = pure none
parent_without e filename (some parent) = do
  taken ← does_file_exist_in e filename parent
  pure (if taken then none else some parent)

-- The name of a path without a slash is not reached: `getParentINode` faults before.
unfoldable pub name_of : Option (List ℕ) → List ℕ
name_of none = []
name_of (some filename) = filename

unfoldable pub validate_then_get_parent_inode : Env → (type : ℕ) → (path filename : List ℕ) → M Ptr
unfolding get_parent_inode parent_without
validate_then_get_parent_inode e type path filename =
    if type == t_directory || type == t_regular
    then (do parent ← get_parent_inode e path; parent_without e filename parent)
    else pure none

-- The part of `createFile` behind the new inode's number.
unfoldable pub fill_inode : Env → (type n parent : ℕ) → M ℤ
unfolding iget_at_root target update_metadata_at new_dir_at inode_at iput_at
fill_inode e type n parent = do
  found ← iget_at_root n
  node ← target found
  if type == t_regular then update_metadata_at e node (pos 0) 1 else pure tt
  c ← inode_at parent
  if type == t_directory then new_dir_at e node c.inode_number else pure tt
  iput_at e parent
  iput_at e node
  pure (pos 0)

-- The part of `createFile` behind `validateThenGetParentINode`.
unfoldable pub create_in : Env → (type mode uid gid : ℕ) → (filename : List ℕ) → Ptr → M ℤ
unfolding new_inode add_entry_at fill_inode
create_in e type mode uid gid filename none = pure (negsuc 0)
create_in e type mode uid gid filename (some parent) = do
  n ← new_inode e type (if type == t_directory then bit_or s_ifdir mode else mode) uid gid
  add_entry_at e parent n filename
  fill_inode e type n parent

unfoldable pub create_file : Env → (path : List ℕ) → (type mode uid gid : ℕ) → M ℤ
unfolding get_filename_from_path name_of validate_then_get_parent_inode create_in
create_file e path type mode uid gid = do
  let filename = name_of (get_filename_from_path path)
  parent ← validate_then_get_parent_inode e type path filename
  create_in e type mode uid gid filename parent
