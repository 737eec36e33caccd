-- ===== src/Unlink.antt =====
-- src/interface/unlink.c: the removal of a name and, with its last link, of the file.
pub mod Empty
pub mod Locks
use naofs.Prelude.{
  ℕ, zero, suc, ◌+◌, ◌-◌, ◌*◌, ◌/◌, ◌%◌, ◌^◌, Bool, true, false, none, some, List, [], ◌∷◌, ◌==◌,
  ltb, if◌then◌else◌, ◌&&◌, not, ℤ, pos, negsuc,
}
use naofs.Params.{directory_entry_size}
use naofs.Inode.{InCoreINode, t_directory}
use naofs.Pool.{Ptr}
use naofs.Cache.{Run, done, fault, deadlock}
use naofs.Directory.{DirectoryEntry, get_last_entry}
use naofs.System.{
  Env, M, pure, ◌>>=◌, ◌>>◌, target, inode_at, lock_at, unlock_at, update_metadata_at, truncate_at,
  iget_at_root, iput_at, search_at,
}
use naofs.Namei.{get_file_inode, get_parent_inode, get_filename_from_path, cleared_entry}
use naofs.Attributes.{enoent}
use naofs.Create.{name_of}

-- `-EACCES`, `-ENOTEMPTY` and `-ENOTDIR`
abbrev pub eacces : ℤ
eacces = negsuc 12

abbrev pub enotempty : ℤ
enotempty = negsuc 38

abbrev pub enotdir : ℤ
enotdir = negsuc 19

-- `retVal < 0`
abbrev pub is_negative : ℤ → Bool
is_negative (pos n) = false
is_negative (negsuc n) = true

-- What a pointer to a `char` array holds as a string; a name that fills its array ends with it here,
-- where the source would read on.
unfoldable pub c_string : List ℕ → List ℕ
c_string [] = []
c_string (c ∷ cs) = let rest = c_string cs in if c == 0 then [] else c ∷ rest

-- A link less.
unfoldable pub drop_link : Env → ℕ → M (Unit {0})
unfolding lock_at inode_at update_metadata_at unlock_at
drop_link e node = do
  lock_at node
  c ← inode_at node
  update_metadata_at e node (pos 0) ((c.links_count + 2 ^ 64 - 1) % 2 ^ 64)
  unlock_at node

-- The part of `unlinkFileFromINode` behind the search.
unfoldable pub remove_found : Env → ℕ → ℤ → DirectoryEntry → M ℤ
unfolding iget_at_root target drop_link iput_at inode_at truncate_at
remove_found e parent (pos zero) entry = pure (negsuc 0)
remove_found e parent (negsuc n) entry = pure (negsuc 0)
remove_found e parent (pos (suc n)) entry = do
  deleted ← iget_at_root entry.inode_num
  node ← target deleted
  drop_link e node
  iput_at e node
  c ← inode_at parent
  truncate_at e parent ((c.size + 2 ^ 64 - directory_entry_size) % 2 ^ 64)
  pure (pos 0)

unfoldable pub unlink_file_from_inode : Env → ℕ → (filename : List ℕ) → M ℤ
unfolding search_at remove_found
unlink_file_from_inode e parent filename = do
  (found, entry) ← search_at e parent filename e.fresh_entry true
  remove_found e parent found entry

-- The part of `unlinkFile` behind `getParentINode`.
unfoldable pub unlink_in : Env → (filename : List ℕ) → Ptr → M ℤ
unfolding lock_at unlink_file_from_inode unlock_at iput_at
unlink_in e filename none = pure enoent
unlink_in e filename (some parent) = do
  lock_at parent
  r ← unlink_file_from_inode e parent filename
  unlock_at parent
  iput_at e parent
  pure r

unfoldable pub unlink_file : Env → (path : List ℕ) → M ℤ
unfolding get_parent_inode name_of get_filename_from_path unlink_in
unlink_file e path = do
  parent ← get_parent_inode e path
  unlink_in e (name_of (get_filename_from_path path)) parent

-- A round of the `while` of `emptyDir`: 0, or what the emptying of a directory inside failed with.
-- `validate` is `validateAndEmptyDirectoryIfNeeded` with force.
unfoldable pub empty_round : Env → (validate : ℕ → M ℤ) → ℕ → M ℤ
unfolding inode_at iget_at_root target lock_at unlock_at iput_at unlink_file_from_inode c_string
empty_round e validate dir = do
  entry ←
      (λ s. done (get_last_entry e.now (s.pool.inode dir) cleared_entry e.fresh_response s.disk, s))
  found ← iget_at_root entry.inode_num
  node ← target found
  lock_at node
  c ← inode_at node
  r ← (if c.type == t_directory then validate node else pure (pos 0))
  unlock_at node
  iput_at e node
  if is_negative r
      then pure r
      else (do unlink_file_from_inode e dir (c_string entry.name); pure (pos 0))

-- The `while`: `offset` counts bytes, and `entries` is a number of entries.
unfoldable pub empty_loop : ℕ → Env → (validate : ℕ → M ℤ) → ℕ → (entries offset : ℕ) → M ℤ
unfolding empty_round
empty_loop zero e validate dir entries offset = pure (pos 0)
empty_loop (suc fuel) e validate dir entries offset = elim (ltb offset entries) [
  | false ↦ pure (pos 0)
  | true ↦ do
    r ← empty_round e validate dir
    if is_negative r
        then pure r
        else empty_loop fuel e validate dir entries (offset + directory_entry_size)
]

unfoldable pub empty_dir : Env → (validate : ℕ → M ℤ) → ℕ → M ℤ
unfolding inode_at empty_loop
empty_dir e validate dir = do
  c ← inode_at dir
  empty_loop (c.size / directory_entry_size) e validate dir (c.size / directory_entry_size)
      (2 * directory_entry_size)

-- `validateAndEmptyDirectoryIfNeeded`. `depth` bounds how deep directories lie in one another: past
-- it the calls overflow the stack, a fault.
unfoldable pub validate_and_empty : (depth : ℕ) → Env → (force : Bool) → ℕ → M ℤ
unfolding inode_at empty_dir
validate_and_empty zero e force dir = λ s. fault
validate_and_empty (suc depth) e force dir = do
  c ← inode_at dir
  if c.inode_number == 0
      then pure eacces
      else if ltb (2 * directory_entry_size) c.size && not force
      then pure enotempty
      else if not (c.type == t_directory)
      then pure enotdir
      else if force && ltb (2 * directory_entry_size) c.size
      then empty_dir e (validate_and_empty depth e true) dir
      else pure (pos 0)

unfoldable pub unlink_dir : (depth : ℕ) → Env → (path : List ℕ) → (force : Bool) → M ℤ
unfolding get_file_inode target lock_at validate_and_empty unlock_at iput_at unlink_file
unlink_dir depth e path force = do
  found ← get_file_inode e path
  node ← target found
  lock_at node
  r ← validate_and_empty depth e force node
  unlock_at node
  iput_at e node
  if is_negative r then pure r else unlink_file e path
