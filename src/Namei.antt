-- ===== src/Namei.antt =====
-- src/trav/namei.c, and the paths of src/utils/utils.c: from a path to its inode. A path is the list
-- of its bytes in front of the NUL.
pub mod Split
pub mod Locks
pub mod Walk
pub mod Names
pub mod Parent
use naofs.Prelude.{
  ℕ, zero, suc, Bool, true, false, Option, none, some, List, [], ◌∷◌, drop, length, replicate, ◌==◌,
  if◌then◌else◌, ◌||◌, ℤ, pos, negsuc,
}
use naofs.Params.{filename_size}
use naofs.Inode.{InCoreINode}
use naofs.Pool.{Ptr}
use naofs.Cache.{Run, done, fault, deadlock, Fs}
use naofs.Directory.{DirectoryEntry}
use naofs.System.{Env, M, pure, ◌>>=◌, ◌>>◌, target, iget_at_root, iput_at, search_at}

-- '/'
abbrev pub slash : ℕ
slash = 47

-- A byte in front of a path, with the split of the path.
unfoldable pub extend_split : ℕ → List ℕ → Option (List ℕ × List ℕ) → Option (List ℕ × List ℕ)
extend_split c cs none = if c == slash then some (c ∷ [], cs) else none
extend_split c cs (some (dir, file)) = some (c ∷ dir, file)

-- The split that `strrchr(path, '/') + 1` points to. Without a slash the source goes on from NULL.
unfoldable pub split_last : List ℕ → Option (List ℕ × List ℕ)
unfolding extend_split
split_last [] = none
split_last (c ∷ cs) = extend_split c cs (split_last cs)

unfoldable pub first_part : Option (List ℕ × List ℕ) → Option (List ℕ)
first_part none = none
first_part (some (dir, file)) = some dir

unfoldable pub second_part : Option (List ℕ × List ℕ) → Option (List ℕ)
second_part none = none
second_part (some (dir, file)) = some file

unfoldable pub get_parent_directory : List ℕ → Option (List ℕ)
unfolding split_last first_part
get_parent_directory path = first_part (split_last path)

unfoldable pub get_filename_from_path : List ℕ → Option (List ℕ)
unfolding split_last second_part
get_filename_from_path path = second_part (split_last path)

-- `checkAndGetLen`: the length, and what stands in `pathBuf`. `is_alnum` is the C library's.
unfoldable pub check_and_get_len : (ℕ → Bool) → (path : List ℕ) → (buf_len : ℕ) → ℕ × List ℕ
check_and_get_len is_alnum path zero = (0, 0 ∷ [])
check_and_get_len is_alnum [] (suc left) = (0, 0 ∷ [])
check_and_get_len is_alnum (c ∷ cs) (suc left) =
    let (len, copied) = check_and_get_len is_alnum cs left in
    let further : ℕ × List ℕ = (suc len, c ∷ copied) in
    if is_alnum c
    then further
    else if c == 95 || (c == 45 || c == slash)
    then further
    else if c == 0
    then (0, 0 ∷ [])
    else further

-- The entry that `memset` leaves.
abbrev pub cleared_entry : DirectoryEntry
cleared_entry = record { name = replicate filename_size 0; inode_num = 0 }

-- The end of `operate`: the result of the search is held in a `size_t`, where -1 is not below 1.
unfoldable pub follow : ℤ → ℕ → M Ptr
unfolding iget_at_root
follow (pos zero) n = pure none
follow (pos (suc k)) n = iget_at_root n
follow (negsuc k) n = iget_at_root n

unfoldable pub operate : Env → List ℕ → Ptr → M Ptr
unfolding target search_at iput_at follow
operate e [] working = pure working
operate e (c ∷ cs) working = do
  node ← target working
  (found, entry) ← search_at e node (c ∷ cs) cleared_entry false
  iput_at e node
  follow found entry.inode_num

-- The first name of a path, and the path behind its slash: the `while` of `processNextLevel`.
unfoldable pub next_name : List ℕ → List ℕ × List ℕ
next_name [] = ([], [])
next_name (c ∷ cs) =
    let (name, rest) = next_name cs in if c == slash then ([], cs) else (c ∷ name, rest)

-- The `for` of `getFileINode` with `processNextLevel`. Each round takes a byte or more.
unfoldable pub resolve : ℕ → Env → List ℕ → Ptr → M Ptr
unfolding operate next_name
resolve fuel e [] working = pure working
resolve zero e (c ∷ cs) working = pure working
resolve (suc fuel) e (c ∷ cs) working = do
  next ← operate e (next_name (c ∷ cs)).0 working
  elim next [ none ↦ pure none | some node ↦ resolve fuel e (next_name (c ∷ cs)).1 (some node) ]

-- `getFileINode`: the first byte of the path is skipped.
unfoldable pub get_file_inode : Env → List ℕ → M Ptr
unfolding iget_at_root resolve
get_file_inode e path = do root ← iget_at_root 0; resolve (length path) e (drop 1 path) root

-- `getParentINode` of create.c; no slash in the path is a fault.
unfoldable pub get_parent_inode : Env → List ℕ → M Ptr
unfolding get_parent_directory get_file_inode
get_parent_inode e path = elim (get_parent_directory path) [
  | none ↦ λ s. fault
  | some dir ↦ get_file_inode e dir
]
