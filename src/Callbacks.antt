-- ===== src/Callbacks.antt =====
-- src/main.c and src/interface/link.c: the callbacks that FUSE calls, and the table of them. What
-- FUSE passes in `struct fuse_file_info` and `struct fuse_context` are arguments. The table of open
-- files is passed along beside the steps on the pool and the disk.
pub mod Locks
pub mod Trace
use naofs.Prelude.{ℕ, zero, suc, Bool, true, false, List, [], if◌then◌else◌, ℤ, pos, negsuc}
use naofs.Inode.{t_regular, t_directory}
use naofs.Cache.{Run, done, fault, deadlock, Fs}
use naofs.Files.{FileTable}
use naofs.System.{Env, M, pure, ◌>>=◌, ◌>>◌}
use naofs.Attributes.{Stat, attr_populate, change_mode, change_owner}
use naofs.Create.{create_file}
use naofs.Unlink.{unlink_file, unlink_dir}
use naofs.Rename.{rename_file}
use naofs.Io.{open_file, close_file, read_file, write_to_file, truncate_file}
use naofs.Listing.{read_directory}

-- What the program keeps between two requests: the table of open files, the pool and the disk.
pub record World : Type 0 where
  pub files : FileTable
  pub fs : Fs

-- `struct fuse_context`
pub record Context : Type 0 where
  pub uid : ℕ
  pub gid : ℕ
  pub pid : ℕ

-- `memset(stbuf, 0, sizeof(struct stat))`
abbrev pub cleared_stat : Stat
cleared_stat = record { atime = 0; mtime = 0; ctime = 0; mode = 0; size = 0; uid = 0; gid = 0 }

unfoldable pub write_callback :
    Env → (buf : List ℕ) → (size offset fh : ℕ) → FileTable → M (ℤ × FileTable)
unfolding write_to_file
write_callback e buf size offset fh files = write_to_file e buf size offset fh files

unfoldable pub getattr_callback : Env → (path : List ℕ) → M (ℤ × Stat)
unfolding attr_populate
getattr_callback e path = attr_populate e path cleared_stat

unfoldable pub mkdir_callback : Env → Context → (path : List ℕ) → (mode : ℕ) → M ℤ
unfolding create_file
mkdir_callback e context path mode = create_file e path t_directory mode context.uid context.gid

unfoldable pub readdir_callback : Env → (path : List ℕ) → M (ℤ × List (List ℕ))
unfolding read_directory
readdir_callback e path = read_directory e path

unfoldable pub open_callback :
    Env → Context → (path : List ℕ) → (flags fh : ℕ) → FileTable → M (ℤ × ℕ × FileTable)
unfolding open_file
open_callback e context path flags fh files = open_file e path flags context.pid fh files

-- The part of `create_callback` behind `createFile`.
unfoldable pub open_created :
    Env → Context → (path : List ℕ) → (flags fh : ℕ) → FileTable → ℤ → M (ℤ × ℕ × FileTable)
unfolding open_file
open_created e context path flags fh files (pos zero) = open_file e path flags context.pid fh files
open_created e context path flags fh files (pos (suc n)) = pure (pos (suc n), fh, files)
open_created e context path flags fh files (negsuc n) = pure (negsuc n, fh, files)

unfoldable pub create_callback :
    Env → Context → (path : List ℕ) → (mode flags fh : ℕ) → FileTable → M (ℤ × ℕ × FileTable)
unfolding create_file open_created
create_callback e context path mode flags fh files = do
  r ← create_file e path t_regular mode context.uid context.gid
  open_created e context path flags fh files r

unfoldable pub read_callback : Env → (size offset fh : ℕ) → FileTable → M (ℤ × List ℕ × FileTable)
unfolding read_file
read_callback e size offset fh files = read_file e size offset fh files

unfoldable pub release_callback : Env → (fh : ℕ) → FileTable → M (ℤ × FileTable)
unfolding close_file
release_callback e fh files = do (r, files') ← close_file e fh files; pure (pos 0, files')

unfoldable pub truncate_callback : Env → (path : List ℕ) → (size : ℕ) → M ℤ
unfolding truncate_file
truncate_callback e path size = truncate_file e path size

unfoldable pub utimens_callback : M ℤ
utimens_callback = pure (pos 0)

unfoldable pub chown_callback : Env → (path : List ℕ) → (uid gid : ℕ) → M ℤ
unfolding change_owner
chown_callback e path uid gid = do change_owner e path uid gid; pure (pos 0)

unfoldable pub chmod_callback : Env → (path : List ℕ) → (mode : ℕ) → M ℤ
unfolding change_mode
chmod_callback e path mode = do change_mode e path mode; pure (pos 0)

unfoldable pub unlink_callback : Env → (file : List ℕ) → M ℤ
unfolding unlink_file
unlink_callback e file = unlink_file e file

-- `depth` is that of `unlink_dir`.
unfoldable pub unlink_dir_callback : (depth : ℕ) → Env → (file : List ℕ) → M ℤ
unfolding unlink_dir
unlink_dir_callback depth e file = unlink_dir depth e file false

unfoldable pub rename_callback : (depth : ℕ) → Env → (from to : List ℕ) → M ℤ
unfolding rename_file
rename_callback depth e from to = rename_file depth e from to

-- `linkFiles`, and the two callbacks that are not in the table.
unfoldable pub link_files : (source target : List ℕ) → M ℤ
link_files source target = pure (pos 0)

unfoldable pub link_callback : (source target : List ℕ) → M ℤ
unfolding link_files
link_callback source target = link_files source target

unfoldable pub access_callback : (path : List ℕ) → (mode : ℕ) → M ℤ
access_callback path mode = pure (pos 0)

-- A call through `OPERATIONS`, with its arguments.
pub data Request : Type 0 where
  getattr : (path : List ℕ) → Request
  mkdir : (path : List ℕ) → (mode : ℕ) → Request
  readdir : (path : List ℕ) → Request
  create : (path : List ℕ) → (mode flags fh : ℕ) → Request
  open_ : (path : List ℕ) → (flags fh : ℕ) → Request
  read : (size offset fh : ℕ) → Request
  truncate : (path : List ℕ) → (size : ℕ) → Request
  utimens : Request
  chown : (path : List ℕ) → (uid gid : ℕ) → Request
  chmod : (path : List ℕ) → (mode : ℕ) → Request
  write : (buf : List ℕ) → (size offset fh : ℕ) → Request
  unlink : (file : List ℕ) → Request
  release_fh : (fh : ℕ) → Request
  rename : (from to : List ℕ) → Request
  rmdir : (file : List ℕ) → Request

-- What a call hands back: the `int`, and `fi->fh`, `*stbuf`, `buf` or the names that `filler` got.
pub data Reply : Type 0 where
  status : ℤ → Reply
  handle : ℤ → (fh : ℕ) → Reply
  attributes : ℤ → Stat → Reply
  contents : ℤ → List ℕ → Reply
  listing : ℤ → List (List ℕ) → Reply

-- The callback behind each slot of `OPERATIONS`.
unfoldable pub serve : (depth : ℕ) → Env → Context → FileTable → Request → M (Reply × FileTable)
unfolding getattr_callback mkdir_callback readdir_callback create_callback open_callback
    read_callback truncate_callback utimens_callback chown_callback chmod_callback write_callback
    unlink_callback release_callback rename_callback unlink_dir_callback
serve depth e context files (getattr path) = do
  (r, stat) ← getattr_callback e path
  pure (attributes r stat, files)
serve depth e context files (mkdir path mode) = do
  r ← mkdir_callback e context path mode
  pure (status r, files)
serve depth e context files (readdir path) = do
  (r, names) ← readdir_callback e path
  pure (listing r names, files)
serve depth e context files (create path mode flags fh) = do
  (r, fh', files') ← create_callback e context path mode flags fh files
  pure (handle r fh', files')
serve depth e context files (open_ path flags fh) = do
  (r, fh', files') ← open_callback e context path flags fh files
  pure (handle r fh', files')
serve depth e context files (read size offset fh) = do
  (r, bytes, files') ← read_callback e size offset fh files
  pure (contents r bytes, files')
serve depth e context files (truncate path size) = do
  r ← truncate_callback e path size
  pure (status r, files)
serve depth e context files utimens = do r ← utimens_callback; pure (status r, files)
serve depth e context files (chown path uid gid) = do
  r ← chown_callback e path uid gid
  pure (status r, files)
serve depth e context files (chmod path mode) = do
  r ← chmod_callback e path mode
  pure (status r, files)
serve depth e context files (write buf size offset fh) = do
  (r, files') ← write_callback e buf size offset fh files
  pure (status r, files')
serve depth e context files (unlink file) = do r ← unlink_callback e file; pure (status r, files)
serve depth e context files (release_fh fh) = do
  (r, files') ← release_callback e fh files
  pure (status r, files')
serve depth e context files (rename from to) = do
  r ← rename_callback depth e from to
  pure (status r, files)
serve depth e context files (rmdir file) = do
  r ← unlink_dir_callback depth e file
  pure (status r, files)
