-- ===== src/Callbacks/Locks.antt =====
-- The mutexes behind the callbacks, one by one.
use naofs.Prelude.{
  ℕ, zero, suc, ◌≡◌, refl, ◌⊎◌, inl, inr, Bool, true, false, none, some, List, ◌==◌, if_both, ℤ,
  pos, negsuc,
}
use naofs.Inode.{t_regular, t_directory}
use naofs.Pool.{Ptr}
use naofs.Cache.{Run, done, fault, deadlock, Fs}
use naofs.Cache.Locks.{Ends, AllUnlocked}
use naofs.Files.{FileTable}
use naofs.System.{Env, M, pure, ◌>>=◌, lock_at, unlock_at, inode_at, truncate_at, iput_at}
use naofs.System.Locks.{
  Triple-then, Triple-pure, Triple-lock, Triple-unlock, Triple-inode_at, Triple-truncate_at,
  Triple-iput, Held,
}
use naofs.Namei.{get_file_inode}
use naofs.Namei.Locks.{Safe, Safe-bind, get_file_inode-Safe}
use naofs.Attributes.{change_mode, change_owner}
use naofs.Attributes.Locks.{attr_populate-Safe, change_mode-Safe, change_owner-Safe}
use naofs.Create.{create_file}
use naofs.Create.Locks.{create_file-Safe}
use naofs.Io.{eisdir, close_file, truncate_found, truncate_file}
use naofs.Io.Locks.{open_file-Safe, close_file-Safe, read_file-Safe, write_to_file-Safe}
use naofs.Listing.Locks.{read_directory-Safe}
use naofs.Callbacks.{
  Context, cleared_stat, open_created, create_callback, release_callback, chown_callback,
  chmod_callback, getattr_callback, mkdir_callback, readdir_callback, open_callback, read_callback,
  truncate_callback, utimens_callback, write_callback, Request, getattr, mkdir, readdir, create,
  open_, read, truncate, utimens, chown, chmod, write, unlink, release_fh, rename, rmdir, Reply,
  status, handle, attributes, contents, listing, serve,
}

-- The requests that remove a name.
abbrev pub is_removal : Request → Bool
is_removal (unlink file) = true
is_removal (rename from to) = true
is_removal (rmdir file) = true
is_removal q = false

-- The answer to a request to truncate a directory.
abbrev pub IsDirectoryTruncated : Request → Reply → Type 0
IsDirectoryTruncated (truncate path size) (status r) = r ≡ eisdir
IsDirectoryTruncated q reply = ⊥

-- Behind the answer no mutex is held, unless a directory was to be truncated.
abbrev pub IsLeft : Request → (Reply × FileTable) × Fs → Type 0
IsLeft q r = IsDirectoryTruncated q r.0.0 ⊎ AllUnlocked r.1.pool

abbrev IsTruncated : ℤ × Fs → Type 0
IsTruncated r = (r.0 ≡ eisdir) ⊎ AllUnlocked r.1.pool

truncate_found-Ends :
    (e : Env) (size : ℕ) (q : Ptr) (s : Fs)
    → AllUnlocked s.pool
    → Ends IsTruncated (truncate_found e size q s)
unfolding truncate_found
truncate_found-Ends e size none s p = inr p
truncate_found-Ends e size (some node) s p =
    let held = Held node in
    Triple-then AllUnlocked held IsTruncated (lock_at node) _ (Triple-lock node)
      (λ t. Triple-then held held IsTruncated (inode_at node) _ (Triple-inode_at held node) (λ c.
        if_both (λ (m : M ℤ). (s : Fs) → held s.pool → Ends IsTruncated (m s))
          (c.type == t_directory) (pure eisdir) _ (λ s' h. inl refl)
          (Triple-then held held IsTruncated (truncate_at e node size) _
            (Triple-truncate_at node e size)
            (λ t'.
              Triple-then held AllUnlocked IsTruncated (unlock_at node) _ (Triple-unlock node)
                (λ t''.
                  Triple-then AllUnlocked AllUnlocked IsTruncated (iput_at e node)
                    (λ z. pure (pos 0)) (Triple-iput e node) (λ z s' h. inr h))))))
      s p

truncate_callback-Ends :
    (e : Env) (path : List ℕ) (size : ℕ) (s : Fs)
    → AllUnlocked s.pool
    → Ends IsTruncated (truncate_callback e path size s)
unfolding truncate_callback truncate_file
truncate_callback-Ends e path size =
    Triple-then AllUnlocked AllUnlocked IsTruncated (get_file_inode e path) _
      (get_file_inode-Safe e path) (truncate_found-Ends e size)

open_created-Safe :
    (e : Env) (context : Context) (path : List ℕ) (flags fh : ℕ) (files : FileTable) (z : ℤ)
    → Safe (open_created e context path flags fh files z)
unfolding open_created
open_created-Safe e context path flags fh files (pos zero) =
    open_file-Safe e path flags context.pid fh files
open_created-Safe e context path flags fh files (pos (suc n)) = Triple-pure AllUnlocked _
open_created-Safe e context path flags fh files (negsuc n) = Triple-pure AllUnlocked _

create_callback-Safe :
    (e : Env) (context : Context) (path : List ℕ) (mode flags fh : ℕ) (files : FileTable)
    → Safe (create_callback e context path mode flags fh files)
unfolding create_callback
create_callback-Safe e context path mode flags fh files =
    Safe-bind (create_file e path t_regular mode context.uid context.gid) _
      (create_file-Safe e path t_regular mode context.uid context.gid)
      (open_created-Safe e context path flags fh files)

getattr_callback-Safe : (e : Env) (path : List ℕ) → Safe (getattr_callback e path)
unfolding getattr_callback
getattr_callback-Safe e path = attr_populate-Safe e path cleared_stat

mkdir_callback-Safe :
    (e : Env) (context : Context) (path : List ℕ) (mode : ℕ)
    → Safe (mkdir_callback e context path mode)
unfolding mkdir_callback
mkdir_callback-Safe e context path mode =
    create_file-Safe e path t_directory mode context.uid context.gid

readdir_callback-Safe : (e : Env) (path : List ℕ) → Safe (readdir_callback e path)
unfolding readdir_callback
readdir_callback-Safe e path = read_directory-Safe e path

chown_callback-Safe : (e : Env) (path : List ℕ) (uid gid : ℕ) → Safe (chown_callback e path uid gid)
unfolding chown_callback
chown_callback-Safe e path uid gid =
    Safe-bind (change_owner e path uid gid) _ (change_owner-Safe e path uid gid)
      (λ r. Triple-pure AllUnlocked (pos 0))

chmod_callback-Safe : (e : Env) (path : List ℕ) (mode : ℕ) → Safe (chmod_callback e path mode)
unfolding chmod_callback
chmod_callback-Safe e path mode =
    Safe-bind (change_mode e path mode) _ (change_mode-Safe e path mode)
      (λ r. Triple-pure AllUnlocked (pos 0))

module _ (e : Env) (files : FileTable) where
  open_callback-Safe :
      (context : Context) (path : List ℕ) (flags fh : ℕ)
      → Safe (open_callback e context path flags fh files)
  unfolding open_callback
  open_callback-Safe context path flags fh = open_file-Safe e path flags context.pid fh files

  read_callback-Safe : (size offset fh : ℕ) → Safe (read_callback e size offset fh files)
  unfolding read_callback
  read_callback-Safe size offset fh = read_file-Safe e size offset fh files

  write_callback-Safe :
      (buf : List ℕ) (size offset fh : ℕ) → Safe (write_callback e buf size offset fh files)
  unfolding write_callback
  write_callback-Safe buf size offset fh = write_to_file-Safe e buf size offset fh files

  release_callback-Safe : (fh : ℕ) → Safe (release_callback e fh files)
  unfolding release_callback
  release_callback-Safe fh =
      Safe-bind (close_file e fh files) _ (close_file-Safe e fh files)
        (λ r. Triple-pure AllUnlocked (pos 0, r.1))

-- A safe callback, with its answer put together.
answered :
    {A : Type 0} (q : Request) (m : M A) (f : A → Reply × FileTable)
    → Safe m
    → (s : Fs) → AllUnlocked s.pool
    → Ends (IsLeft q) ((m >>= λ a. pure (f a)) s)
answered q m f h =
    Triple-then AllUnlocked AllUnlocked (IsLeft q) m (λ a. pure (f a)) h (λ a s p. inr p)

truncate-Ends :
    (e : Env) (files : FileTable) (path : List ℕ) (size : ℕ) (r : Run (ℤ × Fs))
    → Ends IsTruncated r
    → Ends (IsLeft (truncate path size)) (elim r [
      | done (a, s') ↦ done ((status a, files), s')
      | fault ↦ fault
      | deadlock ↦ deadlock
    ])
truncate-Ends e files path size (done r) h = h
truncate-Ends e files path size fault h = tt
truncate-Ends e files path size deadlock h = absurd h

-- If no inode is locked, no request but the removals locks a mutex that it holds already, and where
-- it is answered no inode is locked, unless it was to truncate a directory.
pub serve-Ends :
    (depth : ℕ) (e : Env) (context : Context) (files : FileTable) (q : Request) (s : Fs)
    → is_removal q ≡ false
    → AllUnlocked s.pool
    → Ends (IsLeft q) (serve depth e context files q s)
unfolding serve
serve-Ends depth e context files (getattr path) s k =
    answered (getattr path) _ (λ r. (attributes r.0 r.1, files)) (getattr_callback-Safe e path) s
serve-Ends depth e context files (mkdir path mode) s k =
    answered (mkdir path mode) _ (λ r. (status r, files)) (mkdir_callback-Safe e context path mode)
      s
serve-Ends depth e context files (readdir path) s k =
    answered (readdir path) _ (λ r. (listing r.0 r.1, files)) (readdir_callback-Safe e path) s
serve-Ends depth e context files (create path mode flags fh) s k =
    answered (create path mode flags fh) _ (λ r. (handle r.0 r.1, r.2))
      (create_callback-Safe e context path mode flags fh files) s
serve-Ends depth e context files (open_ path flags fh) s k =
    answered (open_ path flags fh) _ (λ r. (handle r.0 r.1, r.2))
      (open_callback-Safe e files context path flags fh) s
serve-Ends depth e context files (read size offset fh) s k =
    answered (read size offset fh) _ (λ r. (contents r.0 r.1, r.2))
      (read_callback-Safe e files size offset fh) s
serve-Ends depth e context files (truncate path size) s k = λ p.
    truncate-Ends e files path size (truncate_callback e path size s)
      (truncate_callback-Ends e path size s p)
serve-Ends depth e context files utimens s k =
    answered utimens utimens_callback (λ r. (status r, files))
      (unfold utimens_callback in Triple-pure AllUnlocked (pos 0)) s
serve-Ends depth e context files (chown path uid gid) s k =
    answered (chown path uid gid) _ (λ r. (status r, files)) (chown_callback-Safe e path uid gid) s
serve-Ends depth e context files (chmod path mode) s k =
    answered (chmod path mode) _ (λ r. (status r, files)) (chmod_callback-Safe e path mode) s
serve-Ends depth e context files (write buf size offset fh) s k =
    answered (write buf size offset fh) _ (λ r. (status r.0, r.1))
      (write_callback-Safe e files buf size offset fh) s
serve-Ends depth e context files (release_fh fh) s k =
    answered (release_fh fh) _ (λ r. (status r.0, r.1)) (release_callback-Safe e files fh) s
serve-Ends depth e context files (unlink file) s k = cc
serve-Ends depth e context files (rename from to) s k = cc
serve-Ends depth e context files (rmdir file) s k = cc
