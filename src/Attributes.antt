-- ===== src/Attributes.antt =====
-- src/interface/getAttr.c: the attributes of a file, its mode and its owner.
pub mod Locks
use naofs.Prelude.{ℕ, ◌-◌, ◌^◌, none, some, List, ◌==◌, if◌then◌else◌, ℤ, pos, negsuc, bit_or, true}
use naofs.Inode.{InCoreINode, t_directory}
use naofs.Pool.{Ptr}
use naofs.Cache.{Run, done, fault, deadlock}
use naofs.System.{Env, M, pure, ◌>>=◌, ◌>>◌, inode_at, set_at, lock_at, unlock_at, iput_at}
use naofs.Namei.{get_file_inode}

-- `-ENOENT`
abbrev pub enoent : ℤ
enoent = negsuc 1

-- `S_IFDIR`
abbrev pub s_ifdir : ℕ
s_ifdir = 16384

-- The members of `struct stat` that are set.
pub record Stat : Type 0 where
  pub atime : ℕ
  pub mtime : ℕ
  pub ctime : ℕ
  pub mode : ℕ
  pub size : ℕ
  pub uid : ℕ
  pub gid : ℕ

unfoldable pub stat_of : InCoreINode → Stat
stat_of c = record {
  atime = c.access;
  mtime = c.modification;
  ctime = c.status_change;
  mode = c.file_mode;
  size = c.size;
  uid = c.owner_uid;
  gid = c.group_uid;
}

-- What the functions do with the result of `getFileINode`.
unfoldable pub populate : Env → Stat → Ptr → M (ℤ × Stat)
unfolding inode_at iput_at stat_of
populate e buffer none = pure (enoent, buffer)
populate e buffer (some node) = do c ← inode_at node; iput_at e node; pure (pos 0, stat_of c)

unfoldable pub attr_populate : Env → (path : List ℕ) → Stat → M (ℤ × Stat)
unfolding get_file_inode populate
attr_populate e path buffer = do found ← get_file_inode e path; populate e buffer found

unfoldable pub with_mode : InCoreINode → ℕ → InCoreINode
with_mode c mode = record c {
  file_mode = if c.type == t_directory then bit_or s_ifdir mode else mode;
  inode_changed = true;
}

-- `(uid_t)-1` and `(gid_t)-1`: no change is asked for.
abbrev pub no_id : ℕ
no_id = 2 ^ 32 - 1

unfoldable pub with_owner : InCoreINode → (uid gid : ℕ) → InCoreINode
with_owner c uid gid =
    if uid == no_id
    then if gid == no_id then c else record c { group_uid = gid; inode_changed = true }
    else record c {
      owner_uid = uid;
      group_uid = if gid == no_id then c.group_uid else gid;
      inode_changed = true;
    }

-- The part of `changeMode` and `changeOwner` behind `getFileINode`, which differ in the change.
unfoldable pub change : Env → (InCoreINode → InCoreINode) → Ptr → M ℤ
unfolding lock_at inode_at set_at unlock_at iput_at
change e f none = pure enoent
change e f (some node) = do
  lock_at node
  c ← inode_at node
  set_at node (f c)
  unlock_at node
  iput_at e node
  pure (pos 0)

unfoldable pub change_mode : Env → (path : List ℕ) → (mode : ℕ) → M ℤ
unfolding get_file_inode change with_mode
change_mode e path mode = do found ← get_file_inode e path; change e (λ c. with_mode c mode) found

unfoldable pub change_owner : Env → (path : List ℕ) → (uid gid : ℕ) → M ℤ
unfolding get_file_inode change with_owner
change_owner e path uid gid = do
  found ← get_file_inode e path
  change e (λ c. with_owner c uid gid) found
