-- ===== src/Attributes/Locks.antt =====
-- The mutexes of getAttr.c: each operation leaves none held.
use naofs.Prelude.{ℕ, none, some, List, ℤ, pos}
use naofs.Inode.{InCoreINode}
use naofs.Pool.{Ptr}
use naofs.Cache.{Fs}
use naofs.Cache.Locks.{Ends, AllUnlocked}
use naofs.System.{Env, inode_at, set_at, lock_at, unlock_at, iput_at}
use naofs.System.Locks.{
  Triple-run, Triple-pure, Triple-bind, Triple-inode_at, Triple-set_at, Triple-lock, Triple-unlock,
  Triple-iput, Held,
}
use naofs.Namei.{get_file_inode}
use naofs.Namei.Locks.{Safe, Safe-bind, get_file_inode-Safe}
use naofs.Attributes.{
  Stat, stat_of, populate, attr_populate, change, change_mode, change_owner, with_mode, with_owner,
}

populate-Safe : (e : Env) (buffer : Stat) (q : Ptr) → Safe (populate e buffer q)
unfolding populate
populate-Safe e buffer none = Triple-pure AllUnlocked _
populate-Safe e buffer (some node) =
    Safe-bind (inode_at node) _ (Triple-inode_at AllUnlocked node) (λ c.
      Safe-bind (iput_at e node) _ (Triple-iput e node)
        (λ z. Triple-pure AllUnlocked (pos 0, stat_of c)))

change-Safe : (e : Env) (f : InCoreINode → InCoreINode) (q : Ptr) → Safe (change e f q)
unfolding change
change-Safe e f none = Triple-pure AllUnlocked _
change-Safe e f (some node) =
    let held = Held node in
    Triple-bind AllUnlocked held AllUnlocked (lock_at node) _ (Triple-lock node) (λ t.
      Triple-bind held held AllUnlocked (inode_at node) _ (Triple-inode_at held node) (λ c.
        Triple-bind held held AllUnlocked (set_at node (f c)) _ (Triple-set_at node (f c)) (λ t'.
          Triple-bind held AllUnlocked AllUnlocked (unlock_at node) _ (Triple-unlock node) (λ t''.
            Safe-bind (iput_at e node) _ (Triple-iput e node)
              (λ z. Triple-pure AllUnlocked (pos 0))))))

pub attr_populate-Safe :
    (e : Env) (path : List ℕ) (buffer : Stat) → Safe (attr_populate e path buffer)
unfolding attr_populate
attr_populate-Safe e path buffer =
    Safe-bind (get_file_inode e path) _ (get_file_inode-Safe e path) (populate-Safe e buffer)

pub change_mode-Safe : (e : Env) (path : List ℕ) (mode : ℕ) → Safe (change_mode e path mode)
unfolding change_mode
change_mode-Safe e path mode =
    Safe-bind (get_file_inode e path) _ (get_file_inode-Safe e path)
      (change-Safe e (λ c. with_mode c mode))

pub change_owner-Safe : (e : Env) (path : List ℕ) (uid gid : ℕ) → Safe (change_owner e path uid gid)
unfolding change_owner
change_owner-Safe e path uid gid =
    Safe-bind (get_file_inode e path) _ (get_file_inode-Safe e path)
      (change-Safe e (λ c. with_owner c uid gid))

-- If no inode is locked, reading the attributes of a path, changing its mode and changing its owner
-- lock no mutex that is held, and where they return no inode is locked, also when there is no such
-- file.
pub attributes-AllUnlocked :
    (e : Env) (path : List ℕ) (buffer : Stat) (mode uid gid : ℕ) (s : Fs)
    → AllUnlocked s.pool
    → Ends (λ (r : (ℤ × Stat) × Fs). AllUnlocked r.1.pool) (attr_populate e path buffer s)
      × Ends (λ (r : ℤ × Fs). AllUnlocked r.1.pool) (change_mode e path mode s)
      × Ends (λ (r : ℤ × Fs). AllUnlocked r.1.pool) (change_owner e path uid gid s)
attributes-AllUnlocked e path buffer mode uid gid s p = (
  Triple-run _ _ _ s (attr_populate-Safe e path buffer) p,
  Triple-run _ _ _ s (change_mode-Safe e path mode) p,
  Triple-run _ _ _ s (change_owner-Safe e path uid gid) p,
)
