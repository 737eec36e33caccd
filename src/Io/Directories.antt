-- ===== src/Io/Directories.antt =====
-- What the operations on files do with a directory: the truncation of one leaves it locked.
use naofs.Prelude.{ℕ, ◌≡◌, ap, ◌∙◌, true, false, some, List, pos, if◌then◌else◌, ℤ, ◌==◌}
use naofs.Inode.{InCoreINode, t_directory}
use naofs.Pool.Ring.{update_self}
use naofs.Cache.{done, fault, deadlock, Fs, lock, set_inode}
use naofs.System.{Env, M, pure, ◌>>◌, bind-done, lock_at, inode_at, truncate_at, unlock_at, iput_at}
use naofs.Namei.{get_file_inode}
use naofs.Io.{eisdir, truncate_found, truncate_file}

-- An inode behind its lock.
locked : Fs → ℕ → Fs
locked s node = set_inode s node (record (s.pool.inode node) { locked = true })

lock-locked :
    (s : Fs) (node : ℕ) → (s.pool.inode node).locked ≡ false → lock s node ≡ done (locked s node)
unfolding lock locked
lock-locked s node h = ap (λ b. if b then deadlock else done (locked s node)) h

inode-locked :
    (s : Fs) (node : ℕ)
    → (locked s node).pool.inode node ≡ record (s.pool.inode node) { locked = true }
unfolding locked set_inode
inode-locked s node = update_self s.pool.inode node (record (s.pool.inode node) { locked = true })

relock-locked : (s : Fs) (node : ℕ) → lock (locked s node) node ≡ deadlock
unfolding lock
relock-locked s node =
    ap
      (λ (c : InCoreINode).
        if c.locked
        then deadlock
        else done (
            set_inode (locked s node) node
              (record ((locked s node).pool.inode node) { locked = true })))
      (inode-locked s node)

lock_at-locked :
    (s : Fs) (node : ℕ)
    → (s.pool.inode node).locked ≡ false
    → lock_at node s ≡ done (tt, locked s node)
unfolding lock_at
lock_at-locked s node h =
    ap (λ r. elim r [ done s' ↦ done (tt, s') | fault ↦ fault | deadlock ↦ deadlock ])
      (lock-locked s node h)

truncate_found-directory :
    (e : Env) (size node : ℕ) (s : Fs)
    → (s.pool.inode node).locked ≡ false
    → (s.pool.inode node).type ≡ t_directory
    → truncate_found e size (some node) s ≡ done (eisdir, locked s node)
unfolding truncate_found inode_at
truncate_found-directory e size node s h t =
    bind-done (lock_at node) _ s tt (locked s node) (lock_at-locked s node h)
    ∙ ap (λ (n : ℕ). (if n == t_directory then pure eisdir else regular) (locked s node))
        (ap (λ (c : InCoreINode). c.type) (inode-locked s node) ∙ t)
  where
    regular : M ℤ
    regular = truncate_at e node size >> (unlock_at node >> (iput_at e node >> pure (pos 0)))

-- Truncating a path that leads to an unlocked directory returns -EISDIR, and leaves the inode of the
-- directory locked: the next call that locks it waits for ever.
pub truncate_file-directory :
    (e : Env) (path : List ℕ) (size node : ℕ) (s s1 : Fs)
    → get_file_inode e path s ≡ done (some node, s1)
    → (s1.pool.inode node).locked ≡ false
    → (s1.pool.inode node).type ≡ t_directory
    → (s' : Fs) × (truncate_file e path size s ≡ done (eisdir, s')) × (lock s' node ≡ deadlock)
unfolding truncate_file
truncate_file-directory e path size node s s1 found h t = (
  locked s1 node,
  bind-done (get_file_inode e path) _ s (some node) s1 found
      ∙ truncate_found-directory e size node s1 h t,
  relock-locked s1 node,
)
