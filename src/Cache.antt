-- ===== src/Cache.antt =====
-- src/incoreInodeOps/iget.c and iput.c: inodes in use, in the buffers of the pool. A pointer to an
-- in-core inode is the number of the node that holds it, and the mutex of an inode is the bit
-- `locked`: a run of one thread that locks a locked mutex waits for ever.
pub mod Locks
pub mod Returns
pub mod Share
pub mod Fresh
pub mod Idle
pub mod Counts
pub mod Release
pub mod Twice
use naofs.Prelude.{
  ℕ, ◌+◌, ◌-◌, ◌%◌, ◌^◌, Bool, true, false, Option, none, some, ◌==◌, if◌then◌else◌, ◌&&◌, ◌||◌,
  not, ℤ, pos, negsuc,
}
use naofs.Disk.{Disk}
use naofs.Inode.{InCoreINode, decode, insert_disk_inode_data, get_disk_inode_data}
use naofs.InodeTable.{get_disk_inode, write_disk_inode}
use naofs.InodeList.{free_inode}
use naofs.Blocks.{inode_blocks_free}
use naofs.Pool.{
  Ptr, Pool, update, free_list_insert, pop_free_list, free_list_remove, update_in_hash_q,
  hash_lookup,
}

-- What a call comes to: a result; a member of NULL, or a walk along a list of buffers that does not
-- end; or a wait for ever for a mutex that is held.
pub data Run {ℓ} (A : Type ℓ) : Type ℓ where
  done : A → Run A
  fault : Run A
  deadlock : Run A

-- The pool and the disk.
pub record Fs : Type 0 where
  pub pool : Pool
  pub disk : Disk

unfoldable pub and_run {ℓ κ} : {A : Type ℓ} {B : Type κ} → Run A → (A → Run B) → Run B
and_run (done a) k = k a
and_run fault k = fault
and_run deadlock k = deadlock

unfoldable pub of_option {ℓ} : {A : Type ℓ} → Option A → Run A
of_option none = fault
of_option (some a) = done a

unfoldable pub set_inode : Fs → ℕ → InCoreINode → Fs
set_inode s node c = record s { pool = record p { inode = update p.inode node c } }
  where
    p : Pool
    p = s.pool

-- `pthread_mutex_lock` and `pthread_mutex_unlock`
unfoldable pub lock : Fs → ℕ → Run Fs
unfolding set_inode
lock s node =
    if (s.pool.inode node).locked
    then deadlock
    else done (set_inode s node (record (s.pool.inode node) { locked = true }))

unfoldable pub unlock : Fs → ℕ → Fs
unfolding set_inode
unlock s node = set_inode s node (record (s.pool.inode node) { locked = false })

-- `fetchInodeFromDisk`; a number that is not on the disk leaves the fresh struct as it is.
unfoldable pub fetch_inode_from_disk : Fs → ℕ → ℕ → Fs
unfolding set_inode
fetch_inode_from_disk s n node =
    set_inode s node
      (insert_disk_inode_data (get_disk_inode s.disk n (decode s.disk.junk)).1 (s.pool.inode node))

-- `updateAndGetINode`
unfoldable pub update_and_get_inode : Fs → ℕ → ℕ × Fs
unfolding set_inode unlock
update_and_get_inode s node =
    let c = s.pool.inode node in
    (
      node,
      unlock (set_inode s node (record c { reference_count = (c.reference_count + 1) % 2 ^ 64 }))
          node,
    )

-- The branch of `iget` for an inode that no buffer holds, with what `popFreeList` returned.
unfoldable pub iget_into : Fs → ℕ → ℕ → Ptr → Run (Ptr × Fs)
unfolding and_run lock fetch_inode_from_disk update_and_get_inode
iget_into s n device none = done (none, s)
iget_into s n device (some node) = and_run (lock s node) (λ s2.
    let s3 = record s2 { pool = update_in_hash_q s2.pool node n device } in
    let (i, s4) = update_and_get_inode (fetch_inode_from_disk s3 n node) node in done (some i, s4))

unfoldable pub iget_fresh : Fs → ℕ → ℕ → Run (Ptr × Fs)
unfolding and_run of_option iget_into
iget_fresh s n device =
    and_run (of_option (pop_free_list s.pool))
      (λ popped. iget_into (record s { pool = popped.1 }) n device popped.0)

-- The branch of `iget` for an inode that the buffer `node` holds, behind its lock.
unfoldable pub iget_locked : Fs → ℕ → ℕ → Run (Ptr × Fs)
unfolding and_run of_option fetch_inode_from_disk update_and_get_inode
iget_locked s n node =
    and_run
      (if (s.pool.inode node).reference_count == 0
        then of_option (free_list_remove s.pool node)
        else done s.pool)
      (λ p.
        let s2 = record s { pool = p } in
        let s3 = if (p.inode node).links_count == 0 then fetch_inode_from_disk s2 n node else s2 in
        let (i, s4) = update_and_get_inode s3 node in done (some i, s4))

unfoldable pub iget_held : Fs → ℕ → ℕ → Run (Ptr × Fs)
unfolding and_run lock iget_locked
iget_held s n node = and_run (lock s node) (λ s1. iget_locked s1 n node)

-- `iget` with what `hashLookup` returned.
unfoldable pub iget_at : Fs → ℕ → ℕ → Ptr → Run (Ptr × Fs)
unfolding iget_fresh iget_held
iget_at s n device none = iget_fresh s n device
iget_at s n device (some node) = iget_held s n node

unfoldable pub iget : Fs → ℕ → ℕ → Run (Ptr × Fs)
unfolding and_run of_option iget_at
iget s n device = and_run (of_option (hash_lookup s.pool n device)) (iget_at s n device)

-- `writeINodeToDisk`
unfoldable pub write_inode_to_disk : Disk → InCoreINode → Disk
write_inode_to_disk d c = (write_disk_inode d c.inode_number (get_disk_inode_data c)).1

-- The first `if` of `iput` for the last reference: a changed inode goes to the disk.
unfoldable pub flush : InCoreINode → Disk → InCoreINode × Disk
unfolding write_inode_to_disk
flush c d =
    if c.inode_changed || c.file_data_changed
    then (record c { inode_changed = false; file_data_changed = false }, write_inode_to_disk d c)
    else (c, d)

-- The second `if`: an inode without links is freed with its blocks; `now` is what `time` returns.
unfoldable pub drop_file : ℕ → InCoreINode → Disk → InCoreINode × Disk
drop_file now c d =
    let (c', d') = inode_blocks_free c d in
    if c.links_count == 0 && not (c.inode_number == 0)
    then (c', free_inode d' now c.inode_number)
    else (c, d)

-- The end of `iput` for the last reference, with what `hashLookup` returned.
unfoldable pub put_back : Fs → ℕ → Ptr → Run (ℤ × Fs)
unfolding and_run of_option unlock
put_back s node none = done (negsuc 0, unlock s node)
put_back s node (some found) =
    and_run (of_option (free_list_insert s.pool found))
      (λ p. done (pos 0, unlock (record s { pool = p }) node))

-- The part of `iput` behind the last reference.
unfoldable pub release : ℕ → Fs → ℕ → Run (ℤ × Fs)
unfolding and_run of_option set_inode flush drop_file put_back
release now s node =
    let (c1, d1) = flush (s.pool.inode node) s.disk in
    let (c2, d2) = drop_file now c1 d1 in
    let s2 = set_inode (record s { disk = d2 }) node c2 in
    and_run (of_option (hash_lookup s2.pool c2.inode_number c2.device_number)) (put_back s2 node)

-- `iput` behind its lock.
unfoldable pub iput_locked : ℕ → Fs → ℕ → Run (ℤ × Fs)
unfolding set_inode unlock
iput_locked now s node =
    let c = s.pool.inode node in
    let s2 = set_inode s node (record c { reference_count = c.reference_count - 1 }) in
    if c.reference_count == 0
    then done (negsuc 0, unlock s node)
    else if c.reference_count - 1 == 0
    then release now s2 node
    else done (pos 0, unlock s2 node)

unfoldable pub iput : ℕ → Fs → ℕ → Run (ℤ × Fs)
unfolding and_run lock iput_locked
iput now s node = and_run (lock s node) (λ s1. iput_locked now s1 node)
