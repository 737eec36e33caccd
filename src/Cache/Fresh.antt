-- ===== src/Cache/Fresh.antt =====
-- An inode that no buffer holds: it is read into the buffer that was free for longest.
use naofs.Prelude.{
  ℕ, ◌+◌, ◌%◌, ◌^◌, ◌≡◌, ◌≢◌, refl, ap, ◌∙◌, true, false, none, some, List, [], ◌∷◌,
}
use naofs.Disk.{Disk}
use naofs.Inode.{InCoreINode, decode, insert_disk_inode_data}
use naofs.InodeTable.{get_disk_inode}
use naofs.Pool.{
  Pool, get_hash, hash_lookup, update_in_hash_q, remove_from_hash_q, remove_from, insert_at_hash,
  update,
}
use naofs.Pool.Ring.{IsRing, update_self, update_ne}
use naofs.Pool.FreeList.{pop_free_list_lem}
use naofs.Cache.{
  done, Fs, and_run, of_option, set_inode, update_and_get_inode, fetch_inode_from_disk, iget_into,
  iget_fresh, iget_at, iget,
}
use naofs.Cache.Share.{set_ne, lock-free, set_self, count-set}

-- With no free buffer, `iget` of an inode that no buffer holds returns NULL and changes nothing.
pub iget-none :
    (s : Fs) (n device : ℕ)
    → hash_lookup s.pool n device ≡ some none
    → IsRing s.pool []
    → iget s n device ≡ done (none, s)
unfolding iget iget_at iget_fresh iget_into and_run of_option
iget-none s n device e f =
    let (node, q, pop, (null, same)) = pop_free_list_lem s.pool [] f in
    ap (λ o. and_run (of_option o) (iget_at s n device)) e
    ∙ ap (λ o. and_run (of_option o) (λ r. iget_into (record s { pool = r.1 }) n device r.0)) pop
    ∙ ap (λ o. iget_into (record s { pool = q }) n device o) null
    ∙ ap (λ (p : Pool). done (none, record s { pool = p })) same

-- What `iget` makes of the inode of a free buffer.
abbrev read_in : Disk → ℕ → InCoreINode → InCoreINode
read_in d n c = record (insert_disk_inode_data (get_disk_inode d n (decode d.junk)).1 c) {
  reference_count = (c.reference_count + 1) % 2 ^ 64;
  locked = false;
}

-- The state with the lock taken and the queues changed, and the state at the end.
requeued : Fs → ℕ → ℕ → ℕ → Fs
requeued s x n device =
    let s2 = set_inode s x (record (s.pool.inode x) { locked = true }) in
    record s2 { pool = update_in_hash_q s2.pool x n device }

iget_into-some :
    (s : Fs) (n device x : ℕ)
    → (s.pool.inode x).locked ≡ false
    → let s3 = requeued s x n device in
      iget_into s n device (some x)
      ≡ done (some x, set_inode s3 x (read_in s.disk n (s3.pool.inode x)))
unfolding iget_into and_run requeued fetch_inode_from_disk insert_disk_inode_data
iget_into-some s n device x l =
    let s3 = requeued s x n device in
    let i =
      insert_disk_inode_data (get_disk_inode s.disk n (decode s.disk.junk)).1 (s3.pool.inode x) in
    ap
      (λ t. and_run t (λ s2.
        let s3 = record s2 { pool = update_in_hash_q s2.pool x n device } in
        let (i, s4) = update_and_get_inode (fetch_inode_from_disk s3 n x) x in done (some i, s4)))
      (lock-free s x l)
    ∙ ap (λ (u : ℕ × Fs). done (some u.0, u.1)) (count-set s3 x i)

inode-requeued :
    (s : Fs) (n device x m : ℕ)
    → (requeued s x n device).pool.inode m
      ≡ update s.pool.inode x (record (s.pool.inode x) { locked = true }) m
unfolding requeued set_inode update_in_hash_q remove_from_hash_q remove_from insert_at_hash
inode-requeued s n device x m = refl

requeued-IsRing :
    (s : Fs) (n device x : ℕ) (c : InCoreINode) (xs : List ℕ)
    → IsRing s.pool xs
    → IsRing (set_inode (requeued s x n device) x c).pool xs
unfolding requeued set_inode update_in_hash_q remove_from_hash_q remove_from insert_at_hash
requeued-IsRing s n device x c [] h = h
requeued-IsRing s n device x c (y ∷ r) h = h

requeued-head :
    (s : Fs) (n device x : ℕ) (c : InCoreINode)
    → let p = (set_inode (requeued s x n device) x c).pool in
      p.hash_q (get_hash p.wide_shift n device) ≡ some x
unfolding requeued set_inode update_in_hash_q remove_from_hash_q remove_from insert_at_hash
requeued-head s n device x c = update_self _ (get_hash s.pool.wide_shift n device) (some x)

-- `iget` of an inode that no buffer holds takes the first free buffer, if that is not locked,
-- copies into it what `getDiskInode` gives, and counts a reference; the rest of the buffers stay
-- free, in order, the disk stays as it is and so does every other buffer's inode, and the buffer is
-- the first in the hash queue of the inode.
pub iget-fresh :
    (s : Fs) (n device x : ℕ) (xs : List ℕ)
    → hash_lookup s.pool n device ≡ some none
    → IsRing s.pool (x ∷ xs)
    → (s.pool.inode x).locked ≡ false
    → (s' : Fs) × (iget s n device ≡ done (some x, s'))
      × (s'.disk ≡ s.disk)
      × IsRing s'.pool xs
      × (s'.pool.inode x
          ≡ record (insert_disk_inode_data
              (get_disk_inode s.disk n (decode s.disk.junk)).1
              (s.pool.inode x)) {
                reference_count = ((s.pool.inode x).reference_count + 1) % 2 ^ 64;
                locked = false;
              })
      × ((m : ℕ) → m ≢ x → s'.pool.inode m ≡ s.pool.inode m)
      × (s'.pool.hash_q (get_hash s'.pool.wide_shift n device) ≡ some x)
unfolding iget iget_at iget_fresh and_run of_option requeued set_inode insert_disk_inode_data
iget-fresh s n device x xs e f l =
    let (node, q, pop, (top, ring, same)) = pop_free_list_lem s.pool (x ∷ xs) f in
    let s1 = record s { pool = q } in
    let s3 = requeued s1 x n device in
    let at : (m : ℕ) → q.inode m ≡ s.pool.inode m = λ m. ap (λ f. f m) same.inode in
    let here = inode-requeued s1 n device x x ∙ update_self q.inode x _ in
    (
      set_inode s3 x (read_in s.disk n (s3.pool.inode x)),
      ap (λ o. and_run (of_option o) (iget_at s n device)) e
          ∙ ap (λ o. and_run (of_option o) (λ r. iget_into (record s { pool = r.1 }) n device r.0))
              pop
          ∙ ap (λ o. iget_into s1 n device o) top
          ∙ iget_into-some s1 n device x (ap (λ (i : InCoreINode). i.locked) (at x) ∙ l),
      refl,
      requeued-IsRing s1 n device x (read_in s.disk n (s3.pool.inode x)) xs ring,
      set_self s3 x _ ∙ ap (read_in s.disk n) here ∙ ap (read_in s.disk n) (at x),
      λ m ne.
          set_ne s3 x m _ ne ∙ inode-requeued s1 n device x m ∙ update_ne q.inode x m _ ne ∙ at m,
      requeued-head s1 n device x (read_in s.disk n (s3.pool.inode x)),
    )
