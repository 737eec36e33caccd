-- ===== src/Cache/Twice.antt =====
-- An inode has one buffer: what `iget` has read in, the next `iget` finds.
use naofs.Prelude.{
  ℕ, ◌+◌, ◌%◌, ◌^◌, ◌≡◌, ap, ◌∙◌, false, none, some, List, ◌∷◌, ◌==◌, if◌then◌else◌, ==-refl, arith,
}
use naofs.Inode.{InCoreINode, decode, insert_disk_inode_data}
use naofs.InodeTable.{get_disk_inode}
use naofs.Pool.{Pool, get_hash, lookup_loop, hash_lookup}
use naofs.Pool.Ring.{IsRing}
use naofs.Cache.{done, Fs, and_run, iget}
use naofs.Cache.Fresh.{iget-fresh}
use naofs.Cache.Idle.{count_of, IsTouched, set-IsTouched, IsTouched-then, touched-IsRing}
use naofs.Cache.Counts.{held, recount, recount-IsTouched, iget_locked-busy, iget-found}

-- The first buffer of the queue is found by its number.
hash_lookup-head :
    (p : Pool) (n device x : ℕ)
    → p.hash_q (get_hash p.wide_shift n device) ≡ some x
    → (p.inode x).inode_number ≡ n
    → hash_lookup p n device ≡ some (some x)
unfolding hash_lookup lookup_loop
hash_lookup-head p n device x e number =
    ap (lookup_loop 32 p n) e
    ∙ ap (λ b. if b then some (some x) else lookup_loop 31 p n (p.hash_next x))
        (ap (λ k. k == n) number ∙ ==-refl n)

-- Where no buffer holds the inode, the first free one is not locked and has no reference, and the
-- inode on the disk has its own number, two calls of `iget` return the same buffer, which then has
-- two references; no other buffer is taken.
pub iget-iget :
    (s : Fs) (n x : ℕ) (xs : List ℕ)
    → hash_lookup s.pool n 0 ≡ some none
    → IsRing s.pool (x ∷ xs)
    → (s.pool.inode x).locked ≡ false
    → count_of s x ≡ 0
    → (get_disk_inode s.disk n (decode s.disk.junk)).1.inode_number ≡ n
    → (s' : Fs) × (and_run (iget s n 0) (λ r. iget r.1 n 0) ≡ done (some x, s'))
      × (count_of s' x ≡ 2)
      × IsRing s'.pool xs
unfolding and_run insert_disk_inode_data
iget-iget s n x xs e f l c0 number =
    let (s1, got, disk, ring, inode, others, queue) = iget-fresh s n 0 x xs e f l in
    let t = held s1 x in
    let s' = recount t n x in
    let one : count_of s1 x ≡ 1 =
      ap (λ (i : InCoreINode). i.reference_count) inode ∙ ap (λ k. (k + 1) % 2 ^ 64) c0 in
    let a : IsTouched s1 x (count_of s1 x) t = set-IsTouched s1 x _ in
    let b = recount-IsTouched t n x in
    let found =
      hash_lookup-head s1.pool n 0 x queue
        (ap (λ (i : InCoreINode). i.inode_number) inode ∙ number) in
    (
      s',
      ap (λ r. and_run r (λ r. iget r.1 n 0)) got
          ∙ iget-found s1 n x (done (some x, s')) found (ap (λ (i : InCoreINode). i.locked) inode)
              (iget_locked-busy t n x (λ z. omega (arith, a.count, one, z))),
      b.count ∙ ap (λ k. (k + 1) % 2 ^ 64) (a.count ∙ one),
      touched-IsRing s1 s' x ((count_of t x + 1) % 2 ^ 64) xs
          (IsTouched-then s1 t s' x (count_of s1 x) ((count_of t x + 1) % 2 ^ 64) a b) ring,
    )
