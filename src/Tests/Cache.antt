-- ===== src/Tests/Cache.antt =====
-- The inode cache with one inode in use in node 2 and the nodes 0 and 1 free, and sizes.
use mathlib.Core.Path.{subst}
use naofs.Prelude.{
  ℕ, ◌+◌, ◌%◌, ◌^◌, ◌≡◌, ◌≢◌, refl, sym, false, none, some, [], ◌∷◌, ◌==◌, if◌then◌else◌, pos,
  arith, if_both,
}
use naofs.Inode.{InCoreINode, decode, insert_disk_inode_data}
use naofs.InodeTable.{get_disk_inode}
use naofs.Pool.{get_hash, hash_lookup, zero_in_core}
use naofs.Pool.Ring.{IsRing}
use naofs.Pool.Hash.{IsQueue, hash_lookup-find, get_hash_lem}
use naofs.Cache.{done, Fs, and_run, iget, iput}
use naofs.Cache.Locks.{AllUnlocked}
use naofs.Cache.Share.{iput-iget}
use naofs.Cache.Fresh.{iget-fresh}
use naofs.Cache.Idle.{count_of}
use naofs.Cache.Twice.{iget-iget}
use naofs.Truncate.{truncate_inode}
use naofs.Truncate.Size.{truncate_inode-size}
use naofs.Tests.{blank_disk}

abbrev in_use : InCoreINode
in_use = record zero_in_core { inode_number = 4; reference_count = 2; links_count = 1 }

abbrev cache : Fs
cache = record {
  pool = record {
    next = λ n. if n == 0 then some 1 else some 0;
    prev = λ n. if n == 0 then some 1 else some 0;
    hash_next = λ n. none;
    hash_prev = λ n. none;
    inode = λ n. if n == 2 then in_use else zero_in_core;
    free_list = some 0;
    hash_q = λ i. if i == 0 then some 2 else none;
    wide_shift = λ x k. 0;
  };
  disk = blank_disk;
}

abbrev full_cache : Fs
full_cache = record cache {
  pool = record {
    next = λ n. none;
    prev = λ n. none;
    hash_next = λ n. none;
    hash_prev = λ n. none;
    inode = λ n. in_use;
    free_list = none;
    hash_q = λ i. none;
    wide_shift = λ x k. 0;
  };
}

cache-IsRing : IsRing cache.pool (0 ∷ 1 ∷ [])
cache-IsRing = (refl, ((refl, refl, tt), refl, refl), ((λ e. omega arith, tt), (tt, tt)))

cache-AllUnlocked : AllUnlocked cache.pool
cache-AllUnlocked m =
    if_both (λ (c : InCoreINode). c.locked ≡ false) (m == 2) in_use zero_in_core refl refl

lookup_four : hash_lookup cache.pool 4 0 ≡ some (some 2)
lookup_four =
    hash_lookup-find cache.pool 4 0 (2 ∷ [])
      (subst (λ (i : ℕ). IsQueue cache.pool i (2 ∷ []))
        (sym (get_hash_lem cache.pool.wide_shift 4 (omega arith))) ((refl, refl, refl), (tt, tt)))
      (omega arith)

lookup_five : hash_lookup cache.pool 5 0 ≡ some none
lookup_five =
    hash_lookup-find cache.pool 5 0 (2 ∷ [])
      (subst (λ (i : ℕ). IsQueue cache.pool i (2 ∷ []))
        (sym (get_hash_lem cache.pool.wide_shift 5 (omega arith))) ((refl, refl, refl), (tt, tt)))
      (omega arith)

iput-iget_example : and_run (iget cache 4 0) (λ r. iput 9 r.1 2) ≡ done (pos 0, cache)
iput-iget_example =
    iput-iget 9 cache 4 0 2 lookup_four refl (λ e. omega arith) (omega arith) (λ e. omega arith)

iget-fresh_example :
    (s' : Fs) × (iget cache 5 0 ≡ done (some 0, s'))
    × (s'.disk ≡ blank_disk)
    × IsRing s'.pool (1 ∷ [])
    × (s'.pool.inode 0
        ≡ record (insert_disk_inode_data
            (get_disk_inode blank_disk 5 (decode blank_disk.junk)).1
            zero_in_core) {
              reference_count = (zero_in_core.reference_count + 1) % 2 ^ 64;
              locked = false;
            })
    × ((m : ℕ) → m ≢ 0 → s'.pool.inode m ≡ cache.pool.inode m)
    × (s'.pool.hash_q (get_hash s'.pool.wide_shift 5 0) ≡ some 0)
iget-fresh_example = iget-fresh cache 5 0 0 (1 ∷ []) lookup_five cache-IsRing refl

truncate_example :
    (truncate_inode 9 in_use 5000
      (record { block_number = 0; byte_offset_in_block = 0; bytes_left_in_block = 0 })
      blank_disk).0.size
    ≡ 5000
truncate_example =
    truncate_inode-size 9 in_use 5000
      (record { block_number = 0; byte_offset_in_block = 0; bytes_left_in_block = 0 }) blank_disk
      (omega arith) (omega arith)

lookup_zero : hash_lookup cache.pool 0 0 ≡ some none
lookup_zero =
    hash_lookup-find cache.pool 0 0 (2 ∷ [])
      (subst (λ (i : ℕ). IsQueue cache.pool i (2 ∷ []))
        (sym (get_hash_lem cache.pool.wide_shift 0 (omega arith))) ((refl, refl, refl), (tt, tt)))
      (omega arith)

blank_inode_number : (get_disk_inode blank_disk 0 (decode blank_disk.junk)).1.inode_number ≡ 0
unfolding get_disk_inode decode naofs.Prelude.decode_fields naofs.Prelude.from_bytes
    naofs.Prelude.take naofs.Prelude.drop naofs.Prelude.slice naofs.Disk.fetch
    naofs.Prelude.replicate
blank_inode_number = refl

iget-iget_example :
    (s' : Fs) × (and_run (iget cache 0 0) (λ r. iget r.1 0 0) ≡ done (some 0, s'))
    × (count_of s' 0 ≡ 2)
    × IsRing s'.pool (1 ∷ [])
iget-iget_example =
    iget-iget cache 0 0 (1 ∷ []) lookup_zero cache-IsRing refl refl blank_inode_number
