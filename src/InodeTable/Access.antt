-- ===== src/InodeTable/Access.antt =====
-- Inodes in their slots: what is written to one is read back, and no other inode changes.
use mathlib.Core.List.{append-nil}
use native.Mathlib.Decide.{ℕ_discrete}
use naofs.Prelude.{
  ℕ, ◌+◌, ◌%◌, ◌≤◌, ◌<◌, ◌≡◌, refl, sym, ap, ◌∙◌, ◌≢◌, List, [], arith, length, slice, splice,
  replicate, length-splice, length-replicate, slice-splice_self, slice-splice_before,
  slice-splice_after, leb, if◌then◌else◌, ◌⊎◌, inl, inr,
}
use naofs.Params.{inode_size, sizeof_inode, num_of_inodes}
use naofs.Disk.{Disk, Block, ok, failed, fetch, store}
use naofs.Disk.Laws.{InMemory, fetch-store_self, fetch-store_ne}
use naofs.Inode.{INode, encode, decode}
use naofs.Inode.RoundTrip.{IsInode, decode-encode, length-encode}
use naofs.Meta.RoundTrip.{IsBlock}
use naofs.InodeTable.{block_of, byte_of, get_disk_inode, write_disk_inode, put_inode}

slot_end : (n : ℕ) → byte_of n + inode_size ≤ 1024
slot_end n = omega arith

length-put_inode : (block : Block) (n : ℕ) (i : INode) → length (put_inode block n i) ≡ length block
unfolding put_inode
length-put_inode block n i =
    length-splice (splice block (byte_of n) (replicate inode_size 0)) (byte_of n) (encode i)
    ∙ length-splice block (byte_of n) (replicate inode_size 0)

-- The slot that was written.
slice-put_inode_self :
    (block : Block) (n : ℕ) (i : INode)
    → IsInode i
    → IsBlock block
    → slice (byte_of n) sizeof_inode (put_inode block n i) ≡ encode i
unfolding put_inode
slice-put_inode_self block n i v b =
    let cleared = splice block (byte_of n) (replicate inode_size 0) in
    let len = length-splice block (byte_of n) (replicate inode_size 0) in
    ap (λ k. slice (byte_of n) k (splice cleared (byte_of n) (encode i))) (sym (length-encode i v))
    ∙ slice-splice_self cleared (byte_of n) (encode i)
        (omega (arith, slot_end n, length-encode i v, len))

-- Another slot of the block.
slice-put_inode_ne :
    (block : Block) (n m : ℕ) (i : INode)
    → IsInode i
    → n % 4 ≢ m % 4
    → slice (byte_of m) sizeof_inode (put_inode block n i) ≡ slice (byte_of m) sizeof_inode block
unfolding put_inode
slice-put_inode_ne block n m i v ne = go (omega arith)
  where
    zeros : List ℕ
    zeros = replicate inode_size 0

    go :
        (byte_of m + 256 ≤ byte_of n) ⊎ (byte_of n + 256 ≤ byte_of m)
        → slice
            (byte_of m)
            sizeof_inode
            (splice (splice block (byte_of n) zeros) (byte_of n) (encode i))
          ≡ slice (byte_of m) sizeof_inode block
    go (inl h) =
        slice-splice_before (splice block (byte_of n) zeros) (byte_of n) (encode i) (byte_of m) 176
          (omega arith)
        ∙ slice-splice_before block (byte_of n) zeros (byte_of m) 176 (omega arith)
    go (inr h) =
        slice-splice_after (splice block (byte_of n) zeros) (byte_of n) (encode i) (byte_of m) 176
          (omega (arith, length-encode i v))
        ∙ slice-splice_after block (byte_of n) zeros (byte_of m) 176
            (omega (arith, length-replicate {A = ℕ} 256 0))

-- What one slot shows of an inode number in range.
get_disk_inode-ok :
    (d : Disk) (n : ℕ) (buffer : INode)
    → n < num_of_inodes
    → get_disk_inode d n buffer
      ≡ (ok, decode (slice (byte_of n) sizeof_inode (fetch d (block_of n))))
unfolding get_disk_inode
get_disk_inode-ok d n buffer h = ground arith

write_disk_inode-ok :
    (d : Disk) (n : ℕ) (i : INode)
    → n < num_of_inodes
    → write_disk_inode d n i ≡ (ok, store d (block_of n) (put_inode (fetch d (block_of n)) n i))
unfolding write_disk_inode
write_disk_inode-ok d n i h = ground arith

-- On a disk in memory, an inode whose members fit their types, written to its slot in a block of
-- full length, is read back, whatever the buffer it is read into, and the block keeps its length.
pub get_disk_inode-write_self :
    (d : Disk) (n : ℕ) (i buffer : INode)
    → InMemory d
    → n < num_of_inodes
    → IsBlock (fetch d (block_of n))
    → IsInode i
    → ((write_disk_inode d n i).0 ≡ ok)
      × (get_disk_inode (write_disk_inode d n i).1 n buffer ≡ (ok, i))
      × IsBlock (fetch (write_disk_inode d n i).1 (block_of n))
get_disk_inode-write_self d n i buffer m h b v =
    let block = put_inode (fetch d (block_of n)) n i in
    let d' = store d (block_of n) block in
    let same : fetch d' (block_of n) ≡ block =
      fetch-store_self d (block_of n) block m (omega arith) in
    rw (write_disk_inode-ok d n i h) (
      refl,
      get_disk_inode-ok d' n buffer h
          ∙ ap (λ x. (ok, decode x))
              (ap (slice (byte_of n) sizeof_inode) same
                ∙ slice-put_inode_self (fetch d (block_of n)) n i v b)
          ∙ ap (λ x. (ok, x)) (ap decode (sym (append-nil (encode i))) ∙ decode-encode i [] v),
      rw same (length-put_inode (fetch d (block_of n)) n i ∙ b),
    )

slice-store_ne :
    (d : Disk) (n m : ℕ) (i : INode)
    → InMemory d
    → n < num_of_inodes
    → m ≢ n
    → IsInode i
    → slice
        (byte_of m)
        sizeof_inode
        (fetch (store d (block_of n) (put_inode (fetch d (block_of n)) n i)) (block_of m))
      ≡ slice (byte_of m) sizeof_inode (fetch d (block_of m))
slice-store_ne d n m i mem h ne v = elim (ℕ_discrete (block_of m) (block_of n)) [
  | yes e ↦
      let slots : n % 4 ≢ m % 4 = omega arith in
      rw e (
        ap (slice (byte_of m) sizeof_inode)
          (fetch-store_self d (block_of n) (put_inode (fetch d (block_of n)) n i) mem (omega arith))
        ∙ slice-put_inode_ne (fetch d (block_of n)) n m i v slots)
  | no e ↦
      ap (slice (byte_of m) sizeof_inode)
        (fetch-store_ne d (block_of n) (put_inode (fetch d (block_of n)) n i) (block_of m) mem e)
]

-- On a disk in memory, writing one inode, whose members fit their types, changes no other: each
-- other number is read as before.
pub get_disk_inode-write_ne :
    (d : Disk) (n m : ℕ) (i buffer : INode)
    → InMemory d
    → n < num_of_inodes
    → m ≢ n
    → IsInode i
    → get_disk_inode (write_disk_inode d n i).1 m buffer ≡ get_disk_inode d m buffer
unfolding get_disk_inode
get_disk_inode-write_ne d n m i buffer mem h ne v = rw (write_disk_inode-ok d n i h) (
    ap (λ x. if leb num_of_inodes m then (failed, buffer) else (ok, decode x))
      (slice-store_ne d n m i mem h ne v))
