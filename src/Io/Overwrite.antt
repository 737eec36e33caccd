-- ===== src/Io/Overwrite.antt =====
-- A write that starts inside a file of one block.
use native.Mathlib.Decide.{ℕ_discrete}
use naofs.Prelude.{
  slice-all, slice-splice_within, ℕ, zero, suc, ◌+◌, ◌-◌, ◌/◌, ◌%◌, ◌^◌, ◌≡◌, ◌≤◌, ◌<◌, refl, sym,
  ap, ap₂, ◌∙◌, min, List, slice, splice, length, get_or, length-splice, int_sum, int_sum-small,
  arith,
}
use naofs.Params.{block_size}
use naofs.Disk.{Disk, fetch, store, num_of_blocks_in_mem}
use naofs.Disk.Laws.{InMemory, fetch-store_self, fetch-store_ne}
use naofs.Inode.{InCoreINode}
use naofs.Tree.{append_mode, leaf_block, calculate_offset}
use naofs.Tree.Bmap.{bmap-direct}
use naofs.Meta.RoundTrip.{IsBlock}
use naofs.Io.{write_to_block, write_metadata, write_loop, read_bytes}
use naofs.Io.Read.{contents, contents-slice, read_bytes-contents}
use naofs.Io.Write.{write_round, write_loop-step, write_loop-end}

-- The number of the first block of a file.
abbrev pub first_block : InCoreINode → ℕ
first_block c = get_or c.data_block_nums 0 0

-- The first block with the bytes of a write.
abbrev pub written_block : InCoreINode → Disk → (offset : ℕ) → (bytes : List ℕ) → Disk
written_block c d offset bytes =
    store d (first_block c) (splice (fetch d (first_block c)) offset bytes)

write_metadata-inside :
    (now : ℕ) (c : InCoreINode) (size offset bytes : ℕ)
    → offset < c.size
    → size ≤ c.size
    → c.size < 2 ^ 64
    → write_metadata now c size 0 offset bytes ≡ c
unfolding write_metadata
write_metadata-inside now c size offset bytes h le lt = ground arith

-- A write of one byte or more from inside a file, no longer than the file and within its first
-- block, counts all its bytes and puts them in place, but leaves the size as it is, also when it
-- ends past the end of the file.
pub write_loop-one_block :
    (now : ℕ) (c : InCoreINode) (buf : List ℕ) (size offset : ℕ) (d : Disk)
    → 0 < size
    → offset < c.size
    → size ≤ c.size
    → c.size < 2 ^ 64
    → offset + size ≤ block_size
    → write_loop size now c buf size 0 offset d
      ≡ (size, c, written_block c d offset (slice 0 size buf))
unfolding write_round write_to_block
write_loop-one_block now c buf zero offset d p h le lt b = absurd (omega arith)
write_loop-one_block now c buf (suc f) offset d p h le lt b =
    let bytes = min (block_size - offset % block_size) (suc f - 0) in
    let all : bytes ≡ suc f = omega arith in
    let first : offset / block_size ≡ 0 = omega arith in
    let inside : offset % block_size ≡ offset = omega arith in
    let count : 0 + suc f ≡ suc f = omega arith in
    let stored : (k j n : ℕ) → Disk = λ k j n.
      store d (get_or c.data_block_nums k 0)
        (splice (fetch d (get_or c.data_block_nums k 0)) j (slice 0 n buf)) in
    write_loop-step f now buf (suc f) 0 offset c d p
    ∙ ap (write_round f now buf (suc f) 0 offset)
        (bmap-direct now c offset append_mode d h (omega arith))
    ∙ ap
        (λ i.
          write_loop f now i buf (suc f) (int_sum 0 bytes) (offset + bytes)
            (stored (offset / block_size) (offset % block_size) bytes))
        (write_metadata-inside now c (suc f) offset bytes h le lt)
    ∙ ap
        (λ n.
          write_loop f now c buf (suc f) (int_sum 0 n) (offset + n)
            (stored (offset / block_size) (offset % block_size) n))
        all
    ∙ ap₂
        (λ k j.
          write_loop f now c buf (suc f) (int_sum 0 (suc f)) (offset + suc f) (stored k j (suc f)))
        first inside
    ∙ ap (λ n. write_loop f now c buf (suc f) n (offset + suc f) (stored 0 offset (suc f)))
        (int_sum-small 0 (suc f) (omega arith))
    ∙ write_loop-end f now c buf (suc f) (0 + suc f) (offset + suc f) (stored 0 offset (suc f))
        (omega arith)
    ∙ ap (λ n. (n, c, stored 0 offset (suc f))) count

-- The bytes of a file of one block are those of its first block.
contents-first :
    (c : InCoreINode) (d : Disk) (n : ℕ)
    → n ≤ block_size
    → IsBlock (fetch d (first_block c))
    → contents c d 0 n ≡ slice 0 n (fetch d (first_block c))
unfolding leaf_block calculate_offset
contents-first c d n h l = sym (contents-slice n c d 0 0 0 refl (omega arith) l)

blocks-written :
    (c : InCoreINode) (d : Disk) (offset : ℕ) (bytes : List ℕ)
    → InMemory d
    → first_block c < num_of_blocks_in_mem
    → ((b : ℕ) → IsBlock (fetch d b))
    → (b : ℕ) → IsBlock (fetch (written_block c d offset bytes) b)
blocks-written c d offset bytes m f l b =
    let block = splice (fetch d (first_block c)) offset bytes in
    elim (ℕ_discrete b (first_block c)) [
      | yes e ↦
          ap (λ n. length (fetch (store d (first_block c) block) n)) e
          ∙ ap length (fetch-store_self d (first_block c) block m f)
          ∙ length-splice (fetch d (first_block c)) offset bytes
          ∙ l (first_block c)
      | no ne ↦ ap length (fetch-store_ne d (first_block c) block b m ne) ∙ l b
    ]

-- Reading the whole of a file of one block.
pub read_bytes-first :
    (now : ℕ) (c : InCoreINode) (d : Disk)
    → c.size ≤ block_size
    → ((b : ℕ) → IsBlock (fetch d b))
    → read_bytes now c c.size 0 d ≡ (c.size, slice 0 c.size (fetch d (first_block c)))
read_bytes-first now c d le l =
    let whole : min c.size c.size ≡ c.size = omega arith in
    read_bytes-contents now c c.size d l
    ∙ ap (λ n. (n, contents c d 0 n)) whole
    ∙ ap (λ bs. (c.size, bs)) (contents-first c d c.size le (l (first_block c)))

-- What is written inside a file of one block is read back: on a disk in memory whose blocks have
-- their full length, a write of one byte or more to a range within the file counts all its
-- bytes, and the file then has the bytes it had with the written ones in their place.
pub read_bytes-write :
    (now : ℕ) (c : InCoreINode) (buf : List ℕ) (offset : ℕ) (d : Disk)
    → InMemory d
    → first_block c < num_of_blocks_in_mem
    → ((b : ℕ) → IsBlock (fetch d b))
    → 0 < length buf
    → offset + length buf ≤ c.size
    → c.size ≤ block_size
    → let (count, c', d') = write_loop (length buf) now c buf (length buf) 0 offset d in
      (count ≡ length buf)
      × (read_bytes now c' c'.size 0 d'
          ≡ (c.size, splice (read_bytes now c c.size 0 d).1 offset buf))
read_bytes-write now c buf offset d m f l p h le =
    let b = first_block c in
    let w = written_block c d offset buf in
    let e =
      write_loop-one_block now c buf (length buf) offset d p (omega arith) (omega arith)
        (omega arith) (omega arith)
      ∙ ap (λ bs. (length buf, c, written_block c d offset bs)) (slice-all buf) in
    (
      ap (λ r. r.0) e,
      ap (λ (r : ℕ × InCoreINode × Disk). read_bytes now r.1 r.1.size 0 r.2) e
          ∙ read_bytes-first now c w le (blocks-written c d offset buf m f l)
          ∙ ap (λ bs. (c.size, slice 0 c.size bs))
              (fetch-store_self d b (splice (fetch d b) offset buf) m f)
          ∙ ap (λ bs. (c.size, bs)) (slice-splice_within (fetch d b) offset c.size buf h)
          ∙ ap (λ (r : ℕ × List ℕ). (c.size, splice r.1 offset buf))
              (sym (read_bytes-first now c d le l)),
    )
