-- ===== src/Mkfs/FreeList.antt =====
-- `initializeDiskBlocks` builds the stack of free blocks.
use naofs.Prelude.{
  ℕ, zero, suc, ◌+◌, ◌*◌, ◌^◌, ◌≤◌, ◌<◌, ◌≡◌, refl, ap, ◌∙◌, ◌≢◌, [], ◌∷◌, ◌++◌, arith, get_or, ltb,
  lt→ltb, ne→==-false, ◌==◌, if_both, Bool-cases, inl, inr, ==-false→ne,
}
use naofs.Params.{free_list_block}
use naofs.Disk.{Disk, fetch, store, num_of_blocks_in_mem}
use naofs.Disk.Laws.{InMemory, InMemory-store, fetch-store_self, fetch-store_ne}
use naofs.Meta.{make_one_block}
use naofs.Meta.RoundTrip.{IsBlock, IsBlockList}
use naofs.Blocks.Chain.{load, Chain, floor, link, IsFree}
use naofs.Mkfs.{initialize_disk_blocks}
use naofs.Mkfs.Upto.{
  upto, make_one_block-full, AllNe-upto, Distinct-upto, AllData-upto, make_one_block_next, no_zeros,
  upto-zero, get_or-upto, upto-snoc, upto-link,
}

-- What `d'` keeps of `d`.
abbrev Kept : Disk → ℕ → Disk → Type 0
Kept d k d' = InMemory d' × (fetch d' k ≡ fetch d k)

-- The loop writes to the block `pointer` and to blocks from `start` on.
initialize_disk_blocks_frame :
    (fuel limit : ℕ) (d : Disk) (pointer start k : ℕ)
    → InMemory d
    → k < start
    → k ≢ pointer
    → InMemory (initialize_disk_blocks fuel limit d pointer start)
      × (fetch (initialize_disk_blocks fuel limit d pointer start) k ≡ fetch d k)
unfolding initialize_disk_blocks
initialize_disk_blocks_frame zero limit d pointer start k m h ne = (m, refl)
initialize_disk_blocks_frame (suc fuel) limit d pointer start k m h ne =
    let next = (make_one_block limit start).0 in
    let d1 = store d pointer (make_one_block limit start).1 in
    let m1 : InMemory d1 = InMemory-store d pointer (make_one_block limit start).1 m in
    let e1 : fetch d1 k ≡ fetch d k =
      fetch-store_ne d pointer (make_one_block limit start).1 k m ne in
    let rest = initialize_disk_blocks fuel limit d1 next (start + 128) in
    elim (Bool-cases (next == 0)) [
      | inl last ↦ rw last (if_both (Kept d k) (ltb pointer limit) d1 d (m1, e1) (m, refl))
      | inr more ↦
          let en : next ≡ start + 127 = make_one_block_next limit start (==-false→ne next 0 more) in
          let ih =
            initialize_disk_blocks_frame fuel limit d1 next (start + 128) k m1 (omega arith)
              (omega arith) in
          rw more (if_both (Kept d k) (ltb pointer limit) rest d (ih.0, ih.1 ∙ e1) (m, refl))
    ]

-- One round, while a full list is left to write.
round :
    (fuel limit : ℕ) (d : Disk) (p start : ℕ)
    → 0 < start
    → p < limit
    → start + 128 ≤ limit
    → limit < 256 ^ 8
    → initialize_disk_blocks (suc fuel) limit d p start
      ≡ initialize_disk_blocks fuel limit
          (store d p (make_one_block limit start).1)
          (start + 127)
          (start + 128)
unfolding initialize_disk_blocks
round fuel limit d p start hs hp h lt =
    rw
      (
        lt→ltb p limit hp,
        (make_one_block-full limit start h lt).0,
        ne→==-false (start + 127) 0 (omega arith),
      )
      refl

-- What the round leaves in the block `p`, whatever the later rounds write.
abbrev Listed : Disk → ℕ → ℕ → Type 0
Listed d p start =
    InMemory d × IsBlock (fetch d p) × (load d p ≡ upto 128 start) × IsBlockList (load d p)

round-Listed :
    (fuel limit : ℕ) (d : Disk) (p start : ℕ)
    → InMemory d
    → 0 < start
    → p < start
    → p < num_of_blocks_in_mem
    → start + 128 ≤ limit
    → limit < 256 ^ 8
    → Listed (initialize_disk_blocks (suc fuel) limit d p start) p start
round-Listed fuel limit d p start m hs hp hm h lt =
    let block = (make_one_block limit start).1 in
    let d1 = store d p block in
    let full = make_one_block-full limit start h lt in
    let f =
      initialize_disk_blocks_frame fuel limit d1 (start + 127) (start + 128) p
        (InMemory-store d p block m) (omega arith) (omega arith) in
    let e = f.1 ∙ fetch-store_self d p block m hm in
    rw (round fuel limit d p start hs (omega arith) h lt)
      (f.0, rw e (full.2), rw e (full.1), rw (e, full.1) (full.3))

-- After `m` full lists, with room for one more, the blocks from `start` on are a stack over a floor.
build :
    (m fuel limit : ℕ) (d : Disk) (p start : ℕ)
    → m < fuel
    → InMemory d
    → 0 < start
    → p < start
    → p < num_of_blocks_in_mem
    → start + 128 * m ≤ num_of_blocks_in_mem
    → start + 128 * suc m ≤ limit
    → limit < 256 ^ 8
    → let d' = initialize_disk_blocks fuel limit d p start in
      InMemory d' × IsBlock (fetch d' p) × Chain d' (load d' p) (upto (128 * m) start)
build m zero limit d p start hf mem hs hp hm hb hl lt = absurd (omega arith)
build zero (suc fuel) limit d p start hf mem hs hp hm hb hl lt =
    let l = round-Listed fuel limit d p start mem hs hp hm (omega arith) lt in
    let first : get_or (load (initialize_disk_blocks (suc fuel) limit d p start) p) 0 0 ≡ start =
      ap (λ xs. get_or xs 0 0) (l.2) ∙ get_or-upto 127 start in
    (l.0, l.1, rw upto-zero (floor (l.3) (λ z. absurd (omega (arith, first)))))
build (suc m) (suc fuel) limit d p start hf mem hs hp hm hb hl lt =
    let l = round-Listed fuel limit d p start mem hs hp hm (omega arith) lt in
    let d1 = store d p (make_one_block limit start).1 in
    let d' = initialize_disk_blocks (suc fuel) limit d p start in
    let q = start + 127 in
    let e = round fuel limit d p start hs (omega arith) (omega arith) lt in
    let ih =
      build m fuel limit d1 q (start + 128) (omega arith)
        (InMemory-store d p (make_one_block limit start).1 mem) (omega arith) (omega arith)
        (omega arith) (omega arith) (omega arith) lt in
    let ihb : IsBlock (fetch d' q) = rw e (ih.1) in
    let ihc : Chain d' (load d' q) (upto (128 * m) (start + 128)) = rw e (ih.2) in
    (
      l.0,
      l.1,
      link 0 (upto 127 start) q (l.3)
          (l.2 ∙ upto-snoc 127 start ∙ no_zeros (upto 127 start ++ (q ∷ []))) (upto-link m start)
          (AllNe-upto 0 127 start hs) (omega arith) ihb ihc,
    )

-- On a disk in memory, `initializeDiskBlocks` makes the blocks from `start` on into the stack of
-- free blocks, in order: as many lists of 128 as the memory has room for, if the disk's size is at
-- least one list more. Blocks below `start`, but for the list's own, stay as they were.
pub initialize_disk_blocks_lem :
    (m fuel limit : ℕ) (d : Disk) (start : ℕ)
    → m < fuel
    → InMemory d
    → 2 < start
    → start + 128 * m ≤ num_of_blocks_in_mem
    → start + 128 * suc m ≤ limit
    → limit < 256 ^ 8
    → let d' = initialize_disk_blocks fuel limit d free_list_block start in
      IsFree d' (upto (128 * m) start)
      × ((k : ℕ) → k < start → k ≢ free_list_block → fetch d' k ≡ fetch d k)
initialize_disk_blocks_lem m fuel limit d start hf mem hs hb hl lt =
    let b =
      build m fuel limit d free_list_block start hf mem (omega arith) hs (omega arith) hb hl lt in
    (
      record {
        memory = b.0;
        block = b.1;
        blocks = AllData-upto (128 * m) start hs hb;
        distinct = Distinct-upto (128 * m) start;
        chain = b.2;
      },
      λ k h ne. (initialize_disk_blocks_frame fuel limit d free_list_block start k mem h ne).1,
    )
