-- ===== src/Io/Write.antt =====
-- What a write does to the size of a file and to its bytes.
use mathlib.Core.Path.{subst}
use native.Mathlib.Decide.{ℕ_discrete}
use naofs.Prelude.{
  ℕ, zero, suc, ◌+◌, ◌-◌, ◌%◌, ◌^◌, ◌≡◌, ◌≤◌, ◌<◌, refl, sym, ap, ◌∙◌, min, Option, false, true,
  none, some, List, slice, if◌then◌else◌, ltb, lt→ltb, le→ltb-false, ==-refl, ◌==◌, to_int, int_sum,
  int_sum-small, arith,
}
use naofs.Params.{block_size}
use naofs.Disk.{Disk}
use naofs.Inode.{InCoreINode}
use naofs.Tree.{
  bmap, append_mode, tree_size, BmapResponse, create_bmap_response, update_inode_metadata,
}
use naofs.Truncate.Answers.{Answered, answered, grown-size, bmap-append_answer}
use naofs.Io.{write_to_block, write_metadata, write_loop}

module _ (fuel now : ℕ) (buf : List ℕ) (size written offset : ℕ) where
  unfoldable pub write_round : Option BmapResponse × InCoreINode × Disk → ℕ × InCoreINode × Disk
  write_round q =
      let (answer, c', d') = q in
      elim answer [
        | none ↦ (written, c', d')
        | some r ↦
            let bytes = min r.bytes_left_in_block (size - written) in
            write_loop fuel now (write_metadata now c' size written offset bytes) buf size
              (int_sum written bytes) (offset + bytes)
              (write_to_block d' r (slice written bytes buf))
      ]

  -- A round of the loop of a write.
  pub write_loop-step :
      (c : InCoreINode) (d : Disk)
      → written < size
      → write_loop (suc fuel) now c buf size written offset d
        ≡ write_round (bmap now c offset append_mode d)
  unfolding write_loop write_round
  write_loop-step c d h =
      ap
        (λ b. elim b [
          | false ↦ (written, c, d)
          | true ↦ write_round (bmap now c offset append_mode d)
        ])
        (lt→ltb written size h)

pub write_loop-end :
    (fuel now : ℕ) (c : InCoreINode) (buf : List ℕ) (size written offset : ℕ) (d : Disk)
    → size ≤ written
    → write_loop fuel now c buf size written offset d ≡ (written, c, d)
unfolding write_loop write_round
write_loop-end zero now c buf size written offset d h = refl
write_loop-end (suc fuel) now c buf size written offset d h =
    ap
      (λ b. elim b [
        | false ↦ (written, c, d)
        | true ↦ write_round fuel now buf size written offset (bmap now c offset append_mode d)
      ])
      (le→ltb-false written size h)

write_metadata-at_end :
    (now : ℕ) (c : InCoreINode) (size written offset bytes : ℕ)
    → offset ≡ c.size
    → bytes ≤ block_size
    → c.size + bytes < 2 ^ 64
    → (write_metadata now c size written offset bytes).size ≡ c.size + bytes
unfolding write_metadata
write_metadata-at_end now c size written offset bytes e h lt =
    ap
      (λ o.
        (if o == c.size
          then update_inode_metadata now c (to_int bytes) c.links_count
          else if ltb ((c.size + 2 ^ 64 - written) % 2 ^ 64) (size - written)
          then update_inode_metadata now c (to_int ((bytes + 2 ^ 64 - c.size) % 2 ^ 64))
              c.links_count
          else c).size)
      e
    ∙ ap
        (λ b.
          (if b
            then update_inode_metadata now c (to_int bytes) c.links_count
            else if ltb ((c.size + 2 ^ 64 - written) % 2 ^ 64) (size - written)
            then update_inode_metadata now c (to_int ((bytes + 2 ^ 64 - c.size) % 2 ^ 64))
                c.links_count
            else c).size)
        (==-refl c.size)
    ∙ grown-size now c bytes c.links_count h lt

-- All was written, and the file has grown by it.
abbrev Grown : (total size : ℕ) → ℕ × InCoreINode × Disk → Type 0
Grown total size (count, c, d) = (count ≡ size) × (c.size ≡ total)

write_round-grows :
    (fuel now : ℕ) (c : InCoreINode) (buf : List ℕ) (size written offset : ℕ)
    (q : Option BmapResponse × InCoreINode × Disk)
    → c.size ≡ offset
    → written < size
    → size < 2 ^ 31
    → c.size + (size - written) < 2 ^ 64
    → ((c1 : InCoreINode) (bytes : ℕ) (d1 : Disk)
        → 0 < bytes
        → bytes ≤ size - written
        → c1.size ≡ c.size + bytes
        → Grown
            (c.size + (size - written))
            size
            (write_loop fuel now c1 buf size (written + bytes) (offset + bytes) d1))
    → Answered c offset q
    → Grown (c.size + (size - written)) size (write_round fuel now buf size written offset q)
unfolding write_round create_bmap_response
write_round-grows fuel now c buf size written offset q o w i lt rest (answered _ block c' d s e) =
    let r = create_bmap_response block (offset % block_size) in
    let bytes = min (block_size - offset % block_size) (size - written) in
    let c1 = write_metadata now c' size written offset bytes in
    let d1 = write_to_block d r (slice written bytes buf) in
    subst
      (λ a. Grown (c.size + (size - written)) size (write_round fuel now buf size written offset a))
      (sym e)
      (subst
        (λ k.
          Grown (c.size + (size - written)) size
            (write_loop fuel now c1 buf size k (offset + bytes) d1))
        (sym (int_sum-small written bytes (omega arith)))
        (rest (write_metadata now c' size written offset bytes) bytes
          (write_to_block d r (slice written bytes buf)) (omega arith) (omega arith)
          (write_metadata-at_end now c' size written offset bytes (omega arith) (omega arith)
              (omega arith)
            ∙ ap (λ k. k + bytes) s)))

write_loop-grows :
    (fuel now : ℕ) (c : InCoreINode) (buf : List ℕ) (size written offset : ℕ) (d : Disk)
    → c.size ≡ offset
    → size ≤ written + fuel
    → written ≤ size
    → size < 2 ^ 31
    → c.size + (size - written) < 2 ^ 64
    → Grown (c.size + (size - written)) size (write_loop fuel now c buf size written offset d)
write_loop-grows zero now c buf size written offset d o f w i lt =
    subst (Grown (c.size + (size - written)) size)
      (sym (write_loop-end zero now c buf size written offset d (omega arith)))
      (omega arith, omega arith)
write_loop-grows (suc fuel) now c buf size written offset d o f w i lt =
    elim (ℕ_discrete written size) [
      | yes same ↦
          subst (Grown (c.size + (size - written)) size)
            (sym (write_loop-end (suc fuel) now c buf size written offset d (omega arith)))
            (same, omega arith)
      | no ne ↦
          subst (Grown (c.size + (size - written)) size)
            (sym (write_loop-step fuel now buf size written offset c d (omega arith)))
            (write_round-grows fuel now c buf size written offset (bmap now c offset append_mode d)
              o (omega arith) i lt
              (λ c1 bytes d1 p b e.
                subst
                  (λ n.
                    Grown n size
                      (write_loop fuel now c1 buf size (written + bytes) (offset + bytes) d1))
                  (omega arith)
                  (write_loop-grows fuel now c1 buf size (written + bytes) (offset + bytes) d1
                    (omega arith) (omega arith) (omega arith) i (omega arith)))
              (bmap-append_answer now c offset d o (omega arith)))
    ]

-- A write of less than 2 ^ 31 bytes at the end of a file counts all its bytes, and the file has
-- grown by as many, whatever the disk and the block tree are, as long as the bytes fit into the
-- blocks that the triple indirect tree reaches; the loop needs no more rounds than there are bytes.
pub write_loop-append :
    (now : ℕ) (c : InCoreINode) (buf : List ℕ) (size : ℕ) (d : Disk)
    → size < 2 ^ 31
    → c.size + size ≤ tree_size
    → ((write_loop size now c buf size 0 c.size d).0 ≡ size)
      × ((write_loop size now c buf size 0 c.size d).1.size ≡ c.size + size)
write_loop-append now c buf size d i le =
    let grown =
      write_loop-grows size now c buf size 0 c.size d refl (omega arith) (omega arith) i
        (omega arith) in
    (grown.0, grown.1 ∙ omega arith)
