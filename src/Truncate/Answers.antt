-- ===== src/Truncate/Answers.antt =====
-- The answers that the loops of truncate.c get from `bmap`, and what they do to the size.
use naofs.Prelude.{
  ℕ, zero, suc, ◌+◌, ◌-◌, ◌%◌, ◌^◌, ◌≤◌, ◌<◌, ◌≡◌, ◌≢◌, refl, sym, ap, ◌∙◌, Option, some, ◌==◌,
  if_both, ℤ, pos, negsuc, add_int, to_int, to_int-small, negate, arith,
}
use native.Mathlib.Decide.{ℕ_discrete}
use naofs.Params.{block_size}
use naofs.Blocks.{block_alloc}
use naofs.Disk.{Disk}
use naofs.Inode.{InCoreINode}
use naofs.Tree.{
  BmapResponse, BlkTreeOffset, direct, single, double, triple, beyond, bmap, read_mode, append_mode,
  update_inode_metadata, leaf_block, create_bmap_response, insert_data_block_in_inode, update_index,
  calculate_offset,
}

update_index-size :
    (now : ℕ) (c : InCoreINode) (add : ℕ) (t : BlkTreeOffset) (d : Disk)
    → c.size < 2 ^ 64
    → (update_index now c add t d).0.size ≡ c.size
unfolding update_index update_inode_metadata add_int
update_index-size now c add (direct i) d h = refl
update_index-size now c add beyond d h = refl
update_index-size now c add (single i) d h = omega arith
update_index-size now c add (double i j) d h = omega arith
update_index-size now c add (triple i j k) d h = omega arith

insert-size :
    (now : ℕ) (c : InCoreINode) (add : ℕ) (d : Disk)
    → c.size < 2 ^ 64
    → (insert_data_block_in_inode now c add d).0.size ≡ c.size
unfolding insert_data_block_in_inode
insert-size now c add d h =
    if_both (λ (r : InCoreINode × Disk). r.0.size ≡ c.size) (c.size % block_size == 0)
      (update_index now c add (calculate_offset c.size) d) (c, d)
      (update_index-size now c add (calculate_offset c.size) d h) refl

size-update_inode_metadata :
    (now : ℕ) (c : InCoreINode) (z : ℤ) (links : ℕ)
    → (update_inode_metadata now c z links).size ≡ add_int c.size z
unfolding update_inode_metadata
size-update_inode_metadata now c (pos zero) links = refl
size-update_inode_metadata now c (pos (suc n)) links = refl
size-update_inode_metadata now c (negsuc n) links = refl

to_int-negate : (k : ℕ) → 0 < k → k ≤ block_size → to_int (negate k) ≡ negsuc (k - 1)
unfolding to_int negate
to_int-negate k p h = ground arith

pub grown-size :
    (now : ℕ) (c : InCoreINode) (k links : ℕ)
    → k ≤ block_size
    → c.size + k < 2 ^ 64
    → (update_inode_metadata now c (to_int k) links).size ≡ c.size + k
unfolding add_int
grown-size now c k links h lt =
    size-update_inode_metadata now c (to_int k) links
    ∙ ap (add_int c.size) (to_int-small k (omega arith))
    ∙ omega arith

pub shrunk-size :
    (now : ℕ) (c : InCoreINode) (k links : ℕ)
    → 0 < k
    → k ≤ block_size
    → k ≤ c.size
    → c.size < 2 ^ 64
    → (update_inode_metadata now c (to_int (negate k)) links).size ≡ c.size - k
unfolding add_int
shrunk-size now c k links p h le lt =
    size-update_inode_metadata now c (to_int (negate k)) links
    ∙ ap (add_int c.size) (to_int-negate k p h)
    ∙ omega arith

-- What an answer of `bmap` inside the file or at its end says.
pub data Answered (c : InCoreINode) (offset : ℕ)
    : Option BmapResponse × InCoreINode × Disk → Type 0 where
  answered :
      (r : Option BmapResponse × InCoreINode × Disk) (block : ℕ) (c' : InCoreINode) (d : Disk)
      → c'.size ≡ c.size
      → r ≡ (some (create_bmap_response block (offset % block_size)), c', d)
      → Answered c offset r

pub bmap-append_answer :
    (now : ℕ) (c : InCoreINode) (offset : ℕ) (d : Disk)
    → c.size ≡ offset
    → c.size < 2 ^ 64
    → Answered c offset (bmap now c offset append_mode d)
unfolding bmap
bmap-append_answer now c offset d o h = elim (ℕ_discrete (offset % block_size) 0) [
  | yes e ↦
      let (new, d1) = block_alloc d in
      let (c2, d2) = insert_data_block_in_inode now c new d1 in
      answered _ new c2 d2 (insert-size now c new d1 h)
        (at_end e ∙ ap (λ k. (some (create_bmap_response new k), c2, d2)) (sym e))
  | no ne ↦ answered _ (leaf_block c (calculate_offset offset) d) c d refl (inside ne)
]
  where
    at_end :
        offset % block_size ≡ 0
        → bmap now c offset append_mode d ≡ (
          some (create_bmap_response (block_alloc d).0 0),
          (insert_data_block_in_inode now c (block_alloc d).0 (block_alloc d).1).0,
          (insert_data_block_in_inode now c (block_alloc d).0 (block_alloc d).1).1,
        )
    at_end e = ground arith

    inside :
        offset % block_size ≢ 0
        → bmap now c offset append_mode d ≡ (
          some (
              create_bmap_response
                (leaf_block c (calculate_offset offset) d)
                (offset % block_size)),
          c,
          d,
        )
    inside ne = ground arith

pub bmap-read_answer :
    (now : ℕ) (c : InCoreINode) (offset : ℕ) (d : Disk)
    → offset < c.size
    → Answered c offset (bmap now c offset read_mode d)
unfolding bmap
bmap-read_answer now c offset d h =
    answered _ (leaf_block c (calculate_offset offset) d) c d refl (ground arith)
