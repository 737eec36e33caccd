-- ===== src/Listing/Round.antt =====
-- What a round of the listing gives: the names of the entries of one block.
use naofs.Tree.Bmap.{bmap-inside, leaf-same}
use naofs.Prelude.{
  ℕ, zero, suc, ◌+◌, ◌-◌, ◌*◌, ◌/◌, ◌%◌, ◌≡◌, ◌≤◌, ◌<◌, ◌⊎◌, inl, inr, refl, ap, ap₂, ◌∙◌, min,
  Bool, false, true, none, some, List, [], ◌∷◌, ◌++◌, take, drop, slice, length, replicate,
  if◌then◌else◌, ltb, lt→ltb, le→ltb-false, arith,
}
use naofs.Params.{block_size, directory_entry_size, filename_size}
use naofs.Disk.{Disk, fetch}
use naofs.Inode.{InCoreINode}
use naofs.Tree.{bmap, read_mode, BmapResponse, create_bmap_response, leaf_block, calculate_offset}
use naofs.Directory.{
  DirectoryEntry, is_dir, validate_search, entries_in_block, collect_block, read_entry,
}
use naofs.Namei.{cleared_entry}
use naofs.Unlink.{c_string}
use naofs.Listing.{
  collect_in_block, collect_loop, collect_inode_directory_entries, entries_per_iteration, names_of,
}

-- The name in the entry `k` of a directory, and `n` names from the entry `k` on.
abbrev pub name_at : InCoreINode → Disk → ℕ → List ℕ
name_at c d k = c_string (
    slice (k * directory_entry_size % block_size) filename_size
      (fetch d (leaf_block c (calculate_offset (k * directory_entry_size)) d)))

abbrev pub names_from : InCoreINode → Disk → (k n : ℕ) → List (List ℕ)
names_from c d k zero = []
names_from c d k (suc n) = name_at c d k ∷ names_from c d (suc k) n

pub names_from-append :
    (c : InCoreINode) (d : Disk) (k m n : ℕ)
    → names_from c d k m ++ names_from c d (k + m) n ≡ names_from c d k (m + n)
names_from-append c d k zero n =
    let e : k + 0 ≡ k = omega arith in
    let e' : n ≡ 0 + n = omega arith in ap₂ (λ o m. names_from c d o m) e e'
names_from-append c d k (suc m) n =
    let e : k + suc m ≡ suc k + m = omega arith in
    let e' : suc (m + n) ≡ suc m + n = omega arith in
    ap (λ l. name_at c d k ∷ l)
      (ap (λ o. names_from c d (suc k) m ++ names_from c d o n) e
        ∙ names_from-append c d (suc k) m n)
    ∙ ap (names_from c d k) e'

-- The entries of block `j` from its entry `i` on.
pub collect_block-names :
    (n : ℕ) (c : InCoreINode) (d : Disk) (j i : ℕ) (buffer : List DirectoryEntry)
    → i + n ≤ 16
    → n ≤ length buffer
    → names_of (
        take n (
          collect_block n
            (fetch d (leaf_block c (calculate_offset (j * block_size)) d))
            (i * directory_entry_size)
            buffer))
      ≡ names_from c d (16 * j + i) n
unfolding names_of take collect_block read_entry
collect_block-names zero c d j i buffer h l = refl
collect_block-names (suc n) c d j i [] h l = absurd (omega arith)
collect_block-names (suc n) c d j i (old ∷ buffer) h l =
    let k : (j * block_size) / block_size ≡ ((16 * j + i) * directory_entry_size) / block_size =
      omega arith in
    let ptr : i * directory_entry_size ≡ (16 * j + i) * directory_entry_size % block_size =
      omega arith in
    let next : i * directory_entry_size + directory_entry_size ≡ suc i * directory_entry_size =
      omega arith in
    let from : 16 * j + suc i ≡ suc (16 * j + i) = omega arith in
    let block = fetch d (leaf_block c (calculate_offset (j * block_size)) d) in
    ap₂ ◌∷◌
      (ap₂ (λ o t. c_string (slice o filename_size (fetch d (leaf_block c t d)))) ptr
        (leaf-same (j * block_size) ((16 * j + i) * directory_entry_size) k))
      (ap (λ o. names_of (take n (collect_block n block o buffer))) next
        ∙ collect_block-names n c d j (suc i) buffer (omega arith) (omega arith)
        ∙ ap (λ o. names_from c d o n) from)

bmap-past :
    (now : ℕ) (c : InCoreINode) (offset : ℕ) (d : Disk)
    → c.size ≤ offset
    → (bmap now c offset read_mode d).0 ≡ none
unfolding bmap
bmap-past now c offset d h = ground arith

same_cases : {A : Type 0} (b : Bool) (x y : A) → y ≡ x → elim b [ false ↦ x | true ↦ y ] ≡ x
same_cases false x y e = refl
same_cases true x y e = e

-- A round of the loop over blocks, and its end.
module _ (fuel now : ℕ) (c : InCoreINode) (wanted read offset : ℕ) (buffer : List DirectoryEntry)
    (d : Disk) where
  collect_round : BmapResponse → ℕ × List DirectoryEntry
  collect_round r =
      let (n, filled) = collect_in_block (c.size - offset) r (drop read buffer) d in
      collect_loop fuel now c wanted (read + n) (offset + block_size) (take read buffer ++ filled) d

  collect_loop-step :
      read < wanted
      → offset < c.size
      → let (n, filled) =
          collect_in_block
            (c.size - offset)
            (create_bmap_response (leaf_block c (calculate_offset offset) d) (offset % block_size))
            (drop read buffer)
            d in
        collect_loop (suc fuel) now c wanted read offset buffer d
        ≡ collect_loop fuel now c wanted
            (read + n)
            (offset + block_size)
            (take read buffer ++ filled)
            d
  unfolding collect_loop collect_round
  collect_loop-step h o =
      ap
        (λ b. elim b [
          | false ↦ (read, buffer)
          | true ↦ elim (bmap now c offset read_mode d).0 [
            | none ↦ (read, buffer)
            | some r ↦ collect_round r
          ]
        ])
        (lt→ltb read wanted h)
      ∙ ap (λ a. elim a [ none ↦ (read, buffer) | some r ↦ collect_round r ])
          (bmap-inside now c offset d o)

  collect_loop-end :
      (wanted ≤ read) ⊎ (c.size ≤ offset)
      → collect_loop (suc fuel) now c wanted read offset buffer d ≡ (read, buffer)
  unfolding collect_loop collect_round
  collect_loop-end (inl h) =
      ap
        (λ b. elim b [
          | false ↦ (read, buffer)
          | true ↦ elim (bmap now c offset read_mode d).0 [
            | none ↦ (read, buffer)
            | some r ↦ collect_round r
          ]
        ])
        (le→ltb-false read wanted h)
  collect_loop-end (inr h) =
      same_cases (ltb read wanted) (read, buffer)
        (elim (bmap now c offset read_mode d).0 [
          | none ↦ (read, buffer)
          | some r ↦ collect_round r
        ])
        (ap (λ a. elim a [ none ↦ (read, buffer) | some r ↦ collect_round r ])
          (bmap-past now c offset d h))

entries-in_block :
    (size j block : ℕ)
    → (16 * j + 1) * directory_entry_size ≤ size
    → entries_in_block (size - j * block_size) (create_bmap_response block 0)
      ≡ min 16 (size / directory_entry_size - 16 * j)
unfolding entries_in_block create_bmap_response
entries-in_block size j block h = ground arith

-- A round of the filling loop at the start of block `j`: the entries of that block.
pub collect-names :
    (now : ℕ) (c : InCoreINode) (d : Disk) (j : ℕ)
    → is_dir c.file_mode ≡ true
    → (16 * j + 1) * directory_entry_size ≤ c.size
    → let n = min 16 (c.size / directory_entry_size - 16 * j) in
      collect_inode_directory_entries now c
        (16 * j)
        (replicate entries_per_iteration cleared_entry)
        entries_per_iteration
        d
      ≡ some (
        n,
        collect_block n
            (fetch d (leaf_block c (calculate_offset (j * block_size)) d))
            0
            (replicate entries_per_iteration cleared_entry),
      )
unfolding collect_inode_directory_entries validate_search collect_in_block create_bmap_response take
    drop
collect-names now c d j v h =
    let buffer = replicate entries_per_iteration cleared_entry in
    let block = leaf_block c (calculate_offset (j * block_size)) d in
    let blocks = c.size / block_size in
    let n = min 16 (c.size / directory_entry_size - 16 * j) in
    let fuel : blocks + 2 ≡ suc (suc blocks) = omega arith in
    let offset : 16 * j * directory_entry_size ≡ j * block_size = omega arith in
    let start : (j * block_size) % block_size ≡ 0 = omega arith in
    let count : 0 + n ≡ n = omega arith in
    let last : (16 ≤ 0 + n) ⊎ (c.size ≤ j * block_size + block_size) = ground arith in
    ap
      (λ b.
        if b
        then some (collect_loop (blocks + 2) now c 16 0 (16 * j * directory_entry_size) buffer d)
        else none)
      v
    ∙ ap some (
        ap₂ (λ f o. collect_loop f now c 16 0 o buffer d) fuel offset
        ∙ collect_loop-step (suc blocks) now c 16 0 (j * block_size) buffer d (omega arith)
            (omega arith)
        ∙ ap₂
            (λ o m.
              collect_loop (suc blocks) now c 16 (0 + m) (j * block_size + block_size)
                (collect_block m (fetch d block) o buffer) d)
            start
            (ap (λ o. entries_in_block (c.size - j * block_size) (create_bmap_response block o))
                start
              ∙ entries-in_block c.size j block h)
        ∙ collect_loop-end blocks now c 16 (0 + n) (j * block_size + block_size)
            (collect_block n (fetch d block) 0 buffer) d last
        ∙ ap (λ m. (m, collect_block n (fetch d block) 0 buffer)) count)
