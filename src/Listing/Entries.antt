-- ===== src/Listing/Entries.antt =====
-- The names of the entries of a directory of one block, and what a write of one entry does to them.
use naofs.Prelude.{
  ℕ, zero, suc, ◌+◌, ◌*◌, ◌/◌, ◌%◌, ◌≡◌, ◌≢◌, ◌≤◌, ◌<◌, refl, sym, ap, ap₂, ◌∙◌, List, [], ◌∷◌,
  take, slice, splice, slice-splice_before, slice-splice_self, to_bytes, set, length, get_or, arith,
}
use naofs.Params.{block_size, filename_size, inode_address_size, directory_entry_size}
use naofs.Disk.{Disk, Block, fetch}
use naofs.Inode.{InCoreINode}
use naofs.Meta.RoundTrip.{IsBlock}
use naofs.Tree.{leaf_block, calculate_offset}
use naofs.Tree.Bmap.{leaf-same}
use naofs.Directory.{write_entry}
use naofs.Directory.Entry.{slice-write_entry}
use naofs.Directory.Search.{first_block}
use naofs.Unlink.{c_string}
use naofs.Listing.Round.{name_at, names_from}

-- The names of the entries of a block.
abbrev pub entry_names : Block → (k n : ℕ) → List (List ℕ)
entry_names block k zero = []
entry_names block k (suc n) =
    c_string (slice (k * directory_entry_size) filename_size block) ∷ entry_names block (suc k) n

pub names_from-first :
    (n : ℕ) (c : InCoreINode) (d : Disk) (k : ℕ)
    → k + n ≤ 16
    → names_from c d k n ≡ entry_names (fetch d (first_block c)) k n
unfolding leaf_block calculate_offset
names_from-first zero c d k h = refl
names_from-first (suc n) c d k h =
    let first : k * directory_entry_size / block_size ≡ 0 / block_size = omega arith in
    let inside : k * directory_entry_size % block_size ≡ k * directory_entry_size = omega arith in
    ap₂ ◌∷◌
      (ap₂ (λ o t. c_string (slice o filename_size (fetch d (leaf_block c t d)))) inside
        (leaf-same (k * directory_entry_size) 0 first))
      (names_from-first n c d (suc k) (omega arith))

pub entry_names-take :
    (m n : ℕ) (block : Block) (k : ℕ)
    → m ≤ n
    → take m (entry_names block k n) ≡ entry_names block k m
unfolding take
entry_names-take zero n block k h = refl
entry_names-take (suc m) zero block k h = absurd (omega arith)
entry_names-take (suc m) (suc n) block k h =
    ap (λ l. c_string (slice (k * directory_entry_size) filename_size block) ∷ l)
      (entry_names-take m n block (suc k) (omega arith))

-- An entry that is written over another changes that name and no other.
module _ (block : Block) (i number : ℕ) (name : List ℕ) (b : IsBlock block)
    (l : length (take filename_size name) ≡ filename_size) where
  abbrev over : Block
  over = write_entry block (i * directory_entry_size) name number

  slice-other :
      (k : ℕ)
      → k ≢ i
      → slice (k * directory_entry_size) filename_size over
        ≡ slice (k * directory_entry_size) filename_size block
  slice-other k ne =
      slice-write_entry block i k number (k * directory_entry_size) 0 filename_size name
        (omega arith) b ne l (omega arith)

  pub slice-over :
      i < 16 → slice (i * directory_entry_size) filename_size over ≡ take filename_size name
  unfolding write_entry
  slice-over h =
      let ptr = i * directory_entry_size in
      let name' = take filename_size name in
      let block1 = splice block ptr name' in
      slice-splice_before block1 (ptr + filename_size) (to_bytes inode_address_size number) ptr
        filename_size (omega arith)
      ∙ ap (λ k. slice ptr k block1) (sym l)
      ∙ slice-splice_self block ptr name' (omega arith)

  entry_names-behind : (n k : ℕ) → i < k → entry_names over k n ≡ entry_names block k n
  entry_names-behind zero k h = refl
  entry_names-behind (suc n) k h =
      ap₂ (λ s l. c_string s ∷ l) (slice-other k (λ e. omega arith))
        (entry_names-behind n (suc k) (omega arith))

  pub entry_names-over :
      (n j k : ℕ)
      → i ≡ k + j
      → slice (i * directory_entry_size) filename_size over ≡ take filename_size name
      → entry_names over k n ≡ set (entry_names block k n) j (c_string (take filename_size name))
  entry_names-over zero j k e s = refl
  entry_names-over (suc n) zero k e s =
      let same : k ≡ i = omega arith in
      ap₂ (λ s l. c_string s ∷ l)
        (ap (λ q. slice (q * directory_entry_size) filename_size over) same ∙ s)
        (entry_names-behind n (suc k) (omega arith))
  entry_names-over (suc n) (suc j) k e s =
      ap₂ (λ s l. c_string s ∷ l) (slice-other k (λ q. omega arith))
        (entry_names-over n j (suc k) (omega arith) s)

pub name_at-first :
    (c : InCoreINode) (d : Disk) (k : ℕ)
    → k < 16
    → name_at c d k
      ≡ c_string (slice (k * directory_entry_size) filename_size (fetch d (first_block c)))
name_at-first c d k h =
    ap (λ (l : List (List ℕ)). get_or l 0 []) (names_from-first 1 c d k (omega arith))
