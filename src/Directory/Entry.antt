-- ===== src/Directory/Entry.antt =====
-- An entry that was written is read back, and no other entry of the block changes.
use native.Mathlib.Decide.{ℕ_discrete}
use naofs.Prelude.{
  ℕ, ◌+◌, ◌*◌, ◌-◌, ◌%◌, ◌^◌, ◌≤◌, ◌<◌, ◌≡◌, ◌≢◌, refl, sym, ap, ◌∙◌, min, List, length, take,
  slice, splice, arith, to_bytes, from_bytes, from_bytes-to_bytes, length-to_bytes, length-splice,
  slice-splice_self, slice-splice_before, slice-splice_after,
}
use naofs.Params.{filename_size, inode_address_size, directory_entry_size}
use naofs.Disk.{Block}
use naofs.Meta.RoundTrip.{IsBlock}
use naofs.Directory.{DirectoryEntry, read_entry, write_entry}

-- The name of 62 bytes and the number of 2 bytes of an entry that was written to one of the 16
-- slots of a block are read back, into a buffer whose number has no high bytes set.
pub read_entry-write :
    (block : Block) (slot number : ℕ) (name : List ℕ) (old : DirectoryEntry)
    → IsBlock block
    → slot < 16
    → length (take filename_size name) ≡ filename_size
    → number < 2 ^ 16
    → old.inode_num < 2 ^ 16
    → read_entry
        (write_entry block (slot * directory_entry_size) name number)
        (slot * directory_entry_size)
        old
      ≡ record { name = take filename_size name; inode_num = number }
unfolding read_entry write_entry
read_entry-write block slot number name old b s l n o =
    let ptr = slot * directory_entry_size in
    let name' = take filename_size name in
    let tail = to_bytes inode_address_size number in
    let block1 = splice block ptr name' in
    let two : length tail ≡ inode_address_size = length-to_bytes inode_address_size number in
    let long : length block1 ≡ length block = length-splice block ptr name' in
    let named : slice ptr filename_size (splice block1 (ptr + filename_size) tail) ≡ name' =
      slice-splice_before block1 (ptr + filename_size) tail ptr filename_size (omega arith)
      ∙ ap (λ k. slice ptr k block1) (sym l)
      ∙ slice-splice_self block ptr name' (omega arith) in
    let numbered : slice (ptr + filename_size) inode_address_size
          (splice block1 (ptr + filename_size) tail)
        ≡ tail =
      ap (λ k. slice (ptr + filename_size) k (splice block1 (ptr + filename_size) tail)) (sym two)
      ∙ slice-splice_self block1 (ptr + filename_size) tail (omega arith) in
    let valued = ap from_bytes numbered ∙ from_bytes-to_bytes inode_address_size number n in
    λ d. record {
      name = named d;
      inode_num =
          (ap (λ k. old.inode_num - old.inode_num % 2 ^ 16 + k) valued ∙ low old.inode_num number o)
            d;
    }
  where
    low : (a k : ℕ) → a < 2 ^ 16 → a - a % 2 ^ 16 + k ≡ k
    low a k h = omega arith

pub slice-write_entry :
    (block : Block) (slot other number at j n : ℕ) (name : List ℕ)
    → at ≡ other * directory_entry_size + j
    → IsBlock block
    → other ≢ slot
    → length (take filename_size name) ≡ filename_size
    → j + n ≤ directory_entry_size
    → slice at n (write_entry block (slot * directory_entry_size) name number) ≡ slice at n block
unfolding write_entry
slice-write_entry block slot other number at j n name e b ne l h =
    let ptr = slot * directory_entry_size in
    let name' = take filename_size name in
    let tail = to_bytes inode_address_size number in
    let block1 = splice block ptr name' in
    let two : length tail ≡ inode_address_size = length-to_bytes inode_address_size number in
    elim (ℕ_discrete (min slot other) slot) [
      | yes up ↦
          slice-splice_after block1 (ptr + filename_size) tail at n (omega arith)
          ∙ slice-splice_after block ptr name' at n (omega arith)
      | no down ↦
          slice-splice_before block1 (ptr + filename_size) tail at n (omega arith)
          ∙ slice-splice_before block ptr name' at n (omega arith)
    ]

-- Writing one entry of a block, with a name of 62 bytes, leaves every other entry as it was.
pub read_entry-write_ne :
    (block : Block) (slot other number : ℕ) (name : List ℕ) (old : DirectoryEntry)
    → IsBlock block
    → other ≢ slot
    → length (take filename_size name) ≡ filename_size
    → read_entry
        (write_entry block (slot * directory_entry_size) name number)
        (other * directory_entry_size)
        old
      ≡ read_entry block (other * directory_entry_size) old
unfolding read_entry
read_entry-write_ne block slot other number name old b ne l =
    let ptr = other * directory_entry_size in
    let written = write_entry block (slot * directory_entry_size) name number in
    let named : slice ptr filename_size written ≡ slice ptr filename_size block =
      slice-write_entry block slot other number ptr 0 filename_size name (omega arith) b ne l
        (omega arith) in
    let numbered =
      slice-write_entry block slot other number (ptr + filename_size) filename_size
        inode_address_size name refl b ne l (omega arith) in
    λ d. record {
      name = named d;
      inode_num = old.inode_num - old.inode_num % 2 ^ 16 + from_bytes (numbered d);
    }
