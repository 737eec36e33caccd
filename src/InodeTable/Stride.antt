-- ===== src/InodeTable/Stride.antt =====
-- `makeINodesBlock` takes the inodes of a block to lie `sizeof(iNode)` bytes apart, while
-- `accessINodeAndItsBlock` puts them `INODE_SIZE` bytes apart: what the search reads as the second
-- inode of a block begins in the padding behind the first.
use naofs.Prelude.{
  ℕ, zero, suc, ◌+◌, ◌%◌, ◌≤◌, ◌≡◌, refl, ap, ◌∙◌, List, [], ◌∷◌, arith, get_or, take, drop, slice,
  splice, replicate, from_bytes, length-replicate, slice-splice_after, slice-splice_inside,
  decode_fields,
}
use naofs.Params.{inode_size, sizeof_inode}
use naofs.Disk.{Block}
use naofs.Inode.{INode, encode, decode, t_free}
use naofs.Inode.RoundTrip.{IsInode, length-encode}
use naofs.Meta.{make_inodes_block}
use naofs.Meta.RoundTrip.{IsBlock}
use naofs.InodeTable.{byte_of, put_inode}

module _ {ℓ} {A : Type ℓ} where
  drop-drop : (a b c : ℕ) (xs : List A) → c ≡ b + a → drop a (drop b xs) ≡ drop c xs
  unfolding drop
  drop-drop a zero c xs e = let e' : a ≡ c = omega arith in ap (λ k. drop k xs) e'
  drop-drop zero (suc b) zero [] e = refl
  drop-drop zero (suc b) (suc c) [] e = refl
  drop-drop (suc a) (suc b) zero [] e = refl
  drop-drop (suc a) (suc b) (suc c) [] e = refl
  drop-drop a (suc b) zero (x ∷ xs) e = absurd (omega arith)
  drop-drop a (suc b) (suc c) (x ∷ xs) e = drop-drop a b c xs (omega arith)

  take-nil : (n : ℕ) → take {A = A} n [] ≡ []
  unfolding take
  take-nil zero = refl
  take-nil (suc n) = refl

  take-drop_nil : (n k : ℕ) → take {A = A} n (drop k []) ≡ []
  unfolding drop
  take-drop_nil n zero = take-nil n
  take-drop_nil n (suc k) = take-nil n

  -- A member of a struct that lies at `i` is a range of the block; `p` is where it begins.
  take-drop-slice :
      (k n i m p : ℕ) (xs : List A)
      → k + n ≤ m
      → p ≡ i + k
      → take n (drop k (slice i m xs)) ≡ slice p n xs
  unfolding take drop slice
  take-drop-slice k n (suc i) m zero xs h e = absurd (omega arith)
  take-drop-slice k n (suc i) m (suc p) [] h e = take-drop_nil n k
  take-drop-slice k n (suc i) m (suc p) (x ∷ xs) h e = take-drop-slice k n i m p xs h (omega arith)
  take-drop-slice zero n zero m (suc p) xs h e = absurd (omega arith)
  take-drop-slice zero zero zero m zero xs h e = refl
  take-drop-slice zero (suc n) zero zero zero xs h e = absurd (omega arith)
  take-drop-slice zero (suc n) zero (suc m) zero [] h e = refl
  take-drop-slice zero (suc n) zero (suc m) zero (x ∷ xs) h e =
      ap (λ l. x ∷ l) (take-drop-slice zero n zero m zero xs (omega arith) refl)
  take-drop-slice (suc k) n zero m zero xs h e = absurd (omega arith)
  take-drop-slice (suc k) n zero zero (suc p) xs h e = absurd (omega arith)
  take-drop-slice (suc k) n zero (suc m) (suc p) [] h e = take-nil n
  take-drop-slice (suc k) n zero (suc m) (suc p) (x ∷ xs) h e =
      take-drop-slice k n zero m p xs (omega arith) (omega arith)

-- The type and the number of a struct, as ranges of its bytes.
type-decode :
    (i : ℕ) (block : Block)
    → (decode (slice i sizeof_inode block)).type ≡ from_bytes (slice (i + 48) 4 block)
unfolding decode decode_fields
type-decode i block =
    let s = slice i sizeof_inode block in
    ap from_bytes (
      ap (take 4) (
        ap (λ l. drop 8 (drop 8 (drop 8 (drop 8 l)))) (drop-drop 8 8 16 s refl)
        ∙ ap (λ l. drop 8 (drop 8 (drop 8 l))) (drop-drop 8 16 24 s refl)
        ∙ ap (λ l. drop 8 (drop 8 l)) (drop-drop 8 24 32 s refl)
        ∙ ap (drop 8) (drop-drop 8 32 40 s refl)
        ∙ drop-drop 8 40 48 s refl)
      ∙ take-drop-slice 48 4 i sizeof_inode (i + 48) block (omega arith) refl)

inode_number-decode :
    (i : ℕ) (block : Block)
    → (decode (slice i sizeof_inode block)).inode_number ≡ from_bytes (slice (i + 8) 8 block)
unfolding decode decode_fields
inode_number-decode i block =
    ap from_bytes (take-drop-slice 8 8 i sizeof_inode (i + 8) block (omega arith) refl)

-- The padding behind an inode in the first slot is zero.
padding :
    (block : Block) (n : ℕ) (i : INode) (j k : ℕ)
    → n % 4 ≡ 0
    → IsInode i
    → IsBlock block
    → sizeof_inode ≤ j
    → j + k ≤ inode_size
    → slice j k (put_inode block n i) ≡ slice j k (replicate inode_size 0)
unfolding put_inode
padding block n i j k e v b lo hi =
    let zeros : List ℕ = replicate inode_size 0 in
    let len = length-replicate {A = ℕ} inode_size 0 in
    slice-splice_after (splice block (byte_of n) zeros) (byte_of n) (encode i) j k
      (omega (arith, length-encode i v))
    ∙ slice-splice_inside block (byte_of n) zeros j k j (omega arith) (omega (arith, len))
        (omega (arith, len))

zero_type : from_bytes (slice 224 4 (replicate inode_size 0)) ≡ 0
unfolding from_bytes slice replicate
zero_type = refl

zero_number : from_bytes (slice 184 8 (replicate inode_size 0)) ≡ 0
unfolding from_bytes slice replicate
zero_number = refl

-- Once an inode has been written to the first slot of a block, the search reads the second inode of
-- the block as a free one with the number 0, whatever the second slot holds.
pub second_inode_lem :
    (block : Block) (n : ℕ) (i other : INode)
    → n % 4 ≡ 0
    → IsInode i
    → IsBlock block
    → ((get_or (make_inodes_block (put_inode block n i)) 1 other).type ≡ t_free)
      × ((get_or (make_inodes_block (put_inode block n i)) 1 other).inode_number ≡ 0)
unfolding make_inodes_block
second_inode_lem block n i other e v b =
    let new = put_inode block n i in
    (
      type-decode 176 new
          ∙ ap from_bytes (padding block n i 224 4 e v b (omega arith) (omega arith))
          ∙ zero_type,
      inode_number-decode 176 new
          ∙ ap from_bytes (padding block n i 184 8 e v b (omega arith) (omega arith))
          ∙ zero_number,
    )
