-- ===== src/Io/Read.antt =====
-- What reading a file returns: from its start what a byte by byte reading returns, and behind its
-- start more than was asked for.
use naofs.Tree.Bmap.{bmap-inside, leaf-same}
use naofs.Prelude.{
  ℕ, zero, suc, ◌+◌, ◌-◌, ◌*◌, ◌/◌, ◌%◌, ◌≡◌, ◌≤◌, ◌<◌, refl, ap, ap₂, ◌∙◌, min, Option, false,
  true, none, some, List, [], ◌∷◌, ◌++◌, take, slice, length, get_or, lt→ltb, arith,
}
use naofs.Params.{block_size}
use naofs.Disk.{Disk, fetch}
use naofs.Inode.{InCoreINode}
use naofs.Tree.{bmap, read_mode, BmapResponse, create_bmap_response, leaf_block, calculate_offset}
use naofs.Meta.RoundTrip.{IsBlock}
use naofs.Io.{read_in_block, read_loop, read_bytes}

-- The byte of a file at an offset, and `n` bytes from an offset on.
abbrev pub byte_at : InCoreINode → Disk → ℕ → ℕ
byte_at c d offset =
    get_or (fetch d (leaf_block c (calculate_offset offset) d)) (offset % block_size) 0

abbrev pub contents : InCoreINode → Disk → (offset n : ℕ) → List ℕ
contents c d offset zero = []
contents c d offset (suc n) = byte_at c d offset ∷ contents c d (suc offset) n

-- The range of a list, element by element.
slice-step :
    (i n : ℕ) (xs : List ℕ)
    → i + suc n ≤ length xs
    → slice i (suc n) xs ≡ get_or xs i 0 ∷ slice (suc i) n xs
unfolding slice take
slice-step i n [] h = absurd (omega arith)
slice-step zero n (x ∷ xs) h = refl
slice-step (suc i) n (x ∷ xs) h = slice-step i n xs (omega arith)

slice-none : (i : ℕ) (xs : List ℕ) → slice i 0 xs ≡ []
unfolding slice take
slice-none zero xs = refl
slice-none (suc i) [] = refl
slice-none (suc i) (x ∷ xs) = slice-none i xs

-- A range of block `k` of the file is that range of the file.
pub contents-slice :
    (n : ℕ) (c : InCoreINode) (d : Disk) (k j offset : ℕ)
    → offset ≡ k * block_size + j
    → j + n ≤ block_size
    → IsBlock (fetch d (leaf_block c (calculate_offset (k * block_size)) d))
    → slice j n (fetch d (leaf_block c (calculate_offset (k * block_size)) d))
      ≡ contents c d offset n
contents-slice zero c d k j offset e h l = slice-none j _
contents-slice (suc n) c d k j offset e h l =
    slice-step j n (fetch d (leaf_block c (calculate_offset (k * block_size)) d)) (omega arith)
    ∙ ap₂ ◌∷◌
        (ap₂ (λ t i. get_or (fetch d (leaf_block c t d)) i 0)
          (leaf-same (k * block_size) offset (omega arith)) (omega arith))
        (contents-slice n c d k (suc j) (suc offset) (omega arith) (omega arith) l)

contents-append :
    (c : InCoreINode) (d : Disk) (m n offset : ℕ)
    → contents c d offset m ++ contents c d (offset + m) n ≡ contents c d offset (m + n)
contents-append c d zero n offset =
    let e : offset + 0 ≡ offset = omega arith in
    let e' : n ≡ 0 + n = omega arith in ap₂ (λ o m. contents c d o m) e e'
contents-append c d (suc m) n offset =
    let e : offset + suc m ≡ suc offset + m = omega arith in
    let e' : suc (m + n) ≡ suc m + n = omega arith in
    ap (λ l. byte_at c d offset ∷ l)
      (ap (λ o. contents c d (suc offset) m ++ contents c d o n) e
        ∙ contents-append c d m n (suc offset))
    ∙ ap (contents c d offset) e'

-- What a round copies out of the block of an offset.
read_in_block-contents :
    (c : InCoreINode) (d : Disk) (offset n : ℕ)
    → offset % block_size + n ≤ block_size
    → ((b : ℕ) → IsBlock (fetch d b))
    → read_in_block d
        (create_bmap_response (leaf_block c (calculate_offset offset) d) (offset % block_size))
        n
      ≡ contents c d offset n
unfolding read_in_block create_bmap_response
read_in_block-contents c d offset n h l =
    let k = offset / block_size in
    ap (λ t. slice (offset % block_size) n (fetch d (leaf_block c t d)))
      (leaf-same offset (k * block_size) (omega arith))
    ∙ contents-slice n c d k (offset % block_size) offset (omega arith) h (l _)

-- A round of the loop inside the file.
module _ (fuel now : ℕ) (c : InCoreINode) (last_byte bytes_read k offset : ℕ) (d : Disk) where
  round : Option BmapResponse → ℕ × List ℕ
  round none = (bytes_read, [])
  round (some r) =
      let bytes = min r.bytes_left_in_block (last_byte - bytes_read) in
      let (count, copied) =
        read_loop fuel now c last_byte (bytes_read + bytes) (suc k - bytes) (offset + bytes) d in
      (count, read_in_block d r bytes ++ copied)

  abbrev round_bytes : ℕ
  round_bytes = min (block_size - offset % block_size) (last_byte - bytes_read)

  read_loop-step :
      offset < c.size
      → let (count, copied) =
          read_loop fuel now c last_byte
            (bytes_read + round_bytes)
            (suc k - round_bytes)
            (offset + round_bytes)
            d in
        read_loop (suc fuel) now c last_byte bytes_read (suc k) offset d ≡ (
          count,
          read_in_block d
                (create_bmap_response
                  (leaf_block c (calculate_offset offset) d)
                  (offset % block_size))
                round_bytes
              ++ copied,
        )
  unfolding read_loop create_bmap_response round
  read_loop-step h =
      ap
        (λ b. elim b [
          | false ↦ (bytes_read, [])
          | true ↦ elim (bmap now c offset read_mode d).0 [
            | none ↦ (bytes_read, [])
            | some r ↦ round (some r)
          ]
        ])
        (lt→ltb 0 (suc k) (omega arith))
      ∙ ap (λ a. elim a [ none ↦ (bytes_read, []) | some r ↦ round (some r) ])
          (bmap-inside now c offset d h)

-- The loop from the start of a file: what is read so far ends at the offset.
read_loop-contents :
    (fuel now : ℕ) (c : InCoreINode) (last_byte left offset : ℕ) (d : Disk)
    → offset + left ≡ last_byte
    → last_byte ≤ c.size
    → left ≤ fuel
    → ((b : ℕ) → IsBlock (fetch d b))
    → read_loop fuel now c last_byte offset left offset d ≡ (last_byte, contents c d offset left)
unfolding read_loop
read_loop-contents zero now c last_byte zero offset d e le f l = ap (λ n. (n, [])) (omega arith)
read_loop-contents zero now c last_byte (suc k) offset d e le f l = absurd (omega arith)
read_loop-contents (suc fuel) now c last_byte zero offset d e le f l =
    ap (λ n. (n, [])) (omega arith)
read_loop-contents (suc fuel) now c last_byte (suc k) offset d e le f l =
    let bytes = min (block_size - offset % block_size) (last_byte - offset) in
    let total : bytes + (suc k - bytes) ≡ suc k = omega arith in
    read_loop-step fuel now c last_byte offset k offset d (omega arith)
    ∙ ap₂ (λ (r : ℕ × List ℕ) copied. (r.0, copied ++ r.1))
        (read_loop-contents fuel now c last_byte (suc k - bytes) (offset + bytes) d (omega arith) le
          (omega arith) l)
        (read_in_block-contents c d offset bytes (omega arith) l)
    ∙ ap (λ bs. (last_byte, bs)) (contents-append c d bytes (suc k - bytes) offset)
    ∙ ap (λ n. (last_byte, contents c d offset n)) total

-- On a disk whose blocks have their full length, reading `size` bytes from the start of a file
-- returns as many as there are of them, and they are the bytes of the file one by one, across
-- its blocks.
pub read_bytes-contents :
    (now : ℕ) (c : InCoreINode) (size : ℕ) (d : Disk)
    → ((b : ℕ) → IsBlock (fetch d b))
    → read_bytes now c size 0 d ≡ (min size c.size, contents c d 0 (min size c.size))
unfolding read_bytes
read_bytes-contents now c size d l =
    let e : min c.size (size + 0) ≡ min size c.size = omega arith in
    let e' : min size (c.size - 0) ≡ min size c.size = omega arith in
    ap₂ (λ last left. read_loop size now c last 0 left 0 d) e e'
    ∙ read_loop-contents size now c (min size c.size) (min size c.size) 0 d (omega arith)
        (omega arith) (omega arith) l

read_loop-end :
    (fuel now : ℕ) (c : InCoreINode) (last_byte bytes_read offset : ℕ) (d : Disk)
    → read_loop fuel now c last_byte bytes_read 0 offset d ≡ (bytes_read, [])
unfolding read_loop
read_loop-end zero now c last_byte bytes_read offset d = refl
read_loop-end (suc fuel) now c last_byte bytes_read offset d = refl

-- In a file of one block, on a disk whose blocks have their full length, a reading of one byte
-- or more from an offset behind 0, of a range that lies within the file and ends before the
-- block does, returns more bytes than `size`: `lastByte - bytesRead` is the offset too large in
-- the first round, so it goes on to the end of the block or to twice the offset and `size`.
pub read_bytes-past_size :
    (now : ℕ) (c : InCoreINode) (size offset : ℕ) (d : Disk)
    → 0 < size
    → 0 < offset
    → size + offset ≤ c.size
    → size + offset < block_size
    → c.size ≤ block_size
    → ((b : ℕ) → IsBlock (fetch d b))
    → let bytes = min (block_size - offset) (size + offset) in
      (read_bytes now c size offset d ≡ (bytes, contents c d offset bytes)) × (size < bytes)
unfolding read_bytes
read_bytes-past_size now c zero offset d p o h lt le l = absurd (omega arith)
read_bytes-past_size now c (suc f) offset d p o h lt le l =
    let last = suc f + offset in
    let e : min c.size (suc f + offset) ≡ last = omega arith in
    let e' : min (suc f) (c.size - offset) ≡ suc f = omega arith in
    let bytes = min (block_size - offset % block_size) (last - 0) in
    let b : bytes ≡ min (block_size - offset) (suc f + offset) = omega arith in
    let z : suc f - bytes ≡ 0 = omega arith in
    let n : 0 + bytes ≡ bytes = omega arith in
    let m : bytes + 0 ≡ bytes = omega arith in
    (
      ap₂ (λ last left. read_loop (suc f) now c last 0 left offset d) e e'
          ∙ read_loop-step f now c last 0 f offset d (omega arith)
          ∙ ap₂ (λ (r : ℕ × List ℕ) copied. (r.0, copied ++ r.1))
              (ap₂ (λ count left. read_loop f now c last count left (offset + bytes) d) n z
                ∙ read_loop-end f now c last bytes (offset + bytes) d)
              (read_in_block-contents c d offset bytes (omega arith) l)
          ∙ ap (λ bs. (bytes, bs)) (contents-append c d bytes 0 offset)
          ∙ ap (λ k. (bytes, contents c d offset k)) m
          ∙ ap (λ k. (k, contents c d offset k)) b,
      omega arith,
    )
