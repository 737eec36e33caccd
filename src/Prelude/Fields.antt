-- ===== src/Prelude/Fields.antt =====
-- Structs and arrays as they lie in memory: members of given widths, one behind the other.
use Prim.Native.Nat.{ℕ, zero, suc, ◌+◌, ◌*◌, ◌^◌, ◌≤◌, ◌<◌}
use mathlib.Core.Path.{◌≡◌, refl, sym, ap, ap₂, ◌∙◌}
use mathlib.Core.List.{List, [], ◌∷◌, ◌++◌, append_assoc}
use native.Mathlib.Omega.{arith}
use naofs.Prelude.Lists.{
  length, get_or, take, slice, splice, length-splice, slice-splice_self, slice-splice_before,
  length-append,
}
use naofs.Prelude.Bytes.{to_bytes, from_bytes, from_bytes-to_bytes, length-to_bytes}

module _ {ℓ} {A : Type ℓ} where
  unfoldable pub drop : ℕ → List A → List A
  drop zero xs = xs
  drop (suc n) [] = []
  drop (suc n) (x ∷ xs) = drop n xs

  pub take-length_append : (xs ys : List A) → take (length xs) (xs ++ ys) ≡ xs
  unfolding take
  take-length_append [] ys = refl
  take-length_append (x ∷ xs) ys = ap (λ l. x ∷ l) (take-length_append xs ys)

  pub drop-length_append : (xs ys : List A) → drop (length xs) (xs ++ ys) ≡ ys
  unfolding drop
  drop-length_append [] ys = refl
  drop-length_append (x ∷ xs) ys = drop-length_append xs ys

  pub get_or-length_append :
      (xs : List A) (y d : A) (ys : List A) → get_or (xs ++ (y ∷ ys)) (length xs) d ≡ y
  get_or-length_append [] y d ys = refl
  get_or-length_append (x ∷ xs) y d ys = get_or-length_append xs y d ys

-- The bytes of a struct with members of widths `ws` and values `vs`,
unfoldable pub encode_fields : List ℕ → List ℕ → List ℕ
encode_fields [] vs = []
encode_fields (w ∷ ws) [] = []
encode_fields (w ∷ ws) (v ∷ vs) = to_bytes w v ++ encode_fields ws vs

-- and the members read back from the bytes.
unfoldable pub decode_fields : List ℕ → List ℕ → List ℕ
decode_fields [] bs = []
decode_fields (w ∷ ws) bs = from_bytes (take w bs) ∷ decode_fields ws (drop w bs)

-- There is a value for each width, and it fits.
abbrev pub Fits : List ℕ → List ℕ → Type 0
Fits [] [] = Unit
Fits [] (v ∷ vs) = ⊥
Fits (w ∷ ws) [] = ⊥
Fits (w ∷ ws) (v ∷ vs) = (v < 256 ^ w) × Fits ws vs

abbrev pub total : List ℕ → ℕ
total [] = 0
total (w ∷ ws) = w + total ws

pub decode_fields-encode_fields :
    (ws vs rest : List ℕ) → Fits ws vs → decode_fields ws (encode_fields ws vs ++ rest) ≡ vs
unfolding encode_fields decode_fields
decode_fields-encode_fields [] [] rest h = refl
decode_fields-encode_fields [] (v ∷ vs) rest h = absurd h
decode_fields-encode_fields (w ∷ ws) [] rest h = absurd h
decode_fields-encode_fields (w ∷ ws) (v ∷ vs) rest h =
    rw (append_assoc (to_bytes w v) (encode_fields ws vs) rest) (
      ap₂ ◌∷◌
        (ap from_bytes (
            ap (λ n. take n (to_bytes w v ++ (encode_fields ws vs ++ rest)))
              (sym (length-to_bytes w v))
            ∙ take-length_append (to_bytes w v) (encode_fields ws vs ++ rest))
          ∙ from_bytes-to_bytes w v h.0)
        (ap (decode_fields ws) (
            ap (λ n. drop n (to_bytes w v ++ (encode_fields ws vs ++ rest)))
              (sym (length-to_bytes w v))
            ∙ drop-length_append (to_bytes w v) (encode_fields ws vs ++ rest))
          ∙ decode_fields-encode_fields ws vs rest h.1))

pub length-encode_fields : (ws vs : List ℕ) → Fits ws vs → length (encode_fields ws vs) ≡ total ws
unfolding encode_fields
length-encode_fields [] vs h = refl
length-encode_fields (w ∷ ws) [] h = absurd h
length-encode_fields (w ∷ ws) (v ∷ vs) h = omega (
  arith,
  length-append (to_bytes w v) (encode_fields ws vs),
  length-to_bytes w v,
  length-encode_fields ws vs h.1,
)

-- A loop that copies `n` words of `k` bytes out of a block, from byte `ptr` on.
unfoldable pub read_words : ℕ → ℕ → ℕ → List ℕ → List ℕ
read_words k zero ptr block = []
read_words k (suc n) ptr block = from_bytes (slice ptr k block) ∷ read_words k n (ptr + k) block

-- A loop that copies the low `k` bytes of each word into a block, from byte `ptr` on.
unfoldable pub write_words : ℕ → List ℕ → ℕ → List ℕ → List ℕ
write_words k [] ptr block = block
write_words k (x ∷ xs) ptr block = write_words k xs (ptr + k) (splice block ptr (to_bytes k x))

-- Every value is below the bound.
abbrev pub AllBelow : ℕ → List ℕ → Type 0
AllBelow b [] = Unit
AllBelow b (x ∷ xs) = (x < b) × AllBelow b xs

pub length-write_words :
    (k : ℕ) (xs : List ℕ) (ptr : ℕ) (block : List ℕ)
    → length (write_words k xs ptr block) ≡ length block
unfolding write_words
length-write_words k [] ptr block = refl
length-write_words k (x ∷ xs) ptr block =
    length-write_words k xs (ptr + k) (splice block ptr (to_bytes k x))
    ∙ length-splice block ptr (to_bytes k x)

-- The loop leaves what lies before `ptr` alone.
slice-write_words_before :
    (k : ℕ) (xs : List ℕ) (ptr : ℕ) (block : List ℕ) (j n : ℕ)
    → j + n ≤ ptr
    → slice j n (write_words k xs ptr block) ≡ slice j n block
unfolding write_words
slice-write_words_before k [] ptr block j n h = refl
slice-write_words_before k (x ∷ xs) ptr block j n h =
    slice-write_words_before k xs (ptr + k) (splice block ptr (to_bytes k x)) j n (omega arith)
    ∙ slice-splice_before block ptr (to_bytes k x) j n h

-- What the writing loop has written, the reading loop reads.
pub read_words-write_words :
    (k : ℕ) (xs : List ℕ) (ptr : ℕ) (block : List ℕ)
    → AllBelow (256 ^ k) xs
    → ptr + k * length xs ≤ length block
    → read_words k (length xs) ptr (write_words k xs ptr block) ≡ xs
unfolding read_words write_words
read_words-write_words k [] ptr block f h = refl
read_words-write_words k (x ∷ xs) ptr block f h =
    let b1 = splice block ptr (to_bytes k x) in
    let step : k * suc (length xs) ≡ k + k * length xs = omega arith in
    let room : ptr + k + k * length xs ≤ length b1 =
      omega (arith, length-splice block ptr (to_bytes k x)) in
    ap₂ ◌∷◌
      (ap from_bytes (
          slice-write_words_before k xs (ptr + k) b1 ptr k (omega arith)
          ∙ ap (λ n. slice ptr n b1) (sym (length-to_bytes k x))
          ∙ slice-splice_self block ptr (to_bytes k x) (omega (arith, length-to_bytes k x)))
        ∙ from_bytes-to_bytes k x f.0)
      (read_words-write_words k xs (ptr + k) b1 f.1 room)

pub length-read_words : (k n ptr : ℕ) (block : List ℕ) → length (read_words k n ptr block) ≡ n
unfolding read_words
length-read_words k zero ptr block = refl
length-read_words k (suc n) ptr block = ap suc (length-read_words k n (ptr + k) block)
