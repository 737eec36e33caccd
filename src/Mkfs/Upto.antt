-- ===== src/Mkfs/Upto.antt =====
-- One block of the list that mkfs builds, and the runs of block numbers that it holds.
use naofs.Prelude.{
  ℕ, zero, suc, ◌+◌, ◌-◌, ◌*◌, ◌^◌, ◌≤◌, ◌<◌, ◌≡◌, refl, sym, ap, ◌∙◌, ◌≢◌, List, [], ◌∷◌, ◌++◌,
  Bool, true, false, arith, length, get_or, replicate, to_bytes, splice, AllBelow, write_words,
  read_words, length-write_words, read_words-write_words, length-replicate, lt→ltb, if◌then◌else◌,
}
use naofs.Disk.{Block, num_of_blocks_in_mem}
use naofs.Meta.{make_one_block, fill_loop, make_free_disk_list_block}
use naofs.Meta.RoundTrip.{IsBlock, IsBlockList}
use naofs.Blocks.Chain.{AllNe, Distinct, AllData}

-- The `n` block numbers from `start` on.
unfoldable pub upto : ℕ → ℕ → List ℕ
upto zero start = []
upto (suc n) start = start ∷ upto n (start + 1)

-- While the disk has enough blocks, the loop fills the block with the next numbers.
fill_loop-upto :
    (n limit ptr start : ℕ) (block : Block)
    → start + n ≤ limit
    → fill_loop n limit ptr start block ≡ (start + n, true, write_words 8 (upto n start) ptr block)
unfolding fill_loop write_words upto
fill_loop-upto zero limit ptr start block h = ap (λ k. (k, true, block)) (omega arith)
fill_loop-upto (suc n) limit ptr start block h = rw (lt→ltb start limit (omega arith)) (
    fill_loop-upto n limit (ptr + 8) (start + 1) (splice block ptr (to_bytes 8 start)) (omega arith)
    ∙ ap
        (λ k. (
          k,
          true,
          write_words 8 (upto n (start + 1)) (ptr + 8) (splice block ptr (to_bytes 8 start)),
        ))
        (omega arith))

length-upto : (n start : ℕ) → length (upto n start) ≡ n
unfolding upto
length-upto zero start = refl
length-upto (suc n) start = ap suc (length-upto n (start + 1))

AllBelow-upto : (b n start : ℕ) → start + n ≤ b → AllBelow b (upto n start)
unfolding upto
AllBelow-upto b zero start h = tt
AllBelow-upto b (suc n) start h = (omega arith, AllBelow-upto b n (start + 1) (omega arith))

-- The block of a full list: its bytes stand for the 128 numbers.
pub make_one_block-full :
    (limit start : ℕ)
    → start + 128 ≤ limit
    → limit < 256 ^ 8
    → ((make_one_block limit start).0 ≡ start + 127)
      × (make_free_disk_list_block (make_one_block limit start).1 ≡ upto 128 start)
      × IsBlock (make_one_block limit start).1
      × IsBlockList (upto 128 start)
unfolding make_one_block make_free_disk_list_block
make_one_block-full limit start h lt =
    let clear : Block = replicate 1024 0 in
    let len : length clear ≡ 1024 = length-replicate 1024 0 in
    let e = fill_loop-upto 128 limit 0 start clear h in
    let below = AllBelow-upto (256 ^ 8) 128 start (omega arith) in
    let read =
      read_words-write_words 8 (upto 128 start) 0 clear below
        (omega (arith, len, length-upto 128 start)) in
    rw e (
      omega arith,
      ap (λ n. read_words 8 n 0 (write_words 8 (upto 128 start) 0 clear))
            (sym (length-upto 128 start))
          ∙ read,
      length-write_words 8 (upto 128 start) 0 clear ∙ len,
      record { count = length-upto 128 start; fits = below },
    )

upto-append :
    (a b c start next : ℕ)
    → c ≡ a + b
    → next ≡ start + a
    → upto c start ≡ upto a start ++ upto b next
unfolding upto
upto-append zero b c start next e n =
    ap (λ k. upto k start) (omega arith) ∙ ap (upto b) (omega arith)
upto-append (suc a) b zero start next e n = absurd (omega arith)
upto-append (suc a) b (suc c) start next e n =
    ap (λ l. start ∷ l) (upto-append a b c (start + 1) next (omega arith) (omega arith))

pub AllNe-upto : (k n start : ℕ) → k < start → AllNe k (upto n start)
unfolding upto
AllNe-upto k zero start h = tt
AllNe-upto k (suc n) start h = (omega arith, AllNe-upto k n (start + 1) (omega arith))

pub Distinct-upto : (n start : ℕ) → Distinct (upto n start)
unfolding upto
Distinct-upto zero start = tt
Distinct-upto (suc n) start =
    (AllNe-upto start n (start + 1) (omega arith), Distinct-upto n (start + 1))

pub AllData-upto :
    (n start : ℕ) → 2 < start → start + n ≤ num_of_blocks_in_mem → AllData (upto n start)
unfolding upto
AllData-upto zero start h lt = tt
AllData-upto (suc n) start h lt = (
  ((omega arith), (omega arith), (omega arith)),
  AllData-upto n (start + 1) (omega arith) (omega arith),
)

-- A block that was not filled to its end leads nowhere.
fill_loop_end :
    (n limit ptr start : ℕ) (block : Block)
    → (fill_loop n limit ptr start block).1 ≡ true
    → (fill_loop n limit ptr start block).0 ≡ start + n
unfolding fill_loop
fill_loop_end zero limit ptr start block h = omega arith
fill_loop_end (suc n) limit ptr start block h =
    ground
      (arith, fill_loop_end n limit (ptr + 8) (start + 1) (splice block ptr (to_bytes 8 start)))

next_of_end :
    (c start : ℕ) (full : Bool)
    → (full ≡ true → c ≡ start + 128)
    → (if full then c - 1 else 0) ≢ 0
    → (if full then c - 1 else 0) ≡ start + 127
next_of_end c start true e h = omega (arith, e refl)
next_of_end c start false e h = absurd (h refl)

pub make_one_block_next :
    (limit start : ℕ)
    → (make_one_block limit start).0 ≢ 0
    → (make_one_block limit start).0 ≡ start + 127
unfolding make_one_block
make_one_block_next limit start h =
    let r = fill_loop 128 limit 0 start (replicate 1024 0) in
    next_of_end (r.0) start (r.1) (fill_loop_end 128 limit 0 start (replicate 1024 0)) h

pub no_zeros : (xs : List ℕ) → xs ≡ replicate 0 0 ++ xs
unfolding replicate
no_zeros xs = refl

pub upto-zero : (start : ℕ) → upto 0 start ≡ []
unfolding upto
upto-zero start = refl

pub get_or-upto : (n start : ℕ) → get_or (upto (suc n) start) 0 0 ≡ start
unfolding upto
get_or-upto n start = refl

pub upto-snoc : (n start : ℕ) → upto (suc n) start ≡ upto n start ++ ((start + n) ∷ [])
unfolding upto
upto-snoc n start = upto-append n 1 (suc n) start (start + n) (omega arith) refl

upto-cons : (n start next : ℕ) → next ≡ start + 1 → upto (suc n) start ≡ start ∷ upto n next
unfolding upto
upto-cons n start next e = ap (λ k. start ∷ upto n k) (sym e)

pub upto-link :
    (m start : ℕ)
    → upto (128 * suc m) start ≡ upto 127 start ++ ((start + 127) ∷ upto (128 * m) (start + 128))
upto-link m start =
    upto-append 127 (suc (128 * m)) (128 * suc m) start (start + 127) (omega arith) refl
    ∙ ap (λ l. upto 127 start ++ l) (upto-cons (128 * m) (start + 127) (start + 128) (omega arith))
