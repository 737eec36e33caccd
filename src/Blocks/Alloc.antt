-- ===== src/Blocks/Alloc.antt =====
-- `blockAlloc` pops the stack of free blocks.
use naofs.Prelude.{
  ℕ, suc, ◌+◌, ◌^◌, ◌<◌, ◌≡◌, refl, ap, ◌∙◌, ◌≢◌, List, [], ◌∷◌, ◌++◌, arith, length, replicate,
  ◌==◌, ne→==-false, length-append, length-replicate, if◌then◌else◌,
}
use naofs.Params.{free_list_block}
use naofs.Disk.{Disk, Block, fetch, store, get_disk_block}
use naofs.Disk.Laws.{InMemory, InMemory-store, fetch-store_self, fetch-store_ne}
use naofs.Meta.{make_free_disk_list_block, write_free_disk_list_block}
use naofs.Meta.RoundTrip.{IsBlock, IsBlockList, make_free_disk_list_block-write}
use naofs.Blocks.{block_alloc}
use naofs.Blocks.Chain.{
  AllNe, Distinct, IsData, AllData, load, Chain, floor, link, IsFree, AllNe-of_AllData, Chain-store,
}
use naofs.Blocks.Zeros.{alloc_scan-zeros, get_or-zeros, set-zeros, zeros-suc, AllBelow-set}

get_disk_block-fetch :
    (d : Disk) (n : ℕ) (b : Block) → InMemory d → n < 65536 → (get_disk_block d n b).1 ≡ fetch d n
unfolding fetch get_disk_block
get_disk_block-fetch d n b m h = ground arith

block_alloc-split :
    (d : Disk) (z y : ℕ) (r : List ℕ)
    → load d free_list_block ≡ replicate z 0 ++ (y ∷ r)
    → y ≢ 0
    → block_alloc d ≡ (
      y,
      store d free_list_block (
          if z == 127
          then (get_disk_block d y (fetch d free_list_block)).1
          else write_free_disk_list_block (replicate (suc z) 0 ++ r) (fetch d free_list_block)),
    )
unfolding block_alloc
block_alloc-split d z y r e h =
    rw (e, alloc_scan-zeros z y r h, get_or-zeros z y r, set-zeros z y 0 r, zeros-suc z r) refl

-- The last number is taken: the list becomes the one in its block.
block_alloc-last :
    (d : Disk) (p : ℕ)
    → InMemory d
    → load d free_list_block ≡ replicate 127 0 ++ (p ∷ [])
    → IsData p
    → block_alloc d ≡ (p, store d free_list_block (fetch d p))
block_alloc-last d p m e h =
    block_alloc-split d 127 p [] e h.0
    ∙ ap (λ b. (p, store d free_list_block b))
        (get_disk_block-fetch d p (fetch d free_list_block) m h.2)

-- Any other number is taken: a zero takes its place.
block_alloc-inner :
    (d : Disk) (z y : ℕ) (r : List ℕ)
    → load d free_list_block ≡ replicate z 0 ++ (y ∷ r)
    → y ≢ 0
    → z ≢ 127
    → block_alloc d ≡ (
      y,
      store d free_list_block
          (write_free_disk_list_block (replicate (suc z) 0 ++ r) (fetch d free_list_block)),
    )
block_alloc-inner d z y r e h ne = block_alloc-split d z y r e h ∙ rw (ne→==-false z 127 ne)

-- A block with the array `nos` written as the free block list.
pub IsFree-store :
    (d : Disk) (block : Block) (nos xs : List ℕ)
    → InMemory d
    → IsBlock block
    → make_free_disk_list_block block ≡ nos
    → AllData xs
    → Distinct xs
    → Chain d nos xs
    → IsFree (store d free_list_block block) xs
IsFree-store d block nos xs m b e ad di c =
    let same : fetch (store d free_list_block block) free_list_block ≡ block =
      fetch-store_self d free_list_block block m (omega arith) in
    record {
      memory = InMemory-store d free_list_block block m;
      block = rw same b;
      blocks = ad;
      distinct = di;
      chain = rw (same, e) (Chain-store d free_list_block block m (AllNe-of_AllData xs ad) c);
    }

length-zeros : (z : ℕ) (r : List ℕ) → length (replicate z 0 ++ r) ≡ z + length r
length-zeros z r = length-append (replicate z 0) r ∙ ap (λ n. n + length r) (length-replicate z 0)

IsBlockList-zeros :
    (z y : ℕ) (r : List ℕ)
    → IsBlockList (replicate z 0 ++ (y ∷ r))
    → IsBlockList (replicate (suc z) 0 ++ r)
IsBlockList-zeros z y r v = record {
  count = omega (arith, v.count, length-zeros z (y ∷ r), length-zeros (suc z) r);
  fits =
      rw (← zeros-suc z r, ← set-zeros z y 0 r)
        (AllBelow-set (256 ^ 8) (replicate z 0 ++ (y ∷ r)) z 0 v.fits (omega arith));
}

abbrev Popped : Disk → ℕ → List ℕ → Type 0
Popped d x xs = ((block_alloc d).0 ≡ x) × IsFree (block_alloc d).1 xs

pop_link :
    (d : Disk) (x : ℕ) (xs rest : List ℕ) (z : ℕ) (ys : List ℕ) (p : ℕ)
    → IsFree d (x ∷ xs)
    → IsBlockList (load d free_list_block)
    → load d free_list_block ≡ replicate z 0 ++ (ys ++ (p ∷ []))
    → x ∷ xs ≡ ys ++ (p ∷ rest)
    → AllNe 0 ys
    → p ≢ 0
    → IsBlock (fetch d p)
    → Chain d (load d p) rest
    → Popped d x xs
pop_link d x xs rest z [] p f v e1 e2 ne p0 b c =
    let ex : x ≡ p = cc in
    let er : xs ≡ rest = cc in
    let ez : z ≡ 127 = omega (arith, v.count, ap length e1, length-zeros z (p ∷ [])) in
    let e : load d free_list_block ≡ replicate 127 0 ++ (p ∷ []) = rw ez at e1 in
    rw (ex, er, block_alloc-last d p f.memory e (rw ex at (f.blocks.0)))
      (
        refl,
        IsFree-store d (fetch d p) (load d p) rest f.memory b refl (rw er at (f.blocks.1))
            (rw er at (f.distinct.1)) c,
      )
pop_link d x xs rest z (y ∷ ys) p f v e1 e2 ne p0 b c =
    let ex : x ≡ y = cc in
    let er : xs ≡ ys ++ (p ∷ rest) = cc in
    let r : List ℕ = ys ++ (p ∷ []) in
    let ez : z ≢ 127 =
      omega (arith, v.count, ap length e1, length-zeros z (y ∷ r), length-append ys (p ∷ [])) in
    let v' : IsBlockList (replicate (suc z) 0 ++ r) = IsBlockList-zeros z y r (rw e1 at v) in
    let rt = make_free_disk_list_block-write (replicate (suc z) 0 ++ r) (fetch d 2) v' f.block in
    rw (ex, block_alloc-inner d z y r e1 ne.0 ez)
      (
        refl,
        IsFree-store d (write_free_disk_list_block (replicate (suc z) 0 ++ r) (fetch d 2))
            (replicate (suc z) 0 ++ r) xs f.memory (rt.1) (rt.0) (f.blocks.1) (f.distinct.1)
            (link (suc z) ys p v' refl er ne.1 p0 b c),
      )

pop-Chain :
    (d : Disk) (x : ℕ) (xs : List ℕ) {nos zs : List ℕ}
    → IsFree d (x ∷ xs)
    → load d free_list_block ≡ nos
    → x ∷ xs ≡ zs
    → Chain d nos zs
    → Popped d x xs
pop-Chain d x xs f e ez (floor v h) = absurd (cc)
pop-Chain d x xs f e ez (link {rest} z ys p v e1 e2 ne p0 b c) =
    pop_link d x xs rest z ys p f (rw e v) (e ∙ e1) (ez ∙ e2) ne p0 b c

-- While the stack of free blocks is not empty, `blockAlloc` returns its top, leaves the rest as the
-- stack, and changes no block but the one that holds the list; the block that it returns is a data
-- block, and is not free any more.
pub block_alloc-pop :
    (d : Disk) (x : ℕ) (xs : List ℕ)
    → IsFree d (x ∷ xs)
    → ((block_alloc d).0 ≡ x)
      × IsFree (block_alloc d).1 xs
      × IsData x
      × AllNe x xs
      × ((k : ℕ) → k ≢ free_list_block → fetch (block_alloc d).1 k ≡ fetch d k)
unfolding block_alloc
block_alloc-pop d x xs f =
    let p = pop-Chain d x xs f refl refl f.chain in
    (p.0, p.1, f.blocks.0, f.distinct.0, λ k ne. fetch-store_ne d free_list_block _ k f.memory ne)
