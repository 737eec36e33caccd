-- ===== src/Blocks/Free.antt =====
-- `blockFree` pushes on the stack of free blocks.
use naofs.Prelude.{
  ℕ, zero, suc, ◌+◌, ◌^◌, ◌≡◌, refl, sym, ap, ◌∙◌, ◌≢◌, List, [], ◌∷◌, ◌++◌, arith, length, get_or,
  replicate, ne→==-false, length-append, length-replicate,
}
use naofs.Params.{free_list_block}
use naofs.Disk.{Disk, fetch, store}
use naofs.Disk.Laws.{InMemory, InMemory-store, fetch-store_self, fetch-store_ne}
use naofs.Meta.{write_free_disk_list_block}
use naofs.Meta.RoundTrip.{IsBlock, IsBlockList, make_free_disk_list_block-write}
use naofs.Blocks.{block_free, put_last_zero}
use naofs.Blocks.Chain.{AllNe, AllNe-append, IsData, load, Chain, floor, link, IsFree, Chain-store}
use naofs.Blocks.Alloc.{IsFree-store}
use naofs.Blocks.Zeros.{
  zeros-suc, AllBelow-put_last_zero, put_last_zero-zeros, clear_first-set, AllBelow-zeros,
}

-- The list is full: it moves into the block that is freed.
block_free-full :
    (d : Disk) (n : ℕ)
    → IsBlockList (load d free_list_block)
    → get_or (load d free_list_block) 0 0 ≢ 0
    → block_free d n
      ≡ store
          (store d n (fetch d free_list_block))
          free_list_block
          (write_free_disk_list_block (replicate 127 0 ++ (n ∷ [])) (fetch d free_list_block))
unfolding block_free
block_free-full d n v h =
    rw
      (
        ne→==-false (get_or (load d free_list_block) 0 0) 0 h,
        clear_first-set (load d free_list_block) 127 n v.count,
      )
      refl

put-eq :
    (nos : List ℕ) (z : ℕ) (zs : List ℕ) (n : ℕ)
    → IsBlockList nos
    → nos ≡ replicate (suc z) 0 ++ zs
    → AllNe 0 zs
    → put_last_zero 128 nos n ≡ replicate z 0 ++ (n ∷ zs)
put-eq nos z zs n v e h =
    let len : 128 ≡ suc z + length zs =
      sym v.count
      ∙ ap length e
      ∙ length-append (replicate (suc z) 0) zs
      ∙ ap (λ k. k + length zs) (length-replicate (suc z) 0) in
    ap (λ l. put_last_zero 128 l n) (e ∙ sym (zeros-suc z zs))
    ∙ put_last_zero-zeros 128 z zs n h (omega arith) (omega arith)

-- There is room: the number goes in front of the others.
block_free-room :
    (d : Disk) (n z : ℕ) (zs : List ℕ)
    → IsBlockList (load d free_list_block)
    → load d free_list_block ≡ replicate (suc z) 0 ++ zs
    → AllNe 0 zs
    → block_free d n
      ≡ store d free_list_block
          (write_free_disk_list_block (replicate z 0 ++ (n ∷ zs)) (fetch d free_list_block))
unfolding block_free replicate
block_free-room d n z zs v e h =
    let first : get_or (load d free_list_block) 0 0 ≡ 0 = rw e in
    let put = put-eq (load d free_list_block) z zs n v e h in rw (first, put) refl

IsBlockList-room :
    {nos : List ℕ} (z : ℕ) (zs : List ℕ) (n : ℕ)
    → IsData n
    → IsBlockList nos
    → nos ≡ replicate (suc z) 0 ++ zs
    → AllNe 0 zs
    → IsBlockList (replicate z 0 ++ (n ∷ zs))
IsBlockList-room {nos} z zs n a v e h = record {
  count =
      length-append (replicate z 0) (n ∷ zs)
      ∙ omega (
        arith,
        v.count,
        ap length e,
        length-append (replicate (suc z) 0) zs,
        length-replicate {A = ℕ} (suc z) 0,
        length-replicate {A = ℕ} z 0,
      );
  fits =
      rw (← put-eq nos z zs n v e h)
        (AllBelow-put_last_zero (256 ^ 8) 128 nos n v.fits (omega arith));
}

-- What a push does to the stack and to the other blocks.
abbrev Pushed : Disk → ℕ → List ℕ → Type 0
Pushed d n xs =
    IsFree (block_free d n) (n ∷ xs)
    × ((k : ℕ) → k ≢ free_list_block → k ≢ n → fetch (block_free d n) k ≡ fetch d k)

module _ (d : Disk) (n : ℕ) (xs : List ℕ) (f : IsFree d xs) (a : IsData n) (ne : AllNe n xs) where
  push_full :
      IsBlockList (load d free_list_block) → get_or (load d free_list_block) 0 0 ≢ 0 → Pushed d n xs
  push_full v h =
      let buffer = fetch d free_list_block in
      let d1 = store d n buffer in
      let nos : List ℕ = replicate 127 0 ++ (n ∷ []) in
      let v' : IsBlockList nos = record {
        count = length-append (replicate 127 0) (n ∷ []) ∙ ap (λ k. k + 1) (length-replicate 127 0);
        fits = AllBelow-zeros (256 ^ 8) 127 n (omega arith) (omega arith);
      } in
      let rt = make_free_disk_list_block-write nos buffer v' f.block in
      let m1 : InMemory d1 = InMemory-store d n buffer f.memory in
      let here : fetch d1 n ≡ buffer = fetch-store_self d n buffer f.memory a.2 in
      let c : Chain d1 (load d1 n) xs = rw here (Chain-store d n buffer f.memory ne f.chain) in
      rw (block_free-full d n v h) (
        IsFree-store d1 (write_free_disk_list_block nos buffer) nos (n ∷ xs) m1 rt.1 rt.0
            (a, f.blocks) (ne, f.distinct) (link 127 [] n v' refl refl tt a.0 (rw here f.block) c),
        λ k k2 kn.
            fetch-store_ne d1 free_list_block (write_free_disk_list_block nos buffer) k m1 k2
            ∙ fetch-store_ne d n buffer k f.memory kn,
      )

  push_room :
      {rest : List ℕ} (z : ℕ) (ys : List ℕ) (p : ℕ)
      → IsBlockList (load d free_list_block)
      → load d free_list_block ≡ replicate (suc z) 0 ++ (ys ++ (p ∷ []))
      → xs ≡ ys ++ (p ∷ rest)
      → AllNe 0 ys
      → p ≢ 0
      → IsBlock (fetch d p)
      → Chain d (load d p) rest
      → Pushed d n xs
  push_room z ys p v e1 e2 ne0 p0 b c =
      let zs : List ℕ = ys ++ (p ∷ []) in
      let nos : List ℕ = replicate z 0 ++ (n ∷ zs) in
      let buffer = fetch d free_list_block in
      let hz : AllNe 0 zs = AllNe-append 0 ys (p ∷ []) ne0 (p0, tt) in
      let v' : IsBlockList nos = IsBlockList-room z zs n a v e1 hz in
      let rt = make_free_disk_list_block-write nos buffer v' f.block in
      rw (block_free-room d n z zs v e1 hz) (
        IsFree-store d (write_free_disk_list_block nos buffer) nos (n ∷ xs) f.memory rt.1 rt.0
            (a, f.blocks) (ne, f.distinct)
            (link z (n ∷ ys) p v' refl (ap (λ l. n ∷ l) e2) (a.0, ne0) p0 b c),
        λ k k2 kn.
            fetch-store_ne d free_list_block (write_free_disk_list_block nos buffer) k f.memory k2,
      )

  push-Chain :
      {nos zs : List ℕ} → load d free_list_block ≡ nos → xs ≡ zs → Chain d nos zs → Pushed d n xs
  unfolding replicate
  push-Chain e ez (floor v h) = push_full (rw e v) (rw e h)
  push-Chain e ez (link zero [] p v e1 e2 ne0 p0 b c) =
      push_full (rw e v) (λ h. p0 (sym (ap (λ l. get_or l 0 0) (e ∙ e1)) ∙ h))
  push-Chain e ez (link zero (y ∷ ys) p v e1 e2 ne0 p0 b c) =
      push_full (rw e v) (λ h. ne0.0 (sym (ap (λ l. get_or l 0 0) (e ∙ e1)) ∙ h))
  push-Chain e ez (link (suc z) ys p v e1 e2 ne0 p0 b c) =
      push_room z ys p (rw e v) (e ∙ e1) (ez ∙ e2) ne0 p0 b c

-- A data block that is not free goes on top of the stack of free blocks, and no block changes but
-- the one that holds the list and the block that is freed.
pub block_free-push :
    (d : Disk) (n : ℕ) (xs : List ℕ)
    → IsFree d xs
    → IsData n
    → AllNe n xs
    → IsFree (block_free d n) (n ∷ xs)
      × ((k : ℕ) → k ≢ free_list_block → k ≢ n → fetch (block_free d n) k ≡ fetch d k)
block_free-push d n xs f a ne = push-Chain d n xs f a ne refl refl f.chain
