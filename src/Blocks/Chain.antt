-- ===== src/Blocks/Chain.antt =====
-- What the free block list stands for: a stack of block numbers, over lists that lie in its blocks.
use naofs.Prelude.{ℕ, ◌<◌, ◌≡◌, ◌≢◌, List, [], ◌∷◌, ◌++◌, get_or, replicate}
use naofs.Params.{free_list_block}
use naofs.Disk.{Disk, fetch, store, num_of_blocks_in_mem}
use naofs.Disk.Laws.{InMemory, fetch-store_ne}
use naofs.Meta.{make_free_disk_list_block}
use naofs.Meta.RoundTrip.{IsBlock, IsBlockList}

-- No element is `n`.
abbrev pub AllNe : ℕ → List ℕ → Type 0
AllNe n [] = Unit
AllNe n (x ∷ xs) = (x ≢ n) × AllNe n xs

abbrev pub Distinct : List ℕ → Type 0
Distinct [] = Unit
Distinct (x ∷ xs) = AllNe x xs × Distinct xs

-- A block that may be handed out: not block 0, not the list's own block, and on the disk.
abbrev pub IsData : ℕ → Type 0
IsData n = (n ≢ 0) × (n ≢ free_list_block) × (n < num_of_blocks_in_mem)

abbrev pub AllData : List ℕ → Type 0
AllData [] = Unit
AllData (x ∷ xs) = IsData x × AllData xs

-- The numbers on the list stored in a block.
abbrev pub load : Disk → ℕ → List ℕ
load d p = make_free_disk_list_block (fetch d p)

-- The array `nos` and the lists that it leads to hold the free blocks `xs`, the next to be handed
-- out first. At the floor stands a list whose first number is in use as a free block; of its blocks
-- nothing is said.
pub data Chain (d : Disk) : List ℕ → List ℕ → Type 0 where
  floor : {nos : List ℕ} → IsBlockList nos → get_or nos 0 0 ≢ 0 → Chain d nos []
  link :
      {nos xs rest : List ℕ} (z : ℕ) (ys : List ℕ) (p : ℕ)
      → IsBlockList nos
      → nos ≡ replicate z 0 ++ (ys ++ (p ∷ []))
      → xs ≡ ys ++ (p ∷ rest)
      → AllNe 0 ys
      → p ≢ 0
      → IsBlock (fetch d p)
      → Chain d (load d p) rest
      → Chain d nos xs

-- The disk's free blocks are the stack `xs`.
pub record IsFree (d : Disk) (xs : List ℕ) : Type 0 where
  pub memory : InMemory d
  pub block : IsBlock (fetch d free_list_block)
  pub blocks : AllData xs
  pub distinct : Distinct xs
  pub chain : Chain d (load d free_list_block) xs

pub AllNe-append_left : (n : ℕ) (xs ys : List ℕ) → AllNe n (xs ++ ys) → AllNe n xs
AllNe-append_left n [] ys h = tt
AllNe-append_left n (x ∷ xs) ys h = (h.0, AllNe-append_left n xs ys h.1)

pub AllNe-append_right : (n : ℕ) (xs ys : List ℕ) → AllNe n (xs ++ ys) → AllNe n ys
AllNe-append_right n [] ys h = h
AllNe-append_right n (x ∷ xs) ys h = AllNe-append_right n xs ys h.1

pub AllNe-of_AllData : (xs : List ℕ) → AllData xs → AllNe free_list_block xs
AllNe-of_AllData [] h = tt
AllNe-of_AllData (x ∷ xs) h = (h.0.1, AllNe-of_AllData xs h.1)

pub AllNe-append : (n : ℕ) (xs ys : List ℕ) → AllNe n xs → AllNe n ys → AllNe n (xs ++ ys)
AllNe-append n [] ys hx hy = hy
AllNe-append n (x ∷ xs) ys hx hy = (hx.0, AllNe-append n xs ys hx.1 hy)

-- A write to a block that is not free leaves the chain alone.
pub Chain-store :
    (d : Disk) (n : ℕ) (block : List ℕ) {nos xs : List ℕ}
    → InMemory d
    → AllNe n xs
    → Chain d nos xs
    → Chain (store d n block) nos xs
Chain-store d n block m h (floor v e) = floor v e
Chain-store d n block m h (link {rest} z ys p v e1 e2 ne p0 b c) =
    let h' = AllNe-append_right n ys (p ∷ rest) (rw e2 at h) in
    let same : fetch (store d n block) p ≡ fetch d p = fetch-store_ne d n block p m h'.0 in
    link z ys p v e1 e2 ne p0 (rw same b) (rw same (Chain-store d n block m h'.1 c))

pub IsBlockList-of_Chain : {d : Disk} {nos xs : List ℕ} → Chain d nos xs → IsBlockList nos
IsBlockList-of_Chain (floor v e) = v
IsBlockList-of_Chain (link z ys p v e1 e2 ne p0 b c) = v
