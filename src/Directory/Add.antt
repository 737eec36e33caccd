-- ===== src/Directory/Add.antt =====
-- A name that was added to a directory of one block is found by the search.
use naofs.Prelude.{
  ℕ, suc, ◌+◌, ◌*◌, ◌/◌, ◌%◌, ◌^◌, ◌≡◌, ◌≢◌, ◌<◌, refl, ap, ap₂, ◌∙◌, true, false, none, some, List,
  ◌∷◌, ◌++◌, take, drop, slice, length, pos, add_int, arith,
}
use naofs.Params.{block_size, filename_size, directory_entry_size}
use naofs.Disk.{Disk, fetch, store, num_of_blocks_in_mem}
use naofs.Disk.Laws.{InMemory, fetch-store_self}
use naofs.Inode.{InCoreINode}
use naofs.Meta.RoundTrip.{IsBlock}
use naofs.Tree.{
  bmap, append_mode, create_bmap_response, leaf_block, calculate_offset, update_inode_metadata,
}
use naofs.Tree.Bmap.{leaf-same}
use naofs.Directory.{
  DirectoryEntry, is_dir, validate_search, same_name, read_entry, write_entry,
  search_inode_directory_entries, add_directory_entry, get_and_update_directory_table,
}
use naofs.Directory.Entry.{read_entry-write, slice-write_entry}
use naofs.Directory.Names.{same_name-entry, same_name_self}
use naofs.Directory.Search.{first_block, search_inode-found}

-- None of the first `k` entries of a block has the name.
abbrev pub NotIn : List ℕ → List ℕ → ℕ → Type 0
NotIn block name k =
    (i : ℕ) → i < k → same_name (slice (i * directory_entry_size) filename_size block) name ≡ false

-- A directory with an entry more, and its first block with that entry.
abbrev pub grown : ℕ → InCoreINode → InCoreINode
grown now c = update_inode_metadata now c (pos directory_entry_size) c.links_count

abbrev pub entered : InCoreINode → Disk → (k number : ℕ) → (name : List ℕ) → Disk
entered c d k number name =
    store d (first_block c)
      (write_entry (fetch d (first_block c)) (k * directory_entry_size) name number)

bmap-append_inside :
    (now : ℕ) (c : InCoreINode) (d : Disk)
    → c.size % block_size ≢ 0
    → bmap now c c.size append_mode d ≡ (
      some (create_bmap_response (leaf_block c (calculate_offset c.size) d) (c.size % block_size)),
      c,
      d,
    )
unfolding bmap
bmap-append_inside now c d h = ground arith

bmap-within :
    (now : ℕ) (c : InCoreINode) (d : Disk) (k : ℕ)
    → c.size ≡ k * directory_entry_size
    → 0 < k
    → k < 16
    → bmap now c c.size append_mode d
      ≡ (some (create_bmap_response (first_block c) (k * directory_entry_size)), c, d)
unfolding leaf_block calculate_offset
bmap-within now c d k e p h =
    let first : c.size / block_size ≡ 0 / block_size = omega arith in
    let inside : c.size % block_size ≡ k * directory_entry_size = omega arith in
    let part : c.size % block_size ≢ 0 = λ z. omega arith in
    bmap-append_inside now c d part
    ∙ ap₂ (λ t o. (some (create_bmap_response (leaf_block c t d) o), c, d))
        (leaf-same c.size 0 first) inside

get_and_update-entered :
    (now number : ℕ) (name : List ℕ) (c : InCoreINode) (d : Disk) (k : ℕ)
    → is_dir c.file_mode ≡ true
    → c.size ≡ k * directory_entry_size
    → 0 < k
    → k < 16
    → get_and_update_directory_table now c number name d
      ≡ some (grown now c, entered c d k number name)
unfolding get_and_update_directory_table validate_search add_directory_entry create_bmap_response
get_and_update-entered now number name c d k v e p h = rw (v, bmap-within now c d k e p h) refl

-- What the names of a block are once an entry behind them is written.
NotIn-write_entry :
    (block : List ℕ) (name written : List ℕ) (number k i : ℕ)
    → IsBlock block
    → k < 16
    → length (take filename_size written) ≡ filename_size
    → length name < filename_size
    → NotIn block name k
    → i < k
    → same_name
        (drop
          (0 + i * directory_entry_size)
          (write_entry block (k * directory_entry_size) written number))
        name
      ≡ false
NotIn-write_entry block name written number k i b h l n none_of lt =
    same_name-entry (write_entry block (k * directory_entry_size) written number) name i n
    ∙ ap (λ bs. same_name bs name)
        (slice-write_entry block k i number (i * directory_entry_size) 0 filename_size written
          (omega arith) b (λ q. omega arith) l (omega arith))
    ∙ none_of i lt

-- A name that no entry of a directory of one block has, when it is added with an inode number of
-- 16 bits, is found by the search, with that number: the directory has from 1 to 15 entries and
-- lies on the disk in memory in a block of full length, the name is shorter than the 62 bytes of
-- an entry, which are all in memory, and the buffer for the number has no high bytes set.
pub get_and_update-search :
    (now number : ℕ) (name behind : List ℕ) (c : InCoreINode) (buffer : DirectoryEntry) (d : Disk)
    (k : ℕ)
    → InMemory d
    → first_block c < num_of_blocks_in_mem
    → IsBlock (fetch d (first_block c))
    → is_dir c.file_mode ≡ true
    → c.size ≡ k * directory_entry_size
    → 0 < k
    → k < 16
    → length name < filename_size
    → length (take filename_size (name ++ (0 ∷ behind))) ≡ filename_size
    → number < 2 ^ 16
    → buffer.inode_num < 2 ^ 16
    → NotIn (fetch d (first_block c)) name k
    → (c' : InCoreINode) × (d' : Disk) × (get_and_update_directory_table now c number
          (name ++ (0 ∷ behind))
          d
        ≡ some (c', d'))
      × (search_inode_directory_entries now c' name buffer none d'
          ≡ some (
            true,
            record { name = take filename_size (name ++ (0 ∷ behind)); inode_num = number },
            d',
          ))
unfolding update_inode_metadata add_int read_entry
get_and_update-search now number name behind c buffer d k m f b v e p h n l u o none_of =
    let written = name ++ (0 ∷ behind) in
    let block = fetch d (first_block c) in
    let w = write_entry block (k * directory_entry_size) written number in
    let d' = entered c d k number written in
    let stored : fetch d' (first_block c) ≡ w = fetch-store_self d (first_block c) w m f in
    let size : (c.size + directory_entry_size) % 2 ^ 64 ≡ suc k * directory_entry_size =
      omega arith in
    let at : 0 + k * directory_entry_size ≡ k * directory_entry_size = omega arith in
    let there : read_entry w (k * directory_entry_size) buffer
        ≡ record { name = take filename_size written; inode_num = number } =
      read_entry-write block k number written buffer b h l u o in
    let here : same_name (drop (0 + k * directory_entry_size) w) name ≡ true =
      same_name-entry w name k n
      ∙ ap (λ (r : DirectoryEntry). same_name r.name name) there
      ∙ same_name_self filename_size name behind n in
    (
      grown now c,
      d',
      get_and_update-entered now number written c d k v e p h,
      search_inode-found now (grown now c) name buffer d' k (suc k) v size h (omega arith)
            (λ i lt.
              ap (λ bs. same_name (drop (0 + i * directory_entry_size) bs) name) stored
              ∙ NotIn-write_entry block name written number k i b h l n none_of lt)
            (ap (λ bs. same_name (drop (0 + k * directory_entry_size) bs) name) stored ∙ here) none
            tt
          ∙ ap₂ (λ bs q. some (true, read_entry bs q buffer, d')) stored at
          ∙ ap (λ r. some (true, r, d')) there,
    )
