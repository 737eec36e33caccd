-- ===== src/System/Keeps.antt =====
-- The steps that change an inode without locking it: they leave its mutex as it is.
use native.Mathlib.Decide.{ℕ_discrete}
use naofs.Prelude.{
  ℕ, zero, suc, ◌+◌, ◌*◌, ◌%◌, ◌≡◌, refl, ap, ◌∙◌, false, Option, none, some, List, ◌∷◌, [],
  if◌then◌else◌, if_both, leb, ltb, ◌==◌, ◌&&◌, not, ◌||◌, ℤ, pos, negsuc,
}
use naofs.Params.{block_size, directory_entry_size}
use naofs.Disk.{Disk}
use naofs.Inode.{InCoreINode}
use naofs.Pool.{update}
use naofs.Pool.Ring.{update_self, update_ne}
use naofs.Cache.{Fs, set_inode}
use naofs.Cache.Locks.{AllUnlocked}
use naofs.Blocks.{block_alloc}
use naofs.Tree.{
  bmap, append_mode, is_append, BmapResponse, BlkTreeOffset, direct, single, double, triple, beyond,
  update_index, insert_data_block_in_inode, calculate_offset, update_inode_metadata,
  create_bmap_response, leaf_block,
}
use naofs.Directory.{
  get_and_update_directory_table, update_new_dir_meta_data, validate_search, add_directory_entry,
}
use naofs.System.{
  Env, memory_of, update_metadata_at, inode_at, set_at, keep_or_set, add_entry_at, new_dir_at,
}
use naofs.System.Locks.{Triple}

locked-update_inode_metadata :
    (now : ℕ) (c : InCoreINode) (z : ℤ) (links : ℕ)
    → (update_inode_metadata now c z links).locked ≡ c.locked
unfolding update_inode_metadata
locked-update_inode_metadata now c (pos zero) links = refl
locked-update_inode_metadata now c (pos (suc n)) links = refl
locked-update_inode_metadata now c (negsuc n) links = refl

locked-update_index :
    (now : ℕ) (c : InCoreINode) (add : ℕ) (t : BlkTreeOffset) (d : Disk)
    → (update_index now c add t d).0.locked ≡ c.locked
unfolding update_index update_inode_metadata
locked-update_index now c add (direct i) d = refl
locked-update_index now c add beyond d = refl
locked-update_index now c add (single i) d = refl
locked-update_index now c add (double i j) d = refl
locked-update_index now c add (triple i j k) d = refl

locked-insert :
    (now : ℕ) (c : InCoreINode) (add : ℕ) (d : Disk)
    → (insert_data_block_in_inode now c add d).0.locked ≡ c.locked
unfolding insert_data_block_in_inode
locked-insert now c add d =
    if_both (λ (r : InCoreINode × Disk). r.0.locked ≡ c.locked) (c.size % block_size == 0)
      (update_index now c add (calculate_offset c.size) d) (c, d)
      (locked-update_index now c add (calculate_offset c.size) d) refl

locked-bmap :
    (now : ℕ) (c : InCoreINode) (offset : ℕ) (d : Disk)
    → (bmap now c offset append_mode d).1.locked ≡ c.locked
unfolding bmap
locked-bmap now c offset d =
    let (new, d1) = block_alloc d in
    let kept : Option BmapResponse × InCoreINode × Disk → Type 0 = λ q. q.1.locked ≡ c.locked in
    let (c2, d2) = insert_data_block_in_inode now c new d1 in
    let grown : Option BmapResponse × InCoreINode × Disk =
      (some (create_bmap_response new 0), c2, d2) in
    let same : Option BmapResponse × InCoreINode × Disk = (
      some (create_bmap_response (leaf_block c (calculate_offset offset) d) (offset % block_size)),
      c,
      d,
    ) in
    let at_end = offset == c.size && offset % block_size == 0 && is_append append_mode in
    if_both kept (leb c.size offset && (not (is_append append_mode) || ltb c.size offset))
      (none, c, d) (if at_end then grown else same) refl
      (if_both kept at_end grown same (locked-insert now c new d1) refl)

-- The inode that a call gives, if it gives one, is not locked.
abbrev Unheld : Option (InCoreINode × Disk) → Type 0
Unheld none = Unit
Unheld (some (c, d)) = c.locked ≡ false

added-Unheld :
    (f : BmapResponse → InCoreINode → Disk → InCoreINode × Disk)
    → ((r : BmapResponse) (c : InCoreINode) (d : Disk) → (f r c d).0.locked ≡ c.locked)
    → (q : Option BmapResponse × InCoreINode × Disk) → q.1.locked ≡ false
    → Unheld (
        (elim q.0 as (λ o. InCoreINode → Disk → Option (InCoreINode × Disk)) [
          | none ↦ λ c d. none
          | some r ↦ λ c d. some (f r c d)
        ])
          q.1 q.2)
added-Unheld f k (none, c, d) h = tt
added-Unheld f k (some r, c, d) h = k r c d ∙ h

AllUnlocked-set :
    (s : Fs) (node : ℕ) (c : InCoreINode)
    → c.locked ≡ false
    → AllUnlocked s.pool
    → AllUnlocked (set_inode s node c).pool
unfolding set_inode
AllUnlocked-set s node c l h m = elim (ℕ_discrete m node) [
  | yes e ↦
      ap (λ k. (update s.pool.inode node c k).locked) e
      ∙ ap (λ (i : InCoreINode). i.locked) (update_self s.pool.inode node c)
      ∙ l
  | no ne ↦ ap (λ (i : InCoreINode). i.locked) (update_ne s.pool.inode node m c ne) ∙ h m
]

keep_or_set-AllUnlocked :
    (node : ℕ) (o : Option (InCoreINode × Disk))
    → Unheld o
    → Triple AllUnlocked (keep_or_set node o) AllUnlocked
unfolding Triple keep_or_set
keep_or_set-AllUnlocked node none u s p = p
keep_or_set-AllUnlocked node (some (c, d)) u s p =
    AllUnlocked-set (record s { disk = d }) node c u p

module _ (e : Env) (node : ℕ) where
  pub update_metadata_at-AllUnlocked :
      (z : ℤ) (links : ℕ) → Triple AllUnlocked (update_metadata_at e node z links) AllUnlocked
  unfolding Triple update_metadata_at inode_at set_at
  update_metadata_at-AllUnlocked z links s p =
      AllUnlocked-set s node _
        (locked-update_inode_metadata e.now (s.pool.inode node) z links ∙ p node) p

  get_and_update-Unheld :
      (c : InCoreINode) (number : ℕ) (name : List ℕ) (d : Disk)
      → c.locked ≡ false
      → Unheld (get_and_update_directory_table e.now c number name d)
  unfolding get_and_update_directory_table
  get_and_update-Unheld c number name d l =
      if_both Unheld (validate_search c) _ none
        (added-Unheld
          (λ r c' d'. (
            update_inode_metadata e.now c' (pos directory_entry_size) c'.links_count,
            add_directory_entry d' r.block_number r.byte_offset_in_block name number,
          ))
          (λ r c' d'.
            locked-update_inode_metadata e.now c' (pos directory_entry_size) c'.links_count)
          (bmap e.now c c.size append_mode d) (locked-bmap e.now c c.size d ∙ l))
        tt

  pub add_entry_at-AllUnlocked :
      (number : ℕ) (name : List ℕ)
      → Triple AllUnlocked (add_entry_at e node number name) AllUnlocked
  unfolding Triple add_entry_at
  add_entry_at-AllUnlocked number name s p =
      keep_or_set-AllUnlocked node _
        (get_and_update-Unheld (s.pool.inode node) number (memory_of e name) s.disk (p node)) s p

  new_dir-Unheld :
      (c : InCoreINode) (parent : ℕ) (dot dots : List ℕ) (d : Disk)
      → c.locked ≡ false
      → Unheld (update_new_dir_meta_data e.now c parent dot dots d)
  unfolding update_new_dir_meta_data
  new_dir-Unheld c parent dot dots d l =
      added-Unheld
        (λ r c' d'.
          let d2 =
            add_directory_entry d' r.block_number r.byte_offset_in_block dot c'.inode_number in
          (
            update_inode_metadata e.now c' (pos (2 * directory_entry_size)) 2,
            add_directory_entry d2 r.block_number (r.byte_offset_in_block + directory_entry_size)
                dots parent,
          ))
        (λ r c' d'. locked-update_inode_metadata e.now c' (pos (2 * directory_entry_size)) 2)
        (bmap e.now c c.size append_mode d) (locked-bmap e.now c c.size d ∙ l)

  pub new_dir_at-AllUnlocked :
      (parent : ℕ) → Triple AllUnlocked (new_dir_at e node parent) AllUnlocked
  unfolding Triple new_dir_at
  new_dir_at-AllUnlocked parent s p =
      keep_or_set-AllUnlocked node _
        (new_dir-Unheld (s.pool.inode node) parent (memory_of e (46 ∷ []))
          (memory_of e (46 ∷ 46 ∷ [])) s.disk (p node))
        s p
