-- ===== src/System.antt =====
-- What the operations of src/trav and src/interface are written with: steps on the pool and the
-- disk that may fault or wait for ever, and the calls of the lower parts as such steps.
pub mod Locks
pub mod Keeps
pub mod Returns
pub mod Steps
use naofs.Prelude.{
  ℕ, ◌+◌, ◌-◌, ◌%◌, ◌^◌, ◌≡◌, ap, Bool, true, false, Option, none, some, List, [], ◌∷◌, ◌++◌, ◌==◌,
  if◌then◌else◌, ℤ, pos, negsuc,
}
use naofs.Disk.{Disk}
use naofs.Inode.{InCoreINode}
use naofs.InodeList.{get_new_inode}
use naofs.Pool.{Ptr}
use naofs.Cache.{Run, done, fault, deadlock, Fs, set_inode, lock, unlock, iget, iput}
use naofs.Tree.{BmapMode, BmapResponse, bmap, update_inode_metadata}
use naofs.Truncate.{truncate_inode}
use naofs.Directory.{
  DirectoryEntry, get_last_entry, search_inode_directory_entries, get_and_update_directory_table,
  update_new_dir_meta_data,
}

-- What an operation finds around it: what `time` returns, what fresh memory holds where the source
-- does not clear it, and what lies in memory behind the end of a string.
pub record Env : Type 0 where
  pub now : ℕ
  pub fresh_entry : DirectoryEntry
  pub fresh_response : BmapResponse
  pub behind : List ℕ

-- A string in memory from its first byte on.
abbrev pub memory_of : Env → List ℕ → List ℕ
memory_of e name = name ++ (0 ∷ e.behind)

abbrev pub M : Type 0 → Type 0
M A = Fs → Run (A × Fs)

abbrev pub pure : {A : Type 0} → A → M A
pure a s = done (a, s)

infixl 5 ◌>>=◌ ◌>>◌
abbrev pub ◌>>=◌ : {A B : Type 0} → M A → (A → M B) → M B
◌>>=◌ m f s = elim (m s) [ done (a, s') ↦ f a s' | fault ↦ fault | deadlock ↦ deadlock ]

abbrev pub ◌>>◌ : {A B : Type 0} → M A → M B → M B
m >> k = m >>= λ _. k

-- A step that is known to return is followed by the next one.
pub bind-done :
    {A B : Type 0} (m : M A) (f : A → M B) (s : Fs) (a : A) (s' : Fs)
    → m s ≡ done (a, s')
    → (m >>= f) s ≡ f a s'
bind-done m f s a s' e =
    ap (λ r. elim r [ done (a, s') ↦ f a s' | fault ↦ fault | deadlock ↦ deadlock ]) e

-- A member of what a pointer points to.
unfoldable pub target : Ptr → M ℕ
target none s = fault
target (some node) s = done (node, s)

unfoldable pub inode_at : ℕ → M InCoreINode
inode_at node s = done (s.pool.inode node, s)

unfoldable pub set_at : ℕ → InCoreINode → M (Unit {0})
unfolding set_inode
set_at node c s = done (tt, set_inode s node c)

unfoldable pub lock_at : ℕ → M (Unit {0})
unfolding lock
lock_at node s = elim (lock s node) [
  | done s' ↦ done (tt, s')
  | fault ↦ fault
  | deadlock ↦ deadlock
]

unfoldable pub unlock_at : ℕ → M (Unit {0})
unfolding unlock
unlock_at node s = done (tt, unlock s node)

-- `iget` from device 0, the only one.
unfoldable pub iget_at_root : ℕ → M Ptr
iget_at_root n s = iget s n 0

unfoldable pub iput_at : Env → ℕ → M ℤ
iput_at e node s = iput e.now s node

unfoldable pub update_metadata_at : Env → ℕ → ℤ → ℕ → M (Unit {0})
unfolding set_at
update_metadata_at e node difference links = do
  c ← inode_at node
  set_at node (update_inode_metadata e.now c difference links)

unfoldable pub truncate_at : Env → ℕ → ℕ → M (Unit {0})
unfolding set_inode
truncate_at e node size s =
    let (c, d) = truncate_inode e.now (s.pool.inode node) size e.fresh_response s.disk in
    done (tt, set_inode (record s { disk = d }) node c)

-- `searchINodeDirectoryEntries` for a name: its `int`, and `*entryBuffer`.
unfoldable pub search_at :
    Env → ℕ → (name : List ℕ) → DirectoryEntry → (for_unlink : Bool) → M (ℤ × DirectoryEntry)
search_at e node name buffer for_unlink s =
    let c = s.pool.inode node in
    let last =
      if for_unlink
      then some (get_last_entry e.now c e.fresh_entry e.fresh_response s.disk)
      else none in
    elim (search_inode_directory_entries e.now c name buffer last s.disk) [
      | none ↦ done ((negsuc 0, buffer), s)
      | some (found, buffer', d) ↦
          done ((if found then pos 1 else pos 0, buffer'), record s { disk = d })
    ]

-- What a call that may fail leaves of an inode and the disk.
unfoldable pub keep_or_set : ℕ → Option (InCoreINode × Disk) → M (Unit {0})
unfolding set_inode
keep_or_set node none s = done (tt, s)
keep_or_set node (some (c, d)) s = done (tt, set_inode (record s { disk = d }) node c)

unfoldable pub add_entry_at : Env → ℕ → ℕ → (name : List ℕ) → M (Unit {0})
unfolding keep_or_set
add_entry_at e node number name s =
    keep_or_set node
      (get_and_update_directory_table e.now (s.pool.inode node) number (memory_of e name) s.disk) s

unfoldable pub new_dir_at : Env → ℕ → ℕ → M (Unit {0})
unfolding keep_or_set
new_dir_at e node parent_number s =
    keep_or_set node
      (update_new_dir_meta_data e.now (s.pool.inode node) parent_number (memory_of e (46 ∷ []))
        (memory_of e (46 ∷ 46 ∷ [])) s.disk)
      s

unfoldable pub new_inode : Env → (type mode uid gid : ℕ) → M ℕ
new_inode e type mode uid gid s =
    let (n, d) = get_new_inode s.disk e.now type mode uid gid in done (n, record s { disk = d })
