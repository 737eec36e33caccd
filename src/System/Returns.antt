-- ===== src/System/Returns.antt =====
-- The mutexes behind a step that returns, where some are held before it: rules for one step behind
-- another, and for each step.
use naofs.Prelude.{ℕ, ◌≢◌, Bool, Option, none, some, List, [], ◌∷◌, if◌then◌else◌, ℤ, pos, negsuc}
use naofs.Disk.{Disk}
use naofs.Inode.{InCoreINode}
use naofs.Pool.{Ptr}
use naofs.Cache.{Run, done, fault, deadlock, Fs, lock}
use naofs.Cache.Locks.{Ends, AllUnlocked}
use naofs.Cache.Returns.{
  Returns, IsOff, Except, set-Except, lock-Except, unlock-Except, iget-Except, iput-Except,
}
use naofs.Directory.{DirectoryEntry, get_last_entry}
use naofs.Truncate.{truncate_inode}
use naofs.System.{
  Env, M, pure, ◌>>=◌, target, inode_at, set_at, lock_at, unlock_at, iget_at_root, iput_at,
  update_metadata_at, truncate_at, search_at, keep_or_set, add_entry_at,
}
use naofs.System.Locks.{Triple}
use naofs.Namei.Locks.{Safe}

-- Where no mutex is held but of `before`, and the step returns, none is held but of `after`.
unfoldable pub Leaves : {A : Type 0} → (before : List ℕ) → M A → (after : List ℕ) → Type 0
Leaves {A} before m after =
    (s : Fs) → Except before s.pool → Returns (λ (r : A × Fs). Except after r.1.pool) (m s)

pub Leaves-run :
    {A : Type 0} (before after : List ℕ) (m : M A) (s : Fs)
    → Leaves before m after
    → Except before s.pool
    → Returns (λ (r : A × Fs). Except after r.1.pool) (m s)
unfolding Leaves
Leaves-run before after m s h p = h s p

module _ {A B : Type 0} (before between after : List ℕ) where
  bind-Returns :
      (f : A → M B) (r : Run (A × Fs))
      → Returns (λ (r : A × Fs). Except between r.1.pool) r
      → ((a : A) → Leaves between (f a) after)
      → Returns
          (λ (r : B × Fs). Except after r.1.pool)
          (elim r [ done (a, s') ↦ f a s' | fault ↦ fault | deadlock ↦ deadlock ])
  unfolding Leaves
  bind-Returns f (done (a, s')) h g = g a s' h
  bind-Returns f fault h g = tt
  bind-Returns f deadlock h g = tt

  pub Leaves-bind :
      (m : M A) (f : A → M B)
      → Leaves before m between
      → ((a : A) → Leaves between (f a) after)
      → Leaves before (m >>= f) after
  unfolding Leaves
  Leaves-bind m f h g s p = bind-Returns f (m s) (h s p) g

pub Leaves-lock : (nodes : List ℕ) (node : ℕ) → Leaves nodes (lock_at node) (node ∷ nodes)
unfolding Leaves lock_at
Leaves-lock nodes node s p = locked (lock s node) (lock-Except nodes s node p)
  where
    locked :
        (r : Run Fs)
        → Returns (λ (t : Fs). Except (node ∷ nodes) t.pool) r
        → Returns
            (λ (r : Unit {0} × Fs). Except (node ∷ nodes) r.1.pool)
            (elim r [ done s' ↦ done (tt, s') | fault ↦ fault | deadlock ↦ deadlock ])
    locked (done s') h = h
    locked fault h = tt
    locked deadlock h = tt

-- The unlocking of a node, which need not be the last one locked.
pub Leaves-unlock_any :
    (nodes fewer : List ℕ) (node : ℕ)
    → ((m : ℕ) → m ≢ node → IsOff fewer m → IsOff nodes m)
    → Leaves nodes (unlock_at node) fewer
unfolding Leaves unlock_at
Leaves-unlock_any nodes fewer node off s p = unlock-Except nodes fewer s node off p

pub Leaves-unlock : (nodes : List ℕ) (node : ℕ) → Leaves (node ∷ nodes) (unlock_at node) nodes
Leaves-unlock nodes node = Leaves-unlock_any (node ∷ nodes) nodes node (λ m ne out. (ne, out))

module _ (nodes : List ℕ) where
  pub Leaves-pure : {A : Type 0} (a : A) → Leaves nodes (pure a) nodes
  unfolding Leaves
  Leaves-pure a s p = p

  pub Leaves-fault : (A : Type 0) → Leaves {A = A} nodes (λ s. fault) nodes
  unfolding Leaves
  Leaves-fault A s p = tt

  pub Leaves-target : (q : Ptr) → Leaves nodes (target q) nodes
  unfolding Leaves target
  Leaves-target none s p = tt
  Leaves-target (some node) s p = p

  pub Leaves-inode_at : (node : ℕ) → Leaves nodes (inode_at node) nodes
  unfolding Leaves inode_at
  Leaves-inode_at node s p = p

  pub Leaves-iget : (n : ℕ) → Leaves nodes (iget_at_root n) nodes
  unfolding Leaves iget_at_root
  Leaves-iget n s p = iget-Except nodes s n 0 p

  pub Leaves-iput : (e : Env) (node : ℕ) → Leaves nodes (iput_at e node) nodes
  unfolding Leaves iput_at
  Leaves-iput e node s p = iput-Except nodes e.now s node p

  searched :
      (s : Fs) (buffer : DirectoryEntry) (o : Option (Bool × DirectoryEntry × Disk))
      → Except nodes s.pool
      → Returns
          (λ (r : (ℤ × DirectoryEntry) × Fs). Except nodes r.1.pool)
          (elim o [
            | none ↦ done ((negsuc 0, buffer), s)
            | some (found, buffer', d) ↦
                done ((if found then pos 1 else pos 0, buffer'), record s { disk = d })
          ])
  searched s buffer none p = p
  searched s buffer (some (found, buffer', d)) p = p

  pub Leaves-search_at :
      (e : Env) (node : ℕ) (name : List ℕ) (buffer : DirectoryEntry) (for_unlink : Bool)
      → Leaves nodes (search_at e node name buffer for_unlink) nodes
  unfolding Leaves search_at
  Leaves-search_at e node name buffer for_unlink s p = searched s buffer _ p

  pub Leaves-last_entry :
      (e : Env) (node : ℕ) (buffer : DirectoryEntry)
      → Leaves {A = DirectoryEntry} nodes
          (λ s. done (get_last_entry e.now (s.pool.inode node) buffer e.fresh_response s.disk, s))
          nodes
  unfolding Leaves
  Leaves-last_entry e node buffer s p = p

  -- Changes of a node of the list.
  module _ (node : ℕ) (listed : (m : ℕ) → IsOff nodes m → m ≢ node) where
    pub Leaves-update_metadata_at :
        (e : Env) (difference : ℤ) (links : ℕ)
        → Leaves nodes (update_metadata_at e node difference links) nodes
    unfolding Leaves update_metadata_at inode_at set_at
    Leaves-update_metadata_at e difference links s p = set-Except nodes s node _ listed p

    pub Leaves-truncate_at : (e : Env) (size : ℕ) → Leaves nodes (truncate_at e node size) nodes
    unfolding Leaves truncate_at
    Leaves-truncate_at e size s p =
        let (c, d) = truncate_inode e.now (s.pool.inode node) size e.fresh_response s.disk in
        set-Except nodes (record s { disk = d }) node c listed p

    kept_or_set : (o : Option (InCoreINode × Disk)) → Leaves nodes (keep_or_set node o) nodes
    unfolding Leaves keep_or_set
    kept_or_set none s p = p
    kept_or_set (some (c, d)) s p = set-Except nodes (record s { disk = d }) node c listed p

    pub Leaves-add_entry_at :
        (e : Env) (number : ℕ) (name : List ℕ)
        → Leaves nodes (add_entry_at e node number name) nodes
    unfolding Leaves add_entry_at keep_or_set
    Leaves-add_entry_at e number name s p = unfold Leaves in kept_or_set _ s p

-- A step that is safe where no mutex is held.
pub Leaves-Safe : {A : Type 0} (m : M A) → Safe m → Leaves [] m []
unfolding Leaves Triple
Leaves-Safe {A} m h s p = ended (m s) (h s (λ n. p n tt))
  where
    ended :
        (r : Run (A × Fs))
        → Ends (λ (r : A × Fs). AllUnlocked r.1.pool) r
        → Returns (λ (r : A × Fs). Except [] r.1.pool) r
    ended (done (a, t)) q = λ n out. q n
    ended fault q = tt
    ended deadlock q = tt
