-- ===== src/System/Locks.antt =====
-- Which mutexes the steps hold, before and behind: rules for one step behind another, and for each
-- step.
use naofs.Prelude.{ℕ, Bool, Option, none, some, List, if◌then◌else◌, ℤ, pos, negsuc}
use naofs.Disk.{Disk}
use naofs.Inode.{InCoreINode}
use naofs.Pool.{Pool, Ptr}
use naofs.Cache.{Run, done, fault, deadlock, Fs, lock}
use naofs.Cache.Locks.{
  Ends, AllUnlocked, Others, Others-set, lock-Others, unlock-AllUnlocked, iget-AllUnlocked,
  iput-AllUnlocked,
}
use naofs.Directory.{DirectoryEntry}
use naofs.Truncate.{truncate_inode}
use naofs.System.{
  Env, M, pure, ◌>>=◌, target, inode_at, set_at, lock_at, unlock_at, iget_at_root, iput_at,
  update_metadata_at, truncate_at, search_at, keep_or_set, add_entry_at, new_dir_at, new_inode,
}

-- Where the pool is `P`, the step does not wait for ever for a mutex, and where it returns the pool is `Q`.
unfoldable pub Triple : {A : Type 0} → (Pool → Type 0) → M A → (Pool → Type 0) → Type 0
Triple {A} P m Q = (s : Fs) → P s.pool → Ends (λ (r : A × Fs). Q r.1.pool) (m s)

module _ {A B : Type 0} (P Q R : Pool → Type 0) where
  bind-Ends :
      (f : A → M B) (r : Run (A × Fs))
      → Ends (λ (r : A × Fs). Q r.1.pool) r
      → ((a : A) → Triple Q (f a) R)
      → Ends
          (λ (r : B × Fs). R r.1.pool)
          (elim r [ done (a, s') ↦ f a s' | fault ↦ fault | deadlock ↦ deadlock ])
  unfolding Triple
  bind-Ends f (done (a, s')) h g = g a s' h
  bind-Ends f fault h g = tt
  bind-Ends f deadlock h g = absurd h

  pub Triple-bind :
      (m : M A) (f : A → M B) → Triple P m Q → ((a : A) → Triple Q (f a) R) → Triple P (m >>= f) R
  unfolding Triple
  Triple-bind m f h g s p = bind-Ends f (m s) (h s p) g

-- A step, and what is behind it, whose end may depend on its result.
pub Triple-then :
    {A B : Type 0} (P Q : Pool → Type 0) (R : B × Fs → Type 0) (m : M A) (f : A → M B)
    → Triple P m Q
    → ((a : A) (s : Fs) → Q s.pool → Ends R (f a s))
    → (s : Fs) → P s.pool
    → Ends R ((m >>= f) s)
unfolding Triple
Triple-then {A} {B} P Q R m f h g s p = ended (m s) (h s p)
  where
    ended :
        (r : Run (A × Fs))
        → Ends (λ (r : A × Fs). Q r.1.pool) r
        → Ends R (elim r [ done (a, s') ↦ f a s' | fault ↦ fault | deadlock ↦ deadlock ])
    ended (done (a, s')) q = g a s' q
    ended fault q = tt
    ended deadlock q = absurd q

-- A fault is not a wait for ever.
pub Triple-fault : (A : Type 0) (P : Pool → Type 0) → Triple {A = A} P (λ s. fault) P
unfolding Triple
Triple-fault A P s p = tt

-- What the rules say of a run.
pub Triple-run :
    {A : Type 0} (P : Pool → Type 0) (m : M A) (Q : Pool → Type 0) (s : Fs)
    → Triple P m Q
    → P s.pool
    → Ends (λ (r : A × Fs). Q r.1.pool) (m s)
unfolding Triple
Triple-run P m Q s h p = h s p

module _ (P : Pool → Type 0) where
  pub Triple-pure : {A : Type 0} (a : A) → Triple P (pure a) P
  unfolding Triple
  Triple-pure a s p = p

  pub Triple-inode_at : (node : ℕ) → Triple P (inode_at node) P
  unfolding Triple inode_at
  Triple-inode_at node s p = p

  pub Triple-target : (q : Ptr) → Triple P (target q) P
  unfolding Triple target
  Triple-target none s p = tt
  Triple-target (some node) s p = p

  pub Triple-new_inode :
      (e : Env) (type mode uid gid : ℕ) → Triple P (new_inode e type mode uid gid) P
  unfolding Triple new_inode
  Triple-new_inode e type mode uid gid s p = p

  searched :
      (s : Fs) (buffer : DirectoryEntry) (o : Option (Bool × DirectoryEntry × Disk))
      → P s.pool
      → Ends
          (λ (r : (ℤ × DirectoryEntry) × Fs). P r.1.pool)
          (elim o [
            | none ↦ done ((negsuc 0, buffer), s)
            | some (found, buffer', d) ↦
                done ((if found then pos 1 else pos 0, buffer'), record s { disk = d })
          ])
  searched s buffer none p = p
  searched s buffer (some (found, buffer', d)) p = p

  pub Triple-search_at :
      (e : Env) (node : ℕ) (name : List ℕ) (buffer : DirectoryEntry) (for_unlink : Bool)
      → Triple P (search_at e node name buffer for_unlink) P
  unfolding Triple search_at
  Triple-search_at e node name buffer for_unlink s p = searched s buffer _ p

pub Triple-iget : (n : ℕ) → Triple AllUnlocked (iget_at_root n) AllUnlocked
unfolding Triple iget_at_root
Triple-iget n s p = iget-AllUnlocked s n 0 p

pub Triple-iput : (e : Env) (node : ℕ) → Triple AllUnlocked (iput_at e node) AllUnlocked
unfolding Triple iput_at
Triple-iput e node s p = iput-AllUnlocked e.now s node p

module _ (node : ℕ) where
  abbrev pub Held : Pool → Type 0
  Held p = Others p node

  locked-Ends :
      (r : Run Fs)
      → Ends (λ (t : Fs). Held t.pool) r
      → Ends
          (λ (r : Unit {0} × Fs). Held r.1.pool)
          (elim r [ done s' ↦ done (tt, s') | fault ↦ fault | deadlock ↦ deadlock ])
  locked-Ends (done s') h = h
  locked-Ends fault h = tt
  locked-Ends deadlock h = absurd h

  pub Triple-lock : Triple AllUnlocked (lock_at node) Held
  unfolding Triple lock_at
  Triple-lock s p = locked-Ends (lock s node) (lock-Others s node p)

  pub Triple-unlock : Triple Held (unlock_at node) AllUnlocked
  unfolding Triple unlock_at
  Triple-unlock s p = unlock-AllUnlocked s node p

  pub Triple-set_at : (c : InCoreINode) → Triple Held (set_at node c) Held
  unfolding Triple set_at
  Triple-set_at c s p = Others-set s node c p

  pub Triple-truncate_at : (e : Env) (size : ℕ) → Triple Held (truncate_at e node size) Held
  unfolding Triple truncate_at
  Triple-truncate_at e size s p =
      let (c, d) = truncate_inode e.now (s.pool.inode node) size e.fresh_response s.disk in
      Others-set (record s { disk = d }) node c p

  pub Triple-update_metadata_at :
      (e : Env) (difference : ℤ) (links : ℕ)
      → Triple Held (update_metadata_at e node difference links) Held
  unfolding Triple update_metadata_at inode_at set_at
  Triple-update_metadata_at e difference links s p = Others-set s node _ p

  Triple-keep_or_set : (o : Option (InCoreINode × Disk)) → Triple Held (keep_or_set node o) Held
  unfolding Triple keep_or_set
  Triple-keep_or_set none s p = p
  Triple-keep_or_set (some (c, d)) s p = Others-set (record s { disk = d }) node c p

  pub Triple-add_entry_at :
      (e : Env) (number : ℕ) (name : List ℕ) → Triple Held (add_entry_at e node number name) Held
  unfolding Triple add_entry_at
  Triple-add_entry_at e number name s p = Triple-keep_or_set _ s p

  pub Triple-new_dir_at :
      (e : Env) (parent_number : ℕ) → Triple Held (new_dir_at e node parent_number) Held
  unfolding Triple new_dir_at
  Triple-new_dir_at e parent_number s p = Triple-keep_or_set _ s p
