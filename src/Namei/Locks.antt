-- ===== src/Namei/Locks.antt =====
-- The mutexes that the walk along a path takes: it leaves none held.
use naofs.Prelude.{ℕ, zero, suc, false, none, some, List, [], ◌∷◌, length, drop, ℤ, pos, negsuc}
use naofs.Pool.{Ptr}
use naofs.Cache.{done, Fs}
use naofs.Cache.Locks.{Ends, AllUnlocked}
use naofs.System.{Env, M, target, search_at, iput_at, iget_at_root, ◌>>=◌}
use naofs.System.Locks.{
  Triple, Triple-run, Triple-pure, Triple-bind, Triple-target, Triple-search_at, Triple-iget,
  Triple-iput,
}
use naofs.Namei.{cleared_entry, follow, operate, next_name, resolve, get_file_inode}

-- A step that leaves no mutex held where none was held.
abbrev pub Safe : {A : Type 0} → M A → Type 0
Safe m = Triple AllUnlocked m AllUnlocked

pub Safe-bind :
    {A B : Type 0} (m : M A) (f : A → M B) → Safe m → ((a : A) → Safe (f a)) → Safe (m >>= f)
Safe-bind m f = Triple-bind AllUnlocked AllUnlocked AllUnlocked m f

follow-Safe : (z : ℤ) (n : ℕ) → Safe (follow z n)
unfolding follow
follow-Safe (pos zero) n = Triple-pure AllUnlocked _
follow-Safe (pos (suc k)) n = Triple-iget n
follow-Safe (negsuc k) n = Triple-iget n

operate-Safe : (e : Env) (name : List ℕ) (q : Ptr) → Safe (operate e name q)
unfolding operate
operate-Safe e [] q = Triple-pure AllUnlocked _
operate-Safe e (c ∷ cs) q = Safe-bind (target q) _ (Triple-target AllUnlocked q) (λ node.
    Safe-bind (search_at e node (c ∷ cs) cleared_entry false) _
      (Triple-search_at AllUnlocked e node (c ∷ cs) cleared_entry false)
      (λ r. Safe-bind (iput_at e node) _ (Triple-iput e node) (λ k. follow-Safe r.0 r.1.inode_num)))

next-Safe :
    (k : ℕ → M Ptr)
    → ((node : ℕ) → Safe (k node))
    → (r : Ptr) → Safe (elim r [ none ↦ (λ (s : Fs). done (none, s)) | some node ↦ k node ])
next-Safe k h none = Triple-pure AllUnlocked _
next-Safe k h (some node) = h node

resolve-Safe : (fuel : ℕ) (e : Env) (path : List ℕ) (q : Ptr) → Safe (resolve fuel e path q)
unfolding resolve
resolve-Safe fuel e [] q = Triple-pure AllUnlocked _
resolve-Safe zero e (c ∷ cs) q = Triple-pure AllUnlocked _
resolve-Safe (suc fuel) e (c ∷ cs) q =
    let (name, rest) = next_name (c ∷ cs) in
    Safe-bind (operate e name q) _ (operate-Safe e name q) (
      next-Safe (λ node. resolve fuel e rest (some node))
        (λ node. resolve-Safe fuel e rest (some node)))

pub get_file_inode-Safe : (e : Env) (path : List ℕ) → Safe (get_file_inode e path)
unfolding get_file_inode
get_file_inode-Safe e path =
    Safe-bind (iget_at_root 0) _ (Triple-iget 0)
      (λ root. resolve-Safe (length path) e (drop 1 path) root)

-- If no inode is locked, the walk along a path locks no mutex that is held, and where it
-- returns, with an inode or with none, with no inode locked.
pub get_file_inode-AllUnlocked :
    (e : Env) (path : List ℕ) (s : Fs)
    → AllUnlocked s.pool
    → Ends (λ (r : Ptr × Fs). AllUnlocked r.1.pool) (get_file_inode e path s)
get_file_inode-AllUnlocked e path s p =
    Triple-run AllUnlocked (get_file_inode e path) AllUnlocked s (get_file_inode-Safe e path) p
