-- ===== src/Create/Locks.antt =====
-- The mutexes of a creation: none is held at the end.
use naofs.Prelude.{
  ℕ, false, none, some, List, if◌then◌else◌, if_both, ℤ, pos, negsuc, bit_or, ◌==◌, ◌||◌, Option,
}
use naofs.Inode.{t_regular, t_directory}
use naofs.Pool.{Ptr}
use naofs.Cache.{Fs, fault}
use naofs.Cache.Locks.{Ends, AllUnlocked}
use naofs.System.{
  Env, M, pure, ◌>>=◌, target, inode_at, update_metadata_at, iget_at_root, iput_at, search_at,
  add_entry_at, new_dir_at, new_inode,
}
use naofs.System.Locks.{
  Triple-run, Triple-pure, Triple-fault, Triple-inode_at, Triple-target, Triple-new_inode,
  Triple-search_at, Triple-iget, Triple-iput,
}
use naofs.System.Keeps.{
  update_metadata_at-AllUnlocked, add_entry_at-AllUnlocked, new_dir_at-AllUnlocked,
}
use naofs.Namei.{get_file_inode, get_parent_inode, get_parent_directory, get_filename_from_path}
use naofs.Namei.Locks.{Safe, Safe-bind, get_file_inode-Safe}
use naofs.Attributes.{s_ifdir}
use naofs.Create.{
  is_positive, does_file_exist_in, parent_without, name_of, validate_then_get_parent_inode,
  fill_inode, create_in, create_file,
}

parent-Safe :
    (e : Env) (o : Option (List ℕ))
    → Safe (elim o [ none ↦ (λ s. fault) | some dir ↦ get_file_inode e dir ])
parent-Safe e none = Triple-fault _ AllUnlocked
parent-Safe e (some dir) = get_file_inode-Safe e dir

pub get_parent_inode-Safe : (e : Env) (path : List ℕ) → Safe (get_parent_inode e path)
unfolding get_parent_inode
get_parent_inode-Safe e path = parent-Safe e (get_parent_directory path)

does_file_exist_in-Safe :
    (e : Env) (filename : List ℕ) (parent : ℕ) → Safe (does_file_exist_in e filename parent)
unfolding does_file_exist_in
does_file_exist_in-Safe e filename parent =
    Safe-bind (search_at e parent filename e.fresh_entry false) _
      (Triple-search_at AllUnlocked e parent filename e.fresh_entry false)
      (λ r. Triple-pure AllUnlocked (is_positive r.0))

parent_without-Safe : (e : Env) (filename : List ℕ) (q : Ptr) → Safe (parent_without e filename q)
unfolding parent_without
parent_without-Safe e filename none = Triple-pure AllUnlocked none
parent_without-Safe e filename (some parent) =
    Safe-bind (does_file_exist_in e filename parent) _ (does_file_exist_in-Safe e filename parent)
      (λ taken. Triple-pure AllUnlocked (if taken then none else some parent))

validate-Safe :
    (e : Env) (type : ℕ) (path filename : List ℕ)
    → Safe (validate_then_get_parent_inode e type path filename)
unfolding validate_then_get_parent_inode
validate-Safe e type path filename =
    if_both Safe (type == t_directory || type == t_regular)
      (get_parent_inode e path >>= λ parent. parent_without e filename parent) (pure none)
      (Safe-bind (get_parent_inode e path) _ (get_parent_inode-Safe e path)
        (parent_without-Safe e filename))
      (Triple-pure AllUnlocked none)

fill_inode-Safe : (e : Env) (type n parent : ℕ) → Safe (fill_inode e type n parent)
unfolding fill_inode
fill_inode-Safe e type n parent =
    let nothing : M (Unit {0}) = pure tt in
    Safe-bind (iget_at_root n) _ (Triple-iget n) (λ found.
      Safe-bind (target found) _ (Triple-target AllUnlocked found) (λ node.
        Safe-bind (if type == t_regular then update_metadata_at e node (pos 0) 1 else nothing) _
          (if_both Safe (type == t_regular) (update_metadata_at e node (pos 0) 1) nothing
            (update_metadata_at-AllUnlocked e node (pos 0) 1) (Triple-pure AllUnlocked tt))
          (λ t. Safe-bind (inode_at parent) _ (Triple-inode_at AllUnlocked parent) (λ c.
            Safe-bind (if type == t_directory then new_dir_at e node c.inode_number else nothing) _
              (if_both Safe (type == t_directory) (new_dir_at e node c.inode_number) nothing
                (new_dir_at-AllUnlocked e node c.inode_number) (Triple-pure AllUnlocked tt))
              (λ t'. Safe-bind (iput_at e parent) _ (Triple-iput e parent) (λ z.
                Safe-bind (iput_at e node) _ (Triple-iput e node)
                  (λ z'. Triple-pure AllUnlocked (pos 0))))))))

create_in-Safe :
    (e : Env) (type mode uid gid : ℕ) (filename : List ℕ) (q : Ptr)
    → Safe (create_in e type mode uid gid filename q)
unfolding create_in
create_in-Safe e type mode uid gid filename none = Triple-pure AllUnlocked (negsuc 0)
create_in-Safe e type mode uid gid filename (some parent) =
    let mode' = if type == t_directory then bit_or s_ifdir mode else mode in
    Safe-bind (new_inode e type mode' uid gid) _ (Triple-new_inode AllUnlocked e type mode' uid gid)
      (λ n.
        Safe-bind (add_entry_at e parent n filename) _
          (add_entry_at-AllUnlocked e parent n filename) (λ t. fill_inode-Safe e type n parent))

pub create_file-Safe :
    (e : Env) (path : List ℕ) (type mode uid gid : ℕ) → Safe (create_file e path type mode uid gid)
unfolding create_file
create_file-Safe e path type mode uid gid =
    let filename = name_of (get_filename_from_path path) in
    Safe-bind (validate_then_get_parent_inode e type path filename) _
      (validate-Safe e type path filename) (create_in-Safe e type mode uid gid filename)

-- If no inode is locked, the creation of a file or a directory locks no mutex that is held, and
-- where it returns no inode is locked, also when it is refused.
pub create_file-AllUnlocked :
    (e : Env) (path : List ℕ) (type mode uid gid : ℕ) (s : Fs)
    → AllUnlocked s.pool
    → Ends (λ (r : ℤ × Fs). AllUnlocked r.1.pool) (create_file e path type mode uid gid s)
create_file-AllUnlocked e path type mode uid gid s p =
    Triple-run AllUnlocked _ AllUnlocked s (create_file-Safe e path type mode uid gid) p
