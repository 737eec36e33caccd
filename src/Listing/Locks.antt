-- ===== src/Listing/Locks.antt =====
-- The mutexes of a listing: none is held at the end.
use naofs.Prelude.{ℕ, Option, none, some, List, [], ℤ, pos, negsuc}
use naofs.Pool.{Ptr}
use naofs.Cache.{fault}
use naofs.Cache.Locks.{AllUnlocked}
use naofs.System.{Env, pure, ◌>>◌, inode_at, iput_at}
use naofs.System.Locks.{Triple-pure, Triple-fault, Triple-inode_at, Triple-iput}
use naofs.Namei.{get_file_inode}
use naofs.Namei.Locks.{Safe, Safe-bind, get_file_inode-Safe}
use naofs.Io.{disk_now}
use naofs.Io.Locks.{Triple-disk_now}
use naofs.Listing.{fill_directory_entries, list_found, read_directory}

listed-Safe :
    (e : Env) (node : ℕ) (o : Option (List (List ℕ)))
    → Safe {A = ℤ × List (List ℕ)}
        (elim o [ none ↦ λ s. fault | some names ↦ iput_at e node >> pure (pos 0, names) ])
listed-Safe e node none = Triple-fault _ AllUnlocked
listed-Safe e node (some names) =
    Safe-bind (iput_at e node) _ (Triple-iput e node) (λ z. Triple-pure AllUnlocked (pos 0, names))

list_found-Safe : (e : Env) (q : Ptr) → Safe (list_found e q)
unfolding list_found
list_found-Safe e none = Triple-pure AllUnlocked (negsuc 0, [])
list_found-Safe e (some node) = Safe-bind (inode_at node) _ (Triple-inode_at AllUnlocked node) (λ c.
    Safe-bind disk_now _ (Triple-disk_now AllUnlocked)
      (λ d. listed-Safe e node (fill_directory_entries e.now c d)))

pub read_directory-Safe : (e : Env) (path : List ℕ) → Safe (read_directory e path)
unfolding read_directory
read_directory-Safe e path =
    Safe-bind (get_file_inode e path) _ (get_file_inode-Safe e path) (list_found-Safe e)
