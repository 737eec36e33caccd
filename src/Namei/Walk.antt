-- ===== src/Namei/Walk.antt =====
-- The walk through a file that is no directory.
use naofs.Prelude.{ℕ, ◌+◌, ◌/◌, ◌≡◌, ap, false, none, some, List, ◌∷◌, if◌then◌else◌, pos, negsuc}
use naofs.Params.{block_size}
use naofs.Disk.{Disk}
use naofs.Inode.{InCoreINode}
use naofs.Cache.{Fs, done}
use naofs.Directory.{
  DirectoryEntry, search_directory_loop, is_dir, validate_search, search_inode_directory_entries,
}
use naofs.System.{Env, bind-done, ◌>>=◌, target, iget_at_root, iput_at, search_at}
use naofs.Namei.{cleared_entry, follow, operate}

search_inode-not_directory :
    (now : ℕ) (i : InCoreINode) (name : List ℕ) (buffer : DirectoryEntry) (d : Disk)
    → is_dir i.file_mode ≡ false
    → search_inode_directory_entries now i name buffer none d ≡ none
unfolding search_inode_directory_entries validate_search
search_inode-not_directory now i name buffer d h =
    ap
      (λ b.
        if b
        then some (search_directory_loop (i.size / block_size + 2) now i 0 name buffer none d)
        else none)
      h

search_at-not_directory :
    (e : Env) (node : ℕ) (name : List ℕ) (buffer : DirectoryEntry) (s : Fs)
    → is_dir (s.pool.inode node).file_mode ≡ false
    → search_at e node name buffer false s ≡ done ((negsuc 0, buffer), s)
unfolding search_at
search_at-not_directory e node name buffer s h =
    ap
      (λ o. elim o [
        | none ↦ done ((negsuc 0, buffer), s)
        | some (found, buffer', d) ↦
            done ((if found then pos 1 else pos 0, buffer'), record s { disk = d })
      ])
      (search_inode-not_directory e.now (s.pool.inode node) name buffer s.disk h)

-- A name in a file that is no directory leads to the root directory: the -1 of the search is
-- compared as a number without sign, and the cleared entry holds inode 0.
pub operate-not_directory :
    (e : Env) (c : ℕ) (name : List ℕ) (node : ℕ) (s : Fs)
    → is_dir (s.pool.inode node).file_mode ≡ false
    → operate e (c ∷ name) (some node) s ≡ (iput_at e node >>= λ z. iget_at_root 0) s
unfolding operate target follow
operate-not_directory e c name node s h =
    bind-done (search_at e node (c ∷ name) cleared_entry false) _ s (negsuc 0, cleared_entry) s
      (search_at-not_directory e node (c ∷ name) cleared_entry s h)
