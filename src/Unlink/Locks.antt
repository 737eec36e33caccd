-- ===== src/Unlink/Locks.antt =====
-- The mutexes of a removal: what it takes it gives back, on its errors too.
use naofs.Prelude.{
  ℕ, zero, suc, ◌+◌, ◌-◌, ◌*◌, ◌/◌, ◌%◌, ◌^◌, ◌≢◌, Bool, true, false, none, some, List, [], ◌∷◌,
  ltb, if◌then◌else◌, if_both, ◌==◌, ◌&&◌, not, ℤ, pos, negsuc,
}
use naofs.Params.{directory_entry_size}
use naofs.Inode.{t_directory}
use naofs.Pool.{Ptr}
use naofs.Cache.Returns.{IsOff}
use naofs.Directory.{DirectoryEntry}
use naofs.System.{
  Env, M, pure, target, inode_at, lock_at, unlock_at, update_metadata_at, truncate_at, iget_at_root,
  iput_at, search_at,
}
use naofs.System.Returns.{
  Leaves, Leaves-bind, Leaves-lock, Leaves-unlock, Leaves-pure, Leaves-fault, Leaves-target,
  Leaves-inode_at, Leaves-iget, Leaves-iput, Leaves-search_at, Leaves-last_entry,
  Leaves-update_metadata_at, Leaves-truncate_at, Leaves-Safe,
}
use naofs.Namei.{get_file_inode, get_parent_inode, get_filename_from_path, cleared_entry}
use naofs.Namei.Locks.{get_file_inode-Safe}
use naofs.Attributes.{enoent}
use naofs.Create.{name_of}
use naofs.Create.Locks.{get_parent_inode-Safe}
use naofs.Unlink.{
  eacces, enotempty, enotdir, is_negative, c_string, drop_link, remove_found,
  unlink_file_from_inode, unlink_in, unlink_file, empty_round, empty_loop, empty_dir,
  validate_and_empty, unlink_dir,
}

-- The step keeps to the mutexes that are held.
abbrev pub Stays : {A : Type 0} → List ℕ → M A → Type 0
Stays nodes m = Leaves nodes m nodes

module _ (nodes : List ℕ) where
  drop_link-Stays : (e : Env) (node : ℕ) → Stays nodes (drop_link e node)
  unfolding drop_link
  drop_link-Stays e node =
      let held = node ∷ nodes in
      Leaves-bind nodes held nodes (lock_at node) _ (Leaves-lock nodes node) (λ t.
        Leaves-bind held held nodes (inode_at node) _ (Leaves-inode_at held node) (λ c.
          let links = (c.links_count + 2 ^ 64 - 1) % 2 ^ 64 in
          Leaves-bind held held nodes (update_metadata_at e node (pos 0) links) _
            (Leaves-update_metadata_at held node (λ m off. off.0) e (pos 0) links)
            (λ t'. Leaves-unlock nodes node)))

  -- The parent is one of the nodes that are held.
  module _ (parent : ℕ) (listed : (m : ℕ) → IsOff nodes m → m ≢ parent) where
    remove_found-Stays :
        (e : Env) (z : ℤ) (entry : DirectoryEntry) → Stays nodes (remove_found e parent z entry)
    unfolding remove_found
    remove_found-Stays e (pos zero) entry = Leaves-pure nodes _
    remove_found-Stays e (negsuc n) entry = Leaves-pure nodes _
    remove_found-Stays e (pos (suc n)) entry =
        Leaves-bind nodes nodes nodes (iget_at_root entry.inode_num) _
          (Leaves-iget nodes entry.inode_num)
          (λ deleted.
            Leaves-bind nodes nodes nodes (target deleted) _ (Leaves-target nodes deleted) (λ node.
              Leaves-bind nodes nodes nodes (drop_link e node) _ (drop_link-Stays e node) (λ t.
                Leaves-bind nodes nodes nodes (iput_at e node) _ (Leaves-iput nodes e node) (λ z.
                  Leaves-bind nodes nodes nodes (inode_at parent) _ (Leaves-inode_at nodes parent)
                    (λ c.
                      let size = (c.size + 2 ^ 64 - directory_entry_size) % 2 ^ 64 in
                      Leaves-bind nodes nodes nodes (truncate_at e parent size) _
                        (Leaves-truncate_at nodes parent listed e size)
                        (λ t'. Leaves-pure nodes (pos 0)))))))

    pub unlink_file_from_inode-Stays :
        (e : Env) (filename : List ℕ) → Stays nodes (unlink_file_from_inode e parent filename)
    unfolding unlink_file_from_inode
    unlink_file_from_inode-Stays e filename =
        Leaves-bind nodes nodes nodes (search_at e parent filename e.fresh_entry true) _
          (Leaves-search_at nodes e parent filename e.fresh_entry true)
          (λ r. remove_found-Stays e r.0 r.1)

unlink_in-Stays : (e : Env) (filename : List ℕ) (q : Ptr) → Stays [] (unlink_in e filename q)
unfolding unlink_in
unlink_in-Stays e filename none = Leaves-pure [] enoent
unlink_in-Stays e filename (some parent) =
    let held = parent ∷ [] in
    Leaves-bind [] held [] (lock_at parent) _ (Leaves-lock [] parent) (λ t.
      Leaves-bind held held [] (unlink_file_from_inode e parent filename) _
        (unlink_file_from_inode-Stays held parent (λ m off. off.0) e filename)
        (λ r. Leaves-bind held [] [] (unlock_at parent) _ (Leaves-unlock [] parent) (λ t'.
          Leaves-bind [] [] [] (iput_at e parent) _ (Leaves-iput [] e parent)
            (λ z. Leaves-pure [] r))))

pub unlink_file-Stays : (e : Env) (path : List ℕ) → Stays [] (unlink_file e path)
unfolding unlink_file
unlink_file-Stays e path =
    Leaves-bind [] [] [] (get_parent_inode e path) _ (Leaves-Safe _ (get_parent_inode-Safe e path))
      (unlink_in-Stays e (name_of (get_filename_from_path path)))

-- A directory that is held, and a directory in it that is held too, are emptied.
module _ (e : Env) (validate : ℕ → M ℤ) (nodes : List ℕ) (dir : ℕ) where
  empty_round-Stays :
      ((node : ℕ) → Stays (node ∷ dir ∷ nodes) (validate node))
      → Stays (dir ∷ nodes) (empty_round e validate dir)
  unfolding empty_round
  empty_round-Stays stays =
      let held = dir ∷ nodes in
      Leaves-bind held held held _ _ (Leaves-last_entry held e dir cleared_entry) (λ entry.
        Leaves-bind held held held (iget_at_root entry.inode_num) _
          (Leaves-iget held entry.inode_num)
          (λ found. Leaves-bind held held held (target found) _ (Leaves-target held found) (λ node.
            let both = node ∷ dir ∷ nodes in
            Leaves-bind held both held (lock_at node) _ (Leaves-lock held node) (λ t.
              Leaves-bind both both held (inode_at node) _ (Leaves-inode_at both node) (λ c.
                Leaves-bind both both held
                  (if c.type == t_directory then validate node else pure (pos 0)) _
                  (if_both (Stays both) (c.type == t_directory) (validate node) (pure (pos 0))
                    (stays node) (Leaves-pure both (pos 0)))
                  (λ r.
                    Leaves-bind both held held (unlock_at node) _ (Leaves-unlock held node) (λ t'.
                      Leaves-bind held held held (iput_at e node) _ (Leaves-iput held e node) (λ z.
                        if_both (Stays held) (is_negative r) _ _ (Leaves-pure held r) (
                          Leaves-bind held held held
                            (unlink_file_from_inode e dir (c_string entry.name)) _
                            (unlink_file_from_inode-Stays held dir (λ m off. off.0) e
                              (c_string entry.name))
                            (λ k. Leaves-pure held (pos 0)))))))))))

  -- The test of the loop.
  more-Stays :
      (b : Bool) (stop go : M ℤ)
      → Stays (dir ∷ nodes) stop
      → Stays (dir ∷ nodes) go
      → Stays (dir ∷ nodes) (elim b [ false ↦ stop | true ↦ go ])
  more-Stays false stop go h k = h
  more-Stays true stop go h k = k

  empty_loop-Stays :
      (fuel entries offset : ℕ)
      → ((node : ℕ) → Stays (node ∷ dir ∷ nodes) (validate node))
      → Stays (dir ∷ nodes) (empty_loop fuel e validate dir entries offset)
  unfolding empty_loop
  empty_loop-Stays zero entries offset stays = Leaves-pure (dir ∷ nodes) (pos 0)
  empty_loop-Stays (suc fuel) entries offset stays =
      let held = dir ∷ nodes in
      more-Stays (ltb offset entries) (pure (pos 0)) _ (Leaves-pure held (pos 0)) (
        Leaves-bind held held held (empty_round e validate dir) _ (empty_round-Stays stays) (λ r.
          if_both (Stays held) (is_negative r) _ _ (Leaves-pure held r)
            (empty_loop-Stays fuel entries (offset + directory_entry_size) stays)))

  empty_dir-Stays :
      ((node : ℕ) → Stays (node ∷ dir ∷ nodes) (validate node))
      → Stays (dir ∷ nodes) (empty_dir e validate dir)
  unfolding empty_dir
  empty_dir-Stays stays =
      let held = dir ∷ nodes in
      Leaves-bind held held held (inode_at dir) _ (Leaves-inode_at held dir) (λ c.
        let entries = c.size / directory_entry_size in
        empty_loop-Stays entries entries (2 * directory_entry_size) stays)

pub validate_and_empty-Stays :
    (depth : ℕ) (e : Env) (force : Bool) (nodes : List ℕ) (dir : ℕ)
    → Stays (dir ∷ nodes) (validate_and_empty depth e force dir)
unfolding validate_and_empty
validate_and_empty-Stays zero e force nodes dir = Leaves-fault (dir ∷ nodes) _
validate_and_empty-Stays (suc depth) e force nodes dir =
    let held = dir ∷ nodes in
    let emptied =
      empty_dir-Stays e (validate_and_empty depth e true) nodes dir
        (λ node. validate_and_empty-Stays depth e true (dir ∷ nodes) node) in
    Leaves-bind held held held (inode_at dir) _ (Leaves-inode_at held dir) (λ c.
      if_both (Stays held) (c.inode_number == 0) _ _ (Leaves-pure held eacces) (
        if_both (Stays held) (ltb (2 * directory_entry_size) c.size && not force) _ _
          (Leaves-pure held enotempty)
          (if_both (Stays held) (not (c.type == t_directory)) _ _ (Leaves-pure held enotdir) (
            if_both (Stays held) (force && ltb (2 * directory_entry_size) c.size) _ _ emptied
              (Leaves-pure held (pos 0))))))

pub unlink_dir-Stays :
    (depth : ℕ) (e : Env) (path : List ℕ) (force : Bool) → Stays [] (unlink_dir depth e path force)
unfolding unlink_dir
unlink_dir-Stays depth e path force =
    Leaves-bind [] [] [] (get_file_inode e path) _ (Leaves-Safe _ (get_file_inode-Safe e path))
      (λ found. Leaves-bind [] [] [] (target found) _ (Leaves-target [] found) (λ node.
        let held = node ∷ [] in
        Leaves-bind [] held [] (lock_at node) _ (Leaves-lock [] node) (λ t.
          Leaves-bind held held [] (validate_and_empty depth e force node) _
            (validate_and_empty-Stays depth e force [] node)
            (λ r. Leaves-bind held [] [] (unlock_at node) _ (Leaves-unlock [] node) (λ t'.
              Leaves-bind [] [] [] (iput_at e node) _ (Leaves-iput [] e node) (λ z.
                if_both (Stays []) (is_negative r) _ _ (Leaves-pure [] r)
                  (unlink_file-Stays e path)))))))
