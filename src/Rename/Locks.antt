-- ===== src/Rename/Locks.antt =====
-- The mutexes of a renaming: what it takes it gives back, on its errors too.
use naofs.Prelude.{
  ℕ, zero, suc, ◌+◌, ◌%◌, ◌^◌, true, false, none, some, List, [], ◌∷◌, if◌then◌else◌, if_both, ◌==◌,
  ℤ, pos, negsuc,
}
use naofs.Inode.{t_directory}
use naofs.Pool.{Ptr}
use naofs.Directory.{DirectoryEntry}
use naofs.System.{
  Env, M, pure, target, inode_at, lock_at, unlock_at, update_metadata_at, add_entry_at,
  iget_at_root, iput_at, search_at,
}
use naofs.System.Returns.{
  Leaves, Leaves-bind, Leaves-lock, Leaves-unlock, Leaves-unlock_any, Leaves-pure, Leaves-target,
  Leaves-inode_at, Leaves-iget, Leaves-iput, Leaves-search_at, Leaves-update_metadata_at,
  Leaves-add_entry_at, Leaves-Safe,
}
use naofs.Namei.{get_file_inode, get_parent_inode, get_filename_from_path}
use naofs.Namei.Locks.{get_file_inode-Safe}
use naofs.Attributes.{enoent}
use naofs.Create.{name_of}
use naofs.Create.Locks.{get_parent_inode-Safe}
use naofs.Unlink.{c_string, is_negative, unlink_file, validate_and_empty}
use naofs.Unlink.Locks.{
  Stays, unlink_file_from_inode-Stays, unlink_file-Stays, validate_and_empty-Stays,
}
use naofs.Rename.{
  is_zero, remove_destination, remove_destination_if_exists, move_name, rename_to, rename_from,
  rename_file,
}

module _ (depth : ℕ) (e : Env) (parent : ℕ) where
  remove_destination-Stays :
      (z : ℤ) (entry : DirectoryEntry)
      → Stays (parent ∷ []) (remove_destination depth e parent z entry)
  unfolding remove_destination
  remove_destination-Stays (pos (suc zero)) entry =
      let held = parent ∷ [] in
      Leaves-bind held held held (iget_at_root entry.inode_num) _ (Leaves-iget held entry.inode_num)
        (λ found. Leaves-bind held held held (target found) _ (Leaves-target held found) (λ node.
          let both = node ∷ parent ∷ [] in
          Leaves-bind held both held (lock_at node) _ (Leaves-lock held node) (λ t.
            Leaves-bind both both held (inode_at node) _ (Leaves-inode_at both node) (λ c.
              Leaves-bind both both held
                (if c.type == t_directory
                  then validate_and_empty depth e true node
                  else pure (pos 0))
                _
                (if_both (Stays both) (c.type == t_directory) (validate_and_empty depth e true node)
                  (pure (pos 0)) (validate_and_empty-Stays depth e true held node)
                  (Leaves-pure both (pos 0)))
                (λ r. Leaves-bind both held held (unlock_at node) _ (Leaves-unlock held node) (λ t'.
                  Leaves-bind held held held (iput_at e node) _ (Leaves-iput held e node) (λ z.
                    if_both (Stays held) (is_negative r) _ _ (Leaves-pure held r) (
                      unlink_file_from_inode-Stays held parent (λ m off. off.0) e
                        (c_string entry.name)))))))))
  remove_destination-Stays (pos zero) entry = Leaves-pure (parent ∷ []) (pos 0)
  remove_destination-Stays (pos (suc (suc n))) entry = Leaves-pure (parent ∷ []) (pos 0)
  remove_destination-Stays (negsuc n) entry = Leaves-pure (parent ∷ []) (pos 0)

  destination-Stays :
      (filename : List ℕ)
      → Stays (parent ∷ []) (remove_destination_if_exists depth e parent filename)
  unfolding remove_destination_if_exists
  destination-Stays filename =
      let held = parent ∷ [] in
      Leaves-bind held held held (search_at e parent filename e.fresh_entry false) _
        (Leaves-search_at held e parent filename e.fresh_entry false)
        (λ r. remove_destination-Stays r.0 r.1)

module _ (e : Env) (from new_filename : List ℕ) (file to_parent : ℕ) where
  -- The file is locked behind the directory and unlocked behind it.
  move_name-Leaves : Leaves (to_parent ∷ []) (move_name e from new_filename file to_parent) []
  unfolding move_name
  move_name-Leaves =
      let held = to_parent ∷ [] in
      let both = file ∷ to_parent ∷ [] in
      let only = file ∷ [] in
      Leaves-bind held both [] (lock_at file) _ (Leaves-lock held file) (λ t.
        Leaves-bind both both [] (inode_at file) _ (Leaves-inode_at both file) (λ c.
          Leaves-bind both both [] (add_entry_at e to_parent c.inode_number new_filename) _
            (Leaves-add_entry_at both to_parent (λ m off. off.1.0) e c.inode_number new_filename)
            (λ t'. Leaves-bind both both [] (inode_at file) _ (Leaves-inode_at both file) (λ c'.
              let links = (c'.links_count + 1) % 2 ^ 64 in
              Leaves-bind both both [] (update_metadata_at e file (pos 0) links) _
                (Leaves-update_metadata_at both file (λ m off. off.0) e (pos 0) links)
                (λ u.
                  Leaves-bind both only [] (unlock_at to_parent) _
                    (Leaves-unlock_any both only to_parent (λ m ne off. (off.0, (ne, tt))))
                    (λ u'.
                      Leaves-bind only only [] (iput_at e to_parent) _
                        (Leaves-iput only e to_parent)
                        (λ z.
                          Leaves-bind only [] [] (unlock_at file) _ (Leaves-unlock [] file) (λ v.
                            Leaves-bind [] [] [] (iput_at e file) _ (Leaves-iput [] e file) (λ z'.
                              Leaves-bind [] [] [] (unlink_file e from) _ (unlink_file-Stays e from)
                                (λ r.
                                  Leaves-pure [] (if is_zero r then pos 0 else negsuc 0)))))))))))

rename_to-Stays :
    (depth : ℕ) (e : Env) (from new_filename : List ℕ) (file : ℕ) (q : Ptr)
    → Stays [] (rename_to depth e from new_filename file q)
unfolding rename_to
rename_to-Stays depth e from new_filename file none = Leaves-pure [] enoent
rename_to-Stays depth e from new_filename file (some to_parent) =
    let held = to_parent ∷ [] in
    Leaves-bind [] held [] (lock_at to_parent) _ (Leaves-lock [] to_parent) (λ t.
      Leaves-bind held held [] (remove_destination_if_exists depth e to_parent new_filename) _
        (destination-Stays depth e to_parent new_filename)
        (λ r.
          if_both (λ (m : M ℤ). Leaves held m []) (is_negative r) _ _
            (Leaves-bind held held [] (iput_at e file) _ (Leaves-iput held e file) (λ z.
              Leaves-bind held [] [] (unlock_at to_parent) _ (Leaves-unlock [] to_parent) (λ t'.
                Leaves-bind [] [] [] (iput_at e to_parent) _ (Leaves-iput [] e to_parent)
                  (λ z'. Leaves-pure [] r))))
            (move_name-Leaves e from new_filename file to_parent)))

rename_from-Stays :
    (depth : ℕ) (e : Env) (from to : List ℕ) (q : Ptr) → Stays [] (rename_from depth e from to q)
unfolding rename_from
rename_from-Stays depth e from to none = Leaves-pure [] enoent
rename_from-Stays depth e from to (some file) =
    Leaves-bind [] [] [] (get_parent_inode e to) _ (Leaves-Safe _ (get_parent_inode-Safe e to))
      (rename_to-Stays depth e from (name_of (get_filename_from_path to)) file)

pub rename_file-Stays :
    (depth : ℕ) (e : Env) (from to : List ℕ) → Stays [] (rename_file depth e from to)
unfolding rename_file
rename_file-Stays depth e from to =
    Leaves-bind [] [] [] (get_file_inode e from) _ (Leaves-Safe _ (get_file_inode-Safe e from))
      (rename_from-Stays depth e from to)
