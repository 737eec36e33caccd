-- ===== src/Files.antt =====
-- src/fdTable/globalFileTable.c: the table of open files. A pointer to an entry is its index.
pub mod Laws
use naofs.Prelude.{
  ℕ, zero, suc, ◌+◌, Bool, true, false, Option, none, some, ltb, leb, if◌then◌else◌, ℤ, pos, negsuc,
}
use naofs.Params.{max_file_descriptors}
use naofs.Pool.{update}

-- `fileTableEntry`; `inode` is the node that holds the inode.
pub record FileTableEntry : Type 0 where
  pub inode : ℕ
  pub pid : ℕ
  pub flags : ℕ
  pub offset : ℕ
  pub valid_entry : Bool

abbrev pub FileTable : Type 0
FileTable = ℕ → FileTableEntry

-- `-ENFILE`
abbrev pub enfile : ℤ
enfile = negsuc 22

-- The `while` of `initGlobalFileTable`, with `left` entries left from `counter` on.
unfoldable pub init_table_loop : ℕ → ℕ → FileTable → FileTable
init_table_loop zero counter t = t
init_table_loop (suc left) counter t =
    init_table_loop left (counter + 1)
      (update t counter (record (t counter) { valid_entry = false }))

unfoldable pub init_global_file_table : FileTable → FileTable
unfolding init_table_loop
init_global_file_table t = init_table_loop max_file_descriptors 0 t

unfoldable pub init_fd_table_entry : FileTableEntry → (inode pid flags offset : ℕ) → FileTableEntry
init_fd_table_entry e inode pid flags offset = record e {
  inode = inode;
  pid = pid;
  flags = flags;
  offset = offset;
  valid_entry = true;
}

-- The `while` of `createAndGetFileDescriptor`.
unfoldable pub create_loop : ℕ → ℕ → FileTable → (pid inode flags offset : ℕ) → ℤ × FileTable
create_loop zero counter t pid inode flags offset = (enfile, t)
create_loop (suc left) counter t pid inode flags offset =
    let rest = create_loop left (counter + 1) t pid inode flags offset in
    if (t counter).valid_entry
    then rest
    else (pos counter, update t counter (init_fd_table_entry (t counter) inode pid flags offset))

unfoldable pub create_and_get_file_descriptor :
    FileTable → (pid inode flags offset : ℕ) → ℤ × FileTable
create_and_get_file_descriptor t pid inode flags offset =
    create_loop max_file_descriptors 0 t pid inode flags offset

-- What `getFileDescriptor` comes to: an entry, NULL with `-EBADF`, or a read in front of the table.
pub data Descriptor : Type 0 where
  entry : ℕ → Descriptor
  bad : Descriptor
  fault : Descriptor

unfoldable pub get_file_descriptor : FileTable → ℤ → Descriptor
get_file_descriptor t (negsuc n) = fault
get_file_descriptor t (pos fd) =
    if leb max_file_descriptors fd then bad else if (t fd).valid_entry then entry fd else bad
