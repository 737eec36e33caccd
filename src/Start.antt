-- ===== src/Start.antt =====
-- src/main.c and src/mkfs/exec-mkfs.c: the start of the program, and of the tool that lays a file
-- system out. A string is the list of its bytes in front of the NUL; `device_of` is the device that
-- a name opens.
pub mod Ready
pub mod Args
pub mod Idle
use naofs.Prelude.{
  ℕ, zero, suc, ◌+◌, Bool, true, false, Option, none, some, List, [], ◌∷◌, drop, length, ltb, ◌==◌,
  ◌&&◌, if◌then◌else◌, ℤ, pos, negsuc,
}
use naofs.Disk.{Device, Disk, Status, ok, failed, setup_disk}
use naofs.Mkfs.{make_file_system}
use naofs.Pool.{Pool, init_free_in_core_inode_list, init_hash_queues}
use naofs.Files.{FileTable, init_global_file_table}
use naofs.Cache.{Run, done, fault, Fs, and_run, of_option}
use naofs.Callbacks.{World}

unfoldable pub starts_with : (text pattern : List ℕ) → Bool
starts_with text [] = true
starts_with [] (c ∷ pattern) = false
starts_with (x ∷ text) (c ∷ pattern) =
    let rest = starts_with text pattern in if x == c then rest else false

-- `strstr`, as an offset from the text's start.
unfoldable pub strstr : (text pattern : List ℕ) → Option ℕ
unfolding starts_with
strstr [] pattern = if starts_with [] pattern then some 0 else none
strstr (x ∷ text) pattern =
    let further = next (strstr text pattern) in
    if starts_with (x ∷ text) pattern then some 0 else further
  where
    next : Option ℕ → Option ℕ
    next none = none
    next (some n) = some (suc n)

-- "fsname"
abbrev pub fsname : List ℕ
fsname = 102 ∷ 115 ∷ 110 ∷ 97 ∷ 109 ∷ 101 ∷ []

-- The size of the buffer of `checkDevMode`.
abbrev pub dev_name_size : ℕ
dev_name_size = 20

-- `strcpy(buf, patPtr + 7)`: it faults where the argument ends in front of its seventh byte, and
-- where the rest and its NUL do not fit the buffer.
unfoldable pub copy_name : (arg : List ℕ) → Run (List ℕ)
copy_name arg =
    if ltb (length arg) 7
    then fault
    else if ltb (length (drop 7 arg)) dev_name_size
    then done (drop 7 arg)
    else fault

unfoldable pub found_at_start : Option ℕ → Bool
found_at_start none = false
found_at_start (some zero) = true
found_at_start (some (suc n)) = false

-- `parseCmdArg`: what it copies into `buf`, or `none` for 0.
unfoldable pub parse_cmd_arg : (argv : List (List ℕ)) → Run (Option (List ℕ))
unfolding strstr found_at_start copy_name and_run
parse_cmd_arg [] = done none
parse_cmd_arg (arg ∷ args) =
    let rest = parse_cmd_arg args in
    if found_at_start (strstr arg fsname)
    then and_run (copy_name arg) (λ name. done (some name))
    else rest

-- The part of `checkDevMode` behind `parseCmdArg`.
unfoldable pub prepare_disk : (device_of : List ℕ → Device) → Disk → Option (List ℕ) → Status × Disk
prepare_disk device_of d none = (ok, make_file_system d)
prepare_disk device_of d (some name) = setup_disk (record d { device = device_of name })

unfoldable pub check_dev_mode :
    (device_of : List ℕ → Device) → (argv : List (List ℕ)) → Disk → Run (Status × Disk)
unfolding and_run parse_cmd_arg prepare_disk
check_dev_mode device_of argv d =
    and_run (parse_cmd_arg argv) (λ name. done (prepare_disk device_of d name))

-- What `main` does up to `fuse_main`, which gets the result: `none` where the disk is refused.
-- `counter` is what the counter of `initHashQueues` happens to hold, and the pool, the table and the
-- disk are the memory that the program finds.
unfoldable pub init_tables : (counter : ℕ) → World → Status × Disk → Run (Option World)
unfolding and_run of_option
init_tables counter w (failed, d) = done none
init_tables counter w (ok, d) = and_run (of_option (init_free_in_core_inode_list w.fs.pool)) (λ p.
    done (
      some (record {
        files = init_global_file_table w.files;
        fs = record { pool = init_hash_queues counter p; disk = d };
      })))

unfoldable pub main :
    (device_of : List ℕ → Device)
    → (counter : ℕ) → (argv : List (List ℕ)) → World
    → Run (Option World)
unfolding and_run check_dev_mode init_tables
main device_of counter argv w =
    and_run (check_dev_mode device_of argv w.fs.disk) (init_tables counter w)

-- `main` of exec-mkfs.c: its `int`, and the disk.
unfoldable pub make_on : Status × Disk → ℤ × Disk
make_on (failed, d) = (negsuc 0, d)
make_on (ok, d) = (pos 0, make_file_system d)

unfoldable pub exec_mkfs : (device_of : List ℕ → Device) → (argv : List (List ℕ)) → Disk → ℤ × Disk
unfolding make_on
exec_mkfs device_of (program ∷ name ∷ []) d =
    make_on (setup_disk (record d { device = device_of name }))
exec_mkfs device_of argv d = (pos 0, d)
