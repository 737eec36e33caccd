-- ===== src/Tests/Callbacks.antt =====
-- Requests to the program with a root directory and one open file, and its start.
use naofs.Prelude.{
  ℕ, ◌≡◌, ◌≢◌, ◌≤◌, ◌<◌, refl, Option, none, some, List, [], ◌∷◌, ◌++◌, pos, arith, true, to_int,
  slice, replicate, drop,
}
use naofs.Params.{inode_buffer_size}
use naofs.Disk.{
  Device, Disk, ok, setup_disk, fetch, get_disk_block, fetch_memory_disk_block,
  init_device_accessor,
}
use naofs.Inode.{zero_inode}
use naofs.Meta.{make_free_disk_list_block, make_inode_list_block}
use naofs.Pool.{update, zero_in_core, init_free_in_core_inode_list, Pool}
use naofs.Pool.Ring.{IsRing}
use naofs.Pool.Init.{all_nodes, init_free_in_core_inode_list_lem}
use naofs.Cache.{Run, Fs, done, fault, deadlock, set_inode, and_run}
use naofs.Cache.Locks.{Ends, AllUnlocked}
use naofs.Files.{FileTable}
use naofs.Io.{advance}
use naofs.Callbacks.{World, Context, Request, Reply, status, write, read, contents, serve}
use naofs.Callbacks.Locks.{IsLeft, serve-Ends}
use naofs.Callbacks.Trace.{answer, ◌⟶*◌, here, further, ⟶*-AllUnlocked}
use naofs.Tree.{bmap, calculate_offset, leaf_block, create_bmap_response}
use naofs.Start.{
  starts_with, strstr, found_at_start, copy_name, prepare_disk, check_dev_mode, main, parse_cmd_arg,
  fsname,
}
use naofs.Start.Ready.{IsStarted, main-IsStarted}
use naofs.Start.Args.{parse_cmd_arg-copied}
use naofs.Utils.{string_split}
use naofs.Utils.Split.{string_split-path_of}
use naofs.Tools.{unset, print_a_free_inode, disk_reader}
use naofs.Tools.Reader.{disk_reader-unset}
use naofs.Tests.{blank_disk, no_device}
use naofs.Tests.Io.{env, file, files, open_files, files-AllUnlocked}

abbrev user : Context
user = record { uid = 5; gid = 6; pid = 7 }

abbrev one_open : World
one_open = record { files = open_files; fs = files }

abbrev after_read : World
after_read = record {
  files = advance open_files 0 3;
  fs = set_inode (set_inode files 3 (record file { locked = true })) 3 file;
}

read_three :
    serve 1 env user open_files (read 3 0 0) files
    ≡ done ((contents (pos 3) (0 ∷ 0 ∷ 0 ∷ []), after_read.files), after_read.fs)
unfolding serve advance set_inode update bmap calculate_offset leaf_block create_bmap_response fetch
    get_disk_block fetch_memory_disk_block to_int slice replicate
read_three = refl

run_read : one_open ⟶* after_read
run_read =
    further (answer 1 env user (read 3 0 0) (contents (pos 3) (0 ∷ 0 ∷ 0 ∷ [])) read_three (λ e. e))
      here

⟶*-AllUnlocked_example : AllUnlocked after_read.fs.pool
⟶*-AllUnlocked_example = ⟶*-AllUnlocked one_open after_read run_read files-AllUnlocked

-- "naofs", "-s" and "fsname=/d"
abbrev arguments : List (List ℕ)
arguments =
    (110 ∷ 97 ∷ 111 ∷ 102 ∷ 115 ∷ []) ∷ (45 ∷ 115 ∷ []) ∷ (fsname ++ (61 ∷ 47 ∷ 100 ∷ [])) ∷ []

abbrev device_of : List ℕ → Device
device_of name = record no_device { usable = true }

abbrev with_device : Disk
with_device = record blank_disk { available = true; opened = true; device = device_of [] }

disk_is_set_up : check_dev_mode device_of arguments files.disk ≡ done (ok, with_device)
unfolding check_dev_mode parse_cmd_arg strstr starts_with found_at_start copy_name drop setup_disk
    init_device_accessor prepare_disk and_run
disk_is_set_up = refl

abbrev write_inside : Request
write_inside = write (1 ∷ 2 ∷ 3 ∷ []) 3 20 0

abbrev reply_of : Run ((Reply × FileTable) × Fs) → Option Reply
reply_of (done ((r, _), _)) = some r
reply_of fault = none
reply_of deadlock = none

-- The request of the example is answered: three bytes are written.
write_inside_is_answered :
    reply_of (serve 1 env user open_files write_inside files) ≡ some (status (pos 3))
unfolding serve to_int update bmap naofs.Prelude.int_sum create_bmap_response
write_inside_is_answered = refl

serve-Ends_example : Ends (IsLeft write_inside) (serve 1 env user open_files write_inside files)
serve-Ends_example = serve-Ends 1 env user open_files write_inside files refl files-AllUnlocked

init_free_in_core_inode_list_lem_example :
    (q : Pool) × (init_free_in_core_inode_list files.pool ≡ some q)
    × IsRing q all_nodes
    × ((m : ℕ) → m < inode_buffer_size → q.inode m ≡ zero_in_core)
    × ((m : ℕ) → inode_buffer_size ≤ m → q.inode m ≡ files.pool.inode m)
init_free_in_core_inode_list_lem_example = init_free_in_core_inode_list_lem files.pool

arguments-IsStarted : IsStarted ok with_device (main device_of 0 arguments one_open)
arguments-IsStarted =
    main-IsStarted device_of 0 arguments one_open ok with_device (λ m le. files-AllUnlocked m)
      disk_is_set_up

main-IsStarted_example : IsStarted ok with_device (main device_of 0 arguments one_open)
main-IsStarted_example =
    main-IsStarted device_of 0 arguments one_open ok with_device (λ m le. files-AllUnlocked m)
      disk_is_set_up

parse_cmd_arg-copied_example :
    parse_cmd_arg ((45 ∷ 115 ∷ []) ∷ (fsname ++ (61 ∷ 47 ∷ 100 ∷ [])) ∷ [])
    ≡ done (some (47 ∷ 100 ∷ []))
unfolding starts_with
parse_cmd_arg-copied_example =
    parse_cmd_arg-copied ((45 ∷ 115 ∷ []) ∷ []) [] 61 (47 ∷ 100 ∷ []) (refl, tt)

string_split-path_of_example :
    string_split (λ n. true) (47 ∷ 97 ∷ 47 ∷ 98 ∷ 99 ∷ []) (47 ∷ [])
    ≡ done (pos 2, (97 ∷ []) ∷ (98 ∷ 99 ∷ []) ∷ [])
string_split-path_of_example =
    string_split-path_of (λ n. true) 47 (97 ∷ []) ((98 ∷ 99 ∷ []) ∷ []) (λ n. refl)
      (
        λ e. cc,
        ((λ e. omega arith), tt),
        (λ e. cc, ((λ e. omega arith), ((λ e. omega arith), tt)), tt),
      )

disk_reader-unset_example :
    disk_reader unset device_of ([] ∷ (47 ∷ []) ∷ []) zero_inode blank_disk
    ≡ some (
      make_free_disk_list_block blank_disk.junk,
      make_inode_list_block blank_disk.junk,
      print_a_free_inode zero_inode,
    )
disk_reader-unset_example =
    disk_reader-unset device_of [] (47 ∷ []) zero_inode blank_disk refl refl refl
