-- ===== src/Tests/Io.antt =====
-- Files of one block on a blank disk, and the root directory in the cache.
use mathlib.Core.Path.{subst}
use naofs.Prelude.{
  ℕ, ◌<◌, ◌≡◌, refl, sym, false, none, some, [], ◌∷◌, slice, splice, replicate, pos, arith, if_both,
  ◌==◌, drop, true, if◌then◌else◌,
}
use naofs.Inode.{InCoreINode, t_directory}
use naofs.Pool.{update, hash_lookup, zero_in_core}
use naofs.Pool.Hash.{hash_lookup-find, get_hash_lem, IsQueue}
use naofs.Cache.{done, deadlock, Fs, lock, set_inode}
use naofs.Cache.Locks.{AllUnlocked}
use naofs.Cache.Share.{iget-shared}
use naofs.Directory.{is_dir}
use naofs.Files.{FileTable}
use naofs.System.{Env, bind-done, pure, iget_at_root, iput_at, ◌>>=◌}
use naofs.Namei.{slash, get_file_inode, resolve, operate}
use naofs.Namei.Walk.{operate-not_directory}
use naofs.Namei.Parent.{enter, get_file_inode-parent}
use naofs.Namei.{get_parent_inode}
use naofs.Attributes.{Stat, stat_of}
use naofs.Io.{eisdir, truncate_file, read_bytes, write_loop}
use naofs.Io.Directories.{truncate_file-directory}
use naofs.Io.Read.{contents, read_bytes-contents, read_bytes-past_size}
use naofs.Io.Write.{write_loop-append}
use naofs.Io.Overwrite.{written_block, write_loop-one_block, read_bytes-write}
use naofs.Unlink.{empty_dir}
use naofs.Unlink.Empty.{empty_dir-few}
use naofs.Tests.{blank_disk, fetch-blank_IsBlock}

abbrev pub env : Env
env = record {
  now = 9;
  fresh_entry = record { name = []; inode_num = 0 };
  fresh_response = record { block_number = 0; byte_offset_in_block = 0; bytes_left_in_block = 0 };
  behind = [];
}

abbrev pub file : InCoreINode
file = record zero_in_core {
  inode_number = 4;
  reference_count = 1;
  links_count = 1;
  type = 1;
  size = 100;
  data_block_nums = 7 ∷ replicate 12 0;
}

abbrev pub root : InCoreINode
root = record file { inode_number = 0; type = t_directory; size = 128 }

-- The root directory in node 2 and the file in node 3.
abbrev pub files : Fs
files = record {
  pool = record {
    next = λ n. none;
    prev = λ n. none;
    hash_next = λ n. none;
    hash_prev = λ n. none;
    inode = λ n. if n == 2 then root else file;
    free_list = none;
    hash_q = λ i. if i == 0 then some 2 else none;
    wide_shift = λ x k. 0;
  };
  disk = blank_disk;
}

abbrev pub open_files : FileTable
open_files fd = record { inode = 3; pid = 1; flags = 1; offset = 0; valid_entry = true }

abbrev no_stat : Stat
no_stat = stat_of zero_in_core

pub files-AllUnlocked : AllUnlocked files.pool
files-AllUnlocked m = if_both (λ (c : InCoreINode). c.locked ≡ false) (m == 2) root file refl refl

read_bytes-contents_example :
    read_bytes 9 file 60 0 blank_disk ≡ (60, contents file blank_disk 0 60)
read_bytes-contents_example = read_bytes-contents 9 file 60 blank_disk fetch-blank_IsBlock

read_bytes-past_size_example :
    (read_bytes 9 file 10 40 blank_disk ≡ (50, contents file blank_disk 40 50)) × (10 < 50)
read_bytes-past_size_example =
    read_bytes-past_size 9 file 10 40 blank_disk (omega arith) (omega arith) (omega arith)
      (omega arith) (omega arith) fetch-blank_IsBlock

write_loop-append_example :
    ((write_loop 2000 9 file (replicate 2000 1) 2000 0 file.size blank_disk).0 ≡ 2000)
    × ((write_loop 2000 9 file (replicate 2000 1) 2000 0 file.size blank_disk).1.size ≡ 2100)
write_loop-append_example =
    write_loop-append 9 file (replicate 2000 1) 2000 blank_disk (omega arith) (omega arith)

write_loop-one_block_example :
    write_loop 60 9 file (replicate 60 1) 60 0 70 blank_disk
    ≡ (60, file, written_block file blank_disk 70 (slice 0 60 (replicate 60 1)))
write_loop-one_block_example =
    write_loop-one_block 9 file (replicate 60 1) 60 70 blank_disk (omega arith) (omega arith)
      (omega arith) (omega arith) (omega arith)

read_bytes-write_example :
    let (count, c', d') = write_loop 3 9 file (1 ∷ 2 ∷ 3 ∷ []) 3 0 20 blank_disk in
    (count ≡ 3)
    × (read_bytes 9 c' c'.size 0 d'
        ≡ (100, splice (read_bytes 9 file 100 0 blank_disk).1 20 (1 ∷ 2 ∷ 3 ∷ [])))
read_bytes-write_example =
    read_bytes-write 9 file (1 ∷ 2 ∷ 3 ∷ []) 20 blank_disk refl (omega arith) fetch-blank_IsBlock
      (omega arith) (omega arith) (omega arith)

pub lookup_root : hash_lookup files.pool 0 0 ≡ some (some 2)
lookup_root =
    hash_lookup-find files.pool 0 0 (2 ∷ [])
      (subst (λ (i : ℕ). IsQueue files.pool i (2 ∷ []))
        (sym (get_hash_lem files.pool.wide_shift 0 (omega arith))) ((refl, refl, refl), (tt, tt)))
      (omega arith)

abbrev root_taken : Fs
root_taken = set_inode files 2 (record root { reference_count = 2; locked = false })

root_found : get_file_inode env (slash ∷ []) files ≡ done (some 2, root_taken)
unfolding get_file_inode resolve iget_at_root drop
root_found =
    bind-done (iget_at_root 0) _ files (some 2) root_taken
      (iget-shared files 0 0 2 lookup_root refl (λ e. omega arith) (λ e. omega arith))

truncate_file-directory_example :
    (s' : Fs) × (truncate_file env (slash ∷ []) 0 files ≡ done (eisdir, s'))
    × (lock s' 2 ≡ deadlock)
unfolding set_inode update
truncate_file-directory_example =
    truncate_file-directory env (slash ∷ []) 0 2 files root_taken root_found refl refl

operate-not_directory_example :
    operate env (97 ∷ []) (some 3) files ≡ (iput_at env 3 >>= λ z. iget_at_root 0) files
unfolding is_dir
operate-not_directory_example = operate-not_directory env 97 [] 3 files refl

empty_dir-few_example : empty_dir env (λ node. pure (pos 0)) 2 files ≡ done (pos 0, files)
empty_dir-few_example = empty_dir-few env (λ node. pure (pos 0)) 2 files (omega arith)

root_iget : iget_at_root 0 files ≡ done (some 2, root_taken)
unfolding iget_at_root
root_iget = iget-shared files 0 0 2 lookup_root refl (λ e. omega arith) (λ e. omega arith)

get_file_inode-parent_example :
    get_file_inode env (slash ∷ 97 ∷ slash ∷ 98 ∷ []) files
    ≡ (get_parent_inode env (slash ∷ 97 ∷ slash ∷ 98 ∷ []) >>= enter env (98 ∷ [])) files
get_file_inode-parent_example =
    get_file_inode-parent env (slash ∷ 97 ∷ []) (98 ∷ []) 2 files root_taken
      ((λ e. omega arith), tt) root_iget
