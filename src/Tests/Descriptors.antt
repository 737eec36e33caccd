-- ===== src/Tests/Descriptors.antt =====
-- Writes and reads of the open file of 100 bytes.
use naofs.Prelude.{ℕ, ◌≡◌, ◌≢◌, refl, [], ◌∷◌, pos, to_int, splice, slice, replicate, false, arith}
use naofs.Disk.{fetch}
use naofs.Cache.{done, Fs}
use naofs.Files.{get_file_descriptor, entry}
use naofs.System.{◌>>=◌}
use naofs.Io.{advance, write_to_file, read_file}
use naofs.Io.Append.{write_to_file-append}
use naofs.Io.Descriptors.{read_file-write}
use naofs.Tests.{blank_disk, fetch-blank_IsBlock}
use naofs.Tests.Io.{env, files, open_files}

opened : get_file_descriptor open_files (to_int 0) ≡ entry 0
unfolding get_file_descriptor to_int
opened = refl

write_to_file-append_example :
    (s' : Fs) × (write_to_file env (replicate 2000 1) 2000 100 0 open_files files
      ≡ done ((pos 2000, advance open_files 0 2000), s'))
    × ((s'.pool.inode 3).size ≡ 2100)
    × ((s'.pool.inode 3).locked ≡ false)
    × ((m : ℕ) → m ≢ 3 → s'.pool.inode m ≡ files.pool.inode m)
write_to_file-append_example =
    write_to_file-append env (replicate 2000 1) 2000 0 0 open_files files opened refl (omega arith)
      (omega arith)

read_file-write_example :
    ((s' : Fs) × (read_file env 100 0 0 open_files files
        ≡ done ((pos 100, slice 0 100 (fetch blank_disk 7), advance open_files 0 100), s')))
    × ((s' : Fs) × ((write_to_file env (1 ∷ 2 ∷ 3 ∷ []) 3 20 0 open_files >>= λ r.
              read_file env 100 0 0 r.1)
            files
          ≡ done (
            (
              pos 100,
              splice (slice 0 100 (fetch blank_disk 7)) 20 (1 ∷ 2 ∷ 3 ∷ []),
              advance (advance open_files 0 3) 0 100,
            ),
            s',
          )))
read_file-write_example =
    read_file-write env (1 ∷ 2 ∷ 3 ∷ []) 20 0 0 open_files files opened refl refl (omega arith)
      fetch-blank_IsBlock (omega arith) (omega arith) (omega arith)
