-- ===== src/Tests/Buffers.antt =====
-- The buffers of the inodes: a root directory in node 2 that the hash queues find, no buffer free.
use naofs.Prelude.{ℕ, ◌≡◌, refl, ap, none, some, [], ◌==◌, arith, if_both}
use naofs.Inode.{InCoreINode}
use naofs.Pool.{Ptr}
use naofs.Cache.Idle.{IsIdle, count_of}
use naofs.Cache.Counts.{IsGot, iget-IsIdle}
use naofs.Cache.Release.{IsPut, iput-IsIdle}
use naofs.Tests.Io.{file, root, files, files-AllUnlocked, lookup_root}

abbrev node_of : Ptr → ℕ
node_of none = 0
node_of (some node) = node

count_of-files : (m : ℕ) → count_of files m ≡ 1
count_of-files m = if_both (λ (c : InCoreINode). c.reference_count ≡ 1) (m == 2) root file refl refl

files-IsIdle : IsIdle files []
files-IsIdle = record {
  ring = refl;
  small = λ m a. elim a [ ];
  idle = λ m a. elim a [ ];
  busy = λ m lt z. absurd (omega (arith, count_of-files m, z));
}

iget-IsIdle_example : IsGot files 0 []
iget-IsIdle_example =
    iget-IsIdle files 0 (some 2) [] files-AllUnlocked lookup_root
      (λ node e.
        let two : 2 ≡ node = ap node_of e in
        (omega (arith, two), omega (arith, count_of-files node)))
      files-IsIdle

iput-IsIdle_example : IsPut 9 files 2 []
iput-IsIdle_example =
    iput-IsIdle 9 files 2 [] files-AllUnlocked (omega arith) lookup_root files-IsIdle
