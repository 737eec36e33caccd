-- ===== src/Start/Ready.antt =====
-- The program as `fuse_main` finds it.
use naofs.Prelude.{
  ℕ, zero, suc, ◌+◌, ◌<◌, ◌≤◌, ◌≡◌, refl, sym, ap, ◌∙◌, false, none, some, arith, pos,
  if◌then◌else◌, leb, ltb, ltb→lt, ltb-false→le, Option, List, Bool-cases, inl, inr, [], ◌∷◌,
}
use mathlib.Core.Path.{subst}
use native.Mathlib.Decide.{ℕ_discrete}
use naofs.Params.{max_file_descriptors, inode_buffer_size}
use naofs.Inode.{InCoreINode}
use naofs.Disk.{Device, Disk, Status, ok, failed}
use naofs.Pool.{Pool, zero_in_core, update, init_hash_queues}
use naofs.Pool.Ring.{IsRing, update_self, update_ne}
use naofs.Pool.Init.{all_nodes, init_free_in_core_inode_list_lem}
use naofs.Files.{
  FileTable, FileTableEntry, init_table_loop, init_global_file_table, bad, entry,
  get_file_descriptor,
}
use naofs.Cache.{Run, done, and_run, of_option}
use naofs.Cache.Locks.{AllUnlocked}
use naofs.Cache.Idle.{IsIdle}
use naofs.Callbacks.{World}
use naofs.Start.Idle.{all_nodes-IsIdle}
use naofs.Start.{check_dev_mode, init_tables, main}

init_table_loop-kept :
    (left counter fd : ℕ) (t : FileTable) → fd < counter → init_table_loop left counter t fd ≡ t fd
unfolding init_table_loop
init_table_loop-kept zero counter fd t h = refl
init_table_loop-kept (suc left) counter fd t h =
    init_table_loop-kept left (counter + 1) fd (update t counter _) (omega arith)
    ∙ update_ne t counter fd _ (λ e. omega arith)

init_table_loop-free :
    (left counter fd : ℕ) (t : FileTable)
    → counter ≤ fd
    → fd < left + counter
    → (init_table_loop left counter t fd).valid_entry ≡ false
unfolding init_table_loop
init_table_loop-free zero counter fd t a b = absurd (omega arith)
init_table_loop-free (suc left) counter fd t a b = elim (ℕ_discrete fd counter) [
  | yes e ↦
      ap (λ (x : FileTableEntry). x.valid_entry)
        (init_table_loop-kept left (counter + 1) fd (update t counter _) (omega arith)
          ∙ ap (update t counter (record (t counter) { valid_entry = false })) e
          ∙ update_self t counter (record (t counter) { valid_entry = false }))
  | no ne ↦
      init_table_loop-free left (counter + 1) fd (update t counter _) (omega arith) (omega arith)
]

init_global_file_table-free :
    (t : FileTable) (fd : ℕ)
    → fd < max_file_descriptors
    → (init_global_file_table t fd).valid_entry ≡ false
unfolding init_global_file_table
init_global_file_table-free t fd h =
    init_table_loop-free max_file_descriptors 0 fd t (omega arith) (omega (arith, h))

free-bad :
    (t : FileTable) (fd : ℕ)
    → (fd < max_file_descriptors → (t fd).valid_entry ≡ false)
    → get_file_descriptor t (pos fd) ≡ bad
unfolding get_file_descriptor
free-bad t fd h = elim (Bool-cases (leb max_file_descriptors fd)) [
  | inl e ↦ ap (λ b. if b then bad else if (t fd).valid_entry then entry fd else bad) e
  | inr e ↦
      ap (λ b. if b then bad else if (t fd).valid_entry then entry fd else bad) e
      ∙ ap (λ b. if b then entry fd else bad) (h (ground arith))
]

-- The state that `fuse_main` gets: no descriptor is open, the 32 buffers are free in order and have
-- no reference, no mutex is held, and the disk is the one that was set up.
pub record IsReady (d : Disk) (w : World) : Type 0 where
  pub closed : (fd : ℕ) → get_file_descriptor w.files (pos fd) ≡ bad
  pub free : IsIdle w.fs all_nodes
  pub unlocked : AllUnlocked w.fs.pool
  pub disk : w.fs.disk ≡ d

queues-IsRing :
    (counter : ℕ) (p : Pool) (xs : List ℕ) → IsRing p xs → IsRing (init_hash_queues counter p) xs
unfolding init_hash_queues
queues-IsRing counter p [] h = h
queues-IsRing counter p (x ∷ xs) h = h

inode-init_hash_queues :
    (counter : ℕ) (p : Pool) (m : ℕ) → (init_hash_queues counter p).inode m ≡ p.inode m
unfolding init_hash_queues
inode-init_hash_queues counter p m = refl

queues-AllUnlocked :
    (counter : ℕ) (p : Pool) → AllUnlocked p → AllUnlocked (init_hash_queues counter p)
unfolding init_hash_queues
queues-AllUnlocked counter p h = h

-- An inode in a buffer is clear, and every other one is as it was.
settled :
    (p q : Pool)
    → ((m : ℕ) → m < inode_buffer_size → q.inode m ≡ zero_in_core)
    → ((m : ℕ) → inode_buffer_size ≤ m → q.inode m ≡ p.inode m)
    → ((m : ℕ) → inode_buffer_size ≤ m → (p.inode m).locked ≡ false)
    → AllUnlocked q
settled p q ready others h m = elim (Bool-cases (ltb m inode_buffer_size)) [
  | inl e ↦ ap (λ (i : InCoreINode). i.locked) (ready m (ltb→lt m inode_buffer_size e))
  | inr e ↦
      let le = ltb-false→le m inode_buffer_size e in
      ap (λ (i : InCoreINode). i.locked) (others m le) ∙ h m le
]

init_tables-IsReady :
    (counter : ℕ) (w : World) (d : Disk)
    → ((m : ℕ) → inode_buffer_size ≤ m → (w.fs.pool.inode m).locked ≡ false)
    → (w' : World) × (init_tables counter w (ok, d) ≡ done (some w')) × IsReady d w'
unfolding init_tables and_run of_option
init_tables-IsReady counter w d h =
    let (p, done_, ring, ready, others) = init_free_in_core_inode_list_lem w.fs.pool in
    let w' : World = record {
      files = init_global_file_table w.files;
      fs = record { pool = init_hash_queues counter p; disk = d };
    } in
    (
      w',
      ap
          (λ o. and_run (of_option o) (λ p. done (
            some (record {
              files = init_global_file_table w.files;
              fs = record { pool = init_hash_queues counter p; disk = d };
            }))))
          done_,
      record {
        closed = λ fd.
            free-bad (init_global_file_table w.files) fd (init_global_file_table-free w.files fd);
        free =
            all_nodes-IsIdle w'.fs (queues-IsRing counter p all_nodes ring)
              (λ m lt. inode-init_hash_queues counter p m ∙ ready m lt);
        unlocked = queues-AllUnlocked counter p (settled w.fs.pool p ready others h);
        disk = refl;
      },
    )

-- What is to become of the start once the disk has answered.
abbrev pub IsStarted : Status → Disk → Run (Option World) → Type 0
IsStarted ok d r = (w : World) × (r ≡ done (some w)) × IsReady d w
IsStarted failed d r = r ≡ done none

init_tables-IsStarted :
    (counter : ℕ) (w : World) (status : Status) (d : Disk)
    → ((m : ℕ) → inode_buffer_size ≤ m → (w.fs.pool.inode m).locked ≡ false)
    → IsStarted status d (init_tables counter w (status, d))
unfolding init_tables
init_tables-IsStarted counter w ok d h = init_tables-IsReady counter w d h
init_tables-IsStarted counter w failed d h = refl

-- Where the disk is set up, `main` meets no NULL and gets to `fuse_main` with every descriptor
-- closed, the 32 buffers free in order and without references, and no mutex held, if the memory holds
-- no locked inode besides them; where the disk is refused, it does not get there.
pub main-IsStarted :
    (device_of : List ℕ → Device) (counter : ℕ) (argv : List (List ℕ)) (w : World) (status : Status)
    (d : Disk)
    → ((m : ℕ) → inode_buffer_size ≤ m → (w.fs.pool.inode m).locked ≡ false)
    → check_dev_mode device_of argv w.fs.disk ≡ done (status, d)
    → IsStarted status d (main device_of counter argv w)
unfolding main and_run
main-IsStarted device_of counter argv w status d h e =
    subst (λ r. IsStarted status d (and_run r (init_tables counter w))) (sym e)
      (init_tables-IsStarted counter w status d h)
