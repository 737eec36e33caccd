-- ===== src/Io/Locks.antt =====
-- The mutexes of open files: opening, reading, writing and closing leave none held, and a
-- directory that is truncated stays locked.
use naofs.Prelude.{◌%◌, ◌^◌, ℕ, false, none, some, List, ℤ, pos, negsuc, ltb}
use naofs.Inode.{InCoreINode}
use naofs.Disk.{Disk}
use naofs.Pool.{Pool, Ptr, update}
use naofs.Cache.{Fs}
use naofs.Cache.Locks.{Ends, AllUnlocked, Others-set}
use naofs.Files.{
  FileTable, Descriptor, entry, bad, create_and_get_file_descriptor, get_file_descriptor,
}
use naofs.System.{Env, M, inode_at, lock_at, unlock_at, iput_at}
use naofs.System.Locks.{
  Triple, Triple-run, Triple-fault, Triple-pure, Triple-bind, Triple-inode_at, Triple-lock,
  Triple-unlock, Triple-iput, Held,
}
use naofs.Namei.{get_file_inode}
use naofs.Namei.Locks.{Safe, Safe-bind, get_file_inode-Safe}
use naofs.Io.{
  calculate_file_offset, open_found, open_file, close_at, close_file, read_bytes, read_at,
  read_file, set_both, write_loop, write_at, write_to_file, disk_now, of_int, advance,
}
use naofs.Prelude.{to_int, if_both}

open_found-Safe :
    (flags pid fh : ℕ) (files : FileTable) (q : Ptr) → Safe (open_found flags pid fh files q)
unfolding open_found
open_found-Safe flags pid fh files none = Triple-pure AllUnlocked _
open_found-Safe flags pid fh files (some node) =
    let held = Held node in
    Triple-bind AllUnlocked held AllUnlocked (lock_at node) _ (Triple-lock node) (λ t.
      Triple-bind held held AllUnlocked (inode_at node) _ (Triple-inode_at held node) (λ c.
        Triple-bind held AllUnlocked AllUnlocked (unlock_at node) _ (Triple-unlock node) (λ t'.
          Triple-pure AllUnlocked (
            let (fd, files') =
              create_and_get_file_descriptor files pid node flags (calculate_file_offset c flags) in
            (pos 0, of_int fd, files')))))

pub Triple-disk_now : (P : Pool → Type 0) → Triple P disk_now P
unfolding Triple
Triple-disk_now P s p = p

close_at-Safe : (e : Env) (files : FileTable) (r : Descriptor) → Safe (close_at e files r)
unfolding close_at
close_at-Safe e files bad = Triple-pure AllUnlocked _
close_at-Safe e files Descriptor.fault = Triple-fault _ AllUnlocked
close_at-Safe e files (entry fd) =
    Safe-bind (iput_at e (files fd).inode) _ (Triple-iput e (files fd).inode) (λ z.
      Triple-pure AllUnlocked (z, update files fd (record (files fd) { valid_entry = false })))

read_at-Safe :
    (e : Env) (size offset : ℕ) (files : FileTable) (r : Descriptor)
    → Safe (read_at e size offset files r)
unfolding read_at
read_at-Safe e size offset files bad = Triple-pure AllUnlocked _
read_at-Safe e size offset files Descriptor.fault = Triple-fault _ AllUnlocked
read_at-Safe e size offset files (entry fd) =
    let node = (files fd).inode in
    let held = Held node in
    Triple-bind AllUnlocked held AllUnlocked (lock_at node) _ (Triple-lock node) (λ t.
      Triple-bind held held AllUnlocked (inode_at node) _ (Triple-inode_at held node) (λ c.
        Triple-bind held held AllUnlocked disk_now _ (Triple-disk_now held) (λ d.
          Triple-bind held AllUnlocked AllUnlocked (unlock_at node) _ (Triple-unlock node) (λ t'.
            Triple-pure AllUnlocked (
              let (count, bytes) = read_bytes e.now c size offset d in
              (to_int count, bytes, advance files fd count))))))

Triple-set_both :
    (node : ℕ) (c : InCoreINode) (d : Disk) → Triple (Held node) (set_both node c d) (Held node)
unfolding Triple set_both
Triple-set_both node c d s p = Others-set (record s { disk = d }) node c p

write_at-Safe :
    (e : Env) (buf : List ℕ) (size offset : ℕ) (files : FileTable) (r : Descriptor)
    → Safe (write_at e buf size offset files r)
unfolding write_at
write_at-Safe e buf size offset files bad = Triple-pure AllUnlocked _
write_at-Safe e buf size offset files Descriptor.fault = Triple-fault _ AllUnlocked
write_at-Safe e buf size offset files (entry fd) =
    let node = (files fd).inode in
    let held = Held node in
    Triple-bind AllUnlocked held AllUnlocked (lock_at node) _ (Triple-lock node) (λ t.
      Triple-bind held held AllUnlocked (inode_at node) _ (Triple-inode_at held node) (λ c.
        if_both (λ (m : M (ℤ × FileTable)). Triple held m AllUnlocked) (ltb c.size offset) _ _
          (Triple-bind held AllUnlocked AllUnlocked (unlock_at node) _ (Triple-unlock node)
            (λ t'. Triple-pure AllUnlocked (negsuc 0, files)))
          (Triple-bind held held AllUnlocked disk_now _ (Triple-disk_now held) (λ d.
            let (count, c', d') = write_loop size e.now c buf size 0 offset d in
            Triple-bind held held AllUnlocked (set_both node c' d') _ (Triple-set_both node c' d')
              (λ t'.
                Triple-bind held AllUnlocked AllUnlocked (unlock_at node) _ (Triple-unlock node)
                  (λ t''.
                    Triple-pure AllUnlocked (to_int count, advance files fd (count % 2 ^ 32))))))))

pub open_file-Safe :
    (e : Env) (path : List ℕ) (flags pid fh : ℕ) (files : FileTable)
    → Safe (open_file e path flags pid fh files)
unfolding open_file
open_file-Safe e path flags pid fh files =
    Safe-bind (get_file_inode e path) _ (get_file_inode-Safe e path)
      (open_found-Safe flags pid fh files)

pub close_file-Safe : (e : Env) (fh : ℕ) (files : FileTable) → Safe (close_file e fh files)
unfolding close_file
close_file-Safe e fh files = close_at-Safe e files (get_file_descriptor files (to_int fh))

pub read_file-Safe :
    (e : Env) (size offset fh : ℕ) (files : FileTable) → Safe (read_file e size offset fh files)
unfolding read_file
read_file-Safe e size offset fh files =
    read_at-Safe e size offset files (get_file_descriptor files (to_int fh))

pub write_to_file-Safe :
    (e : Env) (buf : List ℕ) (size offset fh : ℕ) (files : FileTable)
    → Safe (write_to_file e buf size offset fh files)
unfolding write_to_file
write_to_file-Safe e buf size offset fh files =
    write_at-Safe e buf size offset files (get_file_descriptor files (to_int fh))

-- If no inode is locked, opening a path and closing, reading and writing a descriptor never wait for
-- ever, and where they meet no NULL they return with no inode locked, on their errors too.
pub io-AllUnlocked :
    (e : Env) (path buf : List ℕ) (flags pid size offset fh : ℕ) (files : FileTable) (s : Fs)
    → AllUnlocked s.pool
    → Ends
        (λ (r : (ℤ × ℕ × FileTable) × Fs). AllUnlocked r.1.pool)
        (open_file e path flags pid fh files s)
      × Ends (λ (r : (ℤ × FileTable) × Fs). AllUnlocked r.1.pool) (close_file e fh files s)
      × Ends
          (λ (r : (ℤ × List ℕ × FileTable) × Fs). AllUnlocked r.1.pool)
          (read_file e size offset fh files s)
      × Ends
          (λ (r : (ℤ × FileTable) × Fs). AllUnlocked r.1.pool)
          (write_to_file e buf size offset fh files s)
io-AllUnlocked e path buf flags pid size offset fh files s p = (
  Triple-run _ _ _ s (open_file-Safe e path flags pid fh files) p,
  Triple-run _ _ _ s (close_file-Safe e fh files) p,
  Triple-run _ _ _ s (read_file-Safe e size offset fh files) p,
  Triple-run _ _ _ s (write_to_file-Safe e buf size offset fh files) p,
)
