-- ===== src/Io/Descriptors.antt =====
-- A write and a read through the same open file.
use native.Mathlib.Decide.{ℕ_discrete}
use naofs.Prelude.{
  ℕ, ◌+◌, ◌%◌, ◌^◌, ◌≡◌, ◌≤◌, ◌<◌, refl, sym, ap, ◌∙◌, true, false, List, length, splice, ℤ, pos,
  negsuc, to_int, to_int-small, leb, if◌then◌else◌, arith, slice,
}
use naofs.Params.{block_size, max_file_descriptors}
use naofs.Disk.{Disk, fetch, num_of_blocks_in_mem}
use naofs.Disk.Laws.{InMemory}
use naofs.Inode.{InCoreINode}
use naofs.Meta.RoundTrip.{IsBlock}
use naofs.Pool.Ring.{update_self, update_ne}
use naofs.Cache.{done, Fs, set_inode, unlock}
use naofs.Cache.Share.{set_self}
use naofs.Files.{FileTable, FileTableEntry, get_file_descriptor, entry, bad}
use naofs.System.{Env, M, pure, ◌>>=◌, ◌>>◌, bind-done, lock_at, inode_at, unlock_at}
use naofs.Io.{
  advance, disk_now, write_loop, read_bytes, read_at, read_file, write_at, write_to_file,
}
use naofs.Io.Overwrite.{first_block, write_loop-one_block, read_bytes-first, read_bytes-write}
use naofs.Io.Append.{answered, left, lock_at-free, looked_at-within, write_at-locked}

-- A table that finds the descriptor finds it when its offset has moved on, with the same inode.
entry-advance :
    (files : FileTable) (z : ℤ) (fd n : ℕ)
    → get_file_descriptor files z ≡ entry fd
    → get_file_descriptor (advance files fd n) z ≡ entry fd
unfolding get_file_descriptor advance
entry-advance files (pos k) fd n e =
    ap (λ b. if leb max_file_descriptors k then bad else if b then entry k else bad)
      (valid (ℕ_discrete k fd))
    ∙ e
  where
    valid : Dec (k ≡ fd) → (advance files fd n k).valid_entry ≡ (files k).valid_entry
    valid (yes q) =
        ap (λ j. (advance files fd n j).valid_entry) q
        ∙ ap (λ (f : FileTableEntry). f.valid_entry) (update_self files fd _)
        ∙ ap (λ j. (files j).valid_entry) (sym q)
    valid (no ne) = ap (λ (f : FileTableEntry). f.valid_entry) (update_ne files fd k _ ne)
entry-advance files (negsuc k) fd n e = e

inode-advance : (files : FileTable) (fd n : ℕ) → (advance files fd n fd).inode ≡ (files fd).inode
unfolding advance
inode-advance files fd n = ap (λ (f : FileTableEntry). f.inode) (update_self files fd _)

module _ (e : Env) (size offset fd : ℕ) (files : FileTable) where
  -- `readFile` of the entry `fd`, whose inode is in the buffer `node`.
  read_on : (node : ℕ) → M (ℤ × List ℕ × FileTable)
  read_on node = do
    lock_at node
    c ← inode_at node
    d ← disk_now
    let (count, bytes) = read_bytes e.now c size offset d
    unlock_at node
    pure (to_int count, bytes, advance files fd count)

  read_at-on : read_at e size offset files (entry fd) ≡ read_on (files fd).inode
  unfolding read_at read_on
  read_at-on = refl

  read_on-locked :
      (node : ℕ) (s : Fs)
      → (s.pool.inode node).locked ≡ false
      → let c1 = record (s.pool.inode node) { locked = true } in
        let w = read_bytes e.now c1 size offset s.disk in
        read_on node s
        ≡ done ((to_int w.0, w.1, advance files fd w.0), unlock (set_inode s node c1) node)
  unfolding read_on inode_at unlock_at set_inode
  read_on-locked node s l =
      let c1 = record (s.pool.inode node) { locked = true } in
      let s1 = set_inode s node c1 in
      bind-done (lock_at node) _ s tt s1 (lock_at-free s node l)
      ∙ ap
          (λ (i : InCoreINode).
            let w = read_bytes e.now i size offset s.disk in
            done ((to_int w.0, w.1, advance files fd w.0), unlock s1 node))
          (set_self s node c1)

  -- `readFile` of an open file whose bytes `readBytes` gives.
  read_file-gives :
      (fh node : ℕ) (bytes : List ℕ) (s : Fs)
      → get_file_descriptor files (to_int fh) ≡ entry fd
      → (files fd).inode ≡ node
      → (s.pool.inode node).locked ≡ false
      → size < 2 ^ 31
      → let c1 = record (s.pool.inode node) { locked = true } in
        read_bytes e.now c1 size offset s.disk ≡ (size, bytes)
        → read_file e size offset fh files s
          ≡ done ((pos size, bytes, advance files fd size), unlock (set_inode s node c1) node)
  unfolding read_file
  read_file-gives fh node bytes s open_ at l small given =
      let c1 = record (s.pool.inode node) { locked = true } in
      let t = unlock (set_inode s node c1) node in
      ap (λ r. read_at e size offset files r s) open_
      ∙ (λ i. read_at-on i s)
      ∙ ap (λ k. read_on k s) at
      ∙ read_on-locked node s l
      ∙ ap (λ (w : ℕ × List ℕ). done ((to_int w.0, w.1, advance files fd w.0), t)) given
      ∙ ap (λ z. done ((z, bytes, advance files fd size), t)) (to_int-small size small)

-- What is written through an open file is read back through it: where the inode's mutex is free and
-- the file is in one block, on a disk in memory whose blocks have their full length, `readFile` of
-- the whole file returns its size and the bytes of its first block; and behind a `writeToFile` of
-- one byte or more to a range within the file it returns the same bytes with the written ones in
-- their place.
pub read_file-write :
    (e : Env) (buf : List ℕ) (offset fh fd : ℕ) (files : FileTable) (s : Fs)
    → get_file_descriptor files (to_int fh) ≡ entry fd
    → (s.pool.inode (files fd).inode).locked ≡ false
    → InMemory s.disk
    → first_block (s.pool.inode (files fd).inode) < num_of_blocks_in_mem
    → ((b : ℕ) → IsBlock (fetch s.disk b))
    → 0 < length buf
    → offset + length buf ≤ (s.pool.inode (files fd).inode).size
    → (s.pool.inode (files fd).inode).size ≤ block_size
    → let c = s.pool.inode (files fd).inode in
      let before = slice 0 c.size (fetch s.disk (first_block c)) in
      ((s' : Fs) × (read_file e c.size 0 fh files s
          ≡ done ((pos c.size, before, advance files fd c.size), s')))
      × ((s' : Fs) × ((write_to_file e buf (length buf) offset fh files >>= λ r.
                read_file e c.size 0 fh r.1)
              s
            ≡ done (
              (
                pos c.size,
                splice before offset buf,
                advance (advance files fd (length buf)) fd c.size,
              ),
              s',
            )))
unfolding write_to_file answered left unlock set_inode
read_file-write e buf offset fh fd files s open_ l m first blocks p within one =
    let node = (files fd).inode in
    let c = s.pool.inode node in
    let c1 = record c { locked = true } in
    let s1 = set_inode s node c1 in
    let size = length buf in
    let w = write_loop size e.now c1 buf size 0 offset s1.disk in
    let whole = read_bytes-first e.now c1 s.disk one blocks in
    let (count, changed) =
      read_bytes-write e.now c1 buf offset s.disk m first blocks p within one in
    let kept : w.1 ≡ c1 =
      ap (λ (r : ℕ × InCoreINode × Disk). r.1)
        (write_loop-one_block e.now c1 buf size offset s1.disk p (omega arith) (omega arith)
          (omega arith) (omega arith)) in
    let s2 = set_inode (record s1 { disk = w.2 }) node w.1 in
    let s' = left e buf size fd files s1 w in
    let files' = advance files fd size in
    let same : size % 2 ^ 32 ≡ size = omega arith in
    let behind : s'.pool.inode node ≡ record w.1 { locked = false } =
      set_self s2 node _
      ∙ ap (λ (i : InCoreINode). record i { locked = false })
          (set_self (record s1 { disk = w.2 }) node w.1) in
    let wrote : write_to_file e buf size offset fh files s ≡ done ((pos size, files'), s') =
      ap (λ r. write_at e buf size offset files r s) open_
      ∙ write_at-locked e buf size fd files offset s l
      ∙ looked_at-within e buf size fd files c1 offset s1 (omega arith)
      ∙ ap (λ n. done ((to_int n, advance files fd (n % 2 ^ 32)), s')) count
      ∙ (λ i. done ((to_int-small size (omega arith) i, advance files fd (same i)), s')) in
    let again : read_bytes e.now (record (s'.pool.inode node) { locked = true }) c.size 0 s'.disk
        ≡ (c.size, splice (slice 0 c.size (fetch s.disk (first_block c))) offset buf) =
      ap (λ (i : InCoreINode). read_bytes e.now (record i { locked = true }) c.size 0 w.2) behind
      ∙ ap (λ (i : InCoreINode). read_bytes e.now (record i { locked = true }) c.size 0 w.2) kept
      ∙ ap (λ (i : InCoreINode). read_bytes e.now i i.size 0 w.2) (sym kept)
      ∙ changed
      ∙ ap (λ (r : ℕ × List ℕ). (c.size, splice r.1 offset buf)) whole in
    (
      (_, read_file-gives e c.size 0 fd files fh node _ s open_ refl l (omega arith) whole),
      (
        _,
        bind-done (write_to_file e buf size offset fh files) _ s (pos size, files') s' wrote
            ∙ read_file-gives e c.size 0 fd files' fh node _ s'
                (entry-advance files (to_int fh) fd size open_) (inode-advance files fd size)
                (ap (λ (i : InCoreINode). i.locked) behind) (omega arith) again,
      ),
    )
