-- ===== src/Io/Append.antt =====
-- `writeToFile` at the end of an open file, with its lock and the table of open files.
use naofs.Prelude.{
  ℕ, ◌+◌, ◌%◌, ◌^◌, ◌≡◌, ◌≢◌, ◌≤◌, ◌<◌, ap, ◌∙◌, Bool, true, false, List, ltb, le→ltb-false,
  if◌then◌else◌, ℤ, pos, negsuc, to_int, to_int-small, arith,
}
use naofs.Disk.{Disk}
use naofs.Inode.{InCoreINode}
use naofs.Tree.{tree_size}
use naofs.Cache.{Run, done, fault, deadlock, Fs, set_inode, unlock}
use naofs.Cache.Share.{lock-free, set_self, set_ne}
use naofs.Files.{FileTable, get_file_descriptor, entry}
use naofs.System.{Env, M, pure, ◌>>=◌, ◌>>◌, bind-done, lock_at, inode_at, unlock_at}
use naofs.Io.{advance, disk_now, set_both, write_loop, write_at, write_to_file}
use naofs.Io.Write.{write_loop-append}

pub lock_at-free :
    (s : Fs) (node : ℕ)
    → (s.pool.inode node).locked ≡ false
    → lock_at node s ≡ done (tt, set_inode s node (record (s.pool.inode node) { locked = true }))
unfolding lock_at
lock_at-free s node l =
    ap (λ (r : Run Fs). elim r [ done s' ↦ done (tt, s') | fault ↦ fault | deadlock ↦ deadlock ])
      (lock-free s node l)

module _ (e : Env) (buf : List ℕ) (size fd : ℕ) (files : FileTable) where
  -- What `writeToFile` does with the inode that it has locked, by the test of the offset.
  unfoldable pub looked_at : InCoreINode → (offset : ℕ) → Bool → M (ℤ × FileTable)
  looked_at c offset past =
      if past then (do unlock_at (files fd).inode; pure (negsuc 0, files)) else (do
        d ← disk_now
        let (count, c', d') = write_loop size e.now c buf size 0 offset d
        set_both (files fd).inode c' d'
        unlock_at (files fd).inode
        pure (to_int count, advance files fd (count % 2 ^ 32)))

  -- The state behind a write with this result, and the answer.
  unfoldable pub left : Fs → ℕ × InCoreINode × Disk → Fs
  left s w = unlock (set_inode (record s { disk = w.2 }) (files fd).inode w.1) (files fd).inode

  unfoldable pub answered : Fs → ℕ × InCoreINode × Disk → Run ((ℤ × FileTable) × Fs)
  answered s w = done ((to_int w.0, advance files fd (w.0 % 2 ^ 32)), left s w)

  pub looked_at-within :
      (c : InCoreINode) (offset : ℕ) (s : Fs)
      → offset ≤ c.size
      → looked_at c offset (ltb c.size offset) s
        ≡ answered s (write_loop size e.now c buf size 0 offset s.disk)
  unfolding looked_at answered left unlock_at set_both
  looked_at-within c offset s h = ap (λ b. looked_at c offset b s) (le→ltb-false c.size offset h)

  pub write_at-locked :
      (offset : ℕ) (s : Fs)
      → let c = s.pool.inode (files fd).inode in
        let c1 = record c { locked = true } in
        let s1 = set_inode s (files fd).inode c1 in
        c.locked ≡ false
        → write_at e buf size offset files (entry fd) s
          ≡ looked_at c1 offset (ltb c1.size offset) s1
  unfolding write_at looked_at inode_at
  write_at-locked offset s l =
      let node = (files fd).inode in
      let c1 = record (s.pool.inode node) { locked = true } in
      let s1 = set_inode s node c1 in
      bind-done (lock_at node) _ s tt s1 (lock_at-free s node l)
      ∙ ap (λ (i : InCoreINode). looked_at i offset (ltb i.size offset) s1) (set_self s node c1)

-- A write of less than 2 ^ 31 bytes at the end of an open file that is not locked, where they fit
-- into the blocks that the triple indirect tree reaches, returns, and returns the number of bytes;
-- the offset of the entry has moved on and the file has grown by as many, its mutex is free, and no
-- other inode in memory has changed.
pub write_to_file-append :
    (e : Env) (buf : List ℕ) (size fh fd : ℕ) (files : FileTable) (s : Fs)
    → get_file_descriptor files (to_int fh) ≡ entry fd
    → (s.pool.inode (files fd).inode).locked ≡ false
    → size < 2 ^ 31
    → (s.pool.inode (files fd).inode).size + size ≤ tree_size
    → let node = (files fd).inode in
      let c = s.pool.inode node in
      (s' : Fs) × (write_to_file e buf size c.size fh files s
        ≡ done ((pos size, advance files fd size), s'))
      × ((s'.pool.inode node).size ≡ c.size + size)
      × ((s'.pool.inode node).locked ≡ false)
      × ((m : ℕ) → m ≢ node → s'.pool.inode m ≡ s.pool.inode m)
unfolding write_to_file answered left unlock
write_to_file-append e buf size fh fd files s open_ l small fits =
    let node = (files fd).inode in
    let c = s.pool.inode node in
    let c1 = record c { locked = true } in
    let s1 = set_inode s node c1 in
    let w = write_loop size e.now c1 buf size 0 c1.size s1.disk in
    let (count, grown) = write_loop-append e.now c1 buf size s1.disk small fits in
    let s2 = set_inode (record s1 { disk = w.2 }) node w.1 in
    let same : size % 2 ^ 32 ≡ size = omega arith in
    (
      left e buf size fd files s1 w,
      ap (λ r. write_at e buf size c.size files r s) open_
          ∙ write_at-locked e buf size fd files c.size s l
          ∙ looked_at-within e buf size fd files c1 c.size s1 (omega arith)
          ∙ ap
              (λ n. done ((to_int n, advance files fd (n % 2 ^ 32)), left e buf size fd files s1 w))
              count
          ∙ (λ i. done (
            (to_int-small size small i, advance files fd (same i)),
            left e buf size fd files s1 w,
          )),
      ap (λ (i : InCoreINode). i.size) (set_self s2 node _)
          ∙ ap (λ (i : InCoreINode). i.size) (set_self (record s1 { disk = w.2 }) node w.1)
          ∙ grown,
      ap (λ (i : InCoreINode). i.locked) (set_self s2 node _),
      λ m ne.
          set_ne s2 node m _ ne
          ∙ set_ne (record s1 { disk = w.2 }) node m w.1 ne
          ∙ set_ne s node m c1 ne,
    )
