-- ===== src/Cache/Share.antt =====
-- A reference to an inode that is in use: counted by `iget`, and taken back by `iput`.
use mathlib.Core.Path.{subst}
use native.Mathlib.Decide.{ℕ_discrete}
use naofs.Prelude.{
  ℕ, ◌+◌, ◌-◌, ◌%◌, ◌^◌, ◌<◌, ◌≡◌, sym, ap, ◌∙◌, ◌≢◌, true, false, some, ◌==◌, if◌then◌else◌, pos,
  negsuc, arith, fun_ext, ne→==-false,
}
use naofs.Inode.{InCoreINode}
use naofs.Pool.{Pool, update, hash_lookup}
use naofs.Pool.Ring.{update_self, update_ne}
use naofs.Cache.{
  done, deadlock, Fs, and_run, of_option, set_inode, lock, unlock, update_and_get_inode, iget_held,
  iget_locked, iput_locked, iget_at, iget, iput, release,
}

update-update :
    (f : ℕ → InCoreINode) (node : ℕ) (a b : InCoreINode)
    → update (update f node a) node b ≡ update f node b
update-update f node a b = fun_ext (λ m. at m (ℕ_discrete m node))
  where
    at : (m : ℕ) → Dec (m ≡ node) → update (update f node a) node b m ≡ update f node b m
    at m (yes e) =
        ap (update (update f node a) node b) e
        ∙ update_self (update f node a) node b
        ∙ sym (update_self f node b)
        ∙ ap (update f node b) (sym e)
    at m (no ne) =
        update_ne (update f node a) node m b ne
        ∙ update_ne f node m a ne
        ∙ sym (update_ne f node m b ne)

pub set_set :
    (s : Fs) (node : ℕ) (a b : InCoreINode)
    → set_inode (set_inode s node a) node b ≡ set_inode s node b
unfolding set_inode
set_set s node a b =
    ap (λ (f : ℕ → InCoreINode). record s { pool = record p { inode = f } })
      (update-update s.pool.inode node a b)
  where
    p : Pool
    p = s.pool

pub set_self : (s : Fs) (node : ℕ) (c : InCoreINode) → (set_inode s node c).pool.inode node ≡ c
unfolding set_inode
set_self s node c = update_self s.pool.inode node c

pub set_ne :
    (s : Fs) (node m : ℕ) (c : InCoreINode)
    → m ≢ node
    → (set_inode s node c).pool.inode m ≡ s.pool.inode m
unfolding set_inode
set_ne s node m c ne = update_ne s.pool.inode node m c ne

pub lock-free :
    (s : Fs) (node : ℕ)
    → (s.pool.inode node).locked ≡ false
    → lock s node ≡ done (set_inode s node (record (s.pool.inode node) { locked = true }))
unfolding lock
lock-free s node e =
    ap
      (λ b.
        if b
        then deadlock
        else done (set_inode s node (record (s.pool.inode node) { locked = true })))
      e

unlock-set :
    (s : Fs) (node : ℕ) (c : InCoreINode)
    → unlock (set_inode s node c) node ≡ set_inode s node (record c { locked = false })
unfolding unlock
unlock-set s node c =
    ap (λ (i : InCoreINode). set_inode (set_inode s node c) node (record i { locked = false }))
      (set_self s node c)
    ∙ set_set s node c (record c { locked = false })

pub count-set :
    (s : Fs) (node : ℕ) (c : InCoreINode)
    → update_and_get_inode (set_inode s node c) node ≡ (
      node,
      set_inode s node
          (record c { reference_count = (c.reference_count + 1) % 2 ^ 64; locked = false }),
    )
unfolding update_and_get_inode
count-set s node c =
    let t = set_inode s node c in
    let more = (c.reference_count + 1) % 2 ^ 64 in
    ap
      (λ (i : InCoreINode). (
        node,
        unlock (set_inode t node (record i { reference_count = (i.reference_count + 1) % 2 ^ 64 }))
            node,
      ))
      (set_self s node c)
    ∙ ap (λ (u : Fs). (node, unlock u node))
        (set_set s node c (record c { reference_count = more }))
    ∙ ap (λ (u : Fs). (node, u)) (unlock-set s node (record c { reference_count = more }))

iget_locked-shared :
    (s : Fs) (n node : ℕ)
    → (s.pool.inode node).reference_count ≢ 0
    → (s.pool.inode node).links_count ≢ 0
    → iget_locked s n node
      ≡ done (some (update_and_get_inode s node).0, (update_and_get_inode s node).1)
unfolding iget_locked and_run
iget_locked-shared s n node r k =
    rw (ne→==-false (s.pool.inode node).reference_count 0 r)
      (rw (ne→==-false (s.pool.inode node).links_count 0 k))

-- `iget` of an inode that is in a buffer, not locked, with references and with links, returns
-- that buffer with one reference more, and changes nothing else: neither the lists, nor the disk,
-- nor another inode.
pub iget-shared :
    (s : Fs) (n device node : ℕ)
    → hash_lookup s.pool n device ≡ some (some node)
    → (s.pool.inode node).locked ≡ false
    → (s.pool.inode node).reference_count ≢ 0
    → (s.pool.inode node).links_count ≢ 0
    → iget s n device
      ≡ done (
        some node,
        set_inode s node (record (s.pool.inode node) {
          reference_count = ((s.pool.inode node).reference_count + 1) % 2 ^ 64;
          locked = false;
        }),
      )
unfolding iget iget_at iget_held and_run of_option
iget-shared s n device node e l r k =
    let c = s.pool.inode node in
    let c1 = record c { locked = true } in
    ap (λ o. and_run (of_option o) (iget_at s n device)) e
    ∙ ap (λ t. and_run t (λ s1. iget_locked s1 n node)) (lock-free s node l)
    ∙ iget_locked-shared (set_inode s node c1) n node
        (λ z. r (ap (λ (i : InCoreINode). i.reference_count) (sym (set_self s node c1)) ∙ z))
        (λ z. k (ap (λ (i : InCoreINode). i.links_count) (sym (set_self s node c1)) ∙ z))
    ∙ ap (λ (u : ℕ × Fs). done (some u.0, u.1)) (count-set s node c1)

iput_locked-shared :
    (now : ℕ) (s : Fs) (node : ℕ) (c : InCoreINode)
    → s.pool.inode node ≡ c
    → 1 < c.reference_count
    → iput_locked now s node
      ≡ done (
        pos 0,
        unlock (set_inode s node (record c { reference_count = c.reference_count - 1 })) node,
      )
unfolding iput_locked
iput_locked-shared now s node c e r =
    let less : InCoreINode → Fs = λ (i : InCoreINode).
      set_inode s node (record i { reference_count = i.reference_count - 1 }) in
    ap
      (λ (i : InCoreINode).
        if i.reference_count == 0
        then done (negsuc 0, unlock s node)
        else if i.reference_count - 1 == 0
        then release now (less i) node
        else done (pos 0, unlock (less i) node))
      e
    ∙ rw (ne→==-false c.reference_count 0 (λ z. omega arith))
        (rw (ne→==-false (c.reference_count - 1) 0 (λ z. omega arith)))

-- `iput` of an inode that is not locked and has more than one reference returns 0 with one
-- reference less, and changes nothing else.
pub iput-shared :
    (now : ℕ) (s : Fs) (node : ℕ)
    → (s.pool.inode node).locked ≡ false
    → 1 < (s.pool.inode node).reference_count
    → iput now s node
      ≡ done (
        pos 0,
        set_inode s node (record (s.pool.inode node) {
          reference_count = (s.pool.inode node).reference_count - 1;
          locked = false;
        }),
      )
unfolding iput and_run
iput-shared now s node l r =
    let c = s.pool.inode node in
    let c1 = record c { locked = true } in
    let c2 = record c1 { reference_count = c.reference_count - 1 } in
    ap (λ t. and_run t (λ s1. iput_locked now s1 node)) (lock-free s node l)
    ∙ iput_locked-shared now (set_inode s node c1) node c1 (set_self s node c1) r
    ∙ ap (λ (u : Fs). done (pos 0, unlock u node)) (set_set s node c1 c2)
    ∙ ap (λ (u : Fs). done (pos 0, u)) (unlock-set s node c2)

set_same : (s : Fs) (node : ℕ) → set_inode s node (s.pool.inode node) ≡ s
unfolding set_inode
set_same s node =
    ap (λ (f : ℕ → InCoreINode). record s { pool = record p { inode = f } })
      (fun_ext (λ m. at m (ℕ_discrete m node)))
  where
    p : Pool
    p = s.pool

    at : (m : ℕ) → Dec (m ≡ node) → update p.inode node (p.inode node) m ≡ p.inode m
    at m (yes e) =
        ap (update p.inode node (p.inode node)) e
        ∙ update_self p.inode node (p.inode node)
        ∙ ap p.inode (sym e)
    at m (no ne) = update_ne p.inode node m (p.inode node) ne

counted_back : (k : ℕ) → k + 1 < 2 ^ 64 → (k + 1) % 2 ^ 64 - 1 ≡ k
counted_back k h = omega arith

-- `iget` followed by `iput` of an inode that is in a buffer, not locked, with references and with
-- links, returns 0 and leaves everything as it was, as long as the count of references does not
-- overflow.
pub iput-iget :
    (now : ℕ) (s : Fs) (n device node : ℕ)
    → hash_lookup s.pool n device ≡ some (some node)
    → (s.pool.inode node).locked ≡ false
    → (s.pool.inode node).reference_count ≢ 0
    → (s.pool.inode node).reference_count + 1 < 2 ^ 64
    → (s.pool.inode node).links_count ≢ 0
    → and_run (iget s n device) (λ r. iput now r.1 node) ≡ done (pos 0, s)
unfolding and_run
iput-iget now s n device node e l r b k =
    let c = s.pool.inode node in
    let c1 = record c { reference_count = (c.reference_count + 1) % 2 ^ 64; locked = false } in
    let back : InCoreINode → InCoreINode =
      λ (i : InCoreINode). record i { reference_count = i.reference_count - 1; locked = false } in
    let s1 = set_inode s node c1 in
    ap (λ t. and_run t (λ r. iput now r.1 node)) (iget-shared s n device node e l r k)
    ∙ iput-shared now s1 node (ap (λ (i : InCoreINode). i.locked) (set_self s node c1)) (
        subst (λ (i : InCoreINode). 1 < i.reference_count) (sym (set_self s node c1)) (omega arith))
    ∙ ap (λ (i : InCoreINode). done (pos 0, set_inode s1 node (back i))) (set_self s node c1)
    ∙ ap (λ (u : Fs). done (pos 0, u)) (set_set s node c1 (back c1))
    ∙ (λ j. done (
      pos 0,
      set_inode s node
          (record c { reference_count = counted_back c.reference_count b j; locked = sym l j }),
    ))
    ∙ ap (λ (u : Fs). done (pos 0, u)) (set_same s node)
