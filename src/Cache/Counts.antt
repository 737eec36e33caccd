-- ===== src/Cache/Counts.antt =====
-- `iget` keeps the free list the buffers without a reference.
use mathlib.Core.Path.{subst}
use native.Mathlib.Decide.{ℕ_discrete}
use naofs.Prelude.{
  ℕ, ◌+◌, ◌%◌, ◌^◌, ◌<◌, ◌≡◌, ◌≢◌, ◌⊎◌, inl, inr, refl, sym, ap, ◌∙◌, Bool, true, false, none, some,
  List, [], ◌∷◌, ◌++◌, ◌==◌, if◌then◌else◌, arith, ne→==-false, if_both,
}
use naofs.Params.{inode_buffer_size}
use naofs.Inode.{InCoreINode}
use naofs.Pool.{Ptr, Pool, hash_lookup, free_list_remove}
use naofs.Pool.Remove.{free_list_remove-append}
use naofs.Cache.{
  Run, done, Fs, and_run, of_option, set_inode, update_and_get_inode, fetch_inode_from_disk,
  iget_held, iget_locked, iget_at, iget,
}
use naofs.Cache.Locks.{AllUnlocked}
use naofs.Cache.Share.{lock-free}
use naofs.Cache.Fresh.{iget-none, iget-fresh}
use naofs.Cache.Idle.{
  count_of, Among-split, IsIdle, IsIdle-few, IsTouched, set-IsTouched, IsTouched-then,
  fetch-IsTouched, update_and_get-IsTouched, touched-IsRing, busy-IsIdle, out-IsIdle,
}

-- The inode that is read again if it has no links, and counted.
pub recount : Fs → (n node : ℕ) → Fs
recount s n node =
    (update_and_get_inode
      (if (s.pool.inode node).links_count == 0 then fetch_inode_from_disk s n node else s) node).1

pub recount-IsTouched :
    (s : Fs) (n node : ℕ) → IsTouched s node ((count_of s node + 1) % 2 ^ 64) (recount s n node)
unfolding recount
recount-IsTouched s n node =
    if_both
      (λ (t : Fs).
        IsTouched s node ((count_of s node + 1) % 2 ^ 64) (update_and_get_inode t node).1)
      ((s.pool.inode node).links_count == 0) (fetch_inode_from_disk s n node) s reread
      (update_and_get-IsTouched s node)
  where
    reread :
        IsTouched s node
          ((count_of s node + 1) % 2 ^ 64)
          (update_and_get_inode (fetch_inode_from_disk s n node) node).1
    reread =
        let t = fetch_inode_from_disk s n node in
        let a = fetch-IsTouched s n node in
        IsTouched-then s t (update_and_get_inode t node).1 node (count_of s node)
          ((count_of s node + 1) % 2 ^ 64) a
          (subst (λ k. IsTouched t node ((k + 1) % 2 ^ 64) (update_and_get_inode t node).1) a.count
            (update_and_get-IsTouched t node))

-- The state behind the lock of a node.
abbrev pub held : Fs → ℕ → Fs
held s node = set_inode s node (record (s.pool.inode node) { locked = true })

iget_held-lock :
    (s : Fs) (n node : ℕ)
    → (s.pool.inode node).locked ≡ false
    → iget_held s n node ≡ iget_locked (held s node) n node
unfolding iget_held and_run
iget_held-lock s n node l = ap (λ t. and_run t (λ s1. iget_locked s1 n node)) (lock-free s node l)

-- `iget` behind its lock, as a choice on the count.
locked_by : (s : Fs) (n node : ℕ) → Bool → Run (Ptr × Fs)
locked_by s n node b =
    and_run (if b then of_option (free_list_remove s.pool node) else done s.pool)
      (λ p. done (some node, recount (record s { pool = p }) n node))

iget_locked-by :
    (s : Fs) (n node : ℕ) → iget_locked s n node ≡ locked_by s n node (count_of s node == 0)
unfolding iget_locked locked_by recount update_and_get_inode
iget_locked-by s n node = refl

pub iget_locked-busy :
    (s : Fs) (n node : ℕ)
    → count_of s node ≢ 0
    → iget_locked s n node ≡ done (some node, recount s n node)
unfolding locked_by and_run
iget_locked-busy s n node c0 =
    iget_locked-by s n node ∙ ap (locked_by s n node) (ne→==-false (count_of s node) 0 c0)

iget_locked-idle :
    (s : Fs) (n node : ℕ) (q : Pool)
    → count_of s node ≡ 0
    → free_list_remove s.pool node ≡ some q
    → iget_locked s n node ≡ done (some node, recount (record s { pool = q }) n node)
unfolding locked_by and_run of_option
iget_locked-idle s n node q c0 e =
    iget_locked-by s n node
    ∙ ap (λ k. locked_by s n node (k == 0)) c0
    ∙ ap
        (λ o. and_run (of_option o) (λ p. done (some node, recount (record s { pool = p }) n node)))
        e

-- What `iget` comes to: a buffer with a reference, or NULL where none was free, and a free list that
-- is again the buffers without a reference.
abbrev pub IsGot : Fs → (n : ℕ) → List ℕ → Type 0
IsGot s n xs =
    (r : Ptr) × (s' : Fs) × (xs' : List ℕ) × (iget s n 0 ≡ done (r, s'))
    × IsIdle s' xs'
    × (((r ≡ none) × (xs ≡ [])) ⊎ ((node : ℕ) × (r ≡ some node) × (count_of s' node ≢ 0)))

pub iget-found :
    (s : Fs) (n node : ℕ) (r : Run (Ptr × Fs))
    → hash_lookup s.pool n 0 ≡ some (some node)
    → (s.pool.inode node).locked ≡ false
    → iget_locked (held s node) n node ≡ r
    → iget s n 0 ≡ r
unfolding iget iget_at and_run of_option
iget-found s n node r e l h =
    ap (λ o. and_run (of_option o) (iget_at s n 0)) e ∙ iget_held-lock s n node l ∙ h

iget-busy :
    (s : Fs) (n node : ℕ) (xs : List ℕ)
    → hash_lookup s.pool n 0 ≡ some (some node)
    → (s.pool.inode node).locked ≡ false
    → count_of s node ≢ 0
    → count_of s node + 1 < 2 ^ 64
    → IsIdle s xs
    → IsGot s n xs
iget-busy s n node xs e l c0 b h =
    let t = held s node in
    let a : IsTouched s node (count_of s node) t = set-IsTouched s node _ in
    let s' = recount t n node in
    let k = (count_of t node + 1) % 2 ^ 64 in
    let touched : IsTouched s node k s' =
      IsTouched-then s t s' node (count_of s node) k a (recount-IsTouched t n node) in
    let k0 : k ≢ 0 = λ z. omega (arith, a.count) in
    (
      some node,
      s',
      xs,
      iget-found s n node (done (some node, s')) e l
          (iget_locked-busy t n node (λ z. c0 (sym a.count ∙ z))),
      busy-IsIdle s s' node k xs touched k0 c0 h,
      inr (node, refl, λ z. k0 (sym touched.count ∙ z)),
    )

iget-idle :
    (s : Fs) (n node : ℕ) (ys zs : List ℕ)
    → hash_lookup s.pool n 0 ≡ some (some node)
    → (s.pool.inode node).locked ≡ false
    → count_of s node ≡ 0
    → IsIdle s (ys ++ (node ∷ zs))
    → IsGot s n (ys ++ (node ∷ zs))
iget-idle s n node ys zs e l c0 h =
    let t = held s node in
    let a : IsTouched s node (count_of s node) t = set-IsTouched s node _ in
    let (q, removed, ring, same) =
      free_list_remove-append t.pool node ys zs
        (touched-IsRing s t node (count_of s node) (ys ++ (node ∷ zs)) a h.ring)
        (IsIdle-few s (ys ++ (node ∷ zs)) h) in
    let u : Fs = record t { pool = q } in
    let at : (m : ℕ) → u.pool.inode m ≡ t.pool.inode m = λ m. ap (λ f. f m) same.inode in
    let zero_count : count_of t node ≡ 0 = a.count ∙ c0 in
    let s' = recount u n node in
    let b = recount-IsTouched u n node in
    let one : count_of s' node ≡ 1 =
      b.count
      ∙ ap (λ k. (k + 1) % 2 ^ 64)
          (ap (λ (i : InCoreINode). i.reference_count) (at node) ∙ zero_count) in
    (
      some node,
      s',
      ys ++ zs,
      iget-found s n node (done (some node, s')) e l
          (iget_locked-idle t n node q zero_count removed),
      out-IsIdle s s' node 1 ys zs
          (touched-IsRing u s' node ((count_of u node + 1) % 2 ^ 64) (ys ++ zs) b ring)
          (λ z. omega arith) one (λ m ne. b.others m ne ∙ at m ∙ a.others m ne) h,
      inr (node, refl, λ z. omega (arith, one)),
    )

iget-missing :
    (s : Fs) (n : ℕ) (xs : List ℕ)
    → AllUnlocked s.pool
    → hash_lookup s.pool n 0 ≡ some none
    → IsIdle s xs
    → IsGot s n xs
iget-missing s n [] unlocked e h = (none, s, [], iget-none s n 0 e h.ring, h, inl (refl, refl))
iget-missing s n (x ∷ xs) unlocked e h =
    let (s', got, disk, ring, inode, others, queue) = iget-fresh s n 0 x xs e h.ring (unlocked x) in
    let one : count_of s' x ≡ 1 =
      ap (λ (i : InCoreINode). i.reference_count) inode
      ∙ ap (λ k. (k + 1) % 2 ^ 64) (h.idle x (inl refl)) in
    (
      some x,
      s',
      xs,
      got,
      out-IsIdle s s' x 1 [] xs ring (λ z. omega arith) one others h,
      inr (x, refl, λ z. omega (arith, one)),
    )

iget-hit :
    (s : Fs) (n node : ℕ) (xs : List ℕ)
    → AllUnlocked s.pool
    → hash_lookup s.pool n 0 ≡ some (some node)
    → node < inode_buffer_size
    → count_of s node + 1 < 2 ^ 64
    → IsIdle s xs
    → IsGot s n xs
iget-hit s n node xs unlocked e small few h = elim (ℕ_discrete (count_of s node) 0) [
  | no c0 ↦ iget-busy s n node xs e (unlocked node) c0 few h
  | yes c0 ↦
      let (ys, zs, split) = Among-split node xs (h.busy node small c0) in
      subst (IsGot s n) (sym split)
        (iget-idle s n node ys zs e (unlocked node) c0 (subst (IsIdle s) split h))
]

-- Where no inode is locked and the free list is the buffers without a reference, `iget` meets no
-- NULL and returns: a buffer that now has a reference, or NULL where no buffer was free; the free
-- list is again the buffers without a reference. `hashLookup` ends,
-- and a node it finds is a buffer with a count that does not overflow.
pub iget-IsIdle :
    (s : Fs) (n : ℕ) (found : Ptr) (xs : List ℕ)
    → AllUnlocked s.pool
    → hash_lookup s.pool n 0 ≡ some found
    → ((node : ℕ) → found ≡ some node → (node < inode_buffer_size) × (count_of s node + 1 < 2 ^ 64))
    → IsIdle s xs
    → IsGot s n xs
iget-IsIdle s n none xs unlocked e queued h = iget-missing s n xs unlocked e h
iget-IsIdle s n (some node) xs unlocked e queued h =
    let (small, few) = queued node refl in iget-hit s n node xs unlocked e small few h
