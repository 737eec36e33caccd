-- ===== src/Cache/Release.antt =====
-- `iput` keeps the free list the buffers without a reference.
use mathlib.Core.Path.{subst}
use native.Mathlib.Decide.{ℕ_discrete}
use naofs.Prelude.{
  ℕ, zero, suc, ◌-◌, ◌<◌, ◌≡◌, ◌≢◌, ◌⊎◌, inl, inr, refl, sym, ap, ap₂, ◌∙◌, Bool, false, none, some,
  List, [], ◌∷◌, ◌++◌, ◌==◌, if◌then◌else◌, ◌&&◌, ◌||◌, not, ℤ, pos, negsuc, arith, ne→==-false,
  if_both,
}
use naofs.Params.{inode_buffer_size}
use naofs.Disk.{Disk}
use naofs.Inode.{InCoreINode}
use naofs.Blocks.{inode_blocks_free}
use naofs.Blocks.Chain.{AllNe}
use naofs.Pool.{Ptr, Pool, update, hash_lookup, lookup_loop, get_hash}
use naofs.Pool.Ring.{update_self, update_ne}
use naofs.Pool.FreeList.{free_list_insert-append}
use naofs.Cache.{
  Run, done, Fs, and_run, of_option, set_inode, unlock, flush, drop_file, put_back, release,
  iput_locked, iput,
}
use naofs.Cache.Locks.{AllUnlocked}
use naofs.Cache.Share.{lock-free, set_self}
use naofs.Cache.Counts.{held}
use naofs.Cache.Idle.{
  count_of, Among, IsIdle, IsTouched, set-IsTouched, unlock-IsTouched, IsTouched-then,
  touched-IsRing, same-IsIdle, busy-IsIdle, in-IsIdle,
}

-- Two inodes that a buffer is found and counted by in the same way.
record IsSameKey (c c' : InCoreINode) : Type 0 where
  number : c'.inode_number ≡ c.inode_number
  device : c'.device_number ≡ c.device_number
  count : c'.reference_count ≡ c.reference_count

-- The inode as `release` leaves it, and the disk.
abbrev dropped : (now : ℕ) → InCoreINode → Disk → InCoreINode × Disk
dropped now c d = drop_file now (flush c d).0 (flush c d).1

flush-IsSameKey : (c : InCoreINode) (d : Disk) → IsSameKey c (flush c d).0
unfolding flush
flush-IsSameKey c d =
    if_both (λ (r : InCoreINode × Disk). IsSameKey c r.0) (c.inode_changed || c.file_data_changed) _
      _ (record { number = refl; device = refl; count = refl })
      (record { number = refl; device = refl; count = refl })

drop_file-IsSameKey : (now : ℕ) (c : InCoreINode) (d : Disk) → IsSameKey c (drop_file now c d).0
unfolding drop_file inode_blocks_free
drop_file-IsSameKey now c d =
    if_both (λ (r : InCoreINode × Disk). IsSameKey c r.0)
      (c.links_count == 0 && not (c.inode_number == 0)) _ _
      (record { number = refl; device = refl; count = refl })
      (record { number = refl; device = refl; count = refl })

dropped-IsSameKey : (now : ℕ) (c : InCoreINode) (d : Disk) → IsSameKey c (dropped now c d).0
dropped-IsSameKey now c d =
    let (c1, d1) = flush c d in
    let a = flush-IsSameKey c d in
    let b = drop_file-IsSameKey now c1 d1 in
    record { number = b.number ∙ a.number; device = b.device ∙ a.device; count = b.count ∙ a.count }

-- A lookup reads nothing of the inodes but their numbers.
module _ (p : Pool) (f : ℕ → InCoreINode)
    (h : (m : ℕ) → (f m).inode_number ≡ (p.inode m).inode_number) where
  lookup_loop-same :
      (fuel n : ℕ) (q : Ptr)
      → lookup_loop fuel (record p { inode = f }) n q ≡ lookup_loop fuel p n q
  unfolding lookup_loop
  lookup_loop-same zero n none = refl
  lookup_loop-same zero n (some node) = refl
  lookup_loop-same (suc fuel) n none = refl
  lookup_loop-same (suc fuel) n (some node) =
      ap₂ (λ k rest. if k == n then some (some node) else rest) (h node)
        (lookup_loop-same fuel n (p.hash_next node))

  hash_lookup-same :
      (n device : ℕ) → hash_lookup (record p { inode = f }) n device ≡ hash_lookup p n device
  unfolding hash_lookup
  hash_lookup-same n device =
      lookup_loop-same inode_buffer_size n (p.hash_q (get_hash p.wide_shift n device))

hash_lookup-set :
    (s : Fs) (node : ℕ) (c : InCoreINode) (n device : ℕ)
    → c.inode_number ≡ (s.pool.inode node).inode_number
    → hash_lookup (set_inode s node c).pool n device ≡ hash_lookup s.pool n device
unfolding set_inode
hash_lookup-set s node c n device e =
    hash_lookup-same s.pool (update s.pool.inode node c) (λ m. at m (ℕ_discrete m node)) n device
  where
    at :
        (m : ℕ)
        → Dec (m ≡ node)
        → (update s.pool.inode node c m).inode_number ≡ (s.pool.inode m).inode_number
    at m (yes q) =
        ap (λ k. (update s.pool.inode node c k).inode_number) q
        ∙ ap (λ (i : InCoreINode). i.inode_number) (update_self s.pool.inode node c)
        ∙ e
        ∙ ap (λ k. (s.pool.inode k).inode_number) (sym q)
    at m (no ne) = ap (λ (i : InCoreINode). i.inode_number) (update_ne s.pool.inode node m c ne)

IsTouched-disk :
    (s s' : Fs) (d : Disk) (node k : ℕ)
    → IsTouched (record s { disk = d }) node k s'
    → IsTouched s node k s'
IsTouched-disk s s' d node k t = record {
  next = t.next;
  prev = t.prev;
  free_list = t.free_list;
  count = t.count;
  others = t.others;
}

-- The state in front of the insertion.
abbrev written : (now : ℕ) → Fs → ℕ → Fs
written now s node =
    let (c, d) = dropped now (s.pool.inode node) s.disk in set_inode (record s { disk = d }) node c

written-IsTouched :
    (now : ℕ) (s : Fs) (node : ℕ) → IsTouched s node (count_of s node) (written now s node)
written-IsTouched now s node =
    let (c, d) = dropped now (s.pool.inode node) s.disk in
    subst (λ k. IsTouched s node k (written now s node))
      (dropped-IsSameKey now (s.pool.inode node) s.disk).count
      (IsTouched-disk s (written now s node) d node c.reference_count
        (set-IsTouched (record s { disk = d }) node c))

-- The queues find the node by the key of its inode.
abbrev IsFound : Fs → ℕ → Type 0
IsFound s node =
    let c = s.pool.inode node in
    hash_lookup s.pool c.inode_number c.device_number ≡ some (some node)

release-put_back :
    (now : ℕ) (s : Fs) (node : ℕ)
    → IsFound s node
    → release now s node ≡ put_back (written now s node) node (some node)
unfolding release and_run of_option
release-put_back now s node found =
    let (c, d) = dropped now (s.pool.inode node) s.disk in
    let same = dropped-IsSameKey now (s.pool.inode node) s.disk in
    ap (λ o. and_run (of_option o) (put_back (written now s node) node))
      (hash_lookup-set (record s { disk = d }) node c c.inode_number c.device_number same.number
        ∙ (λ i. hash_lookup s.pool (same.number i) (same.device i))
        ∙ found)

not_Among-AllNe : (n : ℕ) (xs : List ℕ) → (Among n xs → ⊥) → AllNe n xs
not_Among-AllNe n [] h = tt
not_Among-AllNe n (x ∷ xs) h = ((λ e. h (inl (sym e))), not_Among-AllNe n xs (λ a. h (inr a)))

-- The node goes to the end of the free list, and is unlocked.
put_back-IsIdle :
    (s0 s : Fs) (node : ℕ) (xs : List ℕ)
    → IsTouched s0 node 0 s
    → count_of s0 node ≢ 0
    → node < inode_buffer_size
    → IsIdle s0 xs
    → (s' : Fs) × (put_back s node (some node) ≡ done (pos 0, s'))
      × IsIdle s' (xs ++ (node ∷ []))
      × (count_of s' node ≡ 0)
unfolding put_back and_run of_option
put_back-IsIdle s0 s node xs t c0 lt h =
    let out = not_Among-AllNe node xs (λ a. c0 (h.idle node a)) in
    let (q, inserted, ring, same) =
      free_list_insert-append s.pool xs node (touched-IsRing s0 s node 0 xs t h.ring) out in
    let u : Fs = record s { pool = q } in
    let s' = unlock u node in
    let b = unlock-IsTouched u node in
    let at : (m : ℕ) → u.pool.inode m ≡ s.pool.inode m = λ m. ap (λ f. f m) same.inode in
    let none_left : count_of s' node ≡ 0 =
      b.count ∙ ap (λ (i : InCoreINode). i.reference_count) (at node) ∙ t.count in
    (
      s',
      ap (λ o. and_run (of_option o) (λ p. done (pos 0, unlock (record s { pool = p }) node)))
          inserted,
      in-IsIdle s0 s' node xs
          (touched-IsRing u s' node (count_of u node) (xs ++ (node ∷ [])) b ring) lt none_left
          (λ m ne. b.others m ne ∙ at m ∙ t.others m ne) h,
      none_left,
    )

-- `iput` behind its lock, as a choice on the count and on what is left of it.
fewer : Fs → ℕ → Fs
fewer s node =
    let c = s.pool.inode node in
    set_inode s node (record c { reference_count = c.reference_count - 1 })

chosen : (now : ℕ) (s : Fs) (node : ℕ) → (none_before none_behind : Bool) → Run (ℤ × Fs)
chosen now s node none_before none_behind =
    if none_before
    then done (negsuc 0, unlock s node)
    else if none_behind
    then release now (fewer s node) node
    else done (pos 0, unlock (fewer s node) node)

iput-chosen :
    (now : ℕ) (s : Fs) (node : ℕ)
    → (s.pool.inode node).locked ≡ false
    → let t = held s node in
      iput now s node ≡ chosen now t node (count_of t node == 0) (count_of t node - 1 == 0)
unfolding iput iput_locked and_run chosen fewer
iput-chosen now s node l = ap (λ t. and_run t (λ s1. iput_locked now s1 node)) (lock-free s node l)

fewer-IsTouched : (s : Fs) (node : ℕ) → IsTouched s node (count_of s node - 1) (fewer s node)
unfolding fewer
fewer-IsTouched s node = set-IsTouched s node _

IsFound-set :
    (s : Fs) (node : ℕ) (c : InCoreINode)
    → c.inode_number ≡ (s.pool.inode node).inode_number
    → c.device_number ≡ (s.pool.inode node).device_number
    → IsFound s node
    → IsFound (set_inode s node c) node
IsFound-set s node c e e' found =
    ap (λ (i : InCoreINode). hash_lookup (set_inode s node c).pool i.inode_number i.device_number)
      (set_self s node c)
    ∙ hash_lookup-set s node c c.inode_number c.device_number e
    ∙ (λ i. hash_lookup s.pool (e i) (e' i))
    ∙ found

IsFound-fewer : (s : Fs) (node : ℕ) → IsFound s node → IsFound (fewer (held s node) node) node
unfolding fewer
IsFound-fewer s node found =
    let t = held s node in IsFound-set t node _ refl refl (IsFound-set s node _ refl refl found)

-- What `iput` comes to: -1 with no reference to take back, or one reference less.
abbrev pub IsPut : (now : ℕ) → Fs → ℕ → List ℕ → Type 0
IsPut now s node xs =
    (z : ℤ) × (s' : Fs) × (xs' : List ℕ) × (iput now s node ≡ done (z, s'))
    × IsIdle s' xs'
    × (((z ≡ negsuc 0) × (count_of s node ≡ 0) × (xs' ≡ xs))
        ⊎ ((z ≡ pos 0) × (count_of s node ≡ suc (count_of s' node))))

module _ (now : ℕ) (s : Fs) (node : ℕ) (xs : List ℕ) (l : (s.pool.inode node).locked ≡ false) where
  iput-zero : count_of s node ≡ 0 → IsIdle s xs → IsPut now s node xs
  unfolding chosen
  iput-zero c0 h =
      let t = held s node in
      let a : IsTouched s node (count_of s node) t = set-IsTouched s node _ in
      let s' = unlock t node in
      let b =
        IsTouched-then s t s' node (count_of s node) (count_of s node) a
          (subst (λ k. IsTouched t node k s') a.count (unlock-IsTouched t node)) in
      (
        negsuc 0,
        s',
        xs,
        iput-chosen now s node l ∙ ap (λ k. chosen now t node (k == 0) (k - 1 == 0)) (a.count ∙ c0),
        same-IsIdle s s' node xs b h,
        inl (refl, c0, refl),
      )

  iput-more : 1 < count_of s node → IsIdle s xs → IsPut now s node xs
  unfolding chosen
  iput-more more h =
      let t = held s node in
      let a : IsTouched s node (count_of s node) t = set-IsTouched s node _ in
      let u = fewer t node in
      let k = count_of t node - 1 in
      let s' = unlock u node in
      let tu = IsTouched-then s t u node (count_of s node) k a (fewer-IsTouched t node) in
      let b = unlock-IsTouched u node in
      let k0 : count_of u node ≢ 0 = λ z. omega (arith, tu.count, a.count, more) in
      (
        pos 0,
        s',
        xs,
        iput-chosen now s node l ∙ (λ i.
            chosen now t node
              (ne→==-false (count_of t node) 0 (λ z. omega (arith, a.count, more)) i)
              (ne→==-false k 0 (λ z. omega (arith, a.count, more)) i)),
        busy-IsIdle s s' node (count_of u node) xs
            (IsTouched-then s u s' node k (count_of u node) tu b) k0 (λ z. omega (arith, more)) h,
        inr (refl, omega (arith, b.count, tu.count, a.count, more)),
      )

  iput-last :
      count_of s node ≡ 1
      → node < inode_buffer_size
      → IsFound s node
      → IsIdle s xs
      → IsPut now s node xs
  unfolding chosen
  iput-last c1 lt found h =
      let t = held s node in
      let a : IsTouched s node (count_of s node) t = set-IsTouched s node _ in
      let u = fewer t node in
      let k = count_of t node - 1 in
      let w = written now u node in
      let tu = IsTouched-then s t u node (count_of s node) k a (fewer-IsTouched t node) in
      let ct : count_of t node ≡ 1 = a.count ∙ c1 in
      let cu : count_of u node ≡ 0 = tu.count ∙ ap (λ j. j - 1) ct in
      let tw =
        IsTouched-then s u w node k 0 tu
          (subst (λ j. IsTouched u node j w) cu (written-IsTouched now u node)) in
      let (s', ended, idle, zero_left) =
        put_back-IsIdle s w node xs tw (λ z. omega (arith, c1)) lt h in
      (
        pos 0,
        s',
        xs ++ (node ∷ []),
        iput-chosen now s node l
            ∙ ap (λ j. chosen now t node (j == 0) (j - 1 == 0)) ct
            ∙ release-put_back now u node (IsFound-fewer s node found)
            ∙ ended,
        idle,
        inr (refl, omega (arith, zero_left, c1)),
      )

-- Where no inode is locked and the free list is the buffers without a reference, `iput` of a buffer
-- that the hash queues find by its inode's number meets no NULL and returns: 0 with one reference
-- less, or -1 with nothing changed in the list where there is none; the free list is again the
-- buffers without a reference.
pub iput-IsIdle :
    (now : ℕ) (s : Fs) (node : ℕ) (xs : List ℕ)
    → AllUnlocked s.pool
    → node < inode_buffer_size
    → (let c = s.pool.inode node in
        hash_lookup s.pool c.inode_number c.device_number ≡ some (some node))
    → IsIdle s xs
    → IsPut now s node xs
iput-IsIdle now s node xs unlocked lt found h = elim (ℕ_discrete (count_of s node) 0) [
  | yes c0 ↦ iput-zero now s node xs (unlocked node) c0 h
  | no c0 ↦ elim (ℕ_discrete (count_of s node) 1) [
    | yes c1 ↦ iput-last now s node xs (unlocked node) c1 lt found h
    | no c1 ↦ iput-more now s node xs (unlocked node) (omega (arith, c0, c1)) h
  ]
]
