-- ===== src/Cache/Locks.antt =====
-- The mutexes of the inodes: `iget` and `iput` release what they lock, on every path.
use naofs.Prelude.{
  ℕ, ◌+◌, ◌-◌, ◌%◌, ◌^◌, ◌≡◌, refl, sym, ap, ◌∙◌, ◌≢◌, Bool, true, false, Option, none, some,
  if◌then◌else◌, ◌==◌, if_both,
}
use mathlib.Core.Path.{subst}
use native.Mathlib.Decide.{ℕ_discrete}
use naofs.Inode.{InCoreINode}
use naofs.Pool.{
  Ptr, Pool, update, free_list_insert, pop_free_list, free_list_remove, update_in_hash_q,
  hash_lookup,
}
use naofs.Pool.Frame.{
  SameInodes, Keeps, missing, kept, pop_at-SameInodes, insert_at-SameInodes,
  free_list_remove-SameInodes, update_in_hash_q-SameInodes,
}
use naofs.Pool.Ring.{update_self, update_ne}
use naofs.Cache.{
  Run, done, fault, deadlock, Fs, and_run, of_option, set_inode, lock, unlock, iget_into, iget_at,
  put_back, fetch_inode_from_disk, update_and_get_inode, iget_fresh, iget_held, iget_locked,
  iput_locked, iget, flush, drop_file, release, iput,
}

-- A call that does not wait for ever for a mutex, and whose result, if there is one, is as wanted.
abbrev pub Ends {ℓ} : {A : Type ℓ} → (A → Type 0) → Run A → Type 0
Ends P (done a) = P a
Ends P fault = Unit
Ends P deadlock = ⊥

-- No mutex is held; below, none but that of `node`.
abbrev pub AllUnlocked : Pool → Type 0
AllUnlocked p = (m : ℕ) → (p.inode m).locked ≡ false

abbrev pub Others : Pool → ℕ → Type 0
Others p node = (m : ℕ) → m ≢ node → (p.inode m).locked ≡ false

Ends-and_run {ℓ κ} :
    {A : Type ℓ} {B : Type κ} (P : A → Type 0) (Q : B → Type 0) (r : Run A) (k : A → Run B)
    → Ends P r
    → ((a : A) → P a → Ends Q (k a))
    → Ends Q (and_run r k)
unfolding and_run
Ends-and_run P Q (done a) k h g = g a h
Ends-and_run P Q fault k h g = tt
Ends-and_run P Q deadlock k h g = absurd h

module _ {ℓ} {A : Type ℓ} (P : A → Type 0) where
  Ends-of_option : (o : Option A) → Keeps P o → Ends P (of_option o)
  unfolding of_option
  Ends-of_option o missing = tt
  Ends-of_option o (kept a h) = h

Ends-looked_up : (o : Option Ptr) → Ends (λ _. Unit) (of_option o)
unfolding of_option
Ends-looked_up none = tt
Ends-looked_up (some q) = tt

pub Others-set :
    (s : Fs) (node : ℕ) (c : InCoreINode)
    → Others s.pool node
    → Others (set_inode s node c).pool node
unfolding set_inode
Others-set s node c h m ne =
    ap (λ (i : InCoreINode). i.locked) (update_ne s.pool.inode node m c ne) ∙ h m ne

pub lock-Others :
    (s : Fs) (node : ℕ) → AllUnlocked s.pool → Ends (λ (t : Fs). Others t.pool node) (lock s node)
unfolding lock
lock-Others s node h =
    let c = record (s.pool.inode node) { locked = true } in
    subst
      (λ b.
        Ends (λ (t : Fs). Others t.pool node) (if b then deadlock else done (set_inode s node c)))
      (sym (h node)) (Others-set s node c (λ m ne. h m))

pub unlock-AllUnlocked : (s : Fs) (node : ℕ) → Others s.pool node → AllUnlocked (unlock s node).pool
unfolding unlock set_inode
unlock-AllUnlocked s node h m = elim (ℕ_discrete m node) [
  | yes e ↦
      ap (λ k. (update s.pool.inode node c k).locked) e
      ∙ ap (λ (i : InCoreINode). i.locked) (update_self s.pool.inode node c)
  | no ne ↦ ap (λ (i : InCoreINode). i.locked) (update_ne s.pool.inode node m c ne) ∙ h m ne
]
  where
    c : InCoreINode
    c = record (s.pool.inode node) { locked = false }

Others-SameInodes : (p q : Pool) (node : ℕ) → SameInodes p q → Others p node → Others q node
Others-SameInodes p q node e h m ne = ap (λ (f : ℕ → InCoreINode). (f m).locked) e ∙ h m ne

AllUnlocked-SameInodes : (p q : Pool) → SameInodes p q → AllUnlocked p → AllUnlocked q
AllUnlocked-SameInodes p q e h m = ap (λ (f : ℕ → InCoreINode). (f m).locked) e ∙ h m

-- What is left to do once the inode is locked and read: count the reference and unlock.
update_and_get-AllUnlocked :
    (s : Fs) (node : ℕ) → Others s.pool node → AllUnlocked (update_and_get_inode s node).1.pool
unfolding update_and_get_inode
update_and_get-AllUnlocked s node h =
    let c = s.pool.inode node in
    let c' = record c { reference_count = (c.reference_count + 1) % 2 ^ 64 } in
    unlock-AllUnlocked (set_inode s node c') node (Others-set s node c' h)

fetch-Others :
    (s : Fs) (n node : ℕ) → Others s.pool node → Others (fetch_inode_from_disk s n node).pool node
unfolding fetch_inode_from_disk
fetch-Others s n node h = Others-set s node _ h

abbrev Unlocked {ℓ} : {A : Type ℓ} → A × Fs → Type 0
Unlocked r = AllUnlocked r.1.pool

iget_into-AllUnlocked :
    (s : Fs) (n device : ℕ) (q : Ptr) → AllUnlocked s.pool → Ends Unlocked (iget_into s n device q)
unfolding iget_into
iget_into-AllUnlocked s n device none h = h
iget_into-AllUnlocked s n device (some node) h =
    Ends-and_run (λ (t : Fs). Others t.pool node) Unlocked (lock s node) _ (lock-Others s node h)
      (λ s2 h2.
        let s3 = record s2 { pool = update_in_hash_q s2.pool node n device } in
        let same = update_in_hash_q-SameInodes s2.pool node n device in
        update_and_get-AllUnlocked (fetch_inode_from_disk s3 n node) node
          (fetch-Others s3 n node (Others-SameInodes s2.pool s3.pool node same h2)))

iget_fresh-AllUnlocked :
    (s : Fs) (n device : ℕ) → AllUnlocked s.pool → Ends Unlocked (iget_fresh s n device)
unfolding iget_fresh pop_free_list
iget_fresh-AllUnlocked s n device h =
    Ends-and_run (λ (r : Ptr × Pool). SameInodes s.pool r.1) Unlocked
      (of_option (pop_free_list s.pool)) _
      (Ends-of_option _ _ (pop_at-SameInodes s.pool s.pool.free_list))
      (λ r e.
        iget_into-AllUnlocked (record s { pool = r.1 }) n device r.0
          (AllUnlocked-SameInodes s.pool r.1 e h))

removed-SameInodes :
    (p : Pool) (node : ℕ) (b : Bool)
    → Ends (SameInodes p) (if b then of_option (free_list_remove p node) else done p)
removed-SameInodes p node true = Ends-of_option _ _ (free_list_remove-SameInodes p node)
removed-SameInodes p node false = refl

iget_held-AllUnlocked :
    (s : Fs) (n node : ℕ) → AllUnlocked s.pool → Ends Unlocked (iget_held s n node)
unfolding iget_held iget_locked
iget_held-AllUnlocked s n node h =
    Ends-and_run (λ (t : Fs). Others t.pool node) Unlocked (lock s node) _ (lock-Others s node h)
      (λ s1 h1.
        Ends-and_run (SameInodes s1.pool) Unlocked
          (if (s1.pool.inode node).reference_count == 0
            then of_option (free_list_remove s1.pool node)
            else done s1.pool)
          _ (removed-SameInodes s1.pool node ((s1.pool.inode node).reference_count == 0))
          (λ p2 e.
            let s2 = record s1 { pool = p2 } in
            let h2 = Others-SameInodes s1.pool p2 node e h1 in
            let s3 =
              if (p2.inode node).links_count == 0 then fetch_inode_from_disk s2 n node else s2 in
            update_and_get-AllUnlocked s3 node (
              if_both (λ (t : Fs). Others t.pool node) ((p2.inode node).links_count == 0)
                (fetch_inode_from_disk s2 n node) s2 (fetch-Others s2 n node h2) h2)))

iget_at-AllUnlocked :
    (s : Fs) (n device : ℕ) (q : Ptr) → AllUnlocked s.pool → Ends Unlocked (iget_at s n device q)
unfolding iget_at
iget_at-AllUnlocked s n device none h = iget_fresh-AllUnlocked s n device h
iget_at-AllUnlocked s n device (some node) h = iget_held-AllUnlocked s n node h

-- If no inode is locked, `iget` locks no mutex that is held, and where it returns it returns with
-- no inode locked, whether the inode is in a buffer, is read into a free one, or there is none.
pub iget-AllUnlocked :
    (s : Fs) (n device : ℕ) → AllUnlocked s.pool → Ends Unlocked (iget s n device)
unfolding iget
iget-AllUnlocked s n device h =
    Ends-and_run (λ _. Unit) Unlocked (of_option (hash_lookup s.pool n device)) _
      (Ends-looked_up (hash_lookup s.pool n device)) (λ q _. iget_at-AllUnlocked s n device q h)

put_back-AllUnlocked :
    (s : Fs) (node : ℕ) (q : Ptr) → Others s.pool node → Ends Unlocked (put_back s node q)
unfolding put_back free_list_insert
put_back-AllUnlocked s node none h = unlock-AllUnlocked s node h
put_back-AllUnlocked s node (some found) h =
    Ends-and_run (SameInodes s.pool) Unlocked (of_option (free_list_insert s.pool found)) _
      (Ends-of_option _ _ (insert_at-SameInodes s.pool found s.pool.free_list))
      (λ p e. unlock-AllUnlocked (record s { pool = p }) node (Others-SameInodes s.pool p node e h))

release-AllUnlocked :
    (now : ℕ) (s : Fs) (node : ℕ) → Others s.pool node → Ends Unlocked (release now s node)
unfolding release
release-AllUnlocked now s node h =
    let (c1, d1) = flush (s.pool.inode node) s.disk in
    let (c2, d2) = drop_file now c1 d1 in
    let s2 = set_inode (record s { disk = d2 }) node c2 in
    let found = hash_lookup s2.pool c2.inode_number c2.device_number in
    Ends-and_run (λ _. Unit) Unlocked (of_option found) _ (Ends-looked_up found)
      (λ q _. put_back-AllUnlocked s2 node q (Others-set (record s { disk = d2 }) node c2 h))

-- If no inode is locked, `iput` locks no mutex that is held, and where it returns it returns with
-- no inode locked, on its errors too.
pub iput-AllUnlocked :
    (now : ℕ) (s : Fs) (node : ℕ) → AllUnlocked s.pool → Ends Unlocked (iput now s node)
unfolding iput iput_locked
iput-AllUnlocked now s node h =
    Ends-and_run (λ (t : Fs). Others t.pool node) Unlocked (lock s node) _ (lock-Others s node h)
      (λ s1 h1.
        let c = s1.pool.inode node in
        let c' = record c { reference_count = c.reference_count - 1 } in
        let s2 = set_inode s1 node c' in
        let h2 = Others-set s1 node c' h1 in
        if_both (Ends Unlocked) (c.reference_count == 0) _ _ (unlock-AllUnlocked s1 node h1) (
          if_both (Ends Unlocked) (c.reference_count - 1 == 0) _ _
            (release-AllUnlocked now s2 node h2) (unlock-AllUnlocked s2 node h2)))
