-- ===== src/Cache/Returns.antt =====
-- The mutexes of the inodes where some are held already: `iget` and `iput` give back what they take.
use native.Mathlib.Decide.{ℕ_discrete}
use naofs.Prelude.{
  ℕ, ◌+◌, ◌-◌, ◌%◌, ◌^◌, ◌≡◌, refl, ap, ◌∙◌, ◌≢◌, Bool, true, false, Option, none, some, List, [],
  ◌∷◌, if◌then◌else◌, ◌==◌, if_both,
}
use naofs.Inode.{InCoreINode}
use naofs.Pool.{
  Ptr, Pool, update, free_list_insert, pop_free_list, free_list_remove, update_in_hash_q,
  hash_lookup,
}
use naofs.Pool.Frame.{
  SameInodes, Keeps, missing, kept, pop_at-SameInodes, insert_at-SameInodes,
  free_list_remove-SameInodes, update_in_hash_q-SameInodes,
}
use naofs.Pool.Ring.{update_self, update_ne}
use naofs.Cache.{
  Run, done, fault, deadlock, Fs, and_run, of_option, set_inode, lock, unlock, iget_into, iget_at,
  put_back, fetch_inode_from_disk, update_and_get_inode, iget_fresh, iget_held, iget_locked,
  iput_locked, iget, flush, drop_file, release, iput,
}

-- A call whose result, if there is one, is as wanted.
abbrev pub Returns {ℓ} : {A : Type ℓ} → (A → Type 0) → Run A → Type 0
Returns P (done a) = P a
Returns P fault = Unit
Returns P deadlock = Unit

-- A node that is none of some.
abbrev pub IsOff : List ℕ → ℕ → Type 0
IsOff [] m = Unit
IsOff (node ∷ nodes) m = (m ≢ node) × IsOff nodes m

-- No mutex is held but some of those of the nodes listed.
abbrev pub Except : List ℕ → Pool → Type 0
Except nodes p = (m : ℕ) → IsOff nodes m → (p.inode m).locked ≡ false

abbrev Left {ℓ} : {A : Type ℓ} → List ℕ → A × Fs → Type 0
Left nodes r = Except nodes r.1.pool

Returns-and_run {ℓ κ} :
    {A : Type ℓ} {B : Type κ} (P : A → Type 0) (Q : B → Type 0) (r : Run A) (k : A → Run B)
    → Returns P r
    → ((a : A) → P a → Returns Q (k a))
    → Returns Q (and_run r k)
unfolding and_run
Returns-and_run P Q (done a) k h g = g a h
Returns-and_run P Q fault k h g = tt
Returns-and_run P Q deadlock k h g = tt

module _ {ℓ} {A : Type ℓ} (P : A → Type 0) where
  Returns-of_option : (o : Option A) → Keeps P o → Returns P (of_option o)
  unfolding of_option
  Returns-of_option o missing = tt
  Returns-of_option o (kept a h) = h

Returns-looked_up : (o : Option Ptr) → Returns (λ _. Unit) (of_option o)
unfolding of_option
Returns-looked_up none = tt
Returns-looked_up (some q) = tt

-- A change of a node whose mutex may be held.
pub set-Except :
    (nodes : List ℕ) (s : Fs) (node : ℕ) (c : InCoreINode)
    → ((m : ℕ) → IsOff nodes m → m ≢ node)
    → Except nodes s.pool
    → Except nodes (set_inode s node c).pool
unfolding set_inode
set-Except nodes s node c off h m out =
    ap (λ (i : InCoreINode). i.locked) (update_ne s.pool.inode node m c (off m out)) ∙ h m out

pub lock-Except :
    (nodes : List ℕ) (s : Fs) (node : ℕ)
    → Except nodes s.pool
    → Returns (λ (t : Fs). Except (node ∷ nodes) t.pool) (lock s node)
unfolding lock
lock-Except nodes s node h =
    let c = record (s.pool.inode node) { locked = true } in
    if_both (Returns (λ (t : Fs). Except (node ∷ nodes) t.pool)) (s.pool.inode node).locked deadlock
      (done (set_inode s node c)) tt
      (set-Except (node ∷ nodes) s node c (λ m off. off.0) (λ m off. h m off.1))

-- The unlocking of a node that need not be listed any more.
pub unlock-Except :
    (nodes fewer : List ℕ) (s : Fs) (node : ℕ)
    → ((m : ℕ) → m ≢ node → IsOff fewer m → IsOff nodes m)
    → Except nodes s.pool
    → Except fewer (unlock s node).pool
unfolding unlock set_inode
unlock-Except nodes fewer s node off h m out = elim (ℕ_discrete m node) [
  | yes e ↦
      ap (λ k. (update s.pool.inode node c k).locked) e
      ∙ ap (λ (i : InCoreINode). i.locked) (update_self s.pool.inode node c)
  | no ne ↦
      ap (λ (i : InCoreINode). i.locked) (update_ne s.pool.inode node m c ne) ∙ h m (off m ne out)
]
  where
    c : InCoreINode
    c = record (s.pool.inode node) { locked = false }

Except-SameInodes : (nodes : List ℕ) (p q : Pool) → SameInodes p q → Except nodes p → Except nodes q
Except-SameInodes nodes p q e h m out = ap (λ (f : ℕ → InCoreINode). (f m).locked) e ∙ h m out

module _ (nodes : List ℕ) where
  unlocked : (s : Fs) (node : ℕ) → Except (node ∷ nodes) s.pool → Except nodes (unlock s node).pool
  unlocked s node h = unlock-Except (node ∷ nodes) nodes s node (λ m ne out. (ne, out)) h

  set_held :
      (s : Fs) (node : ℕ) (c : InCoreINode)
      → Except (node ∷ nodes) s.pool
      → Except (node ∷ nodes) (set_inode s node c).pool
  set_held s node c h = set-Except (node ∷ nodes) s node c (λ m off. off.0) h

  update_and_get-Except :
      (s : Fs) (node : ℕ)
      → Except (node ∷ nodes) s.pool
      → Except nodes (update_and_get_inode s node).1.pool
  unfolding update_and_get_inode
  update_and_get-Except s node h =
      let c = s.pool.inode node in
      let c' = record c { reference_count = (c.reference_count + 1) % 2 ^ 64 } in
      unlocked (set_inode s node c') node (set_held s node c' h)

  fetch-Except :
      (s : Fs) (n node : ℕ)
      → Except (node ∷ nodes) s.pool
      → Except (node ∷ nodes) (fetch_inode_from_disk s n node).pool
  unfolding fetch_inode_from_disk
  fetch-Except s n node h = set_held s node _ h

  iget_into-Except :
      (s : Fs) (n device : ℕ) (q : Ptr)
      → Except nodes s.pool
      → Returns (Left nodes) (iget_into s n device q)
  unfolding iget_into
  iget_into-Except s n device none h = h
  iget_into-Except s n device (some node) h =
      Returns-and_run (λ (t : Fs). Except (node ∷ nodes) t.pool) (Left nodes) (lock s node) _
        (lock-Except nodes s node h)
        (λ s2 h2.
          let s3 = record s2 { pool = update_in_hash_q s2.pool node n device } in
          let same = update_in_hash_q-SameInodes s2.pool node n device in
          update_and_get-Except (fetch_inode_from_disk s3 n node) node
            (fetch-Except s3 n node (Except-SameInodes (node ∷ nodes) s2.pool s3.pool same h2)))

  iget_fresh-Except :
      (s : Fs) (n device : ℕ) → Except nodes s.pool → Returns (Left nodes) (iget_fresh s n device)
  unfolding iget_fresh pop_free_list
  iget_fresh-Except s n device h =
      Returns-and_run (λ (r : Ptr × Pool). SameInodes s.pool r.1) (Left nodes)
        (of_option (pop_free_list s.pool)) _
        (Returns-of_option _ _ (pop_at-SameInodes s.pool s.pool.free_list))
        (λ r e.
          iget_into-Except (record s { pool = r.1 }) n device r.0
            (Except-SameInodes nodes s.pool r.1 e h))

  removed-Same :
      (p : Pool) (node : ℕ) (b : Bool)
      → Returns (SameInodes p) (if b then of_option (free_list_remove p node) else done p)
  removed-Same p node true = Returns-of_option _ _ (free_list_remove-SameInodes p node)
  removed-Same p node false = refl

  iget_held-Except :
      (s : Fs) (n node : ℕ) → Except nodes s.pool → Returns (Left nodes) (iget_held s n node)
  unfolding iget_held iget_locked
  iget_held-Except s n node h =
      let held = node ∷ nodes in
      Returns-and_run (λ (t : Fs). Except held t.pool) (Left nodes) (lock s node) _
        (lock-Except nodes s node h)
        (λ s1 h1.
          Returns-and_run (SameInodes s1.pool) (Left nodes)
            (if (s1.pool.inode node).reference_count == 0
              then of_option (free_list_remove s1.pool node)
              else done s1.pool)
            _ (removed-Same s1.pool node ((s1.pool.inode node).reference_count == 0))
            (λ p2 e.
              let s2 = record s1 { pool = p2 } in
              let h2 = Except-SameInodes held s1.pool p2 e h1 in
              let s3 =
                if (p2.inode node).links_count == 0 then fetch_inode_from_disk s2 n node else s2 in
              update_and_get-Except s3 node (
                if_both (λ (t : Fs). Except held t.pool) ((p2.inode node).links_count == 0)
                  (fetch_inode_from_disk s2 n node) s2 (fetch-Except s2 n node h2) h2)))

  iget_at-Except :
      (s : Fs) (n device : ℕ) (q : Ptr)
      → Except nodes s.pool
      → Returns (Left nodes) (iget_at s n device q)
  unfolding iget_at
  iget_at-Except s n device none h = iget_fresh-Except s n device h
  iget_at-Except s n device (some node) h = iget_held-Except s n node h

  pub iget-Except :
      (s : Fs) (n device : ℕ) → Except nodes s.pool → Returns (Left nodes) (iget s n device)
  unfolding iget
  iget-Except s n device h =
      Returns-and_run (λ _. Unit) (Left nodes) (of_option (hash_lookup s.pool n device)) _
        (Returns-looked_up (hash_lookup s.pool n device)) (λ q _. iget_at-Except s n device q h)

  put_back-Except :
      (s : Fs) (node : ℕ) (q : Ptr)
      → Except (node ∷ nodes) s.pool
      → Returns (Left nodes) (put_back s node q)
  unfolding put_back free_list_insert
  put_back-Except s node none h = unlocked s node h
  put_back-Except s node (some found) h =
      Returns-and_run (SameInodes s.pool) (Left nodes) (of_option (free_list_insert s.pool found)) _
        (Returns-of_option _ _ (insert_at-SameInodes s.pool found s.pool.free_list))
        (λ p e.
          unlocked (record s { pool = p }) node (Except-SameInodes (node ∷ nodes) s.pool p e h))

  release-Except :
      (now : ℕ) (s : Fs) (node : ℕ)
      → Except (node ∷ nodes) s.pool
      → Returns (Left nodes) (release now s node)
  unfolding release
  release-Except now s node h =
      let (c1, d1) = flush (s.pool.inode node) s.disk in
      let (c2, d2) = drop_file now c1 d1 in
      let s2 = set_inode (record s { disk = d2 }) node c2 in
      let found = hash_lookup s2.pool c2.inode_number c2.device_number in
      Returns-and_run (λ _. Unit) (Left nodes) (of_option found) _ (Returns-looked_up found)
        (λ q _. put_back-Except s2 node q (set_held (record s { disk = d2 }) node c2 h))

  pub iput-Except :
      (now : ℕ) (s : Fs) (node : ℕ) → Except nodes s.pool → Returns (Left nodes) (iput now s node)
  unfolding iput iput_locked
  iput-Except now s node h =
      Returns-and_run (λ (t : Fs). Except (node ∷ nodes) t.pool) (Left nodes) (lock s node) _
        (lock-Except nodes s node h)
        (λ s1 h1.
          let c = s1.pool.inode node in
          let c' = record c { reference_count = c.reference_count - 1 } in
          let s2 = set_inode s1 node c' in
          let h2 = set_held s1 node c' h1 in
          if_both (Returns (Left nodes)) (c.reference_count == 0) _ _ (unlocked s1 node h1) (
            if_both (Returns (Left nodes)) (c.reference_count - 1 == 0) _ _
              (release-Except now s2 node h2) (unlocked s2 node h2)))
