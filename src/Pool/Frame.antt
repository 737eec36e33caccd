-- ===== src/Pool/Frame.antt =====
-- The operations of the pool leave the inodes in the buffers alone, on every path.
use naofs.Prelude.{ℕ, zero, suc, ◌≡◌, refl, Option, none, some, ◌==◌, ◌&&◌, if_both}
use naofs.Params.{inode_buffer_size}
use naofs.Pool.{
  Ptr, Pool, update, deref, ptr_eq, insert_at, pop_at, link_before, unlink_node, remove_loop,
  free_list_remove, update_in_hash_q, remove_from_hash_q, remove_from, insert_at_hash,
}

-- The second pool holds the inodes of the first.
abbrev pub SameInodes : Pool → Pool → Type 0
SameInodes p q = q.inode ≡ p.inode

-- No result, or one as wanted.
pub data Keeps {ℓ} {A : Type ℓ} (P : A → Type 0) : Option A → Type ℓ where
  missing : Keeps P none
  kept : (a : A) → P a → Keeps P (some a)

module _ {ℓ} {A : Type ℓ} (P : A → Type 0) where
  Keeps-deref : (o : Ptr) (k : ℕ → Option A) → ((a : ℕ) → Keeps P (k a)) → Keeps P (deref o k)
  Keeps-deref none k h = missing
  Keeps-deref (some a) k h = h a

-- The pool's own operations leave the inodes alone.
pub pop_at-SameInodes :
    (p : Pool) (q : Ptr) → Keeps (λ (r : Ptr × Pool). SameInodes p r.1) (pop_at p q)
unfolding pop_at
pop_at-SameInodes p none = kept _ refl
pop_at-SameInodes p (some head) =
    if_both (Keeps same) (ptr_eq (p.next head) (some head)) _ _ (kept _ refl) (
      Keeps-deref same (p.prev head) _ (λ tail.
        Keeps-deref same (update p.next tail (p.next head) head) _ (λ second. kept _ refl)))
  where
    same : Ptr × Pool → Type 0
    same r = SameInodes p r.1

pub insert_at-SameInodes :
    (p : Pool) (node : ℕ) (q : Ptr) → Keeps (SameInodes p) (insert_at p node q)
unfolding insert_at link_before
insert_at-SameInodes p node none = kept _ refl
insert_at-SameInodes p node (some head) =
    Keeps-deref (SameInodes p) ((link_before p node head).prev head) _ (λ tail. kept _ refl)

unlink_node-SameInodes : (p : Pool) (node : ℕ) → Keeps (SameInodes p) (unlink_node p node)
unfolding unlink_node
unlink_node-SameInodes p node = Keeps-deref (SameInodes p) (p.next node) _ (λ after.
    Keeps-deref (SameInodes p) (update p.prev after (p.prev node) node) _ (λ before. kept _ refl))

remove_loop-SameInodes :
    (fuel : ℕ) (p : Pool) (node : ℕ) (w : Ptr) → Keeps (SameInodes p) (remove_loop fuel p node w)
unfolding remove_loop
remove_loop-SameInodes zero p node none = kept _ refl
remove_loop-SameInodes zero p node (some w) = missing
remove_loop-SameInodes (suc fuel) p node none = kept _ refl
remove_loop-SameInodes (suc fuel) p node (some w) =
    if_both (Keeps (SameInodes p)) (node == w) _ _ (unlink_node-SameInodes p node) (
      if_both (Keeps (SameInodes p)) (ptr_eq (p.next w) p.free_list) _ _ (kept _ refl)
        (remove_loop-SameInodes fuel p node (p.next w)))

pub free_list_remove-SameInodes :
    (p : Pool) (node : ℕ) → Keeps (SameInodes p) (free_list_remove p node)
unfolding free_list_remove
free_list_remove-SameInodes p node =
    if_both (Keeps (SameInodes p))
      (ptr_eq p.free_list (some node) && ptr_eq (p.next node) p.free_list) _ _ (kept _ refl)
      (remove_loop-SameInodes inode_buffer_size p node p.free_list)

pub update_in_hash_q-SameInodes :
    (p : Pool) (node n device : ℕ) → SameInodes p (update_in_hash_q p node n device)
unfolding update_in_hash_q remove_from_hash_q remove_from insert_at_hash
update_in_hash_q-SameInodes p node n device = refl
