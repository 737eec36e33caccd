-- ===== src/Pool/FreeList.antt =====
-- The functions of freeList.c are those of a queue of nodes.
use naofs.Prelude.{
  ℕ, ◌≡◌, refl, sym, ap, ◌∙◌, ◌≢◌, none, some, List, [], ◌∷◌, ◌++◌, ==-refl, ne→==-false,
}
use naofs.Pool.{
  Ptr, Pool, update, deref, free_list_insert, insert_at, link_before, pop_free_list, pop_at,
}
use naofs.Blocks.Chain.{AllNe, Distinct}
use naofs.Pool.Ring.{
  last, Open, Cycle, IsRing, last-append, last-ne, Open-frame, Open-append, Distinct-append,
  update_self, update_ne,
}

-- All but the free list's own members are as they were.
pub record SameQueues (p q : Pool) : Type 0 where
  pub hash_next : q.hash_next ≡ p.hash_next
  pub hash_prev : q.hash_prev ≡ p.hash_prev
  pub hash_q : q.hash_q ≡ p.hash_q
  pub inode : q.inode ≡ p.inode

-- The pool after an insertion into a list from `x` to `tail`.
inserted : Pool → ℕ → ℕ → ℕ → Pool
unfolding link_before
inserted p n x tail = record (link_before p n x) {
  next = update (update p.next n (some x)) tail (some n);
  prev = update (update p.prev n (p.prev x)) x (some n);
}

insert_at-some :
    (p : Pool) (n x tail : ℕ)
    → x ≢ n
    → p.prev x ≡ some tail
    → insert_at p n (some x) ≡ some (inserted p n x tail)
unfolding insert_at inserted
insert_at-some p n x tail h e =
    ap
      (λ t. deref t (λ tail. some (record (link_before p n x) {
        next = update (link_before p n x).next tail (some n);
        prev = update (link_before p n x).prev x (some n);
      })))
      (update_ne p.prev n x (p.prev x) h ∙ e)

inserted-IsRing :
    (p : Pool) (n x : ℕ) (r : List ℕ)
    → p.free_list ≡ some x
    → Cycle p.next p.prev x r
    → Distinct (x ∷ r)
    → AllNe n (x ∷ r)
    → IsRing (inserted p n x (last x r)) (x ∷ (r ++ (n ∷ [])))
unfolding inserted
inserted-IsRing p n x r f c d out =
    let l = last x r in
    let next' = update (update p.next n (some x)) l (some n) in
    let prev' = update (update p.prev n (p.prev x)) x (some n) in
    let ln : l ≢ n = last-ne n x r out in
    let xn : n ≢ x = λ e. out.0 (sym e) in
    let body : Open next' prev' x r =
      Open-frame p.next p.prev next' prev' x r l n x refl
        (λ a al an.
          update_ne (update p.next n (some x)) l a (some n) al ∙ update_ne p.next n a (some x) an)
        (λ a an ax.
          update_ne (update p.prev n (p.prev x)) x a (some n) ax
          ∙ update_ne p.prev n a (p.prev x) an)
        out d.0 d c.0 in
    (
      f,
      (
        Open-append next' prev' x r n body (update_self (update p.next n (some x)) l (some n)) (
            update_ne (update p.prev n (p.prev x)) x n (some n) xn
            ∙ update_self p.prev n (p.prev x)
            ∙ c.2),
        ap next' (last-append x r n)
            ∙ update_ne (update p.next n (some x)) l n (some n) (λ e. ln (sym e))
            ∙ update_self p.next n (some x),
        update_self (update p.prev n (p.prev x)) x (some n) ∙ ap some (sym (last-append x r n)),
      ),
      Distinct-append (x ∷ r) n d out,
    )

same_queues : (p : Pool) (n x tail : ℕ) → SameQueues p (inserted p n x tail)
unfolding inserted
same_queues p n x tail = record { hash_next = refl; hash_prev = refl; hash_q = refl; inode = refl }

-- `freeListInsert` of a node that is not on the list meets no NULL, puts the node at the end of the
-- queue and leaves the hash queues and the inodes alone.
pub free_list_insert-append :
    (p : Pool) (xs : List ℕ) (n : ℕ)
    → IsRing p xs
    → AllNe n xs
    → (q : Pool) × (free_list_insert p n ≡ some q) × IsRing q (xs ++ (n ∷ [])) × SameQueues p q
unfolding free_list_insert
free_list_insert-append p [] n f out = (
  record p { free_list = some n; next = update p.next n (some n); prev = update p.prev n (some n) },
  ap (insert_at p n) f,
  (refl, (tt, update_self p.next n (some n), update_self p.prev n (some n)), (tt, tt)),
  record { hash_next = refl; hash_prev = refl; hash_q = refl; inode = refl },
)
free_list_insert-append p (x ∷ r) n f out = (
  inserted p n x (last x r),
  ap (insert_at p n) f.0 ∙ insert_at-some p n x (last x r) out.0 f.1.2,
  inserted-IsRing p n x r f.0 f.1 f.2 out,
  same_queues p n x (last x r),
)

-- The pool after the first of two or more nodes was taken.
unfoldable pub popped : Pool → (x z tail : ℕ) → Pool
popped p x z tail = record p {
  free_list = some z;
  next = update (update p.next tail (some z)) x none;
  prev = update (update p.prev z (some tail)) x none;
}

pop_at-some :
    (p : Pool) (x z tail : ℕ)
    → z ≢ x
    → x ≢ tail
    → p.next x ≡ some z
    → p.prev x ≡ some tail
    → pop_at p (some x) ≡ some (some x, popped p x z tail)
unfolding pop_at popped
pop_at-some p x z tail zx xt en ep =
    let e1 : update p.next tail (some z) x ≡ some z = update_ne p.next tail x (some z) xt ∙ en in
    rw (en, ne→==-false z x zx, ep, e1) refl

pub popped-IsRing :
    (p : Pool) (x z : ℕ) (r : List ℕ)
    → Cycle p.next p.prev x (z ∷ r)
    → Distinct (x ∷ z ∷ r)
    → IsRing (popped p x z (last z r)) (z ∷ r)
unfolding popped
popped-IsRing p x z r c d =
    let l = last z r in
    let next' = update (update p.next l (some z)) x none in
    let prev' = update (update p.prev z (some l)) x none in
    let lx : l ≢ x = last-ne x z r d.0 in
    (
      refl,
      (
        Open-frame p.next p.prev next' prev' z r l x z refl
            (λ a al ax.
              update_ne (update p.next l (some z)) x a none ax ∙ update_ne p.next l a (some z) al)
            (λ a ax az.
              update_ne (update p.prev z (some l)) x a none ax ∙ update_ne p.prev z a (some l) az)
            d.0 d.1.0 d.1 c.0.2,
        update_ne (update p.next l (some z)) x l none lx ∙ update_self p.next l (some z),
        update_ne (update p.prev z (some l)) x z none d.0.0 ∙ update_self p.prev z (some l),
      ),
      d.1,
    )

pop_one :
    (p : Pool) (x : ℕ)
    → p.next x ≡ some x
    → pop_at p (some x) ≡ some (some x, record p { free_list = none })
unfolding pop_at
pop_one p x e = rw (e, ==-refl x) refl

pub popped_same : (p : Pool) (x z tail : ℕ) → SameQueues p (popped p x z tail)
unfolding popped
popped_same p x z tail = record { hash_next = refl; hash_prev = refl; hash_q = refl; inode = refl }

-- What `popFreeList` is to do to the queue: nothing on an empty one, else take its first node.
abbrev Popped : Pool → List ℕ → Ptr → Pool → Type 0
Popped p [] node q = (node ≡ none) × (q ≡ p)
Popped p (x ∷ r) node q = (node ≡ some x) × IsRing q r × SameQueues p q

-- `popFreeList` meets no NULL and takes the first node of the queue, or returns NULL and changes
-- nothing if there is none; the hash queues and the inodes stay as they are.
pub pop_free_list_lem :
    (p : Pool) (xs : List ℕ)
    → IsRing p xs
    → (node : Ptr) × (q : Pool) × (pop_free_list p ≡ some (node, q)) × Popped p xs node q
unfolding pop_free_list
pop_free_list_lem p [] f = (none, p, ap (pop_at p) f, (refl, refl))
pop_free_list_lem p (x ∷ []) f = (
  some x,
  record p { free_list = none },
  ap (pop_at p) f.0 ∙ pop_one p x f.1.1,
  (refl, refl, record { hash_next = refl; hash_prev = refl; hash_q = refl; inode = refl }),
)
pop_free_list_lem p (x ∷ z ∷ r) f = (
  some x,
  popped p x z (last z r),
  ap (pop_at p) f.0
      ∙ pop_at-some p x z (last z r) f.2.0.0 (λ e. last-ne x z r f.2.0 (sym e)) f.1.0.0 f.1.2,
  (refl, popped-IsRing p x z r f.1 f.2, popped_same p x z (last z r)),
)
