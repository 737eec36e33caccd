-- ===== src/Pool/Remove.antt =====
-- `freeListRemove`: the ring turned so that the node is first, taken out, and turned back.
use mathlib.Core.List.{append_assoc, append-nil}
use mathlib.Core.Path.{subst}
use naofs.Prelude.{
  ℕ, zero, suc, ◌+◌, ◌≤◌, ◌<◌, ◌≡◌, ◌≢◌, refl, sym, ap, ◌∙◌, Bool, true, false, none, some, List,
  [], ◌∷◌, ◌++◌, length, if◌then◌else◌, ◌&&◌, ==-refl, ne→==-false, arith, length-append,
}
use naofs.Params.{inode_buffer_size}
use naofs.Pool.{Ptr, Pool, update, ptr_eq, unlink_node, remove_loop, free_list_remove}
use naofs.Blocks.Chain.{AllNe, Distinct}
use naofs.Pool.Ring.{
  IsRing, Cycle, Open, Open-append, Distinct-append, last, last-append, update_ne,
}
use naofs.Pool.FreeList.{SameQueues, popped, popped-IsRing, popped_same}

module _ (next prev : ℕ → Ptr) where
  Cycle-turn :
      (x z : ℕ) (r : List ℕ) → Cycle next prev x (z ∷ r) → Cycle next prev z (r ++ (x ∷ []))
  Cycle-turn x z r c = (
    Open-append next prev z r x c.0.2 c.1 c.2,
    ap next (last-append z r x) ∙ c.0.0,
    c.0.1 ∙ ap some (sym (last-append z r x)),
  )

  -- The cycle from a node further on.
  Cycle-rotate :
      (x n : ℕ) (ys zs : List ℕ)
      → Cycle next prev x (ys ++ (n ∷ zs))
      → Cycle next prev n (zs ++ (x ∷ ys))
  Cycle-rotate x n [] zs c = Cycle-turn x n zs c
  Cycle-rotate x n (a ∷ ys) zs c = subst (Cycle next prev n) (append_assoc zs (x ∷ []) (a ∷ ys)) (
      Cycle-rotate a n ys (zs ++ (x ∷ [])) (
        subst (Cycle next prev a) (append_assoc ys (n ∷ zs) (x ∷ []))
          (Cycle-turn x a (ys ++ (n ∷ zs)) c)))

Distinct-rotate :
    (x n : ℕ) (ys zs : List ℕ) → Distinct (x ∷ (ys ++ (n ∷ zs))) → Distinct (n ∷ (zs ++ (x ∷ ys)))
Distinct-rotate x n [] zs d = Distinct-append (n ∷ zs) x d.1 d.0
Distinct-rotate x n (a ∷ ys) zs d =
    subst (λ l. Distinct (n ∷ l)) (append_assoc zs (x ∷ []) (a ∷ ys))
      (Distinct-rotate a n ys (zs ++ (x ∷ [])) (
        subst (λ l. Distinct (a ∷ l)) (append_assoc ys (n ∷ zs) (x ∷ []))
          (Distinct-append (a ∷ (ys ++ (n ∷ zs))) x d.1 d.0)))

-- The pool without a node between two others.
unlinked : Pool → Ptr → (n z tail : ℕ) → Pool
unlinked p list n z tail = record (popped p n z tail) { free_list = list }

unlink_node-some :
    (p : Pool) (x n z tail : ℕ)
    → p.free_list ≡ some x
    → x ≢ n
    → n ≢ z
    → p.next n ≡ some z
    → p.prev n ≡ some tail
    → unlink_node p n ≡ some (unlinked p (some x) n z tail)
unfolding unlink_node unlinked popped
unlink_node-some p x n z tail f xn nz en ep =
    let e1 : update p.prev z (some tail) n ≡ some tail = update_ne p.prev z n (some tail) nz ∙ ep in
    rw (f, ne→==-false x n xn, en, ep, e1) refl

unlink_node-first :
    (p : Pool) (n z tail : ℕ)
    → p.free_list ≡ some n
    → n ≢ z
    → p.next n ≡ some z
    → p.prev n ≡ some tail
    → unlink_node p n ≡ some (popped p n z tail)
unfolding unlink_node popped
unlink_node-first p n z tail f nz en ep =
    let e1 : update p.prev z (some tail) n ≡ some tail = update_ne p.prev z n (some tail) nz ∙ ep in
    rw (f, ==-refl n, en, ep, e1) refl

-- The walk to the node, which passes neither it nor the head of the list.
remove_loop-found :
    (fuel : ℕ) (p : Pool) (x n w : ℕ) (ys zs : List ℕ)
    → p.free_list ≡ some x
    → Open p.next p.prev w (ys ++ (n ∷ zs))
    → AllNe n (w ∷ ys)
    → AllNe x ys
    → n ≢ x
    → length ys + 1 < fuel
    → remove_loop fuel p n (some w) ≡ unlink_node p n
unfolding remove_loop
remove_loop-found zero p x n w ys zs f o out first nx h = absurd (omega arith)
remove_loop-found (suc zero) p x n w ys zs f o out first nx h = absurd (omega arith)
remove_loop-found (suc (suc fuel)) p x n w [] zs f o out first nx h =
    let go : ptr_eq (some n) p.free_list ≡ false = ap (ptr_eq (some n)) f ∙ ne→==-false n x nx in
    rw (ne→==-false n w (λ e. out.0 (sym e)), o.0, go, ==-refl n) refl
remove_loop-found (suc (suc fuel)) p x n w (y ∷ ys) zs f o out first nx h =
    let rest = remove_loop-found (suc fuel) p x n y ys zs f o.2 out.1 first.1 nx (omega arith) in
    let go : ptr_eq (some y) p.free_list ≡ false =
      ap (ptr_eq (some y)) f ∙ ne→==-false y x first.0 in
    rw (ne→==-false n w (λ e. out.0 (sym e)), o.0, go) rest

pub AllNe-left : (k : ℕ) (ys zs : List ℕ) → AllNe k (ys ++ zs) → AllNe k ys
AllNe-left k [] zs h = tt
AllNe-left k (y ∷ ys) zs h = (h.0, AllNe-left k ys zs h.1)

pub AllNe-at : (k n : ℕ) (ys zs : List ℕ) → AllNe k (ys ++ (n ∷ zs)) → n ≢ k
AllNe-at k n [] zs h = h.0
AllNe-at k n (y ∷ ys) zs h = AllNe-at k n ys zs h.1

-- None in front of a node of a list without repetition is that node.
Distinct-before : (n : ℕ) (ys zs : List ℕ) → Distinct (ys ++ (n ∷ zs)) → AllNe n ys
Distinct-before n [] zs d = tt
Distinct-before n (y ∷ ys) zs d =
    ((λ e. AllNe-at y n ys zs d.0 (sym e)), Distinct-before n ys zs d.1)

-- What is left of the ring, from the node behind the one taken out.
record IsUnlinked (p : Pool) (x n z : ℕ) (r : List ℕ) (q : Pool) : Type 0 where
  result : unlink_node p n ≡ some q
  head : q.free_list ≡ some x
  ring : Cycle q.next q.prev z r
  distinct : Distinct (z ∷ r)
  same : SameQueues p q

unlinked-IsUnlinked :
    (p : Pool) (x n z : ℕ) (r : List ℕ)
    → p.free_list ≡ some x
    → x ≢ n
    → Cycle p.next p.prev n (z ∷ r)
    → Distinct (n ∷ z ∷ r)
    → IsUnlinked p x n z r (unlinked p (some x) n z (last z r))
unfolding unlinked popped
unlinked-IsUnlinked p x n z r f xn c d =
    let taken = popped-IsRing p n z r c d in
    record {
      result = unlink_node-some p x n z (last z r) f xn (λ e. d.0.0 (sym e)) c.0.0 c.2;
      head = refl;
      ring = taken.1;
      distinct = taken.2;
      same = record { hash_next = refl; hash_prev = refl; hash_q = refl; inode = refl };
    }

-- The pool with its only free node taken.
abbrev emptied : Pool → ℕ → Pool
emptied p n = record p {
  free_list = none;
  next = update p.next n none;
  prev = update p.prev n none;
}

free_list_remove-alone :
    (p : Pool) (n : ℕ)
    → p.free_list ≡ some n
    → p.next n ≡ some n
    → free_list_remove p n ≡ some (emptied p n)
unfolding free_list_remove
free_list_remove-alone p n f e =
    ap
      (λ (b : Bool).
        if b && ptr_eq (p.next n) p.free_list
        then some (emptied p n)
        else remove_loop inode_buffer_size p n p.free_list)
      (ap (λ o. ptr_eq o (some n)) f ∙ ==-refl n)
    ∙ ap
        (λ (b : Bool).
          if b then some (emptied p n) else remove_loop inode_buffer_size p n p.free_list)
        ((λ i. ptr_eq (e i) (f i)) ∙ ==-refl n)

free_list_remove-further :
    (p : Pool) (x n : ℕ) (ys zs : List ℕ)
    → IsRing p (x ∷ (ys ++ (n ∷ zs)))
    → length ys + 1 < inode_buffer_size
    → free_list_remove p n ≡ unlink_node p n
unfolding free_list_remove
free_list_remove-further p x n ys zs f h =
    let nx : n ≢ x = AllNe-at x n ys zs f.2.0 in
    let xn : x ≢ n = λ e. nx (sym e) in
    let other : ptr_eq p.free_list (some n) ≡ false =
      ap (λ o. ptr_eq o (some n)) f.0 ∙ ne→==-false x n xn in
    ap
      (λ (b : Bool).
        if b && ptr_eq (p.next n) p.free_list
        then some (emptied p n)
        else remove_loop inode_buffer_size p n p.free_list)
      other
    ∙ ap (remove_loop inode_buffer_size p n) f.0
    ∙ remove_loop-found inode_buffer_size p x n x ys zs f.0 f.1.0
        (xn, Distinct-before n ys zs f.2.1) (AllNe-left x ys (n ∷ zs) f.2.0) nx h

free_list_remove-first :
    (p : Pool) (n z : ℕ) (r : List ℕ)
    → IsRing p (n ∷ z ∷ r)
    → free_list_remove p n ≡ some (popped p n z (last z r))
unfolding free_list_remove remove_loop
free_list_remove-first p n z r f =
    let zn : z ≢ n = f.2.0.0 in
    let behind : ptr_eq (p.next n) p.free_list ≡ false =
      (λ i. ptr_eq (f.1.0.0 i) (f.0 i)) ∙ ne→==-false z n zn in
    let at_head : ptr_eq p.free_list (some n) ≡ true =
      ap (λ o. ptr_eq o (some n)) f.0 ∙ ==-refl n in
    rw (at_head, behind)
      (ap (remove_loop inode_buffer_size p n) f.0
        ∙ rw (==-refl n) (unlink_node-first p n z (last z r) f.0 (λ e. zn (sym e)) f.1.0.0 f.1.2))

-- `freeListRemove` of a node on a list of at most 32 meets no NULL and takes the node out, wherever
-- it stands; the others keep their order, and the hash queues and the inodes stay as they are.
pub free_list_remove-append :
    (p : Pool) (n : ℕ) (ys zs : List ℕ)
    → IsRing p (ys ++ (n ∷ zs))
    → length (ys ++ (n ∷ zs)) ≤ inode_buffer_size
    → (q : Pool) × (free_list_remove p n ≡ some q) × IsRing q (ys ++ zs) × SameQueues p q
free_list_remove-append p n [] [] f h = (
  emptied p n,
  free_list_remove-alone p n f.0 f.1.1,
  refl,
  record { hash_next = refl; hash_prev = refl; hash_q = refl; inode = refl },
)
free_list_remove-append p n [] (z ∷ r) f h = (
  popped p n z (last z r),
  free_list_remove-first p n z r f,
  popped-IsRing p n z r f.1 f.2,
  popped_same p n z (last z r),
)
free_list_remove-append p n (x ∷ ys) [] f h =
    let u =
      unlinked-IsUnlinked p x n x ys f.0 (λ e. AllNe-at x n ys [] f.2.0 (sym e))
        (Cycle-rotate p.next p.prev x n ys [] f.1) (Distinct-rotate x n ys [] f.2) in
    (
      unlinked p (some x) n x (last x ys),
      free_list_remove-further p x n ys [] f (omega (arith, h, length-append ys (n ∷ [])))
          ∙ u.result,
      subst (λ l. IsRing (unlinked p (some x) n x (last x ys)) (x ∷ l)) (sym (append-nil ys))
          (u.head, u.ring, u.distinct),
      u.same,
    )
free_list_remove-append p n (x ∷ ys) (z ∷ zs) f h =
    let r = zs ++ (x ∷ ys) in
    let u =
      unlinked-IsUnlinked p x n z r f.0 (λ e. AllNe-at x n ys (z ∷ zs) f.2.0 (sym e))
        (Cycle-rotate p.next p.prev x n ys (z ∷ zs) f.1) (Distinct-rotate x n ys (z ∷ zs) f.2) in
    let q = unlinked p (some x) n z (last z r) in
    (
      q,
      free_list_remove-further p x n ys (z ∷ zs) f (omega (arith, h, length-append ys (n ∷ z ∷ zs)))
          ∙ u.result,
      (u.head, Cycle-rotate q.next q.prev z x zs ys u.ring, Distinct-rotate z x zs ys u.distinct),
      u.same,
    )
