-- ===== src/Pool/Hash.antt =====
-- The functions of hashQ.c: what a queue stands for, lookup in it and insertion, and the hash.
use mathlib.Core.Path.{subst}
use naofs.Prelude.{
  ℕ, zero, suc, ◌≤◌, ◌<◌, ◌≡◌, refl, sym, ap, ◌∙◌, ◌≢◌, Bool, true, false, none, some, List, [],
  ◌∷◌, ◌==◌, if◌then◌else◌, ◌&&◌, length, arith, ==→eq,
}
use naofs.Params.{inode_buffer_size}
use naofs.Pool.{Ptr, Pool, update, update_if, get_hash, insert_at_hash, hash_lookup, lookup_loop}
use naofs.Blocks.Chain.{AllNe, Distinct}
use naofs.Pool.Ring.{update_self, update_ne}

-- From `q`, which `back` stands before, the members `hash_next` lead through the nodes and end in
-- NULL, and the members `hash_prev` lead back.
abbrev pub Follows : (ℕ → Ptr) → (ℕ → Ptr) → Ptr → Ptr → List ℕ → Type 0
Follows next prev back q [] = q ≡ none
Follows next prev back q (x ∷ r) =
    (q ≡ some x) × (prev x ≡ back) × Follows next prev (some x) (next x) r

-- Queue `i` of the pool holds the nodes `xs`, and no node twice.
abbrev pub IsQueue : Pool → ℕ → List ℕ → Type 0
IsQueue p i xs = Follows p.hash_next p.hash_prev none (p.hash_q i) xs × Distinct xs

-- The first of the nodes whose inode has the number.
abbrev pub find_inode : Pool → ℕ → List ℕ → Ptr
find_inode p n [] = none
find_inode p n (x ∷ r) =
    let rest = find_inode p n r in if (p.inode x).inode_number == n then some x else rest

some-if : (b : Bool) (x y : Ptr) → (if b then some x else some y) ≡ some (if b then x else y)
some-if true x y = refl
some-if false x y = refl

lookup_loop-find :
    (fuel : ℕ) (p : Pool) (n : ℕ) (back q : Ptr) (xs : List ℕ)
    → Follows p.hash_next p.hash_prev back q xs
    → length xs ≤ fuel
    → lookup_loop fuel p n q ≡ some (find_inode p n xs)
unfolding lookup_loop
lookup_loop-find zero p n back q [] f h = ap (lookup_loop zero p n) f
lookup_loop-find (suc fuel) p n back q [] f h = ap (lookup_loop (suc fuel) p n) f
lookup_loop-find zero p n back q (x ∷ r) f h = absurd (omega arith)
lookup_loop-find (suc fuel) p n back q (x ∷ r) f h =
    ap (lookup_loop (suc fuel) p n) f.0
    ∙ ap (λ t. if (p.inode x).inode_number == n then some (some x) else t)
        (lookup_loop-find fuel p n (some x) (p.hash_next x) r f.2 (omega arith))
    ∙ some-if ((p.inode x).inode_number == n) (some x) (find_inode p n r)

-- `hashLookup` in a queue of at most 32 nodes returns the first node that holds the inode's
-- number, NULL if none does.
pub hash_lookup-find :
    (p : Pool) (n device : ℕ) (xs : List ℕ)
    → IsQueue p (get_hash p.wide_shift n device) xs
    → length xs ≤ inode_buffer_size
    → hash_lookup p n device ≡ some (find_inode p n xs)
unfolding hash_lookup
hash_lookup-find p n device xs f h =
    lookup_loop-find inode_buffer_size p n none (p.hash_q (get_hash p.wide_shift n device)) xs f.0 h

-- A path that passes neither `n` nor `h` survives changes at them.
Follows-frame :
    (next prev next' prev' : ℕ → Ptr) (back q : Ptr) (xs : List ℕ) (n h : ℕ)
    → ((a : ℕ) → a ≢ n → next' a ≡ next a)
    → ((a : ℕ) → a ≢ n → a ≢ h → prev' a ≡ prev a)
    → AllNe n xs
    → AllNe h xs
    → Follows next prev back q xs
    → Follows next' prev' back q xs
Follows-frame next prev next' prev' back q [] n h hn hp out1 out2 f = f
Follows-frame next prev next' prev' back q (x ∷ r) n h hn hp out1 out2 f =
    let rest =
      Follows-frame next prev next' prev' (some x) (next x) r n h hn hp out1.1 out2.1 f.2 in
    (f.0, hp x out1.0 out2.0 ∙ f.1, rw (hn x out1.0) rest)

-- The pool after an insertion in front of `head`.
abbrev filled : Pool → ℕ → ℕ → Ptr → Pool
filled p node i head = record p {
  hash_next = update p.hash_next node head;
  hash_prev = update (update_if p.hash_prev head (some node)) node none;
  hash_q = update p.hash_q i (some node);
}

insert_at_hash-filled :
    (p : Pool) (node i : ℕ) (head : Ptr)
    → p.hash_q i ≡ head
    → insert_at_hash p node i ≡ filled p node i head
unfolding insert_at_hash
insert_at_hash-filled p node i head e = ap (filled p node i) e

filled-IsQueue :
    (p : Pool) (node i : ℕ) (xs : List ℕ)
    → IsQueue p i xs
    → AllNe node xs
    → IsQueue (insert_at_hash p node i) i (node ∷ xs)
filled-IsQueue p node i [] f out =
    subst (λ (q : Pool). IsQueue q i (node ∷ [])) (sym (insert_at_hash-filled p node i none f.0))
      (
        (
          update_self p.hash_q i (some node),
          update_self p.hash_prev node none,
          update_self p.hash_next node none,
        ),
        (tt, tt),
      )
filled-IsQueue p node i (x ∷ r) f out =
    let prev1 = update p.hash_prev x (some node) in
    let next' = update p.hash_next node (some x) in
    let prev' = update prev1 node none in
    let rest =
      Follows-frame p.hash_next p.hash_prev next' prev' (some x) (p.hash_next x) r node x
        (λ a an. update_ne p.hash_next node a (some x) an)
        (λ a an ax. update_ne prev1 node a none an ∙ update_ne p.hash_prev x a (some node) ax) out.1
        f.1.0 f.0.2 in
    subst (λ (q : Pool). IsQueue q i (node ∷ x ∷ r))
      (sym (insert_at_hash-filled p node i (some x) f.0.0))
      (
        (
          update_self p.hash_q i (some node),
          update_self prev1 node none,
          (
            update_self p.hash_next node (some x),
            update_ne prev1 node x none out.0 ∙ update_self p.hash_prev x (some node),
            rw (update_ne p.hash_next node x (some x) out.0) rest,
          ),
        ),
        (out, f.1),
      )

-- `insertInHash` puts a node that is not in the queue at its head, keeps the queue well linked, and
-- leaves the heads of the other queues, the free list and the inodes as they are.
pub insert_at_hash-cons :
    (p : Pool) (node i : ℕ) (xs : List ℕ)
    → IsQueue p i xs
    → AllNe node xs
    → let p' = insert_at_hash p node i in
      IsQueue p' i (node ∷ xs)
      × ((j : ℕ) → j ≢ i → p'.hash_q j ≡ p.hash_q j)
      × (p'.next ≡ p.next)
      × (p'.prev ≡ p.prev)
      × (p'.free_list ≡ p.free_list)
      × (p'.inode ≡ p.inode)
insert_at_hash-cons p node i xs f out = (
  filled-IsQueue p node i xs f out,
  λ j ne.
      ap (λ (q : Pool). q.hash_q j) (insert_at_hash-filled p node i (p.hash_q i) refl)
      ∙ update_ne p.hash_q i j (some node) ne,
  ap (λ (q : Pool). q.next) (insert_at_hash-filled p node i (p.hash_q i) refl),
  ap (λ (q : Pool). q.prev) (insert_at_hash-filled p node i (p.hash_q i) refl),
  ap (λ (q : Pool). q.free_list) (insert_at_hash-filled p node i (p.hash_q i) refl),
  ap (λ (q : Pool). q.inode) (insert_at_hash-filled p node i (p.hash_q i) refl),
)

all_below : ℕ → (ℕ → Bool) → Bool
all_below zero t = true
all_below (suc n) t = t n && all_below n t

all_below_sound : (n : ℕ) (t : ℕ → Bool) (x : ℕ) → all_below n t ≡ true → x < n → t x ≡ true
unfolding all_below
all_below_sound zero t x h lt = absurd (omega arith)
all_below_sound (suc n) t x h lt = ground (arith, all_below_sound n t x)

hash_table : (wide : ℕ → ℕ → ℕ) → all_below 17 (λ n. get_hash wide n 0 == 0) ≡ true
unfolding all_below get_hash
hash_table wide = refl

-- The inodes 0 to 16 of the device 0 all have the hash 0, on every machine: the two shifts together
-- are by 22 bits, and the queues are 8.
pub get_hash_lem : (wide : ℕ → ℕ → ℕ) (n : ℕ) → n < 17 → get_hash wide n 0 ≡ 0
get_hash_lem wide n h =
    ==→eq (get_hash wide n 0) 0
      (all_below_sound 17 (λ n. get_hash wide n 0 == 0) n (hash_table wide) h)
