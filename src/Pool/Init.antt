-- ===== src/Pool/Init.antt =====
-- The buffers behind `initFreeInCoreINodeList`.
use naofs.Prelude.{
  ℕ, zero, suc, ◌+◌, ◌<◌, ◌≤◌, ◌≡◌, refl, ap, ◌∙◌, none, some, List, [], ◌∷◌, ◌++◌, arith,
}
use native.Mathlib.Decide.{ℕ_discrete}
use naofs.Params.{inode_buffer_size}
use naofs.Pool.{Pool, update, and_then, zero_in_core, init_loop, init_free_in_core_inode_list}
use naofs.Blocks.Chain.{AllNe}
use naofs.Pool.Ring.{IsRing, Open-frame, last, last-ne, update_self, update_ne}
use naofs.Pool.FreeList.{free_list_insert-append}

-- The nodes `n` up to `n + left - 1` behind others.
abbrev pub grow : (left n : ℕ) → List ℕ → List ℕ
grow zero n xs = xs
grow (suc left) n xs = grow left (n + 1) (xs ++ (n ∷ []))

-- The nodes 0 to 31, in order.
abbrev pub all_nodes : List ℕ
all_nodes = grow inode_buffer_size 0 []

abbrev AllBelow : ℕ → List ℕ → Type 0
AllBelow n [] = Unit {0}
AllBelow n (x ∷ xs) = (x < n) × AllBelow n xs

below-AllNe : (n : ℕ) (xs : List ℕ) → AllBelow n xs → AllNe n xs
below-AllNe n [] h = tt
below-AllNe n (x ∷ xs) h = (λ e. omega (arith, h.0), below-AllNe n xs h.1)

AllBelow-append : (n : ℕ) (xs : List ℕ) → AllBelow n xs → AllBelow (n + 1) (xs ++ (n ∷ []))
AllBelow-append n [] h = (omega arith, tt)
AllBelow-append n (x ∷ xs) h = (omega (arith, h.0), AllBelow-append n xs h.1)

-- The pool with a node that `malloc` has returned, its members cleared.
cleared : Pool → ℕ → Pool
cleared p n = record p {
  next = update p.next n none;
  prev = update p.prev n none;
  hash_next = update p.hash_next n none;
  hash_prev = update p.hash_prev n none;
  inode = update p.inode n zero_in_core;
}

cleared-IsRing :
    (p : Pool) (n : ℕ) (xs : List ℕ) → AllNe n xs → IsRing p xs → IsRing (cleared p n) xs
unfolding cleared
cleared-IsRing p n [] out f = f
cleared-IsRing p n (x ∷ r) out f =
    let next' = update p.next n none in
    let prev' = update p.prev n none in
    let l = last x r in
    (
      f.0,
      (
        Open-frame p.next p.prev next' prev' x r l n n refl
            (λ a al an. update_ne p.next n a none an) (λ a an ah. update_ne p.prev n a none an) out
            out.1 f.2 f.1.0,
        update_ne p.next n l none (last-ne n x r out) ∙ f.1.1,
        update_ne p.prev n x none out.0 ∙ f.1.2,
      ),
      f.2,
    )

-- What the loop is to leave, from a pool whose nodes below `n` are ready.
abbrev Ready : Pool → (left n : ℕ) → List ℕ → Pool → Type 0
Ready p left n xs q =
    IsRing q (grow left n xs)
    × ((m : ℕ) → n ≤ m → m < left + n → q.inode m ≡ zero_in_core)
    × ((m : ℕ) → m < n → q.inode m ≡ p.inode m)
    × ((m : ℕ) → left + n ≤ m → q.inode m ≡ p.inode m)

init_loop_lem :
    (left n : ℕ) (p : Pool) (xs : List ℕ)
    → IsRing p xs
    → AllBelow n xs
    → (q : Pool) × (init_loop left n p ≡ some q) × Ready p left n xs q
unfolding init_loop cleared
init_loop_lem zero n p xs f below =
    (p, refl, (f, λ m a b. absurd (omega arith), λ m a. refl, λ m a. refl))
init_loop_lem (suc left) n p xs f below =
    let out = below-AllNe n xs below in
    let p1 = cleared p n in
    let (p2, inserted, ring, same) =
      free_list_insert-append p1 xs n (cleared-IsRing p n xs out f) out in
    let (q, done, (whole, ready, low, high)) =
      init_loop_lem left (n + 1) p2 (xs ++ (n ∷ [])) ring (AllBelow-append n xs below) in
    let at : (m : ℕ) → p2.inode m ≡ p1.inode m = λ m. ap (λ f. f m) same.inode in
    (
      q,
      ap (λ o. and_then o (init_loop left (n + 1))) inserted ∙ done,
      (
        whole,
        λ m a b. elim (ℕ_discrete m n) [
          | yes e ↦
              low m (omega arith)
              ∙ at m
              ∙ ap (update p.inode n zero_in_core) e
              ∙ update_self p.inode n zero_in_core
          | no ne ↦ ready m (omega arith) (omega arith)
        ],
        λ m a. low m (omega arith) ∙ at m ∙ update_ne p.inode n m zero_in_core (λ e. omega arith),
        λ m a. high m (omega arith) ∙ at m ∙ update_ne p.inode n m zero_in_core (λ e. omega arith),
      ),
    )

-- `initFreeInCoreINodeList` meets no NULL, whatever the memory held: its 32 nodes are on the free
-- list, in order, each with an inode of zeros, and no other node's inode changes.
pub init_free_in_core_inode_list_lem :
    (p : Pool)
    → (q : Pool) × (init_free_in_core_inode_list p ≡ some q)
      × IsRing q all_nodes
      × ((m : ℕ) → m < inode_buffer_size → q.inode m ≡ zero_in_core)
      × ((m : ℕ) → inode_buffer_size ≤ m → q.inode m ≡ p.inode m)
unfolding init_free_in_core_inode_list
init_free_in_core_inode_list_lem p =
    let (q, done, (ring, ready, low, high)) =
      init_loop_lem inode_buffer_size 0 (record p { free_list = none }) [] refl tt in
    (q, done, ring, λ m h. ready m (omega arith) h, λ m h. high m h)
