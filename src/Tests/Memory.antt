-- ===== src/Tests/Memory.antt =====
-- A pool of two free nodes.
use mathlib.Core.Path.{subst}
use naofs.Prelude.{sym, ℕ, ◌≡◌, ◌≢◌, refl, false, none, some, [], ◌∷◌, ◌==◌, if◌then◌else◌, arith}
use naofs.Pool.{
  Ptr, Pool, free_list_insert, pop_free_list, hash_lookup, insert_at_hash, zero_in_core,
}
use naofs.Pool.Ring.{IsRing}
use naofs.Pool.Remove.{free_list_remove-append}
use naofs.Pool.Unqueue.{remove_from-append}
use naofs.Pool.{free_list_remove, remove_from}
use naofs.Pool.FreeList.{SameQueues, free_list_insert-append, pop_free_list_lem}
use naofs.Pool.Hash.{IsQueue, find_inode, hash_lookup-find, insert_at_hash-cons, get_hash_lem}
use naofs.Files.{FileTable}

-- The nodes 0 and 1 are on the free list and node 2 is in hash queue 0.
abbrev two_nodes : Pool
two_nodes = record {
  next = λ n. if n == 0 then some 1 else some 0;
  prev = λ n. if n == 0 then some 1 else some 0;
  hash_next = λ n. none;
  hash_prev = λ n. none;
  inode = λ n. zero_in_core;
  free_list = some 0;
  hash_q = λ i. if i == 0 then some 2 else none;
  wide_shift = λ x k. 0;
}

two_nodes-IsRing : IsRing two_nodes (0 ∷ 1 ∷ [])
two_nodes-IsRing = (refl, ((refl, refl, tt), refl, refl), ((λ e. omega arith, tt), (tt, tt)))

two_nodes-IsQueue : IsQueue two_nodes 0 (2 ∷ [])
two_nodes-IsQueue = ((refl, refl, refl), (tt, tt))

insert_example :
    (q : Pool) × (free_list_insert two_nodes 5 ≡ some q)
    × IsRing q (0 ∷ 1 ∷ 5 ∷ [])
    × SameQueues two_nodes q
insert_example =
    free_list_insert-append two_nodes (0 ∷ 1 ∷ []) 5 two_nodes-IsRing
      (λ e. omega arith, (λ e. omega arith, tt))

pop_example :
    (node : Ptr) × (q : Pool) × (pop_free_list two_nodes ≡ some (node, q))
    × ((node ≡ some 0) × IsRing q (1 ∷ []) × SameQueues two_nodes q)
pop_example = pop_free_list_lem two_nodes (0 ∷ 1 ∷ []) two_nodes-IsRing

lookup_example : hash_lookup two_nodes 3 0 ≡ some (find_inode two_nodes 3 (2 ∷ []))
lookup_example =
    hash_lookup-find two_nodes 3 0 (2 ∷ [])
      (subst (λ (i : ℕ). IsQueue two_nodes i (2 ∷ []))
        (sym (get_hash_lem two_nodes.wide_shift 3 (omega arith))) two_nodes-IsQueue)
      (omega arith)

insert_at_hash_example :
    let p' = insert_at_hash two_nodes 1 0 in
    IsQueue p' 0 (1 ∷ 2 ∷ [])
    × ((j : ℕ) → j ≢ 0 → p'.hash_q j ≡ two_nodes.hash_q j)
    × (p'.next ≡ two_nodes.next)
    × (p'.prev ≡ two_nodes.prev)
    × (p'.free_list ≡ two_nodes.free_list)
    × (p'.inode ≡ two_nodes.inode)
insert_at_hash_example =
    insert_at_hash-cons two_nodes 1 0 (2 ∷ []) two_nodes-IsQueue (λ e. omega arith, tt)

abbrev no_files : FileTable
no_files i = record { inode = 0; pid = 0; flags = 0; offset = 0; valid_entry = false }

free_list_remove-append_example :
    (q : Pool) × (free_list_remove two_nodes 1 ≡ some q)
    × IsRing q (0 ∷ [])
    × SameQueues two_nodes q
free_list_remove-append_example =
    free_list_remove-append two_nodes 1 (0 ∷ []) [] two_nodes-IsRing (omega arith)

insert_at_hash-IsQueue : IsQueue (insert_at_hash two_nodes 1 0) 0 (1 ∷ 2 ∷ [])
insert_at_hash-IsQueue =
    (insert_at_hash-cons two_nodes 1 0 (2 ∷ []) two_nodes-IsQueue (λ e. omega arith, tt)).0

remove_from-append_example :
    let p = insert_at_hash two_nodes 1 0 in
    let p' = remove_from p 2 0 in
    IsQueue p' 0 (1 ∷ [])
    × ((j : ℕ) → j ≢ 0 → p'.hash_q j ≡ p.hash_q j)
    × (p'.next ≡ p.next)
    × (p'.prev ≡ p.prev)
    × (p'.free_list ≡ p.free_list)
    × (p'.inode ≡ p.inode)
remove_from-append_example =
    remove_from-append (insert_at_hash two_nodes 1 0) 2 0 (1 ∷ []) [] insert_at_hash-IsQueue
