-- ===== src/Pool.antt =====
-- src/incoreInodeOps/freeList.c, hashQ.c and include/incoreInodeOps/node.h: the 32 buffers for
-- inodes in memory, on a circular free list and on hash queues. A pointer to a node is its number,
-- `none` is NULL; the members of `struct Node` are functions of the node, and an assignment to a
-- member updates one of them. A result of `none` is no result: a member of NULL, or a walk along a
-- list of the 32 nodes that has not ended after 32 steps, as on a list that runs in a circle it
-- should not.
pub mod Ring
pub mod FreeList
pub mod Hash
pub mod Frame
pub mod Init
pub mod Remove
pub mod Unqueue
use naofs.Prelude.{
  ℕ, zero, suc, ◌+◌, ◌-◌, ◌*◌, ◌%◌, ◌^◌, Bool, true, false, Option, none, some, ltb, ◌==◌,
  if◌then◌else◌, ◌&&◌,
}
use naofs.Params.{inode_hash_size, inode_buffer_size}
use naofs.Inode.{InCoreINode, zero_inode, insert_disk_inode_data}

abbrev pub Ptr : Type 0
Ptr = Option ℕ

-- `==` on pointers.
abbrev pub ptr_eq : Ptr → Ptr → Bool
ptr_eq none none = true
ptr_eq none (some b) = false
ptr_eq (some a) none = false
ptr_eq (some a) (some b) = a == b

unfoldable pub update {ℓ} : {A : Type ℓ} → (ℕ → A) → ℕ → A → ℕ → A
update f p v q = if q == p then v else f q

-- What a NULL pointer has no member of.
abbrev pub deref {ℓ} : {A : Type ℓ} → Ptr → (ℕ → Option A) → Option A
deref none k = none
deref (some p) k = k p

-- The static variables `freeList` and `hashQ`, and the nodes. `wide_shift` is what the machine makes
-- of a shift by 64 bits or more, which C leaves open.
pub record Pool : Type 0 where
  pub next : ℕ → Ptr
  pub prev : ℕ → Ptr
  pub hash_next : ℕ → Ptr
  pub hash_prev : ℕ → Ptr
  pub inode : ℕ → InCoreINode
  pub free_list : Ptr
  pub hash_q : ℕ → Ptr
  pub wide_shift : ℕ → ℕ → ℕ

-- The node behind the last: `node->next = freeList; node->prev = freeList->prev`.
unfoldable pub link_before : Pool → ℕ → ℕ → Pool
link_before p node head = record p {
  next = update p.next node (some head);
  prev = update p.prev node (p.prev head);
}

-- `freeListInsert` for a value of `freeList`.
unfoldable pub insert_at : Pool → ℕ → Ptr → Option Pool
insert_at p node none = some (record p {
  free_list = some node;
  next = update p.next node (some node);
  prev = update p.prev node (some node);
})
insert_at p node (some head) =
    let q = link_before p node head in
    deref (q.prev head) (λ tail.
      some
        (record q { next = update q.next tail (some node); prev = update q.prev head (some node) }))

unfoldable pub free_list_insert : Pool → ℕ → Option Pool
unfolding insert_at
free_list_insert p node = insert_at p node p.free_list

-- `popFreeList` for a value of `freeList`: the node, NULL for an empty list.
unfoldable pub pop_at : Pool → Ptr → Option (Ptr × Pool)
pop_at p none = some (none, p)
pop_at p (some head) =
    if ptr_eq (p.next head) (some head)
    then some (some head, record p { free_list = none })
    else deref (p.prev head) (λ tail.
      let next1 = update p.next tail (p.next head) in
      deref (next1 head) (λ second.
        let prev1 = update p.prev second (p.prev head) in
        some (
          some head,
          record p {
            free_list = next1 head;
            next = update next1 head none;
            prev = update prev1 head none;
          },
        )))

unfoldable pub pop_free_list : Pool → Option (Ptr × Pool)
unfolding pop_at
pop_free_list p = pop_at p p.free_list

-- The unlinking of `freeListRemove`, at the node itself.
unfoldable pub unlink_node : Pool → ℕ → Option Pool
unlink_node p node =
    let list = if ptr_eq p.free_list (some node) then p.next node else p.free_list in
    deref (p.next node) (λ after.
      let prev1 = update p.prev after (p.prev node) in
      deref (prev1 node) (λ before.
        let next1 = update p.next before (p.next node) in
        some (record p {
          free_list = list;
          next = update next1 node none;
          prev = update prev1 node none;
        })))

-- The `while` of `freeListRemove`. A walk that goes on after `fuel` nodes has no result.
unfoldable pub remove_loop : ℕ → Pool → ℕ → Ptr → Option Pool
remove_loop fuel p node none = some p
remove_loop zero p node (some w) = none
remove_loop (suc fuel) p node (some w) =
    let rest = remove_loop fuel p node (p.next w) in
    if node == w then unlink_node p node else if ptr_eq (p.next w) p.free_list then some p else rest

unfoldable pub free_list_remove : Pool → ℕ → Option Pool
unfolding remove_loop unlink_node
free_list_remove p node =
    if ptr_eq p.free_list (some node) && ptr_eq (p.next node) p.free_list
    then some (record p {
      free_list = none;
      next = update p.next node none;
      prev = update p.prev node none;
    })
    else remove_loop inode_buffer_size p node p.free_list

-- `x << k` on 64 bits.
unfoldable pub shift_left : (ℕ → ℕ → ℕ) → ℕ → ℕ → ℕ
shift_left wide x k = if ltb k 64 then x * 2 ^ k % 2 ^ 64 else wide x k

-- `getHash`: `+` and `-` bind tighter than `<<`, so this is
-- `((deviceNumber + iNodeNumber) << (6 + iNodeNumber)) << (16 - iNodeNumber)`.
unfoldable pub get_hash : (ℕ → ℕ → ℕ) → ℕ → ℕ → ℕ
unfolding shift_left
get_hash wide n device =
    let sum = (device + n) % 2 ^ 64 in
    shift_left wide (shift_left wide sum ((6 + n) % 2 ^ 64)) ((16 + 2 ^ 64 - n) % 2 ^ 64)
    % inode_hash_size

-- `if (q != NULL) q->member = v`
abbrev pub update_if {ℓ} : {A : Type ℓ} → (ℕ → A) → Ptr → A → ℕ → A
update_if f none v = f
update_if f (some p) v = update f p v

-- `removeFromHashQ`, with the hash of the node's inode as `index`.
unfoldable pub remove_from : Pool → ℕ → ℕ → Pool
remove_from p node index =
    let q =
      if ptr_eq (p.hash_q index) (some node)
      then update p.hash_q index (p.hash_next node)
      else p.hash_q in
    let prev1 = update_if p.hash_prev (p.hash_next node) (p.hash_prev node) in
    let next1 = update_if p.hash_next (prev1 node) (p.hash_next node) in
    record p { hash_q = q; hash_next = update next1 node none; hash_prev = update prev1 node none }

unfoldable pub remove_from_hash_q : Pool → ℕ → Pool
unfolding remove_from
remove_from_hash_q p node =
    let c = p.inode node in
    remove_from p node (get_hash p.wide_shift c.inode_number c.device_number)

-- `insertInHash`, with the hash as `index`.
unfoldable pub insert_at_hash : Pool → ℕ → ℕ → Pool
insert_at_hash p node index =
    let head = p.hash_q index in
    record p {
      hash_next = update p.hash_next node head;
      hash_prev = update (update_if p.hash_prev head (some node)) node none;
      hash_q = update p.hash_q index (some node);
    }

unfoldable pub update_in_hash_q : Pool → ℕ → ℕ → ℕ → Pool
unfolding remove_from_hash_q insert_at_hash
update_in_hash_q p node n device =
    let p' = remove_from_hash_q p node in insert_at_hash p' node (get_hash p'.wide_shift n device)

-- The `while` of `hashLookup`. A walk that goes on after `fuel` nodes has no result.
unfoldable pub lookup_loop : ℕ → Pool → ℕ → Ptr → Option Ptr
lookup_loop fuel p n none = some none
lookup_loop zero p n (some node) = none
lookup_loop (suc fuel) p n (some node) =
    let rest = lookup_loop fuel p n (p.hash_next node) in
    if (p.inode node).inode_number == n then some (some node) else rest

unfoldable pub hash_lookup : Pool → ℕ → ℕ → Option Ptr
unfolding lookup_loop
hash_lookup p n device =
    lookup_loop inode_buffer_size p n (p.hash_q (get_hash p.wide_shift n device))

-- The `for` of `initFreeInCoreINodeList`: node number `n` is what `malloc` returns in round `n`.
abbrev pub zero_in_core : InCoreINode
zero_in_core = record {
  locked = false;
  reference_count = 0;
  device_number = 0;
  inode_number = 0;
  access = 0;
  modification = 0;
  status_change = 0;
  links_count = 0;
  type = 0;
  file_mode = 0;
  owner_uid = 0;
  group_uid = 0;
  data_block_nums = zero_inode.data_block_nums;
  inode_changed = false;
  file_data_changed = false;
  size = 0;
}

abbrev pub and_then {ℓ} : {A B : Type ℓ} → Option A → (A → Option B) → Option B
and_then none k = none
and_then (some a) k = k a

unfoldable pub init_loop : ℕ → ℕ → Pool → Option Pool
init_loop zero n p = some p
init_loop (suc left) n p =
    let fresh = record p {
      next = update p.next n none;
      prev = update p.prev n none;
      hash_next = update p.hash_next n none;
      hash_prev = update p.hash_prev n none;
      inode = update p.inode n zero_in_core;
    } in
    and_then (free_list_insert fresh n) (init_loop left (n + 1))

unfoldable pub init_free_in_core_inode_list : Pool → Option Pool
unfolding init_loop
init_free_in_core_inode_list p = init_loop inode_buffer_size 0 (record p { free_list = none })

-- `initHashQueues`. `counter` is never set before it is tested; `from` is what it happens to hold.
unfoldable pub clear_queues : ℕ → ℕ → (ℕ → Ptr) → ℕ → Ptr
clear_queues zero from q = q
clear_queues (suc left) from q = clear_queues left (from + 1) (update q from none)

unfoldable pub init_hash_queues : ℕ → Pool → Pool
unfolding clear_queues
init_hash_queues from p = record p { hash_q = clear_queues (inode_hash_size - from) from p.hash_q }
