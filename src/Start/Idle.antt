-- ===== src/Start/Idle.antt =====
-- The buffers at the start: all are free, and none has a reference.
use mathlib.Core.Path.{subst}
use native.Mathlib.Decide.{ℕ_discrete}
use naofs.Prelude.{ℕ, zero, suc, ◌+◌, ◌<◌, ◌≤◌, ◌≡◌, ◌⊎◌, inl, inr, ap, List, [], ◌∷◌, ◌++◌, arith}
use naofs.Params.{inode_buffer_size}
use naofs.Inode.{InCoreINode}
use naofs.Pool.{zero_in_core}
use naofs.Pool.Ring.{IsRing}
use naofs.Pool.Init.{grow, all_nodes}
use naofs.Cache.{Fs}
use naofs.Cache.Idle.{Among, Among-last, Among-first, Among-end, IsIdle}

grow-Among :
    (left n m : ℕ) (xs : List ℕ)
    → (Among m xs ⊎ ((n ≤ m) × (m < left + n)))
    → Among m (grow left n xs)
grow-Among zero n m xs (inl a) = a
grow-Among zero n m xs (inr h) = absurd (omega (arith, h.0, h.1))
grow-Among (suc left) n m xs (inl a) =
    grow-Among left (n + 1) m (xs ++ (n ∷ [])) (inl (Among-first n m xs a))
grow-Among (suc left) n m xs (inr h) = elim (ℕ_discrete n m) [
  | yes e ↦
      grow-Among left (n + 1) m (xs ++ (n ∷ []))
        (inl (subst (λ j. Among j (xs ++ (n ∷ []))) e (Among-end n xs)))
  | no ne ↦
      grow-Among left (n + 1) m (xs ++ (n ∷ [])) (inr (omega (arith, h.0, ne), omega (arith, h.1)))
]

grow-small :
    (left n m : ℕ) (xs : List ℕ)
    → ((j : ℕ) → Among j xs → j < n)
    → Among m (grow left n xs)
    → m < left + n
grow-small zero n m xs h a = omega (arith, h m a)
grow-small (suc left) n m xs h a = omega (
  arith,
  grow-small left (n + 1) m (xs ++ (n ∷ []))
      (λ j b. elim (Among-last n j xs b) [
        | inl c ↦ omega (arith, h j c)
        | inr e ↦ omega (arith, e)
      ])
      a,
)

-- Behind the initialisation of the buffers the free list is the buffers without a reference.
pub all_nodes-IsIdle :
    (s : Fs)
    → IsRing s.pool all_nodes
    → ((m : ℕ) → m < inode_buffer_size → s.pool.inode m ≡ zero_in_core)
    → IsIdle s all_nodes
all_nodes-IsIdle s ring clear =
    let small : (m : ℕ) → Among m all_nodes → m < inode_buffer_size =
      λ m a. omega (arith, grow-small inode_buffer_size 0 m [] (λ j b. elim b [ ]) a) in
    record {
      ring = ring;
      small = small;
      idle = λ m a. ap (λ (i : InCoreINode). i.reference_count) (clear m (small m a));
      busy = λ m lt z. grow-Among inode_buffer_size 0 m [] (inr (omega arith, omega (arith, lt)));
    }
