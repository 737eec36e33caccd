-- ===== src/Params/Size.antt =====
-- The slot size that `initializeINodeParams` computes.
use native.Mathlib.Nat.{pow-suc}
use naofs.Prelude.{
  ℕ, zero, suc, ◌+◌, ◌*◌, ◌/◌, ◌^◌, ◌≤◌, ◌<◌, ◌≡◌, refl, arith, ◌⊎◌, inl, inr, ◌==◌, ==→eq,
  ==-false→ne, Bool-cases, ap, ◌∙◌,
}
use naofs.Params.{
  inode_size_loop, initialize_inode_params, sizeof_inode, inode_size, inodes_per_block,
  num_of_inode_blocks, num_of_blocks,
}

-- What the loop has multiplied the size by: the power of two just above `n`.
abbrev Factor : ℕ → ℕ → Type 0
Factor n m = (n < m) × ((m ≤ 2 * n) ⊎ ((n ≡ 0) × (m ≡ 1)))

loop-Factor :
    (fuel n size : ℕ)
    → n < fuel
    → (k : ℕ) × (inode_size_loop fuel n size ≡ size * 2 ^ k) × Factor n (2 ^ k)
unfolding inode_size_loop
loop-Factor zero n size h = absurd (omega arith)
loop-Factor (suc fuel) n size h = elim (Bool-cases (n == 0)) [
  | inl done ↦
      let e : n ≡ 0 = ==→eq n 0 done in (0, rw done (omega arith), (omega arith, inr (omega arith)))
  | inr more ↦
      let ne = ==-false→ne n 0 more in
      let (k, e, f) = loop-Factor fuel (n / 2) (size * 2) (omega arith) in
      let p : 2 ^ suc k ≡ 2 ^ k * 2 = pow-suc 2 k in
      (
        suc k,
        rw more (e ∙ (omega (arith, ap (λ (t : ℕ). size * t) p))),
        (omega arith, inl (omega arith)),
      )
]

-- For a non-empty struct, `INODE_SIZE` is the power of two that is larger than the struct and at
-- most twice as large, and the other globals are the quotients of it that the layout needs.
pub inode_size_lem :
    (s : ℕ)
    → 0 < s
    → (k : ℕ) × ((initialize_inode_params s).inode_size ≡ 2 ^ k)
      × (s < (initialize_inode_params s).inode_size)
      × ((initialize_inode_params s).inode_size ≤ 2 * s)
unfolding initialize_inode_params
inode_size_lem s h =
    let (k, e, f) = loop-Factor (s + 1) s 1 (omega arith) in
    (k, e ∙ (omega arith), omega arith, omega arith)

-- The constants with which the model runs are the globals for the program's struct.
pub params_lem : initialize_inode_params sizeof_inode ≡ record {
  inode_size = inode_size;
  inodes_per_block = inodes_per_block;
  num_of_inode_blocks = num_of_inode_blocks;
  num_of_blocks = num_of_blocks;
}
unfolding initialize_inode_params
params_lem = refl
