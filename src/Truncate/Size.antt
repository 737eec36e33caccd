-- ===== src/Truncate/Size.antt =====
-- The size that `truncateINode` leaves, whatever the disk does.
use naofs.Prelude.{
  ℕ, zero, suc, ◌+◌, ◌-◌, ◌%◌, ◌^◌, ◌≤◌, ◌<◌, ◌≡◌, refl, sym, ap, ◌∙◌, min, true, ltb, lt→ltb,
  le→ltb-false, ltb→lt, ltb-false→le, Bool-cases, ◌⊎◌, inl, inr, ne→==-false, ◌==◌, if◌then◌else◌,
  arith,
}
use mathlib.Core.Path.{subst}
use native.Mathlib.Decide.{ℕ_discrete}
use naofs.Params.{block_size}
use naofs.Disk.{Disk}
use naofs.Inode.{InCoreINode}
use naofs.Tree.{tree_size, BmapResponse, bmap, read_mode, append_mode, create_bmap_response}
use naofs.Truncate.{
  response_or, increase_loop, increase_file_size_by, decrease_loop, decrease_file_size_by,
  truncate_inode, Answer, increase_round, decrease_round, decrease_last,
}
use naofs.Truncate.Answers.{
  Answered, answered, grown-size, shrunk-size, bmap-append_answer, bmap-read_answer,
}

-- What a round of growth comes to.
increase_round-size :
    (now : ℕ) (c : InCoreINode) (size written offset : ℕ) (r : BmapResponse) (q : Answer)
    → written < size
    → c.size + (size - written) < 2 ^ 64
    → Answered c offset q
    → let (bytes, r1, c1, d1) = increase_round now size written r q in
      (0 < bytes) × (bytes ≤ size - written) × (c1.size ≡ c.size + bytes)
unfolding increase_round response_or create_bmap_response
increase_round-size now c size written offset r q w lt (answered _ block c' d s e) =
    let bytes = min (block_size - offset % block_size) (size - written) in
    let grown = grown-size now c' bytes c'.links_count (omega arith) (omega arith) in
    subst
      (λ (a : Answer).
        let (n, r1, c1, d1) = increase_round now size written r a in
        (0 < n) × (n ≤ size - written) × (c1.size ≡ c.size + n))
      (sym e) (omega arith, omega arith, grown ∙ ap (λ k. k + bytes) s)

increase_loop-size :
    (fuel now : ℕ) (c : InCoreINode) (size written offset : ℕ) (r : BmapResponse) (d : Disk)
    → c.size ≡ offset
    → size ≤ written + fuel
    → written ≤ size
    → c.size + (size - written) < 2 ^ 64
    → (increase_loop fuel now c size written offset r d).0.size ≡ c.size + (size - written)
unfolding increase_loop
increase_loop-size zero now c size written offset r d o f w lt = omega arith
increase_loop-size (suc fuel) now c size written offset r d o f w lt =
    let answer = bmap now c offset append_mode d in
    let (bytes, r1, c1, d1) = increase_round now size written r answer in
    let rest = increase_loop fuel now c1 size (written + bytes) (offset + bytes) r1 d1 in
    elim (ℕ_discrete written size) [
      | yes same ↦
          ap (λ b. (if b then rest else (c, d)).0.size) (le→ltb-false written size (omega arith))
          ∙ omega arith
      | no ne ↦
          let (p, b, g) =
            increase_round-size now c size written offset r answer (omega arith) lt
              (bmap-append_answer now c offset d o (omega arith)) in
          ap (λ b. (if b then rest else (c, d)).0.size) (lt→ltb written size (omega arith))
          ∙ increase_loop-size fuel now c1 size (written + bytes) (offset + bytes) r1 d1
              (omega arith) (omega arith) (omega arith) (omega arith)
          ∙ omega arith
    ]

-- What a round of shrinking comes to.
decrease_round-size :
    (now : ℕ) (c : InCoreINode) (left : ℕ) (r : BmapResponse) (q : Answer)
    → 0 < left
    → c.size ≡ left
    → left < 2 ^ 64
    → Answered c (left - 1) q
    → let (bytes, r1, c1, d1) = decrease_round now r q in
      (0 < bytes)
      × (bytes ≤ left)
      × (c1.size ≡ left - bytes)
      × ((k : ℕ) → 0 < k → k < bytes → (decrease_last now k q).0.size ≡ left - k)
unfolding decrease_round decrease_last response_or create_bmap_response
decrease_round-size now c left r q p o lt (answered _ block c' d s e) =
    let bytes = (left - 1) % block_size + 1 in
    let shrunk =
      shrunk-size now c' bytes c'.links_count (omega arith) (omega arith) (omega arith)
        (omega arith) in
    subst
      (λ (a : Answer).
        let (n, r1, c1, d1) = decrease_round now r a in
        (0 < n)
        × (n ≤ left)
        × (c1.size ≡ left - n)
        × ((k : ℕ) → 0 < k → k < n → (decrease_last now k a).0.size ≡ left - k))
      (sym e)
      (
        omega arith,
        omega arith,
        shrunk ∙ ap (λ k. k - bytes) (s ∙ o),
        λ k pk kb.
            shrunk-size now c' k c'.links_count pk (omega arith) (omega arith) (omega arith)
            ∙ ap (λ n. n - k) (s ∙ o),
      )

lt_or_le : (a b : ℕ) → (a < b) ⊎ (b ≤ a)
lt_or_le a b = elim (Bool-cases (ltb a b)) [
  | inl e ↦ inl (ltb→lt a b e)
  | inr e ↦ inr (ltb-false→le a b e)
]

decrease_loop-size :
    (fuel now : ℕ) (c : InCoreINode) (size reduced left : ℕ) (r : BmapResponse) (d : Disk)
    → c.size ≡ left
    → size ≤ reduced + fuel
    → reduced ≤ size
    → size - reduced ≤ left
    → left < 2 ^ 64
    → (decrease_loop fuel now c size reduced left r d).0.size ≡ left - (size - reduced)
unfolding decrease_loop
decrease_loop-size zero now c size reduced left r d o f w le lt = omega arith
decrease_loop-size (suc fuel) now c size reduced left r d o f w le lt =
    let answer = bmap now c (left - 1) read_mode d in
    let (bytes, r1, c1, d1) = decrease_round now r answer in
    let rest = decrease_loop fuel now c1 size (reduced + bytes) (left - bytes) r1 d1 in
    let last = decrease_last now (size - reduced) answer in
    let more = if ltb (size - reduced) bytes then last else rest in
    elim (ℕ_discrete reduced size) [
      | yes same ↦
          ap (λ b. (if b then more else (c, d)).0.size) (le→ltb-false reduced size (omega arith))
          ∙ omega arith
      | no ne ↦
          let (p, b, g, l) =
            decrease_round-size now c left r answer (omega arith) o lt
              (bmap-read_answer now c (left - 1) d (omega arith)) in
          ap (λ b. (if b then more else (c, d)).0.size) (lt→ltb reduced size (omega arith))
          ∙ elim (lt_or_le (size - reduced) bytes) [
            | inl small ↦
                ap (λ b. (if b then last else rest).0.size) (lt→ltb (size - reduced) bytes small)
                ∙ l (size - reduced) (omega arith) small
            | inr big ↦
                ap (λ b. (if b then last else rest).0.size)
                  (le→ltb-false (size - reduced) bytes big)
                ∙ decrease_loop-size fuel now c1 size (reduced + bytes) (left - bytes) r1 d1 g
                    (omega arith) (omega arith) (omega arith) (omega arith)
                ∙ omega arith
          ]
    ]

-- `truncateINode` ends with exactly the size that was asked for, whatever the disk and the block
-- tree are, as long as the old and the new size are below what the triple indirect tree has room
-- for; the loops need no more rounds than there are bytes between the sizes.
pub truncate_inode-size :
    (now : ℕ) (c : InCoreINode) (size : ℕ) (r : BmapResponse) (d : Disk)
    → c.size < tree_size
    → size < tree_size
    → (truncate_inode now c size r d).0.size ≡ size
unfolding truncate_inode increase_file_size_by decrease_file_size_by
truncate_inode-size now c size r d h lt = elim (ℕ_discrete c.size size) [
  | yes e ↦ ap (λ b. (if b then (c, d) else changed).0.size) (eq→== e) ∙ e
  | no ne ↦
      ap (λ b. (if b then (c, d) else changed).0.size) (ne→==-false c.size size ne)
      ∙ elim (lt_or_le size c.size) [
        | inl less ↦
            ap (λ b. (if b then shrunk else grown).0.size) (lt→ltb size c.size less)
            ∙ decrease_loop-size (c.size - size) now c (c.size - size) 0 c.size r d refl
                (omega arith) (omega arith) (omega arith) (omega arith)
            ∙ omega arith
        | inr more ↦
            ap (λ b. (if b then shrunk else grown).0.size) (le→ltb-false size c.size more)
            ∙ increase_loop-size (size - c.size) now c (size - c.size) 0 c.size r d refl
                (omega arith) (omega arith) (omega arith)
            ∙ omega arith
      ]
]
  where
    shrunk : InCoreINode × Disk
    shrunk = decrease_file_size_by now c (c.size - size) r d

    grown : InCoreINode × Disk
    grown = increase_file_size_by now c (size - c.size) r d

    changed : InCoreINode × Disk
    changed = if ltb size c.size then shrunk else grown

    eq→== : c.size ≡ size → (c.size == size) ≡ true
    eq→== e = ground arith
