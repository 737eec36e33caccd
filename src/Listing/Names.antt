-- ===== src/Listing/Names.antt =====
-- The listing gives every entry of a directory once and in order, across its blocks.
use naofs.Prelude.{
  ℕ, zero, suc, ◌+◌, ◌-◌, ◌*◌, ◌/◌, ◌≡◌, ◌≤◌, ◌<◌, inl, inr, refl, sym, ap, ap₂, ◌∙◌, min, Option,
  false, true, none, some, List, [], take, replicate, length-replicate, ltb, lt→ltb, ltb→lt,
  ltb-false→le, Bool-cases, le→ltb-false, arith,
}
use naofs.Params.{block_size, directory_entry_size}
use naofs.Disk.{Disk, fetch}
use naofs.Inode.{InCoreINode}
use naofs.Tree.{leaf_block, calculate_offset}
use naofs.Directory.{DirectoryEntry, is_dir}
use naofs.Namei.{cleared_entry}
use naofs.Listing.{
  collect_inode_directory_entries, entries_per_iteration, names_of, and_names, fill_entries_loop,
  fill_directory_entries,
}
use naofs.Listing.Round.{names_from, names_from-append, collect_block-names, collect-names}

fill_entries_loop-end :
    (fuel now : ℕ) (c : InCoreINode) (entries offset : ℕ) (d : Disk)
    → entries ≤ offset
    → fill_entries_loop fuel now c entries offset d ≡ some []
unfolding fill_entries_loop
fill_entries_loop-end zero now c entries offset d h = refl
fill_entries_loop-end (suc fuel) now c entries offset d h =
    ap
      (λ b. elim b [
        | false ↦ some []
        | true ↦
            elim (collect_inode_directory_entries now c offset
              (replicate entries_per_iteration cleared_entry) entries_per_iteration d) [
                | none ↦ none
                | some (n, buffer) ↦
                    and_names (names_of (take n buffer))
                      (fill_entries_loop fuel now c entries (offset + n) d)
              ]
      ])
      (le→ltb-false offset entries h)

-- A round of the filling loop at the start of block `j`.
fill_entries_loop-step :
    (fuel now : ℕ) (c : InCoreINode) (j : ℕ) (d : Disk)
    → is_dir c.file_mode ≡ true
    → 16 * j < c.size / directory_entry_size
    → let entries = c.size / directory_entry_size in
      let n = min 16 (entries - 16 * j) in
      fill_entries_loop (suc fuel) now c entries (16 * j) d
      ≡ and_names (names_from c d (16 * j) n) (fill_entries_loop fuel now c entries (16 * j + n) d)
unfolding fill_entries_loop
fill_entries_loop-step fuel now c j d v h =
    let entries = c.size / directory_entry_size in
    let n = min 16 (entries - 16 * j) in
    let buffer = replicate entries_per_iteration cleared_entry in
    let block = fetch d (leaf_block c (calculate_offset (j * block_size)) d) in
    let room = length-replicate entries_per_iteration cleared_entry in
    let from : 16 * j + 0 ≡ 16 * j = omega arith in
    ap
      (λ b. elim b [
        | false ↦ some []
        | true ↦
            elim (collect_inode_directory_entries now c (16 * j) buffer entries_per_iteration d) [
              | none ↦ none
              | some (n, buffer) ↦
                  and_names (names_of (take n buffer))
                    (fill_entries_loop fuel now c entries (16 * j + n) d)
            ]
      ])
      (lt→ltb (16 * j) entries h)
    ∙ ap
        (λ (o : Option (ℕ × List DirectoryEntry)). elim o [
          | none ↦ none
          | some (n, buffer) ↦
              and_names (names_of (take n buffer))
                (fill_entries_loop fuel now c entries (16 * j + n) d)
        ])
        (collect-names now c d j v (omega arith))
    ∙ ap (λ names. and_names names (fill_entries_loop fuel now c entries (16 * j + n) d))
        (collect_block-names n c d j 0 buffer (omega arith) (omega (arith, room))
          ∙ ap (λ k. names_from c d k n) from)

-- What a round and the rounds behind it give together.
fill-append :
    (c : InCoreINode) (d : Disk) (k n total : ℕ) (rest : Option (List (List ℕ)))
    → n ≤ total
    → rest ≡ some (names_from c d (k + n) (total - n))
    → and_names (names_from c d k n) rest ≡ some (names_from c d k total)
unfolding and_names
fill-append c d k n total rest h e =
    let all : n + (total - n) ≡ total = omega arith in
    ap (and_names (names_from c d k n)) e
    ∙ ap some (names_from-append c d k n (total - n) ∙ ap (names_from c d k) all)

fill_entries_loop-names :
    (fuel now : ℕ) (c : InCoreINode) (j : ℕ) (d : Disk)
    → is_dir c.file_mode ≡ true
    → c.size / directory_entry_size ≤ 16 * j + fuel
    → let entries = c.size / directory_entry_size in
      fill_entries_loop fuel now c entries (16 * j) d
      ≡ some (names_from c d (16 * j) (entries - 16 * j))
fill_entries_loop-names zero now c j d v h =
    let entries = c.size / directory_entry_size in
    let over : 0 ≡ entries - 16 * j = omega arith in
    fill_entries_loop-end zero now c entries (16 * j) d (omega arith)
    ∙ ap (λ n. some (names_from c d (16 * j) n)) over
fill_entries_loop-names (suc fuel) now c j d v h =
    let entries = c.size / directory_entry_size in
    let n = min 16 (entries - 16 * j) in
    let rest = fill_entries_loop fuel now c entries (16 * j + n) d in
    elim (Bool-cases (ltb (16 * j) entries)) [
      | inr e ↦
          let over : 0 ≡ entries - 16 * j = omega (arith, ltb-false→le (16 * j) entries e) in
          fill_entries_loop-end (suc fuel) now c entries (16 * j) d
            (ltb-false→le (16 * j) entries e)
          ∙ ap (λ n. some (names_from c d (16 * j) n)) over
      | inl e ↦
          fill_entries_loop-step fuel now c j d v (ltb→lt (16 * j) entries e)
          ∙ fill-append c d (16 * j) n (entries - 16 * j) rest (omega arith)
              (elim (Bool-cases (ltb (entries - 16 * j) 16)) [
                | inl few ↦
                    let l = ltb→lt (entries - 16 * j) 16 few in
                    let over : 0 ≡ entries - 16 * j - n = omega arith in
                    fill_entries_loop-end fuel now c entries (16 * j + n) d (omega arith)
                    ∙ ap (λ m. some (names_from c d (16 * j + n) m)) over
                | inr many ↦
                    let l = ltb-false→le (entries - 16 * j) 16 many in
                    let next : 16 * j + n ≡ 16 * suc j = omega arith in
                    let left : entries - 16 * suc j ≡ entries - 16 * j - n = omega arith in
                    ap (λ o. fill_entries_loop fuel now c entries o d) next
                    ∙ fill_entries_loop-names fuel now c (suc j) d v (omega arith)
                    ∙ ap₂ (λ o m. some (names_from c d o m)) (sym next) left
              ])
    ]

-- For every inode whose mode is that of a directory, of any number of blocks, the listing is the
-- sequence of the names of its entries, from the first to the last: no entry is left out and
-- none comes twice.
pub fill_directory_entries-names :
    (now : ℕ) (c : InCoreINode) (d : Disk)
    → is_dir c.file_mode ≡ true
    → fill_directory_entries now c d ≡ some (names_from c d 0 (c.size / directory_entry_size))
unfolding fill_directory_entries
fill_directory_entries-names now c d v =
    let all : c.size / directory_entry_size - 16 * 0 ≡ c.size / directory_entry_size =
      omega arith in
    fill_entries_loop-names (c.size / directory_entry_size) now c 0 d v (omega arith)
    ∙ ap (λ n. some (names_from c d 0 n)) all
