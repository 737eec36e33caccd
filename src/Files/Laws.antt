-- ===== src/Files/Laws.antt =====
-- Descriptors: the lowest free one is given out, and only what was given out is found.
use native.Mathlib.Decide.{ℕ_discrete}
use naofs.Prelude.{
  ℕ, zero, suc, ◌+◌, ◌≤◌, ◌<◌, ◌≡◌, refl, ap, ◌∙◌, ◌≢◌, inl, inr, true, false, arith, leb,
  if◌then◌else◌, ℤ, pos, Bool-cases,
}
use naofs.Params.{max_file_descriptors}
use naofs.Pool.{update}
use naofs.Pool.Ring.{update_self, update_ne}
use naofs.Files.{
  FileTable, FileTableEntry, enfile, create_loop, create_and_get_file_descriptor,
  init_fd_table_entry, get_file_descriptor, Descriptor, entry, bad,
}

-- No entry is free from `lo` up to `hi`.
abbrev pub Full : FileTable → ℕ → ℕ → Type 0
Full t lo hi = (i : ℕ) → lo ≤ i → i < hi → (t i).valid_entry ≡ true

-- What an allocation comes to: the lowest free entry is filled, or all are taken.
pub data Created (t : FileTable) (pid inode flags offset lo hi : ℕ) : ℤ × FileTable → Type 0 where
  filled :
      (fd : ℕ) (r : ℤ × FileTable)
      → lo ≤ fd
      → fd < hi
      → (t fd).valid_entry ≡ false
      → Full t lo fd
      → r ≡ (pos fd, update t fd (init_fd_table_entry (t fd) inode pid flags offset))
      → Created t pid inode flags offset lo hi r
  full :
      (r : ℤ × FileTable)
      → Full t lo hi
      → r ≡ (enfile, t)
      → Created t pid inode flags offset lo hi r

Full-cons :
    (t : FileTable) (lo hi : ℕ) → (t lo).valid_entry ≡ true → Full t (lo + 1) hi → Full t lo hi
Full-cons t lo hi e f i le lt = elim (ℕ_discrete i lo) [
  | yes q ↦ ap (λ k. (t k).valid_entry) q ∙ e
  | no q ↦ f i (omega arith) lt
]

create_loop-Created :
    (left counter hi : ℕ) (t : FileTable) (pid inode flags offset : ℕ)
    → counter + left ≡ hi
    → Created t pid inode flags offset counter hi
        (create_loop left counter t pid inode flags offset)
unfolding create_loop
create_loop-Created zero counter hi t pid inode flags offset e =
    full (enfile, t) (λ i le lt. absurd (omega arith)) refl
create_loop-Created (suc left) counter hi t pid inode flags offset e =
    let rest = create_loop left (counter + 1) t pid inode flags offset in
    let here : ℤ × FileTable =
      (pos counter, update t counter (init_fd_table_entry (t counter) inode pid flags offset)) in
    elim (Bool-cases (t counter).valid_entry) [
      | inl taken ↦
          let same = ap (λ b. if b then rest else here) taken in
          extend taken same
            (create_loop-Created left (counter + 1) hi t pid inode flags offset (omega arith))
      | inr free ↦
          filled counter _ (omega arith) (omega arith) free (λ i le lt. absurd (omega arith))
            (ap (λ b. if b then rest else here) free)
    ]
  where
    extend :
        {r r' : ℤ × FileTable}
        → (t counter).valid_entry ≡ true
        → r' ≡ r
        → Created t pid inode flags offset (counter + 1) hi r
        → Created t pid inode flags offset counter hi r'
    extend taken same (filled fd r lo up free f q) =
        filled fd _ (omega arith) up free (Full-cons t counter fd taken f) (same ∙ q)
    extend taken same (full r f q) = full _ (Full-cons t counter hi taken f) (same ∙ q)

-- `createAndGetFileDescriptor` fills the lowest entry that is free and returns its index, and
-- returns `-ENFILE` with the table as it was exactly when no entry is free.
pub create_and_get_lem :
    (t : FileTable) (pid inode flags offset : ℕ)
    → Created t pid inode flags offset 0 max_file_descriptors
        (create_and_get_file_descriptor t pid inode flags offset)
unfolding create_and_get_file_descriptor
create_and_get_lem t pid inode flags offset =
    create_loop-Created max_file_descriptors 0 max_file_descriptors t pid inode flags offset
      (omega arith)

-- `getFileDescriptor` finds the entry that was filled, and every other descriptor as before.
pub get_file_descriptor-create :
    (t : FileTable) (pid inode flags offset fd other : ℕ)
    → fd < max_file_descriptors
    → let t' = update t fd (init_fd_table_entry (t fd) inode pid flags offset) in
      (get_file_descriptor t' (pos fd) ≡ entry fd)
      × (other ≢ fd → get_file_descriptor t' (pos other) ≡ get_file_descriptor t (pos other))
unfolding get_file_descriptor init_fd_table_entry
get_file_descriptor-create t pid inode flags offset fd other h = (
  ap (λ (e : FileTableEntry). test fd e) (update_self t fd _) ∙ ground arith,
  λ ne. ap (λ (e : FileTableEntry). test other e) (update_ne t fd other _ ne),
)
  where
    test : ℕ → FileTableEntry → Descriptor
    test i e = if leb max_file_descriptors i then bad else if e.valid_entry then entry i else bad
