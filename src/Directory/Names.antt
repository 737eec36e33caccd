-- ===== src/Directory/Names.antt =====
-- The comparison of a name with what stands in a block, and the search through the entries of one.
use naofs.Prelude.{
  ℕ, zero, suc, ◌+◌, ◌*◌, ◌≡◌, ◌<◌, refl, sym, ap, ◌∙◌, true, false, Option, List, [], ◌∷◌, ◌++◌,
  take, drop, slice, length, ◌==◌, ==-refl, if◌then◌else◌, arith,
}
use naofs.Params.{filename_size, directory_entry_size}
use naofs.Disk.{Block}
use naofs.Directory.{DirectoryEntry, same_name, search_block, read_entry, replace_entry}

-- No more is compared than the name and the byte behind it.
pub same_name-take :
    (n : ℕ) (xs name : List ℕ) → length name < n → same_name (take n xs) name ≡ same_name xs name
unfolding same_name take
same_name-take zero xs name h = absurd (omega arith)
same_name-take (suc n) [] name h = refl
same_name-take (suc n) (b ∷ bs) [] h = refl
same_name-take (suc n) (b ∷ bs) (c ∷ cs) h =
    ap (λ r. if b == c then r else false) (same_name-take n bs cs (omega arith))

same_name-string : (name rest : List ℕ) → same_name (name ++ (0 ∷ rest)) name ≡ true
unfolding same_name
same_name-string [] rest = refl
same_name-string (c ∷ cs) rest =
    ap (λ b. if b then same_name (cs ++ (0 ∷ rest)) cs else false) (==-refl c)
    ∙ same_name-string cs rest

-- A name is the same as its own bytes in an entry.
pub same_name_self :
    (n : ℕ) (name rest : List ℕ)
    → length name < n
    → same_name (take n (name ++ (0 ∷ rest))) name ≡ true
same_name_self n name rest h =
    same_name-take n (name ++ (0 ∷ rest)) name h ∙ same_name-string name rest

pub take-drop : (i n : ℕ) (xs : List ℕ) → take n (drop i xs) ≡ slice i n xs
unfolding slice drop take
take-drop zero n xs = refl
take-drop (suc i) zero [] = refl
take-drop (suc i) (suc n) [] = refl
take-drop (suc i) n (x ∷ xs) = take-drop i n xs

-- Only the bytes of the name in an entry are compared.
pub same_name-entry :
    (block : Block) (name : List ℕ) (k : ℕ)
    → length name < filename_size
    → same_name (drop (0 + k * directory_entry_size) block) name
      ≡ same_name (slice (k * directory_entry_size) filename_size block) name
same_name-entry block name k n =
    let at : 0 + k * directory_entry_size ≡ k * directory_entry_size = omega arith in
    sym (same_name-take filename_size (drop (0 + k * directory_entry_size) block) name n)
    ∙ ap (λ bs. same_name bs name)
        (take-drop (0 + k * directory_entry_size) filename_size block
          ∙ ap (λ q. slice q filename_size block) at)

-- The entry `k` behind `ptr` is the first one with the name.
pub search_block-first :
    (left k ptr : ℕ) (block : Block) (name : List ℕ) (buffer : DirectoryEntry)
    (last : Option DirectoryEntry)
    → k < left
    → ((i : ℕ) → i < k → same_name (drop (ptr + i * directory_entry_size) block) name ≡ false)
    → same_name (drop (ptr + k * directory_entry_size) block) name ≡ true
    → let p = ptr + k * directory_entry_size in
      search_block left block ptr name buffer last
      ≡ (true, read_entry block p buffer, replace_entry block p last)
unfolding search_block
search_block-first zero k ptr block name buffer last lt before found = absurd (omega arith)
search_block-first (suc left) zero ptr block name buffer last lt before found =
    let here : ptr + 0 * directory_entry_size ≡ ptr = omega arith in
    ap
      (λ b.
        if b
        then (true, read_entry block ptr buffer, replace_entry block ptr last)
        else search_block left block (ptr + directory_entry_size) name buffer last)
      (sym (ap (λ p. same_name (drop p block) name) here) ∙ found)
    ∙ ap (λ p. (true, read_entry block p buffer, replace_entry block p last)) (sym here)
search_block-first (suc left) (suc k) ptr block name buffer last lt before found =
    let here : ptr + 0 * directory_entry_size ≡ ptr = omega arith in
    let next : (i : ℕ)
        → ptr + directory_entry_size + i * directory_entry_size
          ≡ ptr + suc i * directory_entry_size =
      λ i. omega arith in
    ap
      (λ b.
        if b
        then (true, read_entry block ptr buffer, replace_entry block ptr last)
        else search_block left block (ptr + directory_entry_size) name buffer last)
      (sym (ap (λ p. same_name (drop p block) name) here) ∙ before 0 (omega arith))
    ∙ search_block-first left k (ptr + directory_entry_size) block name buffer last (omega arith)
        (λ i h. ap (λ p. same_name (drop p block) name) (next i) ∙ before (suc i) (omega arith))
        (ap (λ p. same_name (drop p block) name) (next k) ∙ found)
    ∙ ap (λ p. (true, read_entry block p buffer, replace_entry block p last)) (next k)
