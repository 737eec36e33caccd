-- ===== src/Namei/Split.antt =====
-- The directory and the file name of a path.
use mathlib.Core.Path.{subst}
use naofs.Prelude.{
  ℕ, zero, suc, ◌≡◌, ◌≢◌, refl, sym, ap, ◌∙◌, Bool, true, false, Bool-cases, Option, none, some,
  List, [], ◌∷◌, ◌++◌, length, take, min, ne→==-false, ◌==◌, if◌then◌else◌, ◌||◌, arith, ==→eq,
  ==-false→ne, inl, inr,
}
use naofs.Namei.{
  slash, extend_split, split_last, first_part, second_part, get_parent_directory,
  get_filename_from_path, check_and_get_len,
}

abbrev pub NoSlash : List ℕ → Type 0
NoSlash [] = Unit
NoSlash (c ∷ cs) = (c ≢ slash) × NoSlash cs

-- How a path divides at its last slash.
data Divided (path : List ℕ) : Option (List ℕ × List ℕ) → Type 0 where
  at_slash :
      (dir file : List ℕ)
      → path ≡ dir ++ (slash ∷ file)
      → NoSlash file
      → Divided path (some (dir ++ (slash ∷ []), file))
  flat : NoSlash path → Divided path none

extend_split-Divided :
    (c : ℕ) (cs : List ℕ) (o : Option (List ℕ × List ℕ))
    → Divided cs o
    → Divided (c ∷ cs) (extend_split c cs o)
unfolding extend_split
extend_split-Divided c cs o (at_slash dir file e n) = at_slash (c ∷ dir) file (ap (λ l. c ∷ l) e) n
extend_split-Divided c cs o (flat n) = elim (Bool-cases (c == slash)) [
  | inl e ↦
      let here : Divided (c ∷ cs) (some (c ∷ [], cs)) =
        subst (λ (k : ℕ). Divided (c ∷ cs) (some (k ∷ [], cs))) (sym (==→eq c slash e))
          (at_slash [] cs (ap (λ k. k ∷ cs) (==→eq c slash e)) n) in
      rw e here
  | inr e ↦ rw e (flat (==-false→ne c slash e, n))
]

split_last-Divided : (path : List ℕ) → Divided path (split_last path)
unfolding split_last
split_last-Divided [] = flat tt
split_last-Divided (c ∷ cs) = extend_split-Divided c cs (split_last cs) (split_last-Divided cs)

-- What `getParentDirectory` and `getFilenameFromPath` make of a path: the part through the last
-- slash, and the part behind it, which has none; without a slash both go on from NULL.
pub data Parted (path : List ℕ) : Option (List ℕ) → Option (List ℕ) → Type 0 where
  parted :
      (d f : Option (List ℕ)) (dir file : List ℕ)
      → d ≡ some (dir ++ (slash ∷ []))
      → f ≡ some file
      → path ≡ dir ++ (slash ∷ file)
      → NoSlash file
      → Parted path d f
  faulted : (d f : Option (List ℕ)) → d ≡ none → f ≡ none → NoSlash path → Parted path d f

parts_of :
    (path : List ℕ) (o : Option (List ℕ × List ℕ))
    → Divided path o
    → Parted path (first_part o) (second_part o)
unfolding first_part second_part
parts_of path o (at_slash dir file e n) = parted _ _ dir file refl refl e n
parts_of path o (flat n) = faulted _ _ refl refl n

-- The path is the directory that `getParentDirectory` copies, which ends with the last slash, and
-- the name that `getFilenameFromPath` copies, which has no slash; a path without a slash makes both
-- go on from NULL.
pub get_parent-get_filename :
    (path : List ℕ) → Parted path (get_parent_directory path) (get_filename_from_path path)
unfolding get_parent_directory get_filename_from_path
get_parent-get_filename path = parts_of path (split_last path) (split_last-Divided path)

-- A C string holds no NUL.
abbrev pub NoNul : List ℕ → Type 0
NoNul [] = Unit
NoNul (c ∷ cs) = (c ≢ 0) × NoNul cs

all_same {ℓ} :
    {A : Type ℓ} (stop : A) (a b c : Bool) (x : A)
    → c ≡ false
    → (if a then x else if b then x else if c then stop else x) ≡ x
all_same stop true b c x e = refl
all_same stop false true c x e = refl
all_same stop false false c x e = ap (λ (t : Bool). if t then stop else x) e

-- `checkAndGetLen` copies the first `bufLen` bytes of the path, whatever characters it holds, and
-- returns how many they are: no character but the NUL ends the copy.
pub check_and_get_len-take :
    (is_alnum : ℕ → Bool) (path : List ℕ) (n : ℕ)
    → NoNul path
    → check_and_get_len is_alnum path n ≡ (min (length path) n, take n path ++ (0 ∷ []))
unfolding check_and_get_len take
check_and_get_len-take is_alnum [] zero h = refl
check_and_get_len-take is_alnum (c ∷ cs) zero h = ap (λ k. (k, 0 ∷ [])) (omega arith)
check_and_get_len-take is_alnum [] (suc n) h = ap (λ k. (k, 0 ∷ [])) (omega arith)
check_and_get_len-take is_alnum (c ∷ cs) (suc n) h =
    let rest = check_and_get_len is_alnum cs n in
    let further : ℕ × List ℕ = (suc rest.0, c ∷ rest.1) in
    let ih = check_and_get_len-take is_alnum cs n h.1 in
    all_same (0, 0 ∷ []) (is_alnum c) (c == 95 || (c == 45 || c == slash)) (c == 0) further
      (ne→==-false c 0 h.0)
    ∙ (λ i. (suc (ih i).0, c ∷ (ih i).1))
    ∙ ap (λ k. (k, c ∷ (take n cs ++ (0 ∷ [])))) (omega arith)
