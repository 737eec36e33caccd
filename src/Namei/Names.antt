-- ===== src/Namei/Names.antt =====
-- The names of a path, one by one, and the last slash.
use naofs.Prelude.{
  ℕ, ◌≡◌, ◌<◌, ◌≢◌, refl, ap, ◌∙◌, none, some, List, [], ◌∷◌, ◌++◌, length, ◌==◌, ne→==-false,
  if◌then◌else◌, arith,
}
use native.Mathlib.Decide.{ℕ_discrete}
use naofs.Namei.{slash, next_name, split_last, extend_split}
use naofs.Namei.Split.{NoSlash}

next_name-slash : (c : ℕ) (cs : List ℕ) → c ≡ slash → next_name (c ∷ cs) ≡ ([], cs)
unfolding next_name
next_name-slash c cs e =
    ap (λ k. if k == slash then ([], cs) else (c ∷ (next_name cs).0, (next_name cs).1)) e

next_name-further :
    (c : ℕ) (cs name rest : List ℕ)
    → c ≢ slash
    → next_name cs ≡ (name, rest)
    → next_name (c ∷ cs) ≡ (c ∷ name, rest)
unfolding next_name
next_name-further c cs name rest ne e =
    ap (λ b. if b then ([], cs) else (c ∷ (next_name cs).0, (next_name cs).1))
      (ne→==-false c slash ne)
    ∙ ap (λ (q : List ℕ × List ℕ). (c ∷ q.0, q.1)) e

-- The first name of a path with a slash in it does not depend on what stands behind the last one.
pub data Cut (file xs : List ℕ) : Type 0 where
  last_name :
      next_name (xs ++ (slash ∷ file)) ≡ (xs, file)
      → next_name (xs ++ (slash ∷ [])) ≡ (xs, [])
      → Cut file xs
  longer :
      (name rest : List ℕ)
      → length rest < length xs
      → next_name (xs ++ (slash ∷ file)) ≡ (name, rest ++ (slash ∷ file))
      → next_name (xs ++ (slash ∷ [])) ≡ (name, rest ++ (slash ∷ []))
      → Cut file xs

pub append-Cut : (file xs : List ℕ) → Cut file xs
unfolding next_name
append-Cut file [] = last_name refl refl
append-Cut file (c ∷ cs) = elim (ℕ_discrete c slash) [
  | yes e ↦
      longer [] cs (omega arith) (next_name-slash c (cs ++ (slash ∷ file)) e)
        (next_name-slash c (cs ++ (slash ∷ [])) e)
  | no ne ↦ elim (append-Cut file cs) [
    | last_name p q ↦
        last_name (next_name-further c (cs ++ (slash ∷ file)) cs file ne p)
          (next_name-further c (cs ++ (slash ∷ [])) cs [] ne q)
    | longer name rest l p q ↦
        longer (c ∷ name) rest (omega arith)
          (next_name-further c (cs ++ (slash ∷ file)) name (rest ++ (slash ∷ file)) ne p)
          (next_name-further c (cs ++ (slash ∷ [])) name (rest ++ (slash ∷ [])) ne q)
  ]
]

pub next_name-NoSlash : (file : List ℕ) → NoSlash file → next_name file ≡ (file, [])
unfolding next_name
next_name-NoSlash [] h = refl
next_name-NoSlash (c ∷ cs) h = next_name-further c cs cs [] h.0 (next_name-NoSlash cs h.1)

split_last-NoSlash : (file : List ℕ) → NoSlash file → split_last file ≡ none
unfolding split_last extend_split
split_last-NoSlash [] h = refl
split_last-NoSlash (c ∷ cs) h =
    ap (extend_split c cs) (split_last-NoSlash cs h.1)
    ∙ ap (λ b. if b then some (c ∷ [], cs) else none) (ne→==-false c slash h.0)

pub split_last-slash :
    (dir file : List ℕ)
    → NoSlash file
    → split_last (dir ++ (slash ∷ file)) ≡ some (dir ++ (slash ∷ []), file)
unfolding split_last extend_split
split_last-slash [] file h = ap (extend_split slash file) (split_last-NoSlash file h)
split_last-slash (c ∷ cs) file h =
    ap (extend_split c (cs ++ (slash ∷ file))) (split_last-slash cs file h)
