-- ===== src/Utils.antt =====
-- string_split of src/utils/utils.c, which cuts a string at delimiters; the two functions on paths
-- are in Namei. A string is the list of its bytes in front of the NUL.
pub mod Split
use naofs.Prelude.{
  ℕ, zero, suc, ◌+◌, Bool, true, false, Option, none, some, List, [], ◌∷◌, ◌++◌, length, ◌==◌,
  if◌then◌else◌, ◌||◌, ℤ, pos, negsuc,
}
use naofs.Cache.{Run, done, fault}

abbrev pub is_one_of : List ℕ → ℕ → Bool
is_one_of [] c = false
is_one_of (x ∷ xs) c = c == x || is_one_of xs c

-- The delimiters in front, which `strtok` skips.
unfoldable pub skip_delimiters : (delimiter : List ℕ) → List ℕ → List ℕ
skip_delimiters delimiter [] = []
skip_delimiters delimiter (c ∷ cs) =
    let rest = skip_delimiters delimiter cs in if is_one_of delimiter c then rest else c ∷ cs

-- The bytes up to a delimiter, and what is behind that.
unfoldable pub up_to_delimiter : (delimiter : List ℕ) → List ℕ → List ℕ × List ℕ
up_to_delimiter delimiter [] = ([], [])
up_to_delimiter delimiter (c ∷ cs) =
    let (token, rest) = up_to_delimiter delimiter cs in
    if is_one_of delimiter c then ([], cs) else (c ∷ token, rest)

unfoldable pub token_of : (delimiter : List ℕ) → List ℕ → Option (List ℕ × List ℕ)
unfolding up_to_delimiter
token_of delimiter [] = none
token_of delimiter (c ∷ cs) = some (up_to_delimiter delimiter (c ∷ cs))

-- `strtok`: the next token, and where the one behind it is looked for.
unfoldable pub strtok : (delimiter : List ℕ) → List ℕ → Option (List ℕ × List ℕ)
unfolding skip_delimiters token_of
strtok delimiter text = token_of delimiter (skip_delimiters delimiter text)

-- The `while` of `string_split`, with `i` tokens found: what is returned, and the tokens, which an
-- error frees. `has_memory n` is what the `strdup` number `n` comes to. A token takes a byte or more.
unfoldable pub split_loop :
    ℕ
    → (has_memory : ℕ → Bool) → (delimiter text : List ℕ) → (i : ℕ) → List (List ℕ)
    → ℤ × List (List ℕ)
unfolding strtok
split_loop zero has_memory delimiter text i tokens = (pos i, tokens)
split_loop (suc fuel) has_memory delimiter text i tokens = elim (strtok delimiter text) [
  | none ↦ (pos i, tokens)
  | some (token, text') ↦ elim (has_memory (i + 1)) [
    | false ↦ (negsuc 0, [])
    | true ↦ split_loop fuel has_memory delimiter text' (i + 1) (tokens ++ (token ∷ []))
  ]
]

-- The part of `string_split` behind the first `strtok`; `strdup` of NULL faults.
unfoldable pub split_first :
    (has_memory : ℕ → Bool)
    → (delimiter : List ℕ) → Option (List ℕ × List ℕ)
    → Run (ℤ × List (List ℕ))
unfolding split_loop
split_first has_memory delimiter none = fault
split_first has_memory delimiter (some (token, text)) = done (
    if has_memory 1
    then split_loop (length text) has_memory delimiter text 1 (token ∷ [])
    else (negsuc 0, []))

unfoldable pub string_split :
    (has_memory : ℕ → Bool) → (path delimiter : List ℕ) → Run (ℤ × List (List ℕ))
unfolding split_first strtok
string_split has_memory path delimiter =
    if has_memory 0
    then split_first has_memory delimiter (strtok delimiter path)
    else done (negsuc 0, [])
