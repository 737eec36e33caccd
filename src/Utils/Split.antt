-- ===== src/Utils/Split.antt =====
-- What string_split makes of a path.
use mathlib.Core.List.{append-nil, append_assoc}
use naofs.Prelude.{
  ℕ, zero, suc, ◌+◌, ◌≤◌, ◌≡◌, ◌≢◌, refl, sym, ap, ap₂, ◌∙◌, Bool, true, false, some, List, [], ◌∷◌,
  ◌++◌, length, if◌then◌else◌, ℤ, pos, arith, ==-refl, ne→==-false, length-append, replicate,
}
use naofs.Cache.{done, fault}
use naofs.Utils.{
  is_one_of, skip_delimiters, up_to_delimiter, token_of, strtok, split_loop, split_first,
  string_split,
}

-- A name that is not empty and has no delimiter `c` in it.
abbrev pub Without : ℕ → List ℕ → Type 0
Without c [] = Unit {0}
Without c (x ∷ xs) = (x ≢ c) × Without c xs

abbrev pub AreNames : ℕ → List (List ℕ) → Type 0
AreNames c [] = Unit {0}
AreNames c (name ∷ names) = (name ≢ []) × Without c name × AreNames c names

-- The path with the delimiter in front of each name.
abbrev pub path_of : ℕ → List (List ℕ) → List ℕ
path_of c [] = []
path_of c (name ∷ names) = c ∷ (name ++ path_of c names)

module _ (c : ℕ) where
  at_delimiter : (x : ℕ) → x ≢ c → is_one_of (c ∷ []) x ≡ false
  at_delimiter x ne = rw (ne→==-false x c ne) refl

  up_to-delimiter : (cs : List ℕ) → up_to_delimiter (c ∷ []) (c ∷ cs) ≡ ([], cs)
  unfolding up_to_delimiter
  up_to-delimiter cs = rw (==-refl c) refl

  up_to-further :
      (x : ℕ) (cs name rest : List ℕ)
      → x ≢ c
      → up_to_delimiter (c ∷ []) cs ≡ (name, rest)
      → up_to_delimiter (c ∷ []) (x ∷ cs) ≡ (x ∷ name, rest)
  unfolding up_to_delimiter
  up_to-further x cs name rest ne e =
      rw (at_delimiter x ne) (ap (λ (q : List ℕ × List ℕ). (x ∷ q.0, q.1)) e)

  -- What is behind the first delimiter of a path.
  abbrev behind : List (List ℕ) → List ℕ
  behind [] = []
  behind (name ∷ names) = name ++ path_of c names

  up_to-name :
      (name : List ℕ) (names : List (List ℕ))
      → Without c name
      → up_to_delimiter (c ∷ []) (name ++ path_of c names) ≡ (name, behind names)
  unfolding up_to_delimiter
  up_to-name [] [] h = refl
  up_to-name [] (name ∷ names) h = up_to-delimiter (name ++ path_of c names)
  up_to-name (x ∷ xs) names h =
      up_to-further x (xs ++ path_of c names) xs (behind names) h.0 (up_to-name xs names h.1)

  strtok-behind :
      (name : List ℕ) (names : List (List ℕ))
      → AreNames c (name ∷ names)
      → strtok (c ∷ []) (behind (name ∷ names)) ≡ some (name, behind names)
  unfolding strtok skip_delimiters token_of
  strtok-behind [] names h = absurd (h.0 refl)
  strtok-behind (x ∷ xs) names h =
      let cs = xs ++ path_of c names in
      ap (λ (b : Bool). token_of (c ∷ []) (if b then skip_delimiters (c ∷ []) cs else x ∷ cs))
        (at_delimiter x h.1.0)
      ∙ ap some (up_to-name (x ∷ xs) names h.1)

  strtok-path :
      (name : List ℕ) (names : List (List ℕ))
      → AreNames c (name ∷ names)
      → strtok (c ∷ []) (path_of c (name ∷ names)) ≡ some (name, behind names)
  unfolding strtok skip_delimiters
  strtok-path name names h = rw (==-refl c) (unfold strtok in strtok-behind name names h)

  length-path_of : (names : List (List ℕ)) → length names ≤ length (path_of c names)
  length-path_of [] = omega arith
  length-path_of (name ∷ names) =
      omega (arith, length-path_of names, length-append name (path_of c names))

  -- Every name takes a round.
  length-behind : (names : List (List ℕ)) → AreNames c names → length names ≤ length (behind names)
  length-behind [] h = omega arith
  length-behind ([] ∷ names) h = absurd (h.0 refl)
  length-behind ((x ∷ xs) ∷ names) h =
      omega (arith, length-path_of names, length-append xs (path_of c names))

  all_found :
      (i : ℕ) (tokens : List (List ℕ))
      → ◌≡◌ {A = ℤ × List (List ℕ)} (pos i, tokens) (pos (i + 0), tokens ++ [])
  all_found i tokens = ap₂ (λ n xs. (pos n, xs)) (omega arith) (sym (append-nil tokens))

  split_loop-names :
      (has_memory : ℕ → Bool) (fuel i : ℕ) (tokens names : List (List ℕ))
      → ((n : ℕ) → has_memory n ≡ true)
      → AreNames c names
      → length names ≤ fuel
      → split_loop fuel has_memory (c ∷ []) (behind names) i tokens
        ≡ (pos (i + length names), tokens ++ names)
  unfolding split_loop
  split_loop-names has_memory zero i tokens [] m h le = all_found i tokens
  split_loop-names has_memory zero i tokens (name ∷ names) m h le = absurd (omega arith)
  split_loop-names has_memory (suc fuel) i tokens [] m h le = all_found i tokens
  split_loop-names has_memory (suc fuel) i tokens (name ∷ names) m h le =
      let text = behind (name ∷ names) in
      rw (strtok-behind name names h, split_loop)
        (rw (m (i + 1)) (
          split_loop-names has_memory fuel (i + 1) (tokens ++ (name ∷ [])) names m h.2 (omega arith)
          ∙ ap₂ (λ n xs. (pos n, xs)) (omega arith) (append_assoc tokens (name ∷ []) names)))

-- `string_split` at one delimiter gives back the names of a path that has the delimiter in front of
-- each, in order, and returns their number; they are one or more, not empty and without the
-- delimiter, and no `strdup` fails.
pub string_split-path_of :
    (has_memory : ℕ → Bool) (c : ℕ) (name : List ℕ) (names : List (List ℕ))
    → ((n : ℕ) → has_memory n ≡ true)
    → AreNames c (name ∷ names)
    → string_split has_memory (path_of c (name ∷ names)) (c ∷ [])
      ≡ done (pos (length (name ∷ names)), name ∷ names)
unfolding string_split split_first
string_split-path_of has_memory c name names m h = rw (m 0) (
    rw (strtok-path c name names h) (
      rw (m 1) (
        ap done (
          split_loop-names c has_memory (length (behind c names)) 1 (name ∷ []) names m h.2
            (length-behind c names h.2)
          ∙ ap (λ n. (pos n, name ∷ names)) (omega arith)))))

skipped : (c n : ℕ) → skip_delimiters (c ∷ []) (replicate n c) ≡ []
unfolding skip_delimiters replicate
skipped c zero = refl
skipped c (suc n) = rw (==-refl c) (skipped c n)

-- A string of nothing but the delimiter makes `string_split` copy from NULL.
pub string_split-fault :
    (has_memory : ℕ → Bool) (c n : ℕ)
    → has_memory 0 ≡ true
    → string_split has_memory (replicate n c) (c ∷ []) ≡ fault
unfolding string_split split_first strtok token_of
string_split-fault has_memory c n m =
    rw m (ap (λ text. split_first has_memory (c ∷ []) (token_of (c ∷ []) text)) (skipped c n))
