-- ===== src/Start/Args.antt =====
-- The arguments of the program: which of them names the device, and what fits its buffer.
use naofs.Prelude.{
  ℕ, ◌≡◌, refl, ap, ◌∙◌, Bool, true, false, Option, some, List, [], ◌∷◌, ◌++◌, drop, length, ltb,
  if◌then◌else◌, arith, le→ltb-false,
}
use naofs.Cache.{Run, done, fault, and_run}
use naofs.Start.{
  starts_with, strstr, fsname, dev_name_size, copy_name, found_at_start, parse_cmd_arg,
}

-- The first match of `strstr` is at the start exactly where the text starts with the pattern.
found_at_start-strstr :
    (text pattern : List ℕ) → found_at_start (strstr text pattern) ≡ starts_with text pattern
unfolding found_at_start strstr
found_at_start-strstr [] pattern = ground arith
found_at_start-strstr (x ∷ text) pattern = ground arith

-- None of the arguments starts with "fsname".
abbrev pub NoneStarts : List (List ℕ) → Type 0
NoneStarts [] = Unit {0}
NoneStarts (arg ∷ args) = (starts_with arg fsname ≡ false) × NoneStarts args

-- What `strcpy` makes of a name: it fits with its NUL, or it runs over.
abbrev pub copied : List ℕ → Run (Option (List ℕ))
copied name = if ltb (length name) dev_name_size then done (some name) else fault

copy_name-copied :
    (sign : ℕ) (name : List ℕ)
    → and_run (copy_name (fsname ++ (sign ∷ name))) (λ n. done (some n)) ≡ copied name
unfolding copy_name and_run drop
copy_name-copied sign name =
    let arg = fsname ++ (sign ∷ name) in
    ap
      (λ (b : Bool).
        and_run (if b then fault else if ltb (length name) dev_name_size then done name else fault)
          (λ n. done (some n)))
      (le→ltb-false (length arg) 7 (omega arith))
    ∙ fitted (ltb (length name) dev_name_size)
  where
    fitted :
        (b : Bool)
        → and_run (if b then done name else fault) (λ n. done (some n))
          ≡ (if b then done (some name) else fault)
    fitted true = refl
    fitted false = refl

parse_cmd_arg-here :
    (sign : ℕ) (name : List ℕ) (more : List (List ℕ))
    → parse_cmd_arg ((fsname ++ (sign ∷ name)) ∷ more) ≡ copied name
unfolding parse_cmd_arg starts_with
parse_cmd_arg-here sign name more =
    let arg = fsname ++ (sign ∷ name) in
    ap
      (λ (b : Bool). if b then and_run (copy_name arg) (λ n. done (some n)) else parse_cmd_arg more)
      (found_at_start-strstr arg fsname)
    ∙ copy_name-copied sign name

-- Behind arguments that do not start with "fsname", an argument that does gives the device what is
-- behind its seventh byte, whatever that byte is; a name of 20 bytes or more runs over the buffer.
pub parse_cmd_arg-copied :
    (args more : List (List ℕ)) (sign : ℕ) (name : List ℕ)
    → NoneStarts args
    → parse_cmd_arg (args ++ ((fsname ++ (sign ∷ name)) ∷ more)) ≡ copied name
unfolding parse_cmd_arg
parse_cmd_arg-copied [] more sign name h = parse_cmd_arg-here sign name more
parse_cmd_arg-copied (arg ∷ args) more sign name h =
    let behind = args ++ ((fsname ++ (sign ∷ name)) ∷ more) in
    ap
      (λ (b : Bool).
        if b then and_run (copy_name arg) (λ n. done (some n)) else parse_cmd_arg behind)
      (found_at_start-strstr arg fsname ∙ h.0)
    ∙ parse_cmd_arg-copied args more sign name h.1
