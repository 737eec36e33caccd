-- ===== src/Namei/Parent.antt =====
-- The walk to a file is the walk to its directory and one more name.
use naofs.Prelude.{
  ℕ, zero, suc, ◌+◌, ◌≡◌, ◌≤◌, ◌<◌, refl, sym, ap, ◌∙◌, Option, none, some, List, [], ◌∷◌, ◌++◌,
  length, length-append, drop, arith,
}
use naofs.Pool.{Ptr}
use naofs.Cache.{done, fault, Fs}
use naofs.System.{Env, M, pure, bind-done, ◌>>=◌, iget_at_root}
use naofs.Namei.{
  slash, next_name, operate, resolve, get_file_inode, get_parent_inode, get_parent_directory,
  first_part,
}
use naofs.Namei.Split.{NoSlash}
use naofs.System.Steps.{bind_assoc, bind_same, bind-pure}
use naofs.Namei.Names.{last_name, longer, append-Cut, next_name-NoSlash, split_last-slash}

-- The step to a name from what was found so far.
abbrev pub enter : Env → List ℕ → Ptr → M Ptr
enter e file none = pure none
enter e file (some node) = operate e file (some node)

-- The rounds behind the one that found `next`.
abbrev onward : ℕ → Env → List ℕ → Ptr → M Ptr
onward fuel e path next = elim next [
  | none ↦ pure none
  | some node ↦ resolve fuel e path (some node)
]

resolve-step :
    (fuel : ℕ) (e : Env) (path name rest : List ℕ) (node : ℕ) (s : Fs)
    → 0 < length path
    → next_name path ≡ (name, rest)
    → resolve (suc fuel) e path (some node) s
      ≡ (operate e name (some node) >>= onward fuel e rest) s
unfolding resolve
resolve-step fuel e [] name rest node s p h = absurd (omega arith)
resolve-step fuel e (c ∷ cs) name rest node s p h =
    ap (λ (q : List ℕ × List ℕ). (operate e q.0 (some node) >>= onward fuel e q.1) s) h

-- The end of a walk does nothing more.
onward-end : (fuel : ℕ) (e : Env) (next : Ptr) (s : Fs) → onward fuel e [] next s ≡ pure next s
unfolding resolve
onward-end fuel e none s = refl
onward-end fuel e (some node) s = refl

-- A walk of one name.
resolve-name :
    (fuel : ℕ) (e : Env) (file : List ℕ) (node : ℕ) (s : Fs)
    → NoSlash file
    → length file ≤ fuel
    → resolve fuel e file (some node) s ≡ operate e file (some node) s
unfolding resolve operate
resolve-name fuel e [] node s h l = refl
resolve-name zero e (c ∷ cs) node s h l = absurd (omega arith)
resolve-name (suc fuel) e (c ∷ cs) node s h l =
    resolve-step fuel e (c ∷ cs) (c ∷ cs) [] node s (omega arith) (next_name-NoSlash (c ∷ cs) h)
    ∙ bind_same (operate e (c ∷ cs) (some node)) (onward fuel e []) pure s
        (λ next t. onward-end fuel e next t)
    ∙ bind-pure (operate e (c ∷ cs) (some node)) s

module _ (fuel fuel' : ℕ) (e : Env) (path path' file : List ℕ)
    (same : (n : ℕ) (t : Fs)
      → resolve fuel e path (some n) t ≡ (resolve fuel' e path' (some n) >>= enter e file) t) where
  onward-enter :
      (a : Ptr) (t : Fs) → onward fuel e path a t ≡ (onward fuel' e path' a >>= enter e file) t
  onward-enter none t = refl
  onward-enter (some n) t = same n t

  -- Walks that go on alike behind the same first name.
  resolve-onward :
      (whole whole' name : List ℕ) (node : ℕ) (s : Fs)
      → 0 < length whole
      → 0 < length whole'
      → next_name whole ≡ (name, path)
      → next_name whole' ≡ (name, path')
      → resolve (suc fuel) e whole (some node) s
        ≡ (resolve (suc fuel') e whole' (some node) >>= enter e file) s
  resolve-onward whole whole' name node s l l' p q =
      resolve-step fuel e whole name path node s l p
      ∙ bind_same (operate e name (some node)) (onward fuel e path)
          (λ a. onward fuel' e path' a >>= enter e file) s onward-enter
      ∙ sym (bind_assoc (operate e name (some node)) (onward fuel' e path') (enter e file) s)
      ∙ ap (λ r. ((λ (t : Fs). r) >>= enter e file) s)
          (sym (resolve-step fuel' e whole' name path' node s l' q))

-- The walk splits at the last slash.
resolve-enter :
    (fuel fuel' : ℕ) (e : Env) (xs file : List ℕ) (node : ℕ) (s : Fs)
    → NoSlash file
    → length xs + length file < fuel
    → length xs < fuel'
    → resolve fuel e (xs ++ (slash ∷ file)) (some node) s
      ≡ (resolve fuel' e (xs ++ (slash ∷ [])) (some node) >>= enter e file) s
unfolding resolve
resolve-enter zero fuel' e xs file node s h l l' = absurd (omega arith)
resolve-enter (suc fuel) zero e xs file node s h l l' = absurd (omega arith)
resolve-enter (suc fuel) (suc fuel') e xs file node s h l l' =
    let long = length-append xs (slash ∷ file) in
    let long' = length-append xs (slash ∷ []) in
    elim (append-Cut file xs) [
      | last_name p q ↦
          resolve-onward fuel fuel' e file [] file
            (λ n t. resolve-name fuel e file n t h (omega arith)) (xs ++ (slash ∷ file))
            (xs ++ (slash ∷ [])) xs node s (omega (arith, long)) (omega (arith, long')) p q
      | longer name rest lt p q ↦
          resolve-onward fuel fuel' e (rest ++ (slash ∷ file)) (rest ++ (slash ∷ [])) file
            (λ n t. resolve-enter fuel fuel' e rest file n t h (omega arith) (omega arith))
            (xs ++ (slash ∷ file)) (xs ++ (slash ∷ [])) name node s (omega (arith, long))
            (omega (arith, long')) p q
    ]

-- The walks behind the root.
from_root :
    (e : Env) (dir file : List ℕ) (root : ℕ) (s : Fs)
    → NoSlash file
    → let path = dir ++ (slash ∷ file) in
      let parent = dir ++ (slash ∷ []) in
      resolve (length path) e (drop 1 path) (some root) s
      ≡ (resolve (length parent) e (drop 1 parent) (some root) >>= enter e file) s
unfolding resolve drop
from_root e [] file root s h = resolve-name (suc (length file)) e file root s h (omega arith)
from_root e (c ∷ cs) file root s h =
    resolve-enter (suc (length (cs ++ (slash ∷ file)))) (suc (length (cs ++ (slash ∷ [])))) e cs
      file root s h (omega (arith, length-append cs (slash ∷ file)))
      (omega (arith, length-append cs (slash ∷ [])))

-- Where the inode of the root is found, the walk along a path with a slash in it is the walk to
-- the parent directory, as createFile, unlinkFile and renameFile look it up, and then the search
-- for the name behind the last slash in it: both find the same inode, meet the same faults and
-- leave the same state.
pub get_file_inode-parent :
    (e : Env) (dir file : List ℕ) (root : ℕ) (s s1 : Fs)
    → NoSlash file
    → iget_at_root 0 s ≡ done (some root, s1)
    → let path = dir ++ (slash ∷ file) in
      get_file_inode e path s ≡ (get_parent_inode e path >>= enter e file) s
unfolding get_file_inode get_parent_inode get_parent_directory first_part
get_file_inode-parent e dir file root s s1 h found =
    let path = dir ++ (slash ∷ file) in
    let parent = dir ++ (slash ∷ []) in
    bind-done (iget_at_root 0) (resolve (length path) e (drop 1 path)) s (some root) s1 found
    ∙ from_root e dir file root s1 h
    ∙ sym (
        ap (λ r. ((λ (t : Fs). r) >>= enter e file) s)
          (bind-done (iget_at_root 0) (resolve (length parent) e (drop 1 parent)) s (some root) s1
            found))
    ∙ ap
        (λ (o : Option (List ℕ × List ℕ)).
          ((elim (first_part o) as (λ x. M Ptr) [ none ↦ λ t. fault | some d ↦ get_file_inode e d ])
              >>= enter e file)
            s)
        (sym (split_last-slash dir file h))
