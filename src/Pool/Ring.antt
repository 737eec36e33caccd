-- ===== src/Pool/Ring.antt =====
-- What the free list stands for: the nodes round a circular doubly linked list, in order.
use naofs.Prelude.{
  ℕ, ◌≡◌, refl, sym, ◌∙◌, ◌≢◌, none, some, List, [], ◌∷◌, ◌++◌, ==-refl, ne→==-false,
}
use naofs.Pool.{Ptr, Pool, update}
use naofs.Blocks.Chain.{AllNe, Distinct}

-- The last node, with `x` first.
abbrev pub last : ℕ → List ℕ → ℕ
last x [] = x
last x (z ∷ r) = last z r

-- From `x` the members `next` lead through `r`, and the members `prev` lead back.
abbrev pub Open : (ℕ → Ptr) → (ℕ → Ptr) → ℕ → List ℕ → Type 0
Open next prev x [] = Unit {0}
Open next prev x (z ∷ r) = (next x ≡ some z) × (prev z ≡ some x) × Open next prev z r

abbrev pub Cycle : (ℕ → Ptr) → (ℕ → Ptr) → ℕ → List ℕ → Type 0
Cycle next prev x r = Open next prev x r × (next (last x r) ≡ some x) × (prev x ≡ some (last x r))

-- The free list of the pool is the queue `xs`, the next node to be taken first.
abbrev pub IsRing : Pool → List ℕ → Type 0
IsRing p [] = p.free_list ≡ none
IsRing p (x ∷ r) = (p.free_list ≡ some x) × Cycle p.next p.prev x r × Distinct (x ∷ r)

pub last-append : (x : ℕ) (r : List ℕ) (n : ℕ) → last x (r ++ (n ∷ [])) ≡ n
last-append x [] n = refl
last-append x (z ∷ r) n = last-append z r n

pub last-ne : (k x : ℕ) (r : List ℕ) → AllNe k (x ∷ r) → last x r ≢ k
last-ne k x [] h = h.0
last-ne k x (z ∷ r) h = last-ne k z r h.1

-- A path survives changes of `next` at its last node or at `n`, and of `prev` at `n` or at `h`, if
-- it does not pass `n`, nor `h` behind its first node.
pub Open-frame :
    (next prev next' prev' : ℕ → Ptr) (x : ℕ) (r : List ℕ) (l n h : ℕ)
    → l ≡ last x r
    → ((a : ℕ) → a ≢ l → a ≢ n → next' a ≡ next a)
    → ((a : ℕ) → a ≢ n → a ≢ h → prev' a ≡ prev a)
    → AllNe n (x ∷ r)
    → AllNe h r
    → Distinct (x ∷ r)
    → Open next prev x r
    → Open next' prev' x r
Open-frame next prev next' prev' x [] l n h e hn hp out first d o = tt
Open-frame next prev next' prev' x (z ∷ r) l n h e hn hp out first d o =
    let xl : x ≢ l = λ q. last-ne x z r d.0 (sym e ∙ sym q) in
    (
      hn x xl out.0 ∙ o.0,
      hp z out.1.0 first.0 ∙ o.1,
      Open-frame next prev next' prev' z r l n h e hn hp out.1 first.1 d.1 o.2,
    )

pub Open-append :
    (next prev : ℕ → Ptr) (x : ℕ) (r : List ℕ) (n : ℕ)
    → Open next prev x r
    → next (last x r) ≡ some n
    → prev n ≡ some (last x r)
    → Open next prev x (r ++ (n ∷ []))
Open-append next prev x [] n o e1 e2 = (e1, e2, tt)
Open-append next prev x (z ∷ r) n o e1 e2 = (o.0, o.1, Open-append next prev z r n o.2 e1 e2)

pub Distinct-append : (xs : List ℕ) (n : ℕ) → Distinct xs → AllNe n xs → Distinct (xs ++ (n ∷ []))
Distinct-append [] n d h = (tt, tt)
Distinct-append (x ∷ xs) n d h =
    (AllNe-snoc x xs n d.0 (λ e. h.0 (sym e)), Distinct-append xs n d.1 h.1)
  where
    AllNe-snoc : (k : ℕ) (ys : List ℕ) (m : ℕ) → AllNe k ys → m ≢ k → AllNe k (ys ++ (m ∷ []))
    AllNe-snoc k [] m a b = (b, tt)
    AllNe-snoc k (y ∷ ys) m a b = (a.0, AllNe-snoc k ys m a.1 b)

pub update_self {ℓ} : {A : Type ℓ} (f : ℕ → A) (p : ℕ) (v : A) → update f p v p ≡ v
unfolding update
update_self f p v = rw (==-refl p)

pub update_ne {ℓ} : {A : Type ℓ} (f : ℕ → A) (p q : ℕ) (v : A) → q ≢ p → update f p v q ≡ f q
unfolding update
update_ne f p q v h = rw (ne→==-false q p h)
