-- ===== src/Cache/Idle.antt =====
-- The free list as the buffers that nothing refers to.
use mathlib.Core.Path.{subst}
use native.Mathlib.Decide.{ℕ_discrete}
use naofs.Prelude.{
  ℕ, zero, suc, ◌+◌, ◌%◌, ◌^◌, ◌<◌, ◌≤◌, ◌≡◌, ◌≢◌, ◌⊎◌, inl, inr, refl, sym, ap, ◌∙◌, List, [], ◌∷◌,
  ◌++◌, length, length-append, false, arith,
}
use naofs.Params.{inode_buffer_size}
use naofs.Inode.{InCoreINode, insert_disk_inode_data}
use naofs.Pool.{Ptr, Pool}
use naofs.Blocks.Chain.{AllNe, Distinct}
use naofs.Pool.Ring.{IsRing, Cycle}
use naofs.Pool.Remove.{AllNe-at}
use naofs.Pool.Unqueue.{Distinct-skip}
use naofs.Cache.{Fs, set_inode, unlock, update_and_get_inode, fetch_inode_from_disk}
use naofs.Cache.Share.{set_self, set_ne}

abbrev pub Among : ℕ → List ℕ → Type 0
Among m [] = ⊥
Among m (x ∷ xs) = (m ≡ x) ⊎ Among m xs

abbrev pub count_of : Fs → ℕ → ℕ
count_of s m = (s.pool.inode m).reference_count

-- The nodes of the free list are the buffers without a reference.
pub record IsIdle (s : Fs) (xs : List ℕ) : Type 0 where
  pub ring : IsRing s.pool xs
  pub small : (m : ℕ) → Among m xs → m < inode_buffer_size
  pub idle : (m : ℕ) → Among m xs → count_of s m ≡ 0
  pub busy : (m : ℕ) → m < inode_buffer_size → count_of s m ≡ 0 → Among m xs

-- A change of one inode, to a count of references.
pub record IsTouched (s : Fs) (node k : ℕ) (s' : Fs) : Type 0 where
  pub next : s'.pool.next ≡ s.pool.next
  pub prev : s'.pool.prev ≡ s.pool.prev
  pub free_list : s'.pool.free_list ≡ s.pool.free_list
  pub count : count_of s' node ≡ k
  pub others : (m : ℕ) → m ≢ node → s'.pool.inode m ≡ s.pool.inode m

pub set-IsTouched :
    (s : Fs) (node : ℕ) (c : InCoreINode) → IsTouched s node c.reference_count (set_inode s node c)
unfolding set_inode
set-IsTouched s node c = record {
  next = refl;
  prev = refl;
  free_list = refl;
  count = unfold set_inode in ap (λ (i : InCoreINode). i.reference_count) (set_self s node c);
  others = λ m ne. set_ne s node m c ne;
}

pub IsTouched-then :
    (s s' s'' : Fs) (node k k' : ℕ)
    → IsTouched s node k s'
    → IsTouched s' node k' s''
    → IsTouched s node k' s''
IsTouched-then s s' s'' node k k' a b = record {
  next = b.next ∙ a.next;
  prev = b.prev ∙ a.prev;
  free_list = b.free_list ∙ a.free_list;
  count = b.count;
  others = λ m ne. b.others m ne ∙ a.others m ne;
}

pub unlock-IsTouched : (s : Fs) (node : ℕ) → IsTouched s node (count_of s node) (unlock s node)
unfolding unlock
unlock-IsTouched s node = set-IsTouched s node (record (s.pool.inode node) { locked = false })

pub fetch-IsTouched :
    (s : Fs) (n node : ℕ) → IsTouched s node (count_of s node) (fetch_inode_from_disk s n node)
unfolding fetch_inode_from_disk insert_disk_inode_data
fetch-IsTouched s n node = set-IsTouched s node _

pub update_and_get-IsTouched :
    (s : Fs) (node : ℕ)
    → IsTouched s node ((count_of s node + 1) % 2 ^ 64) (update_and_get_inode s node).1
unfolding update_and_get_inode
update_and_get-IsTouched s node =
    let c = s.pool.inode node in
    let more = (c.reference_count + 1) % 2 ^ 64 in
    let s1 = set_inode s node (record c { reference_count = more }) in
    let a = set-IsTouched s node (record c { reference_count = more }) in
    let b = unlock-IsTouched s1 node in
    IsTouched-then s s1 (unlock s1 node) node more more a
      (subst (λ k. IsTouched s1 node k (unlock s1 node)) a.count b)

pub touched-IsRing :
    (s s' : Fs) (node k : ℕ) (xs : List ℕ)
    → IsTouched s node k s'
    → IsRing s.pool xs
    → IsRing s'.pool xs
touched-IsRing s s' node k [] t f = t.free_list ∙ f
touched-IsRing s s' node k (x ∷ r) t f = (
  t.free_list ∙ f.0,
  subst (λ (g : ℕ → Ptr). Cycle g s'.pool.prev x r) (sym t.next)
      (subst (λ (g : ℕ → Ptr). Cycle s.pool.next g x r) (sym t.prev) f.1),
  f.2,
)

-- A buffer whose count stays the same.
pub same-IsIdle :
    (s s' : Fs) (node : ℕ) (xs : List ℕ)
    → IsTouched s node (count_of s node) s'
    → IsIdle s xs
    → IsIdle s' xs
same-IsIdle s s' node xs t h =
    let same : (m : ℕ) → count_of s' m ≡ count_of s m = λ m. elim (ℕ_discrete m node) [
      | yes e ↦ ap (count_of s') e ∙ t.count ∙ ap (count_of s) (sym e)
      | no ne ↦ ap (λ (i : InCoreINode). i.reference_count) (t.others m ne)
    ] in
    record {
      ring = touched-IsRing s s' node (count_of s node) xs t h.ring;
      small = h.small;
      idle = λ m a. same m ∙ h.idle m a;
      busy = λ m lt z. h.busy m lt (sym (same m) ∙ z);
    }

-- A buffer in use stays in use.
pub busy-IsIdle :
    (s s' : Fs) (node k : ℕ) (xs : List ℕ)
    → IsTouched s node k s'
    → k ≢ 0
    → count_of s node ≢ 0
    → IsIdle s xs
    → IsIdle s' xs
busy-IsIdle s s' node k xs t k0 c0 h = record {
  ring = touched-IsRing s s' node k xs t h.ring;
  small = h.small;
  idle = λ m a.
      let ne : m ≢ node = λ e. c0 (ap (count_of s) (sym e) ∙ h.idle m a) in
      ap (λ (i : InCoreINode). i.reference_count) (t.others m ne) ∙ h.idle m a;
  busy = λ m lt z.
      let ne : m ≢ node = λ e. k0 (sym t.count ∙ ap (count_of s') (sym e) ∙ z) in
      h.busy m lt (ap (λ (i : InCoreINode). i.reference_count) (sym (t.others m ne)) ∙ z);
}

pub Among-split :
    (m : ℕ) (xs : List ℕ) → Among m xs → (ys : List ℕ) × (zs : List ℕ) × (xs ≡ ys ++ (m ∷ zs))
Among-split m [] a = elim a [ ]
Among-split m (x ∷ xs) (inl e) = ([], xs, ap (λ k. k ∷ xs) (sym e))
Among-split m (x ∷ xs) (inr h) =
    let (ys, zs, e) = Among-split m xs h in (x ∷ ys, zs, ap (λ l. x ∷ l) e)

module _ (n : ℕ) (zs : List ℕ) where
  Among-skip : (m : ℕ) (ys : List ℕ) → Among m (ys ++ (n ∷ zs)) → m ≢ n → Among m (ys ++ zs)
  Among-skip m [] (inl e) ne = absurd (ne e)
  Among-skip m [] (inr h) ne = h
  Among-skip m (y ∷ ys) (inl e) ne = inl e
  Among-skip m (y ∷ ys) (inr h) ne = inr (Among-skip m ys h ne)

  Among-widen : (m : ℕ) (ys : List ℕ) → Among m (ys ++ zs) → Among m (ys ++ (n ∷ zs))
  Among-widen m [] h = inr h
  Among-widen m (y ∷ ys) (inl e) = inl e
  Among-widen m (y ∷ ys) (inr h) = inr (Among-widen m ys h)

  AllNe-Among : (xs : List ℕ) → AllNe n xs → Among n xs → ⊥
  AllNe-Among [] h a = elim a [ ]
  AllNe-Among (x ∷ xs) h (inl e) = h.0 (sym e)
  AllNe-Among (x ∷ xs) h (inr a) = AllNe-Among xs h.1 a

  Distinct-Among : (ys : List ℕ) → Distinct (ys ++ (n ∷ zs)) → Among n (ys ++ zs) → ⊥
  Distinct-Among [] d a = AllNe-Among zs d.0 a
  Distinct-Among (y ∷ ys) d (inl e) = AllNe-at y n ys zs d.0 e
  Distinct-Among (y ∷ ys) d (inr a) = Distinct-Among ys d.1 a

ring-Distinct : (p : Pool) (xs : List ℕ) → IsRing p xs → Distinct xs
ring-Distinct p [] f = tt
ring-Distinct p (x ∷ r) f = f.2

Among-Dec : (m : ℕ) (xs : List ℕ) → Dec (Among m xs)
Among-Dec m [] = no (λ a. a)
Among-Dec m (x ∷ xs) = elim (ℕ_discrete m x) [
  | yes e ↦ yes (inl e)
  | no ne ↦ elim (Among-Dec m xs) [
    | yes a ↦ yes (inr a)
    | no na ↦ no (λ o. elim o [ inl e ↦ ne e | inr a ↦ na a ])
  ]
]

-- As many numbers below `k` as there are in a list without repetition.
length-Distinct :
    (k : ℕ) (xs : List ℕ) → Distinct xs → ((m : ℕ) → Among m xs → m < k) → length xs ≤ k
length-Distinct k [] d h = omega arith
length-Distinct zero (x ∷ xs) d h = absurd (omega (arith, h x (inl refl)))
length-Distinct (suc k) (x ∷ r) d h = elim (Among-Dec k (x ∷ r)) [
  | yes a ↦
      let (ys, zs, e) = Among-split k (x ∷ r) a in
      let d' = Distinct-skip k ys zs (subst Distinct e d) in
      let le = length-Distinct k (ys ++ zs) d' (λ m b.
        let lt : m < suc k = h m (subst (Among m) (sym e) (Among-widen k zs m ys b)) in
        let ne : m ≢ k =
          λ q. Distinct-Among k zs ys (subst Distinct e d) (subst (λ j. Among j (ys ++ zs)) q b) in
        omega (arith, lt, ne)) in
      subst (λ l. length l ≤ suc k) (sym e)
        (omega (arith, le, length-append ys zs, length-append ys (k ∷ zs)))
  | no na ↦
      let le = length-Distinct k (x ∷ r) d (λ m b.
        let ne : m ≢ k = λ q. na (subst (λ j. Among j (x ∷ r)) q b) in omega (arith, h m b, ne)) in
      omega (arith, le)
]

pub IsIdle-few : (s : Fs) (xs : List ℕ) → IsIdle s xs → length xs ≤ inode_buffer_size
IsIdle-few s xs h = length-Distinct inode_buffer_size xs (ring-Distinct s.pool xs h.ring) h.small

-- A free buffer comes into use.
pub out-IsIdle :
    (s s' : Fs) (node k : ℕ) (ys zs : List ℕ)
    → IsRing s'.pool (ys ++ zs)
    → k ≢ 0
    → count_of s' node ≡ k
    → ((m : ℕ) → m ≢ node → s'.pool.inode m ≡ s.pool.inode m)
    → IsIdle s (ys ++ (node ∷ zs))
    → IsIdle s' (ys ++ zs)
out-IsIdle s s' node k ys zs ring k0 count others h =
    let d = ring-Distinct s.pool (ys ++ (node ∷ zs)) h.ring in
    record {
      ring = ring;
      small = λ m a. h.small m (Among-widen node zs m ys a);
      idle = λ m a.
          let ne : m ≢ node =
            λ e. Distinct-Among node zs ys d (subst (λ j. Among j (ys ++ zs)) e a) in
          ap (λ (i : InCoreINode). i.reference_count) (others m ne)
          ∙ h.idle m (Among-widen node zs m ys a);
      busy = λ m lt z.
          let ne : m ≢ node = λ e. k0 (sym count ∙ ap (count_of s') (sym e) ∙ z) in
          Among-skip node zs m ys
            (h.busy m lt (ap (λ (i : InCoreINode). i.reference_count) (sym (others m ne)) ∙ z)) ne;
    }

module _ (n : ℕ) where
  pub Among-last : (m : ℕ) (xs : List ℕ) → Among m (xs ++ (n ∷ [])) → Among m xs ⊎ (m ≡ n)
  Among-last m [] (inl e) = inr e
  Among-last m [] (inr a) = elim a [ ]
  Among-last m (x ∷ xs) (inl e) = inl (inl e)
  Among-last m (x ∷ xs) (inr h) = elim (Among-last m xs h) [ inl a ↦ inl (inr a) | inr e ↦ inr e ]

  pub Among-first : (m : ℕ) (xs : List ℕ) → Among m xs → Among m (xs ++ (n ∷ []))
  Among-first m [] a = elim a [ ]
  Among-first m (x ∷ xs) (inl e) = inl e
  Among-first m (x ∷ xs) (inr h) = inr (Among-first m xs h)

  pub Among-end : (xs : List ℕ) → Among n (xs ++ (n ∷ []))
  Among-end [] = inl refl
  Among-end (x ∷ xs) = inr (Among-end xs)

-- A buffer is out of use.
pub in-IsIdle :
    (s s' : Fs) (node : ℕ) (xs : List ℕ)
    → IsRing s'.pool (xs ++ (node ∷ []))
    → node < inode_buffer_size
    → count_of s' node ≡ 0
    → ((m : ℕ) → m ≢ node → s'.pool.inode m ≡ s.pool.inode m)
    → IsIdle s xs
    → IsIdle s' (xs ++ (node ∷ []))
in-IsIdle s s' node xs ring lt count others h = record {
  ring = ring;
  small = λ m a. elim (Among-last node m xs a) [
    | inl b ↦ h.small m b
    | inr e ↦ subst (λ j. j < inode_buffer_size) (sym e) lt
  ];
  idle = λ m a. elim (ℕ_discrete m node) [
    | yes e ↦ ap (count_of s') e ∙ count
    | no ne ↦ elim (Among-last node m xs a) [
      | inl b ↦ ap (λ (i : InCoreINode). i.reference_count) (others m ne) ∙ h.idle m b
      | inr e ↦ absurd (ne e)
    ]
  ];
  busy = λ m lt' z. elim (ℕ_discrete m node) [
    | yes e ↦ subst (λ j. Among j (xs ++ (node ∷ []))) (sym e) (Among-end node xs)
    | no ne ↦
        Among-first node m xs
          (h.busy m lt' (ap (λ (i : InCoreINode). i.reference_count) (sym (others m ne)) ∙ z))
  ];
}
