-- ===== src/Pool/Unqueue.antt =====
-- `removeFromHashQ`: a node taken out of its queue, wherever it stands in it.
use mathlib.Core.Path.{subst}
use naofs.Prelude.{
  ℕ, ◌≡◌, ◌≢◌, refl, sym, ap, ◌∙◌, Bool, none, some, List, [], ◌∷◌, ◌++◌, if◌then◌else◌, ==-refl,
  ne→==-false, if_both,
}
use naofs.Pool.{Ptr, Pool, update, update_if, ptr_eq, remove_from}
use naofs.Blocks.Chain.{AllNe, Distinct}
use naofs.Pool.Ring.{last, last-ne, update_self, update_ne}
use naofs.Pool.Remove.{AllNe-left, AllNe-at}
use naofs.Pool.Hash.{Follows, IsQueue}

module _ (f : ℕ → Ptr) (v : Ptr) where
  update_if_at : (o : Ptr) (h : ℕ) → o ≡ some h → update_if f o v h ≡ v
  update_if_at o h e = ap (λ o. update_if f o v h) e ∙ update_self f h v

  update_if_off : (o : Ptr) (h a : ℕ) → o ≡ some h → a ≢ h → update_if f o v a ≡ f a
  update_if_off o h a e ne = ap (λ o. update_if f o v a) e ∙ update_ne f h a v ne

  update_if-none : (o : Ptr) (a : ℕ) → o ≡ none → update_if f o v a ≡ f a
  update_if-none o a e = ap (λ o. update_if f o v a) e

-- The nodes of a list keep their members.
abbrev Agree : (next prev next' prev' : ℕ → Ptr) → List ℕ → Type 0
Agree next prev next' prev' [] = Unit {0}
Agree next prev next' prev' (x ∷ r) =
    (next' x ≡ next x) × (prev' x ≡ prev x) × Agree next prev next' prev' r

module _ (next prev next' prev' : ℕ → Ptr) where
  Follows-Agree :
      (back q : Ptr) (xs : List ℕ)
      → Agree next prev next' prev' xs
      → Follows next prev back q xs
      → Follows next' prev' back q xs
  Follows-Agree back q [] a f = f
  Follows-Agree back q (x ∷ r) a f =
      (f.0, a.1 ∙ f.1, rw a.0 (Follows-Agree (some x) (next x) r a.2 f.2))

  -- The nodes in front of the gap: all keep `prev`, all but the last keep `next`.
  abbrev Front : ℕ → List ℕ → Type 0
  Front y [] = prev' y ≡ prev y
  Front y (w ∷ ys) = (prev' y ≡ prev y) × (next' y ≡ next y) × Front w ys

  -- The nodes behind the gap: the first one follows `back`.
  abbrev Patched : Ptr → List ℕ → Type 0
  Patched back [] = Unit {0}
  Patched back (z ∷ r) = (next' z ≡ next z) × (prev' z ≡ back) × Agree next prev next' prev' r

  Follows-Patched :
      (old back q : Ptr) (zs : List ℕ)
      → Patched back zs
      → Follows next prev old q zs
      → Follows next' prev' back q zs
  Follows-Patched old back q [] h f = f
  Follows-Patched old back q (z ∷ r) h f =
      (f.0, h.1, rw h.0 (Follows-Agree (some z) (next z) r h.2 f.2))

  Follows-cut :
      (back q : Ptr) (y n : ℕ) (ys zs : List ℕ)
      → next' (last y ys) ≡ next n
      → Front y ys
      → Patched (some (last y ys)) zs
      → Follows next prev back q (y ∷ (ys ++ (n ∷ zs)))
      → Follows next' prev' back q (y ∷ (ys ++ zs))
  Follows-cut back q y n [] zs e front patched f =
      (f.0, front ∙ f.1, rw e (Follows-Patched (some n) (some y) (next n) zs patched f.2.2))
  Follows-cut back q y n (w ∷ ys) zs e front patched f = (
    f.0,
    front.0 ∙ f.1,
    rw front.1 (Follows-cut (some y) (next y) w n ys zs e front.2 patched f.2),
  )

-- What is known of the node in the gap.
Follows-at :
    (next prev : ℕ → Ptr) (back q : Ptr) (y n : ℕ) (ys zs : List ℕ)
    → Follows next prev back q (y ∷ (ys ++ (n ∷ zs)))
    → (prev n ≡ some (last y ys)) × Follows next prev (some n) (next n) zs
Follows-at next prev back q y n [] zs f = (f.2.1, f.2.2)
Follows-at next prev back q y n (w ∷ ys) zs f = Follows-at next prev (some y) (next y) w n ys zs f.2

AllNe-behind : (k n : ℕ) (ys zs : List ℕ) → AllNe k (ys ++ (n ∷ zs)) → AllNe k zs
AllNe-behind k n [] zs h = h.1
AllNe-behind k n (y ∷ ys) zs h = AllNe-behind k n ys zs h.1

Distinct-behind : (n : ℕ) (ys zs : List ℕ) → Distinct (ys ++ (n ∷ zs)) → Distinct (n ∷ zs)
Distinct-behind n [] zs d = d
Distinct-behind n (y ∷ ys) zs d = Distinct-behind n ys zs d.1

last-AllNe :
    (y n : ℕ) (ys zs : List ℕ)
    → Distinct (y ∷ (ys ++ (n ∷ zs)))
    → (n ≢ last y ys) × AllNe (last y ys) zs
last-AllNe y n [] zs d = (d.0.0, d.0.1)
last-AllNe y n (w ∷ ys) zs d = last-AllNe w n ys zs d.1

pub Distinct-skip : (n : ℕ) (ys zs : List ℕ) → Distinct (ys ++ (n ∷ zs)) → Distinct (ys ++ zs)
Distinct-skip n [] zs d = d.1
Distinct-skip n (y ∷ ys) zs d = (AllNe-skip y ys d.0, Distinct-skip n ys zs d.1)
  where
    AllNe-skip : (k : ℕ) (ys : List ℕ) → AllNe k (ys ++ (n ∷ zs)) → AllNe k (ys ++ zs)
    AllNe-skip k [] h = h.1
    AllNe-skip k (y ∷ ys) h = (h.0, AllNe-skip k ys h.1)

module _ (next prev next' prev' : ℕ → Ptr) (t n : ℕ) (zs : List ℕ) where
  Front-of :
      ((a : ℕ) → a ≢ t → a ≢ n → next' a ≡ next a)
      → ((a : ℕ) → a ≢ n → AllNe a zs → prev' a ≡ prev a)
      → (y : ℕ) (ys : List ℕ) → t ≡ last y ys
      → Distinct (y ∷ (ys ++ (n ∷ zs)))
      → Front next prev next' prev' y ys
  Front-of hn hp y [] e d = hp y (λ q. d.0.0 (sym q)) d.0.1
  Front-of hn hp y (w ∷ ys) e d =
      let yn : y ≢ n = λ q. AllNe-at y n (w ∷ ys) zs d.0 (sym q) in
      let yt : y ≢ t = λ q. last-ne y w ys (AllNe-left y (w ∷ ys) (n ∷ zs) d.0) (sym e ∙ sym q) in
      (hp y yn (AllNe-behind y n (w ∷ ys) zs d.0), hn y yt yn, Front-of hn hp w ys e d.1)

-- A node is not the one pointed to; below, none of some is.
abbrev NotAt : Ptr → ℕ → Type 0
NotAt none a = Unit {0}
NotAt (some t) a = a ≢ t

abbrev ApartFrom : Ptr → List ℕ → Type 0
ApartFrom back [] = Unit {0}
ApartFrom back (x ∷ xs) = NotAt back x × ApartFrom back xs

AllNe-ApartFrom : (t : ℕ) (xs : List ℕ) → AllNe t xs → ApartFrom (some t) xs
AllNe-ApartFrom t [] h = tt
AllNe-ApartFrom t (x ∷ xs) h = (h.0, AllNe-ApartFrom t xs h.1)

none-ApartFrom : (xs : List ℕ) → ApartFrom none xs
none-ApartFrom [] = tt
none-ApartFrom (x ∷ xs) = (tt, none-ApartFrom xs)

module _ (p : Pool) (n : ℕ) where
  abbrev prev1 : ℕ → Ptr
  prev1 = update_if p.hash_prev (p.hash_next n) (p.hash_prev n)

  abbrev next1 : ℕ → Ptr
  next1 = update_if p.hash_next (prev1 n) (p.hash_next n)

  abbrev next2 : ℕ → Ptr
  next2 = update next1 n none

  abbrev prev2 : ℕ → Ptr
  prev2 = update prev1 n none

  -- `prev` changes only at the node behind.
  prev1-AllNe :
      (back : Ptr) (zs : List ℕ) (a : ℕ)
      → Follows p.hash_next p.hash_prev back (p.hash_next n) zs
      → AllNe a zs
      → prev1 a ≡ p.hash_prev a
  prev1-AllNe back [] a f h = update_if-none p.hash_prev (p.hash_prev n) (p.hash_next n) a f
  prev1-AllNe back (z ∷ r) a f h =
      update_if_off p.hash_prev (p.hash_prev n) (p.hash_next n) z a f.0 (λ e. h.0 (sym e))

  Patched-behind :
      (back old : Ptr) (zs : List ℕ)
      → Follows p.hash_next p.hash_prev old (p.hash_next n) zs
      → p.hash_prev n ≡ back
      → Distinct (n ∷ zs)
      → ((a : ℕ) → a ≢ n → NotAt back a → next2 a ≡ p.hash_next a)
      → ApartFrom back zs
      → Patched p.hash_next p.hash_prev next2 prev2 back zs
  Patched-behind back old [] f e d hn apart = tt
  Patched-behind back old (z ∷ r) f e d hn apart = (
    hn z d.0.0 apart.0,
    update_ne prev1 n z none d.0.0
        ∙ update_if_at p.hash_prev (p.hash_prev n) (p.hash_next n) z f.0
        ∙ e,
    kept r d.0.1 d.1.0 apart.1,
  )
    where
      kept :
          (xs : List ℕ)
          → AllNe n xs
          → AllNe z xs
          → ApartFrom back xs
          → Agree p.hash_next p.hash_prev next2 prev2 xs
      kept [] a b c = tt
      kept (x ∷ xs) a b c = (
        hn x a.0 c.0,
        update_ne prev1 n x none a.0
            ∙ update_if_off p.hash_prev (p.hash_prev n) (p.hash_next n) z x f.0 b.0,
        kept xs a.1 b.1 c.1,
      )

  -- `next` changes only at the node in front.
  next2-off : (back : Ptr) (a : ℕ) → prev1 n ≡ back → a ≢ n → NotAt back a → next2 a ≡ p.hash_next a
  next2-off none a e ne h =
      update_ne next1 n a none ne ∙ update_if-none p.hash_next (p.hash_next n) (prev1 n) a e
  next2-off (some t) a e ne h =
      update_ne next1 n a none ne ∙ update_if_off p.hash_next (p.hash_next n) (prev1 n) t a e h

  -- The node is first in its queue.
  remove_from-first :
      (i : ℕ) (zs : List ℕ) → IsQueue p i (n ∷ zs) → IsQueue (remove_from p n i) i zs
  unfolding remove_from
  remove_from-first i zs f =
      let e : prev1 n ≡ none = prev1-AllNe (some n) zs n f.0.2 f.1.0 ∙ f.0.1 in
      let head : (if ptr_eq (p.hash_q i) (some n)
              then update p.hash_q i (p.hash_next n)
              else p.hash_q)
            i
          ≡ p.hash_next n =
        ap (λ (b : Bool). (if b then update p.hash_q i (p.hash_next n) else p.hash_q) i)
          (ap (λ o. ptr_eq o (some n)) f.0.0 ∙ ==-refl n)
        ∙ update_self p.hash_q i (p.hash_next n) in
      let body =
        Follows-Patched p.hash_next p.hash_prev next2 prev2 (some n) none (p.hash_next n) zs
          (Patched-behind none (some n) zs f.0.2 f.0.1 f.1 (λ a ne h. next2-off none a e ne h)
            (none-ApartFrom zs))
          f.0.2 in
      (subst (λ q. Follows next2 prev2 none q zs) (sym head) body, f.1.1)

  -- The node is behind `y` in its queue.
  remove_from-further :
      (i y : ℕ) (ys zs : List ℕ)
      → IsQueue p i (y ∷ (ys ++ (n ∷ zs)))
      → IsQueue (remove_from p n i) i (y ∷ (ys ++ zs))
  unfolding remove_from
  remove_from-further i y ys zs f =
      let t = last y ys in
      let (before, rest) = Follows-at p.hash_next p.hash_prev none (p.hash_q i) y n ys zs f.0 in
      let d : Distinct (n ∷ zs) = Distinct-behind n (y ∷ ys) zs f.1 in
      let (nt, apart) = last-AllNe y n ys zs f.1 in
      let e : prev1 n ≡ some t = prev1-AllNe (some n) zs n rest d.0 ∙ before in
      let yn : y ≢ n = λ q. AllNe-at y n ys zs f.1.0 (sym q) in
      let head : (if ptr_eq (p.hash_q i) (some n)
              then update p.hash_q i (p.hash_next n)
              else p.hash_q)
            i
          ≡ p.hash_q i =
        ap (λ (b : Bool). (if b then update p.hash_q i (p.hash_next n) else p.hash_q) i)
          (ap (λ o. ptr_eq o (some n)) f.0.0 ∙ ne→==-false y n yn) in
      let body =
        Follows-cut p.hash_next p.hash_prev next2 prev2 none (p.hash_q i) y n ys zs
          (update_ne next1 n t none (λ q. nt (sym q))
            ∙ update_if_at p.hash_next (p.hash_next n) (prev1 n) t e)
          (Front-of p.hash_next p.hash_prev next2 prev2 t n zs
            (λ a at an. next2-off (some t) a e an at)
            (λ a an h. update_ne prev1 n a none an ∙ prev1-AllNe (some n) zs a rest h) y ys refl
            f.1)
          (Patched-behind (some t) (some n) zs rest before d (λ a an h. next2-off (some t) a e an h)
            (AllNe-ApartFrom t zs apart))
          f.0 in
      (
        subst (λ q. Follows next2 prev2 none q (y ∷ (ys ++ zs))) (sym head) body,
        Distinct-skip n (y ∷ ys) zs f.1,
      )

other_heads : (p : Pool) (n i j : ℕ) → j ≢ i → (remove_from p n i).hash_q j ≡ p.hash_q j
unfolding remove_from
other_heads p n i j ne =
    if_both (λ (q : ℕ → Ptr). q j ≡ p.hash_q j) (ptr_eq (p.hash_q i) (some n))
      (update p.hash_q i (p.hash_next n)) p.hash_q (update_ne p.hash_q i j (p.hash_next n) ne) refl

-- `removeFromHashQ` takes a node out of its queue, wherever it stands; the others stay linked both
-- ways, in order, and the heads of the other queues, the free list and the inodes stay as they are.
pub remove_from-append :
    (p : Pool) (n i : ℕ) (ys zs : List ℕ)
    → IsQueue p i (ys ++ (n ∷ zs))
    → let p' = remove_from p n i in
      IsQueue p' i (ys ++ zs)
      × ((j : ℕ) → j ≢ i → p'.hash_q j ≡ p.hash_q j)
      × (p'.next ≡ p.next)
      × (p'.prev ≡ p.prev)
      × (p'.free_list ≡ p.free_list)
      × (p'.inode ≡ p.inode)
unfolding remove_from
remove_from-append p n i [] zs f =
    (remove_from-first p n i zs f, other_heads p n i, refl, refl, refl, refl)
remove_from-append p n i (y ∷ ys) zs f =
    (remove_from-further p n i y ys zs f, other_heads p n i, refl, refl, refl, refl)
