-- ===== src/Blocks/Zeros.antt =====
-- Lists of block numbers with zeros in front: what the loops of alloc.c and free.c do to them.
use naofs.Prelude.{
  ℕ, zero, suc, ◌+◌, ◌≤◌, ◌<◌, ◌≡◌, refl, ap, ◌≢◌, List, [], ◌∷◌, ◌++◌, arith, length, get_or, set,
  replicate, AllBelow, ◌==◌, ne→==-false, if_both, ◌⊎◌, inl, inr,
}
use naofs.Blocks.{alloc_scan, clear_first, put_last_zero}
use naofs.Blocks.Chain.{AllNe}

pub alloc_scan-zeros : (z y : ℕ) (r : List ℕ) → y ≢ 0 → alloc_scan (replicate z 0 ++ (y ∷ r)) ≡ z
unfolding alloc_scan replicate
alloc_scan-zeros zero y r h = ground (arith, ne→==-false y 0 h)
alloc_scan-zeros (suc z) y r h = ap suc (alloc_scan-zeros z y r h)

pub get_or-zeros : (z y : ℕ) (r : List ℕ) → get_or (replicate z 0 ++ (y ∷ r)) z 0 ≡ y
unfolding replicate
get_or-zeros zero y r = refl
get_or-zeros (suc z) y r = get_or-zeros z y r

pub set-zeros :
    (z y v : ℕ) (r : List ℕ) → set (replicate z 0 ++ (y ∷ r)) z v ≡ replicate z 0 ++ (v ∷ r)
unfolding replicate
set-zeros zero y v r = refl
set-zeros (suc z) y v r = ap (λ l. 0 ∷ l) (set-zeros z y v r)

-- A zero moves between the front and the rest.
pub zeros-suc : (z : ℕ) (r : List ℕ) → replicate z 0 ++ (0 ∷ r) ≡ replicate (suc z) 0 ++ r
unfolding replicate
zeros-suc zero r = refl
zeros-suc (suc z) r = ap (λ l. 0 ∷ l) (zeros-suc z r)

pub AllBelow-set : (b : ℕ) (xs : List ℕ) (i v : ℕ) → AllBelow b xs → v < b → AllBelow b (set xs i v)
AllBelow-set b [] i v h lt = tt
AllBelow-set b (x ∷ xs) zero v h lt = (lt, h.1)
AllBelow-set b (x ∷ xs) (suc i) v h lt = (h.0, AllBelow-set b xs i v h.1 lt)

pub AllBelow-put_last_zero :
    (b n : ℕ) (xs : List ℕ) (v : ℕ) → AllBelow b xs → v < b → AllBelow b (put_last_zero n xs v)
unfolding put_last_zero
AllBelow-put_last_zero b zero xs v h lt = h
AllBelow-put_last_zero b (suc i) xs v h lt =
    if_both (AllBelow b) (get_or xs i 0 == 0) (set xs i v) (put_last_zero i xs v)
      (AllBelow-set b xs i v h lt) (AllBelow-put_last_zero b i xs v h lt)

get_or-ne_zero : (zs : List ℕ) (i : ℕ) → AllNe 0 zs → i < length zs → get_or zs i 0 ≢ 0
get_or-ne_zero [] i h lt = absurd (omega arith)
get_or-ne_zero (x ∷ xs) zero h lt = h.0
get_or-ne_zero (x ∷ xs) (suc i) h lt = get_or-ne_zero xs i h.1 (omega arith)

get_or-zeros_behind :
    (z : ℕ) (zs : List ℕ) (i : ℕ)
    → AllNe 0 zs
    → z ≤ i
    → i < z + length zs
    → get_or (replicate z 0 ++ zs) i 0 ≢ 0
unfolding replicate
get_or-zeros_behind zero zs i h le lt = get_or-ne_zero zs i h (omega arith)
get_or-zeros_behind (suc z) zs zero h le lt = absurd (omega arith)
get_or-zeros_behind (suc z) zs (suc i) h le lt =
    get_or-zeros_behind z zs i h (omega arith) (omega arith)

-- From any place among or just behind the numbers that are not zero, the loop writes over the last
-- of the zeros in front.
pub put_last_zero-zeros :
    (n z : ℕ) (zs : List ℕ) (b : ℕ)
    → AllNe 0 zs
    → z < n
    → n ≤ suc z + length zs
    → put_last_zero n (replicate z 0 ++ (0 ∷ zs)) b ≡ replicate z 0 ++ (b ∷ zs)
unfolding put_last_zero
put_last_zero-zeros zero z zs b h lt le = absurd (omega arith)
put_last_zero-zeros (suc i) z zs b h lt le =
    go (split (omega arith)) (λ k. put_last_zero-zeros i z zs b h k (omega arith))
  where
    split : z ≤ i → (z ≡ i) ⊎ (z < i)
    split e = omega arith

    go :
        (z ≡ i) ⊎ (z < i)
        → (z < i → put_last_zero i (replicate z 0 ++ (0 ∷ zs)) b ≡ replicate z 0 ++ (b ∷ zs))
        → put_last_zero (suc i) (replicate z 0 ++ (0 ∷ zs)) b ≡ replicate z 0 ++ (b ∷ zs)
    go (inl e) ih = rw (← e) (rw (get_or-zeros z 0 zs) (set-zeros z 0 b zs))
    go (inr k) ih =
        let ne : get_or (replicate z 0 ++ (0 ∷ zs)) i 0 ≢ 0 =
          rw (zeros-suc z zs) (get_or-zeros_behind (suc z) zs i h k (omega arith)) in
        rw (ne→==-false (get_or (replicate z 0 ++ (0 ∷ zs)) i 0) 0 ne) (ih k)

-- The other loop clears all but the last number.
pub clear_first-set :
    (xs : List ℕ) (n b : ℕ)
    → length xs ≡ suc n
    → clear_first n (set xs n b) ≡ replicate n 0 ++ (b ∷ [])
unfolding clear_first replicate
clear_first-set [] n b h = absurd (omega arith)
clear_first-set (x ∷ []) zero b h = refl
clear_first-set (x ∷ y ∷ xs) zero b h = absurd (omega arith)
clear_first-set (x ∷ xs) (suc n) b h = ap (λ l. 0 ∷ l) (clear_first-set xs n b (omega arith))

pub AllBelow-zeros : (b n v : ℕ) → v < b → 0 < b → AllBelow b (replicate n 0 ++ (v ∷ []))
unfolding replicate
AllBelow-zeros b zero v h p = (h, tt)
AllBelow-zeros b (suc n) v h p = (p, AllBelow-zeros b n v h p)
