-- ===== src/Prelude/Lists.antt =====
-- C arrays as lists with native indices: reads, writes and copies of a range of elements.
use Prim.Native.Nat.{ℕ, zero, suc, ◌+◌, ◌≤◌, ◌<◌}
use mathlib.Core.Path.{◌≡◌, refl, ap, ◌∙◌}
use mathlib.Core.Logic.{◌≢◌}
use mathlib.Core.List.{List, [], ◌∷◌, ◌++◌}
use native.Mathlib.Omega.{arith}

module _ {ℓ} {A : Type ℓ} where
  abbrev pub length : List A → ℕ
  length [] = 0
  length (x ∷ xs) = suc (length xs)

  -- An array read; the default stands for a read out of bounds.
  abbrev pub get_or : List A → ℕ → A → A
  get_or [] i d = d
  get_or (x ∷ xs) zero d = x
  get_or (x ∷ xs) (suc i) d = get_or xs i d

  -- An array write; out of bounds it changes nothing.
  abbrev pub set : List A → ℕ → A → List A
  set [] i v = []
  set (x ∷ xs) zero v = v ∷ xs
  set (x ∷ xs) (suc i) v = x ∷ set xs i v

  unfoldable pub take : ℕ → List A → List A
  take zero xs = []
  take (suc n) [] = []
  take (suc n) (x ∷ xs) = x ∷ take n xs

  unfoldable pub replicate : ℕ → A → List A
  replicate zero a = []
  replicate (suc n) a = a ∷ replicate n a

  -- The `n` elements from index `i` on.
  unfoldable pub slice : ℕ → ℕ → List A → List A
  unfolding take
  slice zero n xs = take n xs
  slice (suc i) n [] = []
  slice (suc i) n (x ∷ xs) = slice i n xs

  overlay : List A → List A → List A
  overlay [] xs = xs
  overlay (s ∷ src) [] = []
  overlay (s ∷ src) (x ∷ xs) = s ∷ overlay src xs

  -- The array with `src` copied over the elements from index `i` on; none past its end.
  unfoldable pub splice : List A → ℕ → List A → List A
  unfolding overlay
  splice xs zero src = overlay src xs
  splice [] (suc i) src = []
  splice (x ∷ xs) (suc i) src = x ∷ splice xs i src

module _ {ℓ} {A : Type ℓ} where
  pub length-append : (xs ys : List A) → length (xs ++ ys) ≡ length xs + length ys
  length-append [] ys = omega arith
  length-append (x ∷ xs) ys = omega (arith, length-append xs ys)

  pub length-replicate : (n : ℕ) (a : A) → length (replicate n a) ≡ n
  unfolding replicate
  length-replicate zero a = refl
  length-replicate (suc n) a = ap suc (length-replicate n a)

  pub length-set : (xs : List A) (i : ℕ) (v : A) → length (set xs i v) ≡ length xs
  length-set [] i v = refl
  length-set (x ∷ xs) zero v = refl
  length-set (x ∷ xs) (suc i) v = ap suc (length-set xs i v)

  pub get_or-set_self :
      (xs : List A) (i : ℕ) (v d : A) → i < length xs → get_or (set xs i v) i d ≡ v
  get_or-set_self [] i v d h = absurd (omega arith)
  get_or-set_self (x ∷ xs) zero v d h = refl
  get_or-set_self (x ∷ xs) (suc i) v d h = get_or-set_self xs i v d (omega arith)

  pub get_or-set_ne :
      (xs : List A) (i j : ℕ) (v d : A) → i ≢ j → get_or (set xs i v) j d ≡ get_or xs j d
  get_or-set_ne [] i j v d h = refl
  get_or-set_ne (x ∷ xs) zero zero v d h = absurd (h refl)
  get_or-set_ne (x ∷ xs) zero (suc j) v d h = refl
  get_or-set_ne (x ∷ xs) (suc i) zero v d h = refl
  get_or-set_ne (x ∷ xs) (suc i) (suc j) v d h = get_or-set_ne xs i j v d (λ e. h (ap suc e))

  length-overlay : (src xs : List A) → length (overlay src xs) ≡ length xs
  unfolding overlay
  length-overlay [] xs = refl
  length-overlay (s ∷ src) [] = refl
  length-overlay (s ∷ src) (x ∷ xs) = ap suc (length-overlay src xs)

  pub length-splice : (xs : List A) (i : ℕ) (src : List A) → length (splice xs i src) ≡ length xs
  unfolding splice
  length-splice xs zero src = length-overlay src xs
  length-splice [] (suc i) src = refl
  length-splice (x ∷ xs) (suc i) src = ap suc (length-splice xs i src)

  pub length-slice : (i n : ℕ) (xs : List A) → i + n ≤ length xs → length (slice i n xs) ≡ n
  unfolding slice
  length-slice zero zero xs h = refl
  length-slice zero (suc n) [] h = absurd (omega arith)
  length-slice zero (suc n) (x ∷ xs) h = ap suc (length-slice zero n xs (omega arith))
  length-slice (suc i) n [] h = omega arith
  length-slice (suc i) n (x ∷ xs) h = length-slice i n xs (omega arith)

  -- What was copied in is read back,
  pub slice-splice_self :
      (xs : List A) (i : ℕ) (src : List A)
      → i + length src ≤ length xs
      → slice i (length src) (splice xs i src) ≡ src
  unfolding slice splice
  slice-splice_self xs zero [] h = refl
  slice-splice_self [] zero (s ∷ src) h = absurd (omega arith)
  slice-splice_self (x ∷ xs) zero (s ∷ src) h =
      ap (λ l. s ∷ l) (slice-splice_self xs zero src (omega arith))
  slice-splice_self [] (suc i) src h = absurd (omega arith)
  slice-splice_self (x ∷ xs) (suc i) src h = slice-splice_self xs i src (omega arith)

  -- and a range before or behind it is as it was.
  pub slice-splice_before :
      (xs : List A) (i : ℕ) (src : List A) (j n : ℕ)
      → j + n ≤ i
      → slice j n (splice xs i src) ≡ slice j n xs
  unfolding slice splice
  slice-splice_before xs zero src zero zero h = refl
  slice-splice_before xs zero src zero (suc n) h = absurd (omega arith)
  slice-splice_before xs zero src (suc j) n h = absurd (omega arith)
  slice-splice_before [] (suc i) src j n h = refl
  slice-splice_before (x ∷ xs) (suc i) src zero zero h = refl
  slice-splice_before (x ∷ xs) (suc i) src zero (suc n) h =
      ap (λ l. x ∷ l) (slice-splice_before xs i src zero n (omega arith))
  slice-splice_before (x ∷ xs) (suc i) src (suc j) n h =
      slice-splice_before xs i src j n (omega arith)

  pub slice-splice_after :
      (xs : List A) (i : ℕ) (src : List A) (j n : ℕ)
      → i + length src ≤ j
      → slice j n (splice xs i src) ≡ slice j n xs
  unfolding slice splice
  slice-splice_after xs zero [] j n h = refl
  slice-splice_after [] zero (s ∷ src) j n h = refl
  slice-splice_after (x ∷ xs) zero (s ∷ src) zero n h = absurd (omega arith)
  slice-splice_after (x ∷ xs) zero (s ∷ src) (suc j) n h =
      slice-splice_after xs zero src j n (omega arith)
  slice-splice_after [] (suc i) src j n h = refl
  slice-splice_after (x ∷ xs) (suc i) src zero n h = absurd (omega arith)
  slice-splice_after (x ∷ xs) (suc i) src (suc j) n h =
      slice-splice_after xs i src j n (omega arith)

  slice-overlay :
      (src xs : List A) (j n : ℕ)
      → j + n ≤ length src
      → length src ≤ length xs
      → slice j n (overlay src xs) ≡ slice j n src
  unfolding slice overlay
  slice-overlay [] xs zero zero h le = refl
  slice-overlay [] xs zero (suc n) h le = absurd (omega arith)
  slice-overlay [] xs (suc j) n h le = absurd (omega arith)
  slice-overlay (s ∷ src) [] j n h le = absurd (omega arith)
  slice-overlay (s ∷ src) (x ∷ xs) zero zero h le = refl
  slice-overlay (s ∷ src) (x ∷ xs) zero (suc n) h le =
      ap (λ l. s ∷ l) (slice-overlay src xs zero n (omega arith) (omega arith))
  slice-overlay (s ∷ src) (x ∷ xs) (suc j) n h le =
      slice-overlay src xs j n (omega arith) (omega arith)

  -- A range inside what was copied in; `k` is where it lies in the whole.
  pub slice-splice_inside :
      (xs : List A) (i : ℕ) (src : List A) (j n k : ℕ)
      → k ≡ i + j
      → j + n ≤ length src
      → i + length src ≤ length xs
      → slice k n (splice xs i src) ≡ slice j n src
  unfolding splice slice
  slice-splice_inside xs zero src j n k e h le =
      let e' : k ≡ j = omega arith in
      ap (λ p. slice p n (overlay src xs)) e' ∙ slice-overlay src xs j n h (omega arith)
  slice-splice_inside [] (suc i) src j n k e h le = absurd (omega arith)
  slice-splice_inside (x ∷ xs) (suc i) src j n zero e h le = absurd (omega arith)
  slice-splice_inside (x ∷ xs) (suc i) src j n (suc k) e h le =
      slice-splice_inside xs i src j n k (omega arith) h (omega arith)

  take-overlay :
      (src xs : List A) (n : ℕ) → length src ≤ n → take n (overlay src xs) ≡ overlay src (take n xs)
  unfolding take overlay
  take-overlay [] xs n h = refl
  take-overlay (s ∷ src) [] zero h = refl
  take-overlay (s ∷ src) [] (suc n) h = refl
  take-overlay (s ∷ src) (x ∷ xs) zero h = absurd (omega arith)
  take-overlay (s ∷ src) (x ∷ xs) (suc n) h = ap (λ l. s ∷ l) (take-overlay src xs n (omega arith))

  take-splice :
      (xs : List A) (i n : ℕ) (src : List A)
      → i + length src ≤ n
      → take n (splice xs i src) ≡ splice (take n xs) i src
  unfolding take splice
  take-splice xs zero n src h = take-overlay src xs n (omega arith)
  take-splice [] (suc i) zero src h = refl
  take-splice [] (suc i) (suc n) src h = refl
  take-splice (x ∷ xs) (suc i) zero src h = absurd (omega arith)
  take-splice (x ∷ xs) (suc i) (suc n) src h =
      ap (λ l. x ∷ l) (take-splice xs i n src (omega arith))

  -- A copy into the first elements is a copy into the whole.
  pub slice-splice_within :
      (xs : List A) (i n : ℕ) (src : List A)
      → i + length src ≤ n
      → slice 0 n (splice xs i src) ≡ splice (slice 0 n xs) i src
  unfolding slice
  slice-splice_within xs i n src h = take-splice xs i n src h

  pub slice-all : (xs : List A) → slice 0 (length xs) xs ≡ xs
  unfolding slice take
  slice-all [] = refl
  slice-all (x ∷ xs) = ap (λ l. x ∷ l) (slice-all xs)
