-- ===== src/Prelude/Int.antt =====
-- The C `int` as an integer, and its addition to a 64-bit unsigned number.
use Prim.Native.Nat.{ℕ, ◌+◌, ◌-◌, ◌%◌, ◌^◌, ◌<◌, suc}
use mathlib.Core.Path.{◌≡◌}
use native.Mathlib.Omega.{arith}
use naofs.Prelude.Tests.{ltb, if◌then◌else◌}

-- `negsuc n` is -(n + 1).
pub data ℤ : Type 0 where
  pos : ℕ → ℤ
  negsuc : ℕ → ℤ

-- What `size += difference` does to a `size_t`.
unfoldable pub add_int : ℕ → ℤ → ℕ
add_int s (pos n) = (s + n) % 2 ^ 64
add_int s (negsuc n) = (s + 2 ^ 64 - suc n) % 2 ^ 64

-- The conversion of a `size_t` to `int`: the low 32 bits in two's complement.
unfoldable pub to_int : ℕ → ℤ
to_int n = let w = n % 2 ^ 32 in if ltb w (2 ^ 31) then pos w else negsuc (2 ^ 32 - w - 1)

pub to_int-small : (n : ℕ) → n < 2 ^ 31 → to_int n ≡ pos n
unfolding to_int
to_int-small n h = ground arith

-- `count += bytes` of an `int` and a `size_t`: the low 32 bits, and the `size_t` that this `int` is
-- again converted to. A sum of 2 ^ 31 or more is a negative number, and as a `size_t` near 2 ^ 64.
unfoldable pub int_sum : ℕ → ℕ → ℕ
int_sum count bytes =
    let w = (count + bytes) % 2 ^ 32 in if ltb w (2 ^ 31) then w else w + (2 ^ 64 - 2 ^ 32)

pub int_sum-small : (count bytes : ℕ) → count + bytes < 2 ^ 31 → int_sum count bytes ≡ count + bytes
unfolding int_sum
int_sum-small count bytes h = ground arith

-- `-n` of a `size_t`, before its conversion.
unfoldable pub negate : ℕ → ℕ
negate n = (2 ^ 64 - n % 2 ^ 64) % 2 ^ 64
