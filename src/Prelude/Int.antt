-- ===== src/Prelude/Int.antt =====
-- Go's int and int64: integers of 64 bits that wrap around.
use Prim.Native.Nat.{ℕ, suc, ◌+◌, ◌-◌, ◌*◌, ◌%◌, ◌≤◌, ◌<◌}
use mathlib.Core.Bool.{Bool}
use native.Mathlib.Omega.{arith}
use scimtest.Prelude.Tests.{if◌then◌else◌, ltb, leb, eqb}

-- `negsuc n` is -(n + 1).
pub data ℤ : Type 0 where
  pos : ℕ → ℤ
  negsuc : ℕ → ℤ

abbrev pub pos_part : ℤ → ℕ
pos_part (pos n) = n
pos_part (negsuc n) = 0

abbrev pub neg_part : ℤ → ℕ
neg_part (pos n) = 0
neg_part (negsuc n) = suc n

abbrev pub ltb_ℤ : ℤ → ℤ → Bool
ltb_ℤ a b = ltb (pos_part a + neg_part b) (pos_part b + neg_part a)

abbrev pub leb_ℤ : ℤ → ℤ → Bool
leb_ℤ a b = leb (pos_part a + neg_part b) (pos_part b + neg_part a)

abbrev pub eqb_ℤ : ℤ → ℤ → Bool
eqb_ℤ a b = eqb (pos_part a + neg_part b) (pos_part b + neg_part a)

-- The bit pattern of an integer, and the integer of a bit pattern.
unfoldable pub bits : ℤ → ℕ
bits (pos n) = n % 0x10000000000000000
bits (negsuc n) = 0xffffffffffffffff - n % 0x10000000000000000

unfoldable pub of_bits : ℕ → ℤ
of_bits n = if ltb n 0x8000000000000000 then pos n else negsuc (0xffffffffffffffff - n)

unfoldable pub add64 : ℤ → ℤ → ℤ
unfolding bits of_bits
add64 a b = of_bits ((bits a + bits b) % 0x10000000000000000)

unfoldable pub mul64 : ℤ → ℤ → ℤ
unfolding bits of_bits
mul64 a b = of_bits (bits a * bits b % 0x10000000000000000)

-- Both results are integers of 64 bits.
pub add64_range :
    (a b : ℤ)
    → (pos_part (add64 a b) < 0x8000000000000000) × (neg_part (add64 a b) ≤ 0x8000000000000000)
unfolding add64
add64_range a b = ground arith

pub mul64_range :
    (a b : ℤ)
    → (pos_part (mul64 a b) < 0x8000000000000000) × (neg_part (mul64 a b) ≤ 0x8000000000000000)
unfolding mul64
mul64_range a b = ground arith
