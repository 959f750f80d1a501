-- ===== src/Base/Int.antt =====
-- Signed integers, and Go's int64 as the integer that a 64-bit pattern stands for.
use Prim.Native.Nat.{ℕ, suc, ◌+◌, ◌-◌, ◌%◌, ◌≤◌, ◌<◌}
use mathlib.Core.Path.{◌≡◌}
use mathlib.Core.Bool.{Bool}
use native.Mathlib.Omega.{arith}
use gas_management.Base.Tests.{ltb, leb, if◌then◌else◌}

-- `negsuc n` is -(n + 1).
pub data ℤ : Type 0 where
  pos : ℕ → ℤ
  negsuc : ℕ → ℤ

abbrev pub pos_part : ℤ → ℕ
pos_part (pos n) = n
pos_part (negsuc n) = 0

abbrev pub neg_part : ℤ → ℕ
neg_part (pos n) = 0
neg_part (negsuc n) = suc n

-- a - b, as an integer.
abbrev pub sub_ℕ : ℕ → ℕ → ℤ
sub_ℕ a b = if leb b a then pos (a - b) else negsuc (b - a - 1)

infixl 65 ◌-ℤ◌
infix 50 ◌≤ℤ◌
abbrev pub ◌-ℤ◌ : ℤ → ℤ → ℤ
a -ℤ b = sub_ℕ (pos_part a + neg_part b) (neg_part a + pos_part b)

abbrev pub ◌≤ℤ◌ : ℤ → ℤ → Type 0
a ≤ℤ b = pos_part a + neg_part b ≤ pos_part b + neg_part a

abbrev pub leb_ℤ : ℤ → ℤ → Bool
leb_ℤ a b = leb (pos_part a + neg_part b) (pos_part b + neg_part a)

abbrev pub u64_mod : ℕ
u64_mod = 18446744073709551616

abbrev pub i64_half : ℕ
i64_half = 9223372036854775808

-- uint64 arithmetic wraps.
abbrev pub u64 : ℕ → ℕ
u64 n = n % u64_mod

-- int64(x) of a uint64 x keeps the bits.
abbrev pub int64 : ℕ → ℤ
int64 n = if ltb n i64_half then pos n else negsuc (u64_mod - n - 1)

-- The 64-bit pattern of an integer, and int64 subtraction, which wraps.
abbrev pub bits64 : ℤ → ℕ
bits64 (pos n) = n % u64_mod
bits64 (negsuc n) = u64_mod - 1 - n % u64_mod

abbrev pub sub64 : ℤ → ℤ → ℤ
sub64 a b = int64 (bits64 (a -ℤ b))

-- An int64 subtraction that stays in range is the integer one.
pub sub64_exact : (a b : ℕ) → a < i64_half → b ≤ a → sub64 (pos a) (pos b) ≡ pos (a - b)
sub64_exact a b h k = ground arith
