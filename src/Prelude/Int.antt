-- ===== src/Prelude/Int.antt =====
-- Go's signed integers: ℤ over the native numbers, under the library's names, and the int64 that an
-- integer wraps to.
use Prim.Native.Nat.{ℕ, suc, ◌+◌, ◌-◌, ◌*◌, ◌%◌, ◌^◌, ◌≤◌}
use mathlib.Core.Bool.{Bool}
use l7_proxy.Prelude.Tests.{ltb, leb, if◌then◌else◌}

-- `negsuc n` is -(n + 1).
pub data ℤ : Type 0 where
  pos : ℕ → ℤ
  negsuc : ℕ → ℤ

abbrev pub pos_part : ℤ → ℕ
pos_part (pos n) = n
pos_part (negsuc n) = 0

abbrev pub neg_part : ℤ → ℕ
neg_part (pos n) = 0
neg_part (negsuc n) = suc n

-- a - b, as an integer.
abbrev pub sub_ℕ : ℕ → ℕ → ℤ
sub_ℕ a b = if leb b a then pos (a - b) else negsuc (b - a - 1)

infixl 70 ◌*ℤ◌
infix 50 ◌≤ℤ◌
abbrev pub ◌*ℤ◌ : ℤ → ℤ → ℤ
a *ℤ b =
    sub_ℕ (pos_part a * pos_part b + neg_part a * neg_part b)
      (pos_part a * neg_part b + neg_part a * pos_part b)

abbrev pub ◌≤ℤ◌ : ℤ → ℤ → Type 0
a ≤ℤ b = pos_part a + neg_part b ≤ pos_part b + neg_part a

abbrev pub ltb_ℤ : ℤ → ℤ → Bool
ltb_ℤ a b = ltb (pos_part a + neg_part b) (pos_part b + neg_part a)

-- The int64 with the low 64 bits of the product: a bit pattern from 2 ^ 63 on is negative.
abbrev pub of_bits64 : ℕ → ℤ
of_bits64 b = if ltb b (2 ^ 63) then pos b else negsuc (2 ^ 64 - 1 - b)

abbrev pub to_bits64 : ℤ → ℕ
to_bits64 (pos n) = n % 2 ^ 64
to_bits64 (negsuc n) = 2 ^ 64 - 1 - n % 2 ^ 64

abbrev pub wrap64 : ℤ → ℤ
wrap64 a = of_bits64 (to_bits64 a)
