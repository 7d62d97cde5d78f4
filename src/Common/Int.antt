-- ===== src/Common/Int.antt =====
-- Signed integers over the native numbers, with the operations of C on them: the order, the
-- product, division that truncates towards zero, and the shift right that rounds down.
use Prim.Native.Nat.{ℕ, zero, suc, ◌+◌, ◌-◌, ◌*◌, ◌/◌, ◌%◌, ◌^◌}
use mathlib.Core.Bool.{Bool, true, false}
use rvem.Common.Tests.{ltb, leb, if◌then◌else◌}

-- `negsuc n` is -(n + 1).
pub data ℤ : Type 0 where
  pos : ℕ → ℤ
  negsuc : ℕ → ℤ

abbrev pub pos_part : ℤ → ℕ
pos_part (pos n) = n
pos_part (negsuc n) = 0

abbrev pub neg_part : ℤ → ℕ
neg_part (pos n) = 0
neg_part (negsuc n) = suc n

-- a - b, as an integer.
abbrev pub sub_ℕ : ℕ → ℕ → ℤ
sub_ℕ a b = if leb b a then pos (a - b) else negsuc (b - a - 1)

infixl 65 ◌+ℤ◌ ◌-ℤ◌
infixl 70 ◌*ℤ◌
unfoldable pub ◌+ℤ◌ : ℤ → ℤ → ℤ
a +ℤ b = sub_ℕ (pos_part a + pos_part b) (neg_part a + neg_part b)

unfoldable pub ◌-ℤ◌ : ℤ → ℤ → ℤ
a -ℤ b = sub_ℕ (pos_part a + neg_part b) (neg_part a + pos_part b)

unfoldable pub ◌*ℤ◌ : ℤ → ℤ → ℤ
a *ℤ b =
    sub_ℕ (pos_part a * pos_part b + neg_part a * neg_part b)
      (pos_part a * neg_part b + neg_part a * pos_part b)

abbrev pub ltb_ℤ : ℤ → ℤ → Bool
ltb_ℤ (pos a) (pos b) = ltb a b
ltb_ℤ (pos a) (negsuc b) = false
ltb_ℤ (negsuc a) (pos b) = true
ltb_ℤ (negsuc a) (negsuc b) = ltb b a

unfoldable pub eqb_ℤ : ℤ → ℤ → Bool
eqb_ℤ a b = if ltb_ℤ a b then false else if ltb_ℤ b a then false else true

-- The absolute value, and a value with a sign.
abbrev pub nat_abs : ℤ → ℕ
nat_abs (pos n) = n
nat_abs (negsuc n) = suc n

abbrev pub negate_ℕ : ℕ → ℤ
negate_ℕ zero = pos 0
negate_ℕ (suc n) = negsuc n

-- `/` and `%` of C: the quotient is truncated towards zero and the remainder has the sign of the
-- dividend. A divisor of zero is the caller's to exclude.
unfoldable pub ◌/ℤ◌ : ℤ → ℤ → ℤ
◌/ℤ◌ (pos a) (pos b) = pos (a / b)
◌/ℤ◌ (pos a) (negsuc b) = negate_ℕ (a / suc b)
◌/ℤ◌ (negsuc a) (pos b) = negate_ℕ (suc a / b)
◌/ℤ◌ (negsuc a) (negsuc b) = pos (suc a / suc b)

unfoldable pub ◌%ℤ◌ : ℤ → ℤ → ℤ
◌%ℤ◌ (pos a) b = pos (a % nat_abs b)
◌%ℤ◌ (negsuc a) b = negate_ℕ (suc a % nat_abs b)

infixl 70 ◌/ℤ◌ ◌%ℤ◌
-- Division by a power of two that rounds down.
abbrev pub shr_ℤ : ℤ → ℕ → ℤ
shr_ℤ (pos n) k = pos (n / 2 ^ k)
shr_ℤ (negsuc n) k = negsuc (n / 2 ^ k)
