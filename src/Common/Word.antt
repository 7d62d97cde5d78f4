-- ===== src/Common/Word.antt =====
-- C's fixed-width integers. A value of a w-bit type is kept as its bit pattern, a number below
-- 2 ^ w; a signed value is read off the pattern by `to_signed`, and `of_signed` is the conversion
-- back, modulo 2 ^ w.
use Prim.Native.Nat.{ℕ, zero, suc, ◌-◌, ◌*◌, ◌/◌, ◌%◌, ◌^◌, ◌<◌}
use mathlib.Core.Path.{◌≡◌}
use native.Mathlib.Nat.{mod-lt, one-le-pow, pow-suc, mod-eq_of_lt}
use native.Mathlib.Omega.{arith}
use rvem.Common.Tests.{ltb, if◌then◌else◌}
use rvem.Common.Int.{ℤ, pos, negsuc}

abbrev pub u8 : ℕ → ℕ
u8 n = n % 2 ^ 8

abbrev pub u16 : ℕ → ℕ
u16 n = n % 2 ^ 16

abbrev pub u32 : ℕ → ℕ
u32 n = n % 2 ^ 32

abbrev pub u64 : ℕ → ℕ
u64 n = n % 2 ^ 64

infixl 75 ◌<<<◌ ◌>>>◌
abbrev pub ◌<<<◌ : ℕ → ℕ → ℕ
x <<< k = x * 2 ^ k

abbrev pub ◌>>>◌ : ℕ → ℕ → ℕ
x >>> k = x / 2 ^ k

abbrev pub to_signed : ℕ → ℕ → ℤ
to_signed w n = if ltb n (2 ^ (w - 1)) then pos n else negsuc (2 ^ w - 1 - n)

abbrev pub of_signed : ℕ → ℤ → ℕ
of_signed w (pos n) = n % 2 ^ w
of_signed w (negsuc n) = 2 ^ w - 1 - n % 2 ^ w

-- The conversion of a signed v-bit value to w bits.
abbrev pub sign_extend : ℕ → ℕ → ℕ → ℕ
sign_extend v w n = of_signed w (to_signed v (n % 2 ^ v))

-- ~n
abbrev pub bit_not : ℕ → ℕ → ℕ
bit_not w n = 2 ^ w - 1 - n

-- The numbers that a signed type of w bits holds.
abbrev pub Fits : ℕ → ℤ → Type 0
Fits w (pos n) = n < 2 ^ (w - 1)
Fits w (negsuc n) = n < 2 ^ (w - 1)

pub of_signed-lt : (w : ℕ) (z : ℤ) → of_signed w z < 2 ^ w
of_signed-lt w (pos n) = mod-lt n (one-le-pow w 2 (omega arith))
of_signed-lt w (negsuc n) = omega (arith, one-le-pow w 2 (omega arith))

pub to_signed-Fits : (w n : ℕ) → 0 < w → n < 2 ^ w → Fits w (to_signed w n)
to_signed-Fits zero n p h = absurd (omega arith)
to_signed-Fits (suc w) n p h =
    let e : suc w - 1 ≡ w = omega arith in rw e (ground (arith, pow-suc 2 w))

pub of_signed-to_signed : (w n : ℕ) → 0 < w → n < 2 ^ w → of_signed w (to_signed w n) ≡ n
of_signed-to_signed zero n p h = absurd (omega arith)
of_signed-to_signed (suc w) n p h =
    let e : suc w - 1 ≡ w = omega arith in
    rw e (
      ground (
        arith,
        pow-suc 2 w,
        mod-eq_of_lt h,
        mod-eq_of_lt {n = 2 ^ suc w - 1 - n} {m = 2 ^ suc w} (omega arith),
      ))
