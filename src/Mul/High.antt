-- ===== src/Mul/High.antt =====
-- The upper halves of products: both ways of computing them give the exact product, shifted down.
use rvem.Common.{ℕ, suc, zero, ◌+◌, ◌-◌, ◌*◌, ◌/◌, ◌%◌, ◌^◌, ◌<◌, ◌≤◌, ◌≡◌, arith, ap, ◌∙◌, sym}
use rvem.Common.Int.{ℤ, pos, negsuc, ◌*ℤ◌, shr_ℤ}
use rvem.Common.Word.{◌>>>◌, to_signed, of_signed, Fits}
use rvem.Arch.{Xlen, rv32, rv64, bits, Compiler, gnu, other}
use rvem.Mul.{mulhudw, rv_mulh_software, rv_mulhsu_software, rv_mulhu_software}
use rvem.Mul.{rv_mulh_wide, rv_mulhsu_wide, rv_mulhu_wide, rv_mulh, rv_mulhsu, rv_mulhu}
use native.Mathlib.Nat.{mul-le-mul, mul_comm}
use mathlib.Core.Path.{ap₂}

half_product : (a b : ℕ) → a < 2 ^ 32 → b < 2 ^ 32 → a * b ≤ (2 ^ 32 - 1) * (2 ^ 32 - 1)
half_product a b h k =
    mul-le-mul {n₁ = a} {m₁ = b} {n₂ = 2 ^ 32 - 1} {m₂ = 2 ^ 32 - 1} (omega arith) (omega arith)

-- The partial products, added with their carries.
carries :
    (p00 p10 p01 p11 : ℕ)
    → p00 ≤ (2 ^ 32 - 1) * (2 ^ 32 - 1)
    → p10 ≤ (2 ^ 32 - 1) * (2 ^ 32 - 1)
    → p01 ≤ (2 ^ 32 - 1) * (2 ^ 32 - 1)
    → p11 + (p10 + p00 / 2 ^ 32) / 2 ^ 32 + (p01 + (p10 + p00 / 2 ^ 32) % 2 ^ 32) / 2 ^ 32
      ≡ (p11 * 2 ^ 64 + (p10 + p01) * 2 ^ 32 + p00) / 2 ^ 64
carries p00 p10 p01 p11 h0 h1 h2 = omega arith

split_product :
    (al ah bl bh : ℕ)
    → (ah * 2 ^ 32 + al) * (bh * 2 ^ 32 + bl)
      ≡ ah * bh * 2 ^ 64 + (ah * bl + al * bh) * 2 ^ 32 + al * bl
split_product al ah bl bh = omega arith

module _ (al ah bl bh : ℕ) (hal : al < 2 ^ 32) (hah : ah < 2 ^ 32) (hbl : bl < 2 ^ 32)
    (hbh : bh < 2 ^ 32) where
  mulhudw_sums :
      mulhudw (ah * 2 ^ 32 + al) (bh * 2 ^ 32 + bl)
      ≡ ah * bh
        + (ah * bl + al * bl / 2 ^ 32) / 2 ^ 32
        + (al * bh + (ah * bl + al * bl / 2 ^ 32) % 2 ^ 32) / 2 ^ 32
  unfolding mulhudw
  mulhudw_sums =
      let al_eq : (ah * 2 ^ 32 + al) % 2 ^ 32 ≡ al = omega arith in
      let ah_eq : (ah * 2 ^ 32 + al) / 2 ^ 32 ≡ ah = omega arith in
      let bl_eq : (bh * 2 ^ 32 + bl) % 2 ^ 32 ≡ bl = omega arith in
      let bh_eq : (bh * 2 ^ 32 + bl) / 2 ^ 32 ≡ bh = omega arith in
      rw (al_eq, ah_eq, bl_eq, bh_eq)
        (omega (
          arith,
          half_product al bl hal hbl,
          half_product ah bl hah hbl,
          half_product al bh hal hbh,
          half_product ah bh hah hbh,
        ))

  mulhudw_halves :
      mulhudw (ah * 2 ^ 32 + al) (bh * 2 ^ 32 + bl)
      ≡ (ah * 2 ^ 32 + al) * (bh * 2 ^ 32 + bl) / 2 ^ 64
  mulhudw_halves =
      rw (mulhudw_sums, split_product al ah bl bh)
        (carries (al * bl) (ah * bl) (al * bh) (ah * bh) (half_product al bl hal hbl)
          (half_product ah bl hah hbl) (half_product al bh hal hbh))

-- The 64-bit arithmetic of mulhudw, on two 64-bit words, drops no bit that counts: its result is the
-- product divided by 2 ^ 64.
pub mulhudw-div : (a b : ℕ) → a < 2 ^ 64 → b < 2 ^ 64 → mulhudw a b ≡ a * b / 2 ^ 64
mulhudw-div a b h k =
    let ea : a ≡ a / 2 ^ 32 * 2 ^ 32 + a % 2 ^ 32 = omega arith in
    let eb : b ≡ b / 2 ^ 32 * 2 ^ 32 + b % 2 ^ 32 = omega arith in
    ap₂ mulhudw ea eb
    ∙ mulhudw_halves (a % 2 ^ 32) (a / 2 ^ 32) (b % 2 ^ 32) (b / 2 ^ 32) (omega arith) (omega arith)
        (omega arith) (omega arith)
    ∙ sym (ap₂ (λ (t u : ℕ). t * u / 2 ^ 64) ea eb)

bounded_product : (m n a b : ℕ) → a ≤ m → b ≤ n → a * b ≤ m * n
bounded_product m n a b h k = mul-le-mul h k

-- The product of two signed words fits a word of twice the width.
product-Fits :
    (x : Xlen) (a b : ℤ) → Fits (bits x) a → Fits (bits x) b → Fits (bits x + bits x) (a *ℤ b)
unfolding ◌*ℤ◌
product-Fits rv32 (pos a) (pos b) h k = ground (arith, bounded_product (2 ^ 31) (2 ^ 31) a b)
product-Fits rv32 (pos a) (negsuc b) h k =
    ground (arith, bounded_product (2 ^ 31) (2 ^ 31) a (suc b))
product-Fits rv32 (negsuc a) (pos b) h k =
    ground (arith, bounded_product (2 ^ 31) (2 ^ 31) (suc a) b)
product-Fits rv32 (negsuc a) (negsuc b) h k =
    ground (arith, bounded_product (2 ^ 31) (2 ^ 31) (suc a) (suc b))
product-Fits rv64 (pos a) (pos b) h k = ground (arith, bounded_product (2 ^ 63) (2 ^ 63) a b)
product-Fits rv64 (pos a) (negsuc b) h k =
    ground (arith, bounded_product (2 ^ 63) (2 ^ 63) a (suc b))
product-Fits rv64 (negsuc a) (pos b) h k =
    ground (arith, bounded_product (2 ^ 63) (2 ^ 63) (suc a) b)
product-Fits rv64 (negsuc a) (negsuc b) h k =
    ground (arith, bounded_product (2 ^ 63) (2 ^ 63) (suc a) (suc b))

-- So does the product of a signed and an unsigned word.
mixed_product-Fits :
    (x : Xlen) (a : ℤ) (b : ℕ)
    → Fits (bits x) a
    → b < 2 ^ bits x
    → Fits (bits x + bits x) (a *ℤ pos b)
unfolding ◌*ℤ◌
mixed_product-Fits rv32 (pos a) b h k = ground (arith, bounded_product (2 ^ 31 - 1) (2 ^ 32) a b)
mixed_product-Fits rv32 (negsuc a) b h k =
    ground (arith, bounded_product (2 ^ 31) (2 ^ 32) (suc a) b)
mixed_product-Fits rv64 (pos a) b h k = ground (arith, bounded_product (2 ^ 63 - 1) (2 ^ 64) a b)
mixed_product-Fits rv64 (negsuc a) b h k =
    ground (arith, bounded_product (2 ^ 63) (2 ^ 64) (suc a) b)

-- The upper half of a double word, read as signed, is the double word shifted down.
upper_half :
    (x : Xlen) (z : ℤ)
    → Fits (bits x + bits x) z
    → to_signed (bits x) (of_signed (bits x + bits x) z >>> bits x) ≡ shr_ℤ z (bits x)
upper_half rv32 (pos n) h = ground arith
upper_half rv32 (negsuc n) h = ground arith
upper_half rv64 (pos n) h = ground arith
upper_half rv64 (negsuc n) h = ground arith

-- A product by the pattern of a negative number.
complement_product : (a b : ℕ) → b < 2 ^ 64 → a * (2 ^ 64 - 1 - b) + a * suc b ≡ a * 2 ^ 64
complement_product a b h =
    let e : 2 ^ 64 - 1 - b + suc b ≡ 2 ^ 64 = omega arith in omega (arith, ap (λ (t : ℕ). a * t) e)

in_word : (a : ℕ) → a < 2 ^ 64 → a % 2 ^ 64 ≡ a
in_word a h = omega arith

zero_product : (a b : ℕ) → 0 < b → 0 < a → 0 < a * b
zero_product (suc a) (suc b) h k = omega arith
zero_product zero b h k = absurd (omega arith)
zero_product (suc a) zero h k = absurd (omega arith)

-- Without a 128-bit type: the corrections of the unsigned product give what the wide signed
-- product gives.
pub software-wide_mixed :
    (a : ℤ) (b : ℕ) → Fits 64 a → b < 2 ^ 64 → rv_mulhsu_software a b ≡ rv_mulhsu_wide rv64 a b
unfolding rv_mulhsu_software rv_mulhsu_wide
software-wide_mixed (pos a) b h k =
    rw (in_word a (omega arith), mulhudw-div a b (omega arith) k)
      (ground (arith, bounded_product (2 ^ 64 - 1) (2 ^ 64 - 1) a b))
software-wide_mixed (negsuc a) b h k =
    rw
      (
        in_word a (omega arith),
        mulhudw-div (2 ^ 64 - 1 - a) b (omega arith) k,
        mul_comm (2 ^ 64 - 1 - a) b,
      )
      (ground (
        arith,
        complement_product b a,
        bounded_product (2 ^ 63) (2 ^ 64 - 1) (suc a) b,
        mul_comm b (suc a),
      ))

software-wide : (a b : ℤ) → Fits 64 a → Fits 64 b → rv_mulh_software a b ≡ rv_mulh_wide rv64 a b
unfolding rv_mulh_software rv_mulh_wide
software-wide (pos a) (pos b) h k =
    rw
      (
        in_word a (omega arith),
        in_word b (omega arith),
        mulhudw-div a b (omega arith) (omega arith),
      )
      (ground (arith, bounded_product (2 ^ 64 - 1) (2 ^ 64 - 1) a b))
software-wide (pos a) (negsuc b) h k =
    rw
      (
        in_word a (omega arith),
        in_word b (omega arith),
        mulhudw-div a (2 ^ 64 - 1 - b) (omega arith) (omega arith),
      )
      (ground (
        arith,
        complement_product a b,
        bounded_product (2 ^ 63) (2 ^ 63) a (suc b),
        zero_product a (suc b),
      ))
software-wide (negsuc a) (pos b) h k =
    rw
      (
        in_word a (omega arith),
        in_word b (omega arith),
        mulhudw-div (2 ^ 64 - 1 - a) b (omega arith) (omega arith),
        mul_comm (2 ^ 64 - 1 - a) b,
      )
      (ground (
        arith,
        complement_product b a,
        bounded_product (2 ^ 63) (2 ^ 63) (suc a) b,
        mul_comm b (suc a),
        zero_product b (suc a),
      ))
software-wide (negsuc a) (negsuc b) h k =
    rw
      (
        in_word a (omega arith),
        in_word b (omega arith),
        mulhudw-div (2 ^ 64 - 1 - a) (2 ^ 64 - 1 - b) (omega arith) (omega arith),
      )
      (ground (
        arith,
        complement_product (2 ^ 64 - 1 - a) b,
        complement_product (suc b) a,
        mul_comm (2 ^ 64 - 1 - a) (suc b),
        mul_comm (suc b) (suc a),
        bounded_product (2 ^ 63) (2 ^ 63) (suc a) (suc b),
      ))

-- MULH: with either compiler and at either width, the result read as signed is the exact product of
-- the two signed words divided by 2 ^ XLEN and rounded down.
pub rv_mulh-shr :
    (c : Compiler) (x : Xlen) (a b : ℤ)
    → Fits (bits x) a
    → Fits (bits x) b
    → to_signed (bits x) (rv_mulh c x a b) ≡ shr_ℤ (a *ℤ b) (bits x)
unfolding rv_mulh rv_mulh_wide
rv_mulh-shr gnu rv32 a b h k = upper_half rv32 (a *ℤ b) (product-Fits rv32 a b h k)
rv_mulh-shr gnu rv64 a b h k = upper_half rv64 (a *ℤ b) (product-Fits rv64 a b h k)
rv_mulh-shr other rv32 a b h k = upper_half rv32 (a *ℤ b) (product-Fits rv32 a b h k)
rv_mulh-shr other rv64 a b h k =
    rw (software-wide a b h k) (upper_half rv64 (a *ℤ b) (product-Fits rv64 a b h k))

-- MULHSU: with either compiler and at either width, the result read as signed is the exact product
-- of a signed word and an unsigned one divided by 2 ^ XLEN and rounded down.
pub rv_mulhsu-shr :
    (c : Compiler) (x : Xlen) (a : ℤ) (b : ℕ)
    → Fits (bits x) a
    → b < 2 ^ bits x
    → to_signed (bits x) (rv_mulhsu c x a b) ≡ shr_ℤ (a *ℤ pos b) (bits x)
unfolding rv_mulhsu rv_mulhsu_wide
rv_mulhsu-shr gnu rv32 a b h k = upper_half rv32 (a *ℤ pos b) (mixed_product-Fits rv32 a b h k)
rv_mulhsu-shr gnu rv64 a b h k = upper_half rv64 (a *ℤ pos b) (mixed_product-Fits rv64 a b h k)
rv_mulhsu-shr other rv32 a b h k = upper_half rv32 (a *ℤ pos b) (mixed_product-Fits rv32 a b h k)
rv_mulhsu-shr other rv64 a b h k =
    rw (software-wide_mixed a b h k)
      (upper_half rv64 (a *ℤ pos b) (mixed_product-Fits rv64 a b h k))

-- MULHU: with either compiler and at either width, the result is the product of two unsigned words
-- divided by 2 ^ XLEN.
pub rv_mulhu-div :
    (c : Compiler) (x : Xlen) (a b : ℕ)
    → a < 2 ^ bits x
    → b < 2 ^ bits x
    → rv_mulhu c x a b ≡ a * b / 2 ^ bits x
unfolding rv_mulhu rv_mulhu_wide rv_mulhu_software
rv_mulhu-div gnu rv32 a b h k = ground (arith, bounded_product (2 ^ 32 - 1) (2 ^ 32 - 1) a b)
rv_mulhu-div gnu rv64 a b h k = ground (arith, bounded_product (2 ^ 64 - 1) (2 ^ 64 - 1) a b)
rv_mulhu-div other rv32 a b h k = ground (arith, bounded_product (2 ^ 32 - 1) (2 ^ 32 - 1) a b)
rv_mulhu-div other rv64 a b h k = mulhudw-div a b h k
