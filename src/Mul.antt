-- ===== src/Mul.antt =====
-- inc/mul.h: multiplication and division of the M extension. An argument of a signed type is the
-- number that it stands for, one of an unsigned type its bit pattern; a result is a bit pattern.
pub mod High
pub mod Bounds
pub mod Intrinsics
pub mod Division
use rvem.Common.{ℕ, ◌+◌, ◌-◌, ◌*◌, ◌/◌, ◌%◌, ◌^◌, ◌==◌, ◌&&◌, if◌then◌else◌}
use rvem.Common.Int.{ℤ, pos, negsuc, ◌*ℤ◌, ◌/ℤ◌, ◌%ℤ◌, eqb_ℤ, ltb_ℤ}
use rvem.Common.Word.{u32, u64, ◌>>>◌, to_signed, of_signed}
use rvem.Arch.{Xlen, rv32, rv64, bits, Compiler, gnu, other}

unfoldable pub rv_mul : Xlen → ℕ → ℕ → ℕ
rv_mul x a b = a * b % 2 ^ bits x

-- The instructions on words of RV64M.
unfoldable pub rv_mulw : ℕ → ℕ → ℕ
rv_mulw a b = u32 (a * b)

-- The signed divisions are given the width w of their type, with -2 ^ (w - 1) as its minimum.
signed_min : ℕ → ℤ
signed_min w = negsuc (2 ^ (w - 1) - 1)

-- The body of rv_div and of rv_divw.
unfoldable pub div_signed : ℕ → ℤ → ℤ → ℤ
unfolding signed_min ◌/ℤ◌
div_signed w a b =
    if eqb_ℤ b (pos 0)
    then negsuc 0
    else if eqb_ℤ a (signed_min w) && eqb_ℤ b (negsuc 0)
    then signed_min w
    else a /ℤ b

-- The body of rv_rem and of rv_remw.
unfoldable pub rem_signed : ℕ → ℤ → ℤ → ℤ
unfolding signed_min ◌%ℤ◌
rem_signed w a b =
    if eqb_ℤ b (pos 0)
    then a
    else if eqb_ℤ a (signed_min w) && eqb_ℤ b (negsuc 0)
    then pos 0
    else a %ℤ b

unfoldable pub rv_divw : ℤ → ℤ → ℤ
unfolding div_signed
rv_divw a b = div_signed 32 a b

unfoldable pub rv_divuw : ℕ → ℕ → ℕ
rv_divuw a b = if b == 0 then 2 ^ 32 - 1 else a / b

unfoldable pub rv_remw : ℤ → ℤ → ℤ
unfolding rem_signed
rv_remw a b = rem_signed 32 a b

unfoldable pub rv_remuw : ℕ → ℕ → ℕ
rv_remuw a b = if b == 0 then a else a % b

-- The upper half of a product of two 64-bit numbers, in 64-bit arithmetic throughout.
unfoldable pub mulhudw : ℕ → ℕ → ℕ
mulhudw a b =
    let a_lo = u32 a in
    let a_hi = a >>> 32 in
    let b_lo = u32 b in
    let b_hi = b >>> 32 in
    let p00 = u64 (a_lo * b_lo) in
    let p10 = u64 (a_hi * b_lo) in
    let p01 = u64 (a_lo * b_hi) in
    let p11 = u64 (a_hi * b_hi) in
    let cross = u64 (p10 + (p00 >>> 32)) in
    u64 (u64 (p11 + (cross >>> 32)) + (u64 (p01 + u32 cross) >>> 32))

-- `res -= b`, modulo 2 ^ 64, if the test holds.
minus_if : ℤ → ℕ → ℕ → ℕ
minus_if a b res = if ltb_ℤ a (pos 0) then u64 (res + 2 ^ 64 - b) else res

-- The variants of RV64M for a compiler with no 128-bit type.
unfoldable pub rv_mulh_software : ℤ → ℤ → ℕ
unfolding minus_if
rv_mulh_software a b =
    let res = mulhudw (of_signed 64 a) (of_signed 64 b) in
    minus_if b (of_signed 64 a) (minus_if a (of_signed 64 b) res)

unfoldable pub rv_mulhsu_software : ℤ → ℕ → ℕ
unfolding minus_if
rv_mulhsu_software a b = minus_if a b (mulhudw (of_signed 64 a) b)

unfoldable pub rv_mulhu_software : ℕ → ℕ → ℕ
rv_mulhu_software a b = mulhudw a b

-- The variants by a product of twice the width: 128 bits on RV64 with GCC or Clang, 64 on RV32.
unfoldable pub rv_mulh_wide : Xlen → ℤ → ℤ → ℕ
unfolding ◌*ℤ◌
rv_mulh_wide x a b = of_signed (bits x + bits x) (a *ℤ b) >>> bits x

unfoldable pub rv_mulhsu_wide : Xlen → ℤ → ℕ → ℕ
unfolding ◌*ℤ◌
rv_mulhsu_wide x a b = of_signed (bits x + bits x) (a *ℤ pos b) >>> bits x

unfoldable pub rv_mulhu_wide : Xlen → ℕ → ℕ → ℕ
rv_mulhu_wide x a b = (a * b % 2 ^ (bits x + bits x)) >>> bits x

unfoldable pub rv_mulh : Compiler → Xlen → ℤ → ℤ → ℕ
unfolding rv_mulh_wide rv_mulh_software
rv_mulh other rv64 a b = rv_mulh_software a b
rv_mulh _ x a b = rv_mulh_wide x a b

unfoldable pub rv_mulhsu : Compiler → Xlen → ℤ → ℕ → ℕ
unfolding rv_mulhsu_wide rv_mulhsu_software
rv_mulhsu other rv64 a b = rv_mulhsu_software a b
rv_mulhsu _ x a b = rv_mulhsu_wide x a b

unfoldable pub rv_mulhu : Compiler → Xlen → ℕ → ℕ → ℕ
unfolding rv_mulhu_wide rv_mulhu_software
rv_mulhu other rv64 a b = rv_mulhu_software a b
rv_mulhu _ x a b = rv_mulhu_wide x a b

unfoldable pub rv_div : Xlen → ℤ → ℤ → ℤ
unfolding div_signed
rv_div x a b = div_signed (bits x) a b

unfoldable pub rv_divu : Xlen → ℕ → ℕ → ℕ
rv_divu x a b = if b == 0 then 2 ^ bits x - 1 else a / b

unfoldable pub rv_rem : Xlen → ℤ → ℤ → ℤ
unfolding rem_signed
rv_rem x a b = rem_signed (bits x) a b

unfoldable pub rv_remu : ℕ → ℕ → ℕ
rv_remu a b = if b == 0 then a else a % b
