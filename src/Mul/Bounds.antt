-- ===== src/Mul/Bounds.antt =====
-- The results of the high multiplications fit a register.
use rvem.Common.{ℕ, ◌+◌, ◌^◌, ◌<◌, arith}
use rvem.Common.Int.{ℤ, pos, negsuc}
use rvem.Common.Word.{◌>>>◌, of_signed-lt}
use rvem.Arch.{Xlen, rv32, rv64, bits, Compiler, gnu, other}
use rvem.Mul.{mulhudw, rv_mulh_software, rv_mulhsu_software, rv_mulhu_software, minus_if}
use rvem.Mul.{rv_mulh_wide, rv_mulhsu_wide, rv_mulhu_wide, rv_mulh, rv_mulhsu, rv_mulhu}

upper_half-lt : (x : Xlen) (n : ℕ) → n < 2 ^ (bits x + bits x) → n >>> bits x < 2 ^ bits x
upper_half-lt rv32 n h = omega arith
upper_half-lt rv64 n h = omega arith

mulhudw-lt : (a b : ℕ) → mulhudw a b < 2 ^ 64
unfolding mulhudw
mulhudw-lt a b = omega arith

minus_if-lt : (z : ℤ) (b res : ℕ) → res < 2 ^ 64 → minus_if z b res < 2 ^ 64
unfolding minus_if
minus_if-lt (pos n) b res h = ground arith
minus_if-lt (negsuc n) b res h = omega arith

pub rv_mulh-lt : (c : Compiler) (x : Xlen) (a b : ℤ) → rv_mulh c x a b < 2 ^ bits x
unfolding rv_mulh rv_mulh_wide rv_mulh_software
rv_mulh-lt gnu rv32 a b = upper_half-lt rv32 _ (of_signed-lt 64 _)
rv_mulh-lt gnu rv64 a b = upper_half-lt rv64 _ (of_signed-lt 128 _)
rv_mulh-lt other rv32 a b = upper_half-lt rv32 _ (of_signed-lt 64 _)
rv_mulh-lt other rv64 a b = minus_if-lt b _ _ (minus_if-lt a _ _ (mulhudw-lt _ _))

pub rv_mulhsu-lt : (c : Compiler) (x : Xlen) (a : ℤ) (b : ℕ) → rv_mulhsu c x a b < 2 ^ bits x
unfolding rv_mulhsu rv_mulhsu_wide rv_mulhsu_software
rv_mulhsu-lt gnu rv32 a b = upper_half-lt rv32 _ (of_signed-lt 64 _)
rv_mulhsu-lt gnu rv64 a b = upper_half-lt rv64 _ (of_signed-lt 128 _)
rv_mulhsu-lt other rv32 a b = upper_half-lt rv32 _ (of_signed-lt 64 _)
rv_mulhsu-lt other rv64 a b = minus_if-lt a _ _ (mulhudw-lt _ _)

pub rv_mulhu-lt : (c : Compiler) (x : Xlen) (a b : ℕ) → rv_mulhu c x a b < 2 ^ bits x
unfolding rv_mulhu rv_mulhu_wide rv_mulhu_software
rv_mulhu-lt gnu rv32 a b = upper_half-lt rv32 _ (omega arith)
rv_mulhu-lt gnu rv64 a b = upper_half-lt rv64 _ (omega arith)
rv_mulhu-lt other rv32 a b = upper_half-lt rv32 _ (omega arith)
rv_mulhu-lt other rv64 a b = mulhudw-lt a b
