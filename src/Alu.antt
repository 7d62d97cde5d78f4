-- ===== src/Alu.antt =====
-- src/cpu/core.c, the inner switches of the register instructions: what each stores into rd, and
-- `none` where no case fits and rd keeps its value. A signed overflow of `+` or `-`, which C leaves
-- undefined, is taken to wrap.
pub mod Laws
pub mod Spec
pub mod Product
pub mod WordSpec
use rvem.Common.{
  ℕ, ◌+◌, ◌-◌, ◌*◌, ◌/◌, ◌%◌, ◌^◌, Bool, true, false, Option, none, some, bit_and, bit_or, bit_xor,
  ltb, if◌then◌else◌,
}
use rvem.Common.Int.{ltb_ℤ}
use rvem.Common.Word.{u32, ◌<<<◌, ◌>>>◌, to_signed, of_signed, sign_extend}
use rvem.Arch.{Xlen, bits, shift_max, shift_max_word, Config}
use rvem.Shift.{sra, sraw}
use rvem.Riscv.{AluOp, MulOp}
use rvem.Machine.{wrap}
use rvem.Mul.{rv_mul, rv_mulh, rv_mulhsu, rv_mulhu, rv_div, rv_divu, rv_rem, rv_remu}
use rvem.Mul.{rv_mulw, rv_divw, rv_divuw, rv_remw, rv_remuw}

-- A comparison as an int.
abbrev pub flag : Bool → ℕ
flag true = 1
flag false = 0

abbrev pub signed_lt : Xlen → ℕ → ℕ → Bool
signed_lt x a b = ltb_ℤ (to_signed (bits x) a) (to_signed (bits x) b)

-- OP_RTYPE without the M extension
unfoldable pub alu : Xlen → AluOp → ℕ → ℕ → Option ℕ
unfolding sra
alu x AluOp.add a b = some (wrap x (a + b))
alu x AluOp.sub a b = some (wrap x (a + 2 ^ bits x - b))
alu x AluOp.sll a b = some (wrap x (a <<< bit_and b (shift_max x)))
alu x AluOp.srl a b = some (a >>> bit_and b (shift_max x))
alu x AluOp.sra a b = some (sra x a (bit_and b (shift_max x)))
alu x AluOp.slt a b = some (flag (signed_lt x a b))
alu x AluOp.sltu a b = some (flag (ltb a b))
alu x AluOp.and a b = some (bit_and a b)
alu x AluOp.or a b = some (bit_or a b)
alu x AluOp.xor a b = some (bit_xor a b)
alu x AluOp.none a b = none

-- OP_IMM, with CHECK_FUNCT7_BIT5 as an argument
unfoldable pub alu_imm : Xlen → Bool → AluOp → ℕ → ℕ → Option ℕ
unfolding sra
alu_imm x bit5 AluOp.add a imm = some (wrap x (a + imm))
alu_imm x bit5 AluOp.sll a imm = some (wrap x (a <<< bit_and imm (shift_max x)))
alu_imm x bit5 AluOp.srl a imm =
    if bit5
    then some (sra x a (bit_and imm (shift_max x)))
    else some (a >>> bit_and imm (shift_max x))
alu_imm x bit5 AluOp.slt a imm = some (flag (signed_lt x a imm))
alu_imm x bit5 AluOp.sltu a imm = some (flag (ltb a imm))
alu_imm x bit5 AluOp.and a imm = some (bit_and a imm)
alu_imm x bit5 AluOp.or a imm = some (bit_or a imm)
alu_imm x bit5 AluOp.xor a imm = some (bit_xor a imm)
alu_imm x bit5 _ a imm = none

-- (sreg_t) (int32_t) v
abbrev pub from_word : Xlen → ℕ → ℕ
from_word x v = sign_extend 32 (bits x) v

-- OP_RTYPEW without the M extension
unfoldable pub alu_word : Xlen → AluOp → ℕ → ℕ → Option ℕ
unfolding sraw
alu_word x AluOp.add a b = some (from_word x (u32 a + u32 b))
alu_word x AluOp.sub a b = some (from_word x (u32 a + 2 ^ 32 - u32 b))
alu_word x AluOp.sll a b = some (from_word x (u32 (u32 a <<< bit_and b shift_max_word)))
alu_word x AluOp.srl a b = some (from_word x (u32 a >>> bit_and b shift_max_word))
alu_word x AluOp.sra a b = some (from_word x (sraw (u32 a) (bit_and b shift_max_word)))
alu_word x _ a b = none

-- OP_IMMW
unfoldable pub alu_word_imm : Xlen → Bool → AluOp → ℕ → ℕ → Option ℕ
unfolding sraw
alu_word_imm x bit5 AluOp.add a imm = some (from_word x (u32 a + u32 imm))
alu_word_imm x bit5 AluOp.sll a imm =
    some (from_word x (u32 (u32 a <<< bit_and imm shift_max_word)))
alu_word_imm x bit5 AluOp.srl a imm =
    if bit5
    then some (from_word x (sraw (u32 a) (bit_and imm shift_max_word)))
    else some (from_word x (u32 a >>> bit_and imm shift_max_word))
alu_word_imm x bit5 _ a imm = none

-- OP_RTYPE with CHECK_FUNCT7_BIT0
unfoldable pub mul_div : Config → MulOp → ℕ → ℕ → Option ℕ
unfolding rv_mul rv_mulh rv_mulhsu rv_mulhu rv_div rv_divu rv_rem rv_remu
mul_div cfg MulOp.mul a b = some (rv_mul cfg.xlen a b)
mul_div cfg MulOp.mulh a b =
    some (rv_mulh cfg.compiler cfg.xlen (to_signed (bits cfg.xlen) a) (to_signed (bits cfg.xlen) b))
mul_div cfg MulOp.mulhsu a b =
    some (rv_mulhsu cfg.compiler cfg.xlen (to_signed (bits cfg.xlen) a) b)
mul_div cfg MulOp.mulhu a b = some (rv_mulhu cfg.compiler cfg.xlen a b)
mul_div cfg MulOp.div a b = some (
    of_signed (bits cfg.xlen)
      (rv_div cfg.xlen (to_signed (bits cfg.xlen) a) (to_signed (bits cfg.xlen) b)))
mul_div cfg MulOp.divu a b = some (rv_divu cfg.xlen a b)
mul_div cfg MulOp.rem a b = some (
    of_signed (bits cfg.xlen)
      (rv_rem cfg.xlen (to_signed (bits cfg.xlen) a) (to_signed (bits cfg.xlen) b)))
mul_div cfg MulOp.remu a b = some (rv_remu a b)
mul_div cfg MulOp.none a b = none

-- OP_RTYPEW with CHECK_FUNCT7_BIT0
unfoldable pub mul_div_word : Xlen → MulOp → ℕ → ℕ → Option ℕ
unfolding rv_mulw rv_divw rv_divuw rv_remw rv_remuw
mul_div_word x MulOp.mul a b = some (from_word x (rv_mulw (u32 a) (u32 b)))
mul_div_word x MulOp.div a b =
    some (of_signed (bits x) (rv_divw (to_signed 32 (u32 a)) (to_signed 32 (u32 b))))
mul_div_word x MulOp.divu a b = some (from_word x (rv_divuw (u32 a) (u32 b)))
mul_div_word x MulOp.rem a b =
    some (of_signed (bits x) (rv_remw (to_signed 32 (u32 a)) (to_signed 32 (u32 b))))
mul_div_word x MulOp.remu a b = some (from_word x (rv_remuw (u32 a) (u32 b)))
mul_div_word x _ a b = none
