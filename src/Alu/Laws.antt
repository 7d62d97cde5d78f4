-- ===== src/Alu/Laws.antt =====
-- What the inner switches store fits a register.
use rvem.Common.{ℕ, ◌%◌, ◌^◌, ◌<◌, arith, Bool, true, false, some, if◌then◌else◌}
use native.Mathlib.Nat.{mod-le, one-le-pow, div-le_self}
use rvem.Common.Bits.{bit_and-lt, bit_or-lt, bit_xor-lt}
use rvem.Common.Word.{◌>>>◌, of_signed-lt}
use rvem.Arch.{Xlen, rv32, rv64, bits, Compiler}
use rvem.Shift.Laws.{sra-lt}
use rvem.Riscv.{AluOp, MulOp}
use rvem.Bus.Safe.{InRegister}
use rvem.Mul.{rv_mul, rv_divu, rv_remu}
use rvem.Mul.Bounds.{rv_mulh-lt, rv_mulhsu-lt, rv_mulhu-lt}
use rvem.Alu.{flag, from_word, alu, alu_imm, alu_word, alu_word_imm, mul_div, mul_div_word}

pub wrap-lt : (x : Xlen) (n : ℕ) → n % 2 ^ bits x < 2 ^ bits x
wrap-lt rv32 n = omega arith
wrap-lt rv64 n = omega arith

flag-lt : (x : Xlen) (b : Bool) → flag b < 2 ^ bits x
flag-lt rv32 true = omega arith
flag-lt rv32 false = omega arith
flag-lt rv64 true = omega arith
flag-lt rv64 false = omega arith

shr-lt : (x : Xlen) (a k : ℕ) → a < 2 ^ bits x → a >>> k < 2 ^ bits x
shr-lt x a k h = omega (arith, div-le_self a (2 ^ k))

shift_imm-InRegister :
    (x : Xlen) (bit5 : Bool) (v w : ℕ)
    → v < 2 ^ bits x
    → w < 2 ^ bits x
    → InRegister x (if bit5 then some v else some w)
shift_imm-InRegister x true v w h k = h
shift_imm-InRegister x false v w h k = k

module _ (x : Xlen) (a b : ℕ) (ha : a < 2 ^ bits x) (hb : b < 2 ^ bits x) where
  pub alu-InRegister : (op : AluOp) → InRegister x (alu x op a b)
  unfolding alu
  alu-InRegister AluOp.add = wrap-lt x _
  alu-InRegister AluOp.sub = wrap-lt x _
  alu-InRegister AluOp.sll = wrap-lt x _
  alu-InRegister AluOp.srl = shr-lt x a _ ha
  alu-InRegister AluOp.sra = sra-lt x a _
  alu-InRegister AluOp.slt = flag-lt x _
  alu-InRegister AluOp.sltu = flag-lt x _
  alu-InRegister AluOp.and = bit_and-lt (bits x) a b ha
  alu-InRegister AluOp.or = bit_or-lt (bits x) a b ha hb
  alu-InRegister AluOp.xor = bit_xor-lt (bits x) a b ha hb
  alu-InRegister AluOp.none = tt

  pub alu_imm-InRegister : (bit5 : Bool) (op : AluOp) → InRegister x (alu_imm x bit5 op a b)
  unfolding alu_imm
  alu_imm-InRegister bit5 AluOp.add = wrap-lt x _
  alu_imm-InRegister bit5 AluOp.sll = wrap-lt x _
  alu_imm-InRegister bit5 AluOp.srl =
      shift_imm-InRegister x bit5 _ _ (sra-lt x a _) (shr-lt x a _ ha)
  alu_imm-InRegister bit5 AluOp.slt = flag-lt x _
  alu_imm-InRegister bit5 AluOp.sltu = flag-lt x _
  alu_imm-InRegister bit5 AluOp.and = bit_and-lt (bits x) a b ha
  alu_imm-InRegister bit5 AluOp.or = bit_or-lt (bits x) a b ha hb
  alu_imm-InRegister bit5 AluOp.xor = bit_xor-lt (bits x) a b ha hb
  alu_imm-InRegister bit5 _ = tt

  pub mul_div-InRegister :
      (m_ext : Bool) (c : Compiler) (op : MulOp)
      → InRegister x (mul_div (record { xlen = x; m_ext = m_ext; compiler = c }) op a b)
  unfolding mul_div rv_mul rv_divu rv_remu
  mul_div-InRegister m c MulOp.mul = wrap-lt x _
  mul_div-InRegister m c MulOp.mulh = rv_mulh-lt c x _ _
  mul_div-InRegister m c MulOp.mulhsu = rv_mulhsu-lt c x _ _
  mul_div-InRegister m c MulOp.mulhu = rv_mulhu-lt c x _ _
  mul_div-InRegister m c MulOp.div = of_signed-lt (bits x) _
  mul_div-InRegister m c MulOp.divu = ground (arith, div-le_self a b, one-le-pow (bits x) 2)
  mul_div-InRegister m c MulOp.rem = of_signed-lt (bits x) _
  mul_div-InRegister m c MulOp.remu = ground (arith, mod-le a b)
  mul_div-InRegister m c MulOp.none = tt

from_word-lt : (x : Xlen) (v : ℕ) → from_word x v < 2 ^ bits x
from_word-lt x v = of_signed-lt (bits x) _

shift_word-InRegister :
    (x : Xlen) (bit5 : Bool) (v w : ℕ)
    → InRegister x (if bit5 then some (from_word x v) else some (from_word x w))
shift_word-InRegister x true v w = from_word-lt x v
shift_word-InRegister x false v w = from_word-lt x w

module _ (x : Xlen) (a b : ℕ) where
  pub alu_word-InRegister : (op : AluOp) → InRegister x (alu_word x op a b)
  unfolding alu_word
  alu_word-InRegister AluOp.add = from_word-lt x _
  alu_word-InRegister AluOp.sub = from_word-lt x _
  alu_word-InRegister AluOp.sll = from_word-lt x _
  alu_word-InRegister AluOp.srl = from_word-lt x _
  alu_word-InRegister AluOp.sra = from_word-lt x _
  alu_word-InRegister _ = tt

  pub alu_word_imm-InRegister :
      (bit5 : Bool) (op : AluOp) → InRegister x (alu_word_imm x bit5 op a b)
  unfolding alu_word_imm
  alu_word_imm-InRegister bit5 AluOp.add = from_word-lt x _
  alu_word_imm-InRegister bit5 AluOp.sll = from_word-lt x _
  alu_word_imm-InRegister bit5 AluOp.srl = shift_word-InRegister x bit5 _ _
  alu_word_imm-InRegister bit5 _ = tt

  pub mul_div_word-InRegister : (op : MulOp) → InRegister x (mul_div_word x op a b)
  unfolding mul_div_word
  mul_div_word-InRegister MulOp.mul = from_word-lt x _
  mul_div_word-InRegister MulOp.div = of_signed-lt (bits x) _
  mul_div_word-InRegister MulOp.divu = from_word-lt x _
  mul_div_word-InRegister MulOp.rem = of_signed-lt (bits x) _
  mul_div_word-InRegister MulOp.remu = from_word-lt x _
  mul_div_word-InRegister _ = tt
