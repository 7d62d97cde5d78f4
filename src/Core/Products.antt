-- ===== src/Core/Products.antt =====
-- OP_RTYPE under the M extension, from the encodings to the state after them.
use rvem.Common.{ℕ, ◌+◌, ◌/◌, ◌%◌, ◌^◌, ◌<◌, ◌≡◌, refl, arith, ap, Bool, true, ◌&&◌, bit_and}
use rvem.Common.Bits.{bit_and_field}
use rvem.Arch.{Config}
use rvem.Riscv.{
  opcode_of, get_opcode, MulOp, mul_of, get_rs1, get_rs2, get_rd, get_funct3, check_funct7_bit0,
}
use rvem.Riscv.Encode.{r_type}
use rvem.Riscv.Fields.{get_opcode-mod, get_rd-mod, get_rs1-mod, get_rs2-mod, get_funct3-mod}
use rvem.Machine.{Machine, wrap}
use rvem.Machine.Safe.{Ensures, IsValid}
use rvem.Alu.Product.{IsMulOp, IsMulDiv, mul_div-IsMulDiv}
use rvem.Core.{process_instr}
use rvem.Core.Retire.{Retires, rtype-Retires}

abbrev pub mul_funct3 : MulOp → ℕ
mul_funct3 MulOp.mul = 0
mul_funct3 MulOp.mulh = 1
mul_funct3 MulOp.mulhsu = 2
mul_funct3 MulOp.mulhu = 3
mul_funct3 MulOp.div = 4
mul_funct3 MulOp.divu = 5
mul_funct3 MulOp.rem = 6
mul_funct3 MulOp.remu = 7
mul_funct3 MulOp.none = 0

-- The word of an instruction of the M extension.
abbrev pub mul_word : (op : MulOp) (rd rs1 rs2 : ℕ) → ℕ
mul_word op rd rs1 rs2 = r_type 1 rs2 rs1 (mul_funct3 op) rd 0x33

pub mul_of-code : (op : MulOp) → IsMulOp op → mul_of (mul_funct3 op) ≡ op
unfolding mul_of
mul_of-code MulOp.none i = absurd i
mul_of-code _ i = refl

pub mul_funct3-lt : (op : MulOp) → mul_funct3 op < 8
mul_funct3-lt MulOp.mul = omega arith
mul_funct3-lt _ = omega arith

check_funct7_bit0-set : (i : ℕ) → i / 2 ^ 25 % 2 ≡ 1 → check_funct7_bit0 i ≡ true
unfolding check_funct7_bit0
check_funct7_bit0-set i h =
    let e : bit_and i 0x2000000 ≡ 2 ^ 25 = omega (arith, bit_and_field 25 1 i) in rw e

pub and-true : (b c : Bool) → b ≡ true → c ≡ true → (b && c) ≡ true
and-true b c hb hc = rw (hb, hc)

module _ (op : MulOp) (rd rs1 rs2 : ℕ) (hd : rd < 32) (h1 : rs1 < 32) (h2 : rs2 < 32) where
  opcode-mul : get_opcode (mul_word op rd rs1 rs2) ≡ 0x33
  opcode-mul = omega (arith, get_opcode-mod (mul_word op rd rs1 rs2))

  rd-mul : get_rd (mul_word op rd rs1 rs2) ≡ rd
  rd-mul = omega (arith, get_rd-mod (mul_word op rd rs1 rs2))

  rs1-mul : get_rs1 (mul_word op rd rs1 rs2) ≡ rs1
  rs1-mul = omega (arith, get_rs1-mod (mul_word op rd rs1 rs2), mul_funct3-lt op)

  rs2-mul : get_rs2 (mul_word op rd rs1 rs2) ≡ rs2
  rs2-mul = omega (arith, get_rs2-mod (mul_word op rd rs1 rs2), mul_funct3-lt op)

  funct3-mul : get_funct3 (mul_word op rd rs1 rs2) ≡ mul_funct3 op
  funct3-mul = omega (arith, get_funct3-mod (mul_word op rd rs1 rs2), mul_funct3-lt op)

  is_mul : check_funct7_bit0 (mul_word op rd rs1 rs2) ≡ true
  is_mul = check_funct7_bit0-set (mul_word op rd rs1 rs2) (omega (arith, mul_funct3-lt op))

-- With the M extension the word of a multiplication, division or remainder leaves in rd a value
-- that the manual allows for it (an upper half of the exact product, the quotient or remainder of
-- a division, with the results for a zero divisor and for the overflow), changes no other register
-- and no memory, prints nothing, and goes on to the next instruction. It asks for a valid state,
-- for rd, rs1, rs2 < 32, and holds for both widths and either compiler.
pub process_instr-mul :
    (cfg : Config) (op : MulOp) (rd rs1 rs2 : ℕ) (s : Machine)
    → cfg.m_ext ≡ true
    → IsMulOp op
    → rd < 32
    → rs1 < 32
    → rs2 < 32
    → IsValid cfg.xlen s
    → (v : ℕ) × IsMulDiv cfg.xlen op (s.cpu.regfile rs1) (s.cpu.regfile rs2) v
      × Ensures
          (Retires s rd v (wrap cfg.xlen (s.cpu.pc + 4)))
          (process_instr cfg (mul_word op rd rs1 rs2) s)
unfolding opcode_of
process_instr-mul cfg op rd rs1 rs2 s m i hd h1 h2 valid =
    let (v, gives, is) =
      mul_div-IsMulDiv cfg (s.cpu.regfile rs1) (s.cpu.regfile rs2) (valid.registers rs1)
        (valid.registers rs2) op i in
    (
      v,
      is,
      rw (rd-mul op rd rs1 rs2 hd h1 h2) at (
          rtype-Retires cfg (mul_word op rd rs1 rs2) s v
            (ap (opcode_of cfg.xlen) (opcode-mul op rd rs1 rs2 hd h1 h2))
            (rw
              (
                and-true cfg.m_ext _ m (is_mul op rd rs1 rs2 hd h1 h2),
                funct3-mul op rd rs1 rs2 hd h1 h2,
                mul_of-code op i,
                rs1-mul op rd rs1 rs2 hd h1 h2,
                rs2-mul op rd rs1 rs2 hd h1 h2,
              )
              gives)),
    )
