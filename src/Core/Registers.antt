-- ===== src/Core/Registers.antt =====
-- OP_RTYPE: the register instructions, from their words to the state after them.
use rvem.Common.{
  ℕ, ◌+◌, ◌*◌, ◌/◌, ◌%◌, ◌^◌, ◌<◌, ◌≡◌, refl, arith, ap, ◌∙◌, Bool, true, false, ◌&&◌, some,
  if◌then◌else◌, bit_or, bit_and,
}
use rvem.Common.Bits.{bit_and_field, bit_or_fields}
use rvem.Arch.{Config}
use rvem.Riscv.{
  opcode_of, get_opcode, AluOp, alu_of, mul_of, get_rs1, get_rs2, get_rd, get_funct3,
  alu_funct7_bit5, check_funct7_bit0,
}
use rvem.Riscv.Encode.{r_type}
use rvem.Riscv.Fields.{get_opcode-mod, get_rd-mod, get_rs1-mod, get_rs2-mod, get_funct3-mod}
use rvem.Machine.{Machine, wrap}
use rvem.Machine.Safe.{Ensures, IsValid}
use rvem.Alu.{alu, mul_div}
use rvem.Alu.Spec.{result, IsOp, alu-result}
use rvem.Exec.{alu_op}
use rvem.Core.{process_instr}
use rvem.Core.Retire.{Retires, rtype-Retires}

-- funct7 (less its bit 5) and funct3 of the base operations.
abbrev pub bit5_of : AluOp → ℕ
bit5_of AluOp.sub = 1
bit5_of AluOp.sra = 1
bit5_of _ = 0

abbrev pub funct3_of : AluOp → ℕ
funct3_of AluOp.add = 0
funct3_of AluOp.sub = 0
funct3_of AluOp.sll = 1
funct3_of AluOp.slt = 2
funct3_of AluOp.sltu = 3
funct3_of AluOp.xor = 4
funct3_of AluOp.srl = 5
funct3_of AluOp.sra = 5
funct3_of AluOp.or = 6
funct3_of AluOp.and = 7
funct3_of AluOp.none = 0

-- The word of a register instruction of the base set.
abbrev pub op_word : (op : AluOp) (rd rs1 rs2 : ℕ) → ℕ
op_word op rd rs1 rs2 = r_type (bit5_of op * 32) rs2 rs1 (funct3_of op) rd 0x33

pub and-false : (b : Bool) → (b && false) ≡ false
and-false true = refl
and-false false = refl

pub alu_of-code : (op : AluOp) → IsOp op → alu_of (bit5_of op * 8 + funct3_of op) ≡ op
unfolding alu_of
alu_of-code AluOp.add i = refl
alu_of-code AluOp.sub i = refl
alu_of-code AluOp.sll i = refl
alu_of-code AluOp.slt i = refl
alu_of-code AluOp.sltu i = refl
alu_of-code AluOp.xor i = refl
alu_of-code AluOp.srl i = refl
alu_of-code AluOp.sra i = refl
alu_of-code AluOp.or i = refl
alu_of-code AluOp.and i = refl
alu_of-code AluOp.none i = absurd i

pub funct3_of-lt : (op : AluOp) → funct3_of op < 8
funct3_of-lt AluOp.add = omega arith
funct3_of-lt _ = omega arith

pub bit5_of-lt : (op : AluOp) → bit5_of op < 2
bit5_of-lt AluOp.sub = omega arith
bit5_of-lt _ = omega arith

pub alu_funct7_bit5-mod : (i : ℕ) → alu_funct7_bit5 i ≡ i / 2 ^ 30 % 2 * 8
unfolding alu_funct7_bit5
alu_funct7_bit5-mod i = omega (arith, bit_and_field 30 1 i)

pub check_funct7_bit0-mod : (i : ℕ) → i / 2 ^ 25 % 2 ≡ 0 → check_funct7_bit0 i ≡ false
unfolding check_funct7_bit0
check_funct7_bit0-mod i h =
    let e : bit_and i 0x2000000 ≡ 0 = omega (arith, bit_and_field 25 1 i) in rw e

module _ (op : AluOp) (i : IsOp op) (rd rs1 rs2 : ℕ) (hd : rd < 32) (h1 : rs1 < 32)
    (h2 : rs2 < 32) where
  opcode-op : get_opcode (op_word op rd rs1 rs2) ≡ 0x33
  opcode-op = omega (arith, get_opcode-mod (op_word op rd rs1 rs2))

  rd-op : get_rd (op_word op rd rs1 rs2) ≡ rd
  rd-op = omega (arith, get_rd-mod (op_word op rd rs1 rs2))

  rs1-op : get_rs1 (op_word op rd rs1 rs2) ≡ rs1
  rs1-op = omega (arith, get_rs1-mod (op_word op rd rs1 rs2), funct3_of-lt op)

  rs2-op : get_rs2 (op_word op rd rs1 rs2) ≡ rs2
  rs2-op = omega (arith, get_rs2-mod (op_word op rd rs1 rs2), funct3_of-lt op)

  not_mul : check_funct7_bit0 (op_word op rd rs1 rs2) ≡ false
  not_mul =
      check_funct7_bit0-mod (op_word op rd rs1 rs2) (omega (arith, funct3_of-lt op, bit5_of-lt op))

  alu_op-op : alu_op (op_word op rd rs1 rs2) ≡ op
  alu_op-op = ap alu_of code ∙ alu_of-code op i
    where
      high : alu_funct7_bit5 (op_word op rd rs1 rs2) ≡ bit5_of op * 2 ^ 3
      high =
          omega (arith, alu_funct7_bit5-mod (op_word op rd rs1 rs2), funct3_of-lt op, bit5_of-lt op)

      low : get_funct3 (op_word op rd rs1 rs2) ≡ funct3_of op
      low = omega (arith, get_funct3-mod (op_word op rd rs1 rs2), funct3_of-lt op)

      code :
          bit_or (alu_funct7_bit5 (op_word op rd rs1 rs2)) (get_funct3 (op_word op rd rs1 rs2))
          ≡ bit5_of op * 8 + funct3_of op
      code = rw (high, low) (bit_or_fields 3 (bit5_of op) (funct3_of op) (funct3_of-lt op))

  -- The word of ADD, SUB, SLL, SLT, SLTU, XOR, SRL, SRA, OR or AND leaves the result that the
  -- manual gives in rd, changes no other register and no memory, prints nothing, and goes on to the
  -- next instruction; x0 stays 0. It asks for a valid state and for rd, rs1, rs2 < 32, and holds at
  -- both widths, with the M extension and without.
  pub process_instr-op :
      (cfg : Config) (s : Machine)
      → IsValid cfg.xlen s
      → Ensures
          (Retires s rd
            (result cfg.xlen op (s.cpu.regfile rs1) (s.cpu.regfile rs2))
            (wrap cfg.xlen (s.cpu.pc + 4)))
          (process_instr cfg (op_word op rd rs1 rs2) s)
  unfolding opcode_of
  process_instr-op cfg s v = rw rd-op at (
      rtype-Retires cfg (op_word op rd rs1 rs2) s
        (result cfg.xlen op (s.cpu.regfile rs1) (s.cpu.regfile rs2))
        (ap (opcode_of cfg.xlen) opcode-op) gives)
    where
      gives :
          (if cfg.m_ext && check_funct7_bit0 (op_word op rd rs1 rs2)
            then mul_div cfg
                (mul_of (get_funct3 (op_word op rd rs1 rs2)))
                (s.cpu.regfile (get_rs1 (op_word op rd rs1 rs2)))
                (s.cpu.regfile (get_rs2 (op_word op rd rs1 rs2)))
            else alu cfg.xlen
                (alu_op (op_word op rd rs1 rs2))
                (s.cpu.regfile (get_rs1 (op_word op rd rs1 rs2)))
                (s.cpu.regfile (get_rs2 (op_word op rd rs1 rs2))))
          ≡ some (result cfg.xlen op (s.cpu.regfile rs1) (s.cpu.regfile rs2))
      gives =
          rw (not_mul, and-false cfg.m_ext, alu_op-op, rs1-op, rs2-op)
            (alu-result cfg.xlen op _ _ i (v.registers rs1) (v.registers rs2))
