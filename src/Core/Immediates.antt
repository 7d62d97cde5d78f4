-- ===== src/Core/Immediates.antt =====
-- OP_IMM: the instructions with an immediate, from their words to the state after them.
use rvem.Common.{ℕ, ◌+◌, ◌*◌, ◌/◌, ◌%◌, ◌^◌, ◌<◌, ◌≡◌, refl, arith, ap, Bool, some, ◌==◌}
use native.Mathlib.Nat.{mod-eq_of_lt}
use rvem.Common.Bits.{bit_and_field}
use rvem.Common.Word.{sign_extend}
use rvem.Arch.{Xlen, rv32, rv64, bits, Config}
use rvem.Riscv.{
  opcode_of, get_opcode, AluOp, alu_of, get_rs1, get_rd, get_funct3, check_funct7_bit5,
}
use rvem.Riscv.Encode.{i_type}
use rvem.Riscv.Fields.{get_opcode-mod, get_rd-mod, get_rs1-mod, get_funct3-mod}
use rvem.Riscv.Immediates.{get_simm12-i_type}
use rvem.Machine.{Machine, wrap}
use rvem.Machine.Safe.{Ensures, IsValid}
use rvem.Alu.{alu_imm}
use rvem.Alu.Spec.{result, shift_amount, sra-result}
use rvem.Core.{process_instr}
use rvem.Core.Retire.{Retires, imm-Retires}
use rvem.Core.Registers.{funct3_of, bit5_of, funct3_of-lt, bit5_of-lt}

-- ADDI, SLTI, SLTIU, XORI, ORI and ANDI.
abbrev pub TakesImmediate : AluOp → Type 0
TakesImmediate AluOp.add = Unit
TakesImmediate AluOp.slt = Unit
TakesImmediate AluOp.sltu = Unit
TakesImmediate AluOp.xor = Unit
TakesImmediate AluOp.or = Unit
TakesImmediate AluOp.and = Unit
TakesImmediate _ = ⊥

-- SLLI, SRLI and SRAI.
abbrev pub IsShift : AluOp → Type 0
IsShift AluOp.sll = Unit
IsShift AluOp.srl = Unit
IsShift AluOp.sra = Unit
IsShift _ = ⊥

abbrev pub imm_word : (op : AluOp) (rd rs1 imm : ℕ) → ℕ
imm_word op rd rs1 imm = i_type imm rs1 (funct3_of op) rd 0x13

-- The amount of a shift stands low in the immediate, and bit 10 tells SRAI from SRLI.
abbrev pub shift_word : (op : AluOp) (rd rs1 amount : ℕ) → ℕ
shift_word op rd rs1 amount = i_type (bit5_of op * 2 ^ 10 + amount) rs1 (funct3_of op) rd 0x13

alu_imm-result :
    (x : Xlen) (bit5 : Bool) (op : AluOp) (a imm : ℕ)
    → TakesImmediate op
    → alu_imm x bit5 (alu_of (funct3_of op)) a imm ≡ some (result x op a imm)
unfolding alu_imm alu_of
alu_imm-result x bit5 AluOp.add a imm i = refl
alu_imm-result x bit5 AluOp.slt a imm i = refl
alu_imm-result x bit5 AluOp.sltu a imm i = refl
alu_imm-result x bit5 AluOp.xor a imm i = refl
alu_imm-result x bit5 AluOp.or a imm i = refl
alu_imm-result x bit5 AluOp.and a imm i = refl
alu_imm-result x bit5 _ a imm i = absurd i

module _ (op : AluOp) (rd rs1 imm : ℕ) (hd : rd < 32) (h1 : rs1 < 32) (hi : imm < 2 ^ 12) where
  opcode-imm : get_opcode (imm_word op rd rs1 imm) ≡ 0x13
  opcode-imm = omega (arith, get_opcode-mod (imm_word op rd rs1 imm))

  rd-imm : get_rd (imm_word op rd rs1 imm) ≡ rd
  rd-imm = omega (arith, get_rd-mod (imm_word op rd rs1 imm))

  funct3-imm : get_funct3 (imm_word op rd rs1 imm) ≡ funct3_of op
  funct3-imm = omega (arith, get_funct3-mod (imm_word op rd rs1 imm), funct3_of-lt op)

  rs1-imm : get_rs1 (imm_word op rd rs1 imm) ≡ rs1
  rs1-imm = omega (arith, get_rs1-mod (imm_word op rd rs1 imm), funct3_of-lt op)

  -- The word of ADDI, SLTI, SLTIU, XORI, ORI or ANDI leaves in rd the result that the manual gives
  -- for rs1 and the sign-extended immediate, changes no other register and no memory, prints
  -- nothing, and goes on to the next instruction. It asks for rd, rs1 < 32 and for an immediate of
  -- 12 bits, and holds in every state.
  pub process_instr-op_imm :
      TakesImmediate op
      → (cfg : Config) (s : Machine)
      → Ensures
          (Retires s rd
            (result cfg.xlen op (s.cpu.regfile rs1) (sign_extend 12 (bits cfg.xlen) imm))
            (wrap cfg.xlen (s.cpu.pc + 4)))
          (process_instr cfg (imm_word op rd rs1 imm) s)
  unfolding opcode_of
  process_instr-op_imm takes cfg s = rw rd-imm at (
      imm-Retires cfg (imm_word op rd rs1 imm) s
        (result cfg.xlen op (s.cpu.regfile rs1) (sign_extend 12 (bits cfg.xlen) imm))
        (ap (opcode_of cfg.xlen) opcode-imm)
        (rw
          (
            funct3-imm,
            rs1-imm,
            get_simm12-i_type cfg.xlen imm rs1 (funct3_of op) rd 0x13 hi h1 (funct3_of-lt op) hd
                (omega arith),
          )
          (alu_imm-result cfg.xlen _ op _ _ takes)))

sign_extend-small : (x : Xlen) (imm : ℕ) → imm < 2 ^ 11 → sign_extend 12 (bits x) imm ≡ imm
sign_extend-small rv32 imm h = ground arith
sign_extend-small rv64 imm h = ground arith

-- The immediate of a shift, masked, is the amount.
amount-mod : (x : Xlen) (b amount : ℕ) → amount < bits x → (b * 2 ^ 10 + amount) % bits x ≡ amount
amount-mod rv32 b amount h = omega arith
amount-mod rv64 b amount h = omega arith

amount-small : (x : Xlen) (amount : ℕ) → amount < bits x → amount < 64
amount-small rv32 amount h = omega arith
amount-small rv64 amount h = omega arith

alu_imm-shift :
    (x : Xlen) (op : AluOp) (a amount : ℕ)
    → IsShift op
    → a < 2 ^ bits x
    → amount < bits x
    → alu_imm x (bit5_of op == 1) (alu_of (funct3_of op)) a (bit5_of op * 2 ^ 10 + amount)
      ≡ some (result x op a amount)
unfolding alu_imm alu_of
alu_imm-shift x AluOp.sll a amount i ha h =
    rw (shift_amount x (0 * 2 ^ 10 + amount), amount-mod x 0 amount h) (rw (mod-eq_of_lt h))
alu_imm-shift x AluOp.srl a amount i ha h =
    rw (shift_amount x (0 * 2 ^ 10 + amount), amount-mod x 0 amount h) (rw (mod-eq_of_lt h))
alu_imm-shift x AluOp.sra a amount i ha h =
    rw (shift_amount x (1 * 2 ^ 10 + amount), amount-mod x 1 amount h)
      (rw (mod-eq_of_lt h) (ap some (sra-result x a amount ha h)))
alu_imm-shift x _ a amount i ha h = absurd i

module _ (op : AluOp) (rd rs1 amount : ℕ) (hd : rd < 32) (h1 : rs1 < 32) (ha : amount < 64) where
  in_imm : bit5_of op * 2 ^ 10 + amount < 2 ^ 11
  in_imm = omega (arith, bit5_of-lt op)

  bit5-shift : check_funct7_bit5 (shift_word op rd rs1 amount) ≡ (bit5_of op == 1)
  unfolding check_funct7_bit5
  bit5-shift = ground (
    arith,
    bit_and_field 30 1 (shift_word op rd rs1 amount),
    bit5_of-lt op,
    funct3_of-lt op,
    bit30,
  )
    where
      bit30 : shift_word op rd rs1 amount / 2 ^ 30 % 2 ≡ bit5_of op
      bit30 = omega (arith, bit5_of-lt op, funct3_of-lt op)

-- The word of SLLI, SRLI or SRAI leaves rs1, shifted by the amount as the manual gives, in rd,
-- changes no other register and no memory, prints nothing, and goes on to the next instruction. It
-- asks for a valid state, for rd, rs1 < 32 and for an amount below XLEN.
pub process_instr-op_shift :
    (cfg : Config) (op : AluOp) (rd rs1 amount : ℕ) (s : Machine)
    → IsShift op
    → rd < 32
    → rs1 < 32
    → amount < bits cfg.xlen
    → IsValid cfg.xlen s
    → Ensures
        (Retires s rd
          (result cfg.xlen op (s.cpu.regfile rs1) amount)
          (wrap cfg.xlen (s.cpu.pc + 4)))
        (process_instr cfg (shift_word op rd rs1 amount) s)
unfolding opcode_of
process_instr-op_shift cfg op rd rs1 amount s i hd h1 h v =
    let small : amount < 64 = amount-small cfg.xlen amount h in
    let fits : bit5_of op * 2 ^ 10 + amount < 2 ^ 11 = in_imm op rd rs1 amount hd h1 small in
    let imm : ℕ = bit5_of op * 2 ^ 10 + amount in
    rw (rd-imm op rd rs1 imm hd h1 (omega arith)) at (
      imm-Retires cfg (shift_word op rd rs1 amount) s
        (result cfg.xlen op (s.cpu.regfile rs1) amount)
        (ap (opcode_of cfg.xlen) (opcode-imm op rd rs1 imm hd h1 (omega arith)))
        (rw
          (
            funct3-imm op rd rs1 imm hd h1 (omega arith),
            rs1-imm op rd rs1 imm hd h1 (omega arith),
            bit5-shift op rd rs1 amount hd h1 small,
            get_simm12-i_type cfg.xlen imm rs1 (funct3_of op) rd 0x13 (omega arith) h1
                (funct3_of-lt op) hd (omega arith),
            sign_extend-small cfg.xlen imm fits,
          )
          (alu_imm-shift cfg.xlen op _ amount i (v.registers rs1) h)))
