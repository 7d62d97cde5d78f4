-- ===== src/Core/WordImmediates.antt =====
-- OP_IMMW, from the encodings to the state after it.
use rvem.Common.{ℕ, ◌+◌, ◌/◌, ◌%◌, ◌^◌, ◌<◌, ◌≡◌, arith, ap, Bool, some, ◌==◌}
use rvem.Common.Word.{sign_extend}
use rvem.Arch.{rv64, Compiler}
use rvem.Riscv.{opcode_of, AluOp, alu_of}
use rvem.Riscv.Encode.{i_type}
use rvem.Riscv.Decode.{i_type-IFields}
use rvem.Riscv.Immediates.{get_simm12-i_type}
use rvem.Machine.{Machine, wrap}
use rvem.Machine.Safe.{Ensures}
use rvem.Alu.{alu_word_imm}
use rvem.Alu.WordSpec.{word_result, alu_word_imm-add, alu_word_imm-shift}
use rvem.Core.{process_instr}
use rvem.Core.Retire.{Retires}
use rvem.Core.Words.{build64, immw-Retires}

-- An immediate instruction on words that the switch gives v.
immw :
    (m : Bool) (c : Compiler) (funct3 rd rs1 imm : ℕ) (s : Machine) (v : ℕ)
    → rd < 32
    → rs1 < 32
    → imm < 2 ^ 12
    → funct3 < 8
    → alu_word_imm rv64
        (imm / 2 ^ 10 % 2 == 1)
        (alu_of funct3)
        (s.cpu.regfile rs1)
        (sign_extend 12 64 imm)
      ≡ some v
    → Ensures
        (Retires s rd v (wrap rv64 (s.cpu.pc + 4)))
        (process_instr (build64 m c) (i_type imm rs1 funct3 rd 0x1B) s)
unfolding opcode_of
immw m c funct3 rd rs1 imm s v hd h1 hi h3 gives =
    let raw : ℕ = i_type imm rs1 funct3 rd 0x1B in
    let f = i_type-IFields imm rs1 funct3 rd 0x1B hi h1 h3 hd (omega arith) in
    rw f.rd_is at (
      immw-Retires m c raw s v (ap (opcode_of rv64) f.opcode_is) (
        rw
          (
            f.bit5_is,
            f.funct3_is,
            f.rs1_is,
            get_simm12-i_type rv64 imm rs1 funct3 rd 0x1B hi h1 h3 hd (omega arith),
          )
          gives))

-- The word of ADDIW on RV64 leaves the sum of rs1 and the immediate in 32 bits, sign-extended, in
-- rd; the words of SLLIW, SRLIW and SRAIW leave the shift of the low word of rs1 by the amount,
-- sign-extended. They change no other register and no memory, print nothing, and go on to the next
-- instruction. It asks for rd, rs1 < 32, an immediate of 12 bits and an amount below 32.
pub process_instr-opw_imm :
    (m : Bool) (c : Compiler) (rd rs1 imm amount : ℕ) (s : Machine)
    → rd < 32
    → rs1 < 32
    → imm < 2 ^ 12
    → amount < 32
    → Ensures
        (Retires s rd
          (word_result AluOp.add (s.cpu.regfile rs1) (sign_extend 12 64 imm))
          (wrap rv64 (s.cpu.pc + 4)))
        (process_instr (build64 m c) (i_type imm rs1 0 rd 0x1B) s)
      × Ensures
          (Retires s rd
            (word_result AluOp.sll (s.cpu.regfile rs1) amount)
            (wrap rv64 (s.cpu.pc + 4)))
          (process_instr (build64 m c) (i_type amount rs1 1 rd 0x1B) s)
      × Ensures
          (Retires s rd
            (word_result AluOp.srl (s.cpu.regfile rs1) amount)
            (wrap rv64 (s.cpu.pc + 4)))
          (process_instr (build64 m c) (i_type amount rs1 5 rd 0x1B) s)
      × Ensures
          (Retires s rd
            (word_result AluOp.sra (s.cpu.regfile rs1) amount)
            (wrap rv64 (s.cpu.pc + 4)))
          (process_instr (build64 m c) (i_type (2 ^ 10 + amount) rs1 5 rd 0x1B) s)
unfolding alu_of
process_instr-opw_imm m c rd rs1 imm amount s hd h1 hi ha =
    let (left, right, arithmetic) = alu_word_imm-shift (s.cpu.regfile rs1) amount ha in
    (
      immw m c 0 rd rs1 imm s _ hd h1 hi (omega arith) (alu_word_imm-add _ (s.cpu.regfile rs1) _),
      immw m c 1 rd rs1 amount s _ hd h1 (omega arith) (omega arith) left,
      immw m c 5 rd rs1 amount s _ hd h1 (omega arith) (omega arith) right,
      immw m c 5 rd rs1 (2 ^ 10 + amount) s _ hd h1 (omega arith) (omega arith) arithmetic,
    )
