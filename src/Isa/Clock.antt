-- ===== src/Isa/Clock.antt =====
-- The cycles of every instruction: mcycle and the performance model after process_instr.
use rvem.Common.{ℕ, ◌+◌, ◌*◌, ◌^◌, ◌<◌, ◌≤◌, refl, arith}
use rvem.Arch.{Xlen, rv32, rv64, bits, Config}
use rvem.Machine.{Machine}
use rvem.Machine.Safe.{Ensures, Ensures_mono, Ensures-Allows, IsValid}
use rvem.Core.{process_instr}
use rvem.Core.Registers.{bit5_of, funct3_of, bit5_of-lt, funct3_of-lt}
use rvem.Core.Products.{mul_funct3, mul_funct3-lt}
use rvem.Core.Safety.{Completes, process_instr-Completes}
use rvem.Isa.{
  Instruction, alu, alu_imm, shift_imm, mul_div, alu_word, mul_div_word, add_word_imm,
  shift_word_imm, load, store, branch, jal, jalr, lui, auipc, csr_op, ecall, ebreak, fence, encode,
  IsInstruction,
}
use rvem.Isa.Cycles.{Times}
use rvem.Isa.Timing.{Takes}
use rvem.Isa.Timing.Computations.{rtype-Times, rtypew-Times, imm-Times, immw-Times}
use rvem.Isa.Timing.Transfers.{load-Times, store-Times, branch-Times}
use rvem.Isa.Timing.Jumps.{
  jal-Times, jalr-Times, upper-Times, fence-Times, csr-Times, environment-Times,
}

-- The immediate of a shift has bit 10 and the amount.
amount_fits : (b m amount : ℕ) → b < 2 → m ≤ 64 → amount < m → b * 2 ^ 10 + amount < 2 ^ 12
amount_fits b m amount hb hm h = omega arith

bits_le : (x : Xlen) → bits x ≤ 64
bits_le rv32 = omega arith
bits_le rv64 = omega arith

allowed : (cfg : Config) (i : Instruction) (s : Machine) → IsInstruction cfg i → Takes cfg s i
allowed cfg (alu op rd rs1 rs2) s (is, hd, h1, h2) =
    rtype-Times cfg s (alu op rd rs1 rs2) (bit5_of op * 32) rs2 rs1 (funct3_of op) rd
      (omega (arith, bit5_of-lt op)) h2 h1 (funct3_of-lt op) hd refl refl refl (λ r. refl) refl
allowed cfg (alu_imm op rd rs1 imm) s (is, hd, h1, hi) =
    imm-Times cfg s (alu_imm op rd rs1 imm) imm rs1 (funct3_of op) rd hi h1 (funct3_of-lt op) hd
      refl refl refl (λ r. refl) refl
allowed cfg (shift_imm op rd rs1 amount) s (is, hd, h1, ha) =
    imm-Times cfg s (shift_imm op rd rs1 amount) (bit5_of op * 2 ^ 10 + amount) rs1 (funct3_of op)
      rd (amount_fits (bit5_of op) (bits cfg.xlen) amount (bit5_of-lt op) (bits_le cfg.xlen) ha) h1
      (funct3_of-lt op) hd refl refl refl (λ r. refl) refl
allowed cfg (mul_div op rd rs1 rs2) s (m, is, hd, h1, h2) =
    rtype-Times cfg s (mul_div op rd rs1 rs2) 1 rs2 rs1 (mul_funct3 op) rd (omega arith) h2 h1
      (mul_funct3-lt op) hd refl refl refl (λ r. refl) refl
allowed cfg (alu_word op rd rs1 rs2) s (x, is, hd, h1, h2) =
    rtypew-Times cfg s (alu_word op rd rs1 rs2) (bit5_of op * 32) rs2 rs1 (funct3_of op) rd
      (omega (arith, bit5_of-lt op)) h2 h1 (funct3_of-lt op) hd refl refl refl (λ r. refl) refl x
allowed cfg (mul_div_word op rd rs1 rs2) s (x, m, is, hd, h1, h2) =
    rtypew-Times cfg s (mul_div_word op rd rs1 rs2) 1 rs2 rs1 (mul_funct3 op) rd (omega arith) h2 h1
      (mul_funct3-lt op) hd refl refl refl (λ r. refl) refl x
allowed cfg (add_word_imm rd rs1 imm) s (x, hd, h1, hi) =
    immw-Times cfg s (add_word_imm rd rs1 imm) imm rs1 0 rd hi h1 (omega arith) hd refl refl refl
      (λ r. refl) refl x
allowed cfg (shift_word_imm op rd rs1 amount) s (x, is, hd, h1, ha) =
    immw-Times cfg s (shift_word_imm op rd rs1 amount) (bit5_of op * 2 ^ 10 + amount) rs1
      (funct3_of op) rd (amount_fits (bit5_of op) 32 amount (bit5_of-lt op) (omega arith) ha) h1
      (funct3_of-lt op) hd refl refl refl (λ r. refl) refl x
allowed cfg (load op rd rs1 imm) s (l, hd, h1, hi) = load-Times cfg s op rd rs1 imm l hd h1 hi
allowed cfg (store op rs1 rs2 imm) s (st, h1, h2, hi) = store-Times cfg s op rs1 rs2 imm st h1 h2 hi
allowed cfg (branch op rs1 rs2 offset) s (is, h1, h2, ho, even) =
    branch-Times cfg s op rs1 rs2 offset h1 h2 ho even
allowed cfg (jal rd offset) s (hd, ho, even) = jal-Times cfg s rd offset hd ho even
allowed cfg (jalr rd rs1 imm) s (hd, h1, hi) = jalr-Times cfg s rd rs1 imm hd h1 hi
allowed cfg (lui rd imm) s (hd, hi) = (upper-Times cfg s rd imm hd hi).0
allowed cfg (auipc rd imm) s (hd, hi) = (upper-Times cfg s rd imm hd hi).1
allowed cfg (csr_op op rd rs1 csr) s (is, hd, h1, hc) = csr-Times cfg s op rd rs1 csr is hd h1 hc
allowed cfg ecall s is = (environment-Times cfg s).0
allowed cfg ebreak s is = (environment-Times cfg s).1
allowed cfg (fence imm) s hi = fence-Times cfg s imm hi

-- The word of every instruction, with operands that fit their fields, takes the cycles of the
-- performance model, exactly: process_instr returns, and mcycle has grown, modulo 2 ^ 64, by one
-- for the instruction; by one more where a source register that it names, x0 apart, is the
-- destination of a load just before it; for a branch and JALR, by one where such a register is the
-- destination of any register write just before it, which comes on top of the former, and by one
-- where it is that of a load two before it; by one where it jumps; and by one for a load from an
-- array, or a store to the RAM, at an address that the size of the access does not divide. The
-- performance model then has the destination and the kind of the instruction, a CSR instruction as
-- none that writes a register, and those of the one before it. It asks for a valid state.
pub process_instr-Times :
    (cfg : Config) (i : Instruction) (s : Machine)
    → IsInstruction cfg i
    → IsValid cfg.xlen s
    → Ensures (λ _. Times cfg.xlen i s) (process_instr cfg (encode i) s)
process_instr-Times cfg i s is v =
    Ensures_mono _ _ (process_instr cfg (encode i) s) (λ c t (done, timed). timed)
      (Ensures-Allows (λ _. Completes cfg s) (λ _. Times cfg.xlen i s)
        (process_instr cfg (encode i) s) (process_instr-Completes cfg (encode i) s v)
        (allowed cfg i s is))
