-- ===== src/Isa/Cycles.antt =====
-- The cycles of each instruction, by the registers that it reads and by what the two instructions
-- before it were (inc/perf.h and the accesses of inc/bus.h), on the state that a program sees.
use rvem.Common.{ℕ, ◌+◌, ◌%◌, ◌^◌, ◌≡◌, Bool, true, false, not, ◌&&◌, ◌||◌, ◌==◌, if◌then◌else◌}
use rvem.Arch.{Xlen}
use rvem.Machine.{Machine, PerfModel}
use rvem.Bus.{in_ram, in_rom}
use rvem.Bus.Timing.{is_unaligned}
use rvem.Core.Jumps.{holds}
use rvem.Core.CsrWords.{has_immediate}
use rvem.Isa.{
  Instruction, alu, alu_imm, shift_imm, mul_div, alu_word, mul_div_word, add_word_imm,
  shift_word_imm, load, store, branch, jal, jalr, lui, auipc, csr_op, ecall, ebreak, fence,
}
use rvem.Isa.Hart.{Hart, hart, at_address}

-- The registers that an instruction waits for; an ecall waits for none.
abbrev pub needs : Instruction → ℕ → Bool
needs (alu op rd rs1 rs2) r = rs1 == r || rs2 == r
needs (alu_imm op rd rs1 imm) r = rs1 == r
needs (shift_imm op rd rs1 amount) r = rs1 == r
needs (mul_div op rd rs1 rs2) r = rs1 == r || rs2 == r
needs (alu_word op rd rs1 rs2) r = rs1 == r || rs2 == r
needs (mul_div_word op rd rs1 rs2) r = rs1 == r || rs2 == r
needs (add_word_imm rd rs1 imm) r = rs1 == r
needs (shift_word_imm op rd rs1 amount) r = rs1 == r
needs (load op rd rs1 imm) r = rs1 == r
needs (store op rs1 rs2 imm) r = rs1 == r || rs2 == r
needs (branch op rs1 rs2 offset) r = rs1 == r || rs2 == r
needs (jalr rd rs1 imm) r = rs1 == r
needs (csr_op op rd rs1 csr) r = not (has_immediate op) && rs1 == r
needs _ r = false

-- x0 is always there.
abbrev pub waits : Instruction → ℕ → Bool
waits i r = needs i r && not (r == 0)

-- The destination field, as the record of the last instruction has it: that of a CSR instruction
-- too, though it is not taken for one that writes a register.
abbrev pub target : Instruction → ℕ
target (alu op rd rs1 rs2) = rd
target (alu_imm op rd rs1 imm) = rd
target (shift_imm op rd rs1 amount) = rd
target (mul_div op rd rs1 rs2) = rd
target (alu_word op rd rs1 rs2) = rd
target (mul_div_word op rd rs1 rs2) = rd
target (add_word_imm rd rs1 imm) = rd
target (shift_word_imm op rd rs1 amount) = rd
target (load op rd rs1 imm) = rd
target (jal rd offset) = rd
target (jalr rd rs1 imm) = rd
target (lui rd imm) = rd
target (auipc rd imm) = rd
target (csr_op op rd rs1 csr) = rd
target _ = 0

abbrev pub is_load : Instruction → Bool
is_load (load op rd rs1 imm) = true
is_load _ = false

abbrev pub is_write : Instruction → Bool
is_write (store op rs1 rs2 imm) = false
is_write (branch op rs1 rs2 offset) = false
is_write (csr_op op rd rs1 csr) = false
is_write ecall = false
is_write ebreak = false
is_write (fence imm) = false
is_write _ = true

-- The instructions with PERF_MODEL_BRANCH_HAZARD.
abbrev pub is_early : Instruction → Bool
is_early (branch op rs1 rs2 offset) = true
is_early (jalr rd rs1 imm) = true
is_early _ = false

-- Whether pc is set to another place than the next one.
abbrev pub jumps : Xlen → Instruction → Hart → Bool
jumps x (branch op rs1 rs2 offset) h = holds x op (h.regs rs1) (h.regs rs2)
jumps x (jal rd offset) h = true
jumps x (jalr rd rs1 imm) h = true
jumps x _ h = false

-- An access to an array at an address that its size does not divide. A store to the ROM, and an
-- access to neither array, is only a message.
abbrev pub splits : Xlen → Instruction → Hart → Bool
splits x (load op rd rs1 imm) h =
    (in_ram x (at_address x h rs1 imm) op || in_rom x (at_address x h rs1 imm) op)
    && is_unaligned op (at_address x h rs1 imm)
splits x (store op rs1 rs2 imm) h =
    in_ram x (at_address x h rs1 imm) op && is_unaligned op (at_address x h rs1 imm)
splits x _ h = false

-- Stalls for the load before, for an early instruction also for any write before and for the load
-- before the last.
abbrev pub after_load : Instruction → PerfModel → Bool
after_load i p = waits i p.prev_rd && p.prev_mem_load

abbrev pub after_write : Instruction → PerfModel → Bool
after_write i p = is_early i && waits i p.prev_rd && p.prev_reg_write

abbrev pub after_load2 : Instruction → PerfModel → Bool
after_load2 i p = is_early i && waits i p.prev2_rd && p.prev2_mem_load

abbrev pub bit : Bool → ℕ
bit b = if b then 1 else 0

abbrev pub cycles : Xlen → Instruction → Hart → PerfModel → ℕ
cycles x i h p =
    1
    + bit (after_load i p)
    + bit (after_write i p)
    + bit (after_load2 i p)
    + bit (jumps x i h)
    + bit (splits x i h)

-- The performance model after an instruction.
abbrev pub remembers : Instruction → PerfModel → PerfModel
remembers i p = record {
  prev_rd = target i;
  prev2_rd = p.prev_rd;
  prev_mem_load = is_load i;
  prev2_mem_load = p.prev_mem_load;
  prev_reg_write = is_write i;
}

pub record Times (x : Xlen) (i : Instruction) (s t : Machine) : Type 0 where
  pub counts : t.mcycle ≡ (s.mcycle + cycles x i (hart s) s.perf_model) % 2 ^ 64
  pub model : t.perf_model ≡ remembers i s.perf_model
