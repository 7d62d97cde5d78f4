-- ===== src/Core.antt =====
-- src/cpu/core.c: process_instr, one instruction from its word to the next state.
pub mod Safety
pub mod Retire
pub mod Registers
pub mod Immediates
pub mod Products
pub mod System
pub mod CsrWords
pub mod Counters
pub mod Memory
pub mod Stores
pub mod Targets
pub mod Words
pub mod WordImmediates
pub mod Jumps
pub mod Sequence
pub mod Blind
pub mod Timing
use rvem.Common.{ℕ, ◌+◌, ◌%◌, ◌^◌, Bool, true, false, some}
use rvem.Arch.{Xlen, bits, Config}
use rvem.Riscv.{Opcode, opcode_of, get_opcode}
use rvem.Machine.{
  Machine, Instr, Event, unrecognized, M, pure, ◌>>=◌, ◌>>◌, wrap, update, get_pc, print,
}
use rvem.Perf.{cycle}
use rvem.Exec.{instr_init, exec_rtype, exec_imm, exec_rtypew, exec_immw, exec_load, exec_store}
use rvem.Exec.{exec_branch, exec_auipc, exec_lui, exec_jal, exec_jalr, exec_fence, exec_unknown}
use rvem.Exec.System.{exec_sys}

-- The local variables of process_instr after the switch.
pub record Outcome : Type 0 where
  pub instr : Instr
  pub next_pc : ℕ
  pub exec_continue : Bool

abbrev pub outcome : Instr → ℕ → Bool → Outcome
outcome i n b = record { instr = i; next_pc = n; exec_continue = b }

-- The switch on the opcode; next_pc has been set to pc + 4.
unfoldable pub execute : Config → ℕ → ℕ → Opcode → M Outcome
execute cfg raw next_pc Opcode.rtype = do i ← exec_rtype cfg raw; pure (outcome i next_pc true)
execute cfg raw next_pc Opcode.imm = do i ← exec_imm cfg raw; pure (outcome i next_pc true)
execute cfg raw next_pc Opcode.rtypew = do i ← exec_rtypew cfg raw; pure (outcome i next_pc true)
execute cfg raw next_pc Opcode.immw = do i ← exec_immw cfg raw; pure (outcome i next_pc true)
execute cfg raw next_pc Opcode.load = do i ← exec_load cfg raw; pure (outcome i next_pc true)
execute cfg raw next_pc Opcode.store = do i ← exec_store cfg raw; pure (outcome i next_pc true)
execute cfg raw next_pc Opcode.branch = do
  (i, target) ← exec_branch cfg raw next_pc
  pure (outcome i target true)
execute cfg raw next_pc Opcode.fence = do i ← exec_fence; pure (outcome i next_pc true)
execute cfg raw next_pc Opcode.auipc = do i ← exec_auipc cfg raw; pure (outcome i next_pc true)
execute cfg raw next_pc Opcode.lui = do i ← exec_lui cfg raw; pure (outcome i next_pc true)
execute cfg raw next_pc Opcode.jal = do (i, target) ← exec_jal cfg raw; pure (outcome i target true)
execute cfg raw next_pc Opcode.jalr = do
  (i, target) ← exec_jalr cfg raw
  pure (outcome i target true)
execute cfg raw next_pc Opcode.sys = do
  (i, continue) ← exec_sys cfg raw
  pure (outcome i next_pc continue)
execute cfg raw next_pc Opcode.unknown = do i ← exec_unknown raw; pure (outcome i next_pc true)

-- cpu.pc = next_pc; cpu.regfile[0] = 0;
unfoldable pub commit : ℕ → M (Unit {0})
commit next_pc s =
    some
      (tt, record s { cpu = record (s.cpu) { pc = next_pc; regfile = update s.cpu.regfile 0 0 } })

unfoldable pub process_instr : Config → ℕ → M Bool
process_instr cfg raw = do
  pc ← get_pc
  out ← execute cfg raw (wrap cfg.xlen (pc + 4)) (opcode_of cfg.xlen (get_opcode raw))
  cycle out.instr
  commit out.next_pc
  pure out.exec_continue
