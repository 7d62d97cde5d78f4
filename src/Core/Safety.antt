-- ===== src/Core/Safety.antt =====
-- One instruction from any valid state: it returns, in a valid state, and what it may change.
use rvem.Common.{ℕ, ◌+◌, ◌%◌, ◌^◌, ◌<◌, ◌≤◌, ◌≡◌, refl, ap, arith}
use native.Mathlib.Nat.{one-le-pow}
use rvem.Arch.{Xlen, bits, Config}
use rvem.Riscv.{Opcode, opcode_of, get_opcode}
use rvem.Machine.{Machine, PerfModel, pure, ◌>>◌, wrap, update, get_pc, unrecognized}
use rvem.Machine.Safe.{
  IsValid, Advance, Advance_trans, Ensures, Ensures-and_then, Safe, weaken, bind, pure-Safe,
  print-Safe, get_pc-Safe, update-lt,
}
use rvem.Perf.{cycle}
use rvem.Alu.Laws.{wrap-lt}
use rvem.Exec.Safe.{
  exec_rtype-Safe, exec_imm-Safe, exec_rtypew-Safe, exec_immw-Safe, exec_load-Safe, exec_store-Safe,
}
use rvem.Exec.Safe.{
  exec_branch-Safe, exec_auipc-Safe, exec_lui-Safe, exec_jal-Safe, exec_jalr-Safe, exec_sys-Safe,
}
use rvem.Exec.{exec_fence, exec_unknown}
use rvem.Core.{Outcome, execute, commit, process_instr}

abbrev TargetOf : Xlen → Outcome → Type 0
TargetOf x out = out.next_pc < 2 ^ bits x

exec_fence-Safe : (x : Xlen) → Safe x 0 (λ _. Unit {0}) exec_fence
unfolding exec_fence
exec_fence-Safe x = pure-Safe tt

exec_unknown-Safe : (x : Xlen) (raw : ℕ) → Safe x 0 (λ _. Unit {0}) (exec_unknown raw)
unfolding exec_unknown
exec_unknown-Safe x raw = bind (print-Safe (unrecognized (get_opcode raw))) λ _ _. pure-Safe tt

module _ (cfg : Config) (raw next_pc : ℕ) (h : next_pc < 2 ^ bits cfg.xlen) where
  execute-Safe : (op : Opcode) → Safe cfg.xlen 4 (TargetOf cfg.xlen) (execute cfg raw next_pc op)
  unfolding execute
  execute-Safe Opcode.rtype =
      weaken 1 4 (omega arith) (bind (exec_rtype-Safe cfg raw) λ _ _. pure-Safe h)
  execute-Safe Opcode.imm =
      weaken 1 4 (omega arith) (bind (exec_imm-Safe cfg raw) λ _ _. pure-Safe h)
  execute-Safe Opcode.rtypew =
      weaken 1 4 (omega arith) (bind (exec_rtypew-Safe cfg raw) λ _ _. pure-Safe h)
  execute-Safe Opcode.immw =
      weaken 1 4 (omega arith) (bind (exec_immw-Safe cfg raw) λ _ _. pure-Safe h)
  execute-Safe Opcode.load =
      weaken 2 4 (omega arith) (bind (exec_load-Safe cfg raw) λ _ _. pure-Safe h)
  execute-Safe Opcode.store =
      weaken 2 4 (omega arith) (bind (exec_store-Safe cfg raw) λ _ _. pure-Safe h)
  execute-Safe Opcode.branch = bind (exec_branch-Safe cfg raw next_pc h) λ _ t. pure-Safe t
  execute-Safe Opcode.fence =
      weaken 0 4 (omega arith) (bind (exec_fence-Safe cfg.xlen) λ _ _. pure-Safe h)
  execute-Safe Opcode.auipc =
      weaken 0 4 (omega arith) (bind (exec_auipc-Safe cfg raw) λ _ _. pure-Safe h)
  execute-Safe Opcode.lui =
      weaken 0 4 (omega arith) (bind (exec_lui-Safe cfg raw) λ _ _. pure-Safe h)
  execute-Safe Opcode.jal =
      weaken 1 4 (omega arith) (bind (exec_jal-Safe cfg raw) λ _ t. pure-Safe t)
  execute-Safe Opcode.jalr = bind (exec_jalr-Safe cfg raw) λ _ t. pure-Safe t
  execute-Safe Opcode.sys =
      weaken 1 4 (omega arith) (bind (exec_sys-Safe cfg raw) λ _ _. pure-Safe h)
  execute-Safe Opcode.unknown =
      weaken 0 4 (omega arith) (bind (exec_unknown-Safe cfg.xlen raw) λ _ _. pure-Safe h)

-- What one instruction does to a state, whatever the instruction.
pub record Completes (cfg : Config) (s t : Machine) : Type 0 where
  pub valid : IsValid cfg.xlen t
  pub zero_register : t.cpu.regfile 0 ≡ 0
  pub same_rom : t.cpu.rom ≡ s.cpu.rom
  pub one_more : t.minstret ≡ (s.minstret + 1) % 2 ^ 64
  pub cycles : (j : ℕ) × (1 ≤ j) × (j ≤ 5) × (t.mcycle ≡ (s.mcycle + j) % 2 ^ 64)
  pub previous_rd : t.perf_model.prev2_rd ≡ s.perf_model.prev_rd
  pub previous_load : t.perf_model.prev2_mem_load ≡ s.perf_model.prev_mem_load

module _ (cfg : Config) where
  -- PERF_MODEL_CYCLE and the two assignments that end the function.
  finish :
      (out : Outcome) (s u : Machine)
      → TargetOf cfg.xlen out
      → IsValid cfg.xlen u
      → Advance 4 s u
      → Ensures
          (λ _ t. Completes cfg s t)
          ((do cycle out.instr; commit out.next_pc; pure out.exec_continue) u)
  unfolding cycle commit update
  finish out s u h v adv = record {
    valid = record {
      rom_bytes = v.rom_bytes;
      ram_bytes = v.ram_bytes;
      registers =
          update-lt (2 ^ bits cfg.xlen) u.cpu.regfile 0 0 v.registers
            (one-le-pow (bits cfg.xlen) 2 (omega arith));
      pc_range = h;
      cycle_range = omega arith;
      instret_range = omega arith;
    };
    zero_register = refl;
    same_rom = adv.same_rom;
    one_more = ap (λ (n : ℕ). (n + 1) % 2 ^ 64) adv.same_instret;
    cycles = let (j, le, c) = adv.cycles in (j + 1, omega arith, omega arith, omega arith);
    previous_rd = ap (λ (p : PerfModel). p.prev_rd) adv.same_model;
    previous_load = ap (λ (p : PerfModel). p.prev_mem_load) adv.same_model;
  }

  -- From a valid state every instruction word is executed without an access outside an array, and
  -- process_instr returns in a state where all values fit their types, x0 is 0, the ROM is as
  -- before, minstret has grown by one and mcycle by one to five, both modulo 2 ^ 64; the model's
  -- record of the previous instruction has moved to the one before it.
  pub process_instr-Completes :
      (raw : ℕ) (s : Machine)
      → IsValid cfg.xlen s
      → Ensures (λ _ t. Completes cfg s t) (process_instr cfg raw s)
  unfolding process_instr
  process_instr-Completes raw s v =
      Ensures-and_then _ _ (get_pc s) _ (get_pc-Safe.run s v) λ pc s₀ (_, v₀, adv₀).
        Ensures-and_then _ _
          (execute cfg raw (wrap cfg.xlen (pc + 4)) (opcode_of cfg.xlen (get_opcode raw)) s₀) _
          ((execute-Safe cfg raw _ (wrap-lt cfg.xlen _) _).run s₀ v₀)
          λ out u (t, w, adv). finish out s u t w (Advance_trans 0 4 adv₀ adv)
