-- ===== src/Core/Blind.antt =====
-- process_instr does not look at the counters and at the performance model, but for the CSR
-- instructions.
use rvem.Common.{
  ℕ, ◌/◌, ◌%◌, ◌^◌, ◌<◌, ◌≡◌, refl, arith, ap, Bool, false, not, ◌&&◌, ◌==◌, Bool-cases, ◌⊎◌, inl,
  inr,
}
use rvem.Arch.{Xlen, rv32, rv64, Config}
use rvem.Riscv.{Opcode, opcode_of, get_opcode, get_funct3, sys_of}
use rvem.Riscv.Fields.{get_opcode-mod, get_funct3-mod}
use rvem.Machine.{Cpu, Instr, update}
use rvem.Machine.Blind.{Blind, bind, pure-Blind, get_pc-Blind}
use rvem.Perf.{cycle}
use rvem.Exec.{exec_fence}
use rvem.Exec.System.{exec_sys, system}
use rvem.Exec.Blind.{
  exec_rules, exec_rtype-Blind, exec_imm-Blind, exec_rtypew-Blind, exec_immw-Blind, exec_load-Blind,
  exec_store-Blind, exec_branch-Blind, exec_auipc-Blind, exec_lui-Blind, exec_jal-Blind,
  exec_jalr-Blind, exec_unknown-Blind, ecall-Blind,
}
use rvem.Core.{execute, commit, process_instr}

-- A CSR instruction: the opcode of OP_SYS, and another funct3 than those of ecall and of no
-- instruction.
abbrev pub reads_csr : ℕ → Bool
reads_csr raw = raw % 2 ^ 7 == 0x73 && not (raw / 2 ^ 12 % 4 == 0)

of_sys : (x : Xlen) (o : ℕ) → opcode_of x o ≡ Opcode.sys → o ≡ 0x73
unfolding opcode_of
of_sys rv32 o e = ground arith
of_sys rv64 o e = ground arith

zero_or_four : (f : ℕ) → f < 8 → f % 4 ≡ 0 → (f ≡ 0) ⊎ (f ≡ 4)
zero_or_four f h e = elim (Bool-cases (f == 0)) [
  | inl z ↦ inl (ground arith)
  | inr n ↦ inr (ground arith)
]

exec_sys-Blind : (cfg : Config) (raw : ℕ) → get_funct3 raw % 4 ≡ 0 → Blind (exec_sys cfg raw)
unfolding exec_sys system sys_of
exec_sys-Blind cfg raw h =
    elim (zero_or_four (get_funct3 raw) (omega (arith, get_funct3-mod raw)) h) [
      | inl e ↦ rw e (search (exec_rules, ecall-Blind))
      | inr e ↦ rw e (search exec_rules)
    ]

module _ (cfg : Config) (raw next_pc : ℕ) where
  execute-Blind :
      (op : Opcode)
      → (op ≡ Opcode.sys → get_funct3 raw % 4 ≡ 0)
      → Blind (execute cfg raw next_pc op)
  unfolding execute exec_fence
  execute-Blind Opcode.rtype h = bind (exec_rtype-Blind cfg raw) λ i. pure-Blind
  execute-Blind Opcode.imm h = bind (exec_imm-Blind cfg raw) λ i. pure-Blind
  execute-Blind Opcode.rtypew h = bind (exec_rtypew-Blind cfg raw) λ i. pure-Blind
  execute-Blind Opcode.immw h = bind (exec_immw-Blind cfg raw) λ i. pure-Blind
  execute-Blind Opcode.load h = bind (exec_load-Blind cfg raw) λ i. pure-Blind
  execute-Blind Opcode.store h = bind (exec_store-Blind cfg raw) λ i. pure-Blind
  execute-Blind Opcode.branch h = bind (exec_branch-Blind cfg raw next_pc) λ i. pure-Blind
  execute-Blind Opcode.fence h = pure-Blind
  execute-Blind Opcode.auipc h = bind (exec_auipc-Blind cfg raw) λ i. pure-Blind
  execute-Blind Opcode.lui h = bind (exec_lui-Blind cfg raw) λ i. pure-Blind
  execute-Blind Opcode.jal h = bind (exec_jal-Blind cfg raw) λ i. pure-Blind
  execute-Blind Opcode.jalr h = bind (exec_jalr-Blind cfg raw) λ i. pure-Blind
  execute-Blind Opcode.sys h = bind (exec_sys-Blind cfg raw (h refl)) λ i. pure-Blind
  execute-Blind Opcode.unknown h = bind (exec_unknown-Blind raw) λ i. pure-Blind

cycle-Blind : (instr : Instr) → Blind (cycle instr)
unfolding cycle
cycle-Blind instr = record {
  run = λ s t h. (refl, record { same_cpu = h.same_cpu; same_output = h.same_output });
}

commit-Blind : (next_pc : ℕ) → Blind (commit next_pc)
unfolding commit
commit-Blind next_pc = record {
  run = λ s t h. (
    refl,
    record {
      same_cpu =
          ap {B = Cpu} (λ (c : Cpu). record c { pc = next_pc; regfile = update c.regfile 0 0 })
            h.same_cpu;
      same_output = h.same_output;
    },
  );
}

pub process_instr-Blind :
    (cfg : Config) (raw : ℕ) → reads_csr raw ≡ false → Blind (process_instr cfg raw)
unfolding process_instr
process_instr-Blind cfg raw h = bind get_pc-Blind λ pc.
    bind (execute-Blind cfg raw _ _ (λ e. quarter (of_sys cfg.xlen _ e)))
      λ out. bind (cycle-Blind out.instr) λ _. bind (commit-Blind out.next_pc) λ _. pure-Blind
  where
    quarter : get_opcode raw ≡ 0x73 → get_funct3 raw % 4 ≡ 0
    quarter e = ground (arith, get_opcode-mod raw, get_funct3-mod raw)
