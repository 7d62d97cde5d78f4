-- ===== src/Core/Targets.antt =====
-- OP_LUI, OP_AUIPC, OP_JAL, OP_JALR and OP_BRANCH: the state after any word of these opcodes.
use rvem.Common.{ℕ, ◌+◌, ◌≡◌, refl, true, if◌then◌else◌, bit_and, Bool-cases, inl, inr}
use rvem.Common.Word.{bit_not, u64}
use rvem.Arch.{bits, Config}
use rvem.Riscv.{
  Opcode, opcode_of, get_opcode, branch_of, get_rs1, get_rs2, get_rd, get_funct3, get_simm12,
  get_simm20, get_branch_imm, get_jal_imm,
}
use rvem.Riscv.Fields.{get_rd-lt, get_rs1-lt, get_rs2-lt}
use rvem.Machine.{Machine, Instr, wrap, get_pc}
use rvem.Machine.Safe.{Ensures}
use rvem.Machine.Run.{get_reg-get, set_reg-written}
use rvem.Perf.Laws.{branch_hazard-mcycle, branch_taken-mcycle}
use rvem.Exec.{exec_lui, exec_auipc, exec_jal, exec_jalr, exec_branch, instr_init, branches}
use rvem.Core.{outcome, execute, process_instr}
use rvem.Core.Retire.{Retires, retire, retire_still}

-- The instr_t of these cases.
abbrev target_instr : (rd imms : ℕ) → Instr
target_instr rd imms = record instr_init { rd = rd; is_reg_write = true; imms = imms }

abbrev jalr_instr : (rs1 rd imms : ℕ) → Instr
jalr_instr rs1 rd imms = record instr_init { rs1 = rs1; rd = rd; is_reg_write = true; imms = imms }

abbrev branch_instr : (rs1 rs2 imms : ℕ) → Instr
branch_instr rs1 rs2 imms = record instr_init { rs1 = rs1; rs2 = rs2; imms = imms }

-- The cases of the switch, for any word of their opcode.
module _ (cfg : Config) (raw : ℕ) (s : Machine) where
  pub lui-Retires :
      opcode_of cfg.xlen (get_opcode raw) ≡ Opcode.lui
      → Ensures
          (Retires s (get_rd raw) (get_simm20 cfg.xlen raw) (wrap cfg.xlen (s.cpu.pc + 4)))
          (process_instr cfg raw s)
  unfolding execute exec_lui
  lui-Retires e =
      retire cfg raw s Opcode.lui
        (outcome (target_instr (get_rd raw) (get_simm20 cfg.xlen raw))
          (wrap cfg.xlen (s.cpu.pc + 4)) true)
        s.mcycle (get_rd raw) (get_simm20 cfg.xlen raw) e refl
        (rw (set_reg-written (get_rd raw) (get_simm20 cfg.xlen raw) s (get_rd-lt raw)))

  pub auipc-Retires :
      opcode_of cfg.xlen (get_opcode raw) ≡ Opcode.auipc
      → Ensures
          (Retires s
            (get_rd raw)
            (wrap cfg.xlen (s.cpu.pc + get_simm20 cfg.xlen raw))
            (wrap cfg.xlen (s.cpu.pc + 4)))
          (process_instr cfg raw s)
  unfolding execute exec_auipc get_pc
  auipc-Retires e =
      retire cfg raw s Opcode.auipc
        (outcome (target_instr (get_rd raw) (get_simm20 cfg.xlen raw))
          (wrap cfg.xlen (s.cpu.pc + 4)) true)
        s.mcycle (get_rd raw) (wrap cfg.xlen (s.cpu.pc + get_simm20 cfg.xlen raw)) e refl
        (rw (
          set_reg-written (get_rd raw) (wrap cfg.xlen (s.cpu.pc + get_simm20 cfg.xlen raw)) s
            (get_rd-lt raw)))

  pub jal-Retires :
      opcode_of cfg.xlen (get_opcode raw) ≡ Opcode.jal
      → Ensures
          (Retires s
            (get_rd raw)
            (wrap cfg.xlen (s.cpu.pc + 4))
            (wrap cfg.xlen (s.cpu.pc + get_jal_imm cfg.xlen raw)))
          (process_instr cfg raw s)
  unfolding execute exec_jal get_pc
  jal-Retires e =
      let k = u64 (s.mcycle + 1) in
      retire cfg raw s Opcode.jal
        (outcome (target_instr (get_rd raw) (get_jal_imm cfg.xlen raw))
          (wrap cfg.xlen (s.cpu.pc + get_jal_imm cfg.xlen raw)) true)
        k (get_rd raw) (wrap cfg.xlen (s.cpu.pc + 4)) e refl
        (rw (
          branch_taken-mcycle s,
          set_reg-written (get_rd raw) (wrap cfg.xlen (s.cpu.pc + 4)) (record s { mcycle = k })
              (get_rd-lt raw),
        ))

  pub jalr-Retires :
      opcode_of cfg.xlen (get_opcode raw) ≡ Opcode.jalr
      → Ensures
          (Retires s (get_rd raw) (wrap cfg.xlen (s.cpu.pc + 4)) (
            bit_and
              (wrap cfg.xlen (s.cpu.regfile (get_rs1 raw) + get_simm12 cfg.xlen raw))
              (bit_not (bits cfg.xlen) 1)))
          (process_instr cfg raw s)
  unfolding execute exec_jalr get_pc
  jalr-Retires e =
      let imm = get_simm12 cfg.xlen raw in
      let instr = jalr_instr (get_rs1 raw) (get_rd raw) imm in
      let target =
        bit_and (wrap cfg.xlen (s.cpu.regfile (get_rs1 raw) + imm)) (bit_not (bits cfg.xlen) 1) in
      let (k, stalls) = branch_hazard-mcycle instr s in
      let l = u64 (k + 1) in
      retire cfg raw s Opcode.jalr (outcome instr target true) l (get_rd raw)
        (wrap cfg.xlen (s.cpu.pc + 4)) e refl
        (rw (
          stalls,
          branch_taken-mcycle (record s { mcycle = k }),
          get_reg-get (get_rs1 raw) (record s { mcycle = l }) (get_rs1-lt raw),
          set_reg-written (get_rd raw) (wrap cfg.xlen (s.cpu.pc + 4)) (record s { mcycle = l })
              (get_rd-lt raw),
        ))

  pub branch-Retires :
      opcode_of cfg.xlen (get_opcode raw) ≡ Opcode.branch
      → Ensures
          (Retires s 0 0 (
            if branches cfg.xlen
              (branch_of (get_funct3 raw))
              (s.cpu.regfile (get_rs1 raw))
              (s.cpu.regfile (get_rs2 raw))
            then wrap cfg.xlen (s.cpu.pc + get_branch_imm cfg.xlen raw)
            else wrap cfg.xlen (s.cpu.pc + 4)))
          (process_instr cfg raw s)
  unfolding execute exec_branch get_pc
  branch-Retires e =
      let imm = get_branch_imm cfg.xlen raw in
      let instr = branch_instr (get_rs1 raw) (get_rs2 raw) imm in
      let (k, stalls) = branch_hazard-mcycle instr s in
      let one = get_reg-get (get_rs1 raw) (record s { mcycle = k }) (get_rs1-lt raw) in
      let two = get_reg-get (get_rs2 raw) (record s { mcycle = k }) (get_rs2-lt raw) in
      elim (Bool-cases (
        branches cfg.xlen (branch_of (get_funct3 raw)) (s.cpu.regfile (get_rs1 raw))
          (s.cpu.regfile (get_rs2 raw)))) [
            | inl taken ↦ rw taken (
                retire_still cfg raw s Opcode.branch
                  (outcome instr (wrap cfg.xlen (s.cpu.pc + imm)) true) (u64 (k + 1)) e refl
                  (rw (stalls, one, two, taken, branch_taken-mcycle (record s { mcycle = k }))))
            | inr falls ↦ rw falls (
                retire_still cfg raw s Opcode.branch
                  (outcome instr (wrap cfg.xlen (s.cpu.pc + 4)) true) k e refl
                  (rw (stalls, one, two, falls)))
          ]
