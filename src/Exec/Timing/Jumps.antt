-- ===== src/Exec/Timing/Jumps.antt =====
-- The cycles of the jumps, of the branches, of LUI and AUIPC, and of OP_SYS.
use rvem.Common.{ℕ, ◌+◌, not, ◌&&◌, ◌≡◌, refl, Bool, true, false, if◌then◌else◌}
use rvem.Common.Word.{u64}
use rvem.Arch.{Xlen, Config}
use rvem.Riscv.{
  SysOp, branch_of, csr_imm, get_rs1, get_rs2, get_rd, get_imm12, get_simm12, get_simm20,
  get_branch_imm, get_jal_imm, get_funct3,
}
use rvem.Riscv.Fields.{get_rs1-lt, get_rs2-lt}
use rvem.Machine.{Machine, Instr, M, ◌>>◌, tick}
use rvem.Machine.Safe.{Allows}
use rvem.Machine.Run.{get_reg-get}
use rvem.Machine.Steady.{Reaches, Steady, Any, steady_rules, bind-Steady, pure-Steady, gets-Steady}
use rvem.Perf.{branch_taken, data_stall, branch_stall, load_branch_stall}
use rvem.Perf.Stalls.{stalled, hazard-stalled, branch_hazard-stalled}
use rvem.Csr.{csr_value, csr_of, read_csr, write_csr}
use rvem.Exec.{instr_init, exec_branch, branches, exec_auipc, exec_lui, exec_jal, exec_jalr}
use rvem.Exec.System.{ecall, csr_target, csr_modify, csr_write, system, exec_sys}
use rvem.Exec.Timing.{one_source, no_target, no_source}

-- mcycle after PERF_MODEL_BRANCH_HAZARD.
abbrev pub branch_stalled : Machine → Instr → ℕ
branch_stalled s instr = stalled (data_stall s.perf_model instr) (
    stalled (load_branch_stall s.perf_model instr)
      (stalled (branch_stall s.perf_model instr) s.mcycle))

-- PERF_MODEL_BRANCH_TAKEN in one branch only.
if-Timed :
    {A : Type 0} {R : A → Type 0} {m n : M A} (b : Bool) (s : Machine)
    → Steady R m
    → Steady R n
    → Allows
        (Reaches s.perf_model (stalled b s.mcycle) R)
        ((if b then (branch_taken >> m) else n) s)
unfolding branch_taken tick
if-Timed true s p q = p.run (record s { mcycle = u64 (s.mcycle + 1) })
if-Timed false s p q = q.run s

module _ (cfg : Config) (raw : ℕ) (s : Machine) where
  pub exec_branch-Timed :
      (next_pc : ℕ) (taken : Bool)
      → branches cfg.xlen
          (branch_of (get_funct3 raw))
          (s.cpu.regfile (get_rs1 raw))
          (s.cpu.regfile (get_rs2 raw))
        ≡ taken
      → Allows
          (Reaches s.perf_model
            (stalled taken (branch_stalled s (no_target raw (get_branch_imm cfg.xlen raw))))
            (λ r. r.0 ≡ no_target raw (get_branch_imm cfg.xlen raw)))
          (exec_branch cfg raw next_pc s)
  unfolding exec_branch
  exec_branch-Timed next_pc taken e =
      let instr = no_target raw (get_branch_imm cfg.xlen raw) in
      let u : Machine = record s { mcycle = branch_stalled s instr } in
      rw
        (
          branch_hazard-stalled instr s,
          get_reg-get (get_rs1 raw) u (get_rs1-lt raw),
          get_reg-get (get_rs2 raw) u (get_rs2-lt raw),
          e,
        )
        (if-Timed taken u (search steady_rules) (search steady_rules))

  pub exec_auipc-Steady :
      Steady (λ i. i ≡ no_source raw (get_simm20 cfg.xlen raw)) (exec_auipc cfg raw)
  unfolding exec_auipc
  exec_auipc-Steady = search steady_rules

  pub exec_lui-Steady : Steady (λ i. i ≡ no_source raw (get_simm20 cfg.xlen raw)) (exec_lui cfg raw)
  unfolding exec_lui
  exec_lui-Steady = search steady_rules

  pub exec_jal-Timed :
      Allows
        (Reaches s.perf_model
          (stalled true s.mcycle)
          (λ r. r.0 ≡ no_source raw (get_jal_imm cfg.xlen raw)))
        (exec_jal cfg raw s)
  unfolding exec_jal
  exec_jal-Timed =
      if-Timed true s (search steady_rules)
        (pure-Steady {a = (no_source raw (get_jal_imm cfg.xlen raw), 0)} refl)

  pub exec_jalr-Timed :
      Allows
        (Reaches s.perf_model
          (stalled true (branch_stalled s (one_source raw (get_simm12 cfg.xlen raw))))
          (λ r. r.0 ≡ one_source raw (get_simm12 cfg.xlen raw)))
        (exec_jalr cfg raw s)
  unfolding exec_jalr
  exec_jalr-Timed =
      let instr = one_source raw (get_simm12 cfg.xlen raw) in
      rw (branch_hazard-stalled instr s) (
        if-Timed true (record s { mcycle = branch_stalled s instr }) (search steady_rules)
          (pure-Steady {a = (instr, 0)} refl))

read_csr-Steady : (x : Xlen) (csr : ℕ) → Steady Any (read_csr x csr)
unfolding read_csr
read_csr-Steady x csr = gets-Steady (λ s. csr_value x (csr_of x csr) s) true

write_csr-Steady : (csr val : ℕ) → Steady Any (write_csr csr val)
unfolding write_csr
write_csr-Steady csr val = pure-Steady tt

ecall-Steady : Steady Any ecall
unfolding ecall
ecall-Steady = search steady_rules depth 8

module _ (cfg : Config) (is_imm : Bool) (instr : Instr) where
  csr_target-Steady : Steady Any (csr_target is_imm instr.rs1)
  unfolding csr_target
  csr_target-Steady = search steady_rules

  csr_modify-Steady : (f : ℕ → ℕ → ℕ) → Steady Any (csr_modify cfg is_imm instr f)
  unfolding csr_modify
  csr_modify-Steady f =
      search (csr_target-Steady, read_csr-Steady, write_csr-Steady, steady_rules) depth 8

  csr_write-Steady : Steady Any (csr_write cfg is_imm instr)
  unfolding csr_write
  csr_write-Steady =
      search (csr_target-Steady, read_csr-Steady, write_csr-Steady, steady_rules) depth 8

  system-Steady : (op : SysOp) → Steady Any (system cfg is_imm instr op)
  unfolding system
  system-Steady SysOp.esys = search (ecall-Steady, steady_rules)
  system-Steady SysOp.csr_rw = csr_write-Steady
  system-Steady SysOp.csr_rwi = csr_write-Steady
  system-Steady SysOp.csr_rs = csr_modify-Steady _
  system-Steady SysOp.csr_rsi = csr_modify-Steady _
  system-Steady SysOp.csr_rc = csr_modify-Steady _
  system-Steady SysOp.csr_rci = csr_modify-Steady _
  system-Steady SysOp.none = pure-Steady tt

-- OP_SYS leaves is_reg_write unset, and an immediate is no register to wait for.
abbrev pub sys_instr : ℕ → Instr
sys_instr raw = record instr_init { rs1 = get_rs1 raw; rd = get_rd raw; imms = get_imm12 raw }

pub exec_sys-Timed :
    (cfg : Config) (raw : ℕ) (s : Machine) (is_imm : Bool)
    → csr_imm (get_funct3 raw) ≡ is_imm
    → Allows
        (Reaches s.perf_model
          (stalled (not is_imm && data_stall s.perf_model (sys_instr raw)) s.mcycle)
          (λ r. r.0 ≡ sys_instr raw))
        (exec_sys cfg raw s)
unfolding exec_sys
exec_sys-Timed cfg raw s true e = rw e (
    (bind-Steady {R = λ (r : Instr × Bool). r.0 ≡ sys_instr raw}
        (system-Steady cfg true (sys_instr raw) _) (λ c. pure-Steady refl)).run
      s)
exec_sys-Timed cfg raw s false e =
    rw (e, hazard-stalled (sys_instr raw) s)
      ((bind-Steady {R = λ (r : Instr × Bool). r.0 ≡ sys_instr raw}
          (system-Steady cfg false (sys_instr raw) _) (λ c. pure-Steady refl)).run
        _)
