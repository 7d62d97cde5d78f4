-- ===== src/Exec/Safe.antt =====
-- Each case of the switch indexes no array out of bounds, from any instruction word.
use rvem.Common.{
  ℕ, ◌^◌, ◌<◌, arith, Bool, true, false, Option, none, some, ◌==◌, ◌&&◌, if◌then◌else◌,
}
use rvem.Common.Bits.{bit_and-lt}
use rvem.Common.Word.{of_signed-lt, u32}
use rvem.Arch.{Xlen, bits, Config}
use rvem.Riscv.{
  SysOp, alu_of, mul_of, mem_of, branch_of, sys_of, a0, a1, e_exit, e_char, csr_imm, is_ebreak,
}
use rvem.Riscv.{get_rs1, get_rs2, get_rd, get_simm12, get_simm20, get_funct3}
use rvem.Riscv.{check_funct7_bit0, check_funct7_bit5}
use rvem.Riscv.Fields.{get_rd-lt, get_rs1-lt, get_rs2-lt}
use rvem.Machine.{Instr, exited, breakpoint, putchar}
use rvem.Machine.Safe.{
  Safe, weaken, bind, pure-Safe, any, if-Safe, print-Safe, get_reg-Safe, set_reg-Safe, get_pc-Safe,
}
use rvem.Perf.Laws.{hazard-Safe, branch_hazard-Safe, branch_taken-Safe}
use rvem.Csr.Laws.{read_csr-Safe, write_csr-Safe}
use rvem.Bus.Safe.{InRegister, bus_read-Safe, bus_write-Safe}
use rvem.Alu.Laws.{
  wrap-lt, alu-InRegister, alu_imm-InRegister, alu_word-InRegister, alu_word_imm-InRegister,
  mul_div-InRegister, mul_div_word-InRegister,
}
use rvem.Exec.{
  set_result, exec_rtype, exec_imm, exec_rtypew, exec_immw, exec_load, exec_store, branches,
  exec_branch,
}
use rvem.Exec.{exec_auipc, exec_lui, exec_jal, exec_jalr, alu_op}
use rvem.Exec.System.{ecall, csr_target, csr_modify, csr_write, system, exec_sys}

-- The next pc is a register value.
abbrev pub Target : Xlen → Instr × ℕ → Type 0
Target x (i, pc) = pc < 2 ^ bits x

if-InRegister :
    (x : Xlen) (b : Bool) (r s : Option ℕ)
    → InRegister x r
    → InRegister x s
    → InRegister x (if b then r else s)
if-InRegister x true r s h k = h
if-InRegister x false r s h k = k

set_result-Safe :
    (x : Xlen) (rd : ℕ) (r : Option ℕ)
    → rd < 32
    → InRegister x r
    → Safe x 0 (λ _. Unit {0}) (set_result rd r)
unfolding set_result
set_result-Safe x rd none h fits = pure-Safe tt
set_result-Safe x rd (some v) h fits = set_reg-Safe rd v h fits

module _ (cfg : Config) (raw : ℕ) where
  simm12-lt : get_simm12 cfg.xlen raw < 2 ^ bits cfg.xlen
  unfolding get_simm12
  simm12-lt = of_signed-lt (bits cfg.xlen) _

  simm20-lt : get_simm20 cfg.xlen raw < 2 ^ bits cfg.xlen
  unfolding get_simm20
  simm20-lt = of_signed-lt (bits cfg.xlen) _

  pub exec_rtype-Safe : Safe cfg.xlen 1 (λ _. Unit {0}) (exec_rtype cfg raw)
  unfolding exec_rtype
  exec_rtype-Safe = bind (hazard-Safe _) λ _ _.
      bind (get_reg-Safe (get_rs1 raw) (get_rs1-lt raw)) λ a ha.
        bind (get_reg-Safe (get_rs2 raw) (get_rs2-lt raw)) λ b hb.
          bind
            (set_result-Safe cfg.xlen (get_rd raw) _ (get_rd-lt raw) (
              if-InRegister cfg.xlen (cfg.m_ext && check_funct7_bit0 raw) _ _
                (mul_div-InRegister cfg.xlen a b ha hb cfg.m_ext cfg.compiler
                  (mul_of (get_funct3 raw)))
                (alu-InRegister cfg.xlen a b ha hb (alu_op raw))))
            λ _ _. pure-Safe tt

  pub exec_imm-Safe : Safe cfg.xlen 1 (λ _. Unit {0}) (exec_imm cfg raw)
  unfolding exec_imm
  exec_imm-Safe = bind (hazard-Safe _) λ _ _.
      bind (get_reg-Safe (get_rs1 raw) (get_rs1-lt raw)) λ a ha.
        bind
          (set_result-Safe cfg.xlen (get_rd raw) _ (get_rd-lt raw) (
            alu_imm-InRegister cfg.xlen a _ ha simm12-lt (check_funct7_bit5 raw)
              (alu_of (get_funct3 raw))))
          λ _ _. pure-Safe tt

  pub exec_rtypew-Safe : Safe cfg.xlen 1 (λ _. Unit {0}) (exec_rtypew cfg raw)
  unfolding exec_rtypew
  exec_rtypew-Safe = bind (hazard-Safe _) λ _ _.
      bind (get_reg-Safe (get_rs1 raw) (get_rs1-lt raw)) λ a ha.
        bind (get_reg-Safe (get_rs2 raw) (get_rs2-lt raw)) λ b hb.
          bind
            (set_result-Safe cfg.xlen (get_rd raw) _ (get_rd-lt raw) (
              if-InRegister cfg.xlen (cfg.m_ext && check_funct7_bit0 raw) _ _
                (mul_div_word-InRegister cfg.xlen a b (mul_of (get_funct3 raw)))
                (alu_word-InRegister cfg.xlen a b (alu_op raw))))
            λ _ _. pure-Safe tt

  pub exec_immw-Safe : Safe cfg.xlen 1 (λ _. Unit {0}) (exec_immw cfg raw)
  unfolding exec_immw
  exec_immw-Safe = bind (hazard-Safe _) λ _ _.
      bind (get_reg-Safe (get_rs1 raw) (get_rs1-lt raw)) λ a ha.
        bind
          (set_result-Safe cfg.xlen (get_rd raw) _ (get_rd-lt raw) (
            alu_word_imm-InRegister cfg.xlen a _ (check_funct7_bit5 raw) (alu_of (get_funct3 raw))))
          λ _ _. pure-Safe tt

  pub exec_load-Safe : Safe cfg.xlen 2 (λ _. Unit {0}) (exec_load cfg raw)
  unfolding exec_load
  exec_load-Safe = bind (hazard-Safe _) λ _ _.
      bind (get_reg-Safe (get_rs1 raw) (get_rs1-lt raw)) λ a _.
        bind (bus_read-Safe cfg.xlen _ (mem_of (get_funct3 raw)) (wrap-lt cfg.xlen _)) λ r fits.
          bind (set_result-Safe cfg.xlen (get_rd raw) r (get_rd-lt raw) fits) λ _ _. pure-Safe tt

  pub exec_store-Safe : Safe cfg.xlen 2 (λ _. Unit {0}) (exec_store cfg raw)
  unfolding exec_store
  exec_store-Safe = bind (hazard-Safe _) λ _ _.
      bind (get_reg-Safe (get_rs1 raw) (get_rs1-lt raw)) λ a _.
        bind (get_reg-Safe (get_rs2 raw) (get_rs2-lt raw)) λ b _.
          bind (bus_write-Safe cfg.xlen _ (mem_of (get_funct3 raw)) b (wrap-lt cfg.xlen _))
            λ _ _. pure-Safe tt

  pub exec_branch-Safe :
      (next_pc : ℕ)
      → next_pc < 2 ^ bits cfg.xlen
      → Safe cfg.xlen 4 (Target cfg.xlen) (exec_branch cfg raw next_pc)
  unfolding exec_branch
  exec_branch-Safe next_pc h = bind (branch_hazard-Safe _) λ _ _.
      bind (get_reg-Safe (get_rs1 raw) (get_rs1-lt raw)) λ a _.
        bind (get_reg-Safe (get_rs2 raw) (get_rs2-lt raw)) λ b _.
          if-Safe (branches cfg.xlen (branch_of (get_funct3 raw)) a b)
            (bind branch_taken-Safe λ _ _. bind get_pc-Safe λ pc _. pure-Safe (wrap-lt cfg.xlen _))
            (weaken 0 1 (omega arith) (pure-Safe h))

  pub exec_auipc-Safe : Safe cfg.xlen 0 (λ _. Unit {0}) (exec_auipc cfg raw)
  unfolding exec_auipc
  exec_auipc-Safe = bind get_pc-Safe λ pc _.
      bind (set_reg-Safe (get_rd raw) _ (get_rd-lt raw) (wrap-lt cfg.xlen _)) λ _ _. pure-Safe tt

  pub exec_lui-Safe : Safe cfg.xlen 0 (λ _. Unit {0}) (exec_lui cfg raw)
  unfolding exec_lui
  exec_lui-Safe = bind (set_reg-Safe (get_rd raw) _ (get_rd-lt raw) simm20-lt) λ _ _. pure-Safe tt

  pub exec_jal-Safe : Safe cfg.xlen 1 (Target cfg.xlen) (exec_jal cfg raw)
  unfolding exec_jal
  exec_jal-Safe = bind branch_taken-Safe λ _ _. bind get_pc-Safe λ pc _.
      bind (set_reg-Safe (get_rd raw) _ (get_rd-lt raw) (wrap-lt cfg.xlen _))
        λ _ _. pure-Safe (wrap-lt cfg.xlen _)

  pub exec_jalr-Safe : Safe cfg.xlen 4 (Target cfg.xlen) (exec_jalr cfg raw)
  unfolding exec_jalr
  exec_jalr-Safe = bind (branch_hazard-Safe _) λ _ _. bind branch_taken-Safe λ _ _.
      bind (get_reg-Safe (get_rs1 raw) (get_rs1-lt raw)) λ a _. bind get_pc-Safe λ pc _.
        bind (set_reg-Safe (get_rd raw) _ (get_rd-lt raw) (wrap-lt cfg.xlen _))
          λ _ _. pure-Safe (bit_and-lt (bits cfg.xlen) _ _ (wrap-lt cfg.xlen _))

  ecall-Safe : Safe cfg.xlen 0 (λ _. Unit {0}) ecall
  unfolding ecall
  ecall-Safe = bind (get_reg-Safe a0 (omega arith)) λ request _.
      if-Safe (request == e_exit) (bind (print-Safe exited) λ _ _. pure-Safe tt) (
        if-Safe (request == e_char)
          (bind (get_reg-Safe a1 (omega arith))
            λ c _. bind (print-Safe (putchar (u32 c))) λ _ _. pure-Safe tt)
          (pure-Safe tt))

module _ (cfg : Config) (is_imm : Bool) (instr : Instr) (rs1_lt : instr.rs1 < 32)
    (rd_lt : instr.rd < 32) where
  csr_target-Safe : Safe cfg.xlen 0 (λ _. Unit {0}) (csr_target is_imm instr.rs1)
  unfolding csr_target
  csr_target-Safe = if-Safe is_imm (pure-Safe tt) (any (get_reg-Safe instr.rs1 rs1_lt))

  csr_modify-Safe :
      (f : ℕ → ℕ → ℕ) → Safe cfg.xlen 0 (λ _. Unit {0}) (csr_modify cfg is_imm instr f)
  unfolding csr_modify
  csr_modify-Safe f = bind csr_target-Safe λ target _.
      bind (read_csr-Safe instr.imms) λ csrval fits.
        bind (set_reg-Safe instr.rd csrval rd_lt fits) λ _ _.
          bind
            (if-Safe (instr.rs1 == 0) (pure-Safe tt) (write_csr-Safe instr.imms (f csrval target)))
            λ _ _. pure-Safe tt

  csr_write-Safe : Safe cfg.xlen 0 (λ _. Unit {0}) (csr_write cfg is_imm instr)
  unfolding csr_write
  csr_write-Safe = bind csr_target-Safe λ target _.
      bind
        (if-Safe (instr.rd == 0) (pure-Safe tt)
          (bind (read_csr-Safe instr.imms) λ v fits. set_reg-Safe instr.rd v rd_lt fits))
        λ _ _. bind (write_csr-Safe instr.imms target) λ _ _. pure-Safe tt

  system-Safe : (op : SysOp) → Safe cfg.xlen 0 (λ _. Unit {0}) (system cfg is_imm instr op)
  unfolding system
  system-Safe SysOp.esys =
      if-Safe (is_ebreak instr.imms) (bind (print-Safe breakpoint) λ _ _. pure-Safe tt)
        (ecall-Safe cfg 0)
  system-Safe SysOp.csr_rw = csr_write-Safe
  system-Safe SysOp.csr_rwi = csr_write-Safe
  system-Safe SysOp.csr_rs = csr_modify-Safe _
  system-Safe SysOp.csr_rsi = csr_modify-Safe _
  system-Safe SysOp.csr_rc = csr_modify-Safe _
  system-Safe SysOp.csr_rci = csr_modify-Safe _
  system-Safe SysOp.none = pure-Safe tt

pub exec_sys-Safe : (cfg : Config) (raw : ℕ) → Safe cfg.xlen 1 (λ _. Unit {0}) (exec_sys cfg raw)
unfolding exec_sys
exec_sys-Safe cfg raw =
    bind
      (if-Safe (csr_imm (get_funct3 raw))
        (weaken 0 1 (omega arith) (pure-Safe {Q = λ _. Unit {0}} tt)) (hazard-Safe _))
      λ _ _.
        bind (system-Safe cfg _ _ (get_rs1-lt raw) (get_rd-lt raw) (sys_of (get_funct3 raw)))
          λ _ _. pure-Safe tt
