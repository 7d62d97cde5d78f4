-- ===== src/Exec/System.antt =====
-- The case OP_SYS of the outer switch: ecall, ebreak and the CSR instructions.
use rvem.Common.{ℕ, Bool, true, false, bit_and, bit_or, ◌==◌, if◌then◌else◌}
use rvem.Common.Word.{u32, bit_not}
use rvem.Arch.{bits, Config}
use rvem.Riscv.{SysOp, sys_of}
use rvem.Riscv.{is_ebreak, csr_imm, a0, a1, e_exit, e_char, get_rs1, get_rd, get_imm12}
use rvem.Riscv.{get_funct3}
use rvem.Machine.{Instr, M, pure, ◌>>=◌, ◌>>◌, get_reg, set_reg, print}
use rvem.Machine.{putchar, exited, breakpoint}
use rvem.Perf.{hazard}
use rvem.Csr.{read_csr, write_csr}
use rvem.Exec.{instr_init}

-- An ecall: the request is in a0, a character in a1. The result is exec_continue.
unfoldable pub ecall : M Bool
ecall = do
  request ← get_reg a0
  if request == e_exit
      then (do print exited; pure false)
      else if request == e_char
      then (do c ← get_reg a1; print (putchar (u32 c)); pure true)
      else pure true

-- target, an immediate or a register
unfoldable pub csr_target : Bool → ℕ → M ℕ
csr_target is_imm rs1 = if is_imm then pure rs1 else get_reg rs1

-- The cases of CSR_RS and CSR_RC, which differ in the value written.
unfoldable pub csr_modify : Config → Bool → Instr → (ℕ → ℕ → ℕ) → M Bool
csr_modify cfg is_imm instr f = do
  target ← csr_target is_imm instr.rs1
  csrval ← read_csr cfg.xlen instr.imms
  set_reg instr.rd csrval
  if instr.rs1 == 0 then pure tt else write_csr instr.imms (f csrval target)
  pure true

unfoldable pub csr_write : Config → Bool → Instr → M Bool
csr_write cfg is_imm instr = do
  target ← csr_target is_imm instr.rs1
  if instr.rd == 0 then pure tt else (do v ← read_csr cfg.xlen instr.imms; set_reg instr.rd v)
  write_csr instr.imms target
  pure true

unfoldable pub system : Config → Bool → Instr → SysOp → M Bool
system cfg is_imm instr SysOp.esys =
    if is_ebreak instr.imms then (do print breakpoint; pure false) else ecall
system cfg is_imm instr SysOp.csr_rw = csr_write cfg is_imm instr
system cfg is_imm instr SysOp.csr_rwi = csr_write cfg is_imm instr
system cfg is_imm instr SysOp.csr_rs = csr_modify cfg is_imm instr bit_or
system cfg is_imm instr SysOp.csr_rsi = csr_modify cfg is_imm instr bit_or
system cfg is_imm instr SysOp.csr_rc =
    csr_modify cfg is_imm instr (λ v t. bit_and v (bit_not (bits cfg.xlen) t))
system cfg is_imm instr SysOp.csr_rci =
    csr_modify cfg is_imm instr (λ v t. bit_and v (bit_not (bits cfg.xlen) t))
system cfg is_imm instr SysOp.none = pure true

unfoldable pub exec_sys : Config → ℕ → M (Instr × Bool)
exec_sys cfg raw = do
  let op = get_funct3 raw
  let is_imm = csr_imm op
  let instr = record instr_init { rs1 = get_rs1 raw; rd = get_rd raw; imms = get_imm12 raw }
  if is_imm then pure tt else hazard instr
  exec_continue ← system cfg is_imm instr (sys_of op)
  pure (instr, exec_continue)
