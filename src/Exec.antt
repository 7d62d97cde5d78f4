-- ===== src/Exec.antt =====
-- src/cpu/core.c, the cases of the outer switch of process_instr, a command for each. A case
-- returns the instr_t that it has filled in, with the next pc and exec_continue where it sets them.
pub mod Safe
pub mod System
pub mod Blind
pub mod Timing
use rvem.Common.{
  ℕ, ◌+◌, ◌-◌, ◌%◌, ◌/◌, ◌*◌, ◌^◌, Bool, true, false, not, ◌&&◌, Option, none, some, bit_and,
  bit_or, ltb, leb, ◌==◌, if◌then◌else◌,
}
use rvem.Common.Int.{ltb_ℤ}
use rvem.Common.Word.{u32, bit_not}
use rvem.Arch.{Xlen, rv32, rv64, bits, Config}
use rvem.Riscv.{
  get_opcode, Opcode, AluOp, MulOp, MemOp, BranchOp, SysOp, alu_of, mul_of, mem_of, branch_of,
  sys_of,
}
use rvem.Riscv.{
  is_ebreak, csr_imm, a0, a1, e_exit, e_char, get_rs1, get_rs2, get_rd, get_imm12, get_simm12,
  get_simm20,
}
use rvem.Riscv.{
  get_funct3, check_funct7_bit0, check_funct7_bit5, alu_funct7_bit5, get_branch_imm, get_jal_imm,
  get_store_imm,
}
use rvem.Machine.{
  Instr, Event, M, pure, ◌>>=◌, ◌>>◌, wrap, get_reg, set_reg, get_pc, print, unrecognized,
}
use rvem.Machine.{putchar, exited, breakpoint, unrecognized}
use rvem.Perf.{hazard, branch_hazard, branch_taken}
use rvem.Csr.{read_csr, write_csr}
use rvem.Bus.{bus_read, bus_write}
use rvem.Alu.{alu, alu_imm, alu_word, alu_word_imm, mul_div, mul_div_word, signed_lt}

-- The instr_t before the switch; `imms` is set before it is read.
abbrev pub instr_init : Instr
instr_init = record {
  rs1 = 0;
  rs2 = 0;
  rd = 0;
  imms = 0;
  is_reg_write = false;
  is_mem_load = false;
}

-- cpu.regfile[rd] = r, if there is a value
unfoldable pub set_result : ℕ → Option ℕ → M (Unit {0})
set_result rd none = pure tt
set_result rd (some v) = set_reg rd v

-- aluop of the R-type cases
abbrev pub alu_op : ℕ → AluOp
alu_op raw = alu_of (bit_or (alu_funct7_bit5 raw) (get_funct3 raw))

unfoldable pub exec_rtype : Config → ℕ → M Instr
exec_rtype cfg raw = do
  let instr = record instr_init {
    rs1 = get_rs1 raw;
    rs2 = get_rs2 raw;
    rd = get_rd raw;
    is_reg_write = true;
  }
  hazard instr
  a ← get_reg instr.rs1
  b ← get_reg instr.rs2
  set_result instr.rd (
      if cfg.m_ext && check_funct7_bit0 raw
      then mul_div cfg (mul_of (get_funct3 raw)) a b
      else alu cfg.xlen (alu_op raw) a b)
  pure instr

unfoldable pub exec_imm : Config → ℕ → M Instr
exec_imm cfg raw = do
  let instr = record instr_init {
    rs1 = get_rs1 raw;
    rd = get_rd raw;
    is_reg_write = true;
    imms = get_simm12 cfg.xlen raw;
  }
  hazard instr
  a ← get_reg instr.rs1
  set_result instr.rd
      (alu_imm cfg.xlen (check_funct7_bit5 raw) (alu_of (get_funct3 raw)) a instr.imms)
  pure instr

unfoldable pub exec_rtypew : Config → ℕ → M Instr
exec_rtypew cfg raw = do
  let instr = record instr_init {
    rs1 = get_rs1 raw;
    rs2 = get_rs2 raw;
    rd = get_rd raw;
    is_reg_write = true;
  }
  hazard instr
  a ← get_reg instr.rs1
  b ← get_reg instr.rs2
  set_result instr.rd (
      if cfg.m_ext && check_funct7_bit0 raw
      then mul_div_word cfg.xlen (mul_of (get_funct3 raw)) a b
      else alu_word cfg.xlen (alu_op raw) a b)
  pure instr

unfoldable pub exec_immw : Config → ℕ → M Instr
exec_immw cfg raw = do
  let instr = record instr_init {
    rs1 = get_rs1 raw;
    rd = get_rd raw;
    is_reg_write = true;
    imms = get_simm12 cfg.xlen raw;
  }
  hazard instr
  a ← get_reg instr.rs1
  set_result instr.rd
      (alu_word_imm cfg.xlen (check_funct7_bit5 raw) (alu_of (get_funct3 raw)) a instr.imms)
  pure instr

unfoldable pub exec_load : Config → ℕ → M Instr
exec_load cfg raw = do
  let instr = record instr_init {
    rs1 = get_rs1 raw;
    rd = get_rd raw;
    is_reg_write = true;
    is_mem_load = true;
    imms = get_simm12 cfg.xlen raw;
  }
  hazard instr
  a ← get_reg instr.rs1
  r ← bus_read cfg.xlen (wrap cfg.xlen (a + instr.imms)) (mem_of (get_funct3 raw))
  set_result instr.rd r
  pure instr

unfoldable pub exec_store : Config → ℕ → M Instr
exec_store cfg raw = do
  let instr = record instr_init {
    rs1 = get_rs1 raw;
    rs2 = get_rs2 raw;
    imms = get_store_imm cfg.xlen raw;
  }
  hazard instr
  a ← get_reg instr.rs1
  b ← get_reg instr.rs2
  bus_write cfg.xlen (wrap cfg.xlen (a + instr.imms)) (mem_of (get_funct3 raw)) b
  pure instr

-- The conditions of the branch cases; no case fits an unknown type.
unfoldable pub branches : Xlen → BranchOp → ℕ → ℕ → Bool
branches x BranchOp.eq a b = a == b
branches x BranchOp.ne a b = not (a == b)
branches x BranchOp.lt a b = signed_lt x a b
branches x BranchOp.ge a b = not (signed_lt x a b)
branches x BranchOp.ltu a b = ltb a b
branches x BranchOp.geu a b = leb b a
branches x BranchOp.none a b = false

-- With the next pc, given the one that follows.
unfoldable pub exec_branch : Config → ℕ → ℕ → M (Instr × ℕ)
exec_branch cfg raw next_pc = do
  let instr = record instr_init {
    rs1 = get_rs1 raw;
    rs2 = get_rs2 raw;
    imms = get_branch_imm cfg.xlen raw;
  }
  branch_hazard instr
  a ← get_reg instr.rs1
  b ← get_reg instr.rs2
  if branches cfg.xlen (branch_of (get_funct3 raw)) a b
      then (do branch_taken; pc ← get_pc; pure (instr, wrap cfg.xlen (pc + instr.imms)))
      else pure (instr, next_pc)

unfoldable pub exec_auipc : Config → ℕ → M Instr
exec_auipc cfg raw = do
  let instr = record instr_init {
    rd = get_rd raw;
    is_reg_write = true;
    imms = get_simm20 cfg.xlen raw;
  }
  pc ← get_pc
  set_reg instr.rd (wrap cfg.xlen (pc + instr.imms))
  pure instr

unfoldable pub exec_lui : Config → ℕ → M Instr
exec_lui cfg raw = do
  let instr = record instr_init {
    rd = get_rd raw;
    is_reg_write = true;
    imms = get_simm20 cfg.xlen raw;
  }
  set_reg instr.rd instr.imms
  pure instr

unfoldable pub exec_jal : Config → ℕ → M (Instr × ℕ)
exec_jal cfg raw = do
  let instr = record instr_init {
    rd = get_rd raw;
    is_reg_write = true;
    imms = get_jal_imm cfg.xlen raw;
  }
  branch_taken
  pc ← get_pc
  set_reg instr.rd (wrap cfg.xlen (pc + 4))
  pure (instr, wrap cfg.xlen (pc + instr.imms))

unfoldable pub exec_jalr : Config → ℕ → M (Instr × ℕ)
exec_jalr cfg raw = do
  let instr = record instr_init {
    rs1 = get_rs1 raw;
    rd = get_rd raw;
    is_reg_write = true;
    imms = get_simm12 cfg.xlen raw;
  }
  branch_hazard instr
  branch_taken
  a ← get_reg instr.rs1
  pc ← get_pc
  set_reg instr.rd (wrap cfg.xlen (pc + 4))
  pure (instr, bit_and (wrap cfg.xlen (a + instr.imms)) (bit_not (bits cfg.xlen) 1))

-- A fence does nothing on a single core.
unfoldable pub exec_fence : M Instr
exec_fence = pure instr_init

-- The default case.
unfoldable pub exec_unknown : ℕ → M Instr
exec_unknown raw = do print (unrecognized (get_opcode raw)); pure instr_init
