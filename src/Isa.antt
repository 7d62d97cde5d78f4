-- ===== src/Isa.antt =====
-- The instruction set of the manual: the instructions with their encodings, and what each does to
-- the state that a program sees (Isa/Hart), where loads and stores use the memory map and the
-- messages of inc/bus.h. Isa/Refinement shows that process_instr does it, Isa/Program that the loop
-- of main does it for the word that pc points to.
pub mod Hart
pub mod Effects
pub mod Refinement
pub mod Program
pub mod Visible
pub mod Cycles
pub mod Timing
pub mod Clock
pub mod Clocked
pub mod Total
pub mod Main
use rvem.Common.{ℕ, ◌+◌, ◌*◌, ◌^◌, ◌<◌, ◌%◌, ◌≡◌, Bool, true}
use rvem.Arch.{Xlen, rv32, rv64, bits, Config}
use rvem.Riscv.{AluOp, MulOp, MemOp, BranchOp, SysOp}
use rvem.Riscv.Encode.{i_type, b_type, u_type, j_type}
use rvem.Bus.Load.{IsLoad}
use rvem.Bus.RoundTrip.{IsStore}
use rvem.Alu.Spec.{IsOp}
use rvem.Alu.Product.{IsMulOp}
use rvem.Alu.WordSpec.{IsWordOp, IsWordMulOp}
use rvem.Core.Registers.{op_word, bit5_of, funct3_of}
use rvem.Core.Immediates.{TakesImmediate, IsShift, imm_word, shift_word}
use rvem.Core.Products.{mul_word}
use rvem.Core.Words.{opw_word, mulw_word}
use rvem.Core.Memory.{load_word}
use rvem.Core.Stores.{store_word}
use rvem.Core.Jumps.{branch_funct3}
use rvem.Core.CsrWords.{IsCsrOp, csr_word}

-- Operands in the order rd, rs1, rs2, immediate.
pub data Instruction : Type 0 where
  alu : AluOp → (rd rs1 rs2 : ℕ) → Instruction
  alu_imm : AluOp → (rd rs1 imm : ℕ) → Instruction
  shift_imm : AluOp → (rd rs1 amount : ℕ) → Instruction
  mul_div : MulOp → (rd rs1 rs2 : ℕ) → Instruction
  alu_word : AluOp → (rd rs1 rs2 : ℕ) → Instruction
  mul_div_word : MulOp → (rd rs1 rs2 : ℕ) → Instruction
  add_word_imm : (rd rs1 imm : ℕ) → Instruction
  shift_word_imm : AluOp → (rd rs1 amount : ℕ) → Instruction
  load : MemOp → (rd rs1 imm : ℕ) → Instruction
  store : MemOp → (rs1 rs2 imm : ℕ) → Instruction
  branch : BranchOp → (rs1 rs2 offset : ℕ) → Instruction
  jal : (rd offset : ℕ) → Instruction
  jalr : (rd rs1 imm : ℕ) → Instruction
  lui : (rd imm : ℕ) → Instruction
  auipc : (rd imm : ℕ) → Instruction
  csr_op : SysOp → (rd rs1 csr : ℕ) → Instruction
  ecall : Instruction
  ebreak : Instruction
  fence : (imm : ℕ) → Instruction

abbrev pub encode : Instruction → ℕ
encode (alu op rd rs1 rs2) = op_word op rd rs1 rs2
encode (alu_imm op rd rs1 imm) = imm_word op rd rs1 imm
encode (shift_imm op rd rs1 amount) = shift_word op rd rs1 amount
encode (mul_div op rd rs1 rs2) = mul_word op rd rs1 rs2
encode (alu_word op rd rs1 rs2) = opw_word op rd rs1 rs2
encode (mul_div_word op rd rs1 rs2) = mulw_word op rd rs1 rs2
encode (add_word_imm rd rs1 imm) = i_type imm rs1 0 rd 0x1B
encode (shift_word_imm op rd rs1 amount) =
    i_type (bit5_of op * 2 ^ 10 + amount) rs1 (funct3_of op) rd 0x1B
encode (load op rd rs1 imm) = load_word op rd rs1 imm
encode (store op rs1 rs2 imm) = store_word op rs2 rs1 imm
encode (branch op rs1 rs2 offset) = b_type offset rs2 rs1 (branch_funct3 op) 0x63
encode (jal rd offset) = j_type offset rd 0x6F
encode (jalr rd rs1 imm) = i_type imm rs1 0 rd 0x67
encode (lui rd imm) = u_type imm rd 0x37
encode (auipc rd imm) = u_type imm rd 0x17
encode (csr_op op rd rs1 csr) = csr_word op csr rd rs1
encode ecall = 0x73
encode ebreak = 0x100073
encode (fence imm) = i_type imm 0 0 0 0x0F

abbrev pub IsRv64 : Xlen → Type 0
IsRv64 rv64 = Unit
IsRv64 rv32 = ⊥

abbrev pub IsBranchOp : BranchOp → Type 0
IsBranchOp BranchOp.none = ⊥
IsBranchOp _ = Unit

-- The instructions of a build, with operands that fit their fields.
abbrev pub IsInstruction : Config → Instruction → Type 0
IsInstruction cfg (alu op rd rs1 rs2) = IsOp op × (rd < 32) × (rs1 < 32) × (rs2 < 32)
IsInstruction cfg (alu_imm op rd rs1 imm) =
    TakesImmediate op × (rd < 32) × (rs1 < 32) × (imm < 2 ^ 12)
IsInstruction cfg (shift_imm op rd rs1 amount) =
    IsShift op × (rd < 32) × (rs1 < 32) × (amount < bits cfg.xlen)
IsInstruction cfg (mul_div op rd rs1 rs2) =
    (cfg.m_ext ≡ true) × IsMulOp op × (rd < 32) × (rs1 < 32) × (rs2 < 32)
IsInstruction cfg (alu_word op rd rs1 rs2) =
    IsRv64 cfg.xlen × IsWordOp op × (rd < 32) × (rs1 < 32) × (rs2 < 32)
IsInstruction cfg (mul_div_word op rd rs1 rs2) =
    IsRv64 cfg.xlen × (cfg.m_ext ≡ true) × IsWordMulOp op × (rd < 32) × (rs1 < 32) × (rs2 < 32)
IsInstruction cfg (add_word_imm rd rs1 imm) =
    IsRv64 cfg.xlen × (rd < 32) × (rs1 < 32) × (imm < 2 ^ 12)
IsInstruction cfg (shift_word_imm op rd rs1 amount) =
    IsRv64 cfg.xlen × IsShift op × (rd < 32) × (rs1 < 32) × (amount < 32)
IsInstruction cfg (load op rd rs1 imm) =
    IsLoad cfg.xlen op × (rd < 32) × (rs1 < 32) × (imm < 2 ^ 12)
IsInstruction cfg (store op rs1 rs2 imm) =
    IsStore cfg.xlen op × (rs1 < 32) × (rs2 < 32) × (imm < 2 ^ 12)
IsInstruction cfg (branch op rs1 rs2 offset) =
    IsBranchOp op × (rs1 < 32) × (rs2 < 32) × (offset < 2 ^ 13) × (offset % 2 ≡ 0)
IsInstruction cfg (jal rd offset) = (rd < 32) × (offset < 2 ^ 21) × (offset % 2 ≡ 0)
IsInstruction cfg (jalr rd rs1 imm) = (rd < 32) × (rs1 < 32) × (imm < 2 ^ 12)
IsInstruction cfg (lui rd imm) = (rd < 32) × (imm < 2 ^ 20)
IsInstruction cfg (auipc rd imm) = (rd < 32) × (imm < 2 ^ 20)
IsInstruction cfg (csr_op op rd rs1 csr) = IsCsrOp op × (rd < 32) × (rs1 < 32) × (csr < 2 ^ 12)
IsInstruction cfg ecall = Unit
IsInstruction cfg ebreak = Unit
IsInstruction cfg (fence imm) = imm < 2 ^ 12
