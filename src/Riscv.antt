-- ===== src/Riscv.antt =====
-- inc/riscv.h: the codes of the instruction set, one data type for each group of constants with
-- the function that reads a code as the `switch` over the group does, and the macros that take an
-- instruction word apart. A word is a number below 2 ^ 32.
pub mod Fields
pub mod Encode
pub mod Immediates
pub mod Decode
use rvem.Common.{ℕ, ◌-◌, bit_and, bit_or, Bool, true, false, not, ◌==◌, if◌then◌else◌}
use rvem.Common.Word.{u8, u32, ◌<<<◌, ◌>>>◌, sign_extend}
use rvem.Arch.{Xlen, rv32, rv64, bits}
use rvem.Shift.{sraw}

pub data Opcode : Type 0 where
  rtype imm rtypew immw load store branch fence auipc lui jal jalr sys : Opcode
  unknown : Opcode

-- OP_RTYPEW and OP_IMMW are there on RV64 only.
unfoldable pub opcode_of : Xlen → ℕ → Opcode
opcode_of x c =
    if c == 0x33
    then Opcode.rtype
    else if c == 0x13
    then Opcode.imm
    else if c == 0x3B
    then elim x [ rv32 ↦ Opcode.unknown | rv64 ↦ Opcode.rtypew ]
    else if c == 0x1B
    then elim x [ rv32 ↦ Opcode.unknown | rv64 ↦ Opcode.immw ]
    else if c == 0x03
    then Opcode.load
    else if c == 0x23
    then Opcode.store
    else if c == 0x63
    then Opcode.branch
    else if c == 0x0F
    then Opcode.fence
    else if c == 0x17
    then Opcode.auipc
    else if c == 0x37
    then Opcode.lui
    else if c == 0x6F
    then Opcode.jal
    else if c == 0x67
    then Opcode.jalr
    else if c == 0x73
    then Opcode.sys
    else Opcode.unknown

pub data AluOp : Type 0 where
  add sub sll slt sltu xor srl sra or and : AluOp
  none : AluOp

unfoldable pub alu_of : ℕ → AluOp
alu_of c =
    if c == 0x0
    then AluOp.add
    else if c == 0x8
    then AluOp.sub
    else if c == 0x1
    then AluOp.sll
    else if c == 0x2
    then AluOp.slt
    else if c == 0x3
    then AluOp.sltu
    else if c == 0x4
    then AluOp.xor
    else if c == 0x5
    then AluOp.srl
    else if c == 0xD
    then AluOp.sra
    else if c == 0x6
    then AluOp.or
    else if c == 0x7
    then AluOp.and
    else AluOp.none

pub data MulOp : Type 0 where
  mul mulh mulhsu mulhu div divu rem remu : MulOp
  none : MulOp

unfoldable pub mul_of : ℕ → MulOp
mul_of c =
    if c == 0x0
    then MulOp.mul
    else if c == 0x1
    then MulOp.mulh
    else if c == 0x2
    then MulOp.mulhsu
    else if c == 0x3
    then MulOp.mulhu
    else if c == 0x4
    then MulOp.div
    else if c == 0x5
    then MulOp.divu
    else if c == 0x6
    then MulOp.rem
    else if c == 0x7
    then MulOp.remu
    else MulOp.none

pub data MemOp : Type 0 where
  b h w d bu hu wu : MemOp
  none : MemOp

unfoldable pub mem_of : ℕ → MemOp
mem_of c =
    if c == 0x0
    then MemOp.b
    else if c == 0x1
    then MemOp.h
    else if c == 0x2
    then MemOp.w
    else if c == 0x3
    then MemOp.d
    else if c == 0x4
    then MemOp.bu
    else if c == 0x5
    then MemOp.hu
    else if c == 0x6
    then MemOp.wu
    else MemOp.none

pub data BranchOp : Type 0 where
  eq ne lt ge ltu geu : BranchOp
  none : BranchOp

unfoldable pub branch_of : ℕ → BranchOp
branch_of c =
    if c == 0x0
    then BranchOp.eq
    else if c == 0x1
    then BranchOp.ne
    else if c == 0x4
    then BranchOp.lt
    else if c == 0x5
    then BranchOp.ge
    else if c == 0x6
    then BranchOp.ltu
    else if c == 0x7
    then BranchOp.geu
    else BranchOp.none

pub data SysOp : Type 0 where
  esys csr_rw csr_rs csr_rc csr_rwi csr_rsi csr_rci : SysOp
  none : SysOp

unfoldable pub sys_of : ℕ → SysOp
sys_of c =
    if c == 0x0
    then SysOp.esys
    else if c == 0x1
    then SysOp.csr_rw
    else if c == 0x2
    then SysOp.csr_rs
    else if c == 0x3
    then SysOp.csr_rc
    else if c == 0x5
    then SysOp.csr_rwi
    else if c == 0x6
    then SysOp.csr_rsi
    else if c == 0x7
    then SysOp.csr_rci
    else SysOp.none

-- EBREAK(uimm) and CSR_IMM(op), the latter as the truth of `op & 4`
abbrev pub is_ebreak : ℕ → Bool
is_ebreak uimm = uimm == 1

abbrev pub csr_imm : ℕ → Bool
csr_imm op = not (bit_and op 0x4 == 0)

-- A0 and A1 are register numbers, E_EXIT and E_CHAR the requests of an ecall.
abbrev pub a0 : ℕ
a0 = 10

abbrev pub a1 : ℕ
a1 = 11

abbrev pub e_exit : ℕ
e_exit = 10

abbrev pub e_char : ℕ
e_char = 11

unfoldable pub get_opcode : ℕ → ℕ
get_opcode instr = bit_and (u8 instr) 0x7F

unfoldable pub get_rs1 : ℕ → ℕ
get_rs1 instr = u8 (bit_and instr 0xF8000 >>> 15)

unfoldable pub get_rs2 : ℕ → ℕ
get_rs2 instr = u8 (bit_and instr 0x1F00000 >>> 20)

unfoldable pub get_rd : ℕ → ℕ
get_rd instr = u8 (bit_and instr 0xF80 >>> 7)

unfoldable pub get_imm12 : ℕ → ℕ
get_imm12 instr = bit_and instr 0xFFF00000 >>> 20

unfoldable pub get_simm12 : Xlen → ℕ → ℕ
get_simm12 x instr = sign_extend 32 (bits x) (sraw (bit_and instr 0xFFF00000) 20)

unfoldable pub get_simm20 : Xlen → ℕ → ℕ
get_simm20 x instr = sign_extend 32 (bits x) (bit_and instr 0xFFFFF000)

unfoldable pub get_funct3 : ℕ → ℕ
get_funct3 instr = u8 (bit_and instr 0x7000 >>> 12)

unfoldable pub check_funct7_bit0 : ℕ → Bool
check_funct7_bit0 instr = not (bit_and instr 0x2000000 == 0)

unfoldable pub check_funct7_bit5 : ℕ → Bool
check_funct7_bit5 instr = not (bit_and instr 0x40000000 == 0)

unfoldable pub alu_funct7_bit5 : ℕ → ℕ
alu_funct7_bit5 instr = u8 (bit_and instr 0x40000000 >>> 27)

unfoldable pub get_branch_imm : Xlen → ℕ → ℕ
get_branch_imm x instr = sign_extend 32 (bits x) (
    sraw
      (bit_or
        (bit_or (bit_or (bit_and instr 0x80000000) (u32 (bit_and instr 0x80 <<< 23)))
          (bit_and instr 0x7E000000 >>> 1))
        (u32 (bit_and instr 0xF00 <<< 12)))
      19)

unfoldable pub get_jal_imm : Xlen → ℕ → ℕ
get_jal_imm x instr = sign_extend 32 (bits x) (
    sraw
      (bit_or
        (bit_or (bit_or (bit_and instr 0x80000000) (u32 (bit_and instr 0xFF000 <<< 11)))
          (u32 (bit_and instr 0x100000 <<< 2)))
        (bit_and instr 0x7FE00000 >>> 9))
      11)

unfoldable pub get_store_imm : Xlen → ℕ → ℕ
get_store_imm x instr =
    sign_extend 32 (bits x)
      (sraw (bit_or (bit_and instr 0xFE000000) (u32 (bit_and instr 0xF80 <<< 13))) 20)
