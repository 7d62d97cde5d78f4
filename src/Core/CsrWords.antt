-- ===== src/Core/CsrWords.antt =====
-- The words of the CSR instructions, and what the manual has their CSR numbers show.
use rvem.Common.{
  ℕ, ◌+◌, ◌^◌, ◌<◌, ◌≡◌, refl, arith, Bool, true, false, not, ◌&&◌, ◌==◌, if◌then◌else◌, ◌-◌, ◌/◌,
  ◌%◌, ◌||◌, ltb,
}
use rvem.Common.Word.{u64}
use rvem.Arch.{Xlen, rv32, rv64}
use rvem.Riscv.{SysOp, sys_of, csr_imm}
use rvem.Riscv.Encode.{i_type}
use rvem.Machine.{Machine}
use rvem.Csr.{csr_of, csr_value}

abbrev pub IsCsrOp : SysOp → Type 0
IsCsrOp SysOp.esys = ⊥
IsCsrOp SysOp.none = ⊥
IsCsrOp _ = Unit

abbrev pub csr_funct3 : SysOp → ℕ
csr_funct3 SysOp.csr_rw = 1
csr_funct3 SysOp.csr_rs = 2
csr_funct3 SysOp.csr_rc = 3
csr_funct3 SysOp.csr_rwi = 5
csr_funct3 SysOp.csr_rsi = 6
csr_funct3 SysOp.csr_rci = 7
csr_funct3 SysOp.esys = 0
csr_funct3 SysOp.none = 4

abbrev pub has_immediate : SysOp → Bool
has_immediate SysOp.csr_rwi = true
has_immediate SysOp.csr_rsi = true
has_immediate SysOp.csr_rci = true
has_immediate _ = false

-- The word of a CSR instruction; rs1 is a register or an immediate.
abbrev pub csr_word : (op : SysOp) (csr rd rs1 : ℕ) → ℕ
csr_word op csr rd rs1 = i_type csr rs1 (csr_funct3 op) rd 0x73

-- mcycle when the CSR is read: one more where rs1 is the destination of the load before.
abbrev pub read_cycle : Machine → (op : SysOp) (rs1 : ℕ) → ℕ
read_cycle s op rs1 =
    if not (has_immediate op)
      && s.perf_model.prev_mem_load
      && not (rs1 == 0)
      && rs1 == s.perf_model.prev_rd
    then u64 (s.mcycle + 1)
    else s.mcycle

pub csr_funct3-lt : (op : SysOp) → csr_funct3 op < 8
csr_funct3-lt SysOp.csr_rw = omega arith
csr_funct3-lt _ = omega arith

pub sys_of-code : (op : SysOp) → sys_of (csr_funct3 op) ≡ op
unfolding sys_of
sys_of-code SysOp.csr_rw = refl
sys_of-code _ = refl

pub csr_imm-code : (op : SysOp) → IsCsrOp op → csr_imm (csr_funct3 op) ≡ has_immediate op
csr_imm-code SysOp.none i = absurd i
csr_imm-code _ i = refl

-- The counters of the manual: 0 counts cycles, 2 instructions; another is not there.
abbrev numbered : (i cycles instret : ℕ) → ℕ
numbered i cycles instret = if i == 0 then cycles else if i == 2 then instret else 0

-- What a CSR number shows: the machine's counters are 0xB00 + i, the user's 0xC00 + i, and on RV32
-- 0x80 more stands for the upper half.
abbrev pub csr_shows : Xlen → (csr cycles instret : ℕ) → ℕ
csr_shows rv64 csr cycles instret =
    if csr / 2 ^ 8 == 0xB || csr / 2 ^ 8 == 0xC
    then numbered (csr % 2 ^ 8) cycles instret % 2 ^ 64
    else 0
csr_shows rv32 csr cycles instret =
    if csr / 2 ^ 8 == 0xB || csr / 2 ^ 8 == 0xC
    then if ltb (csr % 2 ^ 8) 0x80
      then numbered (csr % 2 ^ 8) cycles instret % 2 ^ 32
      else numbered (csr % 2 ^ 8 - 0x80) cycles instret / 2 ^ 32 % 2 ^ 32
    else 0

pub csr_value-csr_shows :
    (x : Xlen) (csr : ℕ) (s : Machine)
    → csr_value x (csr_of x csr) s ≡ csr_shows x csr s.mcycle s.minstret
unfolding csr_value csr_of
csr_value-csr_shows rv32 csr s = ground arith
csr_value-csr_shows rv64 csr s = ground arith
