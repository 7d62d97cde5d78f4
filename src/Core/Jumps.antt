-- ===== src/Core/Jumps.antt =====
-- LUI, AUIPC, JAL, JALR and the branches, from their encodings to the state after them.
use rvem.Common.{
  ℕ, ◌+◌, ◌-◌, ◌*◌, ◌%◌, ◌^◌, ◌<◌, ◌≡◌, refl, arith, ap, Bool, false, not, ◌==◌, if◌then◌else◌, ltb,
  bit_and,
}
use rvem.Common.Int.{ltb_ℤ}
use rvem.Common.Bits.{bit_and_field}
use rvem.Common.Word.{sign_extend, to_signed, bit_not}
use rvem.Arch.{Xlen, rv32, rv64, bits, Config}
use rvem.Riscv.{opcode_of, get_opcode, BranchOp, branch_of, get_rs1, get_rs2, get_rd, get_funct3}
use rvem.Riscv.Encode.{i_type, b_type, u_type, j_type}
use rvem.Riscv.Fields.{get_opcode-mod, get_rd-mod, get_rs1-mod, get_rs2-mod, get_funct3-mod}
use rvem.Riscv.Immediates.{
  get_simm12-i_type, get_simm20-u_type, get_jal_imm-j_type, get_branch_imm-b_type,
}
use rvem.Machine.{Machine, wrap}
use rvem.Machine.Safe.{Ensures}
use rvem.Exec.{branches}
use rvem.Core.{process_instr}
use rvem.Core.Retire.{Retires}
use rvem.Core.Targets.{lui-Retires, auipc-Retires, jal-Retires, jalr-Retires, branch-Retires}

-- The word lui rd, imm leaves imm shifted left by 12, with its sign, in rd, and goes on to the next
-- instruction. It asks for rd < 32 and for imm of 20 bits.
pub process_instr-lui :
    (cfg : Config) (s : Machine) (rd imm : ℕ)
    → rd < 32
    → imm < 2 ^ 20
    → Ensures
        (Retires s rd
          (sign_extend 32 (bits cfg.xlen) (imm * 2 ^ 12))
          (wrap cfg.xlen (s.cpu.pc + 4)))
        (process_instr cfg (u_type imm rd 0x37) s)
unfolding opcode_of
process_instr-lui cfg s rd imm hd hi =
    rw (rd_of, get_simm20-u_type cfg.xlen imm rd 0x37 hi hd (omega arith)) at
      (lui-Retires cfg (u_type imm rd 0x37) s (ap (opcode_of cfg.xlen) opcode))
  where
    opcode : get_opcode (u_type imm rd 0x37) ≡ 0x37
    opcode = omega (arith, get_opcode-mod (u_type imm rd 0x37))

    rd_of : get_rd (u_type imm rd 0x37) ≡ rd
    rd_of = omega (arith, get_rd-mod (u_type imm rd 0x37))

-- The word auipc rd, imm leaves in rd the sum of pc and imm shifted left by 12, with its sign, and
-- goes on to the next instruction. It asks for rd < 32 and for imm of 20 bits.
pub process_instr-auipc :
    (cfg : Config) (s : Machine) (rd imm : ℕ)
    → rd < 32
    → imm < 2 ^ 20
    → Ensures
        (Retires s rd
          (wrap cfg.xlen (s.cpu.pc + sign_extend 32 (bits cfg.xlen) (imm * 2 ^ 12)))
          (wrap cfg.xlen (s.cpu.pc + 4)))
        (process_instr cfg (u_type imm rd 0x17) s)
unfolding opcode_of
process_instr-auipc cfg s rd imm hd hi =
    rw (rd_of, get_simm20-u_type cfg.xlen imm rd 0x17 hi hd (omega arith)) at
      (auipc-Retires cfg (u_type imm rd 0x17) s (ap (opcode_of cfg.xlen) opcode))
  where
    opcode : get_opcode (u_type imm rd 0x17) ≡ 0x17
    opcode = omega (arith, get_opcode-mod (u_type imm rd 0x17))

    rd_of : get_rd (u_type imm rd 0x17) ≡ rd
    rd_of = omega (arith, get_rd-mod (u_type imm rd 0x17))

-- The word jal rd, offset leaves the address of the next instruction in rd and goes on at pc plus
-- the offset with its sign. It asks for rd < 32 and for an even offset of 21 bits.
pub process_instr-jal :
    (cfg : Config) (s : Machine) (rd offset : ℕ)
    → rd < 32
    → offset < 2 ^ 21
    → offset % 2 ≡ 0
    → Ensures
        (Retires s rd
          (wrap cfg.xlen (s.cpu.pc + 4))
          (wrap cfg.xlen (s.cpu.pc + sign_extend 21 (bits cfg.xlen) offset)))
        (process_instr cfg (j_type offset rd 0x6F) s)
unfolding opcode_of
process_instr-jal cfg s rd offset hd hi even =
    rw (rd_of, get_jal_imm-j_type cfg.xlen offset rd 0x6F hi even hd (omega arith)) at
      (jal-Retires cfg (j_type offset rd 0x6F) s (ap (opcode_of cfg.xlen) opcode))
  where
    opcode : get_opcode (j_type offset rd 0x6F) ≡ 0x6F
    opcode = omega (arith, get_opcode-mod (j_type offset rd 0x6F))

    rd_of : get_rd (j_type offset rd 0x6F) ≡ rd
    rd_of = omega (arith, get_rd-mod (j_type offset rd 0x6F))

-- Clearing bit 0 of an address.
even_target : (x : Xlen) (a : ℕ) → a < 2 ^ bits x → bit_and a (bit_not (bits x) 1) ≡ a - a % 2
even_target rv32 a h = omega (arith, bit_and_field 1 31 a)
even_target rv64 a h = omega (arith, bit_and_field 1 63 a)

wrapped : (x : Xlen) (a : ℕ) → a % 2 ^ bits x < 2 ^ bits x
wrapped rv32 a = omega arith
wrapped rv64 a = omega arith

-- The word jalr rd, imm(rs1) leaves the address of the next instruction in rd and goes on at rs1
-- plus the immediate with its sign, made even; rs1 is read before rd is written. It asks for
-- rd, rs1 < 32 and for an immediate of 12 bits.
pub process_instr-jalr :
    (cfg : Config) (s : Machine) (rd rs1 imm : ℕ)
    → rd < 32
    → rs1 < 32
    → imm < 2 ^ 12
    → Ensures
        (let target = wrap cfg.xlen (s.cpu.regfile rs1 + sign_extend 12 (bits cfg.xlen) imm) in
          Retires s rd (wrap cfg.xlen (s.cpu.pc + 4)) (target - target % 2))
        (process_instr cfg (i_type imm rs1 0 rd 0x67) s)
unfolding opcode_of
process_instr-jalr cfg s rd rs1 imm hd h1 hi =
    rw
      (
        rd_of,
        rs1_of,
        get_simm12-i_type cfg.xlen imm rs1 0 rd 0x67 hi h1 (omega arith) hd (omega arith),
        even_target cfg.xlen _
            (wrapped cfg.xlen (s.cpu.regfile rs1 + sign_extend 12 (bits cfg.xlen) imm)),
      )
      at (jalr-Retires cfg (i_type imm rs1 0 rd 0x67) s (ap (opcode_of cfg.xlen) opcode))
  where
    opcode : get_opcode (i_type imm rs1 0 rd 0x67) ≡ 0x67
    opcode = omega (arith, get_opcode-mod (i_type imm rs1 0 rd 0x67))

    rd_of : get_rd (i_type imm rs1 0 rd 0x67) ≡ rd
    rd_of = omega (arith, get_rd-mod (i_type imm rs1 0 rd 0x67))

    rs1_of : get_rs1 (i_type imm rs1 0 rd 0x67) ≡ rs1
    rs1_of = omega (arith, get_rs1-mod (i_type imm rs1 0 rd 0x67))

-- The condition of a branch, on the numbers that the registers stand for.
abbrev pub holds : Xlen → BranchOp → ℕ → ℕ → Bool
holds x BranchOp.eq a b = a == b
holds x BranchOp.ne a b = not (a == b)
holds x BranchOp.lt a b = ltb_ℤ (to_signed (bits x) a) (to_signed (bits x) b)
holds x BranchOp.ge a b = not (ltb_ℤ (to_signed (bits x) a) (to_signed (bits x) b))
holds x BranchOp.ltu a b = ltb a b
holds x BranchOp.geu a b = not (ltb a b)
holds x BranchOp.none a b = false

abbrev pub branch_funct3 : BranchOp → ℕ
branch_funct3 BranchOp.eq = 0
branch_funct3 BranchOp.ne = 1
branch_funct3 BranchOp.lt = 4
branch_funct3 BranchOp.ge = 5
branch_funct3 BranchOp.ltu = 6
branch_funct3 BranchOp.geu = 7
branch_funct3 BranchOp.none = 2

pub branch_funct3-lt : (op : BranchOp) → branch_funct3 op < 8
branch_funct3-lt BranchOp.eq = omega arith
branch_funct3-lt _ = omega arith

pub branch_of-code : (op : BranchOp) → branch_of (branch_funct3 op) ≡ op
unfolding branch_of
branch_of-code BranchOp.eq = refl
branch_of-code _ = refl

pub branches-holds : (x : Xlen) (op : BranchOp) (a b : ℕ) → branches x op a b ≡ holds x op a b
unfolding branches
branches-holds x BranchOp.geu a b = ground arith
branches-holds x _ a b = refl

-- The word of a branch (or, for none, of the unused code 2) writes no register and goes on at pc
-- plus the offset with its sign if the condition holds of rs1 and rs2, at the next instruction if
-- it does not. It asks for rs1, rs2 < 32 and for an even offset of 13 bits.
pub process_instr-branch :
    (cfg : Config) (s : Machine) (op : BranchOp) (rs1 rs2 offset : ℕ)
    → rs1 < 32
    → rs2 < 32
    → offset < 2 ^ 13
    → offset % 2 ≡ 0
    → Ensures
        (Retires s 0 0 (
          if holds cfg.xlen op (s.cpu.regfile rs1) (s.cpu.regfile rs2)
          then wrap cfg.xlen (s.cpu.pc + sign_extend 13 (bits cfg.xlen) offset)
          else wrap cfg.xlen (s.cpu.pc + 4)))
        (process_instr cfg (b_type offset rs2 rs1 (branch_funct3 op) 0x63) s)
unfolding opcode_of
process_instr-branch cfg s op rs1 rs2 offset h1 h2 hi even =
    rw
      (
        rs1_of,
        rs2_of,
        funct3_of,
        branch_of-code op,
        branches-holds cfg.xlen op (s.cpu.regfile rs1) (s.cpu.regfile rs2),
        get_branch_imm-b_type cfg.xlen offset rs2 rs1 (branch_funct3 op) 0x63 hi even h2 h1
            (branch_funct3-lt op) (omega arith),
      )
      at
      (branch-Retires cfg (b_type offset rs2 rs1 (branch_funct3 op) 0x63) s
        (ap (opcode_of cfg.xlen) opcode))
  where
    opcode : get_opcode (b_type offset rs2 rs1 (branch_funct3 op) 0x63) ≡ 0x63
    opcode = omega (arith, get_opcode-mod (b_type offset rs2 rs1 (branch_funct3 op) 0x63))

    rs1_of : get_rs1 (b_type offset rs2 rs1 (branch_funct3 op) 0x63) ≡ rs1
    rs1_of =
        omega
          (arith, get_rs1-mod (b_type offset rs2 rs1 (branch_funct3 op) 0x63), branch_funct3-lt op)

    rs2_of : get_rs2 (b_type offset rs2 rs1 (branch_funct3 op) 0x63) ≡ rs2
    rs2_of =
        omega
          (arith, get_rs2-mod (b_type offset rs2 rs1 (branch_funct3 op) 0x63), branch_funct3-lt op)

    funct3_of : get_funct3 (b_type offset rs2 rs1 (branch_funct3 op) 0x63) ≡ branch_funct3 op
    funct3_of =
        omega (
          arith,
          get_funct3-mod (b_type offset rs2 rs1 (branch_funct3 op) 0x63),
          branch_funct3-lt op,
        )
