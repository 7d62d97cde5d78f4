-- ===== src/Riscv/Encode.antt =====
-- The six instruction formats of the RISC-V manual, as the assembler writes them. They stand here
-- as an independent description of what the macros of inc/riscv.h take apart.
use rvem.Common.{ℕ, ◌+◌, ◌*◌, ◌/◌, ◌%◌, ◌^◌}

abbrev pub r_type : (funct7 rs2 rs1 funct3 rd opcode : ℕ) → ℕ
r_type funct7 rs2 rs1 funct3 rd opcode =
    funct7 * 2 ^ 25 + rs2 * 2 ^ 20 + rs1 * 2 ^ 15 + funct3 * 2 ^ 12 + rd * 2 ^ 7 + opcode

abbrev pub i_type : (imm rs1 funct3 rd opcode : ℕ) → ℕ
i_type imm rs1 funct3 rd opcode =
    imm * 2 ^ 20 + rs1 * 2 ^ 15 + funct3 * 2 ^ 12 + rd * 2 ^ 7 + opcode

abbrev pub s_type : (imm rs2 rs1 funct3 opcode : ℕ) → ℕ
s_type imm rs2 rs1 funct3 opcode = r_type (imm / 2 ^ 5 % 2 ^ 7) rs2 rs1 funct3 (imm % 2 ^ 5) opcode

-- Bits 12, 10 to 5 of the offset stand on the left, 4 to 1 and 11 on the right.
abbrev pub b_type : (imm rs2 rs1 funct3 opcode : ℕ) → ℕ
b_type imm rs2 rs1 funct3 opcode =
    r_type (imm / 2 ^ 12 % 2 * 2 ^ 6 + imm / 2 ^ 5 % 2 ^ 6) rs2 rs1 funct3
      (imm / 2 % 2 ^ 4 * 2 + imm / 2 ^ 11 % 2) opcode

abbrev pub u_type : (imm rd opcode : ℕ) → ℕ
u_type imm rd opcode = imm * 2 ^ 12 + rd * 2 ^ 7 + opcode

-- Bits 20, 10 to 1, 11 and 19 to 12 of the offset, from the left.
abbrev pub j_type : (imm rd opcode : ℕ) → ℕ
j_type imm rd opcode =
    imm / 2 ^ 20 % 2 * 2 ^ 31
    + imm / 2 % 2 ^ 10 * 2 ^ 21
    + imm / 2 ^ 11 % 2 * 2 ^ 20
    + imm / 2 ^ 12 % 2 ^ 8 * 2 ^ 12
    + rd * 2 ^ 7
    + opcode
