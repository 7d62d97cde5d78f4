-- ===== src/Riscv/Decode.antt =====
-- The fields of a word of each format, read back.
use rvem.Common.{ℕ, ◌*◌, ◌/◌, ◌%◌, ◌^◌, ◌<◌, ◌≡◌, arith, not, ◌==◌}
use rvem.Common.Bits.{bit_and_field}
use rvem.Riscv.{
  get_opcode, get_rs1, get_rs2, get_rd, get_funct3, check_funct7_bit0, check_funct7_bit5,
  alu_funct7_bit5,
}
use rvem.Riscv.Encode.{r_type, i_type, s_type}
use rvem.Riscv.Fields.{get_opcode-mod, get_rd-mod, get_rs1-mod, get_rs2-mod, get_funct3-mod}

pub record RFields (funct7 rs2 rs1 funct3 rd opcode raw : ℕ) : Type 0 where
  pub opcode_is : get_opcode raw ≡ opcode
  pub rd_is : get_rd raw ≡ rd
  pub rs1_is : get_rs1 raw ≡ rs1
  pub rs2_is : get_rs2 raw ≡ rs2
  pub funct3_is : get_funct3 raw ≡ funct3
  pub bit0_is : check_funct7_bit0 raw ≡ not (funct7 % 2 == 0)
  pub bit5_is : alu_funct7_bit5 raw ≡ funct7 / 2 ^ 5 % 2 * 8

pub r_type-RFields :
    (funct7 rs2 rs1 funct3 rd opcode : ℕ)
    → funct7 < 2 ^ 7
    → rs2 < 32
    → rs1 < 32
    → funct3 < 8
    → rd < 32
    → opcode < 2 ^ 7
    → RFields funct7 rs2 rs1 funct3 rd opcode (r_type funct7 rs2 rs1 funct3 rd opcode)
unfolding check_funct7_bit0 alu_funct7_bit5
r_type-RFields f7 rs2 rs1 f3 rd opcode h7 h2 h1 h3 hd ho =
    let raw : ℕ = r_type f7 rs2 rs1 f3 rd opcode in
    record {
      opcode_is = omega (arith, get_opcode-mod raw);
      rd_is = omega (arith, get_rd-mod raw);
      rs1_is = omega (arith, get_rs1-mod raw);
      rs2_is = omega (arith, get_rs2-mod raw);
      funct3_is = omega (arith, get_funct3-mod raw);
      bit0_is = ground (arith, bit_and_field 25 1 raw);
      bit5_is = omega (arith, bit_and_field 30 1 raw);
    }

pub record IFields (imm rs1 funct3 rd opcode raw : ℕ) : Type 0 where
  pub opcode_is : get_opcode raw ≡ opcode
  pub rd_is : get_rd raw ≡ rd
  pub rs1_is : get_rs1 raw ≡ rs1
  pub funct3_is : get_funct3 raw ≡ funct3
  pub bit5_is : check_funct7_bit5 raw ≡ (imm / 2 ^ 10 % 2 == 1)

pub i_type-IFields :
    (imm rs1 funct3 rd opcode : ℕ)
    → imm < 2 ^ 12
    → rs1 < 32
    → funct3 < 8
    → rd < 32
    → opcode < 2 ^ 7
    → IFields imm rs1 funct3 rd opcode (i_type imm rs1 funct3 rd opcode)
unfolding check_funct7_bit5
i_type-IFields imm rs1 f3 rd opcode hi h1 h3 hd ho =
    let raw : ℕ = i_type imm rs1 f3 rd opcode in
    record {
      opcode_is = omega (arith, get_opcode-mod raw);
      rd_is = omega (arith, get_rd-mod raw);
      rs1_is = omega (arith, get_rs1-mod raw);
      funct3_is = omega (arith, get_funct3-mod raw);
      bit5_is = ground (arith, bit_and_field 30 1 raw);
    }

pub record SFields (rs2 rs1 funct3 opcode raw : ℕ) : Type 0 where
  pub opcode_is : get_opcode raw ≡ opcode
  pub rs1_is : get_rs1 raw ≡ rs1
  pub rs2_is : get_rs2 raw ≡ rs2
  pub funct3_is : get_funct3 raw ≡ funct3

pub s_type-SFields :
    (imm rs2 rs1 funct3 opcode : ℕ)
    → imm < 2 ^ 12
    → rs2 < 32
    → rs1 < 32
    → funct3 < 8
    → opcode < 2 ^ 7
    → SFields rs2 rs1 funct3 opcode (s_type imm rs2 rs1 funct3 opcode)
s_type-SFields imm rs2 rs1 f3 opcode hi h2 h1 h3 ho =
    let raw : ℕ = s_type imm rs2 rs1 f3 opcode in
    record {
      opcode_is = omega (arith, get_opcode-mod raw);
      rs1_is = omega (arith, get_rs1-mod raw);
      rs2_is = omega (arith, get_rs2-mod raw);
      funct3_is = omega (arith, get_funct3-mod raw);
    }
