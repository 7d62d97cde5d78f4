-- ===== src/Riscv/Fields.antt =====
-- The fields of an instruction word as quotients and remainders, and their ranges.
use rvem.Common.{ℕ, ◌/◌, ◌%◌, ◌^◌, ◌<◌, ◌≡◌, arith}
use rvem.Common.Bits.{bit_and_field}
use rvem.Riscv.{get_opcode, get_rs1, get_rs2, get_rd, get_imm12, get_funct3}

pub get_opcode-mod : (i : ℕ) → get_opcode i ≡ i % 2 ^ 7
unfolding get_opcode
get_opcode-mod i = omega (arith, bit_and_field 0 7 (i % 2 ^ 8))

pub get_rd-mod : (i : ℕ) → get_rd i ≡ i / 2 ^ 7 % 2 ^ 5
unfolding get_rd
get_rd-mod i = omega (arith, bit_and_field 7 5 i)

pub get_funct3-mod : (i : ℕ) → get_funct3 i ≡ i / 2 ^ 12 % 2 ^ 3
unfolding get_funct3
get_funct3-mod i = omega (arith, bit_and_field 12 3 i)

pub get_rs1-mod : (i : ℕ) → get_rs1 i ≡ i / 2 ^ 15 % 2 ^ 5
unfolding get_rs1
get_rs1-mod i = omega (arith, bit_and_field 15 5 i)

pub get_rs2-mod : (i : ℕ) → get_rs2 i ≡ i / 2 ^ 20 % 2 ^ 5
unfolding get_rs2
get_rs2-mod i = omega (arith, bit_and_field 20 5 i)

pub get_imm12-mod : (i : ℕ) → get_imm12 i ≡ i / 2 ^ 20 % 2 ^ 12
unfolding get_imm12
get_imm12-mod i = omega (arith, bit_and_field 20 12 i)

pub get_rd-lt : (i : ℕ) → get_rd i < 32
get_rd-lt i = omega (arith, get_rd-mod i)

pub get_rs1-lt : (i : ℕ) → get_rs1 i < 32
get_rs1-lt i = omega (arith, get_rs1-mod i)

pub get_rs2-lt : (i : ℕ) → get_rs2 i < 32
get_rs2-lt i = omega (arith, get_rs2-mod i)

pub get_imm12-lt : (i : ℕ) → get_imm12 i < 4096
get_imm12-lt i = omega (arith, get_imm12-mod i)
