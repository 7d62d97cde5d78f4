-- ===== src/Riscv/Immediates.antt =====
-- Each immediate is read back from a word of its format, sign-extended to the register's width.
use rvem.Common.{ℕ, ◌+◌, ◌*◌, ◌/◌, ◌%◌, ◌^◌, ◌<◌, ◌≡◌, arith, bit_and, ap, ◌∙◌}
use rvem.Common.Int.{shr_ℤ}
use rvem.Common.Bits.{bit_and_field, bit_or_fields}
use rvem.Common.Word.{u32, ◌<<<◌, ◌>>>◌, sign_extend, to_signed, of_signed}
use rvem.Arch.{Xlen, bits}
use rvem.Shift.{sraw}
use rvem.Shift.Laws.{sraw-shr, sraw-lt}
use rvem.Riscv.{get_simm12, get_simm20, get_branch_imm, get_jal_imm, get_store_imm}
use rvem.Riscv.Encode.{i_type, s_type, b_type, u_type, j_type}

sraw_value :
    (v s : ℕ) → v < 2 ^ 32 → s < 32 → to_signed 32 (sraw v s % 2 ^ 32) ≡ shr_ℤ (to_signed 32 v) s
sraw_value v s h p =
    let e : sraw v s % 2 ^ 32 ≡ sraw v s = omega (arith, sraw-lt v s) in rw e (sraw-shr v s h p)

-- A value of n bits at the top of the word is shifted down to a sign-extended one.
sraw_top12 : (w v : ℕ) → v < 2 ^ 12 → sign_extend 32 w (sraw (v * 2 ^ 20) 20) ≡ sign_extend 12 w v
sraw_top12 w v h =
    ap (of_signed w) (sraw_value (v * 2 ^ 20) 20 (omega arith) (omega arith) ∙ ground arith)

sraw_top13 : (w v : ℕ) → v < 2 ^ 13 → sign_extend 32 w (sraw (v * 2 ^ 19) 19) ≡ sign_extend 13 w v
sraw_top13 w v h =
    ap (of_signed w) (sraw_value (v * 2 ^ 19) 19 (omega arith) (omega arith) ∙ ground arith)

sraw_top21 : (w v : ℕ) → v < 2 ^ 21 → sign_extend 32 w (sraw (v * 2 ^ 11) 11) ≡ sign_extend 21 w v
sraw_top21 w v h =
    ap (of_signed w) (sraw_value (v * 2 ^ 11) 11 (omega arith) (omega arith) ∙ ground arith)

-- GET_SIMM12 of an I-type word is its immediate, sign-extended, for fields that fit the format.
pub get_simm12-i_type :
    (x : Xlen) (imm rs1 funct3 rd opcode : ℕ)
    → imm < 2 ^ 12
    → rs1 < 2 ^ 5
    → funct3 < 2 ^ 3
    → rd < 2 ^ 5
    → opcode < 2 ^ 7
    → get_simm12 x (i_type imm rs1 funct3 rd opcode) ≡ sign_extend 12 (bits x) imm
unfolding get_simm12
get_simm12-i_type x imm rs1 funct3 rd opcode hi h1 h3 hd ho = rw field (sraw_top12 (bits x) imm hi)
  where
    field : bit_and (i_type imm rs1 funct3 rd opcode) 0xFFF00000 ≡ imm * 2 ^ 20
    field = omega (arith, bit_and_field 20 12 (i_type imm rs1 funct3 rd opcode))

-- GET_STORE_IMM puts the two parts of the immediate of an S-type word together again and extends
-- its sign, for fields that fit the format.
pub get_store_imm-s_type :
    (x : Xlen) (imm rs2 rs1 funct3 opcode : ℕ)
    → imm < 2 ^ 12
    → rs2 < 2 ^ 5
    → rs1 < 2 ^ 5
    → funct3 < 2 ^ 3
    → opcode < 2 ^ 7
    → get_store_imm x (s_type imm rs2 rs1 funct3 opcode) ≡ sign_extend 12 (bits x) imm
unfolding get_store_imm
get_store_imm-s_type x imm rs2 rs1 funct3 opcode hi h2 h1 h3 ho =
    rw
      (
        high,
        low,
        bit_or_fields 25 (imm / 2 ^ 5 % 2 ^ 7) (imm % 2 ^ 5 * 2 ^ 20) (omega arith),
        whole,
      )
      (sraw_top12 (bits x) imm hi)
  where
    high : bit_and (s_type imm rs2 rs1 funct3 opcode) 0xFE000000 ≡ imm / 2 ^ 5 % 2 ^ 7 * 2 ^ 25
    high = omega (arith, bit_and_field 25 7 (s_type imm rs2 rs1 funct3 opcode))

    low : u32 (bit_and (s_type imm rs2 rs1 funct3 opcode) 0xF80 <<< 13) ≡ imm % 2 ^ 5 * 2 ^ 20
    low = omega (arith, bit_and_field 7 5 (s_type imm rs2 rs1 funct3 opcode))

    whole : imm / 2 ^ 5 % 2 ^ 7 * 2 ^ 25 + imm % 2 ^ 5 * 2 ^ 20 ≡ imm * 2 ^ 20
    whole = omega arith

-- GET_BRANCH_IMM puts the four parts of the offset of a B-type word together again and extends its
-- sign, for an even offset of 13 bits and fields that fit the format.
pub get_branch_imm-b_type :
    (x : Xlen) (imm rs2 rs1 funct3 opcode : ℕ)
    → imm < 2 ^ 13
    → imm % 2 ≡ 0
    → rs2 < 2 ^ 5
    → rs1 < 2 ^ 5
    → funct3 < 2 ^ 3
    → opcode < 2 ^ 7
    → get_branch_imm x (b_type imm rs2 rs1 funct3 opcode) ≡ sign_extend 13 (bits x) imm
unfolding get_branch_imm
get_branch_imm-b_type x imm rs2 rs1 funct3 opcode hi even h2 h1 h3 ho =
    rw
      (
        bit12,
        bit11,
        bits10_5,
        bits4_1,
        bit_or_fields 31 (imm / 2 ^ 12 % 2) (imm / 2 ^ 11 % 2 * 2 ^ 30) (omega arith),
        top2,
        bit_or_fields 30 (imm / 2 ^ 11) (imm / 2 ^ 5 % 2 ^ 6 * 2 ^ 24) (omega arith),
        top8,
        bit_or_fields 24 (imm / 2 ^ 5) (imm / 2 % 2 ^ 4 * 2 ^ 20) (omega arith),
        whole,
      )
      (sraw_top13 (bits x) imm hi)
  where
    bit12 : bit_and (b_type imm rs2 rs1 funct3 opcode) 0x80000000 ≡ imm / 2 ^ 12 % 2 * 2 ^ 31
    bit12 = omega (arith, bit_and_field 31 1 (b_type imm rs2 rs1 funct3 opcode))

    bit11 : u32 (bit_and (b_type imm rs2 rs1 funct3 opcode) 0x80 <<< 23) ≡ imm / 2 ^ 11 % 2 * 2 ^ 30
    bit11 = omega (arith, bit_and_field 7 1 (b_type imm rs2 rs1 funct3 opcode))

    bits10_5 :
        bit_and (b_type imm rs2 rs1 funct3 opcode) 0x7E000000 >>> 1 ≡ imm / 2 ^ 5 % 2 ^ 6 * 2 ^ 24
    bits10_5 = omega (arith, bit_and_field 25 6 (b_type imm rs2 rs1 funct3 opcode))

    bits4_1 :
        u32 (bit_and (b_type imm rs2 rs1 funct3 opcode) 0xF00 <<< 12) ≡ imm / 2 % 2 ^ 4 * 2 ^ 20
    bits4_1 = omega (arith, bit_and_field 8 4 (b_type imm rs2 rs1 funct3 opcode))

    top2 : imm / 2 ^ 12 % 2 * 2 ^ 31 + imm / 2 ^ 11 % 2 * 2 ^ 30 ≡ imm / 2 ^ 11 * 2 ^ 30
    top2 = omega arith

    top8 : imm / 2 ^ 11 * 2 ^ 30 + imm / 2 ^ 5 % 2 ^ 6 * 2 ^ 24 ≡ imm / 2 ^ 5 * 2 ^ 24
    top8 = omega arith

    whole : imm / 2 ^ 5 * 2 ^ 24 + imm / 2 % 2 ^ 4 * 2 ^ 20 ≡ imm * 2 ^ 19
    whole = omega arith

-- GET_JAL_IMM puts the four parts of the offset of a J-type word together again and extends its
-- sign, for an even offset of 21 bits and fields that fit the format.
pub get_jal_imm-j_type :
    (x : Xlen) (imm rd opcode : ℕ)
    → imm < 2 ^ 21
    → imm % 2 ≡ 0
    → rd < 2 ^ 5
    → opcode < 2 ^ 7
    → get_jal_imm x (j_type imm rd opcode) ≡ sign_extend 21 (bits x) imm
unfolding get_jal_imm
get_jal_imm-j_type x imm rd opcode hi even hd ho =
    rw
      (
        bit20,
        bits19_12,
        bit11,
        bits10_1,
        bit_or_fields 31 (imm / 2 ^ 20 % 2) (imm / 2 ^ 12 % 2 ^ 8 * 2 ^ 23) (omega arith),
        top9,
        bit_or_fields 23 (imm / 2 ^ 12) (imm / 2 ^ 11 % 2 * 2 ^ 22) (omega arith),
        top10,
        bit_or_fields 22 (imm / 2 ^ 11) (imm / 2 % 2 ^ 10 * 2 ^ 12) (omega arith),
        whole,
      )
      (sraw_top21 (bits x) imm hi)
  where
    bit20 : bit_and (j_type imm rd opcode) 0x80000000 ≡ imm / 2 ^ 20 % 2 * 2 ^ 31
    bit20 = omega (arith, bit_and_field 31 1 (j_type imm rd opcode))

    bits19_12 : u32 (bit_and (j_type imm rd opcode) 0xFF000 <<< 11) ≡ imm / 2 ^ 12 % 2 ^ 8 * 2 ^ 23
    bits19_12 = omega (arith, bit_and_field 12 8 (j_type imm rd opcode))

    bit11 : u32 (bit_and (j_type imm rd opcode) 0x100000 <<< 2) ≡ imm / 2 ^ 11 % 2 * 2 ^ 22
    bit11 = omega (arith, bit_and_field 20 1 (j_type imm rd opcode))

    bits10_1 : bit_and (j_type imm rd opcode) 0x7FE00000 >>> 9 ≡ imm / 2 % 2 ^ 10 * 2 ^ 12
    bits10_1 = omega (arith, bit_and_field 21 10 (j_type imm rd opcode))

    top9 : imm / 2 ^ 20 % 2 * 2 ^ 31 + imm / 2 ^ 12 % 2 ^ 8 * 2 ^ 23 ≡ imm / 2 ^ 12 * 2 ^ 23
    top9 = omega arith

    top10 : imm / 2 ^ 12 * 2 ^ 23 + imm / 2 ^ 11 % 2 * 2 ^ 22 ≡ imm / 2 ^ 11 * 2 ^ 22
    top10 = omega arith

    whole : imm / 2 ^ 11 * 2 ^ 22 + imm / 2 % 2 ^ 10 * 2 ^ 12 ≡ imm * 2 ^ 11
    whole = omega arith

-- GET_SIMM20 of a U-type word is its immediate, shifted left by 12 and sign-extended from 32 bits,
-- for fields that fit the format.
pub get_simm20-u_type :
    (x : Xlen) (imm rd opcode : ℕ)
    → imm < 2 ^ 20
    → rd < 2 ^ 5
    → opcode < 2 ^ 7
    → get_simm20 x (u_type imm rd opcode) ≡ sign_extend 32 (bits x) (imm * 2 ^ 12)
unfolding get_simm20
get_simm20-u_type x imm rd opcode hi hd ho = rw field
  where
    field : bit_and (u_type imm rd opcode) 0xFFFFF000 ≡ imm * 2 ^ 12
    field = omega (arith, bit_and_field 12 20 (u_type imm rd opcode))
