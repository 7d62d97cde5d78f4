-- ===== src/Examples.antt =====
-- The emulator on small programs and words: tests, and the theorems at concrete arguments.
pub mod Programs
use rvem.Common.{ℕ, ◌+◌, ◌-◌, ◌*◌, ◌/◌, ◌^◌, ◌≡◌, refl, arith, true, some, ◌==◌, if◌then◌else◌}
use rvem.Common.Int.{pos, negsuc, ◌*ℤ◌, shr_ℤ}
use rvem.Common.Word.{to_signed, sign_extend}
use rvem.Arch.{Xlen, rv32, rv64, Config, gnu, other}
use rvem.Shift.{sra, sraw}
use rvem.Shift.Extend
use rvem.Shift.Extend.{sign_extend_lem}
use rvem.Shift.Laws.{sra-shr, sraw-shr}
use rvem.Riscv.{
  AluOp, MulOp, MemOp, BranchOp, get_simm12, get_store_imm, get_branch_imm, get_jal_imm, get_simm20,
}
use rvem.Riscv.Encode.{i_type, s_type, b_type, j_type, u_type}
use rvem.Riscv.Immediates.{
  get_simm12-i_type, get_store_imm-s_type, get_branch_imm-b_type, get_jal_imm-j_type,
  get_simm20-u_type,
}
use rvem.Mul.{rv_mulh, rv_mulhsu, rv_mulhu, mulhudw, rv_div, rv_rem, rv_divw, rv_remw}
use rvem.Mul.High.{rv_mulh-shr, rv_mulhsu-shr, rv_mulhu-div, mulhudw-div}
use rvem.Mul.Division.{IsDivision, rv_div-rv_rem-IsDivision, rv_divw-rv_remw-IsDivision}
use rvem.Machine.{Machine, boot}
use rvem.Machine.Safe.{IsValid, Ensures}
use rvem.Bus.{bus_read, bus_write, in_ram}
use rvem.Bus.RoundTrip.{bus_write-bus_read}
use rvem.Bus.Frame.{bus_write-frame}
use rvem.Csr.{read_csr}
use rvem.Csr.Halves.{read_csr-halves}
use rvem.Common.{inr}
use rvem.Alu.Spec.{result}
use rvem.Alu.Product.{IsMulDiv}
use rvem.Core.{process_instr}
use rvem.Core.Safety.{Completes, process_instr-Completes}
use rvem.Core.Retire.{Retires}
use rvem.Core.Registers.{op_word, process_instr-op}
use rvem.Core.Immediates.{imm_word, shift_word, process_instr-op_imm, process_instr-op_shift}
use rvem.Core.Products.{mul_word, process_instr-mul}
use rvem.Core.Jumps.{
  process_instr-lui, process_instr-auipc, process_instr-jal, process_instr-jalr,
  process_instr-branch,
}
use rvem.Host.{run}
use rvem.Host.Loop.{Ends, run-Ends}

abbrev pub cfg32 : Config
cfg32 = record { xlen = rv32; m_ext = true; compiler = gnu }

abbrev pub cfg64 : Config
cfg64 = record { xlen = rv64; m_ext = true; compiler = other }

-- addi a0, x0, 10; ecall
abbrev pub image : ℕ → ℕ
image i =
    if i == 0
    then 0x13
    else if i == 1
    then 0x05
    else if i == 2
    then 0xA0
    else if i == 4
    then 0x73
    else 0

-- x5 is -6 and x6 is 4.
abbrev registers32 : ℕ → ℕ
registers32 i = if i == 5 then 2 ^ 32 - 6 else if i == 6 then 4 else 0

abbrev pub started : Machine
started = record (boot image) {
  cpu = record { rom = image; ram = λ _. 0; regfile = registers32; pc = 8 };
}

pub boot-IsValid : (x : Xlen) → IsValid x (boot image)
boot-IsValid rv32 = record {
  rom_bytes = λ i. ground arith;
  ram_bytes = λ i. omega arith;
  registers = λ i. omega arith;
  pc_range = omega arith;
  cycle_range = omega arith;
  instret_range = omega arith;
}
boot-IsValid rv64 = record {
  rom_bytes = λ i. ground arith;
  ram_bytes = λ i. omega arith;
  registers = λ i. omega arith;
  pc_range = omega arith;
  cycle_range = omega arith;
  instret_range = omega arith;
}

pub started-IsValid : IsValid rv32 started
started-IsValid = record {
  rom_bytes = λ i. ground arith;
  ram_bytes = λ i. omega arith;
  registers = λ i. ground arith;
  pc_range = omega arith;
  cycle_range = omega arith;
  instret_range = omega arith;
}

process_instr-Completes_example :
    Ensures (λ _ t. Completes cfg32 started t) (process_instr cfg32 0x02628533 started)
process_instr-Completes_example = process_instr-Completes cfg32 0x02628533 started started-IsValid

run-Ends_example : Ensures (Ends cfg64 (boot image)) (run 1000000001 cfg64 true (boot image))
run-Ends_example = run-Ends cfg64 1000000000 true (boot image) (boot-IsValid rv64) (omega arith)

process_instr-op_example :
    Ensures
      (Retires started 7 (result rv32 AluOp.sra (2 ^ 32 - 6) 4) 12)
      (process_instr cfg32 (op_word AluOp.sra 7 5 6) started)
process_instr-op_example =
    process_instr-op AluOp.sra tt 7 5 6 (omega arith) (omega arith) (omega arith) cfg32 started
      started-IsValid

process_instr-op_imm_example :
    Ensures
      (Retires started 7 (result rv32 AluOp.slt (2 ^ 32 - 6) (sign_extend 12 32 0xFFF)) 12)
      (process_instr cfg32 (imm_word AluOp.slt 7 5 0xFFF) started)
process_instr-op_imm_example =
    process_instr-op_imm AluOp.slt 7 5 0xFFF (omega arith) (omega arith) (omega arith) tt cfg32
      started

process_instr-op_shift_example :
    Ensures
      (Retires started 7 (result rv32 AluOp.sra (2 ^ 32 - 6) 31) 12)
      (process_instr cfg32 (shift_word AluOp.sra 7 5 31) started)
process_instr-op_shift_example =
    process_instr-op_shift cfg32 AluOp.sra 7 5 31 started tt (omega arith) (omega arith)
      (omega arith) started-IsValid

process_instr-mul_example :
    (v : ℕ) × IsMulDiv rv32 MulOp.rem (2 ^ 32 - 6) 4 v
    × Ensures (Retires started 7 v 12) (process_instr cfg32 (mul_word MulOp.rem 7 5 6) started)
process_instr-mul_example =
    process_instr-mul cfg32 MulOp.rem 7 5 6 started refl tt (omega arith) (omega arith)
      (omega arith) started-IsValid

process_instr-branch_example :
    Ensures (Retires started 0 0 4) (process_instr cfg32 (b_type (2 ^ 13 - 4) 6 5 4 0x63) started)
process_instr-branch_example =
    process_instr-branch cfg32 started BranchOp.lt 5 6 (2 ^ 13 - 4) (omega arith) (omega arith)
      (omega arith) refl

process_instr-jal_example :
    Ensures (Retires started 1 12 0) (process_instr cfg32 (j_type (2 ^ 21 - 8) 1 0x6F) started)
process_instr-jal_example =
    process_instr-jal cfg32 started 1 (2 ^ 21 - 8) (omega arith) (omega arith) refl

process_instr-jalr_example :
    Ensures (Retires started 1 12 6) (process_instr cfg32 (i_type 3 6 0 1 0x67) started)
process_instr-jalr_example =
    process_instr-jalr cfg32 started 1 6 3 (omega arith) (omega arith) (omega arith)

bus_write-bus_read_example :
    Ensures
      (λ _ t.
        Ensures (λ r _. r ≡ some (sign_extend 16 32 0x1FFFE)) (bus_read rv32 0x20000001 MemOp.h t))
      (bus_write rv32 0x20000001 MemOp.h 0x1FFFE started)
unfolding in_ram
bus_write-bus_read_example =
    bus_write-bus_read rv32 0x20000001 MemOp.h 0x1FFFE started tt (omega arith) refl

rv_mulh-shr_example :
    to_signed 64 (rv_mulh other rv64 (negsuc 4) (pos (2 ^ 62)))
    ≡ shr_ℤ (negsuc 4 *ℤ pos (2 ^ 62)) 64
rv_mulh-shr_example = rv_mulh-shr other rv64 (negsuc 4) (pos (2 ^ 62)) (omega arith) (omega arith)

rv_mulhsu-shr_example :
    to_signed 64 (rv_mulhsu other rv64 (negsuc 4) (2 ^ 64 - 1))
    ≡ shr_ℤ (negsuc 4 *ℤ pos (2 ^ 64 - 1)) 64
rv_mulhsu-shr_example = rv_mulhsu-shr other rv64 (negsuc 4) (2 ^ 64 - 1) (omega arith) (omega arith)

rv_mulhu-div_example :
    rv_mulhu other rv64 (2 ^ 64 - 1) (2 ^ 64 - 1) ≡ (2 ^ 64 - 1) * (2 ^ 64 - 1) / 2 ^ 64
rv_mulhu-div_example = rv_mulhu-div other rv64 (2 ^ 64 - 1) (2 ^ 64 - 1) (omega arith) (omega arith)

mulhudw-div_example : mulhudw (2 ^ 64 - 1) (2 ^ 63 + 5) ≡ (2 ^ 64 - 1) * (2 ^ 63 + 5) / 2 ^ 64
mulhudw-div_example = mulhudw-div (2 ^ 64 - 1) (2 ^ 63 + 5) (omega arith) (omega arith)

rv_div-rv_rem-IsDivision_example :
    IsDivision 32
      (negsuc 6)
      (pos 3)
      (rv_div rv32 (negsuc 6) (pos 3))
      (rv_rem rv32 (negsuc 6) (pos 3))
rv_div-rv_rem-IsDivision_example = rv_div-rv_rem-IsDivision rv32 (negsuc 6) (pos 3) (omega arith)

rv_divw-rv_remw-IsDivision_example :
    IsDivision 32
      (negsuc (2 ^ 31 - 1))
      (negsuc 0)
      (rv_divw (negsuc (2 ^ 31 - 1)) (negsuc 0))
      (rv_remw (negsuc (2 ^ 31 - 1)) (negsuc 0))
rv_divw-rv_remw-IsDivision_example =
    rv_divw-rv_remw-IsDivision (negsuc (2 ^ 31 - 1)) (negsuc 0) (omega arith)

sra-shr_example : to_signed 64 (sra rv64 (2 ^ 64 - 6) 1) ≡ shr_ℤ (to_signed 64 (2 ^ 64 - 6)) 1
sra-shr_example = sra-shr rv64 (2 ^ 64 - 6) 1 (omega arith) (omega arith)

get_simm12-i_type_example : get_simm12 rv64 (i_type 0xFFF 5 0 7 0x13) ≡ sign_extend 12 64 0xFFF
get_simm12-i_type_example =
    get_simm12-i_type rv64 0xFFF 5 0 7 0x13 (omega arith) (omega arith) (omega arith) (omega arith)
      (omega arith)

get_store_imm-s_type_example :
    get_store_imm rv64 (s_type 0xFE3 6 5 2 0x23) ≡ sign_extend 12 64 0xFE3
get_store_imm-s_type_example =
    get_store_imm-s_type rv64 0xFE3 6 5 2 0x23 (omega arith) (omega arith) (omega arith)
      (omega arith) (omega arith)

get_branch_imm-b_type_example :
    get_branch_imm rv64 (b_type 0x1FFC 6 5 0 0x63) ≡ sign_extend 13 64 0x1FFC
get_branch_imm-b_type_example =
    get_branch_imm-b_type rv64 0x1FFC 6 5 0 0x63 (omega arith) refl (omega arith) (omega arith)
      (omega arith) (omega arith)

get_jal_imm-j_type_example : get_jal_imm rv64 (j_type 0x1FFFFC 1 0x6F) ≡ sign_extend 21 64 0x1FFFFC
get_jal_imm-j_type_example =
    get_jal_imm-j_type rv64 0x1FFFFC 1 0x6F (omega arith) refl (omega arith) (omega arith)

bus_write-frame_example :
    Ensures
      (λ _ t.
        (t.cpu.ram 3 ≡ started.cpu.ram 3)
        × (t.cpu.regfile ≡ started.cpu.regfile)
        × (t.cpu.pc ≡ started.cpu.pc))
      (bus_write rv32 0x20000001 MemOp.h 0x1FFFE started)
unfolding in_ram
bus_write-frame_example =
    bus_write-frame rv32 0x20000001 3 MemOp.h 0x1FFFE started tt (omega arith) refl
      (inr (unfold rvem.Bus.range in omega arith))

read_csr-halves_example :
    Ensures
      (λ hi t.
        Ensures
          (λ lo u. (hi * 2 ^ 32 + lo ≡ started.mcycle) × (u ≡ started))
          (read_csr rv32 0xB00 t))
      (read_csr rv32 0xB80 started)
    × Ensures
        (λ hi t.
          Ensures
            (λ lo u. (hi * 2 ^ 32 + lo ≡ started.minstret) × (u ≡ started))
            (read_csr rv32 0xC02 t))
        (read_csr rv32 0xC82 started)
read_csr-halves_example = read_csr-halves started (omega arith) (omega arith)

sign_extend_lem_example : Extend.sign_extend rv64 0xFFA 12 ≡ sign_extend 12 64 0xFFA
sign_extend_lem_example = sign_extend_lem rv64 0xFFA 12 (omega arith) (omega arith) (omega arith)
