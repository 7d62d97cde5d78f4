-- ===== src/Core/System.antt =====
-- OP_SYS and OP_FENCE, from the encodings to the state after them.
use rvem.Common.{
  ℕ, ◌+◌, ◌/◌, ◌%◌, ◌^◌, ◌<◌, ◌≡◌, refl, arith, ap, Bool, true, false, List, Bool-cases, inl, inr,
  some, ◌∷◌, ◌==◌, if◌then◌else◌,
}
use rvem.Common.Bits.{bit_and_field}
use rvem.Arch.{Config}
use rvem.Riscv.{
  Opcode, opcode_of, get_opcode, sys_of, get_rs1, get_rd, get_imm12, get_funct3, a0, a1,
}
use rvem.Riscv.Encode.{i_type}
use rvem.Riscv.Fields.{get_opcode-mod, get_rd-mod, get_rs1-mod, get_funct3-mod}
use rvem.Machine.{Machine, Instr, Event, exited, breakpoint, putchar, wrap, print}
use rvem.Machine.Run.{written, get_reg-get, set_reg-written}
use rvem.Perf.{hazard, data_stall, reads, get_model}
use rvem.Csr.{csr_of, csr_value, read_csr, write_csr}
use rvem.Exec.{instr_init}
use rvem.Exec.System.{exec_sys, system, csr_modify, csr_target, ecall}
use rvem.Core.{outcome, execute, process_instr}
use rvem.Core.Retire.{ended, process_instr-ended}

-- csrr rd, csr
abbrev pub csrr_word : (csr rd : ℕ) → ℕ
csrr_word csr rd = i_type csr 0 2 rd 0x73

-- instr_t of an instruction of OP_SYS
abbrev pub sys_instr : (rs1 rd csr : ℕ) → Instr
sys_instr rs1 rd csr = record instr_init { rs1 = rs1; rd = rd; imms = csr }

-- An instruction that reads x0 only never waits.
hazard_free : (rd imms : ℕ) (s : Machine) → hazard (sys_instr 0 rd imms) s ≡ some (tt, s)
unfolding hazard get_model data_stall reads
hazard_free rd imms s = ground arith

pub get_imm12-div : (raw : ℕ) → raw < 2 ^ 32 → get_imm12 raw ≡ raw / 2 ^ 20
unfolding get_imm12
get_imm12-div raw h = omega (arith, bit_and_field 20 12 raw)

module _ (cfg : Config) (s : Machine) (csr rd : ℕ) (hc : csr < 2 ^ 12) (hd : rd < 32) where
  csrr-opcode : get_opcode (csrr_word csr rd) ≡ 0x73
  csrr-opcode = omega (arith, get_opcode-mod (csrr_word csr rd))

  csrr-rd : get_rd (csrr_word csr rd) ≡ rd
  csrr-rd = omega (arith, get_rd-mod (csrr_word csr rd))

  csrr-rs1 : get_rs1 (csrr_word csr rd) ≡ 0
  csrr-rs1 = omega (arith, get_rs1-mod (csrr_word csr rd))

  csrr-funct3 : get_funct3 (csrr_word csr rd) ≡ 2
  csrr-funct3 = omega (arith, get_funct3-mod (csrr_word csr rd))

  csrr-imm : get_imm12 (csrr_word csr rd) ≡ csr
  csrr-imm = omega (arith, get_imm12-div (csrr_word csr rd))

  csrr_runs :
      exec_sys cfg (csrr_word csr rd) s
      ≡ some (
        (sys_instr 0 rd csr, true),
        written s s.mcycle rd (csr_value cfg.xlen (csr_of cfg.xlen csr) s),
      )
  unfolding exec_sys system csr_modify csr_target sys_of read_csr write_csr
  csrr_runs = rw (
    csrr-rd,
    csrr-rs1,
    csrr-funct3,
    csrr-imm,
    hazard_free rd csr s,
    get_reg-get 0 s (omega arith),
    set_reg-written rd (csr_value cfg.xlen (csr_of cfg.xlen csr) s) s hd,
  )

  -- The word csrr rd, csr leaves the counter that the CSR names, as it was before the instruction,
  -- in rd, and ends with one cycle, one instruction more and the next pc; the state after it is
  -- given in full. It asks for a CSR number of 12 bits and rd < 32.
  pub process_instr-csrr :
      process_instr cfg (csrr_word csr rd) s
      ≡ some (
        true,
        ended
            (outcome (sys_instr 0 rd csr) (wrap cfg.xlen (s.cpu.pc + 4)) true)
            (written s s.mcycle rd (csr_value cfg.xlen (csr_of cfg.xlen csr) s)),
      )
  unfolding execute opcode_of
  process_instr-csrr =
      process_instr-ended cfg (csrr_word csr rd) s Opcode.sys
        (outcome (sys_instr 0 rd csr) (wrap cfg.xlen (s.cpu.pc + 4)) true)
        (written s s.mcycle rd (csr_value cfg.xlen (csr_of cfg.xlen csr) s))
        (ap (opcode_of cfg.xlen) csrr-opcode) (rw csrr_runs)

-- What an ecall asks for: whether the program goes on, and what is printed.
abbrev pub request : (a0_value a1_value : ℕ) → List Event → Bool × List Event
request r c out =
    if r == 10
    then (false, exited ∷ out)
    else if r == 11
    then (true, putchar (c % 2 ^ 32) ∷ out)
    else (true, out)

module _ (cfg : Config) (s : Machine) where
  ecall_runs :
      ecall s
      ≡ some (
        (request (s.cpu.regfile 10) (s.cpu.regfile 11) s.output).0,
        record s { output = (request (s.cpu.regfile 10) (s.cpu.regfile 11) s.output).1 },
      )
  unfolding ecall print
  ecall_runs = rw (get_reg-get a0 s (omega arith)) (elim (Bool-cases (s.cpu.regfile 10 == 10)) [
    | inl e ↦ rw e
    | inr e ↦ rw e (elim (Bool-cases (s.cpu.regfile 10 == 11)) [
      | inl e₁ ↦ rw (e₁, get_reg-get a1 s (omega arith))
      | inr e₁ ↦ rw e₁
    ])
  ])

  -- ecall does what a0 asks for (10 ends the program, 11 prints the character in a1, anything else
  -- does nothing), and ebreak ends the program with its message. Each ends with one cycle, one
  -- instruction more and the next pc; the states after them are given in full.
  pub process_instr-ecall-ebreak :
      (process_instr cfg 0x73 s
        ≡ some (
          (request (s.cpu.regfile 10) (s.cpu.regfile 11) s.output).0,
          ended
              (outcome (sys_instr 0 0 0) (wrap cfg.xlen (s.cpu.pc + 4)) true)
              (record s { output = (request (s.cpu.regfile 10) (s.cpu.regfile 11) s.output).1 }),
        ))
      × (process_instr cfg 0x100073 s
          ≡ some (
            false,
            ended
                (outcome (sys_instr 0 0 1) (wrap cfg.xlen (s.cpu.pc + 4)) false)
                (record s { output = breakpoint ∷ s.output }),
          ))
  unfolding execute opcode_of exec_sys system sys_of get_opcode get_rs1 get_rd get_imm12 get_funct3
      print
  process_instr-ecall-ebreak = (
    process_instr-ended cfg 0x73 s Opcode.sys
        (outcome (sys_instr 0 0 0) (wrap cfg.xlen (s.cpu.pc + 4))
          (request (s.cpu.regfile 10) (s.cpu.regfile 11) s.output).0)
        (record s { output = (request (s.cpu.regfile 10) (s.cpu.regfile 11) s.output).1 }) refl
        (rw (hazard_free 0 0 s, ecall_runs)),
    process_instr-ended cfg 0x100073 s Opcode.sys
        (outcome (sys_instr 0 0 1) (wrap cfg.xlen (s.cpu.pc + 4)) false)
        (record s { output = breakpoint ∷ s.output }) refl (rw (hazard_free 0 1 s)),
  )
