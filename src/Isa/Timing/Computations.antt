-- ===== src/Isa/Timing/Computations.antt =====
-- The cycles of the instructions that compute a register from others.
use rvem.Common.{ℕ, ◌^◌, ◌<◌, ◌≡◌, refl, ap, ◌∙◌, arith, true, false, ◌||◌, ◌==◌}
use rvem.Arch.{Xlen, rv32, rv64, Config}
use rvem.Riscv.{Opcode, opcode_of, get_simm12}
use rvem.Riscv.Encode.{r_type, i_type}
use rvem.Riscv.Decode.{r_type-RFields, i_type-IFields}
use rvem.Machine.{Machine}
use rvem.Machine.Safe.{Allows}
use rvem.Perf.Stalls.{stalled}
use rvem.Exec.{exec_rtype, exec_imm, exec_rtypew, exec_immw}
use rvem.Exec.Timing.{
  two_sources, one_source, exec_rtype-Timed, exec_imm-Timed, exec_rtypew-Timed, exec_immw-Timed,
}
use rvem.Core.{execute, process_instr}
use rvem.Isa.{Instruction, IsRv64}
use rvem.Isa.Hart.{hart}
use rvem.Isa.Cycles.{needs, target, is_load, is_write, after_load, Times}
use rvem.Isa.Timing.{clock}
use rvem.Isa.Timing.Formats.{two-Fits, one-Fits, plain}

rtypew_opcode : (x : Xlen) → IsRv64 x → opcode_of x 0x3B ≡ Opcode.rtypew
unfolding opcode_of
rtypew_opcode rv64 i = refl
rtypew_opcode rv32 i = absurd i

immw_opcode : (x : Xlen) → IsRv64 x → opcode_of x 0x1B ≡ Opcode.immw
unfolding opcode_of
immw_opcode rv64 i = refl
immw_opcode rv32 i = absurd i

module _ (cfg : Config) (s : Machine) (i : Instruction) where
  -- Two registers give a third.
  module _ (f7 rs2 rs1 f3 rd : ℕ) (h7 : f7 < 2 ^ 7) (h2 : rs2 < 32) (h1 : rs1 < 32) (h3 : f3 < 8)
      (hd : rd < 32) (rd_is : rd ≡ target i) (load_is : false ≡ is_load i)
      (write_is : true ≡ is_write i) (reads : (r : ℕ) → needs i r ≡ (rs1 == r || rs2 == r))
      (short : clock cfg.xlen i (hart s) s.perf_model s.mcycle
        ≡ stalled (after_load i s.perf_model) s.mcycle) where
    pub rtype-Times :
        Allows (λ _. Times cfg.xlen i s) (process_instr cfg (r_type f7 rs2 rs1 f3 rd 0x33) s)
    unfolding execute opcode_of
    rtype-Times =
        let raw : ℕ = r_type f7 rs2 rs1 f3 rd 0x33 in
        let f = r_type-RFields f7 rs2 rs1 f3 rd 0x33 h7 h2 h1 h3 hd (omega arith) in
        let fits =
          two-Fits i (two_sources raw)
            (record { rd_is = f.rd_is ∙ rd_is; load_is = load_is; write_is = write_is }) rs1 rs2
            f.rs1_is f.rs2_is reads in
        plain cfg s i raw Opcode.rtype (two_sources raw) (exec_rtype cfg raw s) fits
          (ap (opcode_of cfg.xlen) f.opcode_is) short refl (exec_rtype-Timed cfg raw s)

    pub rtypew-Times :
        IsRv64 cfg.xlen
        → Allows (λ _. Times cfg.xlen i s) (process_instr cfg (r_type f7 rs2 rs1 f3 rd 0x3B) s)
    unfolding execute
    rtypew-Times wide =
        let raw : ℕ = r_type f7 rs2 rs1 f3 rd 0x3B in
        let f = r_type-RFields f7 rs2 rs1 f3 rd 0x3B h7 h2 h1 h3 hd (omega arith) in
        let fits =
          two-Fits i (two_sources raw)
            (record { rd_is = f.rd_is ∙ rd_is; load_is = load_is; write_is = write_is }) rs1 rs2
            f.rs1_is f.rs2_is reads in
        plain cfg s i raw Opcode.rtypew (two_sources raw) (exec_rtypew cfg raw s) fits
          (ap (opcode_of cfg.xlen) f.opcode_is ∙ rtypew_opcode cfg.xlen wide) short refl
          (exec_rtypew-Timed cfg raw s)

  -- A register and an immediate give another.
  module _ (imm rs1 f3 rd : ℕ) (hi : imm < 2 ^ 12) (h1 : rs1 < 32) (h3 : f3 < 8) (hd : rd < 32)
      (rd_is : rd ≡ target i) (load_is : false ≡ is_load i) (write_is : true ≡ is_write i)
      (reads : (r : ℕ) → needs i r ≡ (rs1 == r))
      (short : clock cfg.xlen i (hart s) s.perf_model s.mcycle
        ≡ stalled (after_load i s.perf_model) s.mcycle) where
    pub imm-Times :
        Allows (λ _. Times cfg.xlen i s) (process_instr cfg (i_type imm rs1 f3 rd 0x13) s)
    unfolding execute opcode_of
    imm-Times =
        let raw : ℕ = i_type imm rs1 f3 rd 0x13 in
        let instr = one_source raw (get_simm12 cfg.xlen raw) in
        let f = i_type-IFields imm rs1 f3 rd 0x13 hi h1 h3 hd (omega arith) in
        let fits =
          one-Fits i instr
            (record { rd_is = f.rd_is ∙ rd_is; load_is = load_is; write_is = write_is }) rs1
            f.rs1_is refl reads in
        plain cfg s i raw Opcode.imm instr (exec_imm cfg raw s) fits
          (ap (opcode_of cfg.xlen) f.opcode_is) short refl (exec_imm-Timed cfg raw s)

    pub immw-Times :
        IsRv64 cfg.xlen
        → Allows (λ _. Times cfg.xlen i s) (process_instr cfg (i_type imm rs1 f3 rd 0x1B) s)
    unfolding execute
    immw-Times wide =
        let raw : ℕ = i_type imm rs1 f3 rd 0x1B in
        let instr = one_source raw (get_simm12 cfg.xlen raw) in
        let f = i_type-IFields imm rs1 f3 rd 0x1B hi h1 h3 hd (omega arith) in
        let fits =
          one-Fits i instr
            (record { rd_is = f.rd_is ∙ rd_is; load_is = load_is; write_is = write_is }) rs1
            f.rs1_is refl reads in
        plain cfg s i raw Opcode.immw instr (exec_immw cfg raw s) fits
          (ap (opcode_of cfg.xlen) f.opcode_is ∙ immw_opcode cfg.xlen wide) short refl
          (exec_immw-Timed cfg raw s)
