-- ===== src/Isa/Timing/Jumps.antt =====
-- The cycles of JAL, JALR, LUI, AUIPC, FENCE and the instructions of OP_SYS.
use rvem.Common.{ℕ, ◌%◌, ◌^◌, ◌<◌, ◌≡◌, refl, ap, ◌∙◌, arith, Bool, true, false, not, ◌&&◌, ◌==◌}
use rvem.Arch.{Config}
use rvem.Riscv.{
  Opcode, opcode_of, SysOp, csr_imm, get_opcode, get_rs1, get_rd, get_funct3, get_simm12,
  get_simm20, get_jal_imm,
}
use rvem.Riscv.Encode.{i_type, u_type, j_type}
use rvem.Riscv.Decode.{i_type-IFields}
use rvem.Riscv.Fields.{get_opcode-mod, get_rd-mod}
use rvem.Machine.{Machine, Instr, PerfModel}
use rvem.Machine.Safe.{Allows}
use rvem.Machine.Steady.{pure-Steady}
use rvem.Perf.{data_stall}
use rvem.Perf.Stalls.{stalled}
use rvem.Exec.{instr_init, exec_jal, exec_jalr, exec_lui, exec_auipc, exec_fence}
use rvem.Exec.System.{exec_sys}
use rvem.Exec.Timing.{no_source, one_source}
use rvem.Exec.Timing.Jumps.{
  sys_instr, exec_jal-Timed, exec_jalr-Timed, exec_lui-Steady, exec_auipc-Steady, exec_sys-Timed,
}
use rvem.Core.{outcome, execute, process_instr}
use rvem.Core.Timing.{switched}
use rvem.Core.Registers.{and-false}
use rvem.Core.CsrWords.{IsCsrOp, has_immediate, csr_funct3, csr_funct3-lt, csr_imm-code, csr_word}
use rvem.Isa.{Instruction, jal, jalr, lui, auipc, csr_op, ecall, ebreak, fence}
use rvem.Isa.Hart.{hart}
use rvem.Isa.Cycles.{after_load, Times}
use rvem.Isa.Timing.{
  Takes, next_pc, Leaves, clock, times, data_stall-after_load, branch_stall-waits,
  load_branch_stall-waits,
}
use rvem.Isa.Timing.Formats.{one-Fits, reads-one, reads-none}

no_stall :
    (p : PerfModel) (instr : Instr) → instr.rs1 ≡ 0 → instr.rs2 ≡ 0 → data_stall p instr ≡ false
unfolding data_stall
no_stall p instr e f = rw (reads-none instr p.prev_rd e f) (and-false p.prev_mem_load)

csr_stall :
    (op : SysOp) (p : PerfModel) (instr : Instr) (rs1 rd csr : ℕ)
    → instr.rs1 ≡ rs1
    → instr.rs2 ≡ 0
    → (not (has_immediate op) && data_stall p instr) ≡ after_load (csr_op op rd rs1 csr) p
unfolding data_stall
csr_stall op p instr rs1 rd csr e f =
    rw (reads-one instr rs1 p.prev_rd (rs1 == p.prev_rd) e f refl) (ground arith)

module _ (cfg : Config) (s : Machine) where
  pub jal-Times :
      (rd offset : ℕ) → rd < 32 → offset < 2 ^ 21 → offset % 2 ≡ 0 → Takes cfg s (jal rd offset)
  unfolding execute opcode_of
  jal-Times rd offset hd ho even =
      let raw : ℕ = j_type offset rd 0x6F in
      let i = jal rd offset in
      let instr = no_source raw (get_jal_imm cfg.xlen raw) in
      let opcode_is : get_opcode raw ≡ 0x6F = omega (arith, get_opcode-mod raw) in
      let rd_is : get_rd raw ≡ rd = omega (arith, get_rd-mod raw) in
      times cfg i raw s Opcode.jal instr (record { rd_is = rd_is; load_is = refl; write_is = refl })
        (ap (opcode_of cfg.xlen) opcode_is)
        (switched (λ r. r.0 ≡ instr) (λ r. outcome r.0 r.1 true) s.perf_model
          (clock cfg.xlen i (hart s) s.perf_model s.mcycle) instr (exec_jal cfg raw s) (λ a h. h)
          (exec_jal-Timed cfg raw s))

  pub jalr-Times :
      (rd rs1 imm : ℕ) → rd < 32 → rs1 < 32 → imm < 2 ^ 12 → Takes cfg s (jalr rd rs1 imm)
  unfolding execute opcode_of
  jalr-Times rd rs1 imm hd h1 hi =
      let raw : ℕ = i_type imm rs1 0 rd 0x67 in
      let i = jalr rd rs1 imm in
      let p = s.perf_model in
      let instr = one_source raw (get_simm12 cfg.xlen raw) in
      let f = i_type-IFields imm rs1 0 rd 0x67 hi h1 (omega arith) hd (omega arith) in
      let fits =
        one-Fits i instr (record { rd_is = f.rd_is; load_is = refl; write_is = refl }) rs1 f.rs1_is
          refl (λ r. refl) in
      times cfg i raw s Opcode.jalr instr fits.leaves (ap (opcode_of cfg.xlen) f.opcode_is) (
        switched (λ r. r.0 ≡ instr) (λ r. outcome r.0 r.1 true) p
          (clock cfg.xlen i (hart s) p s.mcycle) instr (exec_jalr cfg raw s) (λ a h. h)
          (rw
            (
              data_stall-after_load i instr p fits,
              branch_stall-waits i instr p fits,
              load_branch_stall-waits i instr p fits,
            )
            at (exec_jalr-Timed cfg raw s)))

  pub upper-Times :
      (rd imm : ℕ) → rd < 32 → imm < 2 ^ 20 → Takes cfg s (lui rd imm) × Takes cfg s (auipc rd imm)
  unfolding execute opcode_of
  upper-Times rd imm hd hi =
      let raw : ℕ = u_type imm rd 0x37 in
      let raw₁ : ℕ = u_type imm rd 0x17 in
      let instr = no_source raw (get_simm20 cfg.xlen raw) in
      let instr₁ = no_source raw₁ (get_simm20 cfg.xlen raw₁) in
      let opcode_is : get_opcode raw ≡ 0x37 = omega (arith, get_opcode-mod raw) in
      let rd_is : get_rd raw ≡ rd = omega (arith, get_rd-mod raw) in
      let opcode_is₁ : get_opcode raw₁ ≡ 0x17 = omega (arith, get_opcode-mod raw₁) in
      let rd_is₁ : get_rd raw₁ ≡ rd = omega (arith, get_rd-mod raw₁) in
      (
        times cfg (lui rd imm) raw s Opcode.lui instr
            (record { rd_is = rd_is; load_is = refl; write_is = refl })
            (ap (opcode_of cfg.xlen) opcode_is)
            (switched (λ j. j ≡ instr) (λ j. outcome j (next_pc cfg s) true) s.perf_model s.mcycle
              instr (exec_lui cfg raw s) (λ a h. h) ((exec_lui-Steady cfg raw s).run s)),
        times cfg (auipc rd imm) raw₁ s Opcode.auipc instr₁
            (record { rd_is = rd_is₁; load_is = refl; write_is = refl })
            (ap (opcode_of cfg.xlen) opcode_is₁)
            (switched (λ j. j ≡ instr₁) (λ j. outcome j (next_pc cfg s) true) s.perf_model s.mcycle
              instr₁ (exec_auipc cfg raw₁ s) (λ a h. h) ((exec_auipc-Steady cfg raw₁ s).run s)),
      )

  pub fence-Times : (imm : ℕ) → imm < 2 ^ 12 → Takes cfg s (fence imm)
  unfolding execute opcode_of exec_fence
  fence-Times imm hi =
      let raw : ℕ = i_type imm 0 0 0 0x0F in
      let f =
        i_type-IFields imm 0 0 0 0x0F hi (omega arith) (omega arith) (omega arith) (omega arith) in
      times cfg (fence imm) raw s Opcode.fence instr_init
        (record { rd_is = refl; load_is = refl; write_is = refl })
        (ap (opcode_of cfg.xlen) f.opcode_is)
        ((pure-Steady {R = λ out. out.instr ≡ instr_init}
            {a = outcome instr_init (next_pc cfg s) true} refl).run
          s)

  -- OP_SYS; an immediate is none to wait for.
  sys-Times :
      (i : Instruction) (raw : ℕ) (is_imm : Bool)
      → get_opcode raw ≡ 0x73
      → csr_imm (get_funct3 raw) ≡ is_imm
      → Leaves i (sys_instr raw)
      → (not is_imm && data_stall s.perf_model (sys_instr raw)) ≡ after_load i s.perf_model
      → clock cfg.xlen i (hart s) s.perf_model s.mcycle
        ≡ stalled (after_load i s.perf_model) s.mcycle
      → Allows (λ _. Times cfg.xlen i s) (process_instr cfg raw s)
  unfolding execute opcode_of
  sys-Times i raw is_imm opcode_is imm leaves stalls short =
      times cfg i raw s Opcode.sys (sys_instr raw) leaves (ap (opcode_of cfg.xlen) opcode_is) (
        rw short (
          switched (λ r. r.0 ≡ sys_instr raw) (λ r. outcome r.0 (next_pc cfg s) r.1) s.perf_model
            (stalled (after_load i s.perf_model) s.mcycle) (sys_instr raw) (exec_sys cfg raw s)
            (λ a h. h) (rw stalls at (exec_sys-Timed cfg raw s is_imm imm))))

  pub csr-Times :
      (op : SysOp) (rd rs1 csr : ℕ)
      → IsCsrOp op
      → rd < 32
      → rs1 < 32
      → csr < 2 ^ 12
      → Takes cfg s (csr_op op rd rs1 csr)
  csr-Times op rd rs1 csr is hd h1 hc =
      let raw : ℕ = csr_word op csr rd rs1 in
      let i = csr_op op rd rs1 csr in
      let p = s.perf_model in
      let f =
        i_type-IFields csr rs1 (csr_funct3 op) rd 0x73 hc h1 (csr_funct3-lt op) hd (omega arith) in
      sys-Times i raw (has_immediate op) f.opcode_is (ap csr_imm f.funct3_is ∙ csr_imm-code op is)
        (record { rd_is = f.rd_is; load_is = refl; write_is = refl })
        (csr_stall op p (sys_instr raw) rs1 rd csr f.rs1_is refl) refl

  -- ecall and ebreak read x0.
  pub environment-Times : Takes cfg s ecall × Takes cfg s ebreak
  unfolding get_opcode get_funct3 get_rd get_rs1
  environment-Times = (
    sys-Times ecall 0x73 false refl refl (record { rd_is = refl; load_is = refl; write_is = refl })
        (no_stall s.perf_model (sys_instr 0x73) refl refl) refl,
    sys-Times ebreak 0x100073 false refl refl
        (record { rd_is = refl; load_is = refl; write_is = refl })
        (no_stall s.perf_model (sys_instr 0x100073) refl refl) refl,
  )
