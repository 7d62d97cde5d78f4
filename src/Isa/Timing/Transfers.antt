-- ===== src/Isa/Timing/Transfers.antt =====
-- The cycles of the loads, the stores, the jumps and the branches.
use rvem.Common.{ℕ, ◌%◌, ◌^◌, ◌<◌, ◌≡◌, refl, ap, ◌∙◌, arith, true}
use rvem.Arch.{Config}
use rvem.Riscv.{
  Opcode, opcode_of, MemOp, mem_of, BranchOp, get_opcode, get_rs1, get_rs2, get_funct3, get_simm12,
  get_store_imm, get_branch_imm,
}
use rvem.Riscv.Encode.{b_type}
use rvem.Riscv.Decode.{i_type-IFields, s_type-SFields}
use rvem.Riscv.Fields.{get_opcode-mod, get_rs1-mod, get_rs2-mod, get_funct3-mod}
use rvem.Riscv.Immediates.{get_simm12-i_type, get_store_imm-s_type}
use rvem.Machine.{Machine}
use rvem.Bus.Load.{IsLoad}
use rvem.Bus.RoundTrip.{IsStore}
use rvem.Exec.{exec_load, exec_store, exec_branch}
use rvem.Exec.Timing.{load_instr, no_target, exec_load-Timed, exec_store-Timed}
use rvem.Exec.Timing.Jumps.{exec_branch-Timed}
use rvem.Core.{outcome, execute}
use rvem.Core.Timing.{switched}
use rvem.Core.Memory.{load_word, load_funct3, load_funct3-lt, mem_of-code}
use rvem.Core.Stores.{store_word}
use rvem.Core.Jumps.{holds, branch_funct3, branch_funct3-lt, branch_of-code, branches-holds}
use rvem.Isa.{load, store, branch}
use rvem.Isa.Hart.{hart, at_address}
use rvem.Isa.Timing.{
  Takes, next_pc, clock, times, data_stall-after_load, branch_stall-waits, load_branch_stall-waits,
}
use rvem.Isa.Timing.Formats.{two-Fits, one-Fits}

module _ (cfg : Config) (s : Machine) where
  pub load-Times :
      (op : MemOp) (rd rs1 imm : ℕ)
      → IsLoad cfg.xlen op
      → rd < 32
      → rs1 < 32
      → imm < 2 ^ 12
      → Takes cfg s (load op rd rs1 imm)
  unfolding execute opcode_of
  load-Times op rd rs1 imm l hd h1 hi =
      let raw : ℕ = load_word op rd rs1 imm in
      let i = load op rd rs1 imm in
      let p = s.perf_model in
      let instr = load_instr raw (get_simm12 cfg.xlen raw) in
      let f =
        i_type-IFields imm rs1 (load_funct3 op) rd 0x03 hi h1 (load_funct3-lt op) hd
          (omega arith) in
      let simm =
        get_simm12-i_type cfg.xlen imm rs1 (load_funct3 op) rd 0x03 hi h1 (load_funct3-lt op) hd
          (omega arith) in
      let fits =
        one-Fits i instr (record { rd_is = f.rd_is; load_is = refl; write_is = refl }) rs1 f.rs1_is
          refl (λ r. refl) in
      times cfg i raw s Opcode.load instr fits.leaves (ap (opcode_of cfg.xlen) f.opcode_is) (
        switched (λ j. j ≡ instr) (λ j. outcome j (next_pc cfg s) true) p
          (clock cfg.xlen i (hart s) p s.mcycle) instr (exec_load cfg raw s) (λ a h. h)
          (rw (data_stall-after_load i instr p fits) at (
            exec_load-Timed cfg raw s op (at_address cfg.xlen (hart s) rs1 imm) l
              (ap mem_of f.funct3_is ∙ mem_of-code op) (rw (f.rs1_is, simm) refl))))

  pub store-Times :
      (op : MemOp) (rs1 rs2 imm : ℕ)
      → IsStore cfg.xlen op
      → rs1 < 32
      → rs2 < 32
      → imm < 2 ^ 12
      → Takes cfg s (store op rs1 rs2 imm)
  unfolding execute opcode_of
  store-Times op rs1 rs2 imm st h1 h2 hi =
      let raw : ℕ = store_word op rs2 rs1 imm in
      let i = store op rs1 rs2 imm in
      let p = s.perf_model in
      let instr = no_target raw (get_store_imm cfg.xlen raw) in
      let f =
        s_type-SFields imm rs2 rs1 (load_funct3 op) 0x23 hi h2 h1 (load_funct3-lt op)
          (omega arith) in
      let simm =
        get_store_imm-s_type cfg.xlen imm rs2 rs1 (load_funct3 op) 0x23 hi h2 h1 (load_funct3-lt op)
          (omega arith) in
      let fits =
        two-Fits i instr (record { rd_is = refl; load_is = refl; write_is = refl }) rs1 rs2 f.rs1_is
          f.rs2_is (λ r. refl) in
      times cfg i raw s Opcode.store instr fits.leaves (ap (opcode_of cfg.xlen) f.opcode_is) (
        switched (λ j. j ≡ instr) (λ j. outcome j (next_pc cfg s) true) p
          (clock cfg.xlen i (hart s) p s.mcycle) instr (exec_store cfg raw s) (λ a h. h)
          (rw (data_stall-after_load i instr p fits) at (
            exec_store-Timed cfg raw s op (at_address cfg.xlen (hart s) rs1 imm) st
              (ap mem_of f.funct3_is ∙ mem_of-code op) (rw (f.rs1_is, simm) refl))))

  pub branch-Times :
      (op : BranchOp) (rs1 rs2 offset : ℕ)
      → rs1 < 32
      → rs2 < 32
      → offset < 2 ^ 13
      → offset % 2 ≡ 0
      → Takes cfg s (branch op rs1 rs2 offset)
  unfolding execute opcode_of
  branch-Times op rs1 rs2 offset h1 h2 ho even =
      let raw : ℕ = b_type offset rs2 rs1 (branch_funct3 op) 0x63 in
      let i = branch op rs1 rs2 offset in
      let p = s.perf_model in
      let instr = no_target raw (get_branch_imm cfg.xlen raw) in
      let opcode_is : get_opcode raw ≡ 0x63 = omega (arith, get_opcode-mod raw) in
      let rs1_is : get_rs1 raw ≡ rs1 = omega (arith, get_rs1-mod raw, branch_funct3-lt op) in
      let rs2_is : get_rs2 raw ≡ rs2 = omega (arith, get_rs2-mod raw, branch_funct3-lt op) in
      let funct3_is : get_funct3 raw ≡ branch_funct3 op =
        omega (arith, get_funct3-mod raw, branch_funct3-lt op) in
      let fits =
        two-Fits i instr (record { rd_is = refl; load_is = refl; write_is = refl }) rs1 rs2 rs1_is
          rs2_is (λ r. refl) in
      times cfg i raw s Opcode.branch instr fits.leaves (ap (opcode_of cfg.xlen) opcode_is) (
        switched (λ r. r.0 ≡ instr) (λ r. outcome r.0 r.1 true) p
          (clock cfg.xlen i (hart s) p s.mcycle) instr (exec_branch cfg raw (next_pc cfg s) s)
          (λ a h. h)
          (rw
            (
              data_stall-after_load i instr p fits,
              branch_stall-waits i instr p fits,
              load_branch_stall-waits i instr p fits,
            )
            at
            (exec_branch-Timed cfg raw s (next_pc cfg s)
              (holds cfg.xlen op (s.cpu.regfile rs1) (s.cpu.regfile rs2))
              (rw (rs1_is, rs2_is, funct3_is, branch_of-code op)
                (branches-holds cfg.xlen op _ _)))))
