-- ===== src/Exec/Timing.antt =====
-- The cycles that the cases of the switch add, for any word, and the instr_t that they leave.
pub mod Jumps
use rvem.Common.{
  ℕ, ◌+◌, ◌%◌, ◌^◌, ◌<◌, ◌≡◌, refl, arith, Bool, true, false, not, ◌&&◌, ◌||◌, Option, none, some,
  ◌==◌, Bool-cases, inl, inr, if◌then◌else◌,
}
use rvem.Arch.{Xlen, bits, Config}
use rvem.Riscv.{
  MemOp, mem_of, branch_of, csr_imm, sys_of, get_rs1, get_rs2, get_rd, get_funct3, get_imm12,
  get_simm12, get_simm20, get_store_imm, get_branch_imm, get_jal_imm,
}
use rvem.Riscv.Fields.{get_rs1-lt, get_rs2-lt}
use rvem.Machine.{Machine, Instr, M, pure, ◌>>=◌, ◌>>◌, wrap}
use rvem.Machine.Safe.{Allows}
use rvem.Machine.Run.{get_reg-get}
use rvem.Machine.Steady.{
  Reaches, Steady, Any, steady_rules, steadily, bind-Steady, if-Steady, pure-Steady, set_reg-Steady,
  get_pc-Steady,
}
use rvem.Perf.{hazard, branch_taken, data_stall, branch_stall, load_branch_stall}
use rvem.Perf.Stalls.{stalled, hazard-stalled, branch_hazard-stalled}
use rvem.Bus.{in_ram, in_rom, bus_read, bus_write}
use rvem.Bus.RoundTrip.{IsStore}
use rvem.Bus.Load.{IsLoad}
use rvem.Bus.Timing.{is_unaligned, bus_read-Timed, bus_write-Timed}
use rvem.Exec.{
  instr_init, set_result, exec_rtype, exec_imm, exec_rtypew, exec_immw, exec_load, exec_store,
  exec_branch, branches,
}
use rvem.Exec.{exec_auipc, exec_lui, exec_jal, exec_jalr}

-- instr_t by the kind of instruction.
abbrev pub two_sources : ℕ → Instr
two_sources raw = record instr_init {
  rs1 = get_rs1 raw;
  rs2 = get_rs2 raw;
  rd = get_rd raw;
  is_reg_write = true;
}

abbrev pub one_source : (raw imms : ℕ) → Instr
one_source raw imms = record instr_init {
  rs1 = get_rs1 raw;
  rd = get_rd raw;
  is_reg_write = true;
  imms = imms;
}

abbrev pub load_instr : (raw imms : ℕ) → Instr
load_instr raw imms = record instr_init {
  rs1 = get_rs1 raw;
  rd = get_rd raw;
  is_reg_write = true;
  is_mem_load = true;
  imms = imms;
}

-- Of a store or a branch.
abbrev pub no_target : (raw imms : ℕ) → Instr
no_target raw imms = record instr_init { rs1 = get_rs1 raw; rs2 = get_rs2 raw; imms = imms }

abbrev pub no_source : (raw imms : ℕ) → Instr
no_source raw imms = record instr_init { rd = get_rd raw; is_reg_write = true; imms = imms }

set_result-Steady : (rd : ℕ) (r : Option ℕ) → Steady Any (set_result rd r)
unfolding set_result
set_result-Steady rd none = pure-Steady tt
set_result-Steady rd (some v) = set_reg-Steady rd v

-- PERF_MODEL_HAZARD before commands that take no cycles.
pub hazard-then :
    {A : Type 0} {R : A → Type 0} {m : M A} (instr : Instr) (s : Machine)
    → Steady R m
    → Allows
        (Reaches s.perf_model (stalled (data_stall s.perf_model instr) s.mcycle) R)
        ((hazard instr >> m) s)
hazard-then instr s steady = rw (hazard-stalled instr s) (steady.run _)

module _ (cfg : Config) (raw : ℕ) (s : Machine) where
  pub exec_rtype-Timed :
      Allows
        (Reaches s.perf_model
          (stalled (data_stall s.perf_model (two_sources raw)) s.mcycle)
          (λ i. i ≡ two_sources raw))
        (exec_rtype cfg raw s)
  unfolding exec_rtype
  exec_rtype-Timed =
      hazard-then (two_sources raw) s (search (steady_rules, set_result-Steady) depth 8)

  pub exec_rtypew-Timed :
      Allows
        (Reaches s.perf_model
          (stalled (data_stall s.perf_model (two_sources raw)) s.mcycle)
          (λ i. i ≡ two_sources raw))
        (exec_rtypew cfg raw s)
  unfolding exec_rtypew
  exec_rtypew-Timed =
      hazard-then (two_sources raw) s (search (steady_rules, set_result-Steady) depth 8)

  pub exec_imm-Timed :
      Allows
        (Reaches s.perf_model
          (stalled (data_stall s.perf_model (one_source raw (get_simm12 cfg.xlen raw))) s.mcycle)
          (λ i. i ≡ one_source raw (get_simm12 cfg.xlen raw)))
        (exec_imm cfg raw s)
  unfolding exec_imm
  exec_imm-Timed =
      hazard-then (one_source raw (get_simm12 cfg.xlen raw)) s
        (search (steady_rules, set_result-Steady) depth 8)

  pub exec_immw-Timed :
      Allows
        (Reaches s.perf_model
          (stalled (data_stall s.perf_model (one_source raw (get_simm12 cfg.xlen raw))) s.mcycle)
          (λ i. i ≡ one_source raw (get_simm12 cfg.xlen raw)))
        (exec_immw cfg raw s)
  unfolding exec_immw
  exec_immw-Timed =
      hazard-then (one_source raw (get_simm12 cfg.xlen raw)) s
        (search (steady_rules, set_result-Steady) depth 8)

  -- A load and a store wait for the data first, then for the access.
  pub exec_load-Timed :
      (op : MemOp) (at : ℕ)
      → IsLoad cfg.xlen op
      → mem_of (get_funct3 raw) ≡ op
      → wrap cfg.xlen (s.cpu.regfile (get_rs1 raw) + get_simm12 cfg.xlen raw) ≡ at
      → Allows
          (Reaches s.perf_model
            (stalled ((in_ram cfg.xlen at op || in_rom cfg.xlen at op) && is_unaligned op at) (
              stalled
                (data_stall s.perf_model (load_instr raw (get_simm12 cfg.xlen raw)))
                s.mcycle))
            (λ i. i ≡ load_instr raw (get_simm12 cfg.xlen raw)))
          (exec_load cfg raw s)
  unfolding exec_load
  exec_load-Timed op at l is addr =
      let instr = load_instr raw (get_simm12 cfg.xlen raw) in
      let u : Machine = record s { mcycle = stalled (data_stall s.perf_model instr) s.mcycle } in
      rw (hazard-stalled instr s, get_reg-get (get_rs1 raw) u (get_rs1-lt raw), is, addr)
        (steadily Any (λ i. i ≡ instr) s.perf_model _ (bus_read cfg.xlen at op u) _
          (bus_read-Timed cfg.xlen at op u l) (λ r. search (steady_rules, set_result-Steady)))

  pub exec_store-Timed :
      (op : MemOp) (at : ℕ)
      → IsStore cfg.xlen op
      → mem_of (get_funct3 raw) ≡ op
      → wrap cfg.xlen (s.cpu.regfile (get_rs1 raw) + get_store_imm cfg.xlen raw) ≡ at
      → Allows
          (Reaches s.perf_model
            (stalled (in_ram cfg.xlen at op && is_unaligned op at) (
              stalled
                (data_stall s.perf_model (no_target raw (get_store_imm cfg.xlen raw)))
                s.mcycle))
            (λ i. i ≡ no_target raw (get_store_imm cfg.xlen raw)))
          (exec_store cfg raw s)
  unfolding exec_store
  exec_store-Timed op at l is addr =
      let instr = no_target raw (get_store_imm cfg.xlen raw) in
      let u : Machine = record s { mcycle = stalled (data_stall s.perf_model instr) s.mcycle } in
      rw
        (
          hazard-stalled instr s,
          get_reg-get (get_rs1 raw) u (get_rs1-lt raw),
          get_reg-get (get_rs2 raw) u (get_rs2-lt raw),
          is,
          addr,
        )
        (steadily Any (λ i. i ≡ instr) s.perf_model _
          (bus_write cfg.xlen at op (s.cpu.regfile (get_rs2 raw)) u) _
          (bus_write-Timed cfg.xlen at op (s.cpu.regfile (get_rs2 raw)) u l)
          (λ r. search steady_rules))
