-- ===== src/Core/Retire.antt =====
-- From the cases of the switch to the state after process_instr, for instructions that write one
-- register.
use rvem.Common.{ℕ, ◌+◌, ◌≡◌, refl, arith, Bool, true, ◌&&◌, some, ◌==◌, if◌then◌else◌}
use rvem.Common.Word.{u64}
use rvem.Arch.{Config}
use rvem.Riscv.{
  Opcode, opcode_of, get_opcode, alu_of, mul_of, get_rs1, get_rs2, get_rd, get_funct3,
  check_funct7_bit0, check_funct7_bit5, get_simm12,
}
use rvem.Riscv.Fields.{get_rs1-lt, get_rs2-lt, get_rd-lt}
use rvem.Machine.{Machine, Instr, wrap, update, get_pc}
use rvem.Machine.Safe.{Ensures}
use rvem.Machine.Run.{written, get_reg-get, set_reg-written}
use rvem.Perf.{cycle}
use rvem.Perf.Laws.{hazard-mcycle}
use rvem.Alu.{alu, alu_imm, mul_div}
use rvem.Exec.{exec_rtype, exec_imm, set_result, alu_op, instr_init}
use rvem.Core.{Outcome, outcome, execute, commit, process_instr}

-- The instruction goes on to pc, and writes v to rd unless rd is x0; the memories, the other
-- registers and the output are as before.
pub record Retires (s : Machine) (rd v pc : ℕ) (continue : Bool) (t : Machine) : Type 0 where
  pub continues : continue ≡ true
  pub next_pc : t.cpu.pc ≡ pc
  pub registers :
      (i : ℕ) → t.cpu.regfile i ≡ (if i == 0 then 0 else if i == rd then v else s.cpu.regfile i)
  pub same_ram : t.cpu.ram ≡ s.cpu.ram
  pub same_rom : t.cpu.rom ≡ s.cpu.rom
  pub same_output : t.output ≡ s.output

-- PERF_MODEL_CYCLE and the two assignments at the end, on the state that the switch leaves.
abbrev pub ended : Outcome → Machine → Machine
ended out u = record u {
  mcycle = u64 (u.mcycle + 1);
  minstret = u64 (u.minstret + 1);
  perf_model = record {
    prev_rd = out.instr.rd;
    prev2_rd = u.perf_model.prev_rd;
    prev_mem_load = out.instr.is_mem_load;
    prev2_mem_load = u.perf_model.prev_mem_load;
    prev_reg_write = out.instr.is_reg_write;
  };
  cpu = record (u.cpu) { pc = out.next_pc; regfile = update u.cpu.regfile 0 0 };
}

module _ (cfg : Config) (raw : ℕ) (s : Machine) where
  -- The whole of process_instr, from the switch.
  pub process_instr-ended :
      (op : Opcode) (out : Outcome) (u : Machine)
      → opcode_of cfg.xlen (get_opcode raw) ≡ op
      → execute cfg raw (wrap cfg.xlen (s.cpu.pc + 4)) op s ≡ some (out, u)
      → process_instr cfg raw s ≡ some (out.exec_continue, ended out u)
  unfolding process_instr get_pc cycle commit
  process_instr-ended op out u e runs = rw (e, runs)

  -- From the switch to the end of process_instr.
  pub retire :
      (op : Opcode) (out : Outcome) (k rd v : ℕ)
      → opcode_of cfg.xlen (get_opcode raw) ≡ op
      → out.exec_continue ≡ true
      → execute cfg raw (wrap cfg.xlen (s.cpu.pc + 4)) op s ≡ some (out, written s k rd v)
      → Ensures (Retires s rd v out.next_pc) (process_instr cfg raw s)
  unfolding process_instr get_pc cycle commit update
  retire op out k rd v e goes runs =
      rw (e, runs)
        (record {
          continues = goes;
          next_pc = refl;
          registers = λ i. refl;
          same_ram = refl;
          same_rom = refl;
          same_output = refl;
        })

  -- The same where the switch writes no register.
  pub retire_still :
      (op : Opcode) (out : Outcome) (k : ℕ)
      → opcode_of cfg.xlen (get_opcode raw) ≡ op
      → out.exec_continue ≡ true
      → execute cfg raw (wrap cfg.xlen (s.cpu.pc + 4)) op s ≡ some (out, record s { mcycle = k })
      → Ensures (Retires s 0 0 out.next_pc) (process_instr cfg raw s)
  unfolding process_instr get_pc cycle commit update
  retire_still op out k e goes runs =
      rw (e, runs)
        (record {
          continues = goes;
          next_pc = refl;
          registers = λ i. ground arith;
          same_ram = refl;
          same_rom = refl;
          same_output = refl;
        })

  -- A register instruction whose operation gives v.
  rtype_instr : Instr
  rtype_instr = record instr_init {
    rs1 = get_rs1 raw;
    rs2 = get_rs2 raw;
    rd = get_rd raw;
    is_reg_write = true;
  }

  exec_rtype-runs :
      (v : ℕ)
      → (if cfg.m_ext && check_funct7_bit0 raw
          then mul_div cfg
              (mul_of (get_funct3 raw))
              (s.cpu.regfile (get_rs1 raw))
              (s.cpu.regfile (get_rs2 raw))
          else alu cfg.xlen
              (alu_op raw)
              (s.cpu.regfile (get_rs1 raw))
              (s.cpu.regfile (get_rs2 raw)))
        ≡ some v
      → (k : ℕ) × (exec_rtype cfg raw s ≡ some (rtype_instr, written s k (get_rd raw) v))
  unfolding exec_rtype set_result rtype_instr
  exec_rtype-runs v gives =
      let (k, stalls) = hazard-mcycle rtype_instr s in
      (
        k,
        rw (
          stalls,
          get_reg-get (get_rs1 raw) (record s { mcycle = k }) (get_rs1-lt raw),
          get_reg-get (get_rs2 raw) (record s { mcycle = k }) (get_rs2-lt raw),
          gives,
          set_reg-written (get_rd raw) v (record s { mcycle = k }) (get_rd-lt raw),
        ),
      )

  pub rtype-Retires :
      (v : ℕ)
      → opcode_of cfg.xlen (get_opcode raw) ≡ Opcode.rtype
      → (if cfg.m_ext && check_funct7_bit0 raw
          then mul_div cfg
              (mul_of (get_funct3 raw))
              (s.cpu.regfile (get_rs1 raw))
              (s.cpu.regfile (get_rs2 raw))
          else alu cfg.xlen
              (alu_op raw)
              (s.cpu.regfile (get_rs1 raw))
              (s.cpu.regfile (get_rs2 raw)))
        ≡ some v
      → Ensures (Retires s (get_rd raw) v (wrap cfg.xlen (s.cpu.pc + 4))) (process_instr cfg raw s)
  unfolding execute
  rtype-Retires v e gives =
      let (k, runs) = exec_rtype-runs v gives in
      retire Opcode.rtype (outcome rtype_instr (wrap cfg.xlen (s.cpu.pc + 4)) true) k (get_rd raw) v
        e refl (rw runs)

  -- An immediate instruction whose operation gives v.
  imm_instr : Instr
  imm_instr = record instr_init {
    rs1 = get_rs1 raw;
    rd = get_rd raw;
    is_reg_write = true;
    imms = get_simm12 cfg.xlen raw;
  }

  exec_imm-runs :
      (v : ℕ)
      → alu_imm cfg.xlen
          (check_funct7_bit5 raw)
          (alu_of (get_funct3 raw))
          (s.cpu.regfile (get_rs1 raw))
          (get_simm12 cfg.xlen raw)
        ≡ some v
      → (k : ℕ) × (exec_imm cfg raw s ≡ some (imm_instr, written s k (get_rd raw) v))
  unfolding exec_imm set_result imm_instr
  exec_imm-runs v gives =
      let (k, stalls) = hazard-mcycle imm_instr s in
      (
        k,
        rw (
          stalls,
          get_reg-get (get_rs1 raw) (record s { mcycle = k }) (get_rs1-lt raw),
          gives,
          set_reg-written (get_rd raw) v (record s { mcycle = k }) (get_rd-lt raw),
        ),
      )

  pub imm-Retires :
      (v : ℕ)
      → opcode_of cfg.xlen (get_opcode raw) ≡ Opcode.imm
      → alu_imm cfg.xlen
          (check_funct7_bit5 raw)
          (alu_of (get_funct3 raw))
          (s.cpu.regfile (get_rs1 raw))
          (get_simm12 cfg.xlen raw)
        ≡ some v
      → Ensures (Retires s (get_rd raw) v (wrap cfg.xlen (s.cpu.pc + 4))) (process_instr cfg raw s)
  unfolding execute
  imm-Retires v e gives =
      let (k, runs) = exec_imm-runs v gives in
      retire Opcode.imm (outcome imm_instr (wrap cfg.xlen (s.cpu.pc + 4)) true) k (get_rd raw) v e
        refl (rw runs)
