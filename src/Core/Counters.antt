-- ===== src/Core/Counters.antt =====
-- The CSR instructions of OP_SYS, from the encodings to the state after them.
use rvem.Common.{
  ℕ, ◌+◌, ◌^◌, ◌<◌, ◌≡◌, refl, arith, ap, ◌∙◌, Bool, true, false, not, ◌&&◌, Option, some, ◌==◌,
  if◌then◌else◌, Bool-cases, ◌⊎◌, inl, inr, ◌%◌,
}
use rvem.Common.Word.{u64}
use rvem.Arch.{Config}
use rvem.Riscv.{Opcode, opcode_of, get_opcode, SysOp, get_imm12}
use rvem.Riscv.Decode.{IFields, i_type-IFields}
use rvem.Machine.{Machine, wrap, pure, tick}
use rvem.Machine.Safe.{Ensures, Ensures_mono}
use rvem.Machine.Run.{written, get_reg-get, set_reg-written}
use rvem.Perf.{hazard, data_stall, reads, get_model}
use rvem.Csr.{csr_of, csr_value, read_csr, write_csr}
use rvem.Exec.System.{exec_sys, system, csr_write, csr_modify, csr_target}
use rvem.Core.{Outcome, outcome, execute, process_instr}
use rvem.Core.Retire.{Retires, retire, retire_still, process_instr-ended}
use rvem.Core.System.{sys_instr, get_imm12-div}
use rvem.Core.CsrWords.{
  IsCsrOp, csr_funct3, has_immediate, csr_word, read_cycle, csr_funct3-lt, csr_imm-code, csr_shows,
  csr_value-csr_shows, sys_of-code,
}

csr_target-runs :
    (b : Bool) (rs1 : ℕ) (s : Machine) → rs1 < 32 → (v : ℕ) × (csr_target b rs1 s ≡ some (v, s))
unfolding csr_target
csr_target-runs true rs1 s h = (rs1, refl)
csr_target-runs false rs1 s h = (s.cpu.regfile rs1, get_reg-get rs1 s h)

-- PERF_MODEL_HAZARD on an instruction that reads one register at most.
one_stall :
    (rs1 rd csr : ℕ) (s : Machine)
    → hazard (sys_instr rs1 rd csr) s
      ≡ some (
        tt,
        record s {
          mcycle =
              if s.perf_model.prev_mem_load && not (rs1 == 0) && rs1 == s.perf_model.prev_rd
              then u64 (s.mcycle + 1)
              else s.mcycle;
        },
      )
unfolding hazard get_model data_stall reads tick
one_stall rs1 rd csr s = ground arith

stall :
    (op : SysOp) (rs1 rd csr : ℕ) (s : Machine)
    → (if has_immediate op then pure tt else hazard (sys_instr rs1 rd csr)) s
      ≡ some (tt, record s { mcycle = read_cycle s op rs1 })
stall op rs1 rd csr s = elim (Bool-cases (has_immediate op)) [
  | inl e ↦ rw e refl
  | inr e ↦ rw e (one_stall rs1 rd csr s)
]

-- The state after a case of the switch: rd holds v, or nothing has changed and rd is x0.
abbrev After : (s : Machine) (rd v : ℕ) (r : Option (Bool × Machine)) → Type 0
After s rd v r = (r ≡ some (true, written s s.mcycle rd v)) ⊎ ((rd ≡ 0) × (r ≡ some (true, s)))

module _ (cfg : Config) (s : Machine) (b : Bool) (rs1 rd csr : ℕ) (h1 : rs1 < 32)
    (hd : rd < 32) where
  abbrev value : ℕ
  value = csr_value cfg.xlen (csr_of cfg.xlen csr) s

  write-After : After s rd value (csr_write cfg b (sys_instr rs1 rd csr) s)
  unfolding csr_write read_csr write_csr
  write-After =
      let (v, target) = csr_target-runs b rs1 s h1 in
      elim (Bool-cases (rd == 0)) [
        | inl e ↦ inr (ground arith, rw (target, e))
        | inr e ↦ inl (rw (target, e, set_reg-written rd value s hd))
      ]

  modify-After : (f : ℕ → ℕ → ℕ) → After s rd value (csr_modify cfg b (sys_instr rs1 rd csr) f s)
  unfolding csr_modify read_csr write_csr
  modify-After f =
      let (v, target) = csr_target-runs b rs1 s h1 in
      elim (Bool-cases (rs1 == 0)) [
        | inl e ↦ inl (rw (target, set_reg-written rd value s hd, e))
        | inr e ↦ inl (rw (target, set_reg-written rd value s hd, e))
      ]

  system-After :
      (op : SysOp) → IsCsrOp op → After s rd value (system cfg b (sys_instr rs1 rd csr) op s)
  unfolding system
  system-After SysOp.csr_rw i = write-After
  system-After SysOp.csr_rwi i = write-After
  system-After SysOp.csr_rs i = modify-After _
  system-After SysOp.csr_rsi i = modify-After _
  system-After SysOp.csr_rc i = modify-After _
  system-After SysOp.csr_rci i = modify-After _
  system-After SysOp.esys i = absurd i
  system-After SysOp.none i = absurd i

as_x0 :
    (s : Machine) (rd v pc : ℕ)
    → rd ≡ 0
    → (c : Bool) (t : Machine) → Retires s 0 0 pc c t
    → Retires s rd v pc c t
as_x0 s rd v pc e c t r = record {
  continues = r.continues;
  next_pc = r.next_pc;
  registers = λ i. r.registers i ∙ ground arith;
  same_ram = r.same_ram;
  same_rom = r.same_rom;
  same_output = r.same_output;
}

-- A CSR instruction that finds mcycle at k: the value goes to rd, and the counters count the
-- instruction and nothing else.
pub record ReadsCsr (s : Machine) (rd v pc k : ℕ) (continue : Bool) (t : Machine) : Type 0 where
  pub retires : Retires s rd v pc continue t
  pub counted_cycle : t.mcycle ≡ (k + 1) % 2 ^ 64
  pub counted_instr : t.minstret ≡ (s.minstret + 1) % 2 ^ 64

-- The end of a CSR instruction: what it leaves in the counters, with what it does to the rest.
ends_csr :
    (cfg : Config) (raw : ℕ) (s u : Machine) (out : Outcome) (rd v pc k : ℕ)
    → opcode_of cfg.xlen (get_opcode raw) ≡ Opcode.sys
    → execute cfg raw (wrap cfg.xlen (s.cpu.pc + 4)) Opcode.sys s ≡ some (out, u)
    → u.mcycle ≡ k
    → u.minstret ≡ s.minstret
    → Ensures (Retires s rd v pc) (process_instr cfg raw s)
    → Ensures (ReadsCsr s rd v pc k) (process_instr cfg raw s)
ends_csr cfg raw s u out rd v pc k e runs cycles instrs retires =
    let ended_is = process_instr-ended cfg raw s Opcode.sys out u e runs in
    rw ended_is (record {
      retires = rw ended_is at retires;
      counted_cycle = ap (λ (n : ℕ). (n + 1) % 2 ^ 64) cycles;
      counted_instr = ap (λ (n : ℕ). (n + 1) % 2 ^ 64) instrs;
    })

module _ (cfg : Config) (op : SysOp) (csr rd rs1 : ℕ) (s : Machine) (i : IsCsrOp op)
    (hc : csr < 2 ^ 12) (hd : rd < 32) (h1 : rs1 < 32) where
  abbrev word : ℕ
  word = csr_word op csr rd rs1

  abbrev stalled : Machine
  stalled = record s { mcycle = read_cycle s op rs1 }

  fields : IFields csr rs1 (csr_funct3 op) rd 0x73 word
  fields = i_type-IFields csr rs1 (csr_funct3 op) rd 0x73 hc h1 (csr_funct3-lt op) hd (omega arith)

  is_sys : opcode_of cfg.xlen (get_opcode word) ≡ Opcode.sys
  unfolding opcode_of
  is_sys = ap (opcode_of cfg.xlen) fields.opcode_is

  imm : get_imm12 word ≡ csr
  imm = omega (arith, get_imm12-div word, csr_funct3-lt op)

  abbrev out : Outcome
  out = outcome (sys_instr rs1 rd csr) (wrap cfg.xlen (s.cpu.pc + 4)) true

  execute-runs :
      (u : Machine)
      → system cfg (has_immediate op) (sys_instr rs1 rd csr) op stalled ≡ some (true, u)
      → execute cfg word (wrap cfg.xlen (s.cpu.pc + 4)) Opcode.sys s ≡ some (out, u)
  unfolding execute exec_sys
  execute-runs u runs = rw (
    fields.rs1_is,
    fields.rd_is,
    fields.funct3_is,
    imm,
    csr_imm-code op i,
    sys_of-code op,
    stall op rs1 rd csr s,
    runs,
  )

  reads_csr :
      Ensures
        (ReadsCsr s rd
          (csr_value cfg.xlen (csr_of cfg.xlen csr) stalled)
          out.next_pc
          (read_cycle s op rs1))
        (process_instr cfg word s)
  reads_csr =
      let k : ℕ = read_cycle s op rs1 in
      let v : ℕ = csr_value cfg.xlen (csr_of cfg.xlen csr) stalled in
      elim (system-After cfg stalled (has_immediate op) rs1 rd csr h1 hd op i) [
        | inl runs ↦
            let e = execute-runs (written s k rd v) runs in
            ends_csr cfg word s (written s k rd v) out rd v out.next_pc k is_sys e refl refl
              (retire cfg word s Opcode.sys out k rd v is_sys refl e)
        | inr (x0, runs) ↦
            let e = execute-runs stalled runs in
            ends_csr cfg word s stalled out rd v out.next_pc k is_sys e refl refl (
              Ensures_mono _ _ (process_instr cfg word s) (as_x0 s rd v out.next_pc x0)
                (retire_still cfg word s Opcode.sys out k is_sys refl e))
      ]

-- The word of CSRRW, CSRRS, CSRRC, CSRRWI, CSRRSI or CSRRCI leaves in rd the counter that the
-- manual gives the CSR number, zero for another number, as it is after the stall where rs1 is the
-- destination of the load before; whatever rs1 holds, mcycle ends at that count and one more and
-- minstret has grown by one, modulo 2 ^ 64, so that nothing is written to a counter. It changes no
-- other register and no memory, prints nothing, and goes on to the next instruction; x0 is 0 after
-- it. It asks for a CSR number of 12 bits and for rd, rs1 < 32.
pub process_instr-csr :
    (cfg : Config) (op : SysOp) (csr rd rs1 : ℕ) (s : Machine)
    → IsCsrOp op
    → csr < 2 ^ 12
    → rd < 32
    → rs1 < 32
    → Ensures
        (ReadsCsr s rd
          (csr_shows cfg.xlen csr (read_cycle s op rs1) s.minstret)
          (wrap cfg.xlen (s.cpu.pc + 4))
          (read_cycle s op rs1))
        (process_instr cfg (csr_word op csr rd rs1) s)
process_instr-csr cfg op csr rd rs1 s i hc hd h1 =
    rw (csr_value-csr_shows cfg.xlen csr (record s { mcycle = read_cycle s op rs1 })) at
      (reads_csr cfg op csr rd rs1 s i hc hd h1)
