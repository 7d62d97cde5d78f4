-- ===== src/Core/Stores.antt =====
-- OP_STORE, from the encodings to the state after it.
use rvem.Common.{
  ℕ, suc, ◌+◌, ◌-◌, ◌^◌, ◌<◌, ◌≡◌, refl, arith, ap, Bool, true, false, ◌∷◌, if◌then◌else◌,
}
use rvem.Common.Word.{sign_extend}
use rvem.Arch.{Xlen, bits, Config, ram_start}
use rvem.Riscv.{Opcode, opcode_of, MemOp}
use rvem.Riscv.Encode.{s_type}
use rvem.Riscv.Decode.{s_type-SFields}
use rvem.Riscv.Immediates.{get_store_imm-s_type}
use rvem.Machine.{Machine, Instr, Event, unmapped_write, rom_write, wrap, update}
use rvem.Machine.Safe.{Ensures}
use rvem.Machine.Run.{get_reg-get}
use rvem.Perf.Laws.{hazard-mcycle}
use rvem.Bus.{range, in_ram, in_rom}
use rvem.Bus.RoundTrip.{IsStore}
use rvem.Bus.Outside.{write_outside}
use rvem.Bus.Store.{stored, with_ram, bus_write-stored}
use rvem.Alu.Laws.{wrap-lt}
use rvem.Exec.{exec_store, instr_init}
use rvem.Core.{outcome, execute, process_instr}
use rvem.Core.Retire.{process_instr-ended}
use rvem.Core.Memory.{load_funct3, load_funct3-lt, mem_of-code, address, Ignores}

abbrev pub store_word : (op : MemOp) (rs2 rs1 imm : ℕ) → ℕ
store_word op rs2 rs1 imm = s_type imm rs2 rs1 (load_funct3 op) 0x23

abbrev store_instr : (rs1 rs2 imm : ℕ) → Instr
store_instr rs1 rs2 imm = record instr_init { rs1 = rs1; rs2 = rs2; imms = imm }

-- After a store of the low bytes of val at index p of the RAM.
pub record Stores (x : Xlen) (s : Machine) (op : MemOp) (p val pc : ℕ) (continue : Bool)
    (t : Machine) : Type 0 where
  pub continues : continue ≡ true
  pub next_pc : t.cpu.pc ≡ pc
  pub registers : (i : ℕ) → t.cpu.regfile i ≡ update s.cpu.regfile 0 0 i
  pub ram : (j : ℕ) → t.cpu.ram j ≡ stored s.cpu.ram p (suc (range x op)) val j
  pub same_rom : t.cpu.rom ≡ s.cpu.rom
  pub same_output : t.output ≡ s.output

module _ (cfg : Config) (s : Machine) (op : MemOp) (rs1 imm : ℕ) (h1 : rs1 < 32)
    (hi : imm < 2 ^ 12) where
  -- The word of a store leaves the low bytes of rs2, as many as the width has and the lowest first,
  -- in the RAM at rs1 plus the sign-extended immediate, changes no other byte of the RAM, no
  -- register but x0, which is 0 after it, and not the ROM, prints nothing, and goes on to the next
  -- instruction. It asks for an operation of the width, an address of the RAM, rs1, rs2 < 32 and an
  -- immediate of 12 bits.
  pub process_instr-store :
      (rs2 : ℕ)
      → rs2 < 32
      → IsStore cfg.xlen op
      → in_ram cfg.xlen (address cfg.xlen s rs1 imm) op ≡ true
      → Ensures
          (Stores cfg.xlen s op
            (address cfg.xlen s rs1 imm - ram_start)
            (s.cpu.regfile rs2)
            (wrap cfg.xlen (s.cpu.pc + 4)))
          (process_instr cfg (store_word op rs2 rs1 imm) s)
  unfolding opcode_of execute exec_store
  process_instr-store rs2 h2 store ram =
      let raw : ℕ = store_word op rs2 rs1 imm in
      let f =
        s_type-SFields imm rs2 rs1 (load_funct3 op) 0x23 hi h2 h1 (load_funct3-lt op)
          (omega arith) in
      let simm =
        get_store_imm-s_type cfg.xlen imm rs2 rs1 (load_funct3 op) 0x23 hi h2 h1 (load_funct3-lt op)
          (omega arith) in
      let instr : Instr = store_instr rs1 rs2 (sign_extend 12 (bits cfg.xlen) imm) in
      let (k, stalls) = hazard-mcycle instr s in
      let at : ℕ = address cfg.xlen s rs1 imm in
      let u : Machine = record s { mcycle = k } in
      let (l, writes) =
        bus_write-stored cfg.xlen at (s.cpu.regfile rs2) u op store (wrap-lt cfg.xlen _) ram in
      let g = stored s.cpu.ram (at - ram_start) (suc (range cfg.xlen op)) (s.cpu.regfile rs2) in
      let out = outcome instr (wrap cfg.xlen (s.cpu.pc + 4)) true in
      rw
        (process_instr-ended cfg raw s Opcode.store out (with_ram u l g)
          (ap (opcode_of cfg.xlen) f.opcode_is)
          (rw (
            f.rs1_is,
            f.rs2_is,
            simm,
            f.funct3_is,
            mem_of-code op,
            stalls,
            get_reg-get rs1 u h1,
            get_reg-get rs2 u h2,
            writes,
          )))
        (record {
          continues = refl;
          next_pc = refl;
          registers = λ i. refl;
          ram = λ j. refl;
          same_rom = refl;
          same_output = refl;
        })

  -- The word of a store to an address outside the RAM prints a message, which tells the ROM from
  -- the unmapped addresses, changes no register and no memory, and goes on to the next instruction.
  -- It asks for rs1, rs2 < 32 and an immediate of 12 bits.
  pub process_instr-store_outside :
      (rs2 : ℕ)
      → rs2 < 32
      → in_ram cfg.xlen (address cfg.xlen s rs1 imm) op ≡ false
      → Ensures
          (Ignores s
            (if in_rom cfg.xlen (address cfg.xlen s rs1 imm) op
              then rom_write (address cfg.xlen s rs1 imm)
              else unmapped_write (address cfg.xlen s rs1 imm))
            (wrap cfg.xlen (s.cpu.pc + 4)))
          (process_instr cfg (store_word op rs2 rs1 imm) s)
  unfolding opcode_of execute exec_store
  process_instr-store_outside rs2 h2 outside =
      let raw : ℕ = store_word op rs2 rs1 imm in
      let f =
        s_type-SFields imm rs2 rs1 (load_funct3 op) 0x23 hi h2 h1 (load_funct3-lt op)
          (omega arith) in
      let simm =
        get_store_imm-s_type cfg.xlen imm rs2 rs1 (load_funct3 op) 0x23 hi h2 h1 (load_funct3-lt op)
          (omega arith) in
      let instr : Instr = store_instr rs1 rs2 (sign_extend 12 (bits cfg.xlen) imm) in
      let (k, stalls) = hazard-mcycle instr s in
      let at : ℕ = address cfg.xlen s rs1 imm in
      let u : Machine = record s { mcycle = k } in
      let message : Event = if in_rom cfg.xlen at op then rom_write at else unmapped_write at in
      rw
        (process_instr-ended cfg raw s Opcode.store
          (outcome instr (wrap cfg.xlen (s.cpu.pc + 4)) true)
          (record u { output = message ∷ u.output }) (ap (opcode_of cfg.xlen) f.opcode_is)
          (rw (
            f.rs1_is,
            f.rs2_is,
            simm,
            f.funct3_is,
            mem_of-code op,
            stalls,
            get_reg-get rs1 u h1,
            get_reg-get rs2 u h2,
            write_outside cfg.xlen at op (s.cpu.regfile rs2) u outside,
          )))
        (record {
          continues = refl;
          next_pc = refl;
          registers = λ i. refl;
          same_ram = refl;
          same_rom = refl;
          printed = refl;
        })
