-- ===== src/Core/Memory.antt =====
-- OP_LOAD, from the encodings to the state after it.
use rvem.Common.{ℕ, ◌+◌, ◌^◌, ◌<◌, ◌≡◌, refl, arith, ap, Bool, true, false, ◌||◌, ◌∷◌}
use rvem.Common.Word.{sign_extend}
use rvem.Arch.{Xlen, bits, Config}
use rvem.Riscv.{Opcode, opcode_of, MemOp, mem_of}
use rvem.Riscv.Encode.{i_type}
use rvem.Riscv.Decode.{i_type-IFields}
use rvem.Riscv.Immediates.{get_simm12-i_type}
use rvem.Machine.{Machine, Instr, Event, unmapped_read, wrap, update}
use rvem.Machine.Safe.{Ensures, IsValid}
use rvem.Machine.Run.{get_reg-get, set_reg-written}
use rvem.Perf.Laws.{hazard-mcycle}
use rvem.Bus.{in_ram, in_rom}
use rvem.Bus.Load.{IsLoad, bus_value, bus_read-value}
use rvem.Bus.Outside.{read_outside}
use rvem.Alu.Laws.{wrap-lt}
use rvem.Exec.{exec_load, set_result, instr_init}
use rvem.Core.{outcome, execute, process_instr}
use rvem.Core.Retire.{Retires, retire, process_instr-ended}

abbrev pub load_funct3 : MemOp → ℕ
load_funct3 MemOp.b = 0
load_funct3 MemOp.h = 1
load_funct3 MemOp.w = 2
load_funct3 MemOp.d = 3
load_funct3 MemOp.bu = 4
load_funct3 MemOp.hu = 5
load_funct3 MemOp.wu = 6
load_funct3 MemOp.none = 7

pub load_funct3-lt : (op : MemOp) → load_funct3 op < 8
load_funct3-lt MemOp.b = omega arith
load_funct3-lt _ = omega arith

pub mem_of-code : (op : MemOp) → mem_of (load_funct3 op) ≡ op
unfolding mem_of
mem_of-code MemOp.b = refl
mem_of-code _ = refl

-- The address of an access.
abbrev pub address : Xlen → Machine → (rs1 imm : ℕ) → ℕ
address x s rs1 imm = wrap x (s.cpu.regfile rs1 + sign_extend 12 (bits x) imm)

abbrev pub load_word : (op : MemOp) (rd rs1 imm : ℕ) → ℕ
load_word op rd rs1 imm = i_type imm rs1 (load_funct3 op) rd 0x03

abbrev load_instr : (rs1 rd imm : ℕ) → Instr
load_instr rs1 rd imm = record instr_init {
  rs1 = rs1;
  rd = rd;
  is_reg_write = true;
  is_mem_load = true;
  imms = imm;
}

-- After an access that has printed a message only.
pub record Ignores (s : Machine) (message : Event) (pc : ℕ) (continue : Bool) (t : Machine)
    : Type 0 where
  pub continues : continue ≡ true
  pub next_pc : t.cpu.pc ≡ pc
  pub registers : (i : ℕ) → t.cpu.regfile i ≡ update s.cpu.regfile 0 0 i
  pub same_ram : t.cpu.ram ≡ s.cpu.ram
  pub same_rom : t.cpu.rom ≡ s.cpu.rom
  pub printed : t.output ≡ message ∷ s.output

module _ (cfg : Config) (s : Machine) (op : MemOp) (rs1 imm : ℕ) (h1 : rs1 < 32)
    (hi : imm < 2 ^ 12) where
  -- The word of a load leaves the value that the bus gives at rs1 plus the sign-extended immediate
  -- in rd, changes no other register and no memory, prints nothing, and goes on to the next
  -- instruction; x0 is 0 after it. It asks for a valid state, an operation of the width, an address of the RAM or of
  -- the ROM, rd, rs1 < 32 and an immediate of 12 bits.
  pub process_instr-load :
      (rd : ℕ)
      → rd < 32
      → IsLoad cfg.xlen op
      → IsValid cfg.xlen s
      → (in_ram cfg.xlen (address cfg.xlen s rs1 imm) op
          || in_rom cfg.xlen (address cfg.xlen s rs1 imm) op)
        ≡ true
      → Ensures
          (Retires s rd
            (bus_value cfg.xlen (address cfg.xlen s rs1 imm) op s)
            (wrap cfg.xlen (s.cpu.pc + 4)))
          (process_instr cfg (load_word op rd rs1 imm) s)
  unfolding opcode_of execute exec_load set_result
  process_instr-load rd hd load v mapped =
      let raw : ℕ = load_word op rd rs1 imm in
      let f =
        i_type-IFields imm rs1 (load_funct3 op) rd 0x03 hi h1 (load_funct3-lt op) hd
          (omega arith) in
      let simm =
        get_simm12-i_type cfg.xlen imm rs1 (load_funct3 op) rd 0x03 hi h1 (load_funct3-lt op) hd
          (omega arith) in
      let instr : Instr = load_instr rs1 rd (sign_extend 12 (bits cfg.xlen) imm) in
      let (k, stalls) = hazard-mcycle instr s in
      let at : ℕ = address cfg.xlen s rs1 imm in
      let (l, reads) =
        bus_read-value cfg.xlen at op (record s { mcycle = k }) load (wrap-lt cfg.xlen _) mapped
          v.ram_bytes v.rom_bytes in
      let value : ℕ = bus_value cfg.xlen at op s in
      retire cfg raw s Opcode.load (outcome instr (wrap cfg.xlen (s.cpu.pc + 4)) true) l rd value
        (ap (opcode_of cfg.xlen) f.opcode_is) refl
        (rw (
          f.rs1_is,
          f.rd_is,
          simm,
          f.funct3_is,
          mem_of-code op,
          stalls,
          get_reg-get rs1 (record s { mcycle = k }) h1,
          reads,
          set_reg-written rd value (record s { mcycle = l }) hd,
        ))

  -- The word of a load from an address of neither array prints a message with the address, leaves
  -- rd and every other register but x0, which is 0 after it, as they were, changes no memory, and
  -- goes on to the next instruction. It asks for rd, rs1 < 32 and an immediate of 12 bits.
  pub process_instr-load_unmapped :
      (rd : ℕ)
      → rd < 32
      → (in_ram cfg.xlen (address cfg.xlen s rs1 imm) op
          || in_rom cfg.xlen (address cfg.xlen s rs1 imm) op)
        ≡ false
      → Ensures
          (Ignores s (unmapped_read (address cfg.xlen s rs1 imm)) (wrap cfg.xlen (s.cpu.pc + 4)))
          (process_instr cfg (load_word op rd rs1 imm) s)
  unfolding opcode_of execute exec_load set_result
  process_instr-load_unmapped rd hd outside =
      let raw : ℕ = load_word op rd rs1 imm in
      let f =
        i_type-IFields imm rs1 (load_funct3 op) rd 0x03 hi h1 (load_funct3-lt op) hd
          (omega arith) in
      let simm =
        get_simm12-i_type cfg.xlen imm rs1 (load_funct3 op) rd 0x03 hi h1 (load_funct3-lt op) hd
          (omega arith) in
      let instr : Instr = load_instr rs1 rd (sign_extend 12 (bits cfg.xlen) imm) in
      let (k, stalls) = hazard-mcycle instr s in
      let at : ℕ = address cfg.xlen s rs1 imm in
      let u : Machine = record s { mcycle = k } in
      rw
        (process_instr-ended cfg raw s Opcode.load
          (outcome instr (wrap cfg.xlen (s.cpu.pc + 4)) true)
          (record u { output = unmapped_read at ∷ u.output }) (ap (opcode_of cfg.xlen) f.opcode_is)
          (rw (
            f.rs1_is,
            f.rd_is,
            simm,
            f.funct3_is,
            mem_of-code op,
            stalls,
            get_reg-get rs1 u h1,
            read_outside cfg.xlen at op u outside,
          )))
        (record {
          continues = refl;
          next_pc = refl;
          registers = λ i. refl;
          same_ram = refl;
          same_rom = refl;
          printed = refl;
        })
