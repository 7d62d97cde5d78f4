-- ===== src/Isa/Hart.antt =====
-- The state that a program sees, and what each instruction of the manual does to it.
use rvem.Common.{
  ℕ, suc, ◌+◌, ◌-◌, ◌*◌, ◌%◌, ◌^◌, ◌≡◌, Bool, true, false, List, ◌∷◌, ◌==◌, if◌then◌else◌,
}
use rvem.Common.Word.{sign_extend}
use rvem.Arch.{Xlen, rv32, bits, ram_start}
use rvem.Riscv.{AluOp, MemOp}
use rvem.Machine.{Machine, Event, breakpoint, unmapped_read, unmapped_write, rom_write, wrap}
use rvem.Bus.{range, in_ram, in_rom}
use rvem.Bus.Load.{loaded_value}
use rvem.Bus.Store.{stored}
use rvem.Alu.Spec.{result}
use rvem.Alu.Product.{IsMulDiv}
use rvem.Alu.WordSpec.{word_result}
use rvem.Core.Jumps.{holds}
use rvem.Core.System.{request}
use rvem.Isa.{
  Instruction, alu, alu_imm, shift_imm, mul_div, alu_word, mul_div_word, add_word_imm,
  shift_word_imm, load, store, branch, jal, jalr, lui, auipc, csr_op, ecall, ebreak, fence,
}

pub record Hart : Type 0 where
  pub pc : ℕ
  pub regs : ℕ → ℕ
  pub ram : ℕ → ℕ
  pub rom : ℕ → ℕ
  pub output : List Event

-- What the emulator's state stands for.
abbrev pub hart : Machine → Hart
hart s = record {
  pc = s.cpu.pc;
  regs = s.cpu.regfile;
  ram = s.cpu.ram;
  rom = s.cpu.rom;
  output = s.output;
}

-- A register, but x0, is written; the memories are not.
pub record Effect (h : Hart) (rd v pc : ℕ) (continue : Bool) (output : List Event) (c : Bool)
    (h' : Hart) : Type 0 where
  pub continues : c ≡ continue
  pub next_pc : h'.pc ≡ pc
  pub registers : (i : ℕ) → h'.regs i ≡ (if i == 0 then 0 else if i == rd then v else h.regs i)
  pub same_ram : h'.ram ≡ h.ram
  pub same_rom : h'.rom ≡ h.rom
  pub prints : h'.output ≡ output

-- The low bytes of val are written to the RAM from index p on.
pub record RamEffect (x : Xlen) (h : Hart) (op : MemOp) (p val pc : ℕ) (c : Bool) (h' : Hart)
    : Type 0 where
  pub continues : c ≡ true
  pub next_pc : h'.pc ≡ pc
  pub registers : (i : ℕ) → h'.regs i ≡ (if i == 0 then 0 else h.regs i)
  pub memory : (j : ℕ) → h'.ram j ≡ stored h.ram p (suc (range x op)) val j
  pub same_rom : h'.rom ≡ h.rom
  pub prints : h'.output ≡ h.output

abbrev pub Writes : Hart → (rd v pc : ℕ) → Bool → Hart → Type 0
Writes h rd v pc = Effect h rd v pc true h.output

abbrev pub Prints : Hart → (pc : ℕ) → Event → Bool → Hart → Type 0
Prints h pc e = Effect h 0 0 pc true (e ∷ h.output)

abbrev pub at_address : Xlen → Hart → (rs1 imm : ℕ) → ℕ
at_address x h rs1 imm = wrap x (h.regs rs1 + sign_extend 12 (bits x) imm)

-- A load at an address: of the RAM, of the ROM, or of neither.
abbrev pub Loads :
    Xlen → MemOp → Hart → (rd addr next : ℕ) → (ram rom : Bool) → Bool → Hart → Type 0
Loads x op h rd addr next true rom = Writes h rd (loaded_value x op h.ram (addr - ram_start)) next
Loads x op h rd addr next false true = Writes h rd (loaded_value x op h.rom addr) next
Loads x op h rd addr next false false = Prints h next (unmapped_read addr)

abbrev pub StoresTo :
    Xlen → MemOp → Hart → (val addr next : ℕ) → (ram rom : Bool) → Bool → Hart → Type 0
StoresTo x op h val addr next true rom = RamEffect x h op (addr - ram_start) val next
StoresTo x op h val addr next false true = Prints h next (rom_write addr)
StoresTo x op h val addr next false false = Prints h next (unmapped_write addr)

-- One instruction, with whether the program goes on. The counters are not part of a hart, so that
-- a CSR instruction may give any value.
abbrev pub Steps : Xlen → Instruction → Hart → Bool → Hart → Type 0
Steps x (alu op rd rs1 rs2) h =
    Writes h rd (result x op (h.regs rs1) (h.regs rs2)) (wrap x (h.pc + 4))
Steps x (alu_imm op rd rs1 imm) h =
    Writes h rd (result x op (h.regs rs1) (sign_extend 12 (bits x) imm)) (wrap x (h.pc + 4))
Steps x (shift_imm op rd rs1 amount) h =
    Writes h rd (result x op (h.regs rs1) amount) (wrap x (h.pc + 4))
Steps x (mul_div op rd rs1 rs2) h = λ c h'.
    (v : ℕ) × IsMulDiv x op (h.regs rs1) (h.regs rs2) v × Writes h rd v (wrap x (h.pc + 4)) c h'
Steps x (alu_word op rd rs1 rs2) h =
    Writes h rd (word_result op (h.regs rs1) (h.regs rs2)) (wrap x (h.pc + 4))
Steps x (mul_div_word op rd rs1 rs2) h = λ c h'.
    (v : ℕ) × IsMulDiv rv32 op (h.regs rs1 % 2 ^ 32) (h.regs rs2 % 2 ^ 32) v
    × Writes h rd (sign_extend 32 64 v) (wrap x (h.pc + 4)) c h'
Steps x (add_word_imm rd rs1 imm) h =
    Writes h rd (word_result AluOp.add (h.regs rs1) (sign_extend 12 64 imm)) (wrap x (h.pc + 4))
Steps x (shift_word_imm op rd rs1 amount) h =
    Writes h rd (word_result op (h.regs rs1) amount) (wrap x (h.pc + 4))
Steps x (load op rd rs1 imm) h =
    Loads x op h rd (at_address x h rs1 imm) (wrap x (h.pc + 4))
      (in_ram x (at_address x h rs1 imm) op) (in_rom x (at_address x h rs1 imm) op)
Steps x (store op rs1 rs2 imm) h =
    StoresTo x op h (h.regs rs2) (at_address x h rs1 imm) (wrap x (h.pc + 4))
      (in_ram x (at_address x h rs1 imm) op) (in_rom x (at_address x h rs1 imm) op)
Steps x (branch op rs1 rs2 offset) h = Writes h 0 0 (
    if holds x op (h.regs rs1) (h.regs rs2)
    then wrap x (h.pc + sign_extend 13 (bits x) offset)
    else wrap x (h.pc + 4))
Steps x (jal rd offset) h =
    Writes h rd (wrap x (h.pc + 4)) (wrap x (h.pc + sign_extend 21 (bits x) offset))
Steps x (jalr rd rs1 imm) h =
    Writes h rd (wrap x (h.pc + 4)) (at_address x h rs1 imm - at_address x h rs1 imm % 2)
Steps x (lui rd imm) h = Writes h rd (sign_extend 32 (bits x) (imm * 2 ^ 12)) (wrap x (h.pc + 4))
Steps x (auipc rd imm) h =
    Writes h rd (wrap x (h.pc + sign_extend 32 (bits x) (imm * 2 ^ 12))) (wrap x (h.pc + 4))
Steps x (csr_op op rd rs1 csr) h = λ c h'. (v : ℕ) × Writes h rd v (wrap x (h.pc + 4)) c h'
Steps x ecall h =
    Effect h 0 0 (wrap x (h.pc + 4)) (request (h.regs 10) (h.regs 11) h.output).0
      (request (h.regs 10) (h.regs 11) h.output).1
Steps x ebreak h = Effect h 0 0 (wrap x (h.pc + 4)) false (breakpoint ∷ h.output)
Steps x (fence imm) h = Writes h 0 0 (wrap x (h.pc + 4))
