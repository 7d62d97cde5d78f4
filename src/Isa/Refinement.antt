-- ===== src/Isa/Refinement.antt =====
-- core.c implements the instruction set: what process_instr does to the word of an instruction is
-- the step of the hart.
use rvem.Common.{ℕ, ◌+◌, ◌-◌, ◌^◌, ◌<◌, ◌≡◌, refl, arith, ap, Bool, true, false, ◌∷◌}
use rvem.Arch.{Xlen, rv32, rv64, Config, Compiler, ram_start}
use rvem.Riscv.{AluOp, MulOp, MemOp, Opcode, opcode_of}
use rvem.Riscv.Decode.{i_type-IFields}
use rvem.Alu.WordSpec.{IsWordMulOp}
use rvem.Core.Immediates.{IsShift}
use rvem.Machine.{Machine, unmapped_read, unmapped_write, rom_write, breakpoint, wrap}
use rvem.Machine.Safe.{Ensures, Ensures_mono, IsValid}
use native.Mathlib.Nat.{zero-add}
use rvem.Bus.{in_ram, in_rom}
use rvem.Bus.Load.{IsLoad}
use rvem.Bus.RoundTrip.{IsStore}
use rvem.Exec.{instr_init, exec_fence}
use rvem.Core.{outcome, execute, process_instr}
use rvem.Core.Retire.{retire_still}
use rvem.Core.Registers.{process_instr-op}
use rvem.Core.Immediates.{process_instr-op_imm, process_instr-op_shift}
use rvem.Core.Products.{process_instr-mul}
use rvem.Core.Words.{build64, mulw_word, process_instr-opw, process_instr-mulw}
use rvem.Core.WordImmediates.{process_instr-opw_imm}
use rvem.Core.Memory.{address, load_word, process_instr-load, process_instr-load_unmapped}
use rvem.Core.Stores.{store_word, process_instr-store, process_instr-store_outside}
use rvem.Core.Jumps.{
  process_instr-branch, process_instr-jal, process_instr-jalr, process_instr-lui,
  process_instr-auipc,
}
use rvem.Core.CsrWords.{csr_word, read_cycle, csr_shows}
use rvem.Core.Counters.{process_instr-csr}
use rvem.Core.System.{request, sys_instr, process_instr-ecall-ebreak}
use rvem.Isa.{
  Instruction, alu, alu_imm, shift_imm, mul_div, alu_word, mul_div_word, add_word_imm,
  shift_word_imm, load, store, branch, jal, jalr, lui, auipc, csr_op, ecall, ebreak, fence, encode,
  IsInstruction, IsRv64,
}
use rvem.Isa.Hart.{hart, Steps, Loads, StoresTo}
use rvem.Isa.Effects.{as-Writes, writes, as-Prints, as-RamEffect, ended-Effect}

module _ (cfg : Config) (s : Machine) (op : MemOp) (rs1 imm : ℕ) (h1 : rs1 < 32)
    (hi : imm < 2 ^ 12) where
  abbrev at : ℕ
  at = address cfg.xlen s rs1 imm

  abbrev next : ℕ
  next = wrap cfg.xlen (s.cpu.pc + 4)

  loads :
      (rd : ℕ) (ram rom : Bool)
      → rd < 32
      → IsLoad cfg.xlen op
      → IsValid cfg.xlen s
      → in_ram cfg.xlen at op ≡ ram
      → in_rom cfg.xlen at op ≡ rom
      → Ensures
          (λ c t. Loads cfg.xlen op (hart s) rd at next ram rom c (hart t))
          (process_instr cfg (load_word op rd rs1 imm) s)
  loads rd true rom hd l v a o =
      writes s rd _ next cfg _
        (rw a at (process_instr-load cfg s op rs1 imm h1 hi rd hd l v (rw a)))
  loads rd false true hd l v a o =
      writes s rd _ next cfg _
        (rw a at (process_instr-load cfg s op rs1 imm h1 hi rd hd l v (rw (a, o))))
  loads rd false false hd l v a o =
      Ensures_mono _ _ (process_instr cfg (load_word op rd rs1 imm) s)
        (as-Prints s (unmapped_read at) next)
        (process_instr-load_unmapped cfg s op rs1 imm h1 hi rd hd (rw (a, o)))

  stores :
      (rs2 : ℕ) (ram rom : Bool)
      → rs2 < 32
      → IsStore cfg.xlen op
      → in_ram cfg.xlen at op ≡ ram
      → in_rom cfg.xlen at op ≡ rom
      → Ensures
          (λ c t. StoresTo cfg.xlen op (hart s) (s.cpu.regfile rs2) at next ram rom c (hart t))
          (process_instr cfg (store_word op rs2 rs1 imm) s)
  stores rs2 true rom h2 st a o =
      Ensures_mono _ _ (process_instr cfg (store_word op rs2 rs1 imm) s)
        (as-RamEffect cfg.xlen s op (at - ram_start) (s.cpu.regfile rs2) next)
        (process_instr-store cfg s op rs1 imm h1 hi rs2 h2 st a)
  stores rs2 false true h2 st a o =
      Ensures_mono _ _ (process_instr cfg (store_word op rs2 rs1 imm) s)
        (as-Prints s (rom_write at) next)
        (rw o at (process_instr-store_outside cfg s op rs1 imm h1 hi rs2 h2 a))
  stores rs2 false false h2 st a o =
      Ensures_mono _ _ (process_instr cfg (store_word op rs2 rs1 imm) s)
        (as-Prints s (unmapped_write at) next)
        (rw o at (process_instr-store_outside cfg s op rs1 imm h1 hi rs2 h2 a))

-- The instructions on words are of RV64.
words_at :
    (x : Xlen) (m : Bool) (c : Compiler) (P : Config → Type 0)
    → IsRv64 x
    → ((n : Bool) (d : Compiler) → P (build64 n d))
    → P (record { xlen = x; m_ext = m; compiler = c })
words_at rv64 m c P i f = f m c
words_at rv32 m c P i f = absurd i

words :
    (cfg : Config) (P : Config → Type 0)
    → IsRv64 cfg.xlen
    → ((n : Bool) (d : Compiler) → P (build64 n d))
    → P cfg
words cfg P = words_at cfg.xlen cfg.m_ext cfg.compiler P

abbrev Refines : Instruction → Machine → Config → Type 0
Refines i s cfg =
    Ensures (λ c t. Steps cfg.xlen i (hart s) c (hart t)) (process_instr cfg (encode i) s)

product :
    (m : Bool) (c : Compiler) (op : MulOp) (rd rs1 rs2 : ℕ) (s : Machine)
    → m ≡ true
    → IsWordMulOp op
    → rd < 32
    → rs1 < 32
    → rs2 < 32
    → Refines (mul_div_word op rd rs1 rs2) s (build64 m c)
product true c op rd rs1 rs2 s e i hd h1 h2 =
    let (v, is, runs) = process_instr-mulw c op rd rs1 rs2 s i hd h1 h2 in
    Ensures_mono _ _ (process_instr (build64 true c) (mulw_word op rd rs1 rs2) s)
      (λ g t r. (v, is, as-Writes s rd _ _ g t r)) runs
product false c op rd rs1 rs2 s e i hd h1 h2 = cc

shift_word :
    (m : Bool) (c : Compiler) (op : AluOp) (rd rs1 amount : ℕ) (s : Machine)
    → IsShift op
    → rd < 32
    → rs1 < 32
    → amount < 32
    → Refines (shift_word_imm op rd rs1 amount) s (build64 m c)
shift_word m c AluOp.sll rd rs1 amount s i hd h1 h =
    writes s rd _ _ (build64 m c) _
      (rw (zero-add amount) ((process_instr-opw_imm m c rd rs1 0 amount s hd h1 (omega arith) h).1))
shift_word m c AluOp.srl rd rs1 amount s i hd h1 h =
    writes s rd _ _ (build64 m c) _
      (rw (zero-add amount) ((process_instr-opw_imm m c rd rs1 0 amount s hd h1 (omega arith) h).2))
shift_word m c AluOp.sra rd rs1 amount s i hd h1 h =
    writes s rd _ _ (build64 m c) _
      (((process_instr-opw_imm m c rd rs1 0 amount s hd h1 (omega arith) h).3))
shift_word m c _ rd rs1 amount s i hd h1 h = absurd i

fence-Refines : (cfg : Config) (imm : ℕ) (s : Machine) → imm < 2 ^ 12 → Refines (fence imm) s cfg
unfolding execute opcode_of exec_fence
fence-Refines cfg imm s h =
    let f =
      i_type-IFields imm 0 0 0 0x0F h (omega arith) (omega arith) (omega arith) (omega arith) in
    writes s 0 0 (wrap cfg.xlen (s.cpu.pc + 4)) cfg (encode (fence imm)) (
      retire_still cfg (encode (fence imm)) s Opcode.fence
        (outcome instr_init (wrap cfg.xlen (s.cpu.pc + 4)) true) s.mcycle
        (ap (opcode_of cfg.xlen) f.opcode_is) refl refl)

-- The word of every instruction, with operands that fit their fields, does what the instruction
-- does: process_instr returns, and pc, the registers, the memories, the output and whether the
-- program goes on are those of the instruction's step. It asks for a valid state. The counters are
-- not part of the step, so that of a CSR instruction it says only that some value is written.
pub process_instr-Steps :
    (cfg : Config) (i : Instruction) (s : Machine)
    → IsInstruction cfg i
    → IsValid cfg.xlen s
    → Ensures (λ c t. Steps cfg.xlen i (hart s) c (hart t)) (process_instr cfg (encode i) s)
process_instr-Steps cfg (alu op rd rs1 rs2) s (i, hd, h1, h2) v =
    writes s rd _ _ cfg _ (process_instr-op op i rd rs1 rs2 hd h1 h2 cfg s v)
process_instr-Steps cfg (alu_imm op rd rs1 imm) s (i, hd, h1, hi) v =
    writes s rd _ _ cfg _ (process_instr-op_imm op rd rs1 imm hd h1 hi i cfg s)
process_instr-Steps cfg (shift_imm op rd rs1 amount) s (i, hd, h1, ha) v =
    writes s rd _ _ cfg _ (process_instr-op_shift cfg op rd rs1 amount s i hd h1 ha v)
process_instr-Steps cfg (mul_div op rd rs1 rs2) s (m, i, hd, h1, h2) v =
    let (value, is, runs) = process_instr-mul cfg op rd rs1 rs2 s m i hd h1 h2 v in
    Ensures_mono _ _ (process_instr cfg (encode (mul_div op rd rs1 rs2)) s)
      (λ c t r. (value, is, as-Writes s rd value (wrap cfg.xlen (s.cpu.pc + 4)) c t r)) runs
process_instr-Steps cfg (alu_word op rd rs1 rs2) s (x, i, hd, h1, h2) v =
    words cfg (Refines (alu_word op rd rs1 rs2) s) x
      (λ m c. writes s rd _ _ (build64 m c) _ (process_instr-opw m c op rd rs1 rs2 s i hd h1 h2))
process_instr-Steps cfg (mul_div_word op rd rs1 rs2) s (x, m, i, hd, h1, h2) v =
    words cfg (λ b. b.m_ext ≡ true → Refines (mul_div_word op rd rs1 rs2) s b) x
      (λ n c e. product n c op rd rs1 rs2 s e i hd h1 h2) m
process_instr-Steps cfg (add_word_imm rd rs1 imm) s (x, hd, h1, hi) v =
    words cfg (Refines (add_word_imm rd rs1 imm) s) x (λ m c.
      writes s rd _ _ (build64 m c) _
        (process_instr-opw_imm m c rd rs1 imm 0 s hd h1 hi (omega arith)).0)
process_instr-Steps cfg (shift_word_imm op rd rs1 amount) s (x, i, hd, h1, ha) v =
    words cfg (Refines (shift_word_imm op rd rs1 amount) s) x
      (λ m c. shift_word m c op rd rs1 amount s i hd h1 ha)
process_instr-Steps cfg (load op rd rs1 imm) s (l, hd, h1, hi) v =
    loads cfg s op rs1 imm h1 hi rd _ _ hd l v refl refl
process_instr-Steps cfg (store op rs1 rs2 imm) s (st, h1, h2, hi) v =
    stores cfg s op rs1 imm h1 hi rs2 _ _ h2 st refl refl
process_instr-Steps cfg (branch op rs1 rs2 offset) s (i, h1, h2, ho, even) v =
    writes s 0 0 _ cfg _ (process_instr-branch cfg s op rs1 rs2 offset h1 h2 ho even)
process_instr-Steps cfg (jal rd offset) s (hd, ho, even) v =
    writes s rd _ _ cfg _ (process_instr-jal cfg s rd offset hd ho even)
process_instr-Steps cfg (jalr rd rs1 imm) s (hd, h1, hi) v =
    writes s rd _ _ cfg _ (process_instr-jalr cfg s rd rs1 imm hd h1 hi)
process_instr-Steps cfg (lui rd imm) s (hd, hi) v =
    writes s rd _ _ cfg _ (process_instr-lui cfg s rd imm hd hi)
process_instr-Steps cfg (auipc rd imm) s (hd, hi) v =
    writes s rd _ _ cfg _ (process_instr-auipc cfg s rd imm hd hi)
process_instr-Steps cfg (csr_op op rd rs1 csr) s (i, hd, h1, hc) v =
    let value = csr_shows cfg.xlen csr (read_cycle s op rs1) s.minstret in
    Ensures_mono _ _ (process_instr cfg (csr_word op csr rd rs1) s)
      (λ c t r. (value, as-Writes s rd value (wrap cfg.xlen (s.cpu.pc + 4)) c t r.retires))
      (process_instr-csr cfg op csr rd rs1 s i hc hd h1)
process_instr-Steps cfg ecall s i v =
    let (continue, output) = request (s.cpu.regfile 10) (s.cpu.regfile 11) s.output in
    rw (process_instr-ecall-ebreak cfg s).0
      (ended-Effect s (outcome (sys_instr 0 0 0) (wrap cfg.xlen (s.cpu.pc + 4)) continue) output)
process_instr-Steps cfg ebreak s i v = rw (process_instr-ecall-ebreak cfg s).1 (
    ended-Effect s (outcome (sys_instr 0 0 1) (wrap cfg.xlen (s.cpu.pc + 4)) false)
      (breakpoint ∷ s.output))
process_instr-Steps cfg (fence imm) s h v = fence-Refines cfg imm s h
