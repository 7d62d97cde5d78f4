-- ===== src/Librv/Putchar.antt =====
-- putchar_, run by the emulator.
use rvem.Common.{
  ℕ, zero, suc, ◌+◌, ◌%◌, ◌^◌, ◌<◌, ◌≡◌, ◌≢◌, refl, arith, sym, ap, ◌∙◌, true, List, ◌∷◌, ◌==◌,
  if◌then◌else◌,
}
use rvem.Arch.{Xlen, rv32, rv64, bits, Config}
use rvem.Riscv.{AluOp}
use rvem.Riscv.Encode.{i_type}
use rvem.Common.Word.{sign_extend}
use rvem.Machine.{Machine, Event, putchar, wrap, update}
use rvem.Machine.Safe.{IsValid, Ensures, Ensures-and_then}
use rvem.Core.{process_instr}
use rvem.Core.Retire.{Retires}
use rvem.Core.Immediates.{process_instr-op_imm}
use rvem.Core.System.{process_instr-ecall-ebreak}
use rvem.Librv.{words, putchar_}

-- li and mv, as addi.
addi-Retires :
    (cfg : Config) (rd rs1 imm : ℕ) (s : Machine)
    → rd < 32
    → rs1 < 32
    → imm < 2 ^ 11
    → Ensures
        (Retires s rd
          ((s.cpu.regfile rs1 + imm) % 2 ^ bits cfg.xlen)
          (wrap cfg.xlen (s.cpu.pc + 4)))
        (process_instr cfg (i_type imm rs1 0 rd 0x13) s)
addi-Retires cfg rd rs1 imm s hd h1 h =
    rw (small cfg.xlen) at (process_instr-op_imm AluOp.add rd rs1 imm hd h1 (omega arith) tt cfg s)
  where
    small : (x : Xlen) → sign_extend 12 (bits x) imm ≡ imm
    small rv32 = ground arith
    small rv64 = ground arith

eleven : (x : Xlen) (r : ℕ) → r ≡ 0 → (r + 11) % 2 ^ bits x ≡ 11
eleven rv32 r e = omega arith
eleven rv64 r e = omega arith

same_register : (x : Xlen) (r : ℕ) → r < 2 ^ bits x → (r + 0) % 2 ^ bits x ≡ r
same_register rv32 r h = omega arith
same_register rv64 r h = omega arith

next_pc : (x : Xlen) (p : ℕ) → wrap x (wrap x (wrap x (p + 4) + 4) + 4) ≡ wrap x (p + 12)
next_pc rv32 p = omega arith
next_pc rv64 p = omega arith

-- A register that is neither zero nor rd is as before, and x0 is zero.
kept :
    (f g : ℕ → ℕ) (rd v i : ℕ)
    → ((j : ℕ) → g j ≡ (if j == 0 then 0 else if j == rd then v else f j))
    → f 0 ≡ 0
    → i ≢ rd
    → g i ≡ f i
kept f g rd v zero h e ne = h 0 ∙ sym e
kept f g rd v (suc i) h e ne = h (suc i) ∙ other
  where
    other : (if suc i == 0 then 0 else if suc i == rd then v else f (suc i)) ≡ f (suc i)
    other = ground arith

cleared : (f : ℕ → ℕ) (i : ℕ) → f 0 ≡ 0 → update f 0 0 i ≡ f i
unfolding update
cleared f zero e = sym e
cleared f (suc i) e = ground arith

-- The ecall of a character.
ecall-prints :
    (cfg : Config) (i : ℕ) (t : Machine)
    → t.cpu.regfile 10 ≡ 11
    → t.cpu.regfile 0 ≡ 0
    → Ensures
        (λ continue u.
          (continue ≡ true)
          × (u.output ≡ putchar (t.cpu.regfile 11 % 2 ^ 32) ∷ t.output)
          × (u.cpu.pc ≡ wrap cfg.xlen (t.cpu.pc + 4))
          × (u.cpu.regfile i ≡ t.cpu.regfile i)
          × (u.cpu.ram ≡ t.cpu.ram))
        (process_instr cfg 0x73 t)
ecall-prints cfg i t e z =
    rw (process_instr-ecall-ebreak cfg t).0
      (rw⁻¹ (sym e) (refl, refl, refl, cleared t.cpu.regfile i z, refl))

-- putchar_, with its character in a register c of the guest other than a0 (which the clobber list
-- rules out), prints that register's low 32 bits as a character and goes on after its three
-- instructions, with the RAM and every register i but a0 and a1 as before. It asks for a valid
-- state with x0 zero.
pub putchar_-prints :
    (cfg : Config) (c i : ℕ) (s : Machine)
    → c < 32
    → c ≢ 10
    → i ≢ 10
    → i ≢ 11
    → s.cpu.regfile 0 ≡ 0
    → IsValid cfg.xlen s
    → Ensures
        (λ continue t.
          (continue ≡ true)
          × (t.output ≡ putchar (s.cpu.regfile c % 2 ^ 32) ∷ s.output)
          × (t.cpu.pc ≡ wrap cfg.xlen (s.cpu.pc + 12))
          × (t.cpu.regfile i ≡ s.cpu.regfile i)
          × (t.cpu.ram ≡ s.cpu.ram))
        (putchar_ cfg c s)
unfolding putchar_ words
putchar_-prints cfg c i s hc n10 i10 i11 zero_register valid =
    Ensures-and_then _ _ (process_instr cfg (i_type 11 0 0 10 0x13) s) _
      (addi-Retires cfg 10 0 11 s (omega arith) (omega arith) (omega arith))
      λ b₁ t₁ one. rw one.continues (
        Ensures-and_then _ _ (process_instr cfg (i_type 0 c 0 11 0x13) t₁) _
          (addi-Retires cfg 11 c 0 t₁ (omega arith) hc (omega arith))
          λ b₂ t₂ two.
            let ten =
              two.registers 10
              ∙ one.registers 10
              ∙ eleven cfg.xlen (s.cpu.regfile 0) zero_register in
            let held = kept s.cpu.regfile t₁.cpu.regfile 10 _ c one.registers zero_register n10 in
            let eleven_is =
              two.registers 11
              ∙ ap (λ (v : ℕ). (v + 0) % 2 ^ bits cfg.xlen) held
              ∙ same_register cfg.xlen (s.cpu.regfile c) (valid.registers c) in
            let first = kept s.cpu.regfile t₁.cpu.regfile 10 _ i one.registers zero_register i10 in
            let second =
              kept t₁.cpu.regfile t₂.cpu.regfile 11 _ i two.registers (one.registers 0) i11 in
            rw two.continues (
              Ensures-and_then _ _ (process_instr cfg 0x73 t₂) _
                (ecall-prints cfg i t₂ ten (two.registers 0))
                λ b₃ t₃ (goes, prints, pc, register, ram). rw goes (
                  refl,
                  prints
                      ∙ ap (λ (v : ℕ). putchar (v % 2 ^ 32) ∷ t₂.output) eleven_is
                      ∙ ap (λ (out : List Event). putchar (s.cpu.regfile c % 2 ^ 32) ∷ out)
                          (two.same_output ∙ one.same_output),
                  pc
                      ∙ ap (λ (p : ℕ). wrap cfg.xlen (p + 4))
                          (two.next_pc ∙ ap (λ (p : ℕ). wrap cfg.xlen (p + 4)) one.next_pc)
                      ∙ next_pc cfg.xlen s.cpu.pc,
                  register ∙ second ∙ first,
                  ram ∙ two.same_ram ∙ one.same_ram,
                )))
