-- ===== src/Isa/Visible.antt =====
-- The performance model and the counters are not visible to a program, but by the CSR instructions.
use rvem.Common.{ℕ, ◌≡◌, refl, ap, false, Option, none, some}
use mathlib.Core.Path.{subst}
use rvem.Arch.{Config}
use rvem.Riscv.{MemOp}
use rvem.Machine.{Cpu, Machine, pure, ◌>>=◌}
use rvem.Machine.Blind.{Twins, Agree, Blind, bind, pure-Blind}
use rvem.Common.Word.{u32}
use rvem.Bus.{bus_read}
use rvem.Bus.Blind.{bus_read-Blind}
use rvem.Core.{process_instr}
use rvem.Core.Blind.{reads_csr, process_instr-Blind}
use rvem.Host.{fetch, value_or_zero}
use rvem.Isa.Hart.{Hart, hart}

-- What a program sees of the end of a command.
abbrev pub visible : {A : Type 0} → Option (A × Machine) → Option (A × Hart)
visible none = none
visible (some (a, s)) = some (a, hart s)

same_hart : (s t : Machine) → Twins s t → hart s ≡ hart t
same_hart s t h = λ i. record {
  pc = (h.same_cpu i).pc;
  regs = (h.same_cpu i).regfile;
  ram = (h.same_cpu i).ram;
  rom = (h.same_cpu i).rom;
  output = h.same_output i;
}

hart-Twins : (s t : Machine) → hart s ≡ hart t → Twins s t
hart-Twins s t h = record {
  same_cpu =
      ap {B = Cpu} (λ (k : Hart). record { rom = k.rom; ram = k.ram; regfile = k.regs; pc = k.pc })
        h;
  same_output = ap (λ (k : Hart). k.output) h;
}

Agree-visible : {A : Type 0} (r q : Option (A × Machine)) → Agree r q → visible r ≡ visible q
Agree-visible none none h = refl
Agree-visible none (some q) h = absurd h
Agree-visible (some p) none h = absurd h
Agree-visible (some (a, s)) (some (b, t)) (e, h) = λ i. some (e i, same_hart s t h i)

fetch-Blind : (cfg : Config) → Blind (fetch cfg)
unfolding fetch
fetch-Blind cfg = record {
  run = λ s t h.
      let same_pc : s.cpu.pc ≡ t.cpu.pc = ap (λ c. c.pc) h.same_cpu in
      subst
        (λ (pc : ℕ).
          Agree (fetch cfg s)
            ((do v ← bus_read cfg.xlen pc MemOp.w; pure (u32 (value_or_zero v))) t))
        same_pc ((bind (bus_read-Blind cfg.xlen s.cpu.pc MemOp.w) (λ v. pure-Blind)).run s t h);
}

-- Two states with the same hart, whatever their counters and performance models, fetch the same
-- word, and a word that is no CSR instruction takes them to the same hart, with the same message
-- and the same answer whether the program goes on; where one fails, so does the other.
pub process_instr-visible :
    (cfg : Config) (raw : ℕ) (s t : Machine)
    → reads_csr raw ≡ false
    → hart s ≡ hart t
    → (visible (fetch cfg s) ≡ visible (fetch cfg t))
      × (visible (process_instr cfg raw s) ≡ visible (process_instr cfg raw t))
process_instr-visible cfg raw s t h e = (
  Agree-visible (fetch cfg s) (fetch cfg t) ((fetch-Blind cfg).run s t (hart-Twins s t e)),
  Agree-visible (process_instr cfg raw s) (process_instr cfg raw t)
      ((process_instr-Blind cfg raw h).run s t (hart-Twins s t e)),
)
