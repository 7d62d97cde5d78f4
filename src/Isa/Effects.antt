-- ===== src/Isa/Effects.antt =====
-- What the theorems on process_instr say of a machine, read as what they say of its hart.
use rvem.Common.{ℕ, ◌≡◌, ◌∙◌, refl, arith, Bool, true, List, ◌==◌, if◌then◌else◌}
use rvem.Arch.{Xlen, Config}
use rvem.Riscv.{MemOp}
use rvem.Machine.{Machine, Event, update}
use rvem.Machine.Safe.{Ensures, Ensures_mono}
use rvem.Machine.Run.{written}
use rvem.Core.{Outcome, process_instr}
use rvem.Core.Retire.{Retires, ended}
use rvem.Core.Memory.{Ignores}
use rvem.Core.Stores.{Stores}
use rvem.Isa.Hart.{hart, Effect, Writes, Prints, RamEffect}

pub as-Writes :
    (s : Machine) (rd v pc : ℕ) (c : Bool) (t : Machine)
    → Retires s rd v pc c t
    → Writes (hart s) rd v pc c (hart t)
as-Writes s rd v pc c t r = record {
  continues = r.continues;
  next_pc = r.next_pc;
  registers = r.registers;
  same_ram = r.same_ram;
  same_rom = r.same_rom;
  prints = r.same_output;
}

pub writes :
    (s : Machine) (rd v pc : ℕ) (cfg : Config) (raw : ℕ)
    → Ensures (Retires s rd v pc) (process_instr cfg raw s)
    → Ensures (λ c t. Writes (hart s) rd v pc c (hart t)) (process_instr cfg raw s)
writes s rd v pc cfg raw = Ensures_mono _ _ (process_instr cfg raw s) (as-Writes s rd v pc)

update-zero :
    (f : ℕ → ℕ) (i : ℕ) → update f 0 0 i ≡ (if i == 0 then 0 else if i == 0 then 0 else f i)
unfolding update
update-zero f i = ground arith

pub as-Prints :
    (s : Machine) (e : Event) (pc : ℕ) (c : Bool) (t : Machine)
    → Ignores s e pc c t
    → Prints (hart s) pc e c (hart t)
as-Prints s e pc c t r = record {
  continues = r.continues;
  next_pc = r.next_pc;
  registers = λ i. r.registers i ∙ update-zero s.cpu.regfile i;
  same_ram = r.same_ram;
  same_rom = r.same_rom;
  prints = r.printed;
}

pub as-RamEffect :
    (x : Xlen) (s : Machine) (op : MemOp) (p val pc : ℕ) (c : Bool) (t : Machine)
    → Stores x s op p val pc c t
    → RamEffect x (hart s) op p val pc c (hart t)
unfolding update
as-RamEffect x s op p val pc c t r = record {
  continues = r.continues;
  next_pc = r.next_pc;
  registers = λ i. r.registers i ∙ ground arith;
  memory = r.ram;
  same_rom = r.same_rom;
  prints = r.same_output;
}

-- The end of an instruction that writes no register but x0.
pub ended-Effect :
    (s : Machine) (out : Outcome) (output : List Event)
    → Effect
        (hart s)
        0
        0
        out.next_pc
        out.exec_continue
        output
        out.exec_continue
        (hart (ended out (record s { output = output })))
ended-Effect s out output = record {
  continues = refl;
  next_pc = refl;
  registers = update-zero s.cpu.regfile;
  same_ram = refl;
  same_rom = refl;
  prints = refl;
}

-- The end of an instruction that writes a register.
pub ended-Writes :
    (s : Machine) (out : Outcome) (k rd v : ℕ)
    → out.exec_continue ≡ true
    → Writes (hart s) rd v out.next_pc out.exec_continue (hart (ended out (written s k rd v)))
unfolding update
ended-Writes s out k rd v goes = record {
  continues = goes;
  next_pc = refl;
  registers = λ i. refl;
  same_ram = refl;
  same_rom = refl;
  prints = refl;
}
