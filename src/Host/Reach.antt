-- ===== src/Host/Reach.antt =====
-- The states that the loop of main goes through, as a relation, and the invariant of them.
use rvem.Common.{ℕ, ◌+◌, ◌%◌, ◌^◌, ◌<◌, ◌≤◌, ◌≡◌, ◌≢◌, arith, ap, ◌∙◌, Bool, true, some}
use rvem.Arch.{Config, max_cycles}
use rvem.Riscv.{MemOp}
use rvem.Machine.{Machine}
use rvem.Machine.Safe.{IsValid, Advance, Ensures, Ensures-and_then}
use rvem.Bus.{bus_read}
use rvem.Bus.Safe.{bus_read-Safe}
use rvem.Core.{process_instr}
use rvem.Core.Safety.{process_instr-Completes}
use rvem.Core.Sequence.{process_instr-even}
use rvem.Host.{fetch}

-- One round of the loop, with what it assigns to instr_loop.
pub data Round (cfg : Config) (s : Machine) (continue : Bool) (t : Machine) : Type 0 where
  round :
      (instr : ℕ) (u : Machine)
      → s.mcycle < max_cycles
      → fetch cfg s ≡ some (instr, u)
      → instr ≢ 0
      → process_instr cfg instr u ≡ some (continue, t)
      → Round cfg s continue t

-- The states at the head of the loop, with instr_loop.
pub data Reach (cfg : Config) (start : Machine) : Bool → Machine → Type 0 where
  here : Reach cfg start true start
  next :
      {s t : Machine} {continue : Bool}
      → Reach cfg start true s
      → Round cfg s continue t
      → Reach cfg start continue t

pub record Invariant (cfg : Config) (start s : Machine) : Type 0 where
  pub valid : IsValid cfg.xlen s
  pub zero_register : s.cpu.regfile 0 ≡ 0
  pub even_pc : s.cpu.pc % 2 ≡ 0
  pub same_rom : s.cpu.rom ≡ start.cpu.rom
  pub cycles_lead : s.minstret + 4 ≤ s.mcycle
  pub cycles_bounded : s.mcycle < max_cycles + 6

-- The counters in one round: m is mcycle, n is minstret.
counts :
    (m m₁ m₂ n n₁ n₂ j k : ℕ)
    → m < max_cycles
    → n + 4 ≤ m
    → m₁ < 2 ^ 64
    → j ≤ 1
    → 1 ≤ k
    → k ≤ 5
    → m₁ % 2 ^ 64 ≡ (m + j) % 2 ^ 64
    → m₂ ≡ (m₁ + k) % 2 ^ 64
    → n₁ ≡ n
    → n₂ ≡ (n₁ + 1) % 2 ^ 64
    → (n₂ + 4 ≤ m₂) × (m₂ < max_cycles + 6)
counts m m₁ m₂ n n₁ n₂ j k below lead range le low high one two same more =
    (omega arith, omega arith)

module _ (cfg : Config) where
  fetch-Fetched :
      (s : Machine)
      → IsValid cfg.xlen s
      → Ensures (λ instr u. (instr < 2 ^ 32) × IsValid cfg.xlen u × Advance 1 s u) (fetch cfg s)
  unfolding fetch
  fetch-Fetched s v =
      Ensures-and_then _ _ (bus_read cfg.xlen s.cpu.pc MemOp.w s) _
        ((bus_read-Safe cfg.xlen s.cpu.pc MemOp.w v.pc_range).run s v)
        λ r t (_, w, adv). (omega arith, w, adv)

  Round-Invariant :
      {start s t : Machine} {continue : Bool}
      → Invariant cfg start s
      → Round cfg s continue t
      → Invariant cfg start t
  Round-Invariant {start} {s} {t} {continue} inv (round instr u below fetched word runs) =
      let (fits, valid, adv) = rw fetched at (fetch-Fetched s inv.valid) in
      let done = rw runs at (process_instr-Completes cfg instr u valid) in
      let even =
        rw runs at
          (process_instr-even cfg instr fits u (ap (λ (n : ℕ). n % 2) adv.same_pc ∙ inv.even_pc)) in
      let (j, le, one) = adv.cycles in
      let (k, low, high, two) = done.cycles in
      let (lead, bound) =
        counts s.mcycle u.mcycle t.mcycle s.minstret u.minstret t.minstret j k below inv.cycles_lead
          valid.cycle_range le low high one two adv.same_instret done.one_more in
      record {
        valid = done.valid;
        zero_register = done.zero_register;
        even_pc = even;
        same_rom = done.same_rom ∙ adv.same_rom ∙ inv.same_rom;
        cycles_lead = lead;
        cycles_bounded = bound;
      }

  -- In every state that the loop reaches from a valid state with x0 zero, an even pc and a cycle
  -- count that leads the instruction count by four, as at the start of the program: all values fit
  -- their types, x0 is zero, pc is even, the ROM is unchanged, mcycle leads minstret by at least
  -- four, and mcycle is less than six over the limit.
  pub Reach-Invariant :
      {start s : Machine} {instr_loop : Bool}
      → Invariant cfg start start
      → Reach cfg start instr_loop s
      → Invariant cfg start s
  Reach-Invariant first here = first
  Reach-Invariant first (next r step) = Round-Invariant (Reach-Invariant first r) step
