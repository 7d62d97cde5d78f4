-- ===== src/Bus/Blind.antt =====
-- The bus and the stalls do not look at the counters; the stalls look at the performance model, but
-- change mcycle only.
use rvem.Common.{ℕ, refl}
use rvem.Arch.{Xlen, rv32, rv64}
use rvem.Riscv.{MemOp}
use rvem.Machine.{Machine, Instr, M}
use rvem.Machine.Blind.{Twins, Blind, blind_rules, when-Blind, tick-Blind, set_ram_byte-Blind}
use rvem.Perf.{hazard, branch_hazard, branch_taken, memory}
use rvem.Perf.Laws.{hazard-mcycle, branch_hazard-mcycle}
use rvem.Bus.{bytes2, bytes4, bytes8, read_at, rom_read, ram_read, bus_read}
use rvem.Bus.{set_bytes2, set_bytes4, set_bytes8, write_at, ram_write, bus_write}

Twins-mcycle :
    (s t : Machine) (j k : ℕ)
    → Twins s t
    → Twins (record s { mcycle = j }) (record t { mcycle = k })
Twins-mcycle s t j k h = record { same_cpu = h.same_cpu; same_output = h.same_output }

pub hazard-Blind : (instr : Instr) → Blind (hazard instr)
hazard-Blind instr = record {
  run = λ s t h.
      let (j, e) = hazard-mcycle instr s in
      let (k, f) = hazard-mcycle instr t in rw (e, f) (refl, Twins-mcycle s t j k h);
}

pub branch_hazard-Blind : (instr : Instr) → Blind (branch_hazard instr)
branch_hazard-Blind instr = record {
  run = λ s t h.
      let (j, e) = branch_hazard-mcycle instr s in
      let (k, f) = branch_hazard-mcycle instr t in rw (e, f) (refl, Twins-mcycle s t j k h);
}

pub branch_taken-Blind : Blind branch_taken
unfolding branch_taken
branch_taken-Blind = tick-Blind

memory-Blind : (size addr : ℕ) → Blind (memory size addr)
unfolding memory
memory-Blind size addr = when-Blind _ tick-Blind

module _ (x : Xlen) (byte : ℕ → M ℕ) (blind : (i : ℕ) → Blind (byte i)) (p : ℕ) where
  bytes2-Blind : Blind (bytes2 x byte p)
  unfolding bytes2
  bytes2-Blind = search (blind_rules, blind)

  bytes4-Blind : Blind (bytes4 x byte p)
  unfolding bytes4
  bytes4-Blind = search (blind_rules, blind)

  bytes8-Blind : Blind (bytes8 x byte p)
  unfolding bytes8
  bytes8-Blind = search (blind_rules, blind) depth 12

ruleset read_rules = (blind_rules, memory-Blind, bytes2-Blind, bytes4-Blind, bytes8-Blind)

read_at-Blind :
    (x : Xlen) (byte : ℕ → M ℕ) (addr p : ℕ) (op : MemOp)
    → ((i : ℕ) → Blind (byte i))
    → Blind (read_at x byte addr p op)
unfolding read_at
read_at-Blind x byte addr p MemOp.b blind = search (blind_rules, blind)
read_at-Blind rv64 byte addr p op blind = search (blind, read_rules)
read_at-Blind rv32 byte addr p op blind = search (blind, read_rules)

pub bus_read-Blind : (x : Xlen) (addr : ℕ) (op : MemOp) → Blind (bus_read x addr op)
unfolding bus_read ram_read rom_read
bus_read-Blind x addr op = search (blind_rules, read_at-Blind)

module _ (x : Xlen) (p val : ℕ) where
  set_bytes2-Blind : Blind (set_bytes2 x p val)
  unfolding set_bytes2
  set_bytes2-Blind = search blind_rules

  set_bytes4-Blind : Blind (set_bytes4 x p val)
  unfolding set_bytes4
  set_bytes4-Blind = search (set_bytes2-Blind, blind_rules)

  set_bytes8-Blind : Blind (set_bytes8 x p val)
  unfolding set_bytes8
  set_bytes8-Blind = search (set_bytes4-Blind, blind_rules)

ruleset write_rules =
    (blind_rules, memory-Blind, set_bytes2-Blind, set_bytes4-Blind, set_bytes8-Blind)

write_at-Blind : (x : Xlen) (addr p : ℕ) (op : MemOp) (val : ℕ) → Blind (write_at x addr p op val)
unfolding write_at
write_at-Blind x addr p MemOp.b val = set_ram_byte-Blind p _
write_at-Blind rv64 addr p op val = search write_rules
write_at-Blind rv32 addr p op val = search write_rules

pub bus_write-Blind : (x : Xlen) (addr : ℕ) (op : MemOp) (val : ℕ) → Blind (bus_write x addr op val)
unfolding bus_write ram_write
bus_write-Blind x addr op val = search (blind_rules, write_at-Blind)
