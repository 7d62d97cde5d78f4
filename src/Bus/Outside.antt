-- ===== src/Bus/Outside.antt =====
-- The accesses that bus.h answers with a message.
use rvem.Common.{ℕ, ◌≡◌, false, ◌||◌, none, some, ◌∷◌, if◌then◌else◌, Bool-cases, inl, inr}
use rvem.Arch.{Xlen}
use rvem.Riscv.{MemOp}
use rvem.Machine.{Machine, unmapped_read, unmapped_write, rom_write, print}
use rvem.Bus.{in_ram, in_rom, bus_read, bus_write}

-- A write to an address outside the RAM prints a message.
pub write_outside :
    (x : Xlen) (addr : ℕ) (op : MemOp) (val : ℕ) (s : Machine)
    → in_ram x addr op ≡ false
    → bus_write x addr op val s
      ≡ some (
        tt,
        record s {
          output = (if in_rom x addr op then rom_write addr else unmapped_write addr) ∷ s.output;
        },
      )
unfolding bus_write print
write_outside x addr op val s e = elim (Bool-cases (in_rom x addr op)) [
  | inl r ↦ rw (e, r)
  | inr r ↦ rw (e, r)
]

-- A read of an address of neither array prints a message, and gives nothing.
pub read_outside :
    (x : Xlen) (addr : ℕ) (op : MemOp) (s : Machine)
    → (in_ram x addr op || in_rom x addr op) ≡ false
    → bus_read x addr op s ≡ some (none, record s { output = unmapped_read addr ∷ s.output })
unfolding bus_read print
read_outside x addr op s e = elim (Bool-cases (in_ram x addr op)) [
  | inl r ↦ absurd (cc (rw r at e))
  | inr r ↦ let q : in_rom x addr op ≡ false = rw r at e in rw (r, q)
]
