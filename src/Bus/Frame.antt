-- ===== src/Bus/Frame.antt =====
-- A store changes no byte of the RAM but those that it takes.
use rvem.Common.{ℕ, ◌+◌, ◌-◌, ◌^◌, ◌<◌, ◌≤◌, ◌≡◌, refl, arith, true, inl, inr, ◌⊎◌}
use rvem.Common.Word.{u8}
use rvem.Arch.{Xlen, rv32, rv64, bits, ram_size, ram_start}
use rvem.Riscv.{MemOp}
use rvem.Machine.{Machine, wrap, update}
use rvem.Machine.Safe.{Ensures}
use rvem.Bus.{write_at, in_ram, bus_write, ram_write, range}
use rvem.Bus.Pokes.{
  set_ram_byte-poke, set_bytes2-poke, set_bytes4-poke, set_bytes8-poke, memory-mcycle,
}
use rvem.Bus.RoundTrip.{IsStore}
use rvem.Bus.Safe.{in_ram-index}

-- A byte that a run of writes leaves alone.
write_at-frame :
    (x : Xlen) (addr p i : ℕ) (op : MemOp) (val : ℕ) (s : Machine)
    → IsStore x op
    → p + range x op < ram_size
    → (i < p) ⊎ (p + range x op < i)
    → Ensures
        (λ _ t.
          (t.cpu.ram i ≡ s.cpu.ram i) × (t.cpu.regfile ≡ s.cpu.regfile) × (t.cpu.pc ≡ s.cpu.pc))
        (write_at x addr p op val s)
unfolding write_at range update
write_at-frame x addr p i MemOp.b val s st h away =
    rw (set_ram_byte-poke p (u8 val) s (omega arith)) (ground arith, refl, refl)
write_at-frame x addr p i MemOp.h val s st h away =
    let (k, stalls) = memory-mcycle 2 addr s in
    rw (stalls, set_bytes2-poke x p val (record s { mcycle = k }) h) (ground arith, refl, refl)
write_at-frame x addr p i MemOp.w val s st h away =
    let (k, stalls) = memory-mcycle 4 addr s in
    rw (stalls, set_bytes4-poke x p val (record s { mcycle = k }) h) (ground arith, refl, refl)
write_at-frame rv64 addr p i MemOp.d val s st h away =
    let (k, stalls) = memory-mcycle 8 addr s in
    rw (stalls, set_bytes8-poke rv64 p val (record s { mcycle = k }) h) (ground arith, refl, refl)
write_at-frame rv32 addr p i MemOp.d val s st h away = absurd st
write_at-frame x addr p i _ val s st h away = absurd st

index :
    (x : Xlen) (addr : ℕ)
    → ram_start ≤ addr
    → addr < 2 ^ bits x
    → wrap x (addr + 2 ^ bits x - ram_start) ≡ addr - ram_start
index rv32 addr le h = omega arith
index rv64 addr le h = omega arith

in_ram-le : (x : Xlen) (addr : ℕ) (op : MemOp) → in_ram x addr op ≡ true → ram_start ≤ addr
unfolding in_ram
in_ram-le x addr op e = ground arith

beside :
    (addr i r : ℕ)
    → ram_start ≤ addr
    → (ram_start + i < addr) ⊎ (addr + r < ram_start + i)
    → (i < addr - ram_start) ⊎ (addr - ram_start + r < i)
beside addr i r le (inl low) = inl (omega arith)
beside addr i r le (inr high) = inr (omega arith)

-- A store to an address of the RAM returns, and changes neither a byte of the RAM before that
-- address or after the last byte of the access, nor a register, nor pc.
pub bus_write-frame :
    (x : Xlen) (addr i : ℕ) (op : MemOp) (val : ℕ) (s : Machine)
    → IsStore x op
    → addr < 2 ^ bits x
    → in_ram x addr op ≡ true
    → (ram_start + i < addr) ⊎ (addr + range x op < ram_start + i)
    → Ensures
        (λ _ t.
          (t.cpu.ram i ≡ s.cpu.ram i) × (t.cpu.regfile ≡ s.cpu.regfile) × (t.cpu.pc ≡ s.cpu.pc))
        (bus_write x addr op val s)
unfolding bus_write ram_write
bus_write-frame x addr i op val s st h ram away = rw ram (
    write_at-frame x addr _ i op val s st (in_ram-index x addr op h ram) (
      rw (index x addr (in_ram-le x addr op ram) h)
        (beside addr i (range x op) (in_ram-le x addr op ram) away)))
