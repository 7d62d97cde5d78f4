-- ===== src/Bus/Timing.antt =====
-- The cycles of the accesses: one more for an address that the size does not divide.
use rvem.Common.{
  ℕ, ◌%◌, ◌≡◌, arith, Bool, false, not, ◌&&◌, ◌||◌, Option, none, ◌==◌, Bool-cases, inl, inr,
}
use rvem.Arch.{Xlen, rv32, rv64}
use rvem.Riscv.{MemOp}
use rvem.Machine.{Machine, M, pure, rom_byte, ram_byte, unmapped_read}
use rvem.Machine.Safe.{Allows}
use rvem.Machine.Steady.{
  Reaches, Steady, Any, steady_rules, bind-Steady, if-Steady, print-Steady, set_ram_byte-Steady,
  pure-Steady, rom_byte-Steady, ram_byte-Steady,
}
use rvem.Perf.Stalls.{stalled, memory2-stalled, memory4-stalled, memory8-stalled}
use rvem.Bus.{
  bytes2, bytes4, bytes8, read_at, rom_read, ram_read, in_ram, in_rom, bus_read, set_bytes2,
  set_bytes4, set_bytes8, write_at, ram_write, bus_write,
}
use rvem.Bus.RoundTrip.{IsStore}
use rvem.Bus.Load.{IsLoad}

abbrev pub access_size : MemOp → ℕ
access_size MemOp.b = 1
access_size MemOp.bu = 1
access_size MemOp.h = 2
access_size MemOp.hu = 2
access_size MemOp.w = 4
access_size MemOp.wu = 4
access_size MemOp.d = 8
access_size MemOp.none = 1

abbrev pub is_unaligned : MemOp → ℕ → Bool
is_unaligned op addr = not (addr % access_size op == 0)

byte_aligned : (addr : ℕ) → not (addr % 1 == 0) ≡ false
byte_aligned addr = ground arith

module _ (x : Xlen) (byte : ℕ → M ℕ) (steady : (i : ℕ) → Steady Any (byte i)) (p : ℕ) where
  bytes2-Steady : Steady Any (bytes2 x byte p)
  unfolding bytes2
  bytes2-Steady = search (steady_rules, steady) depth 8

  bytes4-Steady : Steady Any (bytes4 x byte p)
  unfolding bytes4
  bytes4-Steady = search (steady_rules, steady) depth 8

  bytes8-Steady : Steady Any (bytes8 x byte p)
  unfolding bytes8
  bytes8-Steady = search (steady_rules, steady) depth 12

read_at-Timed :
    (x : Xlen) (byte : ℕ → M ℕ) (addr p : ℕ) (op : MemOp) (s : Machine)
    → ((i : ℕ) → Steady Any (byte i))
    → IsLoad x op
    → Allows
        (Reaches s.perf_model (stalled (is_unaligned op addr) s.mcycle) Any)
        (read_at x byte addr p op s)
unfolding read_at
read_at-Timed x byte addr p MemOp.b s steady l =
    rw (byte_aligned addr) ((bind-Steady (steady p) (λ v. pure-Steady tt)).run s)
read_at-Timed x byte addr p MemOp.bu s steady l =
    rw (byte_aligned addr) ((bind-Steady (steady p) (λ v. pure-Steady tt)).run s)
read_at-Timed x byte addr p MemOp.h s steady l =
    rw (memory2-stalled addr s)
      ((bind-Steady (bytes2-Steady x byte steady p) (λ v. pure-Steady tt)).run _)
read_at-Timed x byte addr p MemOp.hu s steady l =
    rw (memory2-stalled addr s)
      ((bind-Steady (bytes2-Steady x byte steady p) (λ v. pure-Steady tt)).run _)
read_at-Timed x byte addr p MemOp.w s steady l =
    rw (memory4-stalled addr s)
      ((bind-Steady (bytes4-Steady x byte steady p) (λ v. pure-Steady tt)).run _)
read_at-Timed rv64 byte addr p MemOp.wu s steady l =
    rw (memory4-stalled addr s)
      ((bind-Steady (bytes4-Steady rv64 byte steady p) (λ v. pure-Steady tt)).run _)
read_at-Timed rv64 byte addr p MemOp.d s steady l =
    rw (memory8-stalled addr s)
      ((bind-Steady (bytes8-Steady rv64 byte steady p) (λ v. pure-Steady tt)).run _)
read_at-Timed rv32 byte addr p MemOp.wu s steady l = absurd l
read_at-Timed rv32 byte addr p MemOp.d s steady l = absurd l
read_at-Timed rv32 byte addr p MemOp.none s steady l = absurd l
read_at-Timed rv64 byte addr p MemOp.none s steady l = absurd l

-- A read that the bus gives to an array takes a cycle more where the address is unaligned; one that
-- it answers with a message does not.
pub bus_read-Timed :
    (x : Xlen) (addr : ℕ) (op : MemOp) (s : Machine)
    → IsLoad x op
    → Allows
        (Reaches s.perf_model
          (stalled ((in_ram x addr op || in_rom x addr op) && is_unaligned op addr) s.mcycle)
          Any)
        (bus_read x addr op s)
unfolding bus_read ram_read rom_read
bus_read-Timed x addr op s l = elim (Bool-cases (in_ram x addr op)) [
  | inl e ↦ rw e (read_at-Timed x ram_byte addr _ op s ram_byte-Steady l)
  | inr e ↦ elim (Bool-cases (in_rom x addr op)) [
    | inl f ↦ rw (e, f) (read_at-Timed x rom_byte addr _ op s rom_byte-Steady l)
    | inr f ↦
        rw (e, f)
          ((bind-Steady {B = Option ℕ} {R = Any} {f = λ _. pure none}
              (print-Steady (unmapped_read addr))
              (λ v. pure-Steady {A = Option ℕ} {R = Any} {a = none} tt)).run
            s)
  ]
]

module _ (x : Xlen) (p val : ℕ) where
  set_bytes2-Steady : Steady Any (set_bytes2 x p val)
  unfolding set_bytes2
  set_bytes2-Steady = search steady_rules

  set_bytes4-Steady : Steady Any (set_bytes4 x p val)
  unfolding set_bytes4
  set_bytes4-Steady = search (set_bytes2-Steady, steady_rules)

  set_bytes8-Steady : Steady Any (set_bytes8 x p val)
  unfolding set_bytes8
  set_bytes8-Steady = search (set_bytes4-Steady, steady_rules)

write_at-Timed :
    (x : Xlen) (addr p : ℕ) (op : MemOp) (val : ℕ) (s : Machine)
    → IsStore x op
    → Allows
        (Reaches s.perf_model (stalled (is_unaligned op addr) s.mcycle) Any)
        (write_at x addr p op val s)
unfolding write_at
write_at-Timed x addr p MemOp.b val s st = rw (byte_aligned addr) ((set_ram_byte-Steady p _).run s)
write_at-Timed x addr p MemOp.h val s st =
    rw (memory2-stalled addr s) ((set_bytes2-Steady x p val).run _)
write_at-Timed x addr p MemOp.w val s st =
    rw (memory4-stalled addr s) ((set_bytes4-Steady x p val).run _)
write_at-Timed rv64 addr p MemOp.d val s st =
    rw (memory8-stalled addr s) ((set_bytes8-Steady rv64 p val).run _)
write_at-Timed rv32 addr p MemOp.d val s st = absurd st
write_at-Timed x addr p _ val s st = absurd st

-- The same of a write, which the bus gives to the RAM only.
pub bus_write-Timed :
    (x : Xlen) (addr : ℕ) (op : MemOp) (val : ℕ) (s : Machine)
    → IsStore x op
    → Allows
        (Reaches s.perf_model (stalled (in_ram x addr op && is_unaligned op addr) s.mcycle) Any)
        (bus_write x addr op val s)
unfolding bus_write ram_write
bus_write-Timed x addr op val s st = elim (Bool-cases (in_ram x addr op)) [
  | inl e ↦ rw e (write_at-Timed x addr _ op val s st)
  | inr e ↦ rw e ((if-Steady (in_rom x addr op) (print-Steady _) (print-Steady _)).run s)
]
