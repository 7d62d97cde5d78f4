-- ===== src/Bus/Safe.antt =====
-- No access of the bus leaves its array, whatever the address and the width.
use rvem.Common.{
  ℕ, ◌+◌, ◌-◌, ◌%◌, ◌^◌, ◌<◌, ◌≤◌, ◌≡◌, arith, true, Option, none, some, bit_or, Bool-cases, inl,
  inr,
}
use native.Mathlib.Nat.{mod-le, pow-le-pow_right}
use rvem.Common.Bits.{bit_or-lt}
use rvem.Common.Word.{u8, u32, u64, ◌<<<◌, ◌>>>◌, of_signed-lt, to_signed}
use rvem.Arch.{Xlen, rv32, rv64, bits, rom_start, ram_start, rom_size, ram_size}
use rvem.Riscv.{MemOp}
use rvem.Machine.{M, pure, wrap, rom_byte, ram_byte, unmapped_read, rom_write, unmapped_write}
use rvem.Machine.Safe.{
  Safe, weaken, bind, pure-Safe, if-Safe, print-Safe, rom_byte-Safe, ram_byte-Safe,
  set_ram_byte-Safe,
}
use rvem.Perf.Laws.{memory-Safe}
use rvem.Bus.{bytes2, bytes4, bytes8, read_at, rom_read, ram_read, range, in_ram, in_rom, bus_read}
use rvem.Bus.{set_bytes2, set_bytes4, set_bytes8, write_at, ram_write, bus_write}

-- What a read stores is a register value.
abbrev pub InRegister : Xlen → Option ℕ → Type 0
InRegister x none = Unit
InRegister x (some v) = v < 2 ^ bits x

or-lt : {a b : ℕ} → a < 2 ^ 64 → b < 2 ^ 64 → bit_or a b < 2 ^ 64
or-lt {a} {b} = bit_or-lt 64 a b

wide : (b k : ℕ) → u64 (b <<< k) < 2 ^ 64
wide b k = omega arith

module _ {x : Xlen} (byte : ℕ → M ℕ) (size : ℕ) (small : size ≤ 2 ^ 20)
    (safe : (i : ℕ) → i < size → Safe x 0 (λ v. v < 2 ^ 8) (byte i)) where
  index : (p i : ℕ) → p + i < size → wrap x (p + i) < size
  index p i h = omega (arith, mod-le (p + i) (2 ^ bits x))

  bytes2-Safe : (p : ℕ) → p + 1 < size → Safe x 0 (λ v. v < 2 ^ 16) (bytes2 x byte p)
  unfolding bytes2
  bytes2-Safe p h = bind (safe (wrap x (p + 1)) (index p 1 h)) λ b1 h1.
      bind (safe p (omega arith))
        λ b0 h0. pure-Safe (bit_or-lt 16 (b1 <<< 8) b0 (omega arith) (omega arith))

  bytes4-Safe : (p : ℕ) → p + 3 < size → Safe x 0 (λ v. v < 2 ^ 32) (bytes4 x byte p)
  unfolding bytes4
  bytes4-Safe p h = bind (safe (wrap x (p + 3)) (index p 3 h)) λ b3 _.
      bind (safe (wrap x (p + 2)) (index p 2 (omega arith))) λ b2 _.
        bind (safe (wrap x (p + 1)) (index p 1 (omega arith))) λ b1 _.
          bind (safe p (omega arith)) λ b0 h0. pure-Safe (
            bit_or-lt 32 (bit_or (bit_or (u32 (b3 <<< 24)) (u32 (b2 <<< 16))) (u32 (b1 <<< 8))) b0
              (bit_or-lt 32 (bit_or (u32 (b3 <<< 24)) (u32 (b2 <<< 16))) (u32 (b1 <<< 8))
                (bit_or-lt 32 (u32 (b3 <<< 24)) (u32 (b2 <<< 16)) (omega arith) (omega arith))
                (omega arith))
              (omega arith))

  bytes8-Safe : (p : ℕ) → p + 7 < size → Safe x 0 (λ v. v < 2 ^ 64) (bytes8 x byte p)
  unfolding bytes8
  bytes8-Safe p h = bind (safe (wrap x (p + 7)) (index p 7 h)) λ b7 _.
      bind (safe (wrap x (p + 6)) (index p 6 (omega arith))) λ b6 _.
        bind (safe (wrap x (p + 5)) (index p 5 (omega arith))) λ b5 _.
          bind (safe (wrap x (p + 4)) (index p 4 (omega arith))) λ b4 _.
            bind (safe (wrap x (p + 3)) (index p 3 (omega arith))) λ b3 _.
              bind (safe (wrap x (p + 2)) (index p 2 (omega arith))) λ b2 _.
                bind (safe (wrap x (p + 1)) (index p 1 (omega arith))) λ b1 _.
                  bind (safe p (omega arith)) λ b0 h0. pure-Safe (
                    or-lt
                      (or-lt
                        (or-lt
                          (or-lt
                            (or-lt (or-lt (or-lt (wide b7 56) (wide b6 48)) (wide b5 40))
                              (wide b4 32))
                            (wide b3 24))
                          (wide b2 16))
                        (wide b1 8))
                      (omega arith))

-- A value narrower than a register fits it.
widen : (x : Xlen) (w v : ℕ) → w ≤ 32 → v < 2 ^ w → v < 2 ^ bits x
widen rv32 w v h p = omega (arith, pow-le-pow_right {n = 2} (omega arith) {i = w} {j = 32} h)
widen rv64 w v h p = omega (arith, pow-le-pow_right {n = 2} (omega arith) {i = w} {j = 32} h)

read_at-Safe :
    (x : Xlen) (byte : ℕ → M ℕ) (size : ℕ)
    → size ≤ 2 ^ 20
    → ((i : ℕ) → i < size → Safe x 0 (λ v. v < 2 ^ 8) (byte i))
    → (addr p : ℕ) (op : MemOp) → p + range x op < size
    → Safe x 1 (InRegister x) (read_at x byte addr p op)
unfolding read_at range
read_at-Safe x byte size small safe addr p MemOp.b h =
    bind (safe p (omega arith)) (λ v _.
      weaken 0 1 (omega arith) (pure-Safe (of_signed-lt (bits x) (to_signed 8 (v % 2 ^ 8)))))
read_at-Safe x byte size small safe addr p MemOp.bu h =
    bind (safe p (omega arith))
      (λ v lt. weaken 0 1 (omega arith) (pure-Safe (widen x 8 v (omega arith) lt)))
read_at-Safe x byte size small safe addr p MemOp.h h = bind (memory-Safe 2 addr) λ _ _.
    bind (bytes2-Safe byte size small safe p h)
      λ v _. pure-Safe (of_signed-lt (bits x) (to_signed 16 (v % 2 ^ 16)))
read_at-Safe x byte size small safe addr p MemOp.hu h = bind (memory-Safe 2 addr) λ _ _.
    bind (bytes2-Safe byte size small safe p h) λ v lt. pure-Safe (widen x 16 v (omega arith) lt)
read_at-Safe x byte size small safe addr p MemOp.w h = bind (memory-Safe 4 addr) λ _ _.
    bind (bytes4-Safe byte size small safe p h)
      λ v _. pure-Safe (of_signed-lt (bits x) (to_signed 32 (v % 2 ^ 32)))
read_at-Safe rv64 byte size small safe addr p MemOp.wu h =
    bind (memory-Safe 4 addr)
      λ _ _. bind (bytes4-Safe byte size small safe p h) λ v lt. pure-Safe (omega arith)
read_at-Safe rv64 byte size small safe addr p MemOp.d h = bind (memory-Safe 8 addr) λ _ _.
    bind (bytes8-Safe byte size small safe p h)
      λ v lt. pure-Safe (of_signed-lt 64 (to_signed 64 (v % 2 ^ 64)))
read_at-Safe rv32 byte size small safe addr p MemOp.wu h = weaken 0 1 (omega arith) (pure-Safe tt)
read_at-Safe rv32 byte size small safe addr p MemOp.d h = weaken 0 1 (omega arith) (pure-Safe tt)
read_at-Safe x byte size small safe addr p MemOp.none h = weaken 0 1 (omega arith) (pure-Safe tt)

range-le : (x : Xlen) (op : MemOp) → range x op ≤ 7
unfolding range
range-le rv32 MemOp.h = omega arith
range-le rv64 MemOp.h = omega arith
range-le rv32 _ = ground arith
range-le rv64 _ = ground arith

-- Where the bus routes an address to an array, the access fits the array.
pub in_ram-index :
    (x : Xlen) (addr : ℕ) (op : MemOp)
    → addr < 2 ^ bits x
    → in_ram x addr op ≡ true
    → wrap x (addr + 2 ^ bits x - ram_start) + range x op < ram_size
unfolding in_ram
in_ram-index rv32 addr op h e = ground (arith, range-le rv32 op)
in_ram-index rv64 addr op h e = ground (arith, range-le rv64 op)

pub in_rom-index :
    (x : Xlen) (addr : ℕ) (op : MemOp)
    → addr < 2 ^ bits x
    → in_rom x addr op ≡ true
    → wrap x (addr + 2 ^ bits x - rom_start) + range x op < rom_size
unfolding in_rom
in_rom-index rv32 addr op h e = ground (arith, range-le rv32 op)
in_rom-index rv64 addr op h e = ground (arith, range-le rv64 op)

-- A bus read indexes no array out of bounds, and what it stores is a register value.
pub bus_read-Safe :
    (x : Xlen) (addr : ℕ) (op : MemOp)
    → addr < 2 ^ bits x
    → Safe x 1 (InRegister x) (bus_read x addr op)
unfolding bus_read ram_read rom_read
bus_read-Safe x addr op h = elim (Bool-cases (in_ram x addr op)) [
  | inl ram ↦ rw ram (
      read_at-Safe x ram_byte ram_size (omega arith) ram_byte-Safe addr _ op
        (in_ram-index x addr op h ram))
  | inr no_ram ↦ elim (Bool-cases (in_rom x addr op)) [
    | inl rom ↦
        rw (no_ram, rom)
          (read_at-Safe x rom_byte rom_size (omega arith) rom_byte-Safe addr _ op
            (in_rom-index x addr op h rom))
    | inr no_rom ↦
        rw (no_ram, no_rom)
          (bind {f = λ _. pure none} (print-Safe (unmapped_read addr))
            (λ _ _. weaken 0 1 (omega arith) (pure-Safe {a = none} tt)))
  ]
]

index_at : (x : Xlen) (p i : ℕ) → p + i < ram_size → wrap x (p + i) < ram_size
index_at x p i h = omega (arith, mod-le (p + i) (2 ^ bits x))

module _ {x : Xlen} (p val : ℕ) where
  set_bytes2-Safe : p + 1 < ram_size → Safe x 0 (λ _. Unit {0}) (set_bytes2 x p val)
  unfolding set_bytes2
  set_bytes2-Safe h =
      bind (set_ram_byte-Safe p (u8 val) (omega arith) (omega arith))
        λ _ _. set_ram_byte-Safe (wrap x (p + 1)) (u8 (val >>> 8)) (index_at x p 1 h) (omega arith)

  set_bytes4-Safe : p + 3 < ram_size → Safe x 0 (λ _. Unit {0}) (set_bytes4 x p val)
  unfolding set_bytes4
  set_bytes4-Safe h = bind (set_bytes2-Safe (omega arith)) λ _ _.
      bind
        (set_ram_byte-Safe (wrap x (p + 2)) (u8 (val >>> 16)) (index_at x p 2 (omega arith))
          (omega arith))
        λ _ _. set_ram_byte-Safe (wrap x (p + 3)) (u8 (val >>> 24)) (index_at x p 3 h) (omega arith)

  set_bytes8-Safe : p + 7 < ram_size → Safe x 0 (λ _. Unit {0}) (set_bytes8 x p val)
  unfolding set_bytes8
  set_bytes8-Safe h = bind (set_bytes4-Safe (omega arith)) λ _ _.
      bind
        (set_ram_byte-Safe (wrap x (p + 4)) (u8 (val >>> 32)) (index_at x p 4 (omega arith))
          (omega arith))
        λ _ _.
          bind
            (set_ram_byte-Safe (wrap x (p + 5)) (u8 (val >>> 40)) (index_at x p 5 (omega arith))
              (omega arith))
            λ _ _.
              bind
                (set_ram_byte-Safe (wrap x (p + 6)) (u8 (val >>> 48)) (index_at x p 6 (omega arith))
                  (omega arith))
                λ _ _.
                  set_ram_byte-Safe (wrap x (p + 7)) (u8 (val >>> 56)) (index_at x p 7 h)
                    (omega arith)

write_at-Safe :
    (x : Xlen) (addr p : ℕ) (op : MemOp) (val : ℕ)
    → p + range x op < ram_size
    → Safe x 1 (λ _. Unit {0}) (write_at x addr p op val)
unfolding write_at range
write_at-Safe x addr p MemOp.b val h =
    weaken 0 1 (omega arith) (set_ram_byte-Safe p (u8 val) (omega arith) (omega arith))
write_at-Safe x addr p MemOp.h val h = bind (memory-Safe 2 addr) (λ _ _. set_bytes2-Safe p val h)
write_at-Safe x addr p MemOp.w val h = bind (memory-Safe 4 addr) (λ _ _. set_bytes4-Safe p val h)
write_at-Safe rv64 addr p MemOp.d val h = bind (memory-Safe 8 addr) (λ _ _. set_bytes8-Safe p val h)
write_at-Safe rv32 addr p MemOp.d val h = weaken 0 1 (omega arith) (pure-Safe tt)
write_at-Safe rv32 addr p _ val h = weaken 0 1 (omega arith) (pure-Safe tt)
write_at-Safe rv64 addr p _ val h = weaken 0 1 (omega arith) (pure-Safe tt)

-- A bus write indexes no array out of bounds.
pub bus_write-Safe :
    (x : Xlen) (addr : ℕ) (op : MemOp) (val : ℕ)
    → addr < 2 ^ bits x
    → Safe x 1 (λ _. Unit {0}) (bus_write x addr op val)
unfolding bus_write ram_write
bus_write-Safe x addr op val h = elim (Bool-cases (in_ram x addr op)) [
  | inl ram ↦ rw ram (write_at-Safe x addr _ op val (in_ram-index x addr op h ram))
  | inr no_ram ↦ rw no_ram (
      weaken 0 1 (omega arith) (
        if-Safe (in_rom x addr op) (print-Safe (rom_write addr))
          (print-Safe (unmapped_write addr))))
]
