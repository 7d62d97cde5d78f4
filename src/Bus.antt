-- ===== src/Bus.antt =====
-- inc/cpu.h and inc/bus.h: the two memories, little-endian, and the bus in front of them. A read
-- returns what is stored through `val`, and `none` where `*val` is left as it was.
pub mod Bytes
pub mod Safe
pub mod Gather
pub mod Load
pub mod Outside
pub mod Pokes
pub mod RoundTrip
pub mod Store
pub mod Frame
pub mod Blind
pub mod Timing
use rvem.Common.{
  ℕ, ◌+◌, ◌-◌, ◌*◌, ◌/◌, ◌%◌, ◌^◌, Bool, ◌&&◌, Option, none, some, bit_or, ltb, leb, ◌==◌,
  if◌then◌else◌,
}
use rvem.Common.Word.{u8, u32, u64, ◌<<<◌, ◌>>>◌, sign_extend}
use rvem.Arch.{Xlen, rv32, rv64, bits, rom_start, ram_start, rom_size, ram_size}
use rvem.Riscv.{MemOp}
use rvem.Machine.{
  Event, unmapped_read, rom_write, unmapped_write, M, pure, ◌>>=◌, ◌>>◌, wrap, print, rom_byte,
  ram_byte, set_ram_byte,
}
use rvem.Perf
use rvem.Perf.{memory}

-- The bytes from p on, put together by shifts and ors.
module _ (x : Xlen) (byte : ℕ → M ℕ) (p : ℕ) where
  unfoldable pub bytes2 : M ℕ
  bytes2 = do b1 ← byte (wrap x (p + 1)); b0 ← byte p; pure (bit_or (b1 <<< 8) b0)

  unfoldable pub bytes4 : M ℕ
  bytes4 = do
    b3 ← byte (wrap x (p + 3))
    b2 ← byte (wrap x (p + 2))
    b1 ← byte (wrap x (p + 1))
    b0 ← byte p
    pure (bit_or (bit_or (bit_or (u32 (b3 <<< 24)) (u32 (b2 <<< 16))) (u32 (b1 <<< 8))) b0)

  unfoldable pub bytes8 : M ℕ
  bytes8 = do
    b7 ← byte (wrap x (p + 7))
    b6 ← byte (wrap x (p + 6))
    b5 ← byte (wrap x (p + 5))
    b4 ← byte (wrap x (p + 4))
    b3 ← byte (wrap x (p + 3))
    b2 ← byte (wrap x (p + 2))
    b1 ← byte (wrap x (p + 1))
    b0 ← byte p
    let upper =
        bit_or (bit_or (bit_or (u64 (b7 <<< 56)) (u64 (b6 <<< 48))) (u64 (b5 <<< 40)))
          (u64 (b4 <<< 32))
    pure (
        bit_or (bit_or (bit_or (bit_or upper (u64 (b3 <<< 24))) (u64 (b2 <<< 16))) (u64 (b1 <<< 8)))
          b0)

-- The switch that rom_read and ram_read share, over the array's bytes; `addr` is the bus address
-- and p the index.
unfoldable pub read_at : Xlen → (ℕ → M ℕ) → (addr p : ℕ) → MemOp → M (Option ℕ)
unfolding bytes2 bytes4 bytes8 memory
read_at x byte addr p MemOp.b = do v ← byte p; pure (some (sign_extend 8 (bits x) v))
read_at x byte addr p MemOp.bu = do v ← byte p; pure (some v)
read_at x byte addr p MemOp.h = do
  memory 2 addr
  v ← bytes2 x byte p
  pure (some (sign_extend 16 (bits x) v))
read_at x byte addr p MemOp.hu = do memory 2 addr; v ← bytes2 x byte p; pure (some v)
read_at x byte addr p MemOp.w = do
  memory 4 addr
  v ← bytes4 x byte p
  pure (some (sign_extend 32 (bits x) v))
read_at rv64 byte addr p MemOp.wu = do memory 4 addr; v ← bytes4 rv64 byte p; pure (some v)
read_at rv64 byte addr p MemOp.d = do
  memory 8 addr
  v ← bytes8 rv64 byte p
  pure (some (sign_extend 64 (bits rv64) v))
read_at _ byte addr p _ = pure none

unfoldable pub rom_read : Xlen → ℕ → MemOp → M (Option ℕ)
unfolding read_at rom_byte
rom_read x addr op = read_at x rom_byte addr (wrap x (addr + 2 ^ bits x - rom_start)) op

unfoldable pub ram_read : Xlen → ℕ → MemOp → M (Option ℕ)
unfolding read_at ram_byte
ram_read x addr op = read_at x ram_byte addr (wrap x (addr + 2 ^ bits x - ram_start)) op

-- The bytes of val, the lowest first.
module _ (x : Xlen) (p val : ℕ) where
  unfoldable pub set_bytes2 : M (Unit {0})
  unfolding set_ram_byte
  set_bytes2 = do set_ram_byte p (u8 val); set_ram_byte (wrap x (p + 1)) (u8 (val >>> 8))

  unfoldable pub set_bytes4 : M (Unit {0})
  unfolding set_ram_byte set_bytes2
  set_bytes4 = do
    set_bytes2
    set_ram_byte (wrap x (p + 2)) (u8 (val >>> 16))
    set_ram_byte (wrap x (p + 3)) (u8 (val >>> 24))

  unfoldable pub set_bytes8 : M (Unit {0})
  unfolding set_ram_byte set_bytes4
  set_bytes8 = do
    set_bytes4
    set_ram_byte (wrap x (p + 4)) (u8 (val >>> 32))
    set_ram_byte (wrap x (p + 5)) (u8 (val >>> 40))
    set_ram_byte (wrap x (p + 6)) (u8 (val >>> 48))
    set_ram_byte (wrap x (p + 7)) (u8 (val >>> 56))

-- The switch of ram_write, with p the index of addr.
unfoldable pub write_at : Xlen → (addr p : ℕ) → MemOp → ℕ → M (Unit {0})
unfolding set_ram_byte set_bytes2 set_bytes4 set_bytes8 memory
write_at x addr p MemOp.b val = set_ram_byte p (u8 val)
write_at x addr p MemOp.h val = do memory 2 addr; set_bytes2 x p val
write_at x addr p MemOp.w val = do memory 4 addr; set_bytes4 x p val
write_at rv64 addr p MemOp.d val = do memory 8 addr; set_bytes8 rv64 p val
write_at _ addr p _ val = pure tt

unfoldable pub ram_write : Xlen → ℕ → MemOp → ℕ → M (Unit {0})
unfolding write_at
ram_write x addr op val = write_at x addr (wrap x (addr + 2 ^ bits x - ram_start)) op val

-- How many bytes an access takes beyond its first.
unfoldable pub range : Xlen → MemOp → ℕ
range x MemOp.h = 1
range x MemOp.hu = 1
range x MemOp.w = 3
range rv64 MemOp.wu = 3
range rv64 MemOp.d = 7
range _ _ = 0

unfoldable pub in_ram : Xlen → ℕ → MemOp → Bool
unfolding range
in_ram x addr op = leb ram_start addr && ltb addr (ram_start + ram_size - range x op)

unfoldable pub in_rom : Xlen → ℕ → MemOp → Bool
unfolding range
in_rom x addr op = ltb addr (rom_size - range x op)

unfoldable pub bus_read : Xlen → ℕ → MemOp → M (Option ℕ)
unfolding in_ram in_rom ram_read rom_read print
bus_read x addr op =
    if in_ram x addr op
    then ram_read x addr op
    else if in_rom x addr op
    then rom_read x addr op
    else do print (unmapped_read addr); pure none

unfoldable pub bus_write : Xlen → ℕ → MemOp → ℕ → M (Unit {0})
unfolding in_ram in_rom ram_write print
bus_write x addr op val =
    if in_ram x addr op
    then ram_write x addr op val
    else if in_rom x addr op
    then print (rom_write addr)
    else print (unmapped_write addr)
