-- ===== src/Bus/Gather.antt =====
-- The bytes of an array of bytes, put together as the reads do it.
use rvem.Common.{ℕ, ◌+◌, ◌%◌, ◌^◌, ◌<◌, ◌≤◌, ◌≡◌, arith, some}
use rvem.Common.Word.{u8, ◌>>>◌}
use rvem.Arch.{Xlen, rv32, rv64}
use rvem.Machine.{Machine, Cpu, M, wrap}
use rvem.Bus.{bytes2, bytes4, bytes8}
use rvem.Bus.Bytes.{join2, join4, join8}

-- The index of a byte does not wrap.
offset : (x : Xlen) (size : ℕ) → size ≤ 2 ^ 20 → (p i : ℕ) → p + i < size → wrap x (p + i) ≡ p + i
offset rv32 size small p i h = omega arith
offset rv64 size small p i h = omega arith

-- val is put together from its bytes, where a read of the array gives them.
module _ (x : Xlen) (byte : ℕ → M ℕ) (arr : Cpu → ℕ → ℕ) (size : ℕ) (small : size ≤ 2 ^ 20)
    (get : (i : ℕ) (s : Machine) → i < size → byte i s ≡ some (arr s.cpu i, s)) (p val : ℕ) where
  pub bytes2-gathered :
      (s : Machine)
      → p + 1 < size
      → arr s.cpu p ≡ u8 val
      → arr s.cpu (p + 1) ≡ u8 (val >>> 8)
      → bytes2 x byte p s ≡ some (val % 2 ^ 16, s)
  unfolding bytes2
  bytes2-gathered s h e0 e1 =
      rw (offset x size small p 1 h, get (p + 1) s h, get p s (omega arith), e1, e0, join2 val)

  pub bytes4-gathered :
      (s : Machine)
      → p + 3 < size
      → arr s.cpu p ≡ u8 val
      → arr s.cpu (p + 1) ≡ u8 (val >>> 8)
      → arr s.cpu (p + 2) ≡ u8 (val >>> 16)
      → arr s.cpu (p + 3) ≡ u8 (val >>> 24)
      → bytes4 x byte p s ≡ some (val % 2 ^ 32, s)
  unfolding bytes4
  bytes4-gathered s h e0 e1 e2 e3 = rw (
    offset x size small p 3 h,
    offset x size small p 2 (omega arith),
    offset x size small p 1 (omega arith),
    get (p + 3) s h,
    get (p + 2) s (omega arith),
    get (p + 1) s (omega arith),
    get p s (omega arith),
    e3,
    e2,
    e1,
    e0,
    join4 val,
  )

  pub bytes8-gathered :
      (s : Machine)
      → p + 7 < size
      → arr s.cpu p ≡ u8 val
      → arr s.cpu (p + 1) ≡ u8 (val >>> 8)
      → arr s.cpu (p + 2) ≡ u8 (val >>> 16)
      → arr s.cpu (p + 3) ≡ u8 (val >>> 24)
      → arr s.cpu (p + 4) ≡ u8 (val >>> 32)
      → arr s.cpu (p + 5) ≡ u8 (val >>> 40)
      → arr s.cpu (p + 6) ≡ u8 (val >>> 48)
      → arr s.cpu (p + 7) ≡ u8 (val >>> 56)
      → bytes8 x byte p s ≡ some (val % 2 ^ 64, s)
  unfolding bytes8
  bytes8-gathered s h e0 e1 e2 e3 e4 e5 e6 e7 = rw (
    offset x size small p 7 (omega arith),
    offset x size small p 6 (omega arith),
    offset x size small p 5 (omega arith),
    offset x size small p 4 (omega arith),
    offset x size small p 3 (omega arith),
    offset x size small p 2 (omega arith),
    offset x size small p 1 (omega arith),
    get (p + 7) s (omega arith),
    get (p + 6) s (omega arith),
    get (p + 5) s (omega arith),
    get (p + 4) s (omega arith),
    get (p + 3) s (omega arith),
    get (p + 2) s (omega arith),
    get (p + 1) s (omega arith),
    get p s (omega arith),
    e7,
    e6,
    e5,
    e4,
    e3,
    e2,
    e1,
    e0,
    join8 val,
  )
