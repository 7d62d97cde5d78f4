-- ===== src/Bus/RoundTrip.antt =====
-- What is stored is loaded again, at every width.
use rvem.Common.{ℕ, ◌+◌, ◌*◌, ◌%◌, ◌^◌, ◌<◌, ◌≡◌, arith, ap, true, some}
use rvem.Common.Word.{u8, ◌>>>◌, sign_extend, of_signed, to_signed}
use rvem.Arch.{Xlen, rv32, rv64, bits, ram_size}
use rvem.Riscv.{MemOp}
use rvem.Machine.{Machine, update, ram_byte}
use rvem.Machine.Safe.{Ensures}
use rvem.Bus.{read_at, write_at, in_ram, bus_read, bus_write, ram_read, ram_write, range}
use rvem.Bus.Pokes.{
  poke, set_ram_byte-poke, ram_byte-get, set_bytes2-poke, set_bytes4-poke, set_bytes8-poke,
  bytes2-get, bytes4-get, bytes8-get, memory-mcycle,
}
use rvem.Bus.Safe.{in_ram-index}

same_value :
    (x : Xlen) (w m n : ℕ)
    → m % 2 ^ w ≡ n % 2 ^ w
    → some (sign_extend w (bits x) m) ≡ some (sign_extend w (bits x) n)
same_value x w m n e = ap (λ (k : ℕ). some (of_signed (bits x) (to_signed w k))) e

-- The operations that store.
abbrev pub IsStore : Xlen → MemOp → Type 0
IsStore x MemOp.b = Unit
IsStore x MemOp.h = Unit
IsStore x MemOp.w = Unit
IsStore rv64 MemOp.d = Unit
IsStore _ _ = ⊥

write_at-read_at :
    (x : Xlen) (addr p : ℕ) (op : MemOp) (val : ℕ) (s : Machine)
    → IsStore x op
    → p + range x op < ram_size
    → Ensures
        (λ _ t.
          Ensures
            (λ r _. r ≡ some (sign_extend (8 * (range x op + 1)) (bits x) val))
            (read_at x ram_byte addr p op t))
        (write_at x addr p op val s)
unfolding write_at read_at range
write_at-read_at x addr p MemOp.b val s st h =
    rw (set_ram_byte-poke p (u8 val) s (omega arith), ram_byte-get p _ (omega arith))
      (same_value x 8 _ val (unfold update in ground arith))
write_at-read_at x addr p MemOp.h val s st h =
    let (k, stalls) = memory-mcycle 2 addr s in
    let t : Machine = poke (poke (record s { mcycle = k }) p (u8 val)) (p + 1) (u8 (val >>> 8)) in
    let (j, stalls_again) = memory-mcycle 2 addr t in
    rw
      (
        stalls,
        set_bytes2-poke x p val (record s { mcycle = k }) h,
        stalls_again,
        bytes2-get x p val (record t { mcycle = j }) h (unfold update in ground arith)
            (unfold update in ground arith),
      )
      (same_value x 16 (val % 2 ^ 16) val (omega arith))
write_at-read_at x addr p MemOp.w val s st h =
    let (k, stalls) = memory-mcycle 4 addr s in
    let t : Machine =
      poke
        (poke (poke (poke (record s { mcycle = k }) p (u8 val)) (p + 1) (u8 (val >>> 8))) (p + 2)
          (u8 (val >>> 16)))
        (p + 3) (u8 (val >>> 24)) in
    let (j, stalls_again) = memory-mcycle 4 addr t in
    rw
      (
        stalls,
        set_bytes4-poke x p val (record s { mcycle = k }) h,
        stalls_again,
        bytes4-get x p val (record t { mcycle = j }) h (unfold update in ground arith)
            (unfold update in ground arith) (unfold update in ground arith)
            (unfold update in ground arith),
      )
      (same_value x 32 (val % 2 ^ 32) val (omega arith))
write_at-read_at rv64 addr p MemOp.d val s st h =
    let (k, stalls) = memory-mcycle 8 addr s in
    let t : Machine =
      poke
        (poke
          (poke
            (poke
              (poke
                (poke (poke (poke (record s { mcycle = k }) p (u8 val)) (p + 1) (u8 (val >>> 8)))
                  (p + 2) (u8 (val >>> 16)))
                (p + 3) (u8 (val >>> 24)))
              (p + 4) (u8 (val >>> 32)))
            (p + 5) (u8 (val >>> 40)))
          (p + 6) (u8 (val >>> 48)))
        (p + 7) (u8 (val >>> 56)) in
    let (j, stalls_again) = memory-mcycle 8 addr t in
    rw
      (
        stalls,
        set_bytes8-poke rv64 p val (record s { mcycle = k }) h,
        stalls_again,
        bytes8-get rv64 p val (record t { mcycle = j }) h (unfold update in ground arith)
            (unfold update in ground arith) (unfold update in ground arith)
            (unfold update in ground arith) (unfold update in ground arith)
            (unfold update in ground arith) (unfold update in ground arith)
            (unfold update in ground arith),
      )
      (same_value rv64 64 (val % 2 ^ 64) val (omega arith))
write_at-read_at rv32 addr p MemOp.d val s st h = absurd st
write_at-read_at rv32 addr p _ val s st h = absurd st
write_at-read_at rv64 addr p _ val s st h = absurd st

-- Where an address lies in the RAM for the width of an access, a store returns, and a load of the
-- same width from that address in the state after it gives the low bytes of what was stored,
-- sign-extended to a register.
pub bus_write-bus_read :
    (x : Xlen) (addr : ℕ) (op : MemOp) (val : ℕ) (s : Machine)
    → IsStore x op
    → addr < 2 ^ bits x
    → in_ram x addr op ≡ true
    → Ensures
        (λ _ t.
          Ensures
            (λ r _. r ≡ some (sign_extend (8 * (range x op + 1)) (bits x) val))
            (bus_read x addr op t))
        (bus_write x addr op val s)
unfolding bus_write bus_read ram_write ram_read
bus_write-bus_read x addr op val s st h ram =
    rw ram (write_at-read_at x addr _ op val s st (in_ram-index x addr op h ram))
