-- ===== src/Bus/Pokes.antt =====
-- Accesses of the RAM byte by byte, as equations on the state.
use rvem.Common.{
  ℕ, ◌+◌, ◌-◌, ◌%◌, ◌^◌, ◌<◌, ◌≡◌, arith, some, ◌==◌, lt→ltb, bit_and, not, Bool-cases, inl, inr,
}
use rvem.Common.Word.{u8, u64, ◌>>>◌}
use rvem.Arch.{Xlen, rv32, rv64, ram_size}
use rvem.Machine.{Machine, wrap, update, ram_byte, set_ram_byte, tick}
use rvem.Perf.{memory}
use rvem.Bus.{bytes2, bytes4, bytes8, set_bytes2, set_bytes4, set_bytes8}
use rvem.Bus.Gather.{bytes2-gathered, bytes4-gathered, bytes8-gathered}

abbrev pub poke : Machine → ℕ → ℕ → Machine
poke s i v = record s { cpu = record (s.cpu) { ram = update s.cpu.ram i v } }

pub set_ram_byte-poke :
    (i v : ℕ) (s : Machine) → i < ram_size → set_ram_byte i v s ≡ some (tt, poke s i v)
unfolding set_ram_byte
set_ram_byte-poke i v s h = rw (lt→ltb i ram_size h)

pub ram_byte-get : (i : ℕ) (s : Machine) → i < ram_size → ram_byte i s ≡ some (s.cpu.ram i, s)
unfolding ram_byte
ram_byte-get i s h = rw (lt→ltb i ram_size h)

-- The index of a byte does not wrap.
offset : (x : Xlen) (p i : ℕ) → p + i < ram_size → wrap x (p + i) ≡ p + i
offset rv32 p i h = omega arith
offset rv64 p i h = omega arith

module _ (x : Xlen) (p val : ℕ) where
  pub set_bytes2-poke :
      (s : Machine)
      → p + 1 < ram_size
      → set_bytes2 x p val s ≡ some (tt, poke (poke s p (u8 val)) (p + 1) (u8 (val >>> 8)))
  unfolding set_bytes2
  set_bytes2-poke s h = rw (
    offset x p 1 h,
    set_ram_byte-poke p (u8 val) s (omega arith),
    set_ram_byte-poke (p + 1) (u8 (val >>> 8)) _ h,
  )

  pub set_bytes4-poke :
      (s : Machine)
      → p + 3 < ram_size
      → set_bytes4 x p val s
        ≡ some (
          tt,
          poke
              (poke (poke (poke s p (u8 val)) (p + 1) (u8 (val >>> 8))) (p + 2) (u8 (val >>> 16)))
              (p + 3)
              (u8 (val >>> 24)),
        )
  unfolding set_bytes4
  set_bytes4-poke s h = rw (
    offset x p 3 h,
    offset x p 2 (omega arith),
    set_bytes2-poke s (omega arith),
    set_ram_byte-poke (p + 2) _ _ (omega arith),
    set_ram_byte-poke (p + 3) _ _ h,
  )

  pub bytes2-get :
      (s : Machine)
      → p + 1 < ram_size
      → s.cpu.ram p ≡ u8 val
      → s.cpu.ram (p + 1) ≡ u8 (val >>> 8)
      → bytes2 x ram_byte p s ≡ some (val % 2 ^ 16, s)
  bytes2-get s h e0 e1 =
      bytes2-gathered x ram_byte (λ c. c.ram) ram_size (omega arith) ram_byte-get p val s h e0 e1

  pub bytes4-get :
      (s : Machine)
      → p + 3 < ram_size
      → s.cpu.ram p ≡ u8 val
      → s.cpu.ram (p + 1) ≡ u8 (val >>> 8)
      → s.cpu.ram (p + 2) ≡ u8 (val >>> 16)
      → s.cpu.ram (p + 3) ≡ u8 (val >>> 24)
      → bytes4 x ram_byte p s ≡ some (val % 2 ^ 32, s)
  bytes4-get s h e0 e1 e2 e3 =
      bytes4-gathered x ram_byte (λ c. c.ram) ram_size (omega arith) ram_byte-get p val s h e0 e1 e2
        e3

  pub set_bytes8-poke :
      (s : Machine)
      → p + 7 < ram_size
      → set_bytes8 x p val s
        ≡ some (
          tt,
          poke
              (poke
                (poke
                  (poke
                    (poke
                      (poke
                        (poke (poke s p (u8 val)) (p + 1) (u8 (val >>> 8)))
                        (p + 2)
                        (u8 (val >>> 16)))
                      (p + 3)
                      (u8 (val >>> 24)))
                    (p + 4)
                    (u8 (val >>> 32)))
                  (p + 5)
                  (u8 (val >>> 40)))
                (p + 6)
                (u8 (val >>> 48)))
              (p + 7)
              (u8 (val >>> 56)),
        )
  unfolding set_bytes8
  set_bytes8-poke s h = rw (
    offset x p 7 h,
    offset x p 6 (omega arith),
    offset x p 5 (omega arith),
    offset x p 4 (omega arith),
    set_bytes4-poke s (omega arith),
    set_ram_byte-poke (p + 4) _ _ (omega arith),
    set_ram_byte-poke (p + 5) _ _ (omega arith),
    set_ram_byte-poke (p + 6) _ _ (omega arith),
    set_ram_byte-poke (p + 7) _ _ h,
  )

  pub bytes8-get :
      (s : Machine)
      → p + 7 < ram_size
      → s.cpu.ram p ≡ u8 val
      → s.cpu.ram (p + 1) ≡ u8 (val >>> 8)
      → s.cpu.ram (p + 2) ≡ u8 (val >>> 16)
      → s.cpu.ram (p + 3) ≡ u8 (val >>> 24)
      → s.cpu.ram (p + 4) ≡ u8 (val >>> 32)
      → s.cpu.ram (p + 5) ≡ u8 (val >>> 40)
      → s.cpu.ram (p + 6) ≡ u8 (val >>> 48)
      → s.cpu.ram (p + 7) ≡ u8 (val >>> 56)
      → bytes8 x ram_byte p s ≡ some (val % 2 ^ 64, s)
  bytes8-get s h e0 e1 e2 e3 e4 e5 e6 e7 =
      bytes8-gathered x ram_byte (λ c. c.ram) ram_size (omega arith) ram_byte-get p val s h e0 e1 e2
        e3 e4 e5 e6 e7

-- The penalty changes mcycle only.
pub memory-mcycle :
    (n addr : ℕ) (s : Machine) → (k : ℕ) × (memory n addr s ≡ some (tt, record s { mcycle = k }))
unfolding memory tick
memory-mcycle n addr s = elim (Bool-cases (not (bit_and addr (n - 1) == 0))) [
  | inl e ↦ (u64 (s.mcycle + 1), rw e)
  | inr e ↦ (s.mcycle, rw e)
]
