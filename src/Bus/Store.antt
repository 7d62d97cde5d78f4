-- ===== src/Bus/Store.antt =====
-- What a store leaves in the RAM.
use native.Mathlib.Nat.{add-zero}
use mathlib.Core.Path.{fun_ext}
use rvem.Common.{
  ℕ, suc, sym, ltb, leb, ◌&&◌, ◌==◌, if◌then◌else◌, Bool-cases, ◌+◌, ◌-◌, ◌/◌, ◌%◌, ◌^◌, ◌<◌, ◌≡◌,
  refl, arith, ap, ◌∙◌, true, some, inl, inr,
}
use rvem.Common.Word.{u8, ◌>>>◌}
use rvem.Arch.{Xlen, rv32, rv64, bits, ram_size, ram_start}
use rvem.Riscv.{MemOp}
use rvem.Machine.{Machine, update}
use rvem.Bus.{write_at, range, in_ram, bus_write, ram_write}
use rvem.Bus.Safe.{in_ram-index}
use rvem.Bus.Pokes.{
  set_ram_byte-poke, set_bytes2-poke, set_bytes4-poke, set_bytes8-poke, memory-mcycle,
}
use rvem.Bus.RoundTrip.{IsStore}
use rvem.Bus.Load.{ram_index}

-- The RAM f with the n low bytes of val from index p on, the lowest first.
abbrev pub stored : (f : ℕ → ℕ) (p n val : ℕ) → ℕ → ℕ
stored f p n val j = if leb p j && ltb j (p + n) then val / 256 ^ (j - p) % 256 else f j

abbrev pub with_ram : Machine → ℕ → (ℕ → ℕ) → Machine
with_ram s k g = record s { mcycle = k; cpu = record (s.cpu) { ram = g } }

-- The RAM after the writes of each width.
abbrev poked2 : (ℕ → ℕ) → ℕ → ℕ → ℕ → ℕ
poked2 f p val = update (update f p (u8 val)) (p + 1) (u8 (val >>> 8))

abbrev poked4 : (ℕ → ℕ) → ℕ → ℕ → ℕ → ℕ
poked4 f p val =
    update (update (poked2 f p val) (p + 2) (u8 (val >>> 16))) (p + 3) (u8 (val >>> 24))

abbrev poked8 : (ℕ → ℕ) → ℕ → ℕ → ℕ → ℕ
poked8 f p val =
    update
      (update (update (update (poked4 f p val) (p + 4) (u8 (val >>> 32))) (p + 5) (u8 (val >>> 40)))
        (p + 6) (u8 (val >>> 48)))
      (p + 7) (u8 (val >>> 56))

-- One byte more.
stored-update :
    (f : ℕ → ℕ) (p n val b j : ℕ)
    → b ≡ val / 256 ^ n % 256
    → update (stored f p n val) (p + n) b j ≡ stored f p (suc n) val j
unfolding update
stored-update f p n val b j e = elim (Bool-cases (j == p + n)) [
  | inl h ↦
      let same : j ≡ p + n = ground arith in
      let k : j - p ≡ n = omega arith in
      let low : leb p j ≡ true = ground arith in
      let high : ltb j (p + suc n) ≡ true = ground arith in rw (h, low, high, k) e
  | inr h ↦ let low : ltb j (p + n) ≡ ltb j (p + suc n) = ground arith in rw (h, low)
]

next_byte :
    (f g : ℕ → ℕ) (p n val b : ℕ)
    → b ≡ val / 256 ^ n % 256
    → g ≡ stored f p n val
    → update g (p + n) b ≡ stored f p (suc n) val
next_byte f g p n val b e h =
    ap (λ (q : ℕ → ℕ). update q (p + n) b) h ∙ fun_ext (λ j. stored-update f p n val b j e)

module _ (f : ℕ → ℕ) (p val : ℕ) where
  none_stored : f ≡ stored f p 0 val
  none_stored = fun_ext (λ j. ground arith)

  poked1-stored : update f p (u8 val) ≡ stored f p 1 val
  poked1-stored =
      ap (λ (q : ℕ). update f q (u8 val)) (sym (add-zero p))
      ∙ next_byte f f p 0 val (u8 val) (omega arith) none_stored

  poked2-stored : poked2 f p val ≡ stored f p 2 val
  poked2-stored = next_byte f (update f p (u8 val)) p 1 val (u8 (val >>> 8)) refl poked1-stored

  poked4-stored : poked4 f p val ≡ stored f p 4 val
  poked4-stored =
      next_byte f _ p 3 val (u8 (val >>> 24)) refl
        (next_byte f _ p 2 val (u8 (val >>> 16)) refl poked2-stored)

  poked8-stored : poked8 f p val ≡ stored f p 8 val
  poked8-stored = next_byte f _ p 7 val (u8 (val >>> 56)) refl (
      next_byte f _ p 6 val (u8 (val >>> 48)) refl (
        next_byte f _ p 5 val (u8 (val >>> 40)) refl
          (next_byte f _ p 4 val (u8 (val >>> 32)) refl poked4-stored)))

-- The switch of ram_write.
pub write_at-stored :
    (x : Xlen) (addr p val : ℕ) (s : Machine) (op : MemOp)
    → IsStore x op
    → p + range x op < ram_size
    → (k : ℕ) × (write_at x addr p op val s
        ≡ some (tt, with_ram s k (stored s.cpu.ram p (suc (range x op)) val)))
unfolding write_at range
write_at-stored x addr p val s MemOp.b st h = (
  s.mcycle,
  set_ram_byte-poke p (u8 val) s (omega arith)
      ∙ ap (λ (g : ℕ → ℕ). some (tt, with_ram s s.mcycle g)) (poked1-stored s.cpu.ram p val),
)
write_at-stored x addr p val s MemOp.h st h =
    let (k, stalls) = memory-mcycle 2 addr s in
    (
      k,
      rw (stalls, set_bytes2-poke x p val (record s { mcycle = k }) h)
          (ap (λ (g : ℕ → ℕ). some (tt, with_ram s k g)) (poked2-stored s.cpu.ram p val)),
    )
write_at-stored x addr p val s MemOp.w st h =
    let (k, stalls) = memory-mcycle 4 addr s in
    (
      k,
      rw (stalls, set_bytes4-poke x p val (record s { mcycle = k }) h)
          (ap (λ (g : ℕ → ℕ). some (tt, with_ram s k g)) (poked4-stored s.cpu.ram p val)),
    )
write_at-stored rv64 addr p val s MemOp.d st h =
    let (k, stalls) = memory-mcycle 8 addr s in
    (
      k,
      rw (stalls, set_bytes8-poke rv64 p val (record s { mcycle = k }) h)
          (ap (λ (g : ℕ → ℕ). some (tt, with_ram s k g)) (poked8-stored s.cpu.ram p val)),
    )
write_at-stored rv32 addr p val s MemOp.d st h = absurd st
write_at-stored x addr p val s _ st h = absurd st

-- A store to an address of the RAM leaves the low bytes of val there, the lowest first, as many as
-- its width has, and changes nothing else but mcycle. It asks for an operation of the width and an
-- address that fits a register.
pub bus_write-stored :
    (x : Xlen) (addr val : ℕ) (s : Machine) (op : MemOp)
    → IsStore x op
    → addr < 2 ^ bits x
    → in_ram x addr op ≡ true
    → (k : ℕ) × (bus_write x addr op val s
        ≡ some (tt, with_ram s k (stored s.cpu.ram (addr - ram_start) (suc (range x op)) val)))
unfolding bus_write ram_write
bus_write-stored x addr val s op st h e =
    rw (e, ram_index x addr op h e)
      (write_at-stored x addr (addr - ram_start) val s op st
        (rw (ram_index x addr op h e) at (in_ram-index x addr op h e)))
