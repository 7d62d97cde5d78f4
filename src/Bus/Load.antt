-- ===== src/Bus/Load.antt =====
-- What a load gives: the bytes at its address as a little-endian number.
use rvem.Common.{
  ℕ, ◌+◌, ◌-◌, ◌*◌, ◌%◌, ◌^◌, ◌<◌, ◌≤◌, ◌≡◌, arith, ap, ◌∙◌, true, ◌||◌, Bool-cases, inl, inr, some,
  lt→ltb, if◌then◌else◌,
}
use rvem.Common.Word.{sign_extend, of_signed-to_signed}
use rvem.Arch.{Xlen, rv32, rv64, bits, ram_size, rom_size, ram_start, rom_start}
use rvem.Riscv.{MemOp}
use rvem.Machine.{Machine, Cpu, M, wrap, ram_byte, rom_byte}
use rvem.Bus.{bytes2, bytes4, bytes8, read_at, range, in_ram, in_rom, bus_read, ram_read, rom_read}
use rvem.Bus.Gather.{bytes2-gathered, bytes4-gathered, bytes8-gathered}
use rvem.Bus.Pokes.{memory-mcycle, ram_byte-get}
use rvem.Bus.Safe.{in_ram-index, in_rom-index}

-- Numbers of two, four and eight bytes from p on.
abbrev pub little2 : (ℕ → ℕ) → ℕ → ℕ
little2 f p = f p + f (p + 1) * 2 ^ 8

abbrev pub little4 : (ℕ → ℕ) → ℕ → ℕ
little4 f p = f p + f (p + 1) * 2 ^ 8 + f (p + 2) * 2 ^ 16 + f (p + 3) * 2 ^ 24

abbrev pub little8 : (ℕ → ℕ) → ℕ → ℕ
little8 f p =
    f p
    + f (p + 1) * 2 ^ 8
    + f (p + 2) * 2 ^ 16
    + f (p + 3) * 2 ^ 24
    + f (p + 4) * 2 ^ 32
    + f (p + 5) * 2 ^ 40
    + f (p + 6) * 2 ^ 48
    + f (p + 7) * 2 ^ 56

-- LB, LH, LW, LBU, LHU, and LWU and LD on RV64.
abbrev pub IsLoad : Xlen → MemOp → Type 0
IsLoad rv32 MemOp.d = ⊥
IsLoad rv32 MemOp.wu = ⊥
IsLoad x MemOp.none = ⊥
IsLoad x _ = Unit

-- The value that the manual gives for a load from index p of an array of bytes.
abbrev pub loaded_value : Xlen → MemOp → (ℕ → ℕ) → ℕ → ℕ
loaded_value x MemOp.b f p = sign_extend 8 (bits x) (f p)
loaded_value x MemOp.bu f p = f p
loaded_value x MemOp.h f p = sign_extend 16 (bits x) (little2 f p)
loaded_value x MemOp.hu f p = little2 f p
loaded_value x MemOp.w f p = sign_extend 32 (bits x) (little4 f p)
loaded_value x MemOp.wu f p = little4 f p
loaded_value x MemOp.d f p = little8 f p
loaded_value x MemOp.none f p = 0

module _ (x : Xlen) (byte : ℕ → M ℕ) (arr : Cpu → ℕ → ℕ) (size : ℕ) (small : size ≤ 2 ^ 20)
    (get : (i : ℕ) (s : Machine) → i < size → byte i s ≡ some (arr s.cpu i, s)) (p : ℕ)
    (s : Machine) (are : (i : ℕ) → arr s.cpu i < 2 ^ 8) where
  bytes2-little : p + 1 < size → bytes2 x byte p s ≡ some (little2 (arr s.cpu) p, s)
  bytes2-little h =
      let v : ℕ = little2 (arr s.cpu) p in
      let b0 = are p in
      let b1 = are (p + 1) in
      bytes2-gathered x byte arr size small get p v s h (omega arith) (omega arith)
      ∙ ap (λ (n : ℕ). some (n, s)) (omega arith)

  bytes4-little : p + 3 < size → bytes4 x byte p s ≡ some (little4 (arr s.cpu) p, s)
  bytes4-little h =
      let v : ℕ = little4 (arr s.cpu) p in
      let b0 = are p in
      let b1 = are (p + 1) in
      let b2 = are (p + 2) in
      let b3 = are (p + 3) in
      bytes4-gathered x byte arr size small get p v s h (omega arith) (omega arith) (omega arith)
        (omega arith)
      ∙ ap (λ (n : ℕ). some (n, s)) (omega arith)

  bytes8-little : p + 7 < size → bytes8 x byte p s ≡ some (little8 (arr s.cpu) p, s)
  bytes8-little h =
      let v : ℕ = little8 (arr s.cpu) p in
      let b0 = are p in
      let b1 = are (p + 1) in
      let b2 = are (p + 2) in
      let b3 = are (p + 3) in
      let b4 = are (p + 4) in
      let b5 = are (p + 5) in
      let b6 = are (p + 6) in
      let b7 = are (p + 7) in
      bytes8-gathered x byte arr size small get p v s h (omega arith) (omega arith) (omega arith)
        (omega arith) (omega arith) (omega arith) (omega arith) (omega arith)
      ∙ ap (λ (n : ℕ). some (n, s)) (omega arith)

little8-lt : (f : ℕ → ℕ) (p : ℕ) → ((i : ℕ) → f i < 2 ^ 8) → little8 f p < 2 ^ 64
little8-lt f p are =
    let b0 = are p in
    let b1 = are (p + 1) in
    let b2 = are (p + 2) in
    let b3 = are (p + 3) in
    let b4 = are (p + 4) in
    let b5 = are (p + 5) in let b6 = are (p + 6) in let b7 = are (p + 7) in omega arith

-- The switch of a read, on any array.
read_at-loaded :
    (x : Xlen) (byte : ℕ → M ℕ) (arr : Cpu → ℕ → ℕ) (size : ℕ)
    → size ≤ 2 ^ 20
    → ((i : ℕ) (s : Machine) → i < size → byte i s ≡ some (arr s.cpu i, s))
    → (p : ℕ) (s : Machine) → ((i : ℕ) → arr s.cpu i < 2 ^ 8)
    → (addr : ℕ) (op : MemOp) → IsLoad x op
    → p + range x op < size
    → (k : ℕ) × (read_at x byte addr p op s
        ≡ some (some (loaded_value x op (arr s.cpu) p), record s { mcycle = k }))
unfolding read_at range
read_at-loaded x byte arr size small get p s are addr MemOp.b l h =
    (s.mcycle, rw (get p s (omega arith)))
read_at-loaded x byte arr size small get p s are addr MemOp.bu l h =
    (s.mcycle, rw (get p s (omega arith)))
read_at-loaded x byte arr size small get p s are addr MemOp.h l h =
    let (k, stalls) = memory-mcycle 2 addr s in
    (k, rw (stalls, bytes2-little x byte arr size small get p (record s { mcycle = k }) are h))
read_at-loaded x byte arr size small get p s are addr MemOp.hu l h =
    let (k, stalls) = memory-mcycle 2 addr s in
    (k, rw (stalls, bytes2-little x byte arr size small get p (record s { mcycle = k }) are h))
read_at-loaded x byte arr size small get p s are addr MemOp.w l h =
    let (k, stalls) = memory-mcycle 4 addr s in
    (k, rw (stalls, bytes4-little x byte arr size small get p (record s { mcycle = k }) are h))
read_at-loaded rv64 byte arr size small get p s are addr MemOp.wu l h =
    let (k, stalls) = memory-mcycle 4 addr s in
    (k, rw (stalls, bytes4-little rv64 byte arr size small get p (record s { mcycle = k }) are h))
read_at-loaded rv64 byte arr size small get p s are addr MemOp.d l h =
    let (k, stalls) = memory-mcycle 8 addr s in
    let q : Machine = record s { mcycle = k } in
    let fits : little8 (arr s.cpu) p < 2 ^ 64 = little8-lt (arr s.cpu) p are in
    (
      k,
      rw (stalls, bytes8-little rv64 byte arr size small get p q are h)
          (ap (λ (n : ℕ). some (some n, q))
            (of_signed-to_signed 64 (little8 (arr s.cpu) p % 2 ^ 64) (omega arith) (omega arith)
              ∙ omega arith)),
    )
read_at-loaded rv32 byte arr size small get p s are addr MemOp.wu l h = absurd l
read_at-loaded rv32 byte arr size small get p s are addr MemOp.d l h = absurd l
read_at-loaded rv32 byte arr size small get p s are addr MemOp.none l h = absurd l
read_at-loaded rv64 byte arr size small get p s are addr MemOp.none l h = absurd l

rom_byte-get : (i : ℕ) (s : Machine) → i < rom_size → rom_byte i s ≡ some (s.cpu.rom i, s)
unfolding rom_byte
rom_byte-get i s h = rw (lt→ltb i rom_size h)

pub ram_index :
    (x : Xlen) (addr : ℕ) (op : MemOp)
    → addr < 2 ^ bits x
    → in_ram x addr op ≡ true
    → wrap x (addr + 2 ^ bits x - ram_start) ≡ addr - ram_start
unfolding in_ram
ram_index rv32 addr op h e = ground arith
ram_index rv64 addr op h e = ground arith

rom_index :
    (x : Xlen) (addr : ℕ) → addr < 2 ^ bits x → wrap x (addr + 2 ^ bits x - rom_start) ≡ addr
rom_index rv32 addr h = omega arith
rom_index rv64 addr h = omega arith

-- What the bus gives at an address of the RAM or of the ROM.
abbrev pub bus_value : Xlen → ℕ → MemOp → Machine → ℕ
bus_value x addr op s =
    if in_ram x addr op
    then loaded_value x op s.cpu.ram (addr - ram_start)
    else loaded_value x op s.cpu.rom addr

-- A load from an address of the RAM or of the ROM gives the bytes there as a little-endian number
-- of the access's width, sign-extended for LB, LH and LW, and changes nothing but mcycle. It asks
-- for arrays of bytes and for an address that fits a register.
pub bus_read-value :
    (x : Xlen) (addr : ℕ) (op : MemOp) (s : Machine)
    → IsLoad x op
    → addr < 2 ^ bits x
    → (in_ram x addr op || in_rom x addr op) ≡ true
    → ((i : ℕ) → s.cpu.ram i < 2 ^ 8)
    → ((i : ℕ) → s.cpu.rom i < 2 ^ 8)
    → (k : ℕ) × (bus_read x addr op s
        ≡ some (some (bus_value x addr op s), record s { mcycle = k }))
unfolding bus_read ram_read rom_read
bus_read-value x addr op s l h mapped ram rom = elim (Bool-cases (in_ram x addr op)) [
  | inl e ↦
      rw (e, ram_index x addr op h e)
        (read_at-loaded x ram_byte (λ c. c.ram) ram_size (omega arith) ram_byte-get
          (addr - ram_start) s ram addr op l
          (rw (ram_index x addr op h e) at (in_ram-index x addr op h e)))
  | inr e ↦
      let r : in_rom x addr op ≡ true = rw e at mapped in
      rw (e, r, rom_index x addr h)
        (read_at-loaded x rom_byte (λ c. c.rom) rom_size (omega arith) rom_byte-get addr s rom addr
          op l (rw (rom_index x addr h) at (in_rom-index x addr op h r)))
]
