-- ===== src/Machine.antt =====
-- The globals of the emulator: `cpu` (inc/cpu.h), `perf_model` (inc/perf.h), `mcycle` and
-- `minstret` (src/cpu/csr.c), with what has been printed; and the commands on them. A command
-- fails with `none` where the C code would index an array out of its bounds.
pub mod Safe
pub mod Run
pub mod Blind
pub mod Steady
use rvem.Common.{
  ℕ, ◌+◌, ◌%◌, ◌^◌, Bool, false, Option, none, some, List, [], ◌∷◌, ltb, ◌==◌, if◌then◌else◌,
  String,
}
use rvem.Common.Word.{u64}
use rvem.Arch.{Xlen, bits, rom_size, ram_size, xrf_size}

-- cpu_t; an array is a function of the index
pub record Cpu : Type 0 where
  pub rom : ℕ → ℕ
  pub ram : ℕ → ℕ
  pub regfile : ℕ → ℕ
  pub pc : ℕ

-- instr_t; `imms` is the bit pattern that the union holds, read as sreg_t or as reg_t
pub record Instr : Type 0 where
  pub rs1 : ℕ
  pub rs2 : ℕ
  pub rd : ℕ
  pub imms : ℕ
  pub is_reg_write : Bool
  pub is_mem_load : Bool

-- perf_model_t
pub record PerfModel : Type 0 where
  pub prev_rd : ℕ
  pub prev2_rd : ℕ
  pub prev_mem_load : Bool
  pub prev2_mem_load : Bool
  pub prev_reg_write : Bool

-- What the emulator prints. `putchar` is the guest's output, the others are messages.
pub data Event : Type 0 where
  putchar : ℕ → Event
  exited : Event
  breakpoint : Event
  unrecognized : ℕ → Event
  unmapped_read : ℕ → Event
  rom_write : ℕ → Event
  unmapped_write : ℕ → Event
  usage : Option String → Event
  open_failed : String → Event
  loaded : ℕ → Event
  total_cycles : ℕ → Event
  frequency : Event
  hit_limit : Event

-- `output` has the latest event first.
pub record Machine : Type 0 where
  pub cpu : Cpu
  pub perf_model : PerfModel
  pub mcycle : ℕ
  pub minstret : ℕ
  pub output : List Event

abbrev pub M : Type 0 → Type 0
M A = Machine → Option (A × Machine)

abbrev pub pure : {A : Type 0} → A → M A
pure a s = some (a, s)

abbrev pub and_then : {A B : Type 0} → Option (A × Machine) → (A → M B) → Option (B × Machine)
and_then none f = none
and_then (some (a, s)) f = f a s

infixl 5 ◌>>=◌ ◌>>◌
abbrev pub ◌>>=◌ : {A B : Type 0} → M A → (A → M B) → M B
m >>= f = λ s. and_then (m s) f

abbrev pub ◌>>◌ : {A B : Type 0} → M A → M B → M B
m >> n = m >>= λ _. n

-- if (test) m;
abbrev pub when : Bool → M (Unit {0}) → M (Unit {0})
when b m = if b then m else pure tt

-- An assignment to one element of an array.
unfoldable pub update : (ℕ → ℕ) → ℕ → ℕ → ℕ → ℕ
update f i v j = if j == i then v else f j

unfoldable pub get_reg : ℕ → M ℕ
get_reg i s = if ltb i xrf_size then some (s.cpu.regfile i, s) else none

unfoldable pub set_reg : ℕ → ℕ → M (Unit {0})
unfolding update
set_reg i v s =
    if ltb i xrf_size
    then some (tt, record s { cpu = record (s.cpu) { regfile = update s.cpu.regfile i v } })
    else none

unfoldable pub rom_byte : ℕ → M ℕ
rom_byte i s = if ltb i rom_size then some (s.cpu.rom i, s) else none

unfoldable pub ram_byte : ℕ → M ℕ
ram_byte i s = if ltb i ram_size then some (s.cpu.ram i, s) else none

unfoldable pub set_ram_byte : ℕ → ℕ → M (Unit {0})
unfolding update
set_ram_byte i v s =
    if ltb i ram_size
    then some (tt, record s { cpu = record (s.cpu) { ram = update s.cpu.ram i v } })
    else none

unfoldable pub get_pc : M ℕ
get_pc s = some (s.cpu.pc, s)

unfoldable pub print : Event → M (Unit {0})
print e s = some (tt, record s { output = e ∷ s.output })

-- mcycle++
unfoldable pub tick : M (Unit {0})
tick s = some (tt, record s { mcycle = u64 (s.mcycle + 1) })

-- reg_t arithmetic, modulo 2 ^ XLEN
abbrev pub wrap : Xlen → ℕ → ℕ
wrap x n = n % 2 ^ bits x

-- The state at the start of the program: csr.c sets mcycle to 4, all else is zero but the ROM.
abbrev pub boot : (ℕ → ℕ) → Machine
boot image = record {
  cpu = record { rom = image; ram = λ _. 0; regfile = λ _. 0; pc = 0 };
  perf_model = record {
    prev_rd = 0;
    prev2_rd = 0;
    prev_mem_load = false;
    prev2_mem_load = false;
    prev_reg_write = false;
  };
  mcycle = 4;
  minstret = 0;
  output = [];
}
