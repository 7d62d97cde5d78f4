-- ===== src/Host.antt =====
-- src/main.c: loading the ROM, the loop that fetches a word and executes it, and main.
pub mod Loop
pub mod Turns
pub mod Main
pub mod Reach
pub mod Trace
use rvem.Common.{
  ℕ, zero, suc, Bool, true, false, List, [], ◌∷◌, String, length, ◌&&◌, Option, none, some, ltb,
  ◌==◌, if◌then◌else◌, ◌%◌, ◌^◌,
}
use rvem.Common.Word.{u32}
use rvem.Arch.{Config, max_cycles, rom_size}
use rvem.Riscv.{MemOp}
use rvem.Machine.{
  Machine, M, pure, ◌>>=◌, ◌>>◌, print, usage, open_failed, loaded, total_cycles, frequency,
  hit_limit,
}
use rvem.Bus.{bus_read}
use rvem.Core.{process_instr}

-- How the loop ends: `main` returns 1 on a word of zero; otherwise it leaves the loop with
-- instr_loop false, or at the limit of cycles.
pub data Exit : Type 0 where
  zero_word : Exit
  halted : Exit
  cycle_limit : Exit
  out_of_fuel : Exit

abbrev pub value_or_zero : Option ℕ → ℕ
value_or_zero none = 0
value_or_zero (some v) = v

-- bus_val is 0 before the read.
unfoldable pub fetch : Config → M ℕ
fetch cfg s = (do v ← bus_read cfg.xlen s.cpu.pc MemOp.w; pure (u32 (value_or_zero v))) s

-- The body of the loop, with what follows it given instr_loop.
unfoldable pub turn : Config → (Bool → M Exit) → M Exit
turn cfg rest = do
  instr ← fetch cfg
  if instr == 0 then pure zero_word else (do continue ← process_instr cfg instr; rest continue)

-- The loop, on fuel, with instr_loop and the state.
unfoldable pub run : ℕ → Config → Bool → M Exit
run zero cfg instr_loop s = some (out_of_fuel, s)
run (suc fuel) cfg instr_loop s = elim (instr_loop && ltb s.mcycle max_cycles) [
  | Bool.true ↦ turn cfg (λ continue. run fuel cfg continue) s
  | Bool.false ↦ some (if ltb s.mcycle max_cycles then halted else cycle_limit, s)
]

-- What fopen finds: no file, or the bytes that fread reads from it.
abbrev pub Files : Type 0
Files = String → Option (List ℕ)

-- bytes[i], or d beyond the end
unfoldable pub byte_or : List ℕ → ℕ → ℕ → ℕ
byte_or [] i d = d
byte_or (b ∷ bytes) zero d = b
byte_or (b ∷ bytes) (suc i) d = byte_or bytes i d

-- fread(cpu.rom, 1, ROM_SIZE, f): the file's bytes, as far as they fit
unfoldable pub read_rom : List ℕ → M ℕ
read_rom bytes s = some (
  if ltb (length bytes) rom_size then length bytes else rom_size,
  record s {
    cpu = record (s.cpu) {
      rom = λ i. if ltb i rom_size then byte_or bytes i (s.cpu.rom i) else s.cpu.rom i;
    };
  },
)

-- From the name and the result of fopen.
unfoldable pub load_file : String → Option (List ℕ) → M Bool
load_file filename none = do print (open_failed filename); pure false
load_file filename (some bytes) = do
  bytes_read ← read_rom bytes
  print (loaded bytes_read)
  pure true

unfoldable pub load_rom_binary : Files → String → M Bool
unfolding load_file
load_rom_binary files filename = load_file filename (files filename)

unfoldable pub print_usage : Option String → M (Unit {0})
print_usage path = print (usage path)

-- argv[0], a null pointer where there is no argument
abbrev pub program_name : List String → Option String
program_name [] = none
program_name (path ∷ arguments) = some path

-- What main returns, or that the fuel of its loop has run out.
pub data Status : Type 0 where
  returned : ℕ → Status
  unfinished : Status

-- From the end of the loop; the frequency, which depends on the clock, is printed as an event only.
unfoldable pub report : Exit → M Status
report zero_word = pure (returned 1)
report halted = do
  mcycle ← λ s. some (s.mcycle, s)
  print (total_cycles mcycle)
  print frequency
  pure (returned 0)
report cycle_limit = do print hit_limit; pure (returned 0)
report out_of_fuel = pure unfinished

unfoldable pub main : ℕ → Config → Files → List String → M Status
main fuel cfg files (path ∷ filename ∷ []) = do
  is_loaded ← load_rom_binary files filename
  if is_loaded then (do exit ← run fuel cfg true; report exit) else pure (returned 1)
main fuel cfg files argv = do print_usage (program_name argv); pure (returned 1)
