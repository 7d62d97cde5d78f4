-- ===== src/Host/Main.antt =====
-- main: its errors, and that it returns.
use rvem.Common.{
  ℕ, zero, suc, Bool, false, Option, ◌^◌, ◌<◌, ◌≤◌, ◌≡◌, ◌≢◌, refl, arith, true, none, some, List,
  [], ◌∷◌, String, length, ltb, if◌then◌else◌, Bool-cases, inl, inr, ap,
}
use rvem.Arch.{Xlen, rv32, rv64, bits, Config, max_cycles, rom_size}
use rvem.Machine.{
  Machine, Event, boot, print, usage, open_failed, loaded, total_cycles, frequency, hit_limit,
}
use rvem.Machine.Safe.{IsValid, Ensures, Ensures_mono, Ensures-both, Ensures-and_then}
use rvem.Host.{
  Exit, print_usage, zero_word, halted, cycle_limit, out_of_fuel, run, Files, byte_or, read_rom,
  load_file, load_rom_binary, Status, returned, report, main,
}
use rvem.Host.Loop.{Ends, run-Ends}
use rvem.Host.Reach.{Reach, here}
use rvem.Host.Trace.{NoCode, Traced, no_code, exited, limited, run-Traced}

abbrev pub AreBytes : List ℕ → Type 0
AreBytes [] = Unit
AreBytes (b ∷ bytes) = (b < 2 ^ 8) × AreBytes bytes

byte_or-lt : (bytes : List ℕ) (i d : ℕ) → AreBytes bytes → d < 2 ^ 8 → byte_or bytes i d < 2 ^ 8
unfolding byte_or
byte_or-lt [] i d h k = k
byte_or-lt (b ∷ bytes) zero d h k = h.0
byte_or-lt (b ∷ bytes) (suc i) d h k = byte_or-lt bytes i d h.1 k

-- After the file is read, with its message.
abbrev pub after_load : List ℕ → Machine
after_load bytes = record (boot (λ i. if ltb i rom_size then byte_or bytes i 0 else 0)) {
  output = loaded (if ltb (length bytes) rom_size then length bytes else rom_size) ∷ [];
}

-- How main returns once the file is read, and what it prints then: 1 where a round of the loop finds
-- no instruction; 0 after the count of cycles, where an instruction has ended the program below the
-- limit; 0 after its message at the limit. u is the state that the rounds of the loop have reached.
pub data Reports (cfg : Config) (start : Machine) (status : Status) (t : Machine) : Type 0 where
  stopped :
      (u : Machine)
      → Reach cfg start true u
      → u.mcycle < max_cycles
      → NoCode cfg u t
      → t.mcycle ≤ max_cycles
      → status ≡ returned 1
      → Reports cfg start status t
  in_time :
      (u : Machine)
      → Reach cfg start false u
      → u.mcycle < max_cycles
      → status ≡ returned 0
      → t ≡ record u { output = frequency ∷ total_cycles u.mcycle ∷ u.output }
      → Reports cfg start status t
  at_limit :
      (continue : Bool) (u : Machine)
      → Reach cfg start continue u
      → max_cycles ≤ u.mcycle
      → status ≡ returned 0
      → t ≡ record u { output = hit_limit ∷ u.output }
      → Reports cfg start status t

-- After a run of the file's bytes.
pub record Ran (cfg : Config) (bytes : List ℕ) (status : Status) (t : Machine) : Type 0 where
  pub reports : Reports cfg (after_load bytes) status t
  pub valid : IsValid cfg.xlen t
  pub rom : (i : ℕ) → t.cpu.rom i ≡ (if ltb i rom_size then byte_or bytes i 0 else 0)

-- All that main can do, by its arguments and the file.
pub data MainReturns (cfg : Config) (files : Files) (argv : List String) (status : Status)
    (t : Machine) : Type 0 where
  no_arguments :
      argv ≡ []
      → status ≡ returned 1
      → t ≡ record (boot (λ _. 0)) { output = usage none ∷ [] }
      → MainReturns cfg files argv status t
  bad_arguments :
      (path : String) (arguments : List String)
      → argv ≡ path ∷ arguments
      → length arguments ≢ 1
      → status ≡ returned 1
      → t ≡ record (boot (λ _. 0)) { output = usage (some path) ∷ [] }
      → MainReturns cfg files argv status t
  no_file :
      (path filename : String)
      → argv ≡ path ∷ filename ∷ []
      → files filename ≡ none
      → status ≡ returned 1
      → t ≡ record (boot (λ _. 0)) { output = open_failed filename ∷ [] }
      → MainReturns cfg files argv status t
  ran :
      (path filename : String) (bytes : List ℕ)
      → argv ≡ path ∷ filename ∷ []
      → files filename ≡ some bytes
      → Ran cfg bytes status t
      → MainReturns cfg files argv status t

with_output :
    {x : Xlen} (s : Machine) (out : List Event)
    → IsValid x s
    → IsValid x (record s { output = out })
with_output s out v = record {
  rom_bytes = v.rom_bytes;
  ram_bytes = v.ram_bytes;
  registers = v.registers;
  pc_range = v.pc_range;
  cycle_range = v.cycle_range;
  instret_range = v.instret_range;
}

powers : (x : Xlen) → 0 < 2 ^ bits x
powers rv32 = omega arith
powers rv64 = omega arith

pub after_load-IsValid : (x : Xlen) (bytes : List ℕ) → AreBytes bytes → IsValid x (after_load bytes)
after_load-IsValid x bytes are = record {
  rom_bytes = λ i. elim (Bool-cases (ltb i rom_size)) [
    | inl e ↦ rw e (byte_or-lt bytes i 0 are (omega arith))
    | inr e ↦ rw e (omega arith)
  ];
  ram_bytes = λ i. omega arith;
  registers = λ i. powers x;
  pc_range = powers x;
  cycle_range = omega arith;
  instret_range = omega arith;
}

report-Ran :
    (cfg : Config) (bytes : List ℕ) (t : Machine) (exit : Exit)
    → Ends cfg (after_load bytes) exit t
    → Traced cfg (after_load bytes) exit t
    → Ensures (Ran cfg bytes) (report exit t)
unfolding report print
report-Ran cfg bytes t zero_word e (no_code u _ reached below fetched there) = record {
  reports = stopped u reached below there e.ends_as refl;
  valid = e.valid;
  rom = λ i. ap (λ (f : ℕ → ℕ). f i) e.same_rom;
}
report-Ran cfg bytes t halted e (exited _ reached below) = record {
  reports = in_time t reached below refl refl;
  valid = with_output t _ e.valid;
  rom = λ i. ap (λ (f : ℕ → ℕ). f i) e.same_rom;
}
report-Ran cfg bytes t cycle_limit e (limited continue _ reached late) = record {
  reports = at_limit continue t reached late refl refl;
  valid = with_output t _ e.valid;
  rom = λ i. ap (λ (f : ℕ → ℕ). f i) e.same_rom;
}
report-Ran cfg bytes t out_of_fuel e traced = absurd e.ends_as

-- A file of bytes that is there.
main-Ran :
    (cfg : Config) (files : Files) (path filename : String) (bytes : List ℕ) (fuel : ℕ)
    → files filename ≡ some bytes
    → AreBytes bytes
    → max_cycles ≤ fuel
    → Ensures (Ran cfg bytes) (main (suc fuel) cfg files (path ∷ filename ∷ []) (boot (λ _. 0)))
unfolding main load_rom_binary load_file read_rom print
main-Ran cfg files path filename bytes fuel opened are enough =
    let s = after_load bytes in
    let v = after_load-IsValid cfg.xlen bytes are in
    rw opened (
      Ensures-and_then (λ e t. Ends cfg s e t × Traced cfg s e t) (Ran cfg bytes)
        (run (suc fuel) cfg true s) report
        (Ensures-both (Ends cfg s) (Traced cfg s) (run (suc fuel) cfg true s)
          (run-Ends cfg fuel true s v (omega arith)) (run-Traced cfg s (suc fuel) true s v here))
        (λ exit t (ends, traced). report-Ran cfg bytes t exit ends traced))

-- With two arguments, by what fopen finds.
main-file :
    (cfg : Config) (files : Files) (path filename : String) (found : Option (List ℕ)) (fuel : ℕ)
    → files filename ≡ found
    → ((bytes : List ℕ) → found ≡ some bytes → AreBytes bytes)
    → max_cycles ≤ fuel
    → Ensures
        (MainReturns cfg files (path ∷ filename ∷ []))
        (main (suc fuel) cfg files (path ∷ filename ∷ []) (boot (λ _. 0)))
unfolding main load_rom_binary load_file print
main-file cfg files path filename none fuel e are enough =
    rw e (no_file path filename refl e refl refl)
main-file cfg files path filename (some bytes) fuel e are enough =
    Ensures_mono _ _ (main (suc fuel) cfg files (path ∷ filename ∷ []) (boot (λ _. 0)))
      (λ status t r. ran path filename bytes refl e r)
      (main-Ran cfg files path filename bytes fuel e (are bytes refl) enough)

-- From the start of the program main returns, whatever its arguments, for as much fuel as there are
-- cycles and one unit more. Without arguments, or with a number of them other than two (the path of
-- the program is the first), it returns 1 after the usage with that path; with a file that cannot be
-- opened, 1 after the message with the file's name; it has done nothing else then. With a file of
-- bytes, it returns 1 where the rounds of the loop reach a pc with a word of zero, or in neither
-- array, and nothing is printed but the address of the latter; 0 where an instruction has ended the
-- program below the limit of cycles, after the number of cycles and the frequency; or 0 where the
-- rounds have reached the limit, after that message. Then the ROM still holds the file's first
-- bytes, as far as they fit, and zeroes after them, and the state is valid. It asks that the files
-- hold bytes.
pub main-Returns :
    (cfg : Config) (files : Files) (argv : List String) (fuel : ℕ)
    → ((name : String) (bytes : List ℕ) → files name ≡ some bytes → AreBytes bytes)
    → max_cycles ≤ fuel
    → Ensures (MainReturns cfg files argv) (main (suc fuel) cfg files argv (boot (λ _. 0)))
unfolding main print_usage print
main-Returns cfg files [] fuel are enough = no_arguments refl refl refl
main-Returns cfg files (a ∷ []) fuel are enough =
    bad_arguments a [] refl (λ e. omega arith) refl refl
main-Returns cfg files (a ∷ b ∷ []) fuel are enough =
    main-file cfg files a b (files b) fuel refl (are b) enough
main-Returns cfg files (a ∷ b ∷ c ∷ d) fuel are enough =
    bad_arguments a (b ∷ c ∷ d) refl (λ e. omega arith) refl refl
