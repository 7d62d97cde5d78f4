-- ===== src/Isa/Main.antt =====
-- main on a program of the instruction set, from the file to the exit status: what it prints.
use rvem.Common.{
  ℕ, suc, ◌<◌, ◌≤◌, ◌≡◌, refl, arith, some, List, ◌∷◌, [], String, true, ◌⊎◌, inl, inr, Bool, false,
}
use rvem.Arch.{Config, max_cycles}
use rvem.Machine.{Machine, boot, print, total_cycles, frequency, hit_limit}
use rvem.Machine.Safe.{IsValid, Ensures, Ensures-both, Ensures-and_then}
use rvem.Host.{
  Exit, zero_word, halted, cycle_limit, out_of_fuel, run, Files, load_file, load_rom_binary,
  read_rom, Status, returned, report, main,
}
use rvem.Host.Loop.{Ends, run-Ends}
use rvem.Host.Reach.{next, here}
use rvem.Host.Trace.{Traced, no_code, exited, limited, run-Traced}
use rvem.Host.Main.{AreBytes, after_load, after_load-IsValid}
use rvem.Isa.Clocked.{Clocked, clocked}
use rvem.Isa.Total.{Program, Leads, Went, Halts, keeps, Round-Went, ends_there, NoCode-Halts}

-- How main ends. With 1, where the program is at no instruction, after the fetch of it; with 0 below
-- the limit, after an instruction of the program has ended it, and with the total of cycles then; or
-- with 0 at the limit. Nothing but the report comes after the program's own output.
pub data Finishes (cfg : Config) (P Q : Clocked → Type 0) (status : Status) (t : Machine)
    : Type 0 where
  stopped :
      (c : Clocked)
      → P c
      → c.total < max_cycles
      → Halts cfg c (clocked t)
      → Q (clocked t)
      → status ≡ returned 1
      → Finishes cfg P Q status t
  reported :
      (c d : Clocked)
      → P c
      → Went cfg P Q c false d
      → Q d
      → d.total < max_cycles
      → status ≡ returned 0
      → t.output ≡ frequency ∷ total_cycles d.total ∷ d.hart.output
      → Finishes cfg P Q status t
  cut_off :
      (c : Clocked)
      → P c ⊎ Q c
      → max_cycles ≤ c.total
      → status ≡ returned 0
      → t.output ≡ hit_limit ∷ c.hart.output
      → Finishes cfg P Q status t

module _ (P Q : Clocked → Type 0) where
  either : (continue : Bool) (c : Clocked) → Leads P Q continue c → P c ⊎ Q c
  either true c p = inl p
  either false c q = inr q

  report-Finishes :
      (cfg : Config) (start t : Machine) (exit : Exit)
      → ((c : Clocked) → P c → Program cfg P Q c)
      → IsValid cfg.xlen start
      → P (clocked start)
      → Ends cfg start exit t
      → Traced cfg start exit t
      → Ensures (Finishes cfg P Q) (report exit t)
  unfolding report print
  report-Finishes cfg start t zero_word program v p ends (no_code u _ reached below fetched there) =
      let (w, here_P) = keeps cfg P Q program start v p true u reached in
      let halts = NoCode-Halts cfg u t w below fetched there in
      stopped (clocked u) here_P below halts
        (ends_there cfg P Q program (clocked u) (clocked t) here_P halts) refl
  report-Finishes cfg start t halted program v p ends (exited _ (next {s} reached step) below) =
      let (w, here_P) = keeps cfg P Q program start v p true s reached in
      let (_, went) = Round-Went cfg P Q program s t false w here_P step in
      reported (clocked s) (clocked t) here_P went went.leads below refl refl
  report-Finishes cfg start t cycle_limit program v p ends (limited continue _ reached late) =
      let (_, q) = keeps cfg P Q program start v p continue t reached in
      cut_off (clocked t) (either continue (clocked t) q) late refl refl
  report-Finishes cfg start t out_of_fuel program v p ends traced = absurd ends.ends_as

  -- What is proved of a program from the steps and the cycles of its instructions holds of main.
  -- Let P hold of the start, with the file's bytes in the ROM, pc and the registers zero, mcycle 4
  -- and the message of the loading printed, and let every state of P be at the end of the program,
  -- where Q holds, or at an instruction whose fetch and step lead to P, or to Q where it ends the
  -- program. Then main, with that file and two arguments, returns 1 from a state of P at a word of
  -- zero or at a pc of neither array, and the state, after this fetch and its cycle or message, is
  -- one of Q; or 0 below the limit of cycles, where an instruction at a state of P has ended the
  -- program in a state of Q, and what it has printed is the output of this state, its total of
  -- cycles, and the frequency; or 0 at the limit, after the output of a state of P or Q and the
  -- message on the limit. It asks for a file of bytes, and for as much fuel as there are cycles and
  -- one unit more.
  pub main-Finishes :
      (cfg : Config) (files : Files) (path filename : String) (bytes : List ℕ) (fuel : ℕ)
      → ((c : Clocked) → P c → Program cfg P Q c)
      → files filename ≡ some bytes
      → AreBytes bytes
      → max_cycles ≤ fuel
      → P (clocked (after_load bytes))
      → Ensures
          (Finishes cfg P Q)
          (main (suc fuel) cfg files (path ∷ filename ∷ []) (boot (λ _. 0)))
  unfolding main load_rom_binary load_file read_rom print
  main-Finishes cfg files path filename bytes fuel program opened are enough p =
      let s = after_load bytes in
      let v = after_load-IsValid cfg.xlen bytes are in
      rw opened (
        Ensures-and_then (λ e t. Ends cfg s e t × Traced cfg s e t) (Finishes cfg P Q)
          (run (suc fuel) cfg true s) report
          (Ensures-both (Ends cfg s) (Traced cfg s) (run (suc fuel) cfg true s)
            (run-Ends cfg fuel true s v (omega arith)) (run-Traced cfg s (suc fuel) true s v here))
          (λ exit t (ends, traced). report-Finishes cfg s t exit program v p ends traced))
