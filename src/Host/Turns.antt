-- ===== src/Host/Turns.antt =====
-- What every turn of the main loop keeps holds where the loop ends.
use rvem.Common.{ℕ, zero, suc, ltb, Bool, true, false, ◌<◌, ◌⊎◌, inl, inr, Bool-cases, ltb→lt}
use rvem.Arch.{Config, max_cycles}
use rvem.Machine.{Machine, M}
use rvem.Machine.Safe.{Ensures, IsValid}
use rvem.Host.{Exit, zero_word, halted, cycle_limit, out_of_fuel, turn, run}
use rvem.Host.Loop.{run-stops, run-turns}

-- P while the program goes on, Q when it has ended.
abbrev pub Going : (P Q : Machine → Type 0) → Bool → Machine → Type 0
Going P Q true s = P s
Going P Q false s = Q s

-- What holds where the loop ends.
abbrev pub Ending : (P Q : Machine → Type 0) → Exit → Machine → Type 0
Ending P Q zero_word t = Q t
Ending P Q halted t = Q t
Ending P Q cycle_limit t = P t ⊎ Q t
Ending P Q out_of_fuel t = P t ⊎ Q t

-- A turn of the loop leads from P to P, or to Q where it ends the program, whatever comes after.
abbrev pub TurnLeads : Config → (P Q : Machine → Type 0) → Type 0
TurnLeads cfg P Q =
    (rest : Bool → M Exit) (s : Machine)
    → IsValid cfg.xlen s
    → s.mcycle < max_cycles
    → P s
    → ((continue : Bool) (t : Machine)
        → IsValid cfg.xlen t
        → Going P Q continue t
        → Ensures (Ending P Q) (rest continue t))
    → Ensures (Ending P Q) (turn cfg rest s)

module _ (cfg : Config) (P Q : Machine → Type 0) (leads : TurnLeads cfg P Q) where
  pub run-Ending :
      (fuel : ℕ) (instr_loop : Bool) (s : Machine)
      → IsValid cfg.xlen s
      → Going P Q instr_loop s
      → Ensures (Ending P Q) (run fuel cfg instr_loop s)
  unfolding run
  run-Ending zero true s v p = inl p
  run-Ending zero false s v q = inr q
  run-Ending (suc fuel) false s v q = elim (Bool-cases (ltb s.mcycle max_cycles)) [
    | inl e ↦ rw e q
    | inr e ↦ rw e (inr q)
  ]
  run-Ending (suc fuel) true s v p = elim (Bool-cases (ltb s.mcycle max_cycles)) [
    | inl e ↦ rw (run-turns cfg fuel s e) (
        leads (λ c. run fuel cfg c) s v (ltb→lt s.mcycle max_cycles e) p
          (λ c t w r. run-Ending fuel c t w r))
    | inr e ↦ rw (run-stops cfg fuel s e) (rw e (inl p))
  ]
