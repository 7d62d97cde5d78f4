-- ===== src/Host/Loop.antt =====
-- The main loop ends: every instruction takes at least one cycle, and there is a limit on them.
use rvem.Common.{
  ℕ, zero, suc, ◌+◌, ◌<◌, ◌≤◌, ◌≡◌, refl, arith, ◌∙◌, Bool, true, false, some, ◌==◌, ltb,
  if◌then◌else◌, Bool-cases, inl, inr, ltb→lt,
}
use rvem.Arch.{Config, max_cycles}
use rvem.Riscv.{MemOp}
use rvem.Machine.{Machine, M}
use rvem.Machine.Safe.{IsValid, Advance, Ensures, Ensures_mono, Ensures-and_then}
use rvem.Bus.Safe.{bus_read-Safe}
use rvem.Core.{process_instr}
use rvem.Core.Safety.{process_instr-Completes}
use rvem.Host.{Exit, zero_word, halted, cycle_limit, out_of_fuel, fetch, turn, run}

-- What is known of the state where the loop ends.
abbrev pub EndsAs : Exit → Machine → Type 0
EndsAs zero_word t = t.mcycle ≤ max_cycles
EndsAs halted t = t.mcycle < max_cycles
EndsAs cycle_limit t = max_cycles ≤ t.mcycle
EndsAs out_of_fuel t = ⊥

pub record Ends (cfg : Config) (s : Machine) (e : Exit) (t : Machine) : Type 0 where
  pub ends_as : EndsAs e t
  pub valid : IsValid cfg.xlen t
  pub same_rom : t.cpu.rom ≡ s.cpu.rom

module _ (cfg : Config) where
  pub fetch_lem :
      (s : Machine)
      → IsValid cfg.xlen s
      → Ensures (λ _ t. IsValid cfg.xlen t × Advance 1 s t) (fetch cfg s)
  unfolding fetch
  fetch_lem s v =
      Ensures-and_then _ _ (rvem.Bus.bus_read cfg.xlen s.cpu.pc MemOp.w s) _
        ((bus_read-Safe cfg.xlen s.cpu.pc MemOp.w v.pc_range).run s v) λ r t (_, w, adv). (w, adv)

  -- One turn below the limit: it ends the program, or goes on with a greater mcycle.
  turn-Ends :
      (fuel : ℕ) (rest : Bool → M Exit) (s : Machine)
      → ((continue : Bool) (t : Machine)
          → IsValid cfg.xlen t
          → max_cycles ≤ t.mcycle + fuel
          → t.mcycle < max_cycles + 6
          → Ensures (Ends cfg t) (rest continue t))
      → IsValid cfg.xlen s
      → s.mcycle < max_cycles
      → max_cycles ≤ s.mcycle + suc fuel
      → Ensures (Ends cfg s) (turn cfg rest s)
  unfolding turn
  turn-Ends fuel rest s next v below enough =
      Ensures-and_then _ _ (fetch cfg s) _ (fetch_lem s v) λ instr t (w, adv).
        let (j, _, fetched) = adv.cycles in
        elim (Bool-cases (instr == 0)) [
          | inl e ↦ rw e (record { ends_as = omega arith; valid = w; same_rom = adv.same_rom })
          | inr e ↦ rw e (
              Ensures-and_then _ _ (process_instr cfg instr t) _
                (process_instr-Completes cfg instr t w)
                λ continue u done.
                  let (l, _, _, advanced) = done.cycles in
                  Ensures_mono _ _ (rest continue u)
                    (λ x y ends. record {
                      ends_as = ends.ends_as;
                      valid = ends.valid;
                      same_rom = ends.same_rom ∙ done.same_rom ∙ adv.same_rom;
                    })
                    (next continue u done.valid (omega arith) (omega arith)))
        ]

  stop-Ends :
      (s : Machine)
      → IsValid cfg.xlen s
      → Ends cfg s (if ltb s.mcycle max_cycles then halted else cycle_limit) s
  stop-Ends s v = elim (Bool-cases (ltb s.mcycle max_cycles)) [
    | inl e ↦ rw e (record { ends_as = ltb→lt s.mcycle max_cycles e; valid = v; same_rom = refl })
    | inr e ↦ rw e (record { ends_as = ground arith; valid = v; same_rom = refl })
  ]

  pub run-stops :
      (fuel : ℕ) (s : Machine)
      → ltb s.mcycle max_cycles ≡ false
      → run (suc fuel) cfg true s
        ≡ some (if ltb s.mcycle max_cycles then halted else cycle_limit, s)
  unfolding run
  run-stops fuel s e = rw (e, run) (rw e)

  pub run-turns :
      (fuel : ℕ) (s : Machine)
      → ltb s.mcycle max_cycles ≡ true
      → run (suc fuel) cfg true s ≡ turn cfg (λ continue. run fuel cfg continue) s
  unfolding run
  run-turns fuel s e = rw (e, run)

  -- From a valid state, with one round more than the cycles that are left below the limit, the main
  -- loop ends, and not for want of fuel: it halts below the limit, finds a word of zero, or stops
  -- at the limit. The state is valid then, and the ROM as it was.
  pub run-Ends :
      (fuel : ℕ) (instr_loop : Bool) (s : Machine)
      → IsValid cfg.xlen s
      → max_cycles ≤ s.mcycle + fuel
      → Ensures (Ends cfg s) (run (suc fuel) cfg instr_loop s)
  unfolding run
  run-Ends fuel false s v h = stop-Ends s v
  run-Ends zero true s v h = elim (Bool-cases (ltb s.mcycle max_cycles)) [
    | inl e ↦ absurd (omega (arith, ltb→lt s.mcycle max_cycles e))
    | inr e ↦ rw (run-stops zero s e) (stop-Ends s v)
  ]
  run-Ends (suc fuel) true s v h = elim (Bool-cases (ltb s.mcycle max_cycles)) [
    | inl e ↦ rw (run-turns (suc fuel) s e) (
        turn-Ends fuel _ s (λ continue t w k _. run-Ends fuel continue t w k) v
          (ltb→lt s.mcycle max_cycles e) h)
    | inr e ↦ rw (run-stops (suc fuel) s e) (stop-Ends s v)
  ]
