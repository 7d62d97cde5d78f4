-- ===== src/Host/Trace.antt =====
-- How the main loop has ended, by the rounds that it has made.
use rvem.Common.{
  ℕ, zero, suc, ◌<◌, ◌≤◌, ◌≡◌, ◌≢◌, refl, arith, Bool, true, false, Option, none, some, ◌∷◌, ◌==◌,
  ltb, Bool-cases, inl, inr, ltb→lt,
}
use rvem.Arch.{Config, max_cycles}
use rvem.Machine.{Machine, M, ◌>>=◌, unmapped_read}
use rvem.Machine.Safe.{IsValid, Ensures}
use rvem.Core.{process_instr}
use rvem.Core.Safety.{Completes, process_instr-Completes}
use rvem.Host.{Exit, zero_word, halted, cycle_limit, out_of_fuel, fetch, turn, run}
use rvem.Host.Loop.{fetch_lem, run-stops, run-turns}
use rvem.Host.Reach.{round, Reach, next}
use rvem.Isa.Hart.{hart}
use rvem.Isa.Program.{word_at, is_mapped, fetch-word_at, fetch_outside}

-- At u there is no instruction: the word at pc is zero, or pc is in neither array, which the
-- emulator prints; and t is u after the fetch, which has changed no register and no memory.
pub data NoCode (cfg : Config) (u t : Machine) : Type 0 where
  zero_there :
      is_mapped cfg.xlen (hart u) ≡ true
      → word_at cfg.xlen (hart u) ≡ 0
      → hart t ≡ hart u
      → NoCode cfg u t
  outside :
      is_mapped cfg.xlen (hart u) ≡ false
      → hart t ≡ record (hart u) { output = unmapped_read u.cpu.pc ∷ u.output }
      → NoCode cfg u t

-- The end of the loop, from a state that its rounds reach: at no instruction below the limit; after
-- an instruction that ends the program, below the limit; or at the limit.
pub data Traced (cfg : Config) (start : Machine) : Exit → Machine → Type 0 where
  no_code :
      (u t : Machine)
      → Reach cfg start true u
      → u.mcycle < max_cycles
      → fetch cfg u ≡ some (0, t)
      → NoCode cfg u t
      → Traced cfg start zero_word t
  exited :
      (t : Machine) → Reach cfg start false t → t.mcycle < max_cycles → Traced cfg start halted t
  limited :
      (continue : Bool) (t : Machine)
      → Reach cfg start continue t
      → max_cycles ≤ t.mcycle
      → Traced cfg start cycle_limit t
  no_fuel : (t : Machine) → Traced cfg start out_of_fuel t

-- What is ensured of a result holds of the result that there is.
Ensures-some :
    {A : Type 0} (P : A → Machine → Type 0) (r : Option (A × Machine))
    → Ensures P r
    → (a : A) × (t : Machine) × (r ≡ some (a, t)) × P a t
Ensures-some P none h = absurd h
Ensures-some P (some (a, t)) h = (a, t, refl, h)

module _ (cfg : Config) (start : Machine) where
  executes :
      (rest : Bool → M Exit) (s u : Machine) (instr : ℕ)
      → s.mcycle < max_cycles
      → Reach cfg start true s
      → fetch cfg s ≡ some (instr, u)
      → instr ≢ 0
      → IsValid cfg.xlen u
      → ((continue : Bool) (t : Machine)
          → IsValid cfg.xlen t
          → Reach cfg start continue t
          → Ensures (Traced cfg start) (rest continue t))
      → Ensures (Traced cfg start) ((do continue ← process_instr cfg instr; rest continue) u)
  executes rest s u instr below reached fetched nonzero v then_ =
      let (continue, t, ends, done) =
        Ensures-some (λ _ t. Completes cfg u t) (process_instr cfg instr u)
          (process_instr-Completes cfg instr u v) in
      rw ends
        (then_ continue t done.valid (next reached (round instr u below fetched nonzero ends)))

  turn-Traced :
      (rest : Bool → M Exit) (s : Machine)
      → IsValid cfg.xlen s
      → s.mcycle < max_cycles
      → Reach cfg start true s
      → ((continue : Bool) (t : Machine)
          → IsValid cfg.xlen t
          → Reach cfg start continue t
          → Ensures (Traced cfg start) (rest continue t))
      → Ensures (Traced cfg start) (turn cfg rest s)
  unfolding turn
  turn-Traced rest s v below reached then_ = elim (Bool-cases (is_mapped cfg.xlen (hart s))) [
    | inl mapped ↦
        let (k, fetched) = fetch-word_at cfg s v mapped in
        let (valid, _) = rw fetched at (fetch_lem cfg s v) in
        elim (Bool-cases (word_at cfg.xlen (hart s) == 0)) [
          | inl e ↦
              let none_there : word_at cfg.xlen (hart s) ≡ 0 = ground arith in
              rw (fetched, e)
                (no_code s (record s { mcycle = k }) reached below (rw none_there at fetched)
                  (zero_there mapped none_there refl))
          | inr e ↦
              rw (fetched, e)
                (executes rest s (record s { mcycle = k }) (word_at cfg.xlen (hart s)) below reached
                  fetched (λ z. ground arith) valid then_)
        ]
    | inr unmapped ↦
        let fetched = fetch_outside cfg s v unmapped in
        rw fetched (no_code s _ reached below fetched (outside unmapped refl))
  ]

  pub run-Traced :
      (fuel : ℕ) (instr_loop : Bool) (s : Machine)
      → IsValid cfg.xlen s
      → Reach cfg start instr_loop s
      → Ensures (Traced cfg start) (run fuel cfg instr_loop s)
  unfolding run
  run-Traced zero c s v reached = no_fuel s
  run-Traced (suc fuel) false s v reached = elim (Bool-cases (ltb s.mcycle max_cycles)) [
    | inl e ↦ rw e (exited s reached (ltb→lt s.mcycle max_cycles e))
    | inr e ↦ rw e (limited false s reached (ground arith))
  ]
  run-Traced (suc fuel) true s v reached = elim (Bool-cases (ltb s.mcycle max_cycles)) [
    | inl e ↦ rw (run-turns cfg fuel s e) (
        turn-Traced (λ c. run fuel cfg c) s v (ltb→lt s.mcycle max_cycles e) reached
          (λ c t w r. run-Traced fuel c t w r))
    | inr e ↦ rw (run-stops cfg fuel s e) (rw e (limited true s reached (ground arith)))
  ]
