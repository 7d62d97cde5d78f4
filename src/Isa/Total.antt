-- ===== src/Isa/Total.antt =====
-- The loop of main on a program with its cycles: what is proved of the program from the steps of
-- its instructions and from their cycles holds of the loop, so that the total of cycles that main
-- reports can be known.
use rvem.Common.{
  ℕ, ◌+◌, ◌%◌, ◌<◌, ◌≡◌, arith, ap, sym, ◌∙◌, Option, none, Bool, true, false, not, ◌&&◌, some, ◌∷◌,
  ◌==◌,
}
use mathlib.Core.Path.{subst}
use rvem.Arch.{Config, max_cycles}
use rvem.Riscv.{MemOp}
use rvem.Machine.{Machine, unmapped_read}
use rvem.Machine.Safe.{Allows, IsValid}
use rvem.Machine.Steady.{Reaches, Any, steadily, pure-Steady}
use rvem.Perf.Stalls.{stalled}
use rvem.Bus.{bus_read}
use rvem.Bus.Timing.{is_unaligned, bus_read-Timed}
use rvem.Core.{process_instr}
use rvem.Core.Safety.{process_instr-Completes}
use rvem.Host.{fetch}
use rvem.Host.Reach.{Round, round, Reach, here, next}
use rvem.Host.Trace.{NoCode}
use rvem.Host.Loop.{fetch_lem}
use rvem.Isa.{Instruction, encode, IsInstruction}
use rvem.Isa.Hart.{hart}
use rvem.Isa.Cycles.{bit}
use rvem.Isa.Refinement.{process_instr-Steps}
use rvem.Isa.Clock.{process_instr-Times}
use rvem.Isa.Program.{word_at, is_mapped, w-IsLoad, fetch-word_at, fetch_outside, encode-odd}
use rvem.Isa.Clocked.{
  Clocked, clocked, fetch_cycles, fetched_state, Runs, bit-le, no_wrap, process_instr-Reads,
}

abbrev pub Leads : (P Q : Clocked → Type 0) → Bool → Clocked → Type 0
Leads P Q true c = P c
Leads P Q false c = Q c

-- The same as Codes in Isa/Program, with cycles.
pub data Program (cfg : Config) (P Q : Clocked → Type 0) (c : Clocked) : Type 0 where
  stop :
      is_mapped cfg.xlen c.hart ≡ true
      → word_at cfg.xlen c.hart ≡ 0
      → Q (record c { total = c.total + fetch_cycles c.hart })
      → Program cfg P Q c
  leave :
      is_mapped cfg.xlen c.hart ≡ false
      → Q (record c { hart = record (c.hart) { output = unmapped_read c.hart.pc ∷ c.hart.output } })
      → Program cfg P Q c
  code :
      (i : Instruction)
      → IsInstruction cfg i
      → is_mapped cfg.xlen c.hart ≡ true
      → word_at cfg.xlen c.hart ≡ encode i
      → ((continue : Bool) (d : Clocked) → Runs cfg i c continue d → Leads P Q continue d)
      → Program cfg P Q c

stalled-bit : (m : ℕ) → m < max_cycles → (b : Bool) → stalled b m ≡ m + bit b
stalled-bit m h true = omega arith
stalled-bit m h false = omega arith

module _ (cfg : Config) (s : Machine) (v : IsValid cfg.xlen s) (below : s.mcycle < max_cycles) where
  fetch-Timed :
      Allows
        (Reaches s.perf_model
          (stalled (is_mapped cfg.xlen (hart s) && is_unaligned MemOp.w s.cpu.pc) s.mcycle)
          Any)
        (fetch cfg s)
  unfolding fetch
  fetch-Timed =
      steadily Any Any s.perf_model _ (bus_read cfg.xlen s.cpu.pc MemOp.w s) _
        (bus_read-Timed cfg.xlen s.cpu.pc MemOp.w s (w-IsLoad cfg.xlen)) (λ r. pure-Steady tt)

  -- The fetch of a word, with its cycles.
  fetch-total :
      is_mapped cfg.xlen (hart s) ≡ true
      → fetch cfg s
        ≡ some (word_at cfg.xlen (hart s), record s { mcycle = s.mcycle + fetch_cycles (hart s) })
  fetch-total mapped =
      let (k, fetched) = fetch-word_at cfg s v mapped in
      let reached = rw (fetched, mapped) at fetch-Timed in
      let e : k ≡ s.mcycle + fetch_cycles (hart s) =
        reached.at_cycle ∙ stalled-bit s.mcycle below (not (s.cpu.pc % 4 == 0)) in
      fetched ∙ ap (λ (n : ℕ). some (word_at cfg.xlen (hart s), record s { mcycle = n })) e

-- One instruction of a program, and what it leads to.
pub record Went (cfg : Config) (P Q : Clocked → Type 0) (c : Clocked) (continue : Bool)
    (d : Clocked) : Type 0 where
  pub instruction : Instruction
  pub mapped : is_mapped cfg.xlen c.hart ≡ true
  pub word : word_at cfg.xlen c.hart ≡ encode instruction
  pub runs : Runs cfg instruction c continue d
  pub leads : Leads P Q continue d

-- There is no instruction at c, which is d after the fetch.
pub data Halts (cfg : Config) (c d : Clocked) : Type 0 where
  zero_there :
      is_mapped cfg.xlen c.hart ≡ true
      → word_at cfg.xlen c.hart ≡ 0
      → d ≡ record c { total = c.total + fetch_cycles c.hart }
      → Halts cfg c d
  outside :
      is_mapped cfg.xlen c.hart ≡ false
      → d ≡ record c { hart = record (c.hart) { output = unmapped_read c.hart.pc ∷ c.hart.output } }
      → Halts cfg c d

word_of : Option (ℕ × Machine) → ℕ
word_of none = 0
word_of (some (w, t)) = w

state_of : Machine → Option (ℕ × Machine) → Machine
state_of s none = s
state_of s (some (w, t)) = t

same_word :
    (r : Option (ℕ × Machine)) (v w : ℕ) (t u : Machine) → r ≡ some (v, t) → r ≡ some (w, u) → v ≡ w
unfolding word_of
same_word r v w t u e f = ap word_of (sym e ∙ f)

same_state :
    (r : Option (ℕ × Machine)) (v w : ℕ) (t u : Machine) → r ≡ some (v, t) → r ≡ some (w, u) → t ≡ u
unfolding state_of
same_state r v w t u e f = ap (state_of t) (sym e ∙ f)

module _ (cfg : Config) (P Q : Clocked → Type 0)
    (program : (c : Clocked) → P c → Program cfg P Q c) where
  -- One instruction, from the state after its fetch.
  executes :
      (i : Instruction) (s t : Machine) (continue : Bool)
      → IsInstruction cfg i
      → s.mcycle < max_cycles
      → IsValid cfg.xlen (fetched_state s)
      → process_instr cfg (encode i) (fetched_state s) ≡ some (continue, t)
      → IsValid cfg.xlen t × Runs cfg i (clocked s) continue (clocked t)
  executes i s t continue is below v ends =
      let u = fetched_state s in
      let steps = rw ends at (process_instr-Steps cfg i u is v) in
      let reads = rw ends at (process_instr-Reads cfg i u is v soon) in
      let timed = rw ends at (process_instr-Times cfg i u is v) in
      let done = rw ends at (process_instr-Completes cfg (encode i) u v) in
      (
        done.valid,
        record {
          steps = steps;
          reads = reads;
          retired = done.one_more;
          model = timed.model;
          total = timed.counts ∙ no_wrap cfg i (clocked u) soon;
        },
      )
    where
      soon : s.mcycle + fetch_cycles (hart s) < max_cycles + 1
      soon = omega (arith, bit-le (not (s.cpu.pc % 4 == 0)))

  pub Round-Went :
      (s t : Machine) (continue : Bool)
      → IsValid cfg.xlen s
      → P (clocked s)
      → Round cfg s continue t
      → IsValid cfg.xlen t × Went cfg P Q (clocked s) continue (clocked t)
  Round-Went s t continue v p (round instr u below fetched nonzero ends) =
      elim (program (clocked s) p) [
        | stop mapped none_there q ↦ absurd (
            nonzero (
              same_word (fetch cfg s) instr _ u _ fetched (fetch-total cfg s v below mapped)
              ∙ none_there))
        | leave unmapped q ↦
            absurd (
              nonzero
                (same_word (fetch cfg s) instr 0 u _ fetched (fetch_outside cfg s v unmapped)))
        | code i is mapped word leads ↦
            let total = fetch-total cfg s v below mapped in
            let (valid, _) = rw total at (fetch_lem cfg s v) in
            let instr_is = same_word (fetch cfg s) instr _ u _ fetched total ∙ word in
            let u_is = same_state (fetch cfg s) instr _ u _ fetched total in
            let starts : process_instr cfg (encode i) (fetched_state s)
                ≡ process_instr cfg instr u =
              sym (λ j. process_instr cfg (instr_is j) (u_is j)) in
            let (w, runs) = executes i s t continue is below valid (starts ∙ ends) in
            (
              w,
              record {
                instruction = i;
                mapped = mapped;
                word = word;
                runs = runs;
                leads = leads continue (clocked t) runs;
              },
            )
      ]

  pub keeps :
      (start : Machine)
      → IsValid cfg.xlen start
      → P (clocked start)
      → (continue : Bool) (t : Machine) → Reach cfg start continue t
      → IsValid cfg.xlen t × Leads P Q continue (clocked t)
  keeps start v p continue t here = (v, p)
  keeps start v p continue t (next {s} r step) =
      let (w, q) = keeps start v p true s r in
      let (x, went) = Round-Went s t continue w q step in (x, went.leads)

  -- At no instruction, the end of the program holds.
  pub ends_there : (c d : Clocked) → P c → Halts cfg c d → Q d
  ends_there c d p (zero_there mapped none_there e) = elim (program c p) [
    | stop m z q ↦ subst Q (sym e) q
    | leave m q ↦ cc
    | code i is m word leads ↦
        let odd : encode i % 2 ≡ 1 = encode-odd i in absurd (omega (arith, sym word ∙ none_there))
  ]
  ends_there c d p (outside unmapped e) = elim (program c p) [
    | stop m z q ↦ cc
    | leave m q ↦ subst Q (sym e) q
    | code i is m word leads ↦ cc
  ]

-- The fetch that finds no instruction.
pub NoCode-Halts :
    (cfg : Config) (s t : Machine)
    → IsValid cfg.xlen s
    → s.mcycle < max_cycles
    → fetch cfg s ≡ some (0, t)
    → NoCode cfg s t
    → Halts cfg (clocked s) (clocked t)
NoCode-Halts cfg s t v below fetched (NoCode.zero_there mapped none_there _) =
    Halts.zero_there mapped none_there
      (ap clocked (same_state (fetch cfg s) 0 _ t _ fetched (fetch-total cfg s v below mapped)))
NoCode-Halts cfg s t v below fetched (NoCode.outside unmapped _) =
    Halts.outside unmapped
      (ap clocked (same_state (fetch cfg s) 0 0 t _ fetched (fetch_outside cfg s v unmapped)))
