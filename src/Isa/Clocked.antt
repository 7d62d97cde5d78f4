-- ===== src/Isa/Clocked.antt =====
-- The whole state that an instruction changes, with the pipeline and the counters, and what an
-- instruction does to it, its fetch counted; the values that the CSR instructions give.
use rvem.Common.{
  ℕ, ◌+◌, ◌%◌, ◌^◌, ◌<◌, ◌≤◌, ◌≡◌, arith, ◌∙◌, Bool, true, false, not, ◌==◌, if◌then◌else◌,
}
use rvem.Arch.{Xlen, Config, max_cycles}
use rvem.Riscv.{SysOp}
use rvem.Core.CsrWords.{csr_word, read_cycle, csr_shows}
use rvem.Core.Counters.{process_instr-csr}
use rvem.Machine.{Machine, PerfModel}
use rvem.Machine.Safe.{Ensures, Ensures_mono, IsValid}
use rvem.Core.{process_instr}
use rvem.Core.Safety.{process_instr-Completes}
use rvem.Isa.{Instruction, csr_op, encode, IsInstruction}
use rvem.Isa.Hart.{Hart, hart, Steps}
use rvem.Isa.Cycles.{after_load, after_write, after_load2, jumps, splits, bit, cycles, remembers}

-- A hart with its pipeline, the cycles so far and the instructions so far.
pub record Clocked : Type 0 where
  pub hart : Hart
  pub model : PerfModel
  pub total : ℕ
  pub retired : ℕ

abbrev pub clocked : Machine → Clocked
clocked s = record { hart = hart s; model = s.perf_model; total = s.mcycle; retired = s.minstret }

-- A CSR instruction gives the counter as it is after its wait for the load before.
abbrev pub Reads : Xlen → Instruction → (c d : Clocked) → Type 0
Reads x (csr_op op rd rs1 csr) c d = d.hart.regs rd ≡ (
    if rd == 0
    then 0
    else csr_shows x csr (c.total + bit (after_load (csr_op op rd rs1 csr) c.model)) c.retired)
Reads x _ c d = Unit

-- The cycles of the fetch: one for a pc that is no multiple of four.
abbrev pub fetch_cycles : Hart → ℕ
fetch_cycles h = bit (not (h.pc % 4 == 0))

abbrev pub fetched_state : Machine → Machine
fetched_state s = record s { mcycle = s.mcycle + fetch_cycles (hart s) }

-- An instruction, fetched and executed.
pub record Runs (cfg : Config) (i : Instruction) (c : Clocked) (continue : Bool) (d : Clocked)
    : Type 0 where
  pub steps : Steps cfg.xlen i c.hart continue d.hart
  pub reads : Reads cfg.xlen i (record c { total = c.total + fetch_cycles c.hart }) d
  pub model : d.model ≡ remembers i c.model
  pub retired : d.retired ≡ (c.retired + 1) % 2 ^ 64
  pub total : d.total ≡ c.total + fetch_cycles c.hart + cycles cfg.xlen i c.hart c.model

pub bit-le : (b : Bool) → bit b ≤ 1
bit-le true = omega arith
bit-le false = omega arith

-- No wrap-around below the limit of cycles.
pub no_wrap :
    (cfg : Config) (i : Instruction) (c : Clocked)
    → c.total < max_cycles + 1
    → (c.total + cycles cfg.xlen i c.hart c.model) % 2 ^ 64
      ≡ c.total + cycles cfg.xlen i c.hart c.model
no_wrap cfg i c h = omega (
  arith,
  bit-le (after_load i c.model),
  bit-le (after_write i c.model),
  bit-le (after_load2 i c.model),
  bit-le (jumps cfg.xlen i c.hart),
  bit-le (splits cfg.xlen i c.hart),
)

waited :
    (s : Machine) (op : SysOp) (rd rs1 csr : ℕ)
    → s.mcycle < max_cycles + 1
    → read_cycle s op rs1 ≡ s.mcycle + bit (after_load (csr_op op rd rs1 csr) s.perf_model)
waited s op rd rs1 csr h = ground arith

pub process_instr-Reads :
    (cfg : Config) (i : Instruction) (s : Machine)
    → IsInstruction cfg i
    → IsValid cfg.xlen s
    → s.mcycle < max_cycles + 1
    → Ensures (λ _ t. Reads cfg.xlen i (clocked s) (clocked t)) (process_instr cfg (encode i) s)
process_instr-Reads cfg (csr_op op rd rs1 csr) s (is, hd, h1, hc) v h =
    Ensures_mono _ _ (process_instr cfg (csr_word op csr rd rs1) s)
      (λ c t r. r.retires.registers rd ∙ rw (same, waited s op rd rs1 csr h))
      (process_instr-csr cfg op csr rd rs1 s is hc hd h1)
  where
    same : (rd == rd) ≡ true
    same = ground arith
process_instr-Reads cfg i s is v h =
    Ensures_mono _ _ (process_instr cfg (encode i) s) (λ c t done. tt)
      (process_instr-Completes cfg (encode i) s v)
