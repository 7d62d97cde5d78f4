-- ===== src/Isa/Timing/Formats.antt =====
-- The instr_t of the formats, and the cases of the switch that wait for the load before at most.
use rvem.Common.{ℕ, ◌≡◌, ◌+◌, arith, Bool, true, false, not, ◌&&◌, ◌||◌, ◌==◌, Option}
use rvem.Arch.{Config}
use rvem.Riscv.{Opcode, opcode_of, get_opcode}
use rvem.Machine.{Machine, Instr, pure, and_then, wrap}
use rvem.Machine.Safe.{Allows}
use rvem.Machine.Steady.{Reaches}
use rvem.Perf.{reads, data_stall}
use rvem.Perf.Stalls.{stalled}
use rvem.Core.{outcome, execute, process_instr}
use rvem.Core.Timing.{switched}
use rvem.Isa.{Instruction}
use rvem.Isa.Hart.{hart}
use rvem.Isa.Cycles.{needs, after_load, Times}
use rvem.Isa.Timing.{Leaves, Fits, clock, times, data_stall-after_load}

reads-two :
    (instr : Instr) (rs1 rs2 r : ℕ) (b : Bool)
    → instr.rs1 ≡ rs1
    → instr.rs2 ≡ rs2
    → b ≡ (rs1 == r || rs2 == r)
    → reads instr r ≡ (b && not (r == 0))
unfolding reads
reads-two instr rs1 rs2 r b e f g = rw (e, f, g) (ground arith)

pub reads-one :
    (instr : Instr) (rs1 r : ℕ) (b : Bool)
    → instr.rs1 ≡ rs1
    → instr.rs2 ≡ 0
    → b ≡ (rs1 == r)
    → reads instr r ≡ (b && not (r == 0))
unfolding reads
reads-one instr rs1 r b e f g = rw (e, f, g) (ground arith)

pub reads-none : (instr : Instr) (r : ℕ) → instr.rs1 ≡ 0 → instr.rs2 ≡ 0 → reads instr r ≡ false
unfolding reads
reads-none instr r e f = rw (e, f) (ground arith)

module _ (i : Instruction) (instr : Instr) (leaves : Leaves i instr) where
  pub two-Fits :
      (rs1 rs2 : ℕ)
      → instr.rs1 ≡ rs1
      → instr.rs2 ≡ rs2
      → ((r : ℕ) → needs i r ≡ (rs1 == r || rs2 == r))
      → Fits i instr
  two-Fits rs1 rs2 e f g = record {
    reads_is = λ r. reads-two instr rs1 rs2 r (needs i r) e f (g r);
    leaves = leaves;
  }

  pub one-Fits :
      (rs1 : ℕ)
      → instr.rs1 ≡ rs1
      → instr.rs2 ≡ 0
      → ((r : ℕ) → needs i r ≡ (rs1 == r))
      → Fits i instr
  one-Fits rs1 e f g = record {
    reads_is = λ r. reads-one instr rs1 r (needs i r) e f (g r);
    leaves = leaves;
  }

-- An instruction that waits for the data only, by the case of the switch that it runs.
pub plain :
    (cfg : Config) (s : Machine) (i : Instruction) (raw : ℕ) (op : Opcode) (instr : Instr)
    (r : Option (Instr × Machine))
    → Fits i instr
    → opcode_of cfg.xlen (get_opcode raw) ≡ op
    → clock cfg.xlen i (hart s) s.perf_model s.mcycle ≡ stalled (after_load i s.perf_model) s.mcycle
    → execute cfg raw (wrap cfg.xlen (s.cpu.pc + 4)) op s
      ≡ and_then r (λ j. pure (outcome j (wrap cfg.xlen (s.cpu.pc + 4)) true))
    → Allows
        (Reaches s.perf_model (stalled (data_stall s.perf_model instr) s.mcycle) (λ j. j ≡ instr))
        r
    → Allows (λ _. Times cfg.xlen i s) (process_instr cfg raw s)
plain cfg s i raw op instr r f e short is reaches = times cfg i raw s op instr f.leaves e (
    rw (is, short)
      (switched (λ j. j ≡ instr) (λ j. outcome j (wrap cfg.xlen (s.cpu.pc + 4)) true) s.perf_model
        (stalled (after_load i s.perf_model) s.mcycle) instr r (λ a h. h)
        (rw (data_stall-after_load i instr s.perf_model f) at reaches)))
