-- ===== src/Core/Timing.antt =====
-- From the cycles of a case of the switch to mcycle and the performance model after process_instr.
use rvem.Common.{ℕ, ◌+◌, ◌≡◌, ap, Option}
use rvem.Common.Word.{u64}
use rvem.Arch.{Config}
use rvem.Riscv.{Opcode, opcode_of, get_opcode}
use rvem.Machine.{Machine, Instr, PerfModel, pure, and_then, wrap, get_pc}
use rvem.Machine.Safe.{Allows, Allows-and_then}
use rvem.Machine.Steady.{Reaches}
use rvem.Perf.{cycle}
use rvem.Core.{Outcome, execute, commit, process_instr}

-- What PERF_MODEL_CYCLE leaves.
abbrev pub next_model : PerfModel → Instr → PerfModel
next_model p instr = record {
  prev_rd = instr.rd;
  prev2_rd = p.prev_rd;
  prev_mem_load = instr.is_mem_load;
  prev2_mem_load = p.prev_mem_load;
  prev_reg_write = instr.is_reg_write;
}

-- An instruction has ended, from where mcycle was at k.
pub record Took (p : PerfModel) (k : ℕ) (instr : Instr) (t : Machine) : Type 0 where
  pub at_cycle : t.mcycle ≡ u64 (k + 1)
  pub model : t.perf_model ≡ next_model p instr

-- The same for the local variables of process_instr.
abbrev pub Switched : PerfModel → ℕ → Instr → Option (Outcome × Machine) → Type 0
Switched p k instr = Allows (Reaches p k (λ (out : Outcome). out.instr ≡ instr))

pub switched :
    {A : Type 0} (Q : A → Type 0) (g : A → Outcome) (p : PerfModel) (k : ℕ) (instr : Instr)
    (r : Option (A × Machine))
    → ((a : A) → Q a → (g a).instr ≡ instr)
    → Allows (Reaches p k Q) r
    → Switched p k instr (and_then r (λ a. pure (g a)))
switched Q g p k instr r same reaches =
    Allows-and_then (Reaches p k Q) (Reaches p k (λ (out : Outcome). out.instr ≡ instr)) r
      (λ a. pure (g a)) reaches
      λ a t h. record { result = same a h.result; at_cycle = h.at_cycle; same_model = h.same_model }

pub process_instr-Took :
    (cfg : Config) (raw : ℕ) (s : Machine) (op : Opcode) (k : ℕ) (instr : Instr)
    → opcode_of cfg.xlen (get_opcode raw) ≡ op
    → Switched s.perf_model k instr (execute cfg raw (wrap cfg.xlen (s.cpu.pc + 4)) op s)
    → Allows (λ _. Took s.perf_model k instr) (process_instr cfg raw s)
unfolding process_instr get_pc cycle commit
process_instr-Took cfg raw s op k instr e runs = rw e (
    Allows-and_then (Reaches s.perf_model k (λ (out : Outcome). out.instr ≡ instr))
      (λ _. Took s.perf_model k instr) (execute cfg raw (wrap cfg.xlen (s.cpu.pc + 4)) op s) _ runs
      λ out u h. record {
        at_cycle = ap (λ (n : ℕ). u64 (n + 1)) h.at_cycle;
        model = λ i. next_model (h.same_model i) (h.result i);
      })
