-- ===== src/Isa/Timing.antt =====
-- process_instr adds the cycles of Isa/Cycles, and leaves the performance model that they need.
pub mod Formats
pub mod Computations
pub mod Transfers
pub mod Jumps
use rvem.Common.{
  ℕ, ◌+◌, ◌*◌, ◌%◌, ◌^◌, ◌<◌, ◌≡◌, refl, arith, ap, ◌∙◌, sym, Bool, true, false, not, ◌&&◌, ◌||◌,
  ◌==◌, if◌then◌else◌, Option,
}
use rvem.Common.Word.{u64}
use rvem.Arch.{Xlen, Config}
use rvem.Riscv.{Opcode, opcode_of, get_opcode, get_rd, get_rs1, get_rs2}
use rvem.Machine.{Machine, Instr, PerfModel, wrap}
use rvem.Machine.Safe.{Allows, Allows_mono}
use rvem.Perf.{reads, data_stall, branch_stall, load_branch_stall}
use rvem.Perf.Stalls.{stalled}
use rvem.Core.{execute, process_instr}
use rvem.Core.Timing.{Took, Switched, process_instr-Took}
use rvem.Isa.{Instruction, encode}
use rvem.Isa.Hart.{Hart, hart}
use rvem.Isa.Cycles.{
  waits, target, is_load, is_write, is_early, jumps, splits, after_load, after_write, after_load2,
  bit, cycles, remembers, Times,
}

-- What the instr_t of an instruction leaves in the performance model, and the registers that it
-- waits for.
pub record Leaves (i : Instruction) (instr : Instr) : Type 0 where
  pub rd_is : instr.rd ≡ target i
  pub load_is : instr.is_mem_load ≡ is_load i
  pub write_is : instr.is_reg_write ≡ is_write i

pub record Fits (i : Instruction) (instr : Instr) : Type 0 where
  pub reads_is : (r : ℕ) → reads instr r ≡ waits i r
  pub leaves : Leaves i instr

and_comm : (a b : Bool) → (a && b) ≡ (b && a)
and_comm true true = refl
and_comm true false = refl
and_comm false true = refl
and_comm false false = refl

module _ (i : Instruction) (instr : Instr) (p : PerfModel) (f : Fits i instr) where
  pub data_stall-after_load : data_stall p instr ≡ after_load i p
  unfolding data_stall
  data_stall-after_load = rw f.reads_is (and_comm p.prev_mem_load (waits i p.prev_rd))

  pub branch_stall-waits : branch_stall p instr ≡ (waits i p.prev_rd && p.prev_reg_write)
  unfolding branch_stall
  branch_stall-waits = rw f.reads_is (and_comm p.prev_reg_write (waits i p.prev_rd))

  pub load_branch_stall-waits : load_branch_stall p instr ≡ (waits i p.prev2_rd && p.prev2_mem_load)
  unfolding load_branch_stall
  load_branch_stall-waits = rw f.reads_is (and_comm p.prev2_mem_load (waits i p.prev2_rd))

-- mcycle before PERF_MODEL_CYCLE.
abbrev pub clock : Xlen → Instruction → Hart → PerfModel → ℕ → ℕ
clock x i h p m = stalled (splits x i h) (
    stalled (jumps x i h)
      (stalled (after_load i p) (stalled (after_load2 i p) (stalled (after_write i p) m))))

stalled-bit :
    (b : Bool) (k m : ℕ) → k % 2 ^ 64 ≡ m % 2 ^ 64 → stalled b k % 2 ^ 64 ≡ (m + bit b) % 2 ^ 64
stalled-bit true k m h = omega arith
stalled-bit false k m h = omega arith

five_stalls :
    (a b c d e : Bool) (m : ℕ)
    → u64 (stalled e (stalled d (stalled a (stalled c (stalled b m)))) + 1)
      ≡ (m + (1 + bit a + bit b + bit c + bit d + bit e)) % 2 ^ 64
five_stalls a b c d e m = omega (
  arith,
  stalled-bit e _ _
      (stalled-bit d _ _ (stalled-bit a _ _ (stalled-bit c _ _ (stalled-bit b m m refl)))),
)

pub times :
    (cfg : Config) (i : Instruction) (raw : ℕ) (s : Machine) (op : Opcode) (instr : Instr)
    → Leaves i instr
    → opcode_of cfg.xlen (get_opcode raw) ≡ op
    → Switched s.perf_model
        (clock cfg.xlen i (hart s) s.perf_model s.mcycle)
        instr
        (execute cfg raw (wrap cfg.xlen (s.cpu.pc + 4)) op s)
    → Allows (λ _. Times cfg.xlen i s) (process_instr cfg raw s)
times cfg i raw s op instr f e runs =
    let h = hart s in
    let p = s.perf_model in
    Allows_mono (λ _. Took p (clock cfg.xlen i h p s.mcycle) instr) (λ _. Times cfg.xlen i s)
      (process_instr cfg raw s)
      (λ c t took. record {
        counts =
            took.at_cycle
            ∙ five_stalls (after_load i p) (after_write i p) (after_load2 i p) (jumps cfg.xlen i h)
                (splits cfg.xlen i h) s.mcycle;
        model = took.model ∙ (λ j. record {
          prev_rd = f.rd_is j;
          prev2_rd = p.prev_rd;
          prev_mem_load = f.load_is j;
          prev2_mem_load = p.prev_mem_load;
          prev_reg_write = f.write_is j;
        });
      })
      (process_instr-Took cfg raw s op (clock cfg.xlen i h p s.mcycle) instr e runs)

-- The word of an instruction takes its cycles where process_instr returns.
abbrev pub Takes : Config → Machine → Instruction → Type 0
Takes cfg s i = Allows (λ _. Times cfg.xlen i s) (process_instr cfg (encode i) s)

abbrev pub next_pc : Config → Machine → ℕ
next_pc cfg s = wrap cfg.xlen (s.cpu.pc + 4)
