-- ===== src/Perf.antt =====
-- inc/perf.h: the macros of the performance model, as commands on mcycle and on the record of the
-- last two instructions.
pub mod Laws
pub mod Stalls
use rvem.Common.{
  ℕ, ◌+◌, ◌-◌, ◌%◌, ◌^◌, Bool, false, not, ◌&&◌, ◌||◌, some, bit_and, ltb, ◌==◌, if◌then◌else◌,
}
use rvem.Common.Word.{u64}
use rvem.Machine.{Machine, Instr, PerfModel, M, pure, ◌>>=◌, ◌>>◌, when, tick}

-- instr reads the register rd, which is not x0
unfoldable pub reads : Instr → ℕ → Bool
reads instr rd = not (rd == 0) && (instr.rs1 == rd || instr.rs2 == rd)

unfoldable pub data_stall : PerfModel → Instr → Bool
unfolding reads
data_stall p instr = p.prev_mem_load && reads instr p.prev_rd

unfoldable pub branch_stall : PerfModel → Instr → Bool
unfolding reads
branch_stall p instr = p.prev_reg_write && reads instr p.prev_rd

unfoldable pub load_branch_stall : PerfModel → Instr → Bool
unfolding reads
load_branch_stall p instr = p.prev2_mem_load && reads instr p.prev2_rd

unfoldable pub get_model : M PerfModel
get_model s = some (s.perf_model, s)

-- PERF_MODEL_INIT
unfoldable pub init : M (Unit {0})
init s = some (
  tt,
  record s {
    perf_model = record {
      prev_rd = 0;
      prev2_rd = 0;
      prev_mem_load = false;
      prev2_mem_load = false;
      prev_reg_write = false;
    };
  },
)

-- PERF_MODEL_HAZARD
unfoldable pub hazard : Instr → M (Unit {0})
unfolding get_model data_stall tick
hazard instr = do p ← get_model; when (data_stall p instr) tick

-- PERF_MODEL_BRANCH_HAZARD: three tests, each with its own cycle
unfoldable pub branch_hazard : Instr → M (Unit {0})
unfolding get_model data_stall branch_stall load_branch_stall tick
branch_hazard instr = do
  p ← get_model
  when (branch_stall p instr) tick
  when (load_branch_stall p instr) tick
  when (data_stall p instr) tick

-- PERF_MODEL_BRANCH_TAKEN
unfoldable pub branch_taken : M (Unit {0})
unfolding tick
branch_taken = tick

-- PERF_MODEL_MEMORY, for a size that is a power of two
unfoldable pub memory : ℕ → ℕ → M (Unit {0})
unfolding tick
memory size addr = when (not (bit_and addr (size - 1) == 0)) tick

-- PERF_MODEL_CYCLE
unfoldable pub cycle : Instr → M (Unit {0})
cycle instr s = some (
  tt,
  record s {
    mcycle = u64 (s.mcycle + 1);
    minstret = u64 (s.minstret + 1);
    perf_model = record {
      prev_rd = instr.rd;
      prev2_rd = s.perf_model.prev_rd;
      prev_mem_load = instr.is_mem_load;
      prev2_mem_load = s.perf_model.prev_mem_load;
      prev_reg_write = instr.is_reg_write;
    };
  },
)
