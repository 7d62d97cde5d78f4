-- ===== src/Perf/Stalls.antt =====
-- The macros of inc/perf.h as equations: which of them add a cycle.
use rvem.Common.{
  ℕ, ◌+◌, ◌-◌, ◌%◌, ◌≡◌, refl, arith, Bool, true, false, not, some, ◌==◌, if◌then◌else◌, bit_and,
}
use rvem.Common.Bits.{bit_and_field}
use rvem.Common.Word.{u64}
use rvem.Machine.{Machine, Instr, when, tick}
use rvem.Perf.{
  hazard, branch_hazard, memory, get_model, data_stall, branch_stall, load_branch_stall,
}

-- mcycle after a test that may add a cycle.
abbrev pub stalled : Bool → ℕ → ℕ
stalled b c = if b then u64 (c + 1) else c

when-stalled :
    (b : Bool) (s : Machine) → when b tick s ≡ some (tt, record s { mcycle = stalled b s.mcycle })
unfolding tick
when-stalled true s = refl
when-stalled false s = refl

pub hazard-stalled :
    (instr : Instr) (s : Machine)
    → hazard instr s
      ≡ some (tt, record s { mcycle = stalled (data_stall s.perf_model instr) s.mcycle })
unfolding hazard get_model
hazard-stalled instr s = when-stalled (data_stall s.perf_model instr) s

pub branch_hazard-stalled :
    (instr : Instr) (s : Machine)
    → branch_hazard instr s
      ≡ some (
        tt,
        record s {
          mcycle = stalled (data_stall s.perf_model instr) (
              stalled
                (load_branch_stall s.perf_model instr)
                (stalled (branch_stall s.perf_model instr) s.mcycle));
        },
      )
unfolding branch_hazard get_model
branch_hazard-stalled instr s =
    let p = s.perf_model in
    let u : Machine = record s { mcycle = stalled (branch_stall p instr) s.mcycle } in
    let v : Machine = record u { mcycle = stalled (load_branch_stall p instr) u.mcycle } in
    rw (
      when-stalled (branch_stall p instr) s,
      when-stalled (load_branch_stall p instr) u,
      when-stalled (data_stall p instr) v,
    )

-- A stall of PERF_MODEL_MEMORY, for the sizes of the accesses.
memory-stalled :
    (n addr : ℕ) (s : Machine) (low : ℕ)
    → bit_and addr (n - 1) ≡ low
    → memory n addr s ≡ some (tt, record s { mcycle = stalled (not (low == 0)) s.mcycle })
unfolding memory
memory-stalled n addr s low e = rw e (when-stalled (not (low == 0)) s)

module _ (addr : ℕ) (s : Machine) where
  pub memory2-stalled :
      memory 2 addr s ≡ some (tt, record s { mcycle = stalled (not (addr % 2 == 0)) s.mcycle })
  memory2-stalled = memory-stalled 2 addr s (addr % 2) (omega (arith, bit_and_field 0 1 addr))

  pub memory4-stalled :
      memory 4 addr s ≡ some (tt, record s { mcycle = stalled (not (addr % 4 == 0)) s.mcycle })
  memory4-stalled = memory-stalled 4 addr s (addr % 4) (omega (arith, bit_and_field 0 2 addr))

  pub memory8-stalled :
      memory 8 addr s ≡ some (tt, record s { mcycle = stalled (not (addr % 8 == 0)) s.mcycle })
  memory8-stalled = memory-stalled 8 addr s (addr % 8) (omega (arith, bit_and_field 0 3 addr))
