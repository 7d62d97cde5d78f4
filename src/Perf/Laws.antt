-- ===== src/Perf/Laws.antt =====
-- The cycles of the performance model: what each macro adds, and when.
use rvem.Common.{ℕ, ◌+◌, ◌≡◌, refl, Bool, true, false, some}
use rvem.Common.Word.{u64}
use rvem.Arch.{Xlen}
use rvem.Machine.{Machine, Instr, when, tick, ◌>>◌}
use rvem.Machine.Safe.{Safe, bind, when-Safe, tick-Safe, gets-Safe}
use rvem.Perf.{
  get_model, hazard, branch_hazard, branch_taken, memory, data_stall, branch_stall,
  load_branch_stall, init,
}

module _ {x : Xlen} where
  get_model-Safe : Safe x 0 (λ _. Unit {0}) get_model
  unfolding get_model
  get_model-Safe = gets-Safe (λ s. s.perf_model) (λ _ _. tt)

  pub hazard-Safe : (instr : Instr) → Safe x 1 (λ _. Unit {0}) (hazard instr)
  unfolding hazard
  hazard-Safe instr = bind get_model-Safe (λ p _. when-Safe (data_stall p instr) tick-Safe)

  pub branch_hazard-Safe : (instr : Instr) → Safe x 3 (λ _. Unit {0}) (branch_hazard instr)
  unfolding branch_hazard
  branch_hazard-Safe instr = bind get_model-Safe λ p _.
      bind (when-Safe (branch_stall p instr) tick-Safe) λ _ _.
        bind (when-Safe (load_branch_stall p instr) tick-Safe)
          λ _ _. when-Safe (data_stall p instr) tick-Safe

  pub branch_taken-Safe : Safe x 1 (λ _. Unit {0}) branch_taken
  unfolding branch_taken
  branch_taken-Safe = tick-Safe

  pub memory-Safe : (size addr : ℕ) → Safe x 1 (λ _. Unit {0}) (memory size addr)
  unfolding memory
  memory-Safe size addr = when-Safe _ tick-Safe

-- A stall changes mcycle only.
pub stall-mcycle :
    (b : Bool) (s : Machine) → (k : ℕ) × (when b tick s ≡ some (tt, record s { mcycle = k }))
unfolding tick
stall-mcycle true s = (u64 (s.mcycle + 1), refl)
stall-mcycle false s = (s.mcycle, refl)

pub hazard-mcycle :
    (instr : Instr) (s : Machine) → (k : ℕ) × (hazard instr s ≡ some (tt, record s { mcycle = k }))
unfolding hazard get_model
hazard-mcycle instr s = stall-mcycle (data_stall s.perf_model instr) s

pub branch_hazard-mcycle :
    (instr : Instr) (s : Machine)
    → (k : ℕ) × (branch_hazard instr s ≡ some (tt, record s { mcycle = k }))
unfolding branch_hazard get_model
branch_hazard-mcycle instr s =
    let p = s.perf_model in
    let (k, first) = stall-mcycle (branch_stall p instr) s in
    let (l, second) = stall-mcycle (load_branch_stall p instr) (record s { mcycle = k }) in
    let (m, third) = stall-mcycle (data_stall p instr) (record s { mcycle = l }) in
    (m, rw (first, second, third))

pub branch_taken-mcycle :
    (s : Machine) → branch_taken s ≡ some (tt, record s { mcycle = u64 (s.mcycle + 1) })
unfolding branch_taken tick
branch_taken-mcycle s = refl

-- After PERF_MODEL_INIT no instruction waits for an earlier one.
init-free :
    (instr : Instr) (s : Machine)
    → ((init >> hazard instr) s ≡ init s) × ((init >> branch_hazard instr) s ≡ init s)
unfolding init hazard branch_hazard get_model data_stall branch_stall load_branch_stall
init-free instr s = (refl, refl)
