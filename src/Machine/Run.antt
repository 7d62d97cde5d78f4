-- ===== src/Machine/Run.antt =====
-- The commands on the state as equations, where they index no array out of bounds.
use rvem.Common.{ℕ, ◌<◌, ◌≡◌, lt→ltb}
use rvem.Common.{some}
use rvem.Arch.{xrf_size}
use rvem.Machine.{Machine, update, get_reg, set_reg}

-- After a write to a register and some cycles.
abbrev pub written : Machine → ℕ → ℕ → ℕ → Machine
written s k rd v = record s {
  mcycle = k;
  cpu = record (s.cpu) { regfile = update s.cpu.regfile rd v };
}

pub get_reg-get : (i : ℕ) (s : Machine) → i < xrf_size → get_reg i s ≡ some (s.cpu.regfile i, s)
unfolding get_reg
get_reg-get i s h = rw (lt→ltb i xrf_size h)

pub set_reg-written :
    (i v : ℕ) (s : Machine) → i < xrf_size → set_reg i v s ≡ some (tt, written s s.mcycle i v)
unfolding set_reg
set_reg-written i v s h = rw (lt→ltb i xrf_size h)
