-- ===== src/Exec/Blind.antt =====
-- The cases of the switch, but those of the CSR instructions, do not look at the counters.
use rvem.Common.{ℕ, Option, none, some}
use rvem.Arch.{Config}
use rvem.Machine.Blind.{Blind, blind_rules, pure-Blind, set_reg-Blind, bind}
use rvem.Bus.Blind.{
  hazard-Blind, branch_hazard-Blind, branch_taken-Blind, bus_read-Blind, bus_write-Blind,
}
use rvem.Exec.{
  set_result, exec_rtype, exec_imm, exec_rtypew, exec_immw, exec_load, exec_store, exec_branch,
}
use rvem.Exec.{exec_auipc, exec_lui, exec_jal, exec_jalr, exec_unknown}
use rvem.Exec.System.{ecall}

pub ruleset exec_rules = (
  blind_rules, hazard-Blind, branch_hazard-Blind, branch_taken-Blind, bus_read-Blind,
  bus_write-Blind,
)

set_result-Blind : (rd : ℕ) (r : Option ℕ) → Blind (set_result rd r)
unfolding set_result
set_result-Blind rd none = pure-Blind
set_result-Blind rd (some v) = set_reg-Blind rd v

module _ (cfg : Config) (raw : ℕ) where
  pub exec_rtype-Blind : Blind (exec_rtype cfg raw)
  unfolding exec_rtype
  exec_rtype-Blind = search (exec_rules, set_result-Blind) depth 8

  pub exec_imm-Blind : Blind (exec_imm cfg raw)
  unfolding exec_imm
  exec_imm-Blind = search (exec_rules, set_result-Blind) depth 8

  pub exec_rtypew-Blind : Blind (exec_rtypew cfg raw)
  unfolding exec_rtypew
  exec_rtypew-Blind = search (exec_rules, set_result-Blind) depth 8

  pub exec_immw-Blind : Blind (exec_immw cfg raw)
  unfolding exec_immw
  exec_immw-Blind = search (exec_rules, set_result-Blind) depth 8

  pub exec_load-Blind : Blind (exec_load cfg raw)
  unfolding exec_load
  exec_load-Blind = search (exec_rules, set_result-Blind) depth 8

  pub exec_store-Blind : Blind (exec_store cfg raw)
  unfolding exec_store
  exec_store-Blind = search exec_rules depth 8

  pub exec_branch-Blind : (next_pc : ℕ) → Blind (exec_branch cfg raw next_pc)
  unfolding exec_branch
  exec_branch-Blind next_pc = search exec_rules depth 8

  pub exec_auipc-Blind : Blind (exec_auipc cfg raw)
  unfolding exec_auipc
  exec_auipc-Blind = search exec_rules depth 8

  pub exec_lui-Blind : Blind (exec_lui cfg raw)
  unfolding exec_lui
  exec_lui-Blind = search exec_rules depth 8

  pub exec_jal-Blind : Blind (exec_jal cfg raw)
  unfolding exec_jal
  exec_jal-Blind = search exec_rules depth 8

  pub exec_jalr-Blind : Blind (exec_jalr cfg raw)
  unfolding exec_jalr
  exec_jalr-Blind = search exec_rules depth 8

pub exec_unknown-Blind : (raw : ℕ) → Blind (exec_unknown raw)
unfolding exec_unknown
exec_unknown-Blind raw = search exec_rules

pub ecall-Blind : Blind ecall
unfolding ecall
ecall-Blind = search exec_rules depth 8
