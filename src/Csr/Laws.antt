-- ===== src/Csr/Laws.antt =====
-- The counters that a guest reads.
use rvem.Common.{ℕ, ◌^◌, ◌<◌, arith}
use rvem.Arch.{Xlen, rv32, rv64, bits}
use rvem.Machine.{Machine}
use rvem.Machine.Safe.{Safe, gets-Safe, pure-Safe}
use rvem.Csr.{Csr, csr_of, csr_value, read_csr, write_csr}

csr_value-lt : (x : Xlen) (c : Csr) (s : Machine) → csr_value x c s < 2 ^ bits x
unfolding csr_value
csr_value-lt rv32 Csr.cycle s = omega arith
csr_value-lt rv32 Csr.instret s = omega arith
csr_value-lt rv32 Csr.cycleh s = omega arith
csr_value-lt rv32 Csr.instreth s = omega arith
csr_value-lt rv32 Csr.none s = omega arith
csr_value-lt rv64 Csr.cycle s = omega arith
csr_value-lt rv64 Csr.instret s = omega arith
csr_value-lt rv64 Csr.cycleh s = omega arith
csr_value-lt rv64 Csr.instreth s = omega arith
csr_value-lt rv64 Csr.none s = omega arith

pub read_csr-Safe : {x : Xlen} (csr : ℕ) → Safe x 0 (λ v. v < 2 ^ bits x) (read_csr x csr)
unfolding read_csr
read_csr-Safe {x} csr =
    gets-Safe (λ s. csr_value x (csr_of x csr) s) (λ s _. csr_value-lt x (csr_of x csr) s)

pub write_csr-Safe : {x : Xlen} (csr val : ℕ) → Safe x 0 (λ _. Unit {0}) (write_csr csr val)
unfolding write_csr
write_csr-Safe csr val = pure-Safe tt
