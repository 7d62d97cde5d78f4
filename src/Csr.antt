-- ===== src/Csr.antt =====
-- inc/csr.h: the counters as control and status registers.
pub mod Laws
pub mod Halves
use rvem.Common.{ℕ, ◌+◌, ◌%◌, ◌/◌, ◌^◌, Bool, ◌||◌, some, ◌==◌, if◌then◌else◌}
use rvem.Common.Word.{◌>>>◌}
use rvem.Arch.{Xlen, rv32, rv64, bits}
use rvem.Machine.{Machine, M, pure, wrap}

-- The cases of the switch: the upper halves are there on RV32 only.
pub data Csr : Type 0 where
  cycle instret cycleh instreth : Csr
  none : Csr

unfoldable pub csr_of : Xlen → ℕ → Csr
csr_of x csr =
    if csr == 0xB00 || csr == 0xC00
    then Csr.cycle
    else if csr == 0xB02 || csr == 0xC02
    then Csr.instret
    else if csr == 0xB80 || csr == 0xC80
    then elim x [ rv32 ↦ Csr.cycleh | rv64 ↦ Csr.none ]
    else if csr == 0xB82 || csr == 0xC82
    then elim x [ rv32 ↦ Csr.instreth | rv64 ↦ Csr.none ]
    else Csr.none

unfoldable pub csr_value : Xlen → Csr → Machine → ℕ
csr_value x Csr.cycle s = wrap x s.mcycle
csr_value x Csr.instret s = wrap x s.minstret
csr_value x Csr.cycleh s = wrap x (s.mcycle >>> 32)
csr_value x Csr.instreth s = wrap x (s.minstret >>> 32)
csr_value x Csr.none s = 0

unfoldable pub read_csr : Xlen → ℕ → M ℕ
unfolding csr_of csr_value
read_csr x csr s = some (csr_value x (csr_of x csr) s, s)

-- "not implemented": both arguments are ignored
unfoldable pub write_csr : ℕ → ℕ → M (Unit {0})
write_csr csr val = pure tt
