-- ===== src/Csr/Halves.antt =====
-- On RV32 a counter is read in two halves.
use rvem.Common.{◌+◌, ◌*◌, ◌^◌, ◌<◌, ◌≡◌, refl, arith}
use rvem.Arch.{rv32}
use rvem.Machine.{Machine}
use rvem.Machine.Safe.{Ensures}
use rvem.Csr.{read_csr, csr_of, csr_value}

-- On RV32 a counter of 64 bits is what two reads give, the upper half and then the lower one, and
-- they leave the state as it was: mcycle by mcycleh and mcycle, minstret by the user's instreth and
-- instret. It asks for both counters below 2 ^ 64.
pub read_csr-halves :
    (s : Machine)
    → s.mcycle < 2 ^ 64
    → s.minstret < 2 ^ 64
    → Ensures
        (λ hi t. Ensures (λ lo u. (hi * 2 ^ 32 + lo ≡ s.mcycle) × (u ≡ s)) (read_csr rv32 0xB00 t))
        (read_csr rv32 0xB80 s)
      × Ensures
          (λ hi t.
            Ensures (λ lo u. (hi * 2 ^ 32 + lo ≡ s.minstret) × (u ≡ s)) (read_csr rv32 0xC02 t))
          (read_csr rv32 0xC82 s)
unfolding read_csr csr_of csr_value
read_csr-halves s h k = ((omega arith, refl), (omega arith, refl))
