-- ===== src/Librv.antt =====
-- sdk/librv: the guest's side of the interface. The inline assembly of printf_librv.c and librv.h
-- as the words that the assembler makes of it, run by the emulator one after the other; the
-- registers that the compiler picks for the operands are arguments.
pub mod Putchar
pub mod Attempt
pub mod Counters
use rvem.Common.{
  ℕ, zero, suc, ◌+◌, ◌-◌, ◌^◌, ◌%◌, Bool, true, false, Option, none, some, List, [], ◌∷◌, ◌==◌,
  if◌then◌else◌, bit_or,
}
use rvem.Common.Word.{u32, u64, ◌<<<◌}
use rvem.Arch.{Config}
use rvem.Riscv.Encode.{i_type, b_type}
use rvem.Machine.{M, pure, ◌>>=◌, get_reg, get_pc}
use rvem.Core.{process_instr}
use rvem.Core.System.{csrr_word}

-- Words in a row, as long as the program goes on.
unfoldable pub words : Config → List ℕ → M Bool
words cfg [] = pure true
words cfg (w ∷ ws) = do
  let rest = words cfg ws
  continue ← process_instr cfg w
  if continue then rest else pure false

-- li a0, 11; mv a1, c; ecall
unfoldable pub putchar_ : Config → (c : ℕ) → M Bool
unfolding words
putchar_ cfg c = words cfg (i_type 11 0 0 10 0x13 ∷ i_type 0 c 0 11 0x13 ∷ 0x73 ∷ [])

-- The loop of query_performance_counter and query_instruction_counter, on fuel, for a counter with
-- the CSR csrh of its upper half: at the label 1, three reads, then bne hi, hi2, 1b. Then the
-- result is put together from hi and lo as numbers of 32 bits.
unfoldable pub query_counter : ℕ → Config → (csrh csr hi lo hi2 : ℕ) → M (Option ℕ)
unfolding words
query_counter zero cfg csrh csr hi lo hi2 = pure none
query_counter (suc fuel) cfg csrh csr hi lo hi2 = do
  let again = query_counter fuel cfg csrh csr hi lo hi2
  label ← get_pc
  _ ← words cfg (
      csrr_word csrh hi
      ∷ csrr_word csr lo
      ∷ csrr_word csrh hi2
      ∷ b_type (2 ^ 13 - 12) hi2 hi 1 0x63
      ∷ [])
  pc ← get_pc
  if pc == label
      then again
      else (do h ← get_reg hi; l ← get_reg lo; pure (some (bit_or (u64 (u32 h <<< 32)) (u32 l))))

-- mcycleh and mcycle
unfoldable pub query_performance_counter : ℕ → Config → (hi lo hi2 : ℕ) → M (Option ℕ)
unfolding query_counter
query_performance_counter fuel cfg hi lo hi2 = query_counter fuel cfg 0xB80 0xB00 hi lo hi2

-- minstreth and minstret
unfoldable pub query_instruction_counter : ℕ → Config → (hi lo hi2 : ℕ) → M (Option ℕ)
unfolding query_counter
query_instruction_counter fuel cfg hi lo hi2 = query_counter fuel cfg 0xB82 0xB02 hi lo hi2
