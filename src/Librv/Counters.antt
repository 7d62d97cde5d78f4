-- ===== src/Librv/Counters.antt =====
-- The counter queries of librv.h, run by the emulator for RV32.
use rvem.Common.{
  ℕ, suc, ◌+◌, ◌-◌, ◌*◌, ◌/◌, ◌%◌, ◌^◌, ◌<◌, ◌≤◌, ◌≡◌, ◌≢◌, refl, arith, ap, ◌∙◌, Bool, true, false,
  Option, some, [], ◌∷◌, ◌==◌, if◌then◌else◌, ◌⊎◌, inl, inr, bit_or,
}
use rvem.Common.Bits.{bit_or_fields}
use rvem.Common.Word.{u32, u64, ◌<<<◌}
use rvem.Arch.{rv32, Compiler}
use rvem.Riscv.Encode.{b_type}
use rvem.Machine.{Machine, pure, ◌>>=◌, wrap, get_pc, get_reg}
use rvem.Machine.Safe.{IsValid, Ensures, Ensures_mono, Ensures-and_then}
use rvem.Machine.Run.{get_reg-get}
use rvem.Csr.{csr_of, csr_value}
use rvem.Core.System.{csrr_word}
use rvem.Librv.{words, query_counter, query_performance_counter, query_instruction_counter}
use rvem.Librv.Attempt.{build32, IsCounter, Attempted, AreRegisters, words-Attempted}

-- A query's result lies between the counter c before it and the counter after it, and it goes on
-- after its four instructions.
pub data Answers (pc c : ℕ) (count : Machine → ℕ) (r : Option ℕ) (t : Machine) : Type 0 where
  answer :
      (v : ℕ)
      → r ≡ some v
      → c < v
      → v < count t
      → t.cpu.pc ≡ wrap rv32 (pc + 16)
      → Answers pc c count r t

value :
    (c h l : ℕ)
    → c + 8 < 2 ^ 64
    → c / 2 ^ 32 ≡ (c + 2) / 2 ^ 32
    → h ≡ c / 2 ^ 32 % 2 ^ 32
    → l ≡ (c + 1) % 2 ^ 32
    → bit_or (u64 (u32 h <<< 32)) (u32 l) ≡ c + 1
value c h l room e hi lo =
    let top : u64 (u32 h <<< 32) ≡ c / 2 ^ 32 * 2 ^ 32 = omega arith in
    let low : u32 l < 2 ^ 32 = omega arith in
    rw (top, bit_or_fields 32 (c / 2 ^ 32) (u32 l) low) (omega arith)

settled :
    (c d : ℕ)
    → c / 2 ^ 32 ≢ (c + 2) / 2 ^ 32
    → c + 4 ≤ d
    → d ≤ c + 8
    → d / 2 ^ 32 ≡ (d + 2) / 2 ^ 32
settled c d ne low high = omega arith

later :
    {count : Machine → ℕ} (p q c d : ℕ) (r : Option ℕ) (t : Machine)
    → p ≡ q
    → c ≤ d
    → Answers p d count r t
    → Answers q c count r t
later p q c d r t e le (answer v is above below pc) =
    answer v is (omega arith) below (pc ∙ ap (λ (n : ℕ). wrap rv32 (n + 16)) e)

module _ (m : Bool) (k : Compiler) (csrh csr : ℕ) (count : Machine → ℕ)
    (is : IsCounter csrh csr count) (hc : csrh < 2 ^ 12) (lc : csr < 2 ^ 12) (hi lo hi2 : ℕ)
    (r : AreRegisters hi lo hi2) where
  -- After a round that does not go back.
  leaves :
      (fuel pc c : ℕ) (t : Machine)
      → pc < 2 ^ 32
      → c + 8 < 2 ^ 64
      → Attempted pc c hi lo count t
      → c / 2 ^ 32 ≡ (c + 2) / 2 ^ 32
      → Ensures (Answers pc c count) (
          (if t.cpu.pc == pc then query_counter fuel (build32 m k) csrh csr hi lo hi2 else (do
            h ← get_reg hi
            l ← get_reg lo
            pure (some (bit_or (u64 (u32 h <<< 32)) (u32 l)))))
            t)
  leaves fuel pc c t small room tried e =
      let at : t.cpu.pc ≡ wrap rv32 (pc + 16) = forward tried.goes_on in
      let test : (t.cpu.pc == pc) ≡ false = ground arith in
      rw
        (
          test,
          get_reg-get hi t (r.hi_range.1),
          get_reg-get lo t (r.lo_range.1),
          value c (t.cpu.regfile hi) (t.cpu.regfile lo) room e tried.upper_read tried.lower_read,
        )
        (answer (c + 1) refl (omega arith) (omega (arith, tried.least)) at)
    where
      forward :
          (((c / 2 ^ 32 ≡ (c + 2) / 2 ^ 32) × (t.cpu.pc ≡ wrap rv32 (pc + 16)))
            ⊎ ((c / 2 ^ 32 ≢ (c + 2) / 2 ^ 32) × (t.cpu.pc ≡ pc)))
          → t.cpu.pc ≡ wrap rv32 (pc + 16)
      forward (inl (_, p)) = p
      forward (inr (ne, p)) = absurd (ne e)

  once :
      (fuel : ℕ) (s : Machine)
      → IsValid rv32 s
      → count s + 8 < 2 ^ 64
      → count s / 2 ^ 32 ≡ (count s + 2) / 2 ^ 32
      → Ensures
          (Answers s.cpu.pc (count s) count)
          (query_counter (suc fuel) (build32 m k) csrh csr hi lo hi2 s)
  unfolding query_counter get_pc
  once fuel s v room e =
      Ensures-and_then _ _
        (words (build32 m k)
          (csrr_word csrh hi
            ∷ csrr_word csr lo
            ∷ csrr_word csrh hi2
            ∷ b_type (2 ^ 13 - 12) hi2 hi 1 0x63
            ∷ [])
          s)
        _ (words-Attempted m k csrh csr count is hc lc hi lo hi2 s r v room)
        λ b t tried. leaves fuel s.cpu.pc (count s) t v.pc_range room tried e

  -- Two rounds are enough: the upper half changes in one of them at most.
  twice :
      (fuel : ℕ) (s : Machine)
      → IsValid rv32 s
      → count s + 20 < 2 ^ 64
      → Ensures
          (Answers s.cpu.pc (count s) count)
          (query_counter (suc (suc fuel)) (build32 m k) csrh csr hi lo hi2 s)
  unfolding query_counter get_pc
  twice fuel s v room =
      Ensures-and_then _ _
        (words (build32 m k)
          (csrr_word csrh hi
            ∷ csrr_word csr lo
            ∷ csrr_word csrh hi2
            ∷ b_type (2 ^ 13 - 12) hi2 hi 1 0x63
            ∷ [])
          s)
        _ (words-Attempted m k csrh csr count is hc lc hi lo hi2 s r v (omega arith))
        λ b t tried. by_case t tried tried.goes_on
    where
      by_case :
          (t : Machine)
          → Attempted s.cpu.pc (count s) hi lo count t
          → ((count s / 2 ^ 32 ≡ (count s + 2) / 2 ^ 32) × (t.cpu.pc ≡ wrap rv32 (s.cpu.pc + 16)))
            ⊎ ((count s / 2 ^ 32 ≢ (count s + 2) / 2 ^ 32) × (t.cpu.pc ≡ s.cpu.pc))
          → Ensures (Answers s.cpu.pc (count s) count) (
              (if t.cpu.pc == s.cpu.pc
                  then query_counter (suc fuel) (build32 m k) csrh csr hi lo hi2
                  else (do
                    h ← get_reg hi
                    l ← get_reg lo
                    pure (some (bit_or (u64 (u32 h <<< 32)) (u32 l)))))
                t)
      by_case t tried (inl (e, p)) =
          leaves (suc fuel) s.cpu.pc (count s) t v.pc_range (omega arith) tried e
      by_case t tried (inr (ne, p)) =
          let test : (t.cpu.pc == s.cpu.pc) ≡ true = ground arith in
          rw test (
            Ensures_mono (Answers t.cpu.pc (count t) count) (Answers s.cpu.pc (count s) count)
              (query_counter (suc fuel) (build32 m k) csrh csr hi lo hi2 t)
              (λ w u a.
                later t.cpu.pc s.cpu.pc (count s) (count t) w u p (omega (arith, tried.least)) a)
              (once fuel t tried.valid (omega (arith, tried.most))
                (settled (count s) (count t) ne tried.least tried.most)))

cycles-IsCounter : IsCounter 0xB80 0xB00 (λ s. s.mcycle)
unfolding csr_of csr_value
cycles-IsCounter = record {
  upper = λ s. refl;
  lower = λ s. refl;
  reads = λ out rd v s. refl;
  steps = λ cfg s t done. done.cycles;
  range = λ cfg s v. v.cycle_range;
}

instructions-IsCounter : IsCounter 0xB82 0xB02 (λ s. s.minstret)
unfolding csr_of csr_value
instructions-IsCounter = record {
  upper = λ s. refl;
  lower = λ s. refl;
  reads = λ out rd v s. refl;
  steps = λ cfg s t done. (1, omega arith, omega arith, done.one_more);
  range = λ cfg s v. v.instret_range;
}

-- On RV32, from a valid state with both counters more than 20 below 2 ^ 64, and with different
-- registers other than x0 for the three outputs, each query of librv ends in at most two rounds
-- with a value of the 64-bit counter between those before and after it, also where the lower half
-- overflows between the reads, and goes on after its four instructions.
pub query_counter-Answers :
    (m : Bool) (k : Compiler) (hi lo hi2 : ℕ) (s : Machine)
    → AreRegisters hi lo hi2
    → IsValid rv32 s
    → s.mcycle + 20 < 2 ^ 64
    → s.minstret + 20 < 2 ^ 64
    → Ensures
        (Answers s.cpu.pc s.mcycle (λ t. t.mcycle))
        (query_performance_counter 2 (build32 m k) hi lo hi2 s)
      × Ensures
          (Answers s.cpu.pc s.minstret (λ t. t.minstret))
          (query_instruction_counter 2 (build32 m k) hi lo hi2 s)
unfolding query_performance_counter query_instruction_counter
query_counter-Answers m k hi lo hi2 s r v room room₁ = (
  twice m k 0xB80 0xB00 (λ t. t.mcycle) cycles-IsCounter (omega arith) (omega arith) hi lo hi2 r 0 s
      v room,
  twice m k 0xB82 0xB02 (λ t. t.minstret) instructions-IsCounter (omega arith) (omega arith) hi lo
      hi2 r 0 s v room₁,
)
