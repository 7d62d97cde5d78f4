-- ===== src/Alu/WordSpec.antt =====
-- The W instructions as the RISC-V manual states them: the operation of RV32 on the low words of
-- the registers, sign-extended; and that the inner switches compute it.
use rvem.Common.{
  ℕ, ◌+◌, ◌-◌, ◌/◌, ◌%◌, ◌^◌, ◌<◌, ◌≡◌, refl, arith, ap, sym, ◌∙◌, Bool, true, false, some, ◌==◌,
  bit_and,
}
use rvem.Common.Int.{ℤ, pos, negsuc, ◌-ℤ◌, shr_ℤ, nat_abs}
use rvem.Common.Bits.{bit_and_field}
use rvem.Common.Word.{sign_extend, to_signed, of_signed, of_signed-to_signed, Fits, to_signed-Fits}
use rvem.Arch.{rv32, rv64}
use rvem.Shift.{sraw}
use rvem.Shift.Laws.{sraw-shr, sraw-lt}
use rvem.Riscv.{AluOp, MulOp}
use rvem.Mul.{rv_mulw, rv_divw, rv_divuw, rv_remw, rv_remuw}
use rvem.Mul.Division.{IsDivision, by_zero, overflow, exact, rv_divw-rv_remw-IsDivision}
use rvem.Alu.{alu_word, alu_word_imm, mul_div_word}
use rvem.Alu.Spec.{result}
use rvem.Alu.Product.{IsMulDiv}

-- ADDW, SUBW, SLLW, SRLW and SRAW.
abbrev pub IsWordOp : AluOp → Type 0
IsWordOp AluOp.add = Unit
IsWordOp AluOp.sub = Unit
IsWordOp AluOp.sll = Unit
IsWordOp AluOp.srl = Unit
IsWordOp AluOp.sra = Unit
IsWordOp _ = ⊥

abbrev pub word_result : AluOp → ℕ → ℕ → ℕ
word_result op a b = sign_extend 32 64 (result rv32 op (a % 2 ^ 32) (b % 2 ^ 32))

word_amount : (b : ℕ) → bit_and b 0x1F ≡ b % 2 ^ 32 % 32
word_amount b = omega (arith, bit_and_field 0 5 b)

-- Only the low word is extended.
sext_mod : (m n : ℕ) → m % 2 ^ 32 ≡ n % 2 ^ 32 → sign_extend 32 64 m ≡ sign_extend 32 64 n
sext_mod m n e = ap (λ (k : ℕ). of_signed 64 (to_signed 32 k)) e

sraw_word : (a k : ℕ) → a < 2 ^ 32 → k < 32 → sraw a k ≡ of_signed 32 (shr_ℤ (to_signed 32 a) k)
sraw_word a k h p =
    sym (of_signed-to_signed 32 (sraw a k) (omega arith) (sraw-lt a k))
    ∙ ap (of_signed 32) (sraw-shr a k h p)

difference :
    (a b : ℕ)
    → (a % 2 ^ 32 + 2 ^ 32 - b % 2 ^ 32) % 2 ^ 32
      ≡ of_signed 32 (to_signed 32 (a % 2 ^ 32) -ℤ to_signed 32 (b % 2 ^ 32)) % 2 ^ 32
unfolding ◌-ℤ◌
difference a b = ground arith

pub alu_word-result :
    (op : AluOp) (a b : ℕ) → IsWordOp op → alu_word rv64 op a b ≡ some (word_result op a b)
unfolding alu_word
alu_word-result AluOp.add a b i = ap some (sext_mod _ _ (omega arith))
alu_word-result AluOp.sub a b i = ap some (sext_mod _ _ (difference a b))
alu_word-result AluOp.sll a b i = rw (word_amount b)
alu_word-result AluOp.srl a b i = rw (word_amount b)
alu_word-result AluOp.sra a b i = rw (word_amount b) (
    ap (λ (v : ℕ). some (sign_extend 32 64 v))
      (sraw_word (a % 2 ^ 32) (b % 2 ^ 32 % 32) (omega arith) (omega arith)))
alu_word-result _ a b i = absurd i

-- ADDIW; the shifts by an immediate amount.
pub alu_word_imm-add :
    (bit5 : Bool) (a imm : ℕ)
    → alu_word_imm rv64 bit5 AluOp.add a imm ≡ some (word_result AluOp.add a imm)
unfolding alu_word_imm
alu_word_imm-add bit5 a imm = ap some (sext_mod _ _ (omega arith))

pub alu_word_imm-shift :
    (a amount : ℕ)
    → amount < 32
    → (alu_word_imm rv64 (amount / 2 ^ 10 % 2 == 1) AluOp.sll a (sign_extend 12 64 amount)
        ≡ some (word_result AluOp.sll a amount))
      × (alu_word_imm rv64 (amount / 2 ^ 10 % 2 == 1) AluOp.srl a (sign_extend 12 64 amount)
          ≡ some (word_result AluOp.srl a amount))
      × (alu_word_imm rv64
            ((2 ^ 10 + amount) / 2 ^ 10 % 2 == 1)
            AluOp.srl
            a
            (sign_extend 12 64 (2 ^ 10 + amount))
          ≡ some (word_result AluOp.sra a amount))
unfolding alu_word_imm
alu_word_imm-shift a amount h =
    let same : amount % 2 ^ 32 % 32 ≡ amount = omega arith in
    let plain : (amount / 2 ^ 10 % 2 == 1) ≡ false = ground arith in
    let marked : ((2 ^ 10 + amount) / 2 ^ 10 % 2 == 1) ≡ true = ground arith in
    let positive : sign_extend 12 64 amount ≡ amount = ground arith in
    let marked_positive : sign_extend 12 64 (2 ^ 10 + amount) ≡ 2 ^ 10 + amount = ground arith in
    let low : bit_and amount 0x1F ≡ amount = omega (arith, bit_and_field 0 5 amount) in
    let marked_low : bit_and (2 ^ 10 + amount) 0x1F ≡ amount =
      omega (arith, bit_and_field 0 5 (2 ^ 10 + amount)) in
    (
      rw (positive, low, same),
      rw (plain, positive, low, same),
      rw (marked, marked_positive, marked_low, same)
          (ap (λ (v : ℕ). some (sign_extend 32 64 v))
            (sraw_word (a % 2 ^ 32) amount (omega arith) h)),
    )

-- MULW, DIVW, DIVUW, REMW and REMUW.
abbrev pub IsWordMulOp : MulOp → Type 0
IsWordMulOp MulOp.mul = Unit
IsWordMulOp MulOp.div = Unit
IsWordMulOp MulOp.divu = Unit
IsWordMulOp MulOp.rem = Unit
IsWordMulOp MulOp.remu = Unit
IsWordMulOp _ = ⊥

word_Fits : (a : ℕ) → Fits 32 (to_signed 32 (a % 2 ^ 32))
word_Fits a = to_signed-Fits 32 (a % 2 ^ 32) (omega arith) (omega arith)

-- A quotient or a remainder of 32 bits, extended at once or by way of its word.
extended : (z : ℤ) → Fits 32 z → of_signed 64 z ≡ sign_extend 32 64 (of_signed 32 z)
extended (pos n) h = ground arith
extended (negsuc n) h = ground arith

quotient_Fits : (a b q r : ℤ) → IsDivision 32 a b q r → Fits 32 q
quotient_Fits a b q r (by_zero b0 q0 r0) = rw q0 (omega arith)
quotient_Fits a b q r (overflow a0 b0 q0 r0) = rw q0 (omega arith)
quotient_Fits a b q r (exact nz sum small sign fits) = fits

small_Fits : (b r : ℤ) → Fits 32 b → nat_abs r < nat_abs b → Fits 32 r
small_Fits (pos b) (pos r) h lt = omega arith
small_Fits (pos b) (negsuc r) h lt = omega arith
small_Fits (negsuc b) (pos r) h lt = omega arith
small_Fits (negsuc b) (negsuc r) h lt = omega arith

remainder_Fits : (a b q r : ℤ) → Fits 32 a → Fits 32 b → IsDivision 32 a b q r → Fits 32 r
remainder_Fits a b q r h k (by_zero b0 q0 r0) = rw r0 h
remainder_Fits a b q r h k (overflow a0 b0 q0 r0) = rw r0 (omega arith)
remainder_Fits a b q r h k (exact nz sum small sign fits) = small_Fits b r k small

pub mul_div_word-IsMulDiv :
    (op : MulOp) (a b : ℕ)
    → IsWordMulOp op
    → (v : ℕ) × (mul_div_word rv64 op a b ≡ some (sign_extend 32 64 v))
      × IsMulDiv rv32 op (a % 2 ^ 32) (b % 2 ^ 32) v
unfolding mul_div_word rv_mulw rv_divuw rv_remuw
mul_div_word-IsMulDiv MulOp.mul a b i = (_, refl, refl)
mul_div_word-IsMulDiv MulOp.div a b i =
    let d =
      rv_divw-rv_remw-IsDivision (to_signed 32 (a % 2 ^ 32)) (to_signed 32 (b % 2 ^ 32))
        (word_Fits a) in
    (
      of_signed 32 (rv_divw (to_signed 32 (a % 2 ^ 32)) (to_signed 32 (b % 2 ^ 32))),
      ap some (extended _ (quotient_Fits _ _ _ _ d)),
      (_, _, d, refl),
    )
mul_div_word-IsMulDiv MulOp.divu a b i = (_, refl, refl)
mul_div_word-IsMulDiv MulOp.rem a b i =
    let d =
      rv_divw-rv_remw-IsDivision (to_signed 32 (a % 2 ^ 32)) (to_signed 32 (b % 2 ^ 32))
        (word_Fits a) in
    (
      of_signed 32 (rv_remw (to_signed 32 (a % 2 ^ 32)) (to_signed 32 (b % 2 ^ 32))),
      ap some (extended _ (remainder_Fits _ _ _ _ (word_Fits a) (word_Fits b) d)),
      (_, _, d, refl),
    )
mul_div_word-IsMulDiv MulOp.remu a b i = (_, refl, refl)
mul_div_word-IsMulDiv _ a b i = absurd i
