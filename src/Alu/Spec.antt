-- ===== src/Alu/Spec.antt =====
-- The arithmetic of the base instruction set as the RISC-V manual states it, on the numbers that
-- the registers stand for, and that the inner switch computes it.
use rvem.Common.{
  ℕ, ◌+◌, ◌-◌, ◌*◌, ◌/◌, ◌%◌, ◌^◌, ◌<◌, ◌≡◌, refl, arith, ap, sym, ◌∙◌, some, bit_and, bit_or,
  bit_xor, ltb,
}
use rvem.Common.Int.{◌-ℤ◌, shr_ℤ, ltb_ℤ}
use rvem.Common.Bits.{bit_and_field}
use rvem.Common.Word.{to_signed, of_signed, of_signed-to_signed}
use rvem.Arch.{Xlen, rv32, rv64, bits, shift_max}
use rvem.Shift.{sra}
use rvem.Shift.Laws.{sra-shr, sra-lt}
use rvem.Riscv.{AluOp}
use rvem.Alu.{alu, flag}

-- The result of an operation on registers a and b.
abbrev pub result : Xlen → AluOp → ℕ → ℕ → ℕ
result x AluOp.add a b = (a + b) % 2 ^ bits x
result x AluOp.sub a b = of_signed (bits x) (to_signed (bits x) a -ℤ to_signed (bits x) b)
result x AluOp.sll a b = a * 2 ^ (b % bits x) % 2 ^ bits x
result x AluOp.srl a b = a / 2 ^ (b % bits x)
result x AluOp.sra a b = of_signed (bits x) (shr_ℤ (to_signed (bits x) a) (b % bits x))
result x AluOp.slt a b = flag (ltb_ℤ (to_signed (bits x) a) (to_signed (bits x) b))
result x AluOp.sltu a b = flag (ltb a b)
result x AluOp.and a b = bit_and a b
result x AluOp.or a b = bit_or a b
result x AluOp.xor a b = bit_xor a b
result x AluOp.none a b = 0

-- The instructions that there are.
abbrev pub IsOp : AluOp → Type 0
IsOp AluOp.none = ⊥
IsOp _ = Unit

pub shift_amount : (x : Xlen) (b : ℕ) → bit_and b (shift_max x) ≡ b % bits x
shift_amount rv32 b = omega (arith, bit_and_field 0 5 b)
shift_amount rv64 b = omega (arith, bit_and_field 0 6 b)

difference :
    (x : Xlen) (a b : ℕ)
    → a < 2 ^ bits x
    → b < 2 ^ bits x
    → (a + 2 ^ bits x - b) % 2 ^ bits x
      ≡ of_signed (bits x) (to_signed (bits x) a -ℤ to_signed (bits x) b)
unfolding ◌-ℤ◌
difference rv32 a b h k = ground arith
difference rv64 a b h k = ground arith

pub sra-result :
    (x : Xlen) (a k : ℕ)
    → a < 2 ^ bits x
    → k < bits x
    → sra x a k ≡ of_signed (bits x) (shr_ℤ (to_signed (bits x) a) k)
sra-result x a k h p =
    sym (of_signed-to_signed (bits x) (sra x a k) (bits_pos x) (sra-lt x a k))
    ∙ ap (of_signed (bits x)) (sra-shr x a k h p)
  where
    bits_pos : (y : Xlen) → 0 < bits y
    bits_pos rv32 = omega arith
    bits_pos rv64 = omega arith

pub amount-lt : (x : Xlen) (b : ℕ) → b % bits x < bits x
amount-lt rv32 b = omega arith
amount-lt rv64 b = omega arith

-- Every operation of OP_RTYPE stores the result of the manual.
pub alu-result :
    (x : Xlen) (op : AluOp) (a b : ℕ)
    → IsOp op
    → a < 2 ^ bits x
    → b < 2 ^ bits x
    → alu x op a b ≡ some (result x op a b)
unfolding alu
alu-result x AluOp.add a b i h k = refl
alu-result x AluOp.sub a b i h k = ap some (difference x a b h k)
alu-result x AluOp.sll a b i h k = rw (shift_amount x b)
alu-result x AluOp.srl a b i h k = rw (shift_amount x b)
alu-result x AluOp.sra a b i h k =
    rw (shift_amount x b) (ap some (sra-result x a _ h (amount-lt x b)))
alu-result x AluOp.slt a b i h k = refl
alu-result x AluOp.sltu a b i h k = refl
alu-result x AluOp.and a b i h k = refl
alu-result x AluOp.or a b i h k = refl
alu-result x AluOp.xor a b i h k = refl
alu-result x AluOp.none a b i h k = absurd i
