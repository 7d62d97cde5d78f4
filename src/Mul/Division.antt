-- ===== src/Mul/Division.antt =====
-- Division: the identity that defines quotient and remainder, and the results that the manual fixes
-- for a zero divisor and for the overflow.
use rvem.Common.{
  ℕ, suc, zero, ◌+◌, ◌-◌, ◌*◌, ◌/◌, ◌%◌, ◌^◌, ◌<◌, ◌≤◌, ◌≡◌, ◌≢◌, refl, ap, Bool-cases, ltb, ltb→lt,
  arith, true, false, ◌⊎◌, inl, inr,
}
use rvem.Common.Int.{
  ℤ, pos, negsuc, pos_part, neg_part, nat_abs, negate_ℕ, eqb_ℤ, ◌*ℤ◌, ◌+ℤ◌, ◌/ℤ◌, ◌%ℤ◌,
}
use native.Mathlib.Nat.{div-add-mod', mod-lt, div-lt_self, div-le_self, one-le-pow}
use rvem.Common.Word.{Fits}
use rvem.Arch.{Xlen, bits}
use rvem.Mul.{rv_div, rv_rem, rv_divw, rv_remw, div_signed, rem_signed, signed_min}

-- A value with the sign of the dividend is put together from its quotient and remainder.
module _ (q r : ℕ) where
  rejoin_pos_pos : (b : ℕ) → pos q *ℤ pos b +ℤ pos r ≡ pos (q * b + r)
  unfolding ◌*ℤ◌ ◌+ℤ◌
  rejoin_pos_pos b = ground arith

  rejoin_pos_neg : (b : ℕ) → negate_ℕ q *ℤ negsuc b +ℤ pos r ≡ pos (q * suc b + r)
  unfolding ◌*ℤ◌ ◌+ℤ◌
  rejoin_pos_neg b = ground arith

  rejoin_neg_pos : (b : ℕ) → negate_ℕ q *ℤ pos b +ℤ negate_ℕ r ≡ negate_ℕ (q * b + r)
  unfolding ◌*ℤ◌ ◌+ℤ◌
  rejoin_neg_pos b = ground arith

  rejoin_neg_neg : (b : ℕ) → pos q *ℤ negsuc b +ℤ negate_ℕ r ≡ negate_ℕ (q * suc b + r)
  unfolding ◌*ℤ◌ ◌+ℤ◌
  rejoin_neg_neg b = ground arith

-- C's division is exact: the quotient times the divisor, plus the remainder, is the dividend.
quotient_remainder : (a b : ℤ) → b ≢ pos 0 → (a /ℤ b) *ℤ b +ℤ (a %ℤ b) ≡ a
unfolding ◌/ℤ◌ ◌%ℤ◌
quotient_remainder (pos a) (pos zero) ne = absurd (ne refl)
quotient_remainder (pos a) (pos (suc b)) ne = rw (rejoin_pos_pos, div-add-mod')
quotient_remainder (pos a) (negsuc b) ne = rw (rejoin_pos_neg, div-add-mod')
quotient_remainder (negsuc a) (pos zero) ne = absurd (ne refl)
quotient_remainder (negsuc a) (pos (suc b)) ne = rw (rejoin_neg_pos, div-add-mod')
quotient_remainder (negsuc a) (negsuc b) ne = rw (rejoin_neg_neg, div-add-mod')

eqb-cases : (a b : ℤ) → ((eqb_ℤ a b ≡ true) × (a ≡ b)) ⊎ ((eqb_ℤ a b ≡ false) × (a ≢ b))
unfolding eqb_ℤ
eqb-cases (pos a) (pos b) = ground arith
eqb-cases (pos a) (negsuc b) = ground arith
eqb-cases (negsuc a) (pos b) = ground arith
eqb-cases (negsuc a) (negsuc b) = ground arith

-- The remainder has the sign of the dividend, or is zero.
abbrev pub SignOf : ℤ → ℤ → Type 0
SignOf (pos a) r = neg_part r ≡ 0
SignOf (negsuc a) r = pos_part r ≡ 0

-- What the RISC-V manual says of the quotient q and the remainder r of signed w-bit words.
pub data IsDivision (w : ℕ) (a b q r : ℤ) : Type 0 where
  by_zero : b ≡ pos 0 → q ≡ negsuc 0 → r ≡ a → IsDivision w a b q r
  overflow :
      a ≡ negsuc (2 ^ (w - 1) - 1)
      → b ≡ negsuc 0
      → q ≡ negsuc (2 ^ (w - 1) - 1)
      → r ≡ pos 0
      → IsDivision w a b q r
  exact :
      b ≢ pos 0
      → q *ℤ b +ℤ r ≡ a
      → nat_abs r < nat_abs b
      → SignOf a r
      → Fits w q
      → IsDivision w a b q r

nat_abs-negate : (n : ℕ) → nat_abs (negate_ℕ n) ≡ n
nat_abs-negate zero = refl
nat_abs-negate (suc n) = refl

pos_part-negate : (n : ℕ) → pos_part (negate_ℕ n) ≡ 0
pos_part-negate zero = refl
pos_part-negate (suc n) = refl

negate-Fits : (w n : ℕ) → n ≤ 2 ^ (w - 1) → Fits w (negate_ℕ n)
negate-Fits w zero h = one-le-pow (w - 1) 2 (omega arith)
negate-Fits w (suc n) h = h

nat_abs_pos : (b : ℤ) → b ≢ pos 0 → 0 < nat_abs b
nat_abs_pos (pos zero) ne = absurd (ne refl)
nat_abs_pos (pos (suc b)) ne = omega arith
nat_abs_pos (negsuc b) ne = omega arith

remainder_small : (a b : ℤ) → b ≢ pos 0 → nat_abs (a %ℤ b) < nat_abs b
unfolding ◌%ℤ◌
remainder_small (pos a) b ne = mod-lt a (nat_abs_pos b ne)
remainder_small (negsuc a) b ne = rw nat_abs-negate (mod-lt (suc a) (nat_abs_pos b ne))

remainder_sign : (a b : ℤ) → SignOf a (a %ℤ b)
unfolding ◌%ℤ◌
remainder_sign (pos a) b = refl
remainder_sign (negsuc a) b = pos_part-negate (suc a % nat_abs b)

-- A quotient by two or more.
half-Fits : (w a b : ℕ) → a < 2 ^ (w - 1) → suc a / suc (suc b) < 2 ^ (w - 1)
half-Fits w a b h =
    omega (arith, div-lt_self {n = suc a} {k = suc (suc b)} (omega arith) (omega arith))

quotient-Fits :
    (w : ℕ) (a b : ℤ)
    → Fits w a
    → b ≢ pos 0
    → (a ≡ negsuc (2 ^ (w - 1) - 1) → b ≢ negsuc 0)
    → Fits w (a /ℤ b)
unfolding ◌/ℤ◌
quotient-Fits w (pos a) (pos b) h nz ne = omega (arith, div-le_self a b)
quotient-Fits w (pos a) (negsuc b) h nz ne =
    negate-Fits w (a / suc b) (omega (arith, div-le_self a (suc b)))
quotient-Fits w (negsuc a) (pos b) h nz ne =
    negate-Fits w (suc a / b) (omega (arith, div-le_self (suc a) b))
quotient-Fits w (negsuc a) (negsuc zero) h nz ne = elim (Bool-cases (ltb (suc a) (2 ^ (w - 1)))) [
  | inl lt ↦ omega (arith, ltb→lt (suc a) (2 ^ (w - 1)) lt)
  | inr ge ↦ let e : a ≡ 2 ^ (w - 1) - 1 = ground arith in absurd (ne (ap negsuc e) refl)
]
quotient-Fits w (negsuc a) (negsuc (suc b)) h nz ne = half-Fits w a b h

module _ (w : ℕ) (a b : ℤ) (h : Fits w a) where
  plain :
      b ≢ pos 0 → (a ≡ negsuc (2 ^ (w - 1) - 1) → b ≢ negsuc 0) → IsDivision w a b (a /ℤ b) (a %ℤ b)
  plain nz no_overflow =
      exact nz (quotient_remainder a b nz) (remainder_small a b nz) (remainder_sign a b)
        (quotient-Fits w a b h nz no_overflow)

  division : IsDivision w a b (div_signed w a b) (rem_signed w a b)
  unfolding div_signed rem_signed
  division = elim (eqb-cases b (pos 0)) [
    | inl (test, e) ↦ rw test (by_zero e refl refl)
    | inr (test, nz) ↦ elim (eqb-cases a (signed_min w)) [
      | inl (test_a, ea) ↦ elim (eqb-cases b (negsuc 0)) [
        | inl (test_b, eb) ↦ rw (test, test_a, test_b) (overflow ea eb refl refl)
        | inr (test_b, nb) ↦ rw (test, test_a, test_b) (plain nz (λ _. nb))
      ]
      | inr (test_a, na) ↦ rw (test, test_a) (plain nz (λ e. absurd (na e)))
    ]
  ]

-- DIV and REM give the quotient and the remainder of the manual, for a dividend that fits the
-- width and for any divisor: an exact division with the remainder's sign that of the dividend,
-- or the results fixed for a divisor of zero and for the overflow.
pub rv_div-rv_rem-IsDivision :
    (x : Xlen) (a b : ℤ) → Fits (bits x) a → IsDivision (bits x) a b (rv_div x a b) (rv_rem x a b)
unfolding rv_div rv_rem
rv_div-rv_rem-IsDivision x a b h = division (bits x) a b h

-- DIVW and REMW give the quotient and the remainder of the manual, for a dividend of 32 bits and
-- for any divisor.
pub rv_divw-rv_remw-IsDivision :
    (a b : ℤ) → Fits 32 a → IsDivision 32 a b (rv_divw a b) (rv_remw a b)
unfolding rv_divw rv_remw
rv_divw-rv_remw-IsDivision a b h = division 32 a b h
