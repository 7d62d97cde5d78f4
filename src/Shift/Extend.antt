-- ===== src/Shift/Extend.antt =====
-- inc/common.h: the portable sign extensions SIGN_EXTENDW and SIGN_EXTEND, which C builds from the
-- negation of the sign bit.
use rvem.Common.{
  ℕ, zero, suc, ◌+◌, ◌-◌, ◌*◌, ◌/◌, ◌%◌, ◌^◌, ◌≤◌, ◌<◌, ◌≡◌, arith, ap, ◌∙◌, bit_and, bit_or, ltb,
  Bool-cases, inl, inr, lt→ltb, ltb→lt, le→ltb,
}
use rvem.Common.Bits.{bit_or-step, bit_or-zero, zero-bit_or, mul-pow-suc, pow-add, bit_and_field}
use native.Mathlib.Nat.{
  pow-suc, one-le-pow, mod-eq_of_lt, le-mul_of_pos_right, div-eq_of_lt, div-eq_of_lt-le, mod_self,
  pow-le-pow_right, sub-zero,
}
use rvem.Common.Word
use rvem.Common.Word.{u32, ◌<<<◌}
use rvem.Arch.{Xlen, bits}

-- -(uval & (1 << (amt - 1))) | uval, on unsigned w-bit words.
unfoldable pub extend_from : (w uval amt : ℕ) → ℕ
extend_from w uval amt = bit_or ((2 ^ w - bit_and uval ((1 <<< (amt - 1)) % 2 ^ w)) % 2 ^ w) uval

unfoldable pub sign_extendwu : (uval amt : ℕ) → ℕ
unfolding extend_from
sign_extendwu uval amt = extend_from 32 uval amt

unfoldable pub sign_extendw : (val amt : ℕ) → ℕ
unfolding sign_extendwu
sign_extendw val amt = sign_extendwu (u32 val) amt

unfoldable pub sign_extendu : (x : Xlen) (uval amt : ℕ) → ℕ
unfolding extend_from
sign_extendu x uval amt = extend_from (bits x) uval amt

unfoldable pub sign_extend : (x : Xlen) (val amt : ℕ) → ℕ
unfolding sign_extendu
sign_extend x val amt = sign_extendu x (val % 2 ^ bits x) amt

bit_or_shifted :
    (k m x s : ℕ) → s < 2 ^ k → bit_or (m * 2 ^ k) (x * 2 ^ k + s) ≡ bit_or m x * 2 ^ k + s
bit_or_shifted zero m x s h = let e : s ≡ 0 = omega arith in rw e (ground arith)
bit_or_shifted (suc k) m x s h = ground (
  arith,
  bit_or-step (m * 2 ^ suc k) (x * 2 ^ suc k + s),
  mul-pow-suc m k,
  mul-pow-suc x k,
  mul-pow-suc (bit_or m x) k,
  pow-suc 2 k,
  bit_or_shifted k m x (s / 2) (omega (arith, pow-suc 2 k)),
)

odd-bit_or : (q : ℕ) → bit_or (q * 2 + 1) 1 ≡ q * 2 + 1
odd-bit_or q = ground (arith, bit_or-step (q * 2 + 1) 1, bit_or-zero q)

ones : (p m q : ℕ) → m ≡ q + 1 → 2 * (p * m) - p ≡ (q * 2 + 1) * p
ones p m q e = rw e (omega arith)

-- The sign bit k of a value of k + 1 bits, in a word of j + 1 bits more than k.
module _ (k j uval : ℕ) (h : uval < 2 ^ suc k) where
  abbrev width : ℕ
  width = k + suc j

  top : suc k - 1 ≡ k
  top = omega arith

  word_size : 2 ^ width ≡ 2 * (2 ^ k * 2 ^ j)
  word_size = omega (arith, pow-add k (suc j), ap (λ (t : ℕ). 2 ^ k * t) (pow-suc 2 j))

  bit_fits : 2 ^ k ≤ 2 ^ k * 2 ^ j
  bit_fits = le-mul_of_pos_right (2 ^ k) (one-le-pow j 2 (omega arith))

  sign_mask : 1 * 2 ^ (suc k - 1) % 2 ^ width ≡ (2 ^ 1 - 1) * 2 ^ k
  sign_mask = rw (
    top,
    mod-eq_of_lt {n = 1 * 2 ^ k} {m = 2 ^ width}
        (omega (arith, word_size, bit_fits, one-le-pow k 2 (omega arith))),
  )

  clear : uval < 2 ^ k → bit_and uval (1 * 2 ^ (suc k - 1) % 2 ^ width) ≡ 0
  clear small = rw (sign_mask, bit_and_field k 1 uval, div-eq_of_lt small) (omega arith)

  is_set : 2 ^ k ≤ uval → bit_and uval (1 * 2 ^ (suc k - 1) % 2 ^ width) ≡ 2 ^ k
  is_set big =
      rw
        (
          sign_mask,
          bit_and_field k 1 uval,
          div-eq_of_lt-le {k = 1} (2 ^ k) {m = uval} (omega arith) (omega (arith, pow-suc 2 k)),
        )
        (omega arith)

  wraps : (2 ^ width - 0) % 2 ^ width ≡ 0
  wraps = ap (λ (n : ℕ). n % 2 ^ width) (sub-zero (2 ^ width)) ∙ mod_self (2 ^ width)

  positive : uval < 2 ^ k → extend_from width uval (suc k) ≡ Word.sign_extend (suc k) width uval
  unfolding extend_from
  positive small =
      rw (clear small, mod-eq_of_lt h, top, lt→ltb uval (2 ^ k) small)
        (rw (
          wraps,
          zero-bit_or uval,
          mod-eq_of_lt {n = uval} {m = 2 ^ width} (omega (arith, word_size, bit_fits, small)),
        ))

  upper : (2 ^ width - 2 ^ k) % 2 ^ width ≡ ((2 ^ j - 1) * 2 + 1) * 2 ^ k
  upper =
      rw
        (mod-eq_of_lt {n = 2 ^ width - 2 ^ k} {m = 2 ^ width}
          (omega (arith, word_size, bit_fits, one-le-pow k 2 (omega arith))))
        (omega (
          arith,
          word_size,
          ones (2 ^ k) (2 ^ j) (2 ^ j - 1) (omega (arith, one-le-pow j 2 (omega arith))),
        ))

  negative : 2 ^ k ≤ uval → extend_from width uval (suc k) ≡ Word.sign_extend (suc k) width uval
  unfolding extend_from
  negative big =
      rw (is_set big, upper, mod-eq_of_lt h, top, le→ltb uval (2 ^ k) big)
        (rw
          (mod-eq_of_lt {n = 2 ^ suc k - 1 - uval} {m = 2 ^ width}
            (omega (arith, word_size, bit_fits, pow-suc 2 k)))
          (ap (bit_or (((2 ^ j - 1) * 2 + 1) * 2 ^ k)) split
            ∙ bit_or_shifted k ((2 ^ j - 1) * 2 + 1) 1 (uval - 2 ^ k) (omega (arith, pow-suc 2 k))
            ∙ ap (λ (m : ℕ). m * 2 ^ k + (uval - 2 ^ k)) (odd-bit_or (2 ^ j - 1))
            ∙ omega (
              arith,
              word_size,
              bit_fits,
              pow-suc 2 k,
              ones (2 ^ k) (2 ^ j) (2 ^ j - 1) (omega (arith, one-le-pow j 2 (omega arith))),
            )))
    where
      split : uval ≡ 1 * 2 ^ k + (uval - 2 ^ k)
      split = omega arith

  extended : extend_from width uval (suc k) ≡ Word.sign_extend (suc k) width uval
  extended = elim (Bool-cases (ltb uval (2 ^ k))) [
    | inl e ↦ positive (ltb→lt uval (2 ^ k) e)
    | inr e ↦ negative (ground arith)
  ]

extend_from-sign_extend :
    (w uval amt : ℕ)
    → 0 < amt
    → amt ≤ w
    → uval < 2 ^ amt
    → extend_from w uval amt ≡ Word.sign_extend amt w uval
extend_from-sign_extend w uval zero p le h = absurd (omega arith)
extend_from-sign_extend w uval (suc k) p le h =
    let e : k + suc (w - suc k) ≡ w = omega arith in rw e at (extended k (w - suc k) uval h)

below : (w amt val : ℕ) → amt ≤ w → val < 2 ^ amt → val < 2 ^ w
below w amt val le h = omega (arith, pow-le-pow_right {n = 2} (omega arith) le)

-- SIGN_EXTENDW of a value of amt bits, from 1 to 32 of them and none above set, is the word of the
-- signed number that the value stands for.
pub sign_extendw_lem :
    (val amt : ℕ)
    → 0 < amt
    → amt ≤ 32
    → val < 2 ^ amt
    → sign_extendw val amt ≡ Word.sign_extend amt 32 val
unfolding sign_extendw sign_extendwu
sign_extendw_lem val amt p le h =
    rw (mod-eq_of_lt (below 32 amt val le h)) (extend_from-sign_extend 32 val amt p le h)

-- SIGN_EXTEND of a value of amt bits, from 1 to XLEN of them and none above set, is the register
-- with the signed number that the value stands for.
pub sign_extend_lem :
    (x : Xlen) (val amt : ℕ)
    → 0 < amt
    → amt ≤ bits x
    → val < 2 ^ amt
    → sign_extend x val amt ≡ Word.sign_extend amt (bits x) val
unfolding sign_extend sign_extendu
sign_extend_lem x val amt p le h =
    rw (mod-eq_of_lt (below (bits x) amt val le h))
      (extend_from-sign_extend (bits x) val amt p le h)
