-- ===== src/Shift/Laws.antt =====
-- SRA and SRAW are the division by 2 ^ sh that rounds down, of the signed value of the word.
use rvem.Common.{ℕ, zero, suc, ◌+◌, ◌-◌, ◌*◌, ◌/◌, ◌%◌, ◌^◌, ◌<◌, ◌≤◌, bit_and}
use rvem.Common.{◌≡◌, ap, arith, ltb, lt→ltb, ltb→lt, inl, inr, Bool-cases}
use native.Mathlib.Nat.{one-le-pow, pow-suc, div-eq_of_lt, pow-le-pow_right, div-le_self, mod-lt}
use rvem.Common.Int.{ℤ, pos, negsuc, shr_ℤ}
use rvem.Common.Bits.{bit_and_field, bit_or_fields_swap, pow-add, bit_or-zero, bit_or-lt}
use rvem.Common.Division.{div-parts, mod-parts, div-lt, complement-div}
use rvem.Common.Word.{to_signed, ◌<<<◌, ◌>>>◌}
use rvem.Arch.{Xlen, rv32, rv64, bits}
use rvem.Shift.{shift_right, sraw, sra}

-- The sign bit of a word of n + 1 bits.
sign_clear : (n v : ℕ) → v < 2 ^ n → bit_and v (2 ^ n) ≡ 0
sign_clear n v h =
    rw (← single n)
      (omega (arith, bit_and_field n 1 v, ap (λ (t : ℕ). t % 2 * 2 ^ n) (div-eq_of_lt h)))
  where
    single : (n : ℕ) → 1 * 2 ^ n ≡ 2 ^ n
    single n = omega arith

sign_set : (n v : ℕ) → v < 2 ^ suc n → 2 ^ n ≤ v → bit_and v (2 ^ n) ≡ 2 ^ n
sign_set n v h p =
    rw (← single n) (omega (arith, bit_and_field n 1 v, top, ap (λ (t : ℕ). t % 2 * 2 ^ n) top))
  where
    single : (n : ℕ) → 1 * 2 ^ n ≡ 2 ^ n
    single n = omega arith

    top : v / 2 ^ n ≡ 1
    top =
        let parts : v ≡ 1 * 2 ^ n + (v - 2 ^ n) = omega arith in
        rw parts (div-parts (2 ^ n) 1 (v - 2 ^ n) (omega (arith, pow-suc 2 n)))

-- The ones that fill in from the left.
ones : (p q : ℕ) → 0 < p → 0 < q → ((p * q - 1) * q) % (p * q) ≡ (p - 1) * q
ones zero q hp hq = absurd (omega arith)
ones (suc a) zero hp hq = absurd (omega arith)
ones (suc a) (suc b) hp hq =
    let d : suc a - 1 ≡ a = omega arith in
    rw (d, spread) (mod-parts (suc a * suc b) b (a * suc b) (omega arith))
  where
    spread : (suc a * suc b - 1) * suc b ≡ b * (suc a * suc b) + a * suc b
    spread = let e : suc a * suc b - 1 ≡ a * b + a + b = omega arith in rw e (omega arith)

pred-mul : (p q : ℕ) → 0 < p → (p - 1) * q + q ≡ p * q
pred-mul zero q h = absurd (omega arith)
pred-mul (suc p) q h = let e : suc p - 1 ≡ p = omega arith in rw e (omega arith)

shr-zero : (z : ℤ) → z ≡ shr_ℤ z 0
shr-zero (pos n) = ap pos (omega arith)
shr-zero (negsuc n) = ap negsuc (omega arith)

-- A word of a + b bits, with the sign bit at n, shifted right by a.
module _ (n a b : ℕ) (width : suc n ≡ a + b) (a_pos : 0 < a) (b_pos : 0 < b) where
  product : 2 ^ suc n ≡ 2 ^ a * 2 ^ b
  product = rw width (pow-add a b)

  shifted-lt : (v : ℕ) → v < 2 ^ suc n → v / 2 ^ a < 2 ^ b
  shifted-lt v h = div-lt v (2 ^ b) (2 ^ a) (omega (arith, product)) (one-le-pow a 2 (omega arith))

  b-le : 2 ^ b ≤ 2 ^ n
  b-le = pow-le-pow_right {n = 2} (omega arith) (omega arith)

  minus : suc n - a ≡ b
  minus = omega arith

  -- A word with the sign bit clear is shifted as it is.
  clear_value : (v : ℕ) → v < 2 ^ n → shift_right (suc n) (2 ^ n) v a ≡ v / 2 ^ a
  unfolding shift_right
  clear_value v h = ground (arith, sign_clear n v h, bit_or-zero (v / 2 ^ a))

  -- With the sign bit set, ones come in from the left.
  set_value :
      (v : ℕ)
      → v < 2 ^ suc n
      → 2 ^ n ≤ v
      → shift_right (suc n) (2 ^ n) v a ≡ (2 ^ a - 1) * 2 ^ b + v / 2 ^ a
  unfolding shift_right
  set_value v h p =
      rw
        (
          sign_set n v h p,
          minus,
          product,
          ones (2 ^ a) (2 ^ b) (one-le-pow a 2 (omega arith)) (one-le-pow b 2 (omega arith)),
        )
        (ground
          (arith, one-le-pow n 2, bit_or_fields_swap b (2 ^ a - 1) (v / 2 ^ a) (shifted-lt v h)))

  n-pred : suc n - 1 ≡ n
  n-pred = omega arith

  case_of :
      (v : ℕ)
      → v < 2 ^ suc n
      → to_signed (suc n) (shift_right (suc n) (2 ^ n) v a) ≡ shr_ℤ (to_signed (suc n) v) a
  case_of v h = elim (Bool-cases (ltb v (2 ^ n))) [
    | inl lo ↦
        let small : v < 2 ^ n = ltb→lt v (2 ^ n) lo in
        let still : v / 2 ^ a < 2 ^ n = omega (arith, div-le_self v (2 ^ a)) in
        rw (clear_value v small, n-pred, lo, lt→ltb (v / 2 ^ a) (2 ^ n) still)
    | inr hi ↦
        let large : 2 ^ n ≤ v = ground arith in
        let full : 2 ^ suc n ≡ 2 ^ b * 2 ^ a = omega (arith, product) in
        rw (set_value v h large, n-pred, hi)
          (ground (
            arith,
            pred-mul (2 ^ a) (2 ^ b) (one-le-pow a 2 (omega arith)),
            product,
            pow-suc 2 n,
            b-le,
            shifted-lt v h,
            full,
            ap (λ (t : ℕ). (t - 1 - v) / 2 ^ a) full,
            complement-div (2 ^ a) (2 ^ b) v (one-le-pow a 2 (omega arith)) (rw full at h),
          ))
  ]

shift_right-shr :
    (n sh v : ℕ)
    → sh < suc n
    → v < 2 ^ suc n
    → to_signed (suc n) (shift_right (suc n) (2 ^ n) v sh) ≡ shr_ℤ (to_signed (suc n) v) sh
unfolding shift_right
shift_right-shr n zero v h lt = shr-zero (to_signed (suc n) v)
shift_right-shr n (suc a) v h lt =
    case_of n (suc a) (suc n - suc a) (omega arith) (omega arith) (omega arith) v lt

-- SRAW of a word by less than 32, read as a signed number, is the number divided by 2 ^ sh and
-- rounded down.
pub sraw-shr :
    (val sh : ℕ) → val < 2 ^ 32 → sh < 32 → to_signed 32 (sraw val sh) ≡ shr_ℤ (to_signed 32 val) sh
unfolding sraw
sraw-shr val sh h lt =
    let e : val % 2 ^ 32 ≡ val = omega arith in rw e (shift_right-shr 31 sh val lt h)

-- SRA of a register by less than the register's width, read as a signed number, is the number
-- divided by 2 ^ sh and rounded down, at either width.
pub sra-shr :
    (x : Xlen) (val sh : ℕ)
    → val < 2 ^ bits x
    → sh < bits x
    → to_signed (bits x) (sra x val sh) ≡ shr_ℤ (to_signed (bits x) val) sh
unfolding sra
sra-shr rv32 val sh h lt =
    let e : val % 2 ^ 32 ≡ val = omega arith in rw e (shift_right-shr 31 sh val lt h)
sra-shr rv64 val sh h lt =
    let e : val % 2 ^ 64 ≡ val = omega arith in rw e (shift_right-shr 63 sh val lt h)

shift_right-lt : (w sign v sh : ℕ) → v < 2 ^ w → shift_right w sign v sh < 2 ^ w
unfolding shift_right
shift_right-lt w sign v sh h = ground (
  arith,
  div-le_self v (2 ^ sh),
  mod-lt (((2 ^ w - 1) <<< (w - sh))) {m = 2 ^ w} (one-le-pow w 2 (omega arith)),
  one-le-pow w 2,
  bit_or-lt w (v >>> sh) 0,
  bit_or-lt w (v >>> sh) (((2 ^ w - 1) <<< (w - sh)) % 2 ^ w),
)

-- What the macros give is a pattern of the word's width.
pub sraw-lt : (val sh : ℕ) → sraw val sh < 2 ^ 32
unfolding sraw
sraw-lt val sh = shift_right-lt 32 0x80000000 (val % 2 ^ 32) sh (omega arith)

pub sra-lt : (x : Xlen) (val sh : ℕ) → sra x val sh < 2 ^ bits x
unfolding sra
sra-lt rv32 val sh = shift_right-lt 32 0x80000000 (val % 2 ^ 32) sh (omega arith)
sra-lt rv64 val sh = shift_right-lt 64 0x8000000000000000 (val % 2 ^ 64) sh (omega arith)
