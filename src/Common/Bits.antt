-- ===== src/Common/Bits.antt =====
-- The bit operations at variables, as arithmetic: a mask takes a field of a word, and an or of
-- values with no common bit is their sum. The native operations mean a recursion on binary digits
-- with fuel, which is dropped first.
use Prim.Native.Nat.{ℕ, zero, suc, ◌+◌, ◌-◌, ◌*◌, ◌/◌, ◌%◌, ◌^◌, ◌≤◌, ◌<◌, min, max}
use Prim.Native.Nat.{bit_and, bit_or, bit_xor, digits, bitwise, differ}
use Prim.Native.Nat.{bit_and-bitwise, bit_or-bitwise, bit_xor-bitwise}
use mathlib.Core.Path.{◌≡◌, refl, ap}
use mathlib.Core.WellFounded
use mathlib.Core.WellFounded.{Acc}
use native.Mathlib.Nat.{pow-suc, one-le-pow, le_refl, add-zero, add-suc}
use native.Mathlib.Omega.{arith}

Acc-below : (k n : ℕ) → n < k → Acc ◌<◌ n
Acc-below zero n h = elim h [ ]
Acc-below (suc k) n h = Acc.intro n (λ m hm. Acc-below k m (omega arith))

lt_wf : WellFounded.WellFounded ◌<◌
lt_wf = record { apply = λ n. Acc-below (suc n) n (omega arith) }

module _ (z : ℕ → ℕ) (f : ℕ → ℕ → ℕ) where
  enough_fuel : (n m a b : ℕ) → a ≤ n → a ≤ m → digits z f n a b ≡ digits z f m a b
  enough_fuel zero zero a b p q = refl
  enough_fuel zero (suc m) zero b p q = refl
  enough_fuel zero (suc m) (suc a) b p q = absurd (omega arith)
  enough_fuel (suc n) zero zero b p q = refl
  enough_fuel (suc n) zero (suc a) b p q = absurd (omega arith)
  enough_fuel (suc n) (suc m) zero b p q = refl
  enough_fuel (suc n) (suc m) (suc a) b p q =
      rw (enough_fuel n m (suc a / 2) (b / 2) (omega arith) (omega arith))

  lowest_digit :
      (a b : ℕ)
      → bitwise z f (suc a) b ≡ bitwise z f (suc a / 2) (b / 2) * 2 + f (suc a % 2) (b % 2)
  lowest_digit a b =
      omega (arith, enough_fuel a (suc a / 2) (suc a / 2) (b / 2) (omega arith) (le_refl _))

pub bit_and-step : (a b : ℕ) → bit_and a b ≡ bit_and (a / 2) (b / 2) * 2 + min (a % 2) (b % 2)
bit_and-step zero b = simp bit_and-bitwise (omega arith)
bit_and-step (suc a) b = simp bit_and-bitwise (lowest_digit (λ y. 0) min a b)

pub bit_or-step : (a b : ℕ) → bit_or a b ≡ bit_or (a / 2) (b / 2) * 2 + max (a % 2) (b % 2)
bit_or-step zero b = simp bit_or-bitwise (omega arith)
bit_or-step (suc a) b = simp bit_or-bitwise (lowest_digit (λ y. y) max a b)

bit_xor-step : (a b : ℕ) → bit_xor a b ≡ bit_xor (a / 2) (b / 2) * 2 + differ (a % 2) (b % 2)
bit_xor-step zero b = simp bit_xor-bitwise (omega arith)
bit_xor-step (suc a) b = simp bit_xor-bitwise (lowest_digit (λ y. y) differ a b)

pub bit_and-zero : (a : ℕ) → bit_and a 0 ≡ 0
bit_and-zero a = WellFounded.induction lt_wf a halve
  where
    halve : (n : ℕ) → ((m : ℕ) → m < n → bit_and m 0 ≡ 0) → bit_and n 0 ≡ 0
    halve zero ih = refl
    halve (suc n) ih = omega (arith, bit_and-step (suc n) 0, ih (suc n / 2) (omega arith))

pub bit_or-zero : (a : ℕ) → bit_or a 0 ≡ a
bit_or-zero a = WellFounded.induction lt_wf a halve
  where
    halve : (n : ℕ) → ((m : ℕ) → m < n → bit_or m 0 ≡ m) → bit_or n 0 ≡ n
    halve zero ih = refl
    halve (suc n) ih = omega (arith, bit_or-step (suc n) 0, ih (suc n / 2) (omega arith))

pub zero-bit_or : (a : ℕ) → bit_or 0 a ≡ a
zero-bit_or a = bit_or-bitwise 0 a

pub mul-pow-suc : (q k : ℕ) → q * 2 ^ suc k ≡ 2 * (q * 2 ^ k)
mul-pow-suc q k = omega (arith, ap (λ (t : ℕ). q * t) (pow-suc 2 k))

pub pow-add : (a b : ℕ) → 2 ^ (a + b) ≡ 2 ^ a * 2 ^ b
pow-add a zero = rw (add-zero a) (omega arith)
pow-add a (suc b) = rw (add-suc a b) (
    omega
      (arith, pow-suc 2 (a + b), pow-suc 2 b, pow-add a b, ap (λ (t : ℕ). 2 ^ a * t) (pow-suc 2 b)))

-- An or of two values with no common bit, the upper one a multiple of 2 ^ k.
pub bit_or_fields : (k q r : ℕ) → r < 2 ^ k → bit_or (q * 2 ^ k) r ≡ q * 2 ^ k + r
bit_or_fields zero q r h = ground (arith, bit_or-zero q)
bit_or_fields (suc k) q r h = ground (
  arith,
  bit_or-step (q * 2 ^ suc k) r,
  mul-pow-suc q k,
  pow-suc 2 k,
  bit_or_fields k q (r / 2) (omega (arith, pow-suc 2 k)),
)

pub bit_or_fields_swap : (k q r : ℕ) → r < 2 ^ k → bit_or r (q * 2 ^ k) ≡ q * 2 ^ k + r
bit_or_fields_swap zero q r h = ground (arith, zero-bit_or q)
bit_or_fields_swap (suc k) q r h = ground (
  arith,
  bit_or-step r (q * 2 ^ suc k),
  mul-pow-suc q k,
  pow-suc 2 k,
  bit_or_fields_swap k q (r / 2) (omega (arith, pow-suc 2 k)),
)

-- A mask of w low bits.
bit_and_low : (w q r : ℕ) → r < 2 ^ w → bit_and (q * 2 ^ w + r) (2 ^ w - 1) ≡ r
bit_and_low zero q r h = rw bit_and-zero (omega arith)
bit_and_low (suc w) q r h = ground (
  arith,
  bit_and-step (q * 2 ^ suc w + r) (2 ^ suc w - 1),
  mul-pow-suc q w,
  pow-suc 2 w,
  one-le-pow w 2,
  bit_and_low w q (r / 2) (omega (arith, pow-suc 2 w)),
)

bit_and_shifted :
    (lo x m s : ℕ) → s < 2 ^ lo → bit_and (x * 2 ^ lo + s) (m * 2 ^ lo) ≡ bit_and x m * 2 ^ lo
bit_and_shifted zero x m s h = let e : s ≡ 0 = omega arith in rw e (ground arith)
bit_and_shifted (suc lo) x m s h = ground (
  arith,
  bit_and-step (x * 2 ^ suc lo + s) (m * 2 ^ suc lo),
  mul-pow-suc x lo,
  mul-pow-suc m lo,
  mul-pow-suc (bit_and x m) lo,
  pow-suc 2 lo,
  bit_and_shifted lo x m (s / 2) (omega (arith, pow-suc 2 lo)),
)

-- A mask of w bits from bit lo on.
pub bit_and_field : (lo w x : ℕ) → bit_and x ((2 ^ w - 1) * 2 ^ lo) ≡ x / 2 ^ lo % 2 ^ w * 2 ^ lo
bit_and_field lo w x = ground (
  arith,
  one-le-pow lo 2,
  one-le-pow w 2,
  bit_and_shifted lo (x / 2 ^ lo) (2 ^ w - 1) (x % 2 ^ lo),
  bit_and_low w (x / 2 ^ lo / 2 ^ w) (x / 2 ^ lo % 2 ^ w),
)

pub bit_and-lt : (k a b : ℕ) → a < 2 ^ k → bit_and a b < 2 ^ k
bit_and-lt zero a b h = let e : a ≡ 0 = omega arith in rw e (omega (arith, bit_and-bitwise 0 b))
bit_and-lt (suc k) a b h = ground (
  arith,
  bit_and-step a b,
  pow-suc 2 k,
  bit_and-lt k (a / 2) (b / 2) (omega (arith, pow-suc 2 k)),
)

pub bit_or-lt : (k a b : ℕ) → a < 2 ^ k → b < 2 ^ k → bit_or a b < 2 ^ k
bit_or-lt zero a b h p = let e : a ≡ 0 = omega arith in rw e (omega (arith, zero-bit_or b))
bit_or-lt (suc k) a b h p = ground (
  arith,
  bit_or-step a b,
  pow-suc 2 k,
  bit_or-lt k (a / 2) (b / 2) (omega (arith, pow-suc 2 k)) (omega (arith, pow-suc 2 k)),
)

differ-lt : (a b : ℕ) → a < 2 → b < 2 → differ a b < 2
differ-lt zero b h p = p
differ-lt (suc a) zero h p = h
differ-lt (suc a) (suc b) h p =
    let e : a ≡ 0 = omega arith in let f : b ≡ 0 = omega arith in rw (e, f) (omega arith)

pub bit_xor-lt : (k a b : ℕ) → a < 2 ^ k → b < 2 ^ k → bit_xor a b < 2 ^ k
bit_xor-lt zero a b h p = let e : a ≡ 0 = omega arith in rw e (omega (arith, bit_xor-bitwise 0 b))
bit_xor-lt (suc k) a b h p = ground (
  arith,
  bit_xor-step a b,
  pow-suc 2 k,
  differ-lt (a % 2) (b % 2),
  bit_xor-lt k (a / 2) (b / 2) (omega (arith, pow-suc 2 k)) (omega (arith, pow-suc 2 k)),
)
